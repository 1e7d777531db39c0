-- ===== src/Db/Image/Writes.antt =====
-- The image after each kind of write.
use apue.Prelude.{
  update, update_cases, ℕ, ◌*◌, ◌≤◌, ◌≡◌, ◌≢◌, inl, inr, refl, sym, subst, Option, some, none,
  arith, length,
}
use apue.Text.{Bytes}
use apue.File.{pwrite}
use apue.File.Laws.{length-pwrite}
use apue.Db.State.{ptr_sz, ptr_max}
use apue.Db.Layout.{ptr_text, length-ptr_text}
use apue.Db.Chain.{Item, entry}
use apue.Db.Io.RoundTrip.{pwrite-PtrAt}
use apue.Db.Image.{Image, extent, data_len, Apart, Stands, StandsAt, Distant, Holds}
use apue.Db.Image.Frame.{
  Same, pwrite-Same, keep-PtrAt, keep-RecordAt, keep-DataAt, RecordAt-inside, DataAt-inside,
}

pub flip : (a m b n : ℕ) → Apart a m b n → Apart b n a m
flip a m b n (inl h) = inr h
flip a m b n (inr h) = inl h

swap : (p q : ℕ) (r t : Option (ℕ × Item)) → Distant p q r t → Distant q p t r
swap p q none none d = tt
swap p q none (some t) d = tt
swap p q (some r) none d = tt
swap p q (some (n, j)) (some (k, l)) d = λ ne.
    let a = d (λ e. ne (sym e)) in
    (flip p (extent j) q (extent l) a.0, flip j.start (data_len j) l.start (data_len l) a.1)

self : (p : ℕ) (r t : Option (ℕ × Item)) → Distant p p r t
self p none t = tt
self p (some r) none = tt
self p (some (n, j)) (some (k, l)) = λ ne. absurd (ne refl)

module _ (nhash : ℕ) (idx dat : Bytes) (m : Image) (h : Holds nhash idx dat m) where
  -- A chain pointer of the table.
  pub write_slot :
      (s n : ℕ)
      → s ≤ nhash
      → n ≤ ptr_max
      → Holds nhash
          (pwrite idx (s * ptr_sz) (ptr_text n))
          dat
          (record m { slot = update m.slot s n })
  write_slot s n small fits =
      let x =
        pwrite-Same idx (s * ptr_sz) (ptr_text n) ptr_sz (omega (arith, length-ptr_text n fits)) in
      let g = pwrite idx (s * ptr_sz) (ptr_text n) in
      record {
        table = omega (arith, length-pwrite idx (s * ptr_sz) (ptr_text n), h.table);
        slots = λ j k. elim (update_cases m.slot s n j) [
          | inl (same, v) ↦ rw (v, same) (pwrite-PtrAt idx (s * ptr_sz) n fits)
          | inr (other, v) ↦ rw v (
              keep-PtrAt idx g (s * ptr_sz) ptr_sz x (j * ptr_sz) (m.slot j) (slots_apart j s other)
                (h.slots j k))
        ];
        recs = λ o. kept o (m.rec o) (h.recs o);
        apart = h.apart;
      }
    where
      kept :
          (o : ℕ) (r : Option (ℕ × Item))
          → StandsAt nhash idx dat o r
          → StandsAt nhash (pwrite idx (s * ptr_sz) (ptr_text n)) dat o r
      kept o none t = tt
      kept o (some (next, i)) r = record {
        behind = r.behind;
        reach = r.reach;
        is_entry = r.is_entry;
        text_at = r.text_at;
        clean = r.clean;
        at =
            keep-RecordAt idx (pwrite idx (s * ptr_sz) (ptr_text n)) (s * ptr_sz) ptr_sz
              (pwrite-Same idx (s * ptr_sz) (ptr_text n) ptr_sz
                (omega (arith, length-ptr_text n fits)))
              o next (entry i) (inr (omega (arith, r.behind))) r.is_entry r.at;
      }

      slots_apart : (j k : ℕ) → j ≢ k → Apart (j * ptr_sz) ptr_sz (k * ptr_sz) ptr_sz
      slots_apart j k ne = ground arith

  -- The record at `o` becomes another of the same extent, in the same places.
  module _ (g dat' : Bytes) (o next next' : ℕ) (i i' : Item) (was : m.rec o ≡ some (next, i))
      (new : Stands nhash g dat' o next' i') (same_extent : extent i' ≡ extent i)
      (same_start : i'.start ≡ i.start) (same_len : data_len i' ≡ data_len i)
      (x : Same idx g o (extent i)) (y : Same dat dat' i.start (data_len i))
      (longer : length idx ≤ length g) where
    abbrev pub changed : Image
    changed = record m { rec = update m.rec o (some (next', i')) }

    old : Stands nhash idx dat o next i
    old = subst (StandsAt nhash idx dat o) was (h.recs o)

    -- Another record is apart from the old one, and so from the new one.
    far : (p : ℕ) (r : Option (ℕ × Item)) → m.rec p ≡ r → p ≢ o → Distant p o r (some (next, i))
    far p r e ne =
        subst (λ q. Distant p o r q) was (subst (λ q. Distant p o q (m.rec o)) e (h.apart p o))

    kept_rec : (p : ℕ) (r : Option (ℕ × Item)) → m.rec p ≡ r → p ≢ o → StandsAt nhash g dat' p r
    kept_rec p none e ne = tt
    kept_rec p (some (n, j)) e ne =
        let s = subst (StandsAt nhash idx dat p) e (h.recs p) in
        let d = far p (some (n, j)) e ne ne in
        record {
          behind = s.behind;
          reach = s.reach;
          is_entry = s.is_entry;
          clean = s.clean;
          at = keep-RecordAt idx g o (extent i) x p n (entry j) d.0 s.is_entry s.at;
          text_at = keep-DataAt dat dat' i.start (data_len i) y j.start j.text d.1 s.text_at;
        }

    moved_far :
        (p : ℕ) (r : Option (ℕ × Item))
        → Distant p o r (some (next, i))
        → Distant p o r (some (next', i'))
    moved_far p none d = tt
    moved_far p (some (n, j)) d = λ ne. (
      subst (λ k. Apart p (extent j) o k) (sym same_extent) (d ne).0,
      subst (λ k. Apart j.start (data_len j) k (data_len i')) (sym same_start)
          (subst (λ k. Apart j.start (data_len j) i.start k) (sym same_len) (d ne).1),
    )

    pub change-Holds : Holds nhash g dat' changed
    change-Holds = record {
      table = omega (arith, h.table);
      slots = λ s k.
          keep-PtrAt idx g o (extent i) x (s * ptr_sz) (m.slot s) (inl (omega (arith, old.behind)))
            (h.slots s k);
      recs = λ p. elim (update_cases m.rec o (some (next', i')) p) [
        | inl (same, v) ↦ rw (v, same) new
        | inr (other, v) ↦ rw v (kept_rec p (m.rec p) refl other)
      ];
      apart = λ p q. elim (update_cases m.rec o (some (next', i')) p) [
        | inl (pe, pv) ↦ elim (update_cases m.rec o (some (next', i')) q) [
          | inl (qe, qv) ↦ rw (pe, qe) (self o _ _)
          | inr (qn, qv) ↦
              rw (pv, qv, pe)
                (swap q o (m.rec q) (some (next', i'))
                  (moved_far q (m.rec q) (far q (m.rec q) refl qn)))
        ]
        | inr (pn, pv) ↦ elim (update_cases m.rec o (some (next', i')) q) [
          | inl (qe, qv) ↦ rw (pv, qv, qe) (moved_far p (m.rec p) (far p (m.rec p) refl pn))
          | inr (qn, qv) ↦ rw (pv, qv) (h.apart p q)
        ]
      ];
    }

  -- A record behind everything in both files joins.
  module _ (g dat' : Bytes) (o next : ℕ) (i : Item) (new : Stands nhash g dat' o next i)
      (end_idx : length idx ≤ o) (end_dat : length dat ≤ i.start) (x : Same idx g o (extent i))
      (y : Same dat dat' i.start (data_len i)) (longer : length idx ≤ length g) where
    abbrev pub added : Image
    added = record m { rec = update m.rec o (some (next, i)) }

    in_front :
        (p : ℕ) (r : Option (ℕ × Item))
        → StandsAt nhash idx dat p r
        → Distant p o r (some (next, i))
    in_front p none s = tt
    in_front p (some (n, j)) s = λ ne. (
      inl (omega (arith, RecordAt-inside idx p n (entry j) s.is_entry s.at)),
      inl (omega (arith, DataAt-inside dat j.start j.text s.text_at)),
    )

    stays : (p : ℕ) (r : Option (ℕ × Item)) → StandsAt nhash idx dat p r → StandsAt nhash g dat' p r
    stays p none s = tt
    stays p (some (n, j)) s = record {
      behind = s.behind;
      reach = s.reach;
      is_entry = s.is_entry;
      clean = s.clean;
      at =
          keep-RecordAt idx g o (extent i) x p n (entry j)
            (inl (omega (arith, RecordAt-inside idx p n (entry j) s.is_entry s.at))) s.is_entry
            s.at;
      text_at =
          keep-DataAt dat dat' i.start (data_len i) y j.start j.text
            (inl (omega (arith, DataAt-inside dat j.start j.text s.text_at))) s.text_at;
    }

    pub add-Holds : Holds nhash g dat' added
    add-Holds = record {
      table = omega (arith, h.table);
      slots = λ s k.
          keep-PtrAt idx g o (extent i) x (s * ptr_sz) (m.slot s) (inl (omega (arith, h.table)))
            (h.slots s k);
      recs = λ p. elim (update_cases m.rec o (some (next, i)) p) [
        | inl (same, v) ↦ rw (v, same) new
        | inr (other, v) ↦ rw v (stays p (m.rec p) (h.recs p))
      ];
      apart = λ p q. elim (update_cases m.rec o (some (next, i)) p) [
        | inl (pe, pv) ↦ elim (update_cases m.rec o (some (next, i)) q) [
          | inl (qe, qv) ↦ rw (pe, qe) (self o _ _)
          | inr (qn, qv) ↦
              rw (pv, qv, pe)
                (swap q o (m.rec q) (some (next, i)) (in_front q (m.rec q) (h.recs q)))
        ]
        | inr (pn, pv) ↦ elim (update_cases m.rec o (some (next, i)) q) [
          | inl (qe, qv) ↦ rw (pv, qv, qe) (in_front p (m.rec p) (h.recs p))
          | inr (qn, qv) ↦ rw (pv, qv) (h.apart p q)
        ]
      ];
    }
