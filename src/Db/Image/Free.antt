-- ===== src/Db/Image/Free.antt =====
-- A record goes from its hash chain to the free list, blank.
use apue.Prelude.{
  ℕ, ◌*◌, ◌≤◌, ◌≡◌, ◌≢◌, refl, sym, ap, subst, fun_ext, List, [], ◌∷◌, map, replicate, some, arith,
  length, length-map, length-replicate, All-replicate, Lacks, update,
}
use apue.Text.{Bytes}
use apue.File.{pwrite}
use apue.File.Laws.{length-pwrite}
use apue.Db.State.{space, sep, ptr_sz, ptr_max}
use apue.Db.Layout.{ptr_text, length-ptr_text}
use apue.Db.Chain.{Item, entry, first}
use apue.Db.Image.{Image, extent, Stands, StandsAt, Holds}
use apue.Db.Image.Frame.{pwrite-Same, RecordAt-pwrite_ptr}
use apue.Db.Image.Writes.{write_slot, change-Holds}
use apue.Db.Image.Rewrite.{Alike, dat_over, idx_over, rewrite-Holds}
use apue.Db.Image.Lists.{last_off}
use apue.Db.Image.Relink.{redirect, unlinked, pushed}

-- Spaces in place of the key and of the data.
abbrev pub blank : Item → Item
blank i = record i { key = map (λ c. space) i.key; text = replicate (length i.text) space }

pub update_comm {ℓ} :
    {A : Type ℓ} (f : ℕ → A) (j k : ℕ) (v w : A)
    → j ≢ k
    → update (update f j v) k w ≡ update (update f k w) j v
update_comm f j k v w ne = fun_ext (λ x. ground arith)

spaces-Lacks : (b : ℕ) (s : Bytes) → b ≢ space → Lacks b (map (λ c. space) s)
spaces-Lacks b [] ne = tt
spaces-Lacks b (c ∷ s) ne = ((λ e. ne (sym e)), spaces-Lacks b s ne)

pub blank-Alike : (i : Item) → Alike i (blank i).key (blank i).text
blank-Alike i = record {
  key_length = length-map i.key (λ c. space);
  text_length = length-replicate (length i.text) space;
  no_sep = spaces-Lacks sep i.key (omega arith);
  no_nul = spaces-Lacks 0 i.key (omega arith);
  clean = All-replicate (λ c. c ≢ 0) (length i.text) space (omega arith);
}

module _ (nhash : ℕ) (m : Image) (idx dat : Bytes) (h : Holds nhash idx dat m) (i : Item) (next : ℕ)
    (was : m.rec i.off ≡ some (next, i)) where
  abbrev pub blank_dat : Bytes
  blank_dat =
      dat_over nhash m idx dat h i next was (blank i).key (blank i).text (blank-Alike i) (m.slot 0)

  abbrev pub freed_idx : Bytes
  freed_idx =
      pwrite
        (idx_over nhash m idx dat h i next was (blank i).key (blank i).text (blank-Alike i)
          (m.slot 0))
        0 (ptr_text i.off)

  pub freed-Holds : Holds nhash freed_idx blank_dat (pushed m 0 (blank i) (m.slot 0))
  freed-Holds =
      let stood = subst (StandsAt nhash idx dat i.off) was (h.recs i.off) in
      write_slot nhash _ blank_dat _
        (rewrite-Holds nhash m idx dat h i next was (blank i).key (blank i).text (blank-Alike i)
          (m.slot 0) (h.slots 0 (omega arith)).fits)
        0 i.off (omega arith) stood.reach

-- The pointer to a record goes past it.
pub unlink-Holds :
    (nhash : ℕ) (m : Image) (idx dat : Bytes) (s : ℕ) (ys zs : List Item)
    → Holds nhash idx dat m
    → s ≤ nhash
    → first zs ≤ ptr_max
    → ((b : Item) (us : List Item)
        → ys ≡ b ∷ us
        → (n : ℕ) × (c : Item) × (m.rec (last_off b.off us) ≡ some (n, c)))
    → Holds nhash
        (pwrite idx (last_off (s * ptr_sz) ys) (ptr_text (first zs)))
        dat
        (unlinked m s ys zs)
unlink-Holds nhash m idx dat s [] zs h k fits at = write_slot nhash idx dat m h s (first zs) k fits
unlink-Holds nhash m idx dat s (b ∷ us) zs h k fits at =
    let p = last_off b.off us in
    let (n, c, was) = at b us refl in
    let st = subst (StandsAt nhash idx dat p) was (h.recs p) in
    let g = pwrite idx p (ptr_text (first zs)) in
    let new : Stands nhash g dat p (first zs) c = record {
      behind = st.behind;
      reach = st.reach;
      is_entry = st.is_entry;
      text_at = st.text_at;
      clean = st.clean;
      at = RecordAt-pwrite_ptr idx p n (first zs) (entry c) fits st.is_entry st.at;
    } in
    let done =
      change-Holds nhash idx dat m h g dat p n (first zs) c c was new refl refl refl
        (pwrite-Same idx p (ptr_text (first zs)) (extent c)
          (omega (arith, length-ptr_text (first zs) fits)))
        (λ i n a l. refl) (omega (arith, length-pwrite idx p (ptr_text (first zs)))) in
    subst (λ r. Holds nhash g dat (record m { rec = update m.rec p r }))
      (sym (ap (redirect (first zs)) was)) done
