-- ===== src/Db/Whole/Reuse.antt =====
-- reuse_record on a whole database: a free record takes the new key and data.
use apue.Prelude.{
  ℕ, suc, ◌+◌, ◌*◌, ◌<◌, ◌≤◌, ◌≡◌, ◌≢◌, refl, sym, subst, ◌∙◌, inl, inr, List, [], ◌∷◌, ◌++◌, some,
  arith, length, append-All, update, update_ne, update_cases,
}
use apue.Prelude.Int.{pos}
use apue.Text.{Bytes}
use apue.File.{pwrite}
use apue.Db.State.{Db, ok, ptr_sz, ptr_max, free_off}
use apue.Db.Io.{seek_set}
use apue.Db.Io.Writes.{db_writedat_lem, wrote_dat, db_writeidx_lem, wrote_idx}
use apue.Db.Io.Laws.{db_writeptr_lem}
use apue.Db.Layout.{ptr_text}
use apue.Db.Chain.{Item, first, Chain}
use apue.Db.Calls.{reuse_record}
use apue.Db.Image.{Image, Stands, StandsAt, Holds, Avoids, Linked}
use apue.Db.Image.Writes.{write_slot}
use apue.Db.Image.Lists.{last_off, Avoids-last, Linked-middle, Linked-cut}
use apue.Db.Image.Relink.{Shape, unlinked, pushed, push-Shape, unlink-Shape, unlink-Loose}
use apue.Db.Image.Rewrite.{Alike, rewritten, rewritten-IsEntry, rewrite-Holds}
use apue.Db.Image.Free.{unlink-Holds}
use apue.Db.Whole.{Sound, DistinctKeys, Fresh}
use apue.Db.Whole.Freelist.{taken}

module _ (d : Db) (m : Image) (ls : ℕ → List Item) (w : Sound d m ls) (s : ℕ) (small : s < d.nhash)
    (key text : Bytes) (fuel keylen datlen : ℕ) (c : Chain d.idx free_off (ls 0))
    (enough : length (ls 0) < fuel) (ys : List Item) (i : Item) (zs : List Item)
    (q : ls 0 ≡ ys ++ i ∷ zs) (a : Alike i key text) where
  abbrev slot : ℕ
  slot = suc s

  abbrev chain_next : ℕ
  chain_next = first (ls slot)

  abbrev off_list : Image
  off_list = unlinked m 0 ys zs

  chain : Linked m (ys ++ i ∷ zs)
  chain = subst (Linked m) q (w.shape.linked 0 (omega arith))

  stands : Stands d.nhash d.idx d.dat i.off (first zs) i
  stands =
      subst (StandsAt d.nhash d.idx d.dat i.off) (Linked-middle m ys i zs chain).0
        (w.holds.recs i.off)

  still_there : (us : List Item) → ys ≡ us → (unlinked m 0 us zs).rec i.off ≡ some (first zs, i)
  still_there [] e = (Linked-middle m ys i zs chain).0
  still_there (b ∷ us) e =
      let out = (Linked-middle m ys i zs chain).1 in
      let far =
        Avoids-last i.off b us
          (subst (Avoids i.off) e (append-All (λ j. j.off ≢ i.off) ys zs out).0) in
      update_ne m.rec (last_off b.off us) _ i.off (λ x. far (sym x))
      ∙ (Linked-middle m ys i zs chain).0

  in_table : slot ≤ d.nhash
  in_table = omega arith

  next_fits : chain_next ≤ ptr_max
  next_fits = omega (arith, (w.holds.slots slot in_table).fits, w.shape.heads slot in_table)

  abbrev start : Db
  start = taken fuel keylen datlen (ls 0) d c enough ys i zs

  abbrev put_dat : Db
  put_dat = wrote_dat text i.start start seek_set

  abbrev put_idx : Db
  put_idx = wrote_idx key i.off chain_next put_dat seek_set

  abbrev pub reused : Db
  reused = record put_idx {
    idx = pwrite put_idx.idx d.chainoff (ptr_text i.off);
    cursor = d.chainoff + ptr_sz;
  }

  pub reuse_record_lem : reuse_record key text (pos chain_next) start ≡ ok tt reused
  unfolding reuse_record
  reuse_record_lem = rw (
    db_writedat_lem text i.start start seek_set,
    db_writeidx_lem key i.off chain_next put_dat next_fits
        (rewritten-IsEntry i key text a stands.is_entry) seek_set,
    db_writeptr_lem d.chainoff i.off put_idx stands.reach,
  )

  abbrev pub reused_image : Image
  reused_image = pushed off_list slot (rewritten i key text) chain_next

  abbrev pub reused_lists : ℕ → List Item
  reused_lists = update (update ls 0 (ys ++ zs)) slot (rewritten i key text ∷ ls slot)

  reused-Holds : d.chainoff ≡ slot * ptr_sz → Holds d.nhash reused.idx reused.dat reused_image
  reused-Holds e =
      let taken_off =
        unlink-Holds d.nhash m d.idx d.dat 0 ys zs w.holds (omega arith) stands.at.fits (λ b us p.
          let (x, at, cut) = Linked-cut m b us i zs (subst (λ l. Linked m (l ++ i ∷ zs)) p chain) in
          (i.off, x, at)) in
      let over =
        rewrite-Holds d.nhash off_list start.idx d.dat taken_off i (first zs) (still_there ys refl)
          key text a chain_next next_fits in
      subst (λ p. Holds d.nhash (pwrite put_idx.idx p (ptr_text i.off)) put_dat.dat reused_image)
        (sym e) (write_slot d.nhash put_idx.idx put_dat.dat _ over slot i.off in_table stands.reach)

  pub reused-Sound :
      d.chainoff ≡ slot * ptr_sz → Fresh key (ls slot) → Sound reused reused_image reused_lists
  reused-Sound e fresh =
      let same : update ls 0 (ys ++ zs) slot ≡ ls slot =
        update_ne ls 0 (ys ++ zs) slot (omega arith) in
      let u = unlink-Shape d.nhash m ls w.shape 0 (omega arith) i zs ys q in
      let loose = unlink-Loose d.nhash m ls w.shape 0 (omega arith) i zs ys q in
      record {
        table = w.table;
        some_chains = w.some_chains;
        holds = reused-Holds e;
        shape =
            subst
              (λ l.
                Shape d.nhash (pushed off_list slot (rewritten i key text) (first l))
                  (update (update ls 0 (ys ++ zs)) slot (rewritten i key text ∷ l)))
              same
              (push-Shape d.nhash off_list (update ls 0 (ys ++ zs)) u slot (rewritten i key text)
                in_table loose);
        distinct = λ h k.
            elim (update_cases (update ls 0 (ys ++ zs)) slot (rewritten i key text ∷ ls slot)
              (suc h)) [
                | inl (x, v) ↦ subst DistinctKeys (sym v) (fresh, w.distinct s small)
                | inr (ne, v) ↦
                    subst DistinctKeys (sym (v ∙ update_ne ls 0 (ys ++ zs) (suc h) (omega arith)))
                      (w.distinct h k)
              ];
      }
