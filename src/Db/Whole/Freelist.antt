-- ===== src/Db/Whole/Freelist.antt =====
-- The search of the free list, _db_findfree.
use apue.Prelude.{
  ℕ, zero, suc, ◌+◌, ◌<◌, ◌≡◌, ◌≢◌, refl, ap, subst, ◌⊎◌, inl, inr, Bool, true, false, Bool-cases,
  ◌&&◌, ◌==◌, if◌then◌else◌, List, [], ◌∷◌, ◌++◌, arith, length,
}
use apue.Prelude.Int.{ℤ, pos}
use apue.Text.{Bytes}
use apue.File.{pwrite}
use apue.Db.State.{Db, ok, and_then, pure, lock, un_lock, idx_file, write_lock, free_off, ptr_sz}
use apue.Db.Io.{db_readidx}
use apue.Db.Io.Laws.{at_record, db_readidx_lem, db_readptr_lem, db_writeptr_lem}
use apue.Db.Io.Writes.{not_region}
use apue.Db.Layout.{ptr_text}
use apue.Db.Chain.{Item, entry, first, Link, Links, Chain}
use apue.Db.Calls.{findfree_loop, db_findfree}
use apue.Db.Find.{is_zero-pos}
use apue.Db.Image.Lists.{last_off}

-- A free record whose key and data have the lengths that are asked for.
abbrev pub fits : ℕ → ℕ → Item → Bool
fits keylen datlen i = length i.key == keylen && length i.text + 1 == datlen

-- What the loop leaves: the offset, that of the pointer to it, and the state.
unfoldable free_walk : ℕ → ℕ → ℕ → List Item → Db → (ℤ × ℕ) × Db
free_walk keylen datlen save [] d = ((pos 0, save), d)
free_walk keylen datlen save (i ∷ is) d =
    let d' = at_record i.off (first is) (entry i) d in
    let rest = free_walk keylen datlen i.off is d' in
    if fits keylen datlen i then ((pos i.off, save), d') else rest

findfree_loop_step :
    (fuel keylen datlen save o : ℕ) (d : Db)
    → o ≢ 0
    → findfree_loop (suc fuel) keylen datlen save (pos o) d
      ≡ and_then (db_readidx (pos o) d) λ next d.
        (if length d.idxbuf == keylen && d.datlen == datlen
            then pure (pos o, save)
            else findfree_loop fuel keylen datlen o next)
          d
unfolding findfree_loop
findfree_loop_step fuel keylen datlen save zero d h = absurd (h refl)
findfree_loop_step fuel keylen datlen save (suc o) d h = refl

findfree_loop-free_walk :
    (fuel keylen datlen save : ℕ) (is : List Item) (d : Db)
    → Links d.idx is
    → length is < fuel
    → findfree_loop fuel keylen datlen save (pos (first is)) d
      ≡ ok (free_walk keylen datlen save is d).0 (free_walk keylen datlen save is d).1
unfolding free_walk
findfree_loop-free_walk zero keylen datlen save is d l h = absurd (omega arith)
findfree_loop-free_walk (suc fuel) keylen datlen save [] d l h = unfold findfree_loop in refl
findfree_loop-free_walk (suc fuel) keylen datlen save (i ∷ is) d l h =
    rw
      (
        findfree_loop_step fuel keylen datlen save i.off d l.0.not_null,
        db_readidx_lem i.off (first is) (entry i) d l.0.at l.0.is_entry l.0.not_null,
        and_then,
      )
      (elim (Bool-cases (fits keylen datlen i)) [
        | inl hit ↦ rw hit
        | inr miss ↦ rw miss (
            findfree_loop-free_walk fuel keylen datlen i.off is
              (at_record i.off (first is) (entry i) d) l.1 (omega arith))
      ])

-- The files, the table and the chain are those of `d`.
pub record Keeps (e d : Db) : Type 0 where
  pub idx : e.idx ≡ d.idx
  pub dat : e.dat ≡ d.dat
  pub hashoff : e.hashoff ≡ d.hashoff
  pub nhash : e.nhash ≡ d.nhash
  pub chainoff : e.chainoff ≡ d.chainoff

-- It found no record, or the record `i` behind `ys`.
abbrev Ends : ℕ → ℕ → ℕ → List Item → Db → Type 0
Ends keylen datlen save is d =
    ((e : Db) × (free_walk keylen datlen save is d ≡ ((pos 0, last_off save is), e)) × Keeps e d)
    ⊎ ((ys : List Item) × (i : Item) × (zs : List Item) × (is ≡ ys ++ i ∷ zs)
        × (fits keylen datlen i ≡ true)
        × (free_walk keylen datlen save is d
            ≡ ((pos i.off, last_off save ys), at_record i.off (first zs) (entry i) d)))

free_walk-Ends : (keylen datlen save : ℕ) (is : List Item) (d : Db) → Ends keylen datlen save is d
unfolding free_walk
free_walk-Ends keylen datlen save [] d =
    inl (d, refl, record { idx = refl; dat = refl; hashoff = refl; nhash = refl; chainoff = refl })
free_walk-Ends keylen datlen save (i ∷ is) d = elim (Bool-cases (fits keylen datlen i)) [
  | inl hit ↦ inr ([], i, is, refl, hit, rw hit)
  | inr miss ↦
      elim (free_walk-Ends keylen datlen i.off is (at_record i.off (first is) (entry i) d)) [
        | inl (e, q, k) ↦ inl (
          e,
          rw miss q,
          record {
            idx = k.idx;
            dat = k.dat;
            hashoff = k.hashoff;
            nhash = k.nhash;
            chainoff = k.chainoff;
          },
        )
        | inr (ys, j, zs, q, hit, r) ↦ inr (i ∷ ys, j, zs, ap (λ l. i ∷ l) q, hit, rw miss r)
      ]
]

Links-middle :
    (f : Bytes) (ys : List Item) (i : Item) (zs : List Item) → Links f (ys ++ i ∷ zs) → Link f i zs
Links-middle f [] i zs l = l.0
Links-middle f (y ∷ ys) i zs l = Links-middle f ys i zs l.1

module _ (fuel keylen datlen : ℕ) (is : List Item) (d : Db) (c : Chain d.idx free_off is)
    (enough : length is < fuel) where
  -- The state in which the loop starts, and the one in which the record is off the free list.
  abbrev locked : Db
  locked = record d {
    locks = record { file = idx_file; kind = write_lock; off = free_off; len = 1 } ∷ d.locks;
    cursor = free_off + ptr_sz;
  }

  abbrev pub taken : List Item → Item → List Item → Db
  taken ys i zs =
      let e = at_record i.off (first zs) (entry i) locked in
      record e {
        idx = pwrite d.idx (last_off free_off ys) (ptr_text (first zs));
        cursor = last_off free_off ys + ptr_sz;
        locks = not_region idx_file free_off 1 e.locks;
      }

  -- found
  pub db_findfree_cases :
      ((e : Db) × (db_findfree fuel keylen datlen d ≡ ok false e) × Keeps e d)
      ⊎ ((ys : List Item) × (i : Item) × (zs : List Item) × (is ≡ ys ++ i ∷ zs)
          × (fits keylen datlen i ≡ true)
          × (db_findfree fuel keylen datlen d ≡ ok true (taken ys i zs)))
  unfolding db_findfree lock un_lock
  db_findfree_cases = elim (free_walk-Ends keylen datlen free_off is locked) [
    | inl (e, q, k) ↦ inl (
      record e { locks = not_region idx_file free_off 1 e.locks },
      rw (
        db_readptr_lem free_off (first is) (record locked { cursor = d.cursor }) c.head,
        findfree_loop-free_walk fuel keylen datlen free_off is locked c.links enough,
        q,
      ),
      record {
        idx = k.idx;
        dat = k.dat;
        hashoff = k.hashoff;
        nhash = k.nhash;
        chainoff = k.chainoff;
      },
    )
    | inr (ys, i, zs, q, hit, r) ↦ inr (
      ys,
      i,
      zs,
      q,
      hit,
      (let l = Links-middle d.idx ys i zs (subst (Links d.idx) q c.links) in
          rw (
            db_readptr_lem free_off (first is) (record locked { cursor = d.cursor }) c.head,
            findfree_loop-free_walk fuel keylen datlen free_off is locked c.links enough,
            r,
            is_zero-pos i.off l.not_null,
            db_writeptr_lem (last_off free_off ys) (first zs)
                (at_record i.off (first zs) (entry i) locked) l.at.fits,
          )),
    )
  ]
