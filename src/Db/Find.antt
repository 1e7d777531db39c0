-- ===== src/Db/Find.antt =====
-- The search along a hash chain, and db_fetch.
use mathlib.Core.Option
use apue.Prelude.{
  ℕ, zero, suc, ◌+◌, ◌*◌, ◌<◌, ◌≤◌, ◌≡◌, ◌≢◌, refl, ap, ap₂, subst, ◌∙◌, Bool, false, not, List, [],
  ◌∷◌, Option, none, some, length, All, if◌then◌else◌, Bool-cases, inl, inr, arith,
}
use apue.Prelude.Int.{ℤ, pos}
use apue.Text.{Bytes, str_eq}
use apue.Db.State.{
  Db, Outcome, ok, and_then, pure, modify, ◌>>◌, idx_file, read_lock, write_lock, ptr_sz,
  datlen_max,
}
use apue.Db.Io.{db_hash, db_readdat, db_readidx}
use apue.Db.Io.Laws.{db_readidx_lem, db_readptr_lem, at_record}
use apue.Db.Io.Writes.{db_readdat_lem, not_region, release_own}
use apue.Db.Chain.{Item, entry, first, Links, Chain, HasData, Texts, find_item, is_some}
use apue.Db.Calls.{find_loop, db_find_and_lock, is_zero, db_fetch, un_lock_chain}

-- What the loop leaves: the last offset, and the state.
unfoldable pub walk : Bytes → List Item → Db → ℤ × Db
walk key [] d = (pos 0, d)
walk key (i ∷ is) d =
    let d' = at_record i.off (first is) (entry i) d in
    if str_eq i.key key then (pos i.off, d') else walk key is (record d' { ptroff = i.off })

-- One round of the loop at a record.
find_loop_step :
    (fuel : ℕ) (key : Bytes) (o : ℕ) (d : Db)
    → o ≢ 0
    → find_loop (suc fuel) key (pos o) d
      ≡ and_then (db_readidx (pos o) d) λ next d.
        (if str_eq d.idxbuf key
            then pure (pos o)
            else (modify (λ d. record d { ptroff = o }) >> find_loop fuel key next))
          d
unfolding find_loop
find_loop_step fuel key zero d h = absurd (h refl)
find_loop_step fuel key (suc o) d h = refl

-- With more fuel than records the loop of `_db_find_and_lock` ends, and has walked the chain.
find_loop-walk :
    (fuel : ℕ) (key : Bytes) (is : List Item) (d : Db)
    → Links d.idx is
    → length is < fuel
    → find_loop fuel key (pos (first is)) d ≡ ok (walk key is d).0 (walk key is d).1
unfolding walk
find_loop-walk zero key is d l h = absurd (omega arith)
find_loop-walk (suc fuel) key [] d l h = unfold find_loop in refl
find_loop-walk (suc fuel) key (i ∷ is) d l h =
    rw
      (
        find_loop_step fuel key i.off d l.0.not_null,
        db_readidx_lem i.off (first is) (entry i) d l.0.at l.0.is_entry l.0.not_null,
        and_then,
      )
      (elim (Bool-cases (str_eq i.key key)) [
        | inl hit ↦ rw hit
        | inr miss ↦ rw miss (
            find_loop-walk fuel key is
              (record (at_record i.off (first is) (entry i) d) { ptroff = i.off }) l.1
              (omega arith))
      ])

pub is_zero-pos : (o : ℕ) → o ≢ 0 → is_zero (pos o) ≡ false
is_zero-pos zero h = absurd (h refl)
is_zero-pos (suc o) h = refl

find_item-All {ℓ} :
    (P : Item → Type ℓ) (key : Bytes) (is : List Item) (i : Item)
    → All P is
    → find_item key is ≡ some i
    → P i
unfolding find_item
find_item-All P key [] i a e = cc
find_item-All P key (j ∷ is) i a e = elim (Bool-cases (str_eq j.key key)) [
  | inl hit ↦ subst P (cc (rw (hit, find_item) at e)) a.0
  | inr miss ↦ find_item-All P key is i a.1 (rw (miss, find_item) at e)
]

-- What a walk keeps, and where it ends: at the first record with the key.
pub record Walked (key : Bytes) (is : List Item) (d : Db) : Type 0 where
  pub idx : (walk key is d).1.idx ≡ d.idx
  pub dat : (walk key is d).1.dat ≡ d.dat
  pub locks : (walk key is d).1.locks ≡ d.locks
  pub chainoff : (walk key is d).1.chainoff ≡ d.chainoff
  pub hashoff : (walk key is d).1.hashoff ≡ d.hashoff
  pub nhash : (walk key is d).1.nhash ≡ d.nhash
  pub found : not (is_zero (walk key is d).0) ≡ is_some (find_item key is)
  pub place :
      (i : Item)
      → find_item key is ≡ some i
      → ((walk key is d).1.datoff ≡ i.start) × ((walk key is d).1.datlen ≡ length i.text + 1)

pub walk-Walked : (key : Bytes) (is : List Item) (d : Db) → Links d.idx is → Walked key is d
unfolding walk find_item
walk-Walked key [] d l = record {
  idx = refl;
  dat = refl;
  locks = refl;
  chainoff = refl;
  hashoff = refl;
  nhash = refl;
  found = refl;
  place = λ i h. cc;
}
walk-Walked key (i ∷ is) d l = elim (Bool-cases (str_eq i.key key)) [
  | inl hit ↦ record {
    idx = rw (hit, walk);
    dat = rw (hit, walk);
    locks = rw (hit, walk);
    chainoff = rw (hit, walk);
    hashoff = rw (hit, walk);
    nhash = rw (hit, walk);
    found = rw (hit, is_zero-pos i.off l.0.not_null);
    place = λ j h. ground (arith, hit);
  }
  | inr miss ↦
      let w =
        walk-Walked key is (record (at_record i.off (first is) (entry i) d) { ptroff = i.off })
          l.1 in
      record {
        idx = rw (miss, walk) w.idx;
        dat = rw (miss, walk) w.dat;
        locks = rw (miss, walk) w.locks;
        chainoff = rw (miss, walk) w.chainoff;
        hashoff = rw (miss, walk) w.hashoff;
        nhash = rw (miss, walk) w.nhash;
        found = rw miss w.found;
        place = λ j h. ground (arith, miss, w.place j);
      }
]

-- Where the chain pointer of a key stands.
abbrev pub chain_of : Db → Bytes → ℕ
chain_of d key = db_hash d.nhash key * ptr_sz + d.hashoff

-- The state in which the search starts: the chain is locked.
abbrev pub started : Bytes → Bool → Db → Db
started key writelock d = record d {
  chainoff = chain_of d key;
  ptroff = chain_of d key;
  cursor = chain_of d key + ptr_sz;
  locks =
      record {
        file = idx_file;
        kind = if writelock then write_lock else read_lock;
        off = chain_of d key;
        len = 1;
      }
      ∷ d.locks;
}

module _ (fuel : ℕ) (key : Bytes) (is : List Item) (d : Db) (c : Chain d.idx (chain_of d key) is)
    (h : length is < fuel) where
  pub db_find_and_lock_lem :
      (writelock : Bool)
      → db_find_and_lock fuel key writelock d
        ≡ ok (is_some (find_item key is)) (walk key is (started key writelock d)).1
  unfolding db_find_and_lock
  db_find_and_lock_lem writelock =
      let s = started key writelock d in
      let w = walk-Walked key is s c.links in
      rw
        (
          db_readptr_lem (chain_of d key) (first is) (record s { cursor = d.cursor }) c.head,
          find_loop-walk fuel key is s c.links h,
        )
        (ap (λ b. ok b (walk key is s).1) w.found)

  -- The data that the records of a chain name fit datbuf.
  Links-All :
      (f : Bytes) (is : List Item) → Links f is → All (λ i. length i.text + 1 ≤ datlen_max) is
  Links-All f [] l = tt
  Links-All f (i ∷ is) l = (l.0.is_entry.data_max, Links-All f is l.1)

  -- After a search that found the record, its data is read.
  found_data :
      (writelock : Bool) (i : Item)
      → find_item key is ≡ some i
      → Texts d.dat is
      → db_readdat (walk key is (started key writelock d)).1
        ≡ ok i.text (record (walk key is (started key writelock d)).1 { datbuf = i.text })
  found_data writelock i e t =
      let w = walk-Walked key is (started key writelock d) c.links in
      let p = w.place i e in
      let a = find_item-All (HasData d.dat) key is i t e in
      let small =
        find_item-All (λ j. length j.text + 1 ≤ datlen_max) key is i (Links-All d.idx is c.links)
          e in
      db_readdat_lem i.text (walk key is (started key writelock d)).1 (rw (w.dat, p.0) a.at) p.1
        (omega arith) a.no_nul

  -- What db_fetch returns and leaves.
  abbrev pub Fetched : Outcome (Option Bytes) → Type 0
  Fetched o =
      (d' : Db) × (o ≡ ok (Option.map (λ (i : Item). i.text) (find_item key is)) d')
      × (d'.idx ≡ d.idx)
      × (d'.dat ≡ d.dat)
      × (d'.hashoff ≡ d.hashoff)
      × (d'.nhash ≡ d.nhash)
      × (d'.locks ≡ not_region idx_file (chain_of d key) 1 d.locks)

  -- db_fetch returns the data of the first record on the key's hash chain that has the key, and NULL
  -- if there is none; it changes neither file and leaves the chain unlocked.
  pub fetch-find_item : Texts d.dat is → Fetched (db_fetch fuel key d)
  unfolding db_fetch un_lock_chain
  fetch-find_item t = go (find_item key is) refl
    where
      s : Db
      s = started key false d

      w : Walked key is s
      w = walk-Walked key is s c.links

      end : Db
      end = (walk key is s).1

      unlocked :
          not_region idx_file end.chainoff 1 end.locks
          ≡ not_region idx_file (chain_of d key) 1 d.locks
      unlocked =
          ap₂ (λ o ls. not_region idx_file o 1 ls) w.chainoff w.locks
          ∙ release_own idx_file read_lock (chain_of d key) 1 d.locks

      go : (o : Option Item) → find_item key is ≡ o → Fetched (db_fetch fuel key d)
      go none e = (
        record end {
          cnt = record (end.cnt) { fetcherr = end.cnt.fetcherr + 1 };
          locks = not_region idx_file end.chainoff 1 end.locks;
        },
        rw (db_find_and_lock_lem false, e),
        w.idx,
        w.dat,
        w.hashoff,
        w.nhash,
        unlocked,
      )
      go (some i) e = (
        record end {
          datbuf = i.text;
          cnt = record (end.cnt) { fetchok = end.cnt.fetchok + 1 };
          locks = not_region idx_file end.chainoff 1 end.locks;
        },
        rw (db_find_and_lock_lem false, e, found_data false i e t),
        w.idx,
        w.dat,
        w.hashoff,
        w.nhash,
        unlocked,
      )
