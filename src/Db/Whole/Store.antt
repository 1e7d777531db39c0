-- ===== src/Db/Whole/Store.antt =====
-- db_store on a whole database.
use apue.Prelude.{
  ℕ, ◌+◌, ◌<◌, ◌≤◌, ◌≡◌, refl, sym, ap, subst, ◌∙◌, inl, inr, Bool, true, false, not, Bool-cases,
  ◌&&◌, ◌||◌, ltb, if◌then◌else◌, List, [], ◌∷◌, Option, none, some, arith, length,
}
use apue.Prelude.Int.{ℤ, pos, negsuc}
use apue.Text.{Bytes, str_eq}
use apue.Db.State.{
  Db, ok, Flag, insert, replace, store, other, un_lock, idx_file, datlen_min, datlen_max,
}
use apue.Db.Io.{db_hash}
use apue.Db.Io.Writes.{not_region}
use apue.Db.Chain.{Item, find_item, is_some}
use apue.Db.Calls.{db_find_and_lock, store_new, store_old, store_known, db_store, un_lock_chain}
use apue.Db.Find.{walk, started, Walked, walk-Walked, db_find_and_lock_lem}
use apue.Db.Image.{Image}
use apue.Db.Whole.{Sound, Fresh, chain_for, lookup, texts}
use apue.Db.Whole.Search.{keep-Sound, Sound-Chain, chain_place, db_hash_bound, find_item-split}
use apue.Db.Whole.Delete.{search_stop}
use apue.Db.Whole.Add.{Room, keep-Room, Joined-lookup, new_body, adds}
use apue.Db.Whole.Replace.{old_body, replaces}

-- What db_store returns for a key that is there or not, and whether it stores.
abbrev pub store_result : Flag → Bool → ℤ
store_result insert true = pos 1
store_result insert false = pos 0
store_result replace true = pos 0
store_result replace false = negsuc 0
store_result store b = pos 0
store_result other b = negsuc 0

abbrev pub stores : Flag → Bool → Bool
stores insert b = not b
stores replace b = b
stores store b = true
stores other b = false

none-Fresh : (key : Bytes) (is : List Item) → find_item key is ≡ none → Fresh key is
unfolding find_item
none-Fresh key [] e = tt
none-Fresh key (i ∷ is) e = elim (Bool-cases (str_eq i.key key)) [
  | inl hit ↦ absurd (grind arith)
  | inr miss ↦ (miss, none-Fresh key is (rw (miss, find_item) at e))
]

module _ (fuel : ℕ) (key text : Bytes) (d : Db) (m : Image) (ls : ℕ → List Item) (w : Sound d m ls)
    (enough : length (chain_for d.nhash ls key) < fuel) (enough_free : length (ls 0) < fuel)
    (r : Room d key text) (some_text : 1 ≤ length text) where
  abbrev pub Stores : Flag → Bool → Type 0
  Stores flag there =
      (d' : Db) × (m' : Image) × (ls' : ℕ → List Item) × (db_store fuel key text flag d
        ≡ ok (store_result flag there) d')
      × Sound d' m' ls'
      × (d'.nhash ≡ d.nhash)
      × ((k : Bytes)
          → lookup d.nhash ls' k
            ≡ (if stores flag there && str_eq key k then some text else lookup d.nhash ls k))

  abbrev unlocked : Db → Db
  unlocked e = record e { locks = not_region idx_file e.chainoff 1 e.locks }

  length_fits : (ltb (length text + 1) datlen_min || ltb datlen_max (length text + 1)) ≡ false
  length_fits = ground (arith, r.is_entry.data_max)

  -- Behind the search.
  store_known_lem :
      (flag : Flag) (b : Bool) (f e : Db) (rc : ℤ)
      → db_find_and_lock fuel key true d ≡ ok b f
      → (if b then store_old key text flag else store_new fuel key text flag) f ≡ ok rc e
      → store_known fuel key text flag d ≡ ok rc (unlocked e)
  unfolding store_known un_lock_chain un_lock
  store_known_lem flag b f e rc found run = rw (length_fits, found, run)

  abbrev walked : Db
  walked = (walk key (chain_for d.nhash ls key) (started key true d)).1

  same : Walked key (chain_for d.nhash ls key) (started key true d)
  same =
      walk-Walked key (chain_for d.nhash ls key) (started key true d)
        (Sound-Chain d m ls key w).links

  search :
      db_find_and_lock fuel key true d
      ≡ ok (is_some (find_item key (chain_for d.nhash ls key))) walked
  search =
      db_find_and_lock_lem fuel key (chain_for d.nhash ls key) d (Sound-Chain d m ls key w) enough
        true

  -- Any state with the files as the search leaves them.
  untouched :
      (flag : Flag) (there : Bool) (e : Db)
      → stores flag there ≡ false
      → db_store fuel key text flag d ≡ ok (store_result flag there) e
      → e.idx ≡ walked.idx
      → e.dat ≡ walked.dat
      → e.hashoff ≡ walked.hashoff
      → e.nhash ≡ walked.nhash
      → Stores flag there
  untouched flag there e skip run i t h n = (
    e,
    m,
    ls,
    run,
    keep-Sound d e m ls w (i ∙ same.idx) (t ∙ same.dat) (h ∙ same.hashoff) (n ∙ same.nhash),
    n ∙ same.nhash,
    λ k. rw skip refl,
  )

  -- A key that is not there, and one of the flags that store it.
  added :
      (flag : Flag)
      → find_item key (chain_for d.nhash ls key) ≡ none
      → stores flag false ≡ true
      → store_result flag false ≡ pos 0
      → ((f : Db) → store_new fuel key text flag f ≡ new_body fuel key text f)
      → (db_store fuel key text flag d ≡ store_known fuel key text flag d)
      → Stores flag false
  added flag gone kept rc new known =
      let h = db_hash d.nhash key in
      let small : h < walked.nhash =
        subst (λ n. h < n) (sym same.nhash) (db_hash_bound d.nhash key w.some_chains) in
      let v = keep-Sound d walked m ls w same.idx same.dat same.hashoff same.nhash in
      let place = same.chainoff ∙ chain_place d key w.table in
      let room =
        keep-Room d walked key text r (ap (λ (f : Bytes). length f) same.idx)
          (ap (λ (f : Bytes). length f) same.dat) in
      let (d', m', ls', run, sound, joined, n, c) =
        adds fuel key text walked m ls v h small place
          (none-Fresh key (chain_for d.nhash ls key) gone) room enough_free in
      (
        unlocked d',
        m',
        ls',
        known
            ∙ store_known_lem flag false walked d' (pos 0)
                (search ∙ ap (λ o. ok (is_some o) walked) gone) (new walked ∙ run)
            ∙ ap (λ x. ok x (unlocked d')) (sym rc),
        keep-Sound d' _ m' ls' sound refl refl refl refl,
        n ∙ same.nhash,
        λ k. rw kept (Joined-lookup d.nhash ls ls' key text joined k),
      )

  -- A key that is there, and one of the flags that replace its data.
  replaced :
      (flag : Flag) (i : Item)
      → find_item key (chain_for d.nhash ls key) ≡ some i
      → stores flag true ≡ true
      → store_result flag true ≡ pos 0
      → ((f : Db) → store_old key text flag f ≡ old_body key text f)
      → (db_store fuel key text flag d ≡ store_known fuel key text flag d)
      → Stores flag true
  replaced flag i there kept rc old known =
      let (ys, zs, q, fresh, hit) = find_item-split key (chain_for d.nhash ls key) i there in
      let (d', m', ls', run, sound, n, look) =
        replaces fuel key text d m ls w enough i ys zs q fresh hit r in
      let stop =
        ap (λ (p : ℤ × Db). p.1) (search_stop fuel key d m ls w enough i ys zs q fresh hit) in
      (
        unlocked d',
        m',
        ls',
        known
            ∙ store_known_lem flag true walked d' (pos 0)
                (search ∙ ap (λ o. ok (is_some o) walked) there)
                (old walked ∙ ap (old_body key text) stop ∙ run)
            ∙ ap (λ x. ok x (unlocked d')) (sym rc),
        keep-Sound d' _ m' ls' sound refl refl refl refl,
        n,
        λ k. rw kept (look k),
      )

  absent : (flag : Flag) → find_item key (chain_for d.nhash ls key) ≡ none → Stores flag false
  unfolding db_store store_new
  absent insert e = added insert e refl refl (λ f. refl) refl
  absent store e = added store e refl refl (λ f. refl) refl
  absent replace e =
      let out = record walked { cnt = record (walked.cnt) { storerr = walked.cnt.storerr + 1 } } in
      untouched replace false (unlocked out) refl
        (store_known_lem replace false walked out (negsuc 0)
          (search ∙ ap (λ o. ok (is_some o) walked) e) refl)
        refl refl refl refl
  absent other e = (d, m, ls, refl, w, refl, λ k. refl)

  present :
      (flag : Flag) (i : Item)
      → find_item key (chain_for d.nhash ls key) ≡ some i
      → Stores flag true
  unfolding db_store store_old
  present replace i e = replaced replace i e refl refl (λ f. refl) refl
  present store i e = replaced store i e refl refl (λ f. refl) refl
  present insert i e =
      let out = record walked { cnt = record (walked.cnt) { storerr = walked.cnt.storerr + 1 } } in
      untouched insert true (unlocked out) refl
        (store_known_lem insert true walked out (pos 1) (search ∙ ap (λ o. ok (is_some o) walked) e)
          refl)
        refl refl refl refl
  present other i e = (d, m, ls, refl, w, refl, λ k. refl)

  -- On a whole database, with any flag, and with a key and a text that hold no NUL, the key no
  -- separator either, the text of at least one byte and with its newline at most DATLEN_MAX, 1024,
  -- and an index record that fits with its data at the end of the data file, db_store returns 0 if
  -- it stores, 1 if DB_INSERT finds the key, and -1 if DB_REPLACE does not find it or the flag is
  -- unknown. It leaves a whole database, in which the key has the text if it was stored, and every
  -- other key what it had, whether the record is appended, takes the place of a free one, is
  -- written over in place, or is deleted and appended. The index file is no longer than PTR_MAX.
  -- The fuel is greater than the lengths of the key's chain and of the free list.
  pub db_store-lookup : (flag : Flag) → Stores flag (is_some (lookup d.nhash ls key))
  db_store-lookup flag = by_search (find_item key (chain_for d.nhash ls key)) refl
    where
      by_search :
          (o : Option Item)
          → find_item key (chain_for d.nhash ls key) ≡ o
          → Stores flag (is_some (texts o))
      by_search none e = absent flag e
      by_search (some i) e = present flag i e
