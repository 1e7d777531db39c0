-- ===== src/Db/Whole/Add.antt =====
-- The branch of db_store for a key that is not there.
use apue.Prelude.{
  ℕ, suc, ◌+◌, ◌*◌, ◌<◌, ◌≤◌, ◌≡◌, ◌≢◌, refl, sym, ap, subst, ◌∙◌, inl, inr, Bool, true, false,
  if◌then◌else◌, List, ◌∷◌, ◌++◌, Option, some, arith, length, Lacks, update, update_ne,
  update_self,
}
use apue.Prelude.Int.{ℤ, pos}
use apue.Text.{Bytes, str_eq}
use apue.Db.State.{Db, ok, M, ◌>>=◌, ◌>>◌, pure, get, ptr_sz, ptr_max, free_off}
use apue.Db.Io.{db_hash, db_readptr}
use apue.Db.Io.Laws.{db_readptr_lem}
use apue.Db.Layout.{IsEntry, PtrAt}
use apue.Db.Chain.{Item, first, Chain, find_item}
use apue.Db.Calls.{db_findfree, append_record, reuse_record, count}
use apue.Db.Image.{Image}
use apue.Db.Image.Lists.{Linked-Chain}
use apue.Db.Image.Rewrite.{Alike, rewritten}
use apue.Db.Whole.{Sound, Fresh, chain_for, lookup, texts}
use apue.Db.Whole.Search.{keep-Sound, chain-lookup}
use apue.Db.Whole.Grow.{added_item, grown, append_record-grown, grown-Sound}
use apue.Db.Whole.Freelist.{fits, Keeps, taken, db_findfree_cases}
use apue.Db.Whole.Reuse.{reused, reuse_record_lem, reused-Sound}

-- The record fits in an index record, and the index file has room for it.
pub record Room (d : Db) (key text : Bytes) : Type 0 where
  pub room : length d.idx + 0 ≤ ptr_max
  pub is_entry : IsEntry (record { key = key; start = length d.dat + 0; len = length text + 1 })
  pub clean : Lacks 0 text

pub keep-Room :
    (d e : Db) (key text : Bytes)
    → Room d key text
    → length e.idx ≡ length d.idx
    → length e.dat ≡ length d.dat
    → Room e key text
keep-Room d e key text r i t = record {
  room = omega (arith, r.room);
  is_entry =
      subst (λ n. IsEntry (record { key = key; start = n + 0; len = length text + 1 })) (sym t)
        r.is_entry;
  clean = r.clean;
}

-- A record with the key and the text joined the front of the chain of hash `h`.
abbrev pub Joined : (ℕ → List Item) → (ℕ → List Item) → ℕ → Bytes → Bytes → Type 0
Joined ls ls' h key text =
    ((j : Item) × (j.key ≡ key) × (j.text ≡ text) × (ls' (suc h) ≡ j ∷ ls (suc h)))
    × ((g : ℕ) → g ≢ h → ls' (suc g) ≡ ls (suc g))

pub texts_some :
    (b : Bool) (j : Item) (text : Bytes)
    → j.text ≡ text
    → (o : Option Item) → texts (if b then some j else o) ≡ (if b then some text else texts o)
texts_some true j text e o = ap some e
texts_some false j text e o = refl

pub Joined-lookup :
    (n : ℕ) (ls ls' : ℕ → List Item) (key text : Bytes)
    → Joined ls ls' (db_hash n key) key text
    → (k : Bytes) → lookup n ls' k ≡ (if str_eq key k then some text else lookup n ls k)
unfolding find_item
Joined-lookup n ls ls' key text ((j, jk, jt, here), others) =
    chain-lookup n ls ls' key (some text)
      (λ k.
        ap (λ l. texts (find_item k l)) here
        ∙ ap (λ b. texts (if b then some j else find_item k (chain_for n ls key)))
            (ap (λ x. str_eq x k) jk)
        ∙ texts_some (str_eq key k) j text jt (find_item k (chain_for n ls key)))
      others

-- What is written for a new key, in a state that has found it missing.
abbrev pub new_body : ℕ → Bytes → Bytes → M ℤ
new_body fuel key text = do
  d ← get
  ptrval ← db_readptr d.chainoff
  reused ← db_findfree fuel (length key) (length text + 1)
  (if reused
      then (reuse_record key text ptrval >> count (λ c. record c { stor2 = c.stor2 + 1 }))
      else (append_record key text ptrval >> count (λ c. record c { stor1 = c.stor1 + 1 })))
  pure (pos 0)

module _ (fuel : ℕ) (key text : Bytes) (d : Db) (m : Image) (ls : ℕ → List Item) (w : Sound d m ls)
    (h : ℕ) (small : h < d.nhash) (place : d.chainoff ≡ suc h * ptr_sz)
    (fresh : Fresh key (ls (suc h))) (r : Room d key text) (enough : length (ls 0) < fuel) where
  -- It is put in front of its chain.
  abbrev pub Adds : Type 0
  Adds =
      (d' : Db) × (m' : Image) × (ls' : ℕ → List Item) × (new_body fuel key text d ≡ ok (pos 0) d')
      × Sound d' m' ls'
      × Joined ls ls' h key text
      × (d'.nhash ≡ d.nhash)
      × (d'.chainoff ≡ d.chainoff)

  abbrev next : ℕ
  next = first (ls (suc h))

  abbrev read : Db
  read = record d { cursor = d.chainoff + ptr_sz }

  next_at : PtrAt d.idx d.chainoff next
  next_at =
      subst (λ p. PtrAt d.idx p next) (sym place)
        (subst (PtrAt d.idx (suc h * ptr_sz)) (w.shape.heads (suc h) (omega arith))
          (w.holds.slots (suc h) (omega arith)))

  free_list : Chain d.idx free_off (ls 0)
  free_list =
      Linked-Chain d.nhash d.idx d.dat m w.holds 0 (ls 0) (omega arith)
        (w.shape.heads 0 (omega arith)) (w.shape.linked 0 (omega arith))

  add_by_append :
      (e : Db)
      → db_findfree fuel (length key) (length text + 1) read ≡ ok false e
      → Keeps e read
      → Adds
  add_by_append e run k =
      let v = keep-Sound d e m ls w k.idx k.dat k.hashoff k.nhash in
      let room =
        keep-Room d e key text r (ap (λ (f : Bytes). length f) k.idx)
          (ap (λ (f : Bytes). length f) k.dat) in
      let small' = subst (λ n. h < n) (sym k.nhash) small in
      let g = grown e m ls v h small' key text room.room room.is_entry room.clean in
      let i = added_item e m ls v h small' key text room.room room.is_entry room.clean in
      (
        record g { cnt = record (g.cnt) { stor1 = g.cnt.stor1 + 1 } },
        _,
        _,
        rw (
          db_readptr_lem d.chainoff next d next_at,
          run,
          append_record-grown e m ls v h small' key text room.room room.is_entry room.clean,
        ),
        keep-Sound g _ _ _
            (grown-Sound e m ls v h small' key text room.room room.is_entry room.clean
              (k.chainoff ∙ place) fresh)
            refl refl refl refl,
        (
          (i, refl, refl, update_self ls (suc h) (i ∷ ls (suc h))),
          λ g ne. update_ne ls (suc h) _ (suc g) (omega arith),
        ),
        k.nhash,
        k.chainoff,
      )

  fits-Alike : (i : Item) → fits (length key) (length text + 1) i ≡ true → Alike i key text
  fits-Alike i f = record {
    key_length = ground (arith, f);
    text_length = ground (arith, f);
    no_sep = r.is_entry.no_sep;
    no_nul = r.is_entry.no_nul;
    clean = r.clean;
  }

  add_by_reuse :
      (ys : List Item) (i : Item) (zs : List Item) (q : ls 0 ≡ ys ++ i ∷ zs)
      → fits (length key) (length text + 1) i ≡ true
      → db_findfree fuel (length key) (length text + 1) read
        ≡ ok true (taken fuel (length key) (length text + 1) (ls 0) read free_list enough ys i zs)
      → Adds
  add_by_reuse ys i zs q f run =
      let v = keep-Sound d read m ls w refl refl refl refl in
      let a = fits-Alike i f in
      let g =
        reused read m ls v h small key text fuel (length key) (length text + 1) free_list enough ys
          i zs q a in
      (
        record g { cnt = record (g.cnt) { stor2 = g.cnt.stor2 + 1 } },
        _,
        _,
        rw (
          db_readptr_lem d.chainoff next d next_at,
          run,
          reuse_record_lem read m ls v h small key text fuel (length key) (length text + 1)
              free_list enough ys i zs q a,
        ),
        keep-Sound g _ _ _
            (reused-Sound read m ls v h small key text fuel (length key) (length text + 1) free_list
              enough ys i zs q a place fresh)
            refl refl refl refl,
        (
          (rewritten i key text, refl, refl, update_self (update ls 0 (ys ++ zs)) (suc h) _),
          λ g ne.
              update_ne (update ls 0 (ys ++ zs)) (suc h) _ (suc g) (omega arith)
              ∙ update_ne ls 0 (ys ++ zs) (suc g) (omega arith),
        ),
        refl,
        refl,
      )

  pub adds : Adds
  adds = elim (db_findfree_cases fuel (length key) (length text + 1) (ls 0) read free_list enough) [
    | inl (e, run, k) ↦ add_by_append e run k
    | inr (ys, i, zs, q, f, run) ↦ add_by_reuse ys i zs q f run
  ]
