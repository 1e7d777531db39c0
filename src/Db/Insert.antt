-- ===== src/Db/Insert.antt =====
-- db_store of a new key, where the free list is empty.
use mathlib.Core.Option
use apue.Prelude.{
  Bool, true, false, Option, some, none, if◌then◌else◌, subst, ltb, ◌||◌, Bool-cases, inl, inr, ℕ,
  suc, ◌+◌, ◌≤◌, ◌<◌, ◌≡◌, refl, sym, ap, ◌∙◌, List, [], ◌∷◌, arith, length, Lacks, All,
}
use apue.Prelude.Int.{pos}
use apue.Text.{Bytes, str_eq}
use apue.Db.State.{Db, insert, ok, ptr_sz, ptr_max, idx_file, write_lock, free_off, lock, un_lock}
use apue.Db.Io.{seek_end, seek_to}
use apue.Db.Io.Laws.{db_readptr_lem, at_record}
use apue.Db.Io.Writes.{not_region}
use apue.Db.Layout.{PtrAt, IsEntry}
use apue.Db.Chain.{Item, entry, first, Chain, Texts, find_item}
use apue.Db.Calls.{
  db_fetch, db_findfree, findfree_loop, store_new, store_known, db_store, un_lock_chain,
}
use apue.Db.Find.{
  chain_of, started, walk, Walked, walk-Walked, db_find_and_lock_lem, fetch-find_item,
}
use apue.Db.Append.{appended, put_ptr, append_record_lem, put-Chain, put-Texts}

walk-chain_of :
    (key : Bytes) (is : List Item) (d : Db) (k : Bytes)
    → chain_of (walk key is d).1 k ≡ chain_of d k
unfolding walk
walk-chain_of key [] d k = refl
walk-chain_of key (i ∷ is) d k = elim (Bool-cases (str_eq i.key key)) [
  | inl hit ↦ rw hit refl
  | inr miss ↦
      rw miss (
        walk-chain_of key is (record (at_record i.off (first is) (entry i) d) { ptroff = i.off }) k)
]

-- What an append needs: the chain, the data of its records, and room for the record.
pub record Ready (key text : Bytes) (is : List Item) (d : Db) : Type 0 where
  pub chain : Chain d.idx d.chainoff is
  pub texts : Texts d.dat is
  pub behind : All (λ i. d.chainoff + ptr_sz ≤ i.off) is
  pub room : seek_to seek_end d.idx 0 ≤ ptr_max
  pub is_entry :
      IsEntry (record { key = key; start = seek_to seek_end d.dat 0; len = length text + 1 })
  pub clean : Lacks 0 text
  pub none_free : PtrAt d.idx free_off 0

-- The search of an empty free list.
abbrev searched : Db → Db
searched s = record s {
  locks =
      not_region idx_file free_off 1
        (record { file = idx_file; kind = write_lock; off = free_off; len = 1 } ∷ s.locks);
  cursor = ptr_sz;
}

db_findfree_lem :
    (fuel keylen datlen : ℕ) (s : Db)
    → PtrAt s.idx free_off 0
    → db_findfree (suc fuel) keylen datlen s ≡ ok false (searched s)
unfolding db_findfree findfree_loop lock un_lock
db_findfree_lem fuel keylen datlen s p =
    rw
      (db_readptr_lem free_off 0
        (record s {
          locks = record { file = idx_file; kind = write_lock; off = free_off; len = 1 } ∷ s.locks;
        })
        p)
      refl

map-if :
    (b : Bool) (i : Item) (o : Option Item)
    → Option.map (λ (i : Item). i.text) (if b then some i else o)
      ≡ (if b then some i.text else Option.map (λ (i : Item). i.text) o)
map-if true i o = refl
map-if false i o = refl

module _ (key text : Bytes) (is : List Item) (s : Db) (r : Ready key text is s) where
  abbrev freed : Db
  freed = searched (record s { cursor = s.chainoff + ptr_sz })

  abbrev put : Db
  put = put_ptr key text is freed r.chain r.texts r.behind r.room r.is_entry r.clean

  store_new_lem :
      (fuel : ℕ)
      → store_new (suc fuel) key text insert s
        ≡ ok (pos 0) (record put { cnt = record (put.cnt) { stor1 = put.cnt.stor1 + 1 } })
  unfolding store_new
  store_new_lem fuel =
      rw
        (
          db_readptr_lem s.chainoff (first is) s r.chain.head,
          db_findfree_lem fuel (length key) (length text + 1)
              (record s { cursor = s.chainoff + ptr_sz }) r.none_free,
          append_record_lem key text is freed r.chain r.texts r.behind r.room r.is_entry r.clean,
        )
        refl

module _ (fuel : ℕ) (key text : Bytes) (is : List Item) (d : Db)
    (r : Ready key text is (record d { chainoff = chain_of d key }))
    (absent : find_item key is ≡ none) (some_text : 1 ≤ length text)
    (enough : length is < suc fuel) where
  -- After the search for the key.
  abbrev walked : Db
  walked = (walk key is (started key true d)).1

  same : Walked key is (started key true d)
  same = walk-Walked key is (started key true d) r.chain.links

  ready : Ready key text is walked
  ready = record {
    chain =
        subst (λ f. Chain f walked.chainoff is) (sym same.idx)
          (subst (λ p. Chain d.idx p is) (sym same.chainoff) r.chain);
    texts = subst (λ f. Texts f is) (sym same.dat) r.texts;
    behind = subst (λ p. All (λ i. p + ptr_sz ≤ i.off) is) (sym same.chainoff) r.behind;
    room = subst (λ f. seek_to seek_end f 0 ≤ ptr_max) (sym same.idx) r.room;
    is_entry =
        subst
          (λ f. IsEntry (record { key = key; start = seek_to seek_end f 0; len = length text + 1 }))
          (sym same.dat) r.is_entry;
    clean = r.clean;
    none_free = subst (λ f. PtrAt f free_off 0) (sym same.idx) r.none_free;
  }

  abbrev stored : Db
  stored =
      let p = put key text is walked ready in
      record p {
        cnt = record (p.cnt) { stor1 = p.cnt.stor1 + 1 };
        locks = not_region idx_file walked.chainoff 1 p.locks;
      }

  length_fits : (ltb (length text + 1) 2 || ltb 1024 (length text + 1)) ≡ false
  length_fits = ground (arith, r.is_entry.data_max)

  store_known_lem : store_known (suc fuel) key text insert d ≡ ok (pos 0) stored
  unfolding store_known un_lock_chain un_lock
  store_known_lem =
      rw
        (
          length_fits,
          db_find_and_lock_lem (suc fuel) key is d r.chain enough true,
          absent,
          store_new_lem key text is walked ready fuel,
        )
        refl

  -- On a database in which the key's hash chain is a chain of valid records, all behind its chain
  -- pointer and each with its data, and the free list is empty, db_store with DB_INSERT of a key
  -- that the chain does not hold and of a text of at least one byte, both of which fit in a record
  -- and hold no NUL, the key no separator either, returns 0, if the index file is no longer than
  -- PTR_MAX. db_fetch then finds the text for the key, and for every other key of the chain what
  -- it found before. The fuel of each call is greater than the number of records on the chain.
  fetch-store :
      (fuel' : ℕ) (k : Bytes)
      → chain_of d k ≡ chain_of d key
      → suc (length is) < fuel'
      → (d' : Db) × (d'' : Db) × (db_store (suc fuel) key text insert d ≡ ok (pos 0) d')
        × (db_fetch fuel' k d'
            ≡ ok
                (if str_eq key k
                  then some text
                  else Option.map (λ (i : Item). i.text) (find_item k is))
                d'')
  unfolding db_store find_item
  fetch-store fuel' k on_chain more =
      let q = ready in
      let new =
        appended key text is (freed key text is walked q) q.chain q.texts q.behind q.room q.is_entry
          q.clean in
      let here : walked.chainoff ≡ chain_of stored k =
        same.chainoff ∙ sym on_chain ∙ sym (walk-chain_of key is (started key true d) k) in
      let f =
        fetch-find_item fuel' k (new ∷ is) stored
          (subst (λ p. Chain stored.idx p (new ∷ is)) here
            (put-Chain key text is (freed key text is walked q) q.chain q.texts q.behind q.room
              q.is_entry q.clean))
          more
          (put-Texts key text is (freed key text is walked q) q.chain q.texts q.behind q.room
            q.is_entry q.clean) in
      (
        stored,
        f.0,
        store_known_lem,
        f.1 ∙ ap (λ o. ok o f.0) (map-if (str_eq key k) new (find_item k is)),
      )
