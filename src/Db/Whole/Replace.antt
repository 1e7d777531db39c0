-- ===== src/Db/Whole/Replace.antt =====
-- The branch of db_store for a key that is there.
use apue.Prelude.{
  ℕ, suc, ◌+◌, ◌*◌, ◌<◌, ◌≡◌, refl, sym, ap, ap₂, subst, ◌∙◌, inl, inr, Bool, true, false,
  Bool-cases, ◌==◌, if◌then◌else◌, List, [], ◌∷◌, ◌++◌, Option, none, some, arith, length,
  All-append, update, update_ne, update_self,
}
use apue.Prelude.Int.{ℤ, pos}
use apue.Text.{Bytes, str_eq}
use apue.Text.Strings.{str_eq_iff}
use apue.File.{pwrite}
use apue.Db.State.{Db, ok, M, ◌>>=◌, ◌>>◌, pure, get, ptr_sz, newline}
use apue.Db.Io.{db_hash, db_readptr, db_writedat, seek_set}
use apue.Db.Io.Laws.{db_readptr_lem}
use apue.Db.Io.Writes.{db_writedat_lem}
use apue.Db.Layout.{PtrAt}
use apue.Db.Chain.{Item, first, find_item}
use apue.Db.Calls.{db_dodelete, append_record, count}
use apue.Db.Image.{Image}
use apue.Db.Whole.{Sound, DistinctKeys, Fresh, chain_for, lookup, texts}
use apue.Db.Whole.Search.{keep-Sound, chain_place, db_hash_bound, chain-lookup}
use apue.Db.Whole.Dodelete.{found}
use apue.Db.Whole.Delete.{
  at, gone, image, lists, lists_cases, gone-Sound, gone-lookup, gone_idx, gone_dat, dodelete_gone,
}
use apue.Db.Whole.Grow.{added_item, grown, append_record-grown, grown-Sound}
use apue.Db.Whole.Overwrite.{j, find_item-swap, over-Sound}
use apue.Db.Whole.Add.{Room, keep-Room, Joined-lookup, texts_some}

-- What is written for a key that was found.
abbrev pub old_body : Bytes → Bytes → M ℤ
old_body key text = do
  d ← get
  (if length text + 1 == d.datlen
      then (db_writedat text d.datoff seek_set >> count (λ c. record c { stor4 = c.stor4 + 1 }))
      else (do
        db_dodelete
        d ← get
        ptrval ← db_readptr d.chainoff
        append_record key text ptrval
        count (λ c. record c { stor3 = c.stor3 + 1 })))
  pure (pos 0)

Fresh-cut :
    (key : Bytes) (ys : List Item) (i : Item) (zs : List Item)
    → Fresh key ys
    → DistinctKeys (ys ++ i ∷ zs)
    → i.key ≡ key
    → Fresh key (ys ++ zs)
Fresh-cut key ys i zs f d e =
    All-append (λ x. str_eq x.key key ≡ false) ys zs f (subst (λ k. Fresh k zs) e (behind ys d))
  where
    behind : (ys : List Item) → DistinctKeys (ys ++ i ∷ zs) → Fresh i.key zs
    behind [] d = d.0
    behind (y ∷ ys) d = behind ys d.1

module _ (fuel : ℕ) (key text : Bytes) (d : Db) (m : Image) (ls : ℕ → List Item) (w : Sound d m ls)
    (enough : length (chain_for d.nhash ls key) < fuel) (i : Item) (ys zs : List Item)
    (q : chain_for d.nhash ls key ≡ ys ++ i ∷ zs) (fresh : Fresh key ys)
    (hit : str_eq i.key key ≡ true) (r : Room d key text) where
  abbrev here : Db
  here = found (at fuel key d m ls w enough i ys zs q) i (first zs) (m.slot 0)

  -- It takes the place of the old record.
  abbrev pub Replaces : Type 0
  Replaces =
      (d' : Db) × (m' : Image) × (ls' : ℕ → List Item) × (old_body key text here ≡ ok (pos 0) d')
      × Sound d' m' ls'
      × (d'.nhash ≡ d.nhash)
      × ((k : Bytes)
          → lookup d.nhash ls' k ≡ (if str_eq key k then some text else lookup d.nhash ls k))

  small : db_hash d.nhash key < d.nhash
  small = db_hash_bound d.nhash key w.some_chains

  overwrites : (length text + 1 == length i.text + 1) ≡ true → Replaces
  overwrites e =
      let same : length text ≡ length i.text = ground arith in
      let h = db_hash d.nhash key in
      let g = record here {
        datoff = i.start;
        datlen = length text + 1;
        dat = pwrite d.dat i.start (text ++ newline ∷ []);
        cnt = record (here.cnt) { stor4 = here.cnt.stor4 + 1 };
      } in
      (
        g,
        _,
        _,
        rw (e, db_writedat_lem text i.start here seek_set),
        over-Sound d m ls w h small ys i zs q text same r.clean g refl refl refl refl,
        refl,
        chain-lookup d.nhash ls (update ls (suc h) (ys ++ j i text ∷ zs)) key (some text)
            (λ k.
              ap (λ l. texts (find_item k l)) (update_self ls (suc h) (ys ++ j i text ∷ zs))
              ∙ ap texts (find_item-swap i text ys zs (subst DistinctKeys q (w.distinct h small)) k)
              ∙ texts_some (str_eq i.key k) (j i text) text refl (find_item k (ys ++ i ∷ zs))
              ∙ ap₂ (λ x l. if str_eq x k then some text else texts (find_item k l))
                  ((str_eq_iff i.key key).0 hit) (sym q))
            (λ g ne. update_ne ls (suc h) (ys ++ j i text ∷ zs) (suc g) (omega arith)),
      )

  abbrev away : Db
  away = gone fuel key d m ls w enough i ys zs q

  Fresh-away : Fresh key (lists fuel key d m ls w enough i ys zs q (suc (db_hash d.nhash key)))
  Fresh-away = elim (lists_cases fuel key d m ls w enough i ys zs q (db_hash d.nhash key)) [
    | inl (e, v) ↦ subst (Fresh key) (sym v) (
        Fresh-cut key ys i zs fresh (subst DistinctKeys q (w.distinct (db_hash d.nhash key) small))
          ((str_eq_iff i.key key).0 hit))
    | inr (ne, v) ↦ absurd (ne refl)
  ]

  same_test :
      (b : Bool) (o : Option Bytes)
      → (if b then some text else (if b then none else o)) ≡ (if b then some text else o)
  same_test true o = refl
  same_test false o = refl

  moves : (length text + 1 == length i.text + 1) ≡ false → Replaces
  moves e =
      let h = db_hash d.nhash key in
      let n = image fuel key d m ls w enough i ys zs q in
      let l = lists fuel key d m ls w enough i ys zs q in
      let v = gone-Sound fuel key d m ls w enough i ys zs q in
      let room =
        keep-Room d away key text r (gone_idx fuel key d m ls w enough i ys zs q)
          (gone_dat fuel key d m ls w enough i ys zs q) in
      let place = chain_place d key w.table in
      let next_at =
        subst (λ p. PtrAt away.idx p (first (l (suc h)))) (sym place)
          (subst (PtrAt away.idx (suc h * ptr_sz)) (v.shape.heads (suc h) small)
            (v.holds.slots (suc h) small)) in
      let before = record away { cursor = away.chainoff + ptr_sz } in
      let v2 = keep-Sound away before n l v refl refl refl refl in
      let g = grown before n l v2 h small key text room.room room.is_entry room.clean in
      let item = added_item before n l v2 h small key text room.room room.is_entry room.clean in
      (
        record g { cnt = record (g.cnt) { stor3 = g.cnt.stor3 + 1 } },
        _,
        update l (suc h) (item ∷ l (suc h)),
        rw (
          e,
          dodelete_gone fuel key d m ls w enough i ys zs q,
          db_readptr_lem away.chainoff (first (l (suc h))) away next_at,
          append_record-grown before n l v2 h small key text room.room room.is_entry room.clean,
        ),
        keep-Sound g _ _ _
            (grown-Sound before n l v2 h small key text room.room room.is_entry room.clean place
              Fresh-away)
            refl refl refl refl,
        refl,
        λ k.
            Joined-lookup d.nhash l (update l (suc h) (item ∷ l (suc h))) key text
              (
                (item, refl, refl, update_self l (suc h) (item ∷ l (suc h))),
                λ f ne. update_ne l (suc h) (item ∷ l (suc h)) (suc f) (omega arith),
              )
              k
            ∙ ap (λ o. if str_eq key k then some text else o)
                (gone-lookup fuel key d m ls w enough i ys zs q hit k)
            ∙ same_test (str_eq key k) (lookup d.nhash ls k),
      )

  pub replaces : Replaces
  replaces = elim (Bool-cases (length text + 1 == length i.text + 1)) [
    | inl e ↦ overwrites e
    | inr e ↦ moves e
  ]
