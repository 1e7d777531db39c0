-- ===== src/Db/Whole/Delete.antt =====
-- db_delete on a whole database.
use apue.File.Laws.{length-pwrite}
use apue.Db.Image.Frame.{RecordAt-inside, DataAt-inside, pread-inside}
use apue.Prelude.{
  length-append, ℕ, suc, ◌+◌, ◌<◌, ◌≤◌, ◌≡◌, ◌≢◌, refl, sym, ap, ap₂, subst, ◌∙◌, ◌⊎◌, inl, inr,
  Bool, true, false, List, [], ◌∷◌, ◌++◌, Option, none, some, arith, length, length-replicate,
  All-cut, if◌then◌else◌, update, update_ne, update_cases,
}
use apue.Prelude.Int.{pos, negsuc}
use apue.Text.{Bytes, str_eq}
use apue.Text.Strings.{str_eq_iff}
use apue.File.{pwrite}
use apue.Db.State.{Db, ok, un_lock, idx_file, space, newline, ptr_sz, free_off}
use apue.Db.Io.{db_hash, record_head}
use apue.Db.Io.Writes.{not_region}
use apue.Db.Layout.{PtrAt, PtrAt-RecordAt, entry_text, ptr_text, length-ptr_text}
use apue.Db.Chain.{Item, entry, first, Links, Chain, find_item, is_some}
use apue.Db.Calls.{db_dodelete, db_delete, un_lock_chain}
use apue.Db.Find.{walk, chain_of, started, db_find_and_lock_lem, walk-Walked}
use apue.Db.Image.{Image, Holds, Stands}
use apue.Db.Image.Lists.{last_off}
use apue.Db.Image.Rewrite.{rewritten-IsEntry, over_length}
use apue.Db.Image.Free.{blank, blank-Alike}
use apue.Db.Image.Release.{released, release, release-Shape, i_Stands, at_i, release-Holds}
use apue.Db.Whole.{Fresh, DistinctKeys, Sound, chain_for, lookup, texts}
use apue.Db.Whole.Search.{
  find_item-split, walk-append, find_item-cut, Sound-Chain, chain_place, db_hash_bound, keep-Sound,
  lookup-gone, chain-lookup,
}
use apue.Db.Whole.Dodelete.{found, after_free, deleted, db_dodelete_lem}

-- The pointer to a record of a chain lies inside the file.
last-inside :
    (f : Bytes) (p : ℕ) (ys : List Item) (i : Item) (zs : List Item)
    → PtrAt f p (first (ys ++ i ∷ zs))
    → Links f (ys ++ i ∷ zs)
    → last_off p ys + ptr_sz ≤ length f
last-inside f p [] i zs h l =
    pread-inside f p ptr_sz _ h.reads (length-ptr_text i.off h.fits) (omega arith)
last-inside f p (y ∷ ys) i zs h l = last-inside f y.off ys i zs (PtrAt-RecordAt l.0.at) l.1

DistinctKeys-cut :
    (ys : List Item) (i : Item) (zs : List Item)
    → DistinctKeys (ys ++ i ∷ zs)
    → DistinctKeys (ys ++ zs)
DistinctKeys-cut [] i zs d = d.1
DistinctKeys-cut (y ∷ ys) i zs d =
    (All-cut (λ j. str_eq j.key y.key ≡ false) ys i zs d.0, DistinctKeys-cut ys i zs d.1)

texts_if :
    (b : Bool) (o : Option Item) → texts (if b then none else o) ≡ (if b then none else texts o)
texts_if true o = refl
texts_if false o = refl

module _ (fuel : ℕ) (key : Bytes) (d : Db) (m : Image) (ls : ℕ → List Item) (w : Sound d m ls)
    (enough : length (chain_for d.nhash ls key) < fuel) where
  -- What db_delete returns and leaves.
  abbrev pub Deletes : Type 0
  Deletes =
      (d' : Db) × (m' : Image) × (ls' : ℕ → List Item) × (db_delete fuel key d
        ≡ ok (if is_some (lookup d.nhash ls key) then pos 0 else negsuc 0) d')
      × Sound d' m' ls'
      × ((k : Bytes) → lookup d'.nhash ls' k ≡ (if str_eq key k then none else lookup d.nhash ls k))

  abbrev pub s : Db
  s = started key true d

  pub searched : Chain d.idx (chain_of d key) (chain_for d.nhash ls key)
  searched = Sound-Chain d m ls key w

  delete_none : find_item key (chain_for d.nhash ls key) ≡ none → Deletes
  unfolding db_delete un_lock_chain un_lock
  delete_none e =
      let is = chain_for d.nhash ls key in
      let v = walk-Walked key is s searched.links in
      let end = (walk key is s).1 in
      (
        record end {
          cnt = record (end.cnt) { delerr = end.cnt.delerr + 1 };
          locks = not_region idx_file end.chainoff 1 end.locks;
        },
        m,
        ls,
        rw (db_find_and_lock_lem fuel key is d searched enough true, e),
        keep-Sound d _ m ls w v.idx v.dat v.hashoff v.nhash,
        λ k. ap (λ n. lookup n ls k) v.nhash ∙ lookup-gone d.nhash ls key e k,
      )

  -- The record is `i`, behind `ys` on its chain.
  module _ (i : Item) (ys zs : List Item) (q : chain_for d.nhash ls key ≡ ys ++ i ∷ zs) where
    abbrev pub slot : ℕ
    slot = suc (db_hash d.nhash key)

    -- The state that the search leaves, as `found` takes it, and the one that _db_dodelete leaves.
    abbrev pub at : Db
    at = record s { ptroff = last_off (chain_of d key) ys }

    abbrev pub gone : Db
    gone = deleted at i (first zs) (m.slot 0)

    pub in_table : slot ≤ d.nhash
    in_table = omega (arith, db_hash_bound d.nhash key w.some_chains)

    pub slot_nz : slot ≢ 0
    slot_nz = omega arith

    abbrev pub lists : ℕ → List Item
    lists = release d.nhash m ls w.shape slot in_table slot_nz ys i zs q

    pub lists_cases :
        (h : ℕ)
        → ((h ≡ db_hash d.nhash key) × (lists (suc h) ≡ ys ++ zs))
          ⊎ ((h ≢ db_hash d.nhash key) × (lists (suc h) ≡ ls (suc h)))
    lists_cases h =
        let front =
          update_ne (update ls slot (ys ++ zs)) 0 (blank i ∷ ls 0) (suc h) (omega arith) in
        elim (update_cases ls slot (ys ++ zs) (suc h)) [
          | inl (e, v) ↦ inl (omega arith, front ∙ v)
          | inr (ne, v) ↦ inr ((λ e. ne (ap suc e)), front ∙ v)
        ]

    abbrev pub image : Image
    image = released d.nhash m ls w.shape slot in_table slot_nz ys i zs q

    gone-Holds : Holds d.nhash gone.idx gone.dat image
    gone-Holds =
        let h =
          release-Holds d.nhash m ls w.shape slot in_table slot_nz ys i zs q d.idx d.dat w.holds in
        subst
          (λ p.
            Holds d.nhash
              (pwrite (after_free at i (first zs) (m.slot 0)).idx (last_off p ys)
                (ptr_text (first zs)))
              gone.dat image)
          (sym (chain_place d key w.table)) h

    pub gone-Sound : Sound gone image lists
    gone-Sound = record {
      table = w.table;
      some_chains = w.some_chains;
      holds = gone-Holds;
      shape = release-Shape d.nhash m ls w.shape slot in_table slot_nz ys i zs q;
      distinct = λ h small. elim (lists_cases h) [
        | inl (e, v) ↦ subst DistinctKeys (sym v) (
            DistinctKeys-cut ys i zs
              (subst DistinctKeys q (w.distinct (db_hash d.nhash key) in_table)))
        | inr (ne, v) ↦ subst DistinctKeys (sym v) (w.distinct h small)
      ];
    }

    pub gone-lookup :
        str_eq i.key key ≡ true
        → (k : Bytes)
        → lookup d.nhash lists k ≡ (if str_eq key k then none else lookup d.nhash ls k)
    gone-lookup hit =
        chain-lookup d.nhash ls lists key none (λ k. here k (lists_cases (db_hash d.nhash key)))
          (λ g ne. elim (lists_cases g) [ inl (e, v) ↦ absurd (ne e) | inr (_, v) ↦ v ])
      where
        here :
            (k : Bytes)
            → ((db_hash d.nhash key ≡ db_hash d.nhash key) × (lists slot ≡ ys ++ zs))
              ⊎ ((db_hash d.nhash key ≢ db_hash d.nhash key) × (lists slot ≡ ls slot))
            → texts (find_item k (lists slot))
              ≡ (if str_eq key k then none else texts (find_item k (ls slot)))
        here k (inl (e, v)) =
            ap (λ l. texts (find_item k l)) v
            ∙ ap texts (
                find_item-cut ys i zs
                  (subst DistinctKeys q (w.distinct (db_hash d.nhash key) in_table)) k)
            ∙ texts_if (str_eq i.key k) (find_item k (ys ++ i ∷ zs))
            ∙ ap₂ (λ x l. if str_eq x k then none else texts (find_item k l))
                ((str_eq_iff i.key key).0 hit) (sym q)
        here k (inr (ne, v)) = absurd (ne refl)

    -- Neither file grows.
    gone-Stands : Stands d.nhash d.idx d.dat i.off (first zs) i
    gone-Stands = i_Stands d.nhash m ls w.shape slot in_table slot_nz ys i zs q d.idx d.dat w.holds

    pub gone_dat : length gone.dat ≡ length d.dat
    gone_dat = omega (
      arith,
      length-pwrite d.dat i.start ((blank i).text ++ newline ∷ []),
      length-append (blank i).text (newline ∷ []),
      length-replicate (length i.text) space,
      DataAt-inside d.dat i.start i.text gone-Stands.text_at,
    )

    pub gone_idx : length gone.idx ≡ length d.idx
    gone_idx =
        let t =
          record_head (m.slot 0) (length (entry_text (entry (blank i))))
          ++ entry_text (entry (blank i)) in
        let p = last_off (chain_of d key) ys in
        let over =
          over_length d.nhash m d.idx d.dat w.holds i (first zs)
            (at_i d.nhash m ls w.shape slot in_table slot_nz ys i zs q d.idx d.dat w.holds)
            (blank i).key (blank i).text (blank-Alike i) (m.slot 0)
            (w.holds.slots 0 (omega arith)).fits in
        let inside =
          last-inside d.idx (chain_of d key) ys i zs
            (subst (λ l. PtrAt d.idx (chain_of d key) (first l)) q searched.head)
            (subst (Links d.idx) q searched.links) in
        omega (
          arith,
          length-pwrite d.idx i.off t,
          length-pwrite (pwrite d.idx i.off t) free_off (ptr_text i.off),
          length-pwrite (pwrite (pwrite d.idx i.off t) free_off (ptr_text i.off)) p
              (ptr_text (first zs)),
          over,
          inside,
          w.holds.table,
          RecordAt-inside d.idx i.off (first zs) (entry i) gone-Stands.is_entry gone-Stands.at,
          length-ptr_text i.off gone-Stands.reach,
          length-ptr_text (first zs) gone-Stands.at.fits,
        )

    pub dodelete_gone : db_dodelete (found at i (first zs) (m.slot 0)) ≡ ok tt gone
    dodelete_gone =
        let stands =
          i_Stands d.nhash m ls w.shape slot in_table slot_nz ys i zs q d.idx d.dat w.holds in
        db_dodelete_lem at i (first zs) (m.slot 0) (w.holds.slots 0 (omega arith))
          (rewritten-IsEntry i (blank i).key (blank i).text (blank-Alike i) stands.is_entry)
          stands.reach stands.at.fits

    pub search_stop :
        Fresh key ys
        → str_eq i.key key ≡ true
        → walk key (chain_for d.nhash ls key) s ≡ (pos i.off, found at i (first zs) (m.slot 0))
    search_stop fresh hit = ap (λ l. walk key l s) q ∙ walk-append key ys i zs s fresh hit

    db_delete_some :
        find_item key (chain_for d.nhash ls key) ≡ some i
        → Fresh key ys
        → str_eq i.key key ≡ true
        → Deletes
    unfolding db_delete un_lock_chain un_lock
    db_delete_some e fresh hit = (
      record gone {
        cnt = record (gone.cnt) { delok = gone.cnt.delok + 1 };
        locks = not_region idx_file gone.chainoff 1 gone.locks;
      },
      image,
      lists,
      rw (
        db_find_and_lock_lem fuel key (chain_for d.nhash ls key) d searched enough true,
        e,
        search_stop fresh hit,
        dodelete_gone,
      ),
      keep-Sound gone _ image lists gone-Sound refl refl refl refl,
      gone-lookup hit,
    )

  -- On a whole database db_delete returns 0 if the key is there and -1 if it is not. It leaves a
  -- whole database, in which the key has no data, and every other key what it had. The fuel is
  -- greater than the length of the key's chain.
  pub db_delete-lookup : Deletes
  db_delete-lookup = by_search (find_item key (chain_for d.nhash ls key)) refl
    where
      by_search : (o : Option Item) → find_item key (chain_for d.nhash ls key) ≡ o → Deletes
      by_search none e = delete_none e
      by_search (some i) e =
          let (ys, zs, q, fresh, hit) = find_item-split key (chain_for d.nhash ls key) i e in
          db_delete_some i ys zs q e fresh hit
