-- ===== src/Db/Whole/Overwrite.antt =====
-- db_store over data of the same length: only the data record is written.
use apue.Prelude.{
  ℕ, suc, ◌+◌, ◌<◌, ◌≤◌, ◌≡◌, ◌≢◌, refl, sym, ap, subst, ◌∙◌, inl, inr, false, Bool-cases,
  if◌then◌else◌, List, [], ◌∷◌, ◌++◌, some, arith, length, length-append, Lacks, All, All-middle,
  All_mono, update, update_cases,
}
use apue.Text.{Bytes, str_eq}
use apue.Text.Strings.{str_eq_iff}
use apue.File.{pwrite}
use apue.Db.State.{Db, ptr_sz, idxlen_sz, newline}
use apue.Db.Io.Writes.{pwrite-DataAt}
use apue.Db.Layout.{IsEntry, RecordAt, entry_text}
use apue.Db.Chain.{Item, entry, first, find_item}
use apue.Db.Image.{Image, data_len, Stands, StandsAt, Holds, Avoids, Linked}
use apue.Db.Image.Frame.{pwrite-Same}
use apue.Db.Image.Writes.{change-Holds}
use apue.Db.Image.Lists.{Linked-middle, Linked-change, Linked-update}
use apue.Db.Image.Relink.{Shape, Disjoint, relink-Shape}
use apue.Db.Image.Rewrite.{rewritten}
use apue.Db.Whole.{Sound, DistinctKeys}
use apue.Db.Whole.Search.{keep-Sound}

All-swap {ℓ κ} :
    {A : Type ℓ} (P : A → Type κ) (ys : List A) (i j : A) (zs : List A)
    → (P i → P j)
    → All P (ys ++ i ∷ zs)
    → All P (ys ++ j ∷ zs)
All-swap P [] i j zs f a = (f a.0, a.1)
All-swap P (y ∷ ys) i j zs f a = (a.0, All-swap P ys i j zs f a.1)

-- The chain with another text in the record `i`.
module _ (i : Item) (text : Bytes) where
  abbrev pub j : Item
  j = rewritten i i.key text

  first-swap : (ys zs : List Item) → first (ys ++ i ∷ zs) ≡ first (ys ++ j ∷ zs)
  first-swap [] zs = refl
  first-swap (y ∷ ys) zs = refl

  DistinctKeys-swap :
      (ys zs : List Item) → DistinctKeys (ys ++ i ∷ zs) → DistinctKeys (ys ++ j ∷ zs)
  DistinctKeys-swap [] zs d = d
  DistinctKeys-swap (y ∷ ys) zs d = (
    All-swap (λ x. str_eq x.key y.key ≡ false) ys i j zs (λ h. h) d.0,
    DistinctKeys-swap ys zs d.1,
  )

  -- What is found in it.
  pub find_item-swap :
      (ys zs : List Item)
      → DistinctKeys (ys ++ i ∷ zs)
      → (k : Bytes)
      → find_item k (ys ++ j ∷ zs) ≡ (if str_eq i.key k then some j else find_item k (ys ++ i ∷ zs))
  unfolding find_item
  find_item-swap [] zs dist k = elim (Bool-cases (str_eq i.key k)) [
    | inl hit ↦ rw (hit, find_item)
    | inr miss ↦ rw (miss, find_item)
  ]
  find_item-swap (y ∷ ys) zs dist k = elim (Bool-cases (str_eq y.key k)) [
    | inl hit ↦
        let other : str_eq i.key k ≡ false =
          subst (λ x. str_eq i.key x ≡ false) ((str_eq_iff y.key k).0 hit)
            (All-middle (λ x. str_eq x.key y.key ≡ false) ys i zs dist.0) in
        rw (hit, other, find_item)
    | inr miss ↦ rw (miss, find_item) (find_item-swap ys zs dist.1 k)
  ]

module _ (d : Db) (m : Image) (ls : ℕ → List Item) (w : Sound d m ls) (s : ℕ) (small : s < d.nhash)
    (ys : List Item) (i : Item) (zs : List Item) (q : ls (suc s) ≡ ys ++ i ∷ zs) (text : Bytes)
    (same : length text ≡ length i.text) (clean : Lacks 0 text) where
  in_table : suc s ≤ d.nhash
  in_table = omega arith

  chain : Linked m (ys ++ i ∷ zs)
  chain = subst (Linked m) q (w.shape.linked (suc s) in_table)

  stands : Stands d.nhash d.idx d.dat i.off (first zs) i
  stands =
      subst (StandsAt d.nhash d.idx d.dat i.off) (Linked-middle m ys i zs chain).0
        (w.holds.recs i.off)

  same_entry : entry (j i text) ≡ entry i
  same_entry = ap (λ n. record { key = i.key; start = i.start; len = n + 1 }) same

  abbrev pub over_dat : Bytes
  over_dat = pwrite d.dat i.start (text ++ newline ∷ [])

  abbrev pub over : Image
  over = record m { rec = update m.rec i.off (some (first zs, j i text)) }

  over-Holds : Holds d.nhash d.idx over_dat over
  over-Holds =
      change-Holds d.nhash d.idx d.dat m w.holds d.idx over_dat i.off (first zs) (first zs) i
        (j i text) (Linked-middle m ys i zs chain).0
        (record {
          behind = stands.behind;
          reach = stands.reach;
          is_entry = subst IsEntry (sym same_entry) stands.is_entry;
          at = subst (RecordAt d.idx i.off (first zs)) (sym same_entry) stands.at;
          text_at = pwrite-DataAt d.dat i.start text;
          clean = clean;
        })
        (ap (λ x. ptr_sz + idxlen_sz + length (entry_text x)) same_entry) refl
        (ap (λ n. n + 1) same) (λ a n b l. refl)
        (pwrite-Same d.dat i.start (text ++ newline ∷ []) (data_len i)
          (omega (arith, length-append text (newline ∷ []), same)))
        (omega arith)

  over-Shape : Shape d.nhash over (update ls (suc s) (ys ++ j i text ∷ zs))
  over-Shape =
      relink-Shape d.nhash m ls w.shape over (suc s) (ys ++ j i text ∷ zs) in_table
        (w.shape.heads (suc s) in_table ∙ ap first q ∙ first-swap i text ys zs) (λ t n. refl)
        (Linked-change m ys i (j i text) zs refl chain)
        (λ t k n. Linked-update m i.off _ (ls t) (apart t k n) (w.shape.linked t k))
        (λ t k n. (
          All-swap (λ x. Avoids x.off (ls t)) ys i (j i text) zs (λ h. h) (front t k n),
          All_mono (λ x a. All-swap (λ y. y.off ≢ x.off) ys i (j i text) zs (λ h. h) a) (ls t)
              (subst (Disjoint (ls t)) q (w.shape.disjoint t (suc s) k in_table n)),
        ))
    where
      front : (t : ℕ) → t ≤ d.nhash → t ≢ suc s → Disjoint (ys ++ i ∷ zs) (ls t)
      front t k n =
          subst (λ l. Disjoint l (ls t)) q (w.shape.disjoint (suc s) t in_table k (λ e. n (sym e)))

      apart : (t : ℕ) → t ≤ d.nhash → t ≢ suc s → Avoids i.off (ls t)
      apart t k n = All-middle (λ x. Avoids x.off (ls t)) ys i zs (front t k n)

  -- In any state with these files.
  pub over-Sound :
      (e : Db)
      → e.idx ≡ d.idx
      → e.dat ≡ over_dat
      → e.hashoff ≡ d.hashoff
      → e.nhash ≡ d.nhash
      → Sound e over (update ls (suc s) (ys ++ j i text ∷ zs))
  over-Sound e ei et eh en =
      keep-Sound (record d { dat = over_dat }) e over (update ls (suc s) (ys ++ j i text ∷ zs))
        (record {
          table = w.table;
          some_chains = w.some_chains;
          holds = over-Holds;
          shape = over-Shape;
          distinct = λ h k. elim (update_cases ls (suc s) (ys ++ j i text ∷ zs) (suc h)) [
            | inl (x, v) ↦
                subst DistinctKeys (sym v)
                  (DistinctKeys-swap i text ys zs (subst DistinctKeys q (w.distinct s small)))
            | inr (ne, v) ↦ subst DistinctKeys (sym v) (w.distinct h k)
          ];
        })
        ei et eh en
