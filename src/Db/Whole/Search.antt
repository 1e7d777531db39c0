-- ===== src/Db/Whole/Search.antt =====
-- The search for a key in a whole database.
use mathlib.Core.Option
use apue.Prelude.{
  ◌==◌, ==_iff, ℕ, suc, ◌*◌, ◌<◌, ◌≡◌, ◌≢◌, refl, sym, ap, subst, ◌∙◌, inl, inr, true, false,
  Bool-cases, List, [], ◌∷◌, ◌++◌, Option, none, some, arith, All-middle, if◌then◌else◌,
}
use apue.Prelude.Int.{pos}
use apue.Text.{Bytes, str_eq}
use apue.Text.Strings.{str_eq_iff}
use apue.Db.State.{Db, ptr_sz}
use apue.Db.Io.{db_hash}
use apue.Db.Io.Laws.{at_record}
use apue.Db.Chain.{Item, entry, first, Chain, find_item}
use apue.Db.Find.{walk, chain_of}
use apue.Db.Image.{Image, Holds}
use apue.Db.Image.Lists.{last_off, Linked-Chain}
use apue.Db.Image.Relink.{Shape}
use apue.Db.Whole.{Fresh, DistinctKeys, Sound, chain_for, lookup, texts}

-- A search that finds a record has passed over others.
pub find_item-split :
    (key : Bytes) (is : List Item) (i : Item)
    → find_item key is ≡ some i
    → (ys : List Item) × (zs : List Item) × (is ≡ ys ++ i ∷ zs)
      × Fresh key ys
      × (str_eq i.key key ≡ true)
unfolding find_item
find_item-split key [] i e = absurd (grind arith)
find_item-split key (j ∷ is) i e = elim (Bool-cases (str_eq j.key key)) [
  | inl hit ↦
      let q : j ≡ i = cc (rw (hit, find_item) at e) in
      ([], is, ap (λ x. x ∷ is) q, tt, ap (λ x. str_eq x.key key) (sym q) ∙ hit)
  | inr miss ↦
      let (ys, zs, q, fresh, hit) = find_item-split key is i (rw (miss, find_item) at e) in
      (j ∷ ys, zs, ap (λ l. j ∷ l) q, (miss, fresh), hit)
]

-- The state in which it stops.
pub walk-append :
    (key : Bytes) (ys : List Item) (i : Item) (zs : List Item) (d : Db)
    → Fresh key ys
    → str_eq i.key key ≡ true
    → walk key (ys ++ i ∷ zs) d ≡ (
      pos i.off,
      at_record i.off (first zs) (entry i) (record d { ptroff = last_off d.ptroff ys }),
    )
unfolding walk
walk-append key [] i zs d f hit = rw (hit, walk)
walk-append key (y ∷ ys) i zs d f hit =
    rw (f.0, walk)
      (walk-append key ys i zs
        (record (at_record y.off (first (ys ++ i ∷ zs)) (entry y) d) { ptroff = y.off }) f.1 hit)

-- Without the record that it found, a chain has the other keys.
Fresh-find_item : (key : Bytes) (is : List Item) → Fresh key is → find_item key is ≡ none
unfolding find_item
Fresh-find_item key [] f = refl
Fresh-find_item key (i ∷ is) f = rw (f.0, find_item) (Fresh-find_item key is f.1)

pub find_item-cut :
    (ys : List Item) (i : Item) (zs : List Item)
    → DistinctKeys (ys ++ i ∷ zs)
    → (k : Bytes)
    → find_item k (ys ++ zs) ≡ (if str_eq i.key k then none else find_item k (ys ++ i ∷ zs))
unfolding find_item
find_item-cut [] i zs dist k = elim (Bool-cases (str_eq i.key k)) [
  | inl hit ↦
      rw hit (Fresh-find_item k zs (subst (λ x. Fresh x zs) ((str_eq_iff i.key k).0 hit) dist.0))
  | inr miss ↦ rw (miss, find_item)
]
find_item-cut (y ∷ ys) i zs dist k = elim (Bool-cases (str_eq y.key k)) [
  | inl hit ↦
      let other : str_eq i.key k ≡ false =
        subst (λ x. str_eq i.key x ≡ false) ((str_eq_iff y.key k).0 hit)
          (All-middle (λ j. str_eq j.key y.key ≡ false) ys i zs dist.0) in
      rw (hit, other, find_item)
  | inr miss ↦ rw (miss, find_item) (find_item-cut ys i zs dist.1 k)
]

pub db_hash_bound : (n : ℕ) (key : Bytes) → 0 < n → db_hash n key < n
unfolding db_hash
db_hash_bound n key nz = omega arith

-- The chain pointer of a key, as a slot of the table.
pub chain_place :
    (d : Db) (key : Bytes)
    → d.hashoff ≡ ptr_sz
    → chain_of d key ≡ suc (db_hash d.nhash key) * ptr_sz
chain_place d key t = omega (arith, t)

-- A chain that is not damaged.
pub Sound-Chain :
    (d : Db) (m : Image) (ls : ℕ → List Item) (key : Bytes)
    → Sound d m ls
    → Chain d.idx (chain_of d key) (chain_for d.nhash ls key)
Sound-Chain d m ls key w =
    let h = db_hash d.nhash key in
    let small = db_hash_bound d.nhash key w.some_chains in
    subst (λ p. Chain d.idx p (ls (suc h))) (sym (chain_place d key w.table))
      (Linked-Chain d.nhash d.idx d.dat m w.holds (suc h) (ls (suc h)) (omega arith)
        (w.shape.heads (suc h) (omega arith)) (w.shape.linked (suc h) (omega arith)))

-- Only the files and where the table stands matter.
pub keep-Sound :
    (d e : Db) (m : Image) (ls : ℕ → List Item)
    → Sound d m ls
    → e.idx ≡ d.idx
    → e.dat ≡ d.dat
    → e.hashoff ≡ d.hashoff
    → e.nhash ≡ d.nhash
    → Sound e m ls
keep-Sound d e m ls w i t h n = record {
  table = h ∙ w.table;
  some_chains = subst (λ k. 0 < k) (sym n) w.some_chains;
  holds =
      subst (λ k. Holds k e.idx e.dat m) (sym n)
        (subst (λ f. Holds d.nhash f e.dat m) (sym i)
          (subst (λ f. Holds d.nhash d.idx f m) (sym t) w.holds));
  shape = subst (λ k. Shape k m ls) (sym n) w.shape;
  distinct = subst (λ k. (h : ℕ) → h < k → DistinctKeys (ls (suc h))) (sym n) w.distinct;
}

-- What is not there is not missed.
pub lookup-gone :
    (n : ℕ) (ls : ℕ → List Item) (key : Bytes)
    → find_item key (chain_for n ls key) ≡ none
    → (k : Bytes) → lookup n ls k ≡ (if str_eq key k then none else lookup n ls k)
lookup-gone n ls key e k = elim (Bool-cases (str_eq key k)) [
  | inl same ↦ rw same (
      subst (λ x. lookup n ls x ≡ none) ((str_eq_iff key k).0 same)
        (ap (Option.map (λ (i : Item). i.text)) e))
  | inr other ↦ rw other
]

-- One chain changes, at the key alone.
pub chain-lookup :
    (n : ℕ) (ls ls' : ℕ → List Item) (key : Bytes) (v : Option Bytes)
    → ((k : Bytes)
        → texts (find_item k (chain_for n ls' key))
          ≡ (if str_eq key k then v else texts (find_item k (chain_for n ls key))))
    → ((g : ℕ) → g ≢ db_hash n key → ls' (suc g) ≡ ls (suc g))
    → (k : Bytes) → lookup n ls' k ≡ (if str_eq key k then v else lookup n ls k)
chain-lookup n ls ls' key v here others k = elim (Bool-cases (db_hash n k == db_hash n key)) [
  | inl same ↦
      let e = (==_iff (db_hash n k) (db_hash n key)).0 same in
      ap (λ g. texts (find_item k (ls' (suc g)))) e
      ∙ here k
      ∙ ap (λ g. if str_eq key k then v else texts (find_item k (ls (suc g)))) (sym e)
  | inr apart ↦
      let ne : db_hash n k ≢ db_hash n key = ground arith in
      elim (Bool-cases (str_eq key k)) [
        | inl hit ↦ absurd (ne (ap (db_hash n) (sym ((str_eq_iff key k).0 hit))))
        | inr miss ↦ rw miss (ap (λ l. texts (find_item k l)) (others (db_hash n k) ne))
      ]
]
