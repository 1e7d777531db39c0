-- ===== src/Db/Chain.antt =====
-- Chains of index records, as lists: the hash chains and the free list.
use apue.Prelude.{
  ℕ, ◌+◌, ◌≢◌, Bool, true, false, List, [], ◌∷◌, Option, none, some, length, Lacks, All,
  if◌then◌else◌,
}
use apue.Text.{Bytes, str_eq}
use apue.Db.Layout.{PtrAt, RecordAt, DataAt, Entry, IsEntry}

-- A record of the database: where its index record stands, its key, where its data stands, its data.
pub record Item : Type 0 where
  pub off : ℕ
  pub key : Bytes
  pub start : ℕ
  pub text : Bytes

abbrev pub entry : Item → Entry
entry i = record { key = i.key; start = i.start; len = length i.text + 1 }

-- What the pointer to a chain holds.
abbrev pub first : List Item → ℕ
first [] = 0
first (i ∷ is) = i.off

-- One index record of a chain, in front of `is`.
pub record Link (f : Bytes) (i : Item) (is : List Item) : Type 0 where
  pub not_null : i.off ≢ 0
  pub is_entry : IsEntry (entry i)
  pub at : RecordAt f i.off (first is) (entry i)

abbrev pub Links : Bytes → List Item → Type 0
Links f [] = Unit
Links f (i ∷ is) = Link f i is × Links f is

-- The pointer at `p` heads a chain of exactly these records.
pub record Chain (f : Bytes) (p : ℕ) (is : List Item) : Type 0 where
  pub head : PtrAt f p (first is)
  pub links : Links f is

-- The data of each record stands in the data file.
pub record HasData (dat : Bytes) (i : Item) : Type 0 where
  pub at : DataAt dat i.start i.text
  pub no_nul : Lacks 0 i.text

abbrev pub Texts : Bytes → List Item → Type 0
Texts dat = All (HasData dat)

-- The first record with the key.
unfoldable pub find_item : Bytes → List Item → Option Item
find_item key [] = none
find_item key (i ∷ is) = if str_eq i.key key then some i else find_item key is

abbrev pub is_some {ℓ} : {A : Type ℓ} → Option A → Bool
is_some none = false
is_some (some a) = true
