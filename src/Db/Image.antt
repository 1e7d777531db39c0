-- ===== src/Db/Image.antt =====
-- What the two files of a database hold, as a heap of records: a pointer at each slot of the table in
-- front of the index file, slot 0 for the free list and slot h + 1 for hash h, and at each offset of
-- a record its chain pointer and the record.
pub mod Frame
pub mod Writes
pub mod Lists
pub mod Relink
pub mod Rewrite
pub mod Free
pub mod Release
use apue.Prelude.{
  ℕ, suc, ◌+◌, ◌*◌, ◌≤◌, ◌≡◌, ◌≢◌, ◌⊎◌, List, [], ◌∷◌, ◌++◌, Option, some, none, length, All, Lacks,
}
use apue.Text.{Bytes}
use apue.Db.State.{ptr_sz, ptr_max, idxlen_sz}
use apue.Db.Io.{table_end}
use apue.Db.Layout.{PtrAt, RecordAt, DataAt, IsEntry, entry_text}
use apue.Db.Chain.{Item, entry, first}

pub record Image : Type 0 where
  pub slot : ℕ → ℕ
  pub rec : ℕ → Option (ℕ × Item)

-- How many bytes the index record and the data record take.
abbrev pub extent : Item → ℕ
extent i = ptr_sz + idxlen_sz + length (entry_text (entry i))

abbrev pub data_len : Item → ℕ
data_len i = length i.text + 1

-- Two spans of a file share no byte.
abbrev pub Apart : ℕ → ℕ → ℕ → ℕ → Type 0
Apart a m b n = (a + m ≤ b) ⊎ (b + n ≤ a)

-- The record `i` with the chain pointer `next` stands at `o`, behind the table, and its data stands.
pub record Stands (nhash : ℕ) (idx dat : Bytes) (o next : ℕ) (i : Item) : Type 0 where
  pub behind : table_end nhash ≤ o
  pub reach : o ≤ ptr_max
  pub is_entry : IsEntry (entry i)
  pub at : RecordAt idx o next (entry i)
  pub text_at : DataAt dat i.start i.text
  pub clean : Lacks 0 i.text

abbrev pub StandsAt : ℕ → Bytes → Bytes → ℕ → Option (ℕ × Item) → Type 0
StandsAt nhash idx dat o none = Unit
StandsAt nhash idx dat o (some (next, i)) = Stands nhash idx dat o next i

-- Two records share no byte in either file.
abbrev pub Distant : ℕ → ℕ → Option (ℕ × Item) → Option (ℕ × Item) → Type 0
Distant o o' none r = Unit
Distant o o' (some r) none = Unit
Distant o o' (some (n, i)) (some (n', i')) =
    o ≢ o' → Apart o (extent i) o' (extent i') × Apart i.start (data_len i) i'.start (data_len i')

-- The files hold what the image says, and no two records share a byte.
pub record Holds (nhash : ℕ) (idx dat : Bytes) (m : Image) : Type 0 where
  pub table : table_end nhash ≤ length idx
  pub slots : (s : ℕ) → s ≤ nhash → PtrAt idx (s * ptr_sz) (m.slot s)
  pub recs : (o : ℕ) → StandsAt nhash idx dat o (m.rec o)
  pub apart : (o o' : ℕ) → Distant o o' (m.rec o) (m.rec o')

-- The records of a list are linked in its order, no offset twice.
abbrev pub Avoids : ℕ → List Item → Type 0
Avoids o = All (λ i. i.off ≢ o)

abbrev pub Linked : Image → List Item → Type 0
Linked m [] = Unit
Linked m (i ∷ is) = (m.rec i.off ≡ some (first is, i)) × Avoids i.off is × Linked m is
