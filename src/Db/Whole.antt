-- ===== src/Db/Whole.antt =====
-- A whole database: the hash chains and the free list of db.c, and the map from keys to data that a
-- client sees.
pub mod Search
pub mod Dodelete
pub mod Delete
pub mod Grow
pub mod Freelist
pub mod Reuse
pub mod Overwrite
pub mod Add
pub mod Replace
pub mod Store
pub mod Fetch
pub mod Open
pub mod Tests
use mathlib.Core.Option
use apue.Prelude.{ℕ, suc, ◌<◌, ◌≡◌, Bool, false, List, [], ◌∷◌, Option, All}
use apue.Text.{Bytes, str_eq}
use apue.Db.State.{Db, ptr_sz}
use apue.Db.Io.{db_hash}
use apue.Db.Chain.{Item, find_item}
use apue.Db.Image.{Image, Holds}
use apue.Db.Image.Relink.{Shape}

-- No key stands twice in a chain.
abbrev pub Fresh : Bytes → List Item → Type 0
Fresh key = All (λ j. str_eq j.key key ≡ false)

abbrev pub DistinctKeys : List Item → Type 0
DistinctKeys [] = Unit
DistinctKeys (i ∷ is) = Fresh i.key is × DistinctKeys is

-- The files hold the lists `ls`: the free list at 0, and the chain of hash h at h + 1.
pub record Sound (d : Db) (m : Image) (ls : ℕ → List Item) : Type 0 where
  pub table : d.hashoff ≡ ptr_sz
  pub some_chains : 0 < d.nhash
  pub holds : Holds d.nhash d.idx d.dat m
  pub shape : Shape d.nhash m ls
  pub distinct : (h : ℕ) → h < d.nhash → DistinctKeys (ls (suc h))

-- The hash chain of a key.
abbrev pub chain_for : ℕ → (ℕ → List Item) → Bytes → List Item
chain_for nhash ls key = ls (suc (db_hash nhash key))

abbrev pub texts : Option Item → Option Bytes
texts = Option.map (λ (i : Item). i.text)

-- What a client finds under a key.
abbrev pub lookup : ℕ → (ℕ → List Item) → Bytes → Option Bytes
lookup nhash ls key = texts (find_item key (chain_for nhash ls key))
