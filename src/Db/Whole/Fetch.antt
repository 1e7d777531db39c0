-- ===== src/Db/Whole/Fetch.antt =====
-- db_fetch on a whole database.
use apue.Prelude.{ℕ, suc, ◌<◌, ◌≡◌, List, arith, length}
use apue.Text.{Bytes}
use apue.Db.State.{Db, ok}
use apue.Db.Io.{db_hash}
use apue.Db.Chain.{Item}
use apue.Db.Calls.{db_fetch}
use apue.Db.Find.{fetch-find_item}
use apue.Db.Image.{Image}
use apue.Db.Image.Lists.{Linked-Texts}
use apue.Db.Whole.{Sound, chain_for, lookup}
use apue.Db.Whole.Search.{keep-Sound, Sound-Chain, db_hash_bound}

-- On a whole database db_fetch returns what the database has under the key, and leaves a whole
-- database with the same records. The fuel is greater than the length of the key's chain.
pub db_fetch-lookup :
    (fuel : ℕ) (key : Bytes) (d : Db) (m : Image) (ls : ℕ → List Item)
    → Sound d m ls
    → length (chain_for d.nhash ls key) < fuel
    → (d' : Db) × (db_fetch fuel key d ≡ ok (lookup d.nhash ls key) d')
      × Sound d' m ls
      × (d'.nhash ≡ d.nhash)
db_fetch-lookup fuel key d m ls w enough =
    let h = db_hash d.nhash key in
    let small = db_hash_bound d.nhash key w.some_chains in
    let texts =
      Linked-Texts d.nhash d.idx d.dat m w.holds (ls (suc h))
        (w.shape.linked (suc h) (omega arith)) in
    let (e, run, i, t, o, n, l) =
      fetch-find_item fuel key (ls (suc h)) d (Sound-Chain d m ls key w) enough texts in
    (e, run, keep-Sound d e m ls w i t o n, n)
