-- ===== src/Db/Tests.antt =====
-- Runs of db.c on small databases.
use apue.Prelude.{◌≡◌, refl, arith, true, Option, none, some, [], ◌∷◌}
use apue.Prelude.Int.{ℤ, pos}
use apue.Text.{
  Bytes, codes, c_str, str_eq, split_at, put_digits, decimal, pad_left, scan_digits, skip_spaces,
  atol_sign, atol, is_digit, is_space,
}
use apue.File.{pread, pwrite}
use apue.Db.State.{
  Db, M, Outcome, ok, die, get, ◌>>=◌, ◌>>◌, pure, insert, replace, store, lock, un_lock,
}
use apue.Db.Layout.{RecordAt, IsEntry}
use apue.Db.Chain.{Item, entry, Chain, Texts}
use apue.Db.Find.{chain_of}
use apue.Db.Io.RoundTrip.{readidx-writeidx, readdat-writedat}
use apue.Db.Io.{
  seek_end, read_idx, write_idx, hash_term, hash_loop, db_hash, db_readptr, parse_data,
  parse_record, read_body, db_readidx, db_readdat, db_writedat, record_text, record_head,
  db_writeidx, db_writeptr,
}
use apue.Db.Calls.{
  find_loop, db_find_and_lock, un_lock_chain, db_dodelete, findfree_loop, db_findfree,
  append_record, reuse_record, store_new, store_old, store_known, db_fetch, db_store, db_delete,
}
use apue.Db.Open.{zero_ptrs, nextrec_loop, db_init, db_alloc, db_nextrec, db_rewind}

abbrev result : {A : Type 0} → Outcome A → Option A
result (ok a d) = some a
result (die e d) = none

-- A run on a database; this name stands for all that a run computes with.
unfoldable pub run : {A : Type 0} → M A → Db → Option A
unfolding c_str str_eq split_at put_digits decimal pad_left scan_digits skip_spaces atol_sign atol
    is_digit is_space pread pwrite lock un_lock read_idx write_idx hash_term hash_loop db_hash
    db_readptr parse_data parse_record read_body db_readidx db_readdat db_writedat record_text
    record_head db_writeidx db_writeptr find_loop db_find_and_lock un_lock_chain db_dodelete
    findfree_loop db_findfree append_record reuse_record store_new store_old store_known db_init
    db_fetch db_store db_delete zero_ptrs db_rewind nextrec_loop db_nextrec
run m d = result (m d)

-- A session on a new database.
session : M (ℤ × Option Bytes × ℤ × Option Bytes × ℤ × Option Bytes × Option Bytes)
session = do
  db_init true
  a ← db_store 9 (codes "k1") (codes "first") insert
  b ← db_fetch 9 (codes "k1")
  c ← db_store 9 (codes "k1") (codes "longer text") replace
  e ← db_fetch 9 (codes "k1")
  f ← db_delete 9 (codes "k1")
  g ← db_fetch 9 (codes "k1")
  db_store 9 (codes "k2") (codes "third") store
  h ← db_fetch 9 (codes "k2")
  pure (a, b, c, e, f, g, h)

session_runs :
    run session (db_alloc [] [])
    ≡ some (
      pos 0,
      some (codes "first"),
      pos 0,
      some (codes "longer text"),
      pos 0,
      none,
      some (codes "third"),
    )
unfolding session run
session_runs = refl

-- A database of one hash chain with one record: the free list pointer, the chain pointer, the newline,
-- the index record at 15.
abbrev pub small : Db
small = record (db_alloc (codes "      0     15\n      0   7k1:0:6\n") (codes "first\n")) {
  nhash = 1;
  hashoff = 7;
}

-- The data of a record of six bytes at 0 was just written.
abbrev put_small : Db
put_small = record small { datoff = 0; datlen = 6 }

abbrev pub item : Item
item = record { off = 15; key = codes "k1"; start = 0; text = codes "first" }

pub item-RecordAt : RecordAt small.idx 15 0 (entry item)
unfolding pread record_head record_text pad_left decimal put_digits
item-RecordAt = record { fits = omega arith; head = refl; body = refl }

pub item-IsEntry : IsEntry (entry item)
unfolding record_text decimal put_digits
item-IsEntry = record {
  no_sep = (omega arith, (omega arith, tt));
  no_nul = (omega arith, (omega arith, tt));
  min = omega arith;
  max = omega arith;
  some_data = omega arith;
  data_max = omega arith;
}

small-Chain : Chain small.idx (chain_of small (codes "k1")) (item ∷ [])
unfolding pread pad_left decimal put_digits db_hash hash_loop hash_term
small-Chain = record {
  head = record { fits = omega arith; reads = refl };
  links = (record { not_null = omega arith; is_entry = item-IsEntry; at = item-RecordAt }, tt);
}

pub small-Texts : Texts small.dat (item ∷ [])
unfolding pread
small-Texts = (
  record {
    at = record { reads = refl };
    no_nul = (omega arith, (omega arith, (omega arith, (omega arith, (omega arith, tt)))));
  },
  tt,
)

readdat-writedat_example :
    (d' : Db) × ((db_writedat (codes "ab") 0 seek_end >> db_readdat) small ≡ ok (codes "ab") d')
readdat-writedat_example =
    readdat-writedat (codes "ab") 0 seek_end small (omega arith, (omega arith, tt)) (omega arith)

readidx-writeidx_example :
    (d' : Db) × ((db_writeidx (codes "k1") 0 seek_end (pos 15)
          >> (get >>= λ d. db_readidx (pos d.idxoff)))
        put_small
      ≡ ok (pos 15) d')
    × (d'.idxbuf ≡ codes "k1")
    × (d'.datoff ≡ 0)
    × (d'.datlen ≡ 6)
unfolding record_text decimal put_digits
readidx-writeidx_example =
    readidx-writeidx (codes "k1") 0 15 seek_end put_small (omega arith) item-IsEntry (omega arith)
