-- ===== src/Db/Open.antt =====
-- The calls of db.c that open a database and go through it from the front: db_open, db_rewind and
-- db_nextrec.
use apue.Prelude.{
  ℕ, zero, suc, ◌+◌, Bool, true, false, ◌&&◌, [], ◌∷◌, ◌++◌, Option, none, some, ◌==◌,
  if◌then◌else◌, length,
}
use apue.Prelude.Int.{pos, negsuc}
use apue.Text.{Bytes, decimal, pad_left}
use apue.Db.State.{
  Db, M, Outcome, ◌>>=◌, ◌>>◌, pure, dump, get, modify, lock, un_lock, idx_file, read_lock,
  write_lock, out_of_fuel, no_counts, space, newline, ptr_sz, nhash_def, hash_off, free_off,
}
use apue.Db.Io.{db_readidx, db_readdat, write_idx, table_end}
use apue.Db.Calls.{count}

unfoldable pub db_rewind : M (Unit {0})
db_rewind = modify (λ d. record d { cursor = table_end d.nhash; idxoff = table_end d.nhash })

abbrev pub all_blank : Bytes → Bool
all_blank [] = true
all_blank (c ∷ s) = c == space && all_blank s

-- The loop of db_nextrec: `true` at a record whose key is not blank, `false` at the end of the file.
unfoldable pub nextrec_loop : ℕ → M Bool
nextrec_loop zero = dump out_of_fuel
nextrec_loop (suc fuel) = do
  p ← db_readidx (pos 0)
  elim p [
    | negsuc _ ↦ pure false
    | pos _ ↦ do d ← get; if all_blank d.idxbuf then nextrec_loop fuel else pure true
  ]

-- The key and the data of the next record.
unfoldable pub db_nextrec : ℕ → M (Option (Bytes × Bytes))
unfolding nextrec_loop lock un_lock
db_nextrec fuel = do
  lock idx_file read_lock free_off 1
  more ← nextrec_loop fuel
  result ←
      (if more
        then (do
          d ← get
          let key = d.idxbuf
          text ← db_readdat
          count (λ c. record c { nextrec = c.nextrec + 1 })
          pure (some (key, text)))
        else pure none)
  un_lock idx_file free_off 1
  pure result

-- The hash table of a new index file: the free list pointer and `nhash` chain pointers, all zero.
unfoldable pub zero_ptrs : ℕ → Bytes
unfolding pad_left decimal
zero_ptrs zero = []
zero_ptrs (suc n) = pad_left ptr_sz (decimal 0) ++ zero_ptrs n

-- `_db_alloc` zeroes the structure; db_open sets the size and the place of the hash table.
abbrev pub db_alloc : Bytes → Bytes → Db
db_alloc idx dat = record {
  idx = idx;
  dat = dat;
  locks = [];
  cursor = 0;
  idxbuf = [];
  datbuf = [];
  idxoff = 0;
  idxlen = 0;
  datoff = 0;
  datlen = 0;
  ptrval = pos 0;
  ptroff = 0;
  chainoff = 0;
  hashoff = hash_off;
  nhash = nhash_def;
  cnt = no_counts;
}

-- What db_open does with open files: under a lock on the whole index file it writes the hash table
-- of a file that is empty.
unfoldable pub db_init : Bool → M (Unit {0})
unfolding lock un_lock db_rewind zero_ptrs
db_init created = do
  (if created
      then (do
        lock idx_file write_lock 0 0
        d ← get
        (if length d.idx == 0
            then write_idx 0 (zero_ptrs (nhash_def + 1) ++ newline ∷ [])
            else pure tt)
        un_lock idx_file 0 0)
      else pure tt)
  db_rewind

-- `creat` and `trunc` are O_CREAT and O_TRUNC; the options are the contents of the files that
-- open(2) opened, at the time of the fstat. `none` stands for NULL.
unfoldable pub db_open : Bool → Bool → Option Bytes → Option Bytes → Option (Outcome (Unit {0}))
unfolding db_init
db_open creat trunc none dat = none
db_open creat trunc (some idx) none = none
db_open creat trunc (some idx) (some dat) = some (db_init (creat && trunc) (db_alloc idx dat))
