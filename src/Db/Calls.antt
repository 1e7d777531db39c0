-- ===== src/Db/Calls.antt =====
-- The calls of db.c that a client makes, and the searches behind them. Every search takes fuel: it
-- bounds the records that are visited, and `out_of_fuel` stands for a search that goes on.
use apue.Prelude.{
  ℕ, zero, suc, ◌+◌, ◌-◌, ◌*◌, Bool, true, false, not, ◌&&◌, ◌||◌, map, Option, none, some, ltb,
  ◌==◌, if◌then◌else◌, length, replicate,
}
use apue.Prelude.Int.{ℤ, pos, negsuc}
use apue.Text.{Bytes, str_eq}
use apue.Db.State.{
  M, ok, ◌>>=◌, ◌>>◌, pure, dump, dump_if, get, modify, lock, un_lock, idx_file, read_lock,
  write_lock, out_of_fuel, invalid_data_length, Counts, Flag, insert, replace, other, space, ptr_sz,
  free_off, datlen_min, datlen_max,
}
use apue.Db.Io.{
  seek_set, seek_end, db_hash, db_readptr, db_readidx, db_readdat, db_writedat, db_writeidx,
  db_writeptr, to_offset,
}

-- db->cnt_…++
abbrev pub count : (Counts → Counts) → M (Unit {0})
count f d = ok tt (record d { cnt = f d.cnt })

-- The loop of `_db_find_and_lock` from the record at `offset`; the result is the last offset.
unfoldable pub find_loop : ℕ → Bytes → ℤ → M ℤ
find_loop zero key offset = dump out_of_fuel
find_loop (suc fuel) key (pos zero) = pure (pos 0)
find_loop (suc fuel) key offset = do
  o ← to_offset offset
  next ← db_readidx offset
  d ← get
  if str_eq d.idxbuf key
      then pure offset
      else (modify (λ d. record d { ptroff = o }) >> find_loop fuel key next)

abbrev pub is_zero : ℤ → Bool
is_zero (pos zero) = true
is_zero _ = false

-- `true` stands for the 0 of a record that was found.
unfoldable pub db_find_and_lock : ℕ → Bytes → Bool → M Bool
unfolding lock find_loop
db_find_and_lock fuel key writelock = do
  modify (λ d. record d { chainoff = db_hash d.nhash key * ptr_sz + d.hashoff })
  modify (λ d. record d { ptroff = d.chainoff })
  d ← get
  lock idx_file (if writelock then write_lock else read_lock) d.chainoff 1
  first ← db_readptr d.ptroff
  offset ← find_loop fuel key first
  pure (not (is_zero offset))

-- un_lock(db->idxfd, db->chainoff, SEEK_SET, 1)
unfoldable pub un_lock_chain : M (Unit {0})
unfolding un_lock
un_lock_chain d = un_lock idx_file d.chainoff 1 d

unfoldable pub db_fetch : ℕ → Bytes → M (Option Bytes)
db_fetch fuel key = do
  found ← db_find_and_lock fuel key false
  text ←
      (if found
        then (do s ← db_readdat; count (λ c. record c { fetchok = c.fetchok + 1 }); pure (some s))
        else (do count (λ c. record c { fetcherr = c.fetcherr + 1 }); pure none))
  un_lock_chain
  pure text

unfoldable pub db_dodelete : M (Unit {0})
unfolding lock un_lock
db_dodelete = do
  modify (λ d. record d { datbuf = replicate (d.datlen - 1) space })
  modify (λ d. record d { idxbuf = map (λ _. space) d.idxbuf })
  lock idx_file write_lock free_off 1
  d ← get
  db_writedat d.datbuf d.datoff seek_set
  freeptr ← db_readptr free_off
  d ← get
  let saveptr = d.ptrval
  db_writeidx d.idxbuf d.idxoff seek_set freeptr
  d ← get
  db_writeptr free_off (pos d.idxoff)
  d ← get
  db_writeptr d.ptroff saveptr
  un_lock idx_file free_off 1

unfoldable pub db_delete : ℕ → Bytes → M ℤ
db_delete fuel key = do
  found ← db_find_and_lock fuel key true
  rc ←
      (if found
        then (do db_dodelete; count (λ c. record c { delok = c.delok + 1 }); pure (pos 0))
        else (do count (λ c. record c { delerr = c.delerr + 1 }); pure (negsuc 0)))
  un_lock_chain
  pure rc

-- The loop of `_db_findfree`: `save` is the offset of the pointer to the record at `offset`. The
-- result is the last offset and that pointer's.
unfoldable pub findfree_loop : ℕ → ℕ → ℕ → ℕ → ℤ → M (ℤ × ℕ)
findfree_loop zero keylen datlen save offset = dump out_of_fuel
findfree_loop (suc fuel) keylen datlen save (pos zero) = pure (pos 0, save)
findfree_loop (suc fuel) keylen datlen save offset = do
  o ← to_offset offset
  next ← db_readidx offset
  d ← get
  if length d.idxbuf == keylen && d.datlen == datlen
      then pure (offset, save)
      else findfree_loop fuel keylen datlen o next

-- `true` stands for the 0 of a record that was found and taken off the free list.
unfoldable pub db_findfree : ℕ → ℕ → ℕ → M Bool
unfolding findfree_loop lock un_lock
db_findfree fuel keylen datlen = do
  lock idx_file write_lock free_off 1
  first ← db_readptr free_off
  last ← findfree_loop fuel keylen datlen free_off first
  rc ← (if is_zero last.0 then pure false else (do d ← get; db_writeptr last.1 d.ptrval; pure true))
  un_lock idx_file free_off 1
  pure rc

-- The new record at the ends of both files, and at the front of its hash chain.
unfoldable pub append_record : Bytes → Bytes → ℤ → M (Unit {0})
append_record key text ptrval = do
  db_writedat text 0 seek_end
  db_writeidx key 0 seek_end ptrval
  d ← get
  db_writeptr d.chainoff (pos d.idxoff)

-- The new record in place of a free one.
unfoldable pub reuse_record : Bytes → Bytes → ℤ → M (Unit {0})
reuse_record key text ptrval = do
  d ← get
  db_writedat text d.datoff seek_set
  db_writeidx key d.idxoff seek_set ptrval
  d ← get
  db_writeptr d.chainoff (pos d.idxoff)

-- The branch of db_store for a key that is not there.
unfoldable pub store_new : ℕ → Bytes → Bytes → Flag → M ℤ
store_new fuel key text replace =
    count (λ c. record c { storerr = c.storerr + 1 }) >> pure (negsuc 0)
store_new fuel key text flag = do
  d ← get
  ptrval ← db_readptr d.chainoff
  reused ← db_findfree fuel (length key) (length text + 1)
  (if reused
      then (reuse_record key text ptrval >> count (λ c. record c { stor2 = c.stor2 + 1 }))
      else (append_record key text ptrval >> count (λ c. record c { stor1 = c.stor1 + 1 })))
  pure (pos 0)

-- The branch of db_store for a key that is there.
unfoldable pub store_old : Bytes → Bytes → Flag → M ℤ
store_old key text insert = count (λ c. record c { storerr = c.storerr + 1 }) >> pure (pos 1)
store_old key text flag = do
  d ← get
  (if length text + 1 == d.datlen
      then (db_writedat text d.datoff seek_set >> count (λ c. record c { stor4 = c.stor4 + 1 }))
      else (do
        db_dodelete
        d ← get
        ptrval ← db_readptr d.chainoff
        append_record key text ptrval
        count (λ c. record c { stor3 = c.stor3 + 1 })))
  pure (pos 0)

-- The body of db_store for a flag that it knows.
unfoldable pub store_known : ℕ → Bytes → Bytes → Flag → M ℤ
store_known fuel key text flag = do
  dump_if (ltb (length text + 1) datlen_min || ltb datlen_max (length text + 1)) invalid_data_length
  found ← db_find_and_lock fuel key true
  rc ← (if found then store_old key text flag else store_new fuel key text flag)
  un_lock_chain
  pure rc

unfoldable pub db_store : ℕ → Bytes → Bytes → Flag → M ℤ
unfolding store_known
db_store fuel key text other = pure (negsuc 0)
db_store fuel key text flag = store_known fuel key text flag
