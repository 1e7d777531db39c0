-- ===== src/Db/Io.antt =====
-- The functions of db.c that read and write one pointer, one index record or one data record.
pub mod Laws
pub mod Writes
pub mod RoundTrip
use apue.Prelude.{
  ℕ, zero, suc, ◌+◌, ◌-◌, ◌*◌, ◌%◌, ◌^◌, ◌≡◌, refl, Bool, true, false, not, ◌&&◌, ◌||◌, List, [],
  ◌∷◌, ◌++◌, Option, none, some, ltb, ◌==◌, if◌then◌else◌, length, take, drop, get_or,
}
use apue.Prelude.Int.{ℤ, pos, negsuc}
use apue.Text.{Bytes, codes, c_str, split_at, decimal, pad_left, atol}
use apue.File.{pread, pwrite}
use apue.Db.State.{
  Db, Death, M, Outcome, ok, die, ◌>>=◌, ◌>>◌, pure, dump, dump_if, get, modify, lock, un_lock,
  idx_file, dat_file, write_lock, seek_error, read_error, short_index, invalid_length,
  missing_newline, missing_first_sep, missing_second_sep, too_many_seps, negative_offset,
  invalid_data_length, data_read_error, data_missing_newline, invalid_ptr, overrun, idxlen_sz, sep,
  newline, ptr_sz, ptr_max, idxlen_min, idxlen_max, datlen_max,
}

pub data Whence : Type 0 where
  seek_set seek_end : Whence

-- (size_t)z
abbrev pub to_size : ℤ → ℕ
to_size (pos n) = n
to_size (negsuc n) = 2 ^ 64 - 1 - n

-- An offset that lseek accepts.
abbrev pub to_offset : ℤ → M ℕ
to_offset (pos n) = pure n
to_offset (negsuc n) = dump seek_error

-- read(db->idxfd, …, n) at the descriptor's offset, which it moves.
unfoldable pub read_idx : ℕ → M Bytes
read_idx n d = let s = pread d.idx d.cursor n in ok s (record d { cursor = d.cursor + length s })

-- lseek(db->idxfd, off, SEEK_SET) and a write of `s`.
unfoldable pub write_idx : ℕ → Bytes → M (Unit {0})
write_idx off s d = ok tt (record d { idx = pwrite d.idx off s; cursor = off + length s })

-- What one round of `_db_hash` adds: a `char` is signed, and `c * i` is taken modulo 2^64.
unfoldable pub hash_term : ℕ → ℕ → ℕ
hash_term c i = if ltb c 128 then c * i else 2 ^ 64 - (256 - c) * i

unfoldable pub hash_loop : ℕ → ℕ → Bytes → ℕ
unfolding hash_term
hash_loop i hval [] = hval
hash_loop i hval (c ∷ s) = hash_loop (i + 1) ((hval + hash_term c i) % 2 ^ 64) s

unfoldable pub db_hash : ℕ → Bytes → ℕ
unfolding hash_loop
db_hash nhash key = hash_loop 1 0 key % nhash

unfoldable pub db_readptr : ℕ → M ℤ
unfolding read_idx
db_readptr off = do
  modify (λ d. record d { cursor = off })
  s ← read_idx ptr_sz
  dump_if (not (length s == ptr_sz)) read_error
  pure (atol (c_str s))

-- The start and the length of the data record, behind the first separator.
unfoldable pub parse_data : Bytes → M (Unit {0})
parse_data rest d = elim (split_at sep rest) [
  | none ↦ die missing_second_sep d
  | some (start, len) ↦
      (do
        dump_if (elim (split_at sep len) [ none ↦ false | some _ ↦ true ]) too_many_seps
        o ← (λ d. elim (atol start) [ pos n ↦ ok n d | negsuc n ↦ die negative_offset d ])
        modify (λ d. record d { datoff = o })
        modify (λ d. record d { datlen = to_size (atol len) })
        dump_if (to_size (atol len) == 0 || ltb datlen_max (to_size (atol len)))
            invalid_data_length)
        d
]

-- The key, and the fields behind it.
unfoldable pub parse_record : Bytes → M (Unit {0})
unfolding parse_data
parse_record s d = elim (split_at sep s) [
  | none ↦ die missing_first_sep d
  | some (key, rest) ↦ parse_data rest (record d { idxbuf = key })
]

-- The part of `_db_readidx` behind the fixed head: the rest of the record.
unfoldable pub read_body : Bytes → M ℤ
unfolding parse_record read_idx
read_body head = do
  modify (λ d. record d { ptrval = atol (c_str (take ptr_sz head)) })
  let len = to_size (atol (c_str (drop ptr_sz head)))
  modify (λ d. record d { idxlen = len })
  dump_if (ltb len idxlen_min || ltb idxlen_max len) invalid_length
  body ← read_idx len
  dump_if (not (length body == len)) read_error
  dump_if (not (get_or body (len - 1) 0 == newline)) missing_newline
  modify (λ d. record d { idxbuf = c_str (take (len - 1) body) })
  parse_record (c_str (take (len - 1) body))
  d ← get
  pure d.ptrval

-- `_db_readidx`: at offset 0 it reads on from where the descriptor stands, and is -1 at the end.
unfoldable pub db_readidx : ℤ → M ℤ
unfolding read_idx read_body
db_readidx offset = do
  o ← to_offset offset
  modify (λ d. record d {
    cursor = if o == 0 then d.cursor else o;
    idxoff = if o == 0 then d.cursor else o;
  })
  head ← read_idx (ptr_sz + idxlen_sz)
  if length head == ptr_sz + idxlen_sz
      then read_body head
      else if length head == 0 && o == 0
      then pure (negsuc 0)
      else dump short_index

-- datbuf has DATLEN_MAX + 2 bytes; read writes past its end if the file has more for it.
unfoldable pub db_readdat : M Bytes
db_readdat d =
    let s = pread d.dat d.datoff d.datlen in
    (do
      dump_if (ltb (datlen_max + 2) (length s)) overrun
      dump_if (not (length s == d.datlen)) data_read_error
      dump_if (not (get_or s (d.datlen - 1) 0 == newline)) data_missing_newline
      modify (λ d. record d { datbuf = c_str (take (d.datlen - 1) s) })
      pure (c_str (take (d.datlen - 1) s)))
      d

-- Only an append locks.
abbrev pub when_end : Whence → M (Unit {0}) → M (Unit {0})
when_end seek_set m = pure tt
when_end seek_end m = m

-- Where lseek(fd, offset, whence) puts the offset of a file.
abbrev pub seek_to : Whence → Bytes → ℕ → ℕ
seek_to seek_set f offset = offset
seek_to seek_end f offset = length f + offset

unfoldable pub db_writedat : Bytes → ℕ → Whence → M (Unit {0})
unfolding lock un_lock
db_writedat text offset whence = do
  when_end whence (lock dat_file write_lock 0 0)
  modify (λ d. record d { datoff = seek_to whence d.dat offset })
  modify (λ d. record d { datlen = length text + 1 })
  modify (λ d. record d { dat = pwrite d.dat d.datoff (text ++ newline ∷ []) })
  when_end whence (un_lock dat_file 0 0)

-- What `_db_writeidx` prints behind the head of an index record.
unfoldable pub record_text : Bytes → ℕ → ℕ → Bytes
record_text key datoff datlen =
    key ++ (sep ∷ (decimal datoff ++ (sep ∷ (decimal datlen ++ newline ∷ []))))

-- The head: the chain pointer and the length of the rest, in columns of fixed width.
unfoldable pub record_head : ℕ → ℕ → Bytes
record_head ptrval len = pad_left ptr_sz (decimal ptrval) ++ pad_left idxlen_sz (decimal len)

-- A pointer that fits its column.
abbrev pub check_ptr : ℤ → M ℕ
check_ptr (pos n) = dump_if (ltb ptr_max n) invalid_ptr >> pure n
check_ptr (negsuc n) = dump invalid_ptr

-- The first byte behind the hash table and its newline.
abbrev pub table_end : ℕ → ℕ
table_end nhash = (nhash + 1) * ptr_sz + 1

unfoldable pub db_writeidx : Bytes → ℕ → Whence → ℤ → M (Unit {0})
unfolding record_text record_head write_idx lock un_lock
db_writeidx key offset whence ptrval = do
  modify (λ d. record d { ptrval = ptrval })
  p ← check_ptr ptrval
  d ← get
  let text = record_text key d.datoff d.datlen
  dump_if (ltb (idxlen_max + 2) (length text + 1)) overrun
  modify (λ d. record d { idxbuf = text })
  dump_if (ltb (length text) idxlen_min || ltb idxlen_max (length text)) invalid_length
  when_end whence (lock idx_file write_lock (table_end d.nhash) 0)
  modify (λ d. record d { idxoff = seek_to whence d.idx offset })
  d ← get
  write_idx d.idxoff (record_head p (length text) ++ text)
  when_end whence (un_lock idx_file (table_end d.nhash) 0)

unfoldable pub db_writeptr : ℕ → ℤ → M (Unit {0})
unfolding write_idx
db_writeptr offset ptrval = do p ← check_ptr ptrval; write_idx offset (pad_left ptr_sz (decimal p))
