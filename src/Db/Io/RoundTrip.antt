-- ===== src/Db/Io/RoundTrip.antt =====
-- The writing functions of db.c, each with the reading function of the same record.
use apue.Prelude.{ℕ, ◌+◌, ◌≤◌, ◌≡◌, ◌≢◌, refl, ap, sym, ◌∙◌, Lacks, length}
use apue.Prelude.Int.{pos}
use apue.Text.{Bytes}
use apue.File.Laws.{pread-pwrite}
use apue.File.{pread, pwrite}
use apue.Db.State.{Db, ok, ◌>>=◌, ◌>>◌, get, ptr_sz, ptr_max, datlen_max}
use apue.Db.Io.{
  db_readptr, db_readidx, db_readdat, db_writedat, db_writeidx, db_writeptr, Whence, seek_to,
}
use apue.Db.Io.Laws.{db_readptr_lem, db_writeptr_lem, db_readidx_lem, at_record}
use apue.Db.Io.Writes.{
  db_writedat_lem, wrote_dat, wrote_dat-DataAt, db_writeidx_lem, wrote_idx, wrote_idx-RecordAt,
  db_readdat_lem,
}
use apue.Db.Layout.{PtrAt, IsEntry, ptr_text, length-ptr_text}

-- The pointer that was written stands in the file.
pub pwrite-PtrAt : (f : Bytes) (off n : ℕ) → n ≤ ptr_max → PtrAt (pwrite f off (ptr_text n)) off n
pwrite-PtrAt f off n h = record {
  fits = h;
  reads =
      ap (pread (pwrite f off (ptr_text n)) off) (sym (length-ptr_text n h))
      ∙ pread-pwrite f off (ptr_text n);
}

-- Any pointer up to PTR_MAX that `_db_writeptr` writes, at any offset of any index file, is what
-- `_db_readptr` reads there.
readptr-writeptr :
    (off n : ℕ) (d : Db)
    → n ≤ ptr_max
    → (d' : Db) × ((db_writeptr off (pos n) >> db_readptr off) d ≡ ok (pos n) d')
readptr-writeptr off n d h =
    let f = pwrite d.idx off (ptr_text n) in
    let d' = record d { idx = f; cursor = off + ptr_sz } in
    (d', rw (db_writeptr_lem off n d h) (db_readptr_lem off n d' (pwrite-PtrAt d.idx off n h)))

-- An index record that _db_writeidx writes, over an old one or at the end of the file, is read
-- back by _db_readidx with the same chain pointer, key, data offset and data length, for keys
-- without NUL and separator whose record is in bounds, away from offset 0.
pub readidx-writeidx :
    (key : Bytes) (offset n : ℕ) (w : Whence) (d : Db)
    → n ≤ ptr_max
    → IsEntry (record { key = key; start = d.datoff; len = d.datlen })
    → seek_to w d.idx offset ≢ 0
    → (d' : Db) × ((db_writeidx key offset w (pos n) >> (get >>= λ d. db_readidx (pos d.idxoff))) d
        ≡ ok (pos n) d')
      × (d'.idxbuf ≡ key)
      × (d'.datoff ≡ d.datoff)
      × (d'.datlen ≡ d.datlen)
readidx-writeidx key offset n w d h e nz =
    let d1 = wrote_idx key offset n d w in
    (
      at_record (seek_to w d.idx offset) n (record { key = key; start = d.datoff; len = d.datlen })
          d1,
      rw (db_writeidx_lem key offset n d h e w) (
          db_readidx_lem (seek_to w d.idx offset) n _ d1 (wrote_idx-RecordAt key offset n d h e w) e
            nz),
      refl,
      refl,
      refl,
    )

-- A text without a NUL that with its newline fits datbuf, DATLEN_MAX + 2 bytes, and that
-- _db_writedat writes, in place or at the end of the data file, is what _db_readdat reads next.
pub readdat-writedat :
    (text : Bytes) (offset : ℕ) (w : Whence) (d : Db)
    → Lacks 0 text
    → length text + 1 ≤ datlen_max + 2
    → (d' : Db) × ((db_writedat text offset w >> db_readdat) d ≡ ok text d')
readdat-writedat text offset w d clean small =
    let d1 = wrote_dat text offset d w in
    (
      record d1 { datbuf = text },
      rw (db_writedat_lem text offset d w)
          (db_readdat_lem text d1 (wrote_dat-DataAt text offset d w) refl small clean),
    )
