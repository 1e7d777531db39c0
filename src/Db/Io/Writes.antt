-- ===== src/Db/Io/Writes.antt =====
-- The states that the writing functions of db.c leave, and `_db_readdat`.
use apue.Prelude.{
  ℕ, ◌+◌, ◌-◌, ◌≤◌, ◌≡◌, refl, sym, ap, ◌∙◌, List, [], ◌∷◌, ◌++◌, arith, length, length-append,
  Lacks, ltb, ==_refl, ◌||◌, not, false, filter_list, filter_list-cons_false,
}
use apue.Prelude.Int.{pos}
use apue.Text.{Bytes}
use apue.Text.Strings.{c_str-Lacks}
use apue.File.{pread, pwrite}
use apue.File.Laws.{pread-pwrite, pread-pwrite_fst, pread-pwrite_snd}
use apue.Db.State.{
  Db, ok, Which, Kind, write_lock, idx_file, dat_file, Lock, same_region, newline, ptr_sz, ptr_max,
  idxlen_sz, idxlen_min, idxlen_max, datlen_max,
}
use apue.Db.Io.{
  db_readdat, db_writedat, record_text, record_head, db_writeidx, seek_set, seek_end, Whence,
  seek_to, table_end,
}
use apue.Db.Layout.{
  RecordAt, DataAt, Entry, IsEntry, length-record_head, entry_text, last-newline, take-newline,
}

-- The locks that an append leaves: its own is gone.
abbrev pub released : Whence → Which → ℕ → List Lock → List Lock
released seek_set w off ls = ls
released seek_end w off ls = filter_list (λ l. not (same_region w off 0 l)) ls

abbrev pub not_region : Which → ℕ → ℕ → List Lock → List Lock
not_region w off len = filter_list (λ l. not (same_region w off len l))

-- Unlocking takes away the lock that was taken last.
pub release_own :
    (w : Which) (k : Kind) (off len : ℕ) (ls : List Lock)
    → not_region w off len (record { file = w; kind = k; off = off; len = len } ∷ ls)
      ≡ not_region w off len ls
release_own w k off len ls =
    filter_list-cons_false (λ l. not (same_region w off len l))
      (record { file = w; kind = k; off = off; len = len }) ls (own w)
  where
    own :
        (w : Which)
        → not (same_region w off len (record { file = w; kind = k; off = off; len = len })) ≡ false
    own idx_file = rw (==_refl off, ==_refl len)
    own dat_file = rw (==_refl off, ==_refl len)

-- A data record and an index record that were written stand in their file.
pub pwrite-DataAt :
    (f : Bytes) (o : ℕ) (text : Bytes) → DataAt (pwrite f o (text ++ newline ∷ [])) o text
pwrite-DataAt f o text = record {
  reads =
      ap (pread (pwrite f o (text ++ newline ∷ [])) o) (sym (length-append text (newline ∷ [])))
      ∙ pread-pwrite f o (text ++ newline ∷ []);
}

pub pwrite-RecordAt :
    (f : Bytes) (o n : ℕ) (e : Entry)
    → n ≤ ptr_max
    → IsEntry e
    → RecordAt (pwrite f o (record_head n (length (entry_text e)) ++ entry_text e)) o n e
pwrite-RecordAt f o n e fits h =
    let text = entry_text e in
    let size = length-record_head n (length text) fits h.max in
    record {
      fits = fits;
      head =
          pread-pwrite_fst f o (record_head n (length text)) text (ptr_sz + idxlen_sz) (sym size);
      body =
          pread-pwrite_snd f o (record_head n (length text)) text (ptr_sz + idxlen_sz) (sym size);
    }

module _ (text : Bytes) (offset : ℕ) (d : Db) where
  abbrev pub wrote_dat : Whence → Db
  wrote_dat w = record d {
    locks = released w dat_file 0 d.locks;
    datoff = seek_to w d.dat offset;
    datlen = length text + 1;
    dat = pwrite d.dat (seek_to w d.dat offset) (text ++ newline ∷ []);
  }

  pub db_writedat_lem : (w : Whence) → db_writedat text offset w d ≡ ok tt (wrote_dat w)
  unfolding db_writedat
  db_writedat_lem seek_set = refl
  db_writedat_lem seek_end = refl

  pub wrote_dat-DataAt : (w : Whence) → DataAt (wrote_dat w).dat (seek_to w d.dat offset) text
  wrote_dat-DataAt w = pwrite-DataAt d.dat (seek_to w d.dat offset) text

module _ (key : Bytes) (offset n : ℕ) (d : Db) where
  abbrev written : Entry
  written = record { key = key; start = d.datoff; len = d.datlen }

  abbrev pub wrote_idx : Whence → Db
  wrote_idx w =
      let text = record_text key d.datoff d.datlen in
      let head = record_head n (length text) in
      record d {
        locks = released w idx_file (table_end d.nhash) d.locks;
        idxoff = seek_to w d.idx offset;
        ptrval = pos n;
        idxbuf = text;
        idx = pwrite d.idx (seek_to w d.idx offset) (head ++ text);
        cursor = seek_to w d.idx offset + length (head ++ text);
      }

  module _ (fits : n ≤ ptr_max)
      (h : IsEntry (record { key = key; start = d.datoff; len = d.datlen })) where
    ptr_fits : ltb ptr_max n ≡ false
    ptr_fits = ground arith

    no_overrun : ltb (idxlen_max + 2) (length (record_text key d.datoff d.datlen) + 1) ≡ false
    no_overrun = ground (arith, h.max)

    length_fits :
        let l = length (record_text key d.datoff d.datlen) in
        (ltb l idxlen_min || ltb idxlen_max l) ≡ false
    length_fits = ground (arith, h.min, h.max)

    pub db_writeidx_lem : (w : Whence) → db_writeidx key offset w (pos n) d ≡ ok tt (wrote_idx w)
    unfolding db_writeidx
    db_writeidx_lem seek_set = rw (ptr_fits, no_overrun, length_fits)
    db_writeidx_lem seek_end =
        rw (ptr_fits, no_overrun, length_fits)
          (ap (λ ls. ok tt (record (wrote_idx seek_end) { locks = ls }))
            (release_own idx_file write_lock (table_end d.nhash) 0 d.locks))

    pub wrote_idx-RecordAt :
        (w : Whence)
        → RecordAt
            (wrote_idx w).idx
            (seek_to w d.idx offset)
            n
            (record { key = key; start = d.datoff; len = d.datlen })
    wrote_idx-RecordAt w = pwrite-RecordAt d.idx (seek_to w d.idx offset) n written fits h

pub db_readdat_lem :
    (text : Bytes) (d : Db)
    → DataAt d.dat d.datoff text
    → d.datlen ≡ length text + 1
    → length text + 1 ≤ datlen_max + 2
    → Lacks 0 text
    → db_readdat d ≡ ok text (record d { datbuf = text })
unfolding db_readdat
db_readdat_lem text d at len small clean =
    rw (len, at.reads)
      (rw (full) (
        rw
          (
            no_overrun,
            ==_refl,
            less_one,
            last-newline text 0,
            take-newline text,
            c_str-Lacks text clean,
          )
          (rw (less_one, take-newline text, c_str-Lacks text clean))))
  where
    full : length (text ++ newline ∷ []) ≡ length text + 1
    full = length-append text (newline ∷ [])

    no_overrun : ltb (datlen_max + 2) (length text + 1) ≡ false
    no_overrun = ground arith

    less_one : length text + 1 - 1 ≡ length text
    less_one = omega arith
