-- ===== src/Db/Io/Laws.antt =====
-- What the reading and writing functions of db.c do where the files hold what they should.
use apue.Prelude.{
  ℕ, ◌+◌, ◌-◌, ◌≤◌, ◌≡◌, refl, ap, ap₂, ◌∙◌, [], ◌∷◌, ◌++◌, arith, length, take, drop, Lacks,
  length-append, ◌≢◌, inl, inr, All-append, get_or, ltb, if◌then◌else◌, ==_refl, false, ◌||◌, ◌==◌,
}
use mathlib.Core.List.{append_assoc}
use apue.Prelude.Int.{pos}
use apue.Text.{Bytes, c_str, decimal, atol}
use apue.Text.Decimal.{atol-pad_left-decimal, atol-decimal, decimal-Lacks}
use apue.Text.Strings.{c_str-Lacks, split_at-append, split_at-Lacks}
use apue.File.{pwrite}
use apue.Db.State.{Db, ok, sep, newline, ptr_sz, ptr_max, idxlen_sz, idxlen_min, idxlen_max}
use apue.Db.Io.{
  db_readptr, parse_data, parse_record, read_body, db_readidx, record_text, record_head,
  db_writeptr,
}
use apue.Db.Layout.{
  PtrAt, RecordAt, Entry, IsEntry, entry_text, ptr_text, length-ptr_text, ptr_text-Lacks,
  len_text-Lacks, length-record_head, take-record_head, drop-record_head, last-newline,
  take-newline,
}

pub db_readptr_lem :
    (off n : ℕ) (d : Db)
    → PtrAt d.idx off n
    → db_readptr off d ≡ ok (pos n) (record d { cursor = off + ptr_sz })
unfolding db_readptr
db_readptr_lem off n d p = rw (
  p.reads,
  length-ptr_text n p.fits,
  c_str-Lacks (ptr_text n) (ptr_text-Lacks n),
  atol-pad_left-decimal,
)

pub db_writeptr_lem :
    (off n : ℕ) (d : Db)
    → n ≤ ptr_max
    → db_writeptr off (pos n) d
      ≡ ok tt (record d { idx = pwrite d.idx off (ptr_text n); cursor = off + ptr_sz })
unfolding db_writeptr
db_writeptr_lem off n d h = ground (arith, length-ptr_text n h)

-- The state that `_db_readidx` leaves at a record.
abbrev pub at_record : ℕ → ℕ → Entry → Db → Db
at_record off next e d = record d {
  cursor = off + (ptr_sz + idxlen_sz) + length (entry_text e);
  idxoff = off;
  ptrval = pos next;
  idxlen = length (entry_text e);
  idxbuf = e.key;
  datoff = e.start;
  datlen = e.len;
}

parse_data_lem :
    (e : Entry) (d : Db)
    → IsEntry e
    → parse_data (decimal e.start ++ (sep ∷ decimal e.len)) d
      ≡ ok tt (record d { datoff = e.start; datlen = e.len })
unfolding parse_data
parse_data_lem e d h =
    rw
      (
        split_at-append sep (decimal e.start) (decimal e.len)
            (decimal-Lacks sep e.start (inr (omega arith))),
        split_at-Lacks sep (decimal e.len) (decimal-Lacks sep e.len (inr (omega arith))),
        atol-decimal e.start,
        atol-decimal e.len,
        parse_data,
      )
      (ground (arith, h.some_data, h.data_max))

parse_record_lem :
    (e : Entry) (d : Db)
    → IsEntry e
    → parse_record (e.key ++ (sep ∷ (decimal e.start ++ (sep ∷ decimal e.len)))) d
      ≡ ok tt (record d { idxbuf = e.key; datoff = e.start; datlen = e.len })
unfolding parse_record
parse_record_lem e d h =
    rw (split_at-append sep e.key (decimal e.start ++ (sep ∷ decimal e.len)) h.no_sep, parse_record)
      (parse_data_lem e (record d { idxbuf = e.key }) h)

-- A record without its newline.
abbrev entry_front : Entry → Bytes
entry_front e = e.key ++ (sep ∷ (decimal e.start ++ (sep ∷ decimal e.len)))

entry_text-front : (e : Entry) → entry_text e ≡ entry_front e ++ newline ∷ []
unfolding record_text
entry_text-front e = simp append_assoc

entry_front-Lacks : (e : Entry) → IsEntry e → Lacks 0 (entry_front e)
entry_front-Lacks e h =
    All-append (λ c. c ≢ 0) e.key _ h.no_nul
      (
        omega arith,
        All-append (λ c. c ≢ 0) (decimal e.start) _ (decimal-Lacks 0 e.start (inl (omega arith)))
            (omega arith, decimal-Lacks 0 e.len (inl (omega arith))),
      )

module _ (off next : ℕ) (e : Entry) (d : Db) (r : RecordAt d.idx off next e) (h : IsEntry e) where
  length-entry_front : length (entry_text e) ≡ length (entry_front e) + 1
  length-entry_front = rw entry_text-front (length-append (entry_front e) (newline ∷ []))

  -- The body of the record in the buffer, its newline replaced by a NUL.
  read_front : c_str (take (length (entry_text e) - 1) (entry_text e)) ≡ entry_front e
  read_front =
      ap c_str (
        ap₂ take
          (let k : length (entry_text e) - 1 ≡ length (entry_front e) =
              omega (arith, length-entry_front) in
            k)
          (entry_text-front e)
        ∙ take-newline (entry_front e))
      ∙ c_str-Lacks (entry_front e) (entry_front-Lacks e h)

  last_byte : get_or (entry_text e) (length (entry_text e) - 1) 0 ≡ newline
  last_byte =
      ap₂ (λ s n. get_or s n 0) (entry_text-front e)
        (let k : length (entry_text e) - 1 ≡ length (entry_front e) =
            omega (arith, length-entry_front) in
          k)
      ∙ last-newline (entry_front e) 0

  head_next :
      (s : Bytes)
      → s ≡ record_head next (length (entry_text e))
      → atol (c_str (take ptr_sz s)) ≡ pos next
  head_next s p =
      ap (λ t. atol (c_str (take ptr_sz t))) p
      ∙ ap (λ t. atol (c_str t)) (take-record_head next (length (entry_text e)) r.fits)
      ∙ ap atol (c_str-Lacks (ptr_text next) (ptr_text-Lacks next))
      ∙ atol-pad_left-decimal ptr_sz next

  head_length :
      (s : Bytes)
      → s ≡ record_head next (length (entry_text e))
      → atol (c_str (drop ptr_sz s)) ≡ pos (length (entry_text e))
  head_length s p =
      ap (λ t. atol (c_str (drop ptr_sz t))) p
      ∙ ap (λ t. atol (c_str t)) (drop-record_head next (length (entry_text e)) r.fits)
      ∙ ap atol (c_str-Lacks _ (len_text-Lacks (length (entry_text e))))
      ∙ atol-pad_left-decimal idxlen_sz (length (entry_text e))

  length_fits :
      (ltb (length (entry_text e)) idxlen_min || ltb idxlen_max (length (entry_text e))) ≡ false
  length_fits = ground (arith, h.min, h.max)

  read_body_lem :
      (s : Bytes)
      → s ≡ record_head next (length (entry_text e))
      → read_body s (record d { cursor = off + (ptr_sz + idxlen_sz); idxoff = off })
        ≡ ok (pos next) (at_record off next e d)
  unfolding read_body
  read_body_lem s p =
      rw (head_next s p, head_length s p, length_fits, r.body, ==_refl, last_byte, read_front)
        (rw (
          parse_record_lem e
            (record d {
              cursor = off + (ptr_sz + idxlen_sz) + length (entry_text e);
              idxoff = off;
              ptrval = pos next;
              idxlen = length (entry_text e);
              idxbuf = entry_front e;
            })
            h))

  read_at :
      (o : ℕ)
      → (if o == 0 then d.cursor else o) ≡ off
      → db_readidx (pos o) d ≡ ok (pos next) (at_record off next e d)
  unfolding db_readidx
  read_at o z =
      rw (z, r.head, length-record_head next (length (entry_text e)) r.fits h.max)
        (read_body_lem (record_head next (length (entry_text e))) refl)

  -- At an offset, `_db_readidx` reads the record there.
  pub db_readidx_lem : off ≢ 0 → db_readidx (pos off) d ≡ ok (pos next) (at_record off next e d)
  db_readidx_lem nz = read_at off (ground arith)

  -- At offset 0, it reads the record under the cursor.
  pub db_readidx_next :
      d.cursor ≡ off → db_readidx (pos 0) d ≡ ok (pos next) (at_record off next e d)
  db_readidx_next c = read_at 0 c
