-- ===== src/Db/Layout.antt =====
-- What stands in the two files: a pointer, an index record and a data record at an offset.
use apue.Prelude.{
  ℕ, ◌+◌, ◌-◌, ◌≤◌, ◌≡◌, refl, sym, ap, ◌∙◌, inl, [], ◌∷◌, ◌++◌, arith, length, take, drop,
  length-append, Lacks, get_or,
}
use apue.Text.{Bytes, decimal, pad_left}
use apue.Text.Decimal.{length-decimal_le, length-pad_left, decimal-Lacks, pad_left-Lacks}
use apue.File.{pread}
use apue.File.Laws.{take-pread, take-append, take_all, drop-append_ge}
use apue.Db.State.{sep, newline, ptr_sz, ptr_max, idxlen_sz, idxlen_min, idxlen_max, datlen_max}
use apue.Db.Io.{record_text, record_head}

abbrev pub ptr_text : ℕ → Bytes
ptr_text n = pad_left ptr_sz (decimal n)

pub record PtrAt (f : Bytes) (off n : ℕ) : Type 0 where
  pub fits : n ≤ ptr_max
  pub reads : pread f off ptr_sz ≡ ptr_text n

-- What an index record says: the key, and the place and the length of the data record.
pub record Entry : Type 0 where
  pub key : Bytes
  pub start : ℕ
  pub len : ℕ

abbrev pub entry_text : Entry → Bytes
entry_text e = record_text e.key e.start e.len

-- An entry that the index file can hold.
pub record IsEntry (e : Entry) : Type 0 where
  pub no_sep : Lacks sep e.key
  pub no_nul : Lacks 0 e.key
  pub min : idxlen_min ≤ length (entry_text e)
  pub max : length (entry_text e) ≤ idxlen_max
  pub some_data : 1 ≤ e.len
  pub data_max : e.len ≤ datlen_max

pub record RecordAt (f : Bytes) (off next : ℕ) (e : Entry) : Type 0 where
  pub fits : next ≤ ptr_max
  pub head : pread f off (ptr_sz + idxlen_sz) ≡ record_head next (length (entry_text e))
  pub body : pread f (off + (ptr_sz + idxlen_sz)) (length (entry_text e)) ≡ entry_text e

-- A data record holds `text` behind `start`.
pub record DataAt (f : Bytes) (start : ℕ) (text : Bytes) : Type 0 where
  pub reads : pread f start (length text + 1) ≡ text ++ newline ∷ []

pub length-ptr_text : (n : ℕ) → n ≤ ptr_max → length (ptr_text n) ≡ ptr_sz
length-ptr_text n h =
    length-pad_left ptr_sz (decimal n) (length-decimal_le 7 n (omega arith) (omega arith))

length-len_text : (n : ℕ) → n ≤ idxlen_max → length (pad_left idxlen_sz (decimal n)) ≡ idxlen_sz
length-len_text n h =
    length-pad_left idxlen_sz (decimal n) (length-decimal_le 4 n (omega arith) (omega arith))

module _ (p n : ℕ) (hp : p ≤ ptr_max) where
  pub length-record_head : n ≤ idxlen_max → length (record_head p n) ≡ ptr_sz + idxlen_sz
  unfolding record_head
  length-record_head h = omega (
    arith,
    length-append (ptr_text p) (pad_left idxlen_sz (decimal n)),
    length-ptr_text p hp,
    length-len_text n h,
  )

  pub take-record_head : take ptr_sz (record_head p n) ≡ ptr_text p
  unfolding record_head
  take-record_head =
      take-append ptr_sz (ptr_text p) _ (omega (arith, length-ptr_text p hp))
      ∙ take_all ptr_sz (ptr_text p) (omega (arith, length-ptr_text p hp))

  pub drop-record_head : drop ptr_sz (record_head p n) ≡ pad_left idxlen_sz (decimal n)
  unfolding record_head
  drop-record_head =
      drop-append_ge ptr_sz (ptr_text p) _ (omega (arith, length-ptr_text p hp))
      ∙ ap (λ k. drop k (pad_left idxlen_sz (decimal n)))
          (let e : ptr_sz - length (ptr_text p) ≡ 0 = omega (arith, length-ptr_text p hp) in e)

-- The chain pointer of a record stands at its start.
pub PtrAt-RecordAt :
    {f : Bytes} {off next : ℕ} {e : Entry} → RecordAt f off next e → PtrAt f off next
PtrAt-RecordAt {f} {off} {next} {e} r = record {
  fits = r.fits;
  reads =
      sym (take-pread f off ptr_sz (ptr_sz + idxlen_sz) (omega arith))
      ∙ ap (take ptr_sz) r.head
      ∙ take-record_head next (length (entry_text e)) r.fits;
}

pub ptr_text-Lacks : (n : ℕ) → Lacks 0 (ptr_text n)
ptr_text-Lacks n = pad_left-Lacks ptr_sz (decimal n) (decimal-Lacks 0 n (inl (omega arith)))

pub len_text-Lacks : (n : ℕ) → Lacks 0 (pad_left idxlen_sz (decimal n))
len_text-Lacks n = pad_left-Lacks idxlen_sz (decimal n) (decimal-Lacks 0 n (inl (omega arith)))

-- A text and a newline: the last byte is the newline, and the text stands in front of it.
pub last-newline : (s : Bytes) (d : ℕ) → get_or (s ++ newline ∷ []) (length s) d ≡ newline
last-newline [] d = refl
last-newline (c ∷ s) d = last-newline s d

pub take-newline : (s : Bytes) → take (length s) (s ++ newline ∷ []) ≡ s
take-newline s = take-append (length s) s _ (omega arith) ∙ take_all (length s) s (omega arith)
