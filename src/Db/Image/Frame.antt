-- ===== src/Db/Image/Frame.antt =====
-- What a write into one of the files leaves alone.
use apue.Prelude.{
  ℕ, zero, suc, ◌+◌, ◌-◌, ◌≤◌, ◌<◌, ◌≡◌, inl, inr, refl, sym, ap, ap₂, ◌∙◌, [], ◌∷◌, ◌++◌, arith,
  length, length-take, length-drop, length-append, take, drop,
}
use apue.Text.{Bytes}
use apue.File.{pread, pwrite}
use apue.File.Laws.{
  pread-pwrite, pread-pwrite_before, pread-pwrite_behind, drop-drop, drop-take, take-nil,
}
use apue.Db.State.{ptr_sz, ptr_max, idxlen_sz, newline}
use apue.Db.Io.{record_head}
use apue.Db.Layout.{
  PtrAt, RecordAt, DataAt, Entry, IsEntry, entry_text, ptr_text, length-ptr_text,
  length-record_head, drop-record_head,
}
use apue.Db.Image.{Apart}

-- A read that came whole lies inside the file.
pub pread-inside :
    (f : Bytes) (i n : ℕ) (s : Bytes) → pread f i n ≡ s → length s ≡ n → 0 < n → i + n ≤ length f
unfolding pread
pread-inside f i n s e l h =
    omega (arith, length-take n (drop i f), length-drop i f, ap (λ (t : Bytes). length t) e)

-- `g` reads as `f` does outside the `m` bytes at `o`, as far as `f` goes.
abbrev pub Same : Bytes → Bytes → ℕ → ℕ → Type 0
Same f g o m = (i n : ℕ) → Apart i n o m → i + n ≤ length f → pread g i n ≡ pread f i n

pub pwrite-Same : (f : Bytes) (o : ℕ) (s : Bytes) (m : ℕ) → length s ≤ m → Same f (pwrite f o s) o m
pwrite-Same f o s m h i n (inl before) k = pread-pwrite_before f o s i n before k
pwrite-Same f o s m h i n (inr behind) k = pread-pwrite_behind f o s i n (omega arith)

module _ (f g : Bytes) (o m : ℕ) (x : Same f g o m) where
  pub keep-PtrAt : (p n : ℕ) → Apart p ptr_sz o m → PtrAt f p n → PtrAt g p n
  keep-PtrAt p n a h = record {
    fits = h.fits;
    reads =
        x p ptr_sz a (pread-inside f p ptr_sz _ h.reads (length-ptr_text n h.fits) (omega arith))
        ∙ h.reads;
  }

  pub keep-RecordAt :
      (p next : ℕ) (e : Entry)
      → Apart p (ptr_sz + idxlen_sz + length (entry_text e)) o m
      → IsEntry e
      → RecordAt f p next e
      → RecordAt g p next e
  keep-RecordAt p next e a h r =
      let full = length-record_head next (length (entry_text e)) r.fits h.max in
      record {
        fits = r.fits;
        head =
            x p (ptr_sz + idxlen_sz) (ground arith)
              (pread-inside f p (ptr_sz + idxlen_sz) _ r.head full (omega arith))
            ∙ r.head;
        body =
            x (p + (ptr_sz + idxlen_sz)) (length (entry_text e)) (ground arith) (
              pread-inside f (p + (ptr_sz + idxlen_sz)) (length (entry_text e)) _ r.body refl
                (omega (arith, h.min)))
            ∙ r.body;
      }

  pub keep-DataAt :
      (p : ℕ) (text : Bytes) → Apart p (length text + 1) o m → DataAt f p text → DataAt g p text
  keep-DataAt p text a d = record {
    reads =
        x p (length text + 1) a (
          pread-inside f p (length text + 1) _ d.reads (length-append text (newline ∷ []))
            (omega arith))
        ∙ d.reads;
  }

-- A record lies inside its file, and so does its data.
pub RecordAt-inside :
    (f : Bytes) (p next : ℕ) (e : Entry)
    → IsEntry e
    → RecordAt f p next e
    → p + (ptr_sz + idxlen_sz + length (entry_text e)) ≤ length f
RecordAt-inside f p next e h r = omega (
  arith,
  pread-inside f (p + (ptr_sz + idxlen_sz)) (length (entry_text e)) _ r.body refl
      (omega (arith, h.min)),
)

pub DataAt-inside :
    (f : Bytes) (p : ℕ) (text : Bytes) → DataAt f p text → p + (length text + 1) ≤ length f
DataAt-inside f p text d =
    pread-inside f p (length text + 1) _ d.reads (length-append text (newline ∷ [])) (omega arith)

-- A read in two parts.
take-add : (a b : ℕ) (xs : Bytes) → take (a + b) xs ≡ take a xs ++ take b (drop a xs)
take-add zero b xs = ap (λ k. take k xs) (omega arith)
take-add (suc a) b [] =
    ap (λ k. take k []) (let e : suc a + b ≡ suc (a + b) = omega arith in e) ∙ sym (take-nil b)
take-add (suc a) b (x ∷ xs) =
    ap (λ k. take k (x ∷ xs)) (let e : suc a + b ≡ suc (a + b) = omega arith in e)
    ∙ ap (λ l. x ∷ l) (take-add a b xs)

pread-add : (f : Bytes) (o a b : ℕ) → pread f o (a + b) ≡ pread f o a ++ pread f (o + a) b
unfolding pread
pread-add f o a b =
    take-add a b (drop o f) ∙ ap (λ l. take a (drop o f) ++ take b l) (drop-drop a o f)

drop-pread : (f : Bytes) (o a b : ℕ) → drop a (pread f o (a + b)) ≡ pread f (o + a) b
unfolding pread
drop-pread f o a b =
    drop-take a (a + b) (drop o f)
    ∙ ap₂ (λ k l. take k l) (let e : a + b - a ≡ b = omega arith in e) (drop-drop a o f)

-- A record whose chain pointer is written over.
pub RecordAt-pwrite_ptr :
    (f : Bytes) (o next n : ℕ) (e : Entry)
    → n ≤ ptr_max
    → IsEntry e
    → RecordAt f o next e
    → RecordAt (pwrite f o (ptr_text n)) o n e
unfolding record_head
RecordAt-pwrite_ptr f o next n e h ie r =
    let g = pwrite f o (ptr_text n) in
    let len = length-ptr_text n h in
    let full = length-record_head next (length (entry_text e)) r.fits ie.max in
    let whole = pread-inside f o (ptr_sz + idxlen_sz) _ r.head full (omega arith) in
    let kept = pwrite-Same f o (ptr_text n) ptr_sz (omega (arith, len)) in
    record {
      fits = h;
      head =
          pread-add g o ptr_sz idxlen_sz
          ∙ ap₂ (λ a b. a ++ b) (ap (pread g o) (sym len) ∙ pread-pwrite f o (ptr_text n))
              (kept (o + ptr_sz) idxlen_sz (inr (omega arith)) (omega (arith, whole))
                ∙ sym (drop-pread f o ptr_sz idxlen_sz)
                ∙ ap (drop ptr_sz) r.head
                ∙ drop-record_head next (length (entry_text e)) r.fits);
      body =
          kept (o + (ptr_sz + idxlen_sz)) (length (entry_text e)) (inr (omega arith)) (
            pread-inside f (o + (ptr_sz + idxlen_sz)) (length (entry_text e)) _ r.body refl
              (omega (arith, ie.min)))
          ∙ r.body;
    }
