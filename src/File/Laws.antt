-- ===== src/File/Laws.antt =====
-- Reading back what was written, and reading elsewhere.
use Prim.Native.Nat.{max}
use apue.Prelude.{
  ℕ, zero, suc, ◌+◌, ◌-◌, ◌≤◌, List, [], ◌∷◌, ◌++◌, ◌≡◌, refl, sym, ap, ◌∙◌, arith, take, drop,
  replicate, length, length-append, length-take, length-drop, length-replicate,
}
use apue.Text.{Bytes}
use apue.File.{pread, pwrite}

module _ {ℓ} {A : Type ℓ} where
  pub take-append : (n : ℕ) (xs ys : List A) → n ≤ length xs → take n (xs ++ ys) ≡ take n xs
  take-append zero xs ys h = refl
  take-append (suc n) [] ys h = absurd (omega arith)
  take-append (suc n) (x ∷ xs) ys h = ap (λ l. x ∷ l) (take-append n xs ys (omega arith))

  pub take_all : (n : ℕ) (xs : List A) → length xs ≤ n → take n xs ≡ xs
  take_all zero [] h = refl
  take_all zero (x ∷ xs) h = absurd (omega arith)
  take_all (suc n) [] h = refl
  take_all (suc n) (x ∷ xs) h = ap (λ l. x ∷ l) (take_all n xs (omega arith))

  pub take-append_ge :
      (n : ℕ) (xs ys : List A) → length xs ≤ n → take n (xs ++ ys) ≡ xs ++ take (n - length xs) ys
  take-append_ge n [] ys h = ap (λ k. take k ys) (omega arith)
  take-append_ge zero (x ∷ xs) ys h = absurd (omega arith)
  take-append_ge (suc n) (x ∷ xs) ys h =
      ap (λ l. x ∷ l)
        (take-append_ge n xs ys (omega arith) ∙ ap (λ k. xs ++ take k ys) (omega arith))

  pub drop-append_ge :
      (n : ℕ) (xs ys : List A) → length xs ≤ n → drop n (xs ++ ys) ≡ drop (n - length xs) ys
  drop-append_ge n [] ys h = ap (λ k. drop k ys) (omega arith)
  drop-append_ge zero (x ∷ xs) ys h = absurd (omega arith)
  drop-append_ge (suc n) (x ∷ xs) ys h =
      drop-append_ge n xs ys (omega arith) ∙ ap (λ k. drop k ys) (omega arith)

  pub drop-append_le :
      (n : ℕ) (xs ys : List A) → n ≤ length xs → drop n (xs ++ ys) ≡ drop n xs ++ ys
  drop-append_le zero xs ys h = refl
  drop-append_le (suc n) [] ys h = absurd (omega arith)
  drop-append_le (suc n) (x ∷ xs) ys h = drop-append_le n xs ys (omega arith)

  pub drop-nil : (n : ℕ) → drop {A = A} n [] ≡ []
  drop-nil zero = refl
  drop-nil (suc n) = refl

  pub take-nil : (n : ℕ) → take {A = A} n [] ≡ []
  take-nil zero = refl
  take-nil (suc n) = refl

  pub drop-drop : (m n : ℕ) (xs : List A) → drop m (drop n xs) ≡ drop (n + m) xs
  drop-drop m zero xs = ap (λ k. drop k xs) (omega arith)
  drop-drop m (suc n) [] = drop-nil m ∙ sym (drop-nil (suc n + m))
  drop-drop m (suc n) (x ∷ xs) =
      drop-drop m n xs
      ∙ ap (λ k. drop k (x ∷ xs)) (let e : suc (n + m) ≡ suc n + m = omega arith in e)

  pub take-take : (m n : ℕ) (xs : List A) → m ≤ n → take m (take n xs) ≡ take m xs
  take-take zero n xs h = refl
  take-take (suc m) zero xs h = absurd (omega arith)
  take-take (suc m) (suc n) [] h = refl
  take-take (suc m) (suc n) (x ∷ xs) h = ap (λ l. x ∷ l) (take-take m n xs (omega arith))

module _ {ℓ} {A : Type ℓ} where
  pub drop-take : (m n : ℕ) (xs : List A) → drop m (take n xs) ≡ take (n - m) (drop m xs)
  drop-take zero n xs = ap (λ k. take k xs) (omega arith)
  drop-take (suc m) zero xs = let e : 0 - suc m ≡ 0 = omega arith in rw e
  drop-take (suc m) (suc n) [] = sym (take-nil (suc n - suc m))
  drop-take (suc m) (suc n) (x ∷ xs) = drop-take m n xs ∙ ap (λ k. take k (drop m xs)) (omega arith)

-- A shorter read at the same place.
pub take-pread : (f : Bytes) (off m n : ℕ) → m ≤ n → take m (pread f off n) ≡ pread f off m
unfolding pread
take-pread f off m n h = take-take m n (drop off f) h

module _ (a b : Bytes) (off n : ℕ) where
  pub pread-append_ge : length a ≤ off → pread (a ++ b) off n ≡ pread b (off - length a) n
  unfolding pread
  pread-append_ge h = ap (take n) (drop-append_ge off a b h)

  pub pread-append_le : off + n ≤ length a → pread (a ++ b) off n ≡ pread a off n
  unfolding pread
  pread-append_le h =
      ap (take n) (drop-append_le off a b (omega arith))
      ∙ take-append n (drop off a) b (omega (arith, length-drop off a))

-- The part of the file in front of the write, the gap included.
abbrev front : Bytes → ℕ → Bytes
front f off = take off (f ++ replicate (off - length f) 0)

length-front : (f : Bytes) (off : ℕ) → length (front f off) ≡ off
length-front f off = omega (
  arith,
  length-take off (f ++ replicate (off - length f) 0),
  length-append f (replicate (off - length f) 0),
  length-replicate {A = ℕ} (off - length f) 0,
)

pread-front :
    (f : Bytes) (off i n : ℕ)
    → i + n ≤ off
    → i + n ≤ length f
    → pread (front f off) i n ≡ pread f i n
pread-front f off i n h k =
    unfold pread in
    (ap (take n) (drop-take i off _) ∙ take-take n (off - i) _ (omega arith))
    ∙ pread-append_le f (replicate (off - length f) 0) i n k

module _ (f : Bytes) (off : ℕ) (s : Bytes) where
  -- What was written is read back.
  pub pread-pwrite : pread (pwrite f off s) off (length s) ≡ s
  unfolding pwrite
  pread-pwrite =
      pread-append_ge (front f off) _ off (length s) (omega (arith, length-front f off))
      ∙ ap (λ k. pread (s ++ drop (off + length s) f) k (length s))
          (omega (arith, length-front f off))
      ∙ pread-append_le s _ 0 (length s) (omega arith)
      ∙ unfold pread in take_all (length s) s (omega arith)

  -- A part of what was written.
  pub pread-pwrite_inside :
      (i n : ℕ) → i + n ≤ length s → pread (pwrite f off s) (off + i) n ≡ pread s i n
  unfolding pwrite
  pread-pwrite_inside i n h =
      pread-append_ge (front f off) _ (off + i) n (omega (arith, length-front f off))
      ∙ ap (λ k. pread (s ++ drop (off + length s) f) k n) (omega (arith, length-front f off))
      ∙ pread-append_le s _ i n h

  -- Bytes in front of a write stay.
  pub pread-pwrite_before :
      (i n : ℕ) → i + n ≤ off → i + n ≤ length f → pread (pwrite f off s) i n ≡ pread f i n
  unfolding pwrite
  pread-pwrite_before i n h k =
      pread-append_le (front f off) _ i n (omega (arith, length-front f off))
      ∙ pread-front f off i n h k

  -- Bytes behind a write stay.
  pub pread-pwrite_behind :
      (i n : ℕ) → off + length s ≤ i → pread (pwrite f off s) i n ≡ pread f i n
  unfolding pwrite
  pread-pwrite_behind i n h =
      pread-append_ge (front f off) _ i n (omega (arith, length-front f off))
      ∙ pread-append_ge s _ (i - length (front f off)) n (omega (arith, length-front f off))
      ∙ unfold pread in
        ap (take n)
          (drop-drop _ (off + length s) f ∙ ap (λ k. drop k f) (omega (arith, length-front f off)))

  pub length-pwrite : length (pwrite f off s) ≡ max (length f) (off + length s)
  unfolding pwrite
  length-pwrite = omega (
    arith,
    length-append (front f off) (s ++ drop (off + length s) f),
    length-append s (drop (off + length s) f),
    length-drop (off + length s) f,
    length-front f off,
  )

-- Two parts that one call writes (`writev`).
module _ (f : Bytes) (off : ℕ) (a b : Bytes) (i : ℕ) (size : i ≡ length a) where
  pub pread-pwrite_fst : pread (pwrite f off (a ++ b)) off i ≡ a
  pread-pwrite_fst =
      ap (λ k. pread (pwrite f off (a ++ b)) k i) (let e : off ≡ off + 0 = omega arith in e)
      ∙ pread-pwrite_inside f off (a ++ b) 0 i (omega (arith, length-append a b))
      ∙ pread-append_le a b 0 i (omega arith)
      ∙ pread_whole
    where
      pread_whole : pread a 0 i ≡ a
      pread_whole = unfold pread in take_all i a (omega arith)

  pub pread-pwrite_snd : pread (pwrite f off (a ++ b)) (off + i) (length b) ≡ b
  pread-pwrite_snd =
      pread-pwrite_inside f off (a ++ b) i (length b) (omega (arith, length-append a b))
      ∙ pread-append_ge a b i (length b) (omega arith)
      ∙ ap (λ k. pread b k (length b)) (let e : i - length a ≡ 0 = omega arith in e)
      ∙ pread_whole
    where
      pread_whole : pread b 0 (length b) ≡ b
      pread_whole = unfold pread in take_all (length b) b (omega arith)
