-- ===== src/Text/Decimal.antt =====
-- Printing a number and reading it back.
use apue.Prelude.{
  ℕ, zero, suc, ◌+◌, ◌-◌, ◌/◌, ◌%◌, ◌≤◌, ◌<◌, ◌≡◌, refl, ap, [], ◌∷◌, ◌++◌, arith, ◌==◌, Bool-cases,
  ◌⊎◌, inl, inr, replicate, length, ◌^◌, ◌≢◌, ◌∙◌, length-append, length-replicate, All, All_mono,
  All-append, All-replicate, Lacks,
}
use native.Mathlib.Nat.{pow-suc}
use apue.Prelude.Int.{pos}
use apue.Text.{Bytes, put_digits, decimal, pad_left, scan_digits, atol}

abbrev pub IsDigit : ℕ → Type 0
IsDigit c = (b'0' ≤ c) × (c ≤ b'9')

scan_digits-put_digits :
    (f n : ℕ) (out : Bytes) → n ≤ f → scan_digits 0 (put_digits f n out) ≡ scan_digits n out
unfolding put_digits scan_digits
scan_digits-put_digits zero n out h = let e : n ≡ 0 = omega arith in rw e
scan_digits-put_digits (suc f) n out h =
    ground (arith, scan_digits-put_digits f (n / 10) ((b'0' + n % 10) ∷ out))

put_digits-All : (f n : ℕ) (out : Bytes) → All IsDigit out → All IsDigit (put_digits f n out)
unfolding put_digits
put_digits-All zero n out h = h
put_digits-All (suc f) n out h = elim (Bool-cases (n == 0)) [
  | inl e ↦ rw e h
  | inr e ↦ rw e (put_digits-All f (n / 10) ((b'0' + n % 10) ∷ out) ((omega arith, omega arith), h))
]

scan_digits-nil : (n : ℕ) → scan_digits n [] ≡ n
unfolding scan_digits
scan_digits-nil n = refl

pub scan_digits-decimal : (n : ℕ) → scan_digits 0 (decimal n) ≡ n
unfolding decimal
scan_digits-decimal n = elim (Bool-cases (n == 0)) [
  | inl e ↦ rw e (unfold scan_digits in ground arith)
  | inr e ↦ rw e (scan_digits-put_digits n n [] (omega arith) ∙ scan_digits-nil n)
]

pub decimal-All : (n : ℕ) → All IsDigit (decimal n)
unfolding decimal
decimal-All n = elim (Bool-cases (n == 0)) [
  | inl e ↦ rw e (omega arith)
  | inr e ↦ rw e (put_digits-All n n [] tt)
]

length-put_digits_le :
    (k f n : ℕ) (out : Bytes) → n < 10 ^ k → length (put_digits f n out) ≤ k + length out
unfolding put_digits
length-put_digits_le k zero n out h = omega arith
length-put_digits_le zero (suc f) n out h = let e : n ≡ 0 = omega arith in rw e (omega arith)
length-put_digits_le (suc k) (suc f) n out h = elim (Bool-cases (n == 0)) [
  | inl e ↦ rw e (omega arith)
  | inr e ↦ rw e (
      omega (
        arith,
        length-put_digits_le k f (n / 10) ((b'0' + n % 10) ∷ out) (omega (arith, pow-suc 10 k)),
      ))
]

length-put_digits_ge : (f n : ℕ) (out : Bytes) → length out ≤ length (put_digits f n out)
unfolding put_digits
length-put_digits_ge zero n out = omega arith
length-put_digits_ge (suc f) n out =
    ground (arith, length-put_digits_ge f (n / 10) ((b'0' + n % 10) ∷ out))

-- A number below `10 ^ k` is printed in at most `k` digits.
pub length-decimal_le : (k n : ℕ) → n < 10 ^ k → 1 ≤ k → length (decimal n) ≤ k
unfolding decimal
length-decimal_le k n h p = elim (Bool-cases (n == 0)) [
  | inl e ↦ rw e (omega arith)
  | inr e ↦ rw e (omega (arith, length-put_digits_le k n n [] h))
]

pub length-decimal_pos : (n : ℕ) → 1 ≤ length (decimal n)
unfolding decimal put_digits
length-decimal_pos zero = omega arith
length-decimal_pos (suc n) =
    ground (arith, length-put_digits_ge n (suc n / 10) ((b'0' + suc n % 10) ∷ []))

-- Digits have no sign and no blank in front, so `atol` reads them as they are.
atol_digits : (s : Bytes) → All IsDigit s → atol s ≡ pos (scan_digits 0 s)
unfolding atol
atol_digits [] h = unfold scan_digits in refl
atol_digits (c ∷ s) (d, h) = ground arith

atol-spaces : (k : ℕ) (s : Bytes) → atol (replicate k 32 ++ s) ≡ atol s
unfolding atol
atol-spaces zero s = refl
atol-spaces (suc k) s = atol-spaces k s

-- A number that was printed, blanks in front or none, is read back.
pub atol-pad_left-decimal : (w n : ℕ) → atol (pad_left w (decimal n)) ≡ pos n
unfolding pad_left
atol-pad_left-decimal w n =
    atol-spaces (w - length (decimal n)) (decimal n)
    ∙ atol_digits (decimal n) (decimal-All n)
    ∙ ap pos (scan_digits-decimal n)

pub atol-decimal : (n : ℕ) → atol (decimal n) ≡ pos n
atol-decimal n = atol_digits (decimal n) (decimal-All n) ∙ ap pos (scan_digits-decimal n)

pub length-pad_left : (w : ℕ) (s : Bytes) → length s ≤ w → length (pad_left w s) ≡ w
unfolding pad_left
length-pad_left w s h = omega (
  arith,
  length-append (replicate (w - length s) 32) s,
  length-replicate {A = ℕ} (w - length s) 32,
)

-- Printed numbers hold no NUL and no separator.
pub decimal-Lacks : (b n : ℕ) → b < b'0' ⊎ b'9' < b → Lacks b (decimal n)
decimal-Lacks b n h = All_mono (λ c d. omega arith) (decimal n) (decimal-All n)

pub pad_left-Lacks : (w : ℕ) (s : Bytes) → Lacks 0 s → Lacks 0 (pad_left w s)
unfolding pad_left
pad_left-Lacks w s h =
    All-append (λ c. c ≢ 0) (replicate (w - length s) 32) s
      (All-replicate (λ c. c ≢ 0) (w - length s) 32 (omega arith)) h
