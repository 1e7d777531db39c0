-- ===== src/Prelude/Totals.antt =====
-- Sums over processes or threads, of what each of them has.
use apue.Prelude.{
  ℕ, zero, suc, ◌+◌, ◌<◌, ◌≤◌, ◌≡◌, ◌≢◌, ◌⊎◌, refl, sym, inl, inr, arith, update, update_ne,
  update_self,
}

module _ {ℓ} {A : Type ℓ} (f : A → ℕ) (at : ℕ → A) where
  abbrev pub total : ℕ → ℕ
  total zero = 0
  total (suc n) = f (at n) + total n

  pub le-total : (n p : ℕ) → p < n → f (at p) ≤ total n
  le-total zero p h = absurd (omega arith)
  le-total (suc n) p h = elim (last n p h) [
    | inl e ↦ rw e (omega arith)
    | inr l ↦ let le = le-total n p l in omega arith
  ]
    where
      last : (n p : ℕ) → p < suc n → (p ≡ n) ⊎ (p < n)
      last n p h = omega arith

  -- Two processes together.
  pub le_two-total : (n p q : ℕ) → p < n → q < n → q ≢ p → f (at p) + f (at q) ≤ total n
  le_two-total zero p q h k ne = absurd (omega arith)
  le_two-total (suc n) p q h k ne = elim (which n p q h k) [
    | inl (inl e) ↦ let le = le-total n q (omega arith) in rw e (omega arith)
    | inl (inr e) ↦ let le = le-total n p (omega arith) in rw e (omega arith)
    | inr (l, m) ↦ let le = le_two-total n p q l m ne in omega arith
  ]
    where
      which : (n p q : ℕ) → p < suc n → q < suc n → ((p ≡ n) ⊎ (q ≡ n)) ⊎ ((p < n) × (q < n))
      which n p q h k = omega arith

module _ {ℓ} {A : Type ℓ} (f : A → ℕ) (at : ℕ → A) where
  total-update_out : (n p : ℕ) (x : A) → n ≤ p → total f (update at p x) n ≡ total f at n
  total-update_out zero p x h = refl
  total-update_out (suc n) p x h =
      rw (update_ne at p x n (omega arith), total-update_out n p x (omega arith))

  -- One process moves.
  pub total-update :
      (n p : ℕ) (x : A) → p < n → total f (update at p x) n + f (at p) ≡ total f at n + f x
  total-update zero p x h = absurd (omega arith)
  total-update (suc n) p x h = elim (last n p h) [
    | inl e ↦ rw (sym e, update_self at p x, total-update_out p p x (omega arith)) (omega arith)
    | inr l ↦ let rest = total-update n p x l in rw (update_ne at p x n (omega arith)) (omega arith)
  ]
    where
      last : (n p : ℕ) → p < suc n → (p ≡ n) ⊎ (p < n)
      last n p h = omega arith

module _ {ℓ} {A : Type ℓ} (f : A → ℕ) where
  pub total-none : (at : ℕ → A) (n : ℕ) → ((p : ℕ) → p < n → f (at p) ≡ 0) → total f at n ≡ 0
  total-none at zero h = refl
  total-none at (suc n) h = rw (h n (omega arith), total-none at n (λ p l. h p (omega arith)))

  pub le-all : (at : ℕ → A) → ((a : A) → f a ≤ 1) → (n : ℕ) → total f at n ≤ n
  le-all at small zero = omega arith
  le-all at small (suc n) = let one = small (at n) in let le = le-all at small n in omega arith
