-- ===== src/Transfer/Whole.antt =====
-- What readn and writen transfer.
use apue.Prelude.{
  ℕ, zero, suc, ◌+◌, ◌-◌, ◌≤◌, ◌<◌, ◌≡◌, refl, ap, true, false, [], ◌∷◌, ◌++◌, Option, none, some,
  ◌==◌, arith, length, length-append, if◌then◌else◌,
}
use apue.Prelude.Int.{ℤ, pos, negsuc}
use apue.Text.{Bytes}
use apue.Transfer.{readn_loop, readn}

not_zero : (n : ℕ) → 0 < n → (n == 0) ≡ false
not_zero n h = ground arith

none_left : (n : ℕ) → n - 0 ≡ n
none_left n = omega arith

module _ {W : Type 0} (read : ℕ → W → Option Bytes × W) where
  -- What read documents: never more bytes than there is room for.
  abbrev pub Bounded : Type 0
  Bounded = (n : ℕ) (w : W) (s : Bytes) → (read n w).0 ≡ some s → length s ≤ n

  -- What a transfer of at most `n` bytes returns: -1 and no byte, or how many bytes came.
  abbrev pub Delivers : ℕ → Option (ℤ × Bytes × W) → Type 0
  Delivers n none = ⊥
  Delivers n (some (negsuc k, s, w)) = (k ≡ 0) × (s ≡ [])
  Delivers n (some (pos k, s, w)) = (k ≡ length s) × (k ≤ n)

  -- The return after a read that failed.
  failed :
      (n left : ℕ) (g : Bytes) (u : W)
      → length g + left ≡ n
      → Delivers n (some (if left == n then negsuc 0 else pos (n - left), g, u))
  failed n left [] u h =
      let none_yet : (left == n) ≡ true = ground arith in rw none_yet (refl, refl)
  failed n left (c ∷ g) u h =
      let some_came : (left == n) ≡ false = ground arith in rw some_came (omega arith, omega arith)

  module _ (b : Bounded) where
    loop-Delivers :
        (fuel n left : ℕ) (got : Bytes) (w : W)
        → left ≤ fuel
        → length got + left ≡ n
        → Delivers n (readn_loop read fuel n left got w)
    unfolding readn_loop
    loop-Delivers zero n zero got w f h = (omega arith, omega arith)
    loop-Delivers zero n (suc left) got w f h = absurd (omega arith)
    loop-Delivers (suc fuel) n zero got w f h = (omega arith, omega arith)
    loop-Delivers (suc fuel) n (suc left) got w f h =
        rw (not_zero (suc left) (omega arith))
          (go (λ k s u. loop-Delivers fuel n k s u) (read (suc left) w) refl)
      where
        go :
            ((k : ℕ) (s : Bytes) (u : W)
              → k ≤ fuel
              → length s + k ≡ n
              → Delivers n (readn_loop read fuel n k s u))
            → (r : Option Bytes × W) → read (suc left) w ≡ r
            → Delivers n (elim (r.0) [
              | none ↦ some (if suc left == n then negsuc 0 else pos (n - suc left), got, r.1)
              | some [] ↦ some (pos (n - suc left), got, r.1)
              | some (c ∷ s) ↦ readn_loop read fuel n (suc left - length (c ∷ s)) (got ++ c ∷ s) r.1
            ])
        go again (none, u) e = failed n (suc left) got u h
        go again (some [], u) e = (omega arith, omega arith)
        go again (some (c ∷ s), u) e =
            let fits = b (suc left) w (c ∷ s) (ap (λ p. p.0) e) in
            again (suc left - length (c ∷ s)) (got ++ c ∷ s) u (omega arith)
              (omega (arith, length-append got (c ∷ s)))

    -- readn on any descriptor that never gives more than is asked ends within n rounds, and
    -- returns -1 with no byte read, or the number of bytes read, n at most.
    pub readn-Delivers : (n : ℕ) (w : W) → Delivers n (readn read n w)
    unfolding readn
    readn-Delivers n w = loop-Delivers n n n [] w (omega arith) (omega arith)

  -- A descriptor that is never at its end and never fails.
  pub record Flows : Type 0 where
    pub gives :
        (n : ℕ) (w : W)
        → 0 < n
        → (s : Bytes) × ((read n w).0 ≡ some s) × (0 < length s) × (length s ≤ n)

  module _ (f : Flows) where
    loop-whole :
        (fuel n left : ℕ) (got : Bytes) (w : W)
        → left ≤ fuel
        → length got + left ≡ n
        → (s : Bytes) × (w' : W) × (readn_loop read fuel n left got w ≡ some (pos n, s, w'))
          × (length s ≡ n)
    unfolding readn_loop
    loop-whole zero n zero got w h l =
        (got, w, ap (λ k. some (pos k, got, w)) (none_left n), omega arith)
    loop-whole zero n (suc left) got w h l = absurd (omega arith)
    loop-whole (suc fuel) n zero got w h l =
        (got, w, ap (λ k. some (pos k, got, w)) (none_left n), omega arith)
    loop-whole (suc fuel) n (suc left) got w h l =
        go (loop-whole fuel n) (f.gives (suc left) w (omega arith))
      where
        go :
            ((k : ℕ) (g : Bytes) (u : W)
              → k ≤ fuel
              → length g + k ≡ n
              → (s : Bytes) × (w' : W) × (readn_loop read fuel n k g u ≡ some (pos n, s, w'))
                × (length s ≡ n))
            → (s : Bytes) × ((read (suc left) w).0 ≡ some s)
              × (0 < length s)
              × (length s ≤ suc left)
            → (s' : Bytes) × (w' : W) × (readn_loop read (suc fuel) n (suc left) got w
                ≡ some (pos n, s', w'))
              × (length s' ≡ n)
        go again ([], e, some_bytes, small) = absurd (omega arith)
        go again (c ∷ s, e, some_bytes, small) =
            let (s', w', q, m) =
              again (suc left - length (c ∷ s)) (got ++ c ∷ s) (read (suc left) w).1 (omega arith)
                (omega (arith, length-append got (c ∷ s))) in
            (s', w', rw (not_zero (suc left) (omega arith), e) q, m)

    -- On a descriptor that is never at its end and never fails, readn reads exactly n bytes.
    readn-whole :
        (n : ℕ) (w : W)
        → (s : Bytes) × (w' : W) × (readn read n w ≡ some (pos n, s, w')) × (length s ≡ n)
    unfolding readn
    readn-whole n w = loop-whole n n n [] w (omega arith) (omega arith)
