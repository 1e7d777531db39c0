-- ===== src/Dup2/Closes.antt =====
-- Which descriptors my_dup2 closes again.
use apue.Prelude.{
  ℕ, suc, ◌+◌, ◌-◌, ◌%◌, ◌^◌, ◌<◌, ◌≡◌, refl, ap, ◌∙◌, true, false, List, [], ◌∷◌, Option, some,
  arith, length, get_elem?,
}
use apue.Prelude.Int.{ℤ, pos, int_of, ltb_ℤ}
use apue.Dup2.{Stack, stack_size, stack_pop, Closed, close_all}

module _ {A : Type 0} where
  -- `xs` turned over, in front of `t`.
  abbrev pub turned : List A → List A → List A
  turned [] t = t
  turned (x ∷ xs) t = turned xs (x ∷ t)

  get_elem?-turned :
      (xs t : List A) (k : ℕ) → get_elem? (turned xs t) (length xs + k) ≡ get_elem? t k
  get_elem?-turned [] t k = ap (get_elem? t) (let e : 0 + k ≡ k = omega arith in e)
  get_elem?-turned (x ∷ xs) t k =
      ap (get_elem? (turned xs (x ∷ t)))
        (let e : suc (length xs) + k ≡ length xs + suc k = omega arith in e)
      ∙ get_elem?-turned xs (x ∷ t) (suc k)

-- The stack after `first` was pushed and then the descriptors `later`, the last of them at the head of
-- the list; behind the top stand `v` and `rest`.
abbrev pub holding : ℤ → List (Option ℤ) → Option ℤ → List (Option ℤ) → Stack
holding first later v rest = record {
  data_of = some first ∷ turned later (v ∷ rest);
  size = suc (length later);
}

-- Fewer than 2^31 descriptors are counted as they are.
some_left :
    (s : Stack) (n : ℕ) → s.size ≡ suc n → n < 2 ^ 31 - 1 → ltb_ℤ (pos 0) (stack_size s) ≡ true
unfolding stack_size
some_left s n e h = rw e (go (suc n % 2 ^ 32) (omega arith))
  where
    go : (m : ℕ) → (m ≡ suc n) → ltb_ℤ (pos 0) (int_of m) ≡ true
    go m q = ground arith

no_more : (s : Stack) → s.size ≡ 0 → ltb_ℤ (pos 0) (stack_size s) ≡ false
unfolding stack_size
no_more s e = rw e refl

pop-holding :
    (first : ℤ) (later : List (Option ℤ)) (v : Option ℤ) (rest : List (Option ℤ))
    → length later < 2 ^ 31 - 1
    → stack_pop (holding first later v rest)
      ≡ some (v, record { data_of = some first ∷ turned later (v ∷ rest); size = length later })
unfolding stack_pop
pop-holding first later v rest h =
    let top : get_elem? (turned later (v ∷ rest)) (length later) ≡ some v =
      ap (get_elem? (turned later (v ∷ rest)))
        (let e : length later ≡ length later + 0 = omega arith in e)
      ∙ get_elem?-turned later (v ∷ rest) 0 in
    let less : (2 ^ 64 + suc (length later) - 1) % 2 ^ 64 ≡ length later = omega arith in
    rw (top, stack_pop) (rw less refl)

module _ {W : Type 0} (dup : ℤ → W → ℤ × W) (close : Option ℤ → W → Closed × W) where
  -- The calls of close, in this order.
  abbrev pub closes : List (Option ℤ) → W → W
  closes [] w = w
  closes (fd ∷ fds) w = closes fds (close fd w).1

  -- After the descriptors first and then later were pushed, my_dup2 closes the value that stands
  -- behind the top of the stack, and then later, the last one first; it never closes first. The
  -- stack has room for one more and holds fewer than 2^31.
  pub close_all-holding :
      (first : ℤ) (later : List (Option ℤ)) (v : Option ℤ) (rest : List (Option ℤ)) (w : W)
      → length later < 2 ^ 31 - 1
      → close_all dup close (suc (length later)) (holding first later v rest) w
        ≡ some (closes (v ∷ later) w)
  unfolding close_all
  close_all-holding first [] v rest w h =
      rw
        (
          some_left (holding first [] v rest) 0 refl h,
          pop-holding first [] v rest h,
          no_more (record { data_of = some first ∷ v ∷ rest; size = 0 }) refl,
        )
        refl
  close_all-holding first (u ∷ later) v rest w h =
      rw
        (
          some_left (holding first (u ∷ later) v rest) (suc (length later)) refl h,
          pop-holding first (u ∷ later) v rest h,
        )
        (close_all-holding first later u (v ∷ rest) (close v w).1 (omega arith))
