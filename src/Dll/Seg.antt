-- ===== src/Dll/Seg.antt =====
-- Segments of doubly linked lists, as lists of addresses with their items.
use apue.Prelude.{
  ℕ, ◌≡◌, ◌≢◌, refl, sym, ap, ◌∙◌, ◌⊎◌, inl, inr, List, [], ◌∷◌, ◌++◌, some, arith, All, All-append,
  append-All,
}
use apue.Dll.{Node, Heap, write, load, set_next, set_prev}

abbrev pub Cells : Type 0 → Type 0
Cells A = List (ℕ × A)

module _ {A : Type 0} where
  abbrev pub node : ℕ → ℕ → A → Node A
  node n p x = record { next = n; prev = p; item = x }

  -- No cell stands at the address.
  abbrev pub Avoids : ℕ → Cells A → Type 0
  Avoids a = All (λ c. c.0 ≢ a)

  -- The address of the first cell, or what stands behind the segment.
  abbrev pub first : Cells A → ℕ → ℕ
  first [] end = end
  first ((a, x) ∷ xs) end = a

  -- The address of the last cell, or what stands in front of the segment.
  abbrev pub last : ℕ → Cells A → ℕ
  last prev [] = prev
  last prev ((a, x) ∷ xs) = last a xs

  -- `xs` stands between `prev` and `end`, each cell linked to its neighbours, no address twice.
  abbrev pub Seg : Heap A → ℕ → Cells A → ℕ → Type 0
  Seg h prev [] end = Unit
  Seg h prev ((a, x) ∷ xs) end =
      (a ≢ 0) × (h a ≡ some (node (first xs end) prev x)) × Avoids a xs × Seg h a xs end

  pub write_self : (h : Heap A) (a : ℕ) (n : Node A) → write h a n a ≡ some n
  unfolding write
  write_self h a n = ground arith

  pub write_ne : (h : Heap A) (a b : ℕ) (n : Node A) → b ≢ a → write h a n b ≡ h b
  unfolding write
  write_ne h a b n ne = ground arith

  -- A write elsewhere.
  pub Seg-write :
      (h : Heap A) (a : ℕ) (n : Node A) (prev : ℕ) (xs : Cells A) (end : ℕ)
      → Avoids a xs
      → Seg h prev xs end
      → Seg (write h a n) prev xs end
  Seg-write h a n prev [] end out s = tt
  Seg-write h a n prev ((b, x) ∷ xs) end out s =
      (s.0, write_ne h a b n out.0 ∙ s.1, s.2, Seg-write h a n b xs end out.1 s.3)

  -- The pointer in front of a segment changes.
  pub Seg-set_prev :
      (h : Heap A) (prev prev' a : ℕ) (x : A) (xs : Cells A) (end : ℕ)
      → Seg h prev ((a, x) ∷ xs) end
      → Seg (write h a (node (first xs end) prev' x)) prev' ((a, x) ∷ xs) end
  Seg-set_prev h prev prev' a x xs end s =
      (s.0, write_self h a _, s.2, Seg-write h a _ a xs end s.2 s.3)

  abbrev pub snoc : Cells A → ℕ → A → Cells A
  snoc xs a x = xs ++ (a, x) ∷ []

  pub first-snoc : (xs : Cells A) (a : ℕ) (x : A) (end : ℕ) → first (snoc xs a x) end ≡ first xs a
  first-snoc [] a x end = refl
  first-snoc (c ∷ xs) a x end = refl

  pub last-snoc : (prev : ℕ) (xs : Cells A) (a : ℕ) (x : A) → last prev (snoc xs a x) ≡ a
  last-snoc prev [] a x = refl
  last-snoc prev ((b, y) ∷ xs) a x = last-snoc b xs a x

  -- A segment and the cell behind it.
  pub Seg-snoc :
      (h : Heap A) (prev : ℕ) (xs : Cells A) (a : ℕ) (x : A) (end : ℕ)
      → Seg h prev xs a
      → a ≢ 0
      → h a ≡ some (node end (last prev xs) x)
      → Avoids a xs
      → Seg h prev (snoc xs a x) end
  Seg-snoc h prev [] a x end s nz at out = (nz, at, tt, tt)
  Seg-snoc h prev ((b, y) ∷ xs) a x end s nz at out = (
    s.0,
    s.1 ∙ ap (λ k. some (node k prev y)) (sym (first-snoc xs a x end)),
    All-append (λ c. c.0 ≢ b) xs _ s.2 ((λ e. out.0 (sym e)), tt),
    Seg-snoc h b xs a x end s.3 nz at out.1,
  )

  -- The parts of a segment that ends in a cell.
  pub snoc-Seg :
      (h : Heap A) (prev : ℕ) (xs : Cells A) (a : ℕ) (x : A) (end : ℕ)
      → Seg h prev (snoc xs a x) end
      → Seg h prev xs a × (a ≢ 0) × (h a ≡ some (node end (last prev xs) x)) × Avoids a xs
  snoc-Seg h prev [] a x end s = (tt, s.0, s.1, tt)
  snoc-Seg h prev ((b, y) ∷ xs) a x end s =
      let (t, nz, at, out) = snoc-Seg h b xs a x end s.3 in
      let (apart, ne) = append-All (λ c. c.0 ≢ b) xs ((a, x) ∷ []) s.2 in
      (
        (s.0, s.1 ∙ ap (λ k. some (node k prev y)) (first-snoc xs a x end), apart, t),
        nz,
        at,
        ((λ e. ne.0 (sym e)), out),
      )

  -- A list is empty or ends in a cell.
  pub snoc_cases :
      (xs : Cells A) → (xs ≡ []) ⊎ ((ys : Cells A) × (a : ℕ) × (x : A) × (xs ≡ snoc ys a x))
  snoc_cases [] = inl refl
  snoc_cases ((a, x) ∷ xs) = elim (snoc_cases xs) [
    | inl e ↦ inr ([], a, x, ap (λ l. (a, x) ∷ l) e)
    | inr (ys, b, y, e) ↦ inr ((a, x) ∷ ys, b, y, ap (λ l. (a, x) ∷ l) e)
  ]

  pub load_at : (h : Heap A) (a : ℕ) (n : Node A) → a ≢ 0 → h a ≡ some n → load h a ≡ some n
  load_at h a n nz at = ground arith

  pub set_next_at :
      (h : Heap A) (a q n p : ℕ) (x : A)
      → a ≢ 0
      → h a ≡ some (node n p x)
      → set_next a q h ≡ some (write h a (node q p x))
  unfolding set_next
  set_next_at h a q n p x nz at = rw (load_at h a (node n p x) nz at, set_next)

  pub set_prev_at :
      (h : Heap A) (a q n p : ℕ) (x : A)
      → a ≢ 0
      → h a ≡ some (node n p x)
      → set_prev a q h ≡ some (write h a (node n q x))
  unfolding set_prev
  set_prev_at h a q n p x nz at = rw (load_at h a (node n p x) nz at, set_prev)
