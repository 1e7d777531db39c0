-- ===== src/Threads/Wait/Member.antt =====
-- Which cells a list of jobs holds, and the heap round a malloc and a free.
use apue.Prelude.{
  ℕ, ◌≡◌, ◌≢◌, refl, sym, ap, ap₂, subst, ◌∙◌, ◌⊎◌, inl, inr, Bool, true, false, Bool-cases, [],
  ◌∷◌, ◌++◌, none, some, some_inj, arith, All,
}
use apue.Dll.{Heap}
use apue.Dll.Seg.{Cells, node, Avoids, first, Seg}
use apue.Dll.Split.{Seg-Cut}
use apue.Printer.Jobs.{Jobs}
use apue.Printer.Jobs.Queue.{IsQueue}
use apue.Threads.Find.{find}

module _ {A : Type 0} where
  abbrev pub Has : ℕ → A → Cells A → Type 0
  Has a x [] = ⊥
  Has a x ((b, y) ∷ xs) = ((b ≡ a) × (y ≡ x)) ⊎ Has a x xs

  pub Has-split :
      (a : ℕ) (x : A) (xs : Cells A)
      → Has a x xs
      → (ys : Cells A) × (zs : Cells A) × (xs ≡ ys ++ (a, x) ∷ zs)
  Has-split a x [] h = absurd h
  Has-split a x ((b, y) ∷ xs) (inl (e, f)) = ([], xs, rw (e, f))
  Has-split a x ((b, y) ∷ xs) (inr h) =
      let (ys, zs, e) = Has-split a x xs h in ((b, y) ∷ ys, zs, ap (λ l. (b, y) ∷ l) e)

  pub Has-append : (a : ℕ) (x : A) (xs ys : Cells A) → Has a x xs → Has a x (xs ++ ys)
  Has-append a x [] ys h = absurd h
  Has-append a x (c ∷ xs) ys (inl e) = inl e
  Has-append a x (c ∷ xs) ys (inr h) = inr (Has-append a x xs ys h)

  -- Another cell is taken out.
  pub Has-cut :
      (a : ℕ) (x : A) (ys : Cells A) (t : ℕ) (y : A) (zs : Cells A)
      → Has a x (ys ++ (t, y) ∷ zs)
      → t ≢ a
      → Has a x (ys ++ zs)
  Has-cut a x [] t y zs (inl e) ne = absurd (ne e.0)
  Has-cut a x [] t y zs (inr h) ne = h
  Has-cut a x (c ∷ ys) t y zs (inl e) ne = inl e
  Has-cut a x (c ∷ ys) t y zs (inr h) ne = inr (Has-cut a x ys t y zs h ne)

  -- What a cell of a segment holds.
  pub Has-at :
      (h : Heap A) (prev a : ℕ) (x : A) (xs : Cells A) (end : ℕ)
      → Seg h prev xs end
      → Has a x xs
      → (n : ℕ) × (p : ℕ) × (h a ≡ some (node n p x))
  Has-at h prev a x [] end s m = absurd m
  Has-at h prev a x ((b, y) ∷ xs) end s (inl (e, f)) = (first xs end, prev, rw (sym e, sym f) s.1)
  Has-at h prev a x ((b, y) ∷ xs) end s (inr m) = Has-at h b a x xs end s.3 m

  -- A cell in the middle is the only one at its address.
  pub Has-only :
      (h : Heap A) (prev : ℕ) (ys : Cells A) (a : ℕ) (x y : A) (zs : Cells A) (end : ℕ)
      → Seg h prev (ys ++ (a, x) ∷ zs) end
      → Has a y (ys ++ (a, x) ∷ zs)
      → x ≡ y
  Has-only h prev ys a x y zs end s m =
      let (n, p, e) = Has-at h prev a y (ys ++ (a, x) ∷ zs) end s m in
      ap (λ k. k.item) (some_inj.0 (sym (Seg-Cut h prev ys a x zs end s).at ∙ e))

  -- A queue is one list.
  Seg-unique :
      (h : Heap A) (prev : ℕ) (xs ys : Cells A)
      → Seg h prev xs 0
      → Seg h prev ys 0
      → first xs 0 ≡ first ys 0
      → xs ≡ ys
  Seg-unique h prev [] [] s t e = refl
  Seg-unique h prev [] ((b, y) ∷ ys) s t e = absurd (t.0 (sym e))
  Seg-unique h prev ((a, x) ∷ xs) [] s t e = absurd (s.0 e)
  Seg-unique h prev ((a, x) ∷ xs) ((b, y) ∷ ys) s t e =
      let n = some_inj.0 (sym s.1 ∙ ap h e ∙ t.1) in
      let rest =
        Seg-unique h a xs ys s.3 (subst (λ p. Seg h p ys 0) (sym e) t.3) (ap (λ k. k.next) n) in
      ap₂ (λ c l. c ∷ l) (ap₂ (λ p z. (p, z)) e (ap (λ k. k.item) n)) rest

  pub IsQueue-unique : (q : Jobs A) (xs ys : Cells A) → IsQueue q xs → IsQueue q ys → xs ≡ ys
  IsQueue-unique q xs ys v w = Seg-unique q.heap 0 xs ys v.chain w.chain (sym v.head ∙ w.head)

  -- Where nothing is allocated no cell stands.
  pub Avoids-free :
      (h : Heap A) (prev a : ℕ) (xs : Cells A) (end : ℕ)
      → h a ≡ none
      → Seg h prev xs end
      → Avoids a xs
  Avoids-free h prev a [] end e s = tt
  Avoids-free h prev a ((b, y) ∷ xs) end e s =
      ((λ q. absurd (grind arith)), Avoids-free h b a xs end e s.3)

  pub Seg-same :
      (h g : Heap A) (prev : ℕ) (xs : Cells A) (end : ℕ)
      → All (λ c. g c.0 ≡ h c.0) xs
      → Seg h prev xs end
      → Seg g prev xs end
  Seg-same h g prev [] end e s = tt
  Seg-same h g prev ((b, y) ∷ xs) end e s = (s.0, e.0 ∙ s.1, s.2, Seg-same h g b xs end e.1 s.3)

module _ {A : Type 0} (pthread_equal : ℕ → ℕ → Bool) (j_id : A → ℕ) (id : ℕ) where
  -- No job in the list is the thread's.
  abbrev pub NoneFor : Cells A → Type 0
  NoneFor = All (λ c. pthread_equal (j_id c.1) id ≡ false)

  pub NoneFor-find : (xs : Cells A) → NoneFor xs → find pthread_equal j_id id xs ≡ 0
  NoneFor-find [] n = refl
  NoneFor-find ((a, x) ∷ xs) n = rw n.0 (NoneFor-find xs n.1)

  pub Has-NoneFor :
      (a : ℕ) (x : A) (xs : Cells A) → Has a x xs → NoneFor xs → pthread_equal (j_id x) id ≡ false
  Has-NoneFor a x [] h n = absurd h
  Has-NoneFor a x ((b, y) ∷ xs) (inl (e, f)) n = rw (sym f) n.0
  Has-NoneFor a x ((b, y) ∷ xs) (inr h) n = Has-NoneFor a x xs h n.1

  -- The job that is found, or none is there.
  abbrev pub Found : Cells A → ℕ → Type 0
  Found xs p = (p ≢ 0) × (x : A) × Has p x xs × (pthread_equal (j_id x) id ≡ true)

  pub find_cases :
      (h : Heap A) (prev : ℕ) (xs : Cells A) (end : ℕ)
      → Seg h prev xs end
      → ((find pthread_equal j_id id xs ≡ 0) × NoneFor xs)
        ⊎ Found xs (find pthread_equal j_id id xs)
  find_cases h prev [] end s = inl (refl, tt)
  find_cases h prev ((a, x) ∷ xs) end s = elim (Bool-cases (pthread_equal (j_id x) id)) [
    | inl y ↦ inr (rw y (s.0, x, inl (refl, refl), y))
    | inr n ↦ elim (find_cases h a xs end s.3) [
      | inl (e, none_there) ↦ inl (rw n (e, (refl, none_there)))
      | inr (nz, y, m, e) ↦
          let skips : find pthread_equal j_id id ((a, x) ∷ xs) ≡ find pthread_equal j_id id xs =
            rw n in
          inr (subst (Found ((a, x) ∷ xs)) (sym skips) (nz, y, inr m, e))
    ]
  ]
