-- ===== src/Refs/Find.antt =====
-- foo_find on the list of its bucket.
use apue.Prelude.{
  ℕ, zero, suc, ◌<◌, ◌≡◌, refl, sym, ap, ◌∙◌, ◌⊎◌, inl, inr, true, false, List, [], ◌∷◌, Option,
  some, some_inj, arith, if◌then◌else◌, length, Bool-cases,
}
use apue.Prelude.Int.{ℤ}
use apue.Dll.{◌>>=◌}
use apue.Refs.{Foo, same_id, foo_loop}
use apue.Refs.Chain.{Chain, Has}

module _ (h : ℕ → Option Foo) (i : ℕ) (id : ℤ) where
  -- No object has the id, or `b` is one that has it.
  abbrev pub Found : List ℕ → ℕ → Type 0
  Found xs b =
      ((b ≡ 0) × ((a : ℕ) (f : Foo) → Has a xs → h a ≡ some f → same_id f.f_id id ≡ false))
      ⊎ (Has b xs × (f : Foo) × (h b ≡ some f) × (same_id f.f_id id ≡ true))

  skips :
      (a : ℕ) (xs : List ℕ) (f : Foo) (b : ℕ)
      → h a ≡ some f
      → same_id f.f_id id ≡ false
      → Found xs b
      → Found (a ∷ xs) b
  skips a xs f b at ne (inl (z, none_there)) = inl (
    z,
    λ c g m e. elim m [
      | inl same ↦ ap (λ x. same_id x.f_id id) (some_inj.0 (sym e ∙ (ap h (sym same) ∙ at))) ∙ ne
      | inr more ↦ none_there c g more e
    ],
  )
  skips a xs f b at ne (inr (m, g, e, y)) = inr (inr m, g, e, y)

  pub foo_loop-Found :
      (fuel p : ℕ) (xs : List ℕ) (b : ℕ)
      → Chain h i p xs
      → foo_loop fuel p id h ≡ some b
      → Found xs b
  unfolding foo_loop
  foo_loop-Found zero p xs b c e = absurd (grind arith)
  foo_loop-Found (suc fuel) zero [] b c e = inl (grind arith, λ a f m. absurd m)
  foo_loop-Found (suc fuel) (suc p) [] b c e = absurd (omega arith)
  foo_loop-Found (suc fuel) zero (a ∷ xs) b (pa, nz, l, f, at, home, c) e = absurd (nz (sym pa))
  foo_loop-Found (suc fuel) (suc p) (a ∷ xs) b (pa, nz, l, f, at, home, c) e =
      let rest = foo_loop-Found fuel f.f_next xs b c in
      let found =
        sym (
          ap
            (λ o.
              o >>= λ g. if same_id g.f_id id then some (suc p) else foo_loop fuel g.f_next id h)
            (ap h pa ∙ at))
        ∙ e in
      elim (Bool-cases (same_id f.f_id id)) [
        | inl y ↦
            let same : suc p ≡ b =
              some_inj.0 (
                sym (ap (λ c. if c then some (suc p) else foo_loop fuel f.f_next id h) y)
                ∙ found) in
            inr (inl (sym pa ∙ same), f, ap h (sym same ∙ pa) ∙ at, y)
        | inr ne ↦ skips a xs f b at ne (
            rest
              (sym (ap (λ c. if c then some (suc p) else foo_loop fuel f.f_next id h) ne) ∙ found))
      ]

  pub foo_loop-some :
      (fuel p : ℕ) (xs : List ℕ)
      → Chain h i p xs
      → length xs < fuel
      → (b : ℕ) × (foo_loop fuel p id h ≡ some b)
  unfolding foo_loop
  foo_loop-some zero p xs c lt = absurd (omega arith)
  foo_loop-some (suc fuel) zero xs c lt = (0, refl)
  foo_loop-some (suc fuel) (suc p) [] c lt = absurd (omega arith)
  foo_loop-some (suc fuel) (suc p) (a ∷ xs) (pa, nz, l, f, at, home, c) lt =
      let (b, e) = foo_loop-some fuel f.f_next xs c (omega arith) in
      elim (Bool-cases (same_id f.f_id id)) [
        | inl y ↦ (suc p, rw (ap h pa ∙ at, y) refl)
        | inr ne ↦ (b, rw (ap h pa ∙ at, ne) e)
      ]
