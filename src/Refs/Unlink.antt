-- ===== src/Refs/Unlink.antt =====
-- The last release: the object leaves its list and is freed.
use apue.Prelude.{
  ℕ, ◌<◌, ◌≡◌, ◌≢◌, refl, sym, ap, subst, ◌∙◌, ◌⊎◌, inl, inr, true, false, List, [], ◌∷◌, ◌++◌,
  Option, none, some, some_inj, arith, ◌==◌, Lacks, length, update, update_cases, update_ne,
  update_self,
}
use apue.Prelude.Totals.{total}
use apue.Refs.{Foo, FooTable, write, hash, unlink, freed}
use apue.Refs.Chain.{
  Chain, Has, Lacks-Has, Chain-same, Chain-Has, Chain-back, Has-middle, Has-front, Has-cut, eq_true,
  eq_false, unlink_loop-Unlinked, Lacks-cut,
}
use apue.Refs.Run.{Holder}
use apue.Refs.Invariant.{refs, Counted, Inv}

-- A cell is as it was, or it is an object of `xs` with another link.
abbrev Linked : List ℕ → Option Foo → Option Foo → ℕ → Type 0
Linked xs old new b =
    (new ≡ old)
    ⊎ (Has b xs × (g : Foo) × (m : ℕ) × (old ≡ some g) × (new ≡ some (record g { f_next = m })))

-- Object `a` of bucket `i` left the list.
pub record Without (t : FooTable) (i a : ℕ) (ys zs : List ℕ) (t' : FooTable) : Type 0 where
  pub chain : Chain t'.heap i (t'.fh i) (ys ++ zs)
  pub heads : (j : ℕ) → j ≢ i → t'.fh j ≡ t.fh j
  pub cells : (b : ℕ) → Linked ys (t.heap b) (t'.heap b) b

pub unlink-Without :
    (t : FooTable) (i a : ℕ) (ys zs : List ℕ) (f : Foo) (fuel : ℕ)
    → Chain t.heap i (t.fh i) (ys ++ a ∷ zs)
    → t.heap a ≡ some f
    → hash f.f_id ≡ i
    → (length ys < fuel) ⊎ (unlink fuel a f t ≢ none)
    → (t' : FooTable) × (unlink fuel a f t ≡ some t') × Without t i a ys zs t'
unfolding unlink
unlink-Without t i a [] zs f fuel c there home lt =
    let at_head : (t.fh (hash f.f_id) == a) ≡ true =
      eq_true (t.fh (hash f.f_id)) a (ap t.fh home ∙ c.0) in
    (
      record t { fh = update t.fh (hash f.f_id) f.f_next },
      rw at_head refl,
      record {
        chain =
            subst (λ p. Chain t.heap i p zs)
              (sym (
                ap (update t.fh (hash f.f_id) f.f_next) (sym home)
                ∙ update_self t.fh (hash f.f_id) f.f_next))
              (Chain-back t.heap i (t.fh i) [] a zs f c there);
        heads = λ j ne. update_ne t.fh (hash f.f_id) f.f_next j (λ e. ne (e ∙ home));
        cells = λ b. inl refl;
      },
    )
unlink-Without t i a (y ∷ ys) zs f fuel c there home lt =
    let ahead = Lacks-Has y a (ys ++ a ∷ zs) c.2 (Has-middle a ys zs) in
    let behind : (t.fh (hash f.f_id) == a) ≡ false =
      eq_false (t.fh (hash f.f_id)) a (λ e. ahead (sym e ∙ (ap t.fh home ∙ c.0))) in
    let u = unlink_loop-Unlinked t.heap i (t.fh i) y ys a zs f fuel c there (elim lt [
      | inl l ↦ inl (omega arith)
      | inr ends ↦ inr (λ d. ends (rw (behind, home, d) refl))
    ]) in
    (
      record t { heap = write t.heap u.spot (record u.front { f_next = f.f_next }) },
      rw (behind, home, u.done) refl,
      record {
        chain = u.chain;
        heads = λ j ne. refl;
        cells = λ b.
            elim (update_cases t.heap u.spot (some (record u.front { f_next = f.f_next })) b) [
              | inl (e, v) ↦ inr (
                subst (λ x. Has x (y ∷ ys)) (sym e) u.in_front,
                u.front,
                f.f_next,
                ap t.heap e ∙ u.there,
                v,
              )
              | inr (ne, v) ↦ inl v
            ];
      },
    )

module _ (n : ℕ) (t : FooTable) (held held' : ℕ → Holder) (ls : ℕ → List ℕ) (w : Inv n t held ls)
    (i a : ℕ) (ys zs : List ℕ) (f : Foo) (split : ls i ≡ ys ++ a ∷ zs) (there : t.heap a ≡ some f)
    (home : hash f.f_id ≡ i) (t' : FooTable) (out : Without t i a ys zs t')
    (none_left : total (refs a) held' n ≡ 0)
    (same : (b : ℕ) → b ≢ a → total (refs b) held' n ≡ total (refs b) held n) where
  -- An object of another bucket is neither `a` nor one whose link was changed.
  elsewhere : (j b : ℕ) → j ≢ i → Has b (ls j) → (freed a t').heap b ≡ t.heap b
  elsewhere j b ne m =
      let (nz, g, at, at_home) = Chain-Has t.heap j (t.fh j) (ls j) b (w.chains j) m in
      let not_a : b ≢ a = λ e.
        let fg : some f ≡ some g = sym there ∙ (ap t.heap (sym e) ∙ at) in
        ne (sym at_home ∙ (ap (λ x. hash x.f_id) (sym (some_inj.0 fg)) ∙ home)) in
      update_ne t'.heap a none b not_a ∙ elim (out.cells b) [
        | inl e ↦ e
        | inr (y_in, g', k, old, new) ↦
            let (nz', g'', at'', home'') =
              Chain-Has t.heap i (t.fh i) (ls i) b (w.chains i)
                (subst (Has b) (sym split) (Has-front b ys (a ∷ zs) y_in)) in
            absurd
              (ne (sym at_home ∙ (ap (λ x. hash x.f_id) (some_inj.0 (sym at ∙ at'')) ∙ home'')))
      ]

  -- What stands in a cell besides `a`.
  cell_of :
      (b : ℕ) (g : Foo)
      → b ≢ a
      → t'.heap b ≡ some g
      → (g' : Foo) × (t.heap b ≡ some g') × (g'.f_id ≡ g.f_id)
  cell_of b g ne e = elim (out.cells b) [
    | inl s ↦ (g, sym s ∙ e, refl)
    | inr (y_in, g', k, old, new) ↦ (g', old, ap (λ x. x.f_id) (some_inj.0 (sym new ∙ e)))
  ]

  pub removed-Inv : Inv n (freed a t') held' (update ls i (ys ++ zs))
  removed-Inv = record {
    chains = λ j. elim (update_cases ls i (ys ++ zs) j) [
      | inl (e, v) ↦
          subst (λ l. Chain (freed a t').heap j (t'.fh j) l) (sym v)
            (subst (λ k. Chain (freed a t').heap k (t'.fh k) (ys ++ zs)) (sym e)
              (Chain-same t'.heap (freed a t').heap i (t'.fh i) (ys ++ zs)
                (λ b m. update_ne t'.heap a none b (Lacks-Has a b (ys ++ zs) apart m)) out.chain))
      | inr (ne, v) ↦
          subst (λ l. Chain (freed a t').heap j (t'.fh j) l) (sym v)
            (subst (λ p. Chain (freed a t').heap j p (ls j)) (sym (out.heads j ne))
              (Chain-same t.heap (freed a t').heap j (t.fh j) (ls j) (λ b m. elsewhere j b ne m)
                (w.chains j)))
    ];
    listed = λ b g e. elim (update_cases t'.heap a none b) [
      | inl (same_b, v) ↦ absurd (grind arith)
      | inr (ne, v) ↦
          let (g', at, ids) = cell_of b g ne (sym v ∙ e) in
          in_list b (hash g.f_id) ne (subst (λ x. Has b (ls x)) (ap hash ids) (w.listed b g' at))
    ];
    counts = λ b. elim (update_cases t'.heap a none b) [
      | inl (same_b, v) ↦
          subst (λ o. Counted o (total (refs b) held' n)) (sym v)
            (subst (λ x. total (refs x) held' n ≡ 0) (sym same_b) none_left)
      | inr (ne, v) ↦
          subst (λ o. Counted o (total (refs b) held' n)) (sym v)
            (subst (Counted (t'.heap b)) (sym (same b ne)) (elim (out.cells b) [
              | inl s ↦ subst (λ o. Counted o (total (refs b) held n)) (sym s) (w.counts b)
              | inr (y_in, g', k, old, new) ↦
                  subst (λ o. Counted o (total (refs b) held n)) (sym new)
                    (subst (λ o. Counted o (total (refs b) held n)) old (w.counts b))
            ]))
    ];
  }
    where
      apart : Lacks a (ys ++ zs)
      apart =
          Lacks-cut t.heap i (t.fh i) ys a zs (subst (Chain t.heap i (t.fh i)) split (w.chains i))

      in_list : (b j : ℕ) → b ≢ a → Has b (ls j) → Has b (update ls i (ys ++ zs) j)
      in_list b j ne m = elim (update_cases ls i (ys ++ zs) j) [
        | inl (e, v) ↦
            subst (Has b) (sym v) (Has-cut a b ys zs ne (subst (Has b) (ap ls e ∙ split) m))
        | inr (nj, v) ↦ subst (Has b) (sym v) m
      ]
