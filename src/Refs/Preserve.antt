-- ===== src/Refs/Preserve.antt =====
-- Every step of the threads keeps the invariant.
use apue.Prelude.{
  ℕ, ◌+◌, ◌-◌, ◌<◌, ◌≡◌, ◌≢◌, refl, sym, ap, subst, ◌∙◌, ◌⊎◌, inl, inr, List, [], ◌∷◌, ◌++◌, Option,
  none, some, some_inj, arith, Lacks, length, length-append, update, update_cases, update_ne,
  update_self,
}
use apue.Prelude.Int.{ℤ}
use apue.Prelude.Totals.{total}
use apue.Refs.{Foo, FooTable, write, hash, foo_hold, unlink, freed, dropped}
use apue.Refs.Chain.{Chain, Has, Chain-same, Chain-Has, Has-split, load-some}
use apue.Refs.Run.{Holder, System}
use apue.Refs.Run.Holder.{nothing, holds, releasing}
use apue.Refs.Invariant.{refs, Counted, Inv, Inv-recount, gains, loses}
use apue.Refs.Unlink.{unlink-Without, removed-Inv}

module _ (n : ℕ) where
  abbrev pub Good : System → Type 0
  Good s = (ls : ℕ → List ℕ) × Inv n s.table s.held ls

  module _ (t : FooTable) (held : ℕ → Holder) (r : ℕ) (lt : r < n) (ls : ℕ → List ℕ)
      (w : Inv n t held ls) where
    -- One more reference to an object that is there.
    pub hold-Inv :
        (q : ℕ) (f : Foo)
        → held r ≡ nothing
        → q ≢ 0
        → t.heap q ≡ some f
        → (t' : FooTable) × (foo_hold q t ≡ some t') × Inv n t' (update held r (holds q)) ls
    unfolding foo_hold
    hold-Inv q f e nz there =
        let (more, same) = gains n held r lt q e in
        let now = subst (λ o. Counted o (total (refs q) held n)) there (w.counts q) in
        (
          record t { heap = write t.heap q (record f { f_count = f.f_count + 1 }) },
          rw (load-some t.heap q f nz there) refl,
          Inv-recount n t held ls w (update held r (holds q)) q (f.f_count + 1) f there same
              (let c = now.0 in omega arith, omega arith),
        )

    -- One reference less to an object that has more.
    pub drop-Inv :
        (q : ℕ) (f : Foo)
        → (held r ≡ holds q) ⊎ (held r ≡ releasing q)
        → t.heap q ≡ some f
        → f.f_count ≢ 1
        → Inv n (dropped q f t) (update held r nothing) ls
    drop-Inv q f e there ne =
        let (less, same) = loses n held r lt q e in
        let now = subst (λ o. Counted o (total (refs q) held n)) there (w.counts q) in
        let c = now.0 in
        let nz = now.1 in
        Inv-recount n t held ls w (update held r nothing) q (f.f_count - 1) f there same
          (omega arith, omega arith)

    -- The last reference: the object is unlinked and freed.
    pub last-Inv :
        (q : ℕ) (f : Foo) (fuel : ℕ)
        → held r ≡ releasing q
        → t.heap q ≡ some f
        → f.f_count ≡ 1
        → (length (ls (hash f.f_id)) < fuel) ⊎ (unlink fuel q f t ≢ none)
        → (t' : FooTable) × (unlink fuel q f t ≡ some t')
          × ((freed q t').heap q ≡ none)
          × (ls' : ℕ → List ℕ) × Inv n (freed q t') (update held r nothing) ls'
    last-Inv q f fuel e there one enough =
        let (ys, zs, split) = Has-split q (ls (hash f.f_id)) (w.listed q f there) in
        let (less, same) = loses n held r lt q (inr e) in
        let now = subst (λ o. Counted o (total (refs q) held n)) there (w.counts q) in
        let c = now.0 in
        let chain =
          subst (Chain t.heap (hash f.f_id) (t.fh (hash f.f_id))) split (w.chains (hash f.f_id)) in
        let short : (length ys < fuel) ⊎ (unlink fuel q f t ≢ none) = elim enough [
          | inl long ↦
              let split_length = ap length split in
              let parts = length-append ys (q ∷ zs) in inl (omega arith)
          | inr ends ↦ inr ends
        ] in
        let (t', done, out) =
          unlink-Without t (hash f.f_id) q ys zs f fuel chain there refl short in
        (
          t',
          done,
          update_self t'.heap q none,
          update ls (hash f.f_id) (ys ++ zs),
          removed-Inv n t held (update held r nothing) ls w (hash f.f_id) q ys zs f split there refl
              t' out (omega arith) same,
        )

    -- A new object.
    pub alloc-Inv :
        (q : ℕ) (id : ℤ)
        → held r ≡ nothing
        → q ≢ 0
        → t.heap q ≡ none
        → Inv n
            (record {
              heap = write t.heap q (record { f_count = 1; f_id = id; f_next = t.fh (hash id) });
              fh = update t.fh (hash id) q;
            })
            (update held r (holds q))
            (update ls (hash id) (q ∷ ls (hash id)))
    alloc-Inv q id e nz free = record {
      chains = λ i. elim (update_cases ls (hash id) (q ∷ ls (hash id)) i) [
        | inl (ei, v) ↦
            subst (λ l. Chain heap' i (update t.fh (hash id) q i) l) (sym v)
              (
                (ap (update t.fh (hash id) q) ei ∙ update_self t.fh (hash id) q),
                nz,
                absent (ls (hash id)) (λ b m. not_in (hash id) b m),
                new,
                update_self t.heap q (some new),
                sym ei,
                subst (λ k. Chain heap' k (t.fh (hash id)) (ls (hash id))) (sym ei)
                    (old_chain (hash id)),
              )
        | inr (ne, v) ↦
            subst (λ l. Chain heap' i (update t.fh (hash id) q i) l) (sym v)
              (subst (λ p. Chain heap' i p (ls i)) (sym (update_ne t.fh (hash id) q i ne))
                (old_chain i))
      ];
      listed = λ a f there. elim (update_cases t.heap q (some new) a) [
        | inl (aq, v) ↦
            let same = some_inj.0 (sym v ∙ there) in
            subst (λ x. Has a (update ls (hash id) (q ∷ ls (hash id)) x))
              (ap (λ x. hash x.f_id) same)
              (subst (Has a) (sym (update_self ls (hash id) (q ∷ ls (hash id)))) (inl (sym aq)))
        | inr (ne, v) ↦
            let m = w.listed a f (sym v ∙ there) in
            elim (update_cases ls (hash id) (q ∷ ls (hash id)) (hash f.f_id)) [
              | inl (eh, u) ↦ subst (Has a) (sym u) (inr (subst (λ x. Has a (ls x)) eh m))
              | inr (nh, u) ↦ subst (Has a) (sym u) m
            ]
      ];
      counts = λ a.
          let (more, same) = gains n held r lt q e in
          elim (update_cases t.heap q (some new) a) [
            | inl (aq, v) ↦
                let c = subst (λ o. Counted o (total (refs q) held n)) free (w.counts q) in
                subst (λ o. Counted o (total (refs a) (update held r (holds q)) n)) (sym v)
                  (subst
                    (λ x.
                      (1 ≡ total (refs x) (update held r (holds q)) n)
                      × (total (refs x) (update held r (holds q)) n ≢ 0))
                    (sym aq) (omega arith, omega arith))
            | inr (ne, v) ↦
                subst (λ o. Counted o (total (refs a) (update held r (holds q)) n)) (sym v)
                  (subst (Counted (t.heap a)) (sym (same a ne)) (w.counts a))
          ];
    }
      where
        new : Foo
        new = record { f_count = 1; f_id = id; f_next = t.fh (hash id) }

        heap' : ℕ → Option Foo
        heap' = write t.heap q new

        not_in : (i b : ℕ) → Has b (ls i) → b ≢ q
        not_in i b m bq =
            let (nz', f, there, home) = Chain-Has t.heap i (t.fh i) (ls i) b (w.chains i) m in
            let clash : none ≡ some f = sym free ∙ (ap t.heap (sym bq) ∙ there) in
            absurd (grind arith)

        old_chain : (i : ℕ) → Chain heap' i (t.fh i) (ls i)
        old_chain i =
            Chain-same t.heap heap' i (t.fh i) (ls i)
              (λ b m. update_ne t.heap q (some new) b (not_in i b m)) (w.chains i)

        absent : (xs : List ℕ) → ((b : ℕ) → Has b xs → b ≢ q) → Lacks q xs
        absent [] h = tt
        absent (x ∷ xs) h = (h x (inl refl), absent xs (λ b m. h b (inr m)))
