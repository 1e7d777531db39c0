-- ===== src/Refs/Good.antt =====
-- The invariant after every step, and after any sequence of steps.
use apue.Prelude.{
  ℕ, zero, suc, ◌<◌, ◌≡◌, ◌≢◌, refl, sym, ap, subst, ◌∙◌, ◌⊎◌, inl, inr, Bool, true, false, [], ◌∷◌,
  Option, none, some, some_inj, arith, ◌==◌, if◌then◌else◌, update, Bool-cases, ==_iff, List,
}
use apue.Prelude.Int.{ℤ}
use apue.Prelude.Totals.{total, total-none}
use apue.Dll.{◌>>=◌}
use apue.Refs.{
  Foo, FooTable, hash, foo_alloc, foo_hold, foo_loop, foo_find, unlink, freed, dropped, rele_first,
  rele_last,
}
use apue.Refs.Chain.{Has, load-some}
use apue.Refs.Run.{Holder, System, given, after, Step, Steps, start}
use apue.Refs.Run.Holder.{nothing, holds, releasing}
use apue.Refs.Run.Step.{allocs, finds, shares, releases, removes}
use apue.Refs.Run.Steps.{here, next}
use apue.Refs.Invariant.{refs, refs_self, Inv, alive, Inv-same, waits, keeps_none}
use apue.Refs.Find.{foo_loop-Found}
use apue.Refs.Preserve.{Good, hold-Inv, drop-Inv, last-Inv, alloc-Inv}

module _ (n : ℕ) where
  module _ (t : FooTable) (held : ℕ → Holder) (r : ℕ) (lt : r < n) (ls : ℕ → List ℕ)
      (w : Inv n t held ls) where
    pub has_one : (q : ℕ) → (held r ≡ holds q) ⊎ (held r ≡ releasing q) → refs q (held r) ≡ 1
    has_one q (inl e) = ap (refs q) e ∙ refs_self q
    has_one q (inr e) = ap (refs q) e ∙ refs_self q

    -- The object of a reference.
    pub object :
        (q : ℕ)
        → (held r ≡ holds q) ⊎ (held r ≡ releasing q)
        → (f : Foo) × (t.heap q ≡ some f)
          × (f.f_count ≡ total (refs q) held n)
          × (q ≢ 0)
          × Has q (ls (hash f.f_id))
    object q e = alive n t held ls w r q lt (has_one q e)

    pub rele_first_cases :
        (q : ℕ) (f : Foo)
        → q ≢ 0
        → t.heap q ≡ some f
        → ((f.f_count ≡ 1) × (rele_first q t ≡ some (true, t)))
          ⊎ ((f.f_count ≢ 1) × (rele_first q t ≡ some (false, dropped q f t)))
    unfolding rele_first
    rele_first_cases q f nz there = elim (Bool-cases (f.f_count == 1)) [
      | inl y ↦ inl ((==_iff f.f_count 1).0 y, rw (load-some t.heap q f nz there, y) refl)
      | inr ne ↦ inr (ground arith, rw (load-some t.heap q f nz there, ne) refl)
    ]

    pub rele_last_cases :
        (fuel q : ℕ) (f : Foo)
        → q ≢ 0
        → t.heap q ≡ some f
        → ((f.f_count ≡ 1) × (rele_last fuel q t ≡ (unlink fuel q f t >>= λ u. some (freed q u))))
          ⊎ ((f.f_count ≢ 1) × (rele_last fuel q t ≡ some (dropped q f t)))
    unfolding rele_last
    rele_last_cases fuel q f nz there = elim (Bool-cases (f.f_count == 1)) [
      | inl y ↦ inl ((==_iff f.f_count 1).0 y, rw (load-some t.heap q f nz there, y) refl)
      | inr ne ↦ inr (ground arith, rw (load-some t.heap q f nz there, ne) refl)
    ]

    -- foo_find gave NULL, or it gave an object with one more reference.
    found-Inv :
        (fuel : ℕ) (id : ℤ) (q : ℕ) (t' : FooTable)
        → held r ≡ nothing
        → foo_find fuel id t ≡ some (q, t')
        → Inv n t' (update held r (given q)) ls
    unfolding foo_find
    found-Inv fuel id q t' e done = walk (foo_loop fuel (t.fh (hash id)) id t.heap) refl done
      where
        pick : ℕ → Option (ℕ × FooTable)
        pick fp = if fp == 0 then some (0, t) else (do u ← foo_hold fp t; some (fp, u))

        walk :
            (o : Option ℕ)
            → foo_loop fuel (t.fh (hash id)) id t.heap ≡ o
            → (o >>= pick) ≡ some (q, t')
            → Inv n t' (update held r (given q)) ls
        walk none f d = absurd (grind arith)
        walk (some zero) f d =
            let same = some_inj.0 d in
            subst (λ x. Inv n x.1 (update held r (given x.0)) ls) same
              (Inv-same n t held ls w (update held r nothing) (keeps_none n held r lt e))
        walk (some (suc p)) f d =
            elim (foo_loop-Found t.heap (hash id) id fuel (t.fh (hash id)) (ls (hash id)) (suc p)
              (w.chains (hash id)) f) [
                | inl (z, none_there) ↦ absurd (omega arith)
                | inr (m, g, there, y) ↦
                    let (u, held_it, iu) =
                      hold-Inv n t held r lt ls w (suc p) g e (omega arith) there in
                    let pair : Option FooTable → Option (ℕ × FooTable) =
                      λ o. o >>= λ u. some (suc p, u) in
                    let test : Bool → Option (ℕ × FooTable) =
                      λ c. if c then some (0, t) else pair (foo_hold (suc p) t) in
                    let nonzero : (suc p == 0) ≡ false = ground arith in
                    let same = some_inj.0 (sym (ap pair held_it) ∙ (sym (ap test nonzero) ∙ d)) in
                    subst (λ x. Inv n x.1 (update held r (given x.0)) ls) same iu
              ]

    first-Inv :
        (q : ℕ) (last : Bool) (t' : FooTable)
        → held r ≡ holds q
        → rele_first q t ≡ some (last, t')
        → Inv n t' (update held r (after q last)) ls
    first-Inv q last t' e done =
        let (f, there, c, nz, m) = object q (inl e) in
        elim (rele_first_cases q f nz there) [
          | inl (one, d) ↦
              subst (λ x. Inv n x.1 (update held r (after q x.0)) ls) (some_inj.0 (sym d ∙ done))
                (Inv-same n t held ls w (update held r (releasing q)) (waits n held r lt q e))
          | inr (more, d) ↦
              subst (λ x. Inv n x.1 (update held r (after q x.0)) ls) (some_inj.0 (sym d ∙ done))
                (drop-Inv n t held r lt ls w q f (inl e) there more)
        ]

    second-Inv :
        (fuel q : ℕ) (t' : FooTable)
        → held r ≡ releasing q
        → rele_last fuel q t ≡ some t'
        → (ls' : ℕ → List ℕ) × Inv n t' (update held r nothing) ls'
    second-Inv fuel q t' e done =
        let (f, there, c, nz, m) = object q (inr e) in
        elim (rele_last_cases fuel q f nz there) [
          | inl (one, d) ↦
              let ends : unlink fuel q f t ≢ none = λ z.
                let stuck = sym done ∙ (d ∙ ap (λ o. o >>= λ u. some (freed q u)) z) in
                absurd (grind arith) in
              let (u, du, gone, ls', iu) =
                last-Inv n t held r lt ls w q f fuel e there one (inr ends) in
              (
                ls',
                subst (λ x. Inv n x (update held r nothing) ls')
                    (some_inj.0 (sym (ap (λ o. o >>= λ u. some (freed q u)) du) ∙ (sym d ∙ done)))
                    iu,
              )
          | inr (more, d) ↦ (
            ls,
            subst (λ x. Inv n x (update held r nothing) ls) (some_inj.0 (sym d ∙ done))
                (drop-Inv n t held r lt ls w q f (inr e) there more),
          )
        ]

  Step-Good : {s u : System} → Step n s u → Good n s → Good n u
  unfolding foo_alloc
  Step-Good {s = s} (allocs r zero b id lt e free) (ls, w) =
      (ls, Inv-same n s.table s.held ls w (update s.held r nothing) (keeps_none n s.held r lt e))
  Step-Good {s = s} (allocs r (suc q) true id lt e free) (ls, w) =
      (ls, Inv-same n s.table s.held ls w (update s.held r nothing) (keeps_none n s.held r lt e))
  Step-Good {s = s} (allocs r (suc q) false id lt e free) (ls, w) = (
    update ls (hash id) (suc q ∷ ls (hash id)),
    alloc-Inv n s.table s.held r lt ls w (suc q) id e (omega arith) free,
  )
  Step-Good {s = s} (finds fuel r id {fp = q} {t = t'} lt e done) (ls, w) =
      (ls, found-Inv s.table s.held r lt ls w fuel id q t' e done)
  Step-Good {s = s} (shares r k q {t = t'} lt lk e ek done) (ls, w) =
      let (f, there, c, nz, m) = object s.table s.held r lt ls w q (inl e) in
      let (u, d, iu) = hold-Inv n s.table s.held k lk ls w q f ek nz there in
      (ls, subst (λ x. Inv n x (update s.held k (holds q)) ls) (some_inj.0 (sym d ∙ done)) iu)
  Step-Good {s = s} (releases r q {last = last} {t = t'} lt e done) (ls, w) =
      (ls, first-Inv s.table s.held r lt ls w q last t' e done)
  Step-Good {s = s} (removes fuel r q {t = t'} lt e done) (ls, w) =
      second-Inv s.table s.held r lt ls w fuel q t' e done

  pub Steps-Good : {s : System} → Steps n start s → Good n s
  Steps-Good here = (
    (λ i. []),
    record {
      chains = λ i. refl;
      listed = λ a f e. absurd (grind arith);
      counts = λ a. total-none (refs a) (λ r. nothing) n (λ p l. refl);
    },
  )
  Steps-Good (next r s) = Step-Good s (Steps-Good r)
