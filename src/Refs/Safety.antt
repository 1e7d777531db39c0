-- ===== src/Refs/Safety.antt =====
-- What holds after any sequence of steps of the threads.
use apue.Prelude.{
  ℕ, ◌+◌, ◌-◌, ◌<◌, ◌≤◌, ◌≡◌, ◌≢◌, refl, sym, ap, subst, ◌∙◌, ◌⊎◌, inl, inr, true, false, none,
  some, arith, ◌==◌, length, update_self, Bool-cases,
}
use apue.Prelude.Int.{ℤ}
use apue.Prelude.Totals.{total, le-total}
use apue.Dll.{◌>>=◌}
use apue.Refs.{Foo, FooTable, write, same_id, hash, foo_hold, foo_find, freed, dropped, rele_last}
use apue.Refs.Chain.{Has, Chain-Has}
use apue.Refs.Run.{System, Steps, start}
use apue.Refs.Run.Holder.{holds, releasing}
use apue.Refs.Invariant.{refs}
use apue.Refs.Find.{foo_loop-Found, foo_loop-some}
use apue.Refs.Preserve.{last-Inv}
use apue.Refs.Good.{has_one, object, rele_last_cases, Steps-Good}

same_id-eq : (a b : ℤ) → same_id a b ≡ true → a ≡ b
same_id-eq a b e = ground arith

not_null : (a : ℕ) → a ≢ 0 → (a == 0) ≡ false
not_null a ne = ground arith

module _ (n : ℕ) {s : System} (run : Steps n start s) where
  -- Up to n references are made, shared and given up by any sequence of steps of the threads, from
  -- an empty table. A thread that has a reference to an object finds it allocated, and f_count is
  -- the number of references to it, those of threads between the two parts of foo_rele included.
  pub Steps-holds :
      (r a : ℕ)
      → r < n
      → s.held r ≡ holds a
      → (f : Foo) × (s.table.heap a ≡ some f) × (f.f_count ≡ total (refs a) s.held n)
  Steps-holds r a lt e =
      let (ls, w) = Steps-Good n run in
      let (f, there, c, nz, m) = object n s.table s.held r lt ls w a (inl e) in (f, there, c)

  -- Up to n references are made, shared and given up by any sequence of steps of the threads, from
  -- an empty table. With enough fuel the second part of foo_rele in mutex2.c ends without
  -- following a bad pointer. If no other thread has a reference to the object by then, the object
  -- is freed; if one has, it stays, and its count is the number of references that are left.
  pub Steps-rele_last :
      (r a : ℕ)
      → r < n
      → s.held r ≡ releasing a
      → (enough : ℕ) × ((fuel : ℕ)
          → enough ≤ fuel
          → (t : FooTable) × (rele_last fuel a s.table ≡ some t)
            × (((total (refs a) s.held n ≡ 1) × (t.heap a ≡ none))
                ⊎ ((total (refs a) s.held n ≢ 1)
                    × (f : Foo) × (t.heap a ≡ some f)
                    × (f.f_count + 1 ≡ total (refs a) s.held n))))
  Steps-rele_last r a lt e =
      let (ls, w) = Steps-Good n run in
      let (f, there, c, nz, m) = object n s.table s.held r lt ls w a (inr e) in
      (
        length (ls (hash f.f_id)) + 1,
        λ fuel le. elim (rele_last_cases n s.table s.held r lt ls w fuel a f nz there) [
          | inl (one, d) ↦
              let (u, du, gone, ls', iu) =
                last-Inv n s.table s.held r lt ls w a f fuel e there one (inl (omega arith)) in
              (freed a u, d ∙ ap (λ o. o >>= λ x. some (freed a x)) du, inl (sym c ∙ one, gone))
          | inr (more, d) ↦
              let some_held = le-total (refs a) s.held n r lt in
              let one_held = has_one n s.table s.held r lt ls w a (inr e) in
              (
                dropped a f s.table,
                d,
                inr (
                  λ z. more (c ∙ z),
                  record f { f_count = f.f_count - 1 },
                  update_self s.table.heap a (some (record f { f_count = f.f_count - 1 })),
                  omega arith,
                ),
              )
        ],
      )

  -- Up to n references are made, shared and given up by any sequence of steps of the threads, from
  -- an empty table. With enough fuel foo_find ends: it gives NULL and no object that is allocated
  -- has the id, or it gives an object that has the id, and adds one to its count.
  pub Steps-foo_find :
      (id : ℤ)
      → (enough : ℕ) × ((fuel : ℕ)
          → enough ≤ fuel
          → (a : ℕ) × (t : FooTable) × (foo_find fuel id s.table ≡ some (a, t))
            × (((a ≡ 0) × ((b : ℕ) (f : Foo) → s.table.heap b ≡ some f → same_id f.f_id id ≡ false))
                ⊎ ((f : Foo) × (s.table.heap a ≡ some f)
                    × (same_id f.f_id id ≡ true)
                    × (t.heap a ≡ some (record f { f_count = f.f_count + 1 })))))
  unfolding foo_find foo_hold
  Steps-foo_find id =
      let (ls, w) = Steps-Good n run in
      (
        length (ls (hash id)) + 1,
        λ fuel le.
            let (b, e) =
              foo_loop-some s.table.heap (hash id) id fuel (s.table.fh (hash id)) (ls (hash id))
                (w.chains (hash id)) (omega arith) in
            elim (foo_loop-Found s.table.heap (hash id) id fuel (s.table.fh (hash id))
              (ls (hash id)) b (w.chains (hash id)) e) [
                | inl (z, none_there) ↦ (
                  0,
                  s.table,
                  rw (e, z) refl,
                  inl (
                    refl,
                    λ c f there. elim (Bool-cases (same_id f.f_id id)) [
                      | inl y ↦
                          let m =
                            subst (λ x. Has c (ls (hash x))) (same_id-eq f.f_id id y)
                              (w.listed c f there) in
                          none_there c f m there
                      | inr no_id ↦ no_id
                    ],
                  ),
                )
                | inr (m, f, there, y) ↦
                    let here =
                      Chain-Has s.table.heap (hash id) (s.table.fh (hash id)) (ls (hash id)) b
                        (w.chains (hash id)) m in
                    (
                      b,
                      record s.table {
                        heap = write s.table.heap b (record f { f_count = f.f_count + 1 });
                      },
                      rw (e, not_null b here.0, there) refl,
                      inr (
                        f,
                        there,
                        y,
                        update_self s.table.heap b (some (record f { f_count = f.f_count + 1 })),
                      ),
                    )
              ],
      )
