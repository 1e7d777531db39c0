-- ===== src/Refs/Same.antt =====
-- foo_rele of mutex2.c and of mutex3.c do the same.
use apue.Prelude.{
  ℕ, zero, suc, ◌+◌, ◌-◌, ◌<◌, ◌≤◌, ◌≡◌, ◌≢◌, refl, sym, ap, ◌∙◌, inl, inr, Bool, true, false,
  Option, none, some, some_inj, arith, ◌==◌, if◌then◌else◌, length, update, update_self, update_ne,
  Bool-cases,
}
use apue.Prelude.Totals.{le-total}
use apue.Dll.{◌>>=◌}
use apue.Refs.{
  Foo, FooTable, load, write, hash, unlink_loop, unlink, freed, dropped, rele_last, rele_alone,
  foo_rele,
}
use apue.Refs.Chain.{load-some}
use apue.Refs.Run.{System, Steps, start}
use apue.Refs.Run.Holder.{holds, releasing}
use apue.Refs.Invariant.{refs, Inv-same, waits}
use apue.Refs.Preserve.{last-Inv}
use apue.Refs.Good.{has_one, object, rele_first_cases, Steps-Good}

apart :
    (h : ℕ → Option Foo) (a p : ℕ) (x y : Option Foo) (b : ℕ)
    → b ≢ a
    → update (update h a x) p y b ≡ update h p y b
apart h a p x y b ne = ground arith

shadow :
    (h : ℕ → Option Foo) (a : ℕ) (x : Option Foo) (b : ℕ)
    → update h a none b ≡ update (update h a x) a none b
shadow h a x b = ground arith

differ : (a b : ℕ) → (a == b) ≡ false → a ≢ b
differ a b e = ground arith

covered :
    (h k : ℕ → Option Foo) (a b : ℕ)
    → ((c : ℕ) → c ≢ a → k c ≡ h c)
    → update h a none b ≡ update k a none b
covered h k a b at = elim (Bool-cases (b == a)) [
  | inl y ↦ rw y refl
  | inr ne ↦ rw ne (sym (at b (differ b a ne)))
]

-- The loop does not look at the object that it takes out.
unlink_loop-write :
    (fuel p a q : ℕ) (g : Foo) (h h' : ℕ → Option Foo)
    → p ≢ a
    → unlink_loop fuel p a q h ≡ some h'
    → (k : ℕ → Option Foo) × (unlink_loop fuel p a q (write h a g) ≡ some k)
      × ((b : ℕ) → b ≢ a → k b ≡ h' b)
unfolding unlink_loop
unlink_loop-write zero p a q g h h' ne e = absurd (grind arith)
unlink_loop-write (suc fuel) p a q g h h' ne e =
    loaded (load h p) refl (λ f nf. unlink_loop-write fuel f.f_next a q g h h' nf) e
  where
    same_load : load (write h a g) p ≡ load h p
    same_load = ap (λ o. if p == 0 then none else o) (update_ne h a (some g) p ne)

    loaded :
        (o : Option Foo)
        → load h p ≡ o
        → ((f : Foo)
            → f.f_next ≢ a
            → unlink_loop fuel f.f_next a q h ≡ some h'
            → (k : ℕ → Option Foo) × (unlink_loop fuel f.f_next a q (write h a g) ≡ some k)
              × ((b : ℕ) → b ≢ a → k b ≡ h' b))
        → (o >>= λ f.
            if f.f_next == a
            then some (write h p (record f { f_next = q }))
            else unlink_loop fuel f.f_next a q h)
          ≡ some h'
        → (k : ℕ → Option Foo) × (unlink_loop (suc fuel) p a q (write h a g) ≡ some k)
          × ((b : ℕ) → b ≢ a → k b ≡ h' b)
    loaded none l rest d = absurd (grind arith)
    loaded (some f) l rest d =
        let test : Bool → Option (ℕ → Option Foo) = λ c.
          if c
          then some (write h p (record f { f_next = q }))
          else unlink_loop fuel f.f_next a q h in
        elim (Bool-cases (f.f_next == a)) [
          | inl y ↦
              let same = some_inj.0 (sym (ap test y) ∙ d) in
              (
                write (write h a g) p (record f { f_next = q }),
                rw (same_load ∙ l, y) refl,
                λ b nb.
                    apart h a p (some g) (some (record f { f_next = q })) b nb ∙ ap (λ k. k b) same,
              )
          | inr no_match ↦
              let (k, dk, at) =
                rest f (λ z. differ f.f_next a no_match z) (sym (ap test no_match) ∙ d) in
              (k, rw (same_load ∙ l, no_match) dk, at)
        ]

-- Two tables that a program cannot tell apart.
abbrev pub Alike : FooTable → FooTable → Type 0
Alike t u = ((b : ℕ) → t.heap b ≡ u.heap b) × ((i : ℕ) → t.fh i ≡ u.fh i)

-- The object's own count does not matter to its removal.
unlink-dropped :
    (fuel a : ℕ) (f : Foo) (t t' : FooTable)
    → t.heap a ≡ some f
    → unlink fuel a f t ≡ some t'
    → (u : FooTable) × (unlink fuel a f (dropped a f t) ≡ some u) × Alike (freed a t') (freed a u)
unfolding unlink
unlink-dropped fuel a f t t' there e = elim (Bool-cases (t.fh (hash f.f_id) == a)) [
  | inl y ↦
      let test : Bool → Option FooTable = λ c.
        if c then some (record t { fh = update t.fh (hash f.f_id) f.f_next }) else (do
          h ← unlink_loop fuel (t.fh (hash f.f_id)) a f.f_next t.heap
          some (record t { heap = h })) in
      let same = some_inj.0 (sym (ap test y) ∙ e) in
      (
        record (dropped a f t) { fh = update t.fh (hash f.f_id) f.f_next },
        rw y refl,
        (
          λ b.
              ap (λ x. (freed a x).heap b) (sym same)
              ∙ shadow t.heap a (some (record f { f_count = f.f_count - 1 })) b,
          λ i. ap (λ x. x.fh i) (sym same),
        ),
      )
  | inr no_match ↦
      let test : Bool → Option FooTable = λ c.
        if c then some (record t { fh = update t.fh (hash f.f_id) f.f_next }) else (do
          h ← unlink_loop fuel (t.fh (hash f.f_id)) a f.f_next t.heap
          some (record t { heap = h })) in
      go no_match (unlink_loop fuel (t.fh (hash f.f_id)) a f.f_next t.heap) refl
        (sym (ap test no_match) ∙ e)
]
  where
    go :
        (t.fh (hash f.f_id) == a) ≡ false
        → (o : Option (ℕ → Option Foo))
        → unlink_loop fuel (t.fh (hash f.f_id)) a f.f_next t.heap ≡ o
        → (o >>= λ h. some (record t { heap = h })) ≡ some t'
        → (u : FooTable) × (unlink fuel a f (dropped a f t) ≡ some u)
          × Alike (freed a t') (freed a u)
    go no_match none l d = absurd (grind arith)
    go no_match (some h) l d =
        let (k, dk, at) =
          unlink_loop-write fuel (t.fh (hash f.f_id)) a f.f_next
            (record f { f_count = f.f_count - 1 }) t.heap h (differ (t.fh (hash f.f_id)) a no_match)
            l in
        let same = some_inj.0 d in
        (
          record (dropped a f t) { heap = k },
          rw (no_match, dk) refl,
          (
            λ b. ap (λ x. (freed a x).heap b) (sym same) ∙ covered h k a b at,
            λ i. ap (λ x. x.fh i) (sym same),
          ),
        )

some_left : (c : ℕ) → c ≢ 0 → c ≢ 1 → (c - 1 == 0) ≡ false
some_left c nz more = ground arith

none_left : (c : ℕ) → c ≡ 1 → (c - 1 == 0) ≡ true
none_left c one = ground arith

rele_last-one :
    (fuel a : ℕ) (f : Foo) (t u : FooTable)
    → a ≢ 0
    → t.heap a ≡ some f
    → f.f_count ≡ 1
    → unlink fuel a f t ≡ some u
    → rele_last fuel a t ≡ some (freed a u)
unfolding rele_last
rele_last-one fuel a f t u nz there one du =
    let test : (f.f_count == 1) ≡ true = ground arith in
    rw (load-some t.heap a f nz there, test, du) refl

module _ (n : ℕ) {s : System} (run : Steps n start s) where
  -- Up to n references are made, shared and given up by any sequence of steps of the threads, from
  -- an empty table. When a thread that has a reference gives it up and no other thread gets in
  -- between the two parts of foo_rele, then with enough fuel foo_rele of mutex2.c and foo_rele of
  -- mutex3.c both end and leave the same objects and the same table.
  pub rele_alone-foo_rele :
      (r a : ℕ)
      → r < n
      → s.held r ≡ holds a
      → (enough : ℕ) × ((fuel : ℕ)
          → enough ≤ fuel
          → (t u : FooTable) × (rele_alone fuel a s.table ≡ some t)
            × (foo_rele fuel a s.table ≡ some u)
            × Alike t u)
  unfolding rele_alone foo_rele
  rele_alone-foo_rele r a lt e =
      let (ls, w) = Steps-Good n run in
      let (f, there, c, nz, m) = object n s.table s.held r lt ls w a (inl e) in
      (
        length (ls (hash f.f_id)) + 1,
        λ fuel le. elim (rele_first_cases n s.table s.held r lt ls w a f nz there) [
          | inl (one, d) ↦
              let held' = update s.held r (releasing a) in
              let w' = Inv-same n s.table s.held ls w held' (waits n s.held r lt a e) in
              let (u, du, gone, ls', iu) =
                last-Inv n s.table held' r lt ls w' a f fuel (update_self s.held r (releasing a))
                  there one (inl (omega arith)) in
              let (v, dv, alike) = unlink-dropped fuel a f s.table u there du in
              (
                freed a u,
                freed a v,
                rw d (rele_last-one fuel a f s.table u nz there one du),
                rw (load-some s.table.heap a f nz there, none_left f.f_count one, dv) refl,
                alike,
              )
          | inr (more, d) ↦
              let some_held = le-total (refs a) s.held n r lt in
              let one_held = has_one n s.table s.held r lt ls w a (inl e) in
              (
                dropped a f s.table,
                dropped a f s.table,
                rw d refl,
                rw (load-some s.table.heap a f nz there, some_left f.f_count (omega arith) more)
                    refl,
                (λ b. refl, λ i. refl),
              )
        ],
      )
