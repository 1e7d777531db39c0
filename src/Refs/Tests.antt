-- ===== src/Refs/Tests.antt =====
-- Two objects in one bucket, with references that are shared and released.
use apue.Prelude.{ℕ, ◌+◌, ◌≤◌, ◌≡◌, ◌≢◌, refl, ◌⊎◌, Bool, true, false, Option, none, some, arith}
use apue.Prelude.Int.{pos}
use apue.Prelude.Totals.{total}
use apue.Refs.{
  Foo, FooTable, same_id, foo_alloc, foo_hold, foo_loop, foo_find, rele_first, rele_last,
  rele_alone, foo_rele, hash,
}
use apue.Refs.Run.{System, Steps, start, at, given, after}
use apue.Refs.Run.Holder.{holds, releasing}
use apue.Refs.Run.Step.{allocs, finds, releases}
use apue.Refs.Run.Steps.{here, next}
use apue.Refs.Invariant.{refs}
use apue.Refs.Safety.{Steps-holds, Steps-rele_last, Steps-foo_find}
use apue.Refs.Same.{Alike, rele_alone-foo_rele}

-- Objects 4 and 5, with the ids 1 and 30.
one : System
unfolding foo_alloc hash
one = at 0 (given 4) (foo_alloc 4 false (pos 1) start.table).1 start

two : System
unfolding foo_alloc hash
two = at 1 (given 5) (foo_alloc 5 false (pos 30) one.table).1 one

two-Steps : Steps 3 start two
unfolding foo_alloc hash one two
two-Steps =
    next (next here (allocs 0 4 false (pos 1) (omega arith) refl refl))
      (allocs 1 5 false (pos 30) (omega arith) refl refl)

abbrev table_of : Option (ℕ × FooTable) → FooTable
table_of none = start.table
table_of (some (a, t)) = t

abbrev table_after : Option (Bool × FooTable) → FooTable
table_after none = start.table
table_after (some (last, t)) = t

-- Object 4 is found behind object 5.
three : System
unfolding foo_alloc hash one two foo_find foo_loop foo_hold
three = at 2 (given 4) (table_of (foo_find 3 (pos 1) two.table)) two

three-Steps : Steps 3 start three
unfolding foo_alloc hash one two foo_find foo_loop foo_hold three
three-Steps = next two-Steps (finds 3 2 (pos 1) (omega arith) refl refl)

three_holds : three.held 2 ≡ holds 4
unfolding foo_alloc hash one two foo_find foo_loop foo_hold three
three_holds = refl

Steps-holds_example :
    (f : Foo) × (three.table.heap 4 ≡ some f) × (f.f_count ≡ total (refs 4) three.held 3)
Steps-holds_example = Steps-holds 3 three-Steps 2 4 (omega arith) three_holds

two_references : total (refs 4) three.held 3 ≡ 2
unfolding foo_alloc hash one two foo_find foo_loop foo_hold three
two_references = refl

Steps-foo_find_example :
    (enough : ℕ) × ((fuel : ℕ)
      → enough ≤ fuel
      → (a : ℕ) × (t : FooTable) × (foo_find fuel (pos 30) three.table ≡ some (a, t))
        × (((a ≡ 0)
              × ((b : ℕ) (f : Foo) → three.table.heap b ≡ some f → same_id f.f_id (pos 30) ≡ false))
            ⊎ ((f : Foo) × (three.table.heap a ≡ some f)
                × (same_id f.f_id (pos 30) ≡ true)
                × (t.heap a ≡ some (record f { f_count = f.f_count + 1 })))))
Steps-foo_find_example = Steps-foo_find 3 three-Steps (pos 30)

rele_alone-foo_rele_example :
    (enough : ℕ) × ((fuel : ℕ)
      → enough ≤ fuel
      → (t u : FooTable) × (rele_alone fuel 4 three.table ≡ some t)
        × (foo_rele fuel 4 three.table ≡ some u)
        × Alike t u)
rele_alone-foo_rele_example = rele_alone-foo_rele 3 three-Steps 2 4 (omega arith) three_holds

-- Both references are given up; the second release goes on to hashlock.
four : System
unfolding foo_alloc hash one two foo_find foo_loop foo_hold three rele_first
four = at 2 (after 4 false) (table_after (rele_first 4 three.table)) three

five : System
unfolding foo_alloc hash one two foo_find foo_loop foo_hold three rele_first four
five = at 0 (after 4 true) (table_after (rele_first 4 four.table)) four

five-Steps : Steps 3 start five
unfolding foo_alloc hash one two foo_find foo_loop foo_hold three rele_first four five
five-Steps =
    next (next three-Steps (releases 2 4 (omega arith) refl refl))
      (releases 0 4 (omega arith) refl refl)

five_releasing : five.held 0 ≡ releasing 4
unfolding foo_alloc hash one two foo_find foo_loop foo_hold three rele_first four five
five_releasing = refl

Steps-rele_last_example :
    (enough : ℕ) × ((fuel : ℕ)
      → enough ≤ fuel
      → (t : FooTable) × (rele_last fuel 4 five.table ≡ some t)
        × (((total (refs 4) five.held 3 ≡ 1) × (t.heap 4 ≡ none))
            ⊎ ((total (refs 4) five.held 3 ≢ 1)
                × (f : Foo) × (t.heap 4 ≡ some f)
                × (f.f_count + 1 ≡ total (refs 4) five.held 3))))
Steps-rele_last_example = Steps-rele_last 3 five-Steps 0 4 (omega arith) five_releasing
