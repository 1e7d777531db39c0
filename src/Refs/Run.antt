-- ===== src/Refs/Run.antt =====
-- The references that threads hold, and what the threads may do with them, in any order.
use apue.Prelude.{ℕ, zero, suc, ◌<◌, ◌≡◌, Bool, none, some, if◌then◌else◌, update}
use apue.Prelude.Int.{ℤ}
use apue.Refs.{FooTable, foo_alloc, foo_hold, foo_find, rele_first, rele_last}

-- One reference: there is none, a thread has it, or a thread stands in foo_rele between its two parts.
pub data Holder : Type 0 where
  nothing : Holder
  holds releasing : ℕ → Holder

pub record System : Type 0 where
  pub table : FooTable
  pub held : ℕ → Holder

abbrev pub given : ℕ → Holder
given zero = nothing
given (suc fp) = holds (suc fp)

abbrev pub after : ℕ → Bool → Holder
after fp last = if last then releasing fp else nothing

abbrev pub at : ℕ → Holder → FooTable → System → System
at r x t s = record { table = t; held = update s.held r x }

-- There are up to `n` references at a time.
pub data Step (n : ℕ) (s : System) : System → Type 0 where
  -- malloc gives NULL, or memory that is free.
  allocs :
      (r fp : ℕ) (init_fails : Bool) (id : ℤ)
      → r < n
      → s.held r ≡ nothing
      → s.table.heap fp ≡ none
      → Step n s (
          at r
            (given (foo_alloc fp init_fails id s.table).0)
            (foo_alloc fp init_fails id s.table).1
            s)
  finds :
      (fuel r : ℕ) (id : ℤ) {fp : ℕ} {t : FooTable}
      → r < n
      → s.held r ≡ nothing
      → foo_find fuel id s.table ≡ some (fp, t)
      → Step n s (at r (given fp) t s)
  shares :
      (r q fp : ℕ) {t : FooTable}
      → r < n
      → q < n
      → s.held r ≡ holds fp
      → s.held q ≡ nothing
      → foo_hold fp s.table ≡ some t
      → Step n s (at q (holds fp) t s)
  releases :
      (r fp : ℕ) {last : Bool} {t : FooTable}
      → r < n
      → s.held r ≡ holds fp
      → rele_first fp s.table ≡ some (last, t)
      → Step n s (at r (after fp last) t s)
  removes :
      (fuel r fp : ℕ) {t : FooTable}
      → r < n
      → s.held r ≡ releasing fp
      → rele_last fuel fp s.table ≡ some t
      → Step n s (at r nothing t s)

pub data Steps (n : ℕ) (s : System) : System → Type 0 where
  here : Steps n s s
  next : {t u : System} → Steps n s t → Step n t u → Steps n s u

-- No object is allocated, and no thread has a reference.
abbrev pub start : System
start = record { table = record { heap = λ a. none; fh = λ i. 0 }; held = λ r. nothing }
