-- ===== src/Dll.antt =====
-- Doubly linked lists on a heap, as printd.c, rwlock.c and their kin build them by hand: nodes with
-- `next` and `prev` pointers at addresses.
pub mod Seg
pub mod Split
use apue.Prelude.{ℕ, Option, none, some, ◌==◌, if◌then◌else◌}

pub record Node (A : Type 0) : Type 0 where
  pub next : ℕ
  pub prev : ℕ
  pub item : A

-- The allocated nodes. No node stands at NULL, which is 0.
abbrev pub Heap : Type 0 → Type 0
Heap A = ℕ → Option (Node A)

module _ {A : Type 0} where
  unfoldable pub write : Heap A → ℕ → Node A → Heap A
  write h a n b = if b == a then some n else h b

  -- `*p`: none at NULL and where nothing is allocated, which C leaves undefined.
  abbrev pub load : Heap A → ℕ → Option (Node A)
  load h p = if p == 0 then none else h p

  -- p->next = q
  unfoldable pub set_next : ℕ → ℕ → Heap A → Option (Heap A)
  set_next p q h = elim (load h p) [
    | none ↦ none
    | some n ↦ some (write h p (record n { next = q }))
  ]

  -- p->prev = q
  unfoldable pub set_prev : ℕ → ℕ → Heap A → Option (Heap A)
  set_prev p q h = elim (load h p) [
    | none ↦ none
    | some n ↦ some (write h p (record n { prev = q }))
  ]

infixl 5 ◌>>=◌
abbrev pub ◌>>=◌ : {A B : Type 0} → Option A → (A → Option B) → Option B
none >>= f = none
some a >>= f = f a
