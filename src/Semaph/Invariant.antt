-- ===== src/Semaph/Invariant.antt =====
-- What is so of a set and of the processes that use it, and how one process's move keeps it.
use apue.Prelude.{
  ℕ, zero, suc, ◌+◌, ◌<◌, ◌≤◌, ◌≡◌, ◌≢◌, sym, subst, ◌∙◌, ◌⊎◌, inl, inr, none, some, arith, update,
  update_cases,
}
use apue.Prelude.Int.{ℤ, pos, negsuc}
use apue.Semaph.{bigcount, Point}
use apue.Semaph.Point.{
  outside, again, locking, reading, setting_value, setting_count, ending, looking, opening, inside,
  operating, closing, counting, unlocking, removing, gone,
}
use apue.Semaph.Kernel.{SemSet}
use apue.Prelude.Totals.{total, le_two-total, total-update}

-- Between the lock and its release.
abbrev pub locks : Point → ℕ
locks (reading initval id) = 1
locks (setting_value initval id) = 1
locks (setting_count id) = 1
locks (ending id) = 1
locks (counting id) = 1
locks (unlocking id) = 1
locks (removing id) = 1
locks p = 0

-- With the semaphore open: counted in member 1.
abbrev pub uses : Point → ℕ
uses (inside id) = 1
uses (operating id value) = 1
uses (closing id) = 1
uses p = 0

-- A process with the lock or with the semaphore open has the set's identifier.
abbrev pub At : ℕ → Point → Type 0
At k (reading initval id) = id ≡ k
At k (setting_value initval id) = id ≡ k
At k (setting_count id) = id ≡ k
At k (ending id) = id ≡ k
At k (inside id) = id ≡ k
At k (operating id value) = id ≡ k
At k (closing id) = id ≡ k
At k (counting id) = id ≡ k
At k (unlocking id) = id ≡ k
At k (removing id) = id ≡ k
At k p = Unit

-- Where no process stands before member 1 was set, and where none stands afterwards, when `t`
-- processes have the semaphore open.
abbrev pub Before : Point → Type 0
Before (ending id) = ⊥
Before (counting id) = ⊥
Before (unlocking id) = ⊥
Before (removing id) = ⊥
Before p = Unit

abbrev pub After : ℕ → Point → Type 0
After t (setting_value initval id) = ⊥
After t (setting_count id) = ⊥
After t (removing id) = t ≡ 0
After t p = Unit

-- Every call has the one key, and nobody calls sem_open.
abbrev pub Keyed : ℤ → Point → Type 0
Keyed key (again k initval) = k ≡ key
Keyed key (locking k initval id) = k ≡ key
Keyed key (looking k) = ⊥
Keyed key (opening id) = ⊥
Keyed key p = Unit

abbrev pub owed : ℕ → ℤ
owed zero = pos 0
owed (suc k) = negsuc k

pub After-unlocked : (t : ℕ) (x : Point) → locks x ≡ 0 → After t x
After-unlocked t outside e = tt
After-unlocked t (again key initval) e = tt
After-unlocked t (locking key initval id) e = tt
After-unlocked t (reading initval id) e = tt
After-unlocked t (setting_value initval id) e = absurd (omega arith)
After-unlocked t (setting_count id) e = absurd (omega arith)
After-unlocked t (ending id) e = tt
After-unlocked t (looking key) e = tt
After-unlocked t (opening id) e = tt
After-unlocked t (inside id) e = tt
After-unlocked t (operating id value) e = tt
After-unlocked t (closing id) e = tt
After-unlocked t (counting id) e = tt
After-unlocked t (unlocking id) e = tt
After-unlocked t (removing id) e = absurd (omega arith)
After-unlocked t gone e = tt

pub After_mono : (t u : ℕ) (x : Point) → u ≤ t → After t x → After u x
After_mono t u (setting_value initval id) le a = a
After_mono t u (setting_count id) le a = a
After_mono t u (removing id) le a = omega arith
After_mono t u outside le a = tt
After_mono t u (again key initval) le a = tt
After_mono t u (locking key initval id) le a = tt
After_mono t u (reading initval id) le a = tt
After_mono t u (ending id) le a = tt
After_mono t u (looking key) le a = tt
After_mono t u (opening id) le a = tt
After_mono t u (inside id) le a = tt
After_mono t u (operating id value) le a = tt
After_mono t u (closing id) le a = tt
After_mono t u (counting id) le a = tt
After_mono t u (unlocking id) le a = tt
After_mono t u gone le a = tt

pub uses_le : (x : Point) → uses x ≤ 1
uses_le outside = omega arith
uses_le (again key initval) = omega arith
uses_le (locking key initval id) = omega arith
uses_le (reading initval id) = omega arith
uses_le (setting_value initval id) = omega arith
uses_le (setting_count id) = omega arith
uses_le (ending id) = omega arith
uses_le (looking key) = omega arith
uses_le (opening id) = omega arith
uses_le (inside id) = omega arith
uses_le (operating id value) = omega arith
uses_le (closing id) = omega arith
uses_le (counting id) = omega arith
uses_le (unlocking id) = omega arith
uses_le (removing id) = omega arith
uses_le gone = omega arith

module _ (n : ℕ) where
  -- Nobody has the lock or has the semaphore open.
  abbrev pub Nobody : (ℕ → Point) → Type 0
  Nobody at = (p : ℕ) → p < n → (locks (at p) ≡ 0) × (uses (at p) ≡ 0)

  -- Member 1 was not set yet, or it is bigcount less the processes with the semaphore open.
  pub record Early (v : SemSet) (at : ℕ → Point) : Type 0 where
    pub unset : v.val 1 ≡ 0
    pub no_uses : total uses at n ≡ 0
    pub before : (p : ℕ) → p < n → Before (at p)

  pub record Late (v : SemSet) (at : ℕ → Point) : Type 0 where
    pub counter : v.val 1 + total uses at n ≡ bigcount
    pub after : (p : ℕ) → p < n → After (total uses at n) (at p)

  -- `k` is the identifier of the set.
  pub record Held (k : ℕ) (v : SemSet) (at : ℕ → Point) : Type 0 where
    pub ids : (p : ℕ) → p < n → At k (at p)
    pub lock : v.val 2 ≡ total locks at n
    pub one : v.val 2 ≤ 1
    pub own_lock : (p : ℕ) → p < n → v.adjust p 2 ≡ owed (locks (at p))
    pub own_use : (p : ℕ) → p < n → v.adjust p 1 ≡ pos (uses (at p))
    pub phase : Early v at ⊎ Late v at

  pub data Inv (v : SemSet) (at : ℕ → Point) : Type 0 where
    no_set : v.id_of ≡ none → Nobody at → Inv v at
    set_at : (k : ℕ) → v.id_of ≡ some k → Held k v at → Inv v at

  module _ (v w : SemSet) (at : ℕ → Point) (p : ℕ) (x : Point) (lt : p < n) where
    abbrev at' : ℕ → Point
    at' = update at p x

    pub Held-move :
        (k : ℕ)
        → Held k v at
        → At k x
        → w.val 2 + locks (at p) ≡ v.val 2 + locks x
        → w.val 2 ≤ 1
        → (w.adjust p 2 ≡ owed (locks x)) × (w.adjust p 1 ≡ pos (uses x))
        → ((q : ℕ) → q < n → q ≢ p → (w.adjust q 2 ≡ v.adjust q 2) × (w.adjust q 1 ≡ v.adjust q 1))
        → Early w at' ⊎ Late w at'
        → Held k w at'
    Held-move k h ax lock one own others phase = record {
      ids = λ q l. elim (update_cases at p x q) [
        | inl (e, v) ↦ rw v ax
        | inr (ne, v) ↦ rw v (h.ids q l)
      ];
      lock = let held = h.lock in let moved = total-update locks at n p x lt in omega arith;
      one = one;
      own_lock = λ q l. elim (update_cases at p x q) [
        | inl (e, v) ↦ rw (v, e) own.0
        | inr (ne, v) ↦ rw v ((others q l ne).0 ∙ h.own_lock q l)
      ];
      own_use = λ q l. elim (update_cases at p x q) [
        | inl (e, v) ↦ rw (v, e) own.1
        | inr (ne, v) ↦ rw v ((others q l ne).1 ∙ h.own_use q l)
      ];
      phase = phase;
    }

    pub Early-move : Early v at → w.val 1 ≡ 0 → uses x ≡ 0 → Before x → Early w at'
    Early-move h unset none_in bx = record {
      unset = unset;
      no_uses = let moved = total-update uses at n p x lt in let old = h.no_uses in omega arith;
      before = λ q l. elim (update_cases at p x q) [
        | inl (e, v) ↦ rw v bx
        | inr (ne, v) ↦ rw v (h.before q l)
      ];
    }

    pub Late-move :
        Late v at
        → w.val 1 + uses x ≡ v.val 1 + uses (at p)
        → After (total uses at' n) x
        → ((q : ℕ) → q < n → q ≢ p → After (total uses at' n) (at q))
        → Late w at'
    Late-move h counter ax others = record {
      counter = let moved = total-update uses at n p x lt in let old = h.counter in omega arith;
      after = λ q l. elim (update_cases at p x q) [
        | inl (e, v) ↦ subst (After (total uses at' n)) (sym v) ax
        | inr (ne, v) ↦ subst (After (total uses at' n)) (sym v) (others q l ne)
      ];
    }

    -- The others' places still fit when there are no more users.
    pub after_fewer :
        uses x ≤ uses (at p) → Late v at → (q : ℕ) → q < n → After (total uses at' n) (at q)
    after_fewer le h q l =
        let moved = total-update uses at n p x lt in
        After_mono (total uses at n) (total uses at' n) (at q) (omega arith) (h.after q l)

    -- They also fit while this process has the lock.
    pub after_locked :
        (k : ℕ)
        → Held k v at
        → locks (at p) ≡ 1
        → (q : ℕ) → q < n
        → q ≢ p
        → After (total uses at' n) (at q)
    after_locked k h mine q l ne =
        let two = le_two-total locks at n p q lt l ne in
        let held = h.lock in
        let one = h.one in After-unlocked (total uses at' n) (at q) (omega arith)

    -- Member 1 is set by the process that has the lock.
    pub Late-first :
        (k : ℕ)
        → Held k v at
        → Early v at
        → locks (at p) ≡ 1
        → w.val 1 ≡ bigcount
        → uses x ≡ 0
        → ((t : ℕ) → After t x)
        → Late w at'
    Late-first k h early mine counter none_in ax = record {
      counter = let moved = total-update uses at n p x lt in let old = early.no_uses in omega arith;
      after = λ q l. elim (update_cases at p x q) [
        | inl (e, v) ↦ subst (After (total uses at' n)) (sym v) (ax (total uses at' n))
        | inr (ne, v) ↦ subst (After (total uses at' n)) (sym v) (after_locked k h mine q l ne)
      ];
    }
