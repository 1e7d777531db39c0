-- ===== src/Semaph/Idle.antt =====
-- Processes with neither the lock of semaph.c nor a semaphore open, and a set that is new.
use apue.Prelude.{ℕ, ◌≡◌, sym, ap, ◌∙◌, inl, inr, update_cases, arith, update}
use apue.Prelude.Int.{pos}
use apue.Semaph.{Point}
use apue.Semaph.Point.{
  outside, again, locking, looking, opening, operating, reading, setting_value, setting_count,
  ending, inside, closing, counting, unlocking, removing, gone,
}
use apue.Semaph.Kernel.{SemSet}
use apue.Prelude.Totals.{total-none}
use apue.Semaph.Invariant.{locks, uses, At, Before, owed, Held, Nobody}

-- Where a process stands with neither the lock nor the semaphore.
free_fits : (k : ℕ) (x : Point) → locks x ≡ 0 → uses x ≡ 0 → At k x × Before x
free_fits k outside l u = (tt, tt)
free_fits k (again key initval) l u = (tt, tt)
free_fits k (locking key initval id) l u = (tt, tt)
free_fits k (reading initval id) l u = absurd (omega arith)
free_fits k (setting_value initval id) l u = absurd (omega arith)
free_fits k (setting_count id) l u = absurd (omega arith)
free_fits k (ending id) l u = absurd (omega arith)
free_fits k (looking key) l u = (tt, tt)
free_fits k (opening id) l u = (tt, tt)
free_fits k (inside id) l u = absurd (omega arith)
free_fits k (operating id value) l u = absurd (omega arith)
free_fits k (closing id) l u = absurd (omega arith)
free_fits k (counting id) l u = absurd (omega arith)
free_fits k (unlocking id) l u = absurd (omega arith)
free_fits k (removing id) l u = absurd (omega arith)
free_fits k gone l u = (tt, tt)

-- A new set.
pub new-Held :
    (n k : ℕ) (v : SemSet) (at : ℕ → Point)
    → Nobody n at
    → ((m : ℕ) → v.val m ≡ 0)
    → ((q m : ℕ) → v.adjust q m ≡ pos 0)
    → Held n k v at
new-Held n k v at nobody zeros free =
    let locks0 = total-none locks at n (λ p l. (nobody p l).0) in
    record {
      ids = λ p l. (free_fits k (at p) (nobody p l).0 (nobody p l).1).0;
      lock = zeros 2 ∙ sym locks0;
      one = rw (zeros 2) (omega arith);
      own_lock = λ p l. free p 2 ∙ ap owed (sym (nobody p l).0);
      own_use = λ p l. free p 1 ∙ ap pos (sym (nobody p l).1);
      phase = inl (record {
        unset = zeros 1;
        no_uses = total-none uses at n (λ p l. (nobody p l).1);
        before = λ p l. (free_fits k (at p) (nobody p l).0 (nobody p l).1).1;
      });
    }

pub Nobody-move :
    (n : ℕ) (at : ℕ → Point) (p : ℕ) (x : Point)
    → Nobody n at
    → locks x ≡ 0
    → uses x ≡ 0
    → Nobody n (update at p x)
Nobody-move n at p x h l u q m = elim (update_cases at p x q) [
  | inl (e, v) ↦ rw v (l, u)
  | inr (ne, v) ↦ rw v (h q m)
]
