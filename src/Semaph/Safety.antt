-- ===== src/Semaph/Safety.antt =====
-- What holds after any sequence of steps of the processes.
use apue.Prelude.{
  ℕ, ◌+◌, ◌-◌, ◌<◌, ◌≡◌, ◌≢◌, refl, subst, ◌⊎◌, inl, inr, true, false, none, some, arith, ◌==◌, ltb,
  ℕ_discrete,
}
use apue.Prelude.Int.{ℤ}
use apue.Semaph.{bigcount, Point, close_resume}
use apue.Semaph.Call.{getval}
use apue.Semaph.Reply.{ok}
use apue.Semaph.Point.{setting_value, counting, unlocking, removing}
use apue.Semaph.Kernel.{SemSet, SemCalls}
use apue.Prelude.Totals.{total, le-total, le_two-total}
use apue.Semaph.Invariant.{locks, uses, At, After, Held, Inv}
use apue.Semaph.Invariant.Inv.{no_set, set_at}
use apue.Semaph.Preserve.{Held-of}
use apue.Semaph.Counter.{counted-Late, ended_values}
use apue.Semaph.Good.{Steps-Good}
use apue.Semaph.Run.{System, Steps, start}

module _ (n : ℕ) (v : SemSet) (at : ℕ → Point) where
  -- A process that has the lock, or the semaphore open, is on the set that is there.
  present :
      (p : ℕ)
      → p < n
      → Inv n v at
      → locks (at p) + uses (at p) ≢ 0
      → (k : ℕ) × (v.id_of ≡ some k) × Held n k v at
  present p lt (no_set e h) ne = let (l, u) = h p lt in absurd (omega arith)
  present p lt (set_at k e h) ne = (k, e, h)

-- What sem_close does with the counter when `t` processes have the semaphore open.
at_count :
    (id a t : ℕ)
    → a + t ≡ bigcount
    → ((t ≡ 0) × (close_resume (counting id) (ok a) ≡ some (removing id)))
      ⊎ ((t ≢ 0) × (close_resume (counting id) (ok a) ≡ some (unlocking id)))
unfolding close_resume
at_count id a t e = elim (ℕ_discrete t 0) [
  | yes z ↦
      let over : ltb bigcount a ≡ false = ground arith in
      let full : (a == bigcount) ≡ true = ground arith in inl (z, rw (over, full) refl)
  | no nz ↦
      let over : ltb bigcount a ≡ false = ground arith in
      let full : (a == bigcount) ≡ false = ground arith in inr (nz, rw (over, full) refl)
]

module _ {key : ℤ} (os : SemCalls key) (ipc_private : ℤ) (n : ℕ) (few : n < bigcount) where
  open os use {World, set_of, syscall, finish}

  module _ (w : World) (none_yet : (set_of w).id_of ≡ none) {s : System os}
      (run : Steps os ipc_private false n (start os w) s) where
    inv_of : Inv n (set_of s.world) s.point
    inv_of = (Steps-Good os ipc_private n few w none_yet run).inv

    -- Fewer than BIGCOUNT processes, which start with no set for the key, call sem_create, sem_op
    -- and sem_close and may end at any time. After any sequence of their steps, if a process has
    -- the semaphore open, wherever it stands, between the calls, in sem_op or at the semop of
    -- sem_close, its set was not removed, and member 1 is BIGCOUNT less the number of processes
    -- that have it open.
    pub Steps-inside :
        (p : ℕ)
        → p < n
        → uses (s.point p) ≡ 1
        → (id : ℕ) × At id (s.point p)
          × ((set_of s.world).id_of ≡ some id)
          × ((set_of s.world).val 1 + total uses s.point n ≡ bigcount)
    Steps-inside p lt has =
        let (k, is, h) = present n (set_of s.world) s.point p lt inv_of (omega arith) in
        let le = le-total uses s.point n p lt in
        (
          k,
          h.ids p lt,
          is,
          elim h.phase [
            | inl early ↦ let none_in = early.no_uses in absurd (omega arith)
            | inr late ↦ late.counter
          ],
        )

    -- Fewer than BIGCOUNT processes, which start with no set for the key, call sem_create, sem_op
    -- and sem_close and may end at any time. After any sequence of their steps, when a process
    -- stands between the lock and its release, in sem_create or in sem_close, no other process
    -- does.
    pub Steps-locks :
        (p q : ℕ) → p < n → q < n → q ≢ p → locks (s.point p) ≡ 1 → locks (s.point q) ≡ 0
    Steps-locks p q lt l ne mine =
        let (k, is, h) = present n (set_of s.world) s.point p lt inv_of (omega arith) in
        let one = h.one in
        let held = h.lock in let two = le_two-total locks s.point n p q lt l ne in omega arith

    -- Fewer than BIGCOUNT processes, which start with no set for the key, call sem_create, sem_op
    -- and sem_close and may end at any time. After any sequence of their steps, sem_close that
    -- counted itself out and reads the counter goes on to remove the set if no process has the
    -- semaphore open any more, and to unlock it otherwise; it never ends with "sem[1] > BIGCOUNT".
    pub close_resume-total :
        (p id a : ℕ) {u : World}
        → p < n
        → s.point p ≡ counting id
        → syscall p (getval id 1) s.world ≡ some (ok a, u)
        → ((total uses s.point n ≡ 0) × (close_resume (counting id) (ok a) ≡ some (removing id)))
          ⊎ ((total uses s.point n ≢ 0) × (close_resume (counting id) (ok a) ≡ some (unlocking id)))
    unfolding close_resume
    close_resume-total p id a lt e done =
        let (is, va, same) = os.getval_ok p id 1 s.world done in
        let h = Held-of n (set_of s.world) s.point id inv_of is in
        let late = counted-Late n (set_of s.world) s.point p lt id h e in
        let counter = late.counter in at_count id a (total uses s.point n) (rw va counter)

    -- Fewer than BIGCOUNT processes, which start with no set for the key, call sem_create, sem_op
    -- and sem_close and may end at any time. After any sequence of their steps, sem_create is
    -- about to set the value of the semaphore only when no process has the semaphore open.
    pub setting_value-total :
        (p id : ℕ) (initval : ℤ)
        → p < n
        → s.point p ≡ setting_value initval id
        → total uses s.point n ≡ 0
    setting_value-total p id initval lt e =
        let has : locks (s.point p) ≡ 1 = rw e in
        let (k, is, h) = present n (set_of s.world) s.point p lt inv_of (omega arith) in
        elim h.phase [
          | inl early ↦ early.no_uses
          | inr late ↦ absurd (subst (After (total uses s.point n)) e (late.after p lt))
        ]

    -- Fewer than BIGCOUNT processes, which start with no set for the key, call sem_create, sem_op
    -- and sem_close and may end at any time. After any sequence of their steps, when a process
    -- ends, wherever it stands, the counter grows by one if it had the semaphore open, and the
    -- lock is released if it held it.
    pub finish-uses :
        (p id : ℕ)
        → p < n
        → (set_of s.world).id_of ≡ some id
        → ((set_of (finish p s.world)).val 1 ≡ (set_of s.world).val 1 + uses (s.point p))
          × ((set_of (finish p s.world)).val 2 ≡ (set_of s.world).val 2 - locks (s.point p))
    finish-uses p id lt is =
        let h = Held-of n (set_of s.world) s.point id inv_of is in
        let (v2, v1) =
          ended_values n (set_of s.world) s.point p lt id h (set_of (finish p s.world))
            (λ m a. os.finish_val p m a s.world) in
        (v1, v2)
