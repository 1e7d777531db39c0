-- ===== src/Threads/Wait/Progress.antt =====
-- What the threads get, in any order of their steps.
use apue.Prelude.{
  ℕ, ◌+◌, ◌≡◌, ◌≢◌, refl, ap, subst, ◌⊎◌, inl, inr, Bool, true, some, arith, length, update,
  update_self,
}
use apue.Dll.Seg.{Cells}
use apue.Printer.Jobs.{Jobs}
use apue.Printer.Jobs.Queue.{IsQueue}
use apue.Threads.Find.{find, job_find-find}
use apue.Threads.Wait.{Task, Shared, woken, broadcast, finish, find_pass, Steps, start}
use apue.Threads.Wait.Status.{ready, waiting, done, holding}
use apue.Threads.Wait.Step.{broadcasts, finds}
use apue.Threads.Wait.Steps.{here, next}
use apue.Threads.Wait.Member.{Has, NoneFor, Has-NoneFor, find_cases, IsQueue-unique}
use apue.Threads.Wait.Safety.{eq_not, Fine, Inv, broadcast-Inv, finish-Inv, Steps-Inv}

-- How a thread takes a job: by a pass over the queue, if it is ready, and else by the pass after a
-- broadcast, which is due.
abbrev pub Taken : (ℕ → ℕ → Bool) → ℕ → ℕ → Shared → Shared → Type 0
Taken pthread_equal t fuel s u =
    ((s.status t ≡ ready) × (find_pass pthread_equal fuel t s ≡ some u))
    ⊎ ((s.status t ≡ waiting)
        × (s.due ≢ 0)
        × (find_pass pthread_equal fuel t (broadcast s) ≡ some u))

module _ (pthread_equal : ℕ → ℕ → Bool)
    (only : (a t u : ℕ) → pthread_equal a t ≡ true → pthread_equal a u ≡ true → t ≡ u)
    (qp : Jobs Task) where
  -- No wake-up is lost: after queue_init and any sequence of steps, when no broadcast is due, a
  -- thread that waits in job_find has no job in the queue. No two threads are pthread_equal to one
  -- id.
  pub wait-NoneFor :
      (t : ℕ) (s : Shared)
      → Steps pthread_equal (start qp) s
      → s.status t ≡ waiting
      → s.due ≡ 0
      → (xs : Cells Task) × IsQueue s.queue xs × NoneFor pthread_equal (λ x. x.j_id) t xs
  wait-NoneFor t s r st due =
      let (xs, w) = Steps-Inv pthread_equal only qp r in
      elim (subst (Fine pthread_equal xs s.due t) st (w.threads t)) [
        | inl gone ↦ (xs, w.queue, gone)
        | inr more ↦ absurd (more due)
      ]

  -- After queue_init and any sequence of steps, a worker that job_find gave a job can take it out
  -- of the queue and free it: job_remove follows no NULL and no dangling pointer. No two threads
  -- are pthread_equal to one id.
  pub finish-done :
      (t jp : ℕ) (s : Shared)
      → Steps pthread_equal (start qp) s
      → s.status t ≡ holding jp
      → (s' : Shared) × (finish t jp s ≡ some s') × (s'.status t ≡ done)
  finish-done t jp s r st =
      let (xs, w) = Steps-Inv pthread_equal only qp r in
      let (s', zs, e, d, v) = finish-Inv pthread_equal only t jp s xs w st in (s', e, d)

  -- A waiting thread with a job in the queue.
  must :
      (t a : ℕ) (x : Task) (s : Shared) (xs : Cells Task)
      → Inv pthread_equal s xs
      → Has a x xs
      → pthread_equal x.j_id t ≡ true
      → s.status t ≡ waiting
      → s.due ≢ 0
  must t a x s xs w m e st = elim (subst (Fine pthread_equal xs s.due t) st (w.threads t)) [
    | inl gone ↦
        let no = Has-NoneFor pthread_equal (λ x. x.j_id) t a x xs m gone in absurd (grind arith)
    | inr due ↦ due
  ]

  -- A ready thread with a job in the queue.
  takes :
      (t a : ℕ) (x : Task) (s : Shared) (xs : Cells Task)
      → Inv pthread_equal s xs
      → Has a x xs
      → pthread_equal x.j_id t ≡ true
      → (jp : ℕ) × (s' : Shared) × (find_pass pthread_equal (length xs + 1) t s ≡ some s')
        × (s'.status t ≡ holding jp)
  unfolding find_pass
  takes t a x s xs w m e =
      let found =
        job_find-find pthread_equal (λ x. x.j_id) (length xs + 1) t s.queue xs w.queue
          (omega arith) in
      elim (find_cases pthread_equal (λ x. x.j_id) t s.queue.heap 0 xs 0 w.queue.chain) [
        | inl (z, gone) ↦
            let no = Has-NoneFor pthread_equal (λ x. x.j_id) t a x xs m gone in absurd (grind arith)
        | inr there ↦
            let jp = find pthread_equal (λ y. y.j_id) t xs in
            (
              jp,
              record s { status = update s.status t (holding jp) },
              rw (found, eq_not jp 0 there.0) refl,
              update_self s.status t (holding jp),
            )
      ]

  -- After queue_init and any sequence of steps of main and the workers, a thread that is on its
  -- way to job_find or waits in it, and whose job is in the queue, can get on: if it is ready, its
  -- next pass over the queue gives it a job; if it waits, a broadcast is due, and its pass over
  -- the queue after that broadcast gives it a job; these are steps of the program. No two threads
  -- are pthread_equal to one id.
  pub Steps-holding :
      (t a : ℕ) (x : Task) (s : Shared) (xs : Cells Task)
      → Steps pthread_equal (start qp) s
      → IsQueue s.queue xs
      → Has a x xs
      → pthread_equal x.j_id t ≡ true
      → (s.status t ≡ ready) ⊎ (s.status t ≡ waiting)
      → (jp : ℕ) × (u : Shared) × (fuel : ℕ) × Taken pthread_equal t fuel s u
        × Steps pthread_equal s u
        × (u.status t ≡ holding jp)
  unfolding broadcast
  Steps-holding t a x s xs r q m e st =
      let (ys, v) = Steps-Inv pthread_equal only qp r in
      let w = subst (Inv pthread_equal s) (IsQueue-unique s.queue ys xs v.queue q) v in
      elim st [
        | inl is_ready ↦
            let (jp, u, f, h) = takes t a x s xs w m e in
            (
              jp,
              u,
              length xs + 1,
              inl (is_ready, f),
              next here (finds (length xs + 1) t is_ready f),
              h,
            )
        | inr is_waiting ↦
            let due : s.due ≢ 0 = must t a x s xs w m e is_waiting in
            let (jp, u, f, h) =
              takes t a x (broadcast s) xs (broadcast-Inv pthread_equal s xs w) m e in
            (
              jp,
              u,
              length xs + 1,
              inr (is_waiting, due, f),
              next (next here (broadcasts due)) (finds (length xs + 1) t (ap woken is_waiting) f),
              h,
            )
      ]
