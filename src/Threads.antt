-- ===== src/Threads.antt =====
-- The job queue that the threads of a program share, threads/rwlock.c. Each function is what it does
-- while it holds the lock; `A` is what a `struct job` holds beside its links, with j_id in it.
pub mod Same
pub mod Remove
pub mod Find
pub mod Wait
pub mod Tests
use apue.Prelude.{ℕ, zero, suc, Bool, Option, none, some, ◌==◌, if◌then◌else◌}
use apue.Prelude.Int.{ℤ, pos, negsuc}
use apue.Dll.{Node, Heap, load, set_next, set_prev, ◌>>=◌}
use apue.Printer.Jobs.{Jobs}

module _ {A : Type 0} where
  -- queue_init, given what pthread_rwlock_init returns: what it returns, and the queue.
  unfoldable pub queue_init : ℤ → Jobs A → ℤ × Jobs A
  queue_init err qp = (err, record qp { head = 0; tail = 0 })

  -- job_insert
  unfoldable pub job_insert : ℕ → Jobs A → Option (Jobs A)
  job_insert jp qp = do
    h ← set_next jp qp.head qp.heap
    h ← set_prev jp 0 h
    if qp.head == 0
        then some (record { heap = h; head = jp; tail = jp })
        else (do h ← set_prev qp.head jp h; some (record { heap = h; head = jp; tail = qp.tail }))

  -- job_append
  unfoldable pub job_append : ℕ → Jobs A → Option (Jobs A)
  job_append jp qp = do
    h ← set_next jp 0 qp.heap
    h ← set_prev jp qp.tail h
    if qp.tail == 0
        then some (record { heap = h; head = jp; tail = jp })
        else (do h ← set_next qp.tail jp h; some (record { heap = h; head = qp.head; tail = jp }))

  -- job_remove at the head, `qp->q_head = jp->j_next` done.
  unfoldable pub remove_head : ℕ → Node A → Jobs A → Option (Jobs A)
  remove_head jp n qp =
      if qp.tail == jp
      then some (record qp { tail = 0 })
      else (do h ← set_prev n.next n.prev qp.heap; some (record qp { heap = h }))

  -- job_remove between two jobs.
  unfoldable pub remove_middle : ℕ → Jobs A → Option (Jobs A)
  remove_middle jp qp = do
    n ← load qp.heap jp
    h ← set_next n.prev n.next qp.heap
    n ← load h jp
    h ← set_prev n.next n.prev h
    some (record qp { heap = h })

  -- job_remove
  unfoldable pub job_remove : ℕ → Jobs A → Option (Jobs A)
  unfolding remove_head remove_middle
  job_remove jp qp =
      if jp == qp.head
      then (do n ← load qp.heap jp; remove_head jp n (record qp { head = n.next }))
      else if jp == qp.tail
      then (do
        n ← load qp.heap jp
        h ← set_next n.prev n.next qp.heap
        some (record qp { heap = h; tail = n.prev }))
      else remove_middle jp qp

-- A thread id is a number. What pthread_equal answers is a parameter.
module _ {A : Type 0} (pthread_equal : ℕ → ℕ → Bool) (j_id : A → ℕ) where
  -- The loop of job_find, from `jp`: the job, or NULL; none without fuel, or at a dangling pointer.
  unfoldable pub find_from : ℕ → ℕ → ℕ → Heap A → Option ℕ
  find_from zero id jp h = none
  find_from (suc fuel) id jp h = if jp == 0 then some 0 else (do
    n ← load h jp
    let rest = find_from fuel id n.next h
    if pthread_equal (j_id n.item) id then some jp else rest)

  -- job_find, given what pthread_rwlock_rdlock returns.
  unfoldable pub job_find : ℤ → ℕ → ℕ → Jobs A → Option ℕ
  unfolding find_from
  job_find (pos zero) fuel id qp = find_from fuel id qp.head qp.heap
  job_find (pos (suc n)) fuel id qp = some 0
  job_find (negsuc n) fuel id qp = some 0
