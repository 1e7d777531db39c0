-- ===== src/Threads/Wait.antt =====
-- Chapter11/exercise_3.c: main schedules jobs, and worker threads wait for theirs on q_empty_cond. The
-- list is written as in rwlock.c. What a thread does while it holds q_lock is one step, and so is each
-- broadcast, which comes after the lock is released.
pub mod Member
pub mod Safety
pub mod Progress
use apue.Prelude.{
  ℕ, zero, suc, ◌+◌, ◌-◌, ◌≡◌, ◌≢◌, Bool, Option, none, some, ◌==◌, if◌then◌else◌, update,
}
use apue.Prelude.Int.{ℤ, pos, negsuc}
use apue.Dll.{Node, Heap, write, ◌>>=◌}
use apue.Dll.Seg.{node}
use apue.Printer.Jobs.{Jobs}
use apue.Threads.{job_insert, job_append, job_remove, job_find}

-- `struct job` without its links.
pub record Task : Type 0 where
  pub j_id : ℕ
  pub value : ℤ

-- Where a worker thread stands: it is to take the lock in job_find, it is in pthread_cond_wait,
-- job_find gave it a job, or it has freed its job.
pub data Status : Type 0 where
  ready waiting done : Status
  holding : ℕ → Status

-- The queue, the worker threads, and how many broadcasts are due.
pub record Shared : Type 0 where
  pub queue : Jobs Task
  pub status : ℕ → Status
  pub due : ℕ

-- queue_init, given what pthread_mutex_init and pthread_cond_init return.
unfoldable pub queue_init : ℤ → ℤ → Jobs Task → ℤ × Jobs Task
queue_init (pos zero) cond_err qp = (cond_err, record qp { head = 0; tail = 0 })
queue_init (pos (suc n)) cond_err qp = (pos (suc n), record qp { head = 0; tail = 0 })
queue_init (negsuc n) cond_err qp = (negsuc n, record qp { head = 0; tail = 0 })

-- What malloc gave at `jp`, with garbage for its links, and j_id and value set.
abbrev pub malloced : ℕ → ℕ → ℕ → Task → Jobs Task → Jobs Task
malloced jp n p x qp = record qp { heap = write qp.heap jp (node n p x) }

abbrev linked : Shared → Option (Jobs Task) → Option Shared
linked s o = do q ← o; some (record s { queue = q; due = s.due + 1 })

-- job_insert and job_append; the broadcast that ends them is due.
unfoldable pub job_insert_due : ℕ → Shared → Option Shared
job_insert_due jp s = linked s (job_insert jp s.queue)

unfoldable pub job_append_due : ℕ → Shared → Option Shared
job_append_due jp s = linked s (job_append jp s.queue)

-- main schedules a job with job_insert, or with job_append.
unfoldable pub schedule_insert : ℕ → ℕ → ℕ → Task → Shared → Option Shared
schedule_insert jp n p x s = job_insert_due jp (record s { queue = malloced jp n p x s.queue })

unfoldable pub schedule_append : ℕ → ℕ → ℕ → Task → Shared → Option Shared
schedule_append jp n p x s = job_append_due jp (record s { queue = malloced jp n p x s.queue })

abbrev woken : Status → Status
woken ready = ready
woken waiting = ready
woken done = done
woken (holding jp) = holding jp

-- pthread_cond_broadcast
unfoldable pub broadcast : Shared → Shared
broadcast s = record s { status = λ t. woken (s.status t); due = s.due - 1 }

-- free(j)
abbrev pub freed : ℕ → Heap Task → Heap Task
freed jp h a = if a == jp then none else h a

-- worker_thread behind job_find: job_remove and free.
unfoldable pub finish : ℕ → ℕ → Shared → Option Shared
finish t jp s = do
  q ← job_remove jp s.queue
  some (record s { queue = record q { heap = freed jp q.heap }; status = update s.status t done })

module _ (pthread_equal : ℕ → ℕ → Bool) where
  -- One pass of job_find's outer loop in thread `t`, up to its return or into pthread_cond_wait.
  unfoldable pub find_pass : ℕ → ℕ → Shared → Option Shared
  find_pass fuel t s = do
    jp ← job_find pthread_equal (λ x. x.j_id) (pos 0) fuel t s.queue
    some (record s { status = update s.status t (if jp == 0 then waiting else holding jp) })

  -- What may happen next.
  pub data Step (s : Shared) : Shared → Type 0 where
    inserts :
        (jp n p : ℕ) (x : Task) {s' : Shared}
        → jp ≢ 0
        → s.queue.heap jp ≡ none
        → schedule_insert jp n p x s ≡ some s'
        → Step s s'
    appends :
        (jp n p : ℕ) (x : Task) {s' : Shared}
        → jp ≢ 0
        → s.queue.heap jp ≡ none
        → schedule_append jp n p x s ≡ some s'
        → Step s s'
    broadcasts : s.due ≢ 0 → Step s (broadcast s)
    finds :
        (fuel t : ℕ) {s' : Shared} → s.status t ≡ ready → find_pass fuel t s ≡ some s' → Step s s'
    -- POSIX lets pthread_cond_wait return without a broadcast.
    wakes : (t : ℕ) → s.status t ≡ waiting → Step s (record s { status = update s.status t ready })
    finishes :
        (t jp : ℕ) {s' : Shared} → s.status t ≡ holding jp → finish t jp s ≡ some s' → Step s s'

  pub data Steps (s : Shared) : Shared → Type 0 where
    here : Steps s s
    next : {t u : Shared} → Steps s t → Step t u → Steps s u

-- After queue_init, with every worker on its way to job_find.
abbrev pub start : Jobs Task → Shared
start qp = record { queue = (queue_init (pos 0) (pos 0) qp).1; status = λ t. ready; due = 0 }
