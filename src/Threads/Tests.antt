-- ===== src/Threads/Tests.antt =====
-- The shared queue at concrete jobs and threads.
use apue.Prelude.{
  ℕ, ◌*◌, Option, ◌≢◌, ◌≡◌, refl, ◌==◌, ==_iff, none, some, [], ◌∷◌, arith, if◌then◌else◌, sym, ◌∙◌,
  true, inl, inr, update,
}
use apue.Prelude.Int.{pos}
use apue.Dll.{Heap, write, set_next, set_prev}
use apue.Dll.Seg.{Cells, node}
use apue.Printer.Jobs.{Jobs, remove_job}
use apue.Printer.Jobs.Queue.{IsQueue}
use apue.Threads.{job_insert, job_remove, job_find}
use apue.Threads.Remove.{job_remove-remove_job}
use apue.Threads.Find.{find, job_find-find}
use apue.Threads.Wait.{
  Task, Shared, queue_init, job_insert_due, schedule_insert, broadcast, find_pass, finish, Steps,
  start,
}
use apue.Threads.Wait.Status.{ready, waiting, done, holding}
use apue.Threads.Wait.Step.{inserts, broadcasts, finds}
use apue.Threads.Wait.Steps.{here, next}
use apue.Threads.Wait.Member.{NoneFor}
use apue.Threads.Wait.Progress.{Taken, wait-NoneFor, finish-done, Steps-holding}

abbrev task : ℕ → Task
task n = record { j_id = n; value = pos (n * 10) }

-- Jobs for the threads 1, 2 and 3 in the queue, at 11, 12 and 13, and one for thread 4 at 14 outside.
abbrev heap : Heap Task
heap a =
    if a == 11
    then some (node 12 0 (task 1))
    else if a == 12
    then some (node 13 11 (task 2))
    else if a == 13
    then some (node 0 12 (task 3))
    else if a == 14
    then some (node 7 7 (task 4))
    else none

abbrev three : Jobs Task
three = record { heap = heap; head = 11; tail = 13 }

abbrev cells : Cells Task
cells = (11, task 1) ∷ (12, task 2) ∷ (13, task 3) ∷ []

three-IsQueue : IsQueue three cells
three-IsQueue = record {
  chain = (
    omega arith,
    refl,
    (omega arith, (omega arith, tt)),
    (omega arith, refl, (omega arith, tt), (omega arith, refl, tt, tt)),
  );
  head = refl;
  tail = refl;
}

job_remove-remove_job_example : job_remove 12 three ≡ remove_job 12 three
job_remove-remove_job_example =
    job_remove-remove_job ((11, task 1) ∷ []) 12 (task 2) ((13, task 3) ∷ []) three three-IsQueue

job_find-find_example :
    job_find ◌==◌ (λ x. x.j_id) (pos 0) 4 2 three ≡ some (find ◌==◌ (λ x. x.j_id) 2 cells)
job_find-find_example = job_find-find ◌==◌ (λ x. x.j_id) 4 2 three cells three-IsQueue (omega arith)

-- Thread 1 waits, then a job for thread 2 comes.
abbrev none_yet : Jobs Task
none_yet = record { heap = λ a. none; head = 8; tail = 9 }

only_one : (a t u : ℕ) → (a == t) ≡ true → (a == u) ≡ true → t ≡ u
only_one a t u e f = sym ((==_iff a t).0 e) ∙ (==_iff a u).0 f

abbrev waits : Shared
waits = record (start none_yet) { status = update (λ t. ready) 1 waiting }

waits_step : find_pass ◌==◌ 3 1 (start none_yet) ≡ some waits
unfolding find_pass job_find queue_init
waits_step = refl

waits-Steps : Steps ◌==◌ (start none_yet) waits
waits-Steps = next here (finds 3 1 refl waits_step)

wait-NoneFor_example : (xs : Cells Task) × IsQueue waits.queue xs × NoneFor ◌==◌ (λ x. x.j_id) 1 xs
wait-NoneFor_example = wait-NoneFor ◌==◌ only_one none_yet 1 waits waits-Steps refl refl

abbrev the : Shared → Option Shared → Shared
the d none = d
the d (some s) = s

-- Its own job comes.
scheduled : Shared
unfolding schedule_insert job_insert_due job_insert queue_init set_next set_prev write
scheduled = the waits (schedule_insert 12 3 4 (task 1) waits)

scheduled_step : schedule_insert 12 3 4 (task 1) waits ≡ some scheduled
unfolding schedule_insert job_insert_due job_insert queue_init set_next set_prev write scheduled
scheduled_step = refl

scheduled-Steps : Steps ◌==◌ (start none_yet) scheduled
unfolding queue_init
scheduled-Steps = next waits-Steps (inserts 12 3 4 (task 1) (omega arith) refl scheduled_step)

one : Cells Task
one = (12, task 1) ∷ []

scheduled-IsQueue : IsQueue scheduled.queue one
unfolding schedule_insert job_insert_due job_insert queue_init set_next set_prev write scheduled one
scheduled-IsQueue = record { chain = (omega arith, refl, tt, tt); head = refl; tail = refl }

scheduled_waiting : scheduled.status 1 ≡ waiting
unfolding schedule_insert job_insert_due job_insert queue_init set_next set_prev write scheduled
scheduled_waiting = refl

Steps-holding_example :
    (jp : ℕ) × (u : Shared) × (fuel : ℕ) × Taken ◌==◌ 1 fuel scheduled u
    × Steps ◌==◌ scheduled u
    × (u.status 1 ≡ holding jp)
unfolding one
Steps-holding_example =
    Steps-holding ◌==◌ only_one none_yet 1 12 (task 1) scheduled one scheduled-Steps
      scheduled-IsQueue (inl (refl, refl)) refl (inr scheduled_waiting)

-- The broadcast, and the thread finds its job.
found : Shared
unfolding schedule_insert job_insert_due job_insert queue_init set_next set_prev write scheduled
    broadcast find_pass job_find
found = the waits (find_pass ◌==◌ 3 1 (broadcast scheduled))

found_step : find_pass ◌==◌ 3 1 (broadcast scheduled) ≡ some found
unfolding schedule_insert job_insert_due job_insert queue_init set_next set_prev write scheduled
    broadcast find_pass job_find found
found_step = refl

due_one : scheduled.due ≢ 0
unfolding schedule_insert job_insert_due job_insert queue_init set_next set_prev write scheduled
due_one = omega arith

awake : (broadcast scheduled).status 1 ≡ ready
unfolding schedule_insert job_insert_due job_insert queue_init set_next set_prev write scheduled
    broadcast
awake = refl

found-Steps : Steps ◌==◌ (start none_yet) found
found-Steps = next (next scheduled-Steps (broadcasts due_one)) (finds 3 1 awake found_step)

found_holding : found.status 1 ≡ holding 12
unfolding schedule_insert job_insert_due job_insert queue_init set_next set_prev write scheduled
    broadcast find_pass job_find found
found_holding = refl

finish-done_example : (s' : Shared) × (finish 1 12 found ≡ some s') × (s'.status 1 ≡ done)
finish-done_example = finish-done ◌==◌ only_one none_yet 1 12 found found-Steps found_holding
