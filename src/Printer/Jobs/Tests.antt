-- ===== src/Printer/Jobs/Tests.antt =====
-- The job list at concrete jobs.
use apue.Prelude.{ℕ, refl, ◌==◌, none, some, [], ◌∷◌, arith, if◌then◌else◌}
use apue.Prelude.Int.{pos}
use apue.Text.{codes}
use apue.Dll.{Heap}
use apue.Dll.Seg.{Cells, node, snoc}
use apue.Printer.Jobs.{Job, Jobs, add_job, remove_job}
use apue.Printer.Jobs.Queue.{IsQueue, Becomes, add_job-snoc}
use apue.Printer.Jobs.Remove.{remove_job-append}

abbrev job : ℕ → Job
job n = record {
  jobid = pos n;
  req = record { size = 10; flags = 0; usernm = codes "me"; jobnm = codes "a.ps" };
}

-- Two jobs in the list, at 1 and 2, and a job at 5 that was taken from it.
abbrev two_heap : Heap Job
two_heap a =
    if a == 1
    then some (node 2 0 (job 7))
    else if a == 2
    then some (node 0 1 (job 8))
    else if a == 5
    then some (node 1 0 (job 6))
    else none

abbrev two : Jobs Job
two = record { heap = two_heap; head = 1; tail = 2 }

abbrev cells : Cells Job
cells = (1, job 7) ∷ (2, job 8) ∷ []

two-IsQueue : IsQueue two cells
two-IsQueue = record {
  chain = (omega arith, refl, (omega arith, tt), (omega arith, refl, tt, tt));
  head = refl;
  tail = refl;
}

add_job-snoc_example : Becomes (add_job 3 (job 9) two) (snoc cells 3 (job 9))
add_job-snoc_example =
    add_job-snoc 3 (job 9) two cells two-IsQueue (omega arith) (omega arith, (omega arith, tt))

remove_job-append_example : Becomes (remove_job 2 two) ((1, job 7) ∷ [])
remove_job-append_example = remove_job-append ((1, job 7) ∷ []) 2 (job 8) [] two two-IsQueue
