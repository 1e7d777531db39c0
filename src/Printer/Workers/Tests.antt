-- ===== src/Printer/Workers/Tests.antt =====
-- The list of workers at concrete workers.
use apue.Prelude.{ℕ, ◌≡◌, refl, ◌==◌, Option, none, some, [], ◌∷◌, arith, if◌then◌else◌}
use apue.Prelude.Int.{ℤ, pos}
use apue.Dll.Seg.{node}
use apue.Printer.Workers.{
  Worker, Workers, add_worker, kill_workers, find_worker, unlink_worker, client_cleanup,
}
use apue.Printer.Workers.Lost.{IsList, kill-add_worker}

abbrev worker : ℕ → Worker
worker n = record { tid = n; sockfd = pos n }

-- One worker, at 1.
abbrev one : Workers
one = record { heap = λ a. if a == 1 then some (node 0 0 (worker 7)) else none; head = 1 }

one-IsList : IsList one 0 ((1, worker 7) ∷ [])
one-IsList = record { chain = (omega arith, refl, tt, tt); head = refl }

kill-add_worker_example :
    (s' : Workers) × (add_worker 2 (worker 8) one ≡ some s')
    × (kill_workers 5 s'.heap s'.head ≡ some (7 ∷ []))
kill-add_worker_example =
    kill-add_worker 2 (worker 8) one 0 1 (worker 7) [] 5 one-IsList (omega arith, tt) (omega arith)

-- What is closed, and `workers`.
abbrev after : Option (Option ℤ × Workers) → Option (Option ℤ × ℕ)
after none = none
after (some (fd, s)) = some (fd, s.head)

-- The worker of the only thread leaves the list, and its descriptor is closed.
cleanup_runs : after (client_cleanup 5 7 one) ≡ some (some (pos 7), 0)
unfolding client_cleanup find_worker unlink_worker
cleanup_runs = refl
