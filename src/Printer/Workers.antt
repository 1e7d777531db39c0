-- ===== src/Printer/Workers.antt =====
-- The list of worker threads of printd.c: add_worker, kill_workers and client_cleanup, each as what it
-- does while it holds its lock.
pub mod Lost
pub mod Tests
use apue.Prelude.{
  ℕ, zero, suc, ◌≡◌, Bool, true, false, List, [], ◌∷◌, Option, none, some, ◌==◌, if◌then◌else◌,
}
use apue.Prelude.Int.{ℤ}
use apue.Dll.{Node, Heap, write, load, set_next, set_prev, ◌>>=◌}

-- `struct worker_thread` without its links.
pub record Worker : Type 0 where
  pub tid : ℕ
  pub sockfd : ℤ

-- The nodes and the variable `workers`.
pub record Workers : Type 0 where
  pub heap : Heap Worker
  pub head : ℕ

-- add_worker: `wtp` is what malloc gave.
unfoldable pub add_worker : ℕ → Worker → Workers → Option Workers
add_worker wtp worker s =
    let h = write s.heap wtp (record { next = s.head; prev = 0; item = worker }) in
    if s.head == 0
    then some (record { heap = h; head = wtp })
    else (do h' ← set_prev s.head wtp h; some (record { heap = h'; head = s.head }))

-- kill_workers: the threads that it cancels, in this order. A walk from `p` of at most `fuel` nodes.
unfoldable pub kill_workers : ℕ → Heap Worker → ℕ → Option (List ℕ)
kill_workers zero h p = if p == 0 then some [] else none
kill_workers (suc fuel) h p =
    let rest = (do n ← load h p; tids ← kill_workers fuel h n.next; some (n.item.tid ∷ tids)) in
    if p == 0 then some [] else rest

-- The loop of client_cleanup: the node of the thread, 0 if there is none.
unfoldable pub find_worker : ℕ → ℕ → Heap Worker → ℕ → Option ℕ
find_worker zero tid h p = if p == 0 then some 0 else none
find_worker (suc fuel) tid h p =
    let rest = (do
      n ← load h p
      let further = find_worker fuel tid h n.next
      if n.item.tid == tid then some p else further) in
    if p == 0 then some 0 else rest

-- What client_cleanup does to the node it found.
unfoldable pub unlink_worker : ℕ → Workers → Option Workers
unlink_worker wtp s = do
  n ← load s.heap wtp
  h ← (if n.next == 0 then some s.heap else set_prev n.next n.prev s.heap)
  if n.prev == 0
      then some (record { heap = h; head = n.next })
      else (do h' ← set_next n.prev n.next h; some (record { heap = h'; head = s.head }))

-- client_cleanup: the descriptor that it closes, if it finds the thread, and the list it leaves.
unfoldable pub client_cleanup : ℕ → ℕ → Workers → Option (Option ℤ × Workers)
client_cleanup fuel tid s = do
  wtp ← find_worker fuel tid s.heap s.head
  if wtp == 0 then some (none, s) else (do
    n ← load s.heap wtp
    s' ← unlink_worker wtp s
    some (some n.item.sockfd, record s' { heap = λ b. if b == wtp then none else s'.heap b }))
