-- ===== src/Printer/Jobs.antt =====
-- The job list and the job numbers of printd.c. Each function is what it does while it holds its lock.
pub mod Queue
pub mod Remove
pub mod Tests
use apue.Prelude.{
  ℕ, zero, suc, ◌+◌, ◌-◌, ◌^◌, ◌≡◌, refl, Bool, true, false, List, [], ◌∷◌, Option, none, some, ltb,
  leb, ◌==◌, if◌then◌else◌, ◌++◌, take, drop, length,
}
use apue.Prelude.Int.{ℤ, pos, negsuc, as_int}
use apue.Text.{Bytes, codes, print_int, atol, c_str}
use apue.File.{pwrite}
use apue.Dll.{Node, Heap, write, load, set_next, set_prev, ◌>>=◌}

-- `struct printreq`
pub record Request : Type 0 where
  pub size : ℕ
  pub flags : ℕ
  pub usernm : Bytes
  pub jobnm : Bytes

-- `struct job` without its links.
pub record Job : Type 0 where
  pub jobid : ℤ
  pub req : Request

-- The nodes, jobhead and jobtail. `A` is what a `struct job` holds beside its links, here Job.
pub record Jobs (A : Type 0) : Type 0 where
  pub heap : Heap A
  pub head : ℕ
  pub tail : ℕ

module _ {A : Type 0} where
  -- add_job: `jp` is what malloc gave.
  unfoldable pub add_job : ℕ → A → Jobs A → Option (Jobs A)
  add_job jp job s =
      let h = write s.heap jp (record { next = 0; prev = s.tail; item = job }) in
      if s.tail == 0
      then some (record { heap = h; head = jp; tail = jp })
      else (do h' ← set_next s.tail jp h; some (record { heap = h'; head = s.head; tail = jp }))

  -- replace_job
  unfoldable pub replace_job : ℕ → Jobs A → Option (Jobs A)
  replace_job jp s = do
    h ← set_prev jp 0 s.heap
    h ← set_next jp s.head h
    if s.head == 0
        then some (record { heap = h; head = jp; tail = jp })
        else (do h ← set_prev s.head jp h; some (record { heap = h; head = jp; tail = s.tail }))

  -- The second half of remove_job, for the pointer in front of the target.
  unfoldable pub remove_job_front : Node A → Jobs A → Option (Jobs A)
  remove_job_front n s =
      if n.prev == 0
      then some (record s { head = n.next })
      else (do h ← set_next n.prev n.next s.heap; some (record s { heap = h }))

  -- remove_job
  unfoldable pub remove_job : ℕ → Jobs A → Option (Jobs A)
  unfolding remove_job_front
  remove_job target s = do
    n ← load s.heap target
    if n.next == 0
        then remove_job_front n (record s { tail = n.prev })
        else (do h ← set_prev n.next n.prev s.heap; remove_job_front n (record s { heap = h }))

  -- What printer_thread takes from a list that is not empty: the job at the head, and the list without it.
  unfoldable pub take_job : Jobs A → Option (ℕ × Jobs A)
  take_job s = do s' ← remove_job s.head s; some (s.head, s')

-- get_newjobno: the number, and the next one. An int32_t is what it stands for; `nextjob++` wraps.
unfoldable pub get_newjobno : ℤ → ℤ × ℤ
get_newjobno (pos n) = (pos n, if n == 2 ^ 31 - 1 then pos 1 else pos (n + 1))
get_newjobno (negsuc n) = (negsuc n, pos 1)

-- The buffer of init_request: first the path of the job file, then as many bytes of the file as the
-- buffer holds over its front.
abbrev name_buffer : Bytes → Bytes
name_buffer file = let n = take 64 file in n ++ drop (length n) (codes "/var/spool/printer/jobno")

-- init_request: nextjob, from the contents of the job file.
unfoldable pub init_request : Bytes → ℤ
init_request file =
    if length (take 64 file) == 0 then pos 1 else as_int (atol (c_str (name_buffer file)))

-- update_jobno: the number is written over the front of the file.
unfoldable pub update_jobno : ℤ → Bytes → Bytes
update_jobno nextjob f = pwrite f 0 (print_int nextjob)
