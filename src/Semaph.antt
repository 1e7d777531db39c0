-- ===== src/Semaph.antt =====
-- apue.3e/lib/semaph.c: semaphores on the sets of System V. A process that runs one of the functions
-- stands at one of its system calls; `request` is the call, and `resume` what the code does with the
-- answer, up to the next call. The file that a key names is not in the model: a key is a number.
pub mod Kernel
pub mod Run
pub mod Moves
pub mod Invariant
pub mod Keeps
pub mod Counter
pub mod Idle
pub mod Preserve
pub mod Answers
pub mod Good
pub mod Safety
mod Unix
mod Tests
use apue.Prelude.{
  ℕ, zero, suc, Bool, true, false, ◌&&◌, ◌||◌, Option, none, some, List, [], ◌∷◌, ◌==◌, ltb,
  if◌then◌else◌,
}
use apue.Prelude.Int.{ℤ, pos, negsuc, pos_part, neg_part, as_short}

-- struct sembuf, with its flag as SEM_UNDO or none.
pub record Sembuf : Type 0 where
  pub num : ℕ
  pub amount : ℤ
  pub undo : Bool

abbrev pub sembuf : ℕ → ℤ → Bool → Sembuf
sembuf num amount undo = record { num = num; amount = amount; undo = undo }

abbrev pub bigcount : ℕ
bigcount = 10000

abbrev pub op_lock : List Sembuf
op_lock = sembuf 2 (pos 0) false ∷ sembuf 2 (pos 1) true ∷ []

abbrev pub op_endcreate : List Sembuf
op_endcreate = sembuf 1 (negsuc 0) true ∷ sembuf 2 (negsuc 0) true ∷ []

abbrev pub op_open : List Sembuf
op_open = sembuf 1 (negsuc 0) true ∷ []

abbrev pub op_close : List Sembuf
op_close = sembuf 2 (pos 0) false ∷ sembuf 2 (pos 1) true ∷ sembuf 1 (pos 1) true ∷ []

abbrev pub op_unlock : List Sembuf
op_unlock = sembuf 2 (negsuc 0) true ∷ []

-- With the amount that sem_op puts in.
abbrev pub op_op : ℤ → List Sembuf
op_op value = sembuf 0 value true ∷ []

-- The system calls: semget with or without IPC_CREAT, semop, and semctl with GETVAL, SETVAL and
-- IPC_RMID.
pub data Call : Type 0 where
  semget : ℤ → ℕ → Bool → Call
  semop : ℕ → List Sembuf → Call
  getval : ℕ → ℕ → Call
  setval : ℕ → ℕ → ℤ → Call
  rmid : ℕ → Call

-- Their answers: a number that is not negative, or -1 and errno.
pub data Errno : Type 0 where
  einval eidrm other : Errno

pub data Reply : Type 0 where
  ok : ℕ → Reply
  failed : Errno → Reply

-- Where a process stands: outside the functions with no semaphore, at a call of sem_create, of
-- sem_open, outside them with a semaphore open, at the call of sem_op, at a call of sem_close, at
-- sem_rm's, or it has ended.
pub data Point : Type 0 where
  outside : Point
  again : ℤ → ℤ → Point
  locking : ℤ → ℤ → ℕ → Point
  reading setting_value : ℤ → ℕ → Point
  setting_count ending : ℕ → Point
  looking : ℤ → Point
  opening inside : ℕ → Point
  operating : ℕ → ℤ → Point
  closing counting unlocking removing : ℕ → Point
  gone : Point

-- The tests on the key; `ipc_private` is IPC_PRIVATE.
abbrev pub refused : ℤ → ℤ → Bool
refused ipc_private key = same key ipc_private || same key (negsuc 0)
  where
    same : ℤ → ℤ → Bool
    same a b = pos_part a == pos_part b && neg_part a == neg_part b

unfoldable pub sem_create : ℤ → ℤ → ℤ → Point
sem_create ipc_private key initval = if refused ipc_private key then outside else again key initval

unfoldable pub sem_open : ℤ → ℤ → Point
sem_open ipc_private key = if refused ipc_private key then outside else looking key

unfoldable pub sem_close : ℕ → Point
sem_close id = closing id

unfoldable pub sem_rm : ℕ → Point
sem_rm id = removing id

-- sem_op with the amount that stands in op_op; none is err_sys.
abbrev pub op_point : ℕ → ℤ → Option Point
op_point id (pos zero) = none
op_point id (pos (suc n)) = some (operating id (pos (suc n)))
op_point id (negsuc n) = some (operating id (negsuc n))

-- The member sem_op of struct sembuf is a short.
unfoldable pub sem_op : ℕ → ℤ → Option Point
sem_op id value = op_point id (as_short value)

unfoldable pub sem_wait : ℕ → Option Point
unfolding sem_op
sem_wait id = sem_op id (negsuc 0)

unfoldable pub sem_signal : ℕ → Option Point
unfolding sem_op
sem_signal id = sem_op id (pos 1)

-- The call that a process makes where it stands.
unfoldable pub request : Point → Option Call
request outside = none
request (again key initval) = some (semget key 3 true)
request (locking key initval id) = some (semop id op_lock)
request (reading initval id) = some (getval id 1)
request (setting_value initval id) = some (setval id 0 initval)
request (setting_count id) = some (setval id 1 (pos bigcount))
request (ending id) = some (semop id op_endcreate)
request (looking key) = some (semget key 3 false)
request (opening id) = some (semop id op_open)
request (inside id) = none
request (operating id value) = some (semop id (op_op value))
request (closing id) = some (semop id op_close)
request (counting id) = some (getval id 1)
request (unlocking id) = some (semop id op_unlock)
request (removing id) = some (rmid id)
request gone = none

-- What sem_create does with an answer: the next call, the return with the identifier or with -1, or
-- none, which is err_sys.
unfoldable pub create_resume : Point → Reply → Option Point
create_resume (again key initval) (ok id) = some (locking key initval id)
create_resume (again key initval) (failed e) = some outside
create_resume (locking key initval id) (ok n) = some (reading initval id)
create_resume (locking key initval id) (failed einval) = some (again key initval)
create_resume (locking key initval id) (failed eidrm) = none
create_resume (locking key initval id) (failed other) = none
create_resume (reading initval id) (ok semval) =
    some (if semval == 0 then setting_value initval id else ending id)
create_resume (setting_value initval id) (ok n) = some (setting_count id)
create_resume (setting_count id) (ok n) = some (ending id)
create_resume (ending id) (ok n) = some (inside id)
create_resume p r = none

-- sem_open
unfoldable pub open_resume : Point → Reply → Option Point
open_resume (looking key) (ok id) = some (opening id)
open_resume (looking key) (failed e) = some outside
open_resume (opening id) (ok n) = some (inside id)
open_resume p r = none

-- sem_close and sem_rm; none is err_sys or err_dump.
unfoldable pub close_resume : Point → Reply → Option Point
close_resume (closing id) (ok n) = some (counting id)
close_resume (counting id) (ok semval) =
    if ltb bigcount semval
    then none
    else if semval == bigcount
    then some (removing id)
    else some (unlocking id)
close_resume (unlocking id) (ok n) = some outside
close_resume (removing id) (ok n) = some outside
close_resume p r = none

unfoldable pub op_resume : Point → Reply → Option Point
op_resume (operating id value) (ok n) = some (inside id)
op_resume p r = none

-- The function that the process is in takes the answer.
abbrev pub resume : Point → Reply → Option Point
unfolding create_resume open_resume close_resume op_resume
resume (again key initval) r = create_resume (again key initval) r
resume (locking key initval id) r = create_resume (locking key initval id) r
resume (reading initval id) r = create_resume (reading initval id) r
resume (setting_value initval id) r = create_resume (setting_value initval id) r
resume (setting_count id) r = create_resume (setting_count id) r
resume (ending id) r = create_resume (ending id) r
resume (looking key) r = open_resume (looking key) r
resume (opening id) r = open_resume (opening id) r
resume (operating id value) r = op_resume (operating id value) r
resume (closing id) r = close_resume (closing id) r
resume (counting id) r = close_resume (counting id) r
resume (unlocking id) r = close_resume (unlocking id) r
resume (removing id) r = close_resume (removing id) r
resume outside r = none
resume (inside id) r = none
resume gone r = none
