-- ===== src/Semaph/Kernel.antt =====
-- What semaph.c relies on of the system calls, as SEMGET(2), SEMOP(2) and SEMCTL(2) document them: an
-- interface. A call may fail or sleep at any time; the laws say what it did if it was successful.
use apue.Prelude.{
  ℕ, zero, suc, ◌+◌, ◌-◌, ◌≡◌, ◌⊎◌, true, false, Option, none, some, List, [], ◌∷◌, leb, ◌==◌,
  if◌then◌else◌, update,
}
use apue.Prelude.Int.{ℤ, pos, negsuc, ◌-ℤ◌, ◌+ℤ◌}
use apue.Dll.{◌>>=◌}
use apue.Semaph.{Sembuf, Call, Errno, Reply}
use apue.Semaph.Call.{semget, semop, getval, setval, rmid}
use apue.Semaph.Reply.{ok, failed}

-- The set that a key names, if it names one: its identifier, the value of each member, and the
-- adjustment of each process to each member, which is added when the process ends.
pub record SemSet : Type 0 where
  pub id_of : Option ℕ
  pub val : ℕ → ℕ
  pub adjust : ℕ → ℕ → ℤ

abbrev pub changed : ℕ → Sembuf → ℕ → SemSet → SemSet
changed p b a v = record v {
  val = update v.val b.num a;
  adjust =
      if b.undo
      then update v.adjust p (update (v.adjust p) b.num (v.adjust p b.num -ℤ b.amount))
      else v.adjust;
}

-- One operation of process `p`; none if it has to wait.
abbrev pub perform_one : ℕ → Sembuf → SemSet → Option SemSet
perform_one p b v = elim b.amount [
  | pos zero ↦ if v.val b.num == 0 then some v else none
  | pos (suc n) ↦ some (changed p b (v.val b.num + suc n) v)
  | negsuc n ↦
      if leb (suc n) (v.val b.num) then some (changed p b (v.val b.num - suc n) v) else none
]

-- All of them in the array's order, or none.
unfoldable pub perform : ℕ → List Sembuf → SemSet → Option SemSet
perform p [] v = some v
perform p (b ∷ bs) v = perform_one p b v >>= perform p bs

-- SETVAL clears the adjustments to the member in all processes.
unfoldable pub set_val : ℕ → ℕ → SemSet → SemSet
set_val m a v = record v {
  val = update v.val m a;
  adjust = λ q j. if j == m then pos 0 else v.adjust q j;
}

-- The kernel as the processes that use `key` see it. A kernel may have any further state, and it may
-- give the identifier of a set that was removed to a new set of this key, not to another key's.
pub record SemCalls (key : ℤ) : Type 1 where
  pub World : Type 0
  pub set_of : World → SemSet
  -- None if the process sleeps.
  pub syscall : ℕ → Call → World → Option (Reply × World)
  pub finish : ℕ → World → World
  pub failed_same :
      (p : ℕ) (c : Call) (w : World) {e : Errno} {w' : World}
      → syscall p c w ≡ some (failed e, w')
      → set_of w' ≡ set_of w
  -- The members of a new set are 0.
  pub semget_create :
      (p : ℕ) (w : World) {id : ℕ} {w' : World}
      → syscall p (semget key 3 true) w ≡ some (ok id, w')
      → (((set_of w).id_of ≡ some id) × (set_of w' ≡ set_of w))
        ⊎ (((set_of w).id_of ≡ none)
            × ((set_of w').id_of ≡ some id)
            × ((m : ℕ) → (set_of w').val m ≡ 0)
            × ((q m : ℕ) → (set_of w').adjust q m ≡ pos 0))
  pub semget_open :
      (p : ℕ) (w : World) {id : ℕ} {w' : World}
      → syscall p (semget key 3 false) w ≡ some (ok id, w')
      → ((set_of w).id_of ≡ some id) × (set_of w' ≡ set_of w)
  pub semop_ok :
      (p id : ℕ) (ops : List Sembuf) (w : World) {n : ℕ} {w' : World}
      → syscall p (semop id ops) w ≡ some (ok n, w')
      → ((set_of w).id_of ≡ some id) × (perform p ops (set_of w) ≡ some (set_of w'))
  pub getval_ok :
      (p id m : ℕ) (w : World) {n : ℕ} {w' : World}
      → syscall p (getval id m) w ≡ some (ok n, w')
      → ((set_of w).id_of ≡ some id) × (n ≡ (set_of w).val m) × (set_of w' ≡ set_of w)
  pub setval_ok :
      (p id m : ℕ) (a : ℤ) (w : World) {n : ℕ} {w' : World}
      → syscall p (setval id m a) w ≡ some (ok n, w')
      → ((set_of w).id_of ≡ some id) × (b : ℕ) × (a ≡ pos b) × (set_of w' ≡ set_val m b (set_of w))
  pub rmid_ok :
      (p id : ℕ) (w : World) {n : ℕ} {w' : World}
      → syscall p (rmid id) w ≡ some (ok n, w')
      → ((set_of w).id_of ≡ some id) × ((set_of w').id_of ≡ none)
  -- At the end of a process its adjustments are added, where that gives no negative value.
  pub finish_id : (p : ℕ) (w : World) → (set_of (finish p w)).id_of ≡ (set_of w).id_of
  pub finish_val :
      (p m a : ℕ) (w : World)
      → pos ((set_of w).val m) +ℤ (set_of w).adjust p m ≡ pos a
      → (set_of (finish p w)).val m ≡ a
  pub finish_adjust :
      (p q m : ℕ) (w : World)
      → (set_of (finish p w)).adjust q m ≡ (if q == p then pos 0 else (set_of w).adjust q m)
