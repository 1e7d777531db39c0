-- ===== src/Semaph/Run.antt =====
-- Processes that use the functions of semaph.c with one key, in any order of their system calls. A
-- process may end at any time. With `any_use` they also call sem_open and sem_rm.
use apue.Prelude.{ℕ, ◌<◌, ◌≡◌, Bool, true, none, some, update}
use apue.Prelude.Int.{ℤ}
use apue.Semaph.{
  Call, Reply, Point, sem_create, sem_open, sem_close, sem_rm, sem_op, request, resume,
}
use apue.Semaph.Point.{outside, inside, gone}
use apue.Semaph.Kernel.{SemCalls}

module _ {key : ℤ} (os : SemCalls key) where
  open os use {World, syscall, finish}

  pub record System : Type 0 where
    pub world : World
    pub point : ℕ → Point

  -- Process `p` moves.
  abbrev pub at : ℕ → World → Point → System → System
  at p w x s = record { world = w; point = update s.point p x }

  module _ (ipc_private : ℤ) (any_use : Bool) (n : ℕ) where
    pub data Step (s : System) : System → Type 0 where
      creates :
          (p : ℕ) (initval : ℤ)
          → p < n
          → s.point p ≡ outside
          → Step s (at p s.world (sem_create ipc_private key initval) s)
      opens :
          (p : ℕ)
          → any_use ≡ true
          → p < n
          → s.point p ≡ outside
          → Step s (at p s.world (sem_open ipc_private key) s)
      closes : (p id : ℕ) → p < n → s.point p ≡ inside id → Step s (at p s.world (sem_close id) s)
      removes :
          (p id : ℕ)
          → any_use ≡ true
          → p < n
          → s.point p ≡ inside id
          → Step s (at p s.world (sem_rm id) s)
      operates :
          (p id : ℕ) (value : ℤ) {x : Point}
          → p < n
          → s.point p ≡ inside id
          → sem_op id value ≡ some x
          → Step s (at p s.world x s)
      calls :
          (p : ℕ) {c : Call} {r : Reply} {w : World} {x : Point}
          → p < n
          → request (s.point p) ≡ some c
          → syscall p c s.world ≡ some (r, w)
          → resume (s.point p) r ≡ some x
          → Step s (at p w x s)
      -- err_sys and err_dump end the process.
      fails :
          (p : ℕ) {c : Call} {r : Reply} {w : World}
          → p < n
          → request (s.point p) ≡ some c
          → syscall p c s.world ≡ some (r, w)
          → resume (s.point p) r ≡ none
          → Step s (at p (finish p w) gone s)
      ends : (p : ℕ) → p < n → Step s (at p (finish p s.world) gone s)

    pub data Steps (s : System) : System → Type 0 where
      here : Steps s s
      next : {t u : System} → Steps s t → Step t u → Steps s u

  -- No process has begun.
  abbrev pub start : World → System
  start w = record { world = w; point = λ _. outside }
