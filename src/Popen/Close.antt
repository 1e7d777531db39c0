-- ===== src/Popen/Close.antt =====
-- popen and pclose together.
use apue.Prelude.{
  ℕ, zero, suc, ◌<◌, ◌≡◌, refl, ap, Bool, true, false, ◌||◌, List, [], ◌∷◌, ◌++◌, Option, none,
  some, leb, arith, if◌then◌else◌, length, set, replicate, get_elem?-set_self,
}
use apue.Prelude.Int.{ℤ}
use apue.Popen.{
  Calls, Table, allocate, popen_parent, popen, reads, Wait, Return, status, eintr, stat, failed,
  wait_loop, pclose,
}

wait_loop-interrupted :
    (n : ℕ) (s : ℤ) (ws : List Wait)
    → wait_loop (replicate n eintr ++ status s ∷ ws) ≡ some (stat s)
unfolding wait_loop
wait_loop-interrupted zero s ws = refl
wait_loop-interrupted (suc n) s ws = wait_loop-interrupted n s ws

set-set : (t : List ℕ) (i a b : ℕ) → set (set t i a) i b ≡ set t i b
set-set [] i a b = refl
set-set (x ∷ t) zero a b = refl
set-set (x ∷ t) (suc i) a b = ap (λ l. x ∷ l) (set-set t i a b)

-- The end of the pipe that the parent keeps.
abbrev pub kept : Bool → ℕ × ℕ → ℕ
kept r p = if r then p.0 else p.1

-- The calls succeed: the pipe is `p` and the child's pid is suc pid.
abbrev pub succeeds : ℕ × ℕ → ℕ → ℕ → Calls
succeeds p pid max = record {
  open_max = max;
  calloc = true;
  pipe = some p;
  fork = some (suc pid);
  fdopen = true;
}

-- The table of children, of `max` zeros where it is allocated first.
abbrev pub children : ℕ → Table → List ℕ
children max none = replicate max 0
children max (some t) = t

module _ (p : ℕ × ℕ) (pid max : ℕ) where
  allocate-children : (t : Table) → allocate (succeeds p pid max) t ≡ some (children max t)
  allocate-children none = refl
  allocate-children (some t) = refl

  popen_parent-kept :
      (t : List ℕ) (r : Bool)
      → p.0 < length t
      → p.1 < length t
      → popen_parent (succeeds p pid max) r t
        ≡ (some (kept r p), (if r then p.1 else p.0) ∷ [], set t (kept r p) (suc pid))
  unfolding popen_parent
  popen_parent-kept t r a b =
      let room : leb (length t) p.0 || leb (length t) p.1 ≡ false = ground arith in rw room refl

  pclose-kept :
      (t : List ℕ) (fd n : ℕ) (s : ℤ) (ws : List Wait) (done : Bool)
      → fd < length t
      → pclose fd done (replicate n eintr ++ status s ∷ ws) (some (set t fd (suc pid)))
        ≡ (some (if done then stat s else failed), some (set t fd 0))
  unfolding pclose
  pclose-kept t fd n s ws done h =
      rw (get_elem?-set_self t fd (suc pid) h, pclose)
        (rw (wait_loop-interrupted n s ws, set-set t fd (suc pid) 0) (go done))
    where
      go :
          (c : Bool)
          → ◌≡◌ {A = Option Return × Table}
              (if c then some (stat s) else some failed, some (set t fd 0))
              (some (if c then stat s else failed), some (set t fd 0))
      go true = refl
      go false = refl

  -- If calloc, pipe, fork and fdopen succeed and both ends of the pipe are below maxfd, popen with
  -- "r" or "w", the first popen or a later one, gives a stream on the pipe's end of that
  -- direction, and pclose of it clears the child's entry of the table and returns the child's
  -- status, however often waitpid is interrupted, or -1 if fclose fails.
  pub pclose-popen :
      (t : Table) (type : List ℕ) (r : Bool) (n : ℕ) (s : ℤ) (ws : List Wait) (done : Bool)
      → p.0 < length (children max t)
      → p.1 < length (children max t)
      → reads type ≡ some r
      → (t' : Table) × (popen (succeeds p pid max) type t
          ≡ (some (kept r p), (if r then p.1 else p.0) ∷ [], t'))
        × (pclose (kept r p) done (replicate n eintr ++ status s ∷ ws) t'
            ≡ (some (if done then stat s else failed), some (set (children max t) (kept r p) 0)))
  unfolding popen
  pclose-popen t type r n s ws done a b e = (
    some (set (children max t) (kept r p) (suc pid)),
    rw (e, popen) (rw (allocate-children t, popen_parent-kept (children max t) r a b) refl),
    pclose-kept (children max t) (kept r p) n s ws done (ground arith),
  )
