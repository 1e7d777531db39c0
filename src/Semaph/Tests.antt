-- ===== src/Semaph/Tests.antt =====
-- Runs of sem_create, sem_wait and sem_close by two processes.
use apue.Prelude.{
  ℕ, ◌+◌, ◌-◌, ◌<◌, ◌≡◌, ◌≢◌, refl, subst, ◌⊎◌, Bool, false, Option, none, some, some_inj, List, [],
  ◌∷◌, ◌++◌, arith, All, replicate, All-replicate, All-append,
}
use apue.Prelude.Int.{pos, as_short}
use apue.Dll.{◌>>=◌}
use apue.Semaph.{
  bigcount, request, resume, Call, Reply, Point, sem_create, sem_open, sem_close, sem_wait,
  close_resume,
}
use apue.Semaph.Reply.{ok}
use apue.Semaph.Point.{inside, counting, unlocking, removing}
use apue.Semaph.Kernel.{SemSet}
use apue.Prelude.Totals.{total}
use apue.Semaph.Invariant.{locks, uses, At}
use apue.Semaph.Unix.{unix, unix_call}
use apue.Semaph.Safety.{
  Steps-inside, Steps-locks, close_resume-total, setting_value-total, finish-uses,
}
use apue.Semaph.Run.{System, Step, Steps, start, at}
use apue.Semaph.Run.Step.{creates, closes, calls}
use apue.Semaph.Run.Steps.{here, next}

-- The two processes' moves, one call each.
advance : ℕ → System unix → Option (System unix)
advance p s = do
  c ← request (s.point p)
  answer ← unix_call p c s.world
  x ← resume (s.point p) answer.0
  some (at unix p answer.1 x s)

play : List ℕ → System unix → Option (System unix)
play [] s = some s
play (p ∷ ps) s = do t ← advance p s; play ps t

advance-Step :
    (any_use : Bool) (p : ℕ) (s t : System unix)
    → p < 2
    → advance p s ≡ some t
    → Step unix (pos 0) any_use 2 s t
unfolding advance
advance-Step any_use p s t lt e = go (request (s.point p)) refl e
  where
    go :
        (o : Option Call)
        → request (s.point p) ≡ o
        → (o >>= λ c. unix_call p c s.world >>= λ answer.
            resume (s.point p) answer.0 >>= λ x. some (at unix p answer.1 x s))
          ≡ some t
        → Step unix (pos 0) any_use 2 s t
    go none q e = absurd (grind arith)
    go (some c) q e = reply (unix_call p c s.world) refl e
      where
        reply :
            (o : Option (Reply × SemSet))
            → unix_call p c s.world ≡ o
            → (o >>= λ answer. resume (s.point p) answer.0 >>= λ x. some (at unix p answer.1 x s))
              ≡ some t
            → Step unix (pos 0) any_use 2 s t
        reply none d e = absurd (grind arith)
        reply (some (r, w)) d e = next_point (resume (s.point p) r) refl e
          where
            next_point :
                (o : Option Point)
                → resume (s.point p) r ≡ o
                → (o >>= λ x. some (at unix p w x s)) ≡ some t
                → Step unix (pos 0) any_use 2 s t
            next_point none f e = absurd (grind arith)
            next_point (some x) f e =
                subst (Step unix (pos 0) any_use 2 s) (some_inj.0 e) (calls p lt q d f)

play-Steps :
    (any_use : Bool) (ps : List ℕ) (s t u : System unix)
    → All (λ p. p < 2) ps
    → Steps unix (pos 0) any_use 2 s t
    → play ps t ≡ some u
    → Steps unix (pos 0) any_use 2 s u
unfolding play
play-Steps any_use [] s t u a r e = subst (Steps unix (pos 0) any_use 2 s) (some_inj.0 e) r
play-Steps any_use (p ∷ ps) s t u a r e =
    go (advance p t) refl (λ v. play-Steps any_use ps s v u a.1) e
  where
    go :
        (o : Option (System unix))
        → advance p t ≡ o
        → ((v : System unix)
            → Steps unix (pos 0) any_use 2 s v
            → play ps v ≡ some u
            → Steps unix (pos 0) any_use 2 s u)
        → (o >>= play ps) ≡ some u
        → Steps unix (pos 0) any_use 2 s u
    go none d rest e = absurd (grind arith)
    go (some v) d rest e = rest v (next r (advance-Step any_use p t v a.0 d)) e

abbrev no_set_yet : SemSet
no_set_yet = record { id_of = none; val = λ m. 0; adjust = λ q m. pos 0 }

-- Both processes are in sem_create.
abbrev begun : System unix
begun = at unix 0 no_set_yet (sem_create (pos 0) (pos 5) (pos 1)) (start unix no_set_yet)

abbrev both : System unix
both = at unix 1 begun.world (sem_create (pos 0) (pos 5) (pos 1)) begun

both-Steps : Steps unix (pos 0) false 2 (start unix no_set_yet) both
unfolding sem_create
both-Steps =
    next (next here (creates 0 (pos 1) (omega arith) refl)) (creates 1 (pos 1) (omega arith) refl)

abbrev the : Option (System unix) → System unix
the none = both
the (some s) = s

-- The first is in front of its SETVAL, the second about to take the lock.
initialising : System unix
unfolding sem_create play advance request unix_call resume
initialising = the (play (1 ∷ replicate 3 0) both)

initialising-Steps : Steps unix (pos 0) false 2 (start unix no_set_yet) initialising
unfolding sem_create play advance request unix_call resume initialising
initialising-Steps =
    play-Steps false (1 ∷ replicate 3 0) (start unix no_set_yet) both initialising
      (omega arith, All-replicate (λ p. p < 2) 3 0 (omega arith)) both-Steps refl

setting_value-total_example : total uses initialising.point 2 ≡ 0
unfolding sem_create play advance request unix_call resume initialising
setting_value-total_example =
    setting_value-total unix (pos 0) 2 (omega arith) no_set_yet refl initialising-Steps 0 7 (pos 1)
      (omega arith) refl

Steps-locks_example : locks (initialising.point 1) ≡ 0
unfolding sem_create play advance request unix_call resume initialising
Steps-locks_example =
    Steps-locks unix (pos 0) 2 (omega arith) no_set_yet refl initialising-Steps 0 1 (omega arith)
      (omega arith) (omega arith) refl

-- Both have the semaphore open.
shared : System unix
unfolding play advance request unix_call resume
shared = the (play (replicate 3 0 ++ replicate 3 1) initialising)

shared-Steps : Steps unix (pos 0) false 2 (start unix no_set_yet) shared
unfolding sem_create play advance request unix_call resume initialising shared
shared-Steps =
    play-Steps false (replicate 3 0 ++ replicate 3 1) (start unix no_set_yet) initialising shared
      (All-append (λ p. p < 2) (replicate 3 0) (replicate 3 1)
        (All-replicate (λ p. p < 2) 3 0 (omega arith))
        (All-replicate (λ p. p < 2) 3 1 (omega arith)))
      initialising-Steps refl

shared_inside : shared.point 1 ≡ inside 7
unfolding sem_create play advance request unix_call resume initialising shared
shared_inside = refl

-- The second is at the semop of sem_close.
leaving : System unix
unfolding sem_close
leaving = at unix 1 shared.world (sem_close 7) shared

leaving-Steps : Steps unix (pos 0) false 2 (start unix no_set_yet) leaving
unfolding sem_close leaving
leaving-Steps = next shared-Steps (closes 1 7 (omega arith) shared_inside)

leaving_uses : uses (leaving.point 1) ≡ 1
unfolding sem_close leaving
leaving_uses = refl

Steps-inside_example :
    (id : ℕ) × At id (leaving.point 1)
    × (leaving.world.id_of ≡ some id)
    × (leaving.world.val 1 + total uses leaving.point 2 ≡ bigcount)
Steps-inside_example =
    Steps-inside unix (pos 0) 2 (omega arith) no_set_yet refl leaving-Steps 1 (omega arith)
      leaving_uses

shared_set : shared.world.id_of ≡ some 7
unfolding sem_create play advance request unix_call resume initialising shared
shared_set = refl

finish-uses_example :
    ((unix.finish 1 shared.world).val 1 ≡ shared.world.val 1 + uses (shared.point 1))
    × ((unix.finish 1 shared.world).val 2 ≡ shared.world.val 2 - locks (shared.point 1))
finish-uses_example =
    finish-uses unix (pos 0) 2 (omega arith) no_set_yet refl shared-Steps 1 7 (omega arith)
      shared_set

-- The second closes, and has counted itself out.
left : System unix
unfolding play advance request unix_call resume sem_close
left = the (play (1 ∷ []) (at unix 1 shared.world (sem_close 7) shared))

left-Steps : Steps unix (pos 0) false 2 (start unix no_set_yet) left
unfolding sem_create play advance request unix_call resume initialising shared left sem_close
left-Steps =
    play-Steps false (1 ∷ []) (start unix no_set_yet) (at unix 1 shared.world (sem_close 7) shared)
      left (omega arith, tt) (next shared-Steps (closes 1 7 (omega arith) shared_inside)) refl

close_resume-total_example :
    ((total uses left.point 2 ≡ 0) × (close_resume (counting 7) (ok 9999) ≡ some (removing 7)))
    ⊎ ((total uses left.point 2 ≢ 0) × (close_resume (counting 7) (ok 9999) ≡ some (unlocking 7)))
unfolding sem_create play advance request unix_call resume initialising shared left sem_close
close_resume-total_example =
    close_resume-total unix (pos 0) 2 (omega arith) no_set_yet refl left-Steps 1 7 9999
      {u = left.world} (omega arith) refl refl

-- The last process that has the semaphore open has read the counter in sem_close when the other calls
-- sem_open: its set is removed while it has it open.
abbrev opened_late : Option (System unix)
opened_late = do
  s ← play (replicate 6 0) begun
  s ← play (replicate 2 0) (at unix 0 s.world (sem_close 7) s)
  s ← play (replicate 2 1) (at unix 1 s.world (sem_open (pos 0) (pos 5)) s)
  play (replicate 1 0) s

without_set : (the opened_late).world.id_of ≡ none
unfolding sem_create sem_open sem_close play advance request unix_call resume
without_set = refl

with_semaphore : (the opened_late).point 1 ≡ inside 7
unfolding sem_create sem_open sem_close play advance request unix_call resume
with_semaphore = refl

-- sem_wait takes the 1 that the semaphore was created with, and a second one sleeps.
abbrev taken : Option (System unix)
taken = do
  s ← play (replicate 6 0) begun
  x ← sem_wait 7
  play (replicate 1 0) (at unix 0 s.world x s)

taken_value : (the taken).world.val 0 ≡ 0
unfolding sem_create sem_wait play advance request unix_call resume as_short
taken_value = refl

second_sleeps : (do s ← taken; x ← sem_wait 7; play (replicate 1 0) (at unix 0 s.world x s)) ≡ none
unfolding sem_create sem_wait play advance request unix_call resume as_short
second_sleeps = refl
