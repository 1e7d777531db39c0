-- ===== src/Semaph/Good.antt =====
-- Every step of the processes keeps the invariant, and what follows of any sequence of steps.
use apue.Prelude.{
  ℕ, zero, suc, ◌<◌, ◌≡◌, refl, sym, subst, inl, inr, false, none, some, some_inj, arith, update,
  update_cases, ◌==◌, Bool-cases,
}
use apue.Prelude.Int.{ℤ, pos, negsuc, as_short}
use apue.Semaph.{
  bigcount, Call, Errno, Reply, Point, refused, sem_create, sem_op, op_point, sem_close, request,
  resume, create_resume, close_resume, op_resume, open_resume,
}
use apue.Semaph.Errno.{einval, eidrm, other}
use apue.Semaph.Reply.{ok, failed}
use apue.Semaph.Point.{
  outside, again, locking, reading, setting_value, setting_count, ending, looking, opening, inside,
  operating, closing, counting, unlocking, removing, gone,
}
use apue.Semaph.Kernel.{SemCalls}
use apue.Semaph.Invariant.{locks, uses, At, Before, After, Inv, Keyed}
use apue.Semaph.Invariant.Inv.{no_set}
use apue.Semaph.Preserve.{Inv-stays, end-Inv, close_cases}
use apue.Semaph.Answers.{answered_ok, answered_failed}
use apue.Semaph.Run.{System, Step, Steps, start, at}
use apue.Semaph.Run.Step.{creates, opens, closes, removes, operates, calls, fails, ends}
use apue.Semaph.Run.Steps.{here, next}

resume-Keyed : (key : ℤ) (x y : Point) (r : Reply) → Keyed key x → resume x r ≡ some y → Keyed key y
unfolding create_resume open_resume close_resume op_resume
resume-Keyed key x y (ok a) kd e = go x kd e
  where
    at_next : {z : Point} → some z ≡ some y → Keyed key z → Keyed key y
    at_next same k = subst (Keyed key) (some_inj.0 same) k

    go : (x : Point) → Keyed key x → resume x (ok a) ≡ some y → Keyed key y
    go outside kd e = absurd (grind arith)
    go (again k initval) kd e = at_next e kd
    go (locking k initval id) kd e = at_next e tt
    go (reading initval id) kd e =
        at_next e (elim (Bool-cases (a == 0)) [ inl z ↦ rw z tt | inr nz ↦ rw nz tt ])
    go (setting_value initval id) kd e = at_next e tt
    go (setting_count id) kd e = at_next e tt
    go (ending id) kd e = at_next e tt
    go (looking k) kd e = absurd kd
    go (opening id) kd e = absurd kd
    go (inside id) kd e = absurd (grind arith)
    go (operating id value) kd e = at_next e tt
    go (closing id) kd e = at_next e tt
    go (counting id) kd e = elim (close_cases id a y e) [
      | inl (full, ey) ↦ subst (Keyed key) ey tt
      | inr ey ↦ subst (Keyed key) ey tt
    ]
    go (unlocking id) kd e = at_next e tt
    go (removing id) kd e = at_next e tt
    go gone kd e = absurd (grind arith)
resume-Keyed key x y (failed b) kd e = go x b kd e
  where
    at_next : {z : Point} → some z ≡ some y → Keyed key z → Keyed key y
    at_next same k = subst (Keyed key) (some_inj.0 same) k

    go : (x : Point) (b : Errno) → Keyed key x → resume x (failed b) ≡ some y → Keyed key y
    go (again k initval) b kd e = at_next e tt
    go (locking k initval id) einval kd e = at_next e kd
    go (locking k initval id) eidrm kd e = absurd (grind arith)
    go (locking k initval id) other kd e = absurd (grind arith)
    go (looking k) b kd e = absurd kd
    go outside b kd e = absurd (grind arith)
    go (reading initval id) b kd e = absurd (grind arith)
    go (setting_value initval id) b kd e = absurd (grind arith)
    go (setting_count id) b kd e = absurd (grind arith)
    go (ending id) b kd e = absurd (grind arith)
    go (opening id) b kd e = absurd (grind arith)
    go (inside id) b kd e = absurd (grind arith)
    go (operating id value) b kd e = absurd (grind arith)
    go (closing id) b kd e = absurd (grind arith)
    go (counting id) b kd e = absurd (grind arith)
    go (unlocking id) b kd e = absurd (grind arith)
    go (removing id) b kd e = absurd (grind arith)
    go gone b kd e = absurd (grind arith)

module _ {key : ℤ} (os : SemCalls key) where
  open os use {World, set_of, syscall, finish}

  -- The answer with which a function gives up left the set as it was.
  same_set :
      (p : ℕ) (w u : World) (x : Point) (c : Call) (r : Reply)
      → request x ≡ some c
      → syscall p c w ≡ some (r, u)
      → resume x r ≡ none
      → set_of u ≡ set_of w
  unfolding request create_resume open_resume close_resume op_resume
  same_set p w u x c (failed b) q done e = os.failed_same p c w done
  same_set p w u x c (ok a) q done e = go x q e
    where
      go : (x : Point) → request x ≡ some c → resume x (ok a) ≡ none → set_of u ≡ set_of w
      go outside q e = absurd (grind arith)
      go (again k initval) q e = absurd (grind arith)
      go (locking k initval id) q e = absurd (grind arith)
      go (reading initval id) q e = absurd (grind arith)
      go (setting_value initval id) q e = absurd (grind arith)
      go (setting_count id) q e = absurd (grind arith)
      go (ending id) q e = absurd (grind arith)
      go (looking k) q e = absurd (grind arith)
      go (opening id) q e = absurd (grind arith)
      go (inside id) q e = absurd (grind arith)
      go (operating id value) q e = absurd (grind arith)
      go (closing id) q e = absurd (grind arith)
      go (counting id) q e =
          (os.getval_ok p id 1 w
            (subst (λ d. syscall p d w ≡ some (ok a, u)) (some_inj.0 (sym q)) done)).2
      go (unlocking id) q e = absurd (grind arith)
      go (removing id) q e = absurd (grind arith)
      go gone q e = absurd (grind arith)

  module _ (ipc_private : ℤ) (n : ℕ) (few : n < bigcount) where
    pub record Good (s : System os) : Type 0 where
      pub inv : Inv n (set_of s.world) s.point
      pub keyed : (p : ℕ) → Keyed key (s.point p)

    Keyed-at :
        (s : System os) (p : ℕ) (x : Point)
        → ((q : ℕ) → Keyed key (s.point q))
        → Keyed key x
        → (q : ℕ) → Keyed key (update s.point p x q)
    Keyed-at s p x kd kx q = elim (update_cases s.point p x q) [
      | inl (e, v) ↦ rw v kx
      | inr (ne, v) ↦ rw v (kd q)
    ]

    -- A function begins: the process goes to its first call.
    begins :
        (s : System os) (p : ℕ) (y x : Point)
        → p < n
        → Good s
        → s.point p ≡ y
        → locks x ≡ locks y
        → uses x ≡ uses y
        → ((k : ℕ) → At k y → At k x)
        → Before x
        → ((t : ℕ) → After t x)
        → Keyed key x
        → Good (at os p s.world x s)
    begins s p y x lt g e l u ax bx aft kx = record {
      inv = Inv-stays n (set_of s.world) s.point p lt y x g.inv e l u ax bx aft;
      keyed = Keyed-at s p x g.keyed kx;
    }

    Step-Good : {s t : System os} → Step os ipc_private false n s t → Good s → Good t
    unfolding sem_create sem_close sem_op
    Step-Good {s = s} (creates p initval lt e) g = elim (Bool-cases (refused ipc_private key)) [
      | inl bad ↦
          let stays : sem_create ipc_private key initval ≡ outside = rw bad refl in
          subst (λ x. Good (at os p s.world x s)) (sym stays)
            (begins s p outside outside lt g e refl refl (λ k a. tt) tt (λ t. tt) tt)
      | inr good ↦
          let goes : sem_create ipc_private key initval ≡ again key initval = rw good refl in
          subst (λ x. Good (at os p s.world x s)) (sym goes)
            (begins s p outside (again key initval) lt g e refl refl (λ k a. tt) tt (λ t. tt) refl)
    ]
    Step-Good (opens p use_any lt e) g = absurd (grind arith)
    Step-Good {s = s} (closes p id lt e) g =
        begins s p (inside id) (closing id) lt g e refl refl (λ k a. a) tt (λ t. tt) tt
    Step-Good (removes p id use_any lt e) g = absurd (grind arith)
    Step-Good {s = s} (operates p id value {x = x} lt e r) g = go (as_short value) r
      where
        goes : (v : ℤ) → some (operating id v) ≡ some x → Good (at os p s.world x s)
        goes v r =
            subst (λ x. Good (at os p s.world x s)) (some_inj.0 r)
              (begins s p (inside id) (operating id v) lt g e refl refl (λ k a. a) tt (λ t. tt) tt)

        go : (v : ℤ) → op_point id v ≡ some x → Good (at os p s.world x s)
        go (pos zero) r = absurd (grind arith)
        go (pos (suc m)) r = goes (pos (suc m)) r
        go (negsuc m) r = goes (negsuc m) r
    Step-Good {s = s} (calls p {c = c} {r = r} {w = w} {x = y} lt q done e) g = record {
      inv = answer r done e;
      keyed = Keyed-at s p y g.keyed (resume-Keyed key (s.point p) y r (g.keyed p) e);
    }
      where
        answer :
            (r : Reply)
            → syscall p c s.world ≡ some (r, w)
            → resume (s.point p) r ≡ some y
            → Inv n (set_of w) (update s.point p y)
        answer (ok a) done e =
            answered_ok os n few s p lt (s.point p) a c g.inv (g.keyed p) refl q done e
        answer (failed b) done e = answered_failed os n few s p lt (s.point p) b c g.inv refl done e
    Step-Good {s = s} (fails p {c = c} {r = r} {w = w} lt q done e) g = record {
      inv = end-Inv os n few s p lt w (
          subst (λ v. Inv n v s.point) (sym (same_set p s.world w (s.point p) c r q done e)) g.inv);
      keyed = Keyed-at s p gone g.keyed tt;
    }
    Step-Good {s = s} (ends p lt) g = record {
      inv = end-Inv os n few s p lt s.world g.inv;
      keyed = Keyed-at s p gone g.keyed tt;
    }

    pub Steps-Good :
        (w : World) {s : System os}
        → (set_of w).id_of ≡ none
        → Steps os ipc_private false n (start os w) s
        → Good s
    Steps-Good w none_yet here = record {
      inv = no_set none_yet (λ p l. (refl, refl));
      keyed = λ p. tt;
    }
    Steps-Good w none_yet (next r s) = Step-Good s (Steps-Good w none_yet r)
