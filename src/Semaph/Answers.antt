-- ===== src/Semaph/Answers.antt =====
-- A call of semaph.c that was answered keeps the invariant, at whatever call the process stands.
use apue.Prelude.{ℕ, ◌<◌, ◌≡◌, refl, sym, ap, subst, ◌∙◌, true, some, some_inj, arith, update}
use apue.Prelude.Int.{ℤ, pos, pos_part}
use apue.Semaph.{
  bigcount, Call, Errno, Point, op_lock, op_endcreate, op_close, op_unlock, op_op, request, resume,
  create_resume, close_resume, op_resume, open_resume,
}
use apue.Semaph.Call.{semget}
use apue.Semaph.Errno.{einval, eidrm, other}
use apue.Semaph.Reply.{ok, failed}
use apue.Semaph.Point.{
  outside, again, locking, reading, setting_value, setting_count, ending, looking, opening, inside,
  operating, closing, counting, unlocking, removing, gone,
}
use apue.Semaph.Kernel.{SemCalls, set_val}
use apue.Semaph.Moves.{
  op_lock-moves, op_close-moves, op_unlock-moves, op_endcreate-moves, op_op-Kept,
}
use apue.Semaph.Invariant.{Inv, Keyed}
use apue.Semaph.Invariant.Inv.{set_at}
use apue.Semaph.Keeps.{lock-Held, unlock-Held, op-Held, value-Held}
use apue.Semaph.Counter.{count-Held, endcreate-Held, close-Held}
use apue.Semaph.Run.{System}
use apue.Semaph.Preserve.{Held-of, operated, answered, created, read_count, close_count, removed}

module _ {key : ℤ} (os : SemCalls key) (n : ℕ) (few : n < bigcount) where
  open os use {World, set_of, syscall}

  module _ (s : System os) (p : ℕ) (lt : p < n) where
    -- The call was successful.
    pub answered_ok :
        (x : Point) (a : ℕ) (c : Call) {w : World} {y : Point}
        → Inv n (set_of s.world) s.point
        → Keyed key x
        → s.point p ≡ x
        → request x ≡ some c
        → syscall p c s.world ≡ some (ok a, w)
        → resume x (ok a) ≡ some y
        → Inv n (set_of w) (update s.point p y)
    unfolding request create_resume open_resume close_resume op_resume set_val
    answered_ok x a c {w = w} {y = y} inv kd e q done r = go x kd e q r
      where
        at_next :
            {z : Point}
            → some z ≡ some y
            → Inv n (set_of w) (update s.point p z)
            → Inv n (set_of w) (update s.point p y)
        at_next same i = subst (λ u. Inv n (set_of w) (update s.point p u)) (some_inj.0 same) i

        as_call : {d : Call} → some d ≡ some c → syscall p d s.world ≡ some (ok a, w)
        as_call same =
            subst (λ u. syscall p u s.world ≡ some (ok a, w)) (some_inj.0 (sym same)) done

        go :
            (x : Point)
            → Keyed key x
            → s.point p ≡ x
            → request x ≡ some c
            → resume x (ok a) ≡ some y
            → Inv n (set_of w) (update s.point p y)
        go outside kd e q r = absurd (grind arith)
        go (again k initval) kd e q r = at_next r (
            subst (λ j. Inv n (set_of w) (update s.point p (locking j initval a))) (sym kd)
              (created os n few s p lt initval a inv (e ∙ ap (λ j. again j initval) kd)
                (as_call (subst (λ j. some (semget j 3 true) ≡ some c) kd q))))
        go (locking k initval id) kd e q r = at_next r (
            operated os n few s p lt id op_lock (reading initval id) inv (as_call q)
              (λ v d. ap (λ u. u.id_of) (op_lock-moves p (set_of s.world) v d).1)
              (λ h d. lock-Held n (set_of s.world) s.point p lt id h k initval (set_of w) e d))
        go (reading initval id) kd e q r =
            at_next r (read_count os n few s p lt initval id a inv e (as_call q))
        go (setting_value initval id) kd e q r =
            let (is, b, eb, same) = os.setval_ok p id 0 initval s.world (as_call q) in
            at_next r (
              subst (λ v. Inv n v (update s.point p (setting_count id))) (sym same)
                (set_at id is (
                  value-Held n (set_of s.world) s.point p lt id
                    (Held-of n (set_of s.world) s.point id inv is) initval b e)))
        go (setting_count id) kd e q r =
            let (is, b, eb, same) = os.setval_ok p id 1 (pos bigcount) s.world (as_call q) in
            let full = same ∙ ap (λ j. set_val 1 j (set_of s.world)) (sym (ap pos_part eb)) in
            at_next r (
              subst (λ v. Inv n v (update s.point p (ending id))) (sym full)
                (set_at id is (
                  count-Held n (set_of s.world) s.point p lt id
                    (Held-of n (set_of s.world) s.point id inv is) e)))
        go (ending id) kd e q r = at_next r (
            operated os n few s p lt id op_endcreate (inside id) inv (as_call q)
              (λ v d. ap (λ u. u.id_of) (op_endcreate-moves p (set_of s.world) v d).2)
              (λ h d. endcreate-Held n (set_of s.world) s.point p lt id h (set_of w) e d))
        go (looking k) kd e q r = absurd kd
        go (opening id) kd e q r = absurd kd
        go (inside id) kd e q r = absurd (grind arith)
        go (operating id value) kd e q r = at_next r (
            operated os n few s p lt id (op_op value) (inside id) inv (as_call q)
              (λ v d. (op_op-Kept p value (set_of s.world) v d).others.same_id)
              (λ h d. op-Held n (set_of s.world) s.point p lt id h value (set_of w) e d))
        go (closing id) kd e q r = at_next r (
            operated os n few s p lt id op_close (counting id) inv (as_call q)
              (λ v d. ap (λ u. u.id_of) (op_close-moves p (set_of s.world) v d).1)
              (λ h d. close-Held n (set_of s.world) s.point p lt id h (set_of w) e d))
        go (counting id) kd e q r = close_count os n few s p lt id a inv e (as_call q) r
        go (unlocking id) kd e q r = at_next r (
            operated os n few s p lt id op_unlock outside inv (as_call q)
              (λ v d. ap (λ u. u.id_of) (op_unlock-moves p (set_of s.world) v d).1)
              (λ h d. unlock-Held n (set_of s.world) s.point p lt id h (set_of w) e d))
        go (removing id) kd e q r = at_next r (removed os n few s p lt id a inv e (as_call q))
        go gone kd e q r = absurd (grind arith)

    -- The call failed.
    pub answered_failed :
        (x : Point) (b : Errno) (c : Call) {w : World} {y : Point}
        → Inv n (set_of s.world) s.point
        → s.point p ≡ x
        → syscall p c s.world ≡ some (failed b, w)
        → resume x (failed b) ≡ some y
        → Inv n (set_of w) (update s.point p y)
    unfolding create_resume open_resume close_resume op_resume
    answered_failed x b c {w = w} {y = y} inv e done r =
        go x b e r (os.failed_same p c s.world done)
      where
        at_next :
            {z : Point}
            → some z ≡ some y
            → Inv n (set_of w) (update s.point p z)
            → Inv n (set_of w) (update s.point p y)
        at_next same i = subst (λ u. Inv n (set_of w) (update s.point p u)) (some_inj.0 same) i

        go :
            (x : Point) (b : Errno)
            → s.point p ≡ x
            → resume x (failed b) ≡ some y
            → set_of w ≡ set_of s.world
            → Inv n (set_of w) (update s.point p y)
        go (again k initval) b e r same = at_next r (
            answered os n few s p lt outside (again k initval) inv same e refl refl (λ k a. tt) tt
              (λ t. tt))
        go (locking k initval id) einval e r same = at_next r (
            answered os n few s p lt (again k initval) (locking k initval id) inv same e refl refl
              (λ k a. tt) tt (λ t. tt))
        go (locking k initval id) eidrm e r same = absurd (grind arith)
        go (locking k initval id) other e r same = absurd (grind arith)
        go (looking k) b e r same = at_next r (
            answered os n few s p lt outside (looking k) inv same e refl refl (λ k a. tt) tt
              (λ t. tt))
        go outside b e r same = absurd (grind arith)
        go (reading initval id) b e r same = absurd (grind arith)
        go (setting_value initval id) b e r same = absurd (grind arith)
        go (setting_count id) b e r same = absurd (grind arith)
        go (ending id) b e r same = absurd (grind arith)
        go (opening id) b e r same = absurd (grind arith)
        go (inside id) b e r same = absurd (grind arith)
        go (operating id value) b e r same = absurd (grind arith)
        go (closing id) b e r same = absurd (grind arith)
        go (counting id) b e r same = absurd (grind arith)
        go (unlocking id) b e r same = absurd (grind arith)
        go (removing id) b e r same = absurd (grind arith)
        go gone b e r same = absurd (grind arith)
