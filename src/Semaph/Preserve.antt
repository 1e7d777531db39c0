-- ===== src/Semaph/Preserve.antt =====
-- Every step of the processes keeps the invariant of the set.
use apue.Prelude.{
  ℕ, ◌<◌, ◌≡◌, refl, sym, ap, subst, ◌∙◌, ◌⊎◌, inl, inr, Bool, true, false, none, some, some_inj,
  arith, update, ◌==◌, ltb, if◌then◌else◌, Bool-cases, ==_iff,
}
use apue.Prelude.Int.{ℤ}
use apue.Semaph.{bigcount, Point, close_resume}
use apue.Semaph.Call.{semget, semop, getval, rmid}
use apue.Semaph.Reply.{ok}
use apue.Semaph.Point.{
  outside, again, locking, reading, setting_value, ending, counting, unlocking, removing, gone,
}
use apue.Semaph.Kernel.{SemSet, SemCalls, perform}
use apue.Semaph.Invariant.{locks, uses, At, Before, After, Held, Inv}
use apue.Semaph.Invariant.Inv.{no_set, set_at}
use apue.Semaph.Keeps.{Held-stays}
use apue.Semaph.Counter.{
  read_zero-Held, read_more-Held, last-Held, more-Held, removed-Nobody, ended-Held,
}
use apue.Semaph.Idle.{Nobody-move, new-Held}
use apue.Semaph.Run.{System}

module _ (n : ℕ) where
  pub Held-of :
      (v : SemSet) (at : ℕ → Point) (id : ℕ) → Inv n v at → v.id_of ≡ some id → Held n id v at
  Held-of v at id (no_set e h) is = absurd (grind arith)
  Held-of v at id (set_at k e h) is = subst (λ j. Held n j v at) (some_inj.0 (sym e ∙ is)) h

  module _ (v : SemSet) (at : ℕ → Point) (p : ℕ) (lt : p < n) where
    -- A move with the set as it is.
    pub Inv-stays :
        (y x : Point)
        → Inv n v at
        → at p ≡ y
        → locks x ≡ locks y
        → uses x ≡ uses y
        → ((k : ℕ) → At k y → At k x)
        → Before x
        → ((t : ℕ) → After t x)
        → Inv n v (update at p x)
    Inv-stays y x (no_set none_there h) e l u ax bx aft =
        let (l0, u0) = h p lt in
        no_set none_there
          (Nobody-move n at p x h (l ∙ (ap locks (sym e) ∙ l0)) (u ∙ (ap uses (sym e) ∙ u0)))
    Inv-stays y x (set_at k is h) e l u ax bx aft = set_at k is (
        Held-stays n v at p lt k h x (ax k (subst (At k) e (h.ids p lt))) (l ∙ ap locks (sym e))
          (u ∙ ap uses (sym e)) bx aft)

-- Where sem_close goes on after it read the counter.
pub close_cases :
    (id a : ℕ) (y : Point)
    → close_resume (counting id) (ok a) ≡ some y
    → ((a ≡ bigcount) × (removing id ≡ y)) ⊎ (unlocking id ≡ y)
unfolding close_resume
close_cases id a y r = go (ltb bigcount a) (a == bigcount) refl r
  where
    go :
        (over full : Bool)
        → (a == bigcount) ≡ full
        → (if over then none else if full then some (removing id) else some (unlocking id)) ≡ some y
        → ((a ≡ bigcount) × (removing id ≡ y)) ⊎ (unlocking id ≡ y)
    go true full e r = absurd (grind arith)
    go false true e r = inl ((==_iff a bigcount).0 e, some_inj.0 r)
    go false false e r = inr (some_inj.0 r)

module _ {key : ℤ} (os : SemCalls key) (n : ℕ) (few : n < bigcount) where
  open os use {World, set_of, syscall, finish}

  module _ (s : System os) (p : ℕ) (lt : p < n) where
    -- A process ends, whatever it was at.
    pub end-Inv :
        (w : World) → Inv n (set_of w) s.point → Inv n (set_of (finish p w)) (update s.point p gone)
    end-Inv w (no_set e h) =
        no_set (os.finish_id p w ∙ e) (Nobody-move n s.point p gone h refl refl)
    end-Inv w (set_at k e h) = set_at k (os.finish_id p w ∙ e) (
        ended-Held n (set_of w) s.point p lt k h (set_of (finish p w))
          (λ m a. os.finish_val p m a w) (λ q m. os.finish_adjust p q m w))

    -- A semop call that was successful.
    pub operated :
        (id : ℕ) (ops : _) (x : Point) {a : ℕ} {w : World}
        → Inv n (set_of s.world) s.point
        → syscall p (semop id ops) s.world ≡ some (ok a, w)
        → ((v : SemSet)
            → perform p ops (set_of s.world) ≡ some v
            → v.id_of ≡ (set_of s.world).id_of)
        → (Held n id (set_of s.world) s.point
            → perform p ops (set_of s.world) ≡ some (set_of w)
            → Held n id (set_of w) (update s.point p x))
        → Inv n (set_of w) (update s.point p x)
    operated id ops x {a = a} {w = w} inv done same keeps =
        let (is, e) = os.semop_ok p id ops s.world done in
        set_at id (same (set_of w) e ∙ is) (keeps (Held-of n (set_of s.world) s.point id inv is) e)

    -- A call that left the set as it was.
    pub answered :
        (x y : Point) {w : World}
        → Inv n (set_of s.world) s.point
        → set_of w ≡ set_of s.world
        → s.point p ≡ y
        → locks x ≡ locks y
        → uses x ≡ uses y
        → ((k : ℕ) → At k y → At k x)
        → Before x
        → ((t : ℕ) → After t x)
        → Inv n (set_of w) (update s.point p x)
    answered x y inv same e l u ax bx aft =
        subst (λ v. Inv n v (update s.point p x)) (sym same)
          (Inv-stays n (set_of s.world) s.point p lt y x inv e l u ax bx aft)

    -- semget with IPC_CREAT.
    pub created :
        (initval : ℤ) (id : ℕ) {w : World}
        → Inv n (set_of s.world) s.point
        → s.point p ≡ again key initval
        → syscall p (semget key 3 true) s.world ≡ some (ok id, w)
        → Inv n (set_of w) (update s.point p (locking key initval id))
    created initval id inv e done = elim (os.semget_create p s.world done) [
      | inl (is, same) ↦
          answered (locking key initval id) (again key initval) inv same e refl refl (λ k a. tt) tt
            (λ t. tt)
      | inr (none_there, is, zeros, free) ↦ elim inv [
        | no_set gone_set h ↦ set_at id is (
            new-Held n id (set_of _) (update s.point p (locking key initval id))
              (Nobody-move n s.point p (locking key initval id) h refl refl) zeros free)
        | set_at k there h ↦ absurd (grind arith)
      ]
    ]

    -- The answer to GETVAL of member 1 in sem_create.
    pub read_count :
        (initval : ℤ) (id a : ℕ) {w : World}
        → Inv n (set_of s.world) s.point
        → s.point p ≡ reading initval id
        → syscall p (getval id 1) s.world ≡ some (ok a, w)
        → Inv n
            (set_of w)
            (update s.point p (if a == 0 then setting_value initval id else ending id))
    read_count initval id a {w = w} inv e done =
        let (is, va, same) = os.getval_ok p id 1 s.world done in
        let h = Held-of n (set_of s.world) s.point id inv is in
        subst
          (λ v. Inv n v (update s.point p (if a == 0 then setting_value initval id else ending id)))
          (sym same)
          (set_at id is (elim (Bool-cases (a == 0)) [
            | inl z ↦ rw z (
                read_zero-Held n (set_of s.world) s.point p lt id h initval few e
                  (sym va ∙ (==_iff a 0).0 z))
            | inr nz ↦
                rw nz (read_more-Held n (set_of s.world) s.point p lt id h initval e (ground arith))
          ]))

    -- And in sem_close.
    pub close_count :
        (id a : ℕ) {w : World} {y : Point}
        → Inv n (set_of s.world) s.point
        → s.point p ≡ counting id
        → syscall p (getval id 1) s.world ≡ some (ok a, w)
        → close_resume (counting id) (ok a) ≡ some y
        → Inv n (set_of w) (update s.point p y)
    unfolding close_resume
    close_count id a {w = w} {y = y} inv e done r =
        let (is, va, same) = os.getval_ok p id 1 s.world done in
        let h = Held-of n (set_of s.world) s.point id inv is in
        subst (λ v. Inv n v (update s.point p y)) (sym same)
          (set_at id is (elim (close_cases id a y r) [
            | inl (full, ey) ↦
                subst (λ x. Held n id (set_of s.world) (update s.point p x)) ey
                  (last-Held n (set_of s.world) s.point p lt id h e (sym va ∙ full))
            | inr ey ↦
                subst (λ x. Held n id (set_of s.world) (update s.point p x)) ey
                  (more-Held n (set_of s.world) s.point p lt id h e)
          ]))

    -- IPC_RMID: nobody else has the semaphore open.
    pub removed :
        (id a : ℕ) {w : World}
        → Inv n (set_of s.world) s.point
        → s.point p ≡ removing id
        → syscall p (rmid id) s.world ≡ some (ok a, w)
        → Inv n (set_of w) (update s.point p outside)
    removed id a inv e done =
        let (is, none_now) = os.rmid_ok p id s.world done in
        let h = Held-of n (set_of s.world) s.point id inv is in
        no_set none_now (removed-Nobody n (set_of s.world) s.point p lt id h e)
