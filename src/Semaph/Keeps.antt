-- ===== src/Semaph/Keeps.antt =====
-- Each call of semaph.c that is successful keeps what is so of the set and the processes.
use apue.Prelude.{
  ℕ, ◌+◌, ◌-◌, ◌<◌, ◌≡◌, refl, sym, ap, subst, ◌∙◌, ◌⊎◌, inl, inr, some, arith, update, true,
}
use apue.Prelude.Int.{ℤ, pos, negsuc, ◌-ℤ◌}
use apue.Semaph.{Point, sembuf, op_lock, op_unlock, op_op}
use apue.Semaph.Point.{
  outside, locking, reading, setting_value, setting_count, inside, operating, unlocking,
}
use apue.Semaph.Kernel.{SemSet, perform, set_val}
use apue.Prelude.Totals.{total, le-total}
use apue.Semaph.Moves.{
  changed-Others, adjust-changed, locked, unlocked, op_lock-moves, op_unlock-moves, op_op-Kept,
}
use apue.Semaph.Invariant.{
  locks, uses, At, Before, After, owed, Early, Late, Held, Held-move, Early-move, Late-move,
  after_fewer,
}

module _ (n : ℕ) (v : SemSet) (at : ℕ → Point) (p : ℕ) (lt : p < n) (k : ℕ)
    (h : Held n k v at) where
  -- Member 1 stays, and the process has the semaphore open as before.
  pub phase_same :
      (w : SemSet) (x : Point)
      → w.val 1 ≡ v.val 1
      → uses x ≡ uses (at p)
      → Before x
      → ((t : ℕ) → After t x)
      → Early n w (update at p x) ⊎ Late n w (update at p x)
  phase_same w x same uu bx ax = elim h.phase [
    | inl e ↦
        let few = le-total uses at n p lt in
        let none_in = e.no_uses in
        inl (Early-move n v w at p x lt e (same ∙ e.unset) (omega arith) bx)
    | inr l ↦ inr (
        Late-move n v w at p x lt l (rw (same, uu)) (ax _)
          (λ q m ne. after_fewer n v w at p x lt (omega arith) l q m))
  ]

  pub own_with :
      {x : Point} → at p ≡ x → (v.adjust p 2 ≡ owed (locks x)) × (v.adjust p 1 ≡ pos (uses x))
  own_with e =
      (h.own_lock p lt ∙ ap (λ y. owed (locks y)) e, h.own_use p lt ∙ ap (λ y. pos (uses y)) e)

  -- The process goes on with the set as it is.
  pub Held-goes :
      (x : Point)
      → At k x
      → locks x ≡ locks (at p)
      → uses x ≡ uses (at p)
      → Early n v (update at p x) ⊎ Late n v (update at p x)
      → Held n k v (update at p x)
  Held-goes x ax ll uu phase =
      Held-move n v v at p x lt k h ax (omega arith) h.one
        (h.own_lock p lt ∙ ap owed (sym ll), h.own_use p lt ∙ ap pos (sym uu))
        (λ q m ne. (refl, refl)) phase

  pub Held-stays :
      (x : Point)
      → At k x
      → locks x ≡ locks (at p)
      → uses x ≡ uses (at p)
      → Before x
      → ((t : ℕ) → After t x)
      → Held n k v (update at p x)
  Held-stays x ax ll uu bx aft = Held-goes x ax ll uu (phase_same v x refl uu bx aft)

  pub lock-Held :
      (key a : ℤ) (w : SemSet)
      → at p ≡ locking key a k
      → perform p op_lock v ≡ some w
      → Held n k w (update at p (reading a k))
  unfolding ◌-ℤ◌
  lock-Held key a w e done =
      let (z, ew) = op_lock-moves p v w done in
      let out = changed-Others p (sembuf 2 (pos 1) true) (v.val 2 + 1) v in
      let own = own_with e in
      subst (λ u. Held n k u (update at p (reading a k))) (sym ew)
        (Held-move n v (locked p v) at p (reading a k) lt k h refl (rw e (omega arith))
          (omega arith)
          (
            adjust-changed p 2 (pos 1) (v.val 2 + 1) v 2 ∙ ap (λ b. b -ℤ pos 1) own.0,
            adjust-changed p 2 (pos 1) (v.val 2 + 1) v 1 ∙ own.1,
          )
          (λ q m ne. (out.same_adjust q 2 ne, out.same_adjust q 1 ne))
          (phase_same (locked p v) (reading a k) refl (rw e) tt (λ t. tt)))

  pub unlock-Held :
      (w : SemSet)
      → at p ≡ unlocking k
      → perform p op_unlock v ≡ some w
      → Held n k w (update at p outside)
  unfolding ◌-ℤ◌
  unlock-Held w e done =
      let (z, ew) = op_unlock-moves p v w done in
      let out = changed-Others p (sembuf 2 (negsuc 0) true) (v.val 2 - 1) v in
      let own = own_with e in
      let one = h.one in
      subst (λ u. Held n k u (update at p outside)) (sym ew)
        (Held-move n v (unlocked p v) at p outside lt k h tt (rw e (omega arith)) (omega arith)
          (
            adjust-changed p 2 (negsuc 0) (v.val 2 - 1) v 2 ∙ ap (λ b. b -ℤ negsuc 0) own.0,
            adjust-changed p 2 (negsuc 0) (v.val 2 - 1) v 1 ∙ own.1,
          )
          (λ q m ne. (out.same_adjust q 2 ne, out.same_adjust q 1 ne))
          (phase_same (unlocked p v) outside refl (rw e) tt (λ t. tt)))

  pub op-Held :
      (a : ℤ) (w : SemSet)
      → at p ≡ operating k a
      → perform p (op_op a) v ≡ some w
      → Held n k w (update at p (inside k))
  op-Held a w e done =
      let kept = op_op-Kept p a v w done in
      let val2 = kept.same_val 2 (omega arith) in
      let one = h.one in
      let own = own_with e in
      Held-move n v w at p (inside k) lt k h refl (rw (e, val2)) (omega arith)
        (kept.same_own 2 (omega arith) ∙ own.0, kept.same_own 1 (omega arith) ∙ own.1)
        (λ q m ne. (kept.others.same_adjust q 2 ne, kept.others.same_adjust q 1 ne))
        (phase_same w (inside k) (kept.same_val 1 (omega arith)) (rw e) tt (λ t. tt))

  -- sem_create sets the semaphore's value only before member 1 is set.
  pub value-Held :
      (a : ℤ) (b : ℕ)
      → at p ≡ setting_value a k
      → Held n k (set_val 0 b v) (update at p (setting_count k))
  unfolding set_val
  value-Held a b e =
      Held-move n v (set_val 0 b v) at p (setting_count k) lt k h refl (rw e) h.one (own_with e)
        (λ q m ne. (refl, refl)) phase
    where
      phase :
          Early n (set_val 0 b v) (update at p (setting_count k))
          ⊎ Late n (set_val 0 b v) (update at p (setting_count k))
      phase = elim h.phase [
        | inl early ↦
            inl (Early-move n v (set_val 0 b v) at p (setting_count k) lt early early.unset refl tt)
        | inr late ↦ absurd (subst (After (total uses at n)) e (late.after p lt))
      ]
