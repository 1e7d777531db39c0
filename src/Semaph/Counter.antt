-- ===== src/Semaph/Counter.antt =====
-- The calls of semaph.c that set, read or change the counter of processes, member 1, and the end of a
-- process.
use apue.Prelude.{
  ℕ, zero, suc, ◌+◌, ◌-◌, ◌<◌, ◌≤◌, ◌≡◌, ◌≢◌, refl, sym, ap, subst, ◌∙◌, inl, inr, true, false,
  some, ==_refl, arith, update, ◌==◌, if◌then◌else◌,
}
use apue.Prelude.Int.{ℤ, pos, negsuc, ◌-ℤ◌, ◌+ℤ◌}
use apue.Semaph.{bigcount, Point, sembuf, op_endcreate, op_close}
use apue.Semaph.Point.{
  outside, reading, setting_value, setting_count, ending, inside, closing, counting, unlocking,
  removing, gone,
}
use apue.Semaph.Kernel.{SemSet, perform, set_val}
use apue.Prelude.Totals.{total, le-total, le-all, total-update}
use apue.Semaph.Moves.{
  changed-Others, adjust-changed, locked, unlocked, joined, left, op_close-moves,
  op_endcreate-moves,
}
use apue.Semaph.Invariant.{
  locks, uses, Before, After, owed, Early, Late, Held, Held-move, Early-move, Late-move, Late-first,
  uses_le, after_fewer, after_locked, Nobody,
}
use apue.Semaph.Keeps.{own_with, Held-goes}

owed-add : (a l : ℕ) → l ≤ a → pos a +ℤ owed l ≡ pos (a - l)
unfolding ◌+ℤ◌
owed-add a zero h = ground arith
owed-add a (suc l) h = ground arith

pos-add : (a b : ℕ) → pos a +ℤ pos b ≡ pos (a + b)
unfolding ◌+ℤ◌
pos-add a b = ground arith

eq_not : (a b : ℕ) → a ≢ b → (a == b) ≡ false
eq_not a b ne = ground arith

module _ (n : ℕ) (v : SemSet) (at : ℕ → Point) (p : ℕ) (lt : p < n) (k : ℕ)
    (h : Held n k v at) where
  -- Where the process stands, member 1 is set already.
  is_Late : {x : Point} → at p ≡ x → (Before x → ⊥) → Late n v at
  is_Late e out = elim h.phase [
    | inl early ↦ absurd (out (subst Before e (early.before p lt)))
    | inr late ↦ late
  ]

  is_Early : {x : Point} → at p ≡ x → ((t : ℕ) → After t x → ⊥) → Early n v at
  is_Early e out = elim h.phase [
    | inl early ↦ early
    | inr late ↦
        absurd (out (total uses at n) (subst (After (total uses at n)) e (late.after p lt)))
  ]

  -- sem_create reads 0 only before member 1 is set.
  pub read_zero-Held :
      (a : ℤ)
      → n < bigcount
      → at p ≡ reading a k
      → v.val 1 ≡ 0
      → Held n k v (update at p (setting_value a k))
  read_zero-Held a few e z =
      Held-goes n v at p lt k h (setting_value a k) refl (rw e) (rw e) (elim h.phase [
        | inl early ↦ inl (Early-move n v v at p (setting_value a k) lt early z refl tt)
        | inr late ↦
            let counter = late.counter in
            let bound = le-all uses at uses_le n in absurd (omega arith)
      ])

  pub read_more-Held :
      (a : ℤ) → at p ≡ reading a k → v.val 1 ≢ 0 → Held n k v (update at p (ending k))
  read_more-Held a e nz = Held-goes n v at p lt k h (ending k) refl (rw e) (rw e) (elim h.phase [
    | inl early ↦ absurd (nz early.unset)
    | inr late ↦ inr (
        Late-move n v v at p (ending k) lt late (rw e) tt
          (λ q m ne. after_fewer n v v at p (ending k) lt (rw e (omega arith)) late q m))
  ])

  pub count-Held : at p ≡ setting_count k → Held n k (set_val 1 bigcount v) (update at p (ending k))
  unfolding set_val
  count-Held e =
      let early = is_Early e (λ t a. a) in
      let nobody = early.no_uses in
      let zero_uses : (q : ℕ) → q < n → uses (at q) ≡ 0 =
        λ q m. let le = le-total uses at n q m in omega arith in
      Held-move n v (set_val 1 bigcount v) at p (ending k) lt k h refl (rw e) h.one
        ((own_with n v at p lt k h e).0, refl)
        (λ q m ne. (refl, sym (h.own_use q m ∙ ap pos (zero_uses q m))))
        (inr (
          Late-first n v (set_val 1 bigcount v) at p (ending k) lt k h early (rw e) refl refl
            (λ t. tt)))

  pub endcreate-Held :
      (w : SemSet)
      → at p ≡ ending k
      → perform p op_endcreate v ≡ some w
      → Held n k w (update at p (inside k))
  unfolding ◌-ℤ◌
  endcreate-Held w e done =
      let (y, z, ew) = op_endcreate-moves p v w done in
      let out = changed-Others p (sembuf 1 (negsuc 0) true) (v.val 1 - 1) v in
      let out2 = changed-Others p (sembuf 2 (negsuc 0) true) (v.val 2 - 1) (joined p v) in
      let own = own_with n v at p lt k h e in
      let one = h.one in
      let late = is_Late e (λ b. b) in
      subst (λ u. Held n k u (update at p (inside k))) (sym ew)
        (Held-move n v (unlocked p (joined p v)) at p (inside k) lt k h refl (rw e (omega arith))
          (omega arith)
          (
            adjust-changed p 2 (negsuc 0) (v.val 2 - 1) (joined p v) 2
                ∙ ap (λ b. b -ℤ negsuc 0) (adjust-changed p 1 (negsuc 0) (v.val 1 - 1) v 2 ∙ own.0),
            adjust-changed p 2 (negsuc 0) (v.val 2 - 1) (joined p v) 1
                ∙ (adjust-changed p 1 (negsuc 0) (v.val 1 - 1) v 1 ∙ ap (λ b. b -ℤ negsuc 0) own.1),
          )
          (λ q m ne. (
            out2.same_adjust q 2 ne ∙ out.same_adjust q 2 ne,
            out2.same_adjust q 1 ne ∙ out.same_adjust q 1 ne,
          ))
          (inr (
            Late-move n v (unlocked p (joined p v)) at p (inside k) lt late (rw e (omega arith)) tt
              (after_locked n v (unlocked p (joined p v)) at p (inside k) lt k h (rw e)))))

  pub close-Held :
      (w : SemSet)
      → at p ≡ closing k
      → perform p op_close v ≡ some w
      → Held n k w (update at p (counting k))
  unfolding ◌-ℤ◌
  close-Held w e done =
      let (z, ew) = op_close-moves p v w done in
      let out = changed-Others p (sembuf 2 (pos 1) true) (v.val 2 + 1) v in
      let out2 = changed-Others p (sembuf 1 (pos 1) true) (v.val 1 + 1) (locked p v) in
      let own = own_with n v at p lt k h e in
      let fits : Late n (left p (locked p v)) (update at p (counting k)) = elim h.phase [
        | inl early ↦
            let few = le-total uses at n p lt in
            let one_in : uses (at p) ≡ 1 = rw e in
            let none_in = early.no_uses in absurd (omega arith)
        | inr late ↦
            Late-move n v (left p (locked p v)) at p (counting k) lt late (rw e (omega arith)) tt
              (λ q m ne.
                after_fewer n v (left p (locked p v)) at p (counting k) lt (rw e (omega arith)) late
                  q m)
      ] in
      subst (λ u. Held n k u (update at p (counting k))) (sym ew)
        (Held-move n v (left p (locked p v)) at p (counting k) lt k h refl (rw e (omega arith))
          (omega arith)
          (
            adjust-changed p 1 (pos 1) (v.val 1 + 1) (locked p v) 2
                ∙ (adjust-changed p 2 (pos 1) (v.val 2 + 1) v 2 ∙ ap (λ b. b -ℤ pos 1) own.0),
            adjust-changed p 1 (pos 1) (v.val 1 + 1) (locked p v) 1
                ∙ ap (λ b. b -ℤ pos 1) (adjust-changed p 2 (pos 1) (v.val 2 + 1) v 1 ∙ own.1),
          )
          (λ q m ne. (
            out2.same_adjust q 2 ne ∙ out.same_adjust q 2 ne,
            out2.same_adjust q 1 ne ∙ out.same_adjust q 1 ne,
          ))
          (inr fits))

  -- sem_close goes on to remove the set if nobody has the semaphore open.
  pub counted-Late : at p ≡ counting k → Late n v at
  counted-Late e = is_Late e (λ b. b)

  pub last-Held : at p ≡ counting k → v.val 1 ≡ bigcount → Held n k v (update at p (removing k))
  last-Held e full =
      let late = counted-Late e in
      let counter = late.counter in
      let moved = total-update uses at n p (removing k) lt in
      let none_in : uses (at p) ≡ 0 = rw e in
      Held-goes n v at p lt k h (removing k) refl (rw e) (rw e) (
        inr (
          Late-move n v v at p (removing k) lt late (rw e) (omega arith)
            (λ q m ne. after_fewer n v v at p (removing k) lt (rw e (omega arith)) late q m)))

  pub more-Held : at p ≡ counting k → Held n k v (update at p (unlocking k))
  more-Held e =
      let late = counted-Late e in
      Held-goes n v at p lt k h (unlocking k) refl (rw e) (rw e) (
        inr (
          Late-move n v v at p (unlocking k) lt late (rw e) tt
            (λ q m ne. after_fewer n v v at p (unlocking k) lt (rw e (omega arith)) late q m)))

  -- A process that is about to remove the set is the only one.
  pub removed-Nobody : at p ≡ removing k → Nobody n (update at p outside)
  removed-Nobody e q m =
      let late = is_Late e (λ b. b) in
      let alone : total uses at n ≡ 0 = subst (After (total uses at n)) e (late.after p lt) in
      let held = h.lock in
      let one = h.one in
      let mine : locks (at p) ≡ 1 = rw e in
      let moved = total-update locks at n p outside lt in
      let moved2 = total-update uses at n p outside lt in
      let le = le-total locks (update at p outside) n q m in
      let le2 = le-total uses (update at p outside) n q m in (omega arith, omega arith)

  -- The end of the process releases the lock and counts it out.
  pub ended_values :
      (w : SemSet)
      → ((m a : ℕ) → pos (v.val m) +ℤ v.adjust p m ≡ pos a → w.val m ≡ a)
      → (w.val 2 ≡ v.val 2 - locks (at p)) × (w.val 1 ≡ v.val 1 + uses (at p))
  ended_values w val =
      let held = h.lock in
      let le = le-total locks at n p lt in
      (
        val 2 _ (rw (h.own_lock p lt) (owed-add (v.val 2) (locks (at p)) (omega arith))),
        val 1 _ (rw (h.own_use p lt) (pos-add (v.val 1) (uses (at p)))),
      )

  -- What the end of the process does to the set keeps the rest.
  pub ended-Held :
      (w : SemSet)
      → ((m a : ℕ) → pos (v.val m) +ℤ v.adjust p m ≡ pos a → w.val m ≡ a)
      → ((q m : ℕ) → w.adjust q m ≡ (if q == p then pos 0 else v.adjust q m))
      → Held n k w (update at p gone)
  ended-Held w val adjust =
      let held = h.lock in
      let one = h.one in
      let le = le-total locks at n p lt in
      let (val2, val1) = ended_values w val in
      let gone_from : (m : ℕ) → w.adjust p m ≡ pos 0 = λ m. rw (adjust p m, ==_refl p) in
      let other : (q m : ℕ) → q ≢ p → w.adjust q m ≡ v.adjust q m =
        λ q m ne. adjust q m ∙ ap (λ c. if c then pos 0 else v.adjust q m) (eq_not q p ne) in
      Held-move n v w at p gone lt k h tt (omega arith) (omega arith) (gone_from 2, gone_from 1)
        (λ q m ne. (other q 2 ne, other q 1 ne))
        (elim h.phase [
          | inl early ↦
              let few = le-total uses at n p lt in
              let none_in = early.no_uses in
              let unset = early.unset in
              inl (Early-move n v w at p gone lt early (omega arith) refl tt)
          | inr late ↦ inr (
              Late-move n v w at p gone lt late (omega arith) tt
                (λ q m ne. after_fewer n v w at p gone lt (omega arith) late q m))
        ])
