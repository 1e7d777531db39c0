-- ===== src/Semaph/Moves.antt =====
-- What the operation arrays of semaph.c do to a set.
use apue.Prelude.{
  ℕ, zero, suc, ◌∙◌, ◌+◌, ◌-◌, ◌≤◌, ◌≡◌, ◌≢◌, refl, sym, ap, subst, Bool, true, false, none, some,
  some_inj, List, [], ◌∷◌, ◌==◌, leb, if◌then◌else◌, arith, update, update_ne, update_self, leb→le,
  ==_iff, drop,
}
use apue.Dll.{◌>>=◌}
use apue.Prelude.Int.{ℤ, pos, negsuc, ◌-ℤ◌}
use apue.Semaph.{Sembuf, sembuf, op_lock, op_endcreate, op_close, op_unlock, op_op}
use apue.Semaph.Kernel.{SemSet, changed, perform}

-- Only the adjustments of `p` change.
pub record Others (p : ℕ) (v w : SemSet) : Type 0 where
  pub same_id : w.id_of ≡ v.id_of
  pub same_adjust : (q m : ℕ) → q ≢ p → w.adjust q m ≡ v.adjust q m

pub changed-Others : (p : ℕ) (b : Sembuf) (a : ℕ) (v : SemSet) → Others p v (changed p b a v)
changed-Others p b a v = record { same_id = refl; same_adjust = λ q m ne. other q m ne b.undo }
  where
    other :
        (q m : ℕ)
        → q ≢ p
        → (u : Bool)
        → (if u
              then update v.adjust p (update (v.adjust p) b.num (v.adjust p b.num -ℤ b.amount))
              else v.adjust)
            q m
          ≡ v.adjust q m
    other q m ne true =
        ap (λ f. f m)
          (update_ne v.adjust p (update (v.adjust p) b.num (v.adjust p b.num -ℤ b.amount)) q ne)
    other q m ne false = refl

-- The operation waits for 0.
wait-perform :
    (p m : ℕ) (u : Bool) (bs : List Sembuf) (v w : SemSet)
    → perform p (sembuf m (pos 0) u ∷ bs) v ≡ some w
    → (v.val m ≡ 0) × (perform p bs v ≡ some w)
unfolding perform
wait-perform p m u bs v w e = go (v.val m == 0) refl e
  where
    go :
        (c : Bool)
        → (v.val m == 0) ≡ c
        → ((if c then some v else none) >>= perform p bs) ≡ some w
        → (v.val m ≡ 0) × (perform p bs v ≡ some w)
    go true z e = ((==_iff (v.val m) 0).0 z, e)
    go false z e = absurd (grind arith)

-- The operation takes `k + 1`.
down-perform :
    (p m k : ℕ) (u : Bool) (bs : List Sembuf) (v w : SemSet)
    → perform p (sembuf m (negsuc k) u ∷ bs) v ≡ some w
    → (suc k ≤ v.val m)
      × (perform p bs (changed p (sembuf m (negsuc k) u) (v.val m - suc k) v) ≡ some w)
unfolding perform
down-perform p m k u bs v w e = go (leb (suc k) (v.val m)) refl e
  where
    after : SemSet
    after = changed p (sembuf m (negsuc k) u) (v.val m - suc k) v

    go :
        (c : Bool)
        → leb (suc k) (v.val m) ≡ c
        → ((if c then some after else none) >>= perform p bs) ≡ some w
        → (suc k ≤ v.val m) × (perform p bs after ≡ some w)
    go true z e = (leb→le (suc k) (v.val m) z, e)
    go false z e = absurd (grind arith)

-- The sets that the arrays make.
abbrev pub locked : ℕ → SemSet → SemSet
locked p v = changed p (sembuf 2 (pos 1) true) (v.val 2 + 1) v

abbrev pub unlocked : ℕ → SemSet → SemSet
unlocked p v = changed p (sembuf 2 (negsuc 0) true) (v.val 2 - 1) v

abbrev pub joined : ℕ → SemSet → SemSet
joined p v = changed p (sembuf 1 (negsuc 0) true) (v.val 1 - 1) v

abbrev pub left : ℕ → SemSet → SemSet
left p v = changed p (sembuf 1 (pos 1) true) (v.val 1 + 1) v

pub op_lock-moves :
    (p : ℕ) (v w : SemSet) → perform p op_lock v ≡ some w → (v.val 2 ≡ 0) × (w ≡ locked p v)
unfolding perform
op_lock-moves p v w e =
    let (z, rest) = wait-perform p 2 false (drop 1 op_lock) v w e in (z, sym (some_inj.0 rest))

pub op_close-moves :
    (p : ℕ) (v w : SemSet)
    → perform p op_close v ≡ some w
    → (v.val 2 ≡ 0) × (w ≡ left p (locked p v))
unfolding perform
op_close-moves p v w e =
    let (z, rest) = wait-perform p 2 false (drop 1 op_close) v w e in (z, sym (some_inj.0 rest))

pub op_unlock-moves :
    (p : ℕ) (v w : SemSet) → perform p op_unlock v ≡ some w → (1 ≤ v.val 2) × (w ≡ unlocked p v)
unfolding perform
op_unlock-moves p v w e =
    let (z, rest) = down-perform p 2 0 true [] v w e in (z, sym (some_inj.0 rest))

pub op_endcreate-moves :
    (p : ℕ) (v w : SemSet)
    → perform p op_endcreate v ≡ some w
    → (1 ≤ v.val 1) × (1 ≤ v.val 2) × (w ≡ unlocked p (joined p v))
unfolding perform
op_endcreate-moves p v w e =
    let (z, rest) = down-perform p 1 0 true (drop 1 op_endcreate) v w e in
    let (y, last) = down-perform p 2 0 true [] (joined p v) w rest in (z, y, sym (some_inj.0 last))

-- The adjustments that an operation with SEM_UNDO gives the process.
pub adjust-changed :
    (p m : ℕ) (a : ℤ) (b : ℕ) (v : SemSet) (j : ℕ)
    → (changed p (sembuf m a true) b v).adjust p j ≡ update (v.adjust p) m (v.adjust p m -ℤ a) j
adjust-changed p m a b v j =
    ap (λ f. f j) (update_self v.adjust p (update (v.adjust p) m (v.adjust p m -ℤ a)))

-- The semaphore's value and its adjustments may have changed.
pub record Kept (p : ℕ) (v w : SemSet) : Type 0 where
  pub others : Others p v w
  pub same_val : (m : ℕ) → m ≢ 0 → w.val m ≡ v.val m
  pub same_own : (m : ℕ) → m ≢ 0 → w.adjust p m ≡ v.adjust p m

pub Kept-refl : (p : ℕ) (v : SemSet) → Kept p v v
Kept-refl p v = record {
  others = record { same_id = refl; same_adjust = λ q m ne. refl };
  same_val = λ m ne. refl;
  same_own = λ m ne. refl;
}

changed-Kept : (p : ℕ) (a : ℤ) (b : ℕ) (v : SemSet) → Kept p v (changed p (sembuf 0 a true) b v)
changed-Kept p a b v = record {
  others = changed-Others p (sembuf 0 a true) b v;
  same_val = λ m ne. update_ne v.val 0 b m ne;
  same_own = λ m ne. adjust-changed p 0 a b v m ∙ update_ne (v.adjust p) 0 (v.adjust p 0 -ℤ a) m ne;
}

-- sem_op's array changes the semaphore only.
pub op_op-Kept : (p : ℕ) (a : ℤ) (v w : SemSet) → perform p (op_op a) v ≡ some w → Kept p v w
unfolding perform
op_op-Kept p (pos zero) v w e =
    let (z, rest) = wait-perform p 0 true [] v w e in
    subst (Kept p v) (some_inj.0 rest) (Kept-refl p v)
op_op-Kept p (pos (suc n)) v w e =
    subst (Kept p v) (some_inj.0 e) (changed-Kept p (pos (suc n)) (v.val 0 + suc n) v)
op_op-Kept p (negsuc n) v w e =
    let (z, rest) = down-perform p 0 n true [] v w e in
    subst (Kept p v) (some_inj.0 rest) (changed-Kept p (negsuc n) (v.val 0 - suc n) v)
