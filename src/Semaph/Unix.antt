-- ===== src/Semaph/Unix.antt =====
-- A kernel that keeps the laws: one set with the identifier 7.
use apue.Prelude.{
  ℕ, ◌≡◌, refl, sym, ap, ◌∙◌, ◌⊎◌, inl, inr, Bool, true, false, Option, none, some, some_inj, List,
  arith, ◌==◌, if◌then◌else◌,
}
use apue.Prelude.Int.{ℤ, pos, negsuc, pos_part, ◌+ℤ◌}
use apue.Semaph.{Call, Errno, Reply, Sembuf}
use apue.Semaph.Call.{semget, semop, getval, setval, rmid}
use apue.Semaph.Errno.{einval, other}
use apue.Semaph.Reply.{ok, failed}
use apue.Semaph.Kernel.{SemSet, SemCalls, perform, set_val}

abbrev pub new_set : SemSet
new_set = record { id_of = some 7; val = λ m. 0; adjust = λ q m. pos 0 }

abbrev pub given : List Sembuf → Option SemSet → SemSet → Option (Reply × SemSet)
given ops none v = none
given ops (some w) v = some (ok 0, w)

-- A call on the set `id`.
abbrev pub on_set : Option ℕ → ℕ → Option (Reply × SemSet) → SemSet → Option (Reply × SemSet)
on_set none id answer v = some (failed einval, v)
on_set (some k) id answer v = if k == id then answer else some (failed einval, v)

abbrev pub get : Option ℕ → Bool → SemSet → Option (Reply × SemSet)
get none true v = some (ok 7, new_set)
get none false v = some (failed other, v)
get (some k) create v = some (ok k, v)

abbrev pub set_to : ℕ → ℤ → SemSet → Option (Reply × SemSet)
unfolding set_val
set_to m (pos b) v = some (ok 0, set_val m b v)
set_to m (negsuc b) v = some (failed other, v)

unfoldable pub unix_call : ℕ → Call → SemSet → Option (Reply × SemSet)
unfolding set_val perform
unix_call p (semget key nsems create) v = get v.id_of create v
unix_call p (semop id ops) v = on_set v.id_of id (given ops (perform p ops v) v) v
unix_call p (getval id m) v = on_set v.id_of id (some (ok (v.val m), v)) v
unix_call p (setval id m a) v = on_set v.id_of id (set_to m a v) v
unix_call p (rmid id) v = on_set v.id_of id (some (ok 0, record v { id_of = none })) v

abbrev pub ended : ℕ → SemSet → SemSet
unfolding ◌+ℤ◌
ended p v = record v {
  val = λ m. pos_part (pos (v.val m) +ℤ v.adjust p m);
  adjust = λ q m. if q == p then pos 0 else v.adjust q m;
}

on_set-failed :
    (o : Option ℕ) (id : ℕ) (answer : Option (Reply × SemSet)) (v : SemSet) {e : Errno} {w : SemSet}
    → ((e : Errno) (w : SemSet) → answer ≡ some (failed e, w) → w ≡ v)
    → on_set o id answer v ≡ some (failed e, w)
    → w ≡ v
on_set-failed none id answer v h e = sym (ap (λ r. r.1) (some_inj.0 e))
on_set-failed (some k) id answer v {e = b} {w = w} h e = go (k == id) e
  where
    go : (c : Bool) → (if c then answer else some (failed einval, v)) ≡ some (failed b, w) → w ≡ v
    go true e = h b w e
    go false e = sym (ap (λ r. r.1) (some_inj.0 e))

on_set-ok :
    (o : Option ℕ) (id : ℕ) (answer : Option (Reply × SemSet)) (v : SemSet) {a : ℕ} {w : SemSet}
    → on_set o id answer v ≡ some (ok a, w)
    → (o ≡ some id) × (answer ≡ some (ok a, w))
on_set-ok none id answer v e = absurd (grind arith)
on_set-ok (some k) id answer v {a = a} {w = w} e = go (k == id) refl e
  where
    go :
        (c : Bool)
        → (k == id) ≡ c
        → (if c then answer else some (failed einval, v)) ≡ some (ok a, w)
        → (some k ≡ some id) × (answer ≡ some (ok a, w))
    go true s e = (ap some (ground arith), e)
    go false s e = absurd (grind arith)

pub same_failed :
    (p : ℕ) (c : Call) (v : SemSet) {e : Errno} {w : SemSet}
    → unix_call p c v ≡ some (failed e, w)
    → w ≡ v
unfolding unix_call set_to
same_failed p (semget key nsems create) v {e = b} {w = w} e = go v.id_of create e
  where
    go : (o : Option ℕ) (c : Bool) → get o c v ≡ some (failed b, w) → w ≡ v
    go none true e = absurd (grind arith)
    go none false e = sym (ap (λ r. r.1) (some_inj.0 e))
    go (some k) c e = absurd (grind arith)
same_failed p (semop id ops) v e =
    on_set-failed v.id_of id (given ops (perform p ops v) v) v (λ b w. go b w (perform p ops v)) e
  where
    go : (b : Errno) (w : SemSet) (o : Option SemSet) → given ops o v ≡ some (failed b, w) → w ≡ v
    go b w none e = absurd (grind arith)
    go b w (some u) e = absurd (grind arith)
same_failed p (getval id m) v e =
    on_set-failed v.id_of id (some (ok (v.val m), v)) v (λ b w h. absurd (grind arith)) e
same_failed p (setval id m a) v e = on_set-failed v.id_of id (set_to m a v) v (λ b w. go a b w) e
  where
    go : (a : ℤ) (b : Errno) (w : SemSet) → set_to m a v ≡ some (failed b, w) → w ≡ v
    go (pos k) b w e = absurd (grind arith)
    go (negsuc k) b w e = sym (ap (λ r. r.1) (some_inj.0 e))
same_failed p (rmid id) v e =
    on_set-failed v.id_of id (some (ok 0, record v { id_of = none })) v
      (λ b w h. absurd (grind arith)) e

pub created :
    (p : ℕ) (v : SemSet) {id : ℕ} {w : SemSet}
    → unix_call p (semget (pos 5) 3 true) v ≡ some (ok id, w)
    → ((v.id_of ≡ some id) × (w ≡ v))
      ⊎ ((v.id_of ≡ none)
          × (w.id_of ≡ some id)
          × ((m : ℕ) → w.val m ≡ 0)
          × ((q m : ℕ) → w.adjust q m ≡ pos 0))
unfolding unix_call
created p v {id = id} {w = w} e = go v.id_of refl e
  where
    go :
        (o : Option ℕ)
        → v.id_of ≡ o
        → get o true v ≡ some (ok id, w)
        → ((v.id_of ≡ some id) × (w ≡ v))
          ⊎ ((v.id_of ≡ none)
              × (w.id_of ≡ some id)
              × ((m : ℕ) → w.val m ≡ 0)
              × ((q m : ℕ) → w.adjust q m ≡ pos 0))
    go none i e =
        let same = some_inj.0 e in
        let w' : new_set ≡ w = ap (λ r. r.1) same in
        let seven : 7 ≡ id = grind arith in
        inr (
          i,
          ap (λ u. u.id_of) (sym w') ∙ ap some seven,
          λ m. ap (λ u. u.val m) (sym w'),
          λ q m. ap (λ u. u.adjust q m) (sym w'),
        )
    go (some k) i e =
        let seven : k ≡ id = grind arith in
        inl (i ∙ ap some seven, sym (ap (λ r. r.1) (some_inj.0 e)))

pub opened :
    (p : ℕ) (v : SemSet) {id : ℕ} {w : SemSet}
    → unix_call p (semget (pos 5) 3 false) v ≡ some (ok id, w)
    → (v.id_of ≡ some id) × (w ≡ v)
unfolding unix_call
opened p v {id = id} {w = w} e = go v.id_of refl e
  where
    go :
        (o : Option ℕ)
        → v.id_of ≡ o
        → get o false v ≡ some (ok id, w)
        → (v.id_of ≡ some id) × (w ≡ v)
    go none i e = absurd (grind arith)
    go (some k) i e =
        let seven : k ≡ id = grind arith in (i ∙ ap some seven, sym (ap (λ r. r.1) (some_inj.0 e)))

pub operated :
    (p id : ℕ) (ops : List Sembuf) (v : SemSet) {a : ℕ} {w : SemSet}
    → unix_call p (semop id ops) v ≡ some (ok a, w)
    → (v.id_of ≡ some id) × (perform p ops v ≡ some w)
unfolding unix_call
operated p id ops v {a = a} {w = w} e =
    let (i, answer) = on_set-ok v.id_of id (given ops (perform p ops v) v) v e in
    (i, go (perform p ops v) answer)
  where
    go : (o : Option SemSet) → given ops o v ≡ some (ok a, w) → o ≡ some w
    go none e = absurd (grind arith)
    go (some u) e = ap some (ap (λ r. r.1) (some_inj.0 e))

pub value_got :
    (p id m : ℕ) (v : SemSet) {a : ℕ} {w : SemSet}
    → unix_call p (getval id m) v ≡ some (ok a, w)
    → (v.id_of ≡ some id) × (a ≡ v.val m) × (w ≡ v)
unfolding unix_call
value_got p id m v e =
    let (i, answer) = on_set-ok v.id_of id (some (ok (v.val m), v)) v e in
    (i, grind arith, sym (ap (λ r. r.1) (some_inj.0 answer)))

pub value_set :
    (p id m : ℕ) (a : ℤ) (v : SemSet) {b : ℕ} {w : SemSet}
    → unix_call p (setval id m a) v ≡ some (ok b, w)
    → (v.id_of ≡ some id) × (c : ℕ) × (a ≡ pos c) × (w ≡ set_val m c v)
unfolding unix_call set_to
value_set p id m a v {b = b} {w = w} e =
    let (i, answer) = on_set-ok v.id_of id (set_to m a v) v e in
    let (c, ea, ew) = go a answer in (i, c, ea, ew)
  where
    go : (a : ℤ) → set_to m a v ≡ some (ok b, w) → (c : ℕ) × (a ≡ pos c) × (w ≡ set_val m c v)
    go (pos c) e = (c, refl, sym (ap (λ r. r.1) (some_inj.0 e)))
    go (negsuc c) e = absurd (grind arith)

pub removed :
    (p id : ℕ) (v : SemSet) {a : ℕ} {w : SemSet}
    → unix_call p (rmid id) v ≡ some (ok a, w)
    → (v.id_of ≡ some id) × (w.id_of ≡ none)
unfolding unix_call
removed p id v e =
    let (i, answer) = on_set-ok v.id_of id (some (ok 0, record v { id_of = none })) v e in
    (i, sym (ap (λ r. r.1.id_of) (some_inj.0 answer)))

pub ended_id : (p : ℕ) (v : SemSet) → (ended p v).id_of ≡ v.id_of
unfolding ended
ended_id p v = refl

pub ended_val :
    (p m a : ℕ) (v : SemSet) → pos (v.val m) +ℤ v.adjust p m ≡ pos a → (ended p v).val m ≡ a
unfolding ended
ended_val p m a v e = ap pos_part e

pub ended_adjust :
    (p q m : ℕ) (v : SemSet) → (ended p v).adjust q m ≡ (if q == p then pos 0 else v.adjust q m)
unfolding ended
ended_adjust p q m v = refl

abbrev pub unix : SemCalls (pos 5)
unix = record {
  World = SemSet;
  set_of = λ v. v;
  syscall = unix_call;
  finish = ended;
  failed_same = same_failed;
  semget_create = created;
  semget_open = opened;
  semop_ok = operated;
  getval_ok = value_got;
  setval_ok = value_set;
  rmid_ok = removed;
  finish_id = ended_id;
  finish_val = ended_val;
  finish_adjust = ended_adjust;
}
