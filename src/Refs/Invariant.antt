-- ===== src/Refs/Invariant.antt =====
-- What holds of the table and the references, and how a change of one object or one reference keeps it.
use apue.Prelude.{
  ℕ, ◌+◌, ◌<◌, ◌≡◌, ◌≢◌, refl, sym, ap, subst, ◌∙◌, ◌⊎◌, inl, inr, List, Option, none, some,
  some_inj, arith, ◌==◌, if◌then◌else◌, update, update_cases, ==_refl,
}
use apue.Refs.{Foo, FooTable, write, hash}
use apue.Refs.Chain.{Chain, Has, Chain-Has, Chain-write}
use apue.Refs.Run.{Holder}
use apue.Refs.Run.Holder.{nothing, holds, releasing}
use apue.Prelude.Totals.{total, le-total, total-update}

-- The references to `a` that one holder has.
abbrev pub refs : ℕ → Holder → ℕ
refs a nothing = 0
refs a (holds b) = if b == a then 1 else 0
refs a (releasing b) = if b == a then 1 else 0

-- What a cell of the heap says of the number of references to it.
abbrev pub Counted : Option Foo → ℕ → Type 0
Counted none c = c ≡ 0
Counted (some f) c = (f.f_count ≡ c) × (c ≢ 0)

pub refs_self : (a : ℕ) → refs a (holds a) ≡ 1
refs_self a = rw (==_refl a)

pub refs_ne : (a b : ℕ) → b ≢ a → refs a (holds b) ≡ 0
refs_ne a b ne = ground arith

module _ (n : ℕ) where
  -- `ls i` is the list of bucket `i`; every object is in its bucket's list, and its count is the
  -- number of references to it.
  pub record Inv (t : FooTable) (held : ℕ → Holder) (ls : ℕ → List ℕ) : Type 0 where
    pub chains : (i : ℕ) → Chain t.heap i (t.fh i) (ls i)
    pub listed : (a : ℕ) (f : Foo) → t.heap a ≡ some f → Has a (ls (hash f.f_id))
    pub counts : (a : ℕ) → Counted (t.heap a) (total (refs a) held n)

  module _ (t : FooTable) (held : ℕ → Holder) (ls : ℕ → List ℕ) (w : Inv t held ls) where
    -- A holder's object is there.
    pub alive :
        (r a : ℕ)
        → r < n
        → refs a (held r) ≡ 1
        → (f : Foo) × (t.heap a ≡ some f)
          × (f.f_count ≡ total (refs a) held n)
          × (a ≢ 0)
          × Has a (ls (hash f.f_id))
    alive r a lt one = cell (t.heap a) refl (w.counts a)
      where
        some_held : total (refs a) held n ≢ 0
        some_held = let le = le-total (refs a) held n r lt in omega arith

        cell :
            (o : Option Foo)
            → t.heap a ≡ o
            → Counted o (total (refs a) held n)
            → (f : Foo) × (t.heap a ≡ some f)
              × (f.f_count ≡ total (refs a) held n)
              × (a ≢ 0)
              × Has a (ls (hash f.f_id))
        cell none e c = absurd (some_held c)
        cell (some f) e c =
            let m = w.listed a f e in
            let here =
              Chain-Has t.heap (hash f.f_id) (t.fh (hash f.f_id)) (ls (hash f.f_id)) a
                (w.chains (hash f.f_id)) m in
            (f, e, c.0, here.0, m)

    -- A reference moves, and every object has as many as before.
    pub Inv-same :
        (held' : ℕ → Holder)
        → ((a : ℕ) → total (refs a) held' n ≡ total (refs a) held n)
        → Inv t held' ls
    Inv-same held' same = record {
      chains = w.chains;
      listed = w.listed;
      counts = λ a. subst (Counted (t.heap a)) (sym (same a)) (w.counts a);
    }

    -- The count of one object changes with its references.
    pub Inv-recount :
        (held' : ℕ → Holder) (q c : ℕ) (f : Foo)
        → t.heap q ≡ some f
        → ((a : ℕ) → a ≢ q → total (refs a) held' n ≡ total (refs a) held n)
        → (c ≡ total (refs q) held' n) × (c ≢ 0)
        → Inv (record t { heap = write t.heap q (record f { f_count = c }) }) held' ls
    Inv-recount held' q c f there same now = record {
      chains = λ i.
          Chain-write t.heap i (t.fh i) (ls i) q f (record f { f_count = c }) there refl refl
            (w.chains i);
      listed = λ a g e. elim (update_cases t.heap q (some (record f { f_count = c })) a) [
        | inl (aq, v) ↦
            let fg : record f { f_count = c } ≡ g = some_inj.0 (sym v ∙ e) in
            subst (λ x. Has a (ls x)) (ap (λ x. hash x.f_id) fg)
              (w.listed a f (ap t.heap aq ∙ there))
        | inr (ne, v) ↦ w.listed a g (sym v ∙ e)
      ];
      counts = λ a. elim (update_cases t.heap q (some (record f { f_count = c })) a) [
        | inl (aq, v) ↦
            subst (λ o. Counted o (total (refs a) held' n)) (sym v)
              (subst (λ x. (c ≡ total (refs x) held' n) × (total (refs x) held' n ≢ 0)) (sym aq)
                (now.0, λ z. now.1 (now.0 ∙ z)))
        | inr (ne, v) ↦
            subst (λ o. Counted o (total (refs a) held' n)) (sym v)
              (subst (Counted (t.heap a)) (sym (same a ne)) (w.counts a))
      ];
    }

  -- The references to an object when one holder changes.
  module _ (held : ℕ → Holder) (r : ℕ) (lt : r < n) where
    pub gains :
        (q : ℕ)
        → held r ≡ nothing
        → (total (refs q) (update held r (holds q)) n ≡ total (refs q) held n + 1)
          × ((a : ℕ) → a ≢ q → total (refs a) (update held r (holds q)) n ≡ total (refs a) held n)
    gains q e = (
      (let m = total-update (refs q) held n r (holds q) lt in
          let one = refs_self q in let old : refs q (held r) ≡ 0 = rw e in omega arith),
      λ a ne.
          let m = total-update (refs a) held n r (holds q) lt in
          let zero_new = refs_ne a q (λ d. ne (sym d)) in
          let old : refs a (held r) ≡ 0 = rw e in omega arith,
    )

    pub loses :
        (q : ℕ)
        → (held r ≡ holds q) ⊎ (held r ≡ releasing q)
        → (total (refs q) (update held r nothing) n + 1 ≡ total (refs q) held n)
          × ((a : ℕ) → a ≢ q → total (refs a) (update held r nothing) n ≡ total (refs a) held n)
    loses q e =
        let had : (a : ℕ) → refs a (held r) ≡ refs a (holds q) =
          λ a. elim e [ inl h ↦ rw h | inr h ↦ rw h ] in
        (
          (let m = total-update (refs q) held n r nothing lt in
              let one = refs_self q in let old = had q in omega arith),
          λ a ne.
              let m = total-update (refs a) held n r nothing lt in
              let zero_old = refs_ne a q (λ d. ne (sym d)) in let old = had a in omega arith,
        )

    pub waits :
        (q : ℕ)
        → held r ≡ holds q
        → (a : ℕ) → total (refs a) (update held r (releasing q)) n ≡ total (refs a) held n
    waits q e a =
        let m = total-update (refs a) held n r (releasing q) lt in
        let old : refs a (held r) ≡ refs a (holds q) = rw e in omega arith

    pub keeps_none :
        held r ≡ nothing
        → (a : ℕ) → total (refs a) (update held r nothing) n ≡ total (refs a) held n
    keeps_none e a =
        let m = total-update (refs a) held n r nothing lt in
        let old : refs a (held r) ≡ 0 = rw e in omega arith
