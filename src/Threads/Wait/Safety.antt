-- ===== src/Threads/Wait/Safety.antt =====
-- The invariant of the threads and the queue, whatever the order of their steps.
use apue.Prelude.{
  ℕ, ◌+◌, ◌-◌, ◌≡◌, ◌≢◌, refl, sym, ap, subst, ◌∙◌, ◌⊎◌, inl, inr, Bool, true, false, [], ◌∷◌, ◌++◌,
  Option, none, some, some_inj, ◌==◌, if◌then◌else◌, arith, All, All-append, All-cut, update,
  update_cases, update_self,
}
use apue.Prelude.Int.{pos}
use apue.Dll.{◌>>=◌}
use apue.Dll.Seg.{Cells, Avoids, write_self, Seg-write, snoc}
use apue.Dll.Split.{Seg-Cut}
use apue.Printer.Jobs.{Jobs}
use apue.Printer.Jobs.Queue.{IsQueue, Becomes}
use apue.Threads.{job_find}
use apue.Threads.Same.{job_insert-cons, job_append-snoc}
use apue.Threads.Remove.{job_remove-append}
use apue.Threads.Find.{find, job_find-only}
use apue.Threads.Wait.{
  Task, Status, Shared, queue_init, job_insert_due, job_append_due, malloced, linked,
  schedule_insert, schedule_append, woken, broadcast, freed, finish, find_pass, Step, Steps, start,
}
use apue.Threads.Wait.Status.{ready, waiting, done, holding}
use apue.Threads.Wait.Step.{inserts, appends, broadcasts, finds, wakes, finishes}
use apue.Threads.Wait.Steps.{here, next}
use apue.Threads.Wait.Member.{
  Has, Has-split, Has-only, Has-append, Has-cut, Avoids-free, Seg-same, NoneFor, find_cases,
}

pub eq_not : (a b : ℕ) → a ≢ b → (a == b) ≡ false
eq_not a b ne = ground arith

module _ (pthread_equal : ℕ → ℕ → Bool) where
  -- What is so of a thread: one that waits has no job in the queue, or a broadcast is due; one that
  -- was given a job has it still in the queue.
  abbrev pub Fine : Cells Task → ℕ → ℕ → Status → Type 0
  Fine xs due t ready = Unit
  Fine xs due t waiting = NoneFor pthread_equal (λ x. x.j_id) t xs ⊎ (due ≢ 0)
  Fine xs due t done = Unit
  Fine xs due t (holding jp) = (x : Task) × Has jp x xs × (pthread_equal x.j_id t ≡ true)

  pub record Inv (s : Shared) (xs : Cells Task) : Type 0 where
    pub queue : IsQueue s.queue xs
    pub threads : (t : ℕ) → Fine xs s.due t (s.status t)

  -- The new cell stands in no list.
  fresh :
      (jp n p : ℕ) (x : Task) (q : Jobs Task) (xs : Cells Task)
      → IsQueue q xs
      → q.heap jp ≡ none
      → Avoids jp xs × IsQueue (malloced jp n p x q) xs
  fresh jp n p x q xs w e =
      let out = Avoids-free q.heap 0 jp xs 0 e w.chain in
      (
        out,
        record { chain = Seg-write q.heap jp _ 0 xs 0 out w.chain; head = w.head; tail = w.tail },
      )

  -- A job was linked, with its broadcast due.
  linked-Inv :
      (s : Shared) (o : Option (Jobs Task)) (xs ys : Cells Task) (s' : Shared)
      → Inv s xs
      → Becomes o ys
      → ((jp : ℕ) (x : Task) → Has jp x xs → Has jp x ys)
      → linked s o ≡ some s'
      → Inv s' ys
  linked-Inv s o xs ys s' w (q, e, iq) more r =
      subst (λ u. Inv u ys) (some_inj.0 (sym (ap (linked s) e) ∙ r))
        (record { queue = iq; threads = λ t. still t (s.status t) (w.threads t) })
    where
      still : (t : ℕ) (st : Status) → Fine xs s.due t st → Fine ys (s.due + 1) t st
      still t ready f = tt
      still t waiting f = inr (omega arith)
      still t done f = tt
      still t (holding jp) (x, m, e) = (x, more jp x m, e)

  pub broadcast-Inv : (s : Shared) (xs : Cells Task) → Inv s xs → Inv (broadcast s) xs
  unfolding broadcast
  broadcast-Inv s xs w = record {
    queue = w.queue;
    threads = λ t. awake t (s.status t) (w.threads t);
  }
    where
      awake : (t : ℕ) (st : Status) → Fine xs s.due t st → Fine xs (s.due - 1) t (woken st)
      awake t ready f = tt
      awake t waiting f = tt
      awake t done f = tt
      awake t (holding jp) f = f

  -- One thread's status changes.
  moved :
      (s : Shared) (xs : Cells Task) (t : ℕ) (st : Status)
      → Inv s xs
      → Fine xs s.due t st
      → Inv (record s { status = update s.status t st }) xs
  moved s xs t st w f = record {
    queue = w.queue;
    threads = λ u. elim (update_cases s.status t st u) [
      | inl (e, v) ↦ rw (v, e) f
      | inr (n, v) ↦ rw v (w.threads u)
    ];
  }

  -- What job_find answered is right for the thread.
  seen :
      (s : Shared) (xs : Cells Task) (t jp : ℕ)
      → Inv s xs
      → find pthread_equal (λ x. x.j_id) t xs ≡ jp
      → Fine xs s.due t (if jp == 0 then waiting else holding jp)
  seen s xs t jp w e =
      elim (find_cases pthread_equal (λ x. x.j_id) t s.queue.heap 0 xs 0 w.queue.chain) [
        | inl (z, gone) ↦ rw (sym e, z) (inl gone)
        | inr found ↦
            rw (sym e, eq_not (find pthread_equal (λ x. x.j_id) t xs) 0 found.0)
              (found.1, found.2, found.3)
      ]

  find_pass-Inv :
      (fuel t : ℕ) (s s' : Shared) (xs : Cells Task)
      → Inv s xs
      → find_pass pthread_equal fuel t s ≡ some s'
      → Inv s' xs
  unfolding find_pass
  find_pass-Inv fuel t s s' xs w r =
      answer (job_find pthread_equal (λ x. x.j_id) (pos 0) fuel t s.queue) refl r
    where
      answer :
          (o : Option ℕ)
          → job_find pthread_equal (λ x. x.j_id) (pos 0) fuel t s.queue ≡ o
          → (o >>= λ jp.
              some
                (record s { status = update s.status t (if jp == 0 then waiting else holding jp) }))
            ≡ some s'
          → Inv s' xs
      answer none e r = absurd (grind arith)
      answer (some jp) e r =
          subst (λ u. Inv u xs) (some_inj.0 r)
            (moved s xs t (if jp == 0 then waiting else holding jp) w (
              seen s xs t jp w
                (job_find-only pthread_equal (λ x. x.j_id) fuel t s.queue xs jp w.queue e)))

  -- A cell that the list does not hold is freed.
  freed-IsQueue :
      (jp : ℕ) (q : Jobs Task) (xs : Cells Task)
      → IsQueue q xs
      → Avoids jp xs
      → IsQueue (record q { heap = freed jp q.heap }) xs
  freed-IsQueue jp q xs w out = record {
    chain = Seg-same q.heap (freed jp q.heap) 0 xs 0 (same xs out) w.chain;
    head = w.head;
    tail = w.tail;
  }
    where
      same : (xs : Cells Task) → Avoids jp xs → All (λ c. freed jp q.heap c.0 ≡ q.heap c.0) xs
      same [] o = tt
      same (c ∷ xs) o = (ground arith, same xs o.1)

  module _ (only : (a t u : ℕ) → pthread_equal a t ≡ true → pthread_equal a u ≡ true → t ≡ u) where
    -- The job of thread `t` left the list.
    others :
        (s : Shared) (ys : Cells Task) (jp : ℕ) (x : Task) (zs : Cells Task) (t : ℕ)
        → Inv s (ys ++ (jp, x) ∷ zs)
        → pthread_equal x.j_id t ≡ true
        → (u : ℕ) (st : Status) → u ≢ t
        → Fine (ys ++ (jp, x) ∷ zs) s.due u st
        → Fine (ys ++ zs) s.due u st
    others s ys jp x zs t w e u ready ne f = tt
    others s ys jp x zs t w e u waiting ne (inl gone) = inl (All-cut _ ys (jp, x) zs gone)
    others s ys jp x zs t w e u waiting ne (inr due) = inr due
    others s ys jp x zs t w e u done ne f = tt
    others s ys jp x zs t w e u (holding k) ne (y, m, ey) =
        let other : jp ≢ k = λ same.
          let m' : Has jp y (ys ++ (jp, x) ∷ zs) =
            subst (λ a. Has a y (ys ++ (jp, x) ∷ zs)) (sym same) m in
          let xy = Has-only s.queue.heap 0 ys jp x y zs 0 w.queue.chain m' in
          ne (sym (only x.j_id t u e (ap (λ z. pthread_equal z.j_id u) xy ∙ ey))) in
        (y, Has-cut k y ys jp x zs m other, ey)

    -- A thread that was given a job takes it out of the queue.
    pub finish-Inv :
        (t jp : ℕ) (s : Shared) (xs : Cells Task)
        → Inv s xs
        → s.status t ≡ holding jp
        → (s' : Shared) × (zs : Cells Task) × (finish t jp s ≡ some s')
          × (s'.status t ≡ done)
          × Inv s' zs
    unfolding finish
    finish-Inv t jp s xs w st =
        let (x, m, e) = subst (Fine xs s.due t) st (w.threads t) in
        let (ys, zs, split) = Has-split jp x xs m in
        let w' = subst (Inv s) split w in
        let (q, eq, iq) = job_remove-append ys jp x zs s.queue w'.queue in
        let c = Seg-Cut s.queue.heap 0 ys jp x zs 0 w'.queue.chain in
        let out = All-append (λ k. k.0 ≢ jp) ys zs c.out_front c.out_back in
        (
          record s { queue = record q { heap = freed jp q.heap }; status = update s.status t done },
          ys ++ zs,
          rw eq,
          update_self s.status t done,
          record {
            queue = freed-IsQueue jp q (ys ++ zs) iq out;
            threads = λ u. elim (update_cases s.status t done u) [
              | inl (same, v) ↦ rw v tt
              | inr (ne, v) ↦ rw v (others s ys jp x zs t w' e u (s.status u) ne (w'.threads u))
            ];
          },
        )

    Step-Inv :
        {s s' : Shared} (xs : Cells Task)
        → Inv s xs
        → Step pthread_equal s s'
        → (ys : Cells Task) × Inv s' ys
    unfolding schedule_insert schedule_append job_insert_due job_append_due
    Step-Inv {s} {s'} xs w (inserts jp n p x nz free r) =
        let (out, q) = fresh jp n p x s.queue xs w.queue free in
        let b =
          job_insert-cons jp n p x (malloced jp n p x s.queue) xs q nz
            (write_self s.queue.heap jp _) out in
        ((jp, x) ∷ xs, linked-Inv s _ xs ((jp, x) ∷ xs) s' w b (λ k y m. inr m) r)
    Step-Inv {s} {s'} xs w (appends jp n p x nz free r) =
        let (out, q) = fresh jp n p x s.queue xs w.queue free in
        let b =
          job_append-snoc jp n p x (malloced jp n p x s.queue) xs q nz
            (write_self s.queue.heap jp _) out in
        (snoc xs jp x, linked-Inv s _ xs (snoc xs jp x) s' w b (λ k y m. Has-append k y xs _ m) r)
    Step-Inv {s} xs w (broadcasts due) = (xs, broadcast-Inv s xs w)
    Step-Inv {s} {s'} xs w (finds fuel t st r) = (xs, find_pass-Inv fuel t s s' xs w r)
    Step-Inv {s} xs w (wakes t st) = (xs, moved s xs t ready w tt)
    Step-Inv {s} {s'} xs w (finishes t jp st r) =
        let (u, zs, e, d, v) = finish-Inv t jp s xs w st in
        (zs, subst (λ k. Inv k zs) (some_inj.0 (sym e ∙ r)) v)

    start-Inv : (qp : Jobs Task) → Inv (start qp) []
    unfolding queue_init
    start-Inv qp = record {
      queue = record { chain = tt; head = refl; tail = refl };
      threads = λ t. tt;
    }

    pub Steps-Inv :
        (qp : Jobs Task) {s : Shared}
        → Steps pthread_equal (start qp) s
        → (xs : Cells Task) × Inv s xs
    Steps-Inv qp here = ([], start-Inv qp)
    Steps-Inv qp (next r st) = let (xs, w) = Steps-Inv qp r in Step-Inv xs w st
