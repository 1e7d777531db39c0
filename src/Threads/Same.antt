-- ===== src/Threads/Same.antt =====
-- The operations of rwlock.c against those of printd.c, which write the same pointers in another order.
use apue.Prelude.{
  ℕ, ◌≡◌, ◌≢◌, refl, sym, ap, subst, ◌∙◌, fun_ext, inl, inr, Bool-cases, ◌∷◌, Option, none, some,
  ◌==◌, if◌then◌else◌, arith,
}
use apue.Dll.{Node, Heap, write, load, set_next, set_prev, ◌>>=◌}
use apue.Dll.Seg.{Cells, node, Avoids, write_self, snoc, set_next_at, set_prev_at}
use apue.Printer.Jobs.{Jobs, add_job, replace_job}
use apue.Printer.Jobs.Queue.{IsQueue, Becomes, add_job-snoc, replace_job-cons}
use apue.Threads.{job_insert, job_append}

assoc :
    {B C D : Type 0} (m : Option B) (f : B → Option C) (k : C → Option D)
    → (m >>= λ x. f x >>= k) ≡ (m >>= f >>= k)
assoc none f k = refl
assoc (some b) f k = refl

module _ {A : Type 0} where
  -- Of two writes at one address the second stays.
  pub write_write : (h : Heap A) (a : ℕ) (n m : Node A) → write (write h a n) a m ≡ write h a m
  unfolding write
  write_write h a n m = fun_ext (λ b. elim (Bool-cases (b == a)) [ inl y ↦ rw y | inr y ↦ rw y ])

  -- Writes at two addresses may change places.
  pub write_swap :
      (h : Heap A) (a b : ℕ) (n m : Node A)
      → a ≢ b
      → write (write h a n) b m ≡ write (write h b m) a n
  unfolding write
  write_swap h a b n m ne = fun_ext (λ c. ground arith)

  load-some : (h : Heap A) (a : ℕ) (n : Node A) → load h a ≡ some n → (a ≢ 0) × (h a ≡ some n)
  load-some h a n e = elim (Bool-cases (a == 0)) [
    | inl y ↦ grind arith
    | inr y ↦ (grind arith, grind arith)
  ]

  set_next-none : (h : Heap A) (a q : ℕ) → load h a ≡ none → set_next a q h ≡ none
  unfolding set_next
  set_next-none h a q e = rw (e, set_next)

  set_prev-none : (h : Heap A) (a q : ℕ) → load h a ≡ none → set_prev a q h ≡ none
  unfolding set_prev
  set_prev-none h a q e = rw (e, set_prev)

  set_swap :
      (q p a : ℕ) (h : Heap A)
      → (set_next a q h >>= set_prev a p) ≡ (set_prev a p h >>= set_next a q)
  set_swap q p a h = at_load (load h a) refl
    where
      at_load :
          (r : Option (Node A))
          → load h a ≡ r
          → (set_next a q h >>= set_prev a p) ≡ (set_prev a p h >>= set_next a q)
      at_load none e = rw (set_next-none h a q e, set_prev-none h a p e)
      at_load (some n) e =
          let (nz, at) = load-some h a n e in
          let x = n.item in
          let h1 = write h a (node q n.prev x) in
          let h2 = write h a (node n.next p x) in
          rw (
            set_next_at h a q n.next n.prev x nz at,
            set_prev_at h a p n.next n.prev x nz at,
            set_prev_at h1 a p q n.prev x nz (write_self h a _),
            set_next_at h2 a q n.next p x nz (write_self h a _),
            write_write h a (node q n.prev x) (node q p x),
            write_write h a (node n.next p x) (node q p x),
          )

  -- Both pointers of the job, then the rest of the queue.
  abbrev in_front : ℕ → Jobs A → Heap A → Option (Jobs A)
  in_front jp qp h =
      if qp.head == 0
      then some (record { heap = h; head = jp; tail = jp })
      else (do h ← set_prev qp.head jp h; some (record { heap = h; head = jp; tail = qp.tail }))

  -- job_insert of rwlock.c and replace_job of printd.c leave the same pointers, or both follow a
  -- bad one, on any queue.
  job_insert-replace_job : (jp : ℕ) (qp : Jobs A) → job_insert jp qp ≡ replace_job jp qp
  unfolding job_insert replace_job
  job_insert-replace_job jp qp =
      assoc (set_next jp qp.head qp.heap) (set_prev jp 0) (in_front jp qp)
      ∙ ap (λ r. r >>= in_front jp qp) (set_swap qp.head 0 jp qp.heap)
      ∙ sym (assoc (set_prev jp 0 qp.heap) (set_next jp qp.head) (in_front jp qp))

  -- job_append links a job as add_job does its new one.
  job_append-add_job :
      (jp n p : ℕ) (job : A) (qp : Jobs A)
      → jp ≢ 0
      → qp.heap jp ≡ some (node n p job)
      → job_append jp qp ≡ add_job jp job qp
  unfolding job_append add_job
  job_append-add_job jp n p job qp nz at = rw (
    set_next_at qp.heap jp 0 n p job nz at,
    set_prev_at (write qp.heap jp (node 0 p job)) jp qp.tail 0 p job nz (write_self qp.heap jp _),
    write_write qp.heap jp (node 0 p job) (node 0 qp.tail job),
  )

-- What each operation leaves.
module _ {A : Type 0} where
  pub job_insert-cons :
      (jp n p : ℕ) (job : A) (s : Jobs A) (xs : Cells A)
      → IsQueue s xs
      → jp ≢ 0
      → s.heap jp ≡ some (node n p job)
      → Avoids jp xs
      → Becomes (job_insert jp s) ((jp, job) ∷ xs)
  job_insert-cons jp n p job s xs q nz at out =
      subst (λ r. Becomes r ((jp, job) ∷ xs)) (sym (job_insert-replace_job jp s))
        (replace_job-cons jp n p job s xs q nz at out)

  pub job_append-snoc :
      (jp n p : ℕ) (job : A) (s : Jobs A) (xs : Cells A)
      → IsQueue s xs
      → jp ≢ 0
      → s.heap jp ≡ some (node n p job)
      → Avoids jp xs
      → Becomes (job_append jp s) (snoc xs jp job)
  job_append-snoc jp n p job s xs q nz at out =
      subst (λ r. Becomes r (snoc xs jp job)) (sym (job_append-add_job jp n p job s nz at))
        (add_job-snoc jp job s xs q nz out)
