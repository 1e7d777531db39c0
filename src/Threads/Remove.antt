-- ===== src/Threads/Remove.antt =====
-- job_remove of rwlock.c against remove_job of printd.c.
use apue.Prelude.{
  ℕ, ◌≡◌, ◌≢◌, sym, ap, subst, ◌∙◌, inl, inr, false, [], ◌∷◌, ◌++◌, some, ◌==◌, ==_refl, arith,
  append-All,
}
use apue.Dll.{write}
use apue.Dll.Seg.{
  Cells, node, Avoids, first, last, write_ne, snoc, last-snoc, snoc-Seg, snoc_cases, load_at,
  set_next_at, set_prev_at,
}
use apue.Dll.Split.{Cut, Seg-Cut, first-append, last-append, Avoids-head}
use apue.Printer.Jobs.{Jobs, remove_job, remove_job_front}
use apue.Printer.Jobs.Queue.{IsQueue, Becomes, not_zero}
use apue.Printer.Jobs.Remove.{remove_job-append}
use apue.Threads.{remove_head, remove_middle, job_remove}
use apue.Threads.Same.{write_swap}

eq_not : (a b : ℕ) → a ≢ b → (a == b) ≡ false
eq_not a b ne = ground arith

module _ {A : Type 0} where
  last_ne : (t a : ℕ) (z : A) (zs : Cells A) → Avoids t ((a, z) ∷ zs) → last a zs ≢ t
  last_ne t a z [] o = o.0
  last_ne t a z ((b, w) ∷ zs) o = last_ne t b w zs o.1

  first_ne : (t b : ℕ) (y : A) (us : Cells A) → Avoids t (snoc us b y) → first (snoc us b y) t ≢ t
  first_ne t b y [] o = o.0
  first_ne t b y (u ∷ us) o = o.0

  same_head-one :
      (t : ℕ) (x : A) (s : Jobs A) → IsQueue s ((t, x) ∷ []) → job_remove t s ≡ remove_job t s
  unfolding job_remove remove_job remove_job_front remove_head
  same_head-one t x s q = rw (
    q.head,
    q.tail,
    ==_refl t,
    load_at s.heap t (node 0 0 x) q.chain.0 q.chain.1,
    remove_head,
    remove_job_front,
  )

  same_head-more :
      (t : ℕ) (x : A) (a : ℕ) (z : A) (zs : Cells A) (s : Jobs A)
      → IsQueue s ((t, x) ∷ (a, z) ∷ zs)
      → job_remove t s ≡ remove_job t s
  unfolding job_remove remove_job remove_job_front remove_head
  same_head-more t x a z zs s q =
      let back = q.chain.3 in
      rw (
        q.head,
        q.tail,
        ==_refl t,
        load_at s.heap t (node a 0 x) q.chain.0 q.chain.1,
        eq_not (last a zs) t (last_ne t a z zs q.chain.2),
        not_zero a back.0,
        set_prev_at s.heap a 0 (first zs 0) t z back.0 back.1,
        remove_head,
        remove_job_front,
      )

  -- The job `t` behind the job `b`.
  module _ (us : Cells A) (b : ℕ) (y : A) (t : ℕ) (x : A) (zs : Cells A) (s : Jobs A)
      (q : IsQueue s (snoc us b y ++ (t, x) ∷ zs)) where
    cut : Cut s.heap 0 (snoc us b y) t x zs 0
    cut = Seg-Cut s.heap 0 (snoc us b y) t x zs 0 q.chain

    at_t : s.heap t ≡ some (node (first zs 0) b x)
    at_t = cut.at ∙ ap (λ p. some (node (first zs 0) p x)) (last-snoc 0 us b y)

    head_not : (t == s.head) ≡ false
    head_not = eq_not t s.head (λ e.
        first_ne t b y us cut.out_front
          (sym (first-append (snoc us b y) ((t, x) ∷ zs) 0) ∙ sym q.head ∙ sym e))

    tail_last : s.tail ≡ last t zs
    tail_last = q.tail ∙ last-append 0 (snoc us b y) ((t, x) ∷ zs)

  same_tail :
      (us : Cells A) (b : ℕ) (y : A) (t : ℕ) (x : A) (s : Jobs A)
      → IsQueue s (snoc us b y ++ (t, x) ∷ [])
      → job_remove t s ≡ remove_job t s
  unfolding job_remove remove_job remove_job_front
  same_tail us b y t x s q =
      let c = cut us b y t x [] s q in
      let (front, bz, at, apart) = snoc-Seg s.heap 0 us b y t c.front in
      rw (
        head_not us b y t x [] s q,
        tail_last us b y t x [] s q,
        ==_refl t,
        load_at s.heap t (node 0 b x) c.not_null (at_t us b y t x [] s q),
        not_zero b bz,
        set_next_at s.heap b 0 t (last 0 us) y bz at,
        remove_job_front,
      )

  same_middle :
      (us : Cells A) (b : ℕ) (y : A) (t : ℕ) (x : A) (a : ℕ) (z : A) (zs : Cells A) (s : Jobs A)
      → IsQueue s (snoc us b y ++ (t, x) ∷ (a, z) ∷ zs)
      → job_remove t s ≡ remove_job t s
  unfolding job_remove remove_job remove_job_front remove_middle
  same_middle us b y t x a z zs s q =
      let c = cut us b y t x ((a, z) ∷ zs) s q in
      let (front, bz, at, apart) = snoc-Seg s.heap 0 us b y t c.front in
      let at_a = c.back.1 in
      let az = c.back.0 in
      let t_at = at_t us b y t x ((a, z) ∷ zs) s q in
      let ne_tb : t ≢ b =
        λ e. (append-All (λ k. k.0 ≢ t) us ((b, y) ∷ []) c.out_front).1.0 (sym e) in
      let out = Avoids-head (snoc us b y) a z zs c.apart in
      let ne_ab : a ≢ b = λ e. (append-All (λ k. k.0 ≢ a) us ((b, y) ∷ []) out).1.0 (sym e) in
      let hb = write s.heap b (node a (last 0 us) y) in
      let ha = write s.heap a (node (first zs 0) b z) in
      rw (
        head_not us b y t x ((a, z) ∷ zs) s q,
        tail_last us b y t x ((a, z) ∷ zs) s q,
        eq_not t (last a zs) (λ e. last_ne t a z zs c.out_back (sym e)),
        load_at s.heap t (node a b x) c.not_null t_at,
        not_zero a az,
        remove_middle,
        set_next_at s.heap b a t (last 0 us) y bz at,
        load_at hb t (node a b x) c.not_null (write_ne s.heap b t _ ne_tb ∙ t_at),
        set_prev_at hb a b (first zs 0) t z az (write_ne s.heap b a _ ne_ab ∙ at_a),
        set_prev_at s.heap a b (first zs 0) t z az at_a,
        remove_job_front,
        not_zero b bz,
        set_next_at ha b a t (last 0 us) y bz (write_ne s.heap a b _ (λ e. ne_ab (sym e)) ∙ at),
        write_swap s.heap b a (node a (last 0 us) y) (node (first zs 0) b z) (λ e. ne_ab (sym e)),
      )

  -- On a queue that holds the job, wherever in it, job_remove of rwlock.c leaves exactly the
  -- pointers that remove_job of printd.c leaves, though it looks at head and tail in place of the
  -- job's own pointers.
  pub job_remove-remove_job :
      (ys : Cells A) (t : ℕ) (x : A) (zs : Cells A) (s : Jobs A)
      → IsQueue s (ys ++ (t, x) ∷ zs)
      → job_remove t s ≡ remove_job t s
  job_remove-remove_job ys t x zs s q = elim (snoc_cases ys) [
    | inl e ↦ front_case zs (subst (λ l. IsQueue s (l ++ (t, x) ∷ zs)) e q)
    | inr (us, b, y, e) ↦ behind us b y zs (subst (λ l. IsQueue s (l ++ (t, x) ∷ zs)) e q)
  ]
    where
      front_case : (zs : Cells A) → IsQueue s ((t, x) ∷ zs) → job_remove t s ≡ remove_job t s
      front_case [] q = same_head-one t x s q
      front_case ((a, z) ∷ zs) q = same_head-more t x a z zs s q

      behind :
          (us : Cells A) (b : ℕ) (y : A) (zs : Cells A)
          → IsQueue s (snoc us b y ++ (t, x) ∷ zs)
          → job_remove t s ≡ remove_job t s
      behind us b y [] q = same_tail us b y t x s q
      behind us b y ((a, z) ∷ zs) q = same_middle us b y t x a z zs s q

  pub job_remove-append :
      (ys : Cells A) (t : ℕ) (x : A) (zs : Cells A) (s : Jobs A)
      → IsQueue s (ys ++ (t, x) ∷ zs)
      → Becomes (job_remove t s) (ys ++ zs)
  job_remove-append ys t x zs s q =
      subst (λ r. Becomes r (ys ++ zs)) (sym (job_remove-remove_job ys t x zs s q))
        (remove_job-append ys t x zs s q)
