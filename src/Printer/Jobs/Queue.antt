-- ===== src/Printer/Jobs/Queue.antt =====
-- The job list as a list of jobs: add_job and replace_job.
use apue.Prelude.{
  ℕ, ◌≡◌, ◌≢◌, refl, sym, ap, ◌∙◌, inl, inr, false, [], ◌∷◌, Option, some, ◌==◌, arith, append-All,
}
use apue.Dll.{write, set_next, set_prev}
use apue.Dll.Seg.{
  Cells, node, Avoids, first, last, Seg, write_self, write_ne, Seg-write, Seg-set_prev, snoc,
  first-snoc, last-snoc, Seg-snoc, snoc-Seg, snoc_cases, set_next_at, set_prev_at,
}
use apue.Printer.Jobs.{Jobs, add_job, replace_job}

-- The list holds exactly these jobs, in this order.
pub record IsQueue {A : Type 0} (s : Jobs A) (xs : Cells A) : Type 0 where
  pub chain : Seg s.heap 0 xs 0
  pub head : s.head ≡ first xs 0
  pub tail : s.tail ≡ last 0 xs

-- What a list operation leaves.
abbrev pub Becomes : {A : Type 0} → Option (Jobs A) → Cells A → Type 0
Becomes {A} o xs = (s' : Jobs A) × (o ≡ some s') × IsQueue s' xs

pub not_zero : (n : ℕ) → n ≢ 0 → (n == 0) ≡ false
not_zero n h = ground arith

module _ {A : Type 0} (jp : ℕ) (job : A) (s : Jobs A) (nz : jp ≢ 0) where
  add_job-nil : IsQueue s [] → Becomes (add_job jp job s) ((jp, job) ∷ [])
  unfolding add_job
  add_job-nil q = (
    record { heap = write s.heap jp (node 0 s.tail job); head = jp; tail = jp },
    rw q.tail,
    record {
      chain = (nz, write_self s.heap jp _ ∙ ap (λ t. some (node 0 t job)) q.tail, tt, tt);
      head = refl;
      tail = refl;
    },
  )

  add_job-last :
      (ys : Cells A) (b : ℕ) (y : A)
      → IsQueue s (snoc ys b y)
      → Avoids jp (snoc ys b y)
      → Becomes (add_job jp job s) (snoc (snoc ys b y) jp job)
  unfolding add_job
  add_job-last ys b y q out =
      let (front, bz, at, apart) = snoc-Seg s.heap 0 ys b y 0 q.chain in
      let (out_ys, jb) = append-All (λ c. c.0 ≢ jp) ys ((b, y) ∷ []) out in
      let b_tail : s.tail ≡ b = q.tail ∙ last-snoc 0 ys b y in
      let h1 = write s.heap jp (node 0 s.tail job) in
      let h2 = write h1 b (node jp (last 0 ys) y) in
      let at1 : h1 b ≡ some (node 0 (last 0 ys) y) = write_ne s.heap jp b _ jb.0 ∙ at in
      let front2 =
        Seg-write h1 b (node jp (last 0 ys) y) 0 ys b apart
          (Seg-write s.heap jp _ 0 ys b out_ys front) in
      let last2 = Seg-snoc h2 0 ys b y jp front2 bz (write_self h1 b _) apart in
      let new2 : h2 jp ≡ some (node 0 (last 0 (snoc ys b y)) job) =
        write_ne h1 b jp _ (λ e. jb.0 (sym e))
        ∙ write_self s.heap jp _
        ∙ ap (λ t. some (node 0 t job)) q.tail in
      (
        record { heap = h2; head = s.head; tail = jp },
        rw (
          not_zero s.tail (λ e. bz (sym b_tail ∙ e)),
          ap (λ t. set_next t jp h1) b_tail ∙ set_next_at h1 b jp 0 (last 0 ys) y bz at1,
        ),
        record {
          chain = Seg-snoc h2 0 (snoc ys b y) jp job 0 last2 nz new2 out;
          head =
              q.head
              ∙ first-snoc ys b y 0
              ∙ sym (first-snoc ys b y jp)
              ∙ sym (first-snoc (snoc ys b y) jp job 0);
          tail = sym (last-snoc 0 (snoc ys b y) jp job);
        },
      )

-- add_job puts the job at the tail, whatever the list holds, given an address that malloc found free.
pub add_job-snoc :
    {A : Type 0} (jp : ℕ) (job : A) (s : Jobs A) (xs : Cells A)
    → IsQueue s xs
    → jp ≢ 0
    → Avoids jp xs
    → Becomes (add_job jp job s) (snoc xs jp job)
add_job-snoc jp job s xs q nz out = elim (snoc_cases xs) [
  | inl e ↦ rw e (add_job-nil jp job s nz (rw e at q))
  | inr (ys, b, y, e) ↦ rw e (add_job-last jp job s nz ys b y (rw e at q) (rw e at out))
]

-- replace_job puts a job that is not in the list in front of it.
pub replace_job-cons :
    {A : Type 0} (jp n p : ℕ) (job : A) (s : Jobs A) (xs : Cells A)
    → IsQueue s xs
    → jp ≢ 0
    → s.heap jp ≡ some (node n p job)
    → Avoids jp xs
    → Becomes (replace_job jp s) ((jp, job) ∷ xs)
unfolding replace_job
replace_job-cons jp n p job s [] q nz at out =
    let h1 = write s.heap jp (node n 0 job) in
    let h2 = write h1 jp (node s.head 0 job) in
    (
      record { heap = h2; head = jp; tail = jp },
      rw (
        set_prev_at s.heap jp 0 n p job nz at,
        set_next_at h1 jp s.head n 0 job nz (write_self s.heap jp _),
        q.head,
      ),
      record {
        chain = (nz, write_self h1 jp _ ∙ ap (λ t. some (node t 0 job)) q.head, tt, tt);
        head = refl;
        tail = refl;
      },
    )
replace_job-cons jp n p job s ((b, y) ∷ r) q nz at out =
    let h1 = write s.heap jp (node n 0 job) in
    let h2 = write h1 jp (node s.head 0 job) in
    let h3 = write h2 b (node (first r 0) jp y) in
    let chain2 =
      Seg-write h1 jp (node s.head 0 job) 0 ((b, y) ∷ r) 0 out
        (Seg-write s.heap jp (node n 0 job) 0 ((b, y) ∷ r) 0 out q.chain) in
    (
      record { heap = h3; head = jp; tail = s.tail },
      rw (
        set_prev_at s.heap jp 0 n p job nz at,
        set_next_at h1 jp s.head n 0 job nz (write_self s.heap jp _),
        not_zero s.head (λ e. q.chain.0 (sym q.head ∙ e)),
        ap (λ t. set_prev t jp h2) q.head ∙ set_prev_at h2 b jp (first r 0) 0 y q.chain.0 chain2.1,
      ),
      record {
        chain = (
          nz,
          write_ne h2 b jp _ (λ e. out.0 (sym e))
              ∙ write_self h1 jp _
              ∙ ap (λ t. some (node t 0 job)) q.head,
          out,
          Seg-set_prev h2 0 jp b y r 0 chain2,
        );
        head = refl;
        tail = q.tail;
      },
    )
