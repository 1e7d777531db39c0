-- ===== src/Printer/Jobs/Remove.antt =====
-- remove_job, and how printer_thread takes a job.
use apue.Prelude.{ℕ, ◌≡◌, refl, sym, ap, ap₂, ◌∙◌, inl, inr, [], ◌∷◌, ◌++◌, some, append-All}
use apue.Dll.{Node, write, set_next}
use apue.Dll.Seg.{
  Cells, node, Avoids, first, last, Seg, write_self, Seg-write, Seg-set_prev, snoc, first-snoc,
  last-snoc, Seg-snoc, snoc-Seg, snoc_cases, load_at, set_next_at, set_prev_at,
}
use apue.Dll.Split.{Disjoint, first-append, last-append, Seg-Cut, Seg-append, Avoids-head}
use apue.Printer.Jobs.{Jobs, remove_job_front, remove_job, take_job}
use apue.Printer.Jobs.Queue.{IsQueue, Becomes, not_zero}

-- The state between the two halves of remove_job.
record Halfway {A : Type 0} (s : Jobs A) (ys : Cells A) (t : ℕ) (zs : Cells A) : Type 0 where
  front : Seg s.heap 0 ys t
  back : Seg s.heap (last 0 ys) zs 0
  apart : Disjoint ys zs
  head : s.head ≡ first ys t
  tail : s.tail ≡ last (last 0 ys) zs

module _ {A : Type 0} (n : Node A) (s : Jobs A) (t : ℕ) (zs : Cells A)
    (next : n.next ≡ first zs 0) where
  remove_front-nil : Halfway s [] t zs → n.prev ≡ 0 → Becomes (remove_job_front n s) zs
  unfolding remove_job_front
  remove_front-nil w prev =
      (record s { head = n.next }, rw prev, record { chain = w.back; head = next; tail = w.tail })

  remove_front-snoc :
      (us : Cells A) (b : ℕ) (y : A)
      → Halfway s (snoc us b y) t zs
      → n.prev ≡ b
      → Becomes (remove_job_front n s) (snoc us b y ++ zs)
  unfolding remove_job_front
  remove_front-snoc us b y w prev =
      let (front, bz, at, apart) = snoc-Seg s.heap 0 us b y t w.front in
      let out = (append-All (λ c. Avoids c.0 zs) us ((b, y) ∷ []) w.apart).1.0 in
      let h = write s.heap b (node (first zs 0) (last 0 us) y) in
      let front' =
        Seg-snoc h 0 us b y (first zs 0) (Seg-write s.heap b _ 0 us b apart front) bz
          (write_self s.heap b _) apart in
      (
        record s { heap = h },
        rw (
          not_zero n.prev (λ e. bz (sym prev ∙ e)),
          ap₂ (λ p q. set_next p q s.heap) prev next
              ∙ set_next_at s.heap b (first zs 0) t (last 0 us) y bz at,
        ),
        record {
          chain =
              Seg-append h 0 (snoc us b y) zs 0 front' (Seg-write s.heap b _ _ zs 0 out w.back)
                w.apart;
          head =
              w.head
              ∙ first-snoc us b y t
              ∙ sym (first-snoc us b y (first zs 0))
              ∙ sym (first-append (snoc us b y) zs 0);
          tail = w.tail ∙ sym (last-append 0 (snoc us b y) zs);
        },
      )

  remove_front-append :
      (ys : Cells A)
      → Halfway s ys t zs
      → n.prev ≡ last 0 ys
      → Becomes (remove_job_front n s) (ys ++ zs)
  remove_front-append ys w prev = elim (snoc_cases ys) [
    | inl e ↦ rw e (remove_front-nil (rw e at w) (prev ∙ ap (last 0) e))
    | inr (us, b, y, e) ↦
        rw e (remove_front-snoc us b y (rw e at w) (prev ∙ ap (last 0) e ∙ last-snoc 0 us b y))
  ]

-- remove_job takes exactly the target out of the list, at the head, at the tail or in between, and
-- keeps the order of the other jobs.
pub remove_job-append :
    {A : Type 0} (ys : Cells A) (t : ℕ) (x : A) (zs : Cells A) (s : Jobs A)
    → IsQueue s (ys ++ (t, x) ∷ zs)
    → Becomes (remove_job t s) (ys ++ zs)
unfolding remove_job
remove_job-append ys t x [] s q =
    let c = Seg-Cut s.heap 0 ys t x [] 0 q.chain in
    let n = node 0 (last 0 ys) x in
    rw (load_at s.heap t n c.not_null c.at) (
      remove_front-append n (record s { tail = last 0 ys }) t [] refl ys
        (record {
          front = c.front;
          back = tt;
          apart = c.apart;
          head = q.head ∙ first-append ys ((t, x) ∷ []) 0;
          tail = refl;
        })
        refl)
remove_job-append ys t x ((a, z) ∷ zs) s q =
    let c = Seg-Cut s.heap 0 ys t x ((a, z) ∷ zs) 0 q.chain in
    let n = node a (last 0 ys) x in
    let h = write s.heap a (node (first zs 0) (last 0 ys) z) in
    rw
      (
        load_at s.heap t n c.not_null c.at,
        not_zero a c.back.0,
        set_prev_at s.heap a (last 0 ys) (first zs 0) t z c.back.0 c.back.1,
      )
      (remove_front-append n (record s { heap = h }) t ((a, z) ∷ zs) refl ys
        (record {
          front = Seg-write s.heap a _ 0 ys t (Avoids-head ys a z zs c.apart) c.front;
          back = Seg-set_prev s.heap t (last 0 ys) a z zs 0 c.back;
          apart = c.apart;
          head = q.head ∙ first-append ys ((t, x) ∷ (a, z) ∷ zs) 0;
          tail = q.tail ∙ last-append 0 ys ((t, x) ∷ (a, z) ∷ zs);
        })
        refl)

-- printer_thread takes the job at the head, and leaves the others in order.
take_job-cons :
    {A : Type 0} (t : ℕ) (x : A) (zs : Cells A) (s : Jobs A)
    → IsQueue s ((t, x) ∷ zs)
    → (s' : Jobs A) × (take_job s ≡ some (t, s')) × IsQueue s' zs
unfolding take_job
take_job-cons t x zs s q =
    let (s', e, q') = remove_job-append [] t x zs s q in
    (s', rw (ap (λ p. remove_job p s) q.head ∙ e) (ap (λ p. some (p, s')) q.head), q')
