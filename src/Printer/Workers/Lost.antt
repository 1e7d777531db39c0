-- ===== src/Printer/Workers/Lost.antt =====
-- add_worker on a list that is not empty.
use apue.Prelude.{
  ℕ, zero, suc, ◌≡◌, ◌≢◌, ◌≤◌, refl, sym, ap, ◌∙◌, false, List, [], ◌∷◌, some, ◌==◌, arith, length,
}
use apue.Dll.{Heap, write, set_prev}
use apue.Dll.Seg.{Cells, node, Avoids, first, Seg, Seg-write, Seg-set_prev, set_prev_at}
use apue.Printer.Workers.{Worker, Workers, add_worker, kill_workers}

-- `workers` heads exactly these workers; `prev` stands in the first one's prev.
pub record IsList (s : Workers) (prev : ℕ) (xs : Cells Worker) : Type 0 where
  pub chain : Seg s.heap prev xs 0
  pub head : s.head ≡ first xs 0

not_zero : (n : ℕ) → n ≢ 0 → (n == 0) ≡ false
not_zero n h = ground arith

abbrev pub tids : Cells Worker → List ℕ
tids [] = []
tids ((a, x) ∷ xs) = x.tid ∷ tids xs

-- The walk of kill_workers sees what the list holds; as many rounds as there are workers are enough.
kill-tids :
    (fuel : ℕ) (h : Heap Worker) (prev : ℕ) (xs : Cells Worker)
    → Seg h prev xs 0
    → length xs ≤ fuel
    → kill_workers fuel h (first xs 0) ≡ some (tids xs)
unfolding kill_workers
kill-tids zero h prev [] s e = refl
kill-tids (suc fuel) h prev [] s e = refl
kill-tids zero h prev (c ∷ xs) s e = absurd (omega arith)
kill-tids (suc fuel) h prev ((a, x) ∷ xs) s e =
    rw (not_zero a s.0, s.1, kill-tids fuel h a xs s.3 (omega arith))

-- A worker put in front of a list that is not empty: `workers` still heads the old list.
pub add_worker-IsList :
    (wtp : ℕ) (new : Worker) (s : Workers) (prev a : ℕ) (x : Worker) (xs : Cells Worker)
    → IsList s prev ((a, x) ∷ xs)
    → Avoids wtp ((a, x) ∷ xs)
    → (s' : Workers) × (add_worker wtp new s ≡ some s') × IsList s' wtp ((a, x) ∷ xs)
unfolding add_worker
add_worker-IsList wtp new s prev a x xs l out =
    let h1 = write s.heap wtp (node s.head 0 new) in
    let c1 = Seg-write s.heap wtp (node s.head 0 new) prev ((a, x) ∷ xs) 0 out l.chain in
    (
      record { heap = write h1 a (node (first xs 0) wtp x); head = s.head },
      rw (
        not_zero s.head (λ e. c1.0 (sym l.head ∙ e)),
        ap (λ p. set_prev p wtp h1) l.head ∙ set_prev_at h1 a wtp (first xs 0) prev x c1.0 c1.1,
      ),
      record { chain = Seg-set_prev h1 prev wtp a x xs 0 c1; head = l.head },
    )

-- A worker that add_worker adds while the list holds another one is lost: kill_workers then cancels
-- exactly the workers that were in the list before, for any list that is not empty, any new worker
-- at an address that is not in the list and a walk of at least as many rounds as there are workers.
pub kill-add_worker :
    (wtp : ℕ) (new : Worker) (s : Workers) (prev a : ℕ) (x : Worker) (xs : Cells Worker) (fuel : ℕ)
    → IsList s prev ((a, x) ∷ xs)
    → Avoids wtp ((a, x) ∷ xs)
    → length ((a, x) ∷ xs) ≤ fuel
    → (s' : Workers) × (add_worker wtp new s ≡ some s')
      × (kill_workers fuel s'.heap s'.head ≡ some (tids ((a, x) ∷ xs)))
kill-add_worker wtp new s prev a x xs fuel l out e =
    let (s', added, l') = add_worker-IsList wtp new s prev a x xs l out in
    (
      s',
      added,
      ap (kill_workers fuel s'.heap) l'.head ∙ kill-tids fuel s'.heap wtp ((a, x) ∷ xs) l'.chain e,
    )
