-- ===== src/Threads/Find.antt =====
-- job_find, and the queue as a list of jobs.
use apue.Prelude.{
  ℕ, zero, suc, ◌≡◌, ◌<◌, refl, some_inj, sym, ap, ◌∙◌, Bool, Bool-cases, inl, inr, [], ◌∷◌, some,
  if◌then◌else◌, arith, length,
}
use apue.Prelude.Int.{pos}
use apue.Dll.{Heap}
use apue.Dll.Seg.{Cells, first, Seg}
use apue.Printer.Jobs.{Jobs}
use apue.Printer.Jobs.Queue.{IsQueue, not_zero}
use apue.Threads.{find_from, job_find}

module _ {A : Type 0} (pthread_equal : ℕ → ℕ → Bool) (j_id : A → ℕ) where
  -- The first job of a thread, or NULL.
  abbrev pub find : ℕ → Cells A → ℕ
  find id [] = 0
  find id ((a, x) ∷ xs) = if pthread_equal (j_id x) id then a else find id xs

  find_from-Seg :
      (fuel id prev : ℕ) (h : Heap A) (xs : Cells A)
      → Seg h prev xs 0
      → length xs < fuel
      → find_from pthread_equal j_id fuel id (first xs 0) h ≡ some (find id xs)
  unfolding find_from
  find_from-Seg zero id prev h xs s lt = absurd (omega arith)
  find_from-Seg (suc fuel) id prev h [] s lt = refl
  find_from-Seg (suc fuel) id prev h ((a, x) ∷ xs) s lt =
      let e = find_from-Seg fuel id a h xs s.3 (omega arith) in
      elim (Bool-cases (pthread_equal (j_id x) id)) [
        | inl y ↦ rw (not_zero a s.0, s.1, y)
        | inr n ↦ rw (not_zero a s.0, s.1, n, e)
      ]

  -- With the lock granted and more fuel than there are jobs, job_find of rwlock.c stops, and
  -- returns the first job in the queue that pthread_equal matches with the thread, or NULL if
  -- there is none.
  pub job_find-find :
      (fuel id : ℕ) (s : Jobs A) (xs : Cells A)
      → IsQueue s xs
      → length xs < fuel
      → job_find pthread_equal j_id (pos 0) fuel id s ≡ some (find id xs)
  unfolding job_find
  job_find-find fuel id s xs q lt =
      ap (λ p. find_from pthread_equal j_id fuel id p s.heap) q.head
      ∙ find_from-Seg fuel id 0 s.heap xs q.chain lt

  find_from-only :
      (fuel id prev : ℕ) (h : Heap A) (xs : Cells A) (r : ℕ)
      → Seg h prev xs 0
      → find_from pthread_equal j_id fuel id (first xs 0) h ≡ some r
      → find id xs ≡ r
  unfolding find_from
  find_from-only zero id prev h xs r s e = absurd (grind arith)
  find_from-only (suc fuel) id prev h [] r s e = some_inj.0 e
  find_from-only (suc fuel) id prev h ((a, x) ∷ xs) r s e =
      elim (Bool-cases (pthread_equal (j_id x) id)) [
        | inl y ↦ rw y (some_inj.0 (rw (not_zero a s.0, s.1, y) at e))
        | inr n ↦ rw n (find_from-only fuel id a h xs r s.3 (rw (not_zero a s.0, s.1, n) at e))
      ]

  -- Whatever the fuel, an answer of job_find is the right one.
  pub job_find-only :
      (fuel id : ℕ) (s : Jobs A) (xs : Cells A) (r : ℕ)
      → IsQueue s xs
      → job_find pthread_equal j_id (pos 0) fuel id s ≡ some r
      → find id xs ≡ r
  unfolding job_find
  job_find-only fuel id s xs r q e =
      find_from-only fuel id 0 s.heap xs r q.chain
        (sym (ap (λ p. find_from pthread_equal j_id fuel id p s.heap) q.head) ∙ e)
