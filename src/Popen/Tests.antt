-- ===== src/Popen/Tests.antt =====
-- popen and pclose at concrete tables.
use apue.Prelude.{ℕ, ◌≡◌, refl, true, List, [], ◌∷◌, none, some, arith, replicate}
use apue.Prelude.Int.{pos}
use apue.Text.{codes}
use apue.Popen.{
  Table, popen, reads, close, dup2, close_children, popen_child, status, eintr, stat, pclose,
}
use apue.Popen.Close.{succeeds, pclose-popen}

abbrev table : List ℕ
table = 0 ∷ 0 ∷ 0 ∷ 71 ∷ 0 ∷ 0 ∷ []

reads_r : reads (codes "r") ≡ some true
unfolding reads
reads_r = refl

pclose-popen_example :
    (t' : Table) × (popen (succeeds (4, 5) 80 6) (codes "r") none ≡ (some 4, 5 ∷ [], t'))
    × (pclose 4 true (eintr ∷ eintr ∷ status (pos 1) ∷ []) t'
        ≡ (some (stat (pos 1)), some (replicate 6 0)))
pclose-popen_example =
    pclose-popen (4, 5) 80 6 none (codes "r") true 2 (pos 1) [] true (omega arith) (omega arith)
      reads_r

-- The child of an "r" stream writes to the pipe, and closes what an earlier popen left open.
child_runs : popen_child true (4, 5) table ≡ close 4 ∷ dup2 5 1 ∷ close 5 ∷ close 3 ∷ []
unfolding popen_child close_children
child_runs = refl
