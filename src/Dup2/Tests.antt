-- ===== src/Dup2/Tests.antt =====
-- my_dup2 on a small kernel.
use apue.Prelude.{ℕ, suc, ◌≡◌, refl, List, [], ◌∷◌, Option, none, some, arith}
use apue.Prelude.Int.{ℤ, pos}
use apue.Dup2.{
  stack_size, stack_push, stack_pop, Closed, ok, same_fd, close_all, dup_loop, replace_fd, my_dup2,
}
use apue.Dup2.Closes.{holding, close_all-holding}

-- The world: the next descriptor that dup gives, and the descriptors that were closed.
abbrev World : Type 0
World = ℕ × List (Option ℤ)

abbrev dup : ℤ → World → ℤ × World
dup fd w = (pos (w.0), (suc (w.0), w.1))

abbrev close : Option ℤ → World → Closed × World
close fd w = (ok, (w.0, fd ∷ w.1))

close_all-holding_example :
    close_all dup close 3 (holding (pos 4) (some (pos 6) ∷ some (pos 5) ∷ []) none []) (7, [])
    ≡ some (7, some (pos 5) ∷ some (pos 6) ∷ none ∷ [])
close_all-holding_example =
    close_all-holding dup close (pos 4) (some (pos 6) ∷ some (pos 5) ∷ []) none [] (7, [])
      (omega arith)

-- From descriptor 3 to 7: 4 is never closed again, and something that was never written is.
dup2_runs :
    my_dup2 dup close 9 (pos 1) (pos 7) (3, [])
    ≡ some (pos 7, (8, some (pos 5) ∷ some (pos 6) ∷ none ∷ some (pos 7) ∷ some (pos 3) ∷ []))
unfolding my_dup2 replace_fd dup_loop close_all same_fd stack_size stack_push stack_pop
dup2_runs = refl
