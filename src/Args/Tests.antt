-- ===== src/Args/Tests.antt =====
-- buf_args on a command line.
use apue.Prelude.{◌≡◌, refl, [], ◌∷◌, some, arith}
use apue.Text.{codes}
use apue.Args.{buf_args}
use apue.Args.Words.{join, buf_args-join, buf_args-white}

buf_args-join_example :
    buf_args 3 (join (codes "ls" ∷ codes "-l" ∷ codes "/" ∷ []))
    ≡ some (some (codes "ls" ∷ codes "-l" ∷ codes "/" ∷ []))
buf_args-join_example =
    buf_args-join 3 (codes "ls") (codes "-l" ∷ codes "/" ∷ []) (refl, (refl, tt))
      ((refl, (refl, tt)), ((refl, tt), tt)) (omega arith)

buf_args-white_example :
    buf_args 3 (9 ∷ join (codes "ls" ∷ codes "-l" ∷ []))
    ≡ some (some ((9 ∷ codes "ls") ∷ codes "-l" ∷ []))
buf_args-white_example =
    buf_args-white 3 9 (codes "ls") (codes "-l" ∷ []) refl (refl, (refl, tt))
      ((refl, (refl, tt)), tt) (omega arith) (omega arith)
