-- ===== src/Args.antt =====
-- buf_args (apue.3e/lib/bufargs.c), with strtok. A buffer is its bytes up to the NUL.
pub mod Words
pub mod Tests
use apue.Prelude.{
  ℕ, zero, suc, ◌+◌, ◌-◌, Bool, true, false, ◌||◌, List, [], ◌∷◌, ◌++◌, Option, none, some, leb,
  ◌==◌, if◌then◌else◌,
}
use apue.Text.{Bytes}

abbrev pub maxargc : ℕ
maxargc = 50

-- A byte of WHITE.
abbrev pub white : ℕ → Bool
white c = c == 32 || c == 9 || c == 10

-- The white space in front, and what follows it.
unfoldable pub skip : Bytes → Bytes × Bytes
skip [] = ([], [])
skip (c ∷ s) = let r = skip s in if white c then (c ∷ r.0, r.1) else ([], c ∷ s)

-- A token, and what stands behind the byte that ends it.
unfoldable pub token : Bytes → Bytes × Bytes
token [] = ([], [])
token (c ∷ s) = let r = token s in if white c then ([], s) else (c ∷ r.0, r.1)

-- strtok(…, WHITE): the token and the rest, or NULL.
abbrev pub first_token : Bytes → Option (Bytes × Bytes)
first_token [] = none
first_token (c ∷ t) = some (token (c ∷ t))

abbrev pub strtok : Bytes → Option (Bytes × Bytes)
strtok s = first_token (skip s).1

-- An argument in front of others.
abbrev pub add_arg : Bytes → Option (Option (List Bytes)) → Option (Option (List Bytes))
add_arg ptr none = none
add_arg ptr (some none) = some none
add_arg ptr (some (some args)) = some (some (ptr ∷ args))

-- One round of the while loop, given what the next rounds do.
abbrev pub round :
    (Bytes → Option (Option (List Bytes)))
    → ℕ
    → Option (Bytes × Bytes)
    → Option (Option (List Bytes))
round next argc none = some (some [])
round next argc (some (ptr, t)) =
    let rest = next t in if leb (maxargc - 1) (argc + 1) then some none else add_arg ptr rest

-- The while loop, for the arguments behind argv[argc]: `some none` where there are too many; none
-- without fuel.
unfoldable pub rest_args : ℕ → ℕ → Bytes → Option (Option (List Bytes))
rest_args zero argc s = none
rest_args (suc fuel) argc s = round (rest_args fuel (argc + 1)) argc (strtok s)

abbrev pub all_args : ℕ → Bytes → Option (Bytes × Bytes) → Option (Option (List Bytes))
all_args fuel front none = some none
all_args fuel front (some (ptr, t)) = add_arg (front ++ ptr) (rest_args fuel 0 t)

-- buf_args: the argv that optfunc gets, or `some none` for the -1. argv[0] is `buf`, the white space
-- in front of its token included.
unfoldable pub buf_args : ℕ → Bytes → Option (Option (List Bytes))
buf_args fuel buf = all_args fuel (skip buf).0 (strtok buf)
