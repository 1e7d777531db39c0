-- ===== src/Args/Words.antt =====
-- buf_args on words.
use apue.Prelude.{
  ℕ, zero, suc, ◌+◌, ◌≤◌, ◌<◌, ◌≡◌, refl, ap, ap₂, ◌∙◌, inl, inr, true, false, Bool-cases, List, [],
  ◌∷◌, ◌++◌, none, some, leb, if◌then◌else◌, arith, length, All,
}
use apue.Text.{Bytes}
use apue.Args.{
  first_token, white, skip, token, strtok, add_arg, round, rest_args, all_args, buf_args,
}

-- At least one byte, and no white space.
abbrev pub IsWord : Bytes → Type 0
IsWord [] = ⊥
IsWord (c ∷ s) = (white c ≡ false) × All (λ b. white b ≡ false) s

-- The words with one space between two.
abbrev pub join : List Bytes → Bytes
join [] = []
join (w ∷ []) = w
join (w ∷ v ∷ vs) = w ++ 32 ∷ join (v ∷ vs)

token-word : (w : Bytes) → All (λ b. white b ≡ false) w → token w ≡ (w, [])
unfolding token
token-word [] h = refl
token-word (c ∷ s) h = rw (h.0, token-word s h.1)

token-append : (w s : Bytes) → All (λ b. white b ≡ false) w → token (w ++ 32 ∷ s) ≡ (w, s)
unfolding token
token-append [] s h = refl
token-append (c ∷ w) s h = rw (h.0, token-append w s h.1)

skip-word : (c : ℕ) (s : Bytes) → white c ≡ false → skip (c ∷ s) ≡ ([], c ∷ s)
unfolding skip
skip-word c s h = rw h

skip-white : (c : ℕ) (s : Bytes) → white c ≡ true → skip (c ∷ s) ≡ (c ∷ (skip s).0, (skip s).1)
unfolding skip
skip-white c s h = rw h

strtok-front : (c : ℕ) (s : Bytes) → white c ≡ false → strtok (c ∷ s) ≡ some (token (c ∷ s))
strtok-front c s h = ap (λ (r : Bytes × Bytes). first_token r.1) (skip-word c s h)

strtok-join : (w : Bytes) (ws : List Bytes) → IsWord w → strtok (join (w ∷ ws)) ≡ some (w, join ws)
strtok-join [] ws h = absurd h
strtok-join (c ∷ w) [] h = strtok-front c w h.0 ∙ ap some (token-word (c ∷ w) h)
strtok-join (c ∷ w) (v ∷ vs) h =
    strtok-front c (w ++ 32 ∷ join (v ∷ vs)) h.0 ∙ ap some (token-append (c ∷ w) (join (v ∷ vs)) h)

counted :
    (a b : ℕ)
    → a ≡ b
    → (w : Bytes) (ws : List Bytes)
    → add_arg w (some (if leb a 48 then some ws else none))
      ≡ some (if leb b 48 then some (w ∷ ws) else none)
counted a b e w ws = elim (Bool-cases (leb b 48)) [ inl y ↦ rw (e, y) | inr n ↦ rw (e, n) ]

rest_args-join :
    (fuel argc : ℕ) (ws : List Bytes)
    → All IsWord ws
    → length ws < fuel
    → argc ≤ 48
    → rest_args fuel argc (join ws) ≡ some (if leb (argc + length ws) 48 then some ws else none)
unfolding rest_args skip
rest_args-join zero argc ws h lt k = absurd (omega arith)
rest_args-join (suc fuel) argc [] h lt k = ground arith
rest_args-join (suc fuel) argc (w ∷ ws) h lt k =
    ap (round (rest_args fuel (argc + 1)) argc) (strtok-join w ws h.0)
    ∙ elim (Bool-cases (leb 49 (argc + 1))) [
      | inl full ↦ ground arith
      | inr room ↦
          let rest = rest_args-join fuel (argc + 1) ws h.1 (omega arith) (ground arith) in
          rw (room, rest)
            (counted (argc + 1 + length ws) (argc + suc (length ws)) (omega arith) w ws)
    ]

front-word : (w : Bytes) (ws : List Bytes) → IsWord w → (skip (join (w ∷ ws))).0 ≡ []
front-word [] ws h = absurd h
front-word (c ∷ w) [] h = ap (λ (r : Bytes × Bytes). r.0) (skip-word c w h.0)
front-word (c ∷ w) (v ∷ vs) h =
    ap (λ (r : Bytes × Bytes). r.0) (skip-word c (w ++ 32 ∷ join (v ∷ vs)) h.0)

-- buf_args of words, each of at least one byte that is no white space and with a space between
-- two, passes exactly the words as argv if they are at most 49, and returns -1 if they are more.
-- The fuel is greater than the number of words behind the first.
pub buf_args-join :
    (fuel : ℕ) (w : Bytes) (ws : List Bytes)
    → IsWord w
    → All IsWord ws
    → length ws < fuel
    → buf_args fuel (join (w ∷ ws)) ≡ some (if leb (length ws) 48 then some (w ∷ ws) else none)
unfolding buf_args
buf_args-join fuel w ws h hs lt =
    ap₂ (all_args fuel) (front-word w ws h) (strtok-join w ws h)
    ∙ ap (add_arg w) (rest_args-join fuel 0 ws hs lt (omega arith))
    ∙ counted (0 + length ws) (length ws) (omega arith) w ws

-- With a byte of white space in front of at most 49 words, argv[0] is the white space and the
-- first word, and the other arguments are the words. The fuel is greater than the number of words
-- behind the first.
pub buf_args-white :
    (fuel c : ℕ) (w : Bytes) (ws : List Bytes)
    → white c ≡ true
    → IsWord w
    → All IsWord ws
    → length ws < fuel
    → length ws ≤ 48
    → buf_args fuel (c ∷ join (w ∷ ws)) ≡ some (some ((c ∷ w) ∷ ws))
unfolding buf_args
buf_args-white fuel c w ws b h hs lt le =
    let s = join (w ∷ ws) in
    let step = skip-white c s b in
    let fits : leb (length ws) 48 ≡ true = ground arith in
    ap₂ (all_args fuel) (ap (λ (r : Bytes × Bytes). r.0) step ∙ ap (λ l. c ∷ l) (front-word w ws h))
      (ap (λ (r : Bytes × Bytes). first_token r.1) step ∙ strtok-join w ws h)
    ∙ ap (add_arg (c ∷ w)) (rest_args-join fuel 0 ws hs lt (omega arith))
    ∙ counted (0 + length ws) (length ws) (omega arith) (c ∷ w) ws
    ∙ ap (λ b. some (if b then some ((c ∷ w) ∷ ws) else none)) fits
