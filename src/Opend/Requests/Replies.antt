-- ===== src/Opend/Requests/Replies.antt =====
-- The replies of handle_request.
use apue.Prelude.{
  ℕ, zero, suc, ◌+◌, ◌^◌, ◌<◌, ◌≤◌, ◌≡◌, ◌≢◌, refl, ap, ◌∙◌, inl, inr, Bool, true, false, List, [],
  ◌∷◌, ◌++◌, Option, none, some, arith, ◌==◌, leb, if◌then◌else◌, All, All-append, Bool-cases,
}
use apue.Prelude.Int.{ℤ, pos, negsuc, pos_part, neg_part, as_int_small}
use apue.Text.{Bytes, codes, c_str, str_eq, atol, atoi}
use apue.Args.{
  white, skip, strtok, first_token, round, add_arg, rest_args, all_args, buf_args, maxargc,
}
use apue.Args.Words.{IsWord, join, buf_args-join}
use apue.Opend.Requests.{
  Reply, Opener, cut_msg, reply_to, cli_args, send_err, parsed, last_byte, answer, on_args,
  with_args, handle_request, unterminated,
}
use apue.Opend.Requests.Reply.{error, descriptor}

some_added : (ptr : Bytes) (o : Option (Option (List Bytes))) → o ≢ none → add_arg ptr o ≢ none
some_added ptr none ne = ne
some_added ptr (some none) ne = λ e. absurd (grind arith)
some_added ptr (some (some args)) ne = λ e. absurd (grind arith)

some_picked :
    (ptr : Bytes) (c : Bool) (o : Option (Option (List Bytes)))
    → (c ≡ false → o ≢ none)
    → (if c then some none else add_arg ptr o) ≢ none
some_picked ptr true o ne = λ e. absurd (grind arith)
some_picked ptr false o ne = some_added ptr o (ne refl)

some_rest : (fuel argc : ℕ) (s : Bytes) → 49 ≤ fuel + argc → 1 ≤ fuel → rest_args fuel argc s ≢ none
unfolding rest_args
some_rest zero argc s enough more = absurd (omega arith)
some_rest (suc fuel) argc s enough more =
    go (strtok s) (λ t h. some_rest fuel (argc + 1) t (omega arith) h)
  where
    go :
        (o : Option (Bytes × Bytes))
        → ((t : Bytes) → 1 ≤ fuel → rest_args fuel (argc + 1) t ≢ none)
        → round (rest_args fuel (argc + 1)) argc o ≢ none
    go none ih = λ e. absurd (grind arith)
    go (some (ptr, t)) ih =
        some_picked ptr (leb 49 (argc + 1)) (rest_args fuel (argc + 1) t)
          (λ e. ih t (below (argc + 1) fuel (omega arith) e))
      where
        below : (a f : ℕ) → 49 ≤ f + a → leb 49 a ≡ false → 1 ≤ f
        below a f h e = ground arith

-- maxargc rounds are enough for any buffer.
some_args : (s : Bytes) → buf_args maxargc s ≢ none
unfolding buf_args
some_args s = go (strtok s)
  where
    go : (o : Option (Bytes × Bytes)) → all_args maxargc (skip s).0 o ≢ none
    go none = λ e. absurd (grind arith)
    go (some (ptr, t)) =
        some_added ((skip s).0 ++ ptr) (rest_args maxargc 0 t)
          (some_rest maxargc 0 t (omega arith) (omega arith))

last_byte-nul : (s : Bytes) → (last_byte (s ++ 0 ∷ []) == 0) ≡ true
unfolding last_byte
last_byte-nul [] = refl
last_byte-nul (c ∷ []) = refl
last_byte-nul (c ∷ d ∷ s) = last_byte-nul (d ∷ s)

c_str-nul : (s : Bytes) → All (λ c. c ≢ 0) s → c_str (s ++ 0 ∷ []) ≡ s
unfolding c_str
c_str-nul [] h = refl
c_str-nul (c ∷ s) h =
    let nonzero : (c == 0) ≡ false = let n = h.0 in ground arith in
    rw nonzero (ap (λ l. c ∷ l) (c_str-nul s h.1))

white-nonzero : (s : Bytes) → All (λ c. white c ≡ true) s → All (λ c. c ≢ 0) s
white-nonzero [] h = tt
white-nonzero (c ∷ s) h = (not_nul c h.0, white-nonzero s h.1)
  where
    not_nul : (c : ℕ) → white c ≡ true → c ≢ 0
    not_nul c h e = let d = ap white e in absurd (grind arith)

skip-all : (s : Bytes) → All (λ c. white c ≡ true) s → (skip s).1 ≡ []
unfolding skip
skip-all [] h = refl
skip-all (c ∷ s) h = rw h.0 (skip-all s h.1)

args-blank : (s : Bytes) → All (λ c. white c ≡ true) s → buf_args maxargc s ≡ some none
unfolding buf_args
args-blank s h = ap (λ t. all_args maxargc (skip s).0 (first_token t)) (skip-all s h)

module _ (open_file : Bytes → ℤ → ℤ) (strerror : Bytes → ℤ → Bytes) (sends : ℤ → ℕ → Bool)
    (clifd : ℤ) where
  -- A request that ends in its NUL.
  handle_request-nul :
      (s : Bytes) (uid : ℕ) (t : Opener)
      → All (λ c. c ≢ 0) s
      → handle_request open_file strerror sends (s ++ 0 ∷ []) clifd uid t
        ≡ with_args open_file strerror sends clifd t (buf_args maxargc s)
  unfolding handle_request
  handle_request-nul s uid t h =
      ap
        (λ c.
          if c
          then with_args open_file strerror sends clifd t (buf_args maxargc (c_str (s ++ 0 ∷ [])))
          else some
              (send_err clifd (record t { errmsg = cut_msg (unterminated (s ++ 0 ∷ []) uid) })))
        (last_byte-nul s)
      ∙ ap (λ l. with_args open_file strerror sends clifd t (buf_args maxargc l)) (c_str-nul s h)

  -- What a reply says, and what was closed.
  abbrev pub Told : Opener → Opener → Reply → Type 0
  Told s s' (error text) = (text ≡ s'.errmsg) × (s'.closed ≡ s.closed)
  Told s s' (descriptor fd) =
      (open_file s'.pathname s'.oflag ≡ pos fd) × (s'.closed ≡ fd ∷ s.closed)

  -- One reply was added.
  abbrev pub Answered : Opener → Option Opener → Type 0
  Answered s none = ⊥
  Answered s (some s') = (r : Reply) × (s'.replies ≡ (clifd, r) ∷ s.replies) × Told s s' r

  module _ (reaches : (fd : ℕ) → sends clifd fd ≡ true) where
    answer-Answered :
        (s t : Opener)
        → t.replies ≡ s.replies
        → t.closed ≡ s.closed
        → Answered s (answer open_file strerror sends clifd t)
    unfolding answer
    answer-Answered s t same closes = go (open_file t.pathname t.oflag) refl
      where
        go :
            (o : ℤ)
            → open_file t.pathname t.oflag ≡ o
            → Answered s (reply_to open_file strerror sends clifd t o)
        go (negsuc n) e = (
          error (
              cut_msg (
                codes "can't open "
                ++ t.pathname
                ++ codes ": "
                ++ strerror t.pathname t.oflag
                ++ codes "\n")),
          ap
              (λ l.
                (
                  clifd,
                  error (
                      cut_msg (
                        codes "can't open "
                        ++ t.pathname
                        ++ codes ": "
                        ++ strerror t.pathname t.oflag
                        ++ codes "\n")),
                )
                ∷ l)
              same,
          (refl, closes),
        )
        go (pos fd) e =
            rw (reaches fd) (
              descriptor fd,
              ap (λ l. (clifd, descriptor fd) ∷ l) same,
              (e, ap (λ l. fd ∷ l) closes),
            )

    parsed-same :
        (o : Option (List Bytes)) (s : Opener)
        → ((parsed o s).1.replies ≡ s.replies) × ((parsed o s).1.closed ≡ s.closed)
    unfolding cli_args
    parsed-same none s = (refl, refl)
    parsed-same (some []) s = (refl, refl)
    parsed-same (some (a ∷ [])) s = (refl, refl)
    parsed-same (some (a ∷ b ∷ [])) s = (refl, refl)
    parsed-same (some (a ∷ b ∷ c ∷ [])) s = elim (Bool-cases (str_eq a (codes "open"))) [
      | inl y ↦ rw y (refl, refl)
      | inr n ↦ rw n (refl, refl)
    ]
    parsed-same (some (a ∷ b ∷ c ∷ d ∷ l)) s = (refl, refl)

    on_args-Answered :
        (s : Opener) (r : ℤ × Opener)
        → r.1.replies ≡ s.replies
        → r.1.closed ≡ s.closed
        → Answered s (on_args open_file strerror sends clifd r)
    on_args-Answered s (negsuc n, t) same closes =
        (error t.errmsg, ap (λ l. (clifd, error t.errmsg) ∷ l) same, (refl, closes))
    on_args-Answered s (pos n, t) same closes = answer-Answered s t same closes

    with_args-Answered :
        (s : Opener) (o : Option (Option (List Bytes)))
        → o ≢ none
        → Answered s (with_args open_file strerror sends clifd s o)
    with_args-Answered s none ne = absurd (ne refl)
    with_args-Answered s (some o) ne =
        let (same, closes) = parsed-same o s in on_args-Answered s (parsed o s) same closes

    -- handle_request, on any bytes and with any globals, ends with exactly one reply to the client
    -- that asked, as long as send_fd reaches it: an error message, and then no descriptor is
    -- closed, or the descriptor that open gave for the pathname and the flags, which the server
    -- then closes.
    pub handle_request-Answered :
        (buf : Bytes) (uid : ℕ) (s : Opener)
        → Answered s (handle_request open_file strerror sends buf clifd uid s)
    unfolding handle_request
    handle_request-Answered buf uid s = go (last_byte buf == 0)
      where
        go :
            (c : Bool)
            → Answered s (
                if c
                then with_args open_file strerror sends clifd s (buf_args maxargc (c_str buf))
                else some (send_err clifd (record s { errmsg = cut_msg (unterminated buf uid) })))
        go true = with_args-Answered s (buf_args maxargc (c_str buf)) (some_args (c_str buf))
        go false = (error (cut_msg (unterminated buf uid)), refl, (refl, refl))

  -- On the request "open <pathname> <oflag>" with its NUL, the words of bytes that are neither
  -- white space nor NUL and the number that the flag spells one that an int holds, handle_request
  -- opens exactly the pathname with that number, and answers with what open gave.
  pub handle_request-join :
      (path flag : Bytes) (uid : ℕ) (s : Opener)
      → IsWord path
      → IsWord flag
      → All (λ c. c ≢ 0) path
      → All (λ c. c ≢ 0) flag
      → pos_part (atol flag) < 2 ^ 31
      → neg_part (atol flag) ≤ 2 ^ 31
      → handle_request open_file strerror sends
          (join (codes "open" ∷ path ∷ flag ∷ []) ++ 0 ∷ [])
          clifd
          uid
          s
        ≡ answer open_file strerror sends clifd (record s { pathname = path; oflag = atol flag })
  unfolding cli_args answer str_eq atoi
  handle_request-join path flag uid s hp hf np nf below above =
      handle_request-nul (join (codes "open" ∷ path ∷ flag ∷ [])) uid s (
        omega arith,
        (
          omega arith,
          (
            omega arith,
            (
              omega arith,
              (omega arith, All-append (λ c. c ≢ 0) path (32 ∷ flag) np (omega arith, nf)),
            ),
          ),
        ),
      )
      ∙ ap (with_args open_file strerror sends clifd s) (
          buf_args-join maxargc (codes "open") (path ∷ flag ∷ []) (refl, (refl, (refl, (refl, tt))))
            (hp, (hf, tt)) (omega arith))
      ∙ ap (λ n. answer open_file strerror sends clifd (record s { pathname = path; oflag = n }))
          (as_int_small (atol flag) below above)

  -- A request of nothing but white space is answered with what errmsg held before, an error
  -- message of an earlier request: buf_args fails before cli_args, which alone sets errmsg.
  pub handle_request-white :
      (blanks : Bytes) (uid : ℕ) (s : Opener)
      → All (λ c. white c ≡ true) blanks
      → handle_request open_file strerror sends (blanks ++ 0 ∷ []) clifd uid s
        ≡ some (send_err clifd s)
  handle_request-white blanks uid s h =
      handle_request-nul blanks uid s (white-nonzero blanks h)
      ∙ ap (with_args open_file strerror sends clifd s) (args-blank blanks h)
