-- ===== src/Opend/Requests/Tests.antt =====
-- handle_request on requests.
use apue.Prelude.{ℕ, ◌^◌, ◌<◌, ◌≤◌, ◌≡◌, refl, Bool, true, [], ◌∷◌, ◌++◌, some, arith}
use apue.Prelude.Int.{ℤ, pos, pos_part, neg_part}
use apue.Text.{Bytes, codes, atol}
use apue.Args.Words.{join}
use apue.Opend.Requests.{Opener, answer, handle_request, send_err}
use apue.Opend.Requests.Replies.{
  Answered, handle_request-Answered, handle_request-join, handle_request-white,
}

-- Every file opens as descriptor 5.
abbrev opens : Bytes → ℤ → ℤ
opens path flags = pos 5

abbrev no_text : Bytes → ℤ → Bytes
no_text path flags = []

abbrev always : ℤ → ℕ → Bool
always clifd fd = true

-- The last request was a wrong one.
abbrev before : Opener
before = record {
  errmsg = codes "can't open secret\n";
  pathname = [];
  oflag = pos 0;
  replies = [];
  closed = [];
}

handle_request-Answered_example :
    Answered opens no_text always
      (pos 4)
      before
      (handle_request opens no_text always (codes "open") (pos 4) 100 before)
handle_request-Answered_example =
    handle_request-Answered opens no_text always (pos 4) (λ fd. refl) (codes "open") 100 before

small_flag : (pos_part (atol (codes "2")) < 2 ^ 31) × (neg_part (atol (codes "2")) ≤ 2 ^ 31)
unfolding atol
small_flag = (omega arith, omega arith)

handle_request-join_example :
    handle_request opens no_text always
      (join (codes "open" ∷ codes "f" ∷ codes "2" ∷ []) ++ 0 ∷ [])
      (pos 4)
      100
      before
    ≡ answer opens no_text always
        (pos 4)
        (record before { pathname = codes "f"; oflag = atol (codes "2") })
handle_request-join_example =
    handle_request-join opens no_text always (pos 4) (codes "f") (codes "2") 100 before (refl, tt)
      (refl, tt) (omega arith, tt) (omega arith, tt) small_flag.0 small_flag.1

handle_request-white_example :
    handle_request opens no_text always (codes " " ++ 0 ∷ []) (pos 4) 100 before
    ≡ some (send_err (pos 4) before)
handle_request-white_example =
    handle_request-white opens no_text always (pos 4) (codes " ") 100 before (refl, tt)
