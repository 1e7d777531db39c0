-- ===== src/Opend/Requests.antt =====
-- apue.3e/ipc2/opend/request.c and cliargs.c: what the open server does with a request. What it writes
-- to its log is left out; open, strerror and send_fd are parameters.
pub mod Replies
pub mod Tests
use apue.Prelude.{
  ℕ, zero, suc, ◌+◌, ◌-◌, Bool, true, false, List, [], ◌∷◌, ◌++◌, Option, none, some, ◌==◌,
  if◌then◌else◌, length, take,
}
use apue.Prelude.Int.{ℤ, pos, negsuc, as_int}
use apue.Text.{Bytes, codes, c_str, str_eq, print_int, pad_left, atoi}
use apue.Args.{maxargc, buf_args}

abbrev pub maxline : ℕ
maxline = 4096

-- snprintf(errmsg, MAXLINE-1, …) of a text.
abbrev pub cut_msg : Bytes → Bytes
cut_msg = take (maxline - 2)

-- What goes to the client: send_err with -1, or send_fd.
pub data Reply : Type 0 where
  error : Bytes → Reply
  descriptor : ℕ → Reply

-- The server's globals, the replies to each descriptor and the descriptors closed, last first.
pub record Opener : Type 0 where
  pub errmsg : Bytes
  pub pathname : Bytes
  pub oflag : ℤ
  pub replies : List (ℤ × Reply)
  pub closed : List ℕ

abbrev pub usage : Bytes
usage = codes "usage: <pathname> <oflag>\n"

-- cli_args; argv has argc elements.
unfoldable pub cli_args : List Bytes → Opener → ℤ × Opener
cli_args (command ∷ path ∷ flag ∷ []) s =
    if str_eq command (codes "open")
    then (pos 0, record s { pathname = path; oflag = atoi flag })
    else (negsuc 0, record s { errmsg = usage })
cli_args argv s = (negsuc 0, record s { errmsg = usage })

-- send_err(clifd, -1, errmsg)
abbrev pub send_err : ℤ → Opener → Opener
send_err clifd s = record s { replies = (clifd, error s.errmsg) ∷ s.replies }

-- buf[nread-1], 0 without a byte.
unfoldable pub last_byte : Bytes → ℕ
last_byte [] = 0
last_byte (c ∷ []) = c
last_byte (c ∷ d ∷ s) = last_byte (d ∷ s)

-- What buf_args returns with cli_args as its function.
abbrev pub parsed : Option (List Bytes) → Opener → ℤ × Opener
parsed none s = (negsuc 0, s)
parsed (some argv) s = cli_args argv s

-- %d takes the uid as an int.
abbrev pub unterminated : Bytes → ℕ → Bytes
unterminated buf uid =
    codes "request from uid "
    ++ print_int (as_int (pos uid))
    ++ codes " not null terminated: "
    ++ pad_left (length buf) (c_str buf)
    ++ codes "\n"

module _ (open_file : Bytes → ℤ → ℤ) (strerror : Bytes → ℤ → Bytes) (sends : ℤ → ℕ → Bool) where
  -- The reply once open has returned. None is log_sys.
  abbrev pub reply_to : ℤ → Opener → ℤ → Option Opener
  reply_to clifd s (negsuc n) = some (
      send_err clifd (record s {
        errmsg = cut_msg (
            codes "can't open "
            ++ s.pathname
            ++ codes ": "
            ++ strerror s.pathname s.oflag
            ++ codes "\n");
      }))
  reply_to clifd s (pos newfd) =
      if sends clifd newfd
      then some
          (record s { replies = (clifd, descriptor newfd) ∷ s.replies; closed = newfd ∷ s.closed })
      else none

  -- From open on.
  unfoldable pub answer : ℤ → Opener → Option Opener
  answer clifd s = reply_to clifd s (open_file s.pathname s.oflag)

  abbrev pub on_args : ℤ → ℤ × Opener → Option Opener
  on_args clifd (negsuc n, s) = some (send_err clifd s)
  on_args clifd (pos n, s) = answer clifd s

  abbrev pub with_args : ℤ → Opener → Option (Option (List Bytes)) → Option Opener
  with_args clifd s none = none
  with_args clifd s (some o) = on_args clifd (parsed o s)

  -- handle_request with the bytes that read gave. As many rounds as argv has elements are enough for
  -- buf_args.
  unfoldable pub handle_request : Bytes → ℤ → ℕ → Opener → Option Opener
  handle_request buf clifd uid s =
      if last_byte buf == 0
      then with_args clifd s (buf_args maxargc (c_str buf))
      else some (send_err clifd (record s { errmsg = cut_msg (unterminated buf uid) }))
