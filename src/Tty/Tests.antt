-- ===== src/Tty/Tests.antt =====
-- A terminal that takes what is set.
use apue.Prelude.{◌≡◌, refl, Bool, true, false, Option, some}
use apue.Prelude.Int.{ℤ, pos, negsuc}
use apue.Tty.{Termios, cs7, reset, Saved, ok, is_raw, tty_raw, tty_reset}
use apue.Tty.Modes.{Obeys, raw-reset}

-- The world is one terminal's attributes.
abbrev gets : ℤ → Termios → Option Termios × Termios
gets fd w = (some w, w)

abbrev sets : ℤ → Termios → Termios → Bool × Termios
sets fd t w = (true, t)

abbrev attributes : Termios → Termios
attributes w = w

sets-Obeys : Obeys gets sets (pos 0) attributes
sets-Obeys = record { gets = λ w. refl; accepts = λ t w. refl; takes = λ t w. refl }

abbrev cooked : Termios
cooked = record {
  echo = true;
  icanon = true;
  iexten = true;
  isig = true;
  other_lflag = 0;
  brkint = false;
  icrnl = true;
  inpck = false;
  istrip = true;
  ixon = true;
  other_iflag = 0;
  csize = cs7;
  parenb = true;
  other_cflag = 3;
  opost = true;
  other_oflag = 4;
  vmin = 4;
  vtime = 0;
  other_cc = 9;
}

abbrev fresh : Saved
fresh = record { termios = cooked; fd = negsuc 0; state = reset }

raw-reset_example :
    (s1 : Saved) × (w1 : Termios) × (w2 : Termios) × (tty_raw gets sets (pos 0) fresh cooked
      ≡ (ok, s1, w1))
    × (is_raw w1 ≡ true)
    × (tty_reset gets sets (pos 0) s1 w1 ≡ (ok, record s1 { state = reset }, w2))
    × (w2 ≡ cooked)
raw-reset_example = raw-reset gets sets (pos 0) attributes sets-Obeys cooked (negsuc 0) cooked
