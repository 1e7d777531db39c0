-- ===== src/Tty.antt =====
-- apue.3e/lib/ttymodes.c: the terminal modes. The bits of a termios that the code reads or writes
-- are fields of their own; the others are one number per word. tcgetattr and tcsetattr are
-- parameters, on a world W that holds the terminals.
pub mod Modes
pub mod Tests
use apue.Prelude.{
  ℕ, ◌≡◌, Bool, true, false, not, ◌&&◌, ◌||◌, ◌==◌, Option, none, some, if◌then◌else◌,
}
use apue.Prelude.Int.{ℤ, pos, negsuc}

-- The CSIZE bits of c_cflag.
pub data CharSize : Type 0 where
  cs5 cs6 cs7 cs8 : CharSize

pub record Termios : Type 0 where
  pub echo : Bool
  pub icanon : Bool
  pub iexten : Bool
  pub isig : Bool
  pub other_lflag : ℕ
  pub brkint : Bool
  pub icrnl : Bool
  pub inpck : Bool
  pub istrip : Bool
  pub ixon : Bool
  pub other_iflag : ℕ
  pub csize : CharSize
  pub parenb : Bool
  pub other_cflag : ℕ
  pub opost : Bool
  pub other_oflag : ℕ
  pub vmin : ℕ
  pub vtime : ℕ
  pub other_cc : ℕ

pub data Mode : Type 0 where
  reset raw cbreak : Mode

-- save_termios, ttysavefd and ttystate
pub record Saved : Type 0 where
  pub termios : Termios
  pub fd : ℤ
  pub state : Mode

-- 0, -1 with EINVAL, or -1 with the errno of a system call.
pub data Return : Type 0 where
  ok einval system : Return

abbrev pub set_cbreak : Termios → Termios
set_cbreak t = record t { echo = false; icanon = false; vmin = 1; vtime = 0 }

abbrev pub set_raw : Termios → Termios
set_raw t = record t {
  echo = false;
  icanon = false;
  iexten = false;
  isig = false;
  brkint = false;
  icrnl = false;
  inpck = false;
  istrip = false;
  ixon = false;
  csize = cs8;
  parenb = false;
  opost = false;
  vmin = 1;
  vtime = 0;
}

-- The test that the changes stuck, negated: whether they all did.
unfoldable pub is_cbreak : Termios → Bool
is_cbreak t = not (((t.echo || t.icanon) || not (t.vmin == 1)) || not (t.vtime == 0))

abbrev pub is_cs8 : CharSize → Bool
is_cs8 cs8 = true
is_cs8 _ = false

unfoldable pub is_raw : Termios → Bool
is_raw t = not (
    ((((((t.echo || t.icanon) || (t.iexten || t.isig))
            || (((t.brkint || t.icrnl) || (t.inpck || t.istrip)) || t.ixon))
          || not (is_cs8 t.csize && not t.parenb))
        || t.opost)
      || not (t.vmin == 1))
    || not (t.vtime == 0))

abbrev pub is_reset : Mode → Bool
is_reset reset = true
is_reset _ = false

-- tcgetattr gives none for -1, tcsetattr false.
module _ {W : Type 0} (tcgetattr : ℤ → W → Option Termios × W)
    (tcsetattr : ℤ → Termios → W → Bool × W) where
  -- The end of tty_cbreak and tty_raw: the changes are verified, and undone where they did not stick.
  unfoldable pub verify : ℤ → (Termios → Bool) → Mode → Saved → W → Return × Saved × W
  verify fd stuck mode s w =
      let r = tcgetattr fd w in
      let undone = (tcsetattr fd s.termios r.1).1 in
      elim (r.0) [
        | none ↦ (system, s, undone)
        | some t ↦
            if stuck t then (ok, record s { state = mode; fd = fd }, r.1) else (einval, s, undone)
      ]

  -- What tty_cbreak and tty_raw share: they differ in what they set, what they verify and the mode.
  unfoldable pub tty_change :
      (Termios → Termios) → (Termios → Bool) → Mode → ℤ → Saved → W → Return × Saved × W
  tty_change change stuck mode fd s w =
      let r = tcgetattr fd w in
      if not (is_reset s.state) then (einval, s, w) else elim (r.0) [
        | none ↦ (system, s, r.1)
        | some t ↦
            let q = tcsetattr fd (change t) r.1 in
            let saved = record s { termios = t } in
            if q.0 then verify fd stuck mode saved q.1 else (system, saved, q.1)
      ]

  unfoldable pub tty_cbreak : ℤ → Saved → W → Return × Saved × W
  tty_cbreak fd = tty_change set_cbreak is_cbreak cbreak fd

  unfoldable pub tty_raw : ℤ → Saved → W → Return × Saved × W
  tty_raw fd = tty_change set_raw is_raw raw fd

  unfoldable pub tty_reset : ℤ → Saved → W → Return × Saved × W
  tty_reset fd s w =
      let q = tcsetattr fd s.termios w in
      if is_reset s.state
      then (ok, s, w)
      else if q.0
      then (ok, record s { state = reset }, q.1)
      else (system, s, q.1)

  unfoldable pub tty_atexit : Saved → W → Saved × W
  tty_atexit s w =
      let r = tty_reset s.fd s w in elim (s.fd) [ pos _ ↦ (r.1, r.2) | negsuc _ ↦ (s, w) ]
