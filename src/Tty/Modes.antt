-- ===== src/Tty/Modes.antt =====
-- What tty_cbreak, tty_raw and tty_reset do to a terminal.
use apue.Prelude.{
  ◌≡◌, ◌≢◌, refl, ap, ◌∙◌, ◌⊎◌, inl, inr, Bool, true, false, subst, Option, none, some, Bool-cases,
  if◌then◌else◌,
}
use apue.Prelude.Int.{ℤ}
use apue.Tty.{
  Termios, Mode, reset, raw, cbreak, Saved, Return, ok, einval, system, set_cbreak, set_raw,
  is_cbreak, is_raw, is_reset, verify, tty_change, tty_cbreak, tty_raw, tty_reset,
}

module _ {W : Type 0} (tcgetattr : ℤ → W → Option Termios × W)
    (tcsetattr : ℤ → Termios → W → Bool × W) where
  -- A terminal whose attributes are `attrs`: both calls succeed, and it takes what is set.
  pub record Obeys (fd : ℤ) (attrs : W → Termios) : Type 0 where
    pub gets : (w : W) → tcgetattr fd w ≡ (some (attrs w), w)
    pub accepts : (t : Termios) (w : W) → (tcsetattr fd t w).0 ≡ true
    pub takes : (t : Termios) (w : W) → attrs (tcsetattr fd t w).1 ≡ t

  -- A change of mode that succeeds on any terminal was verified: the last tcgetattr gave attributes in
  -- which it stuck. One that fails leaves ttystate and ttysavefd alone.
  abbrev pub Verified : ℤ → (Termios → Bool) → Mode → Saved → Return × Saved × W → Type 0
  Verified fd stuck mode s r =
      ((r.0 ≡ ok)
        × (r.1.state ≡ mode)
        × (r.1.fd ≡ fd)
        × ((t : Termios) × (u : W) × (tcgetattr fd u ≡ (some t, r.2)) × (stuck t ≡ true)))
      ⊎ ((r.0 ≢ ok) × (r.1.state ≡ s.state) × (r.1.fd ≡ s.fd))

  abbrev NotOk : Return → Type 0
  NotOk ok = ⊥
  NotOk einval = Unit
  NotOk system = Unit

  fails : (r : Return) → NotOk r → r ≢ ok
  fails ok h = absurd h
  fails einval h = λ e. subst NotOk e tt
  fails system h = λ e. subst NotOk e tt

  verify-Verified :
      (fd : ℤ) (stuck : Termios → Bool) (mode : Mode) (s : Saved) (w : W)
      → Verified fd stuck mode s (verify tcgetattr tcsetattr fd stuck mode s w)
  unfolding verify
  verify-Verified fd stuck mode s w = go (tcgetattr fd w) refl
    where
      go :
          (r : Option Termios × W)
          → tcgetattr fd w ≡ r
          → Verified fd stuck mode s (elim (r.0) [
            | none ↦ (system, s, (tcsetattr fd s.termios r.1).1)
            | some t ↦
                if stuck t
                then (ok, record s { state = mode; fd = fd }, r.1)
                else (einval, s, (tcsetattr fd s.termios r.1).1)
          ])
      go (none, u) e = inr (fails system tt, refl, refl)
      go (some t, u) e = elim (Bool-cases (stuck t)) [
        | inl y ↦ rw y (inl (refl, refl, refl, (t, w, e, y)))
        | inr n ↦ rw n (inr (fails einval tt, refl, refl))
      ]

  change-Verified :
      (change : Termios → Termios) (stuck : Termios → Bool) (mode : Mode) (fd : ℤ) (s : Saved)
      (w : W)
      → Verified fd stuck mode s (tty_change tcgetattr tcsetattr change stuck mode fd s w)
  unfolding tty_change
  change-Verified change stuck mode fd s w = elim (Bool-cases (is_reset s.state)) [
    | inl y ↦ rw y (go (tcgetattr fd w))
    | inr n ↦ rw n (inr (fails einval tt, refl, refl))
  ]
    where
      set :
          (t : Termios) (q : Bool × W)
          → Verified fd stuck mode s (
              if q.0
              then verify tcgetattr tcsetattr fd stuck mode (record s { termios = t }) q.1
              else (system, record s { termios = t }, q.1))
      set t (true, u) = verify-Verified fd stuck mode (record s { termios = t }) u
      set t (false, u) = inr (fails system tt, refl, refl)

      go :
          (r : Option Termios × W)
          → Verified fd stuck mode s (elim (r.0) [
            | none ↦ (system, s, r.1)
            | some t ↦
                let q = tcsetattr fd (change t) r.1 in
                let saved = record s { termios = t } in
                if q.0
                then verify tcgetattr tcsetattr fd stuck mode saved q.1
                else (system, saved, q.1)
          ])
      go (none, u) = inr (fails system tt, refl, refl)
      go (some t, u) = set t (tcsetattr fd (change t) u)

  -- tty_cbreak, on any terminal and in any state: where it succeeds, the last tcgetattr gave
  -- attributes in which every change stuck, and the mode and the descriptor are recorded; where it
  -- fails, ttystate and ttysavefd are left alone.
  tty_cbreak-Verified :
      (fd : ℤ) (s : Saved) (w : W)
      → Verified fd is_cbreak cbreak s (tty_cbreak tcgetattr tcsetattr fd s w)
  unfolding tty_cbreak
  tty_cbreak-Verified = change-Verified set_cbreak is_cbreak cbreak

  module _ (fd : ℤ) (attrs : W → Termios) (t : Obeys fd attrs) (old : Termios) (fd0 : ℤ)
      (w : W) where
    abbrev before : Saved
    before = record { termios = old; fd = fd0; state = reset }

    abbrev after : Mode → Saved
    after mode = record { termios = attrs w; fd = fd; state = mode }

    verify-ok :
        (stuck : Termios → Bool) (mode : Mode) (u : W)
        → stuck (attrs u) ≡ true
        → verify tcgetattr tcsetattr fd stuck mode
            (record { termios = attrs w; fd = fd0; state = reset })
            u
          ≡ (ok, after mode, u)
    unfolding verify
    verify-ok stuck mode u h = rw (t.gets u, verify) (rw (h, t.gets u))

    change-ok :
        (change : Termios → Termios) (stuck : Termios → Bool) (mode : Mode)
        → ((a : Termios) → stuck (change a) ≡ true)
        → tty_change tcgetattr tcsetattr change stuck mode fd before w
          ≡ (ok, after mode, (tcsetattr fd (change (attrs w)) w).1)
    unfolding tty_change
    change-ok change stuck mode sticks =
        let u = (tcsetattr fd (change (attrs w)) w).1 in
        rw (t.gets w, t.gets w, t.accepts (change (attrs w)) w)
          (verify-ok stuck mode u (ap stuck (t.takes (change (attrs w)) w) ∙ sticks (attrs w)))

    reset-ok :
        (mode : Mode) (u : W)
        → is_reset mode ≡ false
        → tty_reset tcgetattr tcsetattr fd (after mode) u
          ≡ (ok, after reset, (tcsetattr fd (attrs w) u).1)
    unfolding tty_reset
    reset-ok mode u h = rw (h, t.accepts (attrs w) u) refl

    -- From the state RESET, on a terminal that takes what is set, tty_raw succeeds and puts the terminal
    -- in raw mode, and tty_reset then succeeds and gives the terminal the attributes that it had.
    pub raw-reset :
        (s1 : Saved) × (w1 : W) × (w2 : W) × (tty_raw tcgetattr tcsetattr fd before w
          ≡ (ok, s1, w1))
        × (is_raw (attrs w1) ≡ true)
        × (tty_reset tcgetattr tcsetattr fd s1 w1 ≡ (ok, record s1 { state = reset }, w2))
        × (attrs w2 ≡ attrs w)
    unfolding tty_raw
    raw-reset =
        let u = (tcsetattr fd (set_raw (attrs w)) w).1 in
        let raws : (a : Termios) → is_raw (set_raw a) ≡ true = λ a. unfold is_raw in refl in
        (
          after raw,
          u,
          (tcsetattr fd (attrs w) u).1,
          change-ok set_raw is_raw raw raws,
          ap is_raw (t.takes (set_raw (attrs w)) w) ∙ raws (attrs w),
          reset-ok raw u refl,
          t.takes (attrs w) u,
        )
