-- ===== src/Transfer.antt =====
-- apue.3e/lib/readn.c, apue.3e/lib/writen.c and treadn of apue.3e/printer/util.c: transfers of
-- exactly n bytes by system calls that may transfer less. The system call is a parameter, on a world
-- W: it gives none for -1.
pub mod Whole
pub mod Tests
use apue.Prelude.{
  ℕ, zero, suc, ◌+◌, ◌-◌, ◌≡◌, Bool, true, false, List, [], ◌∷◌, ◌++◌, Option, none, some, ◌==◌,
  if◌then◌else◌, length, drop, take,
}
use apue.Prelude.Int.{ℤ, pos, negsuc}
use apue.Text.{Bytes}

module _ {W : Type 0} (read : ℕ → W → Option Bytes × W) where
  -- The loop of readn for `n` bytes: `left` is nleft, `got` are the bytes that stand in front of ptr.
  -- The result is none where the loop runs out of fuel, and else what is returned, the bytes and the
  -- world.
  unfoldable pub readn_loop : ℕ → ℕ → ℕ → Bytes → W → Option (ℤ × Bytes × W)
  readn_loop zero n left got w = if left == 0 then some (pos (n - left), got, w) else none
  readn_loop (suc fuel) n left got w =
      let r = read left w in
      let next : Bytes → Option (ℤ × Bytes × W) =
        λ s. readn_loop fuel n (left - length s) (got ++ s) r.1 in
      if left == 0 then some (pos (n - left), got, w) else elim (r.0) [
        | none ↦ some (if left == n then negsuc 0 else pos (n - left), got, r.1)
        | some [] ↦ some (pos (n - left), got, r.1)
        | some (c ∷ s) ↦ next (c ∷ s)
      ]

  -- readn: each round but the last reads a byte or more, so n rounds are enough.
  unfoldable pub readn : ℕ → W → Option (ℤ × Bytes × W)
  readn n w = readn_loop n n n [] w

  -- treadn, where `read` is tread: the same text as readn's.
  unfoldable pub treadn : ℕ → W → Option (ℤ × Bytes × W)
  treadn n w = readn n w

-- tread: select gives the number of ready descriptors, 0 at the end of the time and -1 for an error.
unfoldable pub tread :
    {W : Type 0} (select : W → ℤ × W) (read : ℕ → W → Option Bytes × W) → ℕ → W → Option Bytes × W
tread select read n w =
    let r = select w in
    elim (r.0) [ negsuc _ ↦ (none, r.1) | pos zero ↦ (none, r.1) | pos (suc k) ↦ read n r.1 ]

module _ {W : Type 0} (write : Bytes → W → Option ℕ × W) where
  -- The loop of writen: `rest` are the bytes not yet written, `n` is how many there were.
  unfoldable pub writen_loop : ℕ → ℕ → Bytes → W → Option (ℤ × W)
  writen_loop zero n rest w = if length rest == 0 then some (pos n, w) else none
  writen_loop (suc fuel) n rest w =
      let r = write rest w in
      let next : ℕ → Option (ℤ × W) = λ k. writen_loop fuel n (drop k rest) r.1 in
      if length rest == 0 then some (pos n, w) else elim (r.0) [
        | none ↦ some (if length rest == n then negsuc 0 else pos (n - length rest), r.1)
        | some zero ↦ some (pos (n - length rest), r.1)
        | some (suc k) ↦ next (suc k)
      ]

  -- writen: each round but the last writes a byte or more, so n rounds are enough.
  unfoldable pub writen : Bytes → W → Option (ℤ × W)
  writen s w = writen_loop (length s) (length s) s w
