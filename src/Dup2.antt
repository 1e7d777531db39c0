-- ===== src/Dup2.antt =====
-- Chapter03/my_dup2.c: dup2 from dup and close, with its stack of descriptors. The two system calls are
-- parameters, on a world W; a descriptor that was never written is none.
pub mod Closes
pub mod Tests
use apue.Prelude.{
  ℕ, zero, suc, ◌+◌, ◌-◌, ◌%◌, ◌^◌, Bool, true, false, ◌||◌, List, [], ◌∷◌, ◌++◌, Option, none,
  some, ◌==◌, if◌then◌else◌, length, set, replicate, get_elem?,
}
use apue.Prelude.Int.{ℤ, pos, negsuc, int_of, ltb_ℤ}

-- `Stack`; `capacity` is the length of `data`.
pub record Stack : Type 0 where
  pub data_of : List (Option ℤ)
  pub size : ℕ

abbrev pub stack_new : Stack
stack_new = record { data_of = replicate 64 none; size = 0 }

-- stack_size returns the size_t as an int.
unfoldable pub stack_size : Stack → ℤ
stack_size s = int_of (s.size % 2 ^ 32)

-- stack_push, with memory given.
unfoldable pub stack_push : Stack → ℤ → Stack
stack_push s item =
    let room =
      if s.size == length s.data_of
      then s.data_of ++ replicate (length s.data_of) none
      else s.data_of in
    record { data_of = set room s.size (some item); size = suc s.size }

-- stack_pop: data[size--]; none is a read past the end of the buffer.
unfoldable pub stack_pop : Stack → Option (Option ℤ × Stack)
stack_pop s = elim (get_elem? s.data_of s.size) [
  | none ↦ none
  | some v ↦ some (v, record s { size = (2 ^ 64 + s.size - 1) % 2 ^ 64 })
]

-- What close returns: 0, -1 with EBADF, or -1 with another errno.
pub data Closed : Type 0 where
  ok bad_fd failed : Closed

unfoldable pub same_fd : ℤ → ℤ → Bool
same_fd (pos a) (pos b) = a == b
same_fd (negsuc a) (negsuc b) = a == b
same_fd _ _ = false

abbrev pub negative : ℤ → Bool
negative (pos n) = false
negative (negsuc n) = true

module _ {W : Type 0} (dup : ℤ → W → ℤ × W) (close : Option ℤ → W → Closed × W) where
  -- The loop that closes what is on the stack, of at most `fuel` rounds.
  unfoldable pub close_all : ℕ → Stack → W → Option W
  close_all zero s w = if ltb_ℤ (pos 0) (stack_size s) then none else some w
  close_all (suc fuel) s w =
      let more : Option W = elim (stack_pop s) [
        | none ↦ none
        | some (fd, s') ↦ close_all fuel s' (close fd w).1
      ] in
      if ltb_ℤ (pos 0) (stack_size s) then more else some w

  -- The loop that duplicates until the new descriptor is hit, of at most `fuel` rounds: it does not end
  -- by itself when dup fails.
  unfoldable pub dup_loop : ℕ → ℤ → ℤ → Stack → W → Option (Stack × W)
  dup_loop zero oldfd newfd s w = none
  dup_loop (suc fuel) oldfd newfd s w =
      let r = dup oldfd w in
      let more = dup_loop fuel oldfd newfd (stack_push s r.0) r.1 in
      if same_fd r.0 newfd then some (s, r.1) else more

  -- my_dup2 behind its checks: oldfd is valid and newfd is closed.
  unfoldable pub replace_fd : ℕ → ℤ → ℤ → W → Option (ℤ × W)
  replace_fd fuel oldfd newfd w = elim (dup_loop fuel oldfd newfd stack_new w) [
    | none ↦ none
    | some (s, w') ↦ elim (close_all s.size s w') [ none ↦ none | some u ↦ some (newfd, u) ]
  ]

  unfoldable pub my_dup2 : ℕ → ℤ → ℤ → W → Option (ℤ × W)
  my_dup2 fuel oldfd newfd w =
      let r = dup oldfd w in
      let c = close (some newfd) (close (some r.0) r.1).1 in
      if negative oldfd || negative newfd
      then some (negsuc 0, w)
      else if same_fd oldfd newfd
      then some (newfd, w)
      else if negative r.0
      then some (negsuc 0, r.1)
      else elim (c.0) [
        | failed ↦ some (negsuc 0, c.1)
        | ok ↦ replace_fd fuel oldfd newfd c.1
        | bad_fd ↦ replace_fd fuel oldfd newfd c.1
      ]
