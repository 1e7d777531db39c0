-- ===== src/File.antt =====
-- Regular files as lists of bytes: `pread` and `pwrite` at an offset.
pub mod Laws
use apue.Prelude.{ℕ, ◌+◌, ◌-◌, ◌++◌, ◌≡◌, refl, ◌∷◌, [], take, drop, replicate, length}
use apue.Text.{Bytes}

-- read at an offset: fewer bytes than `n` where the file ends before.
unfoldable pub pread : Bytes → ℕ → ℕ → Bytes
pread f off n = take n (drop off f)

-- write at an offset: a gap behind the end of the file reads as zeros.
unfoldable pub pwrite : Bytes → ℕ → Bytes → Bytes
pwrite f off s = take off (f ++ replicate (off - length f) 0) ++ (s ++ drop (off + length s) f)

pwrite_runs : pwrite (1 ∷ 2 ∷ 3 ∷ 4 ∷ []) 1 (8 ∷ 9 ∷ []) ≡ 1 ∷ 8 ∷ 9 ∷ 4 ∷ []
unfolding pwrite
pwrite_runs = refl
