-- ===== src/Transfer/Tests.antt =====
-- Transfers on concrete descriptors.
use apue.Prelude.{
  ℕ, zero, suc, ◌≡◌, refl, ap, [], ◌∷◌, Option, none, some, arith, length, length-take, take,
}
use apue.Prelude.Int.{pos, negsuc}
use apue.Text.{Bytes}
use apue.Transfer.{readn_loop, readn, tread, writen_loop, writen, treadn}
use apue.Transfer.Whole.{Bounded, Delivers, Flows, readn-Delivers}

-- A descriptor that gives a byte at a time, at most as many as are asked for.
abbrev drip : ℕ → ℕ → Option Bytes × ℕ
drip n w = (some (take n (7 ∷ [])), suc w)

bytes_of : {s t : Bytes} → some s ≡ some t → length s ≡ length t
bytes_of e = ap (λ o. elim o [ none ↦ 0 | some b ↦ length b ]) e

drip-Bounded : Bounded drip
drip-Bounded n w s e = omega (arith, bytes_of e, length-take {A = ℕ} n (7 ∷ []))

drip-Flows : Flows drip
drip-Flows = record {
  gives = λ n w h. (
    take n (7 ∷ []),
    refl,
    omega (arith, length-take {A = ℕ} n (7 ∷ [])),
    omega (arith, length-take {A = ℕ} n (7 ∷ [])),
  );
}

readn-Delivers_example : Delivers drip 3 (readn drip 3 0)
readn-Delivers_example = readn-Delivers drip drip-Bounded 3 0

drips : readn drip 3 0 ≡ some (pos 3, 7 ∷ 7 ∷ 7 ∷ [], 3)
unfolding readn readn_loop
drips = refl

-- A pipe with room for two bytes at a time, five in all.
abbrev pipe : Bytes → ℕ → Option ℕ × ℕ
pipe s zero = (none, 0)
pipe s (suc w) = (some 2, w)

short_write : writen pipe (1 ∷ 2 ∷ 3 ∷ 4 ∷ 5 ∷ []) 2 ≡ some (pos 4, 0)
unfolding writen writen_loop
short_write = refl

-- The time is over before a byte came.
timed_out : treadn (tread (λ (w : ℕ). (pos 0, w)) drip) 3 0 ≡ some (negsuc 0, [], 0)
unfolding treadn readn readn_loop tread
timed_out = refl
