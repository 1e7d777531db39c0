-- ===== src/Text.antt =====
-- Text of the C library as the programs use it: a string is the bytes before its NUL, numbers are
-- printed by `%d`, `%lld` and `%*lld`, and read by `atol` and `atoi`.
pub mod Decimal
pub mod Strings
use Prim.Native.Char.{code}
use Prim.Native.String.{String}
use mathlib.Core.Option
use apue.Prelude.{
  ℕ, zero, suc, ◌+◌, ◌-◌, ◌*◌, ◌/◌, ◌%◌, ◌≡◌, refl, Bool, true, false, ◌&&◌, ◌||◌, List, [], ◌∷◌,
  ◌++◌, Option, none, some, ltb, leb, ◌==◌, if◌then◌else◌, replicate, length,
}
use apue.Prelude.Int.{ℤ, pos, negsuc, as_int}

abbrev pub Bytes : Type 0
Bytes = List ℕ

-- The bytes of a literal.
abbrev pub codes : String → Bytes
codes String.[] = []
codes (String.◌∷◌ c s) = code c ∷ codes s

-- The string that starts at a buffer: what stands before the first NUL.
unfoldable pub c_str : Bytes → Bytes
c_str [] = []
c_str (c ∷ s) = let rest = c ∷ c_str s in if c == 0 then [] else rest

-- strcmp(s, t) == 0
unfoldable pub str_eq : Bytes → Bytes → Bool
str_eq [] [] = true
str_eq (a ∷ s) (b ∷ t) = a == b && str_eq s t
str_eq s t = false

-- strchr(s, sep): the text before the first `sep` and the text behind it.
unfoldable pub split_at : ℕ → Bytes → Option (Bytes × Bytes)
split_at sep [] = none
split_at sep (c ∷ s) =
    let rest = Option.map (λ (p : Bytes × Bytes). (c ∷ p.0, p.1)) (split_at sep s) in
    if c == sep then some ([], s) else rest

unfoldable pub is_digit : ℕ → Bool
is_digit c = leb b'0' c && leb c b'9'

-- isspace of the C locale.
unfoldable pub is_space : ℕ → Bool
is_space c = c == 32 || (leb 9 c && leb c 13)

-- The digits of `n` in front of `out`; the first argument bounds the rounds.
unfoldable pub put_digits : ℕ → ℕ → Bytes → Bytes
put_digits zero n out = out
put_digits (suc f) n out =
    let more = put_digits f (n / 10) ((b'0' + n % 10) ∷ out) in if n == 0 then out else more

-- sprintf("%lld", n) of a number that is not negative. `n` rounds are enough: each divides by ten.
unfoldable pub decimal : ℕ → Bytes
unfolding put_digits
decimal n = if n == 0 then b'0' ∷ [] else put_digits n n []

-- sprintf("%d", z)
unfoldable pub print_int : ℤ → Bytes
unfolding decimal
print_int (pos n) = decimal n
print_int (negsuc n) = b'-' ∷ decimal (suc n)

-- The padding of "%*d": at least `w` bytes, blanks first.
unfoldable pub pad_left : ℕ → Bytes → Bytes
pad_left w s = replicate (w - length s) 32 ++ s

-- The number that the leading digits spell behind `acc`.
unfoldable pub scan_digits : ℕ → Bytes → ℕ
unfolding is_digit
scan_digits acc [] = acc
scan_digits acc (c ∷ s) =
    let more = scan_digits (acc * 10 + (c - b'0')) s in if is_digit c then more else acc

unfoldable pub skip_spaces : Bytes → Bytes
unfolding is_space
skip_spaces [] = []
skip_spaces (c ∷ s) = let more = skip_spaces s in if is_space c then more else c ∷ s

abbrev pub negate : ℕ → ℤ
negate zero = pos 0
negate (suc n) = negsuc n

unfoldable pub atol_sign : Bytes → ℤ
unfolding scan_digits
atol_sign [] = pos 0
atol_sign (c ∷ s) =
    if c == b'-'
    then negate (scan_digits 0 s)
    else if c == b'+'
    then pos (scan_digits 0 s)
    else pos (scan_digits 0 (c ∷ s))

-- atol, where a long holds the value. Blanks, a sign, digits; what follows is ignored.
unfoldable pub atol : Bytes → ℤ
unfolding skip_spaces atol_sign
atol s = atol_sign (skip_spaces s)

-- atoi: the int of that value; C leaves it open where no int holds it.
unfoldable pub atoi : Bytes → ℤ
atoi s = as_int (atol s)

atol_runs : atol (codes "   1203 x") ≡ pos 1203
unfolding atol
atol_runs = refl

print_runs : pad_left 7 (decimal 1203) ≡ codes "   1203"
unfolding pad_left decimal
print_runs = refl

split_runs : split_at b':' (codes "key:12:3") ≡ some (codes "key", codes "12:3")
unfolding split_at
split_runs = refl
