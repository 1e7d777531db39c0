-- ===== src/Text/Strings.antt =====
-- C strings and separators: strings that lack a byte are not cut at it.
use apue.Prelude.{ℕ, ◌≡◌, refl, ◌↔◌, ◌∷◌, [], ◌++◌, true, none, some, arith, Lacks}
use apue.Text.{Bytes, c_str, str_eq, split_at}

pub c_str-Lacks : (s : Bytes) → Lacks 0 s → c_str s ≡ s
unfolding c_str
c_str-Lacks [] h = refl
c_str-Lacks (c ∷ s) (d, h) = ground (arith, c_str-Lacks s h)

pub split_at-append :
    (sep : ℕ) (s rest : Bytes) → Lacks sep s → split_at sep (s ++ (sep ∷ rest)) ≡ some (s, rest)
unfolding split_at
split_at-append sep [] rest h = ground arith
split_at-append sep (c ∷ s) rest (d, h) = rw (split_at-append sep s rest h) (ground arith)

pub split_at-Lacks : (sep : ℕ) (s : Bytes) → Lacks sep s → split_at sep s ≡ none
unfolding split_at
split_at-Lacks sep [] h = refl
split_at-Lacks sep (c ∷ s) (d, h) = rw (split_at-Lacks sep s h) (ground arith)

pub str_eq_iff : (s t : Bytes) → (str_eq s t ≡ true) ↔ (s ≡ t)
unfolding str_eq
str_eq_iff [] [] = (λ _. refl, λ _. refl)
str_eq_iff [] (b ∷ t) = (λ h. cc, λ h. cc)
str_eq_iff (a ∷ s) [] = (λ h. cc, λ h. cc)
str_eq_iff (a ∷ s) (b ∷ t) =
    (λ h. ground (arith, (str_eq_iff s t).0), λ h. ground (arith, (str_eq_iff s t).1))
