-- ===== src/Runtime/Number.antt =====
-- `parseInt` and `String` of its result.
use mathlib.Core.Path.{subst}
use cantontrace.Base.{
  All, ◌≡◌, ◌≢◌, refl, sym, ap, ◌∙◌, arith, ℕ, zero, suc, [], ◌∷◌, Str, text, Bool, true, false,
  ◌==◌, if◌then◌else◌,
}
use cantontrace.Runtime.Object.{number_from, is_digit}
use cantontrace.Runtime.Decimal.{decimal, IsDigit, decimal-All_digits, number-decimal}
use cantontrace.Runtime.Text.{trim_start}

-- What `parseInt` returns: NaN, or a sign and a magnitude.
pub data Number : Type 0 where
  not_a_number : Number
  integer : Bool → ℕ → Number

unfoldable pub leading_digits : Str → Str
leading_digits [] = []
leading_digits (c ∷ s) = if is_digit c then c ∷ leading_digits s else []

unfoldable pub with_sign : Bool → Str → Number
with_sign negative [] = not_a_number
with_sign negative (c ∷ s) = integer negative (number_from 0 (c ∷ s))

-- `parseInt(s, 10)`, with no rounding beyond 2^53.
unfoldable pub parse_trimmed : Str → Number
parse_trimmed [] = not_a_number
parse_trimmed (c ∷ s) =
    if c == b'-'
    then with_sign true (leading_digits s)
    else if c == b'+'
    then with_sign false (leading_digits s)
    else with_sign false (leading_digits (c ∷ s))

unfoldable pub parse_int : Str → Number
parse_int s = parse_trimmed (trim_start s)

-- `String(n)`.
unfoldable pub print_number : Number → Str
print_number not_a_number = text "NaN"
print_number (integer negative zero) = text "0"
print_number (integer false (suc n)) = decimal (suc n)
print_number (integer true (suc n)) = b'-' ∷ decimal (suc n)

leading_digits_of_All : (s : Str) → All IsDigit s → leading_digits s ≡ s
unfolding leading_digits
leading_digits_of_All [] h = refl
leading_digits_of_All (c ∷ s) (p, h) = ground (arith, leading_digits_of_All s h)

trim_start_of_All : (s : Str) → All IsDigit s → trim_start s ≡ s
unfolding trim_start
trim_start_of_All [] h = refl
trim_start_of_All (c ∷ s) (p, h) = ground arith

parse_int_of_All :
    (s : Str) → All IsDigit s → s ≢ [] → parse_int s ≡ integer false (number_from 0 s)
unfolding parse_int parse_trimmed with_sign leading_digits number_from trim_start
parse_int_of_All [] h ne = absurd (ne refl)
parse_int_of_All (c ∷ s) (p, h) ne =
    ground (arith, trim_start_of_All (c ∷ s) (p, h), leading_digits_of_All s h)

decimal-ne_nil : (n : ℕ) → decimal n ≢ []
unfolding decimal number_from
decimal-ne_nil n e =
    let vanish : n ≡ 0 = sym (number-decimal n) ∙ ap (number_from 0) e in
    cc (subst (λ k. decimal k ≡ []) vanish e)

pub parse_int-decimal : (n : ℕ) → parse_int (decimal n) ≡ integer false n
parse_int-decimal n =
    parse_int_of_All (decimal n) (decimal-All_digits n) (decimal-ne_nil n)
    ∙ ap (integer false) (number-decimal n)
