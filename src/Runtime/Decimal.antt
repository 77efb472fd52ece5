-- ===== src/Runtime/Decimal.antt =====
-- `String(n)` and `Number(s)` at natural numbers.
use mathlib.Core.Logic.{dite}
use mathlib.Core.WellFounded.{Acc}
use native.Mathlib.Decide.{dec_lt}
use cantontrace.Base.{
  ℕ, ◌+◌, ◌/◌, ◌%◌, ◌<◌, ◌≤◌, ◌≡◌, refl, sym, ap, ◌∙◌, [], ◌∷◌, arith, ◌==◌, if◌then◌else◌, Str,
  text, All, Bool-cases, inl, inr,
}
use cantontrace.Base.Order.{lt_wf}
use cantontrace.Runtime.Object.{number_from}

pub tenth_lt : {n : ℕ} → 0 < n → n / 10 < n
tenth_lt h = omega arith

-- The digits of `n`, written before `out`.
digits_before : (n : ℕ) → Acc ◌<◌ n → Str → Str
digits_before n (Acc.intro _ smaller) out =
    dite (dec_lt 0 n)
      (λ h. digits_before (n / 10) (smaller (n / 10) (tenth_lt h)) ((b'0' + n % 10) ∷ out))
      (λ _. out)

unfoldable pub decimal : ℕ → Str
unfolding digits_before lt_wf dec_lt
decimal n = if n == 0 then b'0' ∷ [] else digits_before n (lt_wf.apply n) []

abbrev pub IsDigit : ℕ → Type 0
IsDigit c = (48 ≤ c) × (c ≤ 57)

digits_before-All :
    (n : ℕ) (w : Acc ◌<◌ n) (out : Str) → All IsDigit out → All IsDigit (digits_before n w out)
unfolding digits_before
digits_before-All n (Acc.intro _ smaller) out h = grind (
  arith,
  λ (p : n / 10 < n).
      digits_before-All (n / 10) (smaller (n / 10) p) ((b'0' + n % 10) ∷ out)
        ((omega arith, omega arith), h),
)

pub decimal-All_digits : (n : ℕ) → All IsDigit (decimal n)
unfolding decimal
decimal-All_digits n = elim (Bool-cases (n == 0)) [
  | inl e ↦ rw e ((omega arith, omega arith), tt)
  | inr e ↦ rw e (digits_before-All n (lt_wf.apply n) [] tt)
]

number-digits_before :
    (n : ℕ) (w : Acc ◌<◌ n) (out : Str) → number_from 0 (digits_before n w out) ≡ number_from n out
unfolding digits_before number_from
number-digits_before n (Acc.intro _ smaller) out = grind (
  arith,
  λ (p : n / 10 < n). number-digits_before (n / 10) (smaller (n / 10) p) ((b'0' + n % 10) ∷ out),
)

-- A numeral read back gives the number.
pub number-decimal : (n : ℕ) → number_from 0 (decimal n) ≡ n
unfolding decimal number_from
number-decimal n = elim (Bool-cases (n == 0)) [
  | inl e ↦ rw e (ground arith)
  | inr e ↦ rw e (number-digits_before n (lt_wf.apply n) [])
]

pub decimal_injective : (a b : ℕ) → decimal a ≡ decimal b → a ≡ b
decimal_injective a b e = sym (number-decimal a) ∙ ap (number_from 0) e ∙ number-decimal b

decimal_tests : (decimal 0 ≡ text "0") × (decimal 1905 ≡ text "1905")
unfolding decimal
decimal_tests = (refl, refl)
