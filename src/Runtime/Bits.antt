-- ===== src/Runtime/Bits.antt =====
-- `|` on unsigned bit patterns with no bit in common.
use Prim.Native.Nat.{digits, bit_or, bit_or-bitwise}
use native.Mathlib.Omega.{pow_step}
use cantontrace.Base.{ℕ, zero, suc, ◌+◌, ◌*◌, ◌/◌, ◌%◌, ◌^◌, ◌≤◌, ◌<◌, max, ◌≡◌, refl, ap, arith}

-- The definition that the native operation stands for, on `fuel` digits.
abbrev or_digits : ℕ → ℕ → ℕ → ℕ
or_digits fuel x y = digits (λ y'. y') max fuel x y

or_digits-eq : (f g x y : ℕ) → x ≤ f → x ≤ g → or_digits f x y ≡ or_digits g x y
or_digits-eq zero zero x y hf hg = refl
or_digits-eq zero (suc g) zero y hf hg = refl
or_digits-eq (suc f) zero zero y hf hg = refl
or_digits-eq (suc f) (suc g) zero y hf hg = refl
or_digits-eq (suc f) (suc g) (suc x) y hf hg =
    omega (arith, or_digits-eq f g (suc x / 2) (y / 2) (omega arith) (omega arith))
or_digits-eq _ _ (suc x) y hf hg = absurd (omega arith)

pub zero-bit_or : (y : ℕ) → bit_or 0 y ≡ y
zero-bit_or y = bit_or-bitwise 0 y

bit_or_step : (x y : ℕ) → bit_or x y ≡ bit_or (x / 2) (y / 2) * 2 + max (x % 2) (y % 2)
bit_or_step zero y = omega (arith, zero-bit_or y, zero-bit_or (y / 2))
bit_or_step (suc x) y = omega (
  arith,
  or_digits-eq x (suc x / 2) (suc x / 2) (y / 2) (omega arith) (omega arith),
  bit_or-bitwise (suc x) y,
  bit_or-bitwise (suc x / 2) (y / 2),
)

twice : (y s : ℕ) → y * 2 ^ suc s ≡ y * 2 ^ s * 2
twice y s = rw (pow_step 2 s) (omega arith)

-- Bits that lie above those of `x` are added.
pub bit_or_above : (s x y : ℕ) → x < 2 ^ s → bit_or x (y * 2 ^ s) ≡ x + y * 2 ^ s
bit_or_above zero x y h =
    let vanish : x ≡ 0 = omega arith in
    omega (arith, ap (λ z. bit_or z (y * 1)) vanish, zero-bit_or (y * 1))
bit_or_above (suc s) x y h =
    let below : x < 2 ^ s * 2 = omega (arith, pow_step 2 s) in
    let half : y * 2 ^ suc s / 2 ≡ y * 2 ^ s = omega (arith, twice y s) in
    omega (
      arith,
      twice y s,
      bit_or_step x (y * 2 ^ suc s),
      bit_or_above s (x / 2) y (omega arith),
      ap (bit_or (x / 2)) half,
    )
