-- ===== src/Runtime/Varint.antt =====
-- Protobuf's groups of seven bits.
use native.Mathlib.Nat.{add-mul}
use native.Mathlib.Omega.{pow_step}
use cantontrace.Base.{
  ℕ, zero, suc, ◌+◌, ◌*◌, ◌/◌, ◌%◌, ◌^◌, ◌<◌, ◌≡◌, sym, ap, ◌∙◌, List, [], ◌∷◌, ltb, if◌then◌else◌,
  arith,
}

-- The encoding of a number in at most `k` groups of seven bits, the lowest first.
unfoldable pub varint : ℕ → ℕ → List ℕ
varint zero v = []
varint (suc k) v = if ltb v 128 then v ∷ [] else (128 + v % 128) ∷ varint k (v / 128)

pub seven : (s : ℕ) → 2 ^ (s + 7) ≡ 2 ^ s * 128
seven s = omega (
  arith,
  ap (λ n. 2 ^ n) (plus s),
  pow_step 2 s,
  pow_step 2 (suc s),
  pow_step 2 (suc (suc s)),
  pow_step 2 (suc (suc (suc s))),
  pow_step 2 (suc (suc (suc (suc s)))),
  pow_step 2 (suc (suc (suc (suc (suc s))))),
  pow_step 2 (suc (suc (suc (suc (suc (suc s)))))),
)
  where
    plus : (s : ℕ) → s + 7 ≡ suc (suc (suc (suc (suc (suc (suc s))))))
    plus s = omega arith

pub groups : (v q : ℕ) → v % 128 * q + v / 128 * (q * 128) ≡ v * q
groups v q =
    let e : v % 128 + v / 128 * 128 ≡ v = omega arith in
    omega (arith, sym (add-mul (v % 128) (v / 128 * 128) q) ∙ ap (λ x. x * q) e)

pub below_next : (acc v q : ℕ) → acc < q → acc + v % 128 * q < q * 128
below_next acc v q h = grind arith
