-- ===== src/Errors/Wire/Varint.antt =====
-- readVarint (errors.ts) on the encoding of a number.
use Prim.Native.Nat.{bit_or}
use cantontrace.Base.{
  ℕ, zero, suc, ◌+◌, ◌*◌, ◌/◌, ◌%◌, ◌^◌, ◌<◌, ◌≤◌, ◌≡◌, refl, ap, List, ◌++◌, true, false, ◌==◌,
  ltb, length, arith, Bool-cases, inl, inr,
}
use cantontrace.Runtime.Bits.{bit_or_above}
use cantontrace.Runtime.Varint.{seven, groups, below_next}
unfoldable pub use cantontrace.Runtime.Varint.{varint}
use cantontrace.Errors.Wire.{read}

-- One group on the bits of those before it.
group :
    (acc v s : ℕ)
    → s ≤ 28
    → acc < 2 ^ s
    → v * 2 ^ s < 4294967296
    → bit_or acc (v * 2 ^ (s % 32) % 4294967296) ≡ acc + v * 2 ^ s
group acc v s small h fits =
    let same : s % 32 ≡ s = omega arith in
    rw same (
      let within : v * 2 ^ s % 4294967296 ≡ v * 2 ^ s = omega arith in
      rw within (bit_or_above s acc v h))

-- The last group holds four bits only.
not_last : (k s v : ℕ) → s + 7 * suc k ≡ 35 → 128 ≤ v → v * 2 ^ s < 4294967296 → 0 < k
not_last (suc k) s v e large fits = omega arith
not_last zero s v e large fits =
    let at : s ≡ 28 = omega arith in
    let top : 2 ^ s ≡ 268435456 = ap (λ n. 2 ^ n) at in absurd (omega (arith, ap (λ q. v * q) top))

-- A number below 2^(32 - s), in at most `k` groups that fill the bits from `s` on.
pub read-varint :
    (k s v acc : ℕ) (rest : List ℕ)
    → s + 7 * k ≡ 35
    → 0 < k
    → acc < 2 ^ s
    → v * 2 ^ s < 4294967296
    → read (varint k v ++ rest) acc s ≡ (acc + v * 2 ^ s, length (varint k v))
unfolding read varint
read-varint zero s v acc rest e k h fits = absurd (omega arith)
read-varint (suc k) s v acc rest e pos? h fits = elim (Bool-cases (ltb v 128)) [
  | inl small ↦
      let plain : v % 128 ≡ v = ground arith in
      let last : (v / 128 % 2 == 0) ≡ true = ground arith in
      rw (varint, small, read, plain, group acc v s (omega arith) h fits, last) refl
  | inr large ↦
      let low : (128 + v % 128) % 128 ≡ v % 128 = omega arith in
      let more : ((128 + v % 128) / 128 % 2 == 0) ≡ false = ground arith in
      let whole : v % 128 * 2 ^ s + v / 128 * 2 ^ (s + 7) ≡ v * 2 ^ s =
        rw (seven s) (groups v (2 ^ s)) in
      let next : acc + v % 128 * 2 ^ s < 2 ^ (s + 7) = rw (seven s) (below_next acc v (2 ^ s) h) in
      let many : 128 ≤ v = ground arith in
      rw
        (
          varint,
          large,
          read,
          low,
          group acc (v % 128) s (omega arith) h (omega (arith, groups v (2 ^ s))),
          more,
          read-varint k (s + 7) (v / 128) (acc + v % 128 * 2 ^ s) rest (omega arith)
              (not_last k s v e many fits) next (omega arith),
        )
        (ap (λ z. (z, suc (length (varint k (v / 128))))) (omega (arith, whole)))
]
