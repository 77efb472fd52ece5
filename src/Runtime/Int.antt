-- ===== src/Runtime/Int.antt =====
-- 32-bit and small integers: an `Int32` by its bit pattern, and offsets that may fall below zero.
use cantontrace.Base.{
  ℕ, suc, ◌+◌, ◌-◌, ◌/◌, Bool, true, ltb, leb, if◌then◌else◌, List, length, take, drop, min,
}
use cantontrace.Runtime.Json.{ℤ, pos, negsuc}

-- a - b.
abbrev pub sub_ℕ : ℕ → ℕ → ℤ
sub_ℕ a b = if leb b a then pos (a - b) else negsuc (b - a - 1)

infixl 65 ◌+ℤ◌
abbrev pub ◌+ℤ◌ : ℤ → ℤ → ℤ
pos a +ℤ pos b = pos (a + b)
pos a +ℤ negsuc b = sub_ℕ a (suc b)
negsuc a +ℤ pos b = sub_ℕ b (suc a)
negsuc a +ℤ negsuc b = negsuc (a + b + 1)

-- The signed value of a bit pattern below 2^32.
abbrev pub to_signed : ℕ → ℤ
to_signed u = if ltb u 2147483648 then pos u else negsuc (4294967295 - u)

-- `x >> 3` of such a value.
abbrev pub shift_right_three : ℕ → ℤ
shift_right_three u = if ltb u 2147483648 then pos (u / 8) else negsuc ((4294967295 - u) / 8)

-- `i < n`.
abbrev pub below : ℤ → ℕ → Bool
below (pos i) n = ltb i n
below (negsuc i) n = true

-- `l.slice(a, b)`: an index below zero counts from the end.
abbrev pub slice_index : ℕ → ℤ → ℕ
slice_index n (pos i) = min i n
slice_index n (negsuc i) = n - suc i

abbrev pub slice {ℓ} : {A : Type ℓ} → List A → ℤ → ℤ → List A
slice l a b =
    take (slice_index (length l) b - slice_index (length l) a) (drop (slice_index (length l) a) l)
