-- ===== src/Sandbox/Finding.antt =====
-- The port that findAvailablePort of sandbox-manager.ts finds, and the endpoints that name it.
use mathlib.Core.Path.{subst}
use cantontrace.Base.{
  ℕ, zero, suc, ◌+◌, ◌*◌, ◌≤◌, ◌<◌, ◌≡◌, ◌≢◌, ◌⊎◌, inl, inr, refl, sym, ap, ◌∙◌, List, [], ◌∷◌,
  Option, none, some, Str, Bool, true, false, ◌==◌, ltb, ltb→lt, ◌&&◌, ◌||◌, not, Bool-cases, arith,
  All,
}
use cantontrace.Runtime.Object.{number_from}
use cantontrace.Runtime.Decimal.{decimal, IsDigit, decimal-All_digits, number-decimal}
use cantontrace.Errors.Message.{trim_start, is_space}
use cantontrace.Sandbox.{
  Number, not_a_number, integer, has_port, all_free, usable, search_ports, find_available_port,
  split, leading_digits, with_sign, parse_trimmed, parse_int, extract_port, print_number,
  local_endpoint,
}

-- From `port` on, no port of the loop is usable, or the first that is usable was found.
abbrev Searched : List Number → (ℕ → Bool) → ℕ → Option ℕ → Type 0
Searched used free port result =
    ((result ≡ none) × ((j : ℕ) → port + 6 * j < 10100 → usable used free (port + 6 * j) ≡ false))
    ⊎ ((i : ℕ) × (port + 6 * i < 10100)
        × (result ≡ some (port + 6 * i))
        × (usable used free (port + 6 * i) ≡ true)
        × ((j : ℕ) → j < i → usable used free (port + 6 * j) ≡ false))

module _ (used : List Number) (free : ℕ → Bool) where
  later_ports :
      (port : ℕ) (result : Option ℕ)
      → usable used free port ≡ false
      → Searched used free (port + 6) result
      → Searched used free port result
  later_ports port result busy (inl (e, no_port)) = inl (e, all_busy)
    where
      all_busy : (j : ℕ) → port + 6 * j < 10100 → usable used free (port + 6 * j) ≡ false
      all_busy zero h = subst (λ p. usable used free p ≡ false) (omega arith) busy
      all_busy (suc j) h =
          subst (λ p. usable used free p ≡ false) (omega arith) (no_port j (omega arith))
  later_ports port result busy (inr (i, bound, e, good, before)) =
      let same : port + 6 + 6 * i ≡ port + 6 * suc i = omega arith in
      inr (
        suc i,
        omega arith,
        e ∙ ap some same,
        subst (λ p. usable used free p ≡ true) same good,
        all_busy,
      )
    where
      all_busy : (j : ℕ) → j < suc i → usable used free (port + 6 * j) ≡ false
      all_busy zero h = subst (λ p. usable used free p ≡ false) (omega arith) busy
      all_busy (suc j) h =
          subst (λ p. usable used free p ≡ false) (omega arith) (before j (omega arith))

  search_ports-Searched :
      (fuel port : ℕ)
      → 10100 ≤ port + 6 * fuel
      → Searched used free port (search_ports used free fuel port)
  unfolding search_ports
  search_ports-Searched zero port enough = inl (refl, λ j h. absurd (omega arith))
  search_ports-Searched (suc fuel) port enough = elim (Bool-cases (ltb port 10100)) [
    | inr past ↦ rw (search_ports, past) (inl (refl, λ j h. ground arith))
    | inl inside ↦ elim (Bool-cases (usable used free port)) [
      | inl good ↦
          let same : port ≡ port + 6 * 0 = omega arith in
          rw (search_ports, inside, good)
            (inr (
              0,
              ground arith,
              ap some same,
              subst (λ p. usable used free p ≡ true) same good,
              λ j h. absurd (omega arith),
            ))
      | inr busy ↦
          rw (search_ports, inside, busy)
            (later_ports port _ busy (search_ports-Searched fuel (port + 6) (omega arith)))
    ]
  ]

  below :
      (n j : ℕ)
      → (j < n → usable used free (10000 + 6 * j) ≡ false)
      → (ltb j n && usable used free (10000 + 6 * j)) ≡ false
  below n j busy = elim (Bool-cases (ltb j n)) [
    | inr e ↦ rw e refl
    | inl e ↦ rw e (busy (ltb→lt j n e))
  ]

  pub find_available_port-usable :
      ((find_available_port used free ≡ none)
        × ((j : ℕ) → (ltb j 17 && usable used free (10000 + 6 * j)) ≡ false))
      ⊎ ((i : ℕ) × (i < 17)
          × (find_available_port used free ≡ some (10000 + 6 * i))
          × (usable used free (10000 + 6 * i) ≡ true)
          × ((j : ℕ) → (ltb j i && usable used free (10000 + 6 * j)) ≡ false))
  unfolding find_available_port
  find_available_port-usable = elim (search_ports-Searched 100 10000 (omega arith)) [
    | inl (e, no_port) ↦ inl (e, λ j. below 17 j (λ h. no_port j (omega arith)))
    | inr (i, bound, e, good, before) ↦ inr (i, omega arith, e, good, λ j. below i j (before j))
  ]

-- Whether the positive number `port` is among the numbers, and whether a sandbox could be started on it.
abbrev pub is_taken : ℕ → List Number → Bool
is_taken port [] = false
is_taken port (not_a_number ∷ used) = is_taken port used
is_taken port (integer true n ∷ used) = is_taken port used
is_taken port (integer false n ∷ used) = n == port || is_taken port used

abbrev pub is_open : List Number → (ℕ → Bool) → ℕ → Bool
is_open used free port =
    not (is_taken port used)
    && (free port
        && free (port + 1)
        && free (port + 2)
        && free (port + 3)
        && free (port + 4)
        && free (port + 5))

has_port-is_taken :
    (port : ℕ) (used : List Number)
    → 0 < port
    → has_port (integer false port) used ≡ is_taken port used
unfolding has_port
has_port-is_taken port [] h = refl
has_port-is_taken port (not_a_number ∷ used) h = has_port-is_taken port used h
has_port-is_taken port (integer true n ∷ used) h = ground (arith, has_port-is_taken port used h)
has_port-is_taken port (integer false n ∷ used) h = ground (arith, has_port-is_taken port used h)

all_free-six :
    (free : ℕ → Bool) (port : ℕ)
    → all_free free 6 port ≡ (
        free port
        && free (port + 1)
        && free (port + 2)
        && free (port + 3)
        && free (port + 4)
        && free (port + 5))
unfolding all_free
all_free-six free port = ground arith

usable-is_open :
    (used : List Number) (free : ℕ → Bool) (j : ℕ)
    → usable used free (10000 + 6 * j) ≡ is_open used free (10000 + 6 * j)
usable-is_open used free j =
    rw (has_port-is_taken (10000 + 6 * j) used (omega arith), all_free-six free (10000 + 6 * j))
      refl

-- Either none of the seventeen candidates 10000, 10006, ..., 10096 is open and no port is found, or the
-- first open one is found. A port is open if it is not among the used ones, and it and the five ports
-- after it are free.
pub find_available_port-first :
    (used : List Number) (free : ℕ → Bool)
    → ((find_available_port used free ≡ none)
        × ((j : ℕ) → (ltb j 17 && is_open used free (10000 + 6 * j)) ≡ false))
      ⊎ ((i : ℕ) × (i < 17)
          × (find_available_port used free ≡ some (10000 + 6 * i))
          × (is_open used free (10000 + 6 * i) ≡ true)
          × ((j : ℕ) → (ltb j i && is_open used free (10000 + 6 * j)) ≡ false))
find_available_port-first used free = elim (find_available_port-usable used free) [
  | inl (e, no_port) ↦
      inl (e, λ j. ap (λ b. ltb j 17 && b) (sym (usable-is_open used free j)) ∙ no_port j)
  | inr (i, bound, e, good, before) ↦ inr (
    i,
    bound,
    e,
    sym (usable-is_open used free i) ∙ good,
    λ j. ap (λ b. ltb j i && b) (sym (usable-is_open used free j)) ∙ before j,
  )
]

-- Reading the port of an endpoint back.
split-digits : (s : Str) → All IsDigit s → split s ≡ s ∷ []
unfolding split
split-digits [] h = refl
split-digits (c ∷ s) (d, h) =
    let other : (c == b':') ≡ false = ground arith in rw (split, split-digits s h, other) refl

leading_digits-All : (s : Str) → All IsDigit s → leading_digits s ≡ s
unfolding leading_digits
leading_digits-All [] h = refl
leading_digits-All (c ∷ s) (d, h) = ground (arith, leading_digits-All s h)

parse_int-digits :
    (s : Str) → s ≢ [] → All IsDigit s → parse_int s ≡ integer false (number_from 0 s)
unfolding parse_int parse_trimmed with_sign trim_start
parse_int-digits [] ne h = absurd (ne refl)
parse_int-digits (c ∷ s) ne (d, h) =
    let solid : is_space c ≡ false = ground arith in
    let positive : (c == b'-') ≡ false = ground arith in
    let unsigned : (c == b'+') ≡ false = ground arith in
    rw (parse_int, trim_start, solid, parse_trimmed, positive, unsigned)
      (ap (with_sign false) (leading_digits-All (c ∷ s) (d, h)))

decimal_nonempty : (n : ℕ) → decimal n ≢ []
unfolding decimal number_from
decimal_nonempty n e =
    let zero_n : n ≡ 0 = sym (number-decimal n) ∙ ap (number_from 0) e in
    let bad : decimal 0 ≡ [] = ap decimal (sym zero_n) ∙ e in cc

print_number-decimal : (n : ℕ) → print_number (integer false n) ≡ decimal n
unfolding print_number decimal
print_number-decimal zero = refl
print_number-decimal (suc n) = refl

pub extract_port-local_endpoint :
    (n : ℕ) → extract_port (local_endpoint (integer false n)) ≡ integer false n
unfolding extract_port split
extract_port-local_endpoint n =
    let digits : split (print_number (integer false n)) ≡ decimal n ∷ [] =
      ap split (print_number-decimal n) ∙ split-digits (decimal n) (decimal-All_digits n) in
    rw digits (
      parse_int-digits (decimal n) (decimal_nonempty n) (decimal-All_digits n)
      ∙ ap (integer false) (number-decimal n))
