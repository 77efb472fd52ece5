-- ===== src/Sandbox/Counting.antt =====
-- How many sandboxes of sandbox-manager.ts are not the demo sandbox, after each change of the map.
use cantontrace.Base.{
  ℕ, ◌+◌, ◌≤◌, ◌≡◌, List, [], ◌∷◌, some, Str, if◌then◌else◌, length, arith, Distinct, ◌===◌,
  ===_iff, includes, sym, ◌∙◌, Bool-cases, inl, inr, false, refl, ap,
}
use cantontrace.Base.Lookup.{keys, get, put, delete}
use cantontrace.Sandbox.{demo_sandbox_id}
use cantontrace.Sandbox.Capacity.{count_own}

pub count_own-le : (l : List (Str × ℕ)) → count_own l ≤ length l
count_own-le [] = omega arith
count_own-le ((j, k) ∷ l) = ground (arith, count_own-le l)

pub count_own-put_of_some :
    (id : Str) (n m : ℕ) (l : List (Str × ℕ))
    → get id l ≡ some m
    → count_own (put id n l) ≡ count_own l
unfolding get put
count_own-put_of_some id n m [] h = absurd (ground arith)
count_own-put_of_some id n m ((j, k) ∷ l) h =
    ground (arith, count_own-put_of_some id n m l, ===_iff j id)

pub count_own-put :
    (id : Str) (n : ℕ) (l : List (Str × ℕ))
    → count_own (put id n l) ≤ (if id === demo_sandbox_id then count_own l else count_own l + 1)
unfolding put
count_own-put id n [] = ground arith
count_own-put id n ((j, k) ∷ l) = ground (arith, count_own-put id n l, ===_iff j id)

pub count_own-delete : (id : Str) (l : List (Str × ℕ)) → count_own (delete id l) ≤ count_own l
unfolding delete
count_own-delete id [] = omega arith
count_own-delete id ((j, k) ∷ l) = ground (arith, count_own-delete id l)

count_own-without_demo :
    (l : List (Str × ℕ)) → includes demo_sandbox_id (keys l) ≡ false → count_own l ≡ length l
unfolding includes
count_own-without_demo [] h = refl
count_own-without_demo ((j, k) ∷ l) h =
    ground (arith, count_own-without_demo l, ===_iff j demo_sandbox_id, ===_iff demo_sandbox_id j)

-- Ids that are distinct hold the demo sandbox once.
pub length-count_own : (l : List (Str × ℕ)) → Distinct (keys l) → length l ≤ count_own l + 1
length-count_own [] d = omega arith
length-count_own ((j, k) ∷ l) (p, d) = elim (Bool-cases (j === demo_sandbox_id)) [
  | inl same ↦
      let e : j ≡ demo_sandbox_id = (===_iff j demo_sandbox_id).0 same in
      let rest = count_own-without_demo l (ap (λ x. includes x (keys l)) (sym e) ∙ p) in
      rw same (omega (arith, rest))
  | inr other ↦ let rest = length-count_own l d in rw other (omega (arith, rest))
]
