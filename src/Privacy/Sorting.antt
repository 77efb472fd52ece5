-- ===== src/Privacy/Sorting.antt =====
-- Sorting strings by their code units.
use cantontrace.Base.{
  ◌≡◌, refl, List, [], ◌∷◌, Str, true, false, ◌||◌, includes, ◌===◌, All, arith, Bool-cases, inl,
  inr, Distinct, ===_iff,
}
use cantontrace.Privacy.{before, insert, sort}

-- Each string comes before all that follow.
abbrev pub IsSorted : List Str → Type 0
IsSorted [] = Unit
IsSorted (s ∷ ts) = All (λ t. before s t ≡ true) ts × IsSorted ts

before_total : (s t : Str) → before s t ≡ false → before t s ≡ true
unfolding before
before_total [] t h = cc
before_total (c ∷ s) [] h = refl
before_total (c ∷ s) (d ∷ t) h = ground (arith, before_total s t)

before_trans : (s t u : Str) → before s t ≡ true → before t u ≡ true → before s u ≡ true
unfolding before
before_trans [] t u h k = refl
before_trans (c ∷ s) [] u h k = cc
before_trans (c ∷ s) (d ∷ t) [] h k = cc
before_trans (c ∷ s) (d ∷ t) (e ∷ u) h k = ground (arith, before_trans s t u)

All-before :
    (s t : Str) (l : List Str)
    → before s t ≡ true
    → All (λ u. before t u ≡ true) l
    → All (λ u. before s u ≡ true) l
All-before s t [] h a = tt
All-before s t (u ∷ l) h (b, a) = (before_trans s t u h b, All-before s t l h a)

All-insert : (P : Str → Type 0) (s : Str) (l : List Str) → P s → All P l → All P (insert s l)
unfolding insert
All-insert P s [] p a = (p, tt)
All-insert P s (t ∷ l) p (q, a) = elim (Bool-cases (before s t)) [
  | inl e ↦ rw (insert, e) (p, (q, a))
  | inr e ↦ rw (insert, e) (q, All-insert P s l p a)
]

insert-IsSorted : (s : Str) (l : List Str) → IsSorted l → IsSorted (insert s l)
unfolding insert
insert-IsSorted s [] h = (tt, tt)
insert-IsSorted s (t ∷ l) (a, h) = elim (Bool-cases (before s t)) [
  | inl e ↦ rw (insert, e) ((e, All-before s t l e a), (a, h))
  | inr e ↦
      rw (insert, e)
        (All-insert (λ u. before t u ≡ true) s l (before_total s t e) a, insert-IsSorted s l h)
]

pub sort-IsSorted : (l : List Str) → IsSorted (sort l)
unfolding sort
sort-IsSorted [] = tt
sort-IsSorted (s ∷ l) = insert-IsSorted s (sort l) (sort-IsSorted l)

pub includes-insert :
    (p s : Str) (l : List Str) → includes p (insert s l) ≡ (s === p || includes p l)
unfolding insert includes
includes-insert p s [] = refl
includes-insert p s (t ∷ l) = ground (arith, includes-insert p s l)

pub includes-sort : (p : Str) (l : List Str) → includes p (sort l) ≡ includes p l
unfolding sort includes
includes-sort p [] = refl
includes-sort p (s ∷ l) = ground (arith, includes-insert p s (sort l), includes-sort p l)

insert-Distinct :
    (s : Str) (l : List Str) → includes s l ≡ false → Distinct l → Distinct (insert s l)
unfolding insert includes
insert-Distinct s [] h d = (refl, tt)
insert-Distinct s (t ∷ l) h (n, d) = elim (Bool-cases (before s t)) [
  | inl e ↦ rw (insert, e) (h, (n, d))
  | inr e ↦
      rw (insert, e)
        (
          ground (arith, includes-insert t s l, ===_iff t s, ===_iff s t),
          insert-Distinct s l (ground arith) d,
        )
]

pub sort-Distinct : (l : List Str) → Distinct l → Distinct (sort l)
unfolding sort
sort-Distinct [] d = tt
sort-Distinct (s ∷ l) (n, d) =
    insert-Distinct s (sort l) (ground (arith, includes-sort s l)) (sort-Distinct l d)
