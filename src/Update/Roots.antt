-- ===== src/Update/Roots.antt =====
-- The roots that `mapTransactionToDetail` (update-service.ts) finds where events share ids.
use cantontrace.Base.{
  ◌≡◌, refl, sym, ap, ◌∙◌, append-nil, keep-append, List, [], ◌∷◌, ◌++◌, Str, Bool, true, not, ◌||◌,
  keep, if◌then◌else◌, includes, add, arith, All, Distinct, Bool-cases, inl, inr, includes-add,
  includes-append, ===_refl,
}
use cantontrace.Ledger.{LedgerEvent}
use cantontrace.Proto.{Transaction}
use cantontrace.Update.Detail.{
  Flat, is_exercised, ids, Link, claim, push_child, link_step, link, reconstruct, flat_phase, scan,
  start, map_transaction_to_detail,
}
use cantontrace.Update.Ids.{IsPlain, id_of, scan-Distinct}
use mathlib.Core.Option.{get_or}
use mathlib.Core.Path.{ap₂}

-- The ids up to and including the first exercise.
unfoldable pub through_first_exercise : List Flat → List Str
through_first_exercise [] = []
through_first_exercise (f ∷ fs) =
    if is_exercised f.event then f.synthetic_id ∷ [] else f.synthetic_id ∷ through_first_exercise fs

-- The ids after the first exercise.
unfoldable pub after_first_exercise : List Flat → List Str
after_first_exercise [] = []
after_first_exercise (f ∷ fs) = if is_exercised f.event then ids fs else after_first_exercise fs

through-append-after :
    (fs : List Flat) → through_first_exercise fs ++ after_first_exercise fs ≡ ids fs
unfolding through_first_exercise after_first_exercise
through-append-after [] = refl
through-append-after (f ∷ fs) = ground (arith, through-append-after fs)

-- A step under the exercise `p`.
pub link_step-stacked :
    (f : Flat) (l : Link) (p : Str) (rest : List Str)
    → l.stack ≡ p ∷ rest
    → ((link_step f l).children ≡ add f.synthetic_id l.children)
      × ((link_step f l).by_id ≡ push_child p f.synthetic_id l.by_id)
      × ((link_step f l).stack
          ≡ (if is_exercised f.event then f.synthetic_id ∷ p ∷ rest else p ∷ rest))
unfolding link_step claim
link_step-stacked f l p rest e = ground arith

-- A step before any exercise.
pub link_step-unstacked :
    (f : Flat) (l : Link)
    → l.stack ≡ []
    → ((link_step f l).children ≡ l.children)
      × ((link_step f l).by_id ≡ l.by_id)
      × ((link_step f l).stack ≡ (if is_exercised f.event then f.synthetic_id ∷ [] else []))
unfolding link_step claim
link_step-unstacked f l e = ground arith

-- Under an exercise every event becomes a child.
children-link_stacked :
    (x : Str) (fs : List Flat) (l : Link) (p : Str) (rest : List Str)
    → l.stack ≡ p ∷ rest
    → includes x (link fs l).children ≡ (includes x l.children || includes x (ids fs))
unfolding link includes
children-link_stacked x [] l p rest e = ground arith
children-link_stacked x (f ∷ fs) l p rest e =
    let (kids, _, stack) = link_step-stacked f l p rest e in
    elim (Bool-cases (is_exercised f.event)) [
      | inl ex ↦ ground (
        arith,
        children-link_stacked x fs (link_step f l) f.synthetic_id (p ∷ rest) (rw ex at stack),
        includes-add x f.synthetic_id l.children,
      )
      | inr plain ↦ ground (
        arith,
        children-link_stacked x fs (link_step f l) p rest (rw plain at stack),
        includes-add x f.synthetic_id l.children,
      )
    ]

children-link :
    (x : Str) (fs : List Flat) (l : Link)
    → l.stack ≡ []
    → includes x (link fs l).children
      ≡ (includes x l.children || includes x (after_first_exercise fs))
unfolding link includes after_first_exercise
children-link x [] l e = ground arith
children-link x (f ∷ fs) l e =
    let (kids, _, stack) = link_step-unstacked f l e in
    elim (Bool-cases (is_exercised f.event)) [
      | inl ex ↦
          ground
            (arith, children-link_stacked x fs (link_step f l) f.synthetic_id [] (rw ex at stack))
      | inr plain ↦ ground (arith, children-link x fs (link_step f l) (rw plain at stack))
    ]

keep-none :
    (ys zs : List Str)
    → ((t : Str) → includes t zs ≡ true → includes t ys ≡ true)
    → keep (λ id. not (includes id ys)) zs ≡ []
unfolding includes
keep-none ys [] sub = refl
keep-none ys (z ∷ zs) sub =
    ground (arith, sub z, ===_refl z, keep-none ys zs (λ t h. sub t (ground arith)))

keep-all : (xs ys : List Str) → Distinct (xs ++ ys) → keep (λ id. not (includes id ys)) xs ≡ xs
keep-all [] ys d = refl
keep-all (x ∷ xs) ys (h, d) = ground (arith, includes-append x xs ys, keep-all xs ys d)

-- In a list without repetition, the part before another is what is not in the other.
keep-not-includes :
    (xs ys : List Str) → Distinct (xs ++ ys) → keep (λ id. not (includes id ys)) (xs ++ ys) ≡ xs
keep-not-includes xs ys d =
    keep-append (λ id. not (includes id ys)) xs ys
    ∙ ap₂ ◌++◌ (keep-all xs ys d) (keep-none ys ys (λ t h. h))
    ∙ append-nil xs

keep_congr : (p q : Str → Bool) (xs : List Str) → ((x : Str) → p x ≡ q x) → keep p xs ≡ keep q xs
keep_congr p q [] h = refl
keep_congr p q (x ∷ xs) h = ground (arith, h x, keep_congr p q xs h)

pub roots-reconstruct :
    (fs : List Flat) (by_id : List (Str × LedgerEvent))
    → Distinct (ids fs)
    → (reconstruct fs by_id).roots ≡ through_first_exercise fs
unfolding reconstruct includes
roots-reconstruct fs by_id d =
    keep_congr _ _ (ids fs) (λ x. ap not (children-link x fs _ refl))
    ∙ ap (keep (λ id. not (includes id (after_first_exercise fs)))) (sym (through-append-after fs))
    ∙ keep-not-includes (through_first_exercise fs) (after_first_exercise fs)
        (rw through-append-after d)

-- Where the events of a transaction share ids, its roots are the events up to and including the
-- first exercise, whatever the events after it are: no later exercise is ever a root. The ids that
-- the events come with have at most one colon each.
pub map_transaction_to_detail-roots :
    (tx : Transaction)
    → All (λ te. IsPlain (id_of te)) (get_or tx.events [])
    → (scan 0 (get_or tx.events []) start).collisions ≡ true
    → (map_transaction_to_detail tx).root_event_ids
      ≡ through_first_exercise (scan 0 (get_or tx.events []) start).mapped
unfolding map_transaction_to_detail flat_phase
map_transaction_to_detail-roots tx plain collide =
    rw collide (roots-reconstruct _ _ (scan-Distinct (get_or tx.events []) plain))
