-- ===== src/Update/Children.antt =====
-- The children that `mapTransactionToDetail` (update-service.ts) gives to each exercise where
-- events share ids.
use mathlib.Core.Option.{get_or}
use cantontrace.Base.{
  ◌≡◌, ◌≢◌, refl, ap, ◌∙◌, ◌⊎◌, List, [], ◌∷◌, ◌++◌, some, Str, true, false, includes, arith, All,
  Distinct, Bool-cases, inl, inr, includes-append, ===_iff, ===_refl, append_assoc, map-append,
  append-nil,
}
use cantontrace.Base.Lookup.{get}
use cantontrace.Runtime.Object.{set, get-set}
use cantontrace.Ledger.{LedgerEvent, ExercisedEvent, exercised}
use cantontrace.Proto.{Transaction}
use cantontrace.Update.Detail.{
  Flat, is_exercised, with_event_id, ids, populate, push_child, Link, link_step, link, reconstruct,
  flat_phase, scan, start, map_transaction_to_detail,
}
use cantontrace.Update.Ids.{IsPlain, id_of, scan-Distinct}
use cantontrace.Update.Roots.{through_first_exercise, link_step-stacked, link_step-unstacked}

get-push_child_ne :
    (q p id : Str) (o : List (Str × LedgerEvent)) → p ≢ q → get q (push_child p id o) ≡ get q o
unfolding push_child
get-push_child_ne q p id o h = grind (arith, get-set {V = LedgerEvent} p q, ===_iff p q)

get-push_child_self :
    (q id : Str) (o : List (Str × LedgerEvent)) (e : ExercisedEvent)
    → get q o ≡ some (exercised e)
    → get q (push_child q id o)
      ≡ some (exercised (record e { child_event_ids = e.child_event_ids ++ id ∷ [] }))
unfolding push_child
get-push_child_self q id o e h = rw (h, push_child) (rw (get-set, ===_refl) refl)

-- The stack is empty, or another exercise stands on top of it.
abbrev Apart : Str → List Str → Type 0
Apart q [] = Unit
Apart q (p ∷ ps) = p ≢ q

stack_cases : (s : List Str) → (s ≡ []) ⊎ ((p : Str) × (rest : List Str) × (s ≡ p ∷ rest))
stack_cases [] = inl refl
stack_cases (p ∷ ps) = inr (p, ps, refl)

-- A step under another exercise.
link_step-get :
    (q : Str) (f : Flat) (l : Link) → Apart q l.stack → get q (link_step f l).by_id ≡ get q l.by_id
link_step-get q f l apart = elim (stack_cases l.stack) [
  | inl e ↦ ap (get q) (link_step-unstacked f l e).1
  | inr (p, rest, e) ↦
      ap (get q) (link_step-stacked f l p rest e).1
      ∙ get-push_child_ne q p f.synthetic_id l.by_id (rw e at apart)
]

link_step-Apart :
    (q : Str) (f : Flat) (l : Link)
    → f.synthetic_id ≢ q
    → Apart q l.stack
    → Apart q (link_step f l).stack
link_step-Apart q f l ne apart = elim (stack_cases l.stack) [
  | inl e ↦
      rw (link_step-unstacked f l e).2
        (elim (Bool-cases (is_exercised f.event)) [ inl ex ↦ rw ex ne | inr plain ↦ rw plain tt ])
  | inr (p, rest, e) ↦
      rw (link_step-stacked f l p rest e).2 (elim (Bool-cases (is_exercised f.event)) [
        | inl ex ↦ rw ex ne
        | inr plain ↦ rw plain (rw e at apart)
      ])
]

-- An exercise is pushed.
link_step-stack :
    (f : Flat) (l : Link)
    → is_exercised f.event ≡ true
    → (rest : List Str) × ((link_step f l).stack ≡ f.synthetic_id ∷ rest)
link_step-stack f l ex = elim (stack_cases l.stack) [
  | inl e ↦ ([], rw ex at (link_step-unstacked f l e).2)
  | inr (p, rest, e) ↦ (p ∷ rest, rw ex at (link_step-stacked f l p rest e).2)
]

link-other :
    (q : Str) (fs : List Flat) (l : Link)
    → includes q (ids fs) ≡ false
    → Apart q l.stack
    → (get q (link fs l).by_id ≡ get q l.by_id) × Apart q (link fs l).stack
unfolding link includes
link-other q [] l h apart = (refl, apart)
link-other q (f ∷ fs) l h apart =
    let apart' = link_step-Apart q f l (λ e. ground (arith, ===_iff f.synthetic_id q)) apart in
    let (same, apart'') = link-other q fs (link_step f l) (ground arith) apart' in
    (same ∙ link_step-get q f l apart, apart'')

abbrev with_children : ExercisedEvent → List Str → LedgerEvent
with_children e cs = exercised (record e { child_event_ids = e.child_event_ids ++ cs })

link-own :
    (q : Str) (fs : List Flat) (l : Link) (e : ExercisedEvent) (rest : List Str)
    → l.stack ≡ q ∷ rest
    → get q l.by_id ≡ some (exercised e)
    → includes q (ids fs) ≡ false
    → get q (link fs l).by_id ≡ some (with_children e (through_first_exercise fs))
unfolding link includes through_first_exercise
link-own q [] l e rest st h out = rw append-nil h
link-own q (f ∷ fs) l e rest st h out =
    let (_, same, stack) = link_step-stacked f l q rest st in
    let own = ap (get q) same ∙ get-push_child_self q f.synthetic_id l.by_id e h in
    let ne : f.synthetic_id ≢ q = (λ x. ground (arith, ===_iff f.synthetic_id q)) in
    elim (Bool-cases (is_exercised f.event)) [
      | inl ex ↦
          rw ex ((link-other q fs (link_step f l) (ground arith) (rw (rw ex at stack) ne)).0 ∙ own)
      | inr plain ↦ rw plain (
          link-own q fs (link_step f l)
            (record e { child_event_ids = e.child_event_ids ++ f.synthetic_id ∷ [] }) rest
            (rw plain at stack) own (ground arith)
          ∙ ap (λ cs. some (exercised (record e { child_event_ids = cs })))
              (append_assoc e.child_event_ids (f.synthetic_id ∷ []) (through_first_exercise fs)))
    ]

link-append : (fs gs : List Flat) (l : Link) → link (fs ++ gs) l ≡ link gs (link fs l)
unfolding link
link-append [] gs l = refl
link-append (f ∷ fs) gs l = link-append fs gs (link_step f l)

populate-other :
    (q : Str) (fs : List Flat) (o : List (Str × LedgerEvent))
    → includes q (ids fs) ≡ false
    → get q (populate fs o) ≡ get q o
unfolding populate includes
populate-other q [] o h = refl
populate-other q (f ∷ fs) o h = ground (
  arith,
  populate-other q fs (set f.synthetic_id (with_event_id f.synthetic_id f.event) o),
  get-set f.synthetic_id q (with_event_id f.synthetic_id f.event) o,
)

populate-middle :
    (before after : List Flat) (f : Flat) (o : List (Str × LedgerEvent))
    → includes f.synthetic_id (ids after) ≡ false
    → get f.synthetic_id (populate (before ++ f ∷ after) o)
      ≡ some (with_event_id f.synthetic_id f.event)
unfolding populate
populate-middle [] after f o h =
    populate-other f.synthetic_id after _ h
    ∙ get-set f.synthetic_id f.synthetic_id (with_event_id f.synthetic_id f.event) o
    ∙ rw (===_refl f.synthetic_id)
populate-middle (g ∷ before) after f o h = populate-middle before after f _ h

-- In a list without repetition an entry stands neither before nor after itself.
Distinct-middle :
    (xs ys : List Str) (x : Str)
    → Distinct (xs ++ x ∷ ys)
    → (includes x xs ≡ false) × (includes x ys ≡ false)
unfolding includes
Distinct-middle [] ys x d = (refl, d.0)
Distinct-middle (z ∷ xs) ys x (h, d) =
    let (before, after) = Distinct-middle xs ys x d in
    (ground (arith, includes-append z xs (x ∷ ys), ===_iff z x, ===_refl z), after)

module _ (before after : List Flat) (f : Flat) (e : ExercisedEvent) (is_ex : f.event ≡ exercised e)
    (d : Distinct (ids (before ++ f ∷ after))) where
  children-reconstruct :
      (by_id : List (Str × LedgerEvent))
      → get f.synthetic_id (reconstruct (before ++ f ∷ after) by_id).by_id
        ≡ some
            (with_children (record e { event_id = f.synthetic_id }) (through_first_exercise after))
  unfolding reconstruct link
  children-reconstruct by_id =
      ap (λ l. get q l.by_id) (link-append before (f ∷ after) l0)
      ∙ link-own q after (link_step f l1) (record e { event_id = q })
          (link_step-stack f l1 (rw is_ex refl)).0 (link_step-stack f l1 (rw is_ex refl)).1
          (link_step-get q f l1 kept.1
            ∙ kept.0
            ∙ populate-middle before after f by_id outside.1
            ∙ ap (λ x. some (with_event_id q x)) is_ex)
          outside.1
    where
      q : Str
      q = f.synthetic_id

      l0 : Link
      l0 = record { by_id = populate (before ++ f ∷ after) by_id; stack = []; children = [] }

      l1 : Link
      l1 = link before l0

      outside : (includes q (ids before) ≡ false) × (includes q (ids after) ≡ false)
      outside = Distinct-middle (ids before) (ids after) q (rw map-append at d)

      kept : (get q l1.by_id ≡ get q l0.by_id) × Apart q l1.stack
      kept = link-other q before l0 outside.0 tt

-- Where the events of a transaction share ids, an exercise of the flat list keeps the children that
-- it came with and gets, in order, the events that follow it up to and including the next exercise.
-- The ids that the events come with have at most one colon each.
pub map_transaction_to_detail-children :
    (tx : Transaction) (before after : List Flat) (f : Flat) (e : ExercisedEvent)
    → All (λ te. IsPlain (id_of te)) (get_or tx.events [])
    → (scan 0 (get_or tx.events []) start).collisions ≡ true
    → (scan 0 (get_or tx.events []) start).mapped ≡ before ++ f ∷ after
    → f.event ≡ exercised e
    → get f.synthetic_id (map_transaction_to_detail tx).events_by_id
      ≡ some (
          exercised (record e {
            event_id = f.synthetic_id;
            child_event_ids = e.child_event_ids ++ through_first_exercise after;
          }))
unfolding map_transaction_to_detail flat_phase
map_transaction_to_detail-children tx before after f e plain collide split is_ex = rw collide (
    rw split (
      children-reconstruct before after f e is_ex
        (rw split at (scan-Distinct (get_or tx.events []) plain)) _))
