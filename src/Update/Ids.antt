-- ===== src/Update/Ids.antt =====
-- The synthetic ids of `mapTransactionToDetail` (update-service.ts).

use cantontrace.Base.{
  ℕ, suc, ◌+◌, ◌≤◌, ◌<◌, ◌≡◌, ◌≢◌, refl, sym, ap, ◌∙◌, ◌⊎◌, inl, inr, List, [], ◌∷◌, ◌++◌, Option,
  none, some, Str, text, Bool, true, false, ◌||◌, length, ltb, if◌then◌else◌, includes, add, arith,
  All, Distinct, Bool-cases, Option-cases, includes-add, includes_of_All-ne, Distinct-append_single,
  map-append, ◌==◌, All-append, append_assoc, ===_refl,
}
use cantontrace.Runtime.Object.{number_from}
use cantontrace.Runtime.Decimal.{decimal, number-decimal, decimal-All_digits, IsDigit}
use cantontrace.Ledger.{LedgerEvent}
use cantontrace.Proto.{TreeEvent}
use cantontrace.Update.Mapping.{map_tree_event, chain}
use cantontrace.Update.Detail.{event_id, event_type, Scan, start, admit, scan_step, scan, ids}

-- The number of colons in a text.
unfoldable pub colons : Str → ℕ
colons [] = 0
colons (c ∷ s) = if c == b':' then suc (colons s) else colons s

colons-append : (s t : Str) → colons (s ++ t) ≡ colons s + colons t
unfolding colons
colons-append [] t = omega arith
colons-append (c ∷ s) t = ground (arith, colons-append s t)

-- What follows the last colon.
after_colon : Str → Str → Str
after_colon tail [] = tail
after_colon tail (c ∷ s) = after_colon (if c == b':' then s else tail) s

after_colon-digits : (tail s : Str) → All IsDigit s → after_colon tail s ≡ tail
unfolding after_colon
after_colon-digits tail [] h = refl
after_colon-digits tail (c ∷ s) (p, h) = ground (arith, after_colon-digits tail s h)

after_colon-append : (tail s d : Str) → All IsDigit d → after_colon tail (s ++ b':' ∷ d) ≡ d
unfolding after_colon
after_colon-append tail [] d h = after_colon-digits d d h
after_colon-append tail (c ∷ s) d h =
    after_colon-append (if c == b':' then s ++ b':' ∷ d else tail) s d h

-- The number at the end of an id.
position : Str → ℕ
position s = number_from 0 (after_colon [] s)

-- The synthetic id of an event at position `i`.
abbrev decorated : Str → LedgerEvent → ℕ → Str
decorated id e i = id ++ (text ":" ++ (event_type e ++ (text ":" ++ decimal i)))

position-decorated : (id : Str) (e : LedgerEvent) (i : ℕ) → position (decorated id e i) ≡ i
unfolding position
position-decorated id e i =
    ap (number_from 0) (
      ap (after_colon []) (sym (append_assoc id (b':' ∷ event_type e) (b':' ∷ decimal i)))
      ∙ after_colon-append [] (id ++ b':' ∷ event_type e) (decimal i) (decimal-All_digits i))
    ∙ number-decimal i

colons-decorated : (id : Str) (e : LedgerEvent) (i : ℕ) → 2 ≤ colons (decorated id e i)
unfolding colons
colons-decorated id e i = omega (
  arith,
  colons-append id (b':' ∷ (event_type e ++ b':' ∷ decimal i)),
  colons-append (event_type e) (b':' ∷ decimal i),
)

-- An id in use before position `i`: a plain one that was seen, or the synthetic one of an earlier
-- position.
abbrev Placed : ℕ → List Str → Str → Type 0
Placed i seen t = ((includes t seen ≡ true) × (colons t ≤ 1)) ⊎ ((2 ≤ colons t) × (position t < i))

record Inv (i : ℕ) (s : Scan) : Type 0 where
  distinct : Distinct (ids s.mapped)
  placed : All (Placed i s.seen) (ids s.mapped)

Placed-mono :
    (i : ℕ) (seen seen' : List Str) (ts : List Str)
    → ((t : Str) → includes t seen ≡ true → includes t seen' ≡ true)
    → All (Placed i seen) ts
    → All (Placed (suc i) seen') ts
Placed-mono i seen seen' [] grows h = tt
Placed-mono i seen seen' (t ∷ ts) grows (p, h) =
    (ground (arith, grows t), Placed-mono i seen seen' ts grows h)

Placed-ne :
    (i : ℕ) (seen : List Str) (t : Str) (ts : List Str)
    → All (Placed i seen) ts
    → ((includes t seen ≡ false) × (colons t ≤ 1)) ⊎ ((2 ≤ colons t) × (position t ≡ i))
    → All (λ u. u ≢ t) ts
Placed-ne i seen t [] h new = tt
Placed-ne i seen t (u ∷ us) (p, h) new = (
  λ e. ground (arith, ap colons e, ap position e, ap (λ x. includes x seen) e),
  Placed-ne i seen t us h new,
)

-- A step that passes over its event.
Inv-later : (i : ℕ) (s : Scan) → Inv i s → Inv (suc i) s
Inv-later i s v = record {
  distinct = v.distinct;
  placed = Placed-mono i s.seen s.seen (ids s.mapped) (λ t h. h) v.placed;
}

-- The state after an event with the id `id` was entered as `t`.
abbrev entered : Scan → Str → Str → LedgerEvent → Bool → Scan
entered s id t e c = record {
  mapped = s.mapped ++ record { synthetic_id = t; event = e } ∷ [];
  seen = add id s.seen;
  collisions = c;
}

entered-Inv :
    (i : ℕ) (s : Scan) (id t : Str) (e : LedgerEvent) (c : Bool)
    → Inv i s
    → ((includes t s.seen ≡ false) × (colons t ≤ 1)) ⊎ ((2 ≤ colons t) × (position t ≡ i))
    → Placed (suc i) (add id s.seen) t
    → Inv (suc i) (entered s id t e c)
entered-Inv i s id t e c v new place = record {
  distinct = rw map-append (
      Distinct-append_single t (ids s.mapped) v.distinct
        (includes_of_All-ne t (ids s.mapped) (Placed-ne i s.seen t (ids s.mapped) v.placed new)));
  placed = rw map-append (
      All-append (Placed (suc i) (add id s.seen)) (ids s.mapped) (t ∷ [])
        (Placed-mono i s.seen (add id s.seen) (ids s.mapped)
          (λ u h. ground (arith, includes-add u id s.seen)) v.placed)
        (place, tt));
}

admit-Inv :
    (i : ℕ) (id : Str) (e : LedgerEvent) (s : Scan)
    → colons id ≤ 1
    → Inv i s
    → Inv (suc i) (admit i id e s)
unfolding admit
admit-Inv i id e s h v = elim (Bool-cases unclear) [
  | inl c ↦ rw c (
      entered-Inv i s id (decorated id e i) e _ v
        (inr (colons-decorated id e i, position-decorated id e i))
        (inr (colons-decorated id e i, ground (arith, position-decorated id e i))))
  | inr c ↦ rw c (
      entered-Inv i s id id e _ v (inl (ground arith, h))
        (inl (ground (arith, includes-add id id s.seen, ===_refl id), h)))
]
  where
    unclear : Bool
    unclear = s.collisions || includes id s.seen || ltb (length (add id s.seen)) (i + 1)

-- The id that a tree event maps to, and that it has at most one colon.
abbrev pub id_of : TreeEvent → Option Str
id_of te = chain (map_tree_event te) event_id

abbrev pub IsPlain : Option Str → Type 0
IsPlain none = Unit
IsPlain (some id) = colons id ≤ 1

scan_step-Inv :
    (i : ℕ) (te : TreeEvent) (s : Scan)
    → IsPlain (id_of te)
    → Inv i s
    → Inv (suc i) (scan_step i te s)
unfolding scan_step
scan_step-Inv i te s h v = elim (Option-cases (map_tree_event te)) [
  | inl e ↦ rw (e, scan_step) (Inv-later i s v)
  | inr (ev, e) ↦ elim (Option-cases (event_id ev)) [
    | inl e' ↦ rw (e, scan_step, e') (Inv-later i s v)
    | inr (id, e') ↦ rw (e, scan_step, e') (admit-Inv i id ev s (rw (e, e') at h) v)
  ]
]

scan-Inv :
    (i : ℕ) (tes : List TreeEvent) (s : Scan)
    → All (λ te. IsPlain (id_of te)) tes
    → Inv i s
    → Distinct (ids (scan i tes s).mapped)
unfolding scan
scan-Inv i [] s h v = v.distinct
scan-Inv i (te ∷ tes) s (p, h) v =
    scan-Inv (suc i) tes (scan_step i te s) h (scan_step-Inv i te s p v)

-- The events of a transaction get different ids, whatever ids they share, if the ids that they
-- come with have at most one colon each.
pub scan-Distinct :
    (tes : List TreeEvent)
    → All (λ te. IsPlain (id_of te)) tes
    → Distinct (ids (scan 0 tes start).mapped)
scan-Distinct tes h = scan-Inv 0 tes start h (record { distinct = tt; placed = tt })
