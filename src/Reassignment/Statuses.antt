-- ===== src/Reassignment/Statuses.antt =====
-- What the replies of reassignments.ts list.
use mathlib.Core.Option.{get_or}
use cantontrace.Base.{
  ℕ, ◌+◌, ◌≡◌, ◌⊎◌, refl, List, [], ◌∷◌, ◌++◌, Option, some, Str, Bool, true, false, if◌then◌else◌,
  All, arith, map, length, length-map, length-append, Bool-cases, inl, inr, ◌===◌,
}
use cantontrace.Base.Lookup.{put, delete, values}
use cantontrace.Ledger.{LedgerEvent, LedgerUpdate, AssignedEvent, UnassignedEvent}
use cantontrace.Reassignment.{
  unassigned, in_flight, assigned, Partial, Reassignment, Found, is_given, is_other, known,
  note_unassigned, note_assigned, note_reassignments, is_reassignment, on_reassignment_update,
  note_updates, complete, mark_in_flight, insert_reassignment, sort_reassignments, finalize,
}

-- Assigned, or unassigned at some time.
abbrev IsTracked : Partial → Type 0
IsTracked p =
    ((is_given p.assigned_at ≡ true) × (p.status ≡ some assigned))
    ⊎ ((is_given p.assigned_at ≡ false)
        × (p.status ≡ some unassigned)
        × (is_given p.unassigned_at ≡ true))

note_unassigned-IsTracked :
    (e : UnassignedEvent) (time : Str) (p : Partial)
    → is_given (some time) ≡ true
    → IsTracked (note_unassigned e time p)
unfolding note_unassigned
note_unassigned-IsTracked e time p h = elim (Bool-cases (is_given p.assigned_at)) [
  | inl y ↦ inl (y, rw y refl)
  | inr n ↦ inr (n, rw n refl, h)
]

note_assigned-IsTracked :
    (e : AssignedEvent) (time : Str) (p : Partial)
    → is_given (some time) ≡ true
    → IsTracked (note_assigned e time p)
unfolding note_assigned
note_assigned-IsTracked e time p h = inl (h, refl)

abbrev AllTracked : Found → Type 0
AllTracked found = All IsTracked (values found)

put-AllTracked :
    (k : Str) (p : Partial) (found : Found)
    → IsTracked p
    → AllTracked found
    → AllTracked (put k p found)
unfolding put
put-AllTracked k p [] q h = (q, tt)
put-AllTracked k p ((j, r) ∷ found) q (g, h) = elim (Bool-cases (j === k)) [
  | inl e ↦ rw (put, e) (q, h)
  | inr e ↦ rw (put, e) (g, put-AllTracked k p found q h)
]

delete-AllTracked : (k : Str) (found : Found) → AllTracked found → AllTracked (delete k found)
unfolding delete
delete-AllTracked k [] h = tt
delete-AllTracked k ((j, r) ∷ found) (g, h) = elim (Bool-cases (j === k)) [
  | inl e ↦ rw (delete, e) h
  | inr e ↦ rw (delete, e) (g, delete-AllTracked k found h)
]

note_reassignments-AllTracked :
    (wanted : Option Str) (time : Str) (es : List LedgerEvent) (found : Found)
    → is_given (some time) ≡ true
    → AllTracked found
    → AllTracked (note_reassignments wanted time es found).0
unfolding note_reassignments
note_reassignments-AllTracked wanted time [] found t h = h
note_reassignments-AllTracked wanted time (LedgerEvent.unassigned e ∷ es) found t h =
    elim (Bool-cases (is_other wanted e.contract_id)) [
      | inl other ↦ rw (note_reassignments, other) (delete-AllTracked e.reassignment_id found h)
      | inr same ↦
          rw (note_reassignments, same)
            (note_reassignments-AllTracked wanted time es _ t (
              put-AllTracked e.reassignment_id _ found
                (note_unassigned-IsTracked e time (known e.reassignment_id found) t) h))
    ]
note_reassignments-AllTracked wanted time (LedgerEvent.assigned e ∷ es) found t h =
    elim (Bool-cases (is_other wanted e.contract_id)) [
      | inl other ↦ rw (note_reassignments, other) (delete-AllTracked e.reassignment_id found h)
      | inr same ↦
          rw (note_reassignments, same)
            (note_reassignments-AllTracked wanted time es _ t (
              put-AllTracked e.reassignment_id _ found
                (note_assigned-IsTracked e time (known e.reassignment_id found) t) h))
    ]
note_reassignments-AllTracked wanted time (LedgerEvent.created e ∷ es) found t h =
    note_reassignments-AllTracked wanted time es found t h
note_reassignments-AllTracked wanted time (LedgerEvent.archived e ∷ es) found t h =
    note_reassignments-AllTracked wanted time es found t h
note_reassignments-AllTracked wanted time (LedgerEvent.exercised e ∷ es) found t h =
    note_reassignments-AllTracked wanted time es found t h

abbrev pub IsTimed : LedgerUpdate → Type 0
IsTimed u = is_given (some u.record_time) ≡ true

note_updates-AllTracked :
    (limit : ℕ) (wanted : Option Str) (us : List LedgerUpdate) (found : Found)
    → All IsTimed us
    → AllTracked found
    → AllTracked (note_updates limit wanted us found)
unfolding note_updates on_reassignment_update
note_updates-AllTracked limit wanted [] found t h = h
note_updates-AllTracked limit wanted (u ∷ us) found (t, ts) h =
    elim (Bool-cases (is_reassignment u.update_type)) [
      | inl y ↦
          rw (on_reassignment_update, y)
            (note_updates-AllTracked limit wanted us _ ts
              (note_reassignments-AllTracked wanted u.record_time u.events found t h))
      | inr n ↦ rw (on_reassignment_update, n) (note_updates-AllTracked limit wanted us found ts h)
    ]

-- Assigned once the time of that is known, and in flight until then.
abbrev pub IsSettled : Reassignment → Type 0
IsSettled r = r.status ≡ (if is_given r.assigned_at then assigned else in_flight)

mark_in_flight-IsSettled :
    (time_of : Str → Option ℕ) (p : Partial)
    → IsTracked p
    → IsSettled (mark_in_flight (complete time_of p))
unfolding mark_in_flight complete
mark_in_flight-IsSettled time_of p (inl (y, s)) = ground arith
mark_in_flight-IsSettled time_of p (inr (n, s, u)) = ground arith

values-IsSettled :
    (time_of : Str → Option ℕ) (ps : List Partial)
    → All IsTracked ps
    → All IsSettled (map mark_in_flight (map (complete time_of) ps))
values-IsSettled time_of [] h = tt
values-IsSettled time_of (p ∷ ps) (q, h) =
    (mark_in_flight-IsSettled time_of p q, values-IsSettled time_of ps h)

module _ (at_most : Str → Str → Bool) where
  insert_reassignment-IsSettled :
      (r : Reassignment) (rs : List Reassignment)
      → IsSettled r
      → All IsSettled rs
      → All IsSettled (insert_reassignment at_most r rs)
  unfolding insert_reassignment
  insert_reassignment-IsSettled r [] p h = (p, tt)
  insert_reassignment-IsSettled r (s ∷ ss) p (q, h) =
      elim (Bool-cases (at_most (get_or r.unassigned_at []) (get_or s.unassigned_at []))) [
        | inl y ↦ rw (insert_reassignment, y) (p, (q, h))
        | inr n ↦ rw (insert_reassignment, n) (q, insert_reassignment-IsSettled r ss p h)
      ]

  sort_reassignments-IsSettled :
      (rs : List Reassignment) → All IsSettled rs → All IsSettled (sort_reassignments at_most rs)
  unfolding sort_reassignments
  sort_reassignments-IsSettled [] h = tt
  sort_reassignments-IsSettled (r ∷ rs) (p, h) =
      insert_reassignment-IsSettled r (sort_reassignments at_most rs) p
        (sort_reassignments-IsSettled rs h)

  length-insert_reassignment :
      (r : Reassignment) (rs : List Reassignment)
      → length (insert_reassignment at_most r rs) ≡ length rs + 1
  unfolding insert_reassignment
  length-insert_reassignment r [] = refl
  length-insert_reassignment r (s ∷ ss) = ground (arith, length-insert_reassignment r ss)

  length-sort_reassignments :
      (rs : List Reassignment) → length (sort_reassignments at_most rs) ≡ length rs
  unfolding sort_reassignments
  length-sort_reassignments [] = refl
  length-sort_reassignments (r ∷ rs) = omega (
    arith,
    length-insert_reassignment r (sort_reassignments at_most rs),
    length-sort_reassignments rs,
  )

-- Whatever the updates of a stream are, as long as each has a record time: every reassignment of the
-- first reply is assigned if the time of its assignment is known and else in flight, never unassigned
-- or failed.
pub finalize-note_updates-IsSettled :
    (time_of : Str → Option ℕ) (at_most : Str → Str → Bool) (limit : ℕ) (wanted : Option Str)
    (us : List LedgerUpdate)
    → All IsTimed us
    → All IsSettled (finalize time_of at_most (note_updates limit wanted us []) [])
unfolding finalize
finalize-note_updates-IsSettled time_of at_most limit wanted us h =
    sort_reassignments-IsSettled at_most _
      (values-IsSettled time_of _ (note_updates-AllTracked limit wanted us [] h tt))

length-finalize :
    (time_of : Str → Option ℕ) (at_most : Str → Str → Bool) (found : Found)
    (collected : List Reassignment)
    → length (finalize time_of at_most found collected) ≡ length collected + length found
unfolding finalize
length-finalize time_of at_most found collected =
    let added = map (complete time_of) (values found) in
    omega (
      arith,
      length-sort_reassignments at_most (map mark_in_flight (collected ++ added)),
      length-map mark_in_flight (collected ++ added),
      length-append collected added,
      length-map (complete time_of) (values found),
      length-map (λ (e : Str × Partial). e.1) found,
    )

-- The timeout finalizes once more, and its reply lists each reassignment of the first one twice.
pub length-finalize-finalize :
    (time_of : Str → Option ℕ) (at_most : Str → Str → Bool) (found : Found)
    → length (finalize time_of at_most found (finalize time_of at_most found []))
      ≡ length (finalize time_of at_most found []) + length (finalize time_of at_most found [])
length-finalize-finalize time_of at_most found = omega (
  arith,
  length-finalize time_of at_most found (finalize time_of at_most found []),
  length-finalize time_of at_most found [],
)
