-- ===== src/Collector/Recent.antt =====
-- What loadRecent of event-stream-store.ts adds to the events.
use cantontrace.Base.{
  ℕ, zero, suc, ◌-◌, ◌≡◌, refl, ap, ◌∙◌, List, [], ◌∷◌, ◌++◌, some, Str, true, false, not, ◌||◌,
  Bool-cases, inl, inr, length, drop, keep, map-append, arith, includes, includes-append, ===_iff,
  ===_refl, Distinct,
}
use cantontrace.Ledger.{LedgerUpdate}
use cantontrace.Collector.{
  Collector, max_events, newest, update_ids, reverse_onto, merge_recent, recent_answered,
}
use cantontrace.Collector.Window.{newest-drop}

Distinct-drop :
    (k : ℕ) (l : List LedgerUpdate) → Distinct (update_ids l) → Distinct (update_ids (drop k l))
Distinct-drop zero l d = d
Distinct-drop (suc k) [] d = tt
Distinct-drop (suc k) (u ∷ l) (h, d) = Distinct-drop k l d

Distinct-newest :
    (l : List LedgerUpdate) → Distinct (update_ids l) → Distinct (update_ids (newest l))
Distinct-newest l d = rw (newest-drop l) (Distinct-drop (length l - max_events) l d)

-- The updates whose ids are not there.
abbrev unknown : List Str → List LedgerUpdate → List LedgerUpdate
unknown known = keep (λ (u : LedgerUpdate). not (includes u.update_id known))

includes-unknown :
    (x : Str) (known : List Str) (recent : List LedgerUpdate)
    → includes x (update_ids recent) ≡ false
    → includes x (update_ids (unknown known recent)) ≡ false
unfolding includes
includes-unknown x known [] h = refl
includes-unknown x known (u ∷ recent) h = ground (arith, includes-unknown x known recent)

Distinct-unknown :
    (recent events : List LedgerUpdate)
    → Distinct (update_ids recent)
    → Distinct (update_ids events)
    → Distinct (update_ids (unknown (update_ids events) recent ++ events))
Distinct-unknown [] events r d = d
Distinct-unknown (u ∷ recent) events (h, r) d =
    elim (Bool-cases (includes u.update_id (update_ids events))) [
      | inl known ↦ rw known (Distinct-unknown recent events r d)
      | inr new ↦
          let rest : List LedgerUpdate = unknown (update_ids events) recent in
          let absent : includes u.update_id (update_ids rest) ≡ false =
            includes-unknown u.update_id (update_ids events) recent h in
          let split : includes u.update_id (update_ids (rest ++ events)) ≡ (
              includes u.update_id (update_ids rest) || includes u.update_id (update_ids events)) =
            ap (includes u.update_id) (map-append (λ (v : LedgerUpdate). v.update_id) rest events)
            ∙ includes-append u.update_id (update_ids rest) (update_ids events) in
          rw new (split ∙ ground arith, Distinct-unknown recent events r d)
    ]

Distinct-reverse_onto :
    (us l : List LedgerUpdate)
    → Distinct (update_ids us)
    → Distinct (update_ids l)
    → ((x : Str) → includes x (update_ids us) ≡ true → includes x (update_ids l) ≡ false)
    → Distinct (update_ids (reverse_onto us l))
unfolding reverse_onto includes
Distinct-reverse_onto [] l du dl apart = dl
Distinct-reverse_onto (u ∷ us) l (h, du) dl apart =
    let first : includes u.update_id (update_ids l) ≡ false =
      apart u.update_id (ground (arith, ===_refl u.update_id)) in
    Distinct-reverse_onto us (u ∷ l) du (first, dl)
      (λ x there. ground (arith, apart x, ===_iff u.update_id x, h, there))

-- Loading recent updates never shows an update twice: if the ids of the events are all different, and
-- those of the answer are, the ids of the events are all different afterwards.
pub update_ids-recent_answered-Distinct :
    (body : List LedgerUpdate) (c : Collector)
    → Distinct (update_ids body)
    → Distinct (update_ids c.events)
    → Distinct (update_ids (recent_answered (some body) c).events)
unfolding recent_answered merge_recent includes
update_ids-recent_answered-Distinct [] c b d = d
update_ids-recent_answered-Distinct (u ∷ us) c b d =
    Distinct-newest (unknown (update_ids c.events) (reverse_onto (u ∷ us) []) ++ c.events) (
      Distinct-unknown (reverse_onto (u ∷ us) []) c.events
        (Distinct-reverse_onto (u ∷ us) [] b tt (λ x there. refl)) d)
