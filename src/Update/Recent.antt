-- ===== src/Update/Recent.antt =====
-- getRecentUpdates of api-gateway/src/canton/services/update-service.ts: how the events of its stream
-- settle the promise.
use cantontrace.Base.{
  ℕ, zero, suc, ◌<◌, ◌≡◌, refl, sym, ap, ◌∙◌, List, [], ◌∷◌, ◌++◌, Option, none, some, Bool, true,
  false, leb, max, if◌then◌else◌, length, take, length-append, append_assoc, append-nil, arith,
  Bool-cases, inl, inr,
}
use cantontrace.Ledger.{LedgerUpdate}

-- An update, an error of the stream or of the mapping of an update, and the end.
pub data StreamEvent : Type 0 where
  update : LedgerUpdate → StreamEvent
  fails ends : StreamEvent

pub data Outcome : Type 0 where
  resolves : List LedgerUpdate → Outcome
  rejects : Outcome

-- `updates` and `resolved`, with how the promise was settled and whether the stream was cancelled.
pub record Request : Type 0 where
  pub updates : List LedgerUpdate
  pub resolved : Bool
  pub outcome : Option Outcome
  pub cancelled : Bool

abbrev pub requested : Request
requested = record { updates = []; resolved = false; outcome = none; cancelled = false }

unfoldable pub receive_event : ℕ → StreamEvent → Request → Request
receive_event limit (update u) r =
    let updates = r.updates ++ u ∷ [] in
    if r.resolved
    then r
    else if leb limit (length updates)
    then record {
      updates = updates;
      resolved = true;
      outcome = some (resolves updates);
      cancelled = true;
    }
    else record r { updates = updates }
receive_event limit fails r =
    if r.resolved then r else record r { resolved = true; outcome = some rejects }
receive_event limit ends r =
    if r.resolved then r else record r { resolved = true; outcome = some (resolves r.updates) }

-- The request after the events of its stream.
unfoldable pub get_recent_updates : ℕ → List StreamEvent → Request → Request
get_recent_updates limit [] r = r
get_recent_updates limit (e ∷ es) r = get_recent_updates limit es (receive_event limit e r)

-- The updates before the first error or end, and what that makes of the promise.
abbrev pub leading : List StreamEvent → List LedgerUpdate
leading [] = []
leading (update u ∷ es) = u ∷ leading es
leading (fails ∷ es) = []
leading (ends ∷ es) = []

abbrev pub closing : List LedgerUpdate → List StreamEvent → Option Outcome
closing us [] = none
closing us (update u ∷ es) = closing us es
closing us (fails ∷ es) = some rejects
closing us (ends ∷ es) = some (resolves us)

abbrev pub settled : ℕ → List LedgerUpdate → List StreamEvent → Option Outcome
settled n us es = if leb n (length us) then some (resolves (take n us)) else closing us es

take-append_length : (n : ℕ) (us vs : List LedgerUpdate) → n ≡ length us → take n (us ++ vs) ≡ us
take-append_length zero [] vs e = refl
take-append_length (suc n) [] vs e = absurd (omega arith)
take-append_length zero (u ∷ us) vs e = absurd (omega arith)
take-append_length (suc n) (u ∷ us) vs e = ap (◌∷◌ u) (take-append_length n us vs (omega arith))

-- Events after the promise is settled change nothing.
get_recent_updates-resolved :
    (limit : ℕ) (es : List StreamEvent) (us : List LedgerUpdate) (o : Option Outcome) (c : Bool)
    → get_recent_updates limit es
        (record { updates = us; resolved = true; outcome = o; cancelled = c })
      ≡ record { updates = us; resolved = true; outcome = o; cancelled = c }
unfolding get_recent_updates receive_event
get_recent_updates-resolved limit [] us o c = refl
get_recent_updates-resolved limit (update u ∷ es) us o c =
    get_recent_updates-resolved limit es us o c
get_recent_updates-resolved limit (fails ∷ es) us o c = get_recent_updates-resolved limit es us o c
get_recent_updates-resolved limit (ends ∷ es) us o c = get_recent_updates-resolved limit es us o c

settled_short :
    (n : ℕ) (us : List LedgerUpdate) (es : List StreamEvent)
    → length us < n
    → settled n (us ++ []) es ≡ closing us es
settled_short n us es h =
    let short : leb n (length us) ≡ false = ground arith in
    ap (λ l. settled n l es) (append-nil us)
    ∙ ap (λ b. if b then some (resolves (take n us)) else closing us es) short

settled_full :
    (n : ℕ) (u : LedgerUpdate) (us vs : List LedgerUpdate) (es : List StreamEvent)
    → n ≡ length (us ++ u ∷ [])
    → settled n (us ++ u ∷ vs) es ≡ some (resolves (us ++ u ∷ []))
settled_full n u us vs es h =
    let all_in : leb n (length ((us ++ u ∷ []) ++ vs)) ≡ true =
      ground (arith, length-append (us ++ u ∷ []) vs) in
    ap (λ l. settled n l es) (sym (append_assoc us (u ∷ []) vs))
    ∙ ap
        (λ b.
          if b
          then some (resolves (take n ((us ++ u ∷ []) ++ vs)))
          else closing ((us ++ u ∷ []) ++ vs) es)
        all_in
    ∙ ap (λ l. some (resolves l)) (take-append_length n (us ++ u ∷ []) vs h)

abbrev unsettled : List LedgerUpdate → Request
unsettled us = record { updates = us; resolved = false; outcome = none; cancelled = false }

abbrev full : LedgerUpdate → List LedgerUpdate → Request
full u us = record {
  updates = us ++ u ∷ [];
  resolved = true;
  outcome = some (resolves (us ++ u ∷ []));
  cancelled = true;
}

outcome-from :
    (limit : ℕ) (es : List StreamEvent) (us : List LedgerUpdate)
    → length us < max limit 1
    → (get_recent_updates limit es (unsettled us)).outcome
      ≡ settled (max limit 1) (us ++ leading es) es
unfolding get_recent_updates receive_event
outcome-from limit [] us h = sym (settled_short (max limit 1) us [] h)
outcome-from limit (fails ∷ es) us h =
    ap (λ r. r.outcome) (get_recent_updates-resolved limit es us (some rejects) false)
    ∙ sym (settled_short (max limit 1) us (fails ∷ es) h)
outcome-from limit (ends ∷ es) us h =
    ap (λ r. r.outcome) (get_recent_updates-resolved limit es us (some (resolves us)) false)
    ∙ sym (settled_short (max limit 1) us (ends ∷ es) h)
outcome-from limit (update u ∷ es) us h =
    let step : (b : Bool)
        → leb limit (length (us ++ u ∷ [])) ≡ b
        → receive_event limit (update u) (unsettled us)
          ≡ (if b then full u us else unsettled (us ++ u ∷ [])) =
      λ b e. ap (λ b. if b then full u us else unsettled (us ++ u ∷ [])) e in
    elim (Bool-cases (leb limit (length (us ++ u ∷ [])))) [
      | inl enough ↦
          let last : max limit 1 ≡ length (us ++ u ∷ []) =
            ground (arith, length-append us (u ∷ [])) in
          ap (λ r. (get_recent_updates limit es r).outcome) (step true enough)
          ∙ ap (λ r. r.outcome) (get_recent_updates-resolved limit es _ _ true)
          ∙ sym (settled_full (max limit 1) u us (leading es) (update u ∷ es) last)
      | inr more ↦
          let room : length (us ++ u ∷ []) < max limit 1 =
            ground (arith, length-append us (u ∷ [])) in
          ap (λ r. (get_recent_updates limit es r).outcome) (step false more)
          ∙ outcome-from limit es (us ++ u ∷ []) room
          ∙ ap (λ l. settled (max limit 1) l es) (append_assoc us (u ∷ []) (leading es))
    ]

-- The promise is settled by the updates before the first error or end of the stream: it resolves with
-- the first `limit` of them, or the first one for a limit of 0, as soon as there are so many; if there
-- are fewer, it resolves with all of them at an end and rejects at an error, and else it is pending.
pub get_recent_updates-settled :
    (limit : ℕ) (es : List StreamEvent)
    → (get_recent_updates limit es requested).outcome ≡ settled (max limit 1) (leading es) es
get_recent_updates-settled limit es = outcome-from limit es [] (omega arith)
