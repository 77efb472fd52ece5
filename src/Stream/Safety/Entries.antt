-- ===== src/Stream/Safety/Entries.antt =====
-- Adding and removing entries of the map of event-stream.ts.

use mathlib.Core.Option.{some_inj}
use cantontrace.Base.{
  ℕ, ◌≡◌, ◌≢◌, refl, sym, ap, ◌∙◌, List, [], Option, none, some, Str, false, ◌==◌, Distinct, arith,
  Bool-cases, inl, inr, ◌===◌, ===_iff, ===_refl,
}
use cantontrace.Base.Lookup.{keys, get, delete, get-delete, get_of_get-delete, keys-delete-Distinct}
use cantontrace.Stream.{
  Manager, Message, Subscription, set_object, set_phase, cancel_stream,
  unsubscribe_from_event_stream,
}
use cantontrace.Stream.Safety.{IsEntry, IsSafe}
use cantontrace.Stream.Safety.Writes.{
  object-here, object-away, object-id, IsStill, cancel_stream-IsSafe, cancel_stream-IsStill,
}

delete_same : (id : Str) (l : List (Str × ℕ)) → Distinct (keys l) → get id (delete id l) ≡ none
delete_same id l d = get-delete id id l d ∙ rw (===_refl id) refl

module _ (id : Str) (n : ℕ) (s : Subscription) (m : Manager) where
  -- The manager without the entry, and with a new value of its object.
  abbrev pub dropped : Manager
  dropped = record (set_object n s m) { subscriptions = delete id m.subscriptions }

  -- An entry of another object stays.
  entry_elsewhere :
      IsSafe m
      → get id m.subscriptions ≡ some n
      → (i : ℕ) → i ≢ n
      → IsEntry m i
      → get (m.object i).id (delete id m.subscriptions) ≡ some i
  entry_elsewhere safe found i away entry = elim (Bool-cases (id === (m.object i).id)) [
    | inl same ↦
        let there : get id m.subscriptions ≡ some i =
          ap (λ x. get x m.subscriptions) ((===_iff id (m.object i).id).0 same) ∙ entry in
        absurd (away (some_inj.0 (sym there ∙ found)))
    | inr other ↦ get-delete id (m.object i).id m.subscriptions safe.distinct ∙ rw other entry
  ]

  pub dropped-IsSafe :
      IsSafe m
      → get id m.subscriptions ≡ some n
      → s.id ≡ id
      → s.websockets ≡ []
      → IsStill n m
      → IsSafe dropped
  unfolding set_object
  dropped-IsSafe safe found named empty still = record {
    distinct = keys-delete-Distinct id m.subscriptions safe.distinct;
    keyed = λ x i e.
        let before : get x m.subscriptions ≡ some i =
          get_of_get-delete id x i m.subscriptions safe.distinct e in
        (object-id n s m same_id i ∙ (safe.keyed x i before).0, (safe.keyed x i before).1);
    attached = λ i h. elim (Bool-cases (i == n)) [
      | inl here ↦ absurd (h (ap (λ o. o.websockets) (object-here n s m i here) ∙ empty))
      | inr away ↦
          moved i (apart i away)
            (safe.attached i (λ e. h (ap (λ o. o.websockets) (object-away n s m i away) ∙ e)))
    ];
    allocated = safe.allocated;
    owned = λ k h. (
      moved (m.stream k).owner (still k h) (safe.owned k h).0,
      ap (λ o. o.cancel) (object-away n s m (m.stream k).owner (unequal (still k h)))
          ∙ (safe.owned k h).1,
    );
    busy = λ k h entry. elim (Bool-cases ((m.stream k).owner == n)) [
      | inl here ↦
          let gone : get ((set_object n s m).object (m.stream k).owner).id
                (delete id m.subscriptions)
              ≡ none =
            ap (λ o. get o.id (delete id m.subscriptions))
              (object-here n s m (m.stream k).owner here)
            ∙ ap (λ x. get x (delete id m.subscriptions)) named
            ∙ delete_same id m.subscriptions safe.distinct in
          absurd cc
      | inr away ↦
          let kept : (set_object n s m).object (m.stream k).owner ≡ m.object (m.stream k).owner =
            object-away n s m (m.stream k).owner away in
          ap (λ o. o.is_active) kept
          ∙ safe.busy k h (
              get_of_get-delete id (m.object (m.stream k).owner).id (m.stream k).owner
                m.subscriptions safe.distinct
                (ap (λ o. get o.id (delete id m.subscriptions)) (sym kept) ∙ entry))
    ];
    single = safe.single;
  }
    where
      same_id : s.id ≡ (m.object n).id
      same_id = named ∙ sym (safe.keyed id n found).0

      apart : (i : ℕ) → (i == n) ≡ false → i ≢ n
      apart i away e = ground arith

      unequal : {i : ℕ} → i ≢ n → (i == n) ≡ false
      unequal ne = ground arith

      moved :
          (i : ℕ)
          → i ≢ n
          → IsEntry m i
          → get ((set_object n s m).object i).id (delete id m.subscriptions) ≡ some i
      moved i away entry =
          ap (λ x. get x (delete id m.subscriptions)) (object-id n s m same_id i)
          ∙ entry_elsewhere safe found i away entry

-- What was sent, closed and cached has no part in it.
pub logs-IsSafe :
    (sent : List (ℕ × Message)) (closed : List ℕ) (offsets : List (Str × Str)) (m : Manager)
    → IsSafe m
    → IsSafe (record m { sent = sent; closed = closed; offsets = offsets })
logs-IsSafe sent closed offsets m safe = record {
  distinct = safe.distinct;
  keyed = safe.keyed;
  attached = safe.attached;
  allocated = safe.allocated;
  owned = safe.owned;
  busy = safe.busy;
  single = safe.single;
}

-- The rest of unsubscribing, once the stream was cancelled.
dropped-cancelled-IsSafe :
    (id : Str) (n : ℕ) (c : Option ℕ) (m : Manager) (closed : List ℕ)
    → IsSafe (cancel_stream c m)
    → get id m.subscriptions ≡ some n
    → IsStill n (cancel_stream c m)
    → IsSafe
        (record (set_object n
          (record (m.object n) { websockets = []; is_active = false })
          (cancel_stream c m)) { closed = closed; subscriptions = delete id m.subscriptions })
unfolding cancel_stream set_phase set_object
dropped-cancelled-IsSafe id n none m closed safe found still =
    logs-IsSafe m.sent closed m.offsets _
      (dropped-IsSafe id n _ m safe found (safe.keyed id n found).0 refl still)
dropped-cancelled-IsSafe id n (some k) m closed safe found still =
    logs-IsSafe m.sent closed m.offsets _ (
      dropped-IsSafe id n _ (cancel_stream (some k) m) safe found (safe.keyed id n found).0 refl
        still)

pub unsubscribe_from_event_stream-IsSafe :
    (id : Str) (m : Manager) → IsSafe m → IsSafe (unsubscribe_from_event_stream id m)
unfolding unsubscribe_from_event_stream
unsubscribe_from_event_stream-IsSafe id m safe = go (get id m.subscriptions) refl
  where
    go : (o : Option ℕ) → get id m.subscriptions ≡ o → IsSafe (unsubscribe_from_event_stream id m)
    go none e = rw (unsubscribe_from_event_stream, e) safe
    go (some n) e =
        rw (unsubscribe_from_event_stream, e)
          (dropped-cancelled-IsSafe id n (m.object n).cancel m _
            (cancel_stream-IsSafe (m.object n).cancel m safe) e (cancel_stream-IsStill n m safe))
