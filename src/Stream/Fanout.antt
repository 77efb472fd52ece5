-- ===== src/Stream/Fanout.antt =====
-- What an update does to the subscription and to its sockets, in event-stream.ts.
use mathlib.Core.Path.{subst}
use cantontrace.Base.{
  ℕ, ◌≡◌, refl, sym, ap, ◌∙◌, List, [], ◌∷◌, ◌++◌, Option, none, some, Str, Bool, true, false, ◌==◌,
  if◌then◌else◌, map, keep, ===_refl, Bool-cases, inl, inr, Distinct, arith,
}
use cantontrace.Base.Lookup.{keys, get}
use cantontrace.Ledger.{LedgerUpdate}
use cantontrace.Stream.{
  Manager, Subscription, Message, Readiness, open_socket, other_state, throws, update, set_object,
  set_phase, cancel_stream, unsubscribe_from_event_stream, fan_out, broadcast, is_empty,
  drop_if_empty, on_update, passes_filter,
}
use cantontrace.Stream.Steps.{Reach}
use cantontrace.Stream.Safety.Writes.{object-here}
use cantontrace.Stream.Safety.Reachable.{Reach-IsSafe, unsubscribe_from_event_stream-subscriptions}

-- The sockets that a message is sent to, and those that are kept.
abbrev pub is_open : Readiness → Bool
is_open open_socket = true
is_open other_state = false
is_open throws = false

abbrev pub stays : Readiness → Bool
stays open_socket = true
stays other_state = true
stays throws = false

fan_out-keep :
    (ws : ℕ → Readiness) (message : Message) (l : List ℕ)
    → fan_out ws message l
      ≡ (keep (λ w. stays (ws w)) l, map (λ w. (w, message)) (keep (λ w. is_open (ws w)) l))
unfolding fan_out
fan_out-keep ws message [] = refl
fan_out-keep ws message (w ∷ l) = go (ws w) refl (fan_out-keep ws message l)
  where
    go :
        (r : Readiness)
        → ws w ≡ r
        → fan_out ws message l
          ≡ (keep (λ w. stays (ws w)) l, map (λ w. (w, message)) (keep (λ w. is_open (ws w)) l))
        → fan_out ws message (w ∷ l) ≡ (
          keep (λ w. stays (ws w)) (w ∷ l),
          map (λ w. (w, message)) (keep (λ w. is_open (ws w)) (w ∷ l)),
        )
    go open_socket e ih = rw (fan_out, e, ih) refl
    go other_state e ih = rw (fan_out, e, ih) refl
    go throws e ih = rw (fan_out, e, ih) refl

pub broadcast-effect :
    (ws : ℕ → Readiness) (message : Message) (n : ℕ) (m : Manager)
    → ((broadcast ws message n m).sent
        ≡ m.sent ++ map (λ w. (w, message)) (keep (λ w. is_open (ws w)) (m.object n).websockets))
      × ((broadcast ws message n m).object n
          ≡ record (m.object n) { websockets = keep (λ w. stays (ws w)) (m.object n).websockets })
unfolding broadcast set_object
broadcast-effect ws message n m =
    let here : (n == n) ≡ true = ground arith in
    let r = fan_out-keep ws message (m.object n).websockets in
    (ap (λ r. m.sent ++ r.1) r, rw here (ap (λ r. record (m.object n) { websockets = r.0 }) r))

-- What unsubscribing by an id does to an object that has no socket.
module _ (id : Str) (n : ℕ) (m : Manager) where
  abbrev Unsubscribed : Manager → Type 0
  Unsubscribed m' =
      (m'.sent ≡ m.sent)
      × (m'.offsets ≡ m.offsets)
      × ((m'.object n).last_offset ≡ (m.object n).last_offset)
      × ((m'.object n).websockets ≡ [])

  set_object-Unsubscribed :
      (k : ℕ) (c : Option ℕ)
      → (m.object n).websockets ≡ []
      → Unsubscribed (
          set_object k
            (record (m.object k) { websockets = []; is_active = false })
            (cancel_stream c m))
  unfolding set_object cancel_stream set_phase
  set_object-Unsubscribed k none bare = elim (Bool-cases (n == k)) [
    | inl here ↦ let same : n ≡ k = ground arith in (refl, refl, rw (here, same) refl, rw here refl)
    | inr away ↦ (refl, refl, rw away refl, rw away bare)
  ]
  set_object-Unsubscribed k (some j) bare = elim (Bool-cases (n == k)) [
    | inl here ↦ let same : n ≡ k = ground arith in (refl, refl, rw (here, same) refl, rw here refl)
    | inr away ↦ (refl, refl, rw away refl, rw away bare)
  ]

  unsubscribe_from_event_stream-Unsubscribed :
      (m.object n).websockets ≡ [] → Unsubscribed (unsubscribe_from_event_stream id m)
  unfolding unsubscribe_from_event_stream
  unsubscribe_from_event_stream-Unsubscribed bare = go (get id m.subscriptions) refl
    where
      go :
          (o : Option ℕ)
          → get id m.subscriptions ≡ o
          → Unsubscribed (unsubscribe_from_event_stream id m)
      go none e = rw (unsubscribe_from_event_stream, e) (refl, refl, refl, bare)
      go (some k) e =
          rw (unsubscribe_from_event_stream, e) (set_object-Unsubscribed k (m.object k).cancel bare)

is_empty-eq : (l : List ℕ) → is_empty l ≡ true → l ≡ []
is_empty-eq [] e = refl
is_empty-eq (w ∷ l) e = cc

-- Dropping a subscription that has no socket left.
drop_if_empty-effect :
    (n : ℕ) (m : Manager)
    → Distinct (keys m.subscriptions)
    → ((drop_if_empty n m).sent ≡ m.sent)
      × ((drop_if_empty n m).offsets ≡ m.offsets)
      × (((drop_if_empty n m).object n).last_offset ≡ (m.object n).last_offset)
      × (((drop_if_empty n m).object n).websockets ≡ (m.object n).websockets)
      × (get (m.object n).id (drop_if_empty n m).subscriptions ≡ (
          if is_empty (m.object n).websockets then none else get (m.object n).id m.subscriptions))
unfolding drop_if_empty
drop_if_empty-effect n m distinct = elim (Bool-cases (is_empty (m.object n).websockets)) [
  | inr e ↦ rw (drop_if_empty, e) (refl, refl, refl, refl, refl)
  | inl e ↦
      let id : Str = (m.object n).id in
      let bare : (m.object n).websockets ≡ [] = is_empty-eq _ e in
      let u = unsubscribe_from_event_stream-Unsubscribed id n m bare in
      rw (drop_if_empty, e)
        (
          u.0,
          u.1,
          u.2,
          u.3 ∙ sym bare,
          unsubscribe_from_event_stream-subscriptions id m distinct id ∙ rw (===_refl id) refl,
        )
]

-- In a state that the manager reaches while no mapping of an update throws, an update that passes the
-- filter of an object is sent to exactly its sockets that are open, in their order, after all that was
-- sent before; those whose sending throws are removed; its offset becomes that of the object and of
-- the cache; and what is under the object's id stays in `subscriptions`, unless no socket is left:
-- then nothing is under it.
pub on_update-delivery :
    (ws : ℕ → Readiness) (u : LedgerUpdate) (n : ℕ) (m : Manager)
    → Reach m
    → passes_filter u (m.object n).filter ≡ true
    → ((on_update ws u n m).sent
        ≡ m.sent ++ map (λ w. (w, update u)) (keep (λ w. is_open (ws w)) (m.object n).websockets))
      × ((on_update ws u n m).offsets ≡ m.offsets ++ ((m.object n).id, u.offset) ∷ [])
      × (((on_update ws u n m).object n).last_offset ≡ u.offset)
      × (((on_update ws u n m).object n).websockets
          ≡ keep (λ w. stays (ws w)) (m.object n).websockets)
      × (get (m.object n).id (on_update ws u n m).subscriptions ≡ (
          if is_empty (keep (λ w. stays (ws w)) (m.object n).websockets)
          then none
          else get (m.object n).id m.subscriptions))
unfolding on_update broadcast set_object
on_update-delivery ws u n m r passes =
    let told : Manager = record (set_object n (record (m.object n) { last_offset = u.offset }) m) {
      offsets = m.offsets ++ ((m.object n).id, u.offset) ∷ [];
    } in
    let shared : Manager = broadcast ws (update u) n told in
    let at_n : told.object n ≡ record (m.object n) { last_offset = u.offset } =
      object-here n _ m n (ground arith) in
    let b = broadcast-effect ws (update u) n told in
    let e = drop_if_empty-effect n shared (Reach-IsSafe r).distinct in
    let after =
      b.1
      ∙ ap {A = Subscription} (λ o. record o { websockets = keep (λ w. stays (ws w)) o.websockets })
          at_n in
    rw (on_update, passes)
      (
        e.0
            ∙ b.0
            ∙ ap (λ o. m.sent ++ map (λ w. (w, update u)) (keep (λ w. is_open (ws w)) o.websockets))
                at_n,
        e.1,
        e.2 ∙ ap (λ o. o.last_offset) after,
        e.3 ∙ ap (λ o. o.websockets) after,
        subst
            (λ o.
              get o.id (drop_if_empty n shared).subscriptions
              ≡ (if is_empty o.websockets then none else get o.id m.subscriptions))
            after e.4,
      )
