-- ===== src/Stream/Safety/Reachable.antt =====
-- The states that the manager of event-stream.ts reaches.
use mathlib.Core.Option.{some_inj}
use cantontrace.Base.{
  ℕ, ◌≡◌, ◌≢◌, refl, sym, ap, ◌∙◌, List, [], ◌∷◌, Option, none, some, Str, true, if◌then◌else◌,
  Distinct, includes, ◌===◌, ===_iff, arith, Bool-cases, inl, inr, ◌⊎◌, ◌==◌,
}
use cantontrace.Base.Lookup.{keys, get, get-delete}
use cantontrace.Stream.{
  Manager, idle, unsubscribe_from_event_stream, unsubscribe_each, unsubscribe_for_session,
  unsubscribe_all, on_ping, on_filter_message,
}
use cantontrace.Stream.Steps.{
  Step, Reach, start, later, subscribe, refilter, unsubscribe, end_session, shut_down, receives,
  fails, ends, ends_late, reconnects, filter_arrives, pings, closes, breaks, grace_ends,
}
use cantontrace.Stream.Safety.{IsSafe, IsEntry, is_running, is_live}
use cantontrace.Stream.Safety.Writes.{==-true}
use cantontrace.Stream.Safety.Entries.{unsubscribe_from_event_stream-IsSafe, logs-IsSafe}
use cantontrace.Stream.Safety.Opening.{live_of_running}
use cantontrace.Stream.Safety.Starting.{subscribe_to_event_stream-IsSafe}
use cantontrace.Stream.Safety.Operations.{
  unsubscribe_each-IsSafe, update_stream_filter-IsSafe, on_update-IsSafe, on_error-IsSafe,
  on_end-IsSafe, on_end-quiet-IsSafe, reconnect_due-IsSafe, on_close-IsSafe, on_socket_error-IsSafe,
  grace_due-IsSafe,
}

idle-IsSafe : IsSafe idle
unfolding get
idle-IsSafe = record {
  distinct = tt;
  keyed = λ id n e. cc;
  attached = λ n h. absurd (h refl);
  allocated = λ k h. cc;
  owned = λ k h. cc;
  busy = λ k h e. cc;
  single = λ j k h. cc;
}

pub Step-IsSafe : {m m' : Manager} → Step m m' → IsSafe m → IsSafe m'
unfolding unsubscribe_for_session unsubscribe_all on_ping on_filter_message
Step-IsSafe {m} (subscribe connected id client w filter parties start_offset) safe =
    subscribe_to_event_stream-IsSafe connected id client w filter parties start_offset m safe
Step-IsSafe {m} (refilter connected id filter) safe =
    update_stream_filter-IsSafe connected id filter m safe
Step-IsSafe {m} (unsubscribe id) safe = unsubscribe_from_event_stream-IsSafe id m safe
Step-IsSafe {m} (end_session session) safe = unsubscribe_each-IsSafe _ m safe
Step-IsSafe {m} shut_down safe = unsubscribe_each-IsSafe _ m safe
Step-IsSafe {m} (receives ws u k live) safe = on_update-IsSafe ws u _ m safe
Step-IsSafe {m} (fails ws message k live) safe = on_error-IsSafe ws message k m live safe
Step-IsSafe {m} (ends ws k live) safe = on_end-IsSafe ws k m live safe
Step-IsSafe {m} (ends_late ws n quiet) safe = on_end-quiet-IsSafe ws n m quiet safe
Step-IsSafe {m} (reconnects connected n) safe = reconnect_due-IsSafe connected n m safe
Step-IsSafe {m} (filter_arrives connected filter n) safe =
    update_stream_filter-IsSafe connected _ filter m safe
Step-IsSafe {m} (pings w) safe = logs-IsSafe _ m.closed m.offsets m safe
Step-IsSafe {m} (closes w n) safe = on_close-IsSafe w n m safe
Step-IsSafe {m} (breaks w n) safe = on_socket_error-IsSafe w n m safe
Step-IsSafe {m} (grace_ends n) safe = grace_due-IsSafe n m safe

pub Reach-IsSafe : {m : Manager} → Reach m → IsSafe m
Reach-IsSafe start = idle-IsSafe
Reach-IsSafe (later r s) = Step-IsSafe s (Reach-IsSafe r)

-- In every state that the manager reaches while no mapping of an update throws, a stream that runs
-- belongs to the object that `subscriptions` has under that object's id, which keeps the function that
-- cancels this stream and is active; and of two streams that run, either both are one stream or the
-- ids of their objects differ.
pub Reach-running :
    (m : Manager)
    → Reach m
    → (j k : ℕ) → is_running (m.stream j).phase ≡ true
    → is_running (m.stream k).phase ≡ true
    → IsEntry m (m.stream k).owner
      × ((m.object (m.stream k).owner).cancel ≡ some k)
      × ((m.object (m.stream k).owner).is_active ≡ true)
      × ((j ≡ k) ⊎ ((m.object (m.stream j).owner).id ≢ (m.object (m.stream k).owner).id))
Reach-running m r j k first runs =
    let safe : IsSafe m = Reach-IsSafe r in
    let live : is_live (m.stream k).phase ≡ true = live_of_running _ runs in
    (
      (safe.owned k runs).0,
      (safe.owned k runs).1,
      safe.busy k live (safe.owned k runs).0,
      elim (Bool-cases (j == k)) [
        | inl same ↦ inl (==-true j k same)
        | inr other ↦ inr (λ same.
            let one : j ≡ k = safe.single j k (live_of_running _ first) live (
              some_inj.0 (
                sym (safe.owned j first).0
                ∙ ap (λ x. get x m.subscriptions) same
                ∙ (safe.owned k runs).0)) in
            ground arith)
      ],
    )

pub unsubscribe_from_event_stream-subscriptions :
    (id : Str) (m : Manager)
    → Distinct (keys m.subscriptions)
    → (x : Str)
    → get x (unsubscribe_from_event_stream id m).subscriptions
      ≡ (if id === x then none else get x m.subscriptions)
unfolding unsubscribe_from_event_stream
unsubscribe_from_event_stream-subscriptions id m distinct x = go (get id m.subscriptions) refl
  where
    go :
        (o : Option ℕ)
        → get id m.subscriptions ≡ o
        → get x (unsubscribe_from_event_stream id m).subscriptions
          ≡ (if id === x then none else get x m.subscriptions)
    go none e =
        rw (unsubscribe_from_event_stream, e)
          (elim (Bool-cases (id === x)) [
            | inl same ↦ rw same (ap (λ y. get y m.subscriptions) (sym ((===_iff id x).0 same)) ∙ e)
            | inr other ↦ rw other refl
          ])
    go (some n) e = rw (unsubscribe_from_event_stream, e) (get-delete id x m.subscriptions distinct)

-- After unsubscribing each of the ids, none of them is left, and the others are as before.
pub unsubscribe_each-subscriptions :
    (ids : List Str) (m : Manager)
    → IsSafe m
    → (x : Str)
    → get x (unsubscribe_each ids m).subscriptions
      ≡ (if includes x ids then none else get x m.subscriptions)
unfolding unsubscribe_each includes
unsubscribe_each-subscriptions [] m safe x = refl
unsubscribe_each-subscriptions (id ∷ ids) m safe x =
    unsubscribe_each-subscriptions ids _ (unsubscribe_from_event_stream-IsSafe id m safe) x
    ∙ ground (arith, unsubscribe_from_event_stream-subscriptions id m safe.distinct x)
