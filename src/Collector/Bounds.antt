-- ===== src/Collector/Bounds.antt =====
-- The sizes that event-stream-store.ts keeps.
use cantontrace.Base.{
  ℕ, ◌+◌, ◌≤◌, ◌≡◌, List, [], ◌∷◌, ◌++◌, Option, none, some, Bool, not, Bool-cases, inl, inr, ltb,
  ◌==◌, length, keep, length-append, arith, All, All-append,
}
use cantontrace.Ledger.{LedgerUpdate}
use cantontrace.Collector.{
  Collector, max_events, max_buffer, max_reconnect_attempts, Timeout, add_event, clear_events,
  clear_timer, connect_web_socket, disconnect_web_socket, on_event, on_open, on_close, on_error,
  on_timeout, load_begins, reverse_onto, first_events, start_answered, merge_recent,
  recent_answered, stop_collection, reconnect, pause, resume, set_filter, set_templates,
  set_parties, set_event_types, set_transaction_shape, reset_filter,
}
use cantontrace.Collector.Window.{length-newest-le}
use cantontrace.Collector.Operations.{
  Operation, event, opened, closed, failed, fired, clear, load, started, answered, stop, again,
  hold, release, filter, templates, parties, types, shape, reset, perform, perform_all,
}

-- The sizes that the store promises.
pub record IsBounded (c : Collector) : Type 0 where
  pub events : length c.events ≤ max_events
  pub buffer : length c.buffer_ref ≤ max_buffer
  pub attempts : c.reconnect_attempts ≤ max_reconnect_attempts
  pub delays : All (λ (t : Timeout). t.delay ≤ 30000) c.pending

sizes :
    {c : Collector}
    → length c.events ≤ max_events
    → length c.buffer_ref ≤ max_buffer
    → c.reconnect_attempts ≤ max_reconnect_attempts
    → All (λ (t : Timeout). t.delay ≤ 30000) c.pending
    → IsBounded c
sizes e b a d = record { events = e; buffer = b; attempts = a; delays = d }

-- The first answer is taken as it is, so that its size is the server's to bound.
abbrev pub IsSmall : Operation → Type 0
IsSmall (started (some body)) = length body ≤ max_events
IsSmall _ = Unit

All-keep :
    (p : Timeout → Bool) (l : List Timeout)
    → All (λ (t : Timeout). t.delay ≤ 30000) l
    → All (λ (t : Timeout). t.delay ≤ 30000) (keep p l)
All-keep p [] h = tt
All-keep p (t ∷ l) (q, h) = elim (Bool-cases (p t)) [
  | inl e ↦ rw e (q, All-keep p l h)
  | inr e ↦ rw e (All-keep p l h)
]

length-reverse_onto : (us l : List LedgerUpdate) → length (reverse_onto us l) ≡ length us + length l
unfolding reverse_onto
length-reverse_onto [] l = omega arith
length-reverse_onto (u ∷ us) l = omega (arith, length-reverse_onto us (u ∷ l))

clear_timer-IsBounded : (c : Collector) → IsBounded c → IsBounded (clear_timer c)
unfolding clear_timer
clear_timer-IsBounded c h = go c.reconnect_timer
  where
    go : (r : Option ℕ) → IsBounded (clear_timer (record c { reconnect_timer = r }))
    go none = sizes h.events h.buffer h.attempts h.delays
    go (some id) =
        sizes h.events h.buffer h.attempts
          (All-keep (λ (t : Timeout). not (t.timeout_id == id)) c.pending h.delays)

connect_web_socket-IsBounded : (c : Collector) → IsBounded c → IsBounded (connect_web_socket c)
unfolding connect_web_socket
connect_web_socket-IsBounded c h =
    let b : IsBounded (clear_timer c) = clear_timer-IsBounded c h in
    sizes b.events b.buffer b.attempts b.delays

on_event-IsBounded : (e : LedgerUpdate) (c : Collector) → IsBounded c → IsBounded (on_event e c)
unfolding on_event add_event
on_event-IsBounded e c h = elim (Bool-cases c.paused_ref) [
  | inr flowing ↦
      rw (on_event, flowing)
        (sizes (length-newest-le (c.events ++ e ∷ [])) h.buffer h.attempts h.delays)
  | inl paused ↦ elim (Bool-cases (ltb (length c.buffer_ref) max_buffer)) [
    | inr full ↦ rw (on_event, paused, full) (sizes h.events h.buffer h.attempts h.delays)
    | inl room ↦
        rw (on_event, paused, room)
          (sizes h.events (ground (arith, length-append c.buffer_ref (e ∷ []))) h.attempts h.delays)
  ]
]

on_close-IsBounded : (c : Collector) → IsBounded c → IsBounded (on_close c)
unfolding on_close
on_close-IsBounded c h = elim (Bool-cases (ltb c.reconnect_attempts max_reconnect_attempts)) [
  | inl more ↦
      rw (on_close, more)
        (sizes h.events h.buffer (ground arith)
          (All-append (λ (t : Timeout). t.delay ≤ 30000) c.pending _ h.delays (omega arith, tt)))
  | inr enough ↦ rw (on_close, enough) (sizes h.events h.buffer h.attempts h.delays)
]

start_answered-IsBounded :
    (answer : Option (List LedgerUpdate)) (c : Collector)
    → IsSmall (started answer)
    → IsBounded c
    → IsBounded (start_answered answer c)
unfolding start_answered first_events
start_answered-IsBounded none c small h =
    connect_web_socket-IsBounded _ (sizes h.events h.buffer h.attempts h.delays)
start_answered-IsBounded (some body) c small h =
    connect_web_socket-IsBounded _ (sizes (go c.events h.events) h.buffer h.attempts h.delays)
  where
    go :
        (l : List LedgerUpdate)
        → length l ≤ max_events
        → length (first_events (reverse_onto body []) (record c { events = l })).events ≤ max_events
    go [] k = omega (arith, length-reverse_onto body [], small)
    go (e ∷ es) k = k

recent_answered-IsBounded :
    (answer : Option (List LedgerUpdate)) (c : Collector)
    → IsBounded c
    → IsBounded (recent_answered answer c)
unfolding recent_answered merge_recent
recent_answered-IsBounded none c h = sizes h.events h.buffer h.attempts h.delays
recent_answered-IsBounded (some []) c h = sizes h.events h.buffer h.attempts h.delays
recent_answered-IsBounded (some (u ∷ us)) c h =
    sizes (length-newest-le _) h.buffer h.attempts h.delays

resume-IsBounded : (c : Collector) → IsBounded c → IsBounded (resume c)
unfolding resume
resume-IsBounded c h = go c.buffer_ref
  where
    go : (b : List LedgerUpdate) → IsBounded (resume (record c { buffer_ref = b }))
    go [] = sizes h.events (omega arith) h.attempts h.delays
    go (e ∷ es) = sizes (length-newest-le (c.events ++ e ∷ es)) (omega arith) h.attempts h.delays

-- Every operation keeps at most 5000 events, 2000 updates in the buffer, 10 attempts to reconnect, and
-- no timeout above 30 seconds, if the answer to the first request has at most 5000 updates.
pub perform-IsBounded :
    (o : Operation) (c : Collector) → IsSmall o → IsBounded c → IsBounded (perform o c)
unfolding perform on_open on_error on_timeout clear_events load_begins stop_collection
    disconnect_web_socket reconnect pause set_filter set_templates set_parties set_event_types
    set_transaction_shape reset_filter
perform-IsBounded (event e) c small h = on_event-IsBounded e c h
perform-IsBounded opened c small h = sizes h.events h.buffer (omega arith) h.delays
perform-IsBounded closed c small h = on_close-IsBounded c h
perform-IsBounded failed c small h = sizes h.events h.buffer h.attempts h.delays
perform-IsBounded (fired id) c small h = connect_web_socket-IsBounded _ (
    sizes h.events h.buffer h.attempts
      (All-keep (λ (t : Timeout). not (t.timeout_id == id)) c.pending h.delays))
perform-IsBounded clear c small h = sizes (omega arith) (omega arith) h.attempts h.delays
perform-IsBounded load c small h = sizes h.events h.buffer h.attempts h.delays
perform-IsBounded (started answer) c small h = start_answered-IsBounded answer c small h
perform-IsBounded (answered answer) c small h = recent_answered-IsBounded answer c h
perform-IsBounded stop c small h =
    let b : IsBounded (clear_timer c) = clear_timer-IsBounded c h in
    sizes b.events b.buffer (omega arith) b.delays
perform-IsBounded again c small h =
    connect_web_socket-IsBounded _ (sizes h.events h.buffer (omega arith) h.delays)
perform-IsBounded hold c small h = sizes h.events (omega arith) h.attempts h.delays
perform-IsBounded release c small h = resume-IsBounded c h
perform-IsBounded (filter p) c small h = sizes h.events h.buffer h.attempts h.delays
perform-IsBounded (templates t) c small h = sizes h.events h.buffer h.attempts h.delays
perform-IsBounded (parties ps) c small h = sizes h.events h.buffer h.attempts h.delays
perform-IsBounded (types ts) c small h = sizes h.events h.buffer h.attempts h.delays
perform-IsBounded (shape t) c small h = sizes h.events h.buffer h.attempts h.delays
perform-IsBounded reset c small h = sizes h.events h.buffer h.attempts h.delays

-- From a state within its sizes on, whatever the store, its sockets and its timeouts do in whatever order, the
-- store stays within its sizes, if the answer to each first request has at most 5000 updates.
pub perform_all-IsBounded :
    (os : List Operation) (c : Collector)
    → All IsSmall os
    → IsBounded c
    → IsBounded (perform_all os c)
unfolding perform_all
perform_all-IsBounded [] c small h = h
perform_all-IsBounded (o ∷ os) c (s, small) h =
    perform_all-IsBounded os (perform o c) small (perform-IsBounded o c s h)
