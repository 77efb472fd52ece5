-- ===== src/Stream.antt =====
-- The event stream manager of api-gateway/src/services/event-stream.ts. An argument `connected` is the
-- answer of the client's `isConnected()`, `ws` says what sending to a socket does at that time. A
-- callback is an operation on the object that it refers to.
mod State
pub mod Steps
pub mod Safety
pub mod Fanout
pub mod Restart
mod Tests
unfoldable pub use State.*
use mathlib.Core.Option.{get_or}
use cantontrace.Base.{
  ℕ, zero, suc, List, [], ◌∷◌, ◌++◌, Option, none, some, Str, text, Bool, true, false, not, ◌&&◌,
  ◌==◌, if◌then◌else◌, ◌===◌, any, keep, includes, length, ltb,
}
use cantontrace.Base.Lookup.{keys, get, put, delete}
use cantontrace.Ledger.{LedgerUpdate, LedgerEvent, EventStreamFilter, ledger_effects}
use cantontrace.Update.Detail.{event_type}

unfoldable pub unsubscribe_from_event_stream : Str → Manager → Manager
unsubscribe_from_event_stream id m = elim (get id m.subscriptions) [
  | none ↦ m
  | some n ↦
      let s = m.object n in
      let m' =
        set_object n (record s { websockets = []; is_active = false }) (cancel_stream s.cancel m) in
      record m' { closed = m.closed ++ s.websockets; subscriptions = delete id m.subscriptions }
]

-- The request of a new stream of the subscription `n`.
abbrev pub request_of : ℕ → Subscription → Stream
request_of n s = record {
  owner = n;
  phase = running;
  begin_exclusive = s.last_offset;
  parties = s.parties;
  shape = get_or s.filter.transaction_shape ledger_effects;
  templates = s.filter.templates;
}

unfoldable pub open_stream : ℕ → Manager → Manager
open_stream n m =
    let k = m.next_stream in
    set_object n (record (m.object n) { is_active = true; cancel = some k })
      (record m {
        stream = λ i. if i == k then request_of n (m.object n) else m.stream i;
        next_stream = suc k;
      })

unfoldable pub start_stream : Bool → ℕ → Manager → Manager
start_stream connected n m =
    if (m.object n).is_active
    then m
    else if connected
    then open_stream n m
    else unsubscribe_from_event_stream (m.object n).id m

-- `setupWebSocketHandlers`, as far as it sends; its handlers are the operations below.
unfoldable pub greet : ℕ → ℕ → Manager → Manager
greet w n m =
    let s = m.object n in
    record m { sent = m.sent ++ (w, subscribed s.id s.last_offset s.filter s.parties) ∷ [] }

unfoldable pub subscribe_to_event_stream :
    Bool → Str → ℕ → ℕ → EventStreamFilter → List Str → Str → Manager → Manager
subscribe_to_event_stream connected id client w filter parties start_offset m =
    elim (get id m.subscriptions) [
      | some n ↦
          let s = m.object n in
          greet w n (set_object n (record s { websockets = join w s.websockets }) m)
      | none ↦
          let n = m.next_object in
          let s : Subscription = record {
            id = id;
            client = client;
            filter = filter;
            parties = parties;
            last_offset = start_offset;
            websockets = w ∷ [];
            cancel = none;
            is_active = false;
          } in
          start_stream connected n (
            greet w n (
              set_object n s
                (record m { subscriptions = put id n m.subscriptions; next_object = suc n })))
    ]

unfoldable pub update_stream_filter : Bool → Str → EventStreamFilter → Manager → Manager
update_stream_filter connected id filter m = elim (get id m.subscriptions) [
  | none ↦ m
  | some n ↦
      let s = m.object n in
      start_stream connected n
        (set_object n (record s { filter = filter; cancel = none }) (cancel_stream s.cancel m))
]

unfoldable pub starts_with : Str → Str → Bool
starts_with [] s = true
starts_with (c ∷ p) [] = false
starts_with (c ∷ p) (d ∷ s) = if d == c then starts_with p s else false

abbrev pub session_prefix : Str → Str
session_prefix session = text "ws-" ++ (session ++ text "-")

unfoldable pub unsubscribe_each : List Str → Manager → Manager
unsubscribe_each [] m = m
unsubscribe_each (id ∷ ids) m = unsubscribe_each ids (unsubscribe_from_event_stream id m)

unfoldable pub unsubscribe_for_session : Str → Manager → Manager
unsubscribe_for_session session m =
    unsubscribe_each (keep (starts_with (session_prefix session)) (keys m.subscriptions)) m

unfoldable pub unsubscribe_all : Manager → Manager
unsubscribe_all m = unsubscribe_each (keys m.subscriptions) m

unfoldable pub get_active_subscription_count : Manager → ℕ
get_active_subscription_count m = length m.subscriptions

unfoldable pub passes_filter : LedgerUpdate → EventStreamFilter → Bool
passes_filter u filter = elim filter.event_types [
  | none ↦ true
  | some [] ↦ true
  | some (t ∷ ts) ↦ elim u.events [
    | [] ↦ true
    | e ∷ es ↦ any (λ x. includes (event_type x) (t ∷ ts)) (e ∷ es)
  ]
]

-- Sending to each socket: those that are kept, and what was sent.
unfoldable pub fan_out : (ℕ → Readiness) → Message → List ℕ → List ℕ × List (ℕ × Message)
fan_out ws message [] = ([], [])
fan_out ws message (w ∷ sockets) =
    let rest = fan_out ws message sockets in
    elim (ws w) [
      | open_socket ↦ (w ∷ rest.0, (w, message) ∷ rest.1)
      | other_state ↦ (w ∷ rest.0, rest.1)
      | throws ↦ rest
    ]

unfoldable pub broadcast : (ℕ → Readiness) → Message → ℕ → Manager → Manager
broadcast ws message n m =
    let s = m.object n in
    let r = fan_out ws message s.websockets in
    record (set_object n (record s { websockets = r.0 }) m) { sent = m.sent ++ r.1 }

abbrev pub is_empty : List ℕ → Bool
is_empty [] = true
is_empty (w ∷ ws) = false

-- The last lines of onUpdate, and of the grace period.
unfoldable pub drop_if_empty : ℕ → Manager → Manager
drop_if_empty n m =
    if is_empty (m.object n).websockets then unsubscribe_from_event_stream (m.object n).id m else m

-- The callbacks of a stream of the subscription `n`.
unfoldable pub on_update : (ℕ → Readiness) → LedgerUpdate → ℕ → Manager → Manager
on_update ws u n m =
    if passes_filter u (m.object n).filter
    then drop_if_empty n (
        broadcast ws (update u) n
          (record (set_object n (record (m.object n) { last_offset = u.offset }) m) {
            offsets = m.offsets ++ ((m.object n).id, u.offset) ∷ [];
          }))
    else m

unfoldable pub on_error : (ℕ → Readiness) → Str → ℕ → Manager → Manager
on_error ws message n m =
    let m' = broadcast ws (error message) n m in
    set_object n (record (m'.object n) { is_active = false }) m'

unfoldable pub on_end : (ℕ → Readiness) → ℕ → Manager → Manager
on_end ws n m =
    broadcast ws (stream_end (m.object n).last_offset) n
      (set_object n (record (m.object n) { is_active = false }) m)

-- The timeout that onError sets: `subscriptions.has(sub.id) && sub.websockets.size > 0`.
unfoldable pub reconnect_due : Bool → ℕ → Manager → Manager
reconnect_due connected n m =
    if includes (m.object n).id (keys m.subscriptions) && not (is_empty (m.object n).websockets)
    then start_stream connected n m
    else m

-- The handlers of a web socket `w` of the subscription `n`.
unfoldable pub on_filter_message : Bool → EventStreamFilter → ℕ → Manager → Manager
on_filter_message connected filter n m = update_stream_filter connected (m.object n).id filter m

unfoldable pub on_ping : ℕ → Manager → Manager
on_ping w m = record m { sent = m.sent ++ (w, pong) ∷ [] }

unfoldable pub on_close : ℕ → ℕ → Manager → Manager
on_close w n m =
    set_object n (record (m.object n) { websockets = leave w (m.object n).websockets }) m

unfoldable pub on_socket_error : ℕ → ℕ → Manager → Manager
on_socket_error w n m =
    set_object n (record (m.object n) { websockets = leave w (m.object n).websockets }) m

unfoldable pub grace_due : ℕ → Manager → Manager
grace_due n m = drop_if_empty n m
