-- ===== src/Collector.antt =====
-- The event stream store of frontend/src/stores/event-stream-store.ts: the collected events, and the
-- variables of the module around them. A socket is known by a number and the filter that it was opened
-- with, a timeout by a number; what the browser does to them later is an operation of its own.
mod State
pub mod Window
pub mod Pausing
pub mod Recent
pub mod Operations
pub mod Bounds
pub mod Stopping
mod Tests
pub use State.*
use mathlib.Core.Option.{get_or}
use cantontrace.Base.{
  ℕ, suc, ◌+◌, ◌-◌, ◌*◌, ◌^◌, min, List, [], ◌∷◌, ◌++◌, Option, none, some, Bool, true, false, not,
  ltb, ◌==◌, if◌then◌else◌, Str, keep, map, length, drop, includes,
}
use cantontrace.Ledger.{TemplateId, LedgerUpdate, TransactionShape, ledger_effects}

-- `if (l.length > MAX_EVENTS) l.slice(l.length - MAX_EVENTS)`.
unfoldable pub newest : List LedgerUpdate → List LedgerUpdate
newest l = if ltb max_events (length l) then drop (length l - max_events) l else l

unfoldable pub add_event : LedgerUpdate → Collector → Collector
add_event e c = record c { events = newest (c.events ++ e ∷ []); last_offset = some e.offset }

unfoldable pub clear_events : Collector → Collector
clear_events c = record c { buffer_ref = []; events = []; last_offset = none }

-- `clearTimeout(reconnectTimer)`.
unfoldable pub clear_timer : Collector → Collector
clear_timer c = elim c.reconnect_timer [
  | none ↦ c
  | some id ↦ record c {
    reconnect_timer = none;
    pending = keep (λ (t : Timeout). not (t.timeout_id == id)) c.pending;
  }
]

unfoldable pub connect_web_socket : Collector → Collector
connect_web_socket c =
    let c' = clear_timer c in
    record c' {
      connection_status = reconnecting;
      ws = some (record { socket_id = c'.next_id; opened_with = c'.filter });
      next_id = suc c'.next_id;
    }

unfoldable pub disconnect_web_socket : Collector → Collector
disconnect_web_socket c = record (clear_timer c) {
  ws = none;
  reconnect_attempts = 0;
  connection_status = disconnected;
}

-- The four listeners of a socket. None of them asks whether the socket is still the module's own.
unfoldable pub on_event : LedgerUpdate → Collector → Collector
on_event e c =
    if c.paused_ref
    then (if ltb (length c.buffer_ref) max_buffer
        then record c { buffer_ref = c.buffer_ref ++ e ∷ [] }
        else c)
    else add_event e c

unfoldable pub on_open : Collector → Collector
on_open c = record c { connection_status = connected; reconnect_attempts = 0 }

unfoldable pub on_close : Collector → Collector
on_close c =
    if ltb c.reconnect_attempts max_reconnect_attempts
    then record c {
      connection_status = disconnected;
      reconnect_attempts = c.reconnect_attempts + 1;
      reconnect_timer = some c.next_id;
      pending =
          c.pending
          ++ record {
            timeout_id = c.next_id;
            delay = min (base_reconnect_delay * 2 ^ c.reconnect_attempts) 30000;
          }
            ∷ [];
      next_id = suc c.next_id;
    }
    else record c { connection_status = disconnected }

unfoldable pub on_error : Collector → Collector
on_error c = record c { connection_status = reconnecting }

-- A timeout fires.
unfoldable pub on_timeout : ℕ → Collector → Collector
on_timeout id c =
    connect_web_socket
      (record c { pending = keep (λ (t : Timeout). not (t.timeout_id == id)) c.pending })

-- startCollection and loadRecent up to their request, and from its answer on: the updates of a good
-- response, or `none` where it is not good or fails.
unfoldable pub load_begins : Collector → Collector
load_begins c = record c { is_loading_recent = true }

unfoldable pub reverse_onto : List LedgerUpdate → List LedgerUpdate → List LedgerUpdate
reverse_onto [] l = l
reverse_onto (u ∷ us) l = reverse_onto us (u ∷ l)

unfoldable pub first_events : List LedgerUpdate → Collector → Collector
first_events recent c = record c { events = elim c.events [ [] ↦ recent | e ∷ es ↦ e ∷ es ] }

unfoldable pub start_answered : Option (List LedgerUpdate) → Collector → Collector
start_answered none c = connect_web_socket (record c { is_loading_recent = false })
start_answered (some body) c =
    connect_web_socket
      (record (first_events (reverse_onto body []) c) { is_loading_recent = false })

abbrev pub update_ids : List LedgerUpdate → List Str
update_ids = map (λ (u : LedgerUpdate). u.update_id)

unfoldable pub merge_recent : List LedgerUpdate → Collector → Collector
merge_recent recent c = record c {
  events = newest (
      keep (λ (u : LedgerUpdate). not (includes u.update_id (update_ids c.events))) recent
      ++ c.events);
}

unfoldable pub recent_answered : Option (List LedgerUpdate) → Collector → Collector
recent_answered none c = record c { is_loading_recent = false }
recent_answered (some []) c = record c { is_loading_recent = false }
recent_answered (some (u ∷ us)) c = record (merge_recent (reverse_onto (u ∷ us) []) c) {
  is_loading_recent = false;
}

unfoldable pub stop_collection : Collector → Collector
stop_collection c = disconnect_web_socket c

unfoldable pub reconnect : Collector → Collector
reconnect c = connect_web_socket (record c { reconnect_attempts = 0 })

unfoldable pub pause : Collector → Collector
pause c = record c { paused_ref = true; buffer_ref = []; is_paused = true }

unfoldable pub resume : Collector → Collector
resume c = elim c.buffer_ref [
  | [] ↦ record c { is_paused = false; buffer_ref = []; paused_ref = false }
  | e ∷ es ↦ record c {
    events = newest (c.events ++ e ∷ es);
    is_paused = false;
    buffer_ref = [];
    paused_ref = false;
  }
]

unfoldable pub set_filter : PartialFilter → Collector → Collector
set_filter p c = record c {
  filter = record {
    templates = get_or p.templates c.filter.templates;
    parties = get_or p.parties c.filter.parties;
    event_types = get_or p.event_types c.filter.event_types;
    transaction_shape = get_or p.transaction_shape c.filter.transaction_shape;
  };
}

unfoldable pub set_templates : Option (List TemplateId) → Collector → Collector
set_templates templates c = record c { filter = record c.filter { templates = templates } }

abbrev pub unless_empty : List Str → Option (List Str)
unless_empty [] = none
unless_empty (s ∷ ss) = some (s ∷ ss)

unfoldable pub set_parties : List Str → Collector → Collector
set_parties parties c = record c { filter = record c.filter { parties = unless_empty parties } }

unfoldable pub set_event_types : List Str → Collector → Collector
set_event_types types c = record c { filter = record c.filter { event_types = unless_empty types } }

unfoldable pub set_transaction_shape : Option TransactionShape → Collector → Collector
set_transaction_shape shape c = record c { filter = record c.filter { transaction_shape = shape } }

unfoldable pub reset_filter : Collector → Collector
reset_filter c = record c { filter = default_filter }
