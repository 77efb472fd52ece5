-- ===== src/Stream/Steps.antt =====
-- What can happen to the manager of event-stream.ts, one turn of the event loop at a time. A live stream
-- sends updates and is over after an error or its end; what the mapping of an update throws is left out.
use cantontrace.Base.{ℕ, ◌≡◌, List, Str, Bool, true}
use cantontrace.Ledger.{LedgerUpdate, EventStreamFilter}
use cantontrace.Stream.{
  Manager, Readiness, over, idle, set_phase, subscribe_to_event_stream, update_stream_filter,
  unsubscribe_from_event_stream, unsubscribe_for_session, unsubscribe_all, on_update, on_error,
  on_end, reconnect_due, on_filter_message, on_ping, on_close, on_socket_error, grace_due,
}
use cantontrace.Stream.Safety.{is_live}
use cantontrace.Stream.Safety.Writes.{IsQuiet}

pub data Step (m : Manager) : Manager → Type 0 where
  subscribe :
      (connected : Bool) (id : Str) (client w : ℕ) (filter : EventStreamFilter) (parties : List Str)
      (start_offset : Str)
      → Step m (subscribe_to_event_stream connected id client w filter parties start_offset m)
  refilter :
      (connected : Bool) (id : Str) (filter : EventStreamFilter)
      → Step m (update_stream_filter connected id filter m)
  unsubscribe : (id : Str) → Step m (unsubscribe_from_event_stream id m)
  end_session : (session : Str) → Step m (unsubscribe_for_session session m)
  shut_down : Step m (unsubscribe_all m)
  receives :
      (ws : ℕ → Readiness) (u : LedgerUpdate) (k : ℕ)
      → is_live (m.stream k).phase ≡ true
      → Step m (on_update ws u (m.stream k).owner m)
  fails :
      (ws : ℕ → Readiness) (message : Str) (k : ℕ)
      → is_live (m.stream k).phase ≡ true
      → Step m (on_error ws message (m.stream k).owner (set_phase k over m))
  ends :
      (ws : ℕ → Readiness) (k : ℕ)
      → is_live (m.stream k).phase ≡ true
      → Step m (on_end ws (m.stream k).owner (set_phase k over m))
  -- The end that follows an error.
  ends_late : (ws : ℕ → Readiness) (n : ℕ) → IsQuiet n m → Step m (on_end ws n m)
  reconnects : (connected : Bool) (n : ℕ) → Step m (reconnect_due connected n m)
  filter_arrives :
      (connected : Bool) (filter : EventStreamFilter) (n : ℕ)
      → Step m (on_filter_message connected filter n m)
  pings : (w : ℕ) → Step m (on_ping w m)
  closes : (w n : ℕ) → Step m (on_close w n m)
  breaks : (w n : ℕ) → Step m (on_socket_error w n m)
  grace_ends : (n : ℕ) → Step m (grace_due n m)

pub data Reach : Manager → Type 0 where
  start : Reach idle
  later : {m m' : Manager} → Reach m → Step m m' → Reach m'
