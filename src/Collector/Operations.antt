-- ===== src/Collector/Operations.antt =====
-- The operations of event-stream-store.ts, and the events of its sockets and timeouts, as one step.
use cantontrace.Base.{ℕ, List, [], ◌∷◌, Option, Str}
use cantontrace.Ledger.{LedgerUpdate, TransactionShape, TemplateId}
use cantontrace.Collector.{
  Collector, PartialFilter, clear_events, on_event, on_open, on_close, on_error, on_timeout,
  load_begins, start_answered, recent_answered, stop_collection, reconnect, pause, resume,
  set_filter, set_templates, set_parties, set_event_types, set_transaction_shape, reset_filter,
}

-- An operation of the store, or an event of a socket or a timeout.
pub data Operation : Type 0 where
  event : LedgerUpdate → Operation
  opened closed failed : Operation
  fired : ℕ → Operation
  clear load : Operation
  started answered : Option (List LedgerUpdate) → Operation
  stop again hold release : Operation
  filter : PartialFilter → Operation
  templates : Option (List TemplateId) → Operation
  parties types : List Str → Operation
  shape : Option TransactionShape → Operation
  reset : Operation

unfoldable pub perform : Operation → Collector → Collector
perform (event e) = on_event e
perform opened = on_open
perform closed = on_close
perform failed = on_error
perform (fired id) = on_timeout id
perform clear = clear_events
perform load = load_begins
perform (started answer) = start_answered answer
perform (answered answer) = recent_answered answer
perform stop = stop_collection
perform again = reconnect
perform hold = pause
perform release = resume
perform (filter p) = set_filter p
perform (templates t) = set_templates t
perform (parties ps) = set_parties ps
perform (types ts) = set_event_types ts
perform (shape t) = set_transaction_shape t
perform reset = reset_filter

unfoldable pub perform_all : List Operation → Collector → Collector
perform_all [] c = c
perform_all (o ∷ os) c = perform_all os (perform o c)
