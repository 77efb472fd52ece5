-- ===== src/Collector/State.antt =====
-- The state of the event stream store of frontend/src/stores/event-stream-store.ts.

use cantontrace.Base.{ℕ, List, [], Option, none, some, Bool, false, Str}
use cantontrace.Ledger.{
  EventStreamFilter, TemplateId, LedgerUpdate, TransactionShape, ledger_effects,
}

abbrev pub max_events : ℕ
max_events = 5000

abbrev pub max_buffer : ℕ
max_buffer = 2000

abbrev pub max_reconnect_attempts : ℕ
max_reconnect_attempts = 10

abbrev pub base_reconnect_delay : ℕ
base_reconnect_delay = 1000

pub data StreamConnectionStatus : Type 0 where
  connected reconnecting disconnected : StreamConnectionStatus

-- A property that is absent is `none`; one that is there may be `undefined`.
pub record PartialFilter : Type 0 where
  pub templates : Option (Option (List TemplateId))
  pub parties : Option (Option (List Str))
  pub event_types : Option (Option (List Str))
  pub transaction_shape : Option (Option TransactionShape)

abbrev pub default_filter : EventStreamFilter
default_filter = record {
  templates = none;
  parties = none;
  event_types = none;
  transaction_shape = some ledger_effects;
}

pub record Socket : Type 0 where
  pub socket_id : ℕ
  pub opened_with : EventStreamFilter

pub record Timeout : Type 0 where
  pub timeout_id : ℕ
  pub delay : ℕ

-- `pending` holds the timeouts that neither fired nor were cleared; `reconnect_timer` is the one that
-- the module knows of.
pub record Collector : Type 0 where
  pub events : List LedgerUpdate
  pub connection_status : StreamConnectionStatus
  pub is_paused : Bool
  pub is_loading_recent : Bool
  pub last_offset : Option Str
  pub filter : EventStreamFilter
  pub ws : Option Socket
  pub reconnect_timer : Option ℕ
  pub reconnect_attempts : ℕ
  pub paused_ref : Bool
  pub buffer_ref : List LedgerUpdate
  pub pending : List Timeout
  pub next_id : ℕ

abbrev pub initial : Collector
initial = record {
  events = [];
  connection_status = disconnected;
  is_paused = false;
  is_loading_recent = false;
  last_offset = none;
  filter = default_filter;
  ws = none;
  reconnect_timer = none;
  reconnect_attempts = 0;
  paused_ref = false;
  buffer_ref = [];
  pending = [];
  next_id = 0;
}
