-- ===== src/Stream/State.antt =====
-- The subscriptions of api-gateway/src/services/event-stream.ts, their gRPC streams and the messages
-- that go to web sockets.
use cantontrace.Base.{
  ℕ, List, [], ◌∷◌, ◌++◌, Option, none, some, Str, Bool, true, false, not, ◌==◌, if◌then◌else◌,
  keep,
}
use cantontrace.Ledger.{
  LedgerUpdate, EventStreamFilter, TransactionShape, ledger_effects, TemplateId,
}

-- A gRPC stream that runs, that was cancelled but may still report something, or that is over.
pub data Phase : Type 0 where
  running cancelled over : Phase

-- What getUpdates was called with, the subscription object that the callbacks write to, and the phase.
pub record Stream : Type 0 where
  pub owner : ℕ
  pub phase : Phase
  pub begin_exclusive : Str
  pub parties : List Str
  pub shape : TransactionShape
  pub templates : Option (List TemplateId)

-- An object of the heap. A client, a web socket and a stream are known by numbers.
pub record Subscription : Type 0 where
  pub id : Str
  pub client : ℕ
  pub filter : EventStreamFilter
  pub parties : List Str
  pub last_offset : Str
  pub websockets : List ℕ
  pub cancel : Option ℕ
  pub is_active : Bool

pub data Message : Type 0 where
  update : LedgerUpdate → Message
  error : Str → Message
  stream_end : Str → Message
  subscribed : Str → Str → EventStreamFilter → List Str → Message
  pong : Message

-- What happens when a message is sent to a web socket: its state is OPEN and the call returns, its
-- state is another, or the call throws.
pub data Readiness : Type 0 where
  open_socket other_state throws : Readiness

-- `subscriptions` maps to objects by their numbers. An object outlives its entry, since the callbacks
-- of its streams, sockets and timeouts refer to it. `offsets` is what the cache was told.
pub record Manager : Type 0 where
  pub subscriptions : List (Str × ℕ)
  pub object : ℕ → Subscription
  pub next_object : ℕ
  pub stream : ℕ → Stream
  pub next_stream : ℕ
  pub sent : List (ℕ × Message)
  pub closed : List ℕ
  pub offsets : List (Str × Str)

abbrev pub no_filter : EventStreamFilter
no_filter = record {
  templates = none;
  parties = none;
  event_types = none;
  transaction_shape = none;
}

-- Before the first call: nothing was allocated.
abbrev pub idle : Manager
idle = record {
  subscriptions = [];
  object = λ _. record {
    id = [];
    client = 0;
    filter = no_filter;
    parties = [];
    last_offset = [];
    websockets = [];
    cancel = none;
    is_active = false;
  };
  next_object = 0;
  stream = λ _. record {
    owner = 0;
    phase = over;
    begin_exclusive = [];
    parties = [];
    shape = ledger_effects;
    templates = none;
  };
  next_stream = 0;
  sent = [];
  closed = [];
  offsets = [];
}

-- `l.includes(n)`, `set.add(n)` and `set.delete(n)` on sockets.
unfoldable pub has : ℕ → List ℕ → Bool
has n [] = false
has n (k ∷ ks) = if k == n then true else has n ks

unfoldable pub join : ℕ → List ℕ → List ℕ
join n ks = if has n ks then ks else ks ++ n ∷ []

unfoldable pub leave : ℕ → List ℕ → List ℕ
leave n ks = keep (λ k. not (k == n)) ks

-- Writing to the object `n`, and to the stream `k`.
unfoldable pub set_object : ℕ → Subscription → Manager → Manager
set_object n s m = record m { object = λ i. if i == n then s else m.object i }

unfoldable pub set_phase : ℕ → Phase → Manager → Manager
set_phase k p m = record m {
  stream = λ i. if i == k then record (m.stream i) { phase = p } else m.stream i;
}

abbrev pub after_cancel : Phase → Phase
after_cancel running = cancelled
after_cancel cancelled = cancelled
after_cancel over = over

-- `sub.cancel()`, if there is one.
unfoldable pub cancel_stream : Option ℕ → Manager → Manager
cancel_stream none m = m
cancel_stream (some k) m = set_phase k (after_cancel (m.stream k).phase) m
