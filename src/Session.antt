-- ===== src/Session.antt =====
-- The sessions of api-gateway/src/middleware/canton-context.ts: the connection store and what is done
-- to it. A client, its bootstrap information and its token service are parameters; what the store does
-- to them is kept as the lists of those that it disconnected and stopped.
pub mod Capacity
pub mod Release
mod Tests
use cantontrace.Base.{
  ℕ, ◌-◌, List, [], ◌∷◌, ◌++◌, Option, none, some, Bool, true, false, not, ◌&&◌, ltb, leb,
  if◌then◌else◌, Str, ◌===◌, length, map, includes,
}
use cantontrace.Base.Lookup.{keys, get, put, delete}

abbrev pub max_sessions : ℕ
max_sessions = 50

abbrev pub session_timeout_ms : ℕ
session_timeout_ms = 1800000

pub record SessionConnection (C B O : Type 0) : Type 0 where
  pub client : C
  pub bootstrap_info : B
  pub oauth2_service : Option O
  pub last_active : ℕ

-- `sessions` in the order of the map, and the clients and services that were let go.
pub record Store (C B O : Type 0) : Type 0 where
  pub sessions : List (Str × SessionConnection C B O)
  pub disconnected : List C
  pub stopped : List O

abbrev pub listed {ℓ} : {A : Type ℓ} → Option A → List A
listed none = []
listed (some a) = a ∷ []

module _ {C B O : Type 0} where
  unfoldable pub disconnect_session : Str → Store C B O → Store C B O
  disconnect_session id st = elim (get id st.sessions) [
    | none ↦ st
    | some s ↦ record {
      sessions = delete id st.sessions;
      disconnected = st.disconnected ++ s.client ∷ [];
      stopped = st.stopped ++ listed s.oauth2_service;
    }
  ]

  -- The timer's round over the entries: one that was idle for too long is disconnected.
  unfoldable pub cleanup_from : ℕ → List (Str × SessionConnection C B O) → Store C B O → Store C B O
  cleanup_from now [] st = st
  cleanup_from now ((id, s) ∷ entries) st =
      cleanup_from now entries
        (if ltb session_timeout_ms (now - s.last_active) then disconnect_session id st else st)

  unfoldable pub cleanup : ℕ → Store C B O → Store C B O
  cleanup now st = cleanup_from now st.sessions st

  -- `oldestId` and `oldestTime`, which are `null` and `Infinity` first.
  unfoldable pub oldest : List (Str × SessionConnection C B O) → Option (Str × ℕ) → Option (Str × ℕ)
  oldest [] found = found
  oldest ((id, s) ∷ entries) none = oldest entries (some (id, s.last_active))
  oldest ((id, s) ∷ entries) (some (i, t)) =
      oldest entries (if ltb s.last_active t then some (id, s.last_active) else some (i, t))

  -- An empty id counts as none.
  unfoldable pub evict_oldest : Store C B O → Store C B O
  evict_oldest st = elim (oldest st.sessions none) [
    | none ↦ st
    | some (id, t) ↦ if id === [] then st else disconnect_session id st
  ]

  unfoldable pub make_room : Str → Store C B O → Store C B O
  make_room id st =
      if not (includes id (keys st.sessions)) && leb max_sessions (length st.sessions)
      then evict_oldest st
      else st

  unfoldable pub set_active_connection : ℕ → Str → C → B → Option O → Store C B O → Store C B O
  set_active_connection now id client info oauth st = record (make_room id st) {
    sessions =
        put id
          (record {
            client = client;
            bootstrap_info = info;
            oauth2_service = oauth;
            last_active = now;
          })
          (make_room id st).sessions;
  }

  unfoldable pub clear_active_connection : Str → Store C B O → Store C B O
  clear_active_connection id st = disconnect_session id st

  unfoldable pub disconnect_ids : List Str → Store C B O → Store C B O
  disconnect_ids [] st = st
  disconnect_ids (id ∷ ids) st = disconnect_ids ids (disconnect_session id st)

  unfoldable pub disconnect_all_sessions : Store C B O → Store C B O
  disconnect_all_sessions st = disconnect_ids (keys st.sessions) st

  unfoldable pub get_session_connection : Str → Store C B O → Option (SessionConnection C B O)
  get_session_connection id st = get id st.sessions

  unfoldable pub get_active_session_count : Store C B O → ℕ
  get_active_session_count st = length st.sessions
