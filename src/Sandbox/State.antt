-- ===== src/Sandbox/State.antt =====
-- The registry of api-gateway/src/services/sandbox-manager.ts. An error is the HTTP status it is thrown with.
use cantontrace.Base.{ℕ, suc, List, Option, Str, Bool, true, false, ◌==◌, if◌then◌else◌}
use cantontrace.Base.Lookup.{put}
pub use cantontrace.Runtime.Number.{Number, not_a_number, integer}

pub data Status : Type 0 where
  provisioning running stopped error : Status

abbrev pub is_running : Status → Bool
is_running provisioning = false
is_running running = true
is_running stopped = false
is_running error = false

abbrev pub is_stopped : Status → Bool
is_stopped provisioning = false
is_stopped running = false
is_stopped stopped = true
is_stopped error = false

-- A `name` is missing after a reset. An `isDemo` that is missing is `false`.
pub record Sandbox : Type 0 where
  pub id : Str
  pub name : Option Str
  pub status : Status
  pub ledger_api_endpoint : Str
  pub created_at : Str
  pub parties : List Str
  pub uploaded_dars : List Str
  pub profiling_enabled : Bool
  pub share_url : Option Str
  pub is_demo : Bool

pub record SandboxCreateRequest : Type 0 where
  pub name : Option Str
  pub dar_file : Option Str
  pub parties : Option (List Str)
  pub enable_profiling : Option Bool

-- A process is known by a number.
pub record SandboxState : Type 0 where
  pub sandbox : Sandbox
  pub process_handle : Option ℕ
  pub original_request : Option SandboxCreateRequest

pub data Result (A : Type 0) : Type 0 where
  ok : A → Result A
  fails : ℕ → Result A

-- `sandboxes` maps to states by their numbers: callbacks of a process refer to a state that a reset has
-- replaced.
pub record Manager : Type 0 where
  pub sandboxes : List (Str × ℕ)
  pub state : ℕ → SandboxState
  pub next_state : ℕ
  pub freed_ports : List Number

unfoldable pub set_state : ℕ → SandboxState → Manager → Manager
set_state n s m = record m { state = λ i. if i == n then s else m.state i }

unfoldable pub set_sandbox : ℕ → Sandbox → Manager → Manager
set_sandbox n s m = set_state n (record (m.state n) { sandbox = s }) m

unfoldable pub set_status : ℕ → Status → Manager → Manager
set_status n status m = set_sandbox n (record (m.state n).sandbox { status = status }) m

-- `sandboxes.set(id, s)` with a new object.
unfoldable pub register : Str → SandboxState → Manager → Manager
register id s m =
    set_state m.next_state s
      (record m { sandboxes = put id m.next_state m.sandboxes; next_state = suc m.next_state })
