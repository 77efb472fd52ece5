-- ===== src/Sandbox.antt =====
-- The sandbox manager of api-gateway/src/services/sandbox-manager.ts. What stands between two `await`s is
-- an operation of its own; what processes, ports, files and the clock answer are arguments.
mod State
mod Ports
mod Processes
mod Scripts
pub mod Finding
pub mod Capacity
mod Counting
mod Restoring
pub mod Calls
mod Starting
pub mod Sequence
pub mod Releasing
mod Tests
unfoldable pub use State.*
unfoldable pub use Ports.*
unfoldable pub use Processes.*
unfoldable pub use Scripts.*
use mathlib.Core.Option.{get_or}
use cantontrace.Base.{
  ℕ, zero, suc, ◌+◌, List, [], ◌∷◌, ◌++◌, Option, none, some, Str, text, Bool, true, false, not,
  ◌&&◌, if◌then◌else◌, ◌==◌, map, keep, length, leb,
}
use cantontrace.Base.Lookup.{get, put, delete}

abbrev pub max_sandboxes : ℕ
max_sandboxes = 10

-- A creation that waits for a port, with the ports that were in use when it began.
pub record Creation : Type 0 where
  pub id : Str
  pub request : SandboxCreateRequest
  pub used : List Number

unfoldable pub begin_create : Str → SandboxCreateRequest → Manager → Result Creation
begin_create id request m =
    if leb max_sandboxes (length m.sandboxes)
    then fails 429
    else ok (record { id = id; request = request; used = used_ports m })

-- `request.name || ...`.
abbrev pub name_or : Str → Option Str → Str
name_or other none = other
name_or other (some []) = other
name_or other (some (c ∷ s)) = c ∷ s

abbrev pub new_sandbox : Str → Creation → ℕ → Sandbox
new_sandbox now c port = record {
  id = c.id;
  name = some (name_or (text "Sandbox " ++ print_number (integer false port)) c.request.name);
  status = provisioning;
  ledger_api_endpoint = local_endpoint (integer false port);
  created_at = now;
  parties = [];
  uploaded_dars = [];
  profiling_enabled = get_or c.request.enable_profiling false;
  share_url = none;
  is_demo = false;
}

unfoldable pub finish_create : Str → (ℕ → Bool) → Creation → Manager → Result Sandbox × Manager
finish_create now free c m = elim (find_available_port c.used free) [
  | none ↦ (fails 503, m)
  | some port ↦
      let s = new_sandbox now c port in
      (
        ok s,
        register c.id
            (record { sandbox = s; process_handle = none; original_request = some c.request })
            (record m {
              freed_ports = keep (λ q. not (same_number q (integer false port))) m.freed_ports;
            }),
      )
]

-- A creation with nothing else in between.
unfoldable pub create_sandbox :
    Str → SandboxCreateRequest → Str → (ℕ → Bool) → Manager → Result Sandbox × Manager
create_sandbox id request now free m = elim (begin_create id request m) [
  | fails status ↦ (fails status, m)
  | ok c ↦ finish_create now free c m
]

unfoldable pub list_sandboxes : Manager → List Sandbox
list_sandboxes m = map (λ e. (m.state e.1).sandbox) m.sandboxes

unfoldable pub get_sandbox : Str → Manager → Option Sandbox
get_sandbox id m = elim (get id m.sandboxes) [ none ↦ none | some n ↦ some (m.state n).sandbox ]

-- The guards of deleteSandbox and resetSandbox.
unfoldable pub find_own : Str → Manager → Result ℕ
find_own id m = elim (get id m.sandboxes) [
  | none ↦ fails 404
  | some n ↦ if (m.state n).sandbox.is_demo then fails 403 else ok n
]

unfoldable pub begin_delete : Str → Manager → Result Number
begin_delete id m = elim (find_own id m) [
  | fails status ↦ fails status
  | ok n ↦ ok (extract_port (m.state n).sandbox.ledger_api_endpoint)
]

abbrev pub add_port : Number → List Number → List Number
add_port p ports = if has_port p ports then ports else ports ++ p ∷ []

unfoldable pub finish_delete : Str → Number → Manager → Manager
finish_delete id port m = record m {
  freed_ports = add_port port m.freed_ports;
  sandboxes = delete id m.sandboxes;
}

unfoldable pub delete_sandbox : Str → Manager → Option ℕ × Manager
delete_sandbox id m = elim (begin_delete id m) [
  | fails status ↦ (some status, m)
  | ok port ↦ (none, finish_delete id port m)
]

pub record Reset : Type 0 where
  pub id : Str
  pub port : Number
  pub request : SandboxCreateRequest

abbrev pub request_again : SandboxState → SandboxCreateRequest
request_again s = get_or s.original_request (record {
  name = none;
  dar_file = none;
  parties = some s.sandbox.parties;
  enable_profiling = some s.sandbox.profiling_enabled;
})

unfoldable pub begin_reset : Str → Manager → Result Reset × Manager
begin_reset id m = elim (find_own id m) [
  | fails status ↦ (fails status, m)
  | ok n ↦ (
    ok (record {
      id = id;
      port = extract_port (m.state n).sandbox.ledger_api_endpoint;
      request = request_again (m.state n);
    }),
    set_status n stopped m,
  )
]

abbrev pub sandbox_after_reset : Str → Reset → Sandbox
sandbox_after_reset now r = record {
  id = r.id;
  name = none;
  status = provisioning;
  ledger_api_endpoint = local_endpoint r.port;
  created_at = now;
  parties = get_or r.request.parties [];
  uploaded_dars = [];
  profiling_enabled = get_or r.request.enable_profiling false;
  share_url = none;
  is_demo = false;
}

unfoldable pub finish_reset : Str → Reset → Manager → Manager
finish_reset now r m =
    register r.id
      (record {
        sandbox = sandbox_after_reset now r;
        process_handle = none;
        original_request = some r.request;
      })
      m

unfoldable pub reset_sandbox : Str → Str → Manager → Option ℕ × Manager
reset_sandbox now id m =
    let begun = begin_reset id m in
    elim begun.0 [
      | fails status ↦ (some status, begun.1)
      | ok r ↦ (none, finish_reset now r begun.1)
    ]
