-- ===== src/Sandbox/Processes.antt =====
-- What the processes of sandboxes report: starting, the demo sandbox, restoring, uploads and parties.
use mathlib.Core.Option.{get_or}
use cantontrace.Base.{
  ℕ, List, [], ◌∷◌, ◌++◌, Option, none, some, Str, text, Bool, true, false, not, ◌&&◌, ◌||◌,
  if◌then◌else◌, ◌==◌, leb, length, add, map, all, take,
}
use cantontrace.Base.Lookup.{get}
use cantontrace.Sandbox.State.{
  provisioning, running, stopped, error, is_running, is_stopped, Sandbox, SandboxCreateRequest,
  Number, Result, ok, fails, Manager, set_state, set_sandbox, set_status, register,
}
use cantontrace.Sandbox.Ports.{extract_port}

-- `/^[a-zA-Z0-9._:-]+$/`.
abbrev pub is_safe : ℕ → Bool
is_safe c =
    (leb b'a' c && leb c b'z')
    || (leb b'A' c && leb c b'Z')
    || (leb b'0' c && leb c b'9')
    || c == b'.'
    || c == b'_'
    || c == b':'
    || c == b'-'

unfoldable pub validate_cli_arg : Str → Result Str
validate_cli_arg [] = fails 400
validate_cli_arg (c ∷ s) = if all is_safe (c ∷ s) then ok (c ∷ s) else fails 400

-- startSandbox, on the state `n` that it found: the process is spawned, is ready in time, or something
-- throws, which the callers' `catch` of the id `id` sees too.
unfoldable pub spawned : ℕ → ℕ → Manager → Manager
spawned n handle m = set_state n (record (m.state n) { process_handle = some handle }) m

unfoldable pub ready : ℕ → Manager → Manager
ready n m = set_status n running m

unfoldable pub start_fails : Str → ℕ → Manager → Manager
start_fails id n m =
    let failed = set_status n error m in
    elim (get id failed.sandboxes) [ none ↦ failed | some k ↦ set_status k error failed ]

unfoldable pub process_error : ℕ → Manager → Manager
process_error n m = set_status n error m

-- The code is missing after a signal.
abbrev pub exited_well : Option ℕ → Bool
exited_well none = false
exited_well (some c) = c == 0

unfoldable pub process_exit : Option ℕ → ℕ → Manager → Manager
process_exit code n m =
    if not (exited_well code) && not (is_stopped (m.state n).sandbox.status)
    then set_status n error m
    else m

abbrev pub demo_sandbox_id : Str
demo_sandbox_id = text "demo-sandbox"

-- `alive` and `parties` are what the two calls of grpcurl showed.
unfoldable pub register_demo_sandbox : Option Str → Bool → List Str → Str → Manager → Manager
register_demo_sandbox none alive parties now m = m
register_demo_sandbox (some []) alive parties now m = m
register_demo_sandbox (some (c ∷ endpoint)) alive parties now m =
    register demo_sandbox_id
      (record {
        sandbox = record {
          id = demo_sandbox_id;
          name = some (text "Demo");
          status = if alive then running else provisioning;
          ledger_api_endpoint = c ∷ endpoint;
          created_at = now;
          parties = if alive then parties else [];
          uploaded_dars = text "cantontrace-test-1.0.0.dar" ∷ [];
          profiling_enabled = false;
          share_url = none;
          is_demo = true;
        };
        process_handle = none;
        original_request = none;
      })
      m

-- A round of polling: not reachable, reachable with no list of parties, or with one.
pub data Health : Type 0 where
  unreachable silent : Health
  lists : List Str → Health

abbrev pub polled : Health → ℕ → Manager → Manager
polled unreachable n m = m
polled silent n m = set_status n running m
polled (lists parties) n m =
    set_sandbox n (record (m.state n).sandbox { status = running; parties = parties }) m

abbrev pub is_reachable : Health → Bool
is_reachable unreachable = false
is_reachable silent = true
is_reachable (lists parties) = true

-- The second part says whether polling is over.
unfoldable pub poll_round : Health → Manager → Manager × Bool
poll_round health m = elim (get demo_sandbox_id m.sandboxes) [
  | none ↦ (m, true)
  | some n ↦
      let m' = polled health n m in
      (m', is_reachable health && leb 4 (length (m'.state n).sandbox.parties))
]

pub record Persisted : Type 0 where
  pub sandbox : Sandbox
  pub original_request : Option SandboxCreateRequest

unfoldable pub persist_sandboxes : Manager → List Persisted
persist_sandboxes m =
    map
      (λ e. record {
        sandbox = (m.state e.1).sandbox;
        original_request = (m.state e.1).original_request;
      })
      m.sandboxes

-- `alive` is what the health check of a port shows.
unfoldable pub restore_sandboxes : (Number → Bool) → List Persisted → Manager → Manager
restore_sandboxes alive [] m = m
restore_sandboxes alive (p ∷ persisted) m =
    let status = if alive (extract_port p.sandbox.ledger_api_endpoint) then running else stopped in
    restore_sandboxes alive persisted (
      register p.sandbox.id
        (record {
          sandbox = record p.sandbox { status = status };
          process_handle = none;
          original_request = p.original_request;
        })
        m)

-- The guards of uploadDar and allocatePartyOnSandbox.
unfoldable pub find_running : Str → Manager → Result ℕ
find_running id m = elim (get id m.sandboxes) [
  | none ↦ fails 404
  | some n ↦ if is_running (m.state n).sandbox.status then ok n else fails 400
]

pub data Upload : Type 0 where
  admin_took ledger_took none_took : Upload

unfoldable pub finish_upload : Upload → Str → Str → ℕ → Manager → Option ℕ × Manager
finish_upload outcome file_name path n m =
    let s = (m.state n).sandbox in
    elim outcome [
      | admin_took ↦
          (none, set_sandbox n (record s { uploaded_dars = s.uploaded_dars ++ file_name ∷ [] }) m)
      | ledger_took ↦
          (none, set_sandbox n (record s { uploaded_dars = s.uploaded_dars ++ file_name ∷ [] }) m)
      | none_took ↦
          (some 502, set_sandbox n (record s { uploaded_dars = s.uploaded_dars ++ path ∷ [] }) m)
    ]

-- `fresh` is a random UUID.
abbrev pub hint_or : Str → Option Str → Result Str
hint_or fresh none = ok (text "party-" ++ take 8 fresh)
hint_or fresh (some []) = ok (text "party-" ++ take 8 fresh)
hint_or fresh (some (c ∷ hint)) = validate_cli_arg (c ∷ hint)

unfoldable pub begin_allocate : Str → Option Str → Str → Manager → Result (ℕ × Str)
begin_allocate id hint fresh m = elim (find_running id m) [
  | fails status ↦ fails status
  | ok n ↦ elim (hint_or fresh hint) [ fails status ↦ fails status | ok h ↦ ok (n, h) ]
]

-- The answer of the ledger: none, one that is not JSON, or one with a party in it or not.
pub data Allocation : Type 0 where
  call_failed unreadable : Allocation
  answered : Option Str → Allocation

abbrev add_party : Str → ℕ → Manager → Manager
add_party party n m =
    set_sandbox n (record (m.state n).sandbox { parties = add party (m.state n).sandbox.parties }) m

unfoldable pub finish_allocate : Allocation → ℕ → Str → Manager → Result Str × Manager
finish_allocate call_failed n hint m = (fails 502, m)
finish_allocate unreadable n hint m = (ok hint, add_party hint n m)
finish_allocate (answered party) n hint m =
    (ok (get_or party hint), add_party (get_or party hint) n m)
