-- ===== src/Sandbox/Scripts.antt =====
-- Running a script against a sandbox: runDamlScript of sandbox-manager.ts.
use mathlib.Core.Option.{get_or}
use cantontrace.Base.{
  List, [], ◌∷◌, ◌++◌, Option, none, some, Str, text, Bool, true, false, if◌then◌else◌, ◌==◌,
}
use cantontrace.Sandbox.Ports.{split}

-- The end of a command: it is not installed, it fails, or it succeeds.
pub data Cli : Type 0 where
  not_found : Cli
  failed : Option Str → Option Str → Option Str → Cli
  succeeded : Str → Str → Cli

pub record ScriptResult : Type 0 where
  pub success : Bool
  pub output : Str
  pub error : Option Str

unfoldable pub strip_from : Str → Str → Option Str
strip_from [] s = some s
strip_from (c ∷ p) [] = none
strip_from (c ∷ p) (d ∷ s) = if d == c then strip_from p s else none

abbrev pub without_scheme : Str → Str
without_scheme s =
    get_or (strip_from (text "https://") s) (get_or (strip_from (text "http://") s) s)

abbrev pub host_of : List Str → Str
host_of [] = text "localhost"
host_of (host ∷ parts) = host

abbrev pub port_of : List Str → Str
port_of (host ∷ port ∷ parts) = port
port_of (host ∷ []) = text "6865"
port_of [] = text "6865"

abbrev pub lines_of : Str → Str
lines_of [] = []
lines_of (c ∷ s) = b'\n' ∷ c ∷ s

unfoldable pub run_first : (Str → List Str → Cli) → List (Str × List Str) → ScriptResult
run_first exec [] = record {
  success = false;
  output = [];
  error = some (text "Neither dpm nor daml CLI found. Install the Daml SDK to run scripts.");
}
run_first exec ((cmd, args) ∷ options) =
    let rest = run_first exec options in
    elim (exec cmd args) [
      | not_found ↦ rest
      | failed stdout stderr message ↦ record {
        success = false;
        output = get_or stdout [];
        error = some (get_or stderr (get_or message (text "Script execution failed")));
      }
      | succeeded stdout stderr ↦ record {
        success = true;
        output = stdout ++ lines_of stderr;
        error = none;
      }
    ]

unfoldable pub run_daml_script : (Str → List Str → Cli) → Str → Str → Str → ScriptResult
run_daml_script exec sandbox_endpoint dar_path script_name =
    let parts = split (without_scheme sandbox_endpoint) in
    let args =
      text "--dar"
      ∷ dar_path
      ∷ text "--script-name"
      ∷ script_name
      ∷ text "--ledger-host"
      ∷ host_of parts
      ∷ text "--ledger-port"
      ∷ port_of parts
      ∷ [] in
    run_first exec
      ((text "dpm", text "damlc" ∷ text "script" ∷ args) ∷ (text "daml", text "script" ∷ args) ∷ [])
