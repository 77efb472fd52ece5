-- ===== src/Sandbox/Ports.antt =====
-- The ports of sandboxes: extractPort and findAvailablePort.
use cantontrace.Base.{
  ℕ, zero, suc, ◌+◌, List, [], ◌∷◌, ◌++◌, Option, none, some, Str, text, Bool, true, false, not,
  ◌&&◌, ◌==◌, ltb, if◌then◌else◌, map, any,
}
use cantontrace.Sandbox.State.{Number, not_a_number, integer, Manager}
unfoldable pub use cantontrace.Runtime.Number.{
  leading_digits, with_sign, parse_trimmed, parse_int, print_number,
}

-- `s.split(':')`.
abbrev pub grow : ℕ → List Str → List Str
grow c [] = (c ∷ []) ∷ []
grow c (part ∷ parts) = (c ∷ part) ∷ parts

unfoldable pub split : Str → List Str
split [] = [] ∷ []
split (c ∷ s) = let rest = split s in if c == b':' then [] ∷ rest else grow c rest

abbrev pub last_part : List Str → Str
last_part [] = text "6865"
last_part (part ∷ []) = part
last_part (part ∷ next ∷ parts) = last_part (next ∷ parts)

unfoldable pub extract_port : Str → Number
extract_port endpoint = parse_int (last_part (split endpoint))

abbrev pub local_endpoint : Number → Str
local_endpoint port = text "localhost:" ++ print_number port

-- Whether a set of numbers takes them for one.
abbrev pub same_number : Number → Number → Bool
same_number not_a_number not_a_number = true
same_number not_a_number (integer s n) = false
same_number (integer s n) not_a_number = false
same_number (integer true n) (integer true k) = n == k
same_number (integer false n) (integer false k) = n == k
same_number (integer true n) (integer false k) = n == 0 && k == 0
same_number (integer false n) (integer true k) = n == 0 && k == 0

unfoldable pub has_port : Number → List Number → Bool
has_port p ports = any (λ q. same_number q p) ports

unfoldable pub used_ports : Manager → List Number
used_ports m = map (λ e. extract_port (m.state e.1).sandbox.ledger_api_endpoint) m.sandboxes

abbrev pub sandbox_base_port : ℕ
sandbox_base_port = 10000

abbrev pub port_range : ℕ
port_range = 100

-- The probes of `n` ports from `port` on.
unfoldable pub all_free : (ℕ → Bool) → ℕ → ℕ → Bool
all_free free zero port = true
all_free free (suc n) port = if free port then all_free free n (port + 1) else false

abbrev pub usable : List Number → (ℕ → Bool) → ℕ → Bool
usable used free port = not (has_port (integer false port) used) && all_free free 6 port

-- The loop from `port` on, in steps of six.
unfoldable pub search_ports : List Number → (ℕ → Bool) → ℕ → ℕ → Option ℕ
search_ports used free zero port = none
search_ports used free (suc fuel) port =
    let rest = search_ports used free fuel (port + 6) in
    if ltb port (sandbox_base_port + port_range)
    then (if usable used free port then some port else rest)
    else none

-- `free` is what binding to a port shows. One round for each port of the range is more than enough.
unfoldable pub find_available_port : List Number → (ℕ → Bool) → Option ℕ
find_available_port used free = search_ports used free port_range sandbox_base_port
