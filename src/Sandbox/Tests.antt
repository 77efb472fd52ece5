-- ===== src/Sandbox/Tests.antt =====
-- Sandboxes on a machine where the ports from 10006 on are free.
use cantontrace.Base.{
  ℕ, ◌+◌, ◌*◌, ◌≤◌, ◌<◌, ◌≡◌, ◌≢◌, ◌⊎◌, refl, List, [], ◌∷◌, none, some, Str, text, Bool, true,
  false, ltb, not, ◌==◌, ◌&&◌, length, arith, ◌===◌, ===_iff,
}
use cantontrace.Base.Lookup.{get, put, delete}
use cantontrace.Sandbox.{
  integer, not_a_number, find_available_port, search_ports, all_free, has_port, used_ports,
  extract_port, print_number, split, parse_int, parse_trimmed, with_sign, leading_digits, Manager,
  SandboxCreateRequest, Sandbox, ok, Creation, begin_create, finish_create, create_sandbox,
  new_sandbox, register, set_state, validate_cli_arg, fails, run_daml_script, run_first, Cli,
  not_found, succeeded, strip_from, register_demo_sandbox, restore_sandboxes, persist_sandboxes,
  finish_allocate, answered, set_sandbox, demo_sandbox_id,
}
use cantontrace.Errors.Message.{trim_start}
use cantontrace.Runtime.Object.{number_from}
use cantontrace.Runtime.Decimal.{decimal}
use cantontrace.Sandbox.Finding.{is_open, find_available_port-first}
use cantontrace.Sandbox.Capacity.{port_of_state, count_own}
use cantontrace.Sandbox.Starting.{no_sandboxes, start_sandboxes}
use cantontrace.Sandbox.Sequence.{Run, begins, creates, allocates, restarts_with_demo, Run-ports}
use cantontrace.Sandbox.Releasing.{finish_create-overlap}

abbrev free_above : ℕ → Bool
free_above p = ltb 10005 p

abbrev plain : SandboxCreateRequest
plain = record { name = none; dar_file = none; parties = none; enable_profiling = none }

-- The first two candidates are used, and 10017 is not free.
abbrev free_but : ℕ → Bool
free_but p = not (p == 10017)

find_available_port-first_example :
    ((find_available_port (integer false 10000 ∷ integer false 10006 ∷ []) free_but ≡ none)
      × ((j : ℕ)
          → (ltb j 17
              && is_open (integer false 10000 ∷ integer false 10006 ∷ []) free_but (10000 + 6 * j))
            ≡ false))
    ⊎ ((i : ℕ) × (i < 17)
        × (find_available_port (integer false 10000 ∷ integer false 10006 ∷ []) free_but
            ≡ some (10000 + 6 * i))
        × (is_open (integer false 10000 ∷ integer false 10006 ∷ []) free_but (10000 + 6 * i) ≡ true)
        × ((j : ℕ)
            → (ltb j i
                && is_open
                    (integer false 10000 ∷ integer false 10006 ∷ [])
                    free_but
                    (10000 + 6 * j))
              ≡ false))
find_available_port-first_example =
    find_available_port-first (integer false 10000 ∷ integer false 10006 ∷ []) free_but

found_next :
    find_available_port (integer false 10000 ∷ integer false 10006 ∷ []) free_but ≡ some 10018
unfolding find_available_port search_ports all_free has_port
found_next = refl

found_above : find_available_port [] free_above ≡ some 10006
unfolding find_available_port search_ports all_free has_port
found_above = refl

-- The last port that is found is 10096, and its sixth port lies outside of the range.
found_last : find_available_port [] (λ p. ltb 10095 p) ≡ some 10096
unfolding find_available_port search_ports all_free has_port
found_last = refl

ports_read :
    (extract_port (text "localhost:10006") ≡ integer false 10006)
    × (extract_port (text "http://canton:5011") ≡ integer false 5011)
    × (extract_port (text "localhost") ≡ not_a_number)
unfolding extract_port split parse_int parse_trimmed with_sign leading_digits trim_start number_from
ports_read = (refl, refl, refl)

arguments :
    (validate_cli_arg (text "party-1.a:b_C") ≡ ok (text "party-1.a:b_C"))
    × (validate_cli_arg (text "a;b") ≡ fails 400)
unfolding validate_cli_arg
arguments = (refl, refl)

abbrev only_daml : Str → List Str → Cli
only_daml (c ∷ a ∷ b ∷ []) args = not_found
only_daml cmd args = succeeded (text "done") []

second_cli :
    run_daml_script only_daml (text "http://localhost:6865") (text "a.dar") (text "M:run")
    ≡ record { success = true; output = text "done"; error = none }
unfolding run_daml_script run_first strip_from split
second_cli = refl

no_a : get (text "a") no_sandboxes.sandboxes ≡ none
unfolding get
no_a = refl

no_b : get (text "b") no_sandboxes.sandboxes ≡ none
unfolding get
no_b = refl

-- A first start with the demo sandbox of the Docker image, two creations and a new party.
abbrev demo_started : Manager
demo_started =
    start_sandboxes (some (text "http://canton:5011")) true (text "Alice" ∷ []) (text "now")
      (λ _. true) (persist_sandboxes no_sandboxes)

demo_port : extract_port (text "http://canton:5011") ≡ integer false 5011
unfolding extract_port split parse_int parse_trimmed with_sign leading_digits trim_start number_from
demo_port = refl

none_used :
    has_port (integer false 5011) (
      used_ports
        (record no_sandboxes { sandboxes = delete demo_sandbox_id no_sandboxes.sandboxes }))
    ≡ false
unfolding has_port used_ports delete
none_used = refl

demo_started-Run : Run demo_started
demo_started-Run =
    restarts_with_demo begins (text "http://canton:5011") true (text "Alice" ∷ []) (text "now")
      (λ _. true) 5011 demo_port none_used

new_a : get (text "a") demo_started.sandboxes ≡ none
unfolding start_sandboxes restore_sandboxes persist_sandboxes register_demo_sandbox register
    set_state put get ◌===◌
new_a = refl

abbrev one : Manager
one = (create_sandbox (text "a") plain (text "now") free_above demo_started).1

one-Run : Run one
one-Run = creates demo_started-Run (text "a") plain (text "now") free_above new_a

new_b : get (text "b") one.sandboxes ≡ none
unfolding start_sandboxes restore_sandboxes persist_sandboxes register_demo_sandbox create_sandbox
    begin_create finish_create used_ports find_available_port search_ports all_free has_port
    extract_port split parse_int parse_trimmed with_sign leading_digits trim_start number_from
    register set_state put get ◌===◌
new_b = refl

abbrev two : Manager
two =
    (finish_allocate (answered (some (text "Bob"))) 1 (text "Bob")
      (create_sandbox (text "b") plain (text "now") free_above one).1).1

two-Run : Run two
two-Run =
    allocates (creates one-Run (text "b") plain (text "now") free_above new_b)
      (answered (some (text "Bob"))) 1 (text "Bob")

there :
    (get (text "a") two.sandboxes ≡ some 1)
    × (get (text "b") two.sandboxes ≡ some 2)
    × (length two.sandboxes ≡ 3)
unfolding start_sandboxes restore_sandboxes persist_sandboxes register_demo_sandbox create_sandbox
    begin_create finish_create used_ports find_available_port search_ports all_free has_port
    extract_port split parse_int parse_trimmed with_sign leading_digits trim_start number_from
    finish_allocate set_sandbox register set_state put get print_number decimal ◌===◌
there = (refl, refl, refl)

Run-ports_example :
    (count_own two.sandboxes ≤ 10)
    × (length two.sandboxes ≤ 11)
    × ((text "a" ≡ text "b")
        ⊎ (extract_port (two.state 1).sandbox.ledger_api_endpoint
            ≢ extract_port (two.state 2).sandbox.ledger_api_endpoint))
Run-ports_example = Run-ports two two-Run (text "a") (text "b") 1 2 there.0 there.1

abbrev first_sandbox : Sandbox
first_sandbox =
    new_sandbox (text "now") (record { id = text "a"; request = plain; used = [] }) 10006

a_apart : text "a" ≢ text "b"
unfolding ◌===◌
a_apart e = ground (arith, ===_iff (text "a") (text "b"))

found_none_used : find_available_port (used_ports no_sandboxes) free_above ≡ some 10006
unfolding find_available_port search_ports all_free has_port used_ports
found_none_used = refl

finish_create-overlap_example :
    let first : Creation = record {
      id = text "a";
      request = plain;
      used = used_ports no_sandboxes;
    } in
    let second : Creation = record {
      id = text "b";
      request = plain;
      used = used_ports no_sandboxes;
    } in
    let later : Manager =
      (finish_create
        (text "now")
        free_above
        second
        (finish_create (text "now") free_above first no_sandboxes).1).1 in
    (begin_create (text "a") plain no_sandboxes ≡ ok first)
    × (begin_create (text "b") plain no_sandboxes ≡ ok second)
    × (get (text "a") later.sandboxes ≡ some 0)
    × (get (text "b") later.sandboxes ≡ some 1)
    × (port_of_state later 0 ≡ integer false 10006)
    × (port_of_state later 1 ≡ integer false 10006)
    × (length later.sandboxes ≡ length no_sandboxes.sandboxes + 2)
finish_create-overlap_example =
    finish_create-overlap (text "a") (text "b") plain plain (text "now") free_above no_sandboxes
      10006 no_a no_b a_apart (omega arith) found_none_used
