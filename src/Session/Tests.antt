-- ===== src/Session/Tests.antt =====
-- Sessions with numbers for clients.
use cantontrace.Base.{ℕ, ◌≡◌, refl, [], ◌∷◌, none, some, text, includes, ◌===◌, arith, Distinct}
use cantontrace.Base.Lookup.{keys, get, delete}
use cantontrace.Session.{Store, set_active_connection, cleanup, cleanup_from, disconnect_session}
use cantontrace.Session.Capacity.{IsWellFormed, set_active_connection-IsWellFormed}

abbrev two : Store ℕ ℕ ℕ
two = record {
  sessions =
      (
        text "a",
        record { client = 1; bootstrap_info = 0; oauth2_service = some 7; last_active = 5 },
      )
      ∷ (
        text "b",
        record { client = 2; bootstrap_info = 0; oauth2_service = none; last_active = 9 },
      )
      ∷ [];
  disconnected = [];
  stopped = [];
}

two-Distinct : Distinct (keys two.sessions)
unfolding includes ◌===◌
two-Distinct = (refl, (refl, tt))

two-IsWellFormed : IsWellFormed two
unfolding includes ◌===◌
two-IsWellFormed = record { bounded = omega arith; distinct = two-Distinct; named = refl }

set_active_connection-IsWellFormed_example :
    IsWellFormed (set_active_connection 10 (text "c") 3 0 none two)
    × (get (text "c") (set_active_connection 10 (text "c") 3 0 none two).sessions
        ≡ some (record { client = 3; bootstrap_info = 0; oauth2_service = none; last_active = 10 }))
set_active_connection-IsWellFormed_example =
    set_active_connection-IsWellFormed 10 (text "c") 3 0 none two (λ e. cc) two-IsWellFormed

one_left : keys (cleanup 1800006 two).sessions ≡ text "b" ∷ []
unfolding cleanup cleanup_from disconnect_session get delete ◌===◌
one_left = refl
