-- ===== src/Token/Tests.antt =====
-- Runs of a token service with a margin of 30 seconds.
use cantontrace.Base.Lookup.{put}
use cantontrace.Base.{
  ◌===◌, ℕ, ◌≡◌, ◌≤◌, ◌+◌, refl, List, [], ◌∷◌, Option, none, some, Str, text, true, false,
}
use cantontrace.Token.{
  Options, call, timed, refresh, retry, Timer, State, new_service, TokenResponse, get_token,
  continue_get_token, is_fresh, drop_timer, clear_timer, set_timer, stop, schedule_refresh,
  request_fails, begin_acquire, expiry, token_acquired, settle, discover_endpoints, discovered,
  on_timer, token_params, join_scopes, is_set,
}
use cantontrace.Token.Steps.{
  Event, called, found, answered, failed, fired, stops, outstanding, enabled, gives_up, persists,
  perform_event, Run,
}
use cantontrace.Token.Stopping.{Run-stopped}
use cantontrace.Token.Refreshing.{
  is_refreshing, IsScheduled, Run-is_refreshing, token_acquired-IsScheduled,
}

-- Tokens whose end only `expires_in` tells.
abbrev opaque_token : Str → Option (Option ℕ)
opaque_token token = none

abbrev service : Options
service = record {
  issuer_url = text "http://idp";
  client_id = text "app";
  client_secret = text "s";
  audience = none;
  scopes = [];
  refresh_margin_seconds = 30;
}

abbrev grant : TokenResponse
grant = record { access_token = text "t"; expires_in = some 60 }

abbrev after : List Event → State → State
after [] s = s
after (e ∷ es) s = after es (perform_event opaque_token service e s)

-- A token from 102 to 162, with a timer due at 132.
abbrev held : State
held = after (called 100 ∷ found none 101 ∷ answered call grant 102 ∷ []) new_service

abbrev first_timer : Timer
first_timer = record { id = 0; due = 132; kind = refresh }

held_lem :
    (held.current_token ≡ some (text "t"))
    × (held.timers ≡ first_timer ∷ [])
    × (held.token_expires_at ≡ 162)
unfolding perform_event get_token discovered discover_endpoints continue_get_token begin_acquire
    is_fresh token_acquired schedule_refresh set_timer clear_timer expiry settle
held_lem = (refl, refl, refl)

held-Run : Run opaque_token service persists new_service held
unfolding perform_event get_token discovered discover_endpoints continue_get_token begin_acquire
    is_fresh enabled gives_up outstanding
held-Run =
    Run.then_event (answered call grant 102)
      (Run.then_event (found none 101) (Run.then_event (called 100) Run.idle refl) refl) refl

Run-is_refreshing_example : is_refreshing held ≡ true
unfolding perform_event get_token discovered discover_endpoints continue_get_token begin_acquire
    is_fresh token_acquired schedule_refresh set_timer clear_timer
Run-is_refreshing_example = Run-is_refreshing opaque_token service held held-Run refl refl

token_acquired-IsScheduled_example :
    IsScheduled 30 102 (token_acquired opaque_token 30 102 grant new_service)
token_acquired-IsScheduled_example =
    token_acquired-IsScheduled opaque_token 30 102 grant new_service refl

-- A call that waits for the discovery when the service is stopped still has its request sent.
abbrev stopping : State
stopping = after (called 100 ∷ stops ∷ []) new_service

abbrev late : State
late = after (found none 101 ∷ []) stopping

Run-stopped_example :
    (late.stopped ≡ true) × (late.sent + late.discovering ≤ stopping.sent + stopping.discovering)
unfolding perform_event get_token stop clear_timer enabled
Run-stopped_example =
    Run-stopped opaque_token service stopping late (Run.then_event (found none 101) Run.idle refl)
      refl

late_request : late.sent ≡ 1
unfolding perform_event get_token stop clear_timer discovered discover_endpoints continue_get_token
    begin_acquire is_fresh
late_request = refl

-- After a refresh and its retry have failed, nothing is left that would ask for a token.
given_up :
    let s =
      after
        (fired first_timer 132
          ∷ failed (timed refresh) 140
          ∷ fired (record { id = 1; due = 150; kind = retry }) 150
          ∷ failed (timed retry) 155
          ∷ [])
        held in
    (s.stopped ≡ false) × (is_set s.current_token ≡ true) × (is_refreshing s ≡ false)
unfolding perform_event get_token discovered discover_endpoints continue_get_token begin_acquire
    is_fresh token_acquired schedule_refresh set_timer clear_timer expiry settle on_timer drop_timer
    request_fails
given_up = (refl, refl, refl)

-- A refresh that fails after a call got a new token replaces the timer of that token without
-- clearing it, so that `stop` leaves it set.
left_behind :
    let s =
      after
        (fired first_timer 132
          ∷ called 133
          ∷ answered call grant 134
          ∷ failed (timed refresh) 140
          ∷ stops
          ∷ [])
        held in
    s.timers ≡ record { id = 1; due = 164; kind = refresh } ∷ []
unfolding perform_event get_token discovered discover_endpoints continue_get_token begin_acquire
    is_fresh token_acquired schedule_refresh set_timer clear_timer expiry settle on_timer drop_timer
    request_fails stop
left_behind = refl

-- A good answer after `stop` still gives the callback a token.
late_answer :
    (after (fired first_timer 132 ∷ stops ∷ answered (timed refresh) grant 134 ∷ []) held).notified
    ≡ text "t" ∷ text "t" ∷ []
unfolding perform_event get_token discovered discover_endpoints continue_get_token begin_acquire
    is_fresh token_acquired schedule_refresh set_timer clear_timer expiry settle on_timer drop_timer
    stop
late_answer = refl

params :
    token_params (record service { scopes = text "a" ∷ text "b" ∷ [] })
    ≡ (text "grant_type", text "client_credentials")
      ∷ (text "client_id", text "app")
      ∷ (text "client_secret", text "s")
      ∷ (text "scope", text "a b")
      ∷ []
unfolding token_params join_scopes put ◌===◌
params = refl
