-- ===== src/Token/Steps.antt =====
-- What can happen to a token service, one event at a time.
use cantontrace.Base.{
  ℕ, List, [], ◌∷◌, Option, some, Str, Bool, true, false, not, ◌&&◌, ◌||◌, ◌==◌, ltb, ◌≡◌,
}
use cantontrace.Token.{
  Options, refresh, retry, Purpose, call, timed, Timer, State, TokenResponse, get_token, discovered,
  discover_endpoints, token_acquired, request_fails, finish_request, on_timer, stop, is_set,
}

-- A call, the end of its discovery, the end of a discovery that connection.ts asks for itself, a good and a bad answer to a request, a timer, and stop.
pub data Event : Type 0 where
  called : ℕ → Event
  found : Option (Option Str) → ℕ → Event
  explored : Option (Option Str) → Event
  answered : Purpose → TokenResponse → ℕ → Event
  failed : Purpose → ℕ → Event
  fired : Timer → ℕ → Event
  stops : Event

abbrev pub same_purpose : Purpose → Purpose → Bool
same_purpose call call = true
same_purpose (timed refresh) (timed refresh) = true
same_purpose (timed retry) (timed retry) = true
same_purpose _ _ = false

unfoldable pub outstanding : Purpose → List Purpose → Bool
outstanding p [] = false
outstanding p (q ∷ ps) = same_purpose p q || outstanding p ps

unfoldable pub has_timer : ℕ → List Timer → Bool
has_timer n [] = false
has_timer n (t ∷ ts) = t.id == n || has_timer n ts

-- What must be outstanding for the event to happen.
unfoldable pub enabled : Event → State → Bool
enabled (called now) s = true
enabled (found answer now) s = ltb 0 s.discovering
enabled (explored answer) s = true
enabled (answered p answer now) s = outstanding p s.requests
enabled (failed p now) s = outstanding p s.requests
enabled (fired t now) s = has_timer t.id s.timers
enabled stops s = true

-- An event that ends the refreshing: a retry that fails, a refresh that fails once the token has
-- expired, a discovery document without an endpoint.
unfoldable pub gives_up : Event → State → Bool
gives_up (failed (timed refresh) now) s = not (ltb now s.token_expires_at)
gives_up (failed (timed retry) now) s = true
gives_up (found (some endpoint) now) s = not (is_set endpoint)
gives_up (explored (some endpoint)) s = not (is_set endpoint)
gives_up _ s = false

module _ (decode_jwt : Str → Option (Option ℕ)) (o : Options) where
  unfoldable pub perform_event : Event → State → State
  perform_event (called now) s = (get_token o.refresh_margin_seconds now s).1
  perform_event (found answer now) s = (discovered o answer now s).1
  perform_event (explored answer) s = discover_endpoints o answer s
  perform_event (answered p answer now) s =
      token_acquired decode_jwt o.refresh_margin_seconds now answer (finish_request p s)
  perform_event (failed p now) s = request_fails p now (finish_request p s)
  perform_event (fired t now) s = on_timer t now s
  perform_event stops s = stop s

  -- Runs whose events `allowed` admits in the state they happen in.
  pub data Run (allowed : Event → State → Bool) : State → State → Type 0 where
    idle : {s : State} → Run allowed s s
    then_event :
        {s t : State} (e : Event)
        → Run allowed s t
        → allowed e t ≡ true
        → Run allowed s (perform_event e t)

abbrev pub persists : Event → State → Bool
persists e s = enabled e s && not (gives_up e s)
