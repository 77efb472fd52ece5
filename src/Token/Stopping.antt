-- ===== src/Token/Stopping.antt =====
-- A stopped token service.
use cantontrace.Base.{
  ℕ, suc, ◌+◌, ◌≤◌, Option, none, some, Str, true, ◌≡◌, refl, arith, Option-cases, inl, inr,
}
use cantontrace.Token.{
  Options, refresh, retry, Purpose, call, timed, State, get_token, continue_get_token, discovered,
  discover_endpoints, token_acquired, schedule_refresh, set_timer, clear_timer, begin_acquire,
  request_fails, finish_request, on_timer, stop,
}
use cantontrace.Token.Steps.{
  Event, called, found, explored, answered, failed, fired, stops, enabled, perform_event, Run,
}

-- Stopped, with at most `n` requests sent or still to be sent by calls that wait for the discovery.
abbrev IsSpent : ℕ → State → Type 0
IsSpent n s = (s.stopped ≡ true) × (s.sent + s.discovering ≤ n)

request_fails-IsSpent :
    (n now : ℕ) (p : Purpose) (s : State) → IsSpent n s → IsSpent n (request_fails p now s)
unfolding request_fails set_timer
request_fails-IsSpent n now call s h = h
request_fails-IsSpent n now (timed refresh) s h = ground arith
request_fails-IsSpent n now (timed retry) s h = h

continue_get_token-IsSpent :
    (n margin now : ℕ) (s : State)
    → (s.stopped ≡ true) × (suc (s.sent + s.discovering) ≤ n)
    → IsSpent n (continue_get_token margin now s).1
unfolding continue_get_token begin_acquire request_fails
continue_get_token-IsSpent n margin now s h = ground arith

module _ (decode_jwt : Str → Option (Option ℕ)) (o : Options) where
  perform_event-IsSpent :
      (n : ℕ) (e : Event) (s : State)
      → IsSpent n s
      → enabled e s ≡ true
      → IsSpent n (perform_event decode_jwt o e s)
  unfolding perform_event enabled get_token discovered discover_endpoints token_acquired
      schedule_refresh on_timer stop clear_timer
  perform_event-IsSpent n (called now) s h ok = rw (get_token, h.0) (refl, h.1)
  perform_event-IsSpent n (found (some a) now) s h ok =
      continue_get_token-IsSpent n o.refresh_margin_seconds now _ (h.0, ground arith)
  perform_event-IsSpent n (found none now) s h ok =
      continue_get_token-IsSpent n o.refresh_margin_seconds now _ (h.0, ground arith)
  perform_event-IsSpent n (explored (some a)) s h ok = h
  perform_event-IsSpent n (explored none) s h ok = h
  perform_event-IsSpent n (answered p answer now) s h ok =
      rw (token_acquired, schedule_refresh, h.0) (refl, h.1)
  perform_event-IsSpent n (failed p now) s h ok =
      request_fails-IsSpent n now p (finish_request p s) h
  perform_event-IsSpent n (fired t now) s h ok = rw (on_timer, h.0) (refl, h.1)
  perform_event-IsSpent n stops s h ok = elim (Option-cases s.refresh_timer) [
    | inl e ↦ rw (stop, clear_timer, e) (refl, h.1)
    | inr (k, e) ↦ rw (stop, clear_timer, e) (refl, h.1)
  ]

  -- However the events follow on each other once the service is stopped, it stays stopped, and no more
  -- token requests are sent than there were calls waiting for the discovery: no timer sends one, and
  -- neither does a new call.
  pub Run-stopped :
      (s t : State)
      → Run decode_jwt o enabled s t
      → s.stopped ≡ true
      → (t.stopped ≡ true) × (t.sent + t.discovering ≤ s.sent + s.discovering)
  Run-stopped s t Run.idle h = (h, omega arith)
  Run-stopped s t (Run.then_event e r ok) h =
      perform_event-IsSpent (s.sent + s.discovering) e _ (Run-stopped s _ r h) ok
