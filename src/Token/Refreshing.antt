-- ===== src/Token/Refreshing.antt =====
-- The refreshing of a token that is held.
use mathlib.Core.Path.{subst}
use cantontrace.Base.{
  ℕ, ◌+◌, ◌≤◌, ◌<◌, max, ◌-◌, List, [], ◌∷◌, ◌++◌, Option, none, some, Str, Bool, true, false, ◌≡◌,
  ◌⊎◌, ◌||◌, not, if◌then◌else◌, refl, sym, ap, ◌∙◌, arith, Bool-cases, Option-cases, inl, inr, any,
}
use cantontrace.Token.{
  new_service, Options, Kind, refresh, retry, Purpose, call, timed, Timer, State, TokenResponse,
  get_token, continue_get_token, discovered, discover_endpoints, token_acquired, schedule_refresh,
  set_timer, clear_timer, begin_acquire, request_fails, finish_request, settle, drop_timer,
  on_timer, stop, is_set, is_fresh,
}
use cantontrace.Token.Steps.{
  Event, called, found, explored, answered, failed, fired, stops, enabled, gives_up, persists,
  perform_event, Run, outstanding, has_timer,
}

abbrev pub is_timed : Purpose → Bool
is_timed call = false
is_timed (timed kind) = true

abbrev pub has_some : List Timer → Bool
has_some [] = false
has_some (t ∷ ts) = true

-- A timer is set, or a request of one is on its way.
abbrev pub is_refreshing : State → Bool
is_refreshing s = has_some s.timers || any is_timed s.requests

-- Stopped, without a token or on the way to the next one.
abbrev pub is_covered : State → Bool
is_covered s = s.stopped || not (is_set s.current_token) || is_refreshing s

-- Before the endpoint is known nothing was asked for; after that, the service is covered.
abbrev IsDormant : State → Type 0
IsDormant s =
    (is_set s.token_endpoint ≡ false)
    × (s.requests ≡ [])
    × (s.timers ≡ [])
    × (is_set s.current_token ≡ false)

abbrev IsActive : State → Type 0
IsActive s = (is_set s.token_endpoint ≡ true) × (is_covered s ≡ true)

abbrev IsKept : State → Type 0
IsKept s = IsDormant s ⊎ IsActive s

any-settle_call : (ps : List Purpose) → any is_timed (settle call ps) ≡ any is_timed ps
unfolding settle
any-settle_call [] = refl
any-settle_call (call ∷ ps) = refl
any-settle_call (timed k ∷ ps) = refl

set_timer-IsActive :
    (due : ℕ) (k : Kind) (s : State) → is_set s.token_endpoint ≡ true → IsActive (set_timer due k s)
unfolding set_timer
set_timer-IsActive due k s e = ground arith

clear_timer-endpoint : (s : State) → (clear_timer s).token_endpoint ≡ s.token_endpoint
unfolding clear_timer
clear_timer-endpoint s = ground arith

schedule_refresh-IsActive :
    (margin now : ℕ) (s : State)
    → is_set s.token_endpoint ≡ true
    → IsActive (schedule_refresh margin now s)
unfolding schedule_refresh
schedule_refresh-IsActive margin now s e = elim (Bool-cases s.stopped) [
  | inl st ↦ rw (schedule_refresh, st) (e, refl)
  | inr st ↦
      rw (schedule_refresh, st)
        (set_timer-IsActive _ refresh _ (ap is_set (clear_timer-endpoint _) ∙ e))
]

continue_get_token-IsActive :
    (margin now : ℕ) (s : State) → IsActive s → IsActive (continue_get_token margin now s).1
unfolding continue_get_token begin_acquire
continue_get_token-IsActive margin now s h = ground arith

on_timer-IsActive : (t : Timer) (now : ℕ) (s : State) → IsActive s → IsActive (on_timer t now s)
unfolding on_timer begin_acquire
on_timer-IsActive t now s h = ground arith

stop-IsActive : (s : State) → is_set s.token_endpoint ≡ true → IsActive (stop s)
unfolding stop clear_timer
stop-IsActive s e = elim (Option-cases s.refresh_timer) [
  | inl none_set ↦ rw (stop, clear_timer, none_set) (e, refl)
  | inr (k, set) ↦ rw (stop, clear_timer, set) (e, refl)
]

request_fails-IsActive :
    (p : Purpose) (now : ℕ) (s : State)
    → IsActive s
    → gives_up (failed p now) s ≡ false
    → IsActive (request_fails p now (finish_request p s))
unfolding request_fails gives_up
request_fails-IsActive call now s h kept = ground (arith, any-settle_call s.requests)
request_fails-IsActive (timed refresh) now s h kept =
    ground (arith, set_timer-IsActive (now + 10) retry (finish_request (timed refresh) s) h.0)
request_fails-IsActive (timed retry) now s h kept = absurd (ground arith)

-- An endpoint that a discovery finds, unless its document has none.
discover_endpoints-endpoint :
    (o : Options) (answer : Option (Option Str)) (now : ℕ) (s r : State)
    → gives_up (found answer now) s ≡ false
    → is_set (discover_endpoints o answer r).token_endpoint ≡ true
unfolding discover_endpoints gives_up
discover_endpoints-endpoint o (some endpoint) now s r h = ground arith
discover_endpoints-endpoint o none now s r h = is_set-append_cons o.issuer_url _ _
  where
    is_set-append_cons : (u : Str) (c : ℕ) (t : Str) → is_set (some (u ++ c ∷ t)) ≡ true
    is_set-append_cons [] c t = refl
    is_set-append_cons (d ∷ u) c t = refl

is_covered-discover :
    (o : Options) (answer : Option (Option Str)) (s : State)
    → is_covered (discover_endpoints o answer (record s { discovering = s.discovering - 1 }))
      ≡ is_covered s
unfolding discover_endpoints
is_covered-discover o (some endpoint) s = refl
is_covered-discover o none s = refl

is_covered-explored :
    (o : Options) (answer : Option (Option Str)) (s : State)
    → is_covered (discover_endpoints o answer s) ≡ is_covered s
unfolding discover_endpoints
is_covered-explored o (some endpoint) s = refl
is_covered-explored o none s = refl

explored-endpoint :
    (o : Options) (answer : Option (Option Str)) (s : State)
    → gives_up (explored answer) s ≡ false
    → is_set (discover_endpoints o answer s).token_endpoint ≡ true
unfolding gives_up
explored-endpoint o (some endpoint) s h = discover_endpoints-endpoint o (some endpoint) 0 s s h
explored-endpoint o none s h = discover_endpoints-endpoint o none 0 s s refl

is_covered_of_IsKept : (s : State) → IsKept s → is_covered s ≡ true
is_covered_of_IsKept s (inl (e, r, t, c)) = ground arith
is_covered_of_IsKept s (inr (e, c)) = c

get_token-IsKept : (margin now : ℕ) (s : State) → IsKept s → IsKept (get_token margin now s).1
unfolding get_token
get_token-IsKept margin now s (inl (e, r, t, c)) = elim (Bool-cases s.stopped) [
  | inl st ↦ inl (ground arith)
  | inr st ↦ inl (ground arith)
]
get_token-IsKept margin now s (inr h) = elim (Bool-cases s.stopped) [
  | inl st ↦ inr (ground arith)
  | inr st ↦ inr (ground (arith, continue_get_token-IsActive margin now s h))
]

stop-IsKept : (s : State) → IsKept s → IsKept (stop s)
unfolding stop clear_timer drop_timer
stop-IsKept s (inl (e, r, t, c)) = elim (Option-cases s.refresh_timer) [
  | inl free ↦ rw (stop, clear_timer, free) (inl (e, r, t, c))
  | inr (k, set) ↦ rw (stop, clear_timer, set) (inl (e, r, ap (drop_timer k) t, c))
]
stop-IsKept s (inr h) = inr (stop-IsActive s h.0)

nothing_outstanding : (p : Purpose) (s : State) → s.requests ≡ [] → outstanding p s.requests ≡ false
unfolding outstanding
nothing_outstanding p s e = ap (outstanding p) e

nothing_set : (n : ℕ) (s : State) → s.timers ≡ [] → has_timer n s.timers ≡ false
unfolding has_timer
nothing_set n s e = ap (has_timer n) e

module _ (decode_jwt : Str → Option (Option ℕ)) (o : Options) where
  perform_event-IsKept :
      (e : Event) (s : State)
      → IsKept s
      → persists e s ≡ true
      → IsKept (perform_event decode_jwt o e s)
  unfolding perform_event enabled discovered token_acquired
  perform_event-IsKept (called now) s h ok = get_token-IsKept o.refresh_margin_seconds now s h
  perform_event-IsKept (found answer now) s h ok = inr (
      continue_get_token-IsActive o.refresh_margin_seconds now _ (
        discover_endpoints-endpoint o answer now s _ (ground arith),
        is_covered-discover o answer s ∙ is_covered_of_IsKept s h,
      ))
  perform_event-IsKept (explored answer) s h ok = inr (
    explored-endpoint o answer s (ground arith),
    is_covered-explored o answer s ∙ is_covered_of_IsKept s h,
  )
  perform_event-IsKept (answered p answer now) s (inl (e, r, d, c)) ok =
      absurd (ground (arith, nothing_outstanding p s r))
  perform_event-IsKept (answered p answer now) s (inr h) ok =
      inr (schedule_refresh-IsActive o.refresh_margin_seconds now _ h.0)
  perform_event-IsKept (failed p now) s (inl (e, r, d, c)) ok =
      absurd (ground (arith, nothing_outstanding p s r))
  perform_event-IsKept (failed p now) s (inr h) ok =
      inr (request_fails-IsActive p now s h (ground arith))
  perform_event-IsKept (fired t now) s (inl (e, r, d, c)) ok =
      absurd (ground (arith, nothing_set t.id s d))
  perform_event-IsKept (fired t now) s (inr h) ok = inr (on_timer-IsActive t now s h)
  perform_event-IsKept stops s h ok = stop-IsKept s h

  Run-IsKept : (s t : State) → Run decode_jwt o persists s t → IsKept s → IsKept t
  Run-IsKept s t Run.idle h = h
  Run-IsKept s t (Run.then_event e r ok) h = perform_event-IsKept e _ (Run-IsKept s _ r h) ok

  -- However the events follow on each other from the start, as long as no retry fails, no refresh fails
  -- after the token's end and no discovery document lacks the endpoint: a service that holds a token and
  -- is not stopped has a timer set or a request of a timer on its way.
  pub Run-is_refreshing :
      (t : State)
      → Run decode_jwt o persists new_service t
      → t.stopped ≡ false
      → is_set t.current_token ≡ true
      → is_refreshing t ≡ true
  Run-is_refreshing t r live held =
      let covered : is_covered t ≡ true =
        is_covered_of_IsKept t (Run-IsKept new_service t r (inl (refl, refl, refl, refl))) in
      ground arith

-- A timer is set that is due no earlier than the token stops being fresh, and the margin before the
-- token's end or a second after `now`.
abbrev pub IsScheduled : ℕ → ℕ → State → Type 0
IsScheduled margin now s =
    (t : Timer) × (s.refresh_timer ≡ some t.id)
    × (has_timer t.id s.timers ≡ true)
    × ((later : ℕ) → is_fresh margin later s ≡ true → later < t.due)
    × ((t.due + margin ≤ s.token_expires_at) ⊎ (t.due ≡ now + 1))

set_timer-IsScheduled :
    (margin now : ℕ) (s : State)
    → IsScheduled margin now (set_timer (now + max (s.token_expires_at - margin - now) 1) refresh s)
unfolding set_timer has_timer is_fresh
set_timer-IsScheduled margin now s = (
  record {
    id = s.next_timer;
    due = now + max (s.token_expires_at - margin - now) 1;
    kind = refresh;
  },
  refl,
  ground arith,
  λ later h. ground arith,
  ground arith,
)

clear_timer-end : (s : State) → (clear_timer s).token_expires_at ≡ s.token_expires_at
unfolding clear_timer
clear_timer-end s = ground arith

schedule_refresh-IsScheduled :
    (margin now : ℕ) (s : State)
    → s.stopped ≡ false
    → IsScheduled margin now (schedule_refresh margin now s)
unfolding schedule_refresh
schedule_refresh-IsScheduled margin now s live =
    let at : ℕ → State = λ e. set_timer (now + max (e - margin - now) 1) refresh (clear_timer s) in
    let opened : schedule_refresh margin now s ≡ at s.token_expires_at =
      ap (λ b. if b then s else at s.token_expires_at) live in
    subst (IsScheduled margin now) (ap at (clear_timer-end s) ∙ sym opened)
      (set_timer-IsScheduled margin now (clear_timer s))

-- A token that a service which is not stopped acquires is refreshed by a timer that is due no earlier
-- than getToken stops handing the token out, and the margin before the token's end or in a second.
pub token_acquired-IsScheduled :
    (decode_jwt : Str → Option (Option ℕ)) (margin now : ℕ) (answer : TokenResponse) (s : State)
    → s.stopped ≡ false
    → IsScheduled margin now (token_acquired decode_jwt margin now answer s)
unfolding token_acquired
token_acquired-IsScheduled decode_jwt margin now answer s live =
    schedule_refresh-IsScheduled margin now _ live
