-- ===== src/Token.antt =====
-- OAuth2TokenService of api-gateway/src/services/oauth2.ts as a state machine. Times are in seconds, as
-- the service computes them; a timer is known by a number, and a call is split at its awaits.
pub mod Keycloak
pub mod Steps
pub mod Stopping
pub mod Refreshing
mod Tests
use cantontrace.Base.{
  ℕ, zero, suc, ◌+◌, ◌-◌, List, [], ◌∷◌, ◌++◌, Option, none, some, Str, text, Bool, true, false,
  not, ◌&&◌, ◌==◌, ltb, if◌then◌else◌, all, max,
}
use cantontrace.Base.Lookup.{put}

pub record Options : Type 0 where
  pub issuer_url : Str
  pub client_id : Str
  pub client_secret : Str
  pub audience : Option Str
  pub scopes : List Str
  pub refresh_margin_seconds : ℕ

-- `url.replace(/\/+$/, '')`.
unfoldable pub strip_slashes : Str → Str
strip_slashes [] = []
strip_slashes (c ∷ s) =
    let rest = strip_slashes s in if all (λ d. d == b'/') (c ∷ s) then [] else c ∷ rest

-- What the constructor keeps, with the defaults of options that are absent.
unfoldable pub options : Str → Str → Str → Option Str → Option (List Str) → Option ℕ → Options
options issuer_url client_id client_secret audience scopes margin = record {
  issuer_url = strip_slashes issuer_url;
  client_id = client_id;
  client_secret = client_secret;
  audience = audience;
  scopes = elim scopes [ none ↦ [] | some s ↦ s ];
  refresh_margin_seconds = elim margin [ none ↦ 30 | some m ↦ m ];
}

-- The timer that scheduleRefresh sets and the one for a retry.
pub data Kind : Type 0 where
  refresh retry : Kind

-- Who waits for a token request: a caller of getToken or the callback of a timer.
pub data Purpose : Type 0 where
  call : Purpose
  timed : Kind → Purpose

pub record Timer : Type 0 where
  pub id : ℕ
  pub due : ℕ
  pub kind : Kind

-- The fields of the service, then what is outstanding: timers, calls that wait for the discovery and
-- token requests; and how many requests were sent and which tokens the callback was given.
pub record State : Type 0 where
  pub token_endpoint : Option Str
  pub current_token : Option Str
  pub token_expires_at : ℕ
  pub refresh_timer : Option ℕ
  pub stopped : Bool
  pub timers : List Timer
  pub next_timer : ℕ
  pub discovering : ℕ
  pub requests : List Purpose
  pub sent : ℕ
  pub notified : List Str

abbrev pub new_service : State
new_service = record {
  token_endpoint = none;
  current_token = none;
  token_expires_at = 0;
  refresh_timer = none;
  stopped = false;
  timers = [];
  next_timer = 0;
  discovering = 0;
  requests = [];
  sent = 0;
  notified = [];
}

-- Whether an optional text is neither absent nor empty.
abbrev pub is_set : Option Str → Bool
is_set none = false
is_set (some []) = false
is_set (some (c ∷ s)) = true

-- `now < tokenExpiresAt - refreshMarginSeconds`, for a token that is held.
unfoldable pub is_fresh : ℕ → ℕ → State → Bool
is_fresh margin now s = is_set s.current_token && ltb (now + margin) s.token_expires_at

unfoldable pub has_valid_token : ℕ → State → Bool
has_valid_token now s = is_set s.current_token && ltb now s.token_expires_at

unfoldable pub drop_timer : ℕ → List Timer → List Timer
drop_timer n [] = []
drop_timer n (t ∷ ts) = if t.id == n then ts else t ∷ drop_timer n ts

-- `clearTimeout(this.refreshTimer)` and forgetting it.
unfoldable pub clear_timer : State → State
clear_timer s = elim s.refresh_timer [
  | none ↦ s
  | some n ↦ record s { refresh_timer = none; timers = drop_timer n s.timers }
]

-- `this.refreshTimer = setTimeout(...)`.
unfoldable pub set_timer : ℕ → Kind → State → State
set_timer due kind s = record s {
  refresh_timer = some s.next_timer;
  timers = record { id = s.next_timer; due = due; kind = kind } ∷ s.timers;
  next_timer = suc s.next_timer;
}

unfoldable pub stop : State → State
stop s = clear_timer (record s { stopped = true })

unfoldable pub schedule_refresh : ℕ → ℕ → State → State
schedule_refresh margin now s =
    if s.stopped
    then s
    else set_timer (now + max (s.token_expires_at - margin - now) 1) refresh (clear_timer s)

-- What becomes of a failed request: a caller gets the error, a refresh is tried again in 10 seconds
-- unless the token has expired, a retry is given up.
unfoldable pub request_fails : Purpose → ℕ → State → State
request_fails call now s = s
request_fails (timed refresh) now s =
    if ltb now s.token_expires_at then set_timer (now + 10) retry s else s
request_fails (timed retry) now s = s

-- acquireToken until it waits for the answer.
unfoldable pub begin_acquire : Purpose → ℕ → State → State
begin_acquire purpose now s =
    if is_set s.token_endpoint
    then record s { requests = purpose ∷ s.requests; sent = suc s.sent }
    else request_fails purpose now s

pub record TokenResponse : Type 0 where
  pub access_token : Str
  pub expires_in : Option ℕ

-- The end of the token by what `decodeJwt` gives of it: nothing when it throws, and an `exp` that may
-- be absent or 0.
abbrev pub lifetime : Option ℕ → ℕ
lifetime none = 300
lifetime (some zero) = 300
lifetime (some (suc n)) = suc n

unfoldable pub expiry : Option (Option ℕ) → Option ℕ → ℕ → ℕ
expiry (some (some (suc e))) expires_in now = suc e
expiry (some (some zero)) expires_in now = now + lifetime expires_in
expiry (some none) expires_in now = now + lifetime expires_in
expiry none expires_in now = now + lifetime expires_in

-- The rest of acquireToken after a good answer.
unfoldable pub token_acquired : (Str → Option (Option ℕ)) → ℕ → ℕ → TokenResponse → State → State
token_acquired decode_jwt margin now answer s = schedule_refresh margin now (record s {
  current_token = some answer.access_token;
  token_expires_at = expiry (decode_jwt answer.access_token) answer.expires_in now;
  notified = s.notified ++ answer.access_token ∷ [];
})

-- The first request of that purpose is no longer outstanding.
unfoldable pub settle : Purpose → List Purpose → List Purpose
settle p [] = []
settle call (call ∷ ps) = ps
settle (timed refresh) (timed refresh ∷ ps) = ps
settle (timed retry) (timed retry ∷ ps) = ps
settle p (q ∷ ps) = q ∷ settle p ps

abbrev pub finish_request : Purpose → State → State
finish_request p s = record s { requests = settle p s.requests }

-- What getToken does with its caller.
pub data Reply : Type 0 where
  waits : Reply
  returns : Option Str → Reply
  throws : Reply

-- getToken from the point where the endpoint is known.
unfoldable pub continue_get_token : ℕ → ℕ → State → Reply × State
continue_get_token margin now s =
    if is_fresh margin now s
    then (returns s.current_token, s)
    else (if is_set s.token_endpoint then waits else throws, begin_acquire call now s)

unfoldable pub get_token : ℕ → ℕ → State → Reply × State
get_token margin now s =
    if s.stopped
    then (throws, s)
    else if is_set s.token_endpoint
    then continue_get_token margin now s
    else (waits, record s { discovering = suc s.discovering })

-- discoverEndpoints: the document's `token_endpoint`, which may be absent, or the fallback.
unfoldable pub discover_endpoints : Options → Option (Option Str) → State → State
discover_endpoints o (some endpoint) s = record s { token_endpoint = endpoint }
discover_endpoints o none s = record s {
  token_endpoint = some (o.issuer_url ++ text "/protocol/openid-connect/token");
}

-- getToken when the discovery is done.
unfoldable pub discovered : Options → Option (Option Str) → ℕ → State → Reply × State
discovered o answer now s =
    continue_get_token o.refresh_margin_seconds now
      (discover_endpoints o answer (record s { discovering = s.discovering - 1 }))

-- The callbacks of both timers.
unfoldable pub on_timer : Timer → ℕ → State → State
on_timer t now s =
    let fired : State = record s { timers = drop_timer t.id s.timers } in
    if s.stopped then fired else begin_acquire (timed t.kind) now fired

-- The body of a token request.
unfoldable pub join_scopes : List Str → Str
join_scopes [] = []
join_scopes (s ∷ []) = s
join_scopes (s ∷ t ∷ ss) = s ++ b' ' ∷ join_scopes (t ∷ ss)

unfoldable pub token_params : Options → List (Str × Str)
token_params o =
    let grant =
      (text "grant_type", text "client_credentials")
      ∷ (text "client_id", o.client_id)
      ∷ (text "client_secret", o.client_secret)
      ∷ [] in
    let for_audience = add_audience o.audience grant in add_scopes o.scopes for_audience
  where
    add_audience : Option Str → List (Str × Str) → List (Str × Str)
    add_audience none params = params
    add_audience (some []) params = params
    add_audience (some (c ∷ s)) params = put (text "audience") (c ∷ s) params

    add_scopes : List Str → List (Str × Str) → List (Str × Str)
    add_scopes [] params = params
    add_scopes (s ∷ ss) params = put (text "scope") (join_scopes (s ∷ ss)) params
