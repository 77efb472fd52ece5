-- ===== src/Session/Release.antt =====
-- The sessions that canton-context.ts lets go: when they were idle for too long, and all at the end.
use cantontrace.Base.{
  ℕ, ◌-◌, ◌≡◌, refl, sym, ap, ◌∙◌, List, [], ◌∷◌, ◌++◌, Option, none, some, Bool, true, false, ◌&&◌,
  ◌||◌, ltb, if◌then◌else◌, Str, ◌===◌, ===_iff, ===_refl, arith, append-nil, append_assoc, map,
  includes, Distinct, Bool-cases, Option-cases, inl, inr,
}
use cantontrace.Base.Lookup.{keys, values, get, delete, get-delete, keys-delete-Distinct}
use cantontrace.Session.{
  session_timeout_ms, SessionConnection, Store, listed, disconnect_session, cleanup_from, cleanup,
  disconnect_ids, disconnect_all_sessions,
}

module _ {C B O : Type 0} where
  abbrev idle : ℕ → SessionConnection C B O → Bool
  idle now s = ltb session_timeout_ms (now - s.last_active)

  disconnect_session-get :
      (id x : Str) (st : Store C B O)
      → Distinct (keys st.sessions)
      → (get x (disconnect_session id st).sessions ≡ (if id === x then none else get x st.sessions))
        × Distinct (keys (disconnect_session id st).sessions)
  unfolding disconnect_session
  disconnect_session-get id x st d = elim (Option-cases (get id st.sessions)) [
    | inr (s, e) ↦
        rw (disconnect_session, e)
          (get-delete id x st.sessions d, keys-delete-Distinct id st.sessions d)
    | inl e ↦ rw (disconnect_session, e) (absent e, d)
  ]
    where
      absent :
          get id st.sessions ≡ none
          → get x st.sessions ≡ (if id === x then none else get x st.sessions)
      absent e = elim (Bool-cases (id === x)) [
        | inr ne ↦ rw ne refl
        | inl same ↦ rw same (ap (λ k. get k st.sessions) (sym ((===_iff id x).0 same)) ∙ e)
      ]

  idle_under : ℕ → Str → List (Str × SessionConnection C B O) → Bool
  idle_under now x [] = false
  idle_under now x ((id, s) ∷ entries) = idle now s && id === x || idle_under now x entries

  get-cleanup_from :
      (now : ℕ) (x : Str) (entries : List (Str × SessionConnection C B O)) (st : Store C B O)
      → Distinct (keys st.sessions)
      → get x (cleanup_from now entries st).sessions
        ≡ (if idle_under now x entries then none else get x st.sessions)
  unfolding cleanup_from idle_under
  get-cleanup_from now x [] st d = refl
  get-cleanup_from now x ((id, s) ∷ entries) st d = elim (Bool-cases (idle now s)) [
    | inr busy ↦ rw (cleanup_from, idle_under, busy) (get-cleanup_from now x entries st d)
    | inl over ↦
        let (gone, d') = disconnect_session-get id x st d in
        let rest : get x (cleanup_from now entries (disconnect_session id st)).sessions ≡ (
            if idle_under now x entries then none else get x (disconnect_session id st).sessions) =
          get-cleanup_from now x entries (disconnect_session id st) d' in
        rw (cleanup_from, idle_under, over)
          (rest ∙ rw gone (either (id === x) (idle_under now x entries) (get x st.sessions)))
  ]
    where
      either :
          (a b : Bool) (v : Option (SessionConnection C B O))
          → (if b then none else (if a then none else v)) ≡ (if a || b then none else v)
      either true true v = refl
      either true false v = refl
      either false b v = refl

  -- A session, unless it was idle for too long.
  abbrev pub unless_idle : ℕ → Option (SessionConnection C B O) → Option (SessionConnection C B O)
  unless_idle now none = none
  unless_idle now (some s) = if ltb session_timeout_ms (now - s.last_active) then none else some s

  idle_under-absent :
      (now : ℕ) (x : Str) (m : List (Str × SessionConnection C B O))
      → includes x (keys m) ≡ false
      → idle_under now x m ≡ false
  unfolding idle_under includes
  idle_under-absent now x [] h = refl
  idle_under-absent now x ((id, s) ∷ m) h = ground (arith, idle_under-absent now x m)

  idle_under-get :
      (now : ℕ) (x : Str) (m : List (Str × SessionConnection C B O))
      → Distinct (keys m)
      → (if idle_under now x m then none else get x m) ≡ unless_idle now (get x m)
  unfolding idle_under get
  idle_under-get now x [] d = refl
  idle_under-get now x ((id, s) ∷ m) (h, d) = elim (Bool-cases (id === x)) [
    | inr other ↦ elim (Bool-cases (idle now s)) [
      | inl over ↦ rw (idle_under, get, other, over) (idle_under-get now x m d)
      | inr busy ↦ rw (idle_under, get, other, busy) (idle_under-get now x m d)
    ]
    | inl same ↦
        let absent : idle_under now x m ≡ false =
          idle_under-absent now x m
            (ap (λ k. includes k (keys m)) (sym ((===_iff id x).0 same)) ∙ h) in
        elim (Bool-cases (idle now s)) [
          | inl over ↦ rw (idle_under, get, same, over) refl
          | inr busy ↦ rw (idle_under, get, same, busy, absent) refl
        ]
  ]

  -- The timer's round keeps exactly the sessions that were active in the last thirty minutes, if the
  -- ids are all different.
  pub get-cleanup :
      (now : ℕ) (x : Str) (st : Store C B O)
      → Distinct (keys st.sessions)
      → get x (cleanup now st).sessions ≡ unless_idle now (get x st.sessions)
  unfolding cleanup
  get-cleanup now x st d =
      get-cleanup_from now x st.sessions st d ∙ idle_under-get now x st.sessions d

  released :
      (m : List (Str × SessionConnection C B O)) (clients : List C) (services : List O)
      → (let st =
            disconnect_ids
              (keys m)
              (record { sessions = m; disconnected = clients; stopped = services }) in
          (st.sessions ≡ []) × (st.disconnected ≡ clients ++ map (λ s. s.client) (values m)))
  unfolding disconnect_ids disconnect_session get delete
  released [] clients services = (refl, sym (append-nil clients))
  released ((id, s) ∷ m) clients services =
      let (none_left, all) =
        released m (clients ++ s.client ∷ []) (services ++ listed s.oauth2_service) in
      rw (disconnect_ids, disconnect_session, get, ===_refl id, delete, ===_refl id)
        (none_left, all ∙ append_assoc clients (s.client ∷ []) (map (λ s. s.client) (values m)))

  -- At the end no session is left, and every client was disconnected, each in its turn.
  pub disconnect_all_sessions-released :
      (st : Store C B O)
      → ((disconnect_all_sessions st).sessions ≡ [])
        × ((disconnect_all_sessions st).disconnected
            ≡ st.disconnected ++ map (λ s. s.client) (values st.sessions))
  unfolding disconnect_all_sessions
  disconnect_all_sessions-released st = released st.sessions st.disconnected st.stopped
