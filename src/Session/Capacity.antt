-- ===== src/Session/Capacity.antt =====
-- The number of sessions that canton-context.ts keeps, and the one that it evicts.
use cantontrace.Base.{
  ℕ, ◌≤◌, ◌<◌, ◌≡◌, ◌≢◌, refl, sym, ap, ◌∙◌, List, [], ◌∷◌, Option, none, some, true, false, ◌||◌,
  ltb, leb, Str, ◌===◌, ===_iff, ===_refl, ===_ne, length, arith, includes, Distinct, Bool-cases,
  Option-cases, inl, inr,
}
use cantontrace.Base.Lookup.{
  keys, get, put, delete, get-put, includes-keys-put, length-put-le, length-put_of_some,
  length-delete, keys-put-Distinct, keys-delete-Distinct,
}
use cantontrace.Session.{
  max_sessions, SessionConnection, Store, disconnect_session, oldest, evict_oldest, make_room,
  set_active_connection,
}

module _ {C B O : Type 0} where
  -- At most fifty sessions, each under an id of its own that is not empty.
  pub record IsWellFormed (st : Store C B O) : Type 0 where
    pub bounded : length st.sessions ≤ max_sessions
    pub distinct : Distinct (keys st.sessions)
    pub named : includes [] (keys st.sessions) ≡ false

  includes_of_get :
      (k : Str) (m : List (Str × SessionConnection C B O))
      → includes k (keys m) ≡ true
      → get k m ≢ none
  unfolding includes get
  includes_of_get k [] h = λ e. cc
  includes_of_get k ((j, v) ∷ m) h = ground (arith, includes_of_get k m)

  includes-delete :
      (k x : Str) (m : List (Str × SessionConnection C B O))
      → includes x (keys m) ≡ false
      → includes x (keys (delete k m)) ≡ false
  unfolding delete includes
  includes-delete k x [] h = refl
  includes-delete k x ((j, w) ∷ m) h = ground (arith, includes-delete k x m)

  -- The oldest is the one that was found, or one of the entries.
  oldest-includes :
      (entries : List (Str × SessionConnection C B O)) (i : Str) (t : ℕ)
      → (j : Str) × (u : ℕ) × (oldest entries (some (i, t)) ≡ some (j, u))
        × ((j === i || includes j (keys entries)) ≡ true)
  unfolding oldest includes
  oldest-includes [] i t = (i, t, refl, ground (arith, ===_refl i))
  oldest-includes ((id, s) ∷ entries) i t = elim (Bool-cases (ltb s.last_active t)) [
    | inl e ↦
        let (j, u, found, there) = oldest-includes entries id s.last_active in
        (j, u, rw (oldest, e) found, ground (arith, ===_iff j id, ===_iff id j, there))
    | inr e ↦
        let (j, u, found, there) = oldest-includes entries i t in
        (j, u, rw (oldest, e) found, ground (arith, there))
  ]

  oldest-found :
      (entries : List (Str × SessionConnection C B O))
      → 0 < length entries
      → (j : Str) × (u : ℕ) × (oldest entries none ≡ some (j, u))
        × (includes j (keys entries) ≡ true)
  unfolding oldest includes
  oldest-found [] h = absurd (omega arith)
  oldest-found ((id, s) ∷ entries) h =
      let (j, u, found, there) = oldest-includes entries id s.last_active in
      (j, u, found, ground (arith, ===_iff j id, ===_iff id j, there))

  evict_oldest-some :
      (st : Store C B O)
      → IsWellFormed st
      → 0 < length st.sessions
      → (j : Str) × (v : SessionConnection C B O) × (get j st.sessions ≡ some v)
        × ((evict_oldest st).sessions ≡ delete j st.sessions)
  unfolding evict_oldest disconnect_session
  evict_oldest-some st h positive =
      let (j, u, found, there) = oldest-found st.sessions positive in
      let full : (j === []) ≡ false = ===_ne j [] (λ e.
        let clash : true ≡ false =
          sym there ∙ ap (λ k. includes k (keys st.sessions)) e ∙ h.named in
        cc) in
      elim (Option-cases (get j st.sessions)) [
        | inl e ↦ absurd (includes_of_get j st.sessions there e)
        | inr (v, e) ↦ (j, v, e, rw (evict_oldest, found, full, disconnect_session, e) refl)
      ]

  put-IsWellFormed :
      (id : Str) (s : SessionConnection C B O) (st : Store C B O)
      → id ≢ []
      → length (put id s st.sessions) ≤ max_sessions
      → Distinct (keys st.sessions)
      → includes [] (keys st.sessions) ≡ false
      → IsWellFormed (record st { sessions = put id s st.sessions })
  put-IsWellFormed id s st nonempty few d named = record {
    bounded = few;
    distinct = keys-put-Distinct id s st.sessions d;
    named =
        let full : (id === []) ≡ false = ===_ne id [] nonempty in
        includes-keys-put id [] s st.sessions ∙ rw full named;
  }

  -- A session that is to be added finds room.
  IsRoomy : Str → SessionConnection C B O → Store C B O → Type 0
  IsRoomy id s st =
      (length (put id s st.sessions) ≤ max_sessions)
      × Distinct (keys st.sessions)
      × (includes [] (keys st.sessions) ≡ false)

  make_room-IsRoomy :
      (id : Str) (s : SessionConnection C B O) (st : Store C B O)
      → IsWellFormed st
      → IsRoomy id s (make_room id st)
  unfolding make_room IsRoomy
  make_room-IsRoomy id s st h = elim (Bool-cases (includes id (keys st.sessions))) [
    | inl there ↦ elim (Option-cases (get id st.sessions)) [
      | inl e ↦ absurd (includes_of_get id st.sessions there e)
      | inr (v, e) ↦
          rw (make_room, there)
            (omega (arith, length-put_of_some id s v st.sessions e, h.bounded), h.distinct, h.named)
    ]
    | inr new ↦ elim (Bool-cases (leb max_sessions (length st.sessions))) [
      | inr few ↦
          rw (make_room, new, few)
            (ground (arith, length-put-le id s st.sessions), h.distinct, h.named)
      | inl full ↦
          let many : max_sessions ≤ length st.sessions = ground arith in
          let (j, v, e, left) = evict_oldest-some st h (omega arith) in
          rw (make_room, new, full, left)
            (
              omega (
                arith,
                length-put-le id s (delete j st.sessions),
                length-delete j v st.sessions e,
                h.bounded,
              ),
              keys-delete-Distinct j st.sessions h.distinct,
              includes-delete j [] st.sessions h.named,
            )
    ]
  ]

  -- Connecting a session leaves at most fifty sessions, under ids that are all different and not empty,
  -- and the session has the new client, if there were at most fifty such before and the id is not empty.
  pub set_active_connection-IsWellFormed :
      (now : ℕ) (id : Str) (client : C) (info : B) (oauth : Option O) (st : Store C B O)
      → id ≢ []
      → IsWellFormed st
      → IsWellFormed (set_active_connection now id client info oauth st)
        × (get id (set_active_connection now id client info oauth st).sessions
            ≡ some (record {
              client = client;
              bootstrap_info = info;
              oauth2_service = oauth;
              last_active = now;
            }))
  unfolding set_active_connection IsRoomy
  set_active_connection-IsWellFormed now id client info oauth st nonempty h =
      let s : SessionConnection C B O = record {
        client = client;
        bootstrap_info = info;
        oauth2_service = oauth;
        last_active = now;
      } in
      let (few, distinct, named) = make_room-IsRoomy id s st h in
      (
        put-IsWellFormed id s (make_room id st) nonempty few distinct named,
        get-put id id s (make_room id st).sessions ∙ rw (===_refl id) refl,
      )
