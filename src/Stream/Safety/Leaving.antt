-- ===== src/Stream/Safety/Leaving.antt =====
-- What unsubscribing leaves in event-stream.ts.
use cantontrace.Base.{
  ℕ, ◌≡◌, refl, sym, ap, ◌∙◌, List, [], ◌∷◌, none, some, Str, Bool, false, ◌&&◌, if◌then◌else◌,
  keep, includes, ◌===◌, ===_iff, ===_refl, arith, Bool-cases, inl, inr, length,
}
use cantontrace.Base.Lookup.{keys, get, get-eq-none}
use cantontrace.Stream.{
  Manager, unsubscribe_for_session, unsubscribe_each, unsubscribe_all, starts_with, session_prefix,
  get_active_subscription_count,
}
use cantontrace.Stream.Steps.{Reach}
use cantontrace.Stream.Safety.{IsSafe, is_running}
use cantontrace.Stream.Safety.Operations.{unsubscribe_each-IsSafe}
use cantontrace.Stream.Safety.Reachable.{Reach-IsSafe, unsubscribe_each-subscriptions}

some-ne-none : {n : ℕ} → some n ≡ none → ⊥
some-ne-none h = cc

includes-keep :
    (p : Str → Bool) (x : Str) (l : List Str) → includes x (keep p l) ≡ (p x && includes x l)
unfolding includes
includes-keep p x [] = elim (Bool-cases (p x)) [ inl e ↦ rw e refl | inr e ↦ rw e refl ]
includes-keep p x (y ∷ l) = elim (Bool-cases (y === x)) [
  | inl same ↦
      let e : y ≡ x = (===_iff y x).0 same in rw e (ground (arith, includes-keep p x l, ===_refl x))
  | inr other ↦ ground (arith, includes-keep p x l)
]

-- In a state that the manager reaches while no mapping of an update throws, unsubscribing for a
-- session takes exactly the subscriptions away whose ids start with `ws-`, the session and a dash; no
-- stream runs afterwards for an object with such an id.
pub unsubscribe_for_session-subscriptions :
    (session : Str) (m : Manager)
    → Reach m
    → ((x : Str)
        → get x (unsubscribe_for_session session m).subscriptions
          ≡ (if starts_with (session_prefix session) x then none else get x m.subscriptions))
      × ((k : ℕ)
          → (is_running ((unsubscribe_for_session session m).stream k).phase
              && starts_with
                  (session_prefix session)
                  ((unsubscribe_for_session session m).object
                    ((unsubscribe_for_session session m).stream k).owner).id)
            ≡ false)
unfolding unsubscribe_for_session
unsubscribe_for_session-subscriptions session m r = (left, silent)
  where
    p : Str → Bool
    p = starts_with (session_prefix session)

    safe : IsSafe m
    safe = Reach-IsSafe r

    left :
        (x : Str)
        → get x (unsubscribe_each (keep p (keys m.subscriptions)) m).subscriptions
          ≡ (if p x then none else get x m.subscriptions)
    left x =
        unsubscribe_each-subscriptions (keep p (keys m.subscriptions)) m safe x
        ∙ elim (Bool-cases (includes x (keys m.subscriptions))) [
          | inl there ↦ rw (includes-keep p x (keys m.subscriptions), there) (ground arith)
          | inr gone ↦
              rw
                (includes-keep p x (keys m.subscriptions), gone, get-eq-none x m.subscriptions gone)
                (ground arith)
        ]

    after : IsSafe (unsubscribe_each (keep p (keys m.subscriptions)) m)
    after = unsubscribe_each-IsSafe (keep p (keys m.subscriptions)) m safe

    later : Manager
    later = unsubscribe_each (keep p (keys m.subscriptions)) m

    silent :
        (k : ℕ)
        → (is_running (later.stream k).phase && p (later.object (later.stream k).owner).id) ≡ false
    silent k = elim (Bool-cases (is_running (later.stream k).phase)) [
      | inr e ↦ rw e refl
      | inl e ↦ elim (Bool-cases (p (later.object (later.stream k).owner).id)) [
        | inr q ↦ rw (e, q) refl
        | inl q ↦
            let entry = (after.owned k e).0 in
            let none_left = left (later.object (later.stream k).owner).id ∙ rw q refl in
            absurd (some-ne-none (sym entry ∙ none_left))
      ]
    ]

eq_of_get-none : (l : List (Str × ℕ)) → ((x : Str) → get x l ≡ none) → l ≡ []
unfolding get
eq_of_get-none [] h = refl
eq_of_get-none ((k, n) ∷ l) h =
    let here : (if k === k then some n else get k l) ≡ none = h k in ground (arith, ===_refl k)

-- In a state that the manager reaches while no mapping of an update throws, unsubscribing from all
-- leaves no subscription and no stream that runs, and the count of active subscriptions is zero.
pub unsubscribe_all-silent :
    (m : Manager)
    → Reach m
    → ((unsubscribe_all m).subscriptions ≡ [])
      × ((k : ℕ) → is_running ((unsubscribe_all m).stream k).phase ≡ false)
      × (get_active_subscription_count (unsubscribe_all m) ≡ 0)
unfolding unsubscribe_all get_active_subscription_count get
unsubscribe_all-silent m r = (nothing, silent, ap length nothing)
  where
    safe : IsSafe m
    safe = Reach-IsSafe r

    nothing : (unsubscribe_each (keys m.subscriptions) m).subscriptions ≡ []
    nothing = eq_of_get-none _ (λ x.
        unsubscribe_each-subscriptions (keys m.subscriptions) m safe x
        ∙ elim (Bool-cases (includes x (keys m.subscriptions))) [
          | inl there ↦ rw there refl
          | inr gone ↦ rw (gone, get-eq-none x m.subscriptions gone) refl
        ])

    silent :
        (k : ℕ) → is_running ((unsubscribe_each (keys m.subscriptions) m).stream k).phase ≡ false
    silent k =
        elim (Bool-cases
          (is_running ((unsubscribe_each (keys m.subscriptions) m).stream k).phase)) [
            | inl e ↦
                let entry = ((unsubscribe_each-IsSafe (keys m.subscriptions) m safe).owned k e).0 in
                let empty =
                  ap
                    (λ l.
                      get
                        ((unsubscribe_each (keys m.subscriptions) m).object
                          ((unsubscribe_each (keys m.subscriptions) m).stream k).owner).id
                        l)
                    nothing in
                absurd (some-ne-none (sym entry ∙ empty))
            | inr e ↦ e
          ]
