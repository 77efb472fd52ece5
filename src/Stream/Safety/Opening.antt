-- ===== src/Stream/Safety/Opening.antt =====
-- New subscriptions and new streams of event-stream.ts.
use mathlib.Core.Path.{subst}
use cantontrace.Base.{
  ℕ, suc, ◌<◌, ◌≡◌, ◌≢◌, refl, sym, ap, ◌∙◌, none, some, Str, true, false, ◌==◌, arith, Bool-cases,
  inl, inr, ◌===◌, ===_iff, ===_refl,
}
use cantontrace.Base.Lookup.{get, put, get-put, get_of_get-put, get-put_of_get, keys-put-Distinct}
use cantontrace.Stream.{Manager, Subscription, Phase, running, cancelled, over, set_object}
use cantontrace.Stream.Safety.{is_live, is_running, IsEntry, IsSafe}
use cantontrace.Stream.Safety.Writes.{==-true, object-here, object-away}

pub live_of_running : (p : Phase) → is_running p ≡ true → is_live p ≡ true
live_of_running running h = refl
live_of_running cancelled h = refl
live_of_running over h = h

apart : {i n : ℕ} → (i == n) ≡ false → i ≢ n
apart away e = ground arith

unequal : {i n : ℕ} → i ≢ n → (i == n) ≡ false
unequal ne = ground arith

below : {i n : ℕ} → i < n → i ≢ n
below l e = omega arith

-- A subscription object that is allocated and entered under a free id.
module _ (id : Str) (s : Subscription) (m : Manager) where
  abbrev pub entered : Manager
  entered = set_object m.next_object s (record m {
    subscriptions = put id m.next_object m.subscriptions;
    next_object = suc m.next_object;
  })

  pub entered-IsEntry : s.id ≡ id → IsEntry entered m.next_object
  unfolding set_object
  entered-IsEntry named =
      ap (λ o. get o.id (put id m.next_object m.subscriptions))
        (object-here m.next_object s m m.next_object (ground arith))
      ∙ ap (λ x. get x (put id m.next_object m.subscriptions)) named
      ∙ get-put id id m.next_object m.subscriptions
      ∙ rw (===_refl id) refl

  pub entered-IsSafe : get id m.subscriptions ≡ none → s.id ≡ id → IsSafe m → IsSafe entered
  unfolding set_object
  entered-IsSafe free named safe = record {
    distinct = keys-put-Distinct id m.next_object m.subscriptions safe.distinct;
    keyed = λ x i e. elim (Bool-cases (i == m.next_object)) [
      | inl here ↦ (
        ap (λ o. o.id) (object-here m.next_object s m i here)
            ∙ named
            ∙ found x i e (==-true i m.next_object here),
        (let same : i ≡ m.next_object = ==-true i m.next_object here in omega arith),
      )
      | inr away ↦
          let old : get x m.subscriptions ≡ some i =
            get_of_get-put id x m.next_object i m.subscriptions (apart away) e in
          let bound : i < m.next_object = (safe.keyed x i old).1 in
          (
            ap (λ o. o.id) (object-away m.next_object s m i away) ∙ (safe.keyed x i old).0,
            omega arith,
          )
    ];
    attached = λ i h. elim (Bool-cases (i == m.next_object)) [
      | inl here ↦
          subst (IsEntry entered) (sym (==-true i m.next_object here)) (entered-IsEntry named)
      | inr away ↦ kept i (apart away) (
          safe.attached i
            (λ e. h (ap (λ o. o.websockets) (object-away m.next_object s m i away) ∙ e)))
    ];
    allocated = λ k h.
        let bound : (m.stream k).owner < m.next_object = (safe.allocated k h).1 in
        ((safe.allocated k h).0, omega arith);
    owned = λ k h.
        let ne : (m.stream k).owner ≢ m.next_object =
          below (safe.allocated k (live_of_running _ h)).1 in
        (
          kept (m.stream k).owner ne (safe.owned k h).0,
          ap (λ o. o.cancel) (object-away m.next_object s m (m.stream k).owner (unequal ne))
              ∙ (safe.owned k h).1,
        );
    busy = λ k h entry.
        let ne : (m.stream k).owner ≢ m.next_object = below (safe.allocated k h).1 in
        let same : (set_object m.next_object s m).object (m.stream k).owner
            ≡ m.object (m.stream k).owner =
          object-away m.next_object s m (m.stream k).owner (unequal ne) in
        ap (λ o. o.is_active) same
        ∙ safe.busy k h (
            get_of_get-put id (m.object (m.stream k).owner).id m.next_object (m.stream k).owner
              m.subscriptions ne
              (ap (λ o. get o.id (put id m.next_object m.subscriptions)) (sym same) ∙ entry));
    single = safe.single;
  }
    where
      kept :
          (i : ℕ)
          → i ≢ m.next_object
          → IsEntry m i
          → get ((set_object m.next_object s m).object i).id (put id m.next_object m.subscriptions)
            ≡ some i
      kept i ne entry =
          ap (λ o. get o.id (put id m.next_object m.subscriptions))
            (object-away m.next_object s m i (unequal ne))
          ∙ get-put_of_get id (m.object i).id m.next_object i m.subscriptions free entry

      found :
          (x : Str) (i : ℕ)
          → get x (put id m.next_object m.subscriptions) ≡ some i
          → i ≡ m.next_object
          → id ≡ x
      found x i e here = elim (Bool-cases (id === x)) [
        | inl same ↦ (===_iff id x).0 same
        | inr other ↦
            let old : get x m.subscriptions ≡ some i =
              sym (get-put {V = ℕ} id x m.next_object m.subscriptions ∙ rw other refl) ∙ e in
            absurd (below (safe.keyed x i old).1 here)
      ]
