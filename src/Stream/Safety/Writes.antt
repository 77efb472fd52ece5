-- ===== src/Stream/Safety/Writes.antt =====
-- Writes to objects and streams of event-stream.ts that keep the safety of the manager.
use mathlib.Core.Path.{subst}
use mathlib.Core.Option.{some_inj}
use cantontrace.Base.{
  ℕ, ◌<◌, ◌≡◌, ◌≢◌, refl, sym, ap, ◌∙◌, [], Option, none, some, Bool, true, false, ◌==◌, arith,
  Bool-cases, inl, inr,
}
use cantontrace.Base.Lookup.{get}
use cantontrace.Stream.{
  Manager, Stream, Subscription, Phase, running, cancelled, over, set_object, set_phase,
  after_cancel, cancel_stream,
}
use cantontrace.Stream.Safety.{is_live, is_running, IsEntry, IsSafe}

pub ==-true : (i n : ℕ) → (i == n) ≡ true → i ≡ n
==-true i n e = ground arith

module _ (n : ℕ) (s : Subscription) (m : Manager) where
  -- What a new value of the object `n` must respect.
  pub record IsFitting : Type 0 where
    pub same_id : s.id ≡ (m.object n).id
    pub sockets : s.websockets ≢ [] → IsEntry m n
    pub active :
        (k : ℕ)
        → is_live (m.stream k).phase ≡ true
        → (m.stream k).owner ≡ n
        → IsEntry m n
        → s.is_active ≡ true
    pub cancels :
        (k : ℕ) → is_running (m.stream k).phase ≡ true → (m.stream k).owner ≡ n → s.cancel ≡ some k

  pub object-id :
      s.id ≡ (m.object n).id → (i : ℕ) → ((set_object n s m).object i).id ≡ (m.object i).id
  unfolding set_object
  object-id e i = elim (Bool-cases (i == n)) [
    | inl here ↦ rw (set_object, here) (e ∙ ap (λ j. (m.object j).id) (sym (==-true i n here)))
    | inr away ↦ rw (set_object, away) refl
  ]

  pub object-here : (i : ℕ) → (i == n) ≡ true → (set_object n s m).object i ≡ s
  unfolding set_object
  object-here i here = rw (set_object, here) refl

  pub object-away : (i : ℕ) → (i == n) ≡ false → (set_object n s m).object i ≡ m.object i
  unfolding set_object
  object-away i away = rw (set_object, away) refl

  -- The entries stay what they are.
  pub IsEntry-set_object :
      s.id ≡ (m.object n).id → (i : ℕ) → IsEntry m i → IsEntry (set_object n s m) i
  unfolding set_object
  IsEntry-set_object e i h = ap (λ x. get x m.subscriptions) (object-id e i) ∙ h

  IsEntry-unset : s.id ≡ (m.object n).id → (i : ℕ) → IsEntry (set_object n s m) i → IsEntry m i
  unfolding set_object
  IsEntry-unset e i h = ap (λ x. get x m.subscriptions) (sym (object-id e i)) ∙ h

  pub set_object-IsSafe : IsFitting → IsSafe m → IsSafe (set_object n s m)
  unfolding set_object
  set_object-IsSafe fit safe = record {
    distinct = safe.distinct;
    keyed = λ id i e. (object-id fit.same_id i ∙ (safe.keyed id i e).0, (safe.keyed id i e).1);
    attached = λ i h. IsEntry-set_object fit.same_id i (elim (Bool-cases (i == n)) [
      | inl here ↦
          subst (IsEntry m) (sym (==-true i n here))
            (fit.sockets (λ e. h (ap (λ o. o.websockets) (object-here i here) ∙ e)))
      | inr away ↦ safe.attached i (λ e. h (ap (λ o. o.websockets) (object-away i away) ∙ e))
    ]);
    allocated = safe.allocated;
    owned = λ k h. (
      IsEntry-set_object fit.same_id (m.stream k).owner (safe.owned k h).0,
      elim (Bool-cases ((m.stream k).owner == n)) [
        | inl here ↦
            ap (λ o. o.cancel) (object-here (m.stream k).owner here)
            ∙ fit.cancels k h (==-true _ n here)
        | inr away ↦ ap (λ o. o.cancel) (object-away (m.stream k).owner away) ∙ (safe.owned k h).1
      ],
    );
    busy = λ k h entry.
        let before : IsEntry m (m.stream k).owner =
          IsEntry-unset fit.same_id (m.stream k).owner entry in
        elim (Bool-cases ((m.stream k).owner == n)) [
          | inl here ↦
              ap (λ o. o.is_active) (object-here (m.stream k).owner here)
              ∙ fit.active k h (==-true _ n here) (subst (IsEntry m) (==-true _ n here) before)
          | inr away ↦
              ap (λ o. o.is_active) (object-away (m.stream k).owner away) ∙ safe.busy k h before
        ];
    single = safe.single;
  }

-- An object that keeps its id, its stream and whether it is active, and has no socket that is new.
pub set_object-IsSafe_mild :
    (n : ℕ) (s : Subscription) (m : Manager)
    → s.id ≡ (m.object n).id
    → s.cancel ≡ (m.object n).cancel
    → s.is_active ≡ (m.object n).is_active
    → (s.websockets ≢ [] → IsEntry m n)
    → IsSafe m
    → IsSafe (set_object n s m)
set_object-IsSafe_mild n s m id cancel active sockets safe =
    set_object-IsSafe n s m
      (record {
        same_id = id;
        sockets = sockets;
        active = λ k h own entry.
            active
            ∙ subst (λ i. IsEntry m i → (m.object i).is_active ≡ true) own (safe.busy k h) entry;
        cancels =
            λ k h own. cancel ∙ subst (λ i. (m.object i).cancel ≡ some k) own (safe.owned k h).1;
      })
      safe

-- Streams that keep their owners, none of which becomes live or running.
streams-IsSafe :
    (f : ℕ → Stream) (m : Manager)
    → ((i : ℕ) → (f i).owner ≡ (m.stream i).owner)
    → ((i : ℕ) → is_live (f i).phase ≡ true → is_live (m.stream i).phase ≡ true)
    → ((i : ℕ) → is_running (f i).phase ≡ true → is_running (m.stream i).phase ≡ true)
    → IsSafe m
    → IsSafe (record m { stream = f })
streams-IsSafe f m own live runs safe = record {
  distinct = safe.distinct;
  keyed = safe.keyed;
  attached = safe.attached;
  allocated = λ i h.
      subst (λ n. (i < m.next_stream) × (n < m.next_object)) (sym (own i))
        (safe.allocated i (live i h));
  owned = λ i h.
      subst (λ n. IsEntry m n × ((m.object n).cancel ≡ some i)) (sym (own i))
        (safe.owned i (runs i h));
  busy = λ i h.
      subst (λ n. IsEntry m n → (m.object n).is_active ≡ true) (sym (own i))
        (safe.busy i (live i h));
  single = λ i j hi hj e. safe.single i j (live i hi) (live j hj) (sym (own i) ∙ e ∙ own j);
}

module _ (k : ℕ) (p : Phase) (m : Manager) where
  pub owner-set_phase : (i : ℕ) → ((set_phase k p m).stream i).owner ≡ (m.stream i).owner
  unfolding set_phase
  owner-set_phase i = elim (Bool-cases (i == k)) [
    | inl here ↦ rw (set_phase, here) refl
    | inr away ↦ rw (set_phase, away) refl
  ]

  -- A property of phases that the new one has only if the old one has it.
  pub phase-set_phase :
      (P : Phase → Bool)
      → (P p ≡ true → P (m.stream k).phase ≡ true)
      → (i : ℕ) → P ((set_phase k p m).stream i).phase ≡ true
      → P (m.stream i).phase ≡ true
  unfolding set_phase
  phase-set_phase P back i = elim (Bool-cases (i == k)) [
    | inl here ↦
        rw (set_phase, here) (λ h. ap (λ j. P (m.stream j).phase) (==-true i k here) ∙ back h)
    | inr away ↦ rw (set_phase, away) (λ h. h)
  ]

  pub phase-set_phase_here : ((set_phase k p m).stream k).phase ≡ p
  unfolding set_phase
  phase-set_phase_here = let here : (k == k) ≡ true = ground arith in rw (set_phase, here) refl

  -- A stream goes from its phase to one that is no more live and no more running.
  pub set_phase-IsSafe :
      (is_live p ≡ true → is_live (m.stream k).phase ≡ true)
      → (is_running p ≡ true → is_running (m.stream k).phase ≡ true)
      → IsSafe m
      → IsSafe (set_phase k p m)
  unfolding set_phase
  set_phase-IsSafe live runs safe =
      streams-IsSafe _ m owner-set_phase (phase-set_phase is_live live)
        (phase-set_phase is_running runs) safe

-- No stream of the object is live, or running.
abbrev pub IsQuiet : ℕ → Manager → Type 0
IsQuiet n m = (k : ℕ) → is_live (m.stream k).phase ≡ true → (m.stream k).owner ≢ n

abbrev pub IsStill : ℕ → Manager → Type 0
IsStill n m = (k : ℕ) → is_running (m.stream k).phase ≡ true → (m.stream k).owner ≢ n

pub true-ne-false : {b : Bool} → b ≡ true → b ≡ false → ⊥
true-ne-false h k = cc

live-after_cancel : (p : Phase) → is_live (after_cancel p) ≡ true → is_live p ≡ true
live-after_cancel running h = refl
live-after_cancel cancelled h = refl
live-after_cancel over h = h

runs-after_cancel : (p : Phase) → is_running (after_cancel p) ≡ false
runs-after_cancel running = refl
runs-after_cancel cancelled = refl
runs-after_cancel over = refl

pub cancel_stream-IsSafe : (c : Option ℕ) (m : Manager) → IsSafe m → IsSafe (cancel_stream c m)
unfolding cancel_stream
cancel_stream-IsSafe none m safe = safe
cancel_stream-IsSafe (some k) m safe =
    set_phase-IsSafe k _ m (live-after_cancel (m.stream k).phase)
      (λ h. absurd (true-ne-false h (runs-after_cancel (m.stream k).phase))) safe

-- Cancelling what an object has for its stream leaves no running one.
pub cancel_stream-IsStill :
    (n : ℕ) (m : Manager) → IsSafe m → IsStill n (cancel_stream (m.object n).cancel m)
unfolding cancel_stream
cancel_stream-IsStill n m safe = go (m.object n).cancel refl
  where
    has_running :
        (j : ℕ)
        → is_running (m.stream j).phase ≡ true
        → (m.stream j).owner ≡ n
        → (m.object n).cancel ≡ some j
    has_running j h own = subst (λ i. (m.object i).cancel ≡ some j) own (safe.owned j h).1

    go : (c : Option ℕ) → (m.object n).cancel ≡ c → IsStill n (cancel_stream c m)
    go none e j h own = let found : (m.object n).cancel ≡ some j = has_running j h own in cc
    go (some k) e j h own =
        let before : is_running (m.stream j).phase ≡ true =
          phase-set_phase k _ m is_running
            (λ r. absurd (true-ne-false r (runs-after_cancel (m.stream k).phase))) j h in
        let found : (m.object n).cancel ≡ some j =
          has_running j before (sym (owner-set_phase k _ m j) ∙ own) in
        let same : j ≡ k = some_inj.0 (sym found ∙ e) in
        true-ne-false h (
          ap is_running (
            ap (λ i. ((set_phase k (after_cancel (m.stream k).phase) m).stream i).phase) same
            ∙ phase-set_phase_here k _ m)
          ∙ runs-after_cancel (m.stream k).phase)
