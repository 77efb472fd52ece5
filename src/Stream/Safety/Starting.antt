-- ===== src/Stream/Safety/Starting.antt =====
-- Opening the stream of a subscription of event-stream.ts.
use mathlib.Core.Path.{subst}
use cantontrace.Base.{
  ℕ, suc, ◌<◌, ◌≡◌, refl, sym, ap, ◌∙◌, List, Option, none, some, Str, Bool, true, false, ◌==◌,
  if◌then◌else◌, arith, Bool-cases, inl, inr,
}
use cantontrace.Base.Lookup.{get}
use cantontrace.Ledger.{EventStreamFilter}
use cantontrace.Stream.{
  Manager, Stream, Subscription, set_object, open_stream, request_of, start_stream, greet,
  subscribe_to_event_stream,
}
use cantontrace.Stream.Safety.{IsEntry, IsSafe}
use cantontrace.Stream.Safety.Writes.{
  ==-true, object-here, IsQuiet, set_object-IsSafe, set_object-IsSafe_mild, true-ne-false,
  IsEntry-set_object,
}
use cantontrace.Stream.Safety.Entries.{unsubscribe_from_event_stream-IsSafe, logs-IsSafe}
use cantontrace.Stream.Safety.Opening.{live_of_running, entered-IsSafe, entered-IsEntry}

-- A stream that is opened for the object `n`, which has no live one.
module _ (n : ℕ) (st : Stream) (m : Manager) where
  abbrev pub flowing : Manager
  flowing = record m {
    stream = λ i. if i == m.next_stream then st else m.stream i;
    next_stream = suc m.next_stream;
  }

  flowing-IsSafe :
      st.owner ≡ n
      → IsEntry m n
      → n < m.next_object
      → (m.object n).cancel ≡ some m.next_stream
      → (m.object n).is_active ≡ true
      → IsQuiet n m
      → IsSafe m
      → IsSafe flowing
  flowing-IsSafe own entry bound cancel active quiet safe = record {
    distinct = safe.distinct;
    keyed = safe.keyed;
    attached = safe.attached;
    allocated = λ k. elim (Bool-cases (k == m.next_stream)) [
      | inl here ↦ rw here (λ h. (
        (let same : k ≡ m.next_stream = ==-true k m.next_stream here in omega arith),
        subst (λ i. i < m.next_object) (sym own) bound,
      ))
      | inr away ↦ rw away (λ h.
          let old : k < m.next_stream = (safe.allocated k h).0 in
          (omega arith, (safe.allocated k h).1))
    ];
    owned = λ k. elim (Bool-cases (k == m.next_stream)) [
      | inl here ↦ rw here (λ h. (
        subst (IsEntry m) (sym own) entry,
        ap (λ i. (m.object i).cancel) own ∙ cancel ∙ ap some (sym (==-true k m.next_stream here)),
      ))
      | inr away ↦ rw away (safe.owned k)
    ];
    busy = λ k. elim (Bool-cases (k == m.next_stream)) [
      | inl here ↦ rw here (λ h e. ap (λ i. (m.object i).is_active) own ∙ active)
      | inr away ↦ rw away (safe.busy k)
    ];
    single = λ j k. elim (Bool-cases (j == m.next_stream)) [
      | inl jn ↦ elim (Bool-cases (k == m.next_stream)) [
        | inl kn ↦ λ hj hk e. ==-true j _ jn ∙ sym (==-true k _ kn)
        | inr ka ↦ rw (jn, ka) (λ hj hk e. absurd (quiet k hk (sym e ∙ own)))
      ]
      | inr ja ↦ elim (Bool-cases (k == m.next_stream)) [
        | inl kn ↦ rw (ja, kn) (λ hj hk e. absurd (quiet j hj (e ∙ own)))
        | inr ka ↦ rw (ja, ka) (safe.single j k)
      ]
    ];
  }

-- The object with its new stream, before that stream runs.
armed-IsSafe :
    (n k : ℕ) (m : Manager)
    → IsEntry m n
    → IsQuiet n m
    → IsSafe m
    → IsSafe (set_object n (record (m.object n) { is_active = true; cancel = some k }) m)
armed-IsSafe n k m entry quiet safe =
    set_object-IsSafe n _ m
      (record {
        same_id = refl;
        sockets = λ _. entry;
        active = λ i h own e. refl;
        cancels = λ i h own. absurd (quiet i (live_of_running _ h) own);
      })
      safe

pub open_stream-IsSafe :
    (n : ℕ) (m : Manager)
    → IsEntry m n
    → (m.object n).is_active ≡ false
    → IsSafe m
    → IsSafe (open_stream n m)
unfolding open_stream set_object
open_stream-IsSafe n m entry inactive safe =
    flowing-IsSafe n (request_of n (m.object n)) (set_object n s m) refl
      (IsEntry-set_object n s m refl n entry) (safe.keyed _ n entry).1
      (ap (λ o. o.cancel) (object-here n s m n (ground arith)))
      (ap (λ o. o.is_active) (object-here n s m n (ground arith))) quiet
      (armed-IsSafe n m.next_stream m entry quiet safe)
  where
    s : Subscription
    s = record (m.object n) { is_active = true; cancel = some m.next_stream }

    quiet : IsQuiet n m
    quiet k h own =
        true-ne-false
          (subst (λ i. IsEntry m i → (m.object i).is_active ≡ true) own (safe.busy k h) entry)
          inactive

pub start_stream-IsSafe :
    (connected : Bool) (n : ℕ) (m : Manager)
    → IsEntry m n
    → IsSafe m
    → IsSafe (start_stream connected n m)
unfolding start_stream
start_stream-IsSafe connected n m entry safe = elim (Bool-cases (m.object n).is_active) [
  | inl active ↦ rw (start_stream, active) safe
  | inr idle ↦ elim (Bool-cases connected) [
    | inl on ↦ rw (start_stream, idle, on) (open_stream-IsSafe n m entry idle safe)
    | inr off ↦ rw (start_stream, idle, off) (unsubscribe_from_event_stream-IsSafe _ m safe)
  ]
]

pub subscribe_to_event_stream-IsSafe :
    (connected : Bool) (id : Str) (client w : ℕ) (filter : EventStreamFilter) (parties : List Str)
    (start_offset : Str) (m : Manager)
    → IsSafe m
    → IsSafe (subscribe_to_event_stream connected id client w filter parties start_offset m)
unfolding subscribe_to_event_stream greet set_object
subscribe_to_event_stream-IsSafe connected id client w filter parties start_offset m safe =
    go (get id m.subscriptions) refl
  where
    go :
        (o : Option ℕ)
        → get id m.subscriptions ≡ o
        → IsSafe (subscribe_to_event_stream connected id client w filter parties start_offset m)
    go none e =
        rw (subscribe_to_event_stream, e)
          (start_stream-IsSafe connected m.next_object _ (entered-IsEntry id _ m refl)
            (logs-IsSafe _ m.closed m.offsets _ (entered-IsSafe id _ m e refl safe)))
    go (some n) e =
        rw (subscribe_to_event_stream, e)
          (logs-IsSafe _ m.closed m.offsets _ (
            set_object-IsSafe_mild n _ m refl refl refl
              (λ h. ap (λ x. get x m.subscriptions) (safe.keyed id n e).0 ∙ e) safe))
