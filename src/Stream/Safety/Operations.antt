-- ===== src/Stream/Safety/Operations.antt =====
-- The other operations of event-stream.ts keep the safety of the manager.
use mathlib.Core.Path.{subst}
use cantontrace.Base.{
  ℕ, ◌≡◌, ◌≢◌, refl, sym, ap, ◌∙◌, List, [], ◌∷◌, Option, none, some, Str, Bool, true, false, not,
  Bool-cases, inl, inr, includes,
}
use cantontrace.Base.Lookup.{keys, get}
use cantontrace.Ledger.{EventStreamFilter, LedgerUpdate}
use cantontrace.Stream.{
  Manager, Message, Readiness, over, set_object, set_phase, cancel_stream, unsubscribe_each,
  update_stream_filter, fan_out, broadcast, is_empty, drop_if_empty, on_update, on_error, on_end,
  reconnect_due, on_close, on_socket_error, grace_due, leave, passes_filter,
}
use cantontrace.Stream.Safety.{is_live, IsEntry, IsSafe}
use cantontrace.Stream.Safety.Writes.{
  IsQuiet, IsStill, set_object-IsSafe, set_object-IsSafe_mild, true-ne-false, IsEntry-set_object,
  set_phase-IsSafe, phase-set_phase, phase-set_phase_here, owner-set_phase, cancel_stream-IsSafe,
  cancel_stream-IsStill,
}
use cantontrace.Stream.Safety.Entries.{unsubscribe_from_event_stream-IsSafe, logs-IsSafe}
use cantontrace.Stream.Safety.Opening.{live_of_running}
use cantontrace.Stream.Safety.Starting.{start_stream-IsSafe}

pub unsubscribe_each-IsSafe :
    (ids : List Str) (m : Manager) → IsSafe m → IsSafe (unsubscribe_each ids m)
unfolding unsubscribe_each
unsubscribe_each-IsSafe [] m safe = safe
unsubscribe_each-IsSafe (id ∷ ids) m safe =
    unsubscribe_each-IsSafe ids _ (unsubscribe_from_event_stream-IsSafe id m safe)

-- A subscription that is there and whose stream was cancelled loses the way to cancel it.
cleared-IsSafe :
    (n : ℕ) (filter : EventStreamFilter) (c : Option ℕ) (m : Manager)
    → IsEntry m n
    → IsSafe (cancel_stream c m)
    → IsStill n (cancel_stream c m)
    → IsSafe
        (set_object n (record (m.object n) { filter = filter; cancel = none }) (cancel_stream c m))
      × IsEntry
          (set_object n
            (record (m.object n) { filter = filter; cancel = none })
            (cancel_stream c m))
          n
unfolding cancel_stream set_phase
cleared-IsSafe n filter none m entry safe still = (
  set_object-IsSafe n _ m
      (record {
        same_id = refl;
        sockets = λ _. entry;
        active = λ k h own e.
            subst (λ i. IsEntry m i → (m.object i).is_active ≡ true) own (safe.busy k h) e;
        cancels = λ k h own. absurd (still k h own);
      })
      safe,
  IsEntry-set_object n _ m refl n entry,
)
cleared-IsSafe n filter (some j) m entry safe still = (
  set_object-IsSafe n _ (cancel_stream (some j) m)
      (record {
        same_id = refl;
        sockets = λ _. entry;
        active = λ k h own e.
            subst (λ i. IsEntry m i → (m.object i).is_active ≡ true) own (safe.busy k h) e;
        cancels = λ k h own. absurd (still k h own);
      })
      safe,
  IsEntry-set_object n _ (cancel_stream (some j) m) refl n entry,
)

pub update_stream_filter-IsSafe :
    (connected : Bool) (id : Str) (filter : EventStreamFilter) (m : Manager)
    → IsSafe m
    → IsSafe (update_stream_filter connected id filter m)
unfolding update_stream_filter
update_stream_filter-IsSafe connected id filter m safe = go (get id m.subscriptions) refl
  where
    go :
        (o : Option ℕ)
        → get id m.subscriptions ≡ o
        → IsSafe (update_stream_filter connected id filter m)
    go none e = rw (update_stream_filter, e) safe
    go (some n) e =
        let entry : IsEntry m n = ap (λ x. get x m.subscriptions) (safe.keyed id n e).0 ∙ e in
        let r =
          cleared-IsSafe n filter (m.object n).cancel m entry
            (cancel_stream-IsSafe (m.object n).cancel m safe) (cancel_stream-IsStill n m safe) in
        rw (update_stream_filter, e) (start_stream-IsSafe connected n _ r.1 r.0)

fan_out-none :
    (ws : ℕ → Readiness) (message : Message) (l : List ℕ) → l ≡ [] → (fan_out ws message l).0 ≡ []
unfolding fan_out
fan_out-none ws message [] e = refl
fan_out-none ws message (w ∷ l) e = cc

broadcast-IsSafe :
    (ws : ℕ → Readiness) (message : Message) (n : ℕ) (m : Manager)
    → IsSafe m
    → IsSafe (broadcast ws message n m)
unfolding broadcast set_object
broadcast-IsSafe ws message n m safe = logs-IsSafe _ m.closed m.offsets _ (
    set_object-IsSafe_mild n _ m refl refl refl
      (λ h. safe.attached n (λ e. h (fan_out-none ws message _ e))) safe)

drop_if_empty-IsSafe : (n : ℕ) (m : Manager) → IsSafe m → IsSafe (drop_if_empty n m)
unfolding drop_if_empty
drop_if_empty-IsSafe n m safe = elim (Bool-cases (is_empty (m.object n).websockets)) [
  | inl e ↦ rw (drop_if_empty, e) (unsubscribe_from_event_stream-IsSafe _ m safe)
  | inr e ↦ rw (drop_if_empty, e) safe
]

pub on_update-IsSafe :
    (ws : ℕ → Readiness) (u : LedgerUpdate) (n : ℕ) (m : Manager)
    → IsSafe m
    → IsSafe (on_update ws u n m)
unfolding on_update set_object
on_update-IsSafe ws u n m safe = elim (Bool-cases (passes_filter u (m.object n).filter)) [
  | inl e ↦
      rw (on_update, e)
        (drop_if_empty-IsSafe n _ (
          broadcast-IsSafe ws _ n _ (
            logs-IsSafe m.sent m.closed _ _
              (set_object-IsSafe_mild n _ m refl refl refl (safe.attached n) safe))))
  | inr e ↦ rw (on_update, e) safe
]

-- An object with no live stream is no longer active.
idle-IsSafe :
    (n : ℕ) (m : Manager)
    → IsQuiet n m
    → IsSafe m
    → IsSafe (set_object n (record (m.object n) { is_active = false }) m)
idle-IsSafe n m quiet safe =
    set_object-IsSafe n _ m
      (record {
        same_id = refl;
        sockets = safe.attached n;
        active = λ i h own e. absurd (quiet i h own);
        cancels = λ i h own. absurd (quiet i (live_of_running _ h) own);
      })
      safe

-- A live stream that is over leaves none to its subscription.
over-IsQuiet :
    (k : ℕ) (m : Manager)
    → is_live (m.stream k).phase ≡ true
    → IsSafe m
    → IsQuiet (m.stream k).owner (set_phase k over m)
over-IsQuiet k m live safe j h own =
    let before : is_live (m.stream j).phase ≡ true =
      phase-set_phase k over m is_live (λ x. live) j h in
    let same : j ≡ k = safe.single j k before live (sym (owner-set_phase k over m j) ∙ own) in
    true-ne-false h (
      ap (λ i. is_live ((set_phase k over m).stream i).phase) same
      ∙ ap is_live (phase-set_phase_here k over m))

over-IsSafe : (k : ℕ) (m : Manager) → IsSafe m → IsSafe (set_phase k over m)
over-IsSafe k m safe =
    set_phase-IsSafe k over m (λ x. absurd (true-ne-false x refl))
      (λ x. absurd (true-ne-false x refl)) safe

pub on_error-IsSafe :
    (ws : ℕ → Readiness) (message : Str) (k : ℕ) (m : Manager)
    → is_live (m.stream k).phase ≡ true
    → IsSafe m
    → IsSafe (on_error ws message (m.stream k).owner (set_phase k over m))
unfolding on_error broadcast set_object
on_error-IsSafe ws message k m live safe =
    idle-IsSafe (m.stream k).owner _ (over-IsQuiet k m live safe)
      (broadcast-IsSafe ws _ (m.stream k).owner _ (over-IsSafe k m safe))

pub on_end-IsSafe :
    (ws : ℕ → Readiness) (k : ℕ) (m : Manager)
    → is_live (m.stream k).phase ≡ true
    → IsSafe m
    → IsSafe (on_end ws (m.stream k).owner (set_phase k over m))
unfolding on_end
on_end-IsSafe ws k m live safe =
    broadcast-IsSafe ws _ (m.stream k).owner _
      (idle-IsSafe (m.stream k).owner _ (over-IsQuiet k m live safe) (over-IsSafe k m safe))

nonempty : (l : List ℕ) → not (is_empty l) ≡ true → l ≢ []
nonempty [] h e = cc
nonempty (w ∷ l) h e = cc

pub reconnect_due-IsSafe :
    (connected : Bool) (n : ℕ) (m : Manager) → IsSafe m → IsSafe (reconnect_due connected n m)
unfolding reconnect_due
reconnect_due-IsSafe connected n m safe =
    elim (Bool-cases (not (is_empty (m.object n).websockets))) [
      | inl some_socket ↦ elim (Bool-cases (includes (m.object n).id (keys m.subscriptions))) [
        | inl there ↦
            rw (reconnect_due, there, some_socket)
              (start_stream-IsSafe connected n m (safe.attached n (nonempty _ some_socket)) safe)
        | inr gone ↦ rw (reconnect_due, gone) safe
      ]
      | inr no_socket ↦ elim (Bool-cases (includes (m.object n).id (keys m.subscriptions))) [
        | inl there ↦ rw (reconnect_due, there, no_socket) safe
        | inr gone ↦ rw (reconnect_due, gone) safe
      ]
    ]

leave-none : (w : ℕ) (l : List ℕ) → l ≡ [] → leave w l ≡ []
unfolding leave
leave-none w [] e = refl
leave-none w (v ∷ l) e = cc

pub on_close-IsSafe : (w n : ℕ) (m : Manager) → IsSafe m → IsSafe (on_close w n m)
unfolding on_close
on_close-IsSafe w n m safe =
    set_object-IsSafe_mild n _ m refl refl refl (λ h. safe.attached n (λ e. h (leave-none w _ e)))
      safe

pub on_socket_error-IsSafe : (w n : ℕ) (m : Manager) → IsSafe m → IsSafe (on_socket_error w n m)
unfolding on_socket_error
on_socket_error-IsSafe w n m safe =
    set_object-IsSafe_mild n _ m refl refl refl (λ h. safe.attached n (λ e. h (leave-none w _ e)))
      safe

pub grace_due-IsSafe : (n : ℕ) (m : Manager) → IsSafe m → IsSafe (grace_due n m)
unfolding grace_due
grace_due-IsSafe n m safe = drop_if_empty-IsSafe n m safe

pub on_end-quiet-IsSafe :
    (ws : ℕ → Readiness) (n : ℕ) (m : Manager) → IsQuiet n m → IsSafe m → IsSafe (on_end ws n m)
unfolding on_end
on_end-quiet-IsSafe ws n m quiet safe = broadcast-IsSafe ws _ n _ (idle-IsSafe n m quiet safe)
