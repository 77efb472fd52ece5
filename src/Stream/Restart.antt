-- ===== src/Stream/Restart.antt =====
-- Restarting the stream of a subscription of event-stream.ts: after a new filter, and after an error.

use cantontrace.Base.{
  ◌&&◌, ◌==◌, ℕ, ◌<◌, ◌≡◌, ◌≢◌, refl, ap, ◌∙◌, List, Option, none, some, Str, Bool, true, false,
  ◌==◌, includes, Bool-cases, inl, inr, arith, keep,
}
use cantontrace.Base.Lookup.{keys, get, get-eq-none}
use cantontrace.Ledger.{EventStreamFilter}
use cantontrace.Stream.{
  Manager, Subscription, Readiness, error, set_object, set_phase, cancel_stream,
  update_stream_filter, start_stream, on_error, reconnect_due, open_stream, broadcast, is_empty,
}
use cantontrace.Stream.Steps.{Reach}
use cantontrace.Stream.Fanout.{stays, broadcast-effect}
use cantontrace.Stream.Safety.{IsSafe, IsEntry, is_running}
use cantontrace.Stream.Safety.Writes.{object-here, IsStill, cancel_stream-IsStill}
use cantontrace.Stream.Safety.Opening.{live_of_running}
use cantontrace.Stream.Safety.Reachable.{Reach-IsSafe}

-- What cancelling leaves alone.
cancel_stream-next :
    (c : Option ℕ) (m : Manager)
    → ((cancel_stream c m).next_stream ≡ m.next_stream) × ((cancel_stream c m).object ≡ m.object)
unfolding cancel_stream set_phase
cancel_stream-next none m = (refl, refl)
cancel_stream-next (some k) m = (refl, refl)

none_runs :
    (n : ℕ) (m : Manager)
    → IsStill n m
    → (k : ℕ) → (is_running (m.stream k).phase && (m.stream k).owner == n) ≡ false
none_runs n m still k = elim (Bool-cases (is_running (m.stream k).phase)) [
  | inr e ↦ rw e refl
  | inl e ↦ let other : (m.stream k).owner ≢ n = still k e in rw e (ground arith)
]

-- In a state that the manager reaches while no mapping of an update throws, a new filter for a
-- subscription that is active is written to its object, but no stream is opened, and no stream runs
-- for the object afterwards.
pub update_stream_filter-no_restart :
    (connected : Bool) (filter : EventStreamFilter) (n : ℕ) (m : Manager)
    → Reach m
    → IsEntry m n
    → (m.object n).is_active ≡ true
    → (((update_stream_filter connected (m.object n).id filter m).object n).filter ≡ filter)
      × ((update_stream_filter connected (m.object n).id filter m).next_stream ≡ m.next_stream)
      × ((k : ℕ)
          → (is_running ((update_stream_filter connected (m.object n).id filter m).stream k).phase
              && ((update_stream_filter connected (m.object n).id filter m).stream k).owner == n)
            ≡ false)
unfolding update_stream_filter start_stream set_object
update_stream_filter-no_restart connected filter n m r entry active =
    let s : Subscription = record (m.object n) { filter = filter; cancel = none } in
    let c : Manager = cancel_stream (m.object n).cancel m in
    let here : (set_object n s c).object n ≡ s = object-here n s c n (ground arith) in
    let on : ((set_object n s c).object n).is_active ≡ true = ap (λ o. o.is_active) here ∙ active in
    rw (update_stream_filter, entry, start_stream, on)
      (
        ap (λ o. o.filter) here,
        (cancel_stream-next (m.object n).cancel m).0,
        none_runs n c (cancel_stream-IsStill n m (Reach-IsSafe r)),
      )

includes_of_get :
    (x : Str) (n : ℕ) (l : List (Str × ℕ)) → get x l ≡ some n → includes x (keys l) ≡ true
includes_of_get x n l e = elim (Bool-cases (includes x (keys l))) [
  | inl there ↦ there
  | inr gone ↦ let nothing : get x l ≡ none = get-eq-none x l gone in cc
]

-- The timeout of an error opens a stream for a subscription that is there, inactive and has sockets.
reconnect_due-opens :
    (n : ℕ) (m : Manager)
    → IsEntry m n
    → is_empty (m.object n).websockets ≡ false
    → (m.object n).is_active ≡ false
    → reconnect_due true n m ≡ open_stream n m
unfolding reconnect_due start_stream
reconnect_due-opens n m entry sockets idle =
    rw (reconnect_due, includes_of_get _ n m.subscriptions entry, sockets, start_stream, idle) refl

on_error-object :
    (ws : ℕ → Readiness) (message : Str) (n : ℕ) (m : Manager)
    → (on_error ws message n m).object n ≡ record (m.object n) {
      websockets = keep (λ w. stays (ws w)) (m.object n).websockets;
      is_active = false;
    }
unfolding on_error
on_error-object ws message n m =
    let b : Manager = broadcast ws (error message) n m in
    object-here n (record (b.object n) { is_active = false }) b n (ground arith)
    ∙ ap {A = Subscription} (λ o. record o { is_active = false })
        (broadcast-effect ws (error message) n m).1

-- In a state that the manager reaches while no mapping of an update throws, when `onError` is called
-- while the stream is not over, as the mapping of an update does when it throws, and a socket is left,
-- the timeout that follows opens a second stream: both run, for the same object.
pub on_error-second_stream :
    (ws : ℕ → Readiness) (message : Str) (k : ℕ) (m : Manager)
    → Reach m
    → is_running (m.stream k).phase ≡ true
    → is_empty (keep (λ w. stays (ws w)) (m.object (m.stream k).owner).websockets) ≡ false
    → let later : Manager =
        reconnect_due true (m.stream k).owner (on_error ws message (m.stream k).owner m) in
      (is_running (later.stream k).phase ≡ true)
      × (is_running (later.stream m.next_stream).phase ≡ true)
      × ((later.stream m.next_stream).owner ≡ (later.stream k).owner)
      × (k ≢ m.next_stream)
unfolding on_error broadcast set_object open_stream
on_error-second_stream ws message k m r runs sockets =
    let n : ℕ = (m.stream k).owner in
    let safe : IsSafe m = Reach-IsSafe r in
    let o = on_error-object ws message n m in
    let bound : k < m.next_stream = (safe.allocated k (live_of_running _ runs)).0 in
    let other : (k == m.next_stream) ≡ false = ground arith in
    let fresh : (m.next_stream == m.next_stream) ≡ true = ground arith in
    rw
      (reconnect_due-opens n (on_error ws message n m)
        (ap (λ o. get o.id m.subscriptions) o ∙ (safe.owned k runs).0)
        (ap (λ o. is_empty o.websockets) o ∙ sockets) (ap (λ o. o.is_active) o))
      (rw (other, fresh) (runs, refl, refl, λ e. ground arith))
