-- ===== src/Toast/Laws.antt =====
-- The toasts that use-toast.ts shows at a time.
use cantontrace.Base.{
  ◌≤◌, ◌≡◌, refl, List, [], ◌∷◌, none, some, Bool, false, not, Str, ◌===◌, ===_iff, keep, map,
  length, length-map, length-take-le, length-keep-le, arith, Bool-cases, inl, inr, includes,
  Distinct, ◌||◌, includes-append, Distinct-append_single,
}
use cantontrace.Toast.{
  ToasterToast, Action, add_toast, update_toast, dismiss_toast, remove_toast, State, toast_limit,
  has_id, close, reducer, on_timeout, toast, dismiss, add_to_remove_queue, queue_all,
}

includes-add_to_remove_queue :
    (x id : Str) (timeouts : List Str)
    → includes x (add_to_remove_queue id timeouts) ≡ (includes x timeouts || id === x)
unfolding add_to_remove_queue includes
includes-add_to_remove_queue x id timeouts =
    ground (arith, includes-append x timeouts (id ∷ []), ===_iff id x)

Distinct-add_to_remove_queue :
    (id : Str) (timeouts : List Str)
    → Distinct timeouts
    → Distinct (add_to_remove_queue id timeouts)
unfolding add_to_remove_queue
Distinct-add_to_remove_queue id timeouts d = elim (Bool-cases (includes id timeouts)) [
  | inl there ↦ rw (add_to_remove_queue, there) d
  | inr new ↦ rw (add_to_remove_queue, new) (Distinct-append_single id timeouts d new)
]

includes-keep :
    (p : Str → Bool) (x : Str) (ks : List Str)
    → includes x ks ≡ false
    → includes x (keep p ks) ≡ false
unfolding includes
includes-keep p x [] h = refl
includes-keep p x (k ∷ ks) h = ground (arith, includes-keep p x ks)

Distinct-keep : (p : Str → Bool) (ks : List Str) → Distinct ks → Distinct (keep p ks)
Distinct-keep p [] d = tt
Distinct-keep p (k ∷ ks) (h, d) = elim (Bool-cases (p k)) [
  | inl e ↦ rw e (includes-keep p k ks h, Distinct-keep p ks d)
  | inr e ↦ rw e (Distinct-keep p ks d)
]

module _ {P : Type 0} where
  abbrev pub toast_ids : List (ToasterToast P) → List Str
  toast_ids = map (λ t. t.id)

  -- At most five toasts, and one timeout at most for an id.
  pub record IsTidy (s : State P) : Type 0 where
    pub few : length s.toasts ≤ toast_limit
    pub once : Distinct s.toast_timeouts

  Distinct-queue_all :
      (ts : List (ToasterToast P)) (timeouts : List Str)
      → Distinct timeouts
      → Distinct (queue_all ts timeouts)
  unfolding queue_all
  Distinct-queue_all [] timeouts d = d
  Distinct-queue_all (t ∷ ts) timeouts d =
      Distinct-queue_all ts (add_to_remove_queue t.id timeouts)
        (Distinct-add_to_remove_queue t.id timeouts d)

  reducer-IsTidy : (a : Action P) (s : State P) → IsTidy s → IsTidy (reducer a s)
  unfolding reducer
  reducer-IsTidy (add_toast t) s h = record {
    few = length-take-le toast_limit (t ∷ s.toasts);
    once = h.once;
  }
  reducer-IsTidy (update_toast none o change) s h = h
  reducer-IsTidy (update_toast (some id) o change) s h = record {
    few = omega (arith, length-map {B = ToasterToast P} _ s.toasts, h.few);
    once = h.once;
  }
  reducer-IsTidy (dismiss_toast (some id)) s h = record {
    few = omega (arith, length-map {B = ToasterToast P} _ s.toasts, h.few);
    once = elim (Bool-cases (id === [])) [
      | inl e ↦ rw e (Distinct-queue_all s.toasts s.toast_timeouts h.once)
      | inr e ↦ rw e (Distinct-add_to_remove_queue id s.toast_timeouts h.once)
    ];
  }
  reducer-IsTidy (dismiss_toast none) s h = record {
    few = omega (arith, length-map close s.toasts, h.few);
    once = Distinct-queue_all s.toasts s.toast_timeouts h.once;
  }
  reducer-IsTidy (remove_toast none) s h = record { few = omega arith; once = h.once }
  reducer-IsTidy (remove_toast (some id)) s h = record {
    few = omega (arith, length-keep-le (λ t. not (has_id id t)) s.toasts, h.few);
    once = h.once;
  }

  -- Showing a toast, any action of the reducer and a timeout that fires keep at most five toasts and at
  -- most one timeout for an id.
  pub steps-IsTidy :
      (p : P) (a : Action P) (id : Str) (s : State P)
      → IsTidy s
      → (IsTidy (toast p s)) × (IsTidy (reducer a s)) × (IsTidy (on_timeout id s))
  unfolding toast on_timeout
  steps-IsTidy p a id s h = (
    reducer-IsTidy _ _ (record { few = h.few; once = h.once }),
    reducer-IsTidy a s h,
    reducer-IsTidy (remove_toast (some id)) _ (record {
      few = h.few;
      once = Distinct-keep (λ k. not (k === id)) s.toast_timeouts h.once;
    }),
  )

  includes-queue_all :
      (x : Str) (ts : List (ToasterToast P)) (timeouts : List Str)
      → includes x (queue_all ts timeouts) ≡ (includes x timeouts || includes x (toast_ids ts))
  unfolding queue_all includes
  includes-queue_all x [] timeouts = ground arith
  includes-queue_all x (t ∷ ts) timeouts = ground (
    arith,
    includes-queue_all x ts (add_to_remove_queue t.id timeouts),
    includes-add_to_remove_queue x t.id timeouts,
  )

  -- Dismissing all toasts sets a timeout for exactly those that are shown, next to the timeouts that
  -- were there, and a timeout that fires leaves no toast with its id and no timeout for it.
  pub includes-toast_timeouts-dismiss :
      (x : Str) (s : State P)
      → (includes x (dismiss none s).toast_timeouts
          ≡ (includes x s.toast_timeouts || includes x (toast_ids s.toasts)))
        × (includes x (toast_ids (on_timeout x s).toasts) ≡ false)
        × (includes x (on_timeout x s).toast_timeouts ≡ false)
  unfolding dismiss reducer on_timeout includes
  includes-toast_timeouts-dismiss x s = (
    includes-queue_all x s.toasts s.toast_timeouts,
    removed x s.toasts,
    forgotten x s.toast_timeouts,
  )
    where
      removed :
          (x : Str) (ts : List (ToasterToast P))
          → includes x (toast_ids (keep (λ t. not (has_id x t)) ts)) ≡ false
      removed x [] = refl
      removed x (t ∷ ts) = ground (arith, removed x ts)

      forgotten : (x : Str) (ks : List Str) → includes x (keep (λ k. not (k === x)) ks) ≡ false
      forgotten x [] = refl
      forgotten x (k ∷ ks) = ground (arith, forgotten x ks)
