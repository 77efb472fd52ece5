-- ===== src/Toast.antt =====
-- The toasts of frontend/src/components/ui/use-toast.ts: its reducer, the timeouts that remove a toast,
-- and `toast`. What a toast shows, and how an update
-- changes that, is a parameter; React's listeners are left out.
pub mod Laws
mod Tests
use mathlib.Core.Option.{get_or}
use cantontrace.Base.{
  ℕ, suc, ◌+◌, ◌%◌, List, [], ◌∷◌, ◌++◌, Option, none, some, Bool, true, false, not, if◌then◌else◌,
  Str, ◌===◌, keep, map, take, includes,
}
use cantontrace.Runtime.Decimal.{decimal}

abbrev pub toast_limit : ℕ
toast_limit = 5

-- `Number.MAX_SAFE_INTEGER`.
abbrev pub max_safe_integer : ℕ
max_safe_integer = 9007199254740991

pub record ToasterToast (P : Type 0) : Type 0 where
  pub id : Str
  pub open? : Option Bool
  pub shown : P

pub data Action (P : Type 0) : Type 0 where
  add_toast : ToasterToast P → Action P
  update_toast : Option Str → Option (Option Bool) → (P → P) → Action P
  dismiss_toast : Option Str → Action P
  remove_toast : Option Str → Action P

-- `memoryState`, the keys of `toastTimeouts`, and `count`.
pub record State (P : Type 0) : Type 0 where
  pub toasts : List (ToasterToast P)
  pub toast_timeouts : List Str
  pub count : ℕ

-- `toastTimeouts.set`, unless the key is there.
unfoldable pub add_to_remove_queue : Str → List Str → List Str
add_to_remove_queue id timeouts = if includes id timeouts then timeouts else timeouts ++ id ∷ []

module _ {P : Type 0} where
  abbrev pub has_id : Str → ToasterToast P → Bool
  has_id id t = t.id === id

  unfoldable pub queue_all : List (ToasterToast P) → List Str → List Str
  queue_all [] timeouts = timeouts
  queue_all (t ∷ ts) timeouts = queue_all ts (add_to_remove_queue t.id timeouts)

  abbrev pub close : ToasterToast P → ToasterToast P
  close t = record t { open? = some false }

  unfoldable pub reducer : Action P → State P → State P
  reducer (add_toast t) s = record s { toasts = take toast_limit (t ∷ s.toasts) }
  reducer (update_toast none open? change) s = s
  reducer (update_toast (some id) open? change) s = record s {
    toasts =
        map
          (λ t.
            if has_id id t
            then record t { open? = get_or open? t.open?; shown = change t.shown }
            else t)
          s.toasts;
  }
  reducer (dismiss_toast (some id)) s = record s {
    toast_timeouts =
        if id === []
        then queue_all s.toasts s.toast_timeouts
        else add_to_remove_queue id s.toast_timeouts;
    toasts = map (λ t. if has_id id t then close t else t) s.toasts;
  }
  reducer (dismiss_toast none) s = record s {
    toast_timeouts = queue_all s.toasts s.toast_timeouts;
    toasts = map close s.toasts;
  }
  reducer (remove_toast none) s = record s { toasts = [] }
  reducer (remove_toast (some id)) s = record s { toasts = keep (λ t. not (has_id id t)) s.toasts }

  -- A timeout fires: its key is deleted and its toast removed.
  unfoldable pub on_timeout : Str → State P → State P
  on_timeout id s =
      reducer (remove_toast (some id))
        (record s { toast_timeouts = keep (λ k. not (k === id)) s.toast_timeouts })

  -- `genId` and the dispatch of `toast`.
  unfoldable pub toast : P → State P → State P
  toast p s =
      let n = suc s.count % max_safe_integer in
      reducer (add_toast (record { id = decimal n; open? = some true; shown = p }))
        (record s { count = n })

  -- The `dismiss` of a toast, and of the hook.
  unfoldable pub dismiss : Option Str → State P → State P
  dismiss id s = reducer (dismiss_toast id) s
