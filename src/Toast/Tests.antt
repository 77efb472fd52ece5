-- ===== src/Toast/Tests.antt =====
-- Toasts with a title.
use cantontrace.Base.{◌≡◌, refl, [], ◌∷◌, none, some, Str, text, false, includes, arith}
use cantontrace.Runtime.Decimal.{decimal}
use cantontrace.Toast.{State, dismiss_toast, reducer, on_timeout, toast}
use cantontrace.Toast.Laws.{IsTidy, toast_ids, steps-IsTidy}

abbrev two : State Str
two = record {
  toasts =
      record { id = text "2"; open? = some false; shown = text "b" }
      ∷ record { id = text "1"; open? = none; shown = text "a" }
      ∷ [];
  toast_timeouts = text "2" ∷ [];
  count = 2;
}

two-IsTidy : IsTidy two
unfolding includes
two-IsTidy = record { few = omega arith; once = (refl, tt) }

steps-IsTidy_example :
    (IsTidy (toast (text "c") two))
    × (IsTidy (reducer (dismiss_toast none) two))
    × (IsTidy (on_timeout (text "2") two))
steps-IsTidy_example = steps-IsTidy (text "c") (dismiss_toast none) (text "2") two two-IsTidy

third : toast_ids (toast (text "c") two).toasts ≡ text "3" ∷ text "2" ∷ text "1" ∷ []
unfolding toast reducer decimal
third = refl
