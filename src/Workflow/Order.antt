-- ===== src/Workflow/Order.antt =====
-- The order of a timeline of workflows.ts.
use cantontrace.Base.{
  ◌≡◌, refl, List, [], ◌∷◌, Str, Bool, true, false, All, keep, length, arith, ◌∙◌, Bool-cases, inl,
  inr,
}
use cantontrace.Ledger.{LedgerUpdate}
use cantontrace.Workflow.{insert_update, sort_updates}

module _ (at_most : Str → Str → Bool) where
  -- Each update is recorded at most as late as all that follow.
  abbrev pub IsChronological : List LedgerUpdate → Type 0
  IsChronological [] = Unit
  IsChronological (u ∷ us) =
      All (λ v. at_most u.record_time v.record_time ≡ true) us × IsChronological us

  All-insert_update :
      (P : LedgerUpdate → Type 0) (u : LedgerUpdate) (us : List LedgerUpdate)
      → P u
      → All P us
      → All P (insert_update at_most u us)
  unfolding insert_update
  All-insert_update P u [] p a = (p, tt)
  All-insert_update P u (v ∷ us) p (q, a) =
      elim (Bool-cases (at_most u.record_time v.record_time)) [
        | inl e ↦ rw (insert_update, e) (p, (q, a))
        | inr e ↦ rw (insert_update, e) (q, All-insert_update P u us p a)
      ]

  module _ (total : (s t : Str) → at_most s t ≡ false → at_most t s ≡ true)
      (trans : (s t r : Str) → at_most s t ≡ true → at_most t r ≡ true → at_most s r ≡ true) where
    All-later :
        (s t : Str) (us : List LedgerUpdate)
        → at_most s t ≡ true
        → All (λ v. at_most t v.record_time ≡ true) us
        → All (λ v. at_most s v.record_time ≡ true) us
    All-later s t [] h a = tt
    All-later s t (v ∷ us) h (b, a) = (trans s t v.record_time h b, All-later s t us h a)

    insert_update-IsChronological :
        (u : LedgerUpdate) (us : List LedgerUpdate)
        → IsChronological us
        → IsChronological (insert_update at_most u us)
    unfolding insert_update
    insert_update-IsChronological u [] h = (tt, tt)
    insert_update-IsChronological u (v ∷ us) (a, h) =
        elim (Bool-cases (at_most u.record_time v.record_time)) [
          | inl e ↦
              rw (insert_update, e) ((e, All-later u.record_time v.record_time us e a), (a, h))
          | inr e ↦
              rw (insert_update, e)
                (
                  All-insert_update (λ w. at_most v.record_time w.record_time ≡ true) u us
                      (total _ _ e) a,
                  insert_update-IsChronological u us h,
                )
        ]

    pub sort_updates-IsChronological :
        (us : List LedgerUpdate) → IsChronological (sort_updates at_most us)
    unfolding sort_updates
    sort_updates-IsChronological [] = tt
    sort_updates-IsChronological (u ∷ us) =
        insert_update-IsChronological u (sort_updates at_most us) (sort_updates-IsChronological us)

  length-keep-insert_update :
      (p : LedgerUpdate → Bool) (u : LedgerUpdate) (us : List LedgerUpdate)
      → length (keep p (insert_update at_most u us)) ≡ length (keep p (u ∷ us))
  unfolding insert_update
  length-keep-insert_update p u [] = refl
  length-keep-insert_update p u (v ∷ us) = ground (arith, length-keep-insert_update p u us)

  pub length-keep-sort_updates :
      (p : LedgerUpdate → Bool) (us : List LedgerUpdate)
      → length (keep p (sort_updates at_most us)) ≡ length (keep p us)
  unfolding sort_updates
  length-keep-sort_updates p [] = refl
  length-keep-sort_updates p (u ∷ us) =
      length-keep-insert_update p u (sort_updates at_most us)
      ∙ ground (arith, length-keep-sort_updates p us)
