-- ===== src/Collector/Window.antt =====
-- The window of the newest events that event-stream-store.ts keeps.
use cantontrace.Base.{
  ℕ, zero, suc, ◌+◌, ◌-◌, ◌≤◌, ◌≡◌, refl, ap, ◌∙◌, List, [], ◌∷◌, ◌++◌, Bool-cases, inl, inr, ltb,
  length, drop, length-append, length-drop, arith,
}
use cantontrace.Ledger.{LedgerUpdate}
use cantontrace.Collector.{max_events, newest}

-- All but the last `max_events`.
pub newest-drop : (l : List LedgerUpdate) → newest l ≡ drop (length l - max_events) l
unfolding newest
newest-drop l = elim (Bool-cases (ltb max_events (length l))) [
  | inl e ↦ rw (newest, e) refl
  | inr e ↦
      let none_over : length l - max_events ≡ 0 = ground arith in rw (newest, e, none_over) refl
]

module _ {ℓ} {A : Type ℓ} where
  drop-nil : (j : ℕ) → drop {A = A} j [] ≡ []
  drop-nil zero = refl
  drop-nil (suc j) = refl

  drop-drop : (j k n : ℕ) (l : List A) → n ≡ k + j → drop j (drop k l) ≡ drop n l
  drop-drop j zero n l e = let same : j ≡ n = omega arith in ap (λ i. drop i l) same
  drop-drop j (suc k) (suc n) [] e = drop-nil j
  drop-drop j (suc k) (suc n) (x ∷ l) e = drop-drop j k n l (omega arith)
  drop-drop j (suc k) zero l e = absurd (omega arith)

  drop-append : (k : ℕ) (l m : List A) → k ≤ length l → drop k (l ++ m) ≡ drop k l ++ m
  drop-append zero l m h = refl
  drop-append (suc k) [] m h = absurd (omega arith)
  drop-append (suc k) (x ∷ l) m h = drop-append k l m (omega arith)

pub length-newest-le : (l : List LedgerUpdate) → length (newest l) ≤ max_events
length-newest-le l = rw (newest-drop l) (omega (arith, length-drop (length l - max_events) l))

pub newest_of_le : (l : List LedgerUpdate) → length l ≤ max_events → newest l ≡ l
newest_of_le l h =
    let none_over : length l - max_events ≡ 0 = omega arith in newest-drop l ∙ rw none_over refl

-- What falls out of a window falls out of a later one.
pub newest-newest-append : (l m : List LedgerUpdate) → newest (newest l ++ m) ≡ newest (l ++ m)
newest-newest-append l m =
    let k : ℕ = length l - max_events in
    let len : length (drop k (l ++ m)) ≡ length (l ++ m) - k = length-drop k (l ++ m) in
    rw
      (
        newest-drop l,
        newest-drop (drop k l ++ m),
        newest-drop (l ++ m),
        ← drop-append k l m (omega arith),
      )
      (drop-drop (length (drop k (l ++ m)) - max_events) k (length (l ++ m) - max_events) (l ++ m)
        (omega (arith, length-append l m)))
