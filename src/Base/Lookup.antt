-- ===== src/Base/Lookup.antt =====
-- `Map<string, V>`: entries in insertion order, each key at most once.
use cantontrace.Base.Tests.{if◌then◌else◌, Bool-cases}
use cantontrace.Base.Words.{Str, ◌===◌, ===_iff, includes, Distinct}
use cantontrace.Base.Lists.{length}
use Prim.Native.Nat.{◌+◌, ◌≤◌}
use mathlib.Core.Logic.{◌≢◌, inl, inr}
use mathlib.Core.Path.{◌≡◌, refl, sym, ◌∙◌}
use mathlib.Core.Bool.{true, false}
use mathlib.Core.List.{List, [], ◌∷◌, map}
use mathlib.Core.Option.{Option, none, some, some_inj}
use native.Mathlib.Omega.{arith}

module _ {ℓ} {V : Type ℓ} where
  abbrev pub keys : List (Str × V) → List Str
  keys = map (λ e. e.0)

  abbrev pub values : List (Str × V) → List V
  values = map (λ e. e.1)

  unfoldable pub get : Str → List (Str × V) → Option V
  get k [] = none
  get k ((j, v) ∷ m) = if j === k then some v else get k m

  unfoldable pub put : Str → V → List (Str × V) → List (Str × V)
  put k v [] = (k, v) ∷ []
  put k v ((j, w) ∷ m) = if j === k then (j, v) ∷ m else (j, w) ∷ put k v m

  unfoldable pub delete : Str → List (Str × V) → List (Str × V)
  delete k [] = []
  delete k ((j, w) ∷ m) = if j === k then m else (j, w) ∷ delete k m

  pub get-put :
      (k j : Str) (v : V) (m : List (Str × V))
      → get j (put k v m) ≡ (if k === j then some v else get j m)
  unfolding get put
  get-put k j v [] = refl
  get-put k j v ((i, w) ∷ m) =
      ground (arith, ===_iff k j, ===_iff i k, ===_iff i j, get-put k j v m)

  pub includes-keys-put :
      (k j : Str) (v : V) (m : List (Str × V))
      → includes j (keys (put k v m)) ≡ (if k === j then true else includes j (keys m))
  unfolding put includes
  includes-keys-put k j v [] = ground arith
  includes-keys-put k j v ((i, w) ∷ m) =
      ground (arith, ===_iff k j, ===_iff i k, ===_iff i j, includes-keys-put k j v m)

  pub get-eq-none : (k : Str) (m : List (Str × V)) → includes k (keys m) ≡ false → get k m ≡ none
  unfolding get includes
  get-eq-none k [] h = refl
  get-eq-none k ((j, w) ∷ m) h = ground (arith, get-eq-none k m)

  pub keys-put-Distinct :
      (k : Str) (v : V) (m : List (Str × V)) → Distinct (keys m) → Distinct (keys (put k v m))
  unfolding put includes
  keys-put-Distinct k v [] h = (refl, tt)
  keys-put-Distinct k v ((j, w) ∷ m) (h, d) =
      ground (arith, keys-put-Distinct k v m d, includes-keys-put k j v m, ===_iff j k, ===_iff k j)

  pub includes-keys-delete :
      (k j : Str) (m : List (Str × V))
      → includes j (keys m) ≡ false
      → includes j (keys (delete k m)) ≡ false
  unfolding delete includes
  includes-keys-delete k j [] h = refl
  includes-keys-delete k j ((i, w) ∷ m) h = ground (arith, includes-keys-delete k j m)

  pub keys-delete-Distinct :
      (k : Str) (m : List (Str × V)) → Distinct (keys m) → Distinct (keys (delete k m))
  unfolding delete
  keys-delete-Distinct k [] h = tt
  keys-delete-Distinct k ((j, w) ∷ m) (h, d) =
      ground (arith, keys-delete-Distinct k m d, includes-keys-delete k j m h)

  pub get-delete :
      (k j : Str) (m : List (Str × V))
      → Distinct (keys m)
      → get j (delete k m) ≡ (if k === j then none else get j m)
  unfolding get delete
  get-delete k j [] d = ground arith
  get-delete k j ((i, w) ∷ m) (h, d) =
      ground (arith, get-delete k j m d, get-eq-none i m h, ===_iff k j, ===_iff i k, ===_iff i j)

  -- What is found after a deletion was there before; what is found after a put was put or there before.
  pub get_of_get-delete :
      (k j : Str) (v : V) (m : List (Str × V))
      → Distinct (keys m)
      → get j (delete k m) ≡ some v
      → get j m ≡ some v
  get_of_get-delete k j v m d e = ground (arith, get-delete k j m d)

  pub get_of_get-put :
      (k j : Str) (v w : V) (m : List (Str × V))
      → w ≢ v
      → get j (put k v m) ≡ some w
      → get j m ≡ some w
  get_of_get-put k j v w m ne e = elim (Bool-cases (k === j)) [
    | inl same ↦ absurd (ne (some_inj.0 (sym e ∙ get-put k j v m ∙ rw same refl)))
    | inr other ↦ sym (get-put k j v m ∙ rw other refl) ∙ e
  ]

  pub get-put_of_get :
      (k j : Str) (v w : V) (m : List (Str × V))
      → get k m ≡ none
      → get j m ≡ some w
      → get j (put k v m) ≡ some w
  get-put_of_get k j v w m free e = ground (arith, get-put k j v m, ===_iff k j)

  pub length-delete :
      (k : Str) (v : V) (m : List (Str × V)) → get k m ≡ some v → length (delete k m) + 1 ≡ length m
  unfolding get delete
  length-delete k v [] h = absurd (ground arith)
  length-delete k v ((j, w) ∷ m) h = ground (arith, length-delete k v m)

  pub length-put-le : (k : Str) (v : V) (m : List (Str × V)) → length (put k v m) ≤ length m + 1
  unfolding put
  length-put-le k v [] = omega arith
  length-put-le k v ((j, w) ∷ m) = ground (arith, length-put-le k v m)

  pub length-put_of_some :
      (k : Str) (v w : V) (m : List (Str × V)) → get k m ≡ some w → length (put k v m) ≡ length m
  unfolding put get
  length-put_of_some k v w [] h = absurd (ground arith)
  length-put_of_some k v w ((j, x) ∷ m) h = ground (arith, length-put_of_some k v w m)
