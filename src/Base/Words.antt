-- ===== src/Base/Words.antt =====
-- JavaScript strings as lists of UTF-16 code units, with `===`, and sets of them in insertion order.
use Prim.Native.Char.{code}
use Prim.Native.String.{String}
use Prim.Native.Nat.{ℕ}
use mathlib.Core.Path.{◌≡◌, refl}
use mathlib.Core.Logic.{◌↔◌, inl, inr, ◌≢◌}
use mathlib.Core.Bool.{Bool, true, false, ◌&&◌, ◌||◌}
use mathlib.Core.List.{List, [], ◌∷◌, ◌++◌}
use native.Mathlib.Omega.{arith}
use cantontrace.Base.Lists.{All}
use cantontrace.Base.Tests.{◌==◌, if◌then◌else◌, Bool-cases}

abbrev pub Str : Type 0
Str = List ℕ

-- A literal: its code points are its code units, as long as it holds no surrogate pair.
abbrev pub text : String → Str
text String.[] = []
text (String.◌∷◌ c s) = code c ∷ text s

infix 50 ◌===◌
unfoldable pub ◌===◌ : Str → Str → Bool
[] === [] = true
(c ∷ s) === (d ∷ t) = c == d && s === t
_ === _ = false

===_sound : (s t : Str) → (s === t) ≡ true → s ≡ t
unfolding ◌===◌
===_sound [] [] h = refl
===_sound (c ∷ s) (d ∷ t) h = ground (arith, ===_sound s t)
===_sound [] (d ∷ t) h = cc
===_sound (c ∷ s) [] h = cc

pub ===_refl : (s : Str) → (s === s) ≡ true
unfolding ◌===◌
===_refl [] = refl
===_refl (c ∷ s) = ground (arith, ===_refl s)

pub ===_iff : (s t : Str) → ((s === t) ≡ true) ↔ (s ≡ t)
===_iff s t = (===_sound s t, λ e. rw e (===_refl t))

pub ===_ne : (s t : Str) → s ≢ t → (s === t) ≡ false
===_ne s t h = elim (Bool-cases (s === t)) [ inl e ↦ absurd (h (===_sound s t e)) | inr e ↦ e ]

-- `l.includes(s)` and `set.has(s)`.
unfoldable pub includes : Str → List Str → Bool
includes s [] = false
includes s (t ∷ ts) = t === s || includes s ts

-- `set.add(s)`.
unfoldable pub add : Str → List Str → List Str
unfolding includes
add s ts = if includes s ts then ts else ts ++ s ∷ []

pub includes-append :
    (s : Str) (ts us : List Str) → includes s (ts ++ us) ≡ (includes s ts || includes s us)
unfolding includes
includes-append s [] us = refl
includes-append s (t ∷ ts) us = ground (arith, includes-append s ts us)

pub includes-add : (s t : Str) (ts : List Str) → includes s (add t ts) ≡ (includes s ts || t === s)
unfolding add includes
includes-add s t ts = ground (arith, includes-append s ts (t ∷ []), ===_iff t s)

-- No string stands twice in the list.
abbrev pub Distinct : List Str → Type 0
Distinct [] = Unit
Distinct (s ∷ ts) = (includes s ts ≡ false) × Distinct ts

pub includes_of_All-ne : (s : Str) (ts : List Str) → All (λ t. t ≢ s) ts → includes s ts ≡ false
unfolding includes
includes_of_All-ne s [] h = refl
includes_of_All-ne s (t ∷ ts) (p, h) = ground (arith, ===_iff t s, includes_of_All-ne s ts h)

pub Distinct-append_single :
    (s : Str) (ts : List Str) → Distinct ts → includes s ts ≡ false → Distinct (ts ++ s ∷ [])
unfolding includes
Distinct-append_single s [] d h = (refl, tt)
Distinct-append_single s (t ∷ ts) (p, d) h =
    ground (
      arith,
      includes-append t ts (s ∷ []),
      ===_iff t s,
      ===_iff s t,
      Distinct-append_single s ts d,
    )
