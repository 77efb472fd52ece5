-- ===== src/Runtime/Text.antt =====
-- Pieces of patterns, and `trim` with the white space that it takes away.
use cantontrace.Base.{
  ℕ, ◌≡◌, ◌≢◌, refl, [], ◌∷◌, ◌++◌, Option, none, some, Bool, true, false, Str, ◌===◌, ===_ne, All,
  all, ◌==◌, leb, ◌&&◌, ◌||◌, if◌then◌else◌,
}

-- The longest prefix of such characters, which must not be empty, and the rest.
abbrev pub span : (ℕ → Bool) → Str → Str × Str
span p [] = ([], [])
span p (c ∷ s) = let rest = span p s in if p c then (c ∷ rest.0, rest.1) else ([], c ∷ s)

unfoldable pub some_of : (ℕ → Bool) → Str → Option (Str × Str)
some_of p s = if (span p s).0 === [] then none else some (span p s)

unfoldable pub one_of : ℕ → Str → Option Str
one_of c [] = none
one_of c (d ∷ s) = if d == c then some s else none

-- White space and line terminators, as `trim` takes them.
abbrev pub is_space : ℕ → Bool
is_space c =
    leb 9 c && leb c 13
    || c == 32
    || c == 160
    || c == 5760
    || leb 8192 c && leb c 8202
    || c == 8232
    || c == 8233
    || c == 8239
    || c == 8287
    || c == 12288
    || c == 65279

unfoldable pub trim_start : Str → Str
trim_start [] = []
trim_start (c ∷ s) = if is_space c then trim_start s else c ∷ s

unfoldable pub trim_end : Str → Str
trim_end [] = []
trim_end (c ∷ s) = if all is_space (c ∷ s) then [] else c ∷ trim_end s

unfoldable pub trim : Str → Str
trim s = trim_end (trim_start s)

span-append :
    (p : ℕ → Bool) (s t : Str) (d : ℕ)
    → All (λ c. p c ≡ true) s
    → p d ≡ false
    → span p (s ++ d ∷ t) ≡ (s, d ∷ t)
span-append p [] t d h e = rw e refl
span-append p (c ∷ s) t d (q, h) e = rw (q, span-append p s t d h e) refl

pub some_of-append :
    (p : ℕ → Bool) (s t : Str) (d : ℕ)
    → (s ≢ []) × All (λ c. p c ≡ true) s
    → p d ≡ false
    → some_of p (s ++ d ∷ t) ≡ some (s, d ∷ t)
unfolding some_of
some_of-append p s t d (nonempty, h) e =
    rw (some_of, span-append p s t d h e, ===_ne s [] nonempty) refl
