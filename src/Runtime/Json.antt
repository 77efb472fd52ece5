-- ===== src/Runtime/Json.antt =====
-- JavaScript values as the program builds them from ledger data.
use cantontrace.Base.{ℕ, Bool, Str, List, [], ◌∷◌}

pub data ℤ : Type 0 where
  pos : ℕ → ℤ
  negsuc : ℕ → ℤ

mutual
  pub data Json : Type 0 where
    undefined null : Json
    bool : Bool → Json
    num : ℤ → Json
    str : Str → Json
    arr : Elements → Json
    obj : Properties → Json

  pub data Elements : Type 0 where
    nil : Elements
    cons : Json → Elements → Elements

  pub data Properties : Type 0 where
    end : Properties
    property : Str → Json → Properties → Properties

abbrev pub properties : Properties → List (Str × Json)
properties end = []
properties (property k v ps) = (k, v) ∷ properties ps

-- An object literal or an object filled by a loop.
abbrev pub of_list : List (Str × Json) → Properties
of_list [] = end
of_list ((k, v) ∷ ps) = property k v (of_list ps)
