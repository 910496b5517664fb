-- ===== src/Json.antt =====
-- The JSON documents that the handlers build, as nlohmann::json holds them.
use cdfs.Base.{ℕ, ℤ, Bytes, List, [], ◌∷◌}

mutual
  pub data Json : Type 0 where
    null : Json
    number : ℕ → Json
    integer : ℤ → Json
    string : Bytes → Json
    array : Items → Json
    object : Members → Json

  pub data Items : Type 0 where
    nil : Items
    cons : Json → Items → Items

  pub data Members : Type 0 where
    end : Members
    member : Bytes → Json → Members → Members

-- A list of members, in the source's order.
abbrev pub members : List (Bytes × Json) → Members
members [] = end
members ((k, v) ∷ r) = member k v (members r)

-- A `std::vector<int>`.
abbrev pub integers : List ℤ → Items
integers [] = nil
integers (n ∷ r) = cons (integer n) (integers r)
