-- ===== src/Database/Order.antt =====
-- The order of the keys of LevelDB, and where the keys with a common prefix stand in it.
use cdfs.Base.{◌≡◌, refl, true, false, [], ◌∷◌, arith, Bytes, bytes_eq, starts_with}
use cdfs.Database.{bytes_ltb}

pub bytes_ltb_trans :
    (s t u : Bytes) → bytes_ltb s t ≡ true → bytes_ltb t u ≡ true → bytes_ltb s u ≡ true
unfolding bytes_ltb
bytes_ltb_trans [] [] u h k = cc
bytes_ltb_trans [] (b ∷ t) [] h k = cc
bytes_ltb_trans [] (b ∷ t) (c ∷ u) h k = refl
bytes_ltb_trans (a ∷ s) [] u h k = cc
bytes_ltb_trans (a ∷ s) (b ∷ t) [] h k = cc
bytes_ltb_trans (a ∷ s) (b ∷ t) (c ∷ u) h k = ground (arith, bytes_ltb_trans s t u)

-- Of two keys, one is below the other, or they are equal.
pub bytes_ltb_of_ne :
    (s t : Bytes) → bytes_eq s t ≡ false → bytes_ltb s t ≡ false → bytes_ltb t s ≡ true
unfolding bytes_ltb bytes_eq
bytes_ltb_of_ne [] [] h k = cc
bytes_ltb_of_ne [] (b ∷ t) h k = cc
bytes_ltb_of_ne (a ∷ s) [] h k = refl
bytes_ltb_of_ne (a ∷ s) (b ∷ t) h k = ground (arith, bytes_ltb_of_ne s t)

-- A key below a prefix does not start with it.
pub starts_with_of_below : (p k : Bytes) → bytes_ltb k p ≡ true → starts_with p k ≡ false
unfolding bytes_ltb starts_with
starts_with_of_below [] [] h = cc
starts_with_of_below [] (b ∷ k) h = cc
starts_with_of_below (a ∷ p) [] h = refl
starts_with_of_below (a ∷ p) (b ∷ k) h = ground (arith, starts_with_of_below p k)

-- Behind a key that is not below a prefix and does not start with it, no key starts with it.
pub starts_with_of_passed :
    (p k j : Bytes)
    → bytes_ltb k p ≡ false
    → starts_with p k ≡ false
    → bytes_ltb k j ≡ true
    → starts_with p j ≡ false
unfolding bytes_ltb starts_with
starts_with_of_passed [] k j h g b = cc
starts_with_of_passed (a ∷ p) [] j h g b = cc
starts_with_of_passed (a ∷ p) (c ∷ k) [] h g b = refl
starts_with_of_passed (a ∷ p) (c ∷ k) (d ∷ j) h g b = ground (arith, starts_with_of_passed p k j)

-- A key below another differs from it.
pub bytes_eq_of_below : (s t : Bytes) → bytes_ltb s t ≡ true → bytes_eq s t ≡ false
unfolding bytes_ltb bytes_eq
bytes_eq_of_below [] [] h = cc
bytes_eq_of_below [] (b ∷ t) h = refl
bytes_eq_of_below (a ∷ s) [] h = refl
bytes_eq_of_below (a ∷ s) (b ∷ t) h = ground (arith, bytes_eq_of_below s t)
