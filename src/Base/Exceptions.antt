-- ===== src/Base/Exceptions.antt =====
-- C++ exceptions as values: what a function may throw, and the call chain that passes it on.
use mathlib.Core.Path.{◌≡◌, refl}
use mathlib.Core.Logic.{◌⊎◌, inl, inr}
use cdfs.Base.Strings.{Bytes}

-- Each constructor carries the text that `what()` returns.
pub data Exception : Type 0 where
  url_parse_exception : Bytes → Exception
  invalid_argument : Bytes → Exception
  runtime_error : Bytes → Exception
  filesystem_error : Bytes → Exception
  json_exception : Bytes → Exception
  bad_optional_access : Bytes → Exception

pub data Result {ℓ} (A : Type ℓ) : Type ℓ where
  ok : A → Result A
  throws : Exception → Result A

pub Result-cases {ℓ} :
    {A : Type ℓ} (r : Result A) → ((e : Exception) × (r ≡ throws e)) ⊎ ((a : A) × (r ≡ ok a))
Result-cases (ok a) = inr (a, refl)
Result-cases (throws e) = inl (e, refl)

module _ {ℓ κ} {A : Type ℓ} {B : Type κ} where
  infixl 5 ◌>>=◌
  abbrev pub ◌>>=◌ : Result A → (A → Result B) → Result B
  throws why >>= next = throws why
  ok value >>= next = next value

  -- A chain that returns has returned at each link.
  pub Result-map-eq-ok :
      (first : Result A) (next : A → Result B) {b : B}
      → first >>= next ≡ ok b
      → (value : A) × (first ≡ ok value) × (next value ≡ ok b)
  Result-map-eq-ok (throws why) next returns = cc
  Result-map-eq-ok (ok value) next returns = (value, refl, returns)
