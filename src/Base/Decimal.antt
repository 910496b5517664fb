-- ===== src/Base/Decimal.antt =====
-- `std::to_string`, `std::stoul` and `std::stoi` on decimal text.
use Prim.Native.Nat.{ℕ, zero, suc, ◌+◌, ◌-◌, ◌*◌, ◌/◌, ◌%◌, ◌^◌, ◌≤◌, ◌<◌}
use mathlib.Core.Path.{◌≡◌, ap, ◌∙◌}
use mathlib.Core.Bool.{Bool, true, false, ◌&&◌, ◌||◌}
use mathlib.Core.Option.{Option, none, some}
use mathlib.Core.List.{[], ◌∷◌, ◌++◌}
use native.Mathlib.Omega.{arith}
use cdfs.Base.Tests.{ltb, leb, ◌==◌, if◌then◌else◌, Bool-cases}
use cdfs.Base.Lists.{length, length-append, All, All-append}
use cdfs.Base.Strings.{Bytes}
use mathlib.Core.Logic.{inl, inr}

-- The decimal digits, most significant first. Every round divides by ten, so `n + 1` bounds them.
unfoldable pub digits_from : ℕ → ℕ → Bytes
digits_from zero n = []
digits_from (suc fuel) n =
    let rest = digits_from fuel (n / 10) ++ (n % 10 + b'0') ∷ [] in
    if ltb n 10 then (n + b'0') ∷ [] else rest

unfoldable pub to_string : ℕ → Bytes
to_string n = digits_from (suc n) n

abbrev pub is_digit : ℕ → Bool
is_digit c = leb b'0' c && leb c b'9'

-- The value of the digits that a text begins with, after a value read so far.
unfoldable pub read_digits : ℕ → Bytes → ℕ
read_digits acc [] = acc
read_digits acc (c ∷ s) =
    let more = read_digits (acc * 10 + (c - b'0')) s in if is_digit c then more else acc

-- `std::isspace`, which the conversions pass over first
abbrev pub is_space : ℕ → Bool
is_space c = (c == b' ') || (leb 9 c && leb c 13)

unfoldable pub skip_space : Bytes → Bytes
skip_space [] = []
skip_space (c ∷ s) = let rest = skip_space s in if is_space c then rest else c ∷ s

-- `none` where there is no digit, which throws `std::invalid_argument`
unfoldable pub read_number : Bytes → Option ℕ
read_number [] = none
read_number (c ∷ s) = if is_digit c then some (read_digits 0 (c ∷ s)) else none

abbrev negate_64 : Option ℕ → Option ℕ
negate_64 none = none
negate_64 (some n) = if ltb n (2 ^ 64) then some ((2 ^ 64 - n) % 2 ^ 64) else none

abbrev in_64 : Option ℕ → Option ℕ
in_64 none = none
in_64 (some n) = if ltb n (2 ^ 64) then some n else none

unfoldable pub read_signed : Bytes → Option ℕ
read_signed [] = none
read_signed (c ∷ s) =
    if c == b'-'
    then negate_64 (read_number s)
    else if c == b'+'
    then in_64 (read_number s)
    else in_64 (read_number (c ∷ s))

-- `std::stoul` on 64 bits: `none` where it throws. A minus sign negates modulo 2^64.
unfoldable pub stoul : Bytes → Option ℕ
stoul s = read_signed (skip_space s)

read_digits-append :
    (acc : ℕ) (s : Bytes) (d : ℕ)
    → All (λ c. is_digit c ≡ true) s
    → d < 10
    → read_digits acc (s ++ (d + b'0') ∷ []) ≡ read_digits acc s * 10 + d
unfolding read_digits
read_digits-append acc [] d h lt = ground arith
read_digits-append acc (c ∷ s) d (p, h) lt =
    rw p (read_digits-append (acc * 10 + (c - b'0')) s d h lt)

is_digit-add : (d : ℕ) → d < 10 → is_digit (d + b'0') ≡ true
is_digit-add d h = ground arith

read_one : (d : ℕ) → d < 10 → read_digits 0 ((d + b'0') ∷ []) ≡ d
unfolding read_digits
read_one d h = ground arith

digits_from-lem :
    (fuel n : ℕ)
    → n < fuel
    → All (λ c. is_digit c ≡ true) (digits_from fuel n) × (read_digits 0 (digits_from fuel n) ≡ n)
unfolding digits_from
digits_from-lem zero n h = absurd (omega arith)
digits_from-lem (suc fuel) n h = elim (Bool-cases (ltb n 10)) [
  | inl small ↦ rw small ((is_digit-add n (ground arith), tt), read_one n (ground arith))
  | inr large ↦
      let (ok, value) = digits_from-lem fuel (n / 10) (ground arith) in
      rw large (
        All-append (λ c. is_digit c ≡ true) (digits_from fuel (n / 10)) ((n % 10 + b'0') ∷ []) ok
            (is_digit-add (n % 10) (omega arith), tt),
        read_digits-append 0 (digits_from fuel (n / 10)) (n % 10) ok (omega arith)
            ∙ omega (arith, value),
      )
]

digits_from_not_empty : (fuel n : ℕ) → 1 ≤ length (digits_from (suc fuel) n)
unfolding digits_from
digits_from_not_empty fuel n =
    ground (arith, length-append (digits_from fuel (n / 10)) ((n % 10 + b'0') ∷ []))

stoul_of_digits :
    (s : Bytes)
    → 1 ≤ length s
    → All (λ c. is_digit c ≡ true) s
    → read_digits 0 s < 2 ^ 64
    → stoul s ≡ some (read_digits 0 s)
unfolding stoul skip_space read_signed read_number
stoul_of_digits [] ne h lt = absurd (omega arith)
stoul_of_digits (c ∷ s) ne (p, h) lt =
    let blank : is_space c ≡ false = ground arith in
    let minus : (c == b'-') ≡ false = ground arith in
    let plus : (c == b'+') ≡ false = ground arith in
    let small : ltb (read_digits 0 (c ∷ s)) (2 ^ 64) ≡ true = ground arith in
    rw blank (rw (minus, plus) (rw p (rw small)))

pub to_string-digits : (n : ℕ) → All (λ c. is_digit c ≡ true) (to_string n)
unfolding to_string
to_string-digits n = (digits_from-lem (suc n) n (omega arith)).0

-- Reading back a printed number gives the number.
pub stoul-to_string : (n : ℕ) → n < 2 ^ 64 → stoul (to_string n) ≡ some n
unfolding to_string
stoul-to_string n h =
    let (ok, value) = digits_from-lem (suc n) n (omega arith) in
    let lt : read_digits 0 (digits_from (suc n) n) < 2 ^ 64 = omega (arith, value) in
    stoul_of_digits (digits_from (suc n) n) (digits_from_not_empty n n) ok lt ∙ ap some value
