-- ===== src/Base/Int.antt =====
-- `int`: its values, its decimal text, and `std::stoi`.
use Prim.Native.Nat.{ℕ, zero, suc, ◌+◌, ◌*◌, ◌/◌, ◌%◌, ◌^◌, ◌≤◌, ◌<◌}
use mathlib.Core.Bool.{Bool, true, false}
use mathlib.Core.Option.{Option, none, some}
use mathlib.Core.List.{[], ◌∷◌}
use cdfs.Base.Lists.{length, length-append}
use native.Mathlib.Omega.{arith}
use cdfs.Base.Tests.{ltb, ◌==◌, if◌then◌else◌}
use cdfs.Base.Strings.{Bytes}
use cdfs.Base.Decimal.{digits_from, to_string, skip_space, read_number}

-- `negsuc n` is -(n + 1).
pub data ℤ : Type 0 where
  pos : ℕ → ℤ
  negsuc : ℕ → ℤ

-- The text that `%d` and `std::to_string` give.
unfoldable pub int_text : ℤ → Bytes
int_text (pos n) = to_string n
int_text (negsuc n) = b'-' ∷ to_string (suc n)

-- The values of a 32-bit `int`.
abbrev pub IsInt : ℤ → Type 0
IsInt (pos n) = n < 2 ^ 31
IsInt (negsuc n) = n < 2 ^ 31

abbrev pos_in_int : Option ℕ → Option ℤ
pos_in_int none = none
pos_in_int (some n) = if ltb n (2 ^ 31) then some (pos n) else none

abbrev neg_in_int : Option ℕ → Option ℤ
neg_in_int none = none
neg_in_int (some zero) = some (pos 0)
neg_in_int (some (suc n)) = if ltb n (2 ^ 31) then some (negsuc n) else none

unfoldable pub read_int : Bytes → Option ℤ
read_int [] = none
read_int (c ∷ s) =
    if c == b'-'
    then neg_in_int (read_number s)
    else if c == b'+'
    then pos_in_int (read_number s)
    else pos_in_int (read_number (c ∷ s))

-- `std::stoi`: `none` where it throws.
unfoldable pub stoi : Bytes → Option ℤ
stoi s = read_int (skip_space s)

abbrev pub int_lt : ℤ → ℤ → Bool
int_lt (pos a) (pos b) = ltb a b
int_lt (pos a) (negsuc b) = false
int_lt (negsuc a) (pos b) = true
int_lt (negsuc a) (negsuc b) = ltb b a

abbrev pub pow10 : ℕ → ℕ
pow10 zero = 1
pow10 (suc k) = 10 * pow10 k

length-digits_from : (fuel n k : ℕ) → n < pow10 (suc k) → length (digits_from fuel n) ≤ suc k
unfolding digits_from
length-digits_from zero n k h = omega arith
length-digits_from (suc fuel) n zero h = ground arith
length-digits_from (suc fuel) n (suc k) h = ground (
  arith,
  length-digits_from fuel (n / 10) k,
  length-append (digits_from fuel (n / 10)) ((n % 10 + b'0') ∷ []),
)

pub length-to_string : (k n : ℕ) → n < pow10 (suc k) → length (to_string n) ≤ suc k
unfolding to_string
length-to_string k n h = length-digits_from (suc n) n k h

pub length-int_text : (v : ℤ) → IsInt v → length (int_text v) ≤ 11
unfolding int_text
length-int_text (pos n) h = omega (arith, length-to_string 9 n (omega arith))
length-int_text (negsuc n) h = omega (arith, length-to_string 9 (suc n) (omega arith))
