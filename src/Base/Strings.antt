-- ===== src/Base/Strings.antt =====
-- `std::string` and `std::string_view` as lists of byte values, with the searches and cuts of the
-- standard library that the program calls.
use Prim.Native.Nat.{ℕ, zero, suc, ◌+◌, ◌-◌, ◌%◌, ◌^◌}
use Prim.Native.Char.{code}
use Prim.Native.String.{String}
use mathlib.Core.Path.{◌≡◌, refl, ap}
use mathlib.Core.Logic.{◌↔◌, ◌≢◌}
use mathlib.Core.Bool.{Bool, true, false, ◌&&◌}
use mathlib.Core.Option
use mathlib.Core.Option.{Option, none, some}
use mathlib.Core.List.{List, [], ◌∷◌, ◌++◌}
use native.Mathlib.Omega.{arith}
use cdfs.Base.Tests.{◌==◌, if◌then◌else◌}
use cdfs.Base.Lists.{get_elem?, take, drop, length, All}

abbrev pub Bytes : Type 0
Bytes = List ℕ

-- The bytes of an ASCII text of the source.
abbrev pub codes : String → Bytes
codes String.[] = []
codes (String.◌∷◌ c s) = code c ∷ codes s

unfoldable pub bytes_eq : Bytes → Bytes → Bool
bytes_eq [] [] = true
bytes_eq [] (b ∷ t) = false
bytes_eq (a ∷ s) [] = false
bytes_eq (a ∷ s) (b ∷ t) = (a == b) && bytes_eq s t

pub bytes_eq_refl : (s : Bytes) → bytes_eq s s ≡ true
unfolding bytes_eq
bytes_eq_refl [] = refl
bytes_eq_refl (a ∷ s) = ground (arith, bytes_eq_refl s)

pub eq_of_bytes_eq : (s t : Bytes) → bytes_eq s t ≡ true → s ≡ t
unfolding bytes_eq
eq_of_bytes_eq [] [] h = refl
eq_of_bytes_eq [] (b ∷ t) h = cc
eq_of_bytes_eq (a ∷ s) [] h = cc
eq_of_bytes_eq (a ∷ s) (b ∷ t) h = ground (arith, eq_of_bytes_eq s t)

pub bytes_eq_iff : (s t : Bytes) → (bytes_eq s t ≡ true) ↔ (s ≡ t)
bytes_eq_iff s t = (eq_of_bytes_eq s t, λ e. rw e (bytes_eq_refl t))

-- `s.find(c)`
unfoldable pub find_char : ℕ → Bytes → Option ℕ
find_char c [] = none
find_char c (b ∷ s) = if b == c then some 0 else Option.map suc (find_char c s)

-- `s.find(c, pos)`
unfoldable pub find_char_from : ℕ → Bytes → ℕ → Option ℕ
find_char_from c s zero = find_char c s
find_char_from c [] (suc pos) = none
find_char_from c (b ∷ s) (suc pos) = Option.map suc (find_char_from c s pos)

-- `s.compare(0, p.size(), p) == 0`
unfoldable pub starts_with : Bytes → Bytes → Bool
starts_with [] s = true
starts_with (a ∷ p) [] = false
starts_with (a ∷ p) (b ∷ s) = (a == b) && starts_with p s

-- `s.find(p)`
unfoldable pub find_str : Bytes → Bytes → Option ℕ
find_str p [] = if starts_with p [] then some 0 else none
find_str p (b ∷ s) =
    let rest = Option.map suc (find_str p s) in if starts_with p (b ∷ s) then some 0 else rest

-- `s.find(p, pos)`
unfoldable pub find_str_from : Bytes → Bytes → ℕ → Option ℕ
find_str_from p s zero = find_str p s
find_str_from p [] (suc pos) = none
find_str_from p (b ∷ s) (suc pos) = Option.map suc (find_str_from p s pos)

-- `s.find_first_of(set)`, the set as a test
unfoldable pub find_first_of : (ℕ → Bool) → Bytes → Option ℕ
find_first_of p [] = none
find_first_of p (b ∷ s) = if p b then some 0 else Option.map suc (find_first_of p s)

-- `s.find_first_of(set, pos)`
unfoldable pub find_first_of_from : (ℕ → Bool) → Bytes → ℕ → Option ℕ
find_first_of_from p s zero = find_first_of p s
find_first_of_from p [] (suc pos) = none
find_first_of_from p (b ∷ s) (suc pos) = Option.map suc (find_first_of_from p s pos)

-- `pos < s.size() && s[pos] == c`
unfoldable pub is_at : Bytes → ℕ → ℕ → Bool
is_at s pos c = elim (get_elem? s pos) [ none ↦ false | some b ↦ b == c ]

-- `a - b` on `size_t`
abbrev pub size_sub : ℕ → ℕ → ℕ
size_sub a b = (a + 2 ^ 64 - b) % 2 ^ 64

-- `s.substr(pos, n)` where `pos` is not past the end
abbrev pub substr : Bytes → ℕ → ℕ → Bytes
substr s pos n = take n (drop pos s)

abbrev pub Avoids : ℕ → Bytes → Type 0
Avoids c s = All (λ b. b ≢ c) s

pub find_char-append :
    (c : ℕ) (s t : Bytes) → Avoids c s → find_char c (s ++ c ∷ t) ≡ some (length s)
unfolding find_char
find_char-append c [] t h = ground arith
find_char-append c (b ∷ s) t (p, h) = rw (find_char-append c s t h) (ground arith)

pub find_char-eq-none : (c : ℕ) (s : Bytes) → Avoids c s → find_char c s ≡ none
unfolding find_char
find_char-eq-none c [] h = refl
find_char-eq-none c (b ∷ s) (p, h) = rw (find_char-eq-none c s h) (ground arith)

-- A character that `find` does not find is not there.
pub Avoids-of_find_char : (c : ℕ) (s : Bytes) → find_char c s ≡ none → Avoids c s
unfolding find_char
Avoids-of_find_char c [] h = tt
Avoids-of_find_char c (b ∷ s) h = ((λ e. ground arith), Avoids-of_find_char c s (ground arith))

-- What stands before the position that `find` gives avoids the character, and the character is
-- there.
pub find_char-eq-some :
    (c : ℕ) (s : Bytes) (n : ℕ)
    → find_char c s ≡ some n
    → Avoids c (take n s) × (s ≡ take n s ++ c ∷ drop (suc n) s)
unfolding find_char
find_char-eq-some c [] n h = cc
find_char-eq-some c (b ∷ s) zero h = (tt, rw (eq h))
  where
    eq : find_char c (b ∷ s) ≡ some 0 → b ≡ c
    eq h' = ground arith
find_char-eq-some c (b ∷ s) (suc n) h =
    let ih = find_char-eq-some c s n (ground arith) in
    (((λ e. ground arith), ih.0), ap (λ r. b ∷ r) ih.1)
