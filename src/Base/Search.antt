-- ===== src/Base/Search.antt =====
-- Where `find` finds a text.
use Prim.Native.Nat.{ℕ, zero, suc, ◌+◌, ◌≤◌}
use mathlib.Core.Path.{◌≡◌, refl}
use mathlib.Core.Bool.{true}
use mathlib.Core.Option.{Option, none, some}
use mathlib.Core.List.{[], ◌∷◌, ◌++◌}
use native.Mathlib.Omega.{arith}
use cdfs.Base.Lists.{drop, length}
use cdfs.Base.Strings.{Bytes, starts_with, find_str, find_str_from, Avoids}

abbrev pub shift : ℕ → Option ℕ → Option ℕ
shift n none = none
shift n (some m) = some (n + m)

pub starts_with-append : (p s : Bytes) → starts_with p (p ++ s) ≡ true
unfolding starts_with
starts_with-append [] s = refl
starts_with-append (a ∷ p) s = ground (arith, starts_with-append p s)

pub starts_with-eq-append : (p s : Bytes) → starts_with p s ≡ true → s ≡ p ++ drop (length p) s
unfolding starts_with
starts_with-eq-append [] s h = refl
starts_with-eq-append (a ∷ p) [] h = cc
starts_with-eq-append (a ∷ p) (b ∷ s) h = ground (arith, starts_with-eq-append p s)

pub length-le_of_starts_with : (p s : Bytes) → starts_with p s ≡ true → length p ≤ length s
unfolding starts_with
length-le_of_starts_with [] s h = omega arith
length-le_of_starts_with (a ∷ p) [] h = cc
length-le_of_starts_with (a ∷ p) (b ∷ s) h = ground (arith, length-le_of_starts_with p s)

-- A match lies inside the text.
pub find_str-le : (p s : Bytes) (n : ℕ) → find_str p s ≡ some n → n + length p ≤ length s
unfolding find_str
find_str-le p [] n h = ground (arith, length-le_of_starts_with p [])
find_str-le p (b ∷ s) zero h = ground (arith, length-le_of_starts_with p (b ∷ s))
find_str-le p (b ∷ s) (suc n) h = ground (arith, find_str-le p s n)

pub find_str_from-append :
    (p pre s : Bytes) → find_str_from p (pre ++ s) (length pre) ≡ shift (length pre) (find_str p s)
unfolding find_str_from
find_str_from-append p [] s = ground arith
find_str_from-append p (b ∷ pre) s = ground (arith, find_str_from-append p pre s)

pub find_str_from-le :
    (p s : Bytes) (pos n : ℕ)
    → find_str_from p s pos ≡ some n
    → (pos ≤ n) × (n + length p ≤ length s)
unfolding find_str_from
find_str_from-le p s zero n h = (omega arith, find_str-le p s n h)
find_str_from-le p [] (suc pos) n h = cc
find_str_from-le p (b ∷ s) (suc pos) zero h = ground arith
find_str_from-le p (b ∷ s) (suc pos) (suc n) h = ground (arith, find_str_from-le p s pos n)

starts_with-append_stop :
    (c : ℕ) (p s t : Bytes) → Avoids c p → starts_with p (s ++ c ∷ t) ≡ starts_with p s
unfolding starts_with
starts_with-append_stop c [] s t h = refl
starts_with-append_stop c (a ∷ p) [] t (q, h) = ground arith
starts_with-append_stop c (a ∷ p) (b ∷ s) t (q, h) =
    ground (arith, starts_with-append_stop c p s t h)

-- A text that has not the character `c` is found only behind the `c` where it is not found before.
pub find_str-append_stop :
    (c : ℕ) (p s t : Bytes)
    → Avoids c p
    → find_str p s ≡ none
    → find_str p (s ++ c ∷ t) ≡ shift (length s + 1) (find_str p t)
unfolding find_str
find_str-append_stop c p [] t h e = ground (arith, starts_with-append_stop c p [] t h)
find_str-append_stop c p (b ∷ s) t h e =
    ground (arith, find_str-append_stop c p s t h, starts_with-append_stop c p (b ∷ s) t h)
