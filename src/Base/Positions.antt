-- ===== src/Base/Positions.antt =====
-- What stands at a position, where a text is given as what is before it and what is behind.
use Prim.Native.Nat.{ℕ, zero, suc, ◌≤◌}
use mathlib.Core.Path.{◌≡◌, refl}
use mathlib.Core.Logic.{◌≢◌}
use mathlib.Core.Bool.{true}
use mathlib.Core.Option.{none, some}
use mathlib.Core.List.{[], ◌∷◌, ◌++◌}
use native.Mathlib.Omega.{arith}
use cdfs.Base.Lists.{drop, length, take-length-append, drop-length-append}
use cdfs.Base.Strings.{
  Bytes, starts_with, find_str, find_str_from, find_char, find_char_from, is_at, bytes_eq, substr,
}
use cdfs.Base.Search.{
  shift, starts_with-append, length-le_of_starts_with, find_str-le, find_str_from-append,
}

module _ {body : Bytes} {n : ℕ} (pre s : Bytes) (split : body ≡ pre ++ s)
    (at : n ≡ length pre) where
  pub drop_at : drop n body ≡ s
  drop_at = rw (split, at) (drop-length-append pre s)

  pub find_str_from_at : (p : Bytes) → find_str_from p body n ≡ shift n (find_str p s)
  find_str_from_at p = rw (split, at) (find_str_from-append p pre s)

find_char_from-append :
    (c : ℕ) (pre s : Bytes)
    → find_char_from c (pre ++ s) (length pre) ≡ shift (length pre) (find_char c s)
unfolding find_char_from
find_char_from-append c [] s = ground arith
find_char_from-append c (b ∷ pre) s = ground (arith, find_char_from-append c pre s)

pub find_char_from_at :
    {body : Bytes} {n : ℕ} (pre s : Bytes)
    → body ≡ pre ++ s
    → n ≡ length pre
    → (c : ℕ) → find_char_from c body n ≡ shift n (find_char c s)
find_char_from_at pre s split at c = rw (split, at) (find_char_from-append c pre s)

is_at-append : (pre : Bytes) (c : ℕ) (s : Bytes) → is_at (pre ++ c ∷ s) (length pre) c ≡ true
unfolding is_at
is_at-append [] c s = ground arith
is_at-append (b ∷ pre) c s = is_at-append pre c s

pub is_at_of_split :
    {body : Bytes} {n : ℕ} (pre : Bytes) (c : ℕ) (s : Bytes)
    → body ≡ pre ++ c ∷ s
    → n ≡ length pre
    → is_at body n c ≡ true
is_at_of_split pre c s split at = rw (split, at) (is_at-append pre c s)

pub substr_of_split :
    {body : Bytes} {n k : ℕ} (pre x s : Bytes)
    → body ≡ pre ++ (x ++ s)
    → n ≡ length pre
    → k ≡ length x
    → substr body n k ≡ x
substr_of_split pre x s split at long =
    rw (split, at, long) (rw (drop-length-append pre (x ++ s)) (take-length-append x s))

pub find_str_of_starts_with : (p s : Bytes) → starts_with p s ≡ true → find_str p s ≡ some 0
unfolding find_str
find_str_of_starts_with p [] h = ground arith
find_str_of_starts_with p (b ∷ s) h = ground arith

pub find_str-append_self : (p s : Bytes) → find_str p (p ++ s) ≡ some 0
find_str-append_self p s = find_str_of_starts_with p (p ++ s) (starts_with-append p s)

starts_with-append_left :
    (p s t : Bytes) → length p ≤ length s → starts_with p (s ++ t) ≡ starts_with p s
unfolding starts_with
starts_with-append_left [] s t h = refl
starts_with-append_left (a ∷ p) [] t h = absurd (omega arith)
starts_with-append_left (a ∷ p) (b ∷ s) t h =
    ground (arith, starts_with-append_left p s t (omega arith))

starts_with_nothing :
    (p : Bytes) (n : ℕ) → find_str p [] ≡ some n → (n ≡ 0) × (starts_with p [] ≡ true)
unfolding find_str
starts_with_nothing p n e = ground arith

starts_with_empty : (p t : Bytes) → starts_with p [] ≡ true → starts_with p t ≡ true
unfolding starts_with
starts_with_empty [] t h = refl
starts_with_empty (a ∷ p) t h = cc

-- What is found in a text is found there too when more follows.
pub find_str-append_left :
    (p s t : Bytes) (n : ℕ) → find_str p s ≡ some n → find_str p (s ++ t) ≡ some n
unfolding find_str
find_str-append_left p [] t n e =
    let (zero_at, found) = starts_with_nothing p n e in
    rw zero_at (find_str_of_starts_with p t (starts_with_empty p t found))
find_str-append_left p (b ∷ s) t zero e =
    ground (arith, length-le_of_starts_with p (b ∷ s), starts_with-append_left p (b ∷ s) t)
find_str-append_left p (b ∷ s) t (suc n) e =
    ground
      (arith, find_str-le p s n, find_str-append_left p s t n, starts_with-append_left p (b ∷ s) t)

pub bytes_eq-append : (p s t : Bytes) → bytes_eq (p ++ s) (p ++ t) ≡ bytes_eq s t
unfolding bytes_eq
bytes_eq-append [] s t = refl
bytes_eq-append (a ∷ p) s t = ground (arith, bytes_eq-append p s t)

pub find_str-nil : (p : Bytes) → p ≢ [] → find_str p [] ≡ none
unfolding find_str starts_with
find_str-nil [] h = absurd (h refl)
find_str-nil (a ∷ p) h = refl
