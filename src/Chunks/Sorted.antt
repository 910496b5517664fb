-- ===== src/Chunks/Sorted.antt =====
-- The order in which the chunks are merged.
use mathlib.Core.List.{Perm}
use mathlib.Core.List.Perm
use cdfs.Base.{
  ◌≡◌, true, false, List, [], ◌∷◌, arith, Bool-cases, inl, inr, All, ℤ, pos, negsuc, int_lt,
}
use cdfs.Chunks.{sort_insert, sort_indices}

-- Not above.
abbrev pub Le : ℤ → ℤ → Type 0
Le a b = int_lt b a ≡ false

-- No later number is smaller.
abbrev pub IsSorted : List ℤ → Type 0
IsSorted [] = Unit
IsSorted (x ∷ xs) = All (Le x) xs × IsSorted xs

Le-trans : (a b c : ℤ) → Le a b → Le b c → Le a c
Le-trans (pos a) (pos b) (pos c) h k = ground arith
Le-trans (pos a) (pos b) (negsuc c) h k = ground arith
Le-trans (pos a) (negsuc b) c h k = cc
Le-trans (negsuc a) b (pos c) h k = ground arith
Le-trans (negsuc a) (pos b) (negsuc c) h k = cc
Le-trans (negsuc a) (negsuc b) (negsuc c) h k = ground arith

Le-of_lt : (a b : ℤ) → int_lt a b ≡ true → Le a b
Le-of_lt (pos a) (pos b) h = ground arith
Le-of_lt (pos a) (negsuc b) h = cc
Le-of_lt (negsuc a) (pos b) h = ground arith
Le-of_lt (negsuc a) (negsuc b) h = ground arith

All-Le : (a b : ℤ) (xs : List ℤ) → Le a b → All (Le b) xs → All (Le a) xs
All-Le a b [] h k = tt
All-Le a b (x ∷ xs) h (p, k) = (Le-trans a b x h p, All-Le a b xs h k)

All-sort_insert : (a n : ℤ) (xs : List ℤ) → Le a n → All (Le a) xs → All (Le a) (sort_insert n xs)
unfolding sort_insert
All-sort_insert a n [] h k = (h, tt)
All-sort_insert a n (x ∷ xs) h (p, k) = elim (Bool-cases (int_lt x n)) [
  | inl t ↦ rw t (p, All-sort_insert a n xs h k)
  | inr t ↦ rw t (h, (p, k))
]

sort_insert-IsSorted : (n : ℤ) (xs : List ℤ) → IsSorted xs → IsSorted (sort_insert n xs)
unfolding sort_insert
sort_insert-IsSorted n [] h = (tt, tt)
sort_insert-IsSorted n (x ∷ xs) (p, h) = elim (Bool-cases (int_lt x n)) [
  | inl t ↦ rw t (All-sort_insert x n xs (Le-of_lt x n t) p, sort_insert-IsSorted n xs h)
  | inr t ↦ rw t ((t, All-Le n x xs t p), (p, h))
]

sort_insert-perm : (n : ℤ) (xs : List ℤ) → Perm (sort_insert n xs) (n ∷ xs)
unfolding sort_insert
sort_insert-perm n [] = Perm.refl (n ∷ [])
sort_insert-perm n (x ∷ xs) = elim (Bool-cases (int_lt x n)) [
  | inl t ↦ rw t (Perm.trans (Perm.cons x (sort_insert-perm n xs)) (Perm.swap n x xs))
  | inr t ↦ rw t (Perm.refl (n ∷ x ∷ xs))
]

pub sort_indices-IsSorted : (ns : List ℤ) → IsSorted (sort_indices ns)
unfolding sort_indices
sort_indices-IsSorted [] = tt
sort_indices-IsSorted (n ∷ ns) = sort_insert-IsSorted n (sort_indices ns) (sort_indices-IsSorted ns)

pub sort_indices-perm : (ns : List ℤ) → Perm (sort_indices ns) ns
unfolding sort_indices
sort_indices-perm [] = Perm.refl []
sort_indices-perm (n ∷ ns) =
    Perm.trans (sort_insert-perm n (sort_indices ns)) (Perm.cons n (sort_indices-perm ns))
