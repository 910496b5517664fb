-- ===== src/Database/Scan.antt =====
-- What an iterator finds that starts at a prefix and stops at the first key without it.
use mathlib.Core.List.{Memᴰ}
use mathlib.Core.List.Memᴰ
use cdfs.Base.{
  ◌≡◌, refl, sym, ap, inl, inr, true, false, some, List, [], ◌∷◌, if◌then◌else◌, Bool-cases, Bytes,
  bytes_eq, bytes_eq_iff, bytes_eq_refl, All, starts_with, lookup,
}
use cdfs.Database.{bytes_ltb, Entry, IsOrdered, seek}
use cdfs.Database.Order.{
  bytes_ltb_trans, bytes_eq_of_below, starts_with_of_below, starts_with_of_passed,
}

-- The entries whose keys start with a prefix.
unfoldable pub with_prefix : Bytes → List Entry → List Entry
with_prefix p [] = []
with_prefix p (e ∷ es) = let rest = with_prefix p es in if starts_with p e.0 then e ∷ rest else rest

-- The entries before the first key without the prefix.
unfoldable pub run_of_prefix : Bytes → List Entry → List Entry
run_of_prefix p [] = []
run_of_prefix p (e ∷ es) =
    let rest = run_of_prefix p es in if starts_with p e.0 then e ∷ rest else []

with_prefix_of_none :
    (p : Bytes) (es : List Entry) → All (λ x. starts_with p x.0 ≡ false) es → with_prefix p es ≡ []
unfolding with_prefix
with_prefix_of_none p [] h = refl
with_prefix_of_none p (e ∷ es) (q, h) = rw q (with_prefix_of_none p es h)

none_of_passed :
    (p k : Bytes) (es : List Entry)
    → bytes_ltb k p ≡ false
    → starts_with p k ≡ false
    → All (λ x. bytes_ltb k x.0 ≡ true) es
    → All (λ x. starts_with p x.0 ≡ false) es
none_of_passed p k [] h g a = tt
none_of_passed p k (e ∷ es) h g (b, a) =
    (starts_with_of_passed p k e.0 h g b, none_of_passed p k es h g a)

abbrev IsAbove : Bytes → List Entry → Type 0
IsAbove p es = All (λ x. bytes_ltb x.0 p ≡ false) es

-- Behind a key that is not below the prefix, none is.
IsAbove-of_key :
    (p k : Bytes) (es : List Entry)
    → bytes_ltb k p ≡ false
    → All (λ x. bytes_ltb k x.0 ≡ true) es
    → IsAbove p es
IsAbove-of_key p k [] h a = tt
IsAbove-of_key p k (e ∷ es) h (b, a) = (
  elim (Bool-cases (bytes_ltb e.0 p)) [
    | inl below ↦ absurd (cc (bytes_ltb_trans k e.0 p b below, h))
    | inr f ↦ f
  ],
  IsAbove-of_key p k es h a,
)

run_of_prefix_of_above :
    (p : Bytes) (es : List Entry)
    → IsAbove p es
    → IsOrdered es
    → run_of_prefix p es ≡ with_prefix p es
unfolding with_prefix run_of_prefix
run_of_prefix_of_above p [] h o = refl
run_of_prefix_of_above p (e ∷ es) (h, hs) (a, o) = elim (Bool-cases (starts_with p e.0)) [
  | inl t ↦ rw t (ap (λ r. e ∷ r) (run_of_prefix_of_above p es hs o))
  | inr f ↦ rw f (sym (with_prefix_of_none p es (none_of_passed p e.0 es h f a)))
]

-- The iterator that seeks a prefix and stops at the first key without it goes over all the
-- entries with the prefix, and no others.
pub run_of_prefix-seek :
    (p : Bytes) (es : List Entry) → IsOrdered es → run_of_prefix p (seek p es) ≡ with_prefix p es
unfolding seek with_prefix
run_of_prefix-seek p [] h = run_of_prefix_of_above p [] tt tt
run_of_prefix-seek p (e ∷ es) (a, h) = elim (Bool-cases (bytes_ltb e.0 p)) [
  | inl below ↦ rw below (rw (starts_with_of_below p e.0 below) (run_of_prefix-seek p es h))
  | inr above ↦
      rw above (run_of_prefix_of_above p (e ∷ es) (above, IsAbove-of_key p e.0 es above a) (a, h))
]

-- An entry of the list, by its key and its value.
pub Memᴰ_of_lookup : (k v : Bytes) (es : List Entry) → lookup k es ≡ some v → Memᴰ (k, v) es
unfolding lookup
Memᴰ_of_lookup k v [] e = cc
Memᴰ_of_lookup k v ((j, w) ∷ es) e = elim (Bool-cases (bytes_eq j k)) [
  | inl t ↦
      let same : v ≡ w = cc (rw t at e) in Memᴰ.head (λ i. (sym ((bytes_eq_iff j k).0 t) i, same i))
  | inr f ↦ Memᴰ.tail (Memᴰ_of_lookup k v es (rw f at e))
]

above_of_Memᴰ :
    (j k v : Bytes) (es : List Entry)
    → All (λ x. bytes_ltb j x.0 ≡ true) es
    → Memᴰ (k, v) es
    → bytes_ltb j k ≡ true
above_of_Memᴰ j k v [] a m = elim m [ ]
above_of_Memᴰ j k v (e ∷ es) (b, a) (Memᴰ.head p) = rw (ap (λ (x : Entry). x.0) p) b
above_of_Memᴰ j k v (e ∷ es) (b, a) (Memᴰ.tail m) = above_of_Memᴰ j k v es a m

pub lookup_of_Memᴰ :
    (k v : Bytes) (es : List Entry) → IsOrdered es → Memᴰ (k, v) es → lookup k es ≡ some v
unfolding lookup
lookup_of_Memᴰ k v [] h m = elim m [ ]
lookup_of_Memᴰ k v (e ∷ es) (a, h) (Memᴰ.head p) = rw (sym p) (rw (bytes_eq_refl k))
lookup_of_Memᴰ k v (e ∷ es) (a, h) (Memᴰ.tail m) =
    rw (bytes_eq_of_below e.0 k (above_of_Memᴰ e.0 k v es a m)) (lookup_of_Memᴰ k v es h m)

-- The entries with the prefix are those of the list whose keys start with it.
pub of_with_prefix :
    (p : Bytes) (x : Entry) (es : List Entry)
    → Memᴰ x (with_prefix p es)
    → Memᴰ x es × (starts_with p x.0 ≡ true)
unfolding with_prefix
of_with_prefix p x [] m = elim m [ ]
of_with_prefix p x (e ∷ es) m = elim (Bool-cases (starts_with p e.0)) [
  | inr f ↦ let (n, h) = of_with_prefix p x es (rw f at m) in (Memᴰ.tail n, h)
  | inl t ↦ elim (Memᴰ.cases_cons {b = e} {l = with_prefix p es} (rw t at m)) [
    | inl same ↦ (Memᴰ.head same, rw same t)
    | inr n ↦ let (o, h) = of_with_prefix p x es n in (Memᴰ.tail o, h)
  ]
]

pub to_with_prefix :
    (p : Bytes) (x : Entry) (es : List Entry)
    → Memᴰ x es
    → starts_with p x.0 ≡ true
    → Memᴰ x (with_prefix p es)
unfolding with_prefix
to_with_prefix p x [] m h = elim m [ ]
to_with_prefix p x (e ∷ es) (Memᴰ.head same) h =
    let t : starts_with p e.0 ≡ true = rw same at h in rw t (Memᴰ.head same)
to_with_prefix p x (e ∷ es) (Memᴰ.tail m) h = elim (Bool-cases (starts_with p e.0)) [
  | inl t ↦ rw t (Memᴰ.tail (to_with_prefix p x es m h))
  | inr f ↦ rw f (to_with_prefix p x es m h)
]
