-- ===== src/Metadata/Indices.antt =====
-- The indices that the scan of a file's shard keys reads.
use mathlib.Core.List.{Memᴰ}
use mathlib.Core.List.Memᴰ
use cdfs.Base.{
  ℕ, ◌%◌, ◌^◌, ◌≡◌, refl, sym, ap, inl, inr, true, Option, none, some, List, [], ◌∷◌, ◌++◌, arith,
  Bool-cases, Option-cases, Bytes, bytes_eq, take, drop, length, starts_with, stoul,
}
use cdfs.Database.{Entry}
use cdfs.Database.Scan.{run_of_prefix}
use cdfs.Metadata.{push_index, scan_shards}

-- The numbers behind the prefix, of the entries that have one there.
unfoldable pub indices : ℕ → List Entry → List ℕ
indices n [] = []
indices n (e ∷ es) = push_index (stoul (drop n e.0)) (indices n es)

pub take-eq-starts_with : (p k : Bytes) → bytes_eq (take (length p) k) p ≡ starts_with p k
unfolding bytes_eq starts_with
take-eq-starts_with [] k = refl
take-eq-starts_with (a ∷ p) [] = refl
take-eq-starts_with (a ∷ p) (b ∷ k) = ground (arith, take-eq-starts_with p k)

pub starts_with_append : (p t : Bytes) → starts_with p (p ++ t) ≡ true
unfolding starts_with
starts_with_append [] t = refl
starts_with_append (a ∷ p) t = ground (arith, starts_with_append p t)

pub split_of_starts_with : (p k : Bytes) → starts_with p k ≡ true → k ≡ p ++ drop (length p) k
unfolding starts_with
split_of_starts_with [] k h = refl
split_of_starts_with (a ∷ p) [] h = cc
split_of_starts_with (a ∷ p) (b ∷ k) h =
    let same : a ≡ b = ground arith in
    let rest = split_of_starts_with p k (ground arith) in λ i. sym same i ∷ rest i

pub scan_shards-eq-indices :
    (p : Bytes) (es : List Entry) → scan_shards p es ≡ indices (length p) (run_of_prefix p es)
unfolding scan_shards run_of_prefix indices
scan_shards-eq-indices p [] = refl
scan_shards-eq-indices p (e ∷ es) = elim (Bool-cases (starts_with p e.0)) [
  | inl t ↦
      rw (take-eq-starts_with p e.0)
        (rw t (ap (push_index (stoul (drop (length p) e.0))) (scan_shards-eq-indices p es)))
  | inr f ↦ rw (take-eq-starts_with p e.0) (rw f)
]

-- An entry whose key ends in a number, behind the first `n` characters.
pub record IsNumbered (n index : ℕ) (e : Entry) : Type 0 where
  pub number : ℕ
  pub reads : stoul (drop n e.0) ≡ some number
  pub cut : index ≡ number % 2 ^ 32

pub of_indices :
    (n index : ℕ) (es : List Entry)
    → Memᴰ index (indices n es)
    → (e : Entry) × Memᴰ e es × IsNumbered n index e
unfolding indices
of_indices n index [] m = elim m [ ]
of_indices n index (e ∷ es) m = elim (Option-cases (stoul (drop n e.0))) [
  | inl f ↦ let (x, o, h) = of_indices n index es (rw f at m) in (x, Memᴰ.tail o, h)
  | inr (k, g) ↦ elim (Memᴰ.cases_cons {b = k % 2 ^ 32} {l = indices n es} (rw g at m)) [
    | inl same ↦ (e, Memᴰ.head refl, record { number = k; reads = g; cut = same })
    | inr o ↦ let (x, q, h) = of_indices n index es o in (x, Memᴰ.tail q, h)
  ]
]

push_index_tail :
    (o : Option ℕ) (index : ℕ) (rest : List ℕ) → Memᴰ index rest → Memᴰ index (push_index o rest)
push_index_tail none index rest m = m
push_index_tail (some k) index rest m = Memᴰ.tail m

pub to_indices :
    (n index : ℕ) (e : Entry) (es : List Entry)
    → Memᴰ e es
    → IsNumbered n index e
    → Memᴰ index (indices n es)
unfolding indices
to_indices n index e [] m h = elim m [ ]
to_indices n index e (x ∷ es) (Memᴰ.head same) h = rw (sym same) (rw h.reads (Memᴰ.head h.cut))
to_indices n index e (x ∷ es) (Memᴰ.tail m) h =
    push_index_tail (stoul (drop n x.0)) index (indices n es) (to_indices n index e es m h)
