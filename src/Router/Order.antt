-- ===== src/Router/Order.antt =====
-- The order of the prefix routes.
use mathlib.Core.List.{foldl, append-nil, Perm, perm_middle}
use mathlib.Core.List.Perm
use cdfs.Base.{
  ℕ, ◌≤◌, Option, List, [], ◌∷◌, ◌++◌, arith, ltb, Bool-cases, inl, inr, Bytes, length, All,
}
use cdfs.Util.{Verb}
use cdfs.Router.{PrefixRouteEntry, Router, sort_insert, sort_routes, add_prefix}

module _ {ℓ} {H : Type ℓ} where
  -- No later prefix is longer.
  abbrev pub IsSorted : List (PrefixRouteEntry H) → Type 0
  IsSorted [] = Unit
  IsSorted (x ∷ xs) = All (λ y. length y.prefix ≤ length x.prefix) xs × IsSorted xs

  abbrev AtMost : ℕ → List (PrefixRouteEntry H) → Type 0
  AtMost n xs = All (λ y. length y.prefix ≤ n) xs

  AtMost-mono : (m n : ℕ) (xs : List (PrefixRouteEntry H)) → m ≤ n → AtMost m xs → AtMost n xs
  AtMost-mono m n [] le h = tt
  AtMost-mono m n (x ∷ xs) le (p, h) = (omega arith, AtMost-mono m n xs le h)

  AtMost-sort_insert :
      (n : ℕ) (e : PrefixRouteEntry H) (xs : List (PrefixRouteEntry H))
      → length e.prefix ≤ n
      → AtMost n xs
      → AtMost n (sort_insert e xs)
  unfolding sort_insert
  AtMost-sort_insert n e [] le h = (le, tt)
  AtMost-sort_insert n e (x ∷ xs) le (p, h) =
      elim (Bool-cases (ltb (length x.prefix) (length e.prefix))) [
        | inl t ↦ rw t (le, (p, h))
        | inr t ↦ rw t (p, AtMost-sort_insert n e xs le h)
      ]

  sort_insert-IsSorted :
      (e : PrefixRouteEntry H) (xs : List (PrefixRouteEntry H))
      → IsSorted xs
      → IsSorted (sort_insert e xs)
  unfolding sort_insert
  sort_insert-IsSorted e [] h = (tt, tt)
  sort_insert-IsSorted e (x ∷ xs) (p, h) =
      elim (Bool-cases (ltb (length x.prefix) (length e.prefix))) [
        | inl t ↦ rw t (
          (ground arith, AtMost-mono (length x.prefix) (length e.prefix) xs (ground arith) p),
          (p, h),
        )
        | inr t ↦ rw t (
          AtMost-sort_insert (length x.prefix) e xs (ground arith) p,
          sort_insert-IsSorted e xs h,
        )
      ]

  sort_from-IsSorted :
      (sorted routes : List (PrefixRouteEntry H))
      → IsSorted sorted
      → IsSorted (foldl (λ s e. sort_insert e s) sorted routes)
  sort_from-IsSorted sorted [] h = h
  sort_from-IsSorted sorted (e ∷ routes) h =
      sort_from-IsSorted (sort_insert e sorted) routes (sort_insert-IsSorted e sorted h)

  sort_insert-perm :
      (e : PrefixRouteEntry H) (xs : List (PrefixRouteEntry H)) → Perm (sort_insert e xs) (e ∷ xs)
  unfolding sort_insert
  sort_insert-perm e [] = Perm.refl (e ∷ [])
  sort_insert-perm e (x ∷ xs) = elim (Bool-cases (ltb (length x.prefix) (length e.prefix))) [
    | inl t ↦ rw t (Perm.refl (e ∷ x ∷ xs))
    | inr t ↦ rw t (Perm.trans (Perm.cons x (sort_insert-perm e xs)) (Perm.swap e x xs))
  ]

  sort_from-perm :
      (sorted routes : List (PrefixRouteEntry H))
      → Perm (foldl (λ s e. sort_insert e s) sorted routes) (routes ++ sorted)
  sort_from-perm sorted [] = Perm.refl sorted
  sort_from-perm sorted (e ∷ routes) =
      Perm.trans (sort_from-perm (sort_insert e sorted) routes) (
        Perm.trans (Perm.append_left routes (sort_insert-perm e sorted))
          (perm_middle routes sorted))

  -- After `add_prefix` the prefix routes are in the order of falling prefix length, and they are
  -- the earlier ones and the new one, each as often as before.
  pub add_prefix-IsSorted :
      (method : Verb) (prefix : Bytes) (handler : Option H) (router : Router H)
      → IsSorted (add_prefix method prefix handler router).prefix_routes
        × Perm
            (add_prefix method prefix handler router).prefix_routes
            (record { method = method; prefix = prefix; handler = handler } ∷ router.prefix_routes)
  unfolding add_prefix sort_routes
  add_prefix-IsSorted method prefix handler router =
      let added : PrefixRouteEntry H = record {
        method = method;
        prefix = prefix;
        handler = handler;
      } in
      let routes = router.prefix_routes in
      let sorted_perm : Perm (sort_routes (routes ++ added ∷ [])) (routes ++ added ∷ []) =
        rw append-nil at (sort_from-perm [] (routes ++ added ∷ [])) in
      let new_first : Perm (routes ++ added ∷ []) (added ∷ routes) =
        rw append-nil at (perm_middle {a = added} routes []) in
      (sort_from-IsSorted [] (routes ++ added ∷ []) tt, Perm.trans sorted_perm new_first)
