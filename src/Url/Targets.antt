-- ===== src/Url/Targets.antt =====
-- What `UrlUtils::splitTarget` makes of a request target.
use mathlib.Core.Path.{subst, ap₂}
use mathlib.Core.List.{append-nil}
use cdfs.Base.{
  ℕ, suc, ◌+◌, ◌≡◌, sym, ◌≢◌, ◌↔◌, inl, inr, [], ◌∷◌, ◌++◌, arith, Option-cases, Bytes, All-append,
  Avoids, take, drop, find_char, find_char-append, find_char-eq-none, find_char-eq-some,
  Avoids-of_find_char, take-length-append, drop-length-append_cons,
}
use cdfs.Url.{without_fragment, split_at_query, split_target}

-- What a target ends in: nothing, or a fragment.
pub data Fragment : Bytes → Type 0 where
  absent : Fragment []
  present : {f : Bytes} → Fragment (b'#' ∷ f)

-- A target, its path, which holds neither `?` nor `#`, and its query, which holds no `#`.
pub data Splits : Bytes → Bytes → Bytes → Type 0 where
  bare : {p f : Bytes} → Avoids b'#' p → Avoids b'?' p → Fragment f → Splits (p ++ f) p []
  queried :
      {p q f : Bytes}
      → Avoids b'#' p
      → Avoids b'?' p
      → Avoids b'#' q
      → Fragment f
      → Splits ((p ++ b'?' ∷ q) ++ f) p q

without_fragment-append : {s f : Bytes} → Avoids b'#' s → Fragment f → without_fragment (s ++ f) ≡ s
unfolding without_fragment
without_fragment-append {s} h absent =
    rw append-nil (rw (find_char-eq-none b'#' s h, without_fragment))
without_fragment-append {s} h (present {f = f}) =
    rw (find_char-append b'#' s f h, without_fragment) (take-length-append s (b'#' ∷ f))

split_target_of_Splits : {t p q : Bytes} → Splits t p q → split_target t ≡ (p, q)
unfolding split_target
split_target_of_Splits (bare {p = p} h k f) =
    rw (without_fragment-append h f) (rw (find_char-eq-none b'?' p k))
split_target_of_Splits (queried {p = p} {q = q} h k l f) =
    rw
      (without_fragment-append {s = p ++ b'?' ∷ q}
        (All-append (λ b. b ≢ b'#') p (b'?' ∷ q) h ((λ e. omega arith), l)) f)
      (rw (find_char-append b'?' p q k)
        (ap₂ (λ x y. (x, y)) (take-length-append p (b'?' ∷ q)) (drop-length-append_cons p b'?' q)))

-- The target without its fragment, and the fragment.
cut-Fragment :
    (t : Bytes)
    → (f : Bytes) × Avoids b'#' (without_fragment t) × Fragment f × (t ≡ without_fragment t ++ f)
unfolding without_fragment
cut-Fragment t = elim (Option-cases (find_char b'#' t)) [
  | inl e ↦ (
    [],
    rw (e, without_fragment) (Avoids-of_find_char b'#' t e),
    absent,
    rw (e, without_fragment) (sym (append-nil t)),
  )
  | inr (n, e) ↦ (
    b'#' ∷ drop (suc n) t,
    rw (e, without_fragment) (find_char-eq-some b'#' t n e).0,
    present,
    rw (e, without_fragment) (find_char-eq-some b'#' t n e).1,
  )
]

-- Each part of a text that avoids a character avoids it.
All_of_append : (c : ℕ) (xs ys : Bytes) → Avoids c (xs ++ ys) → Avoids c xs × Avoids c ys
All_of_append c [] ys h = (tt, h)
All_of_append c (x ∷ xs) ys (p, h) = let (a, b) = All_of_append c xs ys h in ((p, a), b)

Splits-of_rest :
    (s f : Bytes)
    → Avoids b'#' s
    → Fragment f
    → Splits
        (s ++ f)
        (split_at_query s (find_char b'?' s)).0
        (split_at_query s (find_char b'?' s)).1
Splits-of_rest s f h k = elim (Option-cases (find_char b'?' s)) [
  | inl e ↦ rw e (bare h (Avoids-of_find_char b'?' s e) k)
  | inr (n, e) ↦
      let (avoids, same) = find_char-eq-some b'?' s n e in
      let parts = All_of_append b'#' (take n s) (b'?' ∷ drop (suc n) s) (rw same at h) in
      let one : n + 1 ≡ suc n = omega arith in
      let whole : Splits ((take n s ++ b'?' ∷ drop (suc n) s) ++ f) (take n s) (drop (suc n) s) =
        queried parts.0 avoids parts.1.1 k in
      rw e (rw one (subst (λ x. Splits (x ++ f) (take n s) (drop (suc n) s)) (sym same) whole))
]

Splits-split_target : (t : Bytes) → Splits t (split_target t).0 (split_target t).1
unfolding split_target
Splits-split_target t =
    let (f, h, k, same) = cut-Fragment t in
    subst (λ x. Splits x (split_target t).0 (split_target t).1) (sym same)
      (Splits-of_rest (without_fragment t) f h k)

-- `split_target` returns a path and a query exactly when the target is the path, then, where there
-- is one, a `?` and the query, then, where there is one, a `#` and the fragment; the path holds
-- neither `?` nor `#`, and the query no `#`.
pub split_target_iff : (t p q : Bytes) → (split_target t ≡ (p, q)) ↔ Splits t p q
split_target_iff t p q = (
  (λ e. subst (λ (r : Bytes × Bytes). Splits t r.0 r.1) e (Splits-split_target t)),
  split_target_of_Splits,
)
