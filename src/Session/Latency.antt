-- ===== src/Session/Latency.antt =====
-- The longest latency: the compare and exchange loop of `on_write`, with other sessions writing.
use cdfs.Base.{
  ℕ, ◌+◌, ◌%◌, ◌^◌, ◌≤◌, ◌<◌, ◌≡◌, refl, sym, true, false, List, [], ◌∷◌, All, arith, Bool-cases,
  ltb, ◌⊎◌, inl, inr,
}
use mathlib.Core.Path.{subst}
use cdfs.Session.{Globals, exceeds, raise_max, add_latency}

abbrev pub Fits : ℕ → Type 0
Fits n = n < 2 ^ 31

abbrev pub OneOf : ℕ → List ℕ → Type 0
OneOf n [] = ⊥
OneOf n (x ∷ xs) = (n ≡ x) ⊎ OneOf n xs

raise_max-OneOf :
    (duration current_max : ℕ) (seen : List ℕ)
    → duration < 2 ^ 31
    → OneOf (raise_max duration current_max seen) (duration ∷ current_max ∷ seen)
unfolding raise_max exceeds
raise_max-OneOf duration current_max [] small = ground arith
raise_max-OneOf duration current_max (found ∷ seen) small =
    ground (arith, raise_max-OneOf duration found seen)

raise_max-ge :
    (duration current_max : ℕ) (seen : List ℕ)
    → duration < 2 ^ 31
    → All Fits (current_max ∷ seen)
    → duration ≤ raise_max duration current_max seen
unfolding raise_max exceeds
raise_max-ge duration current_max [] small fit = ground arith
raise_max-ge duration current_max (found ∷ seen) small fit =
    ground (arith, raise_max-ge duration found seen)

alone :
    (duration current_max : ℕ)
    → current_max < 2 ^ 31
    → duration < 2 ^ 31
    → current_max ≤ raise_max duration current_max []
unfolding raise_max exceeds
alone duration current_max fit small = ground arith

add_latency_pos :
    (duration : ℕ) (seen : List ℕ) (g : Globals)
    → ltb 0 duration ≡ true
    → add_latency duration seen g ≡ record g {
      total_latency_us = (g.total_latency_us + duration) % 2 ^ 64;
      max_latency_us = raise_max duration g.max_latency_us seen;
    }
unfolding add_latency
add_latency_pos duration seen g positive = rw positive

add_latency_zero :
    (duration : ℕ) (seen : List ℕ) (g : Globals)
    → ltb 0 duration ≡ false
    → add_latency duration seen g ≡ g
unfolding add_latency
add_latency_zero duration seen g zero = rw zero

-- The counters behind the latency of an answer: the total has grown by it; the longest latency is
-- it, or a value that stood in the counter meanwhile, is not below it, and, if no other session
-- wrote, not below the old value.
pub record IsCounted (duration : ℕ) (seen : List ℕ) (g after : Globals) : Type 0 where
  pub total : after.total_latency_us ≡ (g.total_latency_us + duration) % 2 ^ 64
  pub at_least : duration ≤ after.max_latency_us
  pub one_of : OneOf after.max_latency_us (duration ∷ g.max_latency_us ∷ seen)
  pub keeps : seen ≡ [] → g.max_latency_us ≤ after.max_latency_us

-- Where the latency and the values of the counter fit an `int`, `on_write` adds the latency to the
-- total, and leaves the longest latency at the new latency or at a value that stood in the counter
-- meanwhile, and not below the new latency, whatever other sessions store between its tries; with
-- no other session it is not below the old value either.
pub add_latency-IsCounted :
    (duration : ℕ) (seen : List ℕ) (g : Globals)
    → duration < 2 ^ 31
    → All Fits (g.max_latency_us ∷ seen)
    → g.total_latency_us < 2 ^ 64
    → IsCounted duration seen g (add_latency duration seen g)
add_latency-IsCounted duration seen g small fit total = elim (Bool-cases (ltb 0 duration)) [
  | inl positive ↦
      subst (λ a. IsCounted duration seen g a) (sym (add_latency_pos duration seen g positive))
        (record {
          total = refl;
          at_least = raise_max-ge duration g.max_latency_us seen small fit;
          one_of = raise_max-OneOf duration g.max_latency_us seen small;
          keeps = λ e. rw e (alone duration g.max_latency_us fit.0 small);
        })
  | inr none ↦
      subst (λ a. IsCounted duration seen g a) (sym (add_latency_zero duration seen g none))
        (record {
          total = ground arith;
          at_least = ground arith;
          one_of = inr (inl refl);
          keeps = λ e. ground arith;
        })
]
