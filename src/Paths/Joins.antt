-- ===== src/Paths/Joins.antt =====
-- Joining paths.
use mathlib.Core.List.{append_assoc, append-nil}
use mathlib.Core.Path.{ap₂}
use cdfs.Base.{
  ℕ, suc, ◌+◌, ◌-◌, ◌≡◌, refl, sym, ap, ◌∙◌, inl, inr, true, false, ◌||◌, [], ◌∷◌, ◌++◌, arith,
  if◌then◌else◌, Bool-cases, Bytes, length, length-append, is_empty, is_at,
}
use cdfs.Paths.{slash, path_append}

pub is_at_behind : (s t : Bytes) (n c : ℕ) → is_at (s ++ t) (length s + n) c ≡ is_at t n c
unfolding is_at
is_at_behind [] t n c = let e : 0 + n ≡ n = omega arith in rw e
is_at_behind (a ∷ s) t n c =
    let e : suc (length s) + n ≡ suc (length s + n) = omega arith in rw e (is_at_behind s t n c)

-- What joining puts between two parts.
abbrev pub separator : Bytes → Bytes
separator p = if is_empty p || is_at p (length p - 1) slash then [] else slash ∷ []

pub path_append_relative :
    (p q : Bytes) → is_at q 0 slash ≡ false → path_append p q ≡ p ++ (separator p ++ q)
unfolding path_append
path_append_relative p q h =
    rw h (elim (Bool-cases (is_empty p || is_at p (length p - 1) slash)) [
      | inl t ↦ rw t
      | inr f ↦ rw f
    ])

path_append_absolute : (p q : Bytes) → is_at q 0 slash ≡ true → path_append p q ≡ q
unfolding path_append
path_append_absolute p q h = rw h

separator-append : (s : Bytes) (a : ℕ) (t : Bytes) → separator (s ++ a ∷ t) ≡ separator (a ∷ t)
separator-append s a t =
    let last : is_at (s ++ a ∷ t) (length (s ++ a ∷ t) - 1) slash
        ≡ is_at (a ∷ t) (length (a ∷ t) - 1) slash =
      ap (λ n. is_at (s ++ a ∷ t) n slash) (omega (arith, length-append s (a ∷ t)))
      ∙ is_at_behind s (a ∷ t) (length (a ∷ t) - 1) slash in
    rw (not_empty s) (rw last)
  where
    not_empty : (r : Bytes) → is_empty (r ++ a ∷ t) ≡ false
    not_empty [] = refl
    not_empty (b ∷ r) = refl

one_slash : separator (slash ∷ []) ≡ []
unfolding is_at
one_slash = refl

-- Behind a joint there is no further separator.
separator_of_joint : (p : Bytes) → separator (p ++ separator p) ≡ []
separator_of_joint p = elim (Bool-cases (is_empty p || is_at p (length p - 1) slash)) [
  | inl t ↦ rw t (rw append-nil (rw t))
  | inr f ↦ rw f (separator-append p slash [] ∙ one_slash)
]

absolute-append : (a : ℕ) (q r : Bytes) → is_at ((a ∷ q) ++ r) 0 slash ≡ is_at (a ∷ q) 0 slash
unfolding is_at
absolute-append a q r = refl

append_assoc_4 : (a b c d : Bytes) → (a ++ (b ++ c)) ++ d ≡ a ++ (b ++ (c ++ d))
append_assoc_4 a b c d = simp append_assoc

relative_nil : is_at [] 0 slash ≡ false
unfolding is_at
relative_nil = refl

separator_of_path_append :
    (p m : Bytes) → is_at m 0 slash ≡ false → separator (path_append p m) ≡ separator m
separator_of_path_append p [] f =
    ap separator (path_append_relative p [] f ∙ ap (λ x. p ++ x) (append-nil (separator p)))
    ∙ separator_of_joint p
separator_of_path_append p (a ∷ m) f =
    ap separator (path_append_relative p (a ∷ m) f ∙ sym (append_assoc p (separator p) (a ∷ m)))
    ∙ separator-append (p ++ separator p) a m

-- The join of two relative paths is relative.
relative_join :
    (m r : Bytes)
    → is_at m 0 slash ≡ false
    → is_at r 0 slash ≡ false
    → is_at (path_append m r) 0 slash ≡ false
relative_join [] r f h = ap (λ x. is_at x 0 slash) (path_append_relative [] r h) ∙ h
relative_join (a ∷ m) r f h =
    ap (λ x. is_at x 0 slash) (path_append_relative (a ∷ m) r h)
    ∙ absolute-append a m (separator (a ∷ m) ++ r)
    ∙ f

-- Joining paths is associative.
pub path_append_assoc :
    (p q r : Bytes) → path_append (path_append p q) r ≡ path_append p (path_append q r)
path_append_assoc p q r = elim (Bool-cases (is_at r 0 slash)) [
  | inl t ↦
      path_append_absolute (path_append p q) r t
      ∙ sym (path_append_absolute p r t)
      ∙ ap (path_append p) (sym (path_append_absolute q r t))
  | inr h ↦ elim (Bool-cases (is_at q 0 slash)) [
    | inl t ↦ absolute_middle q h t
    | inr f ↦
        path_append_relative (path_append p q) r h
        ∙ ap₂ (λ x y. x ++ (y ++ r)) (path_append_relative p q f) (separator_of_path_append p q f)
        ∙ append_assoc_4 p (separator p) q (separator q ++ r)
        ∙ ap (λ x. p ++ (separator p ++ x)) (sym (path_append_relative q r h))
        ∙ sym (path_append_relative p (path_append q r) (relative_join q r f h))
  ]
]
  where
    absolute_middle :
        (m : Bytes)
        → is_at r 0 slash ≡ false
        → is_at m 0 slash ≡ true
        → path_append (path_append p m) r ≡ path_append p (path_append m r)
    absolute_middle [] h t = absurd (cc (relative_nil, t))
    absolute_middle (a ∷ m) h t =
        let joined = path_append_relative (a ∷ m) r h in
        ap (λ x. path_append x r) (path_append_absolute p (a ∷ m) t)
        ∙ sym (
            path_append_absolute p (path_append (a ∷ m) r)
              (ap (λ x. is_at x 0 slash) joined ∙ absolute-append a m (separator (a ∷ m) ++ r) ∙ t))
