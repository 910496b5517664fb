-- ===== src/Chunks/Places.antt =====
-- Where uploaded chunks stand, and which places are apart from them.
use cdfs.Base.{
  ℕ, suc, ◌+◌, ◌≡◌, ◌≢◌, refl, sym, ap, ◌∙◌, inl, inr, Bool, true, false, ◌||◌, some, [], ◌∷◌, ◌++◌,
  arith, ◌==◌, Bool-cases, Option-cases, Bytes, length, is_at, lookup, is_listed, ==_iff, zero,
}
use cdfs.Paths.Joins.{is_at_behind, separator, path_append_relative}
use cdfs.Paths.{slash, path_append, parent_path, before_last}
use cdfs.Disk.{Disk, is_regular_file, is_directory, is_there}
use cdfs.Disk.Directories.{IsPrefix}

before_last-eq : (c : ℕ) (s r : Bytes) → before_last c s ≡ some r → (t : Bytes) × (s ≡ r ++ c ∷ t)
unfolding before_last
before_last-eq c [] r h = cc
before_last-eq c (b ∷ s) r h = elim (Option-cases (before_last c s)) [
  | inr (x, e) ↦
      let (t, f) = before_last-eq c s x e in
      (
        t,
        ap (λ z. b ∷ z) f
            ∙ ap (λ z. z ++ c ∷ t) (some_injective (b ∷ x) r (rw (e, before_last) at h)),
      )
  | inl e ↦ elim (Bool-cases (b == c)) [
    | inl same ↦
        let first : some [] ≡ some r = (rw same at (rw (e, before_last) at h)) in
        (
          s,
          ap (λ z. z ∷ s) ((==_iff b c).0 same) ∙ ap (λ z. z ++ c ∷ s) (some_injective [] r first),
        )
    | inr other ↦ absurd (cc (rw other at (rw (e, before_last) at h)))
  ]
]
  where
    some_injective : (x y : Bytes) → some x ≡ some y → x ≡ y
    some_injective x y e = cc

pub parent_path-IsPrefix : (p : Bytes) → IsPrefix (parent_path p) p
unfolding parent_path
parent_path-IsPrefix p = elim (Option-cases (before_last slash p)) [
  | inl e ↦ rw (e, parent_path) (p, refl)
  | inr ([], e) ↦ let (t, f) = before_last-eq slash p [] e in rw (e, parent_path) (t, f)
  | inr (b ∷ r, e) ↦
      let (t, f) = before_last-eq slash p (b ∷ r) e in rw (e, parent_path) (slash ∷ t, f)
]

is_at-append : (s r : Bytes) (n c : ℕ) → is_at s n c ≡ true → is_at (s ++ r) n c ≡ true
unfolding is_at
is_at-append [] r n c h = cc
is_at-append (b ∷ s) r zero c h = h
is_at-append (b ∷ s) r (suc n) c h = is_at-append s r n c h

-- The text stands below the root directory, in an entry whose name begins with the character.
abbrev pub StartsIn : Bytes → ℕ → Bytes → Type 0
StartsIn root c j = (x : Bytes) × (j ≡ root ++ slash ∷ c ∷ x)

is_at_of_StartsIn :
    (root j : Bytes) (c : ℕ) → StartsIn root c j → is_at j (length root + 1) b' ' ≡ (c == b' ')
unfolding is_at
is_at_of_StartsIn root j c (x, e) =
    ap (λ z. is_at z (length root + 1) b' ') e ∙ is_at_behind root (slash ∷ c ∷ x) 1 b' '

-- No text that begins otherwise is a prefix.
pub StartsIn-apart :
    (root q p : Bytes) (c : ℕ)
    → c ≢ b' '
    → StartsIn root b' ' q
    → StartsIn root c p
    → ¬ IsPrefix q p
StartsIn-apart root q p c differs a b (r, e) =
    let there = is_at-append q r (length root + 1) b' ' (is_at_of_StartsIn root q b' ' a) in
    let not_there = is_at_of_StartsIn root p c b in
    differs ((==_iff c b' ').0 (sym not_there ∙ ap (λ z. is_at z (length root + 1) b' ') e ∙ there))

pub or_true : (a b : Bool) → b ≡ true → (a || b) ≡ false → false ≡ true
or_true true b e h = sym h
or_true false b e h = sym h ∙ e

pub still_absent :
    (d d' : Disk) (q : Bytes)
    → lookup q d'.files ≡ lookup q d.files
    → is_listed q d'.directories ≡ false
    → is_there d q ≡ false
    → is_there d' q ≡ false
unfolding is_there is_regular_file is_directory
still_absent d d' q same gone absent = ground arith

-- The root directory's name does not end in a slash, and the temporary directory's begins neither
-- with a slash nor with a blank.
pub record IsPlain (root temp : Bytes) : Type 0 where
  pub joins : separator root ≡ slash ∷ []
  pub first : ℕ
  pub rest : Bytes
  pub named : temp ≡ first ∷ rest
  pub relative : first ≢ slash
  pub not_blank : first ≢ b' '

-- Where something in the temporary directory stands.
pub uploads_place :
    (root temp more : Bytes)
    → IsPlain root temp
    → path_append root (temp ++ more) ≡ root ++ slash ∷ (temp ++ more)
unfolding is_at
uploads_place root temp more h =
    let relative : is_at (temp ++ more) 0 slash ≡ false =
      ap (λ t. is_at (t ++ more) 0 slash) h.named ∙ plain h.first h.relative in
    path_append_relative root (temp ++ more) relative
    ∙ ap (λ z. root ++ (z ++ (temp ++ more))) h.joins
  where
    plain : (c : ℕ) → c ≢ slash → (c == slash) ≡ false
    plain c ne = ground arith

pub uploads_start :
    (root temp more : Bytes) (h : IsPlain root temp)
    → StartsIn root h.first (path_append root (temp ++ more))
uploads_start root temp more h = (
  h.rest ++ more,
  uploads_place root temp more h ∙ ap (λ t. root ++ (slash ∷ (t ++ more))) h.named,
)
