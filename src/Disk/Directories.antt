-- ===== src/Disk/Directories.antt =====
-- Which directories there are, behind `create_directories`.
use mathlib.Core.List.{append_assoc, append-nil}
use cdfs.Base.{
  ◌≤◌, ◌≡◌, refl, sym, ap, ◌∙◌, ◌⊎◌, inl, inr, Bool, true, false, not, ◌&&◌, ◌||◌, Option, none,
  some, List, [], ◌∷◌, ◌++◌, arith, ◌==◌, Bool-cases, Bytes, bytes_eq, bytes_eq_iff, bytes_eq_refl,
  length, is_empty, is_listed,
}
use cdfs.Paths.{slash}
use cdfs.Disk.{
  Disk, Device, prefixes, add_directory, add_directories, can_make_path, wanted_for,
  create_directories,
}

pub is_listed-append :
    (q : Bytes) (ps ds : List Bytes) → is_listed q (ps ++ ds) ≡ (is_listed q ps || is_listed q ds)
unfolding is_listed
is_listed-append q [] ds = refl
is_listed-append q (p ∷ ps) ds = ground (arith, is_listed-append q ps ds)

is_listed-add_directory :
    (q p : Bytes) (ds : List Bytes)
    → is_listed q (add_directory p ds) ≡ (bytes_eq p q || is_listed q ds)
unfolding add_directory is_listed
is_listed-add_directory q p ds = elim (Bool-cases (is_listed p ds)) [
  | inr new ↦ rw new refl
  | inl old ↦ rw old (
      ground (
        arith,
        bytes_eq_iff p q,
        λ (e : p ≡ q). (let k : is_listed q ds ≡ true = rw (sym e) old in k),
      ))
]

pub is_listed-add_directories :
    (q : Bytes) (ps ds : List Bytes)
    → is_listed q (add_directories ps ds) ≡ (is_listed q ps || is_listed q ds)
unfolding add_directories is_listed
is_listed-add_directories q [] ds = refl
is_listed-add_directories q (p ∷ ps) ds =
    ground
      (arith, is_listed-add_directories q ps (add_directory p ds), is_listed-add_directory q p ds)

-- The text begins with the other.
abbrev pub IsPrefix : Bytes → Bytes → Type 0
IsPrefix q p = (r : Bytes) × (p ≡ q ++ r)

pub IsPrefix-trans : (a b c : Bytes) → IsPrefix a b → IsPrefix b c → IsPrefix a c
IsPrefix-trans a b c (r, e) (t, f) = (r ++ t, f ∙ ap (λ x. x ++ t) e ∙ append_assoc a r t)

or_cases : (a b : Bool) → (a || b) ≡ true → (a ≡ true) ⊎ (b ≡ true)
or_cases true b h = inl refl
or_cases false b h = inr h

prefixes-IsPrefix :
    (before s q : Bytes) → is_listed q (prefixes before s) ≡ true → IsPrefix q (before ++ s)
unfolding is_listed prefixes
prefixes-IsPrefix before [] q h = cc
prefixes-IsPrefix before (c ∷ s) q h =
    let deeper = deep (prefixes-IsPrefix (before ++ c ∷ []) s q) in
    elim (Bool-cases ((c == slash) && not (is_empty before))) [
      | inr f ↦ deeper (rw f at h)
      | inl t ↦ elim (or_cases (bytes_eq before q) _ (rw t at h)) [
        | inl same ↦ (c ∷ s, ap (λ x. x ++ c ∷ s) ((bytes_eq_iff before q).0 same))
        | inr rest ↦ deeper rest
      ]
    ]
  where
    deep :
        (is_listed q (prefixes (before ++ c ∷ []) s) ≡ true → IsPrefix q ((before ++ c ∷ []) ++ s))
        → is_listed q (prefixes (before ++ c ∷ []) s) ≡ true
        → IsPrefix q (before ++ c ∷ s)
    deep ih k = let (r, e) = ih k in (r, sym (append_assoc before (c ∷ []) s) ∙ e)

-- A directory that is made for a path is the path, or stands above it.
pub wanted_for-IsPrefix : (p q : Bytes) → is_listed q (wanted_for p) ≡ true → IsPrefix q p
unfolding is_listed prefixes
wanted_for-IsPrefix [] q h = cc
wanted_for-IsPrefix (c ∷ p) q h =
    elim (or_cases _ _ (sym (is_listed-append q (prefixes [] (c ∷ p)) ((c ∷ p) ∷ [])) ∙ h)) [
      | inl above ↦ prefixes-IsPrefix [] (c ∷ p) q above
      | inr itself ↦ last itself
    ]
  where
    last : is_listed q ((c ∷ p) ∷ []) ≡ true → IsPrefix q (c ∷ p)
    last k = ([], (bytes_eq_iff (c ∷ p) q).0 (ground (arith)) ∙ sym (append-nil q))

pub wanted_for_self : (p : Bytes) → 1 ≤ length p → is_listed p (wanted_for p) ≡ true
unfolding is_listed
wanted_for_self [] h = absurd (omega arith)
wanted_for_self (c ∷ p) h =
    ground
      (arith, is_listed-append (c ∷ p) (prefixes [] (c ∷ p)) ((c ∷ p) ∷ []), bytes_eq_refl (c ∷ p))

pub create_directories-eq :
    (dev : Device) (d d1 : Disk) (p : Bytes)
    → create_directories dev d p ≡ some d1
    → d1.directories ≡ add_directories (wanted_for p) d.directories
unfolding create_directories
create_directories-eq dev d d1 p e = elim (Bool-cases (can_make_path dev d p)) [
  | inr f ↦ absurd (cc (rw f at e))
  | inl t ↦ sym (ap directories_of (rw t at e))
]
  where
    directories_of : Option Disk → List Bytes
    directories_of none = d.directories
    directories_of (some x) = x.directories
