-- ===== src/Mime/Letters.antt =====
-- The media type of a path, and the case of its letters.

use cdfs.Base.{
  ℕ, ◌≡◌, refl, ap, ◌∙◌, inl, inr, Bool, true, false, Option, none, some, [], ◌∷◌, map, arith, ◌==◌,
  if◌then◌else◌, Bool-cases, Option-cases, Bytes, bytes_eq, codes, lookup,
}
use cdfs.Paths.{slash, after_last, file_name, with_dot, extension_of_name, extension}
use cdfs.Crypto.{tolower}
use cdfs.Mime.{mime_map, get_mime_type}

abbrev lower : Bytes → Bytes
lower s = map tolower s

tolower_idem : (c : ℕ) → tolower (tolower c) ≡ tolower c
unfolding tolower
tolower_idem c = ground arith

lower_idem : (s : Bytes) → lower (lower s) ≡ lower s
lower_idem [] = refl
lower_idem (c ∷ s) = cc (tolower_idem c, lower_idem s)

-- The separators are no letters.
tolower-slash : (c : ℕ) → (tolower c == slash) ≡ (c == slash)
unfolding tolower
tolower-slash c = ground arith

tolower-dot : (c : ℕ) → (tolower c == b'.') ≡ (c == b'.')
unfolding tolower
tolower-dot c = ground arith

abbrev lower_option : Option Bytes → Option Bytes
lower_option none = none
lower_option (some s) = some (lower s)

after_last-lower :
    (x : ℕ)
    → ((c : ℕ) → (tolower c == x) ≡ (c == x))
    → (s : Bytes) → after_last x (lower s) ≡ lower_option (after_last x s)
unfolding after_last
after_last-lower x h [] = refl
after_last-lower x h (c ∷ s) = elim (Option-cases (after_last x s)) [
  | inr (r, e) ↦ rw (after_last-lower x h s, after_last) (rw (e, after_last))
  | inl e ↦
      rw (after_last-lower x h s, after_last) (rw (e, after_last) (rw (h c) (last_one (c == x))))
]
  where
    last_one :
        (b : Bool)
        → (if b then some (lower s) else none) ≡ lower_option (if b then some s else none)
    last_one true = refl
    last_one false = refl

file_name-lower : (p : Bytes) → file_name (lower p) ≡ lower (file_name p)
unfolding file_name
file_name-lower p = elim (Option-cases (after_last slash p)) [
  | inl e ↦ rw (after_last-lower slash tolower-slash p, file_name) (rw (e, file_name))
  | inr (r, e) ↦ rw (after_last-lower slash tolower-slash p, file_name) (rw (e, file_name))
]

dots-lower : (s : Bytes) → bytes_eq (lower s) (codes "..") ≡ bytes_eq s (codes "..")
unfolding bytes_eq
dots-lower [] = refl
dots-lower (a ∷ []) = rw (tolower-dot a)
dots-lower (a ∷ b ∷ []) = rw (tolower-dot a) (rw (tolower-dot b))
dots-lower (a ∷ b ∷ c ∷ s) = rw (tolower-dot a) (rw (tolower-dot b))

with_dot-lower : (o : Option Bytes) → with_dot (lower_option o) ≡ lower (with_dot o)
unfolding tolower
with_dot-lower none = refl
with_dot-lower (some s) = refl

extension_of_name-lower : (s : Bytes) → extension_of_name (lower s) ≡ lower (extension_of_name s)
unfolding extension_of_name
extension_of_name-lower [] = refl
extension_of_name-lower (c ∷ r) =
    rw (dots-lower (c ∷ r)) (elim (Bool-cases (bytes_eq (c ∷ r) (codes ".."))) [
      | inl t ↦ rw t
      | inr f ↦
          rw f
            (ap with_dot (after_last-lower b'.' tolower-dot r) ∙ with_dot-lower (after_last b'.' r))
    ])

extension-lower : (p : Bytes) → extension (lower p) ≡ lower (extension p)
unfolding extension
extension-lower p = ap extension_of_name (file_name-lower p) ∙ extension_of_name-lower (file_name p)

-- What the map gives for an extension in lower case.
type_of : Bytes → Bytes
type_of ext = elim (lookup ext mime_map) [
  | some media_type ↦ media_type
  | none ↦ codes "application/octet-stream"
]

-- The media type of a path does not depend on the case of its letters.
get_mime_type-lower : (p : Bytes) → get_mime_type (map tolower p) ≡ get_mime_type p
unfolding get_mime_type type_of
get_mime_type-lower p = ap type_of (ap lower (extension-lower p) ∙ lower_idem (extension p))
