-- ===== src/Paths.antt =====
-- `std::filesystem::path` on POSIX, as the text that it holds: joining, parent, file name and
-- extension.

pub mod Joins
use cdfs.Base.{
  ℕ, ◌-◌, ◌||◌, Option, none, some, [], ◌∷◌, ◌++◌, ◌==◌, if◌then◌else◌, Bytes, bytes_eq, codes,
  length, is_at, is_empty,
}

abbrev pub slash : ℕ
slash = b'/'

-- `p / q`: an absolute `q` replaces `p`.
unfoldable pub path_append : Bytes → Bytes → Bytes
path_append p q =
    if is_at q 0 slash
    then q
    else if is_empty p || is_at p (length p - 1) slash
    then p ++ q
    else p ++ slash ∷ q

-- What stands behind the last `c`.
unfoldable pub after_last : ℕ → Bytes → Option Bytes
after_last c [] = none
after_last c (b ∷ s) = elim (after_last c s) [
  | some r ↦ some r
  | none ↦ if b == c then some s else none
]

unfoldable pub file_name : Bytes → Bytes
file_name p = elim (after_last slash p) [ none ↦ p | some name ↦ name ]

abbrev pub with_dot : Option Bytes → Bytes
with_dot none = []
with_dot (some r) = b'.' ∷ r

-- `extension()`: from the last dot of the file name on, unless that dot is its first character.
unfoldable pub extension_of_name : Bytes → Bytes
extension_of_name [] = []
extension_of_name (c ∷ r) =
    if bytes_eq (c ∷ r) (codes "..") then [] else with_dot (after_last b'.' r)

unfoldable pub extension : Bytes → Bytes
extension p = extension_of_name (file_name p)

-- What stands before the last `/`, for `parent_path()` of a path that does not end in `/`.
unfoldable pub before_last : ℕ → Bytes → Option Bytes
before_last c [] = none
before_last c (b ∷ s) = elim (before_last c s) [
  | some r ↦ some (b ∷ r)
  | none ↦ if b == c then some [] else none
]

unfoldable pub parent_path : Bytes → Bytes
parent_path p = elim (before_last slash p) [
  | none ↦ []
  | some [] ↦ slash ∷ []
  | some (b ∷ r) ↦ b ∷ r
]
