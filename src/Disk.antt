-- ===== src/Disk.antt =====
-- The file system, as std::filesystem and the file streams show it to the program: the regular
-- files with their contents, and the directories. Paths are texts; links, and different texts for
-- one place, are not modelled.
pub mod Directories
use cdfs.Base.{
  ℕ, Bool, true, false, not, ◌&&◌, ◌||◌, Option, none, some, List, [], ◌∷◌, ◌++◌, ◌==◌,
  if◌then◌else◌, Bytes, codes, length, is_empty, Dict, lookup, erase, is_listed, Result, ok, throws,
  filesystem_error,
}
use cdfs.Paths.{slash}

pub record Disk : Type 0 where
  pub files : Dict Bytes
  pub directories : List Bytes

-- What the operating system allows, and what it keeps.
pub record Device : Type 0 where
  -- A directory can be made at the path.
  pub can_make : Bytes → Bool
  -- A stream can be opened for output at the path.
  pub can_open : Bytes → Bool
  -- A stream can be opened for input at the path, and reads it to the end.
  pub can_read : Bytes → Bool
  -- What of the data stands in the file once the stream is closed; `none` where `write` fails.
  pub keeps : Bytes → Bytes → Option Bytes
  pub can_rename : Bytes → Bytes → Bool

unfoldable pub is_directory : Disk → Bytes → Bool
is_directory d p = is_listed p d.directories

unfoldable pub is_regular_file : Disk → Bytes → Bool
is_regular_file d p = elim (lookup p d.files) [ none ↦ false | some c ↦ true ]

-- `std::filesystem::exists`
unfoldable pub is_there : Disk → Bytes → Bool
is_there d p = is_regular_file d p || is_directory d p

unfoldable pub file_size : Disk → Bytes → Result ℕ
file_size d p = elim (lookup p d.files) [
  | none ↦ throws (filesystem_error (codes "cannot get file size"))
  | some c ↦ ok (length c)
]

-- `std::filesystem::remove` on a file.
unfoldable pub remove : Disk → Bytes → Disk
remove d p = record d { files = erase p d.files }

-- The directories above a path, from the root on: what stands before each of its slashes. The
-- first argument is what is already read.
unfoldable pub prefixes : Bytes → Bytes → List Bytes
prefixes before [] = []
prefixes before (c ∷ s) =
    let rest = prefixes (before ++ c ∷ []) s in
    if (c == slash) && not (is_empty before) then before ∷ rest else rest

-- One of the paths is a file.
unfoldable pub any_file : Disk → List Bytes → Bool
any_file d [] = false
any_file d (p ∷ ps) = is_regular_file d p || any_file d ps

-- A path that leads through a file, which ends with ENOTDIR.
unfoldable pub is_through_file : Disk → Bytes → Bool
is_through_file d p = any_file d (prefixes [] p)

unfoldable pub add_directory : Bytes → List Bytes → List Bytes
add_directory p ds = if is_listed p ds then ds else p ∷ ds

unfoldable pub add_directories : List Bytes → List Bytes → List Bytes
add_directories [] ds = ds
add_directories (p ∷ ps) ds = add_directories ps (add_directory p ds)

-- A directory can be made, or it is there.
unfoldable pub can_make_all : Device → Disk → List Bytes → Bool
can_make_all dev d [] = true
can_make_all dev d (p ∷ ps) =
    (is_directory d p || (dev.can_make p && not (is_regular_file d p))) && can_make_all dev d ps

abbrev pub wanted_for : Bytes → List Bytes
wanted_for p = prefixes [] p ++ (if is_empty p then [] else p ∷ [])

-- All of the directories can be made; an empty path is an error.
abbrev pub can_make_path : Device → Disk → Bytes → Bool
can_make_path dev d p = not (is_empty p) && can_make_all dev d (wanted_for p)

-- `create_directories(p, ec)`: `none` where `ec` is set.
unfoldable pub create_directories : Device → Disk → Bytes → Option Disk
create_directories dev d p =
    if can_make_path dev d p
    then some (record d { directories = add_directories (wanted_for p) d.directories })
    else none
