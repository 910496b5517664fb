-- ===== src/Crypto.antt =====
-- file/CryptoUtils.h: MD5 texts, the cleaning of file names, the checks of extensions and scenes,
-- and the directory of a file. OpenSSL's `MD5` is a parameter.
pub mod Names
pub mod Texts
use cdfs.Base.{
  is_listed, ℕ, zero, suc, ◌+◌, ◌-◌, ◌/◌, ◌%◌, ◌<◌, ◌≡◌, Bool, true, false, not, ◌&&◌, ◌||◌, Option,
  none, some, List, [], ◌∷◌, ◌++◌, map, ltb, leb, ◌==◌, if◌then◌else◌, Bytes, bytes_eq, codes,
  length, take, drop, is_empty, substr, All, Result, ok, throws, invalid_argument,
}
use cdfs.Paths.{path_append, extension}

-- The digest function of OpenSSL: sixteen bytes for every text.
pub record Digest : Type 0 where
  pub digest : Bytes → Bytes
  pub digest_length : (content : Bytes) → length (digest content) ≡ 16
  pub digest_bytes : (content : Bytes) → All (λ c. c < 256) (digest content)

-- `std::hex` writes lower case.
unfoldable pub hex_digit : ℕ → ℕ
hex_digit v = if ltb v 10 then v + b'0' else v - 10 + b'a'

-- The loop that writes each byte with two digits.
unfoldable pub to_hex_text : Bytes → Bytes
to_hex_text [] = []
to_hex_text (c ∷ s) = hex_digit (c / 16) ∷ hex_digit (c % 16) ∷ to_hex_text s

unfoldable pub md5 : Digest → Bytes → Bytes
md5 d content = to_hex_text (d.digest content)

abbrev special_characters : Bytes
special_characters = codes "/\\:*?\"<>|()[]{},;'#@%&$^~=+-!"

abbrev contains : ℕ → Bytes → Bool
contains c [] = false
contains c (b ∷ s) = (b == c) || contains c s

-- The class of the first regular expression: the listed characters, and white space.
unfoldable pub is_special : ℕ → Bool
is_special c = contains c special_characters || (c == b' ') || (leb 9 c && leb c 13)

-- The first `regex_replace`.
unfoldable pub remove_special : Bytes → Bytes
remove_special [] = []
remove_special (c ∷ s) = let rest = remove_special s in if is_special c then rest else c ∷ rest

-- The second `regex_replace`: runs of two dots and more are removed. The first argument counts
-- the dots just read, which are kept where there is one.
unfoldable pub remove_dot_runs : ℕ → Bytes → Bytes
remove_dot_runs dots [] = if dots == 1 then b'.' ∷ [] else []
remove_dot_runs dots (c ∷ s) =
    let longer = remove_dot_runs (dots + 1) s in
    let rest = c ∷ remove_dot_runs 0 s in
    if c == b'.' then longer else if dots == 1 then b'.' ∷ rest else rest

unfoldable pub erase_front_dot : Bytes → Bytes
erase_front_dot [] = []
erase_front_dot (c ∷ s) = if c == b'.' then s else c ∷ s

unfoldable pub pop_back_dot : Bytes → Bytes
pop_back_dot [] = []
pop_back_dot (c ∷ []) = if c == b'.' then [] else c ∷ []
pop_back_dot (c ∷ d ∷ s) = c ∷ pop_back_dot (d ∷ s)

unfoldable pub trim_filename_special_char : Bytes → Bytes
trim_filename_special_char filename =
    pop_back_dot (erase_front_dot (remove_dot_runs 0 (remove_special filename)))

-- `::tolower` in the "C" locale
unfoldable pub tolower : ℕ → ℕ
tolower c = if leb b'A' c && leb c b'Z' then c + 32 else c

unfoldable pub check_file_ext : Bytes → List Bytes → Bool
check_file_ext filename allow_ext =
    if is_empty allow_ext then true else is_listed (map tolower (extension filename)) allow_ext

unfoldable pub check_scene : Bytes → List Bytes → Bool
check_scene scene allow_scenes =
    if is_empty allow_scenes then true else is_listed scene allow_scenes

unfoldable pub md5_to_rel_path : Bytes → Result Bytes
md5_to_rel_path md5_text =
    if ltb (length md5_text) 4
    then throws (invalid_argument (codes "[FileStore] MD5 length too short: " ++ md5_text))
    else ok (
        path_append (path_append (path_append [] (substr md5_text 0 2)) (substr md5_text 2 2))
          md5_text)
