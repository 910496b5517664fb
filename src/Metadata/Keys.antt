-- ===== src/Metadata/Keys.antt =====
-- The keys of the store, and which of them differ.
use cdfs.Base.{
  ℕ, ◌≡◌, refl, true, false, [], ◌∷◌, ◌++◌, arith, Bytes, codes, Avoids, length, bytes_eq,
  bytes_eq_iff, bytes_eq-append,
}
use cdfs.MetaFile.{MetaFile}
use cdfs.Metadata.{is_md5, path_key, scene_key, shard_prefix}

abbrev pub colon : ℕ
colon = b':'

-- A text of 32 characters without a colon, such as an MD5 text.
pub record IsMd5Text (md5 : Bytes) : Type 0 where
  pub long : length md5 ≡ 32
  pub no_colon : Avoids colon md5

bytes_eq_sym : (s t : Bytes) → bytes_eq s t ≡ false → bytes_eq t s ≡ false
bytes_eq_sym s t h = ground (arith, bytes_eq_iff s t, bytes_eq_iff t s)

-- A text without the character differs from one that has it.
bytes_eq_of_Avoids : (c : ℕ) (s pre t : Bytes) → Avoids c s → bytes_eq s (pre ++ c ∷ t) ≡ false
unfolding bytes_eq
bytes_eq_of_Avoids c [] [] t h = refl
bytes_eq_of_Avoids c [] (b ∷ pre) t h = refl
bytes_eq_of_Avoids c (a ∷ s) [] t (p, h) = ground arith
bytes_eq_of_Avoids c (a ∷ s) (b ∷ pre) t (p, h) = ground (arith, bytes_eq_of_Avoids c s pre t h)

module _ (md5 : Bytes) (ok : IsMd5Text md5) where
  pub is_md5_of_text : is_md5 md5 ≡ true
  unfolding is_md5
  is_md5_of_text = ground arith

  pub path_key_ne_md5 : (path : Bytes) → bytes_eq (path_key path) md5 ≡ false
  path_key_ne_md5 path =
      bytes_eq_sym md5 (path_key path)
        (bytes_eq_of_Avoids colon md5 (codes "PATH") path ok.no_colon)

  pub md5_ne_path_key : (path : Bytes) → bytes_eq md5 (path_key path) ≡ false
  md5_ne_path_key path = bytes_eq_of_Avoids colon md5 (codes "PATH") path ok.no_colon

  pub scene_key_ne_md5 : (meta : MetaFile) (m : Bytes) → bytes_eq (scene_key meta m) md5 ≡ false
  scene_key_ne_md5 meta m =
      bytes_eq_sym md5 (scene_key meta m)
        (bytes_eq_of_Avoids colon md5 (codes "SCENE") _ ok.no_colon)

  pub shard_key_ne_md5 : (file index : Bytes) → bytes_eq (shard_prefix file ++ index) md5 ≡ false
  shard_key_ne_md5 file index =
      bytes_eq_sym md5 (shard_prefix file ++ index)
        (bytes_eq_of_Avoids colon md5 (codes "Shard") ((file ++ colon ∷ []) ++ index) ok.no_colon)

pub scene_key_ne_path_key :
    (meta : MetaFile) (m path : Bytes) → bytes_eq (scene_key meta m) (path_key path) ≡ false
unfolding bytes_eq
scene_key_ne_path_key meta m path = refl

pub bytes_eq-path_key : (p q : Bytes) → bytes_eq (path_key p) (path_key q) ≡ bytes_eq p q
bytes_eq-path_key p q = bytes_eq-append (codes "PATH:") p q
