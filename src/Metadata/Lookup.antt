-- ===== src/Metadata/Lookup.antt =====
-- How `get_meta` finds its record, one lemma for each way.
use cdfs.Base.{◌≡◌, ◌≢◌, true, false, none, some, arith, Bytes, length}
use cdfs.Database.{LevelDb}
use cdfs.MetaFile.{Codec}
use cdfs.Metadata.{MetadataStore, is_md5, path_key, deserialize, target_md5, get_meta, catch_none}

pub not_md5_of_length : (s : Bytes) → length s ≢ 32 → is_md5 s ≡ false
unfolding is_md5
not_md5_of_length s h = ground arith

module _ (L : LevelDb) (C : Codec) (k : Bytes) (s : MetadataStore L) where
  pub target_of_md5 : is_md5 k ≡ true → target_md5 L C k s ≡ some k
  unfolding target_md5
  target_of_md5 e = rw e

  pub target_of_path : is_md5 k ≡ false → target_md5 L C k s ≡ L.get s.db (path_key k)
  unfolding target_md5
  target_of_path e = rw e

  pub get_meta_at :
      {m v : Bytes}
      → target_md5 L C k s ≡ some m
      → L.get s.db m ≡ some v
      → get_meta L C k s ≡ catch_none L C (deserialize L C v)
  unfolding get_meta
  get_meta_at e g = rw (e, get_meta) (rw g)

  pub get_meta_gone :
      {m : Bytes} → target_md5 L C k s ≡ some m → L.get s.db m ≡ none → get_meta L C k s ≡ none
  unfolding get_meta
  get_meta_gone e g = rw (e, get_meta) (rw g)

  pub get_meta_lost : target_md5 L C k s ≡ none → get_meta L C k s ≡ none
  unfolding get_meta
  get_meta_lost e = rw (e, get_meta)
