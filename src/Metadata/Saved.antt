-- ===== src/Metadata/Saved.antt =====
-- Saving metadata and reading it back.
use mathlib.Core.Path.{subst}
use cdfs.Base.{
  ◌≡◌, refl, sym, ap, ◌∙◌, ◌≢◌, inl, inr, Bool, true, false, none, some, if◌then◌else◌,
  Option-cases, Bytes, length, bytes_eq, bytes_eq_refl, ok,
}
use cdfs.Database.{LevelDb}
use cdfs.MetaFile.{MetaFile, Codec, stored}
use cdfs.Metadata.{
  MetadataStore, path_key, scene_key, count_added, serialize, deserialize, save_batch, save_write,
  save_meta, get_meta, catch_none,
}
use cdfs.Metadata.Lookup.{not_md5_of_length, target_of_md5, target_of_path, get_meta_at}
use cdfs.Metadata.Keys.{
  IsMd5Text, is_md5_of_text, path_key_ne_md5, scene_key_ne_md5, scene_key_ne_path_key,
}

module _ (L : LevelDb) (C : Codec) where
  -- What a save that had to write has done.
  pub record IsSaved (meta : MetaFile) (s s' : MetadataStore L) : Type 0 where
    pub written : L.write s.db (save_batch L C meta) ≡ some s'.db
    pub counted : s'.cached_stat ≡ count_added s.cached_stat meta.size
    pub same_config : s'.config ≡ s.config

  pub IsSaved-of_save_meta :
      (meta : MetaFile) (s s' : MetadataStore L)
      → L.get s.db meta.md5 ≡ none
      → save_meta L C meta s ≡ (s', true)
      → IsSaved meta s s'
  unfolding save_meta save_write
  IsSaved-of_save_meta meta s s' new e = elim (Option-cases (L.write s.db (save_batch L C meta))) [
    | inl failed ↦
        let got : save_meta L C meta s ≡ (s, false) =
          rw (new, save_meta) (rw (failed, save_write)) in
        absurd (cc (ap (λ (p : MetadataStore L × Bool). p.1) (sym got ∙ e)))
    | inr (db', written) ↦
        let saved = record s { db = db'; cached_stat = count_added s.cached_stat meta.size } in
        let got : save_meta L C meta s ≡ (saved, true) =
          rw (new, save_meta) (rw (written, save_write)) in
        subst (IsSaved meta s) (ap (λ (p : MetadataStore L × Bool). p.0) (sym got ∙ e))
          (record { written = written; counted = refl; same_config = refl })
  ]

  pub deserialize_of_serialize :
      (meta : MetaFile) (t : Bytes)
      → C.dump meta ≡ ok t
      → deserialize L C (serialize L C meta) ≡ ok (stored meta)
  unfolding serialize deserialize
  deserialize_of_serialize meta t e = rw (e, serialize) (C.parse-dump meta t e)

  module _ {meta : MetaFile} {s s' : MetadataStore L} (saved : IsSaved meta s s') where
    pub get_of_saved :
        (k : Bytes)
        → L.get s'.db k ≡ (
            if bytes_eq (scene_key meta meta.md5) k
            then some meta.md5
            else if bytes_eq (path_key meta.path) k
            then some meta.md5
            else if bytes_eq meta.md5 k
            then some (serialize L C meta)
            else L.get s.db k)
    get_of_saved k = L.get-write s.db s'.db (save_batch L C meta) k saved.written

    pub get_md5_of_saved : IsMd5Text meta.md5 → L.get s'.db meta.md5 ≡ some (serialize L C meta)
    get_md5_of_saved is_text =
        get_of_saved meta.md5
        ∙ rw (scene_key_ne_md5 meta.md5 is_text meta meta.md5)
            (rw (path_key_ne_md5 meta.md5 is_text meta.path) (rw (bytes_eq_refl meta.md5)))

    get_path_of_saved : L.get s'.db (path_key meta.path) ≡ some meta.md5
    get_path_of_saved =
        get_of_saved (path_key meta.path)
        ∙ rw (scene_key_ne_path_key meta meta.md5 meta.path)
            (rw (bytes_eq_refl (path_key meta.path)))

    get_meta_md5_of_saved :
        (t : Bytes)
        → IsMd5Text meta.md5
        → C.dump meta ≡ ok t
        → get_meta L C meta.md5 s' ≡ some (stored meta)
    get_meta_md5_of_saved t is_text e =
        get_meta_at L C meta.md5 s'
          (target_of_md5 L C meta.md5 s' (is_md5_of_text meta.md5 is_text))
          (get_md5_of_saved is_text)
        ∙ ap (catch_none L C) (deserialize_of_serialize meta t e)

    get_meta_path_of_saved :
        (t : Bytes)
        → IsMd5Text meta.md5
        → C.dump meta ≡ ok t
        → length meta.path ≢ 32
        → get_meta L C meta.path s' ≡ some (stored meta)
    get_meta_path_of_saved t is_text e short =
        get_meta_at L C meta.path s'
          (target_of_path L C meta.path s' (not_md5_of_length meta.path short) ∙ get_path_of_saved)
          (get_md5_of_saved is_text)
        ∙ ap (catch_none L C) (deserialize_of_serialize meta t e)

  -- Metadata that was not there, saved under an MD5 text, and whose JSON text can be written, is
  -- found afterwards under its MD5, and under its path unless the path has 32 characters; what is
  -- found is what was saved, but for the paths of its shards, which are not stored.
  pub get_meta-save_meta :
      (meta : MetaFile) (s s' : MetadataStore L) (t : Bytes)
      → IsMd5Text meta.md5
      → C.dump meta ≡ ok t
      → L.get s.db meta.md5 ≡ none
      → save_meta L C meta s ≡ (s', true)
      → (get_meta L C meta.md5 s' ≡ some (stored meta))
        × (length meta.path ≢ 32 → get_meta L C meta.path s' ≡ some (stored meta))
  get_meta-save_meta meta s s' t is_text e new saves =
      let saved = IsSaved-of_save_meta meta s s' new saves in
      (get_meta_md5_of_saved saved t is_text e, get_meta_path_of_saved saved t is_text e)
