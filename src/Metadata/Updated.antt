-- ===== src/Metadata/Updated.antt =====
-- Replacing the metadata of a file.
use cdfs.Base.{◌≡◌, ◌≢◌, sym, ap, ◌∙◌, Bool, true, none, some, Bytes, bytes_eq_refl, length, ok}
use cdfs.Database.{LevelDb}
use cdfs.MetaFile.{MetaFile, Codec, stored}
use cdfs.Metadata.{MetadataStore, deserialize, save_meta, get_meta, delete_meta, update_meta}
use cdfs.Metadata.Keys.{IsMd5Text, path_key_ne_md5, scene_key_ne_md5}
use cdfs.Metadata.Saved.{get_meta-save_meta}
use cdfs.Metadata.Removed.{IsRemoved-of_delete_meta, get_of_removed}

module _ (L : LevelDb) (C : Codec) where
  gone_after_delete :
      (old : MetaFile) (md5 val : Bytes) (s s1 : MetadataStore L)
      → IsMd5Text md5
      → L.get s.db md5 ≡ some val
      → deserialize L C val ≡ ok old
      → delete_meta L C md5 s ≡ (s1, true)
      → L.get s1.db md5 ≡ none
  gone_after_delete old md5 val s s1 is_text found reads e =
      let removed = IsRemoved-of_delete_meta L C old md5 val s s1 found reads e in
      get_of_removed L C removed md5
      ∙ rw (scene_key_ne_md5 md5 is_text old md5)
          (rw (path_key_ne_md5 md5 is_text old.path) (rw (bytes_eq_refl md5)))

  -- `update_meta` of a file that has metadata which can be read, under an MD5 text, with JSON text
  -- for the new metadata, where both of its writes succeed: afterwards the new metadata is found
  -- under the MD5, and under its own path unless that has 32 characters.
  get_meta-update_meta :
      (meta old : MetaFile) (val t : Bytes) (s s1 s2 : MetadataStore L)
      → IsMd5Text meta.md5
      → L.get s.db meta.md5 ≡ some val
      → deserialize L C val ≡ ok old
      → C.dump meta ≡ ok t
      → delete_meta L C meta.md5 s ≡ (s1, true)
      → update_meta L C meta s ≡ (s2, true)
      → (get_meta L C meta.md5 s2 ≡ some (stored meta))
        × (length meta.path ≢ 32 → get_meta L C meta.path s2 ≡ some (stored meta))
  unfolding update_meta
  get_meta-update_meta meta old val t s s1 s2 is_text found reads dumps deletes updates =
      let saves : save_meta L C meta s1 ≡ (s2, true) =
        sym (ap (λ (r : MetadataStore L × Bool). save_meta L C meta r.0) deletes) ∙ updates in
      get_meta-save_meta L C meta s1 s2 t is_text dumps
        (gone_after_delete old meta.md5 val s s1 is_text found reads deletes) saves
