-- ===== src/Metadata/Removed.antt =====
-- Removing metadata, and what it undoes.
use mathlib.Core.Path.{subst}
use cdfs.Base.{
  ℕ, ◌^◌, ◌<◌, ◌≡◌, refl, sym, ap, ◌∙◌, ◌≢◌, inl, inr, Bool, true, false, none, some, arith,
  if◌then◌else◌, Option-cases, Bytes, length, bytes_eq, bytes_eq_refl, bytes_eq_iff, ok,
}
use cdfs.Database.{LevelDb}
use cdfs.MetaFile.{MetaFile, SystemStat, Codec, stored}
use cdfs.Metadata.{
  MetadataStore, path_key, scene_key, count_added, count_removed, serialize, deserialize, save_meta,
  get_meta, delete_batch, delete_write, delete_meta, get_stat,
}
use cdfs.Metadata.Lookup.{
  not_md5_of_length, target_of_md5, target_of_path, get_meta_gone, get_meta_lost,
}
use cdfs.Metadata.Keys.{
  IsMd5Text, is_md5_of_text, path_key_ne_md5, scene_key_ne_md5, scene_key_ne_path_key,
}
use cdfs.Metadata.Saved.{
  IsSaved-of_save_meta, get_of_saved, get_md5_of_saved, deserialize_of_serialize,
}

module _ (L : LevelDb) (C : Codec) where
  -- What a removal that found its metadata has done.
  pub record IsRemoved (meta : MetaFile) (md5 : Bytes) (s s' : MetadataStore L) : Type 0 where
    pub written : L.write s.db (delete_batch L C meta md5) ≡ some s'.db
    pub counted : s'.cached_stat ≡ count_removed s.cached_stat meta.size

  pub IsRemoved-of_delete_meta :
      (meta : MetaFile) (md5 val : Bytes) (s s' : MetadataStore L)
      → L.get s.db md5 ≡ some val
      → deserialize L C val ≡ ok meta
      → delete_meta L C md5 s ≡ (s', true)
      → IsRemoved meta md5 s s'
  unfolding delete_meta
  IsRemoved-of_delete_meta meta md5 val s s' found reads e =
      elim (Option-cases (L.write s.db (delete_batch L C meta md5))) [
        | inl failed ↦
            let got : delete_meta L C md5 s ≡ (s, false) =
              rw (found, delete_meta) (rw reads (rw (failed, delete_write))) in
            absurd (cc (ap (λ (p : MetadataStore L × Bool). p.1) (sym got ∙ e)))
        | inr (db', written) ↦
            let removed = record s {
              db = db';
              cached_stat = count_removed s.cached_stat meta.size;
            } in
            let got : delete_meta L C md5 s ≡ (removed, true) =
              rw (found, delete_meta) (rw reads (rw (written, delete_write))) in
            subst (IsRemoved meta md5 s) (ap (λ (p : MetadataStore L × Bool). p.0) (sym got ∙ e))
              (record { written = written; counted = refl })
      ]

  module _ {meta : MetaFile} {md5 : Bytes} {s s' : MetadataStore L}
      (removed : IsRemoved meta md5 s s') where
    pub get_of_removed :
        (k : Bytes)
        → L.get s'.db k ≡ (
            if bytes_eq (scene_key meta md5) k
            then none
            else if bytes_eq (path_key meta.path) k
            then none
            else if bytes_eq md5 k
            then none
            else L.get s.db k)
    get_of_removed k = L.get-write s.db s'.db (delete_batch L C meta md5) k removed.written

  -- The three keys of a file.
  pub record IsOtherKey (meta : MetaFile) (k : Bytes) : Type 0 where
    pub not_md5 : k ≢ meta.md5
    pub not_path : k ≢ path_key meta.path
    pub not_scene : k ≢ scene_key meta meta.md5

  ne_of_IsOtherKey :
      (meta : MetaFile) (k : Bytes)
      → IsOtherKey meta k
      → (bytes_eq meta.md5 k ≡ false)
        × (bytes_eq (path_key meta.path) k ≡ false)
        × (bytes_eq (scene_key meta meta.md5) k ≡ false)
  ne_of_IsOtherKey meta k h = (
    ground (arith, bytes_eq_iff meta.md5 k),
    ground (arith, bytes_eq_iff (path_key meta.path) k),
    ground (arith, bytes_eq_iff (scene_key meta meta.md5) k),
  )

  stat_ext : {a b : SystemStat} → a.file_count ≡ b.file_count → a.total_size ≡ b.total_size → a ≡ b
  stat_ext p q = λ i. record { file_count = p i; total_size = q i }

  undo_stat :
      (stat : SystemStat) (size : ℕ)
      → stat.file_count < 2 ^ 64
      → stat.total_size < 2 ^ 64
      → count_removed (count_added stat size) size ≡ stat
  undo_stat stat size h k = stat_ext (omega arith) (omega arith)

  -- Removing, under its MD5 text, metadata that was just saved, where both writes succeed, undoes
  -- the save: the metadata is found neither under its MD5 nor, unless the path has 32 characters,
  -- under its path; the statistics are the earlier ones; and every key but the file's three has the
  -- value that it had before the save.
  pub delete_meta-save_meta :
      (meta : MetaFile) (s s' s'' : MetadataStore L) (t : Bytes)
      → IsMd5Text meta.md5
      → C.dump meta ≡ ok t
      → L.get s.db meta.md5 ≡ none
      → s.cached_stat.file_count < 2 ^ 64
      → s.cached_stat.total_size < 2 ^ 64
      → save_meta L C meta s ≡ (s', true)
      → delete_meta L C meta.md5 s' ≡ (s'', true)
      → (get_meta L C meta.md5 s'' ≡ none)
        × (length meta.path ≢ 32 → get_meta L C meta.path s'' ≡ none)
        × (get_stat L C s'' ≡ get_stat L C s)
        × ((k : Bytes) → IsOtherKey meta k → L.get s''.db k ≡ L.get s.db k)
  unfolding get_stat stored
  delete_meta-save_meta meta s s' s'' t is_text e new fits fits' saves removes =
      let saved = IsSaved-of_save_meta L C meta s s' new saves in
      let removed : IsRemoved (stored meta) meta.md5 s' s'' =
        IsRemoved-of_delete_meta (stored meta) meta.md5 (serialize L C meta) s' s''
          (get_md5_of_saved L C saved is_text) (deserialize_of_serialize L C meta t e) removes in
      let gone : L.get s''.db meta.md5 ≡ none =
        get_of_removed removed meta.md5
        ∙ rw (scene_key_ne_md5 meta.md5 is_text meta meta.md5)
            (rw (path_key_ne_md5 meta.md5 is_text meta.path) (rw (bytes_eq_refl meta.md5))) in
      let unindexed : L.get s''.db (path_key meta.path) ≡ none =
        get_of_removed removed (path_key meta.path)
        ∙ rw (scene_key_ne_path_key meta meta.md5 meta.path)
            (rw (bytes_eq_refl (path_key meta.path))) in
      (
        get_meta_gone L C meta.md5 s''
            (target_of_md5 L C meta.md5 s'' (is_md5_of_text meta.md5 is_text)) gone,
        (λ short.
            get_meta_lost L C meta.path s''
              (target_of_path L C meta.path s'' (not_md5_of_length meta.path short) ∙ unindexed)),
        removed.counted
            ∙ ap (λ c. count_removed c meta.size) saved.counted
            ∙ undo_stat s.cached_stat meta.size fits fits',
        (λ k other.
            let (a, b, c) = ne_of_IsOtherKey meta k other in
            get_of_removed removed k
            ∙ rw c (rw b (rw a (get_of_saved L C saved k ∙ rw c (rw b (rw a)))))),
      )
