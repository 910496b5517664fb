-- ===== src/Chunks/Found.antt =====
-- What a merge that succeeds leaves in the two stores.
use mathlib.Core.List.{Perm}
use cdfs.Base.{
  ℕ, ◌≡◌, refl, sym, ap, ◌∙◌, Bool, true, false, ◌||◌, none, some, List, [], ◌∷◌, ◌++◌, Bytes,
  codes, is_empty, lookup, ℤ, Result, ok, throws,
}
use cdfs.Multipart.{get_param}
use cdfs.Context.{StringResponse, HttpContext, get_form}
use cdfs.Crypto.{md5_to_rel_path}
use cdfs.Paths.{slash, path_append, extension}
use cdfs.Paths.Joins.{separator, path_append_assoc}
use cdfs.Disk.{Disk, is_directory, is_there, file_size}
use cdfs.FileStore.{get_file}
use cdfs.FileStore.Reading.{get_file_of_lookup}
use cdfs.Database.{LevelDb}
use cdfs.MetaFile.{MetaFile, stored}
use cdfs.Metadata.{MetadataStore, save_meta, get_meta}
use cdfs.Metadata.Keys.{IsMd5Text}
use cdfs.Metadata.Saved.{get_meta-save_meta}
use cdfs.FileCtl.{ServerState, Services}
use cdfs.FileCtl.Stored.{uploaded_meta}
use cdfs.Chunks.{DirectoryService, is_below, list_indices, sort_indices}
use cdfs.Chunks.Sorted.{IsSorted, sort_indices-IsSorted, sort_indices-perm}
use cdfs.Chunks.Copied.{until_empty, Chunks}
use cdfs.Chunks.Merge.{
  temp_chunk_dir, merged_file, merge_disk, store_merged, merge_chunks, merge_caught, handle_merge,
}
use cdfs.Chunks.Merged.{merge_disk-IsMerged}

module _ (L : LevelDb) (v : Services) (sys : DirectoryService) (ctx : HttpContext)
    (s : ServerState L) (now : ℕ) where
  abbrev pub md5_of : Bytes
  md5_of = get_param (get_form ctx).0 (codes "md5") []

  abbrev pub filename_of : Bytes
  filename_of = get_param (get_form ctx).0 (codes "filename") []

  abbrev pub scene_of : Bytes
  scene_of = get_param (get_form ctx).0 (codes "scene") (codes "default")

  abbrev pub dir_of : Bytes
  dir_of = temp_chunk_dir L v sys md5_of

  abbrev pub indices_of : List ℤ
  indices_of = sort_indices (list_indices sys s.disk dir_of)

  abbrev pub final_of : Bytes → Bytes
  final_of base =
      path_append (path_append v.store_config.root_dir scene_of) (base ++ extension filename_of)

  abbrev pub path_of : Bytes → Bytes
  path_of base = path_append scene_of (base ++ extension filename_of)

  abbrev pub meta_of : Bytes → ℕ → MetaFile
  meta_of base size =
      uploaded_meta filename_of scene_of size md5_of (path_of base) now s.meta.config.peer_id

  -- The request is not refused, and the merged and the final file stand apart from the chunks.
  pub record IsMergeable (base : Bytes) : Type 0 where
    pub named : (is_empty md5_of || is_empty filename_of) ≡ false
    pub there : is_there s.disk dir_of ≡ true
    pub is_dir : is_directory s.disk dir_of ≡ true
    pub some_chunks : is_empty indices_of ≡ false
    pub rel : md5_to_rel_path md5_of ≡ ok base
    pub joins : separator dir_of ≡ slash ∷ []
    pub apart : is_below dir_of (merged_file L v sys md5_of) ≡ false
    pub outside : is_below dir_of (final_of base) ≡ false

  caught_state : (r : ServerState L × Result StringResponse) → (merge_caught L v sys ctx r).0 ≡ r.0
  caught_state (x, ok response) = refl
  caught_state (x, throws e) = refl

  state_of_merge :
      (base : Bytes) (d : Disk) (size : ℕ)
      → IsMergeable base
      → merge_disk L v sys s.disk md5_of (final_of base) indices_of ≡ (d, ok tt)
      → file_size d (final_of base) ≡ ok size
      → (handle_merge L v sys ctx s now).0
        ≡ record s { meta = (save_meta L v.codec (meta_of base size) s.meta).0; disk = d }
  unfolding handle_merge merge_chunks store_merged
  state_of_merge base d size m e f = rw (m.named) (
      rw (m.there) (
        rw (m.is_dir) (
          rw (m.some_chunks) (
            caught_state (merge_chunks L v sys ctx s filename_of scene_of md5_of indices_of now)
            ∙ rw (m.rel, merge_chunks) (rw (e, merge_chunks) (rw e (rw (f, store_merged) refl)))))))

  -- What is found behind a merge.
  pub record IsFound (base : Bytes) (size : ℕ) (after : ServerState L) : Type 0 where
    pub contents : List Bytes
    pub chunks : Chunks v.device s.disk dir_of indices_of contents
    pub sorted : IsSorted indices_of
    pub listed : Perm indices_of (list_indices sys s.disk dir_of)
    pub content :
        get_file v.device v.store_config after.disk (path_of base) ≡ some (until_empty contents)
    pub meta : get_meta L v.codec md5_of after.meta ≡ some (meta_of base size)
    pub cleaned : is_directory after.disk dir_of ≡ false

  -- A request to merge that is not refused, for a directory of chunks whose name does not end in a
  -- slash, where the merged and the final file stand apart from the chunks, the steps on the disk
  -- end without an exception, the system lets the final file be read, and streams keep what they are
  -- given; with an MD5 text that had no metadata, whose new metadata has a JSON text and is written:
  -- afterwards the path below the scene gives the texts of the chunks, in the order of the rising
  -- numbers that are read from the names in the directory, up to the first empty one; the metadata
  -- is found under the MD5 text that the client sent, with the file name and the scene of the
  -- request, the size of the final file, and that path; and the directory of the chunks is gone.
  pub IsFound-handle_merge :
      (base t : Bytes) (d : Disk) (size : ℕ) (saved : MetadataStore L)
      → IsMergeable base
      → ((p x : Bytes) → sys.remains p x ≡ x)
      → merge_disk L v sys s.disk md5_of (final_of base) indices_of ≡ (d, ok tt)
      → file_size d (final_of base) ≡ ok size
      → v.device.can_read (path_append v.store_config.root_dir (path_of base)) ≡ true
      → IsMd5Text md5_of
      → L.get s.meta.db md5_of ≡ none
      → v.codec.dump (meta_of base size) ≡ ok t
      → save_meta L v.codec (meta_of base size) s.meta ≡ (saved, true)
      → IsFound base size (handle_merge L v sys ctx s now).0
  unfolding stored
  IsFound-handle_merge base t d size saved m whole e f readable is_text new dumps writes =
      let after = state_of_merge base d size m e f in
      let merged =
        merge_disk-IsMerged L v sys s.disk d md5_of (final_of base) indices_of m.joins m.apart
          m.outside e in
      let place =
        path_append_assoc v.store_config.root_dir scene_of (base ++ extension filename_of) in
      let stored_meta =
        get_meta-save_meta L v.codec (meta_of base size) s.meta saved t is_text dumps new writes in
      record {
        contents = merged.contents;
        chunks = merged.chunks;
        sorted = sort_indices-IsSorted (list_indices sys s.disk dir_of);
        listed = sort_indices-perm (list_indices sys s.disk dir_of);
        content =
            ap (λ (x : ServerState L). get_file v.device v.store_config x.disk (path_of base)) after
            ∙ get_file_of_lookup v.device v.store_config d (path_of base)
                (until_empty merged.contents)
                (ap (λ p. lookup p d.files) (sym place)
                  ∙ merged.there
                  ∙ ap some (whole (merged_file L v sys md5_of) (until_empty merged.contents)))
                readable;
        meta =
            ap (λ (x : ServerState L). get_meta L v.codec md5_of x.meta) after
            ∙ ap (λ (r : MetadataStore L × Bool). get_meta L v.codec md5_of r.0) writes
            ∙ stored_meta.0;
        cleaned = ap (λ (x : ServerState L). is_directory x.disk dir_of) after ∙ merged.gone;
      }
