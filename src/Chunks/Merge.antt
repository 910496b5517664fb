-- ===== src/Chunks/Merge.antt =====
-- controller/FileCtl.cpp, handleCheckChunk and handleMerge: what chunks there are, and the file that
-- is made of them.
use cdfs.Base.{
  ℕ, not, ◌||◌, none, some, List, [], ◌∷◌, ◌++◌, if◌then◌else◌, Bytes, codes, is_empty, lookup, ℤ,
  Result, ok, throws, filesystem_error,
}
use cdfs.Json.{array, object, members, integers}
use cdfs.Multipart.{get_param}
use cdfs.Context.{bad_request, StringResponse, HttpContext, success, error, get_form}
use cdfs.Crypto.{md5_to_rel_path}
use cdfs.Paths.{path_append, parent_path, extension}
use cdfs.Disk.{Disk, is_directory, is_there, file_size}
use cdfs.Database.{LevelDb}
use cdfs.Metadata.{save_meta}
use cdfs.FileCtl.{ServerState, Services, reply, new_meta, upload_json, what}
use cdfs.Chunks.{
  DirectoryService, list_indices, get_shard_index, sort_indices, then_on, write_merged, move_merged,
  clean_chunks,
}

module _ (L : LevelDb) (v : Services) (sys : DirectoryService) where
  -- The directory into which `handleChunkUpload` puts the chunks, as `handleCheckChunk` names it.
  abbrev pub upload_dir : Bytes → Bytes
  upload_dir file_md5 =
      v.store_config.root_dir ++ (codes "/" ++ (v.store_config.temp_dir ++ (codes "/" ++ file_md5)))

  -- The directory in which `handleMerge` looks for them: there is a blank behind the slash.
  abbrev pub temp_chunk_dir : Bytes → Bytes
  temp_chunk_dir file_md5 =
      path_append (v.store_config.root_dir ++ (codes "/ " ++ v.store_config.temp_dir)) file_md5

  unfoldable pub handle_check_chunk : HttpContext → ServerState L → Result StringResponse
  handle_check_chunk ctx s = elim (lookup (codes "md5") ctx.query) [
    | none ↦ error v.dump ctx (codes "md5 is empty") bad_request
    | some file_md5 ↦
        if is_empty file_md5
        then error v.dump ctx (codes "md5 is empty") bad_request
        else success v.dump ctx
            (object (
              members (
                (codes "list", array (integers (get_shard_index sys s.disk (upload_dir file_md5))))
                ∷ [])))
            []
  ]

  abbrev pub merged_file : Bytes → Bytes
  merged_file file_md5 =
      path_append (parent_path (temp_chunk_dir file_md5)) (file_md5 ++ codes ".merged")

  -- Steps 4 to 7 on the disk.
  unfoldable pub merge_disk : Disk → Bytes → Bytes → List ℤ → Disk × Result (Unit {0})
  merge_disk d file_md5 final_abs_path indices =
      let merged = merged_file file_md5 in
      then_on
        (then_on (write_merged sys v.device d (temp_chunk_dir file_md5) merged indices)
          (λ d1. move_merged sys v.device d1 merged final_abs_path))
        (λ d2. clean_chunks sys v.device d2 (temp_chunk_dir file_md5))

  -- Steps 8 and 9.
  unfoldable pub store_merged :
      HttpContext
      → ServerState L
      → Bytes
      → Bytes
      → Bytes
      → Bytes
      → Bytes
      → ℕ
      → ServerState L × Result StringResponse
  store_merged ctx s filename scene file_md5 path final_abs_path now =
      elim (file_size s.disk final_abs_path) [
        | throws e ↦ reply L v s (throws e)
        | ok size ↦
            let m = new_meta L v s filename scene size file_md5 path now in
            reply L v (record s { meta = (save_meta L v.codec m s.meta).0 })
              (success v.dump ctx (upload_json L v s.meta.config.domain m) (codes "Merge success"))
      ]

  -- The `try` block, once there are chunks. The merged file is written before the path is made.
  unfoldable pub merge_chunks :
      HttpContext
      → ServerState L
      → Bytes
      → Bytes
      → Bytes
      → List ℤ
      → ℕ
      → ServerState L × Result StringResponse
  merge_chunks ctx s filename scene file_md5 indices now =
      let merged = merged_file file_md5 in
      let written = write_merged sys v.device s.disk (temp_chunk_dir file_md5) merged indices in
      elim (md5_to_rel_path file_md5) [
        | throws e ↦ elim (written.1) [
          | throws first ↦ reply L v (record s { disk = written.0 }) (throws first)
          | ok u ↦ reply L v (record s { disk = written.0 }) (throws e)
        ]
        | ok base_rel_path ↦
            let rel = base_rel_path ++ extension filename in
            let final_abs_path = path_append (path_append v.store_config.root_dir scene) rel in
            let (d, ends) = merge_disk s.disk file_md5 final_abs_path indices in
            elim ends [
              | throws e ↦ reply L v (record s { disk = d }) (throws e)
              | ok u ↦
                  store_merged ctx (record s { disk = d }) filename scene file_md5
                    (path_append scene rel) final_abs_path now
            ]
      ]

  -- The `catch` block.
  abbrev pub merge_caught :
      HttpContext → ServerState L × Result StringResponse → ServerState L × Result StringResponse
  merge_caught ctx (s, ok response) = (s, ok response)
  merge_caught ctx (s, throws e) =
      (s, error v.dump ctx (codes "Merge failed: " ++ what e) bad_request)

  unfoldable pub handle_merge :
      HttpContext → ServerState L → ℕ → ServerState L × Result StringResponse
  handle_merge ctx s now =
      let form = (get_form ctx).0 in
      let file_md5 = get_param form (codes "md5") [] in
      let filename = get_param form (codes "filename") [] in
      let scene = get_param form (codes "scene") (codes "default") in
      let dir = temp_chunk_dir file_md5 in
      let indices = sort_indices (list_indices sys s.disk dir) in
      if is_empty file_md5 || is_empty filename
      then reply L v s (error v.dump ctx (codes "md5 or filename is empty") bad_request)
      else if not (is_there s.disk dir)
      then reply L v s (error v.dump ctx (codes "Chunk directory not found or expired") bad_request)
      else if not (is_directory s.disk dir)
      then merge_caught ctx (
          reply L v s
            (throws (filesystem_error (codes "directory iterator cannot open directory"))))
      else if is_empty indices
      then reply L v s (error v.dump ctx (codes "No chunks found") bad_request)
      else merge_caught ctx (merge_chunks ctx s filename scene file_md5 indices now)
