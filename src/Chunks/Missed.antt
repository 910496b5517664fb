-- ===== src/Chunks/Missed.antt =====
-- Where the chunks are uploaded, and where `handleMerge` looks for them.
use cdfs.Base.{
  ℕ, ◌≡◌, ◌≢◌, sym, ap, ◌∙◌, inl, inr, Bool, true, false, ◌||◌, List, [], ◌∷◌, ◌++◌, Bool-cases,
  Bytes, codes, is_at, is_empty, is_listed, Result-cases, ok,
}
use mathlib.Core.List.{append_assoc, append-nil}
use cdfs.Multipart.{get_param}
use cdfs.Context.{bad_request, HttpContext, error, get_form}
use cdfs.Paths.Joins.{separator, path_append_relative}
use cdfs.Paths.{slash, path_append, parent_path}
use cdfs.Disk.{Disk, is_regular_file, is_directory, is_there}
use cdfs.Disk.Directories.{IsPrefix-trans, wanted_for-IsPrefix}
use cdfs.FileStore.{save_at, temp_of}
use cdfs.FileStore.Others.{save_at-others}
use cdfs.FileStore.Made.{save_at-Grows}
use cdfs.Database.{LevelDb}
use cdfs.FileCtl.{ServerState, Services, handle_chunk_upload}
use cdfs.Chunks.{DirectoryService}
use cdfs.Chunks.Merge.{temp_chunk_dir, handle_merge}
use cdfs.Chunks.Places.{
  parent_path-IsPrefix, StartsIn, StartsIn-apart, or_true, still_absent, IsPlain, uploads_start,
}

module _ (L : LevelDb) (v : Services) (sys : DirectoryService) where
  abbrev root : Bytes
  root = v.store_config.root_dir

  merge_starts :
      (m : Bytes) → is_at m 0 slash ≡ false → StartsIn root b' ' (temp_chunk_dir L v sys m)
  merge_starts m relative =
      let dir = root ++ (codes "/ " ++ v.store_config.temp_dir) in
      (
        v.store_config.temp_dir ++ (separator dir ++ m),
        path_append_relative dir m relative
            ∙ append_assoc root (codes "/ " ++ v.store_config.temp_dir) (separator dir ++ m),
      )

  module _ (h : IsPlain root v.store_config.temp_dir) (q : Bytes) (a : StartsIn root b' ' q) where
    save_at-misses :
        (d d' : Disk) (suffix content more : Bytes) (b : Bool)
        → is_there d q ≡ false
        → save_at v.device v.store_config d suffix content (v.store_config.temp_dir ++ more)
          ≡ ok (d', b)
        → is_there d' q ≡ false
    unfolding is_there is_regular_file is_directory
    save_at-misses d d' suffix content more b absent e =
        let p = path_append root (v.store_config.temp_dir ++ more) in
        let starts = uploads_start root v.store_config.temp_dir more h in
        let apart = StartsIn-apart root q p h.first h.not_blank a starts in
        let at_p : q ≢ p = λ k. apart ([], sym k ∙ sym (append-nil q)) in
        let at_temp : q ≢ temp_of v.device p suffix = λ k.
          StartsIn-apart root q (p ++ (codes ".tmp." ++ suffix)) h.first h.not_blank a
            (
              starts.0 ++ (codes ".tmp." ++ suffix),
              ap (λ z. z ++ (codes ".tmp." ++ suffix)) starts.1
                  ∙ append_assoc root (slash ∷ h.first ∷ starts.0) (codes ".tmp." ++ suffix),
            )
            ([], sym k ∙ sym (append-nil q)) in
        let same =
          save_at-others q v.device v.store_config d d' suffix content
            (v.store_config.temp_dir ++ more) b e at_p at_temp in
        let grows =
          save_at-Grows v.device v.store_config d d' suffix content
            (v.store_config.temp_dir ++ more) b e in
        elim (Bool-cases (is_listed q d'.directories)) [
          | inr f ↦ still_absent d d' q same f absent
          | inl t ↦ elim (grows.bounded q t) [
            | inl before ↦ absurd (cc (or_true _ _ before absent))
            | inr made ↦ absurd (
                apart (
                  IsPrefix-trans q (parent_path p) p (wanted_for-IsPrefix (parent_path p) q made)
                    (parent_path-IsPrefix p)))
          ]
        ]

    upload_misses :
        (ctx : HttpContext) (s : ServerState L) (suffix : Bytes)
        → is_there s.disk q ≡ false
        → is_there (handle_chunk_upload L v ctx s suffix).0.disk q ≡ false
    unfolding handle_chunk_upload
    upload_misses ctx s suffix absent =
        let form = (get_form ctx).0 in
        let file_md5 = get_param form (codes "md5") [] in
        let chunk_index = get_param form (codes "chunk") [] in
        let more = codes "/" ++ (file_md5 ++ (codes "/" ++ chunk_index)) in
        let saving =
          save_at v.device v.store_config s.disk suffix form.content
            (v.store_config.temp_dir ++ more) in
        elim (Bool-cases (is_empty file_md5 || is_empty form.content || is_empty chunk_index)) [
          | inl refused ↦ rw refused absent
          | inr served ↦ elim (Result-cases saving) [
            | inl (x, e) ↦ rw served (rw (e, handle_chunk_upload) absent)
            | inr ((d, false), e) ↦ rw served (
                rw (e, handle_chunk_upload)
                  (save_at-misses s.disk d suffix form.content more false absent e))
            | inr ((d, true), e) ↦ rw served (
                rw (e, handle_chunk_upload)
                  (save_at-misses s.disk d suffix form.content more true absent e))
          ]
        ]

  -- Uploads of chunks, one after the other, each with its context and the suffix of its temporary
  -- file.
  abbrev pub upload_chunks : List (HttpContext × Bytes) → ServerState L → ServerState L
  upload_chunks [] s = s
  upload_chunks ((ctx, suffix) ∷ us) s = upload_chunks us (handle_chunk_upload L v ctx s suffix).0

  uploads_miss :
      (h : IsPlain root v.store_config.temp_dir) (q : Bytes) (a : StartsIn root b' ' q)
      (us : List (HttpContext × Bytes)) (s : ServerState L)
      → is_there s.disk q ≡ false
      → is_there (upload_chunks us s).disk q ≡ false
  uploads_miss h q a [] s absent = absent
  uploads_miss h q a ((ctx, suffix) ∷ us) s absent =
      uploads_miss h q a us (handle_chunk_upload L v ctx s suffix).0
        (upload_misses h q a ctx s suffix absent)

  -- Whatever chunks are uploaded, of whatever files and with whatever outcome, to a root directory
  -- that does not end in a slash, and a temporary directory whose name begins neither with a slash
  -- nor with a blank: where nothing stood in the place with the blank before, a request to merge,
  -- which names a file and an MD5 text that does not begin with a slash, is answered that the
  -- chunk directory is not found, and changes nothing.
  pub handle_merge-upload_chunks :
      (ctx : HttpContext) (now : ℕ) (us : List (HttpContext × Bytes)) (s : ServerState L)
      → let file_md5 = get_param (get_form ctx).0 (codes "md5") [] in
        let filename = get_param (get_form ctx).0 (codes "filename") [] in
        IsPlain root v.store_config.temp_dir
        → (is_empty file_md5 || is_empty filename) ≡ false
        → is_at file_md5 0 slash ≡ false
        → is_there s.disk (temp_chunk_dir L v sys file_md5) ≡ false
        → handle_merge L v sys ctx (upload_chunks us s) now ≡ (
          upload_chunks us s,
          error v.dump ctx (codes "Chunk directory not found or expired") bad_request,
        )
  unfolding handle_merge
  handle_merge-upload_chunks ctx now us s h named relative absent =
      let file_md5 = get_param (get_form ctx).0 (codes "md5") [] in
      let still =
        uploads_miss h (temp_chunk_dir L v sys file_md5) (merge_starts file_md5 relative) us s
          absent in
      rw named (rw still)
