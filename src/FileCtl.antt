-- ===== src/FileCtl.antt =====
-- controller/FileCtl.h and FileCtl.cpp: the handlers for checking, uploading, and uploading a chunk.
-- A handler takes the state of the server and gives the new state, and the response that it sends
-- or the exception that leaves it.
pub mod Uploads
pub mod Stored
use cdfs.Base.{
  length, ◌||◌, ℕ, ◌+◌, Bool, true, false, not, Option, none, some, List, [], ◌∷◌, ◌++◌, leb,
  if◌then◌else◌, Bytes, codes, is_empty, lookup, Result, ok, throws, Exception, url_parse_exception,
  invalid_argument, runtime_error, filesystem_error, json_exception, bad_optional_access,
}
use cdfs.Json.{Json, number, string, object, end, members}
use cdfs.Multipart.{MultipartForm, get_param}
use cdfs.Context.{
  Status, bad_request, StringResponse, HttpContext, success, error, get_form, is_multipart,
}
use cdfs.Crypto.{Digest, md5, trim_filename_special_char, check_file_ext}
use cdfs.Disk.{Disk, Device}
use cdfs.FileStore.{StoreConfig, save_file, save_at}
use cdfs.Database.{LevelDb}
use cdfs.MetaFile.{normal, MetaFile, Codec}
use cdfs.Metadata.{MetadataStore, save_meta, get_meta, exists}

-- The counter is an `int` that starts at 0 and is never taken below it.
pub record ServerState (L : LevelDb) : Type 0 where
  pub meta : MetadataStore L
  pub disk : Disk
  pub concurrent_uploads : ℕ

-- `e.what()`
abbrev pub what : Exception → Bytes
what (url_parse_exception t) = t
what (invalid_argument t) = t
what (runtime_error t) = t
what (filesystem_error t) = t
what (json_exception t) = t
what (bad_optional_access t) = t

abbrev pub max_concurrent_uploads : ℕ
max_concurrent_uploads = 20

-- What the handlers call and do not change: the device and the configuration of the file store,
-- the digest, the JSON text of a document, and the JSON document of a file's metadata.
pub record Services : Type 0 where
  pub device : Device
  pub store_config : StoreConfig
  pub digest : Digest
  pub codec : Codec
  pub dump : Json → Result Bytes
  pub meta_json : MetaFile → Json

module _ (L : LevelDb) (v : Services) where
  abbrev pub reply : ServerState L → Result StringResponse → ServerState L × Result StringResponse
  reply s response = (s, response)

  unfoldable pub handle_check : HttpContext → ServerState L → Result StringResponse
  handle_check ctx s = elim (lookup (codes "md5") ctx.query) [
    | none ↦ error v.dump ctx (codes "md5 is empty") bad_request
    | some file_md5 ↦
        if is_empty file_md5
        then error v.dump ctx (codes "md5 is empty") bad_request
        else if exists L v.codec file_md5 s.meta
        then success v.dump ctx (object end) (codes "file exist")
        else success v.dump ctx (object end) (codes "file not exist")
  ]

  abbrev pub clean_name : ServerState L → Bytes → Bytes
  clean_name s filename =
      if s.meta.config.enable_trim_filename then trim_filename_special_char filename else filename

  -- The metadata of an uploaded file; `now` is what `std::time` gives.
  abbrev pub new_meta : ServerState L → Bytes → Bytes → ℕ → Bytes → Bytes → ℕ → MetaFile
  new_meta s name scene size file_md5 path now = record {
    md5 = file_md5;
    path = path;
    name = name;
    domain = [];
    scene = scene;
    src = [];
    size = size;
    mtime = now;
    status = normal;
    is_sharded = false;
    shard_std_size = 0;
    shard_count = 0;
    shards = [];
    uploaded_count = 0;
    uploaded_chunks = [];
    peers = s.meta.config.peer_id ∷ [];
  }

  abbrev pub upload_json : Bytes → MetaFile → Json
  upload_json domain m = object (
      members (
        (codes "url", string (domain ++ (codes "/" ++ m.path)))
        ∷ (codes "path", string m.path)
        ∷ (codes "md5", string m.md5)
        ∷ (codes "scene", string m.scene)
        ∷ (codes "size", number m.size)
        ∷ (codes "mtime", number m.mtime)
        ∷ (codes "name", string m.name)
        ∷ []))

  -- The `try` block of `handleUpload`, once the file is saved.
  unfoldable pub store_meta :
      HttpContext
      → ServerState L
      → Bytes
      → Option Bytes
      → (Bytes → MetaFile)
      → ServerState L × Result StringResponse
  store_meta ctx s name file_path meta_at =
      if is_empty name
      then reply s (
          throws (
            invalid_argument
              (codes "[FileStore] Filename is empty after trimming special characters.")))
      else elim file_path [
        | none ↦ reply s (throws (bad_optional_access (codes "bad optional access")))
        | some path ↦
            let m = meta_at path in
            reply (record s { meta = (save_meta L v.codec m s.meta).0 })
              (success v.dump ctx (upload_json s.meta.config.domain m) (codes "Upload success"))
      ]

  -- The `catch` block.
  abbrev pub caught :
      HttpContext → ServerState L × Result StringResponse → ServerState L × Result StringResponse
  caught ctx (s, ok response) = (s, ok response)
  caught ctx (s, throws e) = (s, error v.dump ctx (what e) bad_request)

  -- The `try` block: the file is saved before its name is looked at.
  unfoldable pub upload_file :
      HttpContext
      → ServerState L
      → MultipartForm
      → Bytes
      → ℕ
      → ServerState L × Result StringResponse
  upload_file ctx s form suffix now =
      let scene = get_param form (codes "scene") (codes "default") in
      let name = clean_name s form.filename in
      let file_md5 = md5 v.digest form.content in
      elim (save_file v.device v.store_config v.digest s.disk suffix form.filename form.content
        scene file_md5) [
          | throws e ↦ reply s (throws e)
          | ok (d, file_path) ↦
              store_meta ctx (record s { disk = d }) name file_path
                (λ path. new_meta s name scene (length form.content) file_md5 path now)
        ]

  -- `handleUpload` from the form on.
  unfoldable pub upload_form :
      HttpContext → ServerState L → Bytes → ℕ → ServerState L × Result StringResponse
  upload_form ctx s suffix now =
      let form = (get_form ctx).0 in
      if not (is_multipart ctx)
      then reply s (error v.dump ctx (codes "Request is not a multipart/form-data") bad_request)
      else if is_empty form.content
      then reply s (error v.dump ctx (codes "File content is empty") bad_request)
      else if not (check_file_ext form.filename v.store_config.allow_extensions)
      then reply s (error v.dump ctx (codes "File extension not allowed") bad_request)
      else caught ctx (upload_file ctx s form suffix now)

  -- The metadata that the client's own MD5 text names, if it sent one.
  unfoldable pub known_meta : HttpContext → ServerState L → Option MetaFile
  known_meta ctx s = elim (lookup (codes "md5") ctx.query) [
    | none ↦ none
    | some file_md5 ↦ if is_empty file_md5 then none else get_meta L v.codec file_md5 s.meta
  ]

  -- `handleUpload`: the counter is taken back on the busy branch only.
  unfoldable pub handle_upload :
      HttpContext → ServerState L → Bytes → ℕ → ServerState L × Result StringResponse
  handle_upload ctx s suffix now =
      let counted = record s { concurrent_uploads = s.concurrent_uploads + 1 } in
      if leb max_concurrent_uploads s.concurrent_uploads
      then reply s (error v.dump ctx (codes "Server busy, too many uploads") bad_request)
      else elim (known_meta ctx s) [
        | some m ↦
            reply counted (success v.dump ctx (v.meta_json m) (codes "Deduplication success"))
        | none ↦ upload_form ctx counted suffix now
      ]

  unfoldable pub handle_chunk_upload :
      HttpContext → ServerState L → Bytes → ServerState L × Result StringResponse
  handle_chunk_upload ctx s suffix =
      let form = (get_form ctx).0 in
      let file_md5 = get_param form (codes "md5") [] in
      let chunk_index = get_param form (codes "chunk") [] in
      let file_path =
        v.store_config.temp_dir ++ (codes "/" ++ (file_md5 ++ (codes "/" ++ chunk_index))) in
      if is_empty file_md5 || is_empty form.content || is_empty chunk_index
      then reply s (error v.dump ctx (codes "md5 or content or chunk is empty") bad_request)
      else elim (save_at v.device v.store_config s.disk suffix form.content file_path) [
        | throws e ↦ reply s (throws e)
        | ok (d, false) ↦
            reply (record s { disk = d }) (error v.dump ctx (codes "Save file failed") bad_request)
        | ok (d, true) ↦
            reply (record s { disk = d })
              (success v.dump ctx (object (members ((codes "chunk", string chunk_index) ∷ []))) [])
      ]
