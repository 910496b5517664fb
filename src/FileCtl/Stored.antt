-- ===== src/FileCtl/Stored.antt =====
-- What an accepted upload leaves in the two stores.
use cdfs.Base.{
  ℕ, ◌+◌, ◌≡◌, refl, ap, ◌∙◌, Bool, true, false, Option, none, some, [], ◌∷◌, arith, leb, Bytes,
  codes, All, Avoids, length, is_empty, if◌then◌else◌, Result, ok, throws,
}
use cdfs.Multipart.{MultipartForm, get_param}
use cdfs.Context.{StringResponse, HttpContext, get_form, is_multipart}
use cdfs.Crypto.{Digest, md5, check_file_ext, trim_filename_special_char}
use cdfs.Crypto.Texts.{IsLowerHex, md5_shape}
use cdfs.Paths.{path_append}
use cdfs.Disk.{Disk, is_there}
use cdfs.FileStore.{save_file, get_file}
use cdfs.FileStore.Reading.{KeepsWhole}
use cdfs.FileStore.Scenes.{get_file-save_file}
use cdfs.Database.{LevelDb}
use cdfs.MetaFile.{MetaFile, normal, stored}
use cdfs.Metadata.{MetadataStore, save_meta, get_meta}
use cdfs.Metadata.Keys.{IsMd5Text, colon}
use cdfs.Metadata.Saved.{get_meta-save_meta}
use cdfs.FileCtl.{
  ServerState, Services, store_meta, caught, upload_file, upload_form, known_meta, handle_upload,
}

no_colon_of_hex : (s : Bytes) → All IsLowerHex s → Avoids colon s
no_colon_of_hex [] h = tt
no_colon_of_hex (c ∷ s) (p, h) = ((λ e. ground arith), no_colon_of_hex s h)

-- An MD5 text is one that the metadata store takes for an MD5.
md5-IsMd5Text : (d : Digest) (content : Bytes) → IsMd5Text (md5 d content)
md5-IsMd5Text d content =
    let (long, digits) = md5_shape d content in
    record { long = long; no_colon = no_colon_of_hex (md5 d content) digits }

-- The metadata of a whole file that was uploaded.
abbrev pub uploaded_meta : Bytes → Bytes → ℕ → Bytes → Bytes → ℕ → Bytes → MetaFile
uploaded_meta name scene size file_md5 path now peer = record {
  md5 = file_md5;
  path = path;
  name = name;
  domain = [];
  scene = scene;
  src = [];
  size = size;
  mtime = now;
  status = normal;
  is_sharded = false;
  shard_std_size = 0;
  shard_count = 0;
  shards = [];
  uploaded_count = 0;
  uploaded_chunks = [];
  peers = peer ∷ [];
}

module _ (L : LevelDb) (v : Services) (ctx : HttpContext) (s : ServerState L) (now : ℕ) where
  abbrev form : MultipartForm
  form = (get_form ctx).0

  abbrev scene : Bytes
  scene = get_param form (codes "scene") (codes "default")

  abbrev pub content_of : Bytes
  content_of = form.content

  abbrev pub md5_of : Bytes
  md5_of = md5 v.digest form.content

  -- The name without what the trimming takes away, where the configuration says so.
  abbrev name_of : Bytes
  name_of =
      if s.meta.config.enable_trim_filename
      then trim_filename_special_char form.filename
      else form.filename

  -- The metadata of the upload, for the path at which its file stands.
  abbrev pub meta_of : Bytes → MetaFile
  meta_of path =
      uploaded_meta name_of scene (length form.content) md5_of path now s.meta.config.peer_id

  -- The upload is not refused: there is room, no known file is named, and the form has a file whose
  -- name is allowed and is not empty once it is cleaned.
  pub record IsAccepted : Type 0 where
    pub not_busy : leb 20 s.concurrent_uploads ≡ false
    pub unknown : known_meta L v ctx s ≡ none
    pub multipart : is_multipart ctx ≡ true
    pub has_content : is_empty form.content ≡ false
    pub allowed : check_file_ext form.filename v.store_config.allow_extensions ≡ true
    pub named : is_empty name_of ≡ false

  -- How the file is saved.
  abbrev pub saving : Bytes → Result (Disk × Option Bytes)
  saving suffix =
      save_file v.device v.store_config v.digest s.disk suffix form.filename form.content scene
        md5_of

  caught_state : (r : ServerState L × Result StringResponse) → (caught L v ctx r).0 ≡ r.0
  caught_state (x, ok response) = refl
  caught_state (x, throws e) = refl

  pub state_of_upload :
      (suffix path : Bytes) (d : Disk)
      → IsAccepted
      → saving suffix ≡ ok (d, some path)
      → (handle_upload L v ctx s suffix now).0 ≡ record {
        meta = (save_meta L v.codec (meta_of path) s.meta).0;
        disk = d;
        concurrent_uploads = s.concurrent_uploads + 1;
      }
  unfolding handle_upload upload_form upload_file store_meta
  state_of_upload suffix path d a e =
      let counted = record s { concurrent_uploads = s.concurrent_uploads + 1 } in
      let result : ServerState L = record {
        meta = (save_meta L v.codec (meta_of path) s.meta).0;
        disk = d;
        concurrent_uploads = s.concurrent_uploads + 1;
      } in
      let tried : (upload_file L v ctx counted form suffix now).0 ≡ result =
        rw (e, upload_file) (rw (a.named, store_meta)) in
      rw (a.not_busy, handle_upload)
        (rw a.unknown (
          rw (a.multipart, upload_form)
            (rw (a.has_content, a.allowed)
              (caught_state (upload_file L v ctx counted form suffix now) ∙ tried))))

  -- An upload that is accepted, of a file that neither store has, and whose two writes succeed, the
  -- metadata having a JSON text: it leaves a server that finds the file. The metadata is found under
  -- the MD5 text of the content, with the name, trimmed where the configuration says so, the scene,
  -- the length of the content as the size, and the path; and the content is found at that path,
  -- where the system lets the place be read and the device keeps whole what it keeps at full length.
  pub found-handle_upload :
      (suffix path t : Bytes) (d : Disk) (saved : MetadataStore L)
      → IsAccepted
      → saving suffix ≡ ok (d, some path)
      → L.get s.meta.db md5_of ≡ none
      → v.codec.dump (meta_of path) ≡ ok t
      → save_meta L v.codec (meta_of path) s.meta ≡ (saved, true)
      → KeepsWhole v.device
      → v.device.can_read (path_append v.store_config.root_dir path) ≡ true
      → is_there s.disk (path_append v.store_config.root_dir path) ≡ false
      → (get_meta L v.codec md5_of (handle_upload L v ctx s suffix now).0.meta
          ≡ some (meta_of path))
        × (get_file v.device v.store_config (handle_upload L v ctx s suffix now).0.disk path
            ≡ some content_of)
  unfolding stored
  found-handle_upload suffix path t d saved a e new dumps writes whole readable absent =
      let after = state_of_upload suffix path d a e in
      let state = ap (λ (r : MetadataStore L × Bool). r.0) writes in
      let (by_md5, by_path) =
        get_meta-save_meta L v.codec (meta_of path) s.meta saved t
          (md5-IsMd5Text v.digest form.content) dumps new writes in
      (
        ap (λ (x : ServerState L). get_meta L v.codec md5_of x.meta) after
            ∙ ap (get_meta L v.codec md5_of) state
            ∙ by_md5,
        ap (λ (x : ServerState L). get_file v.device v.store_config x.disk path) after
            ∙ get_file-save_file v.device v.store_config v.digest s.disk d suffix form.filename
                form.content scene md5_of path whole readable absent e,
      )
