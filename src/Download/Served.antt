-- ===== src/Download/Served.antt =====
-- Serving a stored file.
use cdfs.Base.{
  refl, Option, codes, Dict, insert, ℕ, ◌≡◌, sym, ap, ◌∙◌, inl, inr, true, false, none, some, [],
  ◌∷◌, ◌++◌, if◌then◌else◌, Bool-cases, Option-cases, Bytes, length, is_empty, is_at, lookup,
  Result, ok,
}
use cdfs.Json.{Json}
use cdfs.Context.{HttpContext, Status}
use cdfs.Mime.{get_mime_type}
use cdfs.Paths.{slash, path_append}
use cdfs.Paths.Joins.{separator, path_append_relative}
use cdfs.Disk.{Disk, Device, is_regular_file, is_there}
use cdfs.FileStore.{StoreConfig, read_disk, get_file}
use cdfs.Download.{
  regular, file, opened, FileResponse, disposition, open_body, file_response, handle_download,
}

-- How the client is to take the file: by the name that it asked for.
abbrev pub attachment : Option Bytes → Bytes
attachment none = codes "inline"
attachment (some []) = codes "inline"
attachment (some (c ∷ name)) = codes "attachment; filename=\"" ++ ((c ∷ name) ++ codes "\"")

abbrev other_fields : Bytes → Dict Bytes
other_fields place =
    insert (codes "Content-Type") (get_mime_type place) (insert (codes "Server") (codes "MyDFS") [])

-- The answer with a file: status 200, the content with its length, and the fields.
abbrev pub served_file : HttpContext → Bytes → Bytes → FileResponse
served_file ctx place content = record {
  status = Status.ok;
  version = ctx.req.version;
  fields =
      insert (codes "Content-Disposition") (attachment (lookup (codes "attname") ctx.query))
        (other_fields place);
  content_length = length content;
  body = regular content;
}

module _ (dev : Device) (config : StoreConfig) where
  -- What `get_file` returns stands on the disk.
  lookup_of_get_file :
      (d : Disk) (path content : Bytes)
      → get_file dev config d path ≡ some content
      → lookup (path_append config.root_dir path) d.files ≡ some content
  unfolding get_file is_regular_file read_disk
  lookup_of_get_file d path content e =
      let p = path_append config.root_dir path in
      elim (Option-cases (lookup p d.files)) [
        | inl gone ↦ elim (Bool-cases (is_there d p)) [
          | inl t ↦ absurd (cc (rw (gone, is_regular_file) at (rw (t, get_file) at e)))
          | inr f ↦ absurd (cc (rw (f, get_file) at e))
        ]
        | inr (x, there) ↦ elim (Bool-cases (is_there d p)) [
          | inr f ↦ absurd (cc (rw (f, get_file) at e))
          | inl t ↦
              there
              ∙ by_content x (rw (there, is_regular_file, read_disk) at (rw (t, get_file) at e))
        ]
      ]
    where
      by_content :
          (x : Bytes)
          → (if is_empty x
              then some []
              else if dev.can_read (path_append config.root_dir path)
              then some x
              else none)
            ≡ some content
          → some x ≡ some content
      by_content [] e' = e'
      by_content (c ∷ x) e' = elim (Bool-cases (dev.can_read (path_append config.root_dir path))) [
        | inl t ↦ rw t at e'
        | inr f ↦ absurd (cc (rw f at e'))
      ]

  open_body-eq-opened :
      (directory_size : Bytes → ℕ) (dump : Json → Result Bytes) (d : Disk) (p content : Bytes)
      → lookup p d.files ≡ some content
      → dev.can_read p ≡ true
      → open_body dev directory_size dump config.root_dir d p
        ≡ opened (regular content) (length content)
  unfolding open_body
  open_body-eq-opened directory_size dump d p content there readable =
      rw (there, open_body) (rw readable)

  served_response :
      (directory_size : Bytes → ℕ) (dump : Json → Result Bytes) (ctx : HttpContext)
      (place content : Bytes)
      → file_response dev directory_size dump config.root_dir ctx place
          (regular content)
          (length content)
        ≡ served_file ctx place content
  unfolding file_response disposition
  served_response directory_size dump ctx place content =
      ap
        (λ d. record (served_file ctx place content) {
          fields = insert (codes "Content-Disposition") d (other_fields place);
        })
        (by_name (lookup (codes "attname") ctx.query))
    where
      by_name :
          (o : Option Bytes)
          → (elim o [
            | none ↦ codes "inline"
            | some name ↦
                if is_empty name
                then codes "inline"
                else codes "attachment; filename=\"" ++ (name ++ codes "\"")
          ])
            ≡ attachment o
      by_name none = refl
      by_name (some []) = refl
      by_name (some (c ∷ name)) = refl

  -- Below a root directory that is not empty and does not end in a slash, a file that the system
  -- lets read and that `get_file` reads from a path which does not begin with a slash, is served to
  -- a request whose path behind the route's prefix is a slash and that path: with status 200, its
  -- content, its length, and the media type that `get_mime_type` gives for it, and as an attachment
  -- where the query has a name in `attname`.
  pub handle_download-get_file :
      (directory_size : Bytes → ℕ) (dump : Json → Result Bytes) (ctx : HttpContext) (d : Disk)
      (path content : Bytes)
      → separator config.root_dir ≡ slash ∷ []
      → is_at path 0 slash ≡ false
      → ctx.path_suffix ≡ slash ∷ path
      → dev.can_read (path_append config.root_dir path) ≡ true
      → get_file dev config d path ≡ some content
      → handle_download dev directory_size dump config.root_dir ctx d
        ≡ ok (file (served_file ctx (path_append config.root_dir path) content))
  unfolding handle_download
  handle_download-get_file directory_size dump ctx d path content root relative suffix readable e =
      let place : config.root_dir ++ ctx.path_suffix ≡ path_append config.root_dir path =
        ap (λ s. config.root_dir ++ s) suffix
        ∙ sym (
            path_append_relative config.root_dir path relative
            ∙ ap (λ s. config.root_dir ++ (s ++ path)) root) in
      let some_path : is_empty ctx.path_suffix ≡ false = ap is_empty suffix in
      let body = open_body dev directory_size dump config.root_dir d in
      let opens : body (config.root_dir ++ ctx.path_suffix)
          ≡ opened (regular content) (length content) =
        ap body place
        ∙ open_body-eq-opened directory_size dump d (path_append config.root_dir path) content
            (lookup_of_get_file d path content e) readable in
      rw (some_path, handle_download)
        (rw opens (
          ap
            (λ p. ok (
              file (
                file_response dev directory_size dump config.root_dir ctx p (regular content)
                  (length content))))
            place
          ∙ ap (λ r. ok (file r))
              (served_response directory_size dump ctx (path_append config.root_dir path) content)))
