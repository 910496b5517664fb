-- ===== src/Download.antt =====
-- controller/FileCtl.cpp, handleDownload: a file sent from the disk.
-- What the system reports as the size of a directory, which can be opened like a file, is a
-- parameter.
pub mod Served
use cdfs.Base.{
  ℕ, Bool, true, false, not, Option, none, some, List, [], ◌∷◌, ◌++◌, if◌then◌else◌, Bytes, codes,
  length, is_empty, Dict, lookup, insert, Result, ok, ◌>>=◌,
}
use cdfs.Json.{Json}
use cdfs.Context.{Status, bad_request, StringResponse, HttpContext, error, not_found_error}
use cdfs.Disk.{Disk, Device, is_directory, is_through_file}
use cdfs.Mime.{get_mime_type}

-- The body that is streamed: a file's content, or a directory, which cannot be read.
pub data FileBody : Type 0 where
  regular : Bytes → FileBody
  directory : FileBody

pub record FileResponse : Type 0 where
  pub status : Status
  pub version : ℕ
  pub fields : Dict Bytes
  pub content_length : ℕ
  pub body : FileBody

pub data Sent : Type 0 where
  message : StringResponse → Sent
  file : FileResponse → Sent

-- How `body.open` ends.
pub data Opened : Type 0 where
  no_such_file : Opened
  failed : Opened
  opened : FileBody → ℕ → Opened

module _ (dev : Device) (directory_size : Bytes → ℕ) (dump : Json → Result Bytes)
    (root_dir : Bytes) where
  unfoldable pub open_body : Disk → Bytes → Opened
  open_body d p = elim (lookup p d.files) [
    | some content ↦ if dev.can_read p then opened (regular content) (length content) else failed
    | none ↦
        if is_through_file d p
        then failed
        else if not (is_directory d p)
        then no_such_file
        else if dev.can_read p
        then opened directory (directory_size p)
        else failed
  ]

  -- The name that the client asks for, if it asks for one.
  unfoldable pub disposition : HttpContext → Bytes
  disposition ctx = elim (lookup (codes "attname") ctx.query) [
    | none ↦ codes "inline"
    | some new_filename ↦
        if is_empty new_filename
        then codes "inline"
        else codes "attachment; filename=\"" ++ (new_filename ++ codes "\"")
  ]

  -- `content_length` stands in the fields of the library's message; it is a field of its own here.
  unfoldable pub file_response : HttpContext → Bytes → FileBody → ℕ → FileResponse
  file_response ctx abs_path body size = record {
    status = Status.ok;
    version = ctx.req.version;
    fields = insert (codes "Content-Disposition") (disposition ctx) (
        insert (codes "Content-Type") (get_mime_type abs_path)
          (insert (codes "Server") (codes "MyDFS") []));
    content_length = size;
    body = body;
  }

  abbrev pub as_message : Result StringResponse → Result Sent
  as_message response = (response >>= λ r. ok (message r))

  unfoldable pub handle_download : HttpContext → Disk → Result Sent
  handle_download ctx d =
      let abs_path = root_dir ++ ctx.path_suffix in
      if is_empty ctx.path_suffix
      then as_message (not_found_error dump ctx (codes "File path missing"))
      else elim (open_body d abs_path) [
        | no_such_file ↦ as_message (not_found_error dump ctx (codes "File not found"))
        | failed ↦ as_message (error dump ctx (codes "File open error") bad_request)
        | opened body size ↦ ok (file (file_response ctx abs_path body size))
      ]
