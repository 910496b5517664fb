-- ===== src/Context.antt =====
-- server/HttpContext.h: the request with what is parsed of it, and the responses built from it.
-- The text of a JSON document (nlohmann's `dump`, which may throw) is a parameter.
pub mod Forms
use cdfs.Base.{
  ℕ, ◌+◌, ◌-◌, Bool, true, false, Option, none, some, [], ◌∷◌, ◌++◌, Bytes, codes, length, drop,
  substr, find_str, find_str_from, Dict, insert, Result, ◌>>=◌,
}
use cdfs.Util.{Verb}
use cdfs.Url.{Params}
use cdfs.Json.{Json, null, string, object, members}
use cdfs.Multipart
use cdfs.Multipart.{MultipartForm, empty_form, boundary_prefix, header_stop, data_view}

-- What the program reads of `http::request<http::string_body>`; an absent field is empty text.
pub record StringRequest : Type 0 where
  pub method : Verb
  pub target : Bytes
  pub version : ℕ
  pub keep_alive : Bool
  pub content_type : Bytes
  pub body : Bytes

pub data Status : Type 0 where
  ok bad_request not_found : Status

-- What the program sets of `http::response`. `content_length` is set by `prepare_payload`.
pub record StringResponse : Type 0 where
  pub status : Status
  pub version : ℕ
  pub keep_alive : Bool
  pub fields : Dict Bytes
  pub body : Bytes
  pub content_length : ℕ

pub record HttpContext : Type 0 where
  pub req : StringRequest
  pub method : Bytes
  pub path : Bytes
  pub query : Params
  pub path_suffix : Bytes
  pub cached_form : Option MultipartForm

-- `make_response`: each call of `set` in the source's order
unfoldable pub make_response : HttpContext → Bytes → Bytes → Status → StringResponse
make_response ctx content content_type status = record {
  status = status;
  version = ctx.req.version;
  keep_alive = ctx.req.keep_alive;
  fields = insert (codes "Access-Control-Expose-Headers") (codes "Content-Disposition") (
      insert (codes "Access-Control-Allow-Headers") (codes "*") (
        insert (codes "Access-Control-Allow-Methods") (codes "GET, POST, OPTIONS, PUT, DELETE") (
          insert (codes "Access-Control-Allow-Origin") (codes "*") (
            insert (codes "Content-Type") content_type
              (insert (codes "Server") (codes "CDFS/1.0") [])))));
  body = content;
  content_length = length content;
}

unfoldable pub text : HttpContext → Bytes → Status → StringResponse
text ctx content status = make_response ctx content (codes "text/plain; charset=utf-8") status

unfoldable pub html : HttpContext → Bytes → Status → StringResponse
html ctx content status = make_response ctx content (codes "text/html; charset=utf-8") status

module _ (dump : Json → Result Bytes) where
  unfoldable pub json : HttpContext → Json → Status → Result StringResponse
  json ctx document status = dump document >>= λ content.
      Result.ok (make_response ctx content (codes "application/json") status)

  unfoldable pub success : HttpContext → Json → Bytes → Result StringResponse
  success ctx document msg =
      dump (
        object (
          members (
            (codes "status", string (codes "ok"))
            ∷ (codes "message", string msg)
            ∷ (codes "data", document)
            ∷ [])))
      >>= λ content. Result.ok (make_response ctx content (codes "application/json") Status.ok)

  unfoldable pub error : HttpContext → Bytes → Status → Result StringResponse
  error ctx msg status =
      dump (
        object (
          members (
            (codes "status", string (codes "fail"))
            ∷ (codes "message", string msg)
            ∷ (codes "data", null)
            ∷ [])))
      >>= λ content. Result.ok (make_response ctx content (codes "application/json") status)

  unfoldable pub not_found_error : HttpContext → Bytes → Result StringResponse
  not_found_error ctx msg = error ctx msg Status.not_found

-- `get_form`: the form, and the context with its cache. A form that cannot be parsed is empty, and
-- is not cached.
unfoldable pub get_form : HttpContext → MultipartForm × HttpContext
get_form ctx = elim ctx.cached_form [
  | some form ↦ (form, ctx)
  | none ↦ elim (Multipart.parse ctx.req.content_type ctx.req.body) [
    | none ↦ (empty_form, record ctx { cached_form = none })
    | some form ↦ (form, record ctx { cached_form = some form })
  ]
]

unfoldable pub is_multipart : HttpContext → Bool
is_multipart ctx = elim (find_str (codes "multipart/form-data") ctx.req.content_type) [
  | none ↦ false
  | some pos ↦ true
]

-- The outcome of the older `parse_multipart`: what it returns, and its two output parameters.
pub record Parsed : Type 0 where
  pub succeeded : Bool
  pub out_filename : Bytes
  pub out_content : Bytes

abbrev filename_key : Bytes
filename_key = codes "filename=\""

-- Step 4 of `parse_multipart`: the content, once the file name is written.
unfoldable pub parse_content : Bytes → Bytes → ℕ → Bytes → Bytes → Parsed
parse_content body delimiter data_start filename content =
    elim (find_str_from delimiter body data_start) [
      | none ↦ record { succeeded = false; out_filename = filename; out_content = content }
      | some next_boundary ↦ record {
        succeeded = true;
        out_filename = filename;
        out_content = data_view body data_start next_boundary;
      }
    ]

-- Step 3: the file name between the quotes behind `filename=`.
unfoldable pub parse_filename : Bytes → Option Bytes
parse_filename header_part = elim (find_str filename_key header_part) [
  | none ↦ none
  | some pos_filename ↦
      let filename_start = pos_filename + length filename_key in
      elim (find_str_from (codes "\"") header_part filename_start) [
        | none ↦ none
        | some filename_end ↦
            some (substr header_part filename_start (filename_end - filename_start))
      ]
]

-- `parse_multipart` from the delimiter on
unfoldable pub parse_first_part : Bytes → Bytes → Bytes → Bytes → Parsed
parse_first_part body delimiter filename content =
    let failed : Parsed = record {
      succeeded = false;
      out_filename = filename;
      out_content = content;
    } in
    elim (find_str delimiter body) [
      | none ↦ failed
      | some pos_start ↦ elim (find_str_from header_stop body pos_start) [
        | none ↦ failed
        | some pos_header_end ↦
            elim (parse_filename (substr body pos_start (pos_header_end - pos_start))) [
              | none ↦ failed
              | some found ↦ parse_content body delimiter (pos_header_end + 4) found content
            ]
      ]
    ]

unfoldable pub parse_multipart : HttpContext → Bytes → Bytes → Parsed
parse_multipart ctx filename content = elim (find_str boundary_prefix ctx.req.content_type) [
  | none ↦ record { succeeded = false; out_filename = filename; out_content = content }
  | some pos_boundary ↦
      parse_first_part ctx.req.body
        (codes "--" ++ drop (pos_boundary + length boundary_prefix) ctx.req.content_type) filename
        content
]
