-- ===== src/Server/Journey.antt =====
-- A file's way through the server: uploaded by one request, downloaded by another.
use mathlib.Core.Path.{subst}
use mathlib.Core.List.{foldl, append-nil}
use cdfs.Base.{
  ℕ, ◌+◌, ◌%◌, ◌^◌, ◌<◌, ◌≡◌, ◌≢◌, refl, ap, ◌∙◌, Bool, true, false, some, List, [], ◌∷◌, ◌++◌,
  arith, Bytes, codes, length, Avoids, Avoids-of_find_char, find_char, All, All-append, is_at, ltb,
  bytes_eq, starts_with, find_str, Result, ok,
}
use cdfs.Json.{Json}
use cdfs.Util.{get, post}
use cdfs.Url.{split_target, without_fragment, parse_query, parse_query_from}
use cdfs.Url.Targets.{Splits, bare, absent, split_target_iff}
use cdfs.Multipart.{MultipartForm, boundary_of, empty_form, parse, cr, lf}
use cdfs.Multipart.Bodies.{Part, body_text, IsPart}
use cdfs.Multipart.Parts.{give, parse-body_text}
use cdfs.Context.{StringRequest, HttpContext, get_form}
use cdfs.Router
use cdfs.Router.{
  called, context, set_route, find_route, add_route, sort_insert, sort_routes, add_prefix,
  is_found_first, call_route, run_prefix_route, dispatch_prefix, route_request,
}
use cdfs.Paths.{slash, path_append}
use cdfs.Paths.Joins.{separator}
use cdfs.Disk.{Disk, is_there}
use cdfs.FileStore.{get_file}
use cdfs.FileStore.Reading.{KeepsWhole}
use cdfs.FileStore.Scenes.{get_file-save_file}
use cdfs.Database.{LevelDb}
use cdfs.FileCtl.{ServerState, Services, handle_upload}
use cdfs.FileCtl.Stored.{IsAccepted, content_of, saving, state_of_upload}
use cdfs.Chunks.{DirectoryService}
use cdfs.Download.{file, handle_download}
use cdfs.Download.Served.{served_file, handle_download-get_file}
use cdfs.Server.{upload, download, routes, Moment, App, responds, answer_of, call, serve}

-- What a client sends: a form to `/upload`, and the path of a file below `/group1`.
abbrev pub upload_request : ℕ → Bool → Bytes → Bytes → StringRequest
upload_request version keep_alive content_type body = record {
  method = post;
  target = codes "/upload";
  version = version;
  keep_alive = keep_alive;
  content_type = content_type;
  body = body;
}

abbrev pub download_request : ℕ → Bool → Bytes → StringRequest
download_request version keep_alive path = record {
  method = get;
  target = codes "/group1/" ++ path;
  version = version;
  keep_alive = keep_alive;
  content_type = [];
  body = [];
}

abbrev pub upload_context : StringRequest → HttpContext
upload_context req = context req (codes "/upload") [] []

abbrev pub download_context : StringRequest → Bytes → HttpContext
download_context req path = context req (codes "/group1/" ++ path) [] (slash ∷ path)

-- A path that stands in a target as it is.
pub record IsTargetPath (path : Bytes) : Type 0 where
  pub no_query : Avoids b'?' path
  pub no_fragment : Avoids b'#' path
  pub relative : is_at path 0 slash ≡ false

prefix-Avoids :
    (c : ℕ) (path : Bytes)
    → Avoids c (codes "/group1/")
    → Avoids c path
    → Avoids c (codes "/group1/" ++ path)
prefix-Avoids c path h k = All-append (λ b. b ≢ c) (codes "/group1/") path h k

split_target_of_path :
    (path : Bytes)
    → IsTargetPath path
    → split_target (codes "/group1/" ++ path) ≡ (codes "/group1/" ++ path, [])
unfolding find_char
split_target_of_path path h =
    let whole = codes "/group1/" ++ path in
    (split_target_iff whole whole []).1 (
      subst (λ t. Splits t whole []) (append-nil whole)
        (bare {p = whole} {f = []}
          (prefix-Avoids b'#' path (Avoids-of_find_char b'#' (codes "/group1/") refl) h.no_fragment)
          (prefix-Avoids b'?' path (Avoids-of_find_char b'?' (codes "/group1/") refl) h.no_query)
          absent))

module _ (dump : Json → Result Bytes) (beast_version : Bytes) where
  route-upload :
      (version : ℕ) (keep_alive : Bool) (content_type body : Bytes)
      → let req = upload_request version keep_alive content_type body in
        route_request dump beast_version routes req ≡ ok (called upload (upload_context req))
  unfolding route_request routes add_route set_route find_route add_prefix sort_routes sort_insert
      split_target without_fragment find_char bytes_eq parse_query parse_query_from call_route
  route-upload version keep_alive content_type body = refl

  route-download :
      (version : ℕ) (keep_alive : Bool) (path : Bytes)
      → IsTargetPath path
      → let req = download_request version keep_alive path in
        route_request dump beast_version routes req
        ≡ ok (called download (download_context req path))
  unfolding route_request routes add_route set_route find_route add_prefix sort_routes sort_insert
      bytes_eq parse_query parse_query_from dispatch_prefix run_prefix_route is_found_first find_str
      starts_with
  route-download version keep_alive path h =
      let place = ap (λ (r : Bytes × Bytes). r.0) (split_target_of_path path h) in
      rw (split_target_of_path path h, route_request)
        (rw (place, is_found_first) (rw (long path) refl))
    where
      long : (p : Bytes) → ltb (length (codes "/group1/" ++ p)) 7 ≡ false
      long p = ground arith

-- A body that is written from parts, as a client writes it.
pub record IsForm (content_type body : Bytes) (ps : List Part) : Type 0 where
  pub boundary : Bytes
  pub epilogue : Bytes
  pub named : boundary_of content_type ≡ some boundary
  pub no_cr : Avoids cr boundary
  pub no_lf : Avoids lf boundary
  pub parts : All (IsPart (codes "--" ++ boundary)) ps
  pub written : body ≡ body_text (codes "--" ++ boundary) ps epilogue
  pub small : length (body_text (codes "--" ++ boundary) ps epilogue) < 2 ^ 64

form_of_parts :
    (version : ℕ) (keep_alive : Bool) (content_type body : Bytes) (ps : List Part)
    → IsForm content_type body ps
    → (get_form (upload_context (upload_request version keep_alive content_type body))).0
      ≡ foldl give empty_form ps
unfolding get_form
form_of_parts version keep_alive content_type body ps h =
    let parsed : parse content_type body ≡ some (foldl give empty_form ps) =
      ap (parse content_type) h.written
      ∙ parse-body_text content_type h.boundary ps h.epilogue h.named h.no_cr h.no_lf h.parts
          h.small in
    rw (parsed, get_form) refl

module _ (L : LevelDb) (v : Services) (sys : DirectoryService) (directory_size : Bytes → ℕ)
    (beast_version : Bytes) where
  server-upload :
      (app : App L) (t : Moment) (version : ℕ) (keep_alive : Bool) (content_type body : Bytes)
      → let req = upload_request version keep_alive content_type body in
        (serve L v sys directory_size beast_version req t app).0.server
        ≡ (handle_upload L v (upload_context req) app.server t.suffix t.now).0
  unfolding serve call Router.dispatch
  server-upload app t version keep_alive content_type body =
      rw (route-upload v.dump beast_version version keep_alive content_type body, serve) refl

  -- The request is counted.
  abbrev pub counted : App L → App L
  counted app = record app {
    globals = record app.globals { total_requests = (app.globals.total_requests + 1) % 2 ^ 64 };
  }

  serve-download :
      (app : App L) (t : Moment) (version : ℕ) (keep_alive : Bool) (path : Bytes)
      → IsTargetPath path
      → let req = download_request version keep_alive path in
        serve L v sys directory_size beast_version req t app ≡ (
          counted app,
          answer_of (
              handle_download v.device directory_size v.dump v.store_config.root_dir
                (download_context req path)
                app.server.disk),
        )
  unfolding serve call Router.dispatch
  serve-download app t version keep_alive path h =
      rw (route-download v.dump beast_version version keep_alive path h, serve) refl

  -- A form shorter than 2^64 bytes is written with a boundary without line ends and from parts whose
  -- data does not hold the delimiter, whose headers end at their first empty line, and whose names
  -- and file names stand in quotes behind the first `name` and `filename` of the headers, if there
  -- is one. It is posted to /upload, is accepted and saved, in a place where nothing stood and that
  -- the system lets be read, on a device that keeps whole what it keeps at full length. Then a request for /group1/ and the path under which the file was saved, where
  -- that path holds neither ? nor # and does not begin with a slash, and the root directory is not
  -- empty and does not end in a slash, is answered with the data of the last part with a file name,
  -- byte for byte, with status 200 and its length, and changes nothing but the count of requests.
  pub download-upload :
      (app : App L) (t t' : Moment) (version version' : ℕ) (keep_alive keep_alive' : Bool)
      (content_type body path : Bytes) (d : Disk) (ps : List Part)
      → let ctx = upload_context (upload_request version keep_alive content_type body) in
        let req = download_request version' keep_alive' path in
        let place = path_append v.store_config.root_dir path in
        let content = (foldl give empty_form ps).content in
        let uploaded =
          (serve L v sys directory_size beast_version
            (upload_request version keep_alive content_type body)
            t
            app).0 in
        IsForm content_type body ps
        → IsAccepted L v ctx app.server t.now
        → saving L v ctx app.server t.now t.suffix ≡ ok (d, some path)
        → KeepsWhole v.device
        → v.device.can_read place ≡ true
        → is_there app.server.disk place ≡ false
        → separator v.store_config.root_dir ≡ slash ∷ []
        → IsTargetPath path
        → serve L v sys directory_size beast_version req t' uploaded ≡ (
          counted uploaded,
          responds (file (served_file (download_context req path) place content)),
        )
  download-upload app t t' version version' keep_alive keep_alive' content_type body path d ps
        is_form accepted saves whole readable free root target =
      let up = upload_request version keep_alive content_type body in
      let ctx = upload_context up in
      let req = download_request version' keep_alive' path in
      let uploaded = (serve L v sys directory_size beast_version up t app).0 in
      let content = (foldl give empty_form ps).content in
      let disk : uploaded.server.disk ≡ d =
        ap (λ (s : ServerState L). s.disk)
          (server-upload app t version keep_alive content_type body
            ∙ state_of_upload L v ctx app.server t.now t.suffix path d accepted saves) in
      let parts : content_of L v ctx app.server t.now ≡ content =
        ap (λ (f : MultipartForm). f.content)
          (form_of_parts version keep_alive content_type body ps is_form) in
      let stored : get_file v.device v.store_config uploaded.server.disk path ≡ some content =
        ap (λ x. get_file v.device v.store_config x path) disk
        ∙ get_file-save_file v.device v.store_config v.digest app.server.disk d t.suffix _ _ _ _
            path whole readable free saves
        ∙ ap some parts in
      serve-download uploaded t' version' keep_alive' path target
      ∙ ap (λ r. (counted uploaded, answer_of r))
          (handle_download-get_file v.device v.store_config directory_size v.dump
            (download_context req path) uploaded.server.disk path content root target.relative refl
            readable stored)
