-- ===== src/Tests/Uploads.antt =====
-- Uploads to a server with nothing in its stores.
use mathlib.Core.List.{foldl}
use cdfs.Base.{
  Avoids-of_find_char, ℕ, zero, suc, ◌≡◌, refl, true, false, none, some, List, [], ◌∷◌, arith,
  Bytes, codes, find_char, find_char_from, find_str, find_str_from, starts_with, find_first_of,
  find_first_of_from, is_at, bytes_eq, lookup, insert, erase, is_listed, ok,
}
use cdfs.Json.{Json}
use cdfs.Multipart.{
  boundary_of, extract_value, value_at, data_view, add_part, read_part, parse_round, parse_parts,
  parse, get_param,
}
use cdfs.Multipart.Bodies.{body_text}
use cdfs.Context.{HttpContext, bad_request, get_form, is_multipart, error}
use cdfs.Crypto.{
  is_special, remove_special, remove_dot_runs, erase_front_dot, pop_back_dot,
  trim_filename_special_char, check_file_ext, tolower, md5, hex_digit, to_hex_text, md5_to_rel_path,
}
use cdfs.Paths.{
  path_append, parent_path, before_last, after_last, file_name, extension, extension_of_name,
}
use cdfs.Disk.{
  Disk, is_directory, is_regular_file, is_there, file_size, remove, prefixes, add_directory,
  add_directories, create_directories, can_make_all,
}
use cdfs.FileStore.{
  can_output, rename_checked, write_new, write_disk, save_under, save_file, get_file,
}
use cdfs.Database.Sorted.{sorted_db}
use cdfs.MetaFile.{MetaFile, stored}
use cdfs.Metadata.{MetadataStore, save_meta, save_write, serialize, get_meta}
use cdfs.FileCtl.{ServerState, Services, known_meta, handle_upload}
use cdfs.FileCtl.Uploads.{Upload, upload_all, handle_upload-upload_all}
use cdfs.FileCtl.Stored.{IsAccepted, content_of, md5_of, meta_of, saving, found-handle_upload}
use cdfs.Paths.{slash}
use cdfs.Paths.Joins.{separator}
use cdfs.Multipart.{empty_form}
use cdfs.Multipart.Parts.{give}
use cdfs.Chunks.{DirectoryService}
use cdfs.Download.{file}
use cdfs.Download.Served.{served_file}
use cdfs.Server.{App, Moment, responds, serve}
use cdfs.Server.Journey
use cdfs.Server.Journey.{
  upload_request, download_request, download_context, IsForm, IsTargetPath, counted,
  download-upload,
}
use cdfs.Tests.Encoding.{plain_codec}
use cdfs.Tests.Web.{content_type, form_body, parts, named, no_cr, no_lf, parts_ok, fits}
use cdfs.Tests.Store.{digest, empty_store}
use cdfs.Tests.Files.{device, config, empty_disk, upload_context, keeps_whole, disk_of}

abbrev pub services : Services
services = record {
  device = device;
  store_config = config;
  digest = digest;
  codec = plain_codec;
  dump = λ document. ok (codes "{}");
  meta_json = λ m. Json.null;
}

abbrev pub server : ServerState sorted_db
server = record { meta = empty_store; disk = empty_disk; concurrent_uploads = 0 }

abbrev one : Upload sorted_db services
one = record { ctx = upload_context; suffix = codes "1"; now = 17 }

abbrev repeated : ℕ → List (Upload sorted_db services)
repeated zero = []
repeated (suc n) = one ∷ repeated n

handle_upload-upload_all_example :
    handle_upload sorted_db services upload_context
      (upload_all sorted_db services (repeated 20) server)
      (codes "2")
      18
    ≡ (
      upload_all sorted_db services (repeated 20) server,
      error services.dump upload_context (codes "Server busy, too many uploads") bad_request,
    )
handle_upload-upload_all_example =
    handle_upload-upload_all sorted_db services (repeated 20) server upload_context (codes "2") 18
      (omega arith)

-- A request whose form has been parsed before.
abbrev parsed_context : HttpContext
parsed_context = record upload_context {
  cached_form = some (record {
    filename = codes "a.txt";
    content = codes "hi";
    content_type = [];
    params = (codes "scene", codes "img") ∷ [];
  });
}

accepting : Unit {0}
unfolding known_meta is_multipart get_form boundary_of extract_value value_at data_view add_part
    read_part parse_round parse_parts parse get_param body_text check_file_ext tolower is_special
    remove_special remove_dot_runs erase_front_dot pop_back_dot trim_filename_special_char find_char
    find_char_from find_str find_str_from starts_with find_first_of find_first_of_from is_at
    bytes_eq lookup insert is_listed after_last file_name extension extension_of_name md5 hex_digit
    to_hex_text md5_to_rel_path path_append parent_path before_last is_directory is_regular_file
    is_there file_size remove prefixes add_directory add_directories create_directories can_make_all
    can_output rename_checked write_new write_disk save_under save_file erase save_meta save_write
    serialize stored
accepting = tt

accepted : IsAccepted sorted_db services parsed_context server 17
unfolding accepting
accepted = record {
  not_busy = refl;
  unknown = refl;
  multipart = refl;
  has_content = refl;
  allowed = refl;
  named = refl;
}

abbrev form_disk : Disk
form_disk = disk_of (saving sorted_db services parsed_context server 17 (codes "1"))

abbrev form_path : Bytes
form_path = codes "img/01/02/0102030405060708090aab0c0d0e0fff.txt"

abbrev meta : MetaFile
meta = meta_of sorted_db services parsed_context server 17 form_path

abbrev meta_saved : MetadataStore sorted_db
meta_saved = (save_meta sorted_db plain_codec meta empty_store).0

abbrev meta_text : Bytes
meta_text = elim (plain_codec.dump meta) [ ok t ↦ t | _ ↦ [] ]

saved :
    saving sorted_db services parsed_context server 17 (codes "1") ≡ ok (form_disk, some form_path)
unfolding accepting
saved = refl

meta_is_new :
    sorted_db.get empty_store.db (md5_of sorted_db services parsed_context server 17) ≡ none
unfolding accepting
meta_is_new = refl

meta_dumps : plain_codec.dump meta ≡ ok meta_text
unfolding accepting
meta_dumps = refl

meta_saves : save_meta sorted_db plain_codec meta empty_store ≡ (meta_saved, true)
unfolding accepting
meta_saves = refl

nothing_there : is_there empty_disk (path_append config.root_dir form_path) ≡ false
unfolding accepting
nothing_there = refl

found-handle_upload_example :
    (get_meta sorted_db plain_codec
        (md5_of sorted_db services parsed_context server 17)
        (handle_upload sorted_db services parsed_context server (codes "1") 17).0.meta
      ≡ some meta)
    × (get_file device config
          (handle_upload sorted_db services parsed_context server (codes "1") 17).0.disk
          form_path
        ≡ some (content_of sorted_db services parsed_context server 17))
found-handle_upload_example =
    found-handle_upload sorted_db services parsed_context server 17 (codes "1") form_path meta_text
      form_disk meta_saved accepted saved meta_is_new meta_dumps meta_saves keeps_whole refl
      nothing_there

abbrev posted : HttpContext
posted = Journey.upload_context (upload_request 11 true content_type form_body)

abbrev app : App sorted_db
app = record {
  server = server;
  system = record { last_cpu = record { total_time = 0; proc_time = 0 } };
  globals = record {
    total_requests = 0;
    bytes_sent = 0;
    bytes_received = 0;
    active_connections = 1;
    total_latency_us = 0;
    max_latency_us = 0;
  };
}

abbrev moment : Moment
moment = record {
  suffix = codes "1";
  now = 17;
  uptime = 0;
  num_processors = 1;
  proc_status = [];
  stat = [];
  self_stat = [];
}

is_form : IsForm content_type form_body parts
is_form = record {
  boundary = codes "XyZ";
  epilogue = [];
  named = named;
  no_cr = no_cr;
  no_lf = no_lf;
  parts = parts_ok;
  written = refl;
  small = fits;
}

posted_accepted : IsAccepted sorted_db services posted server 17
unfolding accepting
posted_accepted = record {
  not_busy = refl;
  unknown = refl;
  multipart = refl;
  has_content = refl;
  allowed = refl;
  named = refl;
}

posted_saved :
    saving sorted_db services posted server 17 (codes "1") ≡ ok (form_disk, some form_path)
unfolding accepting
posted_saved = refl

root : separator config.root_dir ≡ slash ∷ []
unfolding accepting
root = refl

target : IsTargetPath form_path
unfolding accepting
target = record {
  no_query = Avoids-of_find_char b'?' form_path refl;
  no_fragment = Avoids-of_find_char b'#' form_path refl;
  relative = refl;
}

abbrev system : DirectoryService
system = record { arrange = λ dir names. names; remains = λ p x. x; can_remove_all = λ p. true }

abbrev after_upload : App sorted_db
after_upload =
    (serve sorted_db services system (λ p. 4096) [] (upload_request 11 true content_type form_body)
      moment app).0

download-upload_example :
    serve sorted_db services system
      (λ p. 4096)
      []
      (download_request 11 false form_path)
      moment
      after_upload
    ≡ (
      counted sorted_db services system (λ p. 4096) [] after_upload,
      responds (
          file (
            served_file
              (download_context (download_request 11 false form_path) form_path)
              (path_append config.root_dir form_path)
              (foldl give empty_form parts).content)),
    )
download-upload_example =
    download-upload sorted_db services system (λ p. 4096) [] app moment moment 11 11 true false
      content_type form_body form_path form_disk parts is_form posted_accepted posted_saved
      keeps_whole refl nothing_there root target
