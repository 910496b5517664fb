-- ===== src/Tests/Serving.antt =====
-- Media types, and the download of a saved file.
use cdfs.Base.{◌≡◌, refl, false, [], ◌∷◌, Bytes, codes, is_at, bytes_eq, lookup, Result, ok}
use cdfs.Json.{Json}
use cdfs.Context.{HttpContext}
use cdfs.Paths.{slash, path_append, after_last, file_name, extension, extension_of_name}
use cdfs.Paths.Joins.{separator}
use cdfs.Crypto.{tolower}
use cdfs.Disk.{is_directory, is_regular_file, is_there}
use cdfs.FileStore.{read_disk, get_file}
use cdfs.Mime.{mime_map, get_mime_type}
use cdfs.Download.{file, handle_download}
use cdfs.Download.Served.{served_file, handle_download-get_file}
use cdfs.Tests.Files.{device, config, upload_context, file_disk, file_path, reads_back}

serving : Unit {0}
unfolding path_append after_last file_name extension extension_of_name tolower is_directory
    is_regular_file is_there read_disk get_file mime_map get_mime_type is_at bytes_eq lookup
serving = tt

mime_tests : get_mime_type (codes "A/B.JPG") ≡ codes "image/jpeg"
unfolding serving
mime_tests = refl

abbrev download_context : HttpContext
download_context = record upload_context { path_suffix = slash ∷ file_path }

abbrev dump : Json → Result Bytes
dump document = ok (codes "{}")

root : separator config.root_dir ≡ slash ∷ []
unfolding serving
root = refl

relative : is_at file_path 0 slash ≡ false
unfolding serving
relative = refl

handle_download-get_file_example :
    handle_download device (λ p. 4096) dump config.root_dir download_context file_disk
    ≡ ok (file (served_file download_context (path_append config.root_dir file_path) (codes "hi")))
handle_download-get_file_example =
    handle_download-get_file device config (λ p. 4096) dump download_context file_disk file_path
      (codes "hi") root relative refl refl reads_back
