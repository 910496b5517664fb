-- ===== src/Tests/Files.antt =====
-- Byte order, forms, listings, and files on a disk that refuses nothing.
use cdfs.Base.{
  pos, ◌%◌, ◌^◌, ◌≡◌, ◌≢◌, refl, Bool, true, false, Option, none, some, [], ◌∷◌, arith, Bytes,
  codes, length, drop, lookup, insert, erase, is_listed, bytes_eq, is_at, find_str, starts_with,
  Result, ok, throws,
}
use cdfs.Util.{get}
use cdfs.Context.{HttpContext}
use cdfs.Paths.{
  path_append, parent_path, before_last, after_last, file_name, extension, extension_of_name,
}
use cdfs.Crypto.{md5, md5_to_rel_path, hex_digit, to_hex_text}
use cdfs.Database.Scan.{with_prefix}
use cdfs.Database.Sorted.{sorted_db}
use cdfs.Disk.{
  Disk, Device, is_directory, is_regular_file, is_there, file_size, remove, prefixes, add_directory,
  add_directories, create_directories, can_make_all,
}
use cdfs.FileStore.{
  StoreConfig, can_output, rename_checked, temp_of, write_new, write_disk, read_disk, save_at,
  save_under, save_file, get_file,
}
use cdfs.FileStore.Reading.{KeepsWhole, get_file-save_at}
use cdfs.FileStore.Scenes.{get_file-save_file}
use cdfs.FileStore.Others.{save_at-others}
use cdfs.Metadata.{list_dir, get_stat, repair_stat}
use cdfs.Metadata.Listing.{take_limit, readable, list_dir-rising}
use cdfs.Metadata.Statistics.{normal_files, sum_sizes, get_stat-repair_stat}
use cdfs.Tests.Encoding.{plain_codec}
use cdfs.Tests.Web.{content_type, form_body}
use cdfs.Tests.Store.{digest, saved_store}

-- A form sent to the upload handler.
abbrev pub upload_context : HttpContext
upload_context = record {
  req = record {
    method = get;
    target = codes "/upload";
    version = 11;
    keep_alive = true;
    content_type = content_type;
    body = form_body;
  };
  method = codes "GET";
  path = codes "/upload";
  query = [];
  path_suffix = [];
  cached_form = none;
}

list_dir-rising_example :
    list_dir sorted_db plain_codec (codes "default") (pos 0) (pos 10) 1 saved_store
    ≡ take_limit (pos 10) (
        readable sorted_db plain_codec saved_store
          (drop 0 (with_prefix (codes "SCENE:default:") (sorted_db.entries saved_store.db))))
list_dir-rising_example =
    list_dir-rising sorted_db plain_codec saved_store (codes "default") 0 (pos 10)

get_stat-repair_stat_example :
    get_stat sorted_db plain_codec (repair_stat sorted_db plain_codec saved_store) ≡ record {
      file_count =
          length (normal_files sorted_db plain_codec (sorted_db.entries saved_store.db)) % 2 ^ 64;
      total_size =
          sum_sizes (normal_files sorted_db plain_codec (sorted_db.entries saved_store.db))
          % 2 ^ 64;
    }
get_stat-repair_stat_example = get_stat-repair_stat sorted_db plain_codec saved_store

abbrev pub device : Device
device = record {
  can_make = λ p. true;
  can_open = λ p. true;
  can_read = λ p. true;
  keeps = λ p content. some content;
  can_rename = λ p q. true;
}

pub keeps_whole : KeepsWhole device
keeps_whole p content kept e same = cc e

abbrev pub config : StoreConfig
config = record {
  root_dir = codes "/d";
  temp_dir = codes "_tmp";
  max_file_size = 100;
  group = codes "group1";
  peer_id = codes "node_01";
  domain = codes "localhost:8080";
  allow_extensions = codes ".txt" ∷ [];
  enable_trim_filename = true;
  enable_distinct_file = true;
}

abbrev pub empty_disk : Disk
empty_disk = record { files = []; directories = codes "/d" ∷ [] }

abbrev after : Result (Disk × Bool) → Disk
after (ok r) = r.0
after (throws e) = empty_disk

abbrev rel : Bytes
rel = codes "_tmp/ab/0"

abbrev chunk_disk : Disk
chunk_disk = after (save_at device config empty_disk (codes "1") (codes "hi") rel)

disk : Unit {0}
unfolding path_append parent_path before_last after_last file_name extension extension_of_name
    md5_to_rel_path md5 hex_digit to_hex_text is_directory is_regular_file is_there file_size remove
    prefixes add_directory add_directories create_directories can_make_all can_output rename_checked
    write_new write_disk read_disk save_at save_under save_file get_file lookup insert erase
    is_listed bytes_eq is_at find_str starts_with
disk = tt

saves : save_at device config empty_disk (codes "1") (codes "hi") rel ≡ ok (chunk_disk, true)
unfolding disk
saves = refl

absent : is_there empty_disk (path_append config.root_dir rel) ≡ false
unfolding disk
absent = refl

get_file-save_at_example : get_file device config chunk_disk rel ≡ some (codes "hi")
get_file-save_at_example =
    get_file-save_at device config empty_disk chunk_disk (codes "1") (codes "hi") rel keeps_whole
      refl absent saves

abbrev full : Bytes
full = codes "/d/_tmp/ab/0"

abbrev made : Disk
made = record { files = []; directories = codes "/d" ∷ codes "/d/_tmp" ∷ [] }

abbrev written_disk : Disk
written_disk = after (write_disk device made (codes "1") full (codes "hi"))

writes : write_disk device made (codes "1") full (codes "hi") ≡ ok (written_disk, true)
unfolding disk
writes = refl

other_path : codes "/d/x" ≢ path_append config.root_dir rel
unfolding disk
other_path e = ground arith

other_temp : codes "/d/x" ≢ temp_of device (path_append config.root_dir rel) (codes "1")
unfolding disk
other_temp e = ground arith

save_at-others_example :
    lookup (codes "/d/x") chunk_disk.files ≡ lookup (codes "/d/x") empty_disk.files
save_at-others_example =
    save_at-others (codes "/d/x") device config empty_disk chunk_disk (codes "1") (codes "hi") rel
      true saves other_path other_temp

abbrev saving : Result (Disk × Option Bytes)
saving =
    save_file device config digest empty_disk (codes "1") (codes "a.txt") (codes "hi") (codes "img")
      (md5 digest (codes "hi"))

abbrev pub disk_of : Result (Disk × Option Bytes) → Disk
disk_of (ok r) = r.0
disk_of (throws e) = empty_disk

abbrev pub file_disk : Disk
file_disk = disk_of saving

abbrev pub file_path : Bytes
file_path = codes "img/01/02/0102030405060708090aab0c0d0e0fff.txt"

file_saves : saving ≡ ok (file_disk, some file_path)
unfolding disk
file_saves = refl

file_absent : is_there empty_disk (path_append config.root_dir file_path) ≡ false
unfolding disk
file_absent = refl

get_file-save_file_example : get_file device config file_disk file_path ≡ some (codes "hi")
get_file-save_file_example =
    get_file-save_file device config digest empty_disk file_disk (codes "1") (codes "a.txt")
      (codes "hi") (codes "img") (md5 digest (codes "hi")) file_path keeps_whole refl file_absent
      file_saves

pub reads_back : get_file device config file_disk file_path ≡ some (codes "hi")
unfolding disk
reads_back = refl
