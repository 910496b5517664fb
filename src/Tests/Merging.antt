-- ===== src/Tests/Merging.antt =====
-- Chunks of a small file, uploaded, listed and merged.
use cdfs.Base.{
  ◌≡◌, ◌↔◌, refl, Bool, true, false, none, some, List, [], ◌∷◌, ◌++◌, arith, Bytes, codes,
  find_char, find_str, starts_with, is_at, bytes_eq, lookup, insert, erase, is_listed,
  Avoids-of_find_char, Result, ok, pos, stoi, read_int, skip_space, read_number, read_digits,
  int_text, to_string, digits_from,
}
use cdfs.Multipart.{get_param}
use cdfs.Context.{HttpContext, bad_request, get_form, error}
use cdfs.Paths.{
  slash, path_append, parent_path, before_last, after_last, file_name, extension, extension_of_name,
}
use cdfs.Crypto.{md5_to_rel_path}
use cdfs.Disk.{
  Disk, is_directory, is_regular_file, is_there, file_size, remove, prefixes, add_directory,
  add_directories, create_directories, can_make_all,
}
use cdfs.FileStore.{can_output, rename_checked, write_new, write_disk, save_at}
use cdfs.Database.Sorted.{sorted_db}
use cdfs.MetaFile.{MetaFile, stored}
use cdfs.Metadata.{MetadataStore, save_meta, save_write, serialize}
use cdfs.Metadata.Keys.{IsMd5Text, colon}
use cdfs.FileCtl.{ServerState, handle_chunk_upload}
use cdfs.Chunks.{
  DirectoryService, plain_name, name_in, names_in, indices_of, sort_insert, sort_indices,
  copy_chunk, is_below, files_outside, directories_outside, remove_all, list_indices,
  get_shard_index, copy_chunks, write_merged, move_merged, clean_chunks,
}
use cdfs.Chunks.Merge.{upload_dir, temp_chunk_dir, merge_disk, handle_merge}
use cdfs.Chunks.Listed.{Occurs, GivesEntries, IsChunk, get_shard_index_iff}
use cdfs.Chunks.Places.{IsPlain}
use cdfs.Chunks.Missed.{upload_chunks, handle_merge-upload_chunks}
use cdfs.Chunks.Uploaded.{listed-handle_chunk_upload}
use cdfs.Chunks.Found
use cdfs.Chunks.Found.{IsMergeable, IsFound, IsFound-handle_merge}
use cdfs.Tests.Encoding.{plain_codec}
use cdfs.Tests.Store.{empty_store}
use cdfs.Tests.Files.{config, device, empty_disk, upload_context}
use cdfs.Tests.Uploads.{services, server}

merging : Unit {0}
unfolding find_char find_str starts_with is_at bytes_eq lookup insert erase is_listed stoi read_int
    skip_space read_number read_digits int_text to_string digits_from get_param get_form path_append
    parent_path before_last after_last file_name extension extension_of_name md5_to_rel_path
    is_directory is_regular_file is_there file_size remove prefixes add_directory add_directories
    create_directories can_make_all can_output rename_checked write_new write_disk save_at stored
    save_meta save_write serialize plain_name name_in names_in indices_of sort_insert sort_indices
    copy_chunk is_below files_outside directories_outside remove_all list_indices get_shard_index
    copy_chunks write_merged move_merged clean_chunks merge_disk
merging = tt

-- A system that gives entries in the order of its table, and refuses nothing.
abbrev system : DirectoryService
system = record { arrange = λ dir names. names; remains = λ p x. x; can_remove_all = λ p. true }

gives : GivesEntries system
gives dir name names = (λ h. h, λ h. h)

abbrev md5_text : Bytes
md5_text = codes "0102030405060708090a0b0c0d0e0f10"

abbrev form_context : List (Bytes × Bytes) → Bytes → HttpContext
form_context params content = record upload_context {
  cached_form =
      some (record { filename = []; content = content; content_type = []; params = params });
}

abbrev chunk_context : HttpContext
chunk_context =
    form_context ((codes "md5", md5_text) ∷ (codes "chunk", codes "1") ∷ []) (codes "hi")

abbrev merge_context : HttpContext
merge_context = form_context ((codes "md5", md5_text) ∷ (codes "filename", codes "a.txt") ∷ []) []

plain : IsPlain config.root_dir config.temp_dir
unfolding is_at
plain = record {
  joins = refl;
  first = b'_';
  rest = codes "tmp";
  named = refl;
  relative = λ e. omega arith;
  not_blank = λ e. omega arith;
}

abbrev disk_of : Result (Disk × Bool) → Disk
disk_of (ok r) = r.0
disk_of _ = empty_disk

abbrev saving : Result (Disk × Bool)
saving =
    save_at device config empty_disk (codes "9") (codes "hi")
      (codes "_tmp" ++ (codes "/" ++ (md5_text ++ (codes "/" ++ codes "1"))))

saved : saving ≡ ok (disk_of saving, true)
unfolding merging
saved = refl

reads : stoi (codes "1") ≡ some (pos 1)
unfolding merging
reads = refl

listed-handle_chunk_upload_example : Occurs (pos 1) (
    get_shard_index system
      (handle_chunk_upload sorted_db services chunk_context server (codes "9")).0.disk
      (upload_dir sorted_db services system md5_text))
unfolding merging
listed-handle_chunk_upload_example =
    listed-handle_chunk_upload sorted_db services system chunk_context server (codes "9")
      (disk_of saving) (pos 1) gives plain refl (Avoids-of_find_char slash (codes "1") refl) reads
      saved

abbrev chunk_disk : Disk
chunk_disk = record {
  files =
      (codes "/d/ _tmp/0102030405060708090a0b0c0d0e0f10/1", codes "lo")
      ∷ (codes "/d/ _tmp/0102030405060708090a0b0c0d0e0f10/0", codes "hel")
      ∷ [];
  directories =
      codes "/d/ _tmp/0102030405060708090a0b0c0d0e0f10" ∷ codes "/d/ _tmp" ∷ codes "/d" ∷ [];
}

abbrev chunk_dir : Bytes
chunk_dir = codes "/d/ _tmp/0102030405060708090a0b0c0d0e0f10"

is_dir : is_directory chunk_disk chunk_dir ≡ true
unfolding merging
is_dir = refl

get_shard_index_iff_example :
    Occurs (pos 0) (get_shard_index system chunk_disk chunk_dir)
    ↔ IsChunk chunk_disk chunk_dir (pos 0)
get_shard_index_iff_example = get_shard_index_iff system chunk_disk chunk_dir (pos 0) gives is_dir

absent : is_there server.disk (temp_chunk_dir sorted_db services system md5_text) ≡ false
unfolding merging
absent = refl

abbrev uploads : List (HttpContext × Bytes)
uploads = (chunk_context, codes "9") ∷ []

relative : is_at md5_text 0 slash ≡ false
unfolding merging
relative = refl

handle_merge-upload_chunks_example :
    handle_merge sorted_db services system merge_context
      (upload_chunks sorted_db services system uploads server)
      17
    ≡ (
      upload_chunks sorted_db services system uploads server,
      error services.dump merge_context (codes "Chunk directory not found or expired") bad_request,
    )
unfolding merging
handle_merge-upload_chunks_example =
    handle_merge-upload_chunks sorted_db services system merge_context 17 uploads server plain refl
      relative absent

abbrev merge_server : ServerState sorted_db
merge_server = record server { disk = chunk_disk }

abbrev base : Bytes
base = codes "01/02/0102030405060708090a0b0c0d0e0f10"

mergeable : IsMergeable sorted_db services system merge_context merge_server 17 base
unfolding merging
mergeable = record {
  named = refl;
  there = refl;
  is_dir = refl;
  some_chunks = refl;
  rel = refl;
  joins = refl;
  apart = refl;
  outside = refl;
}

abbrev merge : Disk × Result (Unit {0})
merge =
    merge_disk sorted_db services system chunk_disk md5_text
      (Found.final_of sorted_db services system merge_context merge_server 17 base)
      (Found.indices_of sorted_db services system merge_context merge_server 17)

abbrev meta : MetaFile
meta = Found.meta_of sorted_db services system merge_context merge_server 17 base 5

merged : merge ≡ (merge.0, ok tt)
unfolding merging
merged = refl

size :
    file_size merge.0 (Found.final_of sorted_db services system merge_context merge_server 17 base)
    ≡ ok 5
unfolding merging
size = refl

abbrev meta_saved : MetadataStore sorted_db
meta_saved = (save_meta sorted_db plain_codec meta empty_store).0

abbrev meta_text : Bytes
meta_text = elim (plain_codec.dump meta) [ ok t ↦ t | _ ↦ [] ]

is_text : IsMd5Text md5_text
unfolding merging
is_text = record { long = refl; no_colon = Avoids-of_find_char colon md5_text refl }

new : sorted_db.get empty_store.db md5_text ≡ none
unfolding merging
new = refl

dumps : plain_codec.dump meta ≡ ok meta_text
unfolding merging
dumps = refl

saves : save_meta sorted_db plain_codec meta empty_store ≡ (meta_saved, true)
unfolding merging
saves = refl

IsFound-handle_merge_example :
    IsFound sorted_db services system merge_context merge_server 17 base 5
      (handle_merge sorted_db services system merge_context merge_server 17).0
unfolding merging
IsFound-handle_merge_example =
    IsFound-handle_merge sorted_db services system merge_context merge_server 17 base meta_text
      merge.0 5 meta_saved mergeable (λ p x. refl) merged size refl is_text new dumps saves
