-- ===== src/Tests/Store.antt =====
-- File names, MD5 texts, and the metadata of one file in the sorted store.
use mathlib.Core.List.{Memᴰ}
use cdfs.Base.{
  ℕ, ◌≡◌, ◌≢◌, ◌<◌, ◌^◌, ◌↔◌, ◌⊎◌, refl, true, false, none, some, [], ◌∷◌, arith, Bytes, bytes_eq,
  codes, length, Avoids-of_find_char, find_char, lookup, ok, to_string, stoul, digits_from,
  read_signed, skip_space, read_number, read_digits, starts_with,
}
use cdfs.Crypto.{
  Digest, is_special, hex_digit, to_hex_text, md5, trim_filename_special_char, remove_special,
  remove_dot_runs, erase_front_dot, pop_back_dot,
}
use cdfs.Crypto.Names.{IsClean, trim-IsClean}
use cdfs.Database.{bytes_ltb, seek}
use cdfs.Database.Sorted.{sorted_db, put_entry, erase_entry, run_on, run_batch}
use cdfs.MetaFile.{normal, MetaFile, stored}
use cdfs.Metadata.{
  MetadataStore, serialize, deserialize, save_write, save_meta, get_meta, delete_meta, update_meta,
  get_stat, get_uploaded_shard, save_meta_shard, scan_shards,
}
use cdfs.Metadata.Keys.{IsMd5Text}
use cdfs.Metadata.Saved.{get_meta-save_meta}
use cdfs.Metadata.Removed.{IsOtherKey, delete_meta-save_meta}
use cdfs.Metadata.Shards.{get_uploaded_shard-save_meta_shard}
use cdfs.Tests.Encoding.{plain_codec}

-- A digest that does not depend on its text.
abbrev pub digest : Digest
digest = record {
  digest = λ content. 1 ∷ 2 ∷ 3 ∷ 4 ∷ 5 ∷ 6 ∷ 7 ∷ 8 ∷ 9 ∷ 10 ∷ 171 ∷ 12 ∷ 13 ∷ 14 ∷ 15 ∷ 255 ∷ [];
  digest_length = λ content. refl;
  digest_bytes = λ content. (
    omega arith,
    (
      omega arith,
      (
        omega arith,
        (
          omega arith,
          (
            omega arith,
            (
              omega arith,
              (
                omega arith,
                (
                  omega arith,
                  (
                    omega arith,
                    (
                      omega arith,
                      (
                        omega arith,
                        (
                          omega arith,
                          (omega arith, (omega arith, (omega arith, (omega arith, tt)))),
                        ),
                      ),
                    ),
                  ),
                ),
              ),
            ),
          ),
        ),
      ),
    ),
  );
}

trim-IsClean_example : IsClean (trim_filename_special_char (codes "../a b?.txt."))
trim-IsClean_example = trim-IsClean (codes "../a b?.txt.")

names : Unit {0}
unfolding is_special remove_special remove_dot_runs erase_front_dot pop_back_dot
    trim_filename_special_char hex_digit to_hex_text md5
names = tt

name_tests :
    (trim_filename_special_char (codes "../a b?.txt.") ≡ codes "ab.txt")
    × (md5 digest [] ≡ codes "0102030405060708090aab0c0d0e0fff")
unfolding names
name_tests = (refl, refl)

abbrev pub sample_md5 : Bytes
sample_md5 = codes "e10adc3949ba59abbe56e057f20f883e"

abbrev pub sample : MetaFile
sample = record {
  md5 = sample_md5;
  path = codes "default/a.txt";
  name = codes "a.txt";
  domain = [];
  scene = codes "default";
  src = [];
  size = 6;
  mtime = 17;
  status = normal;
  is_sharded = false;
  shard_std_size = 0;
  shard_count = 0;
  shards = [];
  uploaded_count = 0;
  uploaded_chunks = [];
  peers = codes "node_01" ∷ [];
}

abbrev pub empty_store : MetadataStore sorted_db
empty_store = record {
  db = record { listed = []; in_order = tt };
  config = record {
    group = codes "group1";
    peer_id = codes "node_01";
    domain = [];
    allow_extensions = [];
    enable_trim_filename = true;
    enable_distinct_file = true;
  };
  cached_stat = record { file_count = 0; total_size = 0 };
}

abbrev pub saved_store : MetadataStore sorted_db
saved_store = (save_meta sorted_db plain_codec sample empty_store).0

abbrev removed_store : MetadataStore sorted_db
removed_store = (delete_meta sorted_db plain_codec sample_md5 saved_store).0

abbrev shard_number : ℕ
shard_number = 10

abbrev marked_store : MetadataStore sorted_db
marked_store = (save_meta_shard sorted_db plain_codec shard_number sample_md5 [] empty_store).0

store : Unit {0}
unfolding put_entry erase_entry run_on run_batch lookup bytes_ltb bytes_eq update_meta save_meta
    save_write serialize deserialize delete_meta save_meta_shard get_uploaded_shard scan_shards
    starts_with find_char stored seek to_string stoul digits_from read_signed skip_space read_number
    read_digits
store = tt

pub sample_text : IsMd5Text sample_md5
unfolding store
sample_text = record { long = refl; no_colon = Avoids-of_find_char b':' sample_md5 refl }

is_new : sorted_db.get empty_store.db sample.md5 ≡ none
unfolding store
is_new = refl

saves : save_meta sorted_db plain_codec sample empty_store ≡ (saved_store, true)
unfolding store
saves = refl

removes : delete_meta sorted_db plain_codec sample.md5 saved_store ≡ (removed_store, true)
unfolding store
removes = refl

marks :
    save_meta_shard sorted_db plain_codec shard_number sample_md5 [] empty_store
    ≡ (marked_store, true)
unfolding store
marks = refl

shard_tests : get_uploaded_shard sorted_db plain_codec sample_md5 marked_store ≡ 10 ∷ []
unfolding store
shard_tests = refl

abbrev pub sample_dump : Bytes
sample_dump = elim (plain_codec.dump sample) [ ok t ↦ t | _ ↦ [] ]

pub dumps : plain_codec.dump sample ≡ ok sample_dump
unfolding store
dumps = refl

get_meta-save_meta_example :
    (get_meta sorted_db plain_codec sample.md5 saved_store ≡ some (stored sample))
    × (length sample.path ≢ 32
        → get_meta sorted_db plain_codec sample.path saved_store ≡ some (stored sample))
get_meta-save_meta_example =
    get_meta-save_meta sorted_db plain_codec sample empty_store saved_store sample_dump sample_text
      dumps is_new saves

counts_fit :
    (empty_store.cached_stat.file_count < 2 ^ 64) × (empty_store.cached_stat.total_size < 2 ^ 64)
counts_fit = (omega arith, omega arith)

delete_meta-save_meta_example :
    (get_meta sorted_db plain_codec sample.md5 removed_store ≡ none)
    × (length sample.path ≢ 32 → get_meta sorted_db plain_codec sample.path removed_store ≡ none)
    × (get_stat sorted_db plain_codec removed_store ≡ get_stat sorted_db plain_codec empty_store)
    × ((k : Bytes)
        → IsOtherKey sorted_db plain_codec sample k
        → sorted_db.get removed_store.db k ≡ sorted_db.get empty_store.db k)
delete_meta-save_meta_example =
    delete_meta-save_meta sorted_db plain_codec sample empty_store saved_store removed_store
      sample_dump sample_text dumps is_new counts_fit.0 counts_fit.1 saves removes

get_uploaded_shard-save_meta_shard_example :
    Memᴰ 10 (get_uploaded_shard sorted_db plain_codec sample_md5 marked_store) ↔ (
      (shard_number ≡ shard_number)
      ⊎ Memᴰ 10 (get_uploaded_shard sorted_db plain_codec sample_md5 empty_store))
get_uploaded_shard-save_meta_shard_example =
    get_uploaded_shard-save_meta_shard sorted_db plain_codec shard_number sample_md5 [] empty_store
      marked_store (omega arith) refl marks shard_number

abbrev pub moved : MetaFile
moved = record sample { path = codes "default/b.txt"; name = codes "b.txt" }

abbrev pub moved_dump : Bytes
moved_dump = elim (plain_codec.dump moved) [ ok t ↦ t | _ ↦ [] ]

pub dumps_moved : plain_codec.dump moved ≡ ok moved_dump
unfolding store
dumps_moved = refl
