-- ===== src/Metadata.antt =====
-- file/MetadataStore.h and MetadataStore.cpp: the metadata of the files in LevelDB, under their
-- MD5, with an index by path and one by scene and time, and the cached statistics.
-- Every operation holds the lock for its whole body, but for the first look-up of `save_meta`, and
-- for `update_meta`, which calls two others.
pub mod Keys
pub mod Lookup
pub mod Saved
pub mod Removed
pub mod Updated
pub mod Indices
pub mod Shards
pub mod Listing
pub mod Statistics
pub mod Catalogue
pub mod Statuses
pub mod Held
pub mod Simulation
pub mod Refined
use cdfs.Base.{
  ℤ, pos, negsuc, ℕ, zero, suc, ◌+◌, ◌-◌, ◌%◌, ◌^◌, Bool, true, false, not, ◌&&◌, Option, none,
  some, List, [], ◌∷◌, ◌++◌, ltb, leb, ◌==◌, if◌then◌else◌, Bytes, bytes_eq, codes, length, drop,
  take, is_empty, starts_with, to_string, stoul, Result, ok, throws, Exception, ◌>>=◌,
}
use mathlib.Core.List.{reverse}
use cdfs.Database.{BatchOp, put, delete, LevelDb, Entry, seek, before}
use cdfs.MetaFile.{FileStatus, normal, MetaFile, SystemStat, MetaConfig, Codec}

pub record MetadataStore (L : LevelDb) : Type 0 where
  pub db : L.Db
  pub config : MetaConfig
  pub cached_stat : SystemStat

unfoldable pub is_md5 : Bytes → Bool
is_md5 s = length s == 32

abbrev pub path_key : Bytes → Bytes
path_key path = codes "PATH:" ++ path

abbrev pub scene_prefix : Bytes → Bytes
scene_prefix scene = codes "SCENE:" ++ (scene ++ b':' ∷ [])

abbrev pub scene_key : MetaFile → Bytes → Bytes
scene_key meta md5 = codes "SCENE:" ++ (meta.scene ++ b':' ∷ (to_string meta.mtime ++ b':' ∷ md5))

abbrev pub shard_prefix : Bytes → Bytes
shard_prefix file_md5 = codes "Shard:" ++ (file_md5 ++ b':' ∷ [])

-- The statistics are `uint64_t`.
abbrev pub count_added : SystemStat → ℕ → SystemStat
count_added stat size = record {
  file_count = (stat.file_count + 1) % 2 ^ 64;
  total_size = (stat.total_size + size) % 2 ^ 64;
}

abbrev pub count_removed : SystemStat → ℕ → SystemStat
count_removed stat size = record {
  file_count = (stat.file_count + 2 ^ 64 - 1) % 2 ^ 64;
  total_size = (stat.total_size + 2 ^ 64 - size % 2 ^ 64) % 2 ^ 64;
}

abbrev pub push_index : Option ℕ → List ℕ → List ℕ
push_index none rest = rest
push_index (some n) rest = (n % 2 ^ 32) ∷ rest

-- The loop of `get_uploaded_shard` from an iterator's place on.
unfoldable pub scan_shards : Bytes → List Entry → List ℕ
scan_shards prefix [] = []
scan_shards prefix (e ∷ es) =
    let rest = scan_shards prefix es in
    if not (bytes_eq (take (length prefix) e.0) prefix)
    then []
    else push_index (stoul (drop (length prefix) e.0)) rest

-- `fetched >= limit && limit > 0`
abbrev pub is_full : ℕ → ℤ → Bool
is_full fetched (pos limit) = leb limit fetched && ltb 0 limit
is_full fetched (negsuc n) = false

-- `upper_bound.back() += 1`
abbrev pub upper_bound : Bytes → Bytes
upper_bound scene = codes "SCENE:" ++ (scene ++ b';' ∷ [])

-- The entries that the iterator goes over downwards, from the place that `list_dir` seeks.
unfoldable pub entries_down : Bytes → List Entry → List Entry
entries_down dir es =
    if is_empty (seek (scene_prefix dir) es)
    then reverse es
    else if is_empty (seek (upper_bound dir) es)
    then reverse es
    else before (upper_bound dir) [] es

abbrev pub is_normal : FileStatus → Bool
is_normal normal = true
is_normal _ = false

module _ (L : LevelDb) (C : Codec) where
  -- `serialize`: the empty text where `dump` throws
  unfoldable pub serialize : MetaFile → Bytes
  serialize meta = elim (C.dump meta) [ ok s ↦ s | throws e ↦ [] ]

  unfoldable pub deserialize : Bytes → Result MetaFile
  deserialize s = C.parse s

  abbrev pub save_batch : MetaFile → List BatchOp
  save_batch meta =
      put meta.md5 (serialize meta)
      ∷ put (path_key meta.path) meta.md5
      ∷ put (scene_key meta meta.md5) meta.md5
      ∷ []

  -- `save_meta` behind its first look-up, with the lock held
  unfoldable pub save_write : MetaFile → MetadataStore L → MetadataStore L × Bool
  save_write meta s = elim (L.write s.db (save_batch meta)) [
    | none ↦ (s, false)
    | some db' ↦ (record s { db = db'; cached_stat = count_added s.cached_stat meta.size }, true)
  ]

  unfoldable pub save_meta : MetaFile → MetadataStore L → MetadataStore L × Bool
  save_meta meta s = elim (L.get s.db meta.md5) [ some val ↦ (s, true) | none ↦ save_write meta s ]

  abbrev pub catch_none : Result MetaFile → Option MetaFile
  catch_none (ok meta) = some meta
  catch_none (throws e) = none

  -- The key under which the metadata stands: the MD5 itself, or what the path index gives.
  unfoldable pub target_md5 : Bytes → MetadataStore L → Option Bytes
  target_md5 key s = if is_md5 key then some key else L.get s.db (path_key key)

  unfoldable pub get_meta : Bytes → MetadataStore L → Option MetaFile
  get_meta key s = elim (target_md5 key s) [
    | none ↦ none
    | some md5 ↦ elim (L.get s.db md5) [ none ↦ none | some val ↦ catch_none (deserialize val) ]
  ]

  unfoldable pub save_meta_shard : ℕ → Bytes → Bytes → MetadataStore L → MetadataStore L × Bool
  save_meta_shard shard_index file_md5 shard_md5 s =
      let value = if is_empty shard_md5 then codes "1" else shard_md5 in
      elim (L.write s.db (put (shard_prefix file_md5 ++ to_string shard_index) value ∷ [])) [
        | none ↦ (s, false)
        | some db' ↦ (record s { db = db' }, true)
      ]

  unfoldable pub get_uploaded_shard : Bytes → MetadataStore L → List ℕ
  get_uploaded_shard file_id s =
      if is_empty file_id
      then []
      else scan_shards (shard_prefix file_id) (seek (shard_prefix file_id) (L.entries s.db))

  abbrev pub write_status : MetaFile → Bytes → MetadataStore L → MetadataStore L × Bool
  write_status meta md5 s = elim (L.write s.db (put md5 (serialize meta) ∷ [])) [
    | none ↦ (s, false)
    | some db' ↦ (record s { db = db' }, true)
  ]

  -- `update_status`: an exception of `deserialize` passes.
  unfoldable pub update_status :
      Bytes → FileStatus → MetadataStore L → Result (MetadataStore L × Bool)
  update_status md5 new_status s = elim (L.get s.db md5) [
    | none ↦ ok (s, false)
    | some json_str ↦ deserialize json_str >>= λ meta.
        ok (write_status (record meta { status = new_status }) md5 s)
  ]

  abbrev pub delete_batch : MetaFile → Bytes → List BatchOp
  delete_batch meta md5 =
      delete md5 ∷ delete (path_key meta.path) ∷ delete (scene_key meta md5) ∷ []

  abbrev pub delete_write : Result MetaFile → Bytes → MetadataStore L → MetadataStore L × Bool
  delete_write (throws e) md5 s = (s, false)
  delete_write (ok meta) md5 s = elim (L.write s.db (delete_batch meta md5)) [
    | none ↦ (s, false)
    | some db' ↦ (record s { db = db'; cached_stat = count_removed s.cached_stat meta.size }, true)
  ]

  unfoldable pub delete_meta : Bytes → MetadataStore L → MetadataStore L × Bool
  delete_meta md5 s = elim (L.get s.db md5) [
    | none ↦ (s, false)
    | some json_str ↦ delete_write (deserialize json_str) md5 s
  ]

  unfoldable pub update_meta : MetaFile → MetadataStore L → MetadataStore L × Bool
  update_meta meta s = save_meta meta (delete_meta meta.md5 s).0

  -- The loop of `list_dir` over what the iterator has still to go over, in its direction.
  unfoldable pub list_entries : Bytes → ℕ → ℤ → MetadataStore L → List Entry → ℕ → ℕ → List MetaFile
  list_entries prefix offset limit s [] skipped fetched = []
  list_entries prefix offset limit s (e ∷ es) skipped fetched =
      let skip = list_entries prefix offset limit s es (skipped + 1) fetched in
      let missing =
        if is_full fetched limit
        then []
        else list_entries prefix offset limit s es skipped fetched in
      let found =
        if is_full (fetched + 1) limit
        then []
        else list_entries prefix offset limit s es skipped (fetched + 1) in
      if not (starts_with prefix e.0)
      then []
      else if ltb skipped offset
      then skip
      else elim (get_meta e.1 s) [ none ↦ missing | some meta ↦ meta ∷ found ]

  unfoldable pub list_dir : Bytes → ℤ → ℤ → ℕ → MetadataStore L → List MetaFile
  list_dir dir (negsuc n) limit order s = []
  list_dir dir (pos offset) limit order s =
      let up = seek (scene_prefix dir) (L.entries s.db) in
      let down = entries_down dir (L.entries s.db) in
      let results =
        list_entries (scene_prefix dir) offset limit s (if order == 1 then up else down) 0 0 in
      elim limit [ pos zero ↦ [] | _ ↦ results ]

  unfoldable pub get_stat : MetadataStore L → SystemStat
  get_stat s = s.cached_stat

  unfoldable pub exists : Bytes → MetadataStore L → Bool
  exists file_id s = elim (get_meta file_id s) [ none ↦ false | some meta ↦ true ]

  abbrev pub count_entry : Result MetaFile → SystemStat → SystemStat
  count_entry (throws e) stat = stat
  count_entry (ok m) stat = if is_normal m.status then count_added stat m.size else stat

  -- The loop of `repair_stat`.
  unfoldable pub count_entries : List Entry → SystemStat → SystemStat
  count_entries [] stat = stat
  count_entries (e ∷ es) stat =
      count_entries es (if is_md5 e.0 then count_entry (deserialize e.1) stat else stat)

  unfoldable pub repair_stat : MetadataStore L → MetadataStore L
  repair_stat s = record s {
    cached_stat = count_entries (L.entries s.db) (record { file_count = 0; total_size = 0 });
  }
