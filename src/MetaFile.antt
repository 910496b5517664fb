-- ===== src/MetaFile.antt =====
-- file/MetaFile.h and config/metaConfig.h: the metadata of a file, and its JSON text.
-- Sizes and times, `int64_t` in the source, are natural numbers: the program stores no others.
use cdfs.Base.{ℕ, ◌≡◌, Bool, List, [], map, Bytes, Result, ok}

pub data FileStatus : Type 0 where
  normal deleted corrupted syncing locked : FileStatus

pub record FileShard : Type 0 where
  pub index : ℕ
  pub shard_id : Bytes
  pub size : ℕ
  pub md5 : Bytes
  pub path : Bytes

pub record MetaFile : Type 0 where
  pub md5 : Bytes
  pub path : Bytes
  pub name : Bytes
  pub domain : Bytes
  pub scene : Bytes
  pub src : Bytes
  pub size : ℕ
  pub mtime : ℕ
  pub status : FileStatus
  pub is_sharded : Bool
  pub shard_std_size : ℕ
  pub shard_count : ℕ
  pub shards : List FileShard
  pub uploaded_count : ℕ
  pub uploaded_chunks : List ℕ
  pub peers : List Bytes

pub record SystemStat : Type 0 where
  pub file_count : ℕ
  pub total_size : ℕ

pub record MetaConfig : Type 0 where
  pub group : Bytes
  pub peer_id : Bytes
  pub domain : Bytes
  pub allow_extensions : List Bytes
  pub enable_trim_filename : Bool
  pub enable_distinct_file : Bool

-- The macro of `FileShard` does not list `path`, which is therefore not stored.
abbrev pub stored_shard : FileShard → FileShard
stored_shard s = record s { path = [] }

-- What comes back of a `MetaFile` that went through its JSON text.
unfoldable pub stored : MetaFile → MetaFile
stored m = record m { shards = map stored_shard m.shards }

-- nlohmann's macros, `dump` and `parse`: what the two directions promise together. `dump` throws
-- on text that is not UTF-8, `parse` and `get` on text that is no such document.
pub record Codec : Type 0 where
  pub dump : MetaFile → Result Bytes
  pub parse : Bytes → Result MetaFile
  pub parse-dump : (m : MetaFile) (s : Bytes) → dump m ≡ ok s → parse s ≡ ok (stored m)
