-- ===== src/FileStore.antt =====
-- file/filestore.h and filestore.cpp: the files below the root directory.
pub mod Written
pub mod Reading
pub mod Scenes
pub mod Others
pub mod Made
pub mod Ready
use cdfs.Base.{
  ℕ, Bool, true, false, not, ◌&&◌, ◌||◌, Option, none, some, List, [], ◌∷◌, ◌++◌, ◌==◌,
  if◌then◌else◌, Bytes, bytes_eq, codes, length, is_empty, find_str, to_string, Dict, lookup,
  insert, erase, Result, ok, throws, filesystem_error, ◌>>=◌,
}
use cdfs.Paths.{path_append, parent_path, extension}
use cdfs.Crypto.{Digest, md5, md5_to_rel_path}
use cdfs.Disk.{
  Disk, Device, is_directory, is_regular_file, is_there, file_size, remove, create_directories,
}

pub record StoreConfig : Type 0 where
  pub root_dir : Bytes
  pub temp_dir : Bytes
  pub max_file_size : ℕ
  pub group : Bytes
  pub peer_id : Bytes
  pub domain : Bytes
  pub allow_extensions : List Bytes
  pub enable_trim_filename : Bool
  pub enable_distinct_file : Bool

module _ (dev : Device) where
  abbrev made_or_same : Option Disk → Disk → Disk
  made_or_same none d = d
  made_or_same (some d') d = d'

  -- An output stream can be opened.
  unfoldable pub can_output : Disk → Bytes → Bool
  can_output d p =
      (is_empty (parent_path p) || is_directory d (parent_path p))
      && not (is_directory d p)
      && dev.can_open p

  -- Steps 5 and on: the renaming, and the check of the size. `kept` is what the temporary file
  -- holds. On a mismatch the message asks for the size of the file just removed, which throws, and
  -- the file is removed once more.
  unfoldable pub rename_checked : Disk → Bytes → Bytes → Bytes → Bytes → Disk × Bool
  rename_checked d temp_path full_path kept content =
      if not (dev.can_rename temp_path full_path)
      then (remove d full_path, false)
      else if length kept == length content
      then (record d { files = insert full_path kept (erase temp_path d.files) }, true)
      else (remove (record d { files = erase temp_path d.files }) full_path, false)

  abbrev pub temp_of : Bytes → Bytes → Bytes
  temp_of full_path suffix = full_path ++ (codes ".tmp." ++ suffix)

  -- `write_disk` behind its first test.
  unfoldable pub write_new : Disk → Bytes → Bytes → Bytes → Disk × Bool
  write_new d suffix full_path content =
      let d1 = made_or_same (create_directories dev d (parent_path full_path)) d in
      let temp_path = temp_of full_path suffix in
      if not (can_output d1 temp_path) then (d1, false) else elim (dev.keeps temp_path content) [
        | none ↦ (remove d1 temp_path, false)
        | some kept ↦
            rename_checked (record d1 { files = insert temp_path kept d1.files }) temp_path
              full_path kept content
      ]

  -- `write_disk`, with the suffix that `generate_temp_suffix` draws. The first test asks a
  -- directory for its size, too, which throws outside the `try`.
  unfoldable pub write_disk : Disk → Bytes → Bytes → Bytes → Result (Disk × Bool)
  write_disk d suffix full_path content =
      let fresh = write_new d suffix full_path content in
      let same_size =
        (file_size d full_path >>= λ size.
        ok (if size == length content then (d, true) else fresh)) in
      if is_there d full_path then same_size else ok fresh

  -- `read_disk`: `none` for false
  unfoldable pub read_disk : Disk → Bytes → Option Bytes
  read_disk d real_path = elim (lookup real_path d.files) [
    | none ↦ none
    | some content ↦
        if is_empty content then some [] else if dev.can_read real_path then some content else none
  ]

  module _ (config : StoreConfig) where
    -- `save_file` of the text `content` at a relative path. An exception is that of the size of a
    -- directory; it stands below the directories that were to be made, so none of them is new.
    unfoldable pub save_at : Disk → Bytes → Bytes → Bytes → Result (Disk × Bool)
    save_at d suffix content rel_path =
        let full_path = path_append config.root_dir rel_path in
        elim (find_str (codes "..") rel_path) [
          | some pos ↦ ok (d, false)
          | none ↦ elim (create_directories dev d (parent_path full_path)) [
            | none ↦ ok (d, false)
            | some d1 ↦ write_disk d1 suffix full_path content >>= λ r.
                ok (if r.1 then r else (remove r.0 full_path, false))
          ]
        ]

    -- `save_file(filename, data, scene, md5)` from the relative path on.
    unfoldable pub save_under : Disk → Bytes → Bytes → Bytes → Bytes → Result (Disk × Option Bytes)
    save_under d suffix content scene rel_path_str =
        let abs_file_path = path_append (path_append config.root_dir scene) rel_path_str in
        let result = path_append scene rel_path_str in
        if is_there d abs_file_path
        then ok (d, some result)
        else elim (create_directories dev d (parent_path abs_file_path)) [
          | none ↦ ok (d, none)
          | some d1 ↦ write_disk d1 suffix abs_file_path content >>= λ r.
              ok (r.0, if r.1 then some result else none)
        ]

    unfoldable pub save_file :
        Digest → Disk → Bytes → Bytes → Bytes → Bytes → Bytes → Result (Disk × Option Bytes)
    save_file digest d suffix filename content scene md5_text =
        let file_md5 = if is_empty md5_text then md5 digest content else md5_text in
        md5_to_rel_path file_md5 >>= λ base_rel_path.
        save_under d suffix content scene (base_rel_path ++ extension filename)

    abbrev shard_path : Bytes → ℕ → Bytes
    shard_path file_md5 shard_index =
        config.root_dir
        ++ (codes "/"
            ++ (config.temp_dir
                ++ (codes "/"
                    ++ (file_md5
                        ++ (codes "/" ++ (file_md5 ++ (codes "_" ++ to_string shard_index)))))))

    unfoldable pub save_shard :
        Digest → Disk → Bytes → Bytes → ℕ → Bytes → Bytes → Result (Disk × Bool)
    save_shard digest d suffix file_md5 shard_index content shard_md5 =
        if not (bytes_eq (md5 digest content) shard_md5)
        then ok (d, false)
        else write_disk d suffix (shard_path file_md5 shard_index) content

    unfoldable pub get_file : Disk → Bytes → Option Bytes
    get_file d path =
        let full_path = path_append config.root_dir path in
        if not (is_there d full_path)
        then none
        else if not (is_regular_file d full_path)
        then none
        else read_disk d full_path

  -- The constructor's calls of `create_directories`, up to the first that throws.
  unfoldable pub make_all : List Bytes → Disk → Disk × Result (Unit {0})
  make_all [] d = (d, ok tt)
  make_all (p ∷ ps) d = elim (create_directories dev d p) [
    | none ↦ (d, throws (filesystem_error (codes "cannot create directories")))
    | some made ↦ make_all ps made
  ]

  -- The constructor, which logs the exception and throws it again.
  unfoldable pub create : StoreConfig → Disk → Disk × Result (Unit {0})
  create config d =
      make_all
        (config.root_dir
          ∷ (config.root_dir ++ codes "/_tmp")
          ∷ (config.root_dir ++ codes "/_big")
          ∷ [])
        d
