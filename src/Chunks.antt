-- ===== src/Chunks.antt =====
-- file/filestore.cpp (get_shard_index), and what handleMerge of controller/FileCtl.cpp does on the
-- disk: the chunks of a file, listed and merged.
pub mod Merge
pub mod Listed
pub mod Places
pub mod Missed
pub mod Uploaded
pub mod Sorted
pub mod Copied
pub mod Merged
pub mod Found
use cdfs.Base.{
  ℕ, suc, ◌+◌, Bool, true, false, not, ◌&&◌, ◌||◌, Option, none, some, List, [], ◌∷◌, ◌++◌,
  if◌then◌else◌, Bytes, bytes_eq, codes, length, drop, is_empty, starts_with, find_char, Dict,
  lookup, insert, erase, ℤ, stoi, int_text, int_lt, Result, ok, throws, ◌>>=◌, Exception,
  runtime_error, filesystem_error,
}
use cdfs.Paths.{slash, path_append, parent_path}
use cdfs.Disk.{Disk, Device, is_directory, is_there, create_directories}
use cdfs.FileStore.{can_output}

unfoldable pub plain_name : Bytes → Option Bytes
plain_name name = elim (find_char slash name) [ none ↦ some name | some n ↦ none ]

-- The name of an entry of a directory, if the path is one.
unfoldable pub name_in : Bytes → Bytes → Option Bytes
name_in dir p =
    let name = drop (length dir + 1) p in
    if starts_with (dir ++ slash ∷ []) p && not (is_empty name) then plain_name name else none

-- The regular files of a directory.
unfoldable pub names_in : Bytes → Dict Bytes → List Bytes
names_in dir [] = []
names_in dir ((p, c) ∷ files) = elim (name_in dir p) [
  | none ↦ names_in dir files
  | some name ↦ name ∷ names_in dir files
]

-- The numbers that `std::stoi` reads from names; the others are passed over.
unfoldable pub indices_of : List Bytes → List ℤ
indices_of [] = []
indices_of (name ∷ names) = elim (stoi name) [
  | none ↦ indices_of names
  | some index ↦ index ∷ indices_of names
]

-- One step of an insertion sort; equal numbers are the same, so every sort gives this list.
unfoldable pub sort_insert : ℤ → List ℤ → List ℤ
sort_insert n [] = n ∷ []
sort_insert n (x ∷ xs) = if int_lt x n then x ∷ sort_insert n xs else n ∷ x ∷ xs

-- `std::sort`
unfoldable pub sort_indices : List ℤ → List ℤ
sort_indices [] = []
sort_indices (n ∷ ns) = sort_insert n (sort_indices ns)

-- What the system decides of directories and of the merged file: the order in which an iterator
-- gives the entries of a directory, what stands in a file once its stream is closed, whether or not
-- a write had failed, and whether a directory can be removed with all below it.
pub record DirectoryService : Type 0 where
  pub arrange : Bytes → List Bytes → List Bytes
  pub remains : Bytes → Bytes → Bytes
  pub can_remove_all : Bytes → Bool

-- The output stream: what was written, and whether a write has failed.
pub record Output : Type 0 where
  pub written : Bytes
  pub failed : Bool

-- `out_file << in_file.rdbuf()`: where nothing is written, the stream fails, and from then on
-- nothing is written.
unfoldable pub copy_chunk : Output → Bytes → Output
copy_chunk out content =
    if out.failed
    then out
    else if is_empty content
    then record out { failed = true }
    else record out { written = out.written ++ content }

unfoldable pub is_below : Bytes → Bytes → Bool
is_below dir p = starts_with (dir ++ slash ∷ []) p

unfoldable pub files_outside : Bytes → Dict Bytes → Dict Bytes
files_outside dir [] = []
files_outside dir ((p, c) ∷ files) =
    let rest = files_outside dir files in if is_below dir p then rest else (p, c) ∷ rest

unfoldable pub directories_outside : Bytes → List Bytes → List Bytes
directories_outside dir [] = []
directories_outside dir (p ∷ ps) =
    let rest = directories_outside dir ps in
    if bytes_eq p dir || is_below dir p then rest else p ∷ rest

-- `remove_all` on a directory.
unfoldable pub remove_all : Disk → Bytes → Disk
remove_all d dir = record {
  files = files_outside dir d.files;
  directories = directories_outside dir d.directories;
}

-- A step on the disk, and the next one where it does not throw.
abbrev pub then_on :
    Disk × Result (Unit {0}) → (Disk → Disk × Result (Unit {0})) → Disk × Result (Unit {0})
then_on (d, throws e) next = (d, throws e)
then_on (d, ok u) next = next d

module _ (sys : DirectoryService) where
  -- The indices of the regular files in a directory, in the iterator's order.
  unfoldable pub list_indices : Disk → Bytes → List ℤ
  list_indices d dir = indices_of (sys.arrange dir (names_in dir d.files))

  unfoldable pub get_shard_index : Disk → Bytes → List ℤ
  get_shard_index d file_dir =
      if is_there d file_dir && is_directory d file_dir then list_indices d file_dir else []

  module _ (dev : Device) where
    -- The loop over the indices: the stream, and the exception that ends it.
    unfoldable pub copy_chunks : Disk → Bytes → Output → List ℤ → Output × Result (Unit {0})
    copy_chunks d dir out [] = (out, ok tt)
    copy_chunks d dir out (index ∷ indices) =
        let name = int_text index in
        let stop : Output × Result (Unit {0}) =
          (out, throws (runtime_error (codes "Cannot open chunk: " ++ name))) in
        elim (lookup (path_append dir name) d.files) [
          | none ↦ stop
          | some content ↦
              if dev.can_read (path_append dir name)
              then copy_chunks d dir (copy_chunk out content) indices
              else stop
        ]

    -- Step 4, the merged file.
    unfoldable pub write_merged : Disk → Bytes → Bytes → List ℤ → Disk × Result (Unit {0})
    write_merged d dir merged indices =
        let opened = record d { files = insert merged [] d.files } in
        let (out, ends) =
          copy_chunks opened dir (record { written = []; failed = false }) indices in
        if not (can_output dev d merged)
        then (d, throws (runtime_error (codes "Cannot create merge output file")))
        else (
          record opened { files = insert merged (sys.remains merged out.written) opened.files },
          ends,
        )

    -- Steps 5 to 7, up to the cleaning: the merged file goes to its place.
    unfoldable pub move_merged : Disk → Bytes → Bytes → Disk × Result (Unit {0})
    move_merged d merged final_abs_path =
        elim (create_directories dev d (parent_path final_abs_path)) [
          | none ↦ (d, throws (filesystem_error (codes "cannot create directories")))
          | some d1 ↦
              if dev.can_rename merged final_abs_path
              then (
                record d1 {
                  files =
                      insert final_abs_path
                        (elim (lookup merged d1.files) [ none ↦ [] | some c ↦ c ])
                        (erase merged d1.files);
                },
                ok tt,
              )
              else (d1, throws (filesystem_error (codes "cannot rename")))
        ]

    unfoldable pub clean_chunks : Disk → Bytes → Disk × Result (Unit {0})
    clean_chunks d dir =
        if sys.can_remove_all dir
        then (remove_all d dir, ok tt)
        else (d, throws (filesystem_error (codes "cannot remove all")))
