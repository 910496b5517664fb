-- ===== src/FileStore/Others.antt =====
-- What a write leaves alone.
use cdfs.Base.{
  ◌≡◌, sym, ap, ◌∙◌, ◌≢◌, inl, inr, Bool, false, Option, arith, ◌==◌, Bool-cases, Option-cases,
  Bytes, bytes_eq, bytes_eq_iff, codes, length, find_str, lookup, insert, erase, lookup-insert,
  lookup-erase, ok, Result-map-eq-ok,
}
use cdfs.Paths.{path_append, parent_path}
use cdfs.Disk.{Disk, Device, is_there, file_size, remove, create_directories}
use cdfs.FileStore.{
  StoreConfig, can_output, rename_checked, temp_of, made_or_same, write_new, write_disk, save_at,
}
use cdfs.FileStore.Written.{ok_injective, create_directories-files}

module _ (j : Bytes) where
  -- Two disks have the same file at the path, or both none.
  abbrev SameAt : Disk → Disk → Type 0
  SameAt d d' = lookup j d'.files ≡ lookup j d.files

  remove-others : (d : Disk) (p : Bytes) → bytes_eq p j ≡ false → SameAt d (remove d p)
  unfolding remove
  remove-others d p h = lookup-erase p j d.files ∙ rw h

  module _ (dev : Device) where
    rename_checked-others :
        (d : Disk) (temp p kept content : Bytes)
        → bytes_eq p j ≡ false
        → bytes_eq temp j ≡ false
        → SameAt d (rename_checked dev d temp p kept content).0
    unfolding rename_checked
    rename_checked-others d temp p kept content h k =
        let moved = record d { files = erase temp d.files } in
        let same : SameAt d moved = lookup-erase temp j d.files ∙ rw k in
        elim (Bool-cases (dev.can_rename temp p)) [
          | inr f ↦ rw f (remove-others d p h)
          | inl t ↦ elim (Bool-cases (length kept == length content)) [
            | inl s ↦ rw t (rw s (lookup-insert p j kept (erase temp d.files) ∙ rw h same))
            | inr s ↦ rw t (rw s (remove-others moved p h ∙ same))
          ]
        ]

    made-others :
        (d : Disk) (q : Bytes) → SameAt d (made_or_same dev (create_directories dev d q) d)
    made-others d q = elim (Option-cases (create_directories dev d q)) [
      | inl f ↦ rw f
      | inr (d1, made) ↦ rw made (ap (lookup j) (create_directories-files dev d d1 q made))
    ]

    write_new-others :
        (d : Disk) (suffix p content : Bytes)
        → bytes_eq p j ≡ false
        → bytes_eq (temp_of dev p suffix) j ≡ false
        → SameAt d (write_new dev d suffix p content).0
    unfolding write_new
    write_new-others d suffix p content h k =
        let temp = temp_of dev p suffix in
        let d1 = made_or_same dev (create_directories dev d (parent_path p)) d in
        let made = made-others d (parent_path p) in
        elim (Bool-cases (can_output dev d1 temp)) [
          | inr f ↦ rw f made
          | inl t ↦ elim (Option-cases (dev.keeps temp content)) [
            | inl f ↦ rw t (rw f (remove-others d1 temp k ∙ made))
            | inr (kept, e) ↦ rw t (
                rw e (
                  rename_checked-others (record d1 { files = insert temp kept d1.files }) temp p
                    kept content h k
                  ∙ lookup-insert temp j kept d1.files
                  ∙ rw k made))
          ]
        ]

    write_disk-others :
        (d d' : Disk) (suffix p content : Bytes) (b : Bool)
        → write_disk dev d suffix p content ≡ ok (d', b)
        → bytes_eq p j ≡ false
        → bytes_eq (temp_of dev p suffix) j ≡ false
        → SameAt d d'
    unfolding write_disk
    write_disk-others d d' suffix p content b e h k =
        let fresh = write_new-others d suffix p content h k in
        let read : Disk × Bool → Option Bytes = λ r. lookup j r.0.files in
        elim (Bool-cases (is_there d p)) [
          | inr f ↦ sym (ap read (ok_injective (rw f at e))) ∙ fresh
          | inl t ↦
              let (size, known, rest) = Result-map-eq-ok (file_size d p) _ (rw t at e) in
              elim (Bool-cases (size == length content)) [
                | inl same ↦ sym (ap read (ok_injective (rw same at rest)))
                | inr differs ↦ sym (ap read (ok_injective (rw differs at rest))) ∙ fresh
              ]
        ]

    -- Whatever `save_file` at a relative path answers, and whatever fails on the way, every file but
    -- the one at that path and the temporary one is as before.
    pub save_at-others :
        (config : StoreConfig) (d d' : Disk) (suffix content rel_path : Bytes) (b : Bool)
        → save_at dev config d suffix content rel_path ≡ ok (d', b)
        → j ≢ path_append config.root_dir rel_path
        → j ≢ temp_of dev (path_append config.root_dir rel_path) suffix
        → lookup j d'.files ≡ lookup j d.files
    unfolding save_at
    save_at-others config d d' suffix content rel_path b e h k =
        let p = path_append config.root_dir rel_path in
        let h' : bytes_eq p j ≡ false = ground (arith, bytes_eq_iff p j) in
        let k' : bytes_eq (temp_of dev p suffix) j ≡ false =
          ground (arith, bytes_eq_iff (temp_of dev p suffix) j) in
        let read : Disk × Bool → Option Bytes = λ r. lookup j r.0.files in
        elim (Option-cases (find_str (codes "..") rel_path)) [
          | inr (n, f) ↦ sym (ap read (ok_injective (rw (f, save_at) at e)))
          | inl plain ↦ elim (Option-cases (create_directories dev d (parent_path p))) [
            | inl f ↦ sym (ap read (ok_injective (rw f at (rw (plain, save_at) at e))))
            | inr (d1, made) ↦
                let ((d2, written), known, rest) =
                  Result-map-eq-ok (write_disk dev d1 suffix p content) _
                    (rw made at (rw (plain, save_at) at e)) in
                let before =
                  write_disk-others d1 d2 suffix p content written known h' k'
                  ∙ ap (lookup j) (create_directories-files dev d d1 (parent_path p) made) in
                elim (Bool-cases written) [
                  | inl t ↦ sym (ap read (ok_injective (rw t at rest))) ∙ before
                  | inr f ↦
                      sym (ap read (ok_injective (rw f at rest))) ∙ remove-others d2 p h' ∙ before
                ]
          ]
        ]
