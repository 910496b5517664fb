-- ===== src/FileStore/Made.antt =====
-- The directories that a write makes.
use cdfs.Base.{
  ◌≡◌, sym, ap, ◌⊎◌, inl, inr, Bool, true, some, List, arith, ◌==◌, Bool-cases, Option-cases, Bytes,
  codes, length, find_str, insert, is_listed, ok, Result-map-eq-ok,
}
use cdfs.Paths.{path_append, parent_path}
use cdfs.Disk.{
  Disk, Device, is_there, file_size, remove, create_directories, wanted_for, add_directories,
}
use cdfs.Disk.Directories.{is_listed-add_directories, create_directories-eq}
use cdfs.FileStore.{
  StoreConfig, can_output, rename_checked, temp_of, made_or_same, write_new, write_disk, save_at,
}
use cdfs.FileStore.Written.{ok_injective}

-- From the first disk to the second no directory goes, and those that come are the path and what is
-- above it.
pub record Grows (q : Bytes) (before after : List Bytes) : Type 0 where
  pub keeps : (j : Bytes) → is_listed j before ≡ true → is_listed j after ≡ true
  pub bounded :
      (j : Bytes)
      → is_listed j after ≡ true
      → (is_listed j before ≡ true) ⊎ (is_listed j (wanted_for q) ≡ true)

Grows-refl : (q : Bytes) (ds : List Bytes) → Grows q ds ds
Grows-refl q ds = record { keeps = λ j h. h; bounded = λ j h. inl h }

Grows-trans : (q : Bytes) (a b c : List Bytes) → Grows q a b → Grows q b c → Grows q a c
Grows-trans q a b c g h = record {
  keeps = λ j k. h.keeps j (g.keeps j k);
  bounded = λ j k. through j (h.bounded j k);
}
  where
    through :
        (j : Bytes)
        → (is_listed j b ≡ true) ⊎ (is_listed j (wanted_for q) ≡ true)
        → (is_listed j a ≡ true) ⊎ (is_listed j (wanted_for q) ≡ true)
    through j (inl k) = g.bounded j k
    through j (inr k) = inr k

Grows-add : (q : Bytes) (ds : List Bytes) → Grows q ds (add_directories (wanted_for q) ds)
Grows-add q ds = record {
  keeps = λ j h. ground (arith, is_listed-add_directories j (wanted_for q) ds);
  bounded = λ j h. ground (arith, is_listed-add_directories j (wanted_for q) ds);
}

module _ (dev : Device) where
  create-Grows :
      (d d1 : Disk) (q : Bytes)
      → create_directories dev d q ≡ some d1
      → Grows q d.directories d1.directories
  create-Grows d d1 q e = rw (create_directories-eq dev d d1 q e) (Grows-add q d.directories)

  made-Grows :
      (d : Disk) (q : Bytes)
      → Grows q d.directories (made_or_same dev (create_directories dev d q) d).directories
  made-Grows d q = elim (Option-cases (create_directories dev d q)) [
    | inl f ↦ rw f (Grows-refl q d.directories)
    | inr (d1, made) ↦ rw made (create-Grows d d1 q made)
  ]

  rename_checked-directories :
      (d : Disk) (temp p kept content : Bytes)
      → (rename_checked dev d temp p kept content).0.directories ≡ d.directories
  unfolding rename_checked remove
  rename_checked-directories d temp p kept content = elim (Bool-cases (dev.can_rename temp p)) [
    | inr f ↦ rw f
    | inl t ↦ elim (Bool-cases (length kept == length content)) [
      | inl s ↦ rw t (rw s)
      | inr s ↦ rw t (rw s)
    ]
  ]

  write_new-Grows :
      (d : Disk) (suffix p content : Bytes)
      → Grows (parent_path p) d.directories (write_new dev d suffix p content).0.directories
  unfolding write_new remove
  write_new-Grows d suffix p content =
      let temp = temp_of dev p suffix in
      let d1 = made_or_same dev (create_directories dev d (parent_path p)) d in
      let made = made-Grows d (parent_path p) in
      elim (Bool-cases (can_output dev d1 temp)) [
        | inr f ↦ rw f made
        | inl t ↦ elim (Option-cases (dev.keeps temp content)) [
          | inl f ↦ rw t (rw f made)
          | inr (kept, e) ↦ rw t (
              rw e (
                rw
                  (rename_checked-directories (record d1 { files = insert temp kept d1.files }) temp
                    p kept content)
                  made))
        ]
      ]

  pub write_disk-Grows :
      (d d' : Disk) (suffix p content : Bytes) (b : Bool)
      → write_disk dev d suffix p content ≡ ok (d', b)
      → Grows (parent_path p) d.directories d'.directories
  unfolding write_disk
  write_disk-Grows d d' suffix p content b e =
      let fresh = write_new-Grows d suffix p content in
      let read : Disk × Bool → List Bytes = λ r. r.0.directories in
      elim (Bool-cases (is_there d p)) [
        | inr f ↦ rw (sym (ap read (ok_injective (rw f at e)))) fresh
        | inl t ↦
            let (size, known, rest) = Result-map-eq-ok (file_size d p) _ (rw t at e) in
            elim (Bool-cases (size == length content)) [
              | inl same ↦ rw (sym (ap read (ok_injective (rw same at rest)))) (Grows-refl _ _)
              | inr differs ↦ rw (sym (ap read (ok_injective (rw differs at rest)))) fresh
            ]
      ]

  module _ (config : StoreConfig) where
    pub save_at-Grows :
        (d d' : Disk) (suffix content rel_path : Bytes) (b : Bool)
        → save_at dev config d suffix content rel_path ≡ ok (d', b)
        → Grows (parent_path (path_append config.root_dir rel_path)) d.directories d'.directories
    unfolding save_at remove
    save_at-Grows d d' suffix content rel_path b e =
        let p = path_append config.root_dir rel_path in
        let read : Disk × Bool → List Bytes = λ r. r.0.directories in
        elim (Option-cases (find_str (codes "..") rel_path)) [
          | inr (n, f) ↦ rw (sym (ap read (ok_injective (rw (f, save_at) at e)))) (Grows-refl _ _)
          | inl plain ↦ elim (Option-cases (create_directories dev d (parent_path p))) [
            | inl f ↦
                rw (sym (ap read (ok_injective (rw f at (rw (plain, save_at) at e)))))
                  (Grows-refl _ _)
            | inr (d1, made) ↦
                let ((d2, written), known, rest) =
                  Result-map-eq-ok (write_disk dev d1 suffix p content) _
                    (rw made at (rw (plain, save_at) at e)) in
                let all =
                  Grows-trans (parent_path p) d.directories d1.directories d2.directories
                    (create-Grows d d1 (parent_path p) made)
                    (write_disk-Grows d1 d2 suffix p content written known) in
                elim (Bool-cases written) [
                  | inl t ↦ rw (sym (ap read (ok_injective (rw t at rest)))) all
                  | inr f ↦ rw (sym (ap read (ok_injective (rw f at rest)))) all
                ]
          ]
        ]
