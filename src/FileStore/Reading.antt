-- ===== src/FileStore/Reading.antt =====
-- Reading back what was saved.
use cdfs.Base.{
  ℕ, ◌≡◌, ap, ◌∙◌, inl, inr, Bool, true, false, none, some, [], ◌∷◌, Bool-cases, Option-cases,
  Bytes, codes, length, find_str, lookup, ok, Result-map-eq-ok,
}
use cdfs.Paths.{path_append, parent_path}
use cdfs.Disk.{Disk, Device, is_regular_file, is_there, file_size, create_directories}
use cdfs.FileStore.{StoreConfig, temp_of, write_disk, read_disk, save_at, get_file}
use cdfs.FileStore.Written.{IsWritten, ok_injective, write_disk-eq-true, create_directories-files}

-- What the device keeps of a write, it keeps whole, if it is as long as the content.
abbrev pub KeepsWhole : Device → Type 0
KeepsWhole dev =
    (p content kept : Bytes)
    → dev.keeps p content ≡ some kept
    → length kept ≡ length content
    → kept ≡ content

module _ (dev : Device) (config : StoreConfig) where
  pub get_file_of_lookup :
      (d : Disk) (path x : Bytes)
      → lookup (path_append config.root_dir path) d.files ≡ some x
      → dev.can_read (path_append config.root_dir path) ≡ true
      → get_file dev config d path ≡ some x
  unfolding get_file is_there is_regular_file read_disk
  get_file_of_lookup d path [] e h = rw (e, get_file, is_there, is_regular_file, read_disk)
  get_file_of_lookup d path (c ∷ x) e h =
      rw (e, get_file, is_there, is_regular_file, read_disk) (rw h)

  not_there :
      (d d1 : Disk) (p q : Bytes) (n : ℕ)
      → is_there d p ≡ false
      → create_directories dev d q ≡ some d1
      → file_size d1 p ≡ ok n
      → ⊥
  unfolding is_there is_regular_file file_size
  not_there d d1 p q n absent made size = elim (Option-cases (lookup p d.files)) [
    | inr (x, e) ↦ absurd (cc (rw (e, is_there, is_regular_file) at absent))
    | inl e ↦
        let gone : lookup p d1.files ≡ none =
          ap (lookup p) (create_directories-files dev d d1 q made) ∙ e in
        absurd (cc (rw (gone, file_size) at size))
  ]

  -- A write to a place where nothing stood, once its directory is made.
  pub IsWritten-of_write :
      (d d1 d' : Disk) (suffix p content : Bytes)
      → is_there d p ≡ false
      → create_directories dev d (parent_path p) ≡ some d1
      → write_disk dev d1 suffix p content ≡ ok (d', true)
      → IsWritten dev d' (temp_of dev p suffix) p content
  IsWritten-of_write d d1 d' suffix p content absent made e =
      elim (write_disk-eq-true dev d1 d' suffix p content e) [
        | inl (same, size) ↦
            absurd (not_there d d1 p (parent_path p) (length content) absent made size)
        | inr w ↦ w
      ]

  save_at-eq-true :
      (d d' : Disk) (suffix content rel_path : Bytes)
      → save_at dev config d suffix content rel_path ≡ ok (d', true)
      → (d1 : Disk) × (create_directories dev d (parent_path (path_append config.root_dir rel_path))
          ≡ some d1)
        × (write_disk dev d1 suffix (path_append config.root_dir rel_path) content ≡ ok (d', true))
  unfolding save_at
  save_at-eq-true d d' suffix content rel_path e =
      let full = path_append config.root_dir rel_path in
      elim (Option-cases (find_str (codes "..") rel_path)) [
        | inr (n, f) ↦
            absurd (cc (ap (λ (r : Disk × Bool). r.1) (ok_injective (rw (f, save_at) at e))))
        | inl plain ↦ elim (Option-cases (create_directories dev d (parent_path full))) [
          | inl f ↦ absurd (
              cc
                (ap (λ (r : Disk × Bool). r.1) (ok_injective (rw f at (rw (plain, save_at) at e)))))
          | inr (d1, made) ↦
              let (r, known, rest) =
                Result-map-eq-ok (write_disk dev d1 suffix full content) _
                  (rw made at (rw (plain, save_at) at e)) in
              elim (Bool-cases r.1) [
                | inl t ↦ (d1, made, known ∙ rw t at rest)
                | inr f ↦ absurd (cc (ap (λ (x : Disk × Bool). x.1) (ok_injective (rw f at rest))))
              ]
        ]
      ]

  -- Where nothing stood at the place, the device keeps whole what it keeps at full length, and the
  -- system lets the place be read, a text that was saved at a relative path, with the answer true,
  -- is read back from that path.
  pub get_file-save_at :
      (d d' : Disk) (suffix content rel_path : Bytes)
      → KeepsWhole dev
      → dev.can_read (path_append config.root_dir rel_path) ≡ true
      → is_there d (path_append config.root_dir rel_path) ≡ false
      → save_at dev config d suffix content rel_path ≡ ok (d', true)
      → get_file dev config d' rel_path ≡ some content
  get_file-save_at d d' suffix content rel_path whole readable absent e =
      let full = path_append config.root_dir rel_path in
      let (d1, made, written) = save_at-eq-true d d' suffix content rel_path e in
      let w = IsWritten-of_write d d1 d' suffix full content absent made written in
      get_file_of_lookup d' rel_path content
        (w.there
          ∙ ap some (whole (temp_of dev full suffix) content w.kept w.from_device w.same_length))
        readable
