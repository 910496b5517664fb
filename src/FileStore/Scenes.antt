-- ===== src/FileStore/Scenes.antt =====
-- Saving a file under a scene, and reading it back.
use cdfs.Base.{
  ℕ, ◌≡◌, sym, ap, ◌∙◌, inl, inr, Bool, true, false, Option, none, some, ◌++◌, if◌then◌else◌,
  Bool-cases, Option-cases, Bytes, length, is_empty, lookup, Result, ok, Result-map-eq-ok,
}
use cdfs.Paths.Joins.{path_append_assoc}
use cdfs.Paths.{path_append, parent_path, extension}
use cdfs.Crypto.{Digest, md5, md5_to_rel_path}
use cdfs.Disk.{Disk, Device, is_regular_file, is_there, file_size, create_directories}
use cdfs.FileStore.{StoreConfig, temp_of, write_disk, save_under, save_file, get_file}
use cdfs.FileStore.Written.{file_size-write_disk}
use cdfs.FileStore.Reading.{KeepsWhole, get_file_of_lookup, IsWritten-of_write}

module _ (dev : Device) (config : StoreConfig) where
  -- How a file is saved under a scene: it is there already, or it is written.
  data SavedUnder (d d' : Disk) (suffix p content : Bytes) : Type 0 where
    found : is_there d p ≡ true → d' ≡ d → SavedUnder d d' suffix p content
    wrote :
        {d1 : Disk}
        → is_there d p ≡ false
        → create_directories dev d (parent_path p) ≡ some d1
        → write_disk dev d1 suffix p content ≡ ok (d', true)
        → SavedUnder d d' suffix p content

  answered_some :
      (r : Disk × Bool) (d' : Disk) (result path : Bytes)
      → ◌≡◌ {A = Result (Disk × Option Bytes)}
          (ok (r.0, if r.1 then some result else none))
          (ok (d', some path))
      → (r ≡ (d', true)) × (path ≡ result)
  answered_some (x, true) d' result path e = (cc e, cc e)
  answered_some (x, false) d' result path e = absurd (cc e)

  SavedUnder-of_save :
      (d d' : Disk) (suffix content scene rel path : Bytes)
      → save_under dev config d suffix content scene rel ≡ ok (d', some path)
      → (path ≡ path_append scene rel)
        × SavedUnder d d' suffix (path_append (path_append config.root_dir scene) rel) content
  unfolding save_under
  SavedUnder-of_save d d' suffix content scene rel path e =
      let p = path_append (path_append config.root_dir scene) rel in
      elim (Bool-cases (is_there d p)) [
        | inl t ↦
            let e' : ◌≡◌ {A = Result (Disk × Option Bytes)} (ok (d, some (path_append scene rel)))
                (ok (d', some path)) =
              rw (t, save_under) at e in
            (cc e', found t (cc e'))
        | inr f ↦ elim (Option-cases (create_directories dev d (parent_path p))) [
          | inl none_made ↦ absurd (cc (rw none_made at (rw (f, save_under) at e)))
          | inr (d1, made) ↦
              let (r, known, rest) =
                Result-map-eq-ok (write_disk dev d1 suffix p content) _
                  (rw made at (rw (f, save_under) at e)) in
              let (same, named) = answered_some r d' (path_append scene rel) path rest in
              (named, wrote f made (known ∙ ap ok same))
        ]
      ]

  -- The relative path below the scene.
  abbrev pub relative_of : Bytes → Bytes → Bytes
  relative_of base filename = base ++ extension filename

  save_file-eq-ok :
      (digest : Digest) (d d' : Disk) (suffix filename content scene md5_text path : Bytes)
      → save_file dev config digest d suffix filename content scene md5_text ≡ ok (d', some path)
      → (base : Bytes) × (md5_to_rel_path
            (if is_empty md5_text then md5 digest content else md5_text)
          ≡ ok base)
        × (save_under dev config d suffix content scene (relative_of base filename)
            ≡ ok (d', some path))
  unfolding save_file
  save_file-eq-ok digest d d' suffix filename content scene md5_text path e =
      Result-map-eq-ok
        (md5_to_rel_path (if is_empty md5_text then md5 digest content else md5_text))
        (λ base. save_under dev config d suffix content scene (base ++ extension filename)) e

  -- Where `save_file` answers with a path at which nothing stood before, below the root directory,
  -- the device keeps whole what it keeps at full length, and the system lets the place be read,
  -- `get_file` of that path gives the content that was saved, whatever the scene.
  pub get_file-save_file :
      (digest : Digest) (d d' : Disk) (suffix filename content scene md5_text path : Bytes)
      → KeepsWhole dev
      → dev.can_read (path_append config.root_dir path) ≡ true
      → is_there d (path_append config.root_dir path) ≡ false
      → save_file dev config digest d suffix filename content scene md5_text ≡ ok (d', some path)
      → get_file dev config d' path ≡ some content
  get_file-save_file digest d d' suffix filename content scene md5_text path whole readable absent
        e =
      let (base, m, under) =
        save_file-eq-ok digest d d' suffix filename content scene md5_text path e in
      let rel = relative_of base filename in
      let p = path_append (path_append config.root_dir scene) rel in
      let (named, how) = SavedUnder-of_save d d' suffix content scene rel path under in
      let place : p ≡ path_append config.root_dir path =
        path_append_assoc config.root_dir scene rel
        ∙ ap (path_append config.root_dir) (sym named) in
      elim how [
        | found t same ↦ absurd (cc (sym (ap (is_there d) place) ∙ t, absent))
        | wrote {d1 = d1} f made written ↦
            let w = IsWritten-of_write dev config d d1 d' suffix p content f made written in
            get_file_of_lookup dev config d' path content
              (ap (λ x. lookup x d'.files) (sym place)
                ∙ w.there
                ∙ ap some (whole (temp_of dev p suffix) content w.kept w.from_device w.same_length))
              readable
      ]

  is_there_of_size : (d : Disk) (p : Bytes) (n : ℕ) → file_size d p ≡ ok n → is_there d p ≡ true
  unfolding file_size is_there is_regular_file
  is_there_of_size d p n e = elim (Option-cases (lookup p d.files)) [
    | inl gone ↦ absurd (cc (rw (gone, file_size) at e))
    | inr (x, there) ↦ rw (there, is_there, is_regular_file)
  ]

  there_after :
      (d d' : Disk) (suffix p content : Bytes)
      → SavedUnder d d' suffix p content
      → is_there d' p ≡ true
  there_after d d' suffix p content (found t same) = rw same t
  there_after d d' suffix p content (wrote {d1 = d1} f made written) =
      is_there_of_size d' p (length content)
        (file_size-write_disk dev d1 d' suffix p content written)

  -- Saving the same file again, whatever name the temporary file would have, answers with the same
  -- path and changes nothing on the disk.
  save_file-save_file :
      (digest : Digest) (d d' : Disk) (suffix suffix' filename content scene md5_text path : Bytes)
      → save_file dev config digest d suffix filename content scene md5_text ≡ ok (d', some path)
      → save_file dev config digest d' suffix' filename content scene md5_text ≡ ok (d', some path)
  unfolding save_file save_under
  save_file-save_file digest d d' suffix suffix' filename content scene md5_text path e =
      let (base, m, under) =
        save_file-eq-ok digest d d' suffix filename content scene md5_text path e in
      let rel = relative_of base filename in
      let (named, how) = SavedUnder-of_save d d' suffix content scene rel path under in
      let there =
        there_after d d' suffix (path_append (path_append config.root_dir scene) rel) content how in
      rw (m, save_file) (rw (there, save_under) (rw named))
