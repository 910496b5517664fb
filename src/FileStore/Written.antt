-- ===== src/FileStore/Written.antt =====
-- What is on the disk after a write.
use cdfs.Base.{
  ◌≡◌, sym, ap, ◌∙◌, ◌⊎◌, inl, inr, Bool, true, Option, none, some, ◌==◌, Bool-cases, Option-cases,
  ==_iff, Bytes, length, Dict, lookup, erase, lookup-insert_self, ok, Result-map-eq-ok,
}
use cdfs.Paths.{parent_path}
use cdfs.Disk.{Disk, Device, is_there, file_size, create_directories, can_make_path}
use cdfs.FileStore.{can_output, rename_checked, temp_of, made_or_same, write_new, write_disk}

pub ok_injective : {r s : Disk × Bool} → ok r ≡ ok s → r ≡ s
ok_injective e = cc e

module _ (dev : Device) where
  rename_checked-eq-true :
      (d d' : Disk) (temp p kept content : Bytes)
      → rename_checked dev d temp p kept content ≡ (d', true)
      → (lookup p d'.files ≡ some kept) × (length kept ≡ length content)
  unfolding rename_checked
  rename_checked-eq-true d d' temp p kept content e = elim (Bool-cases (dev.can_rename temp p)) [
    | inr f ↦ absurd (cc (ap (λ (r : Disk × Bool). r.1) (rw f at e)))
    | inl t ↦ elim (Bool-cases (length kept == length content)) [
      | inr f ↦ absurd (cc (ap (λ (r : Disk × Bool). r.1) (rw t at (rw f at e))))
      | inl same ↦ (
        sym (ap (λ (r : Disk × Bool). lookup p r.0.files) (rw t at (rw same at e)))
            ∙ lookup-insert_self p kept (erase temp d.files),
        (==_iff (length kept) (length content)).0 same,
      )
    ]
  ]

  -- The file that a write has made.
  pub record IsWritten (d' : Disk) (temp p content : Bytes) : Type 0 where
    pub kept : Bytes
    pub from_device : dev.keeps temp content ≡ some kept
    pub there : lookup p d'.files ≡ some kept
    pub same_length : length kept ≡ length content

  write_new-eq-true :
      (d d' : Disk) (suffix p content : Bytes)
      → write_new dev d suffix p content ≡ (d', true)
      → IsWritten d' (temp_of dev p suffix) p content
  unfolding write_new
  write_new-eq-true d d' suffix p content e =
      let temp = temp_of dev p suffix in
      let d1 = made_or_same dev (create_directories dev d (parent_path p)) d in
      elim (Bool-cases (can_output dev d1 temp)) [
        | inr f ↦ absurd (cc (ap (λ (r : Disk × Bool). r.1) (rw f at e)))
        | inl t ↦ elim (Option-cases (dev.keeps temp content)) [
          | inl f ↦ absurd (cc (ap (λ (r : Disk × Bool). r.1) (rw t at (rw f at e))))
          | inr (kept, k) ↦
              let (there, same) =
                rename_checked-eq-true _ d' temp p kept content (rw t at (rw k at e)) in
              record { kept = kept; from_device = k; there = there; same_length = same }
        ]
      ]

  pub create_directories-files :
      (d d1 : Disk) (p : Bytes) → create_directories dev d p ≡ some d1 → d1.files ≡ d.files
  unfolding create_directories
  create_directories-files d d1 p e = elim (Bool-cases (can_make_path dev d p)) [
    | inr f ↦ absurd (cc (rw f at e))
    | inl t ↦ sym (ap files_of (rw t at e))
  ]
    where
      files_of : Option Disk → Dict Bytes
      files_of none = d.files
      files_of (some x) = x.files

  pub write_disk-eq-true :
      (d d' : Disk) (suffix p content : Bytes)
      → write_disk dev d suffix p content ≡ ok (d', true)
      → ((d' ≡ d) × (file_size d p ≡ ok (length content)))
        ⊎ IsWritten d' (temp_of dev p suffix) p content
  unfolding write_disk
  write_disk-eq-true d d' suffix p content e = elim (Bool-cases (is_there d p)) [
    | inr f ↦ inr (write_new-eq-true d d' suffix p content (ok_injective (rw f at e)))
    | inl t ↦
        let (size, known, rest) = Result-map-eq-ok (file_size d p) _ (rw t at e) in
        elim (Bool-cases (size == length content)) [
          | inl same ↦ inl (
            sym (ap (λ (r : Disk × Bool). r.0) (ok_injective (rw same at rest))),
            known ∙ ap ok ((==_iff size (length content)).0 same),
          )
          | inr differs ↦
              inr (write_new-eq-true d d' suffix p content (ok_injective (rw differs at rest)))
        ]
  ]

  -- Where `write_disk` returns true, a file stands at the path, and it is as long as the content.
  pub file_size-write_disk :
      (d d' : Disk) (suffix p content : Bytes)
      → write_disk dev d suffix p content ≡ ok (d', true)
      → file_size d' p ≡ ok (length content)
  unfolding file_size
  file_size-write_disk d d' suffix p content e = elim (write_disk-eq-true d d' suffix p content e) [
    | inl (same, size) ↦ rw same size
    | inr w ↦ rw (w.there, file_size) (ap ok w.same_length)
  ]
