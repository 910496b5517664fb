-- ===== src/Metadata/Statuses.antt =====
-- What a change of a status does to the catalogue.
use mathlib.Core.Option
use cdfs.Base.{
  ◌≡◌, refl, ◌∙◌, false, Bool-cases, inl, inr, List, [], ◌∷◌, arith, if◌then◌else◌, Bytes, bytes_eq,
  bytes_eq_iff, length, All,
}
use cdfs.MetaFile.{FileStatus, MetaFile, stored}
use cdfs.Metadata.Statistics.{sum_sizes}
use cdfs.Metadata.Catalogue.{find, Distinct, changed, with_status, apart, same_test}

pub find-with_status :
    (md5 k : Bytes) (status : FileStatus) (files : List MetaFile)
    → find k (with_status md5 status files)
      ≡ (if bytes_eq md5 k then Option.map (changed status) (find md5 files) else find k files)
unfolding stored
find-with_status md5 k status [] = ground arith
find-with_status md5 k status (m ∷ ms) = elim (Bool-cases (bytes_eq m.md5 md5)) [
  | inl t ↦ elim (Bool-cases (bytes_eq md5 k)) [
    | inl u ↦ rw t (rw u (rw (same_test m.md5 md5 k t ∙ u) refl))
    | inr u ↦ rw t (rw u (rw (same_test m.md5 md5 k t ∙ u) refl))
  ]
  | inr f ↦ elim (Bool-cases (bytes_eq m.md5 k)) [
    | inl u ↦ rw f (rw u (rw (apart m.md5 md5 k f u) refl))
    | inr u ↦ rw f (rw u (find-with_status md5 k status ms))
  ]
]

pub with_status-Distinct :
    (md5 : Bytes) (status : FileStatus) (files : List MetaFile)
    → Distinct files
    → Distinct (with_status md5 status files)
unfolding stored
with_status-Distinct md5 status [] d = tt
with_status-Distinct md5 status (m ∷ ms) (new, d) = elim (Bool-cases (bytes_eq m.md5 md5)) [
  | inl t ↦ rw t (new, d)
  | inr f ↦ rw f (
    find-with_status md5 m.md5 status ms ∙ rw (bytes_eq_sym m.md5 md5 f) new,
    with_status-Distinct md5 status ms d,
  )
]
  where
    bytes_eq_sym : (a b : Bytes) → bytes_eq a b ≡ false → bytes_eq b a ≡ false
    bytes_eq_sym a b h = ground (arith, bytes_eq_iff a b, bytes_eq_iff b a)

pub All-with_status :
    (P : MetaFile → Type 0) (md5 : Bytes) (status : FileStatus) (files : List MetaFile)
    → ((m : MetaFile) → P m → P (changed status m))
    → All P files
    → All P (with_status md5 status files)
All-with_status P md5 status [] keeps h = tt
All-with_status P md5 status (m ∷ ms) keeps (p, h) = elim (Bool-cases (bytes_eq m.md5 md5)) [
  | inl t ↦ rw t (keeps m p, h)
  | inr f ↦ rw f (p, All-with_status P md5 status ms keeps h)
]

-- The number of the files and the sum of their sizes stay.
pub record IsCountedAlike (files rest : List MetaFile) : Type 0 where
  pub number : length files ≡ length rest
  pub size : sum_sizes files ≡ sum_sizes rest

pub with_status-IsCountedAlike :
    (md5 : Bytes) (status : FileStatus) (files : List MetaFile)
    → IsCountedAlike (with_status md5 status files) files
unfolding sum_sizes stored
with_status-IsCountedAlike md5 status [] = record { number = refl; size = refl }
with_status-IsCountedAlike md5 status (m ∷ ms) = elim (Bool-cases (bytes_eq m.md5 md5)) [
  | inl t ↦ rw t (record { number = refl; size = refl })
  | inr f ↦
      let rest = with_status-IsCountedAlike md5 status ms in
      rw f (record { number = omega (arith, rest.number); size = omega (arith, rest.size) })
]
