-- ===== src/Metadata/Catalogue.antt =====
-- What the metadata store promises, without keys, texts and indices: a catalogue of the files, each
-- under its own MD5.
use mathlib.Core.Path.{subst}
use cdfs.Base.{
  ℕ, ◌+◌, ◌≡◌, refl, sym, ap, ◌∙◌, Bool, true, false, Bool-cases, inl, inr, Option, none, some,
  List, [], ◌∷◌, arith, if◌then◌else◌, Bytes, bytes_eq, bytes_eq_iff, length, All,
}
use cdfs.MetaFile.{FileStatus, MetaFile, stored}
use cdfs.Metadata.Statistics.{sum_sizes}

abbrev pub find : Bytes → List MetaFile → Option MetaFile
find md5 [] = none
find md5 (m ∷ ms) = if bytes_eq m.md5 md5 then some m else find md5 ms

-- The catalogue without the file.
abbrev pub without : Bytes → List MetaFile → List MetaFile
without md5 [] = []
without md5 (m ∷ ms) = let rest = without md5 ms in if bytes_eq m.md5 md5 then ms else m ∷ rest

-- A file as it is stored, with another status.
abbrev pub changed : FileStatus → MetaFile → MetaFile
changed status m = record (stored m) { status = status }

abbrev pub with_status : Bytes → FileStatus → List MetaFile → List MetaFile
with_status md5 status [] = []
with_status md5 status (m ∷ ms) =
    let rest = with_status md5 status ms in
    if bytes_eq m.md5 md5 then changed status m ∷ ms else m ∷ rest

-- No two files have one MD5.
abbrev pub Distinct : List MetaFile → Type 0
Distinct [] = Unit
Distinct (m ∷ ms) = (find m.md5 ms ≡ none) × Distinct ms

-- What the operations are asked for.
pub data Request : Type 0 where
  save : MetaFile → Request
  remove : Bytes → Request
  update : MetaFile → Request
  mark : ℕ → Bytes → Bytes → Request
  set_status : Bytes → FileStatus → Request

module _ (can_fail : Bool) where
  -- What an operation may answer and leave. Where writes can fail, an
  -- operation may answer `false` and leave all as it was.
  pub data Does : Request → List MetaFile → Bool → List MetaFile → Type 0 where
    kept :
        {m x : MetaFile} {files : List MetaFile}
        → find m.md5 files ≡ some x
        → Does (save m) files true files
    added :
        {m : MetaFile} {files : List MetaFile}
        → find m.md5 files ≡ none
        → Does (save m) files true (m ∷ files)
    missing :
        {md5 : Bytes} {files : List MetaFile}
        → find md5 files ≡ none
        → Does (remove md5) files false files
    removed :
        {md5 : Bytes} {x : MetaFile} {files : List MetaFile}
        → find md5 files ≡ some x
        → Does (remove md5) files true (without md5 files)
    unwritten : {r : Request} {files : List MetaFile} → can_fail ≡ true → Does r files false files
    replaced :
        {m : MetaFile} {files files1 files2 : List MetaFile} {b c : Bool}
        → Does (remove m.md5) files b files1
        → Does (save m) files1 c files2
        → Does (update m) files c files2
    unknown :
        {md5 : Bytes} {status : FileStatus} {files : List MetaFile}
        → find md5 files ≡ none
        → Does (set_status md5 status) files false files
    altered :
        {md5 : Bytes} {status : FileStatus} {x : MetaFile} {files : List MetaFile}
        → find md5 files ≡ some x
        → Does (set_status md5 status) files true (with_status md5 status files)
    marked :
        {index : ℕ} {md5 shard_md5 : Bytes} {files : List MetaFile}
        → Does (mark index md5 shard_md5) files true files

  -- One request after the other, with their answers.
  pub data DoesAll : List Request → List MetaFile → List Bool → List MetaFile → Type 0 where
    done : {files : List MetaFile} → DoesAll [] files [] files
    more :
        {r : Request} {rs : List Request} {files files1 files2 : List MetaFile} {b : Bool}
        {bs : List Bool}
        → Does r files b files1
        → DoesAll rs files1 bs files2
        → DoesAll (r ∷ rs) files (b ∷ bs) files2

find_other :
    (md5 k : Bytes) (ms : List MetaFile)
    → bytes_eq md5 k ≡ true
    → find md5 ms ≡ none
    → find k ms ≡ none
find_other md5 k ms e h = ap (λ x. find x ms) (sym ((bytes_eq_iff md5 k).0 e)) ∙ h

pub apart :
    (a md5 k : Bytes) → bytes_eq a md5 ≡ false → bytes_eq a k ≡ true → bytes_eq md5 k ≡ false
apart a md5 k f t = ground (arith, bytes_eq_iff a md5, bytes_eq_iff a k, bytes_eq_iff md5 k)

pub same_test : (a md5 k : Bytes) → bytes_eq a md5 ≡ true → bytes_eq a k ≡ bytes_eq md5 k
same_test a md5 k t = ap (λ x. bytes_eq x k) ((bytes_eq_iff a md5).0 t)

pub find-without :
    (md5 k : Bytes) (files : List MetaFile)
    → Distinct files
    → find k (without md5 files) ≡ (if bytes_eq md5 k then none else find k files)
find-without md5 k [] d = ground arith
find-without md5 k (m ∷ ms) (new, d) = elim (Bool-cases (bytes_eq m.md5 md5)) [
  | inl t ↦ elim (Bool-cases (bytes_eq md5 k)) [
    | inl u ↦ rw t (rw u (find_other m.md5 k ms (same_test m.md5 md5 k t ∙ u) new))
    | inr u ↦ rw t (rw u (rw (same_test m.md5 md5 k t ∙ u) refl))
  ]
  | inr f ↦ elim (Bool-cases (bytes_eq m.md5 k)) [
    | inl u ↦ rw f (rw u (rw (apart m.md5 md5 k f u) refl))
    | inr u ↦ rw f (rw u (find-without md5 k ms d))
  ]
]

pub without-Distinct :
    (md5 : Bytes) (files : List MetaFile) → Distinct files → Distinct (without md5 files)
without-Distinct md5 [] d = tt
without-Distinct md5 (m ∷ ms) (new, d) = elim (Bool-cases (bytes_eq m.md5 md5)) [
  | inl t ↦ rw t d
  | inr f ↦ rw f (
    (find-without md5 m.md5 ms d
        ∙ ap (λ o. if bytes_eq md5 m.md5 then none else o) new
        ∙ same (bytes_eq md5 m.md5)),
    without-Distinct md5 ms d,
  )
]
  where
    nothing : Option MetaFile
    nothing = none

    same : (b : Bool) → (if b then nothing else nothing) ≡ nothing
    same true = refl
    same false = refl

some_injective : {a b : MetaFile} → some a ≡ some b → a ≡ b
some_injective e = cc

module _ (P : MetaFile → Type 0) where
  pub All-without : (md5 : Bytes) (files : List MetaFile) → All P files → All P (without md5 files)
  All-without md5 [] h = tt
  All-without md5 (m ∷ ms) (p, h) = elim (Bool-cases (bytes_eq m.md5 md5)) [
    | inl t ↦ rw t h
    | inr f ↦ rw f (p, All-without md5 ms h)
  ]

  pub All-find :
      (md5 : Bytes) (files : List MetaFile) (x : MetaFile)
      → All P files
      → find md5 files ≡ some x
      → P x × (x.md5 ≡ md5)
  All-find md5 [] x h e = absurd (cc e)
  All-find md5 (m ∷ ms) x (p, h) e = elim (Bool-cases (bytes_eq m.md5 md5)) [
    | inl t ↦
        let same : m ≡ x = some_injective (rw t at e) in
        (subst P same p, sym (ap (λ (y : MetaFile). y.md5) same) ∙ (bytes_eq_iff m.md5 md5).0 t)
    | inr f ↦ All-find md5 ms x h (rw f at e)
  ]

-- A file that is taken out was counted.
pub record IsCountedOut (x : MetaFile) (files rest : List MetaFile) : Type 0 where
  pub one : length files ≡ length rest + 1
  pub size : sum_sizes files ≡ sum_sizes rest + x.size

pub without-IsCountedOut :
    (md5 : Bytes) (files : List MetaFile) (x : MetaFile)
    → find md5 files ≡ some x
    → IsCountedOut x files (without md5 files)
unfolding sum_sizes
without-IsCountedOut md5 [] x e = absurd (cc e)
without-IsCountedOut md5 (m ∷ ms) x e = elim (Bool-cases (bytes_eq m.md5 md5)) [
  | inl t ↦
      let same : m ≡ x = some_injective (rw t at e) in
      rw t (record { one = omega arith; size = omega (arith, ap (λ (y : MetaFile). y.size) same) })
  | inr f ↦
      let rest = without-IsCountedOut md5 ms x (rw f at e) in
      rw f (record { one = omega (arith, rest.one); size = omega (arith, rest.size) })
]
