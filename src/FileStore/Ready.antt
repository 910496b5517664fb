-- ===== src/FileStore/Ready.antt =====
-- The directories that the constructor of the file store makes.
use cdfs.Base.{
  refl, ◌∙◌, ◌≤◌, ◌||◌, none, [], ◌∷◌, ◌++◌, All, Dict, Exception, throws, Result, Option, ◌≡◌, sym,
  ap, inl, inr, Bool, true, false, some, List, Bool-cases, Option-cases, Bytes, codes, length,
  is_listed, ok,
}
use cdfs.Disk.{Disk, Device, create_directories, wanted_for, can_make_path, is_directory}
use cdfs.Disk.Directories.{is_listed-add_directories, create_directories-eq, wanted_for_self}
use cdfs.FileStore.{StoreConfig, make_all, create}

create_directories-files :
    (dev : Device) (d d1 : Disk) (p : Bytes)
    → create_directories dev d p ≡ some d1
    → d1.files ≡ d.files
unfolding create_directories
create_directories-files dev d d1 p e = elim (Bool-cases (can_make_path dev d p)) [
  | inr f ↦ absurd (cc (rw f at e))
  | inl t ↦ sym (ap files_of (rw t at e))
]
  where
    files_of : Option Disk → Dict Bytes
    files_of none = d.files
    files_of (some x) = x.files

module _ (dev : Device) where
  -- The paths are directories, no directory has gone, and the files are as before.
  record IsReady (ps : List Bytes) (d d' : Disk) : Type 0 where
    there : All (λ p. 1 ≤ length p → is_directory d' p ≡ true) ps
    keeps : (j : Bytes) → is_listed j d.directories ≡ true → is_listed j d'.directories ≡ true
    files : d'.files ≡ d.files

  make_all-IsReady :
      (ps : List Bytes) (d d' : Disk) → make_all dev ps d ≡ (d', ok tt) → IsReady ps d d'
  unfolding make_all is_directory
  make_all-IsReady [] d d' e =
      let same : d ≡ d' = ap (λ (r : Disk × Result (Unit {0})). r.0) e in
      record {
        there = tt;
        keeps = λ j h. ap (λ (x : Disk). is_listed j x.directories) (sym same) ∙ h;
        files = ap (λ (x : Disk). x.files) (sym same);
      }
  make_all-IsReady (p ∷ ps) d d' e = elim (Option-cases (create_directories dev d p)) [
    | inl f ↦
        absurd (throws_ne_ok (ap (λ (r : Disk × Result (Unit {0})). r.1) (rw (f, make_all) at e)))
    | inr (d1, made) ↦
        let rest = make_all-IsReady ps d1 d' (rw (made, make_all) at e) in
        let grown = create_directories-eq dev d d1 p made in
        record {
          there = (
            (λ full. rest.keeps p (
                ap (is_listed p) grown
                ∙ is_listed-add_directories p (wanted_for p) d.directories
                ∙ either _ (wanted_for_self p full))),
            rest.there,
          );
          keeps = λ j h. rest.keeps j (
              ap (is_listed j) grown
              ∙ is_listed-add_directories j (wanted_for p) d.directories
              ∙ either_right _ h);
          files = rest.files ∙ create_directories-files dev d d1 p made;
        }
  ]
    where
      either : {a : Bool} (b : Bool) → a ≡ true → (a || b) ≡ true
      either b e = rw e refl

      either_right : (a : Bool) {b : Bool} → b ≡ true → (a || b) ≡ true
      either_right true e = refl
      either_right false e = e

      throws_ne_ok : {x : Exception} → ¬ (throws x ≡ ok (tt {0}))
      throws_ne_ok e = cc e

  -- The constructor, where it does not throw, leaves a root directory that is not empty, and its
  -- `_tmp` and `_big`, as directories; nothing that was on the disk before is gone.
  create-IsReady :
      (config : StoreConfig) (d d' : Disk)
      → create dev config d ≡ (d', ok tt)
      → IsReady
          (config.root_dir
            ∷ (config.root_dir ++ codes "/_tmp")
            ∷ (config.root_dir ++ codes "/_big")
            ∷ [])
          d
          d'
  unfolding create
  create-IsReady config d d' e = make_all-IsReady _ d d' e
