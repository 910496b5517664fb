-- ===== src/Chunks/Merged.antt =====
-- What a merge that succeeds leaves on the disk.
use mathlib.Core.List.{append_assoc}
use cdfs.Base.{
  ◌≡◌, refl, sym, ap, ◌∙◌, inl, inr, true, false, none, some, List, [], ◌∷◌, ◌++◌, arith,
  Bool-cases, Option-cases, if◌then◌else◌, Bytes, bytes_eq, bytes_eq_iff, Dict, lookup, insert,
  erase, lookup-insert, lookup-insert_self, ℤ, pos, negsuc, int_text, to_string, to_string-digits,
  is_digit, is_at, All, Result, ok, throws, starts_with, starts_with-append, is_listed,
}
use cdfs.Paths.{slash, path_append, parent_path}
use cdfs.Disk.{Disk, Device, is_directory, create_directories}
use cdfs.FileStore.{can_output}
use cdfs.FileStore.Written.{create_directories-files}
use cdfs.Chunks.{
  DirectoryService, is_below, files_outside, directories_outside, remove_all, then_on, copy_chunks,
  write_merged, move_merged, clean_chunks,
}
use cdfs.Paths.Joins.{separator, path_append_relative}
use cdfs.Database.{LevelDb}
use cdfs.FileCtl.{Services}
use cdfs.Chunks.Merge.{temp_chunk_dir, merged_file, merge_disk}
use cdfs.Chunks.Copied.{until_empty, Chunks, copied}

pub lookup-files_outside :
    (dir p : Bytes) (files : Dict Bytes)
    → lookup p (files_outside dir files) ≡ (if is_below dir p then none else lookup p files)
unfolding files_outside lookup
lookup-files_outside dir p [] = ground arith
lookup-files_outside dir p ((q, c) ∷ files) =
    ground (arith, bytes_eq_iff q p, lookup-files_outside dir p files)

gone-directories_outside :
    (dir : Bytes) (ds : List Bytes) → is_listed dir (directories_outside dir ds) ≡ false
unfolding directories_outside is_listed
gone-directories_outside dir [] = refl
gone-directories_outside dir (q ∷ ds) =
    ground (arith, bytes_eq_iff q dir, gone-directories_outside dir ds)

-- A chain of steps that ends without an exception.
then_on-ok :
    (r : Disk × Result (Unit {0})) (next : Disk → Disk × Result (Unit {0})) (d' : Disk)
    → then_on r next ≡ (d', ok tt)
    → (d : Disk) × (r ≡ (d, ok tt)) × (next d ≡ (d', ok tt))
then_on-ok (d, throws e) next d' h = absurd (cc (ap (λ (r : Disk × Result (Unit {0})). r.1) h))
then_on-ok (d, ok tt) next d' h = (d, refl, h)

-- The disk once the merged file is opened.
abbrev pub opened : Disk → Bytes → Disk
opened d merged = record d { files = insert merged [] d.files }

module _ (sys : DirectoryService) (dev : Device) where
  abbrev ends_of : Disk × Result (Unit {0}) → Result (Unit {0})
  ends_of r = r.1

  write_merged-ok :
      (d d' : Disk) (dir merged : Bytes) (indices : List ℤ)
      → write_merged sys dev d dir merged indices ≡ (d', ok tt)
      → (cs : List Bytes) × Chunks dev (opened d merged) dir indices cs
        × (lookup merged d'.files ≡ some (sys.remains merged (until_empty cs)))
  unfolding write_merged
  write_merged-ok d d' dir merged indices e = elim (Bool-cases (can_output dev d merged)) [
    | inr shut ↦ absurd (cc (ap ends_of (rw shut at e)))
    | inl opens ↦
        let run =
          copy_chunks sys dev (opened d merged) dir (record { written = []; failed = false })
            indices in
        let e' = rw opens at e in
        let ends : run.1 ≡ ok tt = ap ends_of e' in
        let (cs, h, w) =
          copied dev (opened d merged) dir sys [] run.0 indices (ap (λ r. (run.0, r)) ends) in
        (
          cs,
          h,
          sym (ap (λ (r : Disk × Result (Unit {0})). lookup merged r.0.files) e')
              ∙ lookup-insert_self merged (sys.remains merged run.0.written) (opened d merged).files
              ∙ ap (λ x. some (sys.remains merged x)) w,
        )
  ]

  move_merged-ok :
      (d d' : Disk) (merged final_abs_path c : Bytes)
      → move_merged sys dev d merged final_abs_path ≡ (d', ok tt)
      → lookup merged d.files ≡ some c
      → lookup final_abs_path d'.files ≡ some c
  unfolding move_merged
  move_merged-ok d d' merged final_abs_path c e there =
      elim (Option-cases (create_directories dev d (parent_path final_abs_path))) [
        | inl f ↦ absurd (cc (ap ends_of (rw (f, move_merged) at e)))
        | inr (d1, made) ↦
            let e1 = rw (made, move_merged) at e in
            elim (Bool-cases (dev.can_rename merged final_abs_path)) [
              | inr f ↦ absurd (cc (ap ends_of (rw f at e1)))
              | inl t ↦
                  let files = create_directories-files dev d d1 (parent_path final_abs_path) made in
                  let same : lookup merged d1.files ≡ some c = ap (lookup merged) files ∙ there in
                  sym (
                    ap (λ (r : Disk × Result (Unit {0})). lookup final_abs_path r.0.files)
                      (rw t at e1))
                  ∙ lookup-insert_self final_abs_path _ (erase merged d1.files)
                  ∙ rw (same) refl
            ]
      ]

  clean_chunks-ok :
      (d d' : Disk) (dir : Bytes) → clean_chunks sys dev d dir ≡ (d', ok tt) → d' ≡ remove_all d dir
  unfolding clean_chunks
  clean_chunks-ok d d' dir e = elim (Bool-cases (sys.can_remove_all dir)) [
    | inr f ↦ absurd (cc (ap ends_of (rw f at e)))
    | inl t ↦ sym (ap (λ (r : Disk × Result (Unit {0})). r.0) (rw t at e))
  ]

digits_no_slash : (s : Bytes) → All (λ c. is_digit c ≡ true) s → is_at s 0 slash ≡ false
unfolding is_at
digits_no_slash [] h = refl
digits_no_slash (c ∷ s) (p, h) = ground arith

int_text_no_slash : (i : ℤ) → is_at (int_text i) 0 slash ≡ false
unfolding int_text is_at
int_text_no_slash (pos n) = digits_no_slash (to_string n) (to_string-digits n)
int_text_no_slash (negsuc n) = refl

-- The merged file does not stand among the chunks.
Chunks-before :
    (dev : Device) (d : Disk) (dir merged : Bytes) (is : List ℤ) (cs : List Bytes)
    → separator dir ≡ slash ∷ []
    → is_below dir merged ≡ false
    → Chunks dev (opened d merged) dir is cs
    → Chunks dev d dir is cs
unfolding is_below
Chunks-before dev d dir merged [] [] joins apart h = tt
Chunks-before dev d dir merged [] (c ∷ cs) joins apart h = h
Chunks-before dev d dir merged (i ∷ is) [] joins apart h = h
Chunks-before dev d dir merged (i ∷ is) (c ∷ cs) joins apart (there, opens, h) =
    (before, opens, Chunks-before dev d dir merged is cs joins apart h)
  where
    place : path_append dir (int_text i) ≡ (dir ++ slash ∷ []) ++ int_text i
    place =
        path_append_relative dir (int_text i) (int_text_no_slash i)
        ∙ ap (λ z. dir ++ (z ++ int_text i)) joins
        ∙ sym (append_assoc dir (slash ∷ []) (int_text i))

    below : starts_with (dir ++ slash ∷ []) (path_append dir (int_text i)) ≡ true
    below =
        ap (starts_with (dir ++ slash ∷ [])) place
        ∙ starts_with-append (dir ++ slash ∷ []) (int_text i)

    other : bytes_eq merged (path_append dir (int_text i)) ≡ false
    other = elim (Bool-cases (bytes_eq merged (path_append dir (int_text i)))) [
      | inr f ↦ f
      | inl t ↦ absurd (
          cc (
            sym apart ∙ ap (starts_with (dir ++ slash ∷ [])) ((bytes_eq_iff merged _).0 t) ∙ below))
    ]

    before : lookup (path_append dir (int_text i)) d.files ≡ some c
    before =
        sym (lookup-insert merged (path_append dir (int_text i)) [] d.files ∙ rw other refl) ∙ there

module _ (L : LevelDb) (v : Services) (sys : DirectoryService) where
  -- What steps 4 to 7 leave where none of them throws: the file at the final path, and no chunks.
  pub record IsMerged (d d' : Disk) (file_md5 final_abs_path : Bytes) (indices : List ℤ)
      : Type 0 where
    pub contents : List Bytes
    pub chunks : Chunks v.device d (temp_chunk_dir L v sys file_md5) indices contents
    pub there :
        lookup final_abs_path d'.files
        ≡ some (sys.remains (merged_file L v sys file_md5) (until_empty contents))
    pub gone : is_directory d' (temp_chunk_dir L v sys file_md5) ≡ false
    pub no_chunk :
        (p : Bytes) → is_below (temp_chunk_dir L v sys file_md5) p ≡ true → lookup p d'.files ≡ none

  -- Where the steps of the merge on the disk end without an exception, and neither the merged file
  -- nor the final one stands among the chunks: there was a file that can be read for every number,
  -- the final path holds what the device kept of their texts in the order of the numbers, up to the
  -- first empty one, and the directory of the chunks is gone, with all that was below it.
  pub merge_disk-IsMerged :
      (d d' : Disk) (file_md5 final_abs_path : Bytes) (indices : List ℤ)
      → let dir = temp_chunk_dir L v sys file_md5 in
        separator dir ≡ slash ∷ []
        → is_below dir (merged_file L v sys file_md5) ≡ false
        → is_below dir final_abs_path ≡ false
        → merge_disk L v sys d file_md5 final_abs_path indices ≡ (d', ok tt)
        → IsMerged d d' file_md5 final_abs_path indices
  unfolding merge_disk is_directory remove_all
  merge_disk-IsMerged d d' file_md5 final_abs_path indices joins apart outside e =
      let dir = temp_chunk_dir L v sys file_md5 in
      let merged = merged_file L v sys file_md5 in
      let (d2, two, three) = then_on-ok _ _ d' e in
      let (d1, one, moved) = then_on-ok _ _ d2 two in
      let (cs, chunks, kept) = write_merged-ok sys v.device d d1 dir merged indices one in
      let at_final = move_merged-ok sys v.device d1 d2 merged final_abs_path _ moved kept in
      let cleaned = clean_chunks-ok sys v.device d2 d' dir three in
      record {
        contents = cs;
        chunks = Chunks-before v.device d dir merged indices cs joins apart chunks;
        there =
            ap (λ (x : Disk). lookup final_abs_path x.files) cleaned
            ∙ lookup-files_outside dir final_abs_path d2.files
            ∙ ap (λ b. if b then none else lookup final_abs_path d2.files) outside
            ∙ at_final;
        gone =
            ap (λ (x : Disk). is_listed dir x.directories) cleaned
            ∙ gone-directories_outside dir d2.directories;
        no_chunk = λ p below.
            ap (λ (x : Disk). lookup p x.files) cleaned
            ∙ lookup-files_outside dir p d2.files
            ∙ ap (λ b. if b then none else lookup p d2.files) below;
      }
