-- ===== src/Chunks/Uploaded.antt =====
-- A chunk that was uploaded is listed.
use mathlib.Core.Path.{subst}
use mathlib.Core.List.{append_assoc}
use cdfs.Base.{
  ℕ, ◌≤◌, ◌≡◌, refl, sym, ap, ◌∙◌, inl, inr, Bool, true, false, ◌||◌, none, some, [], ◌∷◌, ◌++◌,
  arith, Option-cases, if◌then◌else◌, Bytes, codes, length, is_empty, Avoids, find_str, lookup,
  is_listed, ℤ, stoi, ok, Result-map-eq-ok,
}
use cdfs.Multipart.{get_param}
use cdfs.Context.{HttpContext, get_form}
use cdfs.Paths.{slash, path_append, parent_path, before_last}
use cdfs.Disk.{
  Disk, Device, is_directory, file_size, create_directories, wanted_for, remove, add_directories,
}
use cdfs.Disk.Directories.{is_listed-add_directories, create_directories-eq, wanted_for_self}
use cdfs.FileStore.{StoreConfig, write_disk, save_at}
use cdfs.FileStore.Written.{ok_injective, file_size-write_disk}
use cdfs.FileStore.Made.{write_disk-Grows}
use cdfs.Database.{LevelDb}
use cdfs.FileCtl.{ServerState, Services, handle_chunk_upload}
use cdfs.Chunks.{DirectoryService, get_shard_index}
use cdfs.Chunks.Merge.{upload_dir}
use cdfs.Chunks.Listed.{Occurs, GivesEntries, get_shard_index_iff}
use cdfs.Chunks.Places.{IsPlain, uploads_place}

before_last-Avoids : (c : ℕ) (s : Bytes) → Avoids c s → before_last c s ≡ none
unfolding before_last
before_last-Avoids c [] h = refl
before_last-Avoids c (b ∷ s) (p, h) = rw (before_last-Avoids c s h, before_last) (ground arith)

before_last-append : (c : ℕ) (s t : Bytes) → Avoids c t → before_last c (s ++ c ∷ t) ≡ some s
unfolding before_last
before_last-append c [] t h = rw (before_last-Avoids c t h, before_last) (ground arith)
before_last-append c (b ∷ s) t h = rw (before_last-append c s t h, before_last) refl

parent_path-entry :
    (dir name : Bytes)
    → 1 ≤ length dir
    → Avoids slash name
    → parent_path (dir ++ slash ∷ name) ≡ dir
unfolding parent_path
parent_path-entry [] name full plain = absurd (omega arith)
parent_path-entry (b ∷ r) name full plain =
    rw (before_last-append slash (b ∷ r) name plain, parent_path) refl

kept :
    (p : Bytes) (d' : Disk) (r : Disk × Bool)
    → ok (if r.1 then r else (remove r.0 p, false)) ≡ ok (d', true)
    → r ≡ (d', true)
kept p d' (x, true) e = ok_injective e
kept p d' (x, false) e = absurd (cc (ap (λ (r : Disk × Bool). r.1) (ok_injective e)))

module _ (dev : Device) (config : StoreConfig) where
  save_at-eq-true :
      (d d' : Disk) (suffix content rel_path : Bytes)
      → save_at dev config d suffix content rel_path ≡ ok (d', true)
      → let p = path_append config.root_dir rel_path in
        (d1 : Disk) × (create_directories dev d (parent_path p) ≡ some d1)
        × (write_disk dev d1 suffix p content ≡ ok (d', true))
  unfolding save_at
  save_at-eq-true d d' suffix content rel_path e =
      let p = path_append config.root_dir rel_path in
      let answer : Disk × Bool → Bool = λ r. r.1 in
      elim (Option-cases (find_str (codes "..") rel_path)) [
        | inr (n, f) ↦ absurd (cc (ap answer (ok_injective (rw (f, save_at) at e))))
        | inl plain ↦ elim (Option-cases (create_directories dev d (parent_path p))) [
          | inl f ↦ absurd (cc (ap answer (ok_injective (rw f at (rw (plain, save_at) at e)))))
          | inr (d1, made) ↦
              let (r, known, rest) =
                Result-map-eq-ok (write_disk dev d1 suffix p content) _
                  (rw made at (rw (plain, save_at) at e)) in
              (d1, made, known ∙ ap ok (kept p d' r rest))
        ]
      ]

  -- The file and its directory are there.
  save_at-there :
      (d d' : Disk) (suffix content rel_path dir name : Bytes)
      → save_at dev config d suffix content rel_path ≡ ok (d', true)
      → path_append config.root_dir rel_path ≡ dir ++ slash ∷ name
      → 1 ≤ length dir
      → Avoids slash name
      → (is_directory d' dir ≡ true) × (file_size d' (dir ++ slash ∷ name) ≡ ok (length content))
  unfolding is_directory
  save_at-there d d' suffix content rel_path dir name e place full plain =
      let (d1, made, written) = save_at-eq-true d d' suffix content rel_path e in
      let p = path_append config.root_dir rel_path in
      let above : parent_path p ≡ dir =
        ap parent_path place ∙ parent_path-entry dir name full plain in
      let made_dir = create_directories-eq dev d d1 (parent_path p) made in
      let listed : is_listed dir d1.directories ≡ true =
        ap (is_listed dir) (made_dir ∙ ap (λ q. add_directories (wanted_for q) d.directories) above)
        ∙ is_listed-add_directories dir (wanted_for dir) d.directories
        ∙ ap (λ b. b || is_listed dir d.directories) (wanted_for_self dir full) in
      (
        (write_disk-Grows dev d1 d' suffix p content true written).keeps dir listed,
        ap (file_size d') (sym place) ∙ file_size-write_disk dev d1 d' suffix p content written,
      )

file_of_size :
    (d : Disk) (p : Bytes) (n : ℕ)
    → file_size d p ≡ ok n
    → (c : Bytes) × (lookup p d.files ≡ some c)
unfolding file_size
file_of_size d p n e = elim (Option-cases (lookup p d.files)) [
  | inl gone ↦ absurd (cc (rw (gone, file_size) at e))
  | inr found ↦ found
]

chunk_place :
    (root temp file_md5 chunk : Bytes) (h : IsPlain root temp)
    → path_append root (temp ++ (codes "/" ++ (file_md5 ++ (codes "/" ++ chunk))))
      ≡ (root ++ (codes "/" ++ (temp ++ (codes "/" ++ file_md5)))) ++ slash ∷ chunk
chunk_place root temp file_md5 chunk h =
    let more = codes "/" ++ (file_md5 ++ (codes "/" ++ chunk)) in
    uploads_place root temp more h
    ∙ ap (λ z. root ++ (slash ∷ z)) (sym (append_assoc temp (slash ∷ file_md5) (slash ∷ chunk)))
    ∙ sym (append_assoc root (slash ∷ (temp ++ (slash ∷ file_md5))) (slash ∷ chunk))

module _ (L : LevelDb) (v : Services) (sys : DirectoryService) where
  -- A chunk of a file with a slash-free name that `std::stoi` reads as a number, uploaded to a plain
  -- root and temporary directory, and saved: the list that is given for the file then has the
  -- number, whatever else is in the directory.
  pub listed-handle_chunk_upload :
      (ctx : HttpContext) (s : ServerState L) (suffix : Bytes) (d : Disk) (index : ℤ)
      → let form = (get_form ctx).0 in
        let file_md5 = get_param form (codes "md5") [] in
        let chunk = get_param form (codes "chunk") [] in
        let temp = v.store_config.temp_dir in
        GivesEntries sys
        → IsPlain v.store_config.root_dir temp
        → (is_empty file_md5 || is_empty form.content || is_empty chunk) ≡ false
        → Avoids slash chunk
        → stoi chunk ≡ some index
        → save_at v.device v.store_config s.disk suffix form.content
            (temp ++ (codes "/" ++ (file_md5 ++ (codes "/" ++ chunk))))
          ≡ ok (d, true)
        → Occurs index (
            get_shard_index sys
              (handle_chunk_upload L v ctx s suffix).0.disk
              (upload_dir L v sys file_md5))
  unfolding handle_chunk_upload
  listed-handle_chunk_upload ctx s suffix d index gives h served plain reads saved =
      let form = (get_form ctx).0 in
      let file_md5 = get_param form (codes "md5") [] in
      let chunk = get_param form (codes "chunk") [] in
      let root = v.store_config.root_dir in
      let temp = v.store_config.temp_dir in
      let dir = upload_dir L v sys file_md5 in
      let more = codes "/" ++ (file_md5 ++ (codes "/" ++ chunk)) in
      let (is_dir, size) =
        save_at-there v.device v.store_config s.disk d suffix form.content (temp ++ more) dir chunk
          saved (chunk_place root temp file_md5 chunk h) (long root _) plain in
      let (content, there) = file_of_size d (dir ++ slash ∷ chunk) (length form.content) size in
      let after : (handle_chunk_upload L v ctx s suffix).0.disk ≡ d =
        rw served (rw (saved, handle_chunk_upload) refl) in
      subst (λ x. Occurs index (get_shard_index sys x dir)) (sym after)
        ((get_shard_index_iff sys d dir index gives is_dir).1 (record {
          name = chunk;
          content = content;
          is_name = (
            not_empty (is_empty file_md5) (is_empty form.content) (is_empty chunk) served,
            plain,
          );
          there = there;
          reads = reads;
        }))
    where
      long : (s t : Bytes) → 1 ≤ length (s ++ slash ∷ t)
      long [] t = omega arith
      long (b ∷ s) t = omega arith

      not_empty : (a b c : Bool) → (a || b || c) ≡ false → c ≡ false
      not_empty true b c e = cc
      not_empty false true c e = cc
      not_empty false false c e = e
