-- ===== src/FileCtl/Uploads.antt =====
-- The counter of uploads that run at once, over a sequence of uploads.
use cdfs.Base.{
  ℕ, ◌+◌, ◌≤◌, ◌≡◌, refl, ◌⊎◌, inl, inr, true, Option, none, some, List, [], ◌∷◌, arith, leb,
  if◌then◌else◌, Bool-cases, Option-cases, Bytes, codes, length, is_empty, Result, ok, throws,
  Exception,
}
use cdfs.Multipart.{MultipartForm, get_param}
use cdfs.Context.{bad_request, StringResponse, HttpContext, error, get_form, is_multipart}
use cdfs.Crypto.{md5, check_file_ext}
use cdfs.Disk.{Disk}
use cdfs.FileStore.{save_file}
use cdfs.Database.{LevelDb}
use cdfs.MetaFile.{MetaFile}
use cdfs.FileCtl.{
  ServerState, Services, store_meta, caught, upload_file, upload_form, known_meta, handle_upload,
}

module _ (L : LevelDb) (v : Services) where
  -- The counter that a step leaves.
  abbrev Counts : ServerState L × Result StringResponse → ℕ → Type 0
  Counts r n = r.0.concurrent_uploads ≡ n

  store_meta-Counts :
      (ctx : HttpContext) (s : ServerState L) (name : Bytes) (file_path : Option Bytes)
      (meta_at : Bytes → MetaFile)
      → Counts (store_meta L v ctx s name file_path meta_at) s.concurrent_uploads
  unfolding store_meta
  store_meta-Counts ctx s [] file_path meta_at = refl
  store_meta-Counts ctx s (c ∷ name) none meta_at = refl
  store_meta-Counts ctx s (c ∷ name) (some path) meta_at = refl

  caught-Counts :
      (ctx : HttpContext) (r : ServerState L × Result StringResponse) (n : ℕ)
      → Counts r n
      → Counts (caught L v ctx r) n
  caught-Counts ctx (s, ok response) n h = h
  caught-Counts ctx (s, throws e) n h = h

  Saved-cases :
      (r : Result (Disk × Option Bytes))
      → ((e : Exception) × (r ≡ throws e)) ⊎ ((d : Disk) × (p : Option Bytes) × (r ≡ ok (d, p)))
  Saved-cases (throws e) = inl (e, refl)
  Saved-cases (ok (d, p)) = inr (d, p, refl)

  upload_file-Counts :
      (ctx : HttpContext) (s : ServerState L) (form : MultipartForm) (suffix : Bytes) (now : ℕ)
      → Counts (upload_file L v ctx s form suffix now) s.concurrent_uploads
  unfolding upload_file
  upload_file-Counts ctx s form suffix now =
      elim (Saved-cases (
        save_file v.device v.store_config v.digest s.disk suffix form.filename form.content
          (get_param form (codes "scene") (codes "default")) (md5 v.digest form.content))) [
            | inl (e, f) ↦ rw (f, upload_file)
            | inr (d, p, f) ↦ rw (f, upload_file) (store_meta-Counts ctx _ _ p _)
          ]

  upload_form-Counts :
      (ctx : HttpContext) (s : ServerState L) (suffix : Bytes) (now : ℕ)
      → Counts (upload_form L v ctx s suffix now) s.concurrent_uploads
  unfolding upload_form
  upload_form-Counts ctx s suffix now =
      let form = (get_form ctx).0 in
      elim (Bool-cases (is_multipart ctx)) [
        | inr f ↦ rw f
        | inl t ↦ elim (Bool-cases (is_empty form.content)) [
          | inl e ↦ rw t (rw e)
          | inr n ↦
              elim (Bool-cases (check_file_ext form.filename v.store_config.allow_extensions)) [
                | inr f ↦ rw t (rw n (rw f))
                | inl a ↦ rw t (
                    rw n (
                      rw a (
                        caught-Counts ctx _ s.concurrent_uploads
                          (upload_file-Counts ctx s form suffix now))))
              ]
        ]
      ]

  -- An upload, served or refused for any reason, adds one to the counter, but at twenty, where it
  -- is refused as busy and leaves it: no upload takes the counter down.
  concurrent_uploads-handle_upload :
      (ctx : HttpContext) (s : ServerState L) (suffix : Bytes) (now : ℕ)
      → (handle_upload L v ctx s suffix now).0.concurrent_uploads
        ≡ (if leb 20 s.concurrent_uploads then s.concurrent_uploads else s.concurrent_uploads + 1)
  unfolding handle_upload
  concurrent_uploads-handle_upload ctx s suffix now =
      elim (Bool-cases (leb 20 s.concurrent_uploads)) [
        | inl t ↦ rw t
        | inr f ↦ elim (Option-cases (known_meta L v ctx s)) [
          | inr (m, e) ↦ rw (f, handle_upload) (rw e)
          | inl e ↦ rw (f, handle_upload) (rw e (upload_form-Counts ctx _ suffix now))
        ]
      ]

  -- What an upload brings: its request, the suffix drawn, and the time.
  pub record Upload : Type 0 where
    pub ctx : HttpContext
    pub suffix : Bytes
    pub now : ℕ

  -- The state after a sequence of uploads, each of which has been answered before the next.
  unfoldable pub upload_all : List Upload → ServerState L → ServerState L
  upload_all [] s = s
  upload_all (u ∷ us) s = upload_all us (handle_upload L v u.ctx s u.suffix u.now).0

  count_all :
      (us : List Upload) (s : ServerState L)
      → 20 ≤ s.concurrent_uploads + length us
      → 20 ≤ (upload_all us s).concurrent_uploads
  unfolding upload_all
  count_all [] s h = omega arith
  count_all (u ∷ us) s h =
      let next = concurrent_uploads-handle_upload u.ctx s u.suffix u.now in
      count_all us (handle_upload L v u.ctx s u.suffix u.now).0 (ground (arith, next))

  -- After twenty uploads, whatever they were and however they ended, every further one is answered
  -- that the server is busy, and changes nothing, although no other upload runs.
  pub handle_upload-upload_all :
      (us : List Upload) (s : ServerState L) (ctx : HttpContext) (suffix : Bytes) (now : ℕ)
      → 20 ≤ length us
      → handle_upload L v ctx (upload_all us s) suffix now
        ≡ (upload_all us s, error v.dump ctx (codes "Server busy, too many uploads") bad_request)
  unfolding handle_upload
  handle_upload-upload_all us s ctx suffix now h =
      let many = count_all us s (omega arith) in
      let busy : leb 20 (upload_all us s).concurrent_uploads ≡ true = ground arith in
      rw (busy, handle_upload)
