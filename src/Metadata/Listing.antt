-- ===== src/Metadata/Listing.antt =====
-- The page of a scene's files that `list_dir` returns.
use mathlib.Core.Path.{ap₂}
use cdfs.Base.{
  ℤ, pos, negsuc, ℕ, zero, suc, ◌+◌, ◌-◌, ◌<◌, ◌≡◌, refl, sym, ap, ◌∙◌, inl, inr, false, none, some,
  List, [], ◌∷◌, ◌++◌, codes, arith, ltb, if◌then◌else◌, Bool-cases, Option-cases, Bytes, take,
  drop, starts_with,
}
use cdfs.Database.{LevelDb, Entry, seek}
use cdfs.Database.Scan.{with_prefix, run_of_prefix, run_of_prefix-seek}
use cdfs.MetaFile.{MetaFile, Codec}
use cdfs.Metadata.{MetadataStore, is_full, scene_prefix, get_meta, list_entries, list_dir}

-- A limit below zero is none.
abbrev pub take_limit {ℓ} : {A : Type ℓ} → ℤ → List A → List A
take_limit (pos n) xs = take n xs
take_limit (negsuc n) xs = xs

drop-nil : (n : ℕ) → ◌≡◌ {A = List Entry} (drop n []) []
drop-nil zero = refl
drop-nil (suc n) = refl

take-nil : (n : ℕ) → ◌≡◌ {A = List MetaFile} (take n []) []
take-nil zero = refl
take-nil (suc n) = refl

module _ (L : LevelDb) (C : Codec) (s : MetadataStore L) where
  -- The metadata that the entries name, of those that have some that can be read.
  unfoldable pub readable : List Entry → List MetaFile
  readable [] = []
  readable (e ∷ es) = elim (get_meta L C e.1 s) [ none ↦ readable es | some m ↦ m ∷ readable es ]

  -- The loop of `list_dir` behind the entries that it skips.
  unfoldable list_from : ℤ → List Entry → ℕ → List MetaFile
  list_from limit [] fetched = []
  list_from limit (e ∷ es) fetched =
      let missing = if is_full fetched limit then [] else list_from limit es fetched in
      let found = if is_full (fetched + 1) limit then [] else list_from limit es (fetched + 1) in
      elim (get_meta L C e.1 s) [ none ↦ missing | some m ↦ m ∷ found ]

  list_entries-eq-list_from :
      (p : Bytes) (offset : ℕ) (limit : ℤ) (es : List Entry) (skipped fetched : ℕ)
      → list_entries L C p offset limit s es skipped fetched
        ≡ list_from limit (drop (offset - skipped) (run_of_prefix p es)) fetched
  unfolding list_entries run_of_prefix list_from
  list_entries-eq-list_from p offset limit [] skipped fetched = rw drop-nil
  list_entries-eq-list_from p offset limit (e ∷ es) skipped fetched =
      elim (Bool-cases (starts_with p e.0)) [
        | inr f ↦ rw f (rw drop-nil)
        | inl t ↦ elim (Bool-cases (ltb skipped offset)) [
          | inl skips ↦
              let n : offset - skipped ≡ suc (offset - (skipped + 1)) = ground arith in
              rw (t, skips)
                (rw n (list_entries-eq-list_from p offset limit es (skipped + 1) fetched))
          | inr takes ↦
              let n : offset - skipped ≡ 0 = ground arith in
              let ih : (f : ℕ)
                  → list_entries L C p offset limit s es skipped f
                    ≡ list_from limit (run_of_prefix p es) f =
                λ f. rw n at (list_entries-eq-list_from p offset limit es skipped f) in
              elim (Option-cases (get_meta L C e.1 s)) [
                | inl g ↦ rw (t, takes) (rw n (rw (g, list_from) (rw (ih fetched))))
                | inr (m, g) ↦ rw (t, takes) (rw n (rw (g, list_from) (rw (ih (fetched + 1)))))
              ]
        ]
      ]

  list_from-unlimited :
      (n : ℕ) (es : List Entry) (fetched : ℕ) → list_from (negsuc n) es fetched ≡ readable es
  unfolding list_from readable
  list_from-unlimited n [] fetched = refl
  list_from-unlimited n (e ∷ es) fetched = elim (Option-cases (get_meta L C e.1 s)) [
    | inl f ↦ rw (f, list_from, readable) (list_from-unlimited n es fetched)
    | inr (m, t) ↦
        rw (t, list_from, readable) (ap (λ r. m ∷ r) (list_from-unlimited n es (fetched + 1)))
  ]

  list_from-limited :
      (n : ℕ) (es : List Entry) (fetched : ℕ)
      → fetched < n
      → list_from (pos n) es fetched ≡ take (n - fetched) (readable es)
  unfolding list_from readable
  list_from-limited n [] fetched h = sym (take-nil (n - fetched))
  list_from-limited n (e ∷ es) fetched h = elim (Option-cases (get_meta L C e.1 s)) [
    | inl f ↦
        let open_yet : is_full fetched (pos n) ≡ false = ground arith in
        rw (f, list_from, readable) (rw open_yet (list_from-limited n es fetched h))
    | inr (m, t) ↦
        let one : n - fetched ≡ suc (n - (fetched + 1)) = ground arith in
        rw (t, list_from, readable)
          (rw one (
            ap (λ r. m ∷ r)
              (elim (Bool-cases (is_full (fetched + 1) (pos n))) [
                | inl full ↦
                    let none_left : n - (fetched + 1) ≡ 0 = ground arith in rw full (rw none_left)
                | inr more ↦ rw more (list_from-limited n es (fetched + 1) (ground arith))
              ])))
  ]

  page :
      (dir : Bytes) (offset : ℕ) (limit : ℤ)
      → list_entries L C
          (scene_prefix dir)
          offset
          limit
          s
          (seek (scene_prefix dir) (L.entries s.db))
          0
          0
        ≡ list_from limit (drop offset (with_prefix (scene_prefix dir) (L.entries s.db))) 0
  page dir offset limit =
      let p = scene_prefix dir in
      list_entries-eq-list_from p offset limit (seek p (L.entries s.db)) 0 0
      ∙ ap (λ x. list_from limit x 0)
          (ap₂ drop (omega arith)
            (run_of_prefix-seek p (L.entries s.db) (L.entries-IsOrdered s.db)))

  -- In rising order `list_dir` goes over the entries whose keys begin with SCENE:, the scene's name
  -- and a colon, in the order of the keys; the files of a scene whose name is this one with a colon
  -- and more behind it are among them. It passes over the first `offset`, takes the metadata of those
  -- behind that can be read, and stops at `limit` of them, or only at the last where the limit is
  -- below zero.
  pub list_dir-rising :
      (dir : Bytes) (offset : ℕ) (limit : ℤ)
      → list_dir L C dir (pos offset) limit 1 s
        ≡ take_limit limit (
            readable
              (drop offset (with_prefix (codes "SCENE:" ++ (dir ++ b':' ∷ [])) (L.entries s.db))))
  unfolding list_dir
  list_dir-rising dir offset (pos zero) = refl
  list_dir-rising dir offset (pos (suc n)) =
      let es = drop offset (with_prefix (scene_prefix dir) (L.entries s.db)) in
      let whole : suc n - 0 ≡ suc n = omega arith in
      page dir offset (pos (suc n))
      ∙ list_from-limited (suc n) es 0 (omega arith)
      ∙ ap (λ k. take k (readable es)) whole
  list_dir-rising dir offset (negsuc n) =
      page dir offset (negsuc n)
      ∙ list_from-unlimited n (drop offset (with_prefix (scene_prefix dir) (L.entries s.db))) 0
