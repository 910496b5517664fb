-- ===== src/Metadata/Shards.antt =====
-- The uploaded shards of a file, which `save_meta_shard` marks and `get_uploaded_shard` lists.
use mathlib.Core.List.{Memᴰ}
use cdfs.Base.{
  ℕ, ◌%◌, ◌^◌, ◌<◌, ◌≡◌, sym, ap, ◌∙◌, ◌⊎◌, ◌↔◌, inl, inr, Bool, true, false, some, [], ◌∷◌, ◌++◌,
  arith, if◌then◌else◌, Bool-cases, Option-cases, Bytes, bytes_eq, bytes_eq_iff, bytes_eq_refl,
  drop, length, is_empty, to_string, stoul, stoul-to_string, drop-length-append, codes,
  bytes_eq-append,
}
use cdfs.Database.{put, LevelDb, seek}
use cdfs.Database.Scan.{
  with_prefix, run_of_prefix-seek, Memᴰ_of_lookup, lookup_of_Memᴰ, of_with_prefix, to_with_prefix,
}
use cdfs.MetaFile.{Codec}
use cdfs.Metadata.{MetadataStore, shard_prefix, get_uploaded_shard, save_meta_shard}
use cdfs.Metadata.Indices.{
  starts_with_append, split_of_starts_with, indices, scan_shards-eq-indices, of_indices, to_indices,
}

module _ (L : LevelDb) (C : Codec) where
  -- A key of the store marks a shard of the file as uploaded.
  pub record IsUploaded (file : Bytes) (index : ℕ) (s : MetadataStore L) : Type 0 where
    pub rest : Bytes
    pub value : Bytes
    pub stored : L.get s.db (shard_prefix file ++ rest) ≡ some value
    pub number : ℕ
    pub reads : stoul rest ≡ some number
    pub cut : index ≡ number % 2 ^ 32

  listed :
      (file : Bytes) (s : MetadataStore L)
      → is_empty file ≡ false
      → get_uploaded_shard L C file s
        ≡ indices (length (shard_prefix file)) (with_prefix (shard_prefix file) (L.entries s.db))
  unfolding get_uploaded_shard
  listed file s some_file = rw some_file (
      scan_shards-eq-indices (shard_prefix file) (seek (shard_prefix file) (L.entries s.db))
      ∙ ap (indices (length (shard_prefix file)))
          (run_of_prefix-seek (shard_prefix file) (L.entries s.db) (L.entries-IsOrdered s.db)))

  IsUploaded-of_listed :
      (file : Bytes) (index : ℕ) (s : MetadataStore L)
      → Memᴰ index
          (indices (length (shard_prefix file)) (with_prefix (shard_prefix file) (L.entries s.db)))
      → IsUploaded file index s
  IsUploaded-of_listed file index s m =
      let p = shard_prefix file in
      let (e, found, numbered) = of_indices (length p) index (with_prefix p (L.entries s.db)) m in
      let (o, starts) = of_with_prefix p e (L.entries s.db) found in
      record {
        rest = drop (length p) e.0;
        value = e.1;
        stored =
            ap (L.get s.db) (sym (split_of_starts_with p e.0 starts))
            ∙ sym (L.lookup-entries s.db e.0)
            ∙ lookup_of_Memᴰ e.0 e.1 (L.entries s.db) (L.entries-IsOrdered s.db) o;
        number = numbered.number;
        reads = numbered.reads;
        cut = numbered.cut;
      }

  listed_of_IsUploaded :
      (file : Bytes) (index : ℕ) (s : MetadataStore L)
      → IsUploaded file index s
      → Memᴰ index
          (indices (length (shard_prefix file)) (with_prefix (shard_prefix file) (L.entries s.db)))
  listed_of_IsUploaded file index s u =
      let p = shard_prefix file in
      let key = p ++ u.rest in
      to_indices (length p) index (key, u.value) (with_prefix p (L.entries s.db))
        (to_with_prefix p (key, u.value) (L.entries s.db)
          (Memᴰ_of_lookup key u.value (L.entries s.db) (L.lookup-entries s.db key ∙ u.stored))
          (starts_with_append p u.rest))
        (record {
          number = u.number;
          reads = ap stoul (drop-length-append p u.rest) ∙ u.reads;
          cut = u.cut;
        })

  pub get_uploaded_shard_iff :
      (file : Bytes) (index : ℕ) (s : MetadataStore L)
      → is_empty file ≡ false
      → Memᴰ index (get_uploaded_shard L C file s) ↔ IsUploaded file index s
  get_uploaded_shard_iff file index s some_file = (
    (λ m. IsUploaded-of_listed file index s (rw (listed file s some_file) at m)),
    (λ u. rw (listed file s some_file) (listed_of_IsUploaded file index s u)),
  )

  -- The key that a save writes, and what it leaves of the others.
  get_of_save_meta_shard :
      (shard_index : ℕ) (file shard_md5 : Bytes) (s s' : MetadataStore L)
      → save_meta_shard L C shard_index file shard_md5 s ≡ (s', true)
      → (value : Bytes) × ((rest : Bytes)
          → L.get s'.db (shard_prefix file ++ rest) ≡ (
              if bytes_eq (to_string shard_index) rest
              then some value
              else L.get s.db (shard_prefix file ++ rest)))
  unfolding save_meta_shard
  get_of_save_meta_shard shard_index file shard_md5 s s' e =
      let p = shard_prefix file in
      let value = if is_empty shard_md5 then codes "1" else shard_md5 in
      let ops = put (p ++ to_string shard_index) value ∷ [] in
      elim (Option-cases (L.write s.db ops)) [
        | inl failed ↦
            let got : save_meta_shard L C shard_index file shard_md5 s ≡ (s, false) =
              rw (failed, save_meta_shard) in
            absurd (cc (ap (λ (r : MetadataStore L × Bool). r.1) (sym got ∙ e)))
        | inr (db', written) ↦
            let got : save_meta_shard L C shard_index file shard_md5 s
                ≡ (record s { db = db' }, true) =
              rw (written, save_meta_shard) in
            let same = ap (λ (r : MetadataStore L × Bool). r.0.db) (sym got ∙ e) in
            (
              value,
              λ rest.
                  L.get-write s.db s'.db ops (p ++ rest) (written ∙ ap some same)
                  ∙ rw (bytes_eq-append p (to_string shard_index) rest),
            )
      ]

  save_lists :
      (shard_index : ℕ) (file : Bytes) (index : ℕ) (s s' : MetadataStore L) (value : Bytes)
      → shard_index < 2 ^ 32
      → ((rest : Bytes)
          → L.get s'.db (shard_prefix file ++ rest) ≡ (
              if bytes_eq (to_string shard_index) rest
              then some value
              else L.get s.db (shard_prefix file ++ rest)))
      → IsUploaded file index s'
      → (index ≡ shard_index) ⊎ IsUploaded file index s
  save_lists shard_index file index s s' value small gets u =
      elim (Bool-cases (bytes_eq (to_string shard_index) u.rest)) [
        | inl same ↦
            let reads : some shard_index ≡ some u.number =
              sym (stoul-to_string shard_index (omega arith))
              ∙ ap stoul ((bytes_eq_iff (to_string shard_index) u.rest).0 same)
              ∙ u.reads in
            let number : shard_index ≡ u.number = cc reads in inl (omega (arith, u.cut, number))
        | inr other ↦ inr (record {
          rest = u.rest;
          value = u.value;
          stored = rw other at (sym (gets u.rest) ∙ u.stored);
          number = u.number;
          reads = u.reads;
          cut = u.cut;
        })
      ]

  save_keeps :
      (shard_index : ℕ) (file : Bytes) (index : ℕ) (s s' : MetadataStore L) (value : Bytes)
      → shard_index < 2 ^ 32
      → ((rest : Bytes)
          → L.get s'.db (shard_prefix file ++ rest) ≡ (
              if bytes_eq (to_string shard_index) rest
              then some value
              else L.get s.db (shard_prefix file ++ rest)))
      → (index ≡ shard_index) ⊎ IsUploaded file index s
      → IsUploaded file index s'
  save_keeps shard_index file index s s' value small gets (inl same) = record {
    rest = to_string shard_index;
    value = value;
    stored = gets (to_string shard_index) ∙ rw (bytes_eq_refl (to_string shard_index));
    number = shard_index;
    reads = stoul-to_string shard_index (omega arith);
    cut = omega (arith, same);
  }
  save_keeps shard_index file index s s' value small gets (inr u) =
      elim (Bool-cases (bytes_eq (to_string shard_index) u.rest)) [
        | inl t ↦ record {
          rest = u.rest;
          value = value;
          stored = gets u.rest ∙ rw t;
          number = u.number;
          reads = u.reads;
          cut = u.cut;
        }
        | inr f ↦ record {
          rest = u.rest;
          value = u.value;
          stored = gets u.rest ∙ rw f u.stored;
          number = u.number;
          reads = u.reads;
          cut = u.cut;
        }
      ]

  -- Where a shard whose index fits 32 bits is saved for a file text that is not empty, the file's
  -- uploaded shards are afterwards the shard and those that it had before, and no others.
  pub get_uploaded_shard-save_meta_shard :
      (shard_index : ℕ) (file shard_md5 : Bytes) (s s' : MetadataStore L)
      → shard_index < 2 ^ 32
      → is_empty file ≡ false
      → save_meta_shard L C shard_index file shard_md5 s ≡ (s', true)
      → (index : ℕ)
      → Memᴰ index (get_uploaded_shard L C file s')
        ↔ ((index ≡ shard_index) ⊎ Memᴰ index (get_uploaded_shard L C file s))
  get_uploaded_shard-save_meta_shard shard_index file shard_md5 s s' small some_file e index =
      let (value, gets) = get_of_save_meta_shard shard_index file shard_md5 s s' e in
      let now = get_uploaded_shard_iff file index s' some_file in
      let earlier = get_uploaded_shard_iff file index s some_file in
      (
        (λ m. elim (save_lists shard_index file index s s' value small gets (now.0 m)) [
          | inl same ↦ inl same
          | inr u ↦ inr (earlier.1 u)
        ]),
        (λ h. now.1 (
            save_keeps shard_index file index s s' value small gets
              (elim h [ inl same ↦ inl same | inr m ↦ inr (earlier.0 m) ]))),
      )
