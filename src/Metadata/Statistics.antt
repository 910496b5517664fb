-- ===== src/Metadata/Statistics.antt =====
-- The statistics that `repair_stat` counts anew.
use cdfs.Base.{
  ℕ, ◌+◌, ◌%◌, ◌^◌, ◌<◌, ◌≡◌, ◌∙◌, inl, inr, List, [], ◌∷◌, arith, if◌then◌else◌, Bool-cases,
  length, Result, ok, throws,
}
use cdfs.Database.{LevelDb, Entry}
use cdfs.MetaFile.{MetaFile, SystemStat, Codec}
use cdfs.Metadata.{
  MetadataStore, is_md5, is_normal, count_added, deserialize, count_entry, count_entries,
  repair_stat, get_stat,
}

-- The sum of the sizes.
unfoldable pub sum_sizes : List MetaFile → ℕ
sum_sizes [] = 0
sum_sizes (m ∷ ms) = m.size + sum_sizes ms

module _ (L : LevelDb) (C : Codec) where
  abbrev keep_normal : Result MetaFile → List MetaFile → List MetaFile
  keep_normal (throws e) rest = rest
  keep_normal (ok m) rest = if is_normal m.status then m ∷ rest else rest

  -- The metadata under keys of 32 characters that can be read and whose status is normal.
  unfoldable pub normal_files : List Entry → List MetaFile
  normal_files [] = []
  normal_files (e ∷ es) =
      if is_md5 e.0 then keep_normal (deserialize L C e.1) (normal_files es) else normal_files es

  stat_of : SystemStat → List MetaFile → SystemStat
  stat_of stat ms = record {
    file_count = (stat.file_count + length ms) % 2 ^ 64;
    total_size = (stat.total_size + sum_sizes ms) % 2 ^ 64;
  }

  stat_ext : {a b : SystemStat} → a.file_count ≡ b.file_count → a.total_size ≡ b.total_size → a ≡ b
  stat_ext p q = λ i. record { file_count = p i; total_size = q i }

  stat_of_more :
      (stat : SystemStat) (m : MetaFile) (ms : List MetaFile)
      → stat_of (count_added stat m.size) ms ≡ stat_of stat (m ∷ ms)
  unfolding stat_of sum_sizes
  stat_of_more stat m ms = stat_ext (omega arith) (omega arith)

  Fits : SystemStat → Type 0
  Fits stat = (stat.file_count < 2 ^ 64) × (stat.total_size < 2 ^ 64)

  -- One entry, where the rest is counted rightly.
  count_entry-eq-stat_of :
      (rest : List MetaFile) (count_rest : SystemStat → SystemStat)
      → ((stat : SystemStat) → Fits stat → count_rest stat ≡ stat_of stat rest)
      → (r : Result MetaFile) (stat : SystemStat) → Fits stat
      → count_rest (count_entry L C r stat) ≡ stat_of stat (keep_normal r rest)
  unfolding Fits
  count_entry-eq-stat_of rest count_rest ih (throws x) stat h = ih stat h
  count_entry-eq-stat_of rest count_rest ih (ok m) stat h = elim (Bool-cases (is_normal m.status)) [
    | inl n ↦
        rw n (ih (count_added stat m.size) (omega arith, omega arith) ∙ stat_of_more stat m rest)
    | inr n ↦ rw n (ih stat h)
  ]

  count_entries-eq-stat_of :
      (es : List Entry) (stat : SystemStat)
      → Fits stat
      → count_entries L C es stat ≡ stat_of stat (normal_files es)
  unfolding count_entries normal_files stat_of sum_sizes Fits
  count_entries-eq-stat_of [] stat h = stat_ext (omega arith) (omega arith)
  count_entries-eq-stat_of (e ∷ es) stat h = elim (Bool-cases (is_md5 e.0)) [
    | inr f ↦ rw f (count_entries-eq-stat_of es stat h)
    | inl t ↦ rw t (
        count_entry-eq-stat_of (normal_files es) (count_entries L C es)
          (count_entries-eq-stat_of es) (deserialize L C e.1) stat h)
  ]

  -- After `repair_stat` the statistics are, modulo 2^64, the number and the total size of the files
  -- whose metadata stand under a key of 32 characters, can be read, and have the status normal.
  pub get_stat-repair_stat :
      (s : MetadataStore L)
      → get_stat L C (repair_stat L C s) ≡ record {
        file_count = length (normal_files (L.entries s.db)) % 2 ^ 64;
        total_size = sum_sizes (normal_files (L.entries s.db)) % 2 ^ 64;
      }
  unfolding get_stat repair_stat stat_of Fits
  get_stat-repair_stat s =
      count_entries-eq-stat_of (L.entries s.db) (record { file_count = 0; total_size = 0 })
        (omega arith, omega arith)
      ∙ stat_ext (omega arith) (omega arith)
