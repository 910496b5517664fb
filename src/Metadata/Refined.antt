-- ===== src/Metadata/Refined.antt =====
-- The metadata store refines the catalogue: every operation does what the catalogue promises.
use mathlib.Core.Option
use cdfs.Base.{
  ◌≡◌, refl, ap, ◌∙◌, Bool, true, false, inl, inr, Option, none, some, Option-cases, List, [],
  Bytes, All,
}
use cdfs.Database.{LevelDb}
use cdfs.MetaFile.{MetaFile, Codec, stored}
use cdfs.Metadata.{MetadataStore, get_meta, catch_none, get_stat, exists}
use cdfs.Metadata.Lookup.{target_of_md5, get_meta_at, get_meta_gone}
use cdfs.Metadata.Keys.{IsMd5Text, is_md5_of_text}
use cdfs.Metadata.Saved.{deserialize_of_serialize}
use cdfs.Metadata.Statistics.{sum_sizes}
use cdfs.Metadata.Catalogue.{find, Request, DoesAll, All-find}
use cdfs.Metadata.Held.{IsSavable, text_of, stat_of_files, Refines}
use cdfs.Metadata.Simulation.{IsAsked, run_requests, Fails, simulate-all}

module _ (L : LevelDb) (C : Codec) where
  abbrev pub is_held : Option MetaFile → Bool
  is_held none = false
  is_held (some m) = true

  -- What can be seen of a store that holds the files of a catalogue.
  pub record Shows (s : MetadataStore L) (files : List MetaFile) : Type 0 where
    pub found :
        (md5 : Bytes) → IsMd5Text md5 → get_meta L C md5 s ≡ Option.map stored (find md5 files)
    pub there : (md5 : Bytes) → IsMd5Text md5 → exists L C md5 s ≡ is_held (find md5 files)
    pub counted : get_stat L C s ≡ stat_of_files L C files

  get_meta_of_Refines :
      (s : MetadataStore L) (files : List MetaFile)
      → Refines L C s files
      → (md5 : Bytes) → IsMd5Text md5
      → get_meta L C md5 s ≡ Option.map stored (find md5 files)
  get_meta_of_Refines s files h md5 is_text =
      let target = target_of_md5 L C md5 s (is_md5_of_text md5 is_text) in
      elim (Option-cases (find md5 files)) [
        | inl e ↦
            get_meta_gone L C md5 s target (h.at_md5 md5 is_text ∙ ap (text_of L C) e) ∙ rw e refl
        | inr (x, e) ↦
            let savable = (All-find (IsSavable L C) md5 files x h.savable e).0 in
            get_meta_at L C md5 s target (h.at_md5 md5 is_text ∙ ap (text_of L C) e)
            ∙ ap (catch_none L C) (deserialize_of_serialize L C x savable.text savable.dumps)
            ∙ rw e refl
      ]

  exists_of_Refines :
      (s : MetadataStore L) (files : List MetaFile)
      → Refines L C s files
      → (md5 : Bytes) → IsMd5Text md5
      → exists L C md5 s ≡ is_held (find md5 files)
  unfolding exists
  exists_of_Refines s files h md5 is_text =
      rw (get_meta_of_Refines s files h md5 is_text, exists) (same (find md5 files))
    where
      same :
          (o : Option MetaFile)
          → (elim (Option.map stored o) [ none ↦ false | some m ↦ true ]) ≡ is_held o
      same none = refl
      same (some m) = refl

  -- A store without files, with the statistics at zero.
  pub record IsBare (s : MetadataStore L) : Type 0 where
    pub no_files : (md5 : Bytes) → IsMd5Text md5 → L.get s.db md5 ≡ none
    pub no_count : s.cached_stat ≡ record { file_count = 0; total_size = 0 }

  -- Whatever files are saved, removed and updated, whatever statuses are set and whatever shards
  -- are marked, in any order, on a store without files, with MD5 texts and with metadata that has a
  -- JSON text under each status, there is a run of the catalogue, a set of files under their MD5
  -- texts, with the same answers, in which an operation fails to write only if writes of the
  -- database can fail; and afterwards get_meta and exists find under every MD5 text what the
  -- catalogue has there, but for the paths of shards, and get_stat gives the number of its files and
  -- the sum of their sizes, on 64 bits.
  pub run_requests-Shows :
      (can_fail : Bool) (rs : List Request) (s : MetadataStore L)
      → Fails L C can_fail
      → IsBare s
      → All (IsAsked L C) rs
      → (files : List MetaFile) × DoesAll can_fail rs [] (run_requests L C rs s).1 files
        × Shows (run_requests L C rs s).0 files
  unfolding get_stat sum_sizes
  run_requests-Shows can_fail rs s fails bare asked =
      let start : Refines L C s [] = record {
        at_md5 = bare.no_files;
        distinct = tt;
        savable = tt;
        counted = bare.no_count;
      } in
      let (files, does, h) = simulate-all L C can_fail fails rs s [] asked start in
      let after = (run_requests L C rs s).0 in
      (
        files,
        does,
        record {
          found = get_meta_of_Refines after files h;
          there = exists_of_Refines after files h;
          counted = h.counted;
        },
      )
