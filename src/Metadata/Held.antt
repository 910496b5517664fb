-- ===== src/Metadata/Held.antt =====
-- What it means that the store holds the files of a catalogue, and that each kind of write keeps it.
use cdfs.Base.{
  ℕ, ◌%◌, ◌^◌, ◌≡◌, refl, sym, ap, ◌∙◌, Bool, true, false, Bool-cases, inl, inr, Option, none, some,
  List, [], ◌∷◌, ◌++◌, arith, to_string, if◌then◌else◌, Bytes, bytes_eq, length, All, ok,
}
use cdfs.Database.{LevelDb, put}
use cdfs.MetaFile.{FileStatus, MetaFile, SystemStat, Codec, stored}
use cdfs.Metadata.{MetadataStore, count_added, count_removed, shard_prefix, serialize}
use cdfs.Metadata.Keys.{IsMd5Text, path_key_ne_md5, scene_key_ne_md5, shard_key_ne_md5}
use cdfs.Metadata.Saved.{IsSaved, get_of_saved}
use cdfs.Metadata.Removed.{IsRemoved, get_of_removed}
use cdfs.Metadata.Statistics.{sum_sizes}
use cdfs.Metadata.Statuses.{
  find-with_status, with_status-Distinct, All-with_status, IsCountedAlike,
  with_status-IsCountedAlike,
}
use cdfs.Metadata.Catalogue.{
  changed, with_status, find, without, Distinct, find-without, without-Distinct, All-without,
  IsCountedOut, without-IsCountedOut,
}

module _ (L : LevelDb) (C : Codec) where
  -- Metadata under an MD5 text, with a JSON text.
  pub record IsSavable (m : MetaFile) : Type 0 where
    pub is_text : IsMd5Text m.md5
    pub text : Bytes
    pub dumps : C.dump m ≡ ok text

  -- A change of the status leaves metadata that has a JSON text one that has a JSON text.
  abbrev pub KeepsDumping : FileStatus → Type 0
  KeepsDumping status =
      (m : MetaFile) (t : Bytes)
      → C.dump m ≡ ok t
      → (u : Bytes) × (C.dump (changed status m) ≡ ok u)

  abbrev pub text_of : Option MetaFile → Option Bytes
  text_of none = none
  text_of (some m) = some (serialize L C m)

  abbrev pub stat_of_files : List MetaFile → SystemStat
  stat_of_files files = record {
    file_count = length files % 2 ^ 64;
    total_size = sum_sizes files % 2 ^ 64;
  }

  -- The database has the catalogue's files under their MD5, and the statistics count them.
  pub record Refines (s : MetadataStore L) (files : List MetaFile) : Type 0 where
    pub at_md5 : (md5 : Bytes) → IsMd5Text md5 → L.get s.db md5 ≡ text_of (find md5 files)
    pub distinct : Distinct files
    pub savable : All IsSavable files
    pub counted : s.cached_stat ≡ stat_of_files files

  stat_ext : {a b : SystemStat} → a.file_count ≡ b.file_count → a.total_size ≡ b.total_size → a ≡ b
  stat_ext p q = λ i. record { file_count = p i; total_size = q i }

  added-stat :
      (m : MetaFile) (files : List MetaFile)
      → count_added (stat_of_files files) m.size ≡ stat_of_files (m ∷ files)
  unfolding sum_sizes
  added-stat m files = stat_ext (omega arith) (omega arith)

  removed-stat :
      (x : MetaFile) (files rest : List MetaFile)
      → IsCountedOut x files rest
      → count_removed (stat_of_files files) x.size ≡ stat_of_files rest
  removed-stat x files rest h = stat_ext (omega (arith, h.one)) (omega (arith, h.size))

  pub saved-Refines :
      (m : MetaFile) (s s' : MetadataStore L) (files : List MetaFile)
      → IsSavable m
      → Refines s files
      → find m.md5 files ≡ none
      → IsSaved L C m s s'
      → Refines s' (m ∷ files)
  saved-Refines m s s' files savable h new saved = record {
    at_md5 = λ k is_text.
        get_of_saved L C saved k
        ∙ rw (scene_key_ne_md5 k is_text m m.md5) (
            rw (path_key_ne_md5 k is_text m.path) (elim (Bool-cases (bytes_eq m.md5 k)) [
              | inl t ↦ rw t refl
              | inr f ↦ rw f (h.at_md5 k is_text)
            ]));
    distinct = (new, h.distinct);
    savable = (savable, h.savable);
    counted = saved.counted ∙ ap (λ c. count_added c m.size) h.counted ∙ added-stat m files;
  }

  pub removed-Refines :
      (x : MetaFile) (md5 : Bytes) (s s' : MetadataStore L) (files : List MetaFile)
      → Refines s files
      → find md5 files ≡ some x
      → IsRemoved L C (stored x) md5 s s'
      → Refines s' (without md5 files)
  unfolding stored
  removed-Refines x md5 s s' files h there out = record {
    at_md5 = λ k is_text.
        get_of_removed L C out k
        ∙ rw (scene_key_ne_md5 k is_text (stored x) md5) (
            rw (path_key_ne_md5 k is_text x.path)
              (gone_or_kept k (h.at_md5 k is_text) (bytes_eq md5 k)))
        ∙ ap text_of (sym (find-without md5 k files h.distinct));
    distinct = without-Distinct md5 files h.distinct;
    savable = All-without IsSavable md5 files h.savable;
    counted =
        out.counted
        ∙ ap (λ c. count_removed c x.size) h.counted
        ∙ removed-stat x files (without md5 files) (without-IsCountedOut md5 files x there);
  }
    where
      gone_or_kept :
          (k : Bytes)
          → L.get s.db k ≡ text_of (find k files)
          → (b : Bool)
          → (if b then none else L.get s.db k) ≡ text_of (if b then none else find k files)
      gone_or_kept k e true = refl
      gone_or_kept k e false = e

  pub marked-Refines :
      (index : ℕ) (md5 value : Bytes) (s s' : MetadataStore L) (files : List MetaFile)
      → Refines s files
      → L.write s.db (put (shard_prefix md5 ++ to_string index) value ∷ []) ≡ some s'.db
      → s'.cached_stat ≡ s.cached_stat
      → Refines s' files
  marked-Refines index md5 value s s' files h w same = record {
    at_md5 = λ k is_text.
        L.get-write s.db s'.db _ k w
        ∙ rw (shard_key_ne_md5 k is_text md5 (to_string index)) (h.at_md5 k is_text);
    distinct = h.distinct;
    savable = h.savable;
    counted = same ∙ h.counted;
  }

  pub altered-Refines :
      (x : MetaFile) (md5 : Bytes) (status : FileStatus) (s s' : MetadataStore L)
      (files : List MetaFile)
      → IsMd5Text md5
      → KeepsDumping status
      → Refines s files
      → find md5 files ≡ some x
      → L.write s.db (put md5 (serialize L C (changed status x)) ∷ []) ≡ some s'.db
      → s'.cached_stat ≡ s.cached_stat
      → Refines s' (with_status md5 status files)
  unfolding stored
  altered-Refines x md5 status s s' files is_text dumping h there w same = record {
    at_md5 = λ k k_text.
        L.get-write s.db s'.db _ k w
        ∙ new_or_kept k (h.at_md5 k k_text) (bytes_eq md5 k)
        ∙ ap text_of (sym (find-with_status md5 k status files ∙ rw there refl));
    distinct = with_status-Distinct md5 status files h.distinct;
    savable =
        All-with_status IsSavable md5 status files
          (λ m p.
            let (u, e) = dumping m p.text p.dumps in
            record { is_text = p.is_text; text = u; dumps = e })
          h.savable;
    counted =
        same
        ∙ h.counted
        ∙ stat_ext (ap (λ n. n % 2 ^ 64) (sym alike.number))
            (ap (λ n. n % 2 ^ 64) (sym alike.size));
  }
    where
      alike : IsCountedAlike (with_status md5 status files) files
      alike = with_status-IsCountedAlike md5 status files

      new_or_kept :
          (k : Bytes)
          → L.get s.db k ≡ text_of (find k files)
          → (b : Bool)
          → (if b then some (serialize L C (changed status x)) else L.get s.db k)
            ≡ text_of (if b then some (changed status x) else find k files)
      new_or_kept k e true = refl
      new_or_kept k e false = e
