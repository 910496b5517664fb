-- ===== src/Metadata/Simulation.antt =====
-- The metadata store simulates the catalogue, one operation after the other.

use cdfs.Base.{
  throws, Result, ℕ, ◌≡◌, refl, ap, ◌∙◌, Bool, true, false, inl, inr, none, Option-cases, List, [],
  ◌∷◌, ◌++◌, codes, is_empty, to_string, if◌then◌else◌, Bytes, All, ok,
}
use cdfs.Database.{LevelDb, BatchOp, put}
use cdfs.MetaFile.{FileStatus, MetaFile, Codec, stored}
use cdfs.Metadata.{
  update_status, write_status, MetadataStore, count_added, count_removed, shard_prefix, serialize,
  save_batch, save_write, save_meta, save_meta_shard, delete_batch, delete_write, delete_meta,
  update_meta,
}
use cdfs.Metadata.Keys.{IsMd5Text}
use cdfs.Metadata.Saved.{IsSaved, deserialize_of_serialize}
use cdfs.Metadata.Removed.{IsRemoved}
use cdfs.Metadata.Catalogue.{
  changed, with_status, set_status, unknown, altered, find, without, Request, save, remove, update,
  mark, Does, kept, added, missing, unwritten, replaced, marked, DoesAll, done, more, All-find,
}
use cdfs.Metadata.Held.{
  IsSavable, KeepsDumping, text_of, Refines, saved-Refines, removed-Refines, marked-Refines,
  altered-Refines,
}

module _ (L : LevelDb) (C : Codec) where
  abbrev pub IsAsked : Request → Type 0
  IsAsked (save m) = IsSavable L C m
  IsAsked (remove md5) = IsMd5Text md5
  IsAsked (update m) = IsSavable L C m
  IsAsked (mark index md5 shard_md5) = Unit
  IsAsked (set_status md5 status) = IsMd5Text md5 × KeepsDumping L C status

  abbrev settled : MetadataStore L → Result (MetadataStore L × Bool) → MetadataStore L × Bool
  settled s (ok r) = r
  settled s (throws e) = (s, false)

  abbrev pub run_request : Request → MetadataStore L → MetadataStore L × Bool
  run_request (save m) s = save_meta L C m s
  run_request (remove md5) s = delete_meta L C md5 s
  run_request (update m) s = update_meta L C m s
  run_request (mark index md5 shard_md5) s = save_meta_shard L C index md5 shard_md5 s
  run_request (set_status md5 status) s = settled s (update_status L C md5 status s)

  abbrev pub run_requests : List Request → MetadataStore L → MetadataStore L × List Bool
  run_requests [] s = (s, [])
  run_requests (r ∷ rs) s =
      let first = run_request r s in
      let rest = run_requests rs first.0 in (rest.0, first.1 ∷ rest.1)

  -- Writes fail only where they can.
  abbrev pub Fails : Bool → Type 0
  Fails can_fail = (d : L.Db) (ops : List BatchOp) → L.write d ops ≡ none → can_fail ≡ true

  abbrev Simulated : Bool → Request → List MetaFile → MetadataStore L × Bool → Type 0
  Simulated can_fail r files t =
      (files' : List MetaFile) × Does can_fail r files t.1 files' × Refines L C t.0 files'

  simulate-save :
      (can_fail : Bool) (fails : Fails can_fail) (m : MetaFile) (s : MetadataStore L)
      (files : List MetaFile)
      → IsSavable L C m
      → Refines L C s files
      → Simulated can_fail (save m) files (save_meta L C m s)
  unfolding save_meta save_write
  simulate-save can_fail fails m s files savable h = elim (Option-cases (find m.md5 files)) [
    | inr (x, e) ↦
        rw (h.at_md5 m.md5 savable.is_text ∙ ap (text_of L C) e, save_meta) (files, kept e, h)
    | inl e ↦
        rw (h.at_md5 m.md5 savable.is_text ∙ ap (text_of L C) e, save_meta)
          (elim (Option-cases (L.write s.db (save_batch L C m))) [
            | inl f ↦ rw (f, save_write) (files, unwritten (fails s.db _ f), h)
            | inr (db', w) ↦
                let saved : IsSaved L C m s
                    (record s { db = db'; cached_stat = count_added s.cached_stat m.size }) =
                  record { written = w; counted = refl; same_config = refl } in
                rw (w, save_write)
                  (m ∷ files, added e, saved-Refines L C m s _ files savable h e saved)
          ])
  ]

  simulate-remove :
      (can_fail : Bool) (fails : Fails can_fail) (md5 : Bytes) (s : MetadataStore L)
      (files : List MetaFile)
      → IsMd5Text md5
      → Refines L C s files
      → Simulated can_fail (remove md5) files (delete_meta L C md5 s)
  unfolding delete_meta
  simulate-remove can_fail fails md5 s files is_text h = elim (Option-cases (find md5 files)) [
    | inl e ↦ rw (h.at_md5 md5 is_text ∙ ap (text_of L C) e, delete_meta) (files, missing e, h)
    | inr (x, e) ↦
        let savable = (All-find (IsSavable L C) md5 files x h.savable e).0 in
        rw (h.at_md5 md5 is_text ∙ ap (text_of L C) e, delete_meta)
          (rw (deserialize_of_serialize L C x savable.text savable.dumps, delete_meta)
            (elim (Option-cases (L.write s.db (delete_batch L C (stored x) md5))) [
              | inl f ↦ rw (f, delete_write) (files, unwritten (fails s.db _ f), h)
              | inr (db', w) ↦
                  let out : IsRemoved L C (stored x) md5 s (record s {
                    db = db';
                    cached_stat = count_removed s.cached_stat (stored x).size;
                  }) =
                    record { written = w; counted = refl } in
                  rw (w, delete_write)
                    (without md5 files, Does.removed e, removed-Refines L C x md5 s _ files h e out)
            ]))
  ]

  simulate-mark :
      (can_fail : Bool) (fails : Fails can_fail) (index : ℕ) (md5 shard_md5 : Bytes)
      (s : MetadataStore L) (files : List MetaFile)
      → Refines L C s files
      → Simulated can_fail
          (mark index md5 shard_md5)
          files
          (save_meta_shard L C index md5 shard_md5 s)
  unfolding save_meta_shard
  simulate-mark can_fail fails index md5 shard_md5 s files h =
      let value = if is_empty shard_md5 then codes "1" else shard_md5 in
      elim (Option-cases (L.write s.db (put (shard_prefix md5 ++ to_string index) value ∷ []))) [
        | inl f ↦ rw (f, save_meta_shard) (files, unwritten (fails s.db _ f), h)
        | inr (db', w) ↦
            rw (w, save_meta_shard)
              (
                files,
                marked,
                marked-Refines L C index md5 value s (record s { db = db' }) files h w refl,
              )
      ]

  simulate-set_status :
      (can_fail : Bool) (fails : Fails can_fail) (md5 : Bytes) (status : FileStatus)
      (s : MetadataStore L) (files : List MetaFile)
      → IsMd5Text md5
      → KeepsDumping L C status
      → Refines L C s files
      → Simulated can_fail
          (set_status md5 status)
          files
          (settled s (update_status L C md5 status s))
  unfolding update_status
  simulate-set_status can_fail fails md5 status s files is_text dumping h =
      elim (Option-cases (find md5 files)) [
        | inl e ↦
            rw (h.at_md5 md5 is_text ∙ ap (text_of L C) e, update_status) (files, unknown e, h)
        | inr (x, e) ↦
            let savable = (All-find (IsSavable L C) md5 files x h.savable e).0 in
            rw (h.at_md5 md5 is_text ∙ ap (text_of L C) e, update_status)
              (rw (deserialize_of_serialize L C x savable.text savable.dumps, update_status)
                (elim (Option-cases
                  (L.write s.db (put md5 (serialize L C (changed status x)) ∷ []))) [
                    | inl f ↦ rw (f, write_status) (files, unwritten (fails s.db _ f), h)
                    | inr (db', w) ↦
                        rw (w, write_status)
                          (
                            with_status md5 status files,
                            altered e,
                            altered-Refines L C x md5 status s (record s { db = db' }) files is_text
                                dumping h e w refl,
                          )
                  ]))
      ]

  simulate :
      (can_fail : Bool) (fails : Fails can_fail) (r : Request) (s : MetadataStore L)
      (files : List MetaFile)
      → IsAsked r
      → Refines L C s files
      → Simulated can_fail r files (run_request r s)
  unfolding update_meta
  simulate can_fail fails (save m) s files asked h = simulate-save can_fail fails m s files asked h
  simulate can_fail fails (remove md5) s files asked h =
      simulate-remove can_fail fails md5 s files asked h
  simulate can_fail fails (mark index md5 shard_md5) s files asked h =
      simulate-mark can_fail fails index md5 shard_md5 s files h
  simulate can_fail fails (update m) s files asked h =
      let (files1, does1, h1) = simulate-remove can_fail fails m.md5 s files asked.is_text h in
      let (files2, does2, h2) =
        simulate-save can_fail fails m (delete_meta L C m.md5 s).0 files1 asked h1 in
      (files2, replaced does1 does2, h2)
  simulate can_fail fails (set_status md5 status) s files (is_text, dumping) h =
      simulate-set_status can_fail fails md5 status s files is_text dumping h

  pub simulate-all :
      (can_fail : Bool) (fails : Fails can_fail) (rs : List Request) (s : MetadataStore L)
      (files : List MetaFile)
      → All IsAsked rs
      → Refines L C s files
      → (files' : List MetaFile) × DoesAll can_fail rs files (run_requests rs s).1 files'
        × Refines L C (run_requests rs s).0 files'
  simulate-all can_fail fails [] s files asked h = (files, done, h)
  simulate-all can_fail fails (r ∷ rs) s files (a, asked) h =
      let (files1, does, h1) = simulate can_fail fails r s files a h in
      let (files2, all, h2) = simulate-all can_fail fails rs (run_request r s).0 files1 asked h1 in
      (files2, more does all, h2)
