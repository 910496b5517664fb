-- ===== src/Tests/Catalogues.antt =====
-- Requests to the store in memory, and what the catalogue makes of them.
use cdfs.Base.{refl, false, List, [], ◌∷◌, All, lookup}
use cdfs.Database.Sorted.{sorted_db}
use cdfs.MetaFile.{MetaFile, locked}
use cdfs.Metadata.Catalogue.{Request, save, remove, update, mark, set_status, DoesAll}
use cdfs.Metadata.Held.{IsSavable}
use cdfs.Metadata.Simulation.{IsAsked, run_requests, Fails}
use cdfs.Metadata.Refined.{Shows, IsBare, run_requests-Shows}
use cdfs.Tests.Encoding.{plain_codec}
use cdfs.Tests.Store.{
  empty_store, sample, sample_text, sample_dump, dumps, moved, moved_dump, dumps_moved,
}

abbrev requests : List Request
requests =
    save sample
    ∷ mark 3 sample.md5 []
    ∷ update moved
    ∷ set_status sample.md5 locked
    ∷ save sample
    ∷ remove sample.md5
    ∷ []

asked : All (IsAsked sorted_db plain_codec) requests
asked =
    let first : IsSavable sorted_db plain_codec sample = record {
      is_text = sample_text;
      text = sample_dump;
      dumps = dumps;
    } in
    (
      first,
      (
        tt,
        (
          record { is_text = sample_text; text = moved_dump; dumps = dumps_moved },
          ((sample_text, λ m t e. (_, refl)), (first, (sample_text, tt))),
        ),
      ),
    )

bare : IsBare sorted_db plain_codec empty_store
unfolding lookup
bare = record { no_files = λ md5 is_text. refl; no_count = refl }

always : Fails sorted_db plain_codec false
always d ops e = absurd (cc e)

run_requests-Shows_example :
    (files : List MetaFile) × DoesAll false requests []
      (run_requests sorted_db plain_codec requests empty_store).1
      files
    × Shows sorted_db plain_codec (run_requests sorted_db plain_codec requests empty_store).0 files
run_requests-Shows_example =
    run_requests-Shows sorted_db plain_codec false requests empty_store always bare asked
