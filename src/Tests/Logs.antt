-- ===== src/Tests/Logs.antt =====
-- Entries of the log in one second.
use cdfs.Base.{
  ℕ, ◌≡◌, ◌≤◌, refl, true, some, [], ◌∷◌, ◌++◌, arith, Bytes, codes, length, pos, int_text,
  to_string, digits_from, List,
}
use cdfs.Logging.{
  Piece, text, int, info, warn, debug, rank, Tm, log_entry, put, skipped, format_time, finish,
  avail, append, format_integer, write_piece, write_pieces, log_level_name, replicate, padded,
  time_text,
}
use cdfs.Logging.Lines.{fill, texts, needs}
use cdfs.Logging.Columns.{IsTime}
use cdfs.Logging.Times.{
  second_of, stamp, message, log_entry-fill, log_entry-texts, untimed-log_entry,
}

abbrev localtime : ℕ → Tm
localtime second = record { year = 2025; mon = 12; mday = 24; hour = 18; min = 30; sec = second }

abbrev pieces : List Piece
pieces = text (codes "port ") ∷ int (pos 8080) ∷ []

above : rank info ≤ rank warn
unfolding rank
above = omega arith

time : IsTime (localtime (second_of 5000001))
time = omega arith

log_entry-fill_example :
    log_entry localtime info warn true (codes "a.cc") (pos 12) 5000001 0 pieces
    ≡ some (
      second_of 5000001,
      put (fill 4000 (stamp localtime 5000001 0 ++ message warn (codes "a.cc") (pos 12) pieces)),
    )
log_entry-fill_example =
    log_entry-fill localtime info warn (codes "a.cc") (pos 12) 5000001 0 pieces above time

log_entry-texts_example :
    (out : Bytes) × (log_entry localtime info warn true (codes "a.cc") (pos 12) 5000001 0 pieces
      ≡ some (second_of 5000001, put out))
    × (length out ≤ 4000)
    × (needs (stamp localtime 5000001 0 ++ message warn (codes "a.cc") (pos 12) pieces) ≤ 4000
        → out ≡ texts (stamp localtime 5000001 0 ++ message warn (codes "a.cc") (pos 12) pieces))
log_entry-texts_example =
    log_entry-texts localtime info warn (codes "a.cc") (pos 12) 5000001 0 pieces above time
      (omega arith) (omega arith)

-- An entry below the level, a little earlier.
earlier :
    log_entry localtime info debug true (codes "b.cc") (pos 3) 5000000 0 [] ≡ some (5, skipped)
unfolding log_entry format_time finish rank avail append format_integer write_piece write_pieces
    log_level_name replicate padded time_text to_string digits_from int_text
earlier = refl

untimed-log_entry_example :
    log_entry localtime info warn true (codes "a.cc") (pos 12) 5000001 5 pieces
    ≡ some (second_of 5000001, put (fill 4000 (message warn (codes "a.cc") (pos 12) pieces)))
untimed-log_entry_example =
    untimed-log_entry localtime info warn debug true (codes "a.cc") (codes "b.cc") (pos 12) (pos 3)
      5000001 5000000 0 5 pieces [] skipped above time refl earlier
