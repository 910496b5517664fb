-- ===== src/Logging/Times.antt =====
-- Whole entries of the log, and their times.
use mathlib.Core.Path.{ap₂, subst}
use mathlib.Core.List.{append_assoc}
use cdfs.Base.{
  ℕ, ◌/◌, ◌%◌, ◌≤◌, ◌≡◌, refl, sym, ap, ◌∙◌, Bool, true, false, Bool-cases, inl, inr, some, List,
  [], ◌∷◌, ◌++◌, ltb, ◌==◌, if◌then◌else◌, Bytes, codes, length, ℤ, IsInt, All, All-append, arith,
}
use cdfs.Logging.{
  avail, LogStream, Piece, c_string, text, int, write_pieces, LogLevel, rank, Tm, format_time,
  Emitted, put, finish, log_entry,
}
use cdfs.Logging.Columns.{
  IsTime, column, written_time, level_text, log_level_name-eq-level_text, length-time_text,
  padded-eq-column, time_text-eq-written_time,
}
use cdfs.Logging.Lines.{
  fill, texts, needs, IsPiece, length-fill, fill-eq-texts, write_pieces-eq-fill,
  write_pieces-append,
}

abbrev empty : LogStream
empty = record { content = [] }

abbrev pub second_of : ℕ → ℕ
second_of now = now / 1000000

abbrev pub micros_of : ℕ → Bytes
micros_of now = codes "." ++ column b'0' 6 (now % 1000000)

-- The pieces behind the time.
abbrev pub message : LogLevel → Bytes → ℤ → List Piece → List Piece
message level file line pieces =
    c_string (some (codes " "))
    ∷ c_string (some (level_text level))
    ∷ (pieces
        ++ (c_string (some (codes " -"))
            ∷ text file
            ∷ c_string (some (codes ":"))
            ∷ int line
            ∷ c_string (some (codes "\n"))
            ∷ []))

module _ (localtime : ℕ → Tm) where
  -- The time of an entry, where the thread has not written that second.
  abbrev pub stamp : ℕ → ℕ → List Piece
  stamp now last_second =
      if second_of now == last_second
      then []
      else c_string (some (written_time (localtime (second_of now))))
        ∷ c_string (some (micros_of now))
        ∷ []

  format_time-eq :
      (now last_second : ℕ)
      → IsTime (localtime (second_of now))
      → format_time localtime now last_second empty
        ≡ some (second_of now, write_pieces empty (stamp now last_second))
  unfolding format_time write_pieces
  format_time-eq now last_second h =
      let tm = localtime (second_of now) in
      let micros = padded-eq-column b'0' 5 (now % 1000000) (omega arith) in
      elim (Bool-cases (second_of now == last_second)) [
        | inl same ↦ rw same (ground (arith))
        | inr new ↦
            rw (new, length-time_text tm h) (rw (time_text-eq-written_time tm h) (rw micros refl))
      ]

  -- An entry that is not below the level, with an output function, in a second whose local time has
  -- a year of at most four digits: what is put out is the texts of its pieces that find room in
  -- 4000 bytes, one after the other: the time, where the thread's last entry was not of the same
  -- second, with the year in four columns, the month and the day in two each, a blank, the hour, the
  -- minute and the second in two columns each with colons between them, and the microseconds in six
  -- columns behind a point; a blank and the name of the level in six columns; the pieces; the file
  -- and the line; the line end. The thread remembers the second.
  pub log_entry-fill :
      (g_log_level level : LogLevel) (file : Bytes) (line : ℤ) (now last_second : ℕ)
      (pieces : List Piece)
      → rank g_log_level ≤ rank level
      → IsTime (localtime (second_of now))
      → log_entry localtime g_log_level level true file line now last_second pieces
        ≡ some (
          second_of now,
          put (fill 4000 (stamp now last_second ++ message level file line pieces)),
        )
  unfolding log_entry finish avail
  log_entry-fill g_log_level level file line now last_second pieces above time =
      let loud : ltb (rank level) (rank g_log_level) ≡ false = ground arith in
      rw (format_time-eq now last_second time, log_entry)
        (rw (loud, log_level_name-eq-level_text level)
          (ap (λ c. some (second_of now, put c))
            (joined (stamp now last_second)
              (c_string (some (codes " ")) ∷ c_string (some (level_text level)) ∷ pieces) _)))
    where
      joined :
          (ps qs rs : List Piece)
          → (write_pieces (write_pieces (write_pieces empty ps) qs) rs).content
            ≡ fill 4000 (ps ++ (qs ++ rs))
      joined ps qs rs =
          ap (λ b. b.content)
            (ap (λ b. write_pieces b rs) (sym (write_pieces-append empty ps qs))
              ∙ sym (write_pieces-append empty (ps ++ qs) rs)
              ∙ ap (write_pieces empty) (append_assoc ps qs rs))
          ∙ write_pieces-eq-fill empty (ps ++ (qs ++ rs))

  All-message :
      (level : LogLevel) (file : Bytes) (line : ℤ) (now last_second : ℕ) (pieces : List Piece)
      → All IsPiece pieces
      → IsInt line
      → All IsPiece (stamp now last_second ++ message level file line pieces)
  All-message level file line now last_second pieces h n =
      All-append IsPiece (stamp now last_second) _ (stamped (second_of now == last_second))
        (tt, (tt, All-append IsPiece pieces _ h (tt, (tt, (tt, (n, (tt, tt)))))))
    where
      stamped :
          (b : Bool)
          → All IsPiece (
              if b
              then []
              else c_string (some (written_time (localtime (second_of now))))
                ∷ c_string (some (micros_of now))
                ∷ [])
      stamped true = tt
      stamped false = (tt, (tt, tt))

  -- Under the same conditions, and where the numbers of the entry are of the type `int`: what is put
  -- out has at most 4000 bytes, and where the pieces' needs, 49 bytes for a number, are 4000 bytes
  -- at most, it is all of their texts, the line end included.
  pub log_entry-texts :
      (g_log_level level : LogLevel) (file : Bytes) (line : ℤ) (now last_second : ℕ)
      (pieces : List Piece)
      → rank g_log_level ≤ rank level
      → IsTime (localtime (second_of now))
      → All IsPiece pieces
      → IsInt line
      → let all = stamp now last_second ++ message level file line pieces in
        (out : Bytes) × (log_entry localtime g_log_level level true file line now last_second pieces
          ≡ some (second_of now, put out))
        × (length out ≤ 4000)
        × (needs all ≤ 4000 → out ≡ texts all)
  log_entry-texts g_log_level level file line now last_second pieces above time h n =
      let a = All-message level file line now last_second pieces h n in
      let all : List Piece = stamp now last_second ++ message level file line pieces in
      (
        fill 4000 all,
        log_entry-fill g_log_level level file line now last_second pieces above time,
        length-fill 4000 all a,
        fill-eq-texts 4000 all a,
      )

  second-log_entry :
      (g_log_level level : LogLevel) (has_output : Bool) (file : Bytes) (line : ℤ)
      (now last_second second : ℕ) (pieces : List Piece) (e : Emitted)
      → IsTime (localtime (second_of now))
      → log_entry localtime g_log_level level has_output file line now last_second pieces
        ≡ some (second, e)
      → second ≡ second_of now
  unfolding log_entry
  second-log_entry g_log_level level has_output file line now last_second second pieces e time
        returns =
      let r = (rw (format_time-eq now last_second time, log_entry) at returns) in cc

  -- Once a thread has made an entry, be it put out or below the level, in a second whose local time
  -- has a year of at most four digits, its further entries of the same second that are not below the
  -- level are put out, with an output function, without a time, as the texts of their other pieces
  -- that find room in 4000 bytes.
  pub untimed-log_entry :
      (g_log_level level first_level : LogLevel) (has_output : Bool) (file first_file : Bytes)
      (line first_line : ℤ) (now first_now last_second second : ℕ)
      (pieces first_pieces : List Piece) (e : Emitted)
      → rank g_log_level ≤ rank level
      → IsTime (localtime (second_of now))
      → second_of first_now ≡ second_of now
      → log_entry localtime g_log_level first_level has_output first_file first_line first_now
          last_second first_pieces
        ≡ some (second, e)
      → log_entry localtime g_log_level level true file line now second pieces
        ≡ some (second, put (fill 4000 (message level file line pieces)))
  untimed-log_entry g_log_level level first_level has_output file first_file line first_line now
        first_now last_second second pieces first_pieces e above time same returns =
      let at_first : second ≡ second_of now =
        second-log_entry g_log_level first_level has_output first_file first_line first_now
          last_second second first_pieces e (subst (λ n. IsTime (localtime n)) (sym same) time)
          returns
        ∙ same in
      let again : (second_of now == second) ≡ true = ground arith in
      log_entry-fill g_log_level level file line now second pieces above time
      ∙ ap₂
          (λ n b. some (
            n,
            put (
                fill 4000 (
                  (if b
                    then []
                    else c_string (some (written_time (localtime (second_of now))))
                      ∷ c_string (some (micros_of now))
                      ∷ [])
                  ++ message level file line pieces)),
          ))
          (sym at_first) again
