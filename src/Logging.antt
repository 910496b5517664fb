-- ===== src/Logging.antt =====
-- common/logStream.h and logStream.cc, common/logger.h and logger.cc, common/Timestamp.h: one entry
-- of the log, from the macro to the output function. The clock is an argument, `localtime_r` a
-- parameter.
pub mod Columns
pub mod Lines
pub mod Times
use mathlib.Core.List.{foldl}
use cdfs.Base.{
  ℕ, zero, suc, ◌+◌, ◌-◌, ◌*◌, ◌/◌, ◌%◌, Bool, true, false, not, Option, none, some, List, [], ◌∷◌,
  ◌++◌, leb, ltb, ◌==◌, if◌then◌else◌, Bytes, codes, length, to_string, ℤ, int_text,
}

-- `kSmallBuffer`
abbrev pub small_buffer : ℕ
small_buffer = 4000

-- `kMaxNumericSize`
abbrev pub max_numeric_size : ℕ
max_numeric_size = 48

-- `FixedBuffer<SIZE>`: the bytes in front of `current_`.
pub record FixedBuffer (size : ℕ) : Type 0 where
  pub content : Bytes

module _ {size : ℕ} where
  unfoldable pub avail : FixedBuffer size → ℕ
  avail b = size - length b.content

  -- A text that does not fit is left out.
  unfoldable pub append : FixedBuffer size → Bytes → FixedBuffer size
  append b str = if ltb (avail b) (length str) then b else record b { content = b.content ++ str }

abbrev pub LogStream : Type 0
LogStream = FixedBuffer small_buffer

-- What the program writes with `<<`: a C string, which may be null, a text, an `int`.
pub data Piece : Type 0 where
  c_string : Option Bytes → Piece
  text : Bytes → Piece
  int : ℤ → Piece

-- `formatInteger`: `sprintf` puts the digits where `current_` stands.
unfoldable pub format_integer : LogStream → ℤ → LogStream
format_integer b v =
    if ltb max_numeric_size (avail b) then record b { content = b.content ++ int_text v } else b

unfoldable pub write_piece : LogStream → Piece → LogStream
write_piece b (c_string none) = append b (codes "(null)")
write_piece b (c_string (some str)) = append b str
write_piece b (text str) = append b str
write_piece b (int num) = format_integer b num

unfoldable pub write_pieces : LogStream → List Piece → LogStream
write_pieces b [] = b
write_pieces b (p ∷ ps) = write_pieces (write_piece b p) ps

pub data LogLevel : Type 0 where
  trace debug info warn error fatal : LogLevel

unfoldable pub rank : LogLevel → ℕ
rank trace = 0
rank debug = 1
rank info = 2
rank warn = 3
rank error = 4
rank fatal = 5

unfoldable pub log_level_name : LogLevel → Bytes
log_level_name trace = codes "TRACE "
log_level_name debug = codes "DEBUG "
log_level_name info = codes "INFO  "
log_level_name warn = codes "WARN  "
log_level_name error = codes "ERROR "
log_level_name fatal = codes "FATAL "

-- `struct tm`, with the year and the month as they are printed.
pub record Tm : Type 0 where
  pub year : ℕ
  pub mon : ℕ
  pub mday : ℕ
  pub hour : ℕ
  pub min : ℕ
  pub sec : ℕ

unfoldable pub replicate : ℕ → ℕ → Bytes
replicate zero c = []
replicate (suc n) c = c ∷ replicate n c

-- `%0<width>d` with the padding `0`, `%<width>d` with a blank.
unfoldable pub padded : ℕ → ℕ → ℕ → Bytes
padded pad width n = replicate (width - length (to_string n)) pad ++ to_string n

unfoldable pub time_text : Tm → Bytes
time_text tm =
    padded b' ' 4 tm.year
    ++ (padded b'0' 2 tm.mon
        ++ (padded b'0' 2 tm.mday
            ++ (codes " "
                ++ (padded b'0' 2 tm.hour
                    ++ (codes ":"
                        ++ (padded b'0' 2 tm.min ++ (codes ":" ++ padded b'0' 2 tm.sec)))))))

-- `kMicroSecondsPerSecond`
abbrev pub micro_seconds_per_second : ℕ
micro_seconds_per_second = 1000 * 1000

-- How an entry ends: it is below the level, or the output function gets the text, or there is no
-- such function and the null pointer is called.
pub data Emitted : Type 0 where
  skipped : Emitted
  put : Bytes → Emitted
  null_call : Emitted

-- The destructor, `finish` included.
unfoldable pub finish : LogLevel → LogLevel → Bool → Bytes → ℤ → LogStream → Emitted
finish g_log_level level has_output file line b =
    if ltb (rank level) (rank g_log_level)
    then skipped
    else if not has_output
    then null_call
    else put
        (write_pieces b (
          c_string (some (codes " -"))
          ∷ text file
          ∷ c_string (some (codes ":"))
          ∷ int line
          ∷ c_string (some (codes "\n"))
          ∷ [])).content

module _ (localtime : ℕ → Tm) where
  -- `formatTime`, with the thread's `_lastSecond`: the time is put out only where the second is a
  -- new one. `none` where the assertion on the length fails.
  unfoldable pub format_time : ℕ → ℕ → LogStream → Option (ℕ × LogStream)
  format_time now last_second b =
      let seconds = now / micro_seconds_per_second in
      let micros = codes "." ++ padded b'0' 6 (now % micro_seconds_per_second) in
      let stamp = time_text (localtime seconds) in
      if seconds == last_second
      then some (last_second, b)
      else if length stamp == 17
      then some (seconds, write_pieces b (c_string (some stamp) ∷ c_string (some micros) ∷ []))
      else none

  -- `LOG_BASE(level) << pieces`: the constructor, the pieces, the destructor.
  unfoldable pub log_entry :
      LogLevel → LogLevel → Bool → Bytes → ℤ → ℕ → ℕ → List Piece → Option (ℕ × Emitted)
  log_entry g_log_level level has_output file line now last_second pieces =
      elim (format_time now last_second (record { content = [] })) [
        | none ↦ none
        | some (second, b) ↦ some (
          second,
          finish g_log_level level has_output file line (
              write_pieces b
                (c_string (some (codes " ")) ∷ c_string (some (log_level_name level)) ∷ pieces)),
        )
      ]
