-- ===== src/System.antt =====
-- controller/SystemCtl.h: the figures of the process. The texts of the files below /proc, the uptime
-- and the number of processors are arguments. A quotient of floating point numbers is kept as its
-- two sides. `none` stands for an exception of a conversion, and for a number that is missing where
-- the source then adds a variable it has not set.
pub mod Fields
pub mod Periods
use cdfs.Base.{
  ℕ, zero, suc, ◌+◌, ◌-◌, ◌*◌, ◌%◌, ◌^◌, Bool, true, false, Option, none, some, List, [], ◌∷◌, ◌++◌,
  ltb, ◌==◌, if◌then◌else◌, Bytes, codes, length, drop, is_empty, starts_with, find_first_of,
  size_sub, is_digit, ℤ, pos, negsuc, stoi, skip_space, read_number, is_space,
}
use cdfs.Session.{Globals}

-- `std::stol`, on 64 bits
abbrev pos_in_long : Option ℕ → Option ℤ
pos_in_long none = none
pos_in_long (some n) = if ltb n (2 ^ 63) then some (pos n) else none

abbrev neg_in_long : Option ℕ → Option ℤ
neg_in_long none = none
neg_in_long (some zero) = some (pos 0)
neg_in_long (some (suc n)) = if ltb n (2 ^ 63) then some (negsuc n) else none

unfoldable pub read_long : Bytes → Option ℤ
read_long [] = none
read_long (c ∷ s) =
    if c == b'-'
    then neg_in_long (read_number s)
    else if c == b'+'
    then pos_in_long (read_number s)
    else pos_in_long (read_number (c ∷ s))

unfoldable pub stol : Bytes → Option ℤ
stol s = read_long (skip_space s)

-- The lines that `getline` gives: a last one without its line end is one, too, if it has a text.
unfoldable pub lines_from : Bytes → Bytes → List Bytes
lines_from line [] = if is_empty line then [] else line ∷ []
lines_from line (c ∷ s) =
    let ended = line ∷ lines_from [] s in
    let longer = lines_from (line ++ c ∷ []) s in if c == b'\n' then ended else longer

unfoldable pub parse_kb : Bytes → Option ℤ
parse_kb line = elim (find_first_of is_digit line) [ none ↦ none | some n ↦ stol (drop n line) ]

pub record ProcStatus : Type 0 where
  pub mem_kb : ℤ
  pub threads : ℤ
  pub ctxt_switches : ℤ

-- The values that `status` starts from.
abbrev pub unset : ProcStatus
unset = record { mem_kb = pos 0; threads = pos 0; ctxt_switches = pos 0 }

unfoldable pub read_status_line : Bytes → ProcStatus → Option ProcStatus
read_status_line line p =
    if starts_with (codes "VmRSS:") line
    then elim (parse_kb line) [ none ↦ none | some n ↦ some (record p { mem_kb = n }) ]
    else if starts_with (codes "Threads:") line
    then elim (stoi (drop 8 line)) [ none ↦ none | some n ↦ some (record p { threads = n }) ]
    else if starts_with (codes "voluntary_ctxt_switches:") line
    then elim (stol (drop 24 line)) [ none ↦ none | some n ↦ some (record p { ctxt_switches = n }) ]
    else some p

unfoldable pub read_status_lines : List Bytes → ProcStatus → Option ProcStatus
read_status_lines [] p = some p
read_status_lines (line ∷ lines) p = elim (read_status_line line p) [
  | none ↦ none
  | some q ↦ read_status_lines lines q
]

-- `get_proc_status`, on the text of /proc/self/status
unfoldable pub get_proc_status : Bytes → ProcStatus → Option ProcStatus
get_proc_status file p = read_status_lines (lines_from [] file) p

-- `stream >> n` for a `uint64_t`: the number, and what is left. The kernel writes digits there.
unfoldable pub skip_digits : Bytes → Bytes
skip_digits [] = []
skip_digits (c ∷ s) = let rest = skip_digits s in if is_digit c then rest else c ∷ s

unfoldable pub extract : Bytes → Option (ℕ × Bytes)
extract s = elim (read_number (skip_space s)) [
  | none ↦ none
  | some n ↦ if ltb n (2 ^ 64) then some (n, skip_digits (skip_space s)) else none
]

-- The sum of so many numbers, on 64 bits.
unfoldable pub extract_sum : ℕ → ℕ → Bytes → Option ℕ
extract_sum zero total s = some total
extract_sum (suc k) total s = elim (extract s) [
  | none ↦ none
  | some (n, rest) ↦ extract_sum k ((total + n) % 2 ^ 64) rest
]

-- `stream >> junk` for a text.
unfoldable pub skip_word : Bytes → Bytes
skip_word [] = []
skip_word (c ∷ s) = let rest = skip_word s in if is_space c then c ∷ s else rest

unfoldable pub skip_words : ℕ → Bytes → Bytes
skip_words zero s = s
skip_words (suc k) s = skip_words k (skip_word (skip_space s))

pub record CpuSnapshot : Type 0 where
  pub total_time : ℕ
  pub proc_time : ℕ

-- Two sides of a quotient: the first product over the second number.
pub record Ratio : Type 0 where
  pub over : ℕ
  pub under : ℕ

-- The share of the processor time between two snapshots, times the number of processors, in percent.
unfoldable pub cpu_percent : CpuSnapshot → CpuSnapshot → ℕ → Ratio
cpu_percent last now num_processors =
    let diff_sys = size_sub now.total_time last.total_time in
    let diff_proc = size_sub now.proc_time last.proc_time in
    let nothing : Ratio = record { over = 0; under = 1 } in
    if last.total_time == 0
    then nothing
    else if diff_sys == 0
    then nothing
    else record { over = diff_proc * num_processors * 100; under = diff_sys }

-- The first line of /proc/stat behind its first five characters, and /proc/self/stat
unfoldable pub read_snapshot : Bytes → Bytes → Option CpuSnapshot
read_snapshot stat self_stat = elim (lines_from [] stat) [
  | [] ↦ none
  | line ∷ lines ↦ if ltb (length line) 5 then none else elim (extract_sum 7 0 (drop 5 line)) [
    | none ↦ none
    | some total_sys ↦ elim (extract_sum 2 0 (skip_words 13 self_stat)) [
      | none ↦ none
      | some total_proc ↦ some (record { total_time = total_sys; proc_time = total_proc })
    ]
  ]
]

-- `get_cpu_usage`: the share, and the new snapshot
unfoldable pub get_cpu_usage : Bytes → Bytes → ℕ → CpuSnapshot → Option (Ratio × CpuSnapshot)
get_cpu_usage stat self_stat num_processors last = elim (read_snapshot stat self_stat) [
  | none ↦ none
  | some now ↦ some (cpu_percent last now num_processors, now)
]

-- The members of the answer. `memory_mb`, the two `bytes` and `max_latency_ms` are given before
-- their division.
pub record Figures : Type 0 where
  pub memory_kb : ℤ
  pub cpu_percent : Ratio
  pub threads : ℤ
  pub total_requests : ℕ
  pub connections : ℕ
  pub bytes_sent : ℕ
  pub bytes_recv : ℕ
  pub ctxt_switches : ℤ
  pub uptime_seconds : ℕ
  pub total_latency_us : ℕ
  pub max_latency_us : ℕ

pub record SystemCtl : Type 0 where
  pub last_cpu : CpuSnapshot

-- `status`: the longest latency is read and set to 0 before the processor time is read.
unfoldable pub status :
    Bytes → Bytes → Bytes → ℕ → ℕ → SystemCtl → Globals → SystemCtl × Globals × Option Figures
status proc_status stat self_stat uptime num_processors ctl g =
    let reset = record g { max_latency_us = 0 } in
    elim (get_proc_status proc_status unset) [
      | none ↦ (ctl, g, none)
      | some p ↦ elim (get_cpu_usage stat self_stat num_processors ctl.last_cpu) [
        | none ↦ (ctl, reset, none)
        | some (percent, now) ↦ (
          record ctl { last_cpu = now },
          reset,
          some (record {
            memory_kb = p.mem_kb;
            cpu_percent = percent;
            threads = p.threads;
            total_requests = g.total_requests;
            connections = g.active_connections;
            bytes_sent = g.bytes_sent;
            bytes_recv = g.bytes_received;
            ctxt_switches = p.ctxt_switches;
            uptime_seconds = uptime;
            total_latency_us = g.total_latency_us;
            max_latency_us = g.max_latency_us;
          }),
        )
      ]
    ]
