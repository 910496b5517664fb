-- ===== src/Tests/Connections.antt =====
-- A connection that reads a request, answers it and waits for the next one, and the figures of the
-- process behind it.
use cdfs.Base.{
  ℕ, ◌≡◌, refl, true, false, Option, none, some, List, [], ◌∷◌, arith, Bytes, bytes_eq, codes,
  find_char, find_str, starts_with, lookup, insert, All, Avoids, Avoids-of_find_char, stoi,
  read_int, skip_space, read_number, read_digits, find_first_of,
}
use cdfs.Util.{verb_to_string}
use cdfs.Url.{
  decode_from, decode, split_target, without_fragment, query_pair, put_pair, parse_query_from,
  parse_query,
}
use cdfs.Context.{HttpContext}
use cdfs.Download.{Sent, directory, file}
use cdfs.Context.{Status}
use cdfs.Router.{
  find_route, is_found_first, call_route, context, run_prefix_route, dispatch_prefix, route_request,
}
use cdfs.Router
use cdfs.Session.{
  ErrorCode, Globals, reading, handling, writing, State, is_success, is_end_of_stream, run, do_read,
  do_write, reset_timeout_timer, dispatched, on_read, on_write, add_latency, raise_max, exceeds,
}
use cdfs.Session.Steps.{read, answer, here, next, Lives}
use cdfs.Session.Watched.{IsWatched, Lives-IsWatched}
use cdfs.Session.Answers.{Balance, requests, answers, Lives-Balance}
use cdfs.Session.Endings.{IsFresh, goes_on-written, Ends, Ends-timed_out}
use cdfs.Session.Latency.{IsCounted, add_latency-IsCounted}
use cdfs.System.{
  SystemCtl, Figures, ProcStatus, unset, status, read_long, stol, lines_from, parse_kb,
  read_status_line, read_status_lines, get_proc_status, skip_digits, extract, extract_sum,
  skip_word, skip_words, cpu_percent, read_snapshot, get_cpu_usage,
}
use cdfs.System.Fields.{unlines, IsReadFrom, get_proc_status-IsReadFrom}
use cdfs.System.Periods.{add_latencies, maximum_from, max_latency-status}
use cdfs.Tests.Routes.{dump, router, request}

connecting : Unit {0}
unfolding find_route is_found_first call_route run_prefix_route dispatch_prefix route_request
    decode_from decode split_target without_fragment query_pair put_pair parse_query_from
    parse_query verb_to_string bytes_eq find_char find_str starts_with lookup insert Router.dispatch
    is_success is_end_of_stream run do_read do_write reset_timeout_timer dispatched on_read
connecting = tt

abbrev pub at_start : Globals
at_start = record {
  total_requests = 0;
  bytes_sent = 0;
  bytes_received = 0;
  active_connections = 0;
  total_latency_us = 0;
  max_latency_us = 0;
}

abbrev fresh : State ℕ
fresh = run at_start

abbrev asked : State ℕ
asked = on_read dump [] router ErrorCode.success 90 request (codes "GET /") 5 fresh

asks : Lives dump [] router at_start asked
unfolding connecting
asks = next here (read ErrorCode.success 90 request (codes "GET /") 5 refl (λ e. cc))

Lives-IsWatched_example : IsWatched asked
Lives-IsWatched_example = Lives-IsWatched dump [] router at_start asked asks

Lives-Balance_example :
    Balance asked.session.pending (requests dump [] router asks) (answers dump [] router asks)
Lives-Balance_example = Lives-Balance dump [] router at_start asked asks

abbrev reply : Sent
reply =
    file (record {
      status = Status.ok;
      version = 11;
      fields = [];
      content_length = 0;
      body = directory;
    })

abbrev answered : State ℕ
answered = do_write reply asked

abbrev asked_context : HttpContext
asked_context =
    context request (codes "/download/a.txt") ((codes "attname", codes "b") ∷ []) (codes "a.txt")

handled : asked.session.pending ≡ handling 2 asked_context
unfolding connecting
handled = refl

answers_it : Lives dump [] router at_start answered
answers_it = next asks (answer 2 asked_context reply handled)

writes : answered.session.pending ≡ writing reply false
unfolding connecting
writes = refl

fine : is_success ErrorCode.success ≡ true
unfolding connecting
fine = refl

goes_on-written_example :
    IsFresh answered.session (on_write false ErrorCode.success 120 9 [] answered).session
goes_on-written_example =
    goes_on-written dump [] router at_start answered reply false ErrorCode.success 120 9 []
      answers_it writes fine

waits : fresh.session.pending ≡ reading
unfolding connecting
waits = refl

is_open : fresh.session.socket_open ≡ true
unfolding connecting
is_open = refl

Ends-timed_out_example : (u : State ℕ) × Ends dump [] router fresh u
Ends-timed_out_example = Ends-timed_out dump [] router at_start fresh here waits is_open

add_latency-IsCounted_example :
    IsCounted 7 (9 ∷ 3 ∷ []) at_start (add_latency 7 (9 ∷ 3 ∷ []) at_start)
add_latency-IsCounted_example =
    add_latency-IsCounted 7 (9 ∷ 3 ∷ []) at_start (omega arith) (omega arith) (omega arith)

-- The files below /proc.
abbrev proc_status : List Bytes
proc_status =
    codes "VmRSS:  2048 kB" ∷ codes "Threads: 4" ∷ codes "voluntary_ctxt_switches: 17" ∷ []

abbrev stat : Bytes
stat = codes "cpu  100 0 50 800 10 0 0 0\n"

abbrev self_stat : Bytes
self_stat = codes "1 (cdfs) S 0 1 1 0 -1 0 0 0 0 0 30 12 0"

measuring : Unit {0}
unfolding status read_long stol lines_from parse_kb read_status_line read_status_lines
    get_proc_status skip_digits extract extract_sum skip_word skip_words cpu_percent read_snapshot
    get_cpu_usage starts_with find_first_of stoi read_int skip_space read_number read_digits
    add_latency raise_max exceeds
measuring = tt

abbrev read_status : ProcStatus
read_status = elim (get_proc_status (unlines proc_status) unset) [ none ↦ unset | some q ↦ q ]

is_read : get_proc_status (unlines proc_status) unset ≡ some read_status
unfolding measuring
is_read = refl

plain_lines : All (Avoids b'\n') proc_status
unfolding find_char
plain_lines = (
  Avoids-of_find_char b'\n' (codes "VmRSS:  2048 kB") refl,
  (
    Avoids-of_find_char b'\n' (codes "Threads: 4") refl,
    (Avoids-of_find_char b'\n' (codes "voluntary_ctxt_switches: 17") refl, tt),
  ),
)

get_proc_status-IsReadFrom_example : IsReadFrom proc_status unset read_status
get_proc_status-IsReadFrom_example =
    get_proc_status-IsReadFrom proc_status unset read_status plain_lines is_read

abbrev no_cpu : SystemCtl
no_cpu = record { last_cpu = record { total_time = 0; proc_time = 0 } }

abbrev no_figures : Figures
no_figures = record {
  memory_kb = read_status.mem_kb;
  cpu_percent = record { over = 0; under = 1 };
  threads = read_status.threads;
  total_requests = 0;
  connections = 0;
  bytes_sent = 0;
  bytes_recv = 0;
  ctxt_switches = read_status.ctxt_switches;
  uptime_seconds = 0;
  total_latency_us = 0;
  max_latency_us = 0;
}

abbrev figures_of : Option Figures → Figures
figures_of none = no_figures
figures_of (some f) = f

abbrev first_status : SystemCtl × Globals × Option Figures
first_status =
    status (unlines proc_status) stat self_stat 1 4 no_cpu (record at_start { max_latency_us = 80 })

abbrev second_status : SystemCtl × Globals × Option Figures
second_status =
    status (unlines proc_status) stat self_stat 2 4 first_status.0
      (add_latencies (7 ∷ 40 ∷ 12 ∷ []) first_status.1)

first_read : first_status ≡ (first_status.0, first_status.1, some (figures_of first_status.2))
unfolding measuring
first_read = refl

second_read : second_status ≡ (second_status.0, second_status.1, some (figures_of second_status.2))
unfolding measuring
second_read = refl

max_latency-status_example :
    (figures_of second_status.2).max_latency_us ≡ maximum_from 0 (7 ∷ 40 ∷ 12 ∷ [])
max_latency-status_example =
    max_latency-status (unlines proc_status) stat self_stat (unlines proc_status) stat self_stat 1 2
      4 no_cpu first_status.0 second_status.0 (record at_start { max_latency_us = 80 })
      first_status.1 second_status.1 (figures_of first_status.2) (figures_of second_status.2)
      (7 ∷ 40 ∷ 12 ∷ []) first_read (omega arith) second_read
