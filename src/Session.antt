-- ===== src/Session.antt =====
-- server/HttpSession.h and HttpSession.cc: one connection, with the timer that watches it and the
-- process figures of common/global.cc that it counts. Each member function that a completed
-- operation calls is a function on the state; what the operation read, its error code and the
-- clock are arguments. The operation under way keeps the session alive: with none, the last shared
-- pointer is gone and the destructor runs. A parser that is not there yet has the limit 0.
pub mod Steps
pub mod Watched
pub mod Answers
pub mod Endings
pub mod Latency
use cdfs.Base.{
  ℕ, ◌+◌, ◌-◌, ◌*◌, ◌%◌, ◌^◌, Bool, true, false, ◌||◌, List, [], ◌∷◌, leb, ltb, if◌then◌else◌,
  Bytes, Result, ok, throws,
}
use cdfs.Json.{Json}
use cdfs.Context.{StringRequest, HttpContext}
use cdfs.Router
use cdfs.Router.{Router, Outcome, called, sent, bad_function_call}
use cdfs.Download.{Sent, message}

-- `beast::error_code`, the codes that the program names apart.
pub data ErrorCode : Type 0 where
  success end_of_stream operation_aborted broken_pipe connection_reset timed_out : ErrorCode
  bad_method bad_version bad_target bad_value : ErrorCode
  other : ℕ → ErrorCode

-- The atomic counters. `active_connections` and `max_latency_us` are 32-bit patterns.
pub record Globals : Type 0 where
  pub total_requests : ℕ
  pub bytes_sent : ℕ
  pub bytes_received : ℕ
  pub active_connections : ℕ
  pub total_latency_us : ℕ
  pub max_latency_us : ℕ

-- The asynchronous operation, or the handler, that holds the session.
pub data Pending (H : Type 0) : Type 0 where
  reading : Pending H
  handling : H → HttpContext → Pending H
  writing : Sent → Bool → Pending H
  released : Pending H

-- `queued_timeouts` counts the calls of the timer's handler that wait in the queue of the
-- `io_context` with the code `success`: `cancel` no longer reaches them.
pub record Session (H : Type 0) : Type 0 where
  pub socket_open : Bool
  pub timer_armed : Bool
  pub queued_timeouts : ℕ
  pub body_limit : ℕ
  pub buffer : Bytes
  pub req_start_time : ℕ
  pub pending : Pending H

pub record State (H : Type 0) : Type 0 where
  pub globals : Globals
  pub session : Session H

pub data Level : Type 0 where
  debug error : Level

unfoldable pub is_success : ErrorCode → Bool
is_success success = true
is_success ec = false

unfoldable pub is_end_of_stream : ErrorCode → Bool
is_end_of_stream end_of_stream = true
is_end_of_stream ec = false

-- The codes that `log_and_close` takes for expected.
unfoldable pub is_quiet : ErrorCode → Bool
is_quiet (other n) = false
is_quiet ec = true

-- `duration > current_max`, an `int64_t` that is not negative against an `int`
unfoldable pub exceeds : ℕ → ℕ → Bool
exceeds duration current_max = leb (2 ^ 31) current_max || ltb current_max duration

-- The loop that raises `g_max_latency_us`, from the value it has loaded. `seen` has the values
-- that the exchanges which fail find there; the result is the value when the loop is left.
unfoldable pub raise_max : ℕ → ℕ → List ℕ → ℕ
raise_max duration current_max [] =
    if exceeds duration current_max then duration % 2 ^ 32 else current_max
raise_max duration current_max (found ∷ seen) =
    let rest = raise_max duration found seen in
    if exceeds duration current_max then rest else current_max

-- The counting of the time that a request took.
unfoldable pub add_latency : ℕ → List ℕ → Globals → Globals
add_latency duration seen g =
    if ltb 0 duration
    then record g {
      total_latency_us = (g.total_latency_us + duration) % 2 ^ 64;
      max_latency_us = raise_max duration g.max_latency_us seen;
    }
    else g

module _ {H : Type 0} where
  unfoldable pub reset_timeout_timer : Session H → Session H
  reset_timeout_timer s = record s { timer_armed = true }

  -- What the timer's handler does where it was not cancelled: it closes the socket.
  unfoldable pub on_timeout : Session H → Session H
  on_timeout s = record s { socket_open = false }

  -- The level of the entry, the session, and the result
  unfoldable pub log_and_close : ErrorCode → Session H → Level × Session H × Bool
  log_and_close ec s =
      (if is_quiet ec then debug else error, record s { socket_open = false }, true)

  unfoldable pub do_read : State H → State H
  do_read s = record s {
    session = record s.session { body_limit = 50 * 1024 * 1024; pending = reading };
  }

  -- The constructor, and `run`
  unfoldable pub run : Globals → State H
  run g = do_read (record {
    globals = record g { active_connections = (g.active_connections + 1) % 2 ^ 32 };
    session = reset_timeout_timer (record {
      socket_open = true;
      timer_armed = false;
      queued_timeouts = 0;
      body_limit = 0;
      buffer = [];
      req_start_time = 0;
      pending = released;
    });
  })

  -- The destructor: it closes the socket and cancels the timer with the members it ends.
  unfoldable pub release : State H → State H
  release s = record s {
    globals = record s.globals {
      active_connections = (s.globals.active_connections + 2 ^ 32 - 1) % 2 ^ 32;
    };
    session = record s.session { socket_open = false; timer_armed = false; pending = released };
  }

  -- `keep_alive` is a constant in the source, so `need_close` is one.
  unfoldable pub do_write : Sent → State H → State H
  do_write msg s = record s { session = record s.session { pending = writing msg false } }

  -- The end of `on_read`: the router has counted the request and chosen what is called.
  unfoldable pub dispatched : State H → ℕ × Result (Outcome H) → State H
  dispatched s (total, throws e) =
      release (record s { globals = record s.globals { total_requests = total } })
  dispatched s (total, ok (called handler ctx)) = record s {
    globals = record s.globals { total_requests = total };
    session = record s.session { pending = handling handler ctx };
  }
  dispatched s (total, ok (sent response)) =
      do_write (message response)
        (record s { globals = record s.globals { total_requests = total } })
  dispatched s (total, ok bad_function_call) =
      release (record s { globals = record s.globals { total_requests = total } })

  -- `bytes` is `bytes_transferred`, `rest` what the parser left in the buffer behind the request.
  unfoldable pub on_read :
      (Json → Result Bytes)
      → Bytes
      → Router H
      → ErrorCode
      → ℕ
      → StringRequest
      → Bytes
      → ℕ
      → State H
      → State H
  on_read dump beast_version router ec bytes req rest now s =
      let read : State H = record s {
        globals = record s.globals { bytes_received = (s.globals.bytes_received + bytes) % 2 ^ 64 };
        session = record s.session { req_start_time = now; timer_armed = false; buffer = rest };
      } in
      if is_end_of_stream ec
      then release (record read { session = record read.session { socket_open = false } })
      else if is_success ec
      then dispatched read (Router.dispatch dump beast_version router req s.globals.total_requests)
      else release (record read { session = (log_and_close ec read.session).1 })

  unfoldable pub on_write : Bool → ErrorCode → ℕ → ℕ → List ℕ → State H → State H
  on_write close ec bytes now seen s =
      let counted : State H = record s {
        globals =
            add_latency (now - s.session.req_start_time) seen
              (record s.globals { bytes_sent = (s.globals.bytes_sent + bytes) % 2 ^ 64 });
      } in
      if is_success ec
      then if close
        then release (record counted { session = record counted.session { socket_open = false } })
        else do_read (record counted {
          session = record (reset_timeout_timer counted.session) { buffer = [] };
        })
      else release (record counted { session = (log_and_close ec counted.session).1 })
