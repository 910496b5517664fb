-- ===== src/Server.antt =====
-- test/server_test.cc, the server program: the routes that it registers, and what a request then
-- comes to, through the router and the handler, on the state of the whole program. What the system
-- gives to a request, such as the clock and the texts of /proc, is an argument.
pub mod Journey
use cdfs.Base.{ℕ, Option, none, some, List, [], Bytes, codes, Result, ok, throws}
use cdfs.Util.{get, post}
use cdfs.Context.{StringRequest, StringResponse, HttpContext}
use cdfs.Router
use cdfs.Router.{Router, Outcome, add_route, add_prefix, called, sent, bad_function_call}
use cdfs.Database.{LevelDb}
use cdfs.FileCtl.{ServerState, Services, handle_check, handle_upload, handle_chunk_upload}
use cdfs.Chunks.{DirectoryService}
use cdfs.Chunks.Merge.{handle_check_chunk, handle_merge}
use cdfs.Download.{Sent, message, handle_download}
use cdfs.Session.{Globals}
use cdfs.System
use cdfs.System.{SystemCtl, Figures}

-- The functions that the routes are registered with.
pub data Handler : Type 0 where
  check upload download check_chunk upload_chunk report merge : Handler

-- The calls of `add_route` and `add_prefix`, in their order.
unfoldable pub routes : Router Handler
routes = add_route post (codes "/merge") (some merge) (
    add_route get (codes "/status") (some report) (
      add_route get (codes "/upload_chunk") (some upload_chunk) (
        add_route get (codes "/check_chunk") (some check_chunk) (
          add_prefix get (codes "/group1") (some download) (
            add_route post (codes "/upload") (some upload) (
              add_route post (codes "/check") (some check)
                (record { routers = []; prefix_routes = [] })))))))

-- What the system gives to one request.
pub record Moment : Type 0 where
  pub suffix : Bytes
  pub now : ℕ
  pub uptime : ℕ
  pub num_processors : ℕ
  pub proc_status : Bytes
  pub stat : Bytes
  pub self_stat : Bytes

pub record App (L : LevelDb) : Type 0 where
  pub server : ServerState L
  pub system : SystemCtl
  pub globals : Globals

-- What the client gets: a message, the figures of `status`, or nothing, where an exception ends the
-- request.
pub data Answer : Type 0 where
  responds : Sent → Answer
  reports : Figures → Answer
  nothing : Answer

abbrev pub answer_of : Result Sent → Answer
answer_of (ok s) = responds s
answer_of (throws e) = nothing

abbrev pub answer_of_response : Result StringResponse → Answer
answer_of_response (ok response) = responds (message response)
answer_of_response (throws e) = nothing

abbrev pub report_of : Option Figures → Answer
report_of (some f) = reports f
report_of none = nothing

module _ (L : LevelDb) (v : Services) (sys : DirectoryService) (directory_size : Bytes → ℕ)
    (beast_version : Bytes) where
  abbrev pub served : App L → ServerState L × Result StringResponse → App L × Answer
  served app (s, response) = (record app { server = s }, answer_of_response response)

  unfoldable pub call : Handler → HttpContext → Moment → App L → App L × Answer
  call check ctx t app = served app (app.server, handle_check L v ctx app.server)
  call upload ctx t app = served app (handle_upload L v ctx app.server t.suffix t.now)
  call download ctx t app = (
    app,
    answer_of (
        handle_download v.device directory_size v.dump v.store_config.root_dir ctx app.server.disk),
  )
  call check_chunk ctx t app = served app (app.server, handle_check_chunk L v sys ctx app.server)
  call upload_chunk ctx t app = served app (handle_chunk_upload L v ctx app.server t.suffix)
  call merge ctx t app = served app (handle_merge L v sys ctx app.server t.now)
  call report ctx t app =
      let (ctl, g, figures) =
        System.status t.proc_status t.stat t.self_stat t.uptime t.num_processors app.system
          app.globals in
      (record app { system = ctl; globals = g }, report_of figures)

  abbrev pub follow : Moment → App L → Result (Outcome Handler) → App L × Answer
  follow t app (ok (called handler ctx)) = call handler ctx t app
  follow t app (ok (sent response)) = (app, responds (message response))
  follow t app (ok bad_function_call) = (app, nothing)
  follow t app (throws e) = (app, nothing)

  -- One request, from the router to the answer.
  unfoldable pub serve : StringRequest → Moment → App L → App L × Answer
  serve req t app =
      let (total, outcome) =
        Router.dispatch v.dump beast_version routes req app.globals.total_requests in
      follow t (record app { globals = record app.globals { total_requests = total } }) outcome
