-- ===== src/Session/Steps.antt =====
-- The life of a connection as a step relation: what the sockets, the timer and the handlers may do
-- next. Boost.Asio promises that an operation on a closed socket fails.
use cdfs.Base.{ℕ, ◌+◌, ◌-◌, ◌≤◌, ◌≡◌, ◌≢◌, Bool, true, false, List, Bytes, Result}
use cdfs.Json.{Json}
use cdfs.Context.{StringRequest, HttpContext}
use cdfs.Router.{Router}
use cdfs.Download.{Sent}
use cdfs.Session.{
  ErrorCode, Globals, reading, handling, writing, released, Session, State, is_success, on_timeout,
  do_write, release, on_read, on_write, run,
}

module _ {H : Type 0} where
  abbrev pub expired : Session H → Session H
  expired s = record s { timer_armed = false; queued_timeouts = s.queued_timeouts + 1 }

  abbrev pub fired : Session H → Session H
  fired s = on_timeout (record s { queued_timeouts = s.queued_timeouts - 1 })

  module _ (dump : Json → Result Bytes) (beast_version : Bytes) (router : Router H) where
    pub data Step (s : State H) : State H → Type 0 where
      -- The read ends.
      read :
          (ec : ErrorCode) (bytes : ℕ) (req : StringRequest) (rest : Bytes) (now : ℕ)
          → s.session.pending ≡ reading
          → (s.session.socket_open ≡ false → is_success ec ≡ false)
          → Step s (on_read dump beast_version router ec bytes req rest now s)
      -- The handler calls its sender.
      answer :
          (handler : H) (ctx : HttpContext) (msg : Sent)
          → s.session.pending ≡ handling handler ctx
          → Step s (do_write msg s)
      -- The handler throws, or lets its sender go.
      give_up :
          (handler : H) (ctx : HttpContext)
          → s.session.pending ≡ handling handler ctx
          → Step s (release s)
      -- The write ends.
      written :
          (msg : Sent) (close : Bool) (ec : ErrorCode) (bytes now : ℕ) (seen : List ℕ)
          → s.session.pending ≡ writing msg close
          → (s.session.socket_open ≡ false → is_success ec ≡ false)
          → Step s (on_write close ec bytes now seen s)
      -- The time is over: the timer's handler is put into the queue.
      expire : s.session.timer_armed ≡ true → Step s (record s { session = expired s.session })
      -- The handler of the timer runs.
      fire :
          1 ≤ s.session.queued_timeouts
          → s.session.pending ≢ released
          → Step s (record s { session = fired s.session })

    pub data Reach (s : State H) : State H → Type 0 where
      here : Reach s s
      next : {t u : State H} → Reach s t → Step t u → Reach s u

    -- A state that a new connection comes to.
    abbrev pub Lives : Globals → State H → Type 0
    Lives g t = Reach (run g) t
