-- ===== src/Accept.antt =====
-- server/cServer.cc and .h: the loop that accepts connections. Accepting ends with an error code,
-- of which only whether it is an error counts; a session that is started where it is one has a
-- socket that is not open.
pub mod Pending
use cdfs.Base.{ℕ, ◌+◌, ◌-◌, Bool, not, List, [], ◌∷◌, if◌then◌else◌}
use cdfs.Session
use cdfs.Session.{Globals, Session}

-- The accepts under way, all on the one socket of the server, and the sessions that were started.
pub record CServer (H : Type 0) : Type 0 where
  pub pending : ℕ
  pub globals : Globals
  pub sessions : List (Session H)

module _ {H : Type 0} where
  unfoldable pub start_accept : CServer H → CServer H
  start_accept s = record s { pending = s.pending + 1 }

  -- `make_shared<HttpSession>(move(_socket))->run()`
  unfoldable pub start_session : Bool → CServer H → CServer H
  start_session failed s =
      let new = Session.run s.globals in
      record s {
        globals = new.globals;
        sessions = record new.session { socket_open = not failed } ∷ s.sessions;
      }

  -- The handler of an accept that has ended.
  unfoldable pub on_accept : Bool → CServer H → CServer H
  on_accept failed s =
      let ended = record s { pending = s.pending - 1 } in
      start_accept (start_session failed (if failed then start_accept ended else ended))
