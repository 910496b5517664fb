-- ===== src/Session/Endings.antt =====
-- How a connection goes on behind an answer, and how it ends.
use cdfs.Base.{
  ℕ, ◌+◌, ◌-◌, ◌%◌, ◌^◌, ◌≤◌, ◌≡◌, ◌≢◌, ◌⊎◌, inl, inr, refl, sym, ◌∙◌, Bool, true, false,
  Bool-cases, [], List, Bytes, Result, arith,
}
use cdfs.Json.{Json}
use cdfs.Context.{StringRequest}
use cdfs.Download.{Sent}
use cdfs.Router.{Router}
use cdfs.Session.{
  ErrorCode, Globals, Pending, reading, writing, released, Session, State, is_success,
  is_end_of_stream, do_read, release, on_read, on_write, reset_timeout_timer, on_timeout,
}
use cdfs.Session.Steps.{expired, fired, Step, read, answer, give_up, written, expire, fire, Lives}
use cdfs.Session.Watched.{Watch, Lives-IsWatched}

module _ {H : Type 0} where
  -- A new request is awaited, with nothing of an earlier one left, on a socket as open as before.
  pub record IsFresh (before s : Session H) : Type 0 where
    pub socket : s.socket_open ≡ before.socket_open
    pub awaits : s.pending ≡ reading
    pub buffer_empty : s.buffer ≡ []
    pub timer_runs : s.timer_armed ≡ true
    pub limit : s.body_limit ≡ 52428800

  goes_on-on_write :
      (ec : ErrorCode) (bytes now : ℕ) (seen : List ℕ) (s : State H)
      → is_success ec ≡ true
      → IsFresh s.session (on_write false ec bytes now seen s).session
  unfolding on_write do_read reset_timeout_timer
  goes_on-on_write ec bytes now seen s fine = rw fine (record {
    socket = refl;
    awaits = refl;
    buffer_empty = refl;
    timer_runs = refl;
    limit = refl;
  })

  stays_open :
      (p : Pending H) (msg : Sent) (close : Bool) (o a : Bool) (n : ℕ)
      → p ≡ writing msg close
      → Watch p o a n
      → close ≡ false
  stays_open p msg close o a n e w = (rw e at w).1

  -- The connection is given up: the session is released, and the count of connections goes down.
  pub record IsReleased (before : ℕ) (s : State H) : Type 0 where
    pub gone : s.session.pending ≡ released
    pub counted : s.globals.active_connections ≡ (before + 2 ^ 32 - 1) % 2 ^ 32

  release-IsReleased : (s : State H) → IsReleased s.globals.active_connections (release s)
  unfolding release
  release-IsReleased s = record { gone = refl; counted = refl }

  module _ (dump : Json → Result Bytes) (beast_version : Bytes) (router : Router H) where
    -- In every state that a new connection comes to: once an answer is written without an error,
    -- whatever the request asked for, the next request is awaited, with the timer running, from an
    -- empty buffer, so that what the client had sent behind the request is dropped, and on a socket
    -- that is open if it was open before.
    pub goes_on-written :
        (g : Globals) (s : State H) (msg : Sent) (close : Bool) (ec : ErrorCode) (bytes now : ℕ)
        (seen : List ℕ)
        → Lives dump beast_version router g s
        → s.session.pending ≡ writing msg close
        → is_success ec ≡ true
        → IsFresh s.session (on_write close ec bytes now seen s).session
    goes_on-written g s msg close ec bytes now seen r p fine =
        let w = Lives-IsWatched dump beast_version router g s r in
        rw (stays_open s.session.pending msg close _ _ _ p w)
          (goes_on-on_write ec bytes now seen s fine)

    failed_read :
        (ec : ErrorCode) (bytes : ℕ) (req : StringRequest) (rest : Bytes) (now : ℕ) (s : State H)
        → is_success ec ≡ false
        → IsReleased s.globals.active_connections
            (on_read dump beast_version router ec bytes req rest now s)
    unfolding on_read
    failed_read ec bytes req rest now s failed = elim (Bool-cases (is_end_of_stream ec)) [
      | inl ended ↦ rw ended (release-IsReleased _)
      | inr going ↦ rw (going, failed) (release-IsReleased _)
    ]

    -- Where the socket is closed under a read, the session only waits, or is released.
    abbrev pub WaitsClosed : State H → Type 0
    WaitsClosed s = (s.session.pending ≡ reading) × (s.session.socket_open ≡ false)

    not_both : (p : Pending H) (q : Pending H) → p ≡ reading → p ≡ q → q ≡ reading
    not_both p q e f = sym f ∙ e

    closed-Step :
        {s t : State H}
        → Step dump beast_version router s t
        → WaitsClosed s
        → WaitsClosed t ⊎ IsReleased s.globals.active_connections t
    unfolding on_timeout
    closed-Step {s} (read ec bytes req rest now p fails) (w, c) =
        inr (failed_read ec bytes req rest now s (fails c))
    closed-Step (answer handler ctx msg p) (w, c) = absurd (cc (not_both _ _ w p))
    closed-Step (give_up handler ctx p) (w, c) = absurd (cc (not_both _ _ w p))
    closed-Step (written msg close ec bytes now seen p fails) (w, c) =
        absurd (cc (not_both _ _ w p))
    closed-Step (expire armed) (w, c) = inl (w, c)
    closed-Step (fire queued alive) (w, c) = inl (w, refl)

    -- The states to which the timer alone takes a session.
    pub data TimesOut (s : State H) : State H → Type 0 where
      in_queue :
          Step dump beast_version router s (record s { session = fired s.session })
          → TimesOut s (record s { session = fired s.session })
      runs_out :
          Step dump beast_version router s (record s { session = expired s.session })
          → Step dump beast_version router
              (record s { session = expired s.session })
              (record s { session = fired (expired s.session) })
          → TimesOut s (record s { session = fired (expired s.session) })

    abbrev pub Ends : State H → State H → Type 0
    Ends s u =
        TimesOut s u
        × WaitsClosed u
        × ((v : State H)
            → Step dump beast_version router u v
            → WaitsClosed v ⊎ IsReleased s.globals.active_connections v)

    not_released : (p : Pending H) → p ≡ reading → p ≢ released
    not_released p e = λ f. cc (sym e ∙ f)

    -- A session that waits for a request on an open socket ends without its client: the timer takes
    -- it, in one step or two, to a state with a closed socket, from which every step leaves it
    -- waiting on the closed socket or releases it, and takes the count of connections down by one.
    pub Ends-timed_out :
        (g : Globals) (s : State H)
        → Lives dump beast_version router g s
        → s.session.pending ≡ reading
        → s.session.socket_open ≡ true
        → (u : State H) × Ends s u
    unfolding on_timeout
    Ends-timed_out g s r p o =
        ends (watched s.session.pending _ _ _ p (Lives-IsWatched dump beast_version router g s r) o)
      where
        watched :
            (q : Pending H) (b a : Bool) (n : ℕ)
            → q ≡ reading
            → Watch q b a n
            → b ≡ true
            → (a ≡ true) ⊎ (1 ≤ n)
        watched q b a n e w = (rw e at w)

        ends :
            (s.session.timer_armed ≡ true) ⊎ (1 ≤ s.session.queued_timeouts)
            → (u : State H) × Ends s u
        ends (inr queued) = (
          record s { session = fired s.session },
          (in_queue (fire queued (not_released _ p)), (p, refl), λ v st. closed-Step st (p, refl)),
        )
        ends (inl armed) = (
          record s { session = fired (expired s.session) },
          (
            runs_out (expire armed) (fire (omega arith) (not_released _ p)),
            (p, refl),
            λ v st. closed-Step st (p, refl),
          ),
        )

    -- The handler of the timer is left in the queue with a session that is gone.
    abbrev pub IsDangling : State H → Type 0
    IsDangling s = (s.session.pending ≡ released) × (1 ≤ s.session.queued_timeouts)
