-- ===== src/Session/Watched.antt =====
-- When the timer watches a connection.
use cdfs.Base.{
  ℕ, ◌+◌, ◌-◌, ◌≤◌, ◌≡◌, ◌⊎◌, inl, inr, refl, Bool, true, false, Bool-cases, List, Bytes, Result,
  ok, throws, arith,
}
use cdfs.Json.{Json}
use cdfs.Context.{StringRequest}
use cdfs.Router.{Router, Outcome, called, sent, bad_function_call}
use cdfs.Session.{
  ErrorCode, Globals, Pending, reading, handling, writing, released, State, is_success,
  is_end_of_stream, on_timeout, reset_timeout_timer, do_read, do_write, release, dispatched,
  on_read, on_write, run,
}
use cdfs.Session.Steps.{Step, read, answer, give_up, written, expire, fire, here, next, Lives}

module _ {H : Type 0} where
  -- What the state of the timer is in each phase: an awaited request on an open socket is watched
  -- by the timer, or by the timer's handler in the queue; in every other phase no timer runs. No
  -- write is to be followed by closing.
  abbrev pub Watch : Pending H → Bool → Bool → ℕ → Type 0
  Watch reading socket_open armed queued = socket_open ≡ true → (armed ≡ true) ⊎ (1 ≤ queued)
  Watch (handling handler ctx) socket_open armed queued = armed ≡ false
  Watch (writing msg close) socket_open armed queued = (armed ≡ false) × (close ≡ false)
  Watch released socket_open armed queued = (armed ≡ false) × (socket_open ≡ false)

  abbrev pub IsWatched : State H → Type 0
  IsWatched s =
      Watch s.session.pending s.session.socket_open s.session.timer_armed s.session.queued_timeouts

run-IsWatched : (H : Type 0) (g : Globals) → IsWatched (run {H = H} g)
unfolding run do_read reset_timeout_timer
run-IsWatched H g = λ e. inl refl

module _ {H : Type 0} where
  release-IsWatched : (s : State H) → IsWatched (release s)
  unfolding release
  release-IsWatched s = (refl, refl)

  dispatched-IsWatched :
      (s : State H) (r : ℕ × Result (Outcome H))
      → s.session.timer_armed ≡ false
      → IsWatched (dispatched s r)
  unfolding dispatched do_write release
  dispatched-IsWatched s (total, throws e) off = (refl, refl)
  dispatched-IsWatched s (total, ok (called handler ctx)) off = off
  dispatched-IsWatched s (total, ok (sent response)) off = (off, refl)
  dispatched-IsWatched s (total, ok bad_function_call) off = (refl, refl)

  on_write-IsWatched :
      (close : Bool) (ec : ErrorCode) (bytes now : ℕ) (seen : List ℕ) (s : State H)
      → IsWatched (on_write close ec bytes now seen s)
  unfolding on_write do_read reset_timeout_timer release
  on_write-IsWatched close ec bytes now seen s = elim (Bool-cases (is_success ec)) [
    | inr failed ↦ rw failed (refl, refl)
    | inl fine ↦ elim (Bool-cases close) [
      | inl closing ↦ rw (fine, closing) (refl, refl)
      | inr going ↦ rw (fine, going) (λ e. inl refl)
    ]
  ]

  -- The phases in which the timer runs.
  armed_reading :
      (p : Pending H) (o : Bool) (a : Bool) (n : ℕ) → Watch p o a n → a ≡ true → p ≡ reading
  armed_reading reading o a n w e = refl
  armed_reading (handling handler ctx) o a n w e = cc
  armed_reading (writing msg close) o a n w e = cc (w.0)
  armed_reading released o a n w e = cc (w.0)

  expired-Watch :
      (p : Pending H) (o : Bool) (a : Bool) (n : ℕ)
      → Watch p o a n
      → p ≡ reading
      → Watch p o false (n + 1)
  expired-Watch reading o a n w e = λ h. inr (omega arith)
  expired-Watch (handling handler ctx) o a n w e = refl
  expired-Watch (writing msg close) o a n w e = (refl, w.1)
  expired-Watch released o a n w e = (refl, w.1)

  fired-Watch :
      (p : Pending H) (o : Bool) (a : Bool) (n : ℕ) → Watch p o a n → Watch p false a (n - 1)
  fired-Watch reading o a n w = λ h. cc
  fired-Watch (handling handler ctx) o a n w = w
  fired-Watch (writing msg close) o a n w = w
  fired-Watch released o a n w = (w.0, refl)

  module _ (dump : Json → Result Bytes) (beast_version : Bytes) (router : Router H) where
    on_read-IsWatched :
        (ec : ErrorCode) (bytes : ℕ) (req : StringRequest) (rest : Bytes) (now : ℕ) (s : State H)
        → IsWatched (on_read dump beast_version router ec bytes req rest now s)
    unfolding on_read
    on_read-IsWatched ec bytes req rest now s = elim (Bool-cases (is_end_of_stream ec)) [
      | inl ended ↦ rw ended (release-IsWatched _)
      | inr going ↦ elim (Bool-cases (is_success ec)) [
        | inl fine ↦ rw (going, fine) (dispatched-IsWatched _ _ refl)
        | inr failed ↦ rw (going, failed) (release-IsWatched _)
      ]
    ]

    Step-IsWatched :
        {s t : State H} → Step dump beast_version router s t → IsWatched s → IsWatched t
    unfolding do_write on_timeout
    Step-IsWatched {s} (read ec bytes req rest now p fails) w =
        on_read-IsWatched ec bytes req rest now s
    Step-IsWatched {s} (answer handler ctx msg p) w = ((rw p at w), refl)
    Step-IsWatched {s} (give_up handler ctx p) w = release-IsWatched s
    Step-IsWatched {s} (written msg close ec bytes now seen p fails) w =
        on_write-IsWatched close ec bytes now seen s
    Step-IsWatched {s} (expire armed) w =
        expired-Watch s.session.pending s.session.socket_open s.session.timer_armed
          s.session.queued_timeouts w (armed_reading s.session.pending _ _ _ w armed)
    Step-IsWatched {s} (fire queued alive) w =
        fired-Watch s.session.pending s.session.socket_open s.session.timer_armed
          s.session.queued_timeouts w

    -- In every state that a new connection comes to: while a request is awaited on an open socket,
    -- the timer runs, or its handler is already queued; while a request is handled or its answer is
    -- written, no timer runs; no write is to be followed by closing; and a released session has
    -- closed its socket and runs no timer.
    pub Lives-IsWatched :
        (g : Globals) (t : State H) → Lives dump beast_version router g t → IsWatched t
    Lives-IsWatched g t here = run-IsWatched H g
    Lives-IsWatched g t (next r st) = Step-IsWatched st (Lives-IsWatched g _ r)
