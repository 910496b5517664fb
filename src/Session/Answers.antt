-- ===== src/Session/Answers.antt =====
-- One answer for each request of a connection.
use cdfs.Base.{
  ℕ, ◌+◌, ◌≤◌, ◌≡◌, refl, Bool, true, false, if◌then◌else◌, Bool-cases, inl, inr, List, Bytes,
  Result, ok, throws, arith,
}
use cdfs.Json.{Json}
use cdfs.Context.{StringRequest, HttpContext}
use cdfs.Download.{Sent}
use cdfs.Router.{Router, Outcome, called, sent, bad_function_call}
use cdfs.Session.{
  ErrorCode, Globals, Pending, reading, handling, writing, released, State, is_success,
  is_end_of_stream, do_read, do_write, release, dispatched, on_read, on_write, run, on_timeout,
}
use cdfs.Session.Steps.{
  Step, read, answer, give_up, written, expire, fire, Reach, here, next, Lives,
}

abbrev pub one_if : Bool → ℕ
one_if b = if b then 1 else 0

end_failed : (ec : ErrorCode) → is_end_of_stream ec ≡ true → is_success ec ≡ false
unfolding is_success is_end_of_stream
end_failed ErrorCode.success h = cc
end_failed ErrorCode.end_of_stream h = refl
end_failed _ h = refl

module _ {H : Type 0} where
  -- A write begins where there was none.
  abbrev pub begins : Pending H → Pending H → ℕ
  begins (writing msg close) p = 0
  begins q (writing msg close) = 1
  begins q p = 0

  -- How many requests, for so many answers: as many, but one more while a request is handled, and
  -- perhaps where its handler gave no answer.
  abbrev pub Balance : Pending H → ℕ → ℕ → Type 0
  Balance reading requests answers = requests ≡ answers
  Balance (handling handler ctx) requests answers = requests ≡ answers + 1
  Balance (writing msg close) requests answers = requests ≡ answers
  Balance released requests answers = (answers ≤ requests) × (requests ≤ answers + 1)

  module _ (dump : Json → Result Bytes) (beast_version : Bytes) (router : Router H) where
    -- The requests that a step has read.
    abbrev pub reads : {s t : State H} → Step dump beast_version router s t → ℕ
    reads (read ec bytes req rest now p fails) = one_if (is_success ec)
    reads (answer handler ctx msg p) = 0
    reads (give_up handler ctx p) = 0
    reads (written msg close ec bytes now seen p fails) = 0
    reads (expire armed) = 0
    reads (fire queued alive) = 0

    abbrev pub requests : {s t : State H} → Reach dump beast_version router s t → ℕ
    requests here = 0
    requests (next r st) = requests r + reads st

    -- The answers that a step begins to write: behind a completed operation or a handler every
    -- write is a new one, behind the timer only one that was not there.
    abbrev pub writes : {s t : State H} → Step dump beast_version router s t → ℕ
    writes {s} {t} (expire armed) = begins s.session.pending t.session.pending
    writes {s} {t} (fire queued alive) = begins s.session.pending t.session.pending
    writes {s} {t} (read ec bytes req rest now p fails) = begins reading t.session.pending
    writes {s} {t} (answer handler ctx msg p) = begins reading t.session.pending
    writes {s} {t} (give_up handler ctx p) = begins reading t.session.pending
    writes {s} {t} (written msg close ec bytes now seen p fails) = begins reading t.session.pending

    abbrev pub answers : {s t : State H} → Reach dump beast_version router s t → ℕ
    answers here = 0
    answers (next r st) = answers r + writes st

  -- A dispatch follows a read, which stands for one request.
  dispatched-Balance :
      (s : State H) (r : ℕ × Result (Outcome H)) (n : ℕ)
      → Balance
          (dispatched s r).session.pending
          (n + 1)
          (n + begins reading (dispatched s r).session.pending)
  unfolding dispatched do_write release
  dispatched-Balance s (total, throws e) n = omega arith
  dispatched-Balance s (total, ok (called handler ctx)) n = omega arith
  dispatched-Balance s (total, ok (sent response)) n = omega arith
  dispatched-Balance s (total, ok bad_function_call) n = omega arith

  release-Balance :
      (p : Pending H) (s : State H) (n m : ℕ)
      → Balance p n m
      → Balance (release s).session.pending (n + 0) (m + begins reading (release s).session.pending)
  unfolding release
  release-Balance reading s n m b = omega arith
  release-Balance (handling handler ctx) s n m b = omega arith
  release-Balance (writing msg close) s n m b = omega arith
  release-Balance released s n m b = omega arith

  stays-Balance : (p : Pending H) (n m : ℕ) → Balance p n m → Balance p (n + 0) (m + begins p p)
  stays-Balance reading n m b = omega arith
  stays-Balance (handling handler ctx) n m b = omega arith
  stays-Balance (writing msg close) n m b = omega arith
  stays-Balance released n m b = omega arith

  answer-Balance :
      (q : Pending H) (handler : H) (ctx : HttpContext) (msg : Sent) (n m : ℕ)
      → q ≡ handling handler ctx
      → Balance q n m
      → n + 0 ≡ m + 1
  answer-Balance q handler ctx msg n m e b = let c : n ≡ m + 1 = (rw e at b) in omega arith

  on_write-Balance :
      (msg : Sent) (close closing : Bool) (ec : ErrorCode) (bytes now : ℕ) (seen : List ℕ)
      (s : State H) (q : Pending H) (n m : ℕ)
      → q ≡ writing msg closing
      → Balance q n m
      → Balance
          (on_write close ec bytes now seen s).session.pending
          (n + 0)
          (m + begins reading (on_write close ec bytes now seen s).session.pending)
  unfolding on_write do_read release
  on_write-Balance msg close closing ec bytes now seen s q n m e b =
      let c : n ≡ m = (rw e at b) in
      elim (Bool-cases (is_success ec)) [
        | inr failed ↦ rw failed (omega arith)
        | inl fine ↦ elim (Bool-cases close) [
          | inl ends ↦ rw (fine, ends) (omega arith)
          | inr goes ↦ rw (fine, goes) (omega arith)
        ]
      ]

  module _ (dump : Json → Result Bytes) (beast_version : Bytes) (router : Router H) where
    on_read-Balance :
        (ec : ErrorCode) (bytes : ℕ) (req : StringRequest) (rest : Bytes) (now : ℕ) (s : State H)
        (q : Pending H) (n m : ℕ)
        → q ≡ reading
        → Balance q n m
        → Balance
            (on_read dump beast_version router ec bytes req rest now s).session.pending
            (n + one_if (is_success ec))
            (m
              + begins reading
                  (on_read dump beast_version router ec bytes req rest now s).session.pending)
    unfolding on_read
    on_read-Balance ec bytes req rest now s q n m e b =
        let c : n ≡ m = (rw e at b) in
        elim (Bool-cases (is_end_of_stream ec)) [
          | inl ended ↦ rw (ended, end_failed ec ended) (release-Balance reading _ n m c)
          | inr going ↦ elim (Bool-cases (is_success ec)) [
            | inl fine ↦ rw (going, fine) (rw c (dispatched-Balance _ _ m))
            | inr failed ↦ rw (going, failed) (release-Balance reading _ n m c)
          ]
        ]

    Step-Balance :
        {s t : State H} (st : Step dump beast_version router s t) (n m : ℕ)
        → Balance s.session.pending n m
        → Balance t.session.pending
            (n + reads dump beast_version router st)
            (m + writes dump beast_version router st)
    unfolding do_write on_timeout
    Step-Balance {s} (read ec bytes req rest now p fails) n m b =
        on_read-Balance ec bytes req rest now s s.session.pending n m p b
    Step-Balance {s} (answer handler ctx msg p) n m b =
        answer-Balance s.session.pending handler ctx msg n m p b
    Step-Balance {s} (give_up handler ctx p) n m b = release-Balance s.session.pending s n m b
    Step-Balance {s} (written msg close ec bytes now seen p fails) n m b =
        on_write-Balance msg close close ec bytes now seen s s.session.pending n m p b
    Step-Balance {s} (expire armed) n m b = stays-Balance s.session.pending n m b
    Step-Balance {s} (fire queued alive) n m b = stays-Balance s.session.pending n m b

    -- On every way that a new connection takes, there are as many answers begun as requests read
    -- when the next request is awaited and while an answer is written, one less while a request is
    -- handled, and as many or one less once the session is released. A write that begins behind
    -- another write counts as one more answer.
    pub Lives-Balance :
        (g : Globals) (t : State H) (r : Lives dump beast_version router g t)
        → Balance t.session.pending
            (requests dump beast_version router r)
            (answers dump beast_version router r)
    unfolding run do_read
    Lives-Balance g t here = refl
    Lives-Balance g t (next r st) =
        Step-Balance st (requests dump beast_version router r) (answers dump beast_version router r)
          (Lives-Balance g _ r)
