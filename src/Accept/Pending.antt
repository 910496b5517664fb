-- ===== src/Accept/Pending.antt =====
-- How many accepts are under way.
use cdfs.Base.{ℕ, ◌+◌, ◌≤◌, ◌≡◌, Bool, true, false, List, [], ◌∷◌, arith, if◌then◌else◌, length}
use cdfs.Accept.{CServer, start_accept, start_session, on_accept}

abbrev pub failures : List Bool → ℕ
failures [] = 0
failures (failed ∷ rest) = let n = failures rest in if failed then n + 1 else n

module _ {H : Type 0} where
  -- The accepts end one after the other, each with an error or without.
  abbrev pub run_accepts : List Bool → CServer H → CServer H
  run_accepts [] s = s
  run_accepts (failed ∷ rest) s = run_accepts rest (on_accept failed s)

  pub record IsAccepting (ended : List Bool) (s after : CServer H) : Type 0 where
    pub under_way : after.pending ≡ s.pending + failures ended
    pub sessions : length after.sessions ≡ length s.sessions + length ended

  pending-on_accept :
      (failed : Bool) (s : CServer H)
      → 1 ≤ s.pending
      → (on_accept failed s).pending ≡ (if failed then s.pending + 1 else s.pending)
  unfolding on_accept start_accept start_session
  pending-on_accept true s h = omega arith
  pending-on_accept false s h = omega arith

  sessions-on_accept :
      (failed : Bool) (s : CServer H) → length (on_accept failed s).sessions ≡ length s.sessions + 1
  unfolding on_accept start_accept start_session
  sessions-on_accept true s = omega arith
  sessions-on_accept false s = omega arith

  -- Once an accept is under way, whatever accepts end, with an error or without: one more is under
  -- way for each that failed, and a session was started for each of them, failed or not.
  pub run_accepts-IsAccepting :
      (ended : List Bool) (s : CServer H)
      → 1 ≤ s.pending
      → IsAccepting ended s (run_accepts ended s)
  run_accepts-IsAccepting [] s h = record { under_way = omega arith; sessions = omega arith }
  run_accepts-IsAccepting (failed ∷ rest) s h =
      let one = pending-on_accept failed s h in
      let grown = sessions-on_accept failed s in
      let later = run_accepts-IsAccepting rest (on_accept failed s) (still failed one) in
      record {
        under_way = count failed later.under_way one;
        sessions = omega (arith, later.sessions, grown);
      }
    where
      still : (b : Bool) {n : ℕ} → n ≡ (if b then s.pending + 1 else s.pending) → 1 ≤ n
      still true e = omega arith
      still false e = omega arith

      count :
          (b : Bool) {n m : ℕ}
          → n ≡ m + failures rest
          → m ≡ (if b then s.pending + 1 else s.pending)
          → n ≡ s.pending + failures (b ∷ rest)
      count true e f = omega arith
      count false e f = omega arith
