-- ===== src/Tests/Accepting.antt =====
-- Accepts of which one fails.
use cdfs.Base.{ℕ, true, false, [], ◌∷◌, arith}
use cdfs.Accept.{CServer}
use cdfs.Accept.Pending.{run_accepts, IsAccepting, run_accepts-IsAccepting}
use cdfs.Tests.Connections.{at_start}

abbrev listening : CServer ℕ
listening = record { pending = 1; globals = at_start; sessions = [] }

run_accepts-IsAccepting_example :
    IsAccepting (false ∷ true ∷ []) listening (run_accepts (false ∷ true ∷ []) listening)
run_accepts-IsAccepting_example =
    run_accepts-IsAccepting (false ∷ true ∷ []) listening (omega arith)
