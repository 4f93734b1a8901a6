-- ===== src/Tracer/Opcount.antt =====
-- opcount_tracer.js: counts the executed instructions.
use rmit.Prelude.{ℕ, ◌+◌, ◌≡◌, List, [], ◌∷◌, arith, length}
use rmit.Tracer.Log.{Log, run}

pub record State : Type 0 where
  pub count : ℕ

unfoldable pub step : State → Log → State
step s log = record s { count = s.count + 1 }

abbrev pub init : State
init = record { count = 0 }

unfoldable pub result : State → ℕ
result s = s.count

run-count : (logs : List Log) (s : State) → (run step s logs).count ≡ s.count + length logs
unfolding run step
run-count [] s = omega arith
run-count (l ∷ logs) s = omega (arith, run-count logs (step s l))

-- The result of a trace is its number of instructions.
pub result-length : (logs : List Log) → result (run step init logs) ≡ length logs
unfolding result
result-length logs = omega (arith, run-count logs init)
