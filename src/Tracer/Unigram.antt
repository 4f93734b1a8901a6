-- ===== src/Tracer/Unigram.antt =====
-- unigram_tracer.js: counts each instruction by its name.
use rmit.Prelude.{ℕ, ◌+◌, String, ◌≡◌, refl, List, [], ◌∷◌, arith, length, count_if, ◌==◌, text_key}
use rmit.Prelude.Assoc.{lookup}
use rmit.Tracer.Log.{Log, run}
use rmit.Tracer.Hist.{Hist, bump, tally, total, tally-bump, total-bump}

pub record State : Type 0 where
  pub hist : Hist
  pub nops : ℕ

unfoldable pub step : State → Log → State
step s log = record s { hist = bump log.op.name s.hist; nops = s.nops + 1 }

abbrev pub init : State
init = record { hist = []; nops = 0 }

unfoldable pub result : State → Hist
result s = s.hist

run-tally :
    (key : String) (logs : List Log) (s : State)
    → tally key (run step s logs).hist ≡ tally key s.hist + count_if (λ l. l.op.name == key) logs
unfolding run step
run-tally key [] s = omega arith
run-tally key (l ∷ logs) s =
    omega (arith, run-tally key logs (step s l), tally-bump key l.op.name s.hist)

run-total :
    (logs : List Log) (s : State)
    → total s.hist ≡ s.nops
    → (total (run step s logs).hist ≡ (run step s logs).nops)
      × ((run step s logs).nops ≡ s.nops + length logs)
unfolding run step
run-total [] s h = (h, omega arith)
run-total (l ∷ logs) s h =
    let (a, b) = run-total logs (step s l) (omega (arith, total-bump l.op.name s.hist)) in
    (a, omega arith)

-- In the result of a trace the count of every name is the number of instructions of that name,
-- and all counts together are the number of instructions.
pub result-counts :
    (logs : List Log)
    → ((key : String)
        → tally key (result (run step init logs)) ≡ count_if (λ l. l.op.name == key) logs)
      × (total (result (run step init logs)) ≡ length logs)
unfolding result tally total lookup
result-counts logs =
    let (a, b) = run-total logs init refl in
    (λ key. omega (arith, run-tally key logs init), omega arith)
