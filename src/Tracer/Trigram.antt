-- ===== src/Tracer/Trigram.antt =====
-- trigram_tracer.js: counts the triples of successive instructions at one call depth.
use rmit.Prelude.{
  ℕ, ◌+◌, String, ◌≡◌, ◌≢◌, List, [], ◌∷◌, arith, if◌then◌else◌, nat_beq, map, count_if, ◌==◌,
  text_key,
}
use rmit.Tracer.Log.{Log, run}
use rmit.Tracer.Hist.{Hist, bump, tally, tally-bump}
use rmit.Tracer.Bigram.{dashed}

pub record State : Type 0 where
  pub hist : Hist
  pub last_ops : String × String
  pub last_depth : ℕ

-- The early `return` at a change of depth leaves the instruction itself out.
unfoldable pub step : State → Log → State
step s log =
    if nat_beq log.depth s.last_depth
    then record s {
      hist = bump (dashed (dashed s.last_ops.0 s.last_ops.1) log.op.name) s.hist;
      last_ops = (s.last_ops.1, log.op.name);
    }
    else record s { last_ops = ("", ""); last_depth = log.depth }

abbrev pub init : State
init = record { hist = []; last_ops = ("", ""); last_depth = 0 }

unfoldable pub result : State → Hist
result s = s.hist

-- The specification: the keys of all windows of three names.
pub windows : List String → List String
windows (a ∷ b ∷ c ∷ rest) = dashed (dashed a b) c ∷ windows (b ∷ c ∷ rest)
windows _ = []

abbrev pub AllAt : ℕ → List Log → Type 0
AllAt d [] = Unit {0}
AllAt d (l ∷ logs) = (l.depth ≡ d) × AllAt d logs

abbrev pub names : List Log → List String
names = map (λ l. l.op.name)

run-windows :
    (key : String) (logs : List Log) (s : State)
    → AllAt s.last_depth logs
    → tally key (run step s logs).hist
      ≡ tally key s.hist
        + count_if (λ w. w == key) (windows (s.last_ops.0 ∷ s.last_ops.1 ∷ names logs))
unfolding run step windows
run-windows key [] s h = omega arith
run-windows key (l ∷ logs) s h = ground (
  arith,
  run-windows key logs (step s l),
  tally-bump key (dashed (dashed s.last_ops.0 s.last_ops.1) l.op.name) s.hist,
)

-- A stretch of instructions at one depth that begins with a change of depth adds to the count of
-- a key the number of windows of three with that key, in the names of the stretch behind two
-- empty names and without the name of its first instruction.
pub run_stretch :
    (key : String) (first : Log) (logs : List Log) (s : State)
    → first.depth ≢ s.last_depth
    → AllAt first.depth logs
    → tally key (result (run step s (first ∷ logs)))
      ≡ tally key s.hist + count_if (λ w. w == key) (windows ("" ∷ "" ∷ names logs))
unfolding result run step
run_stretch key first logs s ne h =
    ground
      (arith, run-windows key logs (record s { last_ops = ("", ""); last_depth = first.depth }) h)
