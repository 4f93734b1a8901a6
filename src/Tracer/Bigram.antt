-- ===== src/Tracer/Bigram.antt =====
-- bigram_tracer.js: counts the pairs of successive instructions at one call depth.
use Prim.Native.String.{◌++◌ as str_append}
use rmit.Prelude.{
  ℕ, ◌+◌, String, ◌≡◌, List, [], ◌∷◌, arith, Bool, ◌&&◌, if◌then◌else◌, nat_beq, count_if, ◌==◌,
  text_key,
}
use rmit.Prelude.Assoc.{lookup}
use rmit.Tracer.Log.{Log, run}
use rmit.Tracer.Hist.{Hist, bump, tally, total, tally-bump, total-bump}

-- `a + '-' + b`
unfoldable pub dashed : String → String → String
dashed a b = str_append (str_append a "-") b

pub record State : Type 0 where
  pub hist : Hist
  pub last_op : String
  pub last_depth : ℕ

unfoldable pub step : State → Log → State
step s log =
    let op = log.op.name in
    let depth = log.depth in
    record {
      hist = if nat_beq depth s.last_depth then bump (dashed s.last_op op) s.hist else s.hist;
      last_op = op;
      last_depth = depth;
    }

abbrev pub init : State
init = record { hist = []; last_op = ""; last_depth = 0 }

unfoldable pub result : State → Hist
result s = s.hist

-- The specification: each instruction beside the one before it, as names with depths.
abbrev pub Seen : Type 0
Seen = String × ℕ

abbrev pub seen : Log → Seen
seen l = (l.op.name, l.depth)

pub successive : Seen → List Log → List (Seen × Seen)
successive p [] = []
successive p (l ∷ logs) = (p, seen l) ∷ successive (seen l) logs

abbrev pub same_depth : Seen × Seen → Bool
same_depth r = nat_beq r.1.1 r.0.1

abbrev pub is_pair : String → Seen × Seen → Bool
is_pair key r = same_depth r && dashed r.0.0 r.1.0 == key

run-tally :
    (key : String) (logs : List Log) (s : State)
    → tally key (run step s logs).hist
      ≡ tally key s.hist + count_if (is_pair key) (successive (s.last_op, s.last_depth) logs)
unfolding run step successive
run-tally key [] s = omega arith
run-tally key (l ∷ logs) s =
    ground
      (arith, run-tally key logs (step s l), tally-bump key (dashed s.last_op l.op.name) s.hist)

run-total :
    (logs : List Log) (s : State)
    → total (run step s logs).hist
      ≡ total s.hist + count_if same_depth (successive (s.last_op, s.last_depth) logs)
unfolding run step successive
run-total [] s = omega arith
run-total (l ∷ logs) s =
    ground (arith, run-total logs (step s l), total-bump (dashed s.last_op l.op.name) s.hist)

-- In the result of a trace the count of a key is the number of instructions that follow another
-- one at the same depth (the first follows an empty name at depth 0) and whose two names make
-- that key; all counts together are the number of instructions that follow one at the same depth.
pub result-pairs :
    (logs : List Log)
    → ((key : String)
        → tally key (result (run step init logs))
          ≡ count_if (is_pair key) (successive ("", 0) logs))
      × (total (result (run step init logs)) ≡ count_if same_depth (successive ("", 0) logs))
unfolding result tally total lookup
result-pairs logs =
    (λ key. omega (arith, run-tally key logs init), omega (arith, run-total logs init))
