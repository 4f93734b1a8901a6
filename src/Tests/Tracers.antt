-- ===== src/Tests/Tracers.antt =====
-- The JavaScript tracers on short traces.
use rmit.Prelude.{
  ℕ, ◌+◌, ◌≡◌, refl, String, false, none, some, List, [], ◌∷◌, arith, length, count_if, ◌==◌,
  text_key, inr,
}
use rmit.Prelude.Assoc.{lookup, insert}
use rmit.Tracer.Log.{Log, run}
use rmit.Tracer.Hist.{bump, tally, total}
use rmit.Tracer.Opcount
use rmit.Tracer.Unigram
use rmit.Tracer.Bigram
use rmit.Tracer.Bigram.{dashed, successive, is_pair, same_depth}
use rmit.Tracer.Trigram
use rmit.Tracer.Trigram.{windows, names}
use rmit.Tracer.Evmdis
use rmit.Tracer.Evmdis.{Slot, null, held, number, name, OpInfo, Tracer, blank, store_results}
use rmit.Tracer.Evmdis.Valid.{IsValid}
use rmit.Tracer.Evmdis.Keeps.{init-IsValid, step-IsValid, run-IsValid}
use rmit.Tracer.Evmdis.Heap.{sum_ops, entries_in}
use rmit.Tracer.Evmdis.Operands.{operands}
use rmit.Tracer.Evmdis.Total.{owed, step_total}
use rmit.Tracer.Evmdis.Records.{taken, length-step}

abbrev line : ℕ → String → ℕ → Log
line n s d = record {
  op = record { number = n; name = s; is_push = false };
  depth = d;
  pc = 0;
  error = none;
  words = 7 ∷ 8 ∷ 9 ∷ 0 ∷ 0 ∷ 5 ∷ [];
  memory = 1 ∷ 2 ∷ [];
}

abbrev trace : List Log
trace = line 1 "ADD" 1 ∷ line 1 "ADD" 1 ∷ line 2 "MUL" 1 ∷ line 241 "CALL" 1 ∷ line 1 "ADD" 2 ∷ []

count_test : Opcount.result (run Opcount.step Opcount.init trace) ≡ 5
unfolding Opcount.result run Opcount.step
count_test = refl

unigram_test :
    Unigram.result (run Unigram.step Unigram.init trace)
    ≡ ("ADD", 3) ∷ ("MUL", 1) ∷ ("CALL", 1) ∷ []
unfolding Unigram.result run Unigram.step bump lookup insert
unigram_test = refl

bigram_test :
    Bigram.result (run Bigram.step Bigram.init trace)
    ≡ ("ADD-ADD", 1) ∷ ("ADD-MUL", 1) ∷ ("MUL-CALL", 1) ∷ []
unfolding Bigram.result run Bigram.step bump lookup insert dashed
bigram_test = refl

-- The first instruction of the stretch is in no triple, and the next two make keys with gaps.
trigram_test :
    Trigram.result (run Trigram.step Trigram.init trace)
    ≡ ("--ADD", 1) ∷ ("-ADD-MUL", 1) ∷ ("ADD-MUL-CALL", 1) ∷ []
unfolding Trigram.result run Trigram.step bump lookup insert dashed
trigram_test = refl

result-length_example : Opcount.result (run Opcount.step Opcount.init trace) ≡ length trace
result-length_example = Opcount.result-length trace

result-counts_example :
    ((key : String)
      → tally key (Unigram.result (run Unigram.step Unigram.init trace))
        ≡ count_if (λ l. l.op.name == key) trace)
    × (total (Unigram.result (run Unigram.step Unigram.init trace)) ≡ length trace)
result-counts_example = Unigram.result-counts trace

result-pairs_example :
    ((key : String)
      → tally key (Bigram.result (run Bigram.step Bigram.init trace))
        ≡ count_if (is_pair key) (successive ("", 0) trace))
    × (total (Bigram.result (run Bigram.step Bigram.init trace))
        ≡ count_if same_depth (successive ("", 0) trace))
result-pairs_example = Bigram.result-pairs trace

abbrev stretch : List Log
stretch = line 1 "ADD" 1 ∷ line 2 "MUL" 1 ∷ []

run_stretch_example :
    tally "--ADD" (Trigram.result (run Trigram.step Trigram.init (line 0 "STOP" 1 ∷ stretch)))
    ≡ tally "--ADD" Trigram.init.hist
      + count_if (λ w. w == "--ADD") (windows ("" ∷ "" ∷ names stretch))
run_stretch_example =
    Trigram.run_stretch "--ADD" (line 0 "STOP" 1) stretch Trigram.init (omega arith)
      (refl, (refl, tt))

-- Hexadecimal text is not what these tests are about.
abbrev to_text : ℕ → ℕ → String
to_text radix n = "7"

abbrev value_of : ℕ → ℕ
value_of n = n

abbrev after : Tracer
after = record {
  stack = 0 ∷ [];
  heap =
      record blank { ops = held (1 ∷ []) }
      ∷ record blank { op = held (number 1); depth = held 1 }
      ∷ [];
}

evmdis_first : Evmdis.step to_text value_of Evmdis.init (line 1 "ADD" 1) ≡ some after
unfolding Evmdis.step Evmdis.record_op Evmdis.last Evmdis.ops_of Evmdis.store_results
    Evmdis.describe Evmdis.by_name Evmdis.link Evmdis.truthy
evmdis_first = refl

step-IsValid_example : IsValid after
step-IsValid_example =
    step-IsValid to_text value_of Evmdis.init (line 1 "ADD" 1) init-IsValid (omega arith)
      evmdis_first

run_first : Evmdis.run to_text value_of Evmdis.init (line 1 "ADD" 1 ∷ []) ≡ some after
unfolding Evmdis.run
run_first = rw evmdis_first

run-IsValid_example : IsValid after
run-IsValid_example =
    run-IsValid to_text value_of (line 1 "ADD" 1 ∷ []) Evmdis.init init-IsValid (omega arith, tt)
      run_first

-- A call that reads 7 words of gas, the address 8, no value, and the bytes from 0 to 9 of the memory.
abbrev call : Log
call = record (line 241 "CALL" 1) { words = 7 ∷ 8 ∷ 0 ∷ 0 ∷ 9 ∷ [] }

step_total_example :
    (t' : Tracer) × (Evmdis.step to_text value_of after call ≡ some t') × IsValid t'
unfolding owed Evmdis.last Evmdis.ops_of Evmdis.pushes_of lookup operands
step_total_example =
    step_total to_text value_of after call step-IsValid_example (omega arith) (omega arith)
      (omega arith, inr (omega arith))

length-step_example :
    (length after.heap ≡ length Evmdis.init.heap + taken Evmdis.init (line 1 "ADD" 1))
    × (sum_ops entries_in after.heap
        ≡ sum_ops entries_in Evmdis.init.heap + taken Evmdis.init (line 1 "ADD" 1))
length-step_example = length-step to_text value_of Evmdis.init (line 1 "ADD" 1) evmdis_first

abbrev delegated : List OpInfo
delegated =
    record blank { ops = held (1 ∷ []) } ∷ record blank { op = held (name "DELEGATECALL") } ∷ []

abbrev delegate : Log
delegate = line 244 "DELEGATECALL" 1

abbrev delegate_record : OpInfo
delegate_record = record blank {
  op = held (name "DELEGATECALL");
  depth = held 1;
  gas = held 7;
  to = held "7";
  input = held [];
  error = null;
  return = null;
  ops = held [];
}
