-- ===== src/Tracer/Evmdis.antt =====
-- evmdis_tracer.js. The objects of the script are shared: the record of a call is an entry of its
-- caller's `ops` and, while the call runs, a frame of `stack`. So records live in a heap, a list
-- to which each instruction adds one, and `ops` and `stack` hold indices into it.
mod Table
pub mod Heap
pub mod Valid
pub mod Links
pub mod Keeps
pub mod Operands
pub mod Total
pub mod Records
use rmit.Prelude.{
  ℕ, zero, suc, ◌+◌, ◌-◌, String, Bool, true, false, ◌||◌, Option, none, some, List, [], ◌∷◌, ◌++◌,
  if◌then◌else◌, nat_beq, ◌==◌, number_key, text_key, length, get_elem?, set, take,
}
use rmit.Prelude.Assoc.{lookup}
use rmit.Prelude.Fallible.{◌>>=◌}
use rmit.Tracer.Log.{Log, peek, slice}
use Table.{npushes}

-- A property of an object: missing, `null`, or a value.
pub data Slot {ℓ} (A : Type ℓ) : Type ℓ where
  missing : Slot A
  null : Slot A
  held : A → Slot A

-- `op` is a number, but the name for DELEGATECALL and STATICCALL.
pub data OpTag : Type 0 where
  number : ℕ → OpTag
  name : String → OpTag

pub record OpInfo : Type 0 where
  pub op : Slot OpTag
  pub depth : Slot ℕ
  pub result : List String
  pub gas : Slot ℕ
  pub to : Slot String
  pub value : Slot String
  pub input : Slot (List ℕ)
  pub error : Slot String
  pub return : Slot (List ℕ)
  pub pc : Slot ℕ
  pub len : Slot ℕ
  pub ops : Slot (List ℕ)

-- `stack` in the order of the array, the running frame last.
pub record Tracer : Type 0 where
  pub stack : List ℕ
  pub heap : List OpInfo

-- An object with no property (the root frame has no `result` either, and none is read from it).
abbrev pub blank : OpInfo
blank = record {
  op = missing;
  depth = missing;
  result = [];
  gas = missing;
  to = missing;
  value = missing;
  input = missing;
  error = missing;
  return = missing;
  pc = missing;
  len = missing;
  ops = missing;
}

-- `stack: [{ops: []}]`
abbrev pub init : Tracer
init = record { stack = 0 ∷ []; heap = record blank { ops = held [] } ∷ [] }

-- The last entry of an array.
unfoldable pub last {ℓ} : {A : Type ℓ} → List A → Option A
last [] = none
last (x ∷ []) = some x
last (x ∷ y ∷ xs) = last (y ∷ xs)

-- `ops`, whose entries or length are read: an error if the property is missing or null.
unfoldable pub ops_of : OpInfo → Option (List ℕ)
ops_of o = elim (o.ops) [ held ids ↦ some ids | _ ↦ none ]

-- `npushes[prevop.op]`, with `undefined` as 0: the loop makes no round for either. The keys are
-- decimal numbers, so the name of a call has no entry.
unfoldable pub pushes_of : Slot OpTag → ℕ
pushes_of (held (number n)) = elim (lookup n npushes) [ none ↦ 0 | some k ↦ k ]
pushes_of _ = 0

-- An empty text is falsy.
unfoldable pub truthy : Option String → Option String
truthy none = none
truthy (some e) = if e == "" then none else some e

-- What an instruction does besides its own record: it starts a call, it sets the `return` of its
-- frame, or neither.
pub data Effect : Type 0 where
  enter : Effect
  leave : List ℕ → Effect
  plain : Effect

abbrev pub with_return : Effect → OpInfo → OpInfo
with_return (leave bytes) frame = record frame { return = held bytes }
with_return _ frame = frame

abbrev pub grow : Effect → List ℕ → ℕ → List ℕ
grow enter stack id = stack ++ id ∷ []
grow _ stack id = stack

-- `toString(radix)` and `valueOf()` of the script's big integers, a library that goja.go holds.
module _ (to_text : ℕ → ℕ → String) (value_of : ℕ → ℕ) where
  -- The words on top of the stack from place `i`, so many of them, as hexadecimal text.
  unfoldable pub peeks : Log → ℕ → ℕ → Option (List String)
  peeks l zero i = some []
  peeks l (suc n) i = do word ← peek l i; rest ← peeks l n (i + 1); some (to_text 16 word ∷ rest)

  -- The previous instruction of the frame gets the words that it pushed.
  unfoldable pub store_results : List OpInfo → List ℕ → Log → Option (List OpInfo)
  unfolding pushes_of
  store_results heap ops l = elim (last ops) [
    | none ↦ some heap
    | some p ↦ do
      prevop ← get_elem? heap p
      words ← peeks l (pushes_of prevop.op) 0
      some (set heap p (record prevop { result = prevop.result ++ words }))
  ]

  abbrev pub op_info : Log → OpInfo
  op_info l = record blank { op = held (number l.op.number); depth = held l.depth }

  unfoldable pub call_info : Log → Option OpInfo
  call_info l = do
    start ← peek l 3
    size ← peek l 4
    gas ← peek l 0
    to ← peek l 1
    value ← peek l 2
    input ← slice l (value_of start) (value_of start + value_of size)
    some (record (op_info l) {
      gas = held (value_of gas);
      to = held (to_text 16 to);
      value = held (to_text 10 value);
      input = held input;
      error = null;
      return = null;
      ops = held [];
    })

  unfoldable pub delegate_info : Log → Option OpInfo
  delegate_info l = do
    start ← peek l 2
    size ← peek l 3
    gas ← peek l 0
    to ← peek l 1
    input ← slice l (value_of start) (value_of start + value_of size)
    some (record (op_info l) {
      op = held (name l.op.name);
      gas = held (value_of gas);
      to = held (to_text 16 to);
      input = held input;
      error = null;
      return = null;
      ops = held [];
    })

  unfoldable pub returned : Log → Option (List ℕ)
  returned l = do
    out ← peek l 0
    size ← peek l 1
    slice l (value_of out) (value_of out + value_of size)

  -- The `switch` over the name of the instruction.
  unfoldable pub by_name : Log → Option (OpInfo × Effect)
  by_name l =
      let op = l.op.name in
      if op == "CALL" || op == "CALLCODE"
      then (call_info l >>= λ info. some (info, enter))
      else if op == "DELEGATECALL" || op == "STATICCALL"
      then (delegate_info l >>= λ info. some (info, enter))
      else if op == "RETURN" || op == "REVERT"
      then (returned l >>= λ bytes. some (op_info l, leave bytes))
      else if op == "STOP" || op == "SELFDESTRUCT"
      then (slice l 0 0 >>= λ bytes. some (op_info l, leave bytes))
      else if op == "JUMPDEST"
      then some (record (op_info l) { pc = held l.pc }, plain)
      else some (op_info l, plain)

  -- A push instruction also records the length of its operand; its number is above 0x5e.
  unfoldable pub describe : Log → Option (OpInfo × Effect)
  describe l = do
    (info, effect) ← by_name l
    some (if l.op.is_push then record info { len = held (l.op.number - 0x5e) } else info, effect)

  -- The new record goes to the end of the heap and of its frame's `ops`.
  unfoldable pub link : List ℕ → List OpInfo → ℕ → OpInfo → Effect → Option Tracer
  unfolding ops_of
  link stack heap f info effect = do
    frame ← get_elem? heap f
    ops ← ops_of frame
    some (record {
      stack = grow effect stack (length heap);
      heap =
          set (heap ++ info ∷ []) f
            (record (with_return effect frame) { ops = held (ops ++ length heap ∷ []) });
    })

  -- The branch for an instruction of the running frame.
  unfoldable pub record_op : Tracer → Log → Option Tracer
  unfolding ops_of
  record_op t l = do
    f ← last t.stack
    frame ← get_elem? t.heap f
    ops ← ops_of frame
    heap ← store_results t.heap ops l
    (info, effect) ← describe l
    link t.stack heap f info effect

  -- `frame["error"] = error`
  unfoldable pub fail_frame : Tracer → String → Option Tracer
  fail_frame t e = do
    f ← last t.stack
    frame ← get_elem? t.heap f
    some (record t { heap = set t.heap f (record frame { error = held e }) })

  unfoldable pub step : Tracer → Log → Option Tracer
  unfolding truthy
  step t l = elim (truthy l.error) [
    | some e ↦ fail_frame t e
    | none ↦
        if nat_beq l.depth (length t.stack)
        then record_op t l
        else some (record t { stack = take l.depth t.stack })
  ]

  unfoldable pub run : Tracer → List Log → Option Tracer
  run t [] = some t
  run t (l ∷ logs) = step t l >>= λ t'. run t' logs

-- `this.stack[0].ops`
unfoldable pub result : Tracer → Option (List ℕ)
result t = do f ← get_elem? t.stack 0; frame ← get_elem? t.heap f; ops_of frame
