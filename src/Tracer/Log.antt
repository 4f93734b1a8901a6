-- ===== src/Tracer/Log.antt =====
-- What a JavaScript tracer sees of one executed instruction: the `log` object that
-- tracers/js/goja.go builds for `step`, with the operand stack and the memory behind its methods.
use rmit.Prelude.{
  ℕ, zero, suc, ◌+◌, ◌-◌, ◌*◌, String, Bool, Option, none, some, List, [], ◌∷◌, ◌++◌, ltb, nat_beq,
  if◌then◌else◌, length, get_elem?, take,
}

-- `log.op`: the results of `toNumber()`, `toString()` and `isPush()`.
pub record Op : Type 0 where
  pub number : ℕ
  pub name : String
  pub is_push : Bool

pub record Log : Type 0 where
  pub op : Op
  pub depth : ℕ  -- getDepth()
  pub pc : ℕ  -- getPC()
  pub error : Option String  -- getError()
  pub words : List ℕ  -- the operand stack, its top first
  pub memory : List ℕ  -- the bytes of the memory

-- `stackObj.peek`: an index past the stack is an error, which interrupts the script.
unfoldable pub peek : Log → ℕ → Option ℕ
peek l idx = get_elem? l.words idx

drop : ℕ → List ℕ → List ℕ
drop zero xs = xs
drop (suc n) [] = []
drop (suc n) (x ∷ xs) = drop n xs

zeros : ℕ → List ℕ
zeros zero = []
zeros (suc n) = 0 ∷ zeros n

abbrev pub memory_pad_limit : ℕ
memory_pad_limit = 1024 * 1024

-- `GetMemoryCopyPadded`: the range of the memory, with zeros past its end, and at most
-- `memory_pad_limit` of them.
unfoldable pub copy_padded : List ℕ → ℕ → ℕ → Option (List ℕ)
unfolding drop zeros
copy_padded mem offset size =
    if ltb (offset + size) (length mem)
    then some (take size (drop offset mem))
    else if ltb memory_pad_limit (offset + size - length mem)
    then none
    else some (take size (drop offset mem) ++ zeros (size - length (take size (drop offset mem))))

-- `memoryObj.slice`, whose offsets come from operands and are not negative.
unfoldable pub slice : Log → ℕ → ℕ → Option (List ℕ)
unfolding copy_padded
slice l begin end =
    if nat_beq end begin
    then some []
    else if ltb end begin
    then none
    else copy_padded l.memory begin (end - begin)

-- The steps of a whole trace: `step` is called for every executed instruction, in order.
unfoldable pub run {ℓ} : {S : Type ℓ} → (S → Log → S) → S → List Log → S
run step s [] = s
run step s (l ∷ ls) = run step (step s l) ls
