-- ===== src/Tracer/Evmdis/Operands.antt =====
-- The operands that evmdis_tracer.js reads of each instruction, and when they are there.
use rmit.Prelude.{
  ℕ, ◌+◌, ◌-◌, ◌≤◌, ◌<◌, ◌≡◌, ◌≢◌, ◌⊎◌, inl, inr, refl, String, ◌||◌, Option, none, some, List, [],
  arith, length, get_elem?, get_elem?_lt, if◌then◌else◌, ◌==◌, text_key, Bool-cases, Option-cases,
}
use rmit.Tracer.Log.{Log, peek, slice, copy_padded, memory_pad_limit}
use rmit.Tracer.Evmdis.{
  held, OpInfo, Effect, enter, leave, plain, op_info, call_info, delegate_info, returned, by_name,
  describe,
}

-- How many words an instruction takes, and the places of the offset and the size of the memory that
-- it reads.
unfoldable pub operands : String → Option (ℕ × ℕ × ℕ)
operands op =
    if op == "CALL" || op == "CALLCODE"
    then some (5, 3, 4)
    else if op == "DELEGATECALL" || op == "STATICCALL"
    then some (4, 2, 3)
    else if op == "RETURN" || op == "REVERT"
    then some (2, 0, 1)
    else none

abbrev pub word : Log → ℕ → ℕ
word l i = elim (get_elem? l.words i) [ none ↦ 0 | some w ↦ w ]

-- The memory with its padding holds the range, or that is empty.
abbrev pub Readable : Log → ℕ → ℕ → Type 0
Readable l offset size = (size ≡ 0) ⊎ (offset + size ≤ length l.memory + memory_pad_limit)

abbrev pub ServesAll : (ℕ → ℕ) → Log → Option (ℕ × ℕ × ℕ) → Type 0
ServesAll value_of l none = Unit
ServesAll value_of l (some (count, offset, size)) =
    (count ≤ length l.words) × Readable l (value_of (word l offset)) (value_of (word l size))

-- The operand stack and the memory of an instruction serve the operands that it reads.
abbrev pub Serves : (ℕ → ℕ) → Log → Type 0
Serves value_of l = ServesAll value_of l (operands l.op.name)

slice_served :
    (l : Log) (offset size : ℕ) → Readable l offset size → slice l offset (offset + size) ≢ none
unfolding slice copy_padded
slice_served l offset size (inl empty) = λ e. ground (arith, empty, e)
slice_served l offset size (inr fits) = λ e. ground (arith, fits, e)

slice_total :
    (l : Log) (offset size : ℕ)
    → Readable l offset size
    → (bytes : List ℕ) × (slice l offset (offset + size) ≡ some bytes)
slice_total l offset size h = elim (Option-cases (slice l offset (offset + size))) [
  | inr found ↦ found
  | inl missing ↦ absurd (slice_served l offset size h missing)
]

peek-word : (l : Log) (i : ℕ) → i < length l.words → peek l i ≡ some (word l i)
unfolding peek
peek-word l i h = let (w, e) = get_elem?_lt l.words i h in rw (e, word) refl

module _ (to_text : ℕ → ℕ → String) (value_of : ℕ → ℕ) where
  call_info_total :
      (l : Log)
      → ServesAll value_of l (some (5, 3, 4))
      → (info : OpInfo) × (call_info to_text value_of l ≡ some info)
  unfolding call_info
  call_info_total l (words, memory) =
      let (bytes, read) = slice_total l (value_of (word l 3)) (value_of (word l 4)) memory in
      elim (Option-cases (call_info to_text value_of l)) [
        | inr found ↦ found
        | inl missing ↦ absurd (
            cc (
              rw
                (
                  call_info,
                  peek-word l 3 (omega arith),
                  peek-word l 4 (omega arith),
                  peek-word l 0 (omega arith),
                  peek-word l 1 (omega arith),
                  peek-word l 2 (omega arith),
                  read,
                )
                at missing))
      ]

  delegate_info_total :
      (l : Log)
      → ServesAll value_of l (some (4, 2, 3))
      → (info : OpInfo) × (delegate_info to_text value_of l ≡ some info)
  unfolding delegate_info
  delegate_info_total l (words, memory) =
      let (bytes, read) = slice_total l (value_of (word l 2)) (value_of (word l 3)) memory in
      elim (Option-cases (delegate_info to_text value_of l)) [
        | inr found ↦ found
        | inl missing ↦ absurd (
            cc (
              rw
                (
                  delegate_info,
                  peek-word l 2 (omega arith),
                  peek-word l 3 (omega arith),
                  peek-word l 0 (omega arith),
                  peek-word l 1 (omega arith),
                  read,
                )
                at missing))
      ]

  returned_total :
      (l : Log)
      → ServesAll value_of l (some (2, 0, 1))
      → (bytes : List ℕ) × (returned to_text value_of l ≡ some bytes)
  unfolding returned
  returned_total l (words, memory) =
      let (bytes, read) = slice_total l (value_of (word l 0)) (value_of (word l 1)) memory in
      (bytes, rw (returned, peek-word l 0 (omega arith), peek-word l 1 (omega arith), read) refl)

  by_name_total :
      (l : Log) → Serves value_of l → (r : OpInfo × Effect) × (by_name to_text value_of l ≡ some r)
  unfolding operands by_name slice
  by_name_total l serves =
      let op = l.op.name in
      elim (Bool-cases (op == "CALL" || op == "CALLCODE")) [
        | inl calls ↦
            let (info, e) = call_info_total l (rw (operands, calls) at serves) in
            ((info, enter), rw (by_name, calls, e) refl)
        | inr other ↦ elim (Bool-cases (op == "DELEGATECALL" || op == "STATICCALL")) [
          | inl calls ↦
              let (info, e) = delegate_info_total l (rw (operands, other, calls) at serves) in
              ((info, enter), rw (by_name, other, calls, e) refl)
          | inr other' ↦ elim (Bool-cases (op == "RETURN" || op == "REVERT")) [
            | inl returns ↦
                let (bytes, e) =
                  returned_total l (rw (operands, other, other', returns) at serves) in
                (
                  (op_info to_text value_of l, leave bytes),
                  rw (by_name, other, other', returns, e) refl,
                )
            | inr other'' ↦ elim (Bool-cases (op == "STOP" || op == "SELFDESTRUCT")) [
              | inl stops ↦ (
                (op_info to_text value_of l, leave []),
                rw (by_name, other, other', other'', stops) refl,
              )
              | inr other3 ↦ elim (Bool-cases (op == "JUMPDEST")) [
                | inl jumps ↦ (
                  (record (op_info to_text value_of l) { pc = held l.pc }, plain),
                  rw (by_name, other, other', other'', other3, jumps) refl,
                )
                | inr rest ↦ (
                  (op_info to_text value_of l, plain),
                  rw (by_name, other, other', other'', other3, rest) refl,
                )
              ]
            ]
          ]
        ]
      ]

  -- The switch over the instruction succeeds where its operands are served.
  pub describe_total :
      (l : Log) → Serves value_of l → (r : OpInfo × Effect) × (describe to_text value_of l ≡ some r)
  unfolding describe
  describe_total l serves =
      let (r, e) = by_name_total l serves in
      (
        (if l.op.is_push then record r.0 { len = held (l.op.number - 0x5e) } else r.0, r.1),
        rw (describe, e) refl,
      )
