-- ===== src/Tracer/Evmdis/Records.antt =====
-- Which instructions evmdis_tracer.js records, and whose results it keeps.
use rmit.Prelude.{
  ℕ, ◌+◌, ◌≡◌, refl, String, none, some, List, [], ◌∷◌, ◌++◌, sym, ap, ◌∙◌, arith, if◌then◌else◌,
  nat_beq, length, length-set, length-append, get_elem?, set, inl, inr, ◌⊎◌, text_key, Option-cases,
  Bool-cases,
}
use rmit.Prelude.Fallible.{>>=-eq-some, some_eq}
use rmit.Tracer.Log.{Log}
use rmit.Tracer.Evmdis.{
  name, held, OpInfo, Tracer, Effect, last, ops_of, truthy, store_results, describe, link,
  record_op, fail_frame, step, peeks, pushes_of, with_return, enter, leave, plain,
}
use rmit.Tracer.Evmdis.Heap.{sum_ops, sum_ops-set, entries_in, ops_at-get_elem?}
use rmit.Tracer.Evmdis.Valid.{opening, ops_of-held}
use rmit.Tracer.Evmdis.Links.{linked_sum}
use rmit.Tracer.Evmdis.Keeps.{describe-ops}

-- 1 for an instruction of the running frame that did not fail.
abbrev pub taken : Tracer → Log → ℕ
taken t l = elim (truthy l.error) [
  | some e ↦ 0
  | none ↦ if nat_beq l.depth (length t.stack) then 1 else 0
]

module _ (to_text : ℕ → ℕ → String) (value_of : ℕ → ℕ) where
  length-store_results :
      (heap : List OpInfo) (ids : List ℕ) (l : Log) {heap' : List OpInfo}
      → store_results to_text value_of heap ids l ≡ some heap'
      → length heap' ≡ length heap
  unfolding store_results
  length-store_results heap ids l {heap'} h = elim (Option-cases (last ids)) [
    | inl e ↦ ap length (sym (some_eq (rw (e, store_results) at h)))
    | inr (p, e) ↦
        let (prevop, at_p, h1) = >>=-eq-some (get_elem? heap p) _ (rw (e, store_results) at h) in
        let (words, peeked, h2) =
          >>=-eq-some (peeks to_text value_of l (pushes_of prevop.op) 0) _ h1 in
        rw (← some_eq h2) (length-set heap p (record prevop { result = prevop.result ++ words }))
  ]

  -- A write that leaves `ops` alone adds no entry.
  entries-set :
      (heap : List OpInfo) (i : ℕ) (o o' : OpInfo)
      → get_elem? heap i ≡ some o
      → o'.ops ≡ o.ops
      → sum_ops entries_in (set heap i o') ≡ sum_ops entries_in heap
  entries-set heap i o o' at same =
      let e : entries_in o'.ops ≡ entries_in o.ops = ap entries_in same in
      omega (arith, e, sum_ops-set entries_in heap i o' (ops_at-get_elem? heap i at))

  entries-store_results :
      (heap : List OpInfo) (ids : List ℕ) (l : Log) {heap' : List OpInfo}
      → store_results to_text value_of heap ids l ≡ some heap'
      → sum_ops entries_in heap' ≡ sum_ops entries_in heap
  unfolding store_results
  entries-store_results heap ids l {heap'} h = elim (Option-cases (last ids)) [
    | inl e ↦ ap (sum_ops entries_in) (sym (some_eq (rw (e, store_results) at h)))
    | inr (p, e) ↦
        let (prevop, at_p, h1) = >>=-eq-some (get_elem? heap p) _ (rw (e, store_results) at h) in
        let (words, peeked, h2) =
          >>=-eq-some (peeks to_text value_of l (pushes_of prevop.op) 0) _ h1 in
        rw (← some_eq h2)
          (entries-set heap p prevop (record prevop { result = prevop.result ++ words }) at_p refl)
  ]

  opening-entries : (e : Effect) → entries_in (opening e) ≡ 0
  unfolding opening
  opening-entries enter = refl
  opening-entries (leave bytes) = refl
  opening-entries plain = refl

  entries-link :
      (stack : List ℕ) (heap : List OpInfo) (f : ℕ) (info : OpInfo) (effect : Effect) {t : Tracer}
      → info.ops ≡ opening effect
      → link to_text value_of stack heap f info effect ≡ some t
      → sum_ops entries_in t.heap ≡ sum_ops entries_in heap + 1
  unfolding link
  entries-link stack heap f info effect {t} opens h =
      let (frame, at_f, h1) = >>=-eq-some (get_elem? heap f) _ h in
      let (ids, has, h2) = >>=-eq-some (ops_of frame) _ h1 in
      let e = ap (λ (x : Tracer). sum_ops entries_in x.heap) (some_eq h2) in
      let frame' = record (with_return effect frame) { ops = held (ids ++ length heap ∷ []) } in
      let none_new : entries_in info.ops ≡ 0 = ap entries_in opens ∙ opening-entries effect in
      omega (
        arith,
        e,
        none_new,
        linked_sum heap f info frame' effect ids opens
            (ops_at-get_elem? heap f at_f ∙ ap some (ops_of-held frame has)) refl entries_in,
        length-append ids (length heap ∷ []),
      )

  length-link :
      (stack : List ℕ) (heap : List OpInfo) (f : ℕ) (info : OpInfo) (effect : Effect) {t : Tracer}
      → link to_text value_of stack heap f info effect ≡ some t
      → length t.heap ≡ length heap + 1
  unfolding link
  length-link stack heap f info effect {t} h =
      let (frame, at_f, h1) = >>=-eq-some (get_elem? heap f) _ h in
      let (ids, has, h2) = >>=-eq-some (ops_of frame) _ h1 in
      let e = ap (λ (x : Tracer). length x.heap) (some_eq h2) in
      omega (
        arith,
        e,
        length-set (heap ++ info ∷ []) f
            (record (with_return effect frame) { ops = held (ids ++ length heap ∷ []) }),
        length-append heap (info ∷ []),
      )

  length-record_op :
      (t : Tracer) (l : Log) {t' : Tracer}
      → record_op to_text value_of t l ≡ some t'
      → (length t'.heap ≡ length t.heap + 1)
        × (sum_ops entries_in t'.heap ≡ sum_ops entries_in t.heap + 1)
  unfolding record_op
  length-record_op t l h =
      let (f, running, h1) = >>=-eq-some (last t.stack) _ h in
      let (frame, at_f, h2) = >>=-eq-some (get_elem? t.heap f) _ h1 in
      let (ids, has, h3) = >>=-eq-some (ops_of frame) _ h2 in
      let (heap, stored, h4) = >>=-eq-some (store_results to_text value_of t.heap ids l) _ h3 in
      let (p, described, h5) = >>=-eq-some (describe to_text value_of l) _ h4 in
      (
        omega (
          arith,
          length-link t.stack heap f p.0 p.1 h5,
          length-store_results t.heap ids l stored,
        ),
        omega (
          arith,
          entries-link t.stack heap f p.0 p.1 (describe-ops to_text value_of l described) h5,
          entries-store_results t.heap ids l stored,
        ),
      )

  length-fail_frame :
      (t : Tracer) (e : String) {t' : Tracer}
      → fail_frame to_text value_of t e ≡ some t'
      → (length t'.heap ≡ length t.heap) × (sum_ops entries_in t'.heap ≡ sum_ops entries_in t.heap)
  unfolding fail_frame
  length-fail_frame t e h =
      let (f, running, h1) = >>=-eq-some (last t.stack) _ h in
      let (frame, at_f, h2) = >>=-eq-some (get_elem? t.heap f) _ h1 in
      let e' = ap (λ (x : Tracer). length x.heap) (some_eq h2) in
      let sums = ap (λ (x : Tracer). sum_ops entries_in x.heap) (some_eq h2) in
      (
        omega (arith, e', length-set t.heap f (record frame { error = held e })),
        omega (arith, sums, entries-set t.heap f frame (record frame { error = held e }) at_f refl),
      )

  -- A step that succeeds adds one record, and one entry to the `ops` of all records, if the
  -- instruction did not fail and its depth is the number of frames, and none otherwise: an instruction of another depth, such as the first
  -- one after a call returns, is not recorded.
  pub length-step :
      (t : Tracer) (l : Log) {t' : Tracer}
      → step to_text value_of t l ≡ some t'
      → (length t'.heap ≡ length t.heap + taken t l)
        × (sum_ops entries_in t'.heap ≡ sum_ops entries_in t.heap + taken t l)
  unfolding step
  length-step t l h = elim (Option-cases (truthy l.error)) [
    | inr (e, failed) ↦
        let (same, entries) = length-fail_frame t e (rw (failed, step) at h) in
        (rw (failed, taken) (omega (arith, same)), rw (failed, taken) (omega (arith, entries)))
    | inl fine ↦ elim (Bool-cases (nat_beq l.depth (length t.stack))) [
      | inl same ↦
          let (more, entries) = length-record_op t l (rw (fine, same, step) at h) in
          (rw (fine, same, taken) more, rw (fine, same, taken) entries)
      | inr other ↦
          let e' = ap (λ (x : Tracer). length x.heap) (some_eq (rw (fine, other, step) at h)) in
          let sums =
            ap (λ (x : Tracer). sum_ops entries_in x.heap)
              (some_eq (rw (fine, other, step) at h)) in
          (
            rw (fine, other, taken) (omega (arith, e')),
            rw (fine, other, taken) (omega (arith, sums)),
          )
    ]
  ]

  -- An instruction that calls another's code in its own context, or without writes.
  abbrev pub Delegates : Log → Type 0
  Delegates l = (l.op.name ≡ "DELEGATECALL") ⊎ (l.op.name ≡ "STATICCALL")
