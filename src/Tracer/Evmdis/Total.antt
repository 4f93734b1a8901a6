-- ===== src/Tracer/Evmdis/Total.antt =====
-- On a valid tracer the script fails only where an operand is missing.
use rmit.Prelude.{
  ℕ, zero, suc, ◌+◌, ◌≤◌, ◌<◌, ◌≡◌, refl, String, none, some, List, [], ◌∷◌, ◌++◌, ◌∙◌, sym, ap,
  subst, arith, nat_beq, length, get_elem?, set, take, get_elem?_lt, inl, inr, Option-cases,
  Bool-cases,
}
use rmit.Prelude.Fallible.{◌>>=◌, some_eq}
use rmit.Tracer.Log.{Log, peek}
use rmit.Tracer.Evmdis.{
  held, OpInfo, Tracer, Effect, last, ops_of, truthy, store_results, describe, link, record_op,
  fail_frame, step, run, peeks, pushes_of, grow, with_return,
}
use rmit.Tracer.Evmdis.Heap.{ops_at-get_elem?, get_elem?-ops_at}
use rmit.Tracer.Evmdis.Valid.{Younger, IsValid, Frames-last, ops_of-held}
use rmit.Tracer.Evmdis.Keeps.{store_results-IsValid, step-IsValid}
use rmit.Tracer.Evmdis.Operands.{Serves, describe_total}

-- The words that the previous instruction of the running frame is due.
unfoldable pub owed : Tracer → ℕ
owed t =
    elim (last t.stack >>= λ f.
    get_elem? t.heap f >>= ops_of >>= last >>= λ p. get_elem? t.heap p) [
      | none ↦ 0
      | some prevop ↦ pushes_of prevop.op
    ]

last-cons : (x : ℕ) (xs : List ℕ) → (y : ℕ) × (last (x ∷ xs) ≡ some y)
unfolding last
last-cons x [] = (x, refl)
last-cons x (y ∷ xs) = last-cons y xs

Younger-last : (i n : ℕ) (js : List ℕ) {j : ℕ} → Younger i n js → last js ≡ some j → j < n
unfolding last
Younger-last i n [] y e = absurd (cc)
Younger-last i n (j ∷ []) y e = ground (arith, y.1)
Younger-last i n (j ∷ k ∷ js) y e = Younger-last i n (k ∷ js) y.2 e

-- The running frame `f` and its `ops`.
record Running (t : Tracer) (f : ℕ) : Type 0 where
  is_last : last t.stack ≡ some f
  frame : OpInfo
  at_f : get_elem? t.heap f ≡ some frame
  ids : List ℕ
  has : ops_of frame ≡ some ids

ops_of-some : (o : OpInfo) {ids : List ℕ} → o.ops ≡ held ids → ops_of o ≡ some ids
unfolding ops_of
ops_of-some o h = rw h

running : (t : Tracer) → IsValid t → (f : ℕ) × Running t f
running t v =
    let (rest, rooted) = v.rooted in
    let (f, e) = last-cons 0 rest in
    let is_last : last t.stack ≡ some f = rw rooted e in
    let (ids, held_at) = Frames-last t.heap t.stack v.frames is_last in
    let (frame, at_f, has) = get_elem?-ops_at t.heap f held_at in
    (
      f,
      record {
        is_last = is_last;
        frame = frame;
        at_f = at_f;
        ids = ids;
        has = ops_of-some frame has;
      },
    )

-- The last record of the running frame is in the heap.
listed :
    (t : Tracer)
    → IsValid t
    → (f : ℕ) (r : Running t f) (p : ℕ) → last r.ids ≡ some p
    → (o : OpInfo) × (get_elem? t.heap p ≡ some o)
listed t v f r p e =
    let at_f = ops_at-get_elem? t.heap f r.at_f ∙ ap some (ops_of-held r.frame r.has) in
    get_elem?_lt t.heap p (Younger-last f (length t.heap) r.ids (v.ordered f (held r.ids) at_f) e)

owed-eq :
    (t : Tracer) {f p : ℕ} {frame prevop : OpInfo} {ids : List ℕ}
    → last t.stack ≡ some f
    → get_elem? t.heap f ≡ some frame
    → ops_of frame ≡ some ids
    → last ids ≡ some p
    → get_elem? t.heap p ≡ some prevop
    → owed t ≡ pushes_of prevop.op
unfolding owed
owed-eq t e1 e2 e3 e4 e5 = rw (e1, e2, e3, e4, e5, owed)

module _ (to_text : ℕ → ℕ → String) (value_of : ℕ → ℕ) where
  peeks_total :
      (l : Log) (n i : ℕ)
      → i + n ≤ length l.words
      → (ws : List String) × (peeks to_text value_of l n i ≡ some ws)
  unfolding peeks peek
  peeks_total l zero i h = ([], refl)
  peeks_total l (suc n) i h =
      let (w, e) = get_elem?_lt l.words i (omega arith) in
      let (ws, e') = peeks_total l n (i + 1) (omega arith) in (to_text 16 w ∷ ws, rw (e, e'))

  store_results_total :
      (heap : List OpInfo) (ids : List ℕ) (l : Log)
      → ((p : ℕ)
          → last ids ≡ some p
          → (o : OpInfo) × (get_elem? heap p ≡ some o) × (pushes_of o.op ≤ length l.words))
      → (heap' : List OpInfo) × (store_results to_text value_of heap ids l ≡ some heap')
  unfolding store_results
  store_results_total heap ids l h = elim (Option-cases (last ids)) [
    | inl e ↦ (heap, rw (e, store_results))
    | inr (p, e) ↦
        let (o, at_p, fits) = h p e in
        let (ws, peeked) = peeks_total l (pushes_of o.op) 0 (omega arith) in
        (
          set heap p (record o { result = o.result ++ ws }),
          rw (e, store_results) (rw (at_p) (rw peeked)),
        )
  ]

  link_total :
      (stack : List ℕ) (heap : List OpInfo) (f : ℕ) (info : OpInfo) (effect : Effect)
      → Running (record { stack = stack; heap = heap }) f
      → (t : Tracer) × (link to_text value_of stack heap f info effect ≡ some t)
  unfolding link
  link_total stack heap f info effect r = (
    record {
      stack = grow effect stack (length heap);
      heap =
          set (heap ++ info ∷ []) f
            (record (with_return effect r.frame) { ops = held (r.ids ++ length heap ∷ []) });
    },
    rw (r.at_f) (rw (r.has)),
  )

  fail_frame_total :
      (t : Tracer) (e : String) (f : ℕ)
      → Running t f
      → (t' : Tracer) × (fail_frame to_text value_of t e ≡ some t')
  unfolding fail_frame
  fail_frame_total t e f r = (
    record t { heap = set t.heap f (record r.frame { error = held e }) },
    rw (r.is_last) (rw (r.at_f)),
  )

  -- The steps of `record_op` one after the other.
  record_op-eq :
      (t : Tracer) (l : Log) {f : ℕ} {frame : OpInfo} {ids : List ℕ} {heap : List OpInfo}
      {r : OpInfo × Effect} {t' : Tracer}
      → last t.stack ≡ some f
      → get_elem? t.heap f ≡ some frame
      → ops_of frame ≡ some ids
      → store_results to_text value_of t.heap ids l ≡ some heap
      → describe to_text value_of l ≡ some r
      → link to_text value_of t.stack heap f r.0 r.1 ≡ some t'
      → record_op to_text value_of t l ≡ some t'
  unfolding record_op
  record_op-eq t l e1 e2 e3 e4 e5 e6 = rw e1 (rw e2 (rw e3 (rw e4 (rw e5 e6))))

  record_op_total :
      (t : Tracer) (l : Log)
      → IsValid t
      → owed t ≤ length l.words
      → (r : OpInfo × Effect) × (describe to_text value_of l ≡ some r)
      → (t' : Tracer) × (record_op to_text value_of t l ≡ some t')
  record_op_total t l v due (r, described) =
      let (f, run) = running t v in
      let (heap, stored) = store_results_total t.heap run.ids l (λ p e.
        let (o, at_p) = listed t v f run p e in
        (o, at_p, omega (arith, due, owed-eq t run.is_last run.at_f run.has e at_p))) in
      let v' = store_results-IsValid to_text value_of t.stack t.heap run.ids l stored v in
      let (f', run') = running (record { stack = t.stack; heap = heap }) v' in
      let same : f' ≡ f = some_eq (sym run'.is_last ∙ run.is_last) in
      let (t', linked) =
        link_total t.stack heap f r.0 r.1
          (subst (Running (record { stack = t.stack; heap = heap })) same run') in
      (t', record_op-eq t l run.is_last run.at_f run.has stored described linked)

  stepped :
      (t : Tracer) (l : Log)
      → IsValid t
      → owed t ≤ length l.words
      → Serves value_of l
      → (t' : Tracer) × (step to_text value_of t l ≡ some t')
  unfolding step
  stepped t l v due serves = elim (Option-cases (truthy l.error)) [
    | inr (e, failed) ↦
        let (f, run) = running t v in
        let (t', done) = fail_frame_total t e f run in (t', rw (failed, step) done)
    | inl fine ↦ elim (Bool-cases (nat_beq l.depth (length t.stack))) [
      | inl same ↦
          let (t', recorded) =
            record_op_total t l v due (describe_total to_text value_of l serves) in
          (t', rw (fine, same, step) recorded)
      | inr other ↦ (record t { stack = take l.depth t.stack }, rw (fine, other, step) refl)
    ]
  ]

  -- On a valid tracer `step` fails for no instruction of depth at least 1 whose operand stack
  -- holds the words due to the previous instruction, and whose operand stack and memory serve the
  -- operands that the switch reads of it; and it leaves a valid tracer.
  pub step_total :
      (t : Tracer) (l : Log)
      → IsValid t
      → 0 < l.depth
      → owed t ≤ length l.words
      → Serves value_of l
      → (t' : Tracer) × (step to_text value_of t l ≡ some t') × IsValid t'
  step_total t l v d due serves =
      let (t', e) = stepped t l v due serves in (t', e, step-IsValid to_text value_of t l v d e)
