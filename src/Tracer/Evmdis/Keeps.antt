-- ===== src/Tracer/Evmdis/Keeps.antt =====
-- Every step of evmdis_tracer.js keeps the invariant.
use rmit.Prelude.{
  ℕ, zero, suc, ◌<◌, ◌≡◌, refl, String, Bool, true, false, Option, none, some, List, [], ◌∷◌, ◌++◌,
  ◌∙◌, ap, subst, arith, if◌then◌else◌, nat_beq, length, get_elem?, take, inl, inr, Option-cases,
  Bool-cases,
}
use rmit.Prelude.Fallible.{◌>>=◌, >>=-eq-some, some_eq}
use rmit.Tracer.Log.{Log, slice}
use rmit.Tracer.Evmdis.{
  Slot, missing, held, OpInfo, Tracer, Effect, enter, leave, plain, last, ops_of, truthy,
  store_results, describe, by_name, call_info, delegate_info, returned, link, record_op, fail_frame,
  step, run, init, peeks, pushes_of, op_info, with_return,
}
use rmit.Tracer.Evmdis.Heap.{ops_at, ops_at-get_elem?, sum_ops, times_in}
use rmit.Tracer.Evmdis.Valid.{
  YoungerSlot, IsValid, Frames-take, ops_of-held, opening, same-IsValid, listed_times,
}
use rmit.Tracer.Evmdis.Links.{linked-IsValid}

-- A new record is a frame, or has no `ops`.
record Opens (m : Option (OpInfo × Effect)) : Type 0 where
  at : (info : OpInfo) (effect : Effect) → m ≡ some (info, effect) → info.ops ≡ opening effect

Opens-if :
    (c : Bool) (a b : Option (OpInfo × Effect)) → Opens a → Opens b → Opens (if c then a else b)
Opens-if true a b h k = h
Opens-if false a b h k = k

Opens-some :
    (info : OpInfo) (effect : Effect) → info.ops ≡ opening effect → Opens (some (info, effect))
Opens-some info effect h = record { at = λ info' effect' e. ground (arith, h, e) }

Opens-enter :
    (m : Option OpInfo)
    → ((info : OpInfo) → m ≡ some info → info.ops ≡ held [])
    → Opens (m >>= λ info. some (info, enter))
unfolding opening
Opens-enter none h = record { at = λ info effect e. absurd (cc) }
Opens-enter (some info) h = Opens-some info enter (h info refl)

Opens-leave :
    (m : Option (List ℕ)) (info : OpInfo)
    → info.ops ≡ missing
    → Opens (m >>= λ bytes. some (info, leave bytes))
unfolding opening
Opens-leave none info h = record { at = λ info' effect e. absurd (cc) }
Opens-leave (some bytes) info h = Opens-some info (leave bytes) h

init-ordered : (i : ℕ) (s : Slot (List ℕ)) → ops_at (init.heap) i ≡ some s → YoungerSlot i 1 s
init-ordered zero s h = subst (YoungerSlot 0 1) (some_eq h) tt
init-ordered (suc i) s h = absurd (cc)

init-once : (i : ℕ) → sum_ops (times_in i) init.heap ≡ listed_times i 1
init-once i = ground arith

pub init-IsValid : IsValid init
init-IsValid = record {
  rooted = ([], refl);
  frames = (([], refl), tt);
  ordered = init-ordered;
  once = init-once;
}

-- Every instruction runs at depth 1 or more.
abbrev pub Deep : List Log → Type 0
Deep [] = Unit {0}
Deep (l ∷ logs) = (0 < l.depth) × Deep logs

module _ (to_text : ℕ → ℕ → String) (value_of : ℕ → ℕ) where
  call_info-ops :
      (l : Log) {info : OpInfo} → call_info to_text value_of l ≡ some info → info.ops ≡ held []
  unfolding call_info
  call_info-ops l h = ground arith

  delegate_info-ops :
      (l : Log) {info : OpInfo} → delegate_info to_text value_of l ≡ some info → info.ops ≡ held []
  unfolding delegate_info
  delegate_info-ops l h = ground arith

  by_name-Opens : (l : Log) → Opens (by_name to_text value_of l)
  unfolding by_name opening
  by_name-Opens l =
      Opens-if _ _ _ (Opens-enter (call_info to_text value_of l) (λ info h. call_info-ops l h)) (
        Opens-if _ _ _
          (Opens-enter (delegate_info to_text value_of l) (λ info h. delegate_info-ops l h))
          (Opens-if _ _ _
            (Opens-leave (returned to_text value_of l) (op_info to_text value_of l) refl)
            (Opens-if _ _ _ (Opens-leave (slice l 0 0) (op_info to_text value_of l) refl)
              (Opens-if _ _ _ (Opens-some _ plain refl) (Opens-some _ plain refl)))))

  pub describe-ops :
      (l : Log) {info : OpInfo} {effect : Effect}
      → describe to_text value_of l ≡ some (info, effect)
      → info.ops ≡ opening effect
  unfolding describe
  describe-ops l {info} {effect} h =
      let (p, named, h1) = >>=-eq-some (by_name to_text value_of l) _ h in
      ground (arith, (by_name-Opens l).at p.0 p.1 named, h1)

  pub store_results-IsValid :
      (stack : List ℕ) (heap : List OpInfo) (ops : List ℕ) (l : Log) {heap' : List OpInfo}
      → store_results to_text value_of heap ops l ≡ some heap'
      → IsValid (record { stack = stack; heap = heap })
      → IsValid (record { stack = stack; heap = heap' })
  unfolding store_results
  store_results-IsValid stack heap ops l {heap'} h v = elim (Option-cases (last ops)) [
    | inl e ↦ subst (λ x. IsValid (record { stack = stack; heap = x })) (ground (arith, e)) v
    | inr (p, e) ↦
        let (prevop, at_p, h1) = >>=-eq-some (get_elem? heap p) _ (rw (e, store_results) at h) in
        let (words, peeked, h2) =
          >>=-eq-some (peeks to_text value_of l (pushes_of prevop.op) 0) _ h1 in
        subst (λ x. IsValid (record { stack = stack; heap = x })) (some_eq h2)
          (same-IsValid stack heap p (record prevop { result = prevop.result ++ words })
            (ops_at-get_elem? heap p at_p) v)
  ]

  link-IsValid :
      (stack : List ℕ) (heap : List OpInfo) (f : ℕ) (info : OpInfo) (effect : Effect) {t : Tracer}
      → IsValid (record { stack = stack; heap = heap })
      → info.ops ≡ opening effect
      → link to_text value_of stack heap f info effect ≡ some t
      → IsValid t
  unfolding link
  link-IsValid stack heap f info effect {t} v opens h =
      let (frame, at_f, h1) = >>=-eq-some (get_elem? heap f) _ h in
      let (ids, has, h2) = >>=-eq-some (ops_of frame) _ h1 in
      subst IsValid (some_eq h2) (
        linked-IsValid heap f info
          (record (with_return effect frame) { ops = held (ids ++ length heap ∷ []) }) effect ids
          opens (ops_at-get_elem? heap f at_f ∙ ap some (ops_of-held frame has)) refl stack v)

  record_op-IsValid :
      (t : Tracer) (l : Log) {t' : Tracer}
      → IsValid t
      → record_op to_text value_of t l ≡ some t'
      → IsValid t'
  unfolding record_op
  record_op-IsValid t l v h =
      let (f, running, h1) = >>=-eq-some (last t.stack) _ h in
      let (frame, at_f, h2) = >>=-eq-some (get_elem? t.heap f) _ h1 in
      let (ids, has, h3) = >>=-eq-some (ops_of frame) _ h2 in
      let (heap, stored, h4) = >>=-eq-some (store_results to_text value_of t.heap ids l) _ h3 in
      let (p, described, h5) = >>=-eq-some (describe to_text value_of l) _ h4 in
      link-IsValid t.stack heap f p.0 p.1 (store_results-IsValid t.stack t.heap ids l stored v)
        (describe-ops l described) h5

  fail_frame-IsValid :
      (t : Tracer) (e : String) {t' : Tracer}
      → IsValid t
      → fail_frame to_text value_of t e ≡ some t'
      → IsValid t'
  unfolding fail_frame
  fail_frame-IsValid t e v h =
      let (f, running, h1) = >>=-eq-some (last t.stack) _ h in
      let (frame, at_f, h2) = >>=-eq-some (get_elem? t.heap f) _ h1 in
      subst IsValid (some_eq h2) (
        same-IsValid t.stack t.heap f (record frame { error = held e })
          (ops_at-get_elem? t.heap f at_f) v)

  cut-IsValid :
      (t : Tracer) (n : ℕ) → 0 < n → IsValid t → IsValid (record t { stack = take n t.stack })
  cut-IsValid t zero h v = absurd (omega arith)
  cut-IsValid t (suc n) h v = record {
    rooted = (take n v.rooted.0, ap (take (suc n)) v.rooted.1);
    frames = Frames-take t.heap (suc n) t.stack v.frames;
    ordered = v.ordered;
    once = v.once;
  }

  -- An instruction of depth at least 1 that the tracer takes in keeps the invariant.
  pub step-IsValid :
      (t : Tracer) (l : Log) {t' : Tracer}
      → IsValid t
      → 0 < l.depth
      → step to_text value_of t l ≡ some t'
      → IsValid t'
  unfolding step
  step-IsValid t l v d h = elim (Option-cases (truthy l.error)) [
    | inr (e, failed) ↦ fail_frame-IsValid t e v (rw (failed, step) at h)
    | inl fine ↦ elim (Bool-cases (nat_beq l.depth (length t.stack))) [
      | inl same ↦ record_op-IsValid t l v (rw (fine, same, step) at h)
      | inr other ↦
          subst IsValid (some_eq (rw (fine, other, step) at h)) (cut-IsValid t l.depth d v)
    ]
  ]

  -- After a trace at depths of 1 or more, which a valid tracer runs to its end, the frames are
  -- records with `ops`, the root is the bottom one, and the records form a tree: each but the root
  -- stands exactly once in the `ops` of all records, in those of an older one, and the root in none.
  pub run-IsValid :
      (logs : List Log) (t : Tracer) {t' : Tracer}
      → IsValid t
      → Deep logs
      → run to_text value_of t logs ≡ some t'
      → IsValid t'
  unfolding run
  run-IsValid [] t v d h = subst IsValid (some_eq h) v
  run-IsValid (l ∷ logs) t v d h =
      let (t1, stepped, h1) = >>=-eq-some (step to_text value_of t l) _ h in
      run-IsValid logs t1 (step-IsValid t l v d.0 stepped) d.1 h1
