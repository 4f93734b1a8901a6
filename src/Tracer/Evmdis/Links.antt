-- ===== src/Tracer/Evmdis/Links.antt =====
-- The write that adds a record to a frame keeps the order of the records.
use rmit.Prelude.{
  ℕ, suc, ◌<◌, ◌≡◌, refl, ◌≢◌, some, List, [], ◌∷◌, ◌++◌, ◌∙◌, sym, ap, subst, arith, length,
  length-set, length-append, set, ℕ_discrete, dec_lt, ◌+◌, nat_beq, count_if-append,
}
use rmit.Prelude.Fallible.{some_eq}
use rmit.Tracer.Evmdis.{Slot, held, OpInfo, Effect, enter, leave, plain, grow}
use rmit.Tracer.Evmdis.Heap.{
  ops_at, ops_at-set_self, ops_at-set_ne, ops_at-append_old, ops_at-append_new, ops_at_bound,
  sum_ops, sum_ops-set, sum_ops-append, times_in,
}
use rmit.Tracer.Evmdis.Valid.{
  IsFrame, Frames, Younger, YoungerSlot, IsValid, Younger-append, YoungerSlot-mono, Frames-transfer,
  Frames-append, opening, listed_times,
}

grow-Frames :
    (heap : List OpInfo) (effect : Effect) (stack : List ℕ) (n : ℕ)
    → Frames heap stack
    → (opening effect ≡ held [] → IsFrame heap n)
    → Frames heap (grow effect stack n)
unfolding opening
grow-Frames heap enter stack n h f = Frames-append heap stack n h (f refl)
grow-Frames heap (leave bytes) stack n h f = h
grow-Frames heap plain stack n h f = h

grow_rooted :
    (effect : Effect) (stack : List ℕ) (n : ℕ)
    → (rest : List ℕ) × (stack ≡ 0 ∷ rest)
    → (rest : List ℕ) × (grow effect stack n ≡ 0 ∷ rest)
grow_rooted enter stack n (rest, e) = (rest ++ n ∷ [], ap (λ s. s ++ n ∷ []) e)
grow_rooted (leave bytes) stack n r = r
grow_rooted plain stack n r = r

-- A frame gets the new record as its youngest entry.
module _ (heap : List OpInfo) (f : ℕ) (info frame' : OpInfo) (effect : Effect) (ids : List ℕ) where
  abbrev pub linked : List OpInfo
  linked = set (heap ++ info ∷ []) f frame'

  module _ (opens : info.ops ≡ opening effect) (at_f : ops_at heap f ≡ some (held ids))
      (gets : frame'.ops ≡ held (ids ++ length heap ∷ [])) where
    pub length-linked : length linked ≡ suc (length heap)
    length-linked =
        omega (arith, length-set (heap ++ info ∷ []) f frame', length-append heap (info ∷ []))

    pub linked_self : ops_at linked f ≡ some (held (ids ++ length heap ∷ []))
    linked_self =
        ops_at-set_self (heap ++ info ∷ []) f frame'
          (omega (arith, length-append heap (info ∷ []), ops_at_bound heap f at_f))
        ∙ ap some gets

    pub linked_old : (i : ℕ) → f ≢ i → i < length heap → ops_at linked i ≡ ops_at heap i
    linked_old i ne h =
        ops_at-set_ne (heap ++ info ∷ []) f i frame' ne ∙ ops_at-append_old heap info i h

    pub linked_new : ops_at linked (length heap) ≡ some info.ops
    linked_new =
        ops_at-set_ne (heap ++ info ∷ []) f (length heap) frame'
          (λ e. absurd (omega (arith, ops_at_bound heap f at_f)))
        ∙ ops_at-append_new heap info

    pub linked-IsFrame : (j : ℕ) → IsFrame heap j → IsFrame linked j
    linked-IsFrame j (js, e) = elim (ℕ_discrete f j) [
      | yes p ↦ (
        ids ++ length heap ∷ [],
        subst (λ x. ops_at linked x ≡ some (held (ids ++ length heap ∷ []))) p linked_self,
      )
      | no ne ↦ (js, linked_old j ne (ops_at_bound heap j e) ∙ e)
    ]

    opening-YoungerSlot : (i n : ℕ) (e : Effect) → YoungerSlot i n (opening e)
    unfolding opening
    opening-YoungerSlot i n enter = tt
    opening-YoungerSlot i n _ = tt

    pub linked_ordered :
        ((i : ℕ) (s : Slot (List ℕ)) → ops_at heap i ≡ some s → YoungerSlot i (length heap) s)
        → (i : ℕ) (s : Slot (List ℕ)) → ops_at linked i ≡ some s
        → YoungerSlot i (length linked) s
    linked_ordered old i s h = elim (ℕ_discrete f i) [
      | yes p ↦
          let e : s ≡ held (ids ++ length heap ∷ []) = some_eq (
            sym h
            ∙ subst (λ x. ops_at linked x ≡ some (held (ids ++ length heap ∷ []))) p linked_self) in
          rw (length-linked, e)
            (Younger-append i (length heap) ids (omega (arith, p, ops_at_bound heap f at_f))
              (subst (λ x. Younger x (length heap) ids) p (old f (held ids) at_f)))
      | no ne ↦ elim (dec_lt i (length heap)) [
        | yes below ↦ rw length-linked (
            YoungerSlot-mono i (length heap) (suc (length heap)) s (omega arith)
              (old i s (sym (linked_old i ne below) ∙ h)))
        | no above ↦
            let here : length heap ≡ i = omega (arith, length-linked, ops_at_bound linked i h) in
            let e : s ≡ opening effect =
              some_eq (sym h ∙ subst (λ x. ops_at linked x ≡ some info.ops) here linked_new)
              ∙ opens in
            rw e (opening-YoungerSlot i (length linked) effect)
      ]
    ]

    grown-Frames :
        (stack : List ℕ) → Frames heap stack → Frames linked (grow effect stack (length heap))
    grown-Frames stack h =
        grow-Frames linked effect stack (length heap)
          (Frames-transfer heap linked linked-IsFrame stack h)
          (λ e. ([], linked_new ∙ ap some (opens ∙ e)))

    -- What the list of the frame and the new record count for.
    pub linked_sum :
        (g : Slot (List ℕ) → ℕ)
        → sum_ops g linked + g (held ids)
          ≡ sum_ops g heap + g info.ops + g (held (ids ++ length heap ∷ []))
    linked_sum g =
        let at = ops_at-append_old heap info f (ops_at_bound heap f at_f) ∙ at_f in
        let got : g frame'.ops ≡ g (held (ids ++ length heap ∷ [])) = ap g gets in
        omega
          (arith, got, sum_ops-set g (heap ++ info ∷ []) f frame' at, sum_ops-append g heap info)

    opening-times_in : (i : ℕ) (e : Effect) → times_in i (opening e) ≡ 0
    unfolding opening
    opening-times_in i enter = refl
    opening-times_in i (leave bytes) = refl
    opening-times_in i plain = refl

    linked_once :
        ((i : ℕ) → sum_ops (times_in i) heap ≡ listed_times i (length heap))
        → (i : ℕ) → sum_ops (times_in i) linked ≡ listed_times i (length linked)
    linked_once old i =
        let none_new : times_in i info.ops ≡ 0 =
          ap (times_in i) opens ∙ opening-times_in i effect in
        let more = count_if-append (nat_beq i) ids (length heap ∷ []) in
        let sum = linked_sum (times_in i) in
        let room = ops_at_bound heap f at_f in
        ground (arith, none_new, more, sum, room, old i, length-linked)

    -- So a step that adds a record keeps the invariant.
    pub linked-IsValid :
        (stack : List ℕ)
        → IsValid (record { stack = stack; heap = heap })
        → IsValid (record { stack = grow effect stack (length heap); heap = linked })
    linked-IsValid stack v = record {
      rooted = grow_rooted effect stack (length heap) v.rooted;
      frames = grown-Frames stack v.frames;
      ordered = linked_ordered v.ordered;
      once = linked_once v.once;
    }
