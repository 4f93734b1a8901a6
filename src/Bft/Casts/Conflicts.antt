-- ===== src/Bft/Casts/Conflicts.antt =====
-- A node that votes COM has no earlier vote in conflict with it.
use rmit.Prelude.{
  ℕ, ◌+◌, ◌-◌, ◌/◌, ◌%◌, ◌≤◌, ◌≡◌, Bool, true, Option, some, List, [], ◌∷◌, In, filter_if-In, arith,
  leb, nat_beq, Bool-cases, Option-cases, inl, inr, ap, ◌∙◌, number_key,
}
use rmit.Prelude.Fallible.{◌>>=◌, >>=-eq-some, some_eq}
use rmit.Thor.{checkpoint_interval, u32_mod}
use rmit.Bft.Justifier.{BftState}
use rmit.Bft.Walk.{Header}
use rmit.Bft.Engine.{Repo, number_of, compute_state}
use rmit.Bft.Finality.{FinalityState, with_engine}
use rmit.Bft.Casts.{
  ready_casts, slice_casts, includes, no_conflict, recent_justified, vote_with, should_vote,
}

no_conflict-In :
    (r : Repo) (quality recent : ℕ) (casts : List (ℕ × ℕ)) (checkpoint voted : ℕ)
    → no_conflict r quality recent casts ≡ true
    → In (checkpoint, voted) casts
    → quality ≤ voted + 1
    → includes r recent checkpoint ≡ true
unfolding no_conflict
no_conflict-In r quality recent [] checkpoint voted h m high = absurd m
no_conflict-In r quality recent (c ∷ casts) checkpoint voted h m high =
    elim (Bool-cases (leb (quality - 1) c.1)) [
      | inr low ↦ elim m [
        | inl here ↦ absurd (ground (arith, low, ap (λ x. x.1) here))
        | inr later ↦
            no_conflict-In r quality recent casts checkpoint voted (rw low at h) later high
      ]
      | inl counts ↦ elim (Bool-cases (includes r recent c.0)) [
        | inr conflict ↦ absurd (ground (arith, counts, conflict, h))
        | inl same ↦ elim m [
          | inl here ↦ ap (λ x. includes r recent x.0) here ∙ same
          | inr later ↦
              no_conflict-In r quality recent casts checkpoint voted (rw (counts, same) at h) later
                high
        ]
      ]
    ]

module _ (search : ℕ → (ℕ → Option Bool) → Option ℕ) (r : Repo)
    (sort : List (ℕ × ℕ) → List (ℕ × ℕ)) where
  -- What a vote for COM was decided by.
  pub record Agreed (casts : List (ℕ × ℕ)) (s : FinalityState) (parent_id : ℕ) : Type 0 where
    pub header : Header
    pub parent : r.headers parent_id ≡ some header
    pub state : BftState
    pub counted : (compute_state r s.engine header).1 ≡ some state
    pub recent : ℕ
    pub justified :
        recent_justified search r
          (with_engine s (compute_state r s.engine header).0)
          parent_id
          state
        ≡ some recent
    pub agree :
        (checkpoint voted : ℕ)
        → In (checkpoint, voted) casts
        → number_of s.finalized ≤ number_of checkpoint
        → state.quality ≤ voted + 1
        → includes r recent checkpoint ≡ true

  vote_with-Agreed :
      (casts : List (ℕ × ℕ)) (s : FinalityState) (parent_id : ℕ)
      → ((c : ℕ × ℕ) (cs : List (ℕ × ℕ)) → In c cs → In c (sort cs))
      → (vote_with search r sort casts s parent_id).1 ≡ some true
      → Agreed casts s parent_id
  unfolding vote_with slice_casts
  vote_with-Agreed casts s parent_id kept h =
      elim (Bool-cases (
        nat_beq ((number_of parent_id + 1) % u32_mod / checkpoint_interval)
          (r.finality / checkpoint_interval))) [
            | inl first ↦ absurd (ground (arith, first, h))
            | inr later ↦ elim (Option-cases (r.headers parent_id)) [
              | inl e ↦ absurd (ground (arith, later, e, h))
              | inr (header, e) ↦ elim (Option-cases (compute_state r s.engine header).1) [
                | inl failed ↦ absurd (ground (arith, later, e, failed, h))
                | inr (state, counted) ↦ elim (Bool-cases (nat_beq state.quality 0)) [
                  | inl idle ↦ absurd (ground (arith, later, e, counted, idle, h))
                  | inr live ↦
                      let s' = with_engine s (compute_state r s.engine header).0 in
                      let h' : (recent_justified search r s' parent_id state >>= λ recent.
                      some
                        (no_conflict r state.quality recent (slice_casts sort s.finalized casts)))
                          ≡ some true =
                        ground (arith, later, e, counted, live, h) in
                      let (recent, justified, clear) =
                        >>=-eq-some (recent_justified search r s' parent_id state) _ h' in
                      record {
                        header = header;
                        parent = e;
                        state = state;
                        counted = counted;
                        recent = recent;
                        justified = justified;
                        agree = λ checkpoint voted m after high.
                            no_conflict-In r state.quality recent
                              (slice_casts sort s.finalized casts) checkpoint voted (some_eq clear)
                              (kept (checkpoint, voted) _
                                (filter_if-In (λ c. leb (number_of s.finalized) (number_of c.0))
                                  (checkpoint, voted) casts m (ground arith)))
                              high;
                      }
                ]
              ]
            ]
          ]

  -- Where `ShouldVote` says to vote COM, the casts are at hand, and every one of them from the
  -- finalized checkpoint on whose quality is at least one below that of the parent is on the same
  -- branch as the most recent justified checkpoint of the parent, if sorting loses no cast.
  pub should_vote-Agreed :
      (master : ℕ) (scan_heads : ℕ → Option (List ℕ)) (s : FinalityState) (parent_id : ℕ)
      → ((c : ℕ × ℕ) (cs : List (ℕ × ℕ)) → In c cs → In c (sort cs))
      → (should_vote search r sort master scan_heads s parent_id).1 ≡ some true
      → (casts : List (ℕ × ℕ)) × ((ready_casts r master scan_heads s).casts ≡ some casts)
        × Agreed casts (ready_casts r master scan_heads s) parent_id
  unfolding should_vote
  should_vote-Agreed master scan_heads s parent_id kept h =
      let s' = ready_casts r master scan_heads s in
      elim (Option-cases s'.casts) [
        | inl e ↦ absurd (ground (arith, e, h))
        | inr (casts, e) ↦
            (casts, e, vote_with-Agreed casts s' parent_id kept (ground (arith, e, h)))
      ]
