-- ===== src/Bft/Engine/Caches.antt =====
-- The caches of the engine change no result of `computeState`.
use rmit.Prelude.{
  ℕ, ◌≤◌, ◌<◌, ◌≡◌, refl, true, ◌||◌, Option, none, some, List, ltb, nat_beq, arith, Bool-cases,
  Option-cases, inl, inr, sym, ap, ◌∙◌, subst, number_key,
}
use rmit.Prelude.Assoc.{lookup, insert, delete, insert-cases, lookup_of_delete}
use rmit.Bft.Rounds.{is_check_point}
use rmit.Bft.Justifier.{Justifier, BftState, summarize}
use rmit.Bft.Justifier.Order.{Same, Same-refl, summarize-Same}
use rmit.Bft.Walk.{Header}
use rmit.Bft.Engine.{Repo, Engine, zero_state, fresh_justifier, vote_set, remember, compute_state}
use rmit.Bft.Engine.Tree.{IsTree, spec_state, Agrees, IsValid}
use rmit.Bft.Engine.Extend.{extend_fresh}

module _ (r : Repo) (IsBlock : ℕ → Type 0) (of_id : ℕ → Header)
    (tree : IsTree r IsBlock of_id) where
  abbrev Valid : Engine → Type 0
  Valid e = IsValid r IsBlock of_id tree e

  -- With or without the cache the votes are the fresh ones, and so are the errors.
  abbrev Sames : Option Justifier → Option Justifier → Type 0
  Sames none none = Unit {0}
  Sames (some x) (some y) = Same x y
  Sames _ _ = ⊥

  Sames-refl : (o : Option Justifier) → Sames o o
  Sames-refl none = tt
  Sames-refl (some x) = Same-refl x

  vote_set-fresh :
      (e : Engine) (i : ℕ)
      → Valid e
      → IsBlock i
      → 0 < (of_id i).number
      → r.finality ≤ (of_id i).number
      → Sames (fresh_justifier r e.qualities (of_id i)) (vote_set r e (of_id i))
  unfolding vote_set
  vote_set-fresh e i v b pos due =
      let h = of_id i in
      let fresh = fresh_justifier r e.qualities h in
      elim (Option-cases (lookup h.parent_id e.justifiers)) [
        | inl missing ↦ rw (missing, vote_set) (Sames-refl fresh)
        | inr (js, cached) ↦ elim (Bool-cases (is_check_point h.number)) [
          | inl point ↦ rw (cached, point, vote_set) (Sames-refl fresh)
          | inr plain ↦
              let (jf, je, e1, e2, same) =
                extend_fresh r IsBlock of_id tree e.qualities i js b pos due plain
                  (v.justifiers h.parent_id js cached) in
              rw (cached, plain, vote_set) (rw e1 (rw e2 same))
        ]
      ]

  -- The engine after `computeState` has counted votes.
  abbrev remembered : Engine → ℕ → Justifier → Engine
  remembered e i js = record e {
    states = insert (of_id i).id (summarize js) e.states;
    justifiers = insert (of_id i).id js (delete (of_id i).parent_id e.justifiers);
  }

  delete-IsValid :
      (e : Engine) (k : ℕ) → Valid e → Valid (record e { justifiers = delete k e.justifiers })
  delete-IsValid e k v = record {
    states = v.states;
    justifiers = λ j js h. v.justifiers j js (lookup_of_delete k j js e.justifiers h);
  }

  spec_state-fresh :
      (qualities : List (ℕ × ℕ)) (h : Header) {jf js : Justifier}
      → 0 < h.number
      → r.finality ≤ h.number
      → fresh_justifier r qualities h ≡ some jf
      → Same jf js
      → spec_state r qualities h ≡ some (summarize js)
  unfolding spec_state
  spec_state-fresh qualities h pos due computed same = ground (arith, computed, summarize-Same same)

  remembered-IsValid :
      (e : Engine) (i : ℕ) (jf js : Justifier)
      → Valid e
      → IsBlock i
      → 0 < (of_id i).number
      → r.finality ≤ (of_id i).number
      → fresh_justifier r e.qualities (of_id i) ≡ some jf
      → Same jf js
      → Valid (remembered e i js)
  remembered-IsValid e i jf js v b pos due computed same = record {
    states = λ j st h. elim (insert-cases (of_id i).id j (summarize js) st e.states h) [
      | inl (at, is) ↦
          let here : i ≡ j = sym (tree.own i b) ∙ at in
          subst (λ x. spec_state r e.qualities (of_id x) ≡ some st) here
            (spec_state-fresh e.qualities (of_id i) pos due computed same ∙ ap some is)
      | inr old ↦ v.states j st old
    ];
    justifiers = λ j kept h.
        elim (insert-cases (of_id i).id j js kept (delete (of_id i).parent_id e.justifiers) h) [
          | inl (at, is) ↦
              let here : i ≡ j = sym (tree.own i b) ∙ at in
              subst (λ x. Agrees r IsBlock of_id tree e.qualities x kept) here
                (record {
                  block = b;
                  positive = pos;
                  due = due;
                  anew = jf;
                  computed = computed;
                  votes = subst (Same jf) is same;
                })
          | inr old ↦
              v.justifiers j kept (lookup_of_delete (of_id i).parent_id j kept e.justifiers old)
        ];
  }

  abbrev Good : Engine → Header → Engine × Option BftState → Type 0
  Good e h x = (x.1 ≡ spec_state r e.qualities h) × Valid x.0

  counted-Good :
      (e : Engine) (i : ℕ) (f o : Option Justifier)
      → Valid e
      → IsBlock i
      → 0 < (of_id i).number
      → r.finality ≤ (of_id i).number
      → fresh_justifier r e.qualities (of_id i) ≡ f
      → Sames f o
      → Good e (of_id i) (remember e (of_id i) o)
  unfolding remember spec_state
  counted-Good e i none none v b pos due computed same =
      (ground (arith, computed), delete-IsValid e (of_id i).parent_id v)
  counted-Good e i (some jf) (some js) v b pos due computed same = (
    sym (spec_state-fresh e.qualities (of_id i) pos due computed same),
    remembered-IsValid e i jf js v b pos due computed same,
  )
  counted-Good e i none (some js) v b pos due computed same = absurd same
  counted-Good e i (some jf) none v b pos due computed same = absurd same

  spec_state-zero :
      (qualities : List (ℕ × ℕ)) (h : Header)
      → (nat_beq h.number 0 || ltb h.number r.finality) ≡ true
      → spec_state r qualities h ≡ some zero_state
  unfolding spec_state
  spec_state-zero qualities h early = rw early

  -- What `computeState` returns, with or without an error, is what counting every vote of the
  -- round anew gives, and its caches stay valid.
  pub compute_state-spec_state :
      (e : Engine) (i : ℕ)
      → Valid e
      → IsBlock i
      → ((compute_state r e (of_id i)).1 ≡ spec_state r e.qualities (of_id i))
        × Valid (compute_state r e (of_id i)).0
  unfolding compute_state
  compute_state-spec_state e i v b =
      let h = of_id i in
      elim (Option-cases (lookup h.id e.states)) [
        | inr (st, cached) ↦
            rw (cached, compute_state)
              (
                sym (
                    v.states i st (subst (λ x. lookup x e.states ≡ some st) (tree.own i b) cached)),
                v,
              )
        | inl missing ↦ elim (Bool-cases (nat_beq h.number 0 || ltb h.number r.finality)) [
          | inl early ↦
              rw (missing, early, compute_state) (sym (spec_state-zero e.qualities h early), v)
          | inr late ↦
              let pos : 0 < h.number = ground (arith, late) in
              let due : r.finality ≤ h.number = ground (arith, late) in
              rw (missing, late, compute_state)
                (counted-Good e i (fresh_justifier r e.qualities h) (vote_set r e h) v b pos due
                  refl (vote_set-fresh e i v b pos due))
        ]
      ]
