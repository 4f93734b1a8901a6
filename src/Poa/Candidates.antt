-- ===== src/Poa/Candidates.antt =====
-- poa/candidates.go: the candidates of the authority contract, held in memory. The slice of a
-- list is an index into the slices that were made, since copies share it; the candidates in it are
-- values, since the source never writes to one that is shared. An index out of range is `none`.
pub mod Copies
pub mod Choice
use rmit.Prelude.{
  ℕ, zero, suc, ◌%◌, Bool, true, false, ◌||◌, Option, none, some, List, [], ◌∷◌, ◌++◌, nat_beq, ltb,
  leb, if◌then◌else◌, number_key, length, get_elem?, set,
}
use rmit.Prelude.Fallible.{◌>>=◌}
use rmit.Prelude.Assoc.{lookup, insert}
use rmit.Thor.{initial_max_block_proposers, u64_mod}
use rmit.Poa.Proposer.{Proposer}

-- `authority.Candidate`.
pub record Candidate : Type 0 where
  pub node_master : ℕ
  pub endorsor : ℕ
  pub identity : ℕ
  pub active : Bool

pub record Candidates : Type 0 where
  pub list : ℕ
  pub masters : List (ℕ × ℕ)
  pub endorsors : List (ℕ × Bool)
  pub satisfied : List ℕ
  pub referenced : Bool

abbrev pub index_masters : ℕ → List Candidate → List (ℕ × ℕ) → List (ℕ × ℕ)
index_masters i [] masters = masters
index_masters i (c ∷ rest) masters = index_masters (suc i) rest (insert c.node_master i masters)

abbrev pub collect_endorsors : List Candidate → List (ℕ × Bool) → List (ℕ × Bool)
collect_endorsors [] endorsors = endorsors
collect_endorsors (c ∷ rest) endorsors = collect_endorsors rest (insert c.endorsor true endorsors)

unfoldable pub new_candidates :
    List (List Candidate) → List Candidate → List (List Candidate) × Candidates
new_candidates slices list = (
  slices ++ list ∷ [],
  record {
    list = length slices;
    masters = index_masters 0 list [];
    endorsors = collect_endorsors list [];
    satisfied = [];
    referenced = false;
  },
)

-- The object after `Copy`, and the copy.
unfoldable pub copy : Candidates → Candidates × Candidates
copy c = (record c { referenced = true }, record c { referenced = true })

unfoldable pub proposer_limit : ℕ → ℕ
proposer_limit param =
    let max = param % u64_mod in
    if nat_beq max 0 || ltb initial_max_block_proposers max
    then initial_max_block_proposers
    else max

-- The loop of `Pick`: the room left, and the index of the next candidate.
unfoldable pub satisfy : (ℕ → ℕ) → ℕ → ℕ → ℕ → List Candidate → List ℕ
satisfy balance endorsement zero i list = []
satisfy balance endorsement (suc room) i [] = []
satisfy balance endorsement (suc room) i (c ∷ rest) =
    let taken = i ∷ satisfy balance endorsement room (suc i) rest in
    let passed = satisfy balance endorsement (suc room) (suc i) rest in
    if leb endorsement (balance c.endorsor) then taken else passed

abbrev pub proposer_of : Candidate → Proposer
proposer_of c = record { address = c.node_master; active = c.active }

unfoldable pub to_proposers : List Candidate → List ℕ → Option (List Proposer)
to_proposers list [] = some []
to_proposers list (i ∷ rest) =
    get_elem? list i >>= λ c. to_proposers list rest >>= λ ps. some (proposer_of c ∷ ps)

-- The cache of `Pick`, or a new choice if that is empty.
abbrev pub chosen : (ℕ → ℕ) → ℕ → ℕ → List Candidate → List ℕ → List ℕ
chosen balance endorsement max list [] = satisfy balance endorsement max 0 list
chosen balance endorsement max list (i ∷ rest) = i ∷ rest

-- `balance` is that of an address in the state, `endorsement` and `param` are two parameters of
-- the chain.
unfoldable pub pick :
    (ℕ → ℕ) → ℕ → ℕ → List (List Candidate) → Candidates → Option (Candidates × List Proposer)
pick balance endorsement param slices c = get_elem? slices c.list >>= λ list.
    let satisfied = chosen balance endorsement (proposer_limit param) list c.satisfied in
    to_proposers list satisfied >>= λ ps. some (record c { satisfied = satisfied }, ps)

-- A list that a copy may share is cloned before a write.
unfoldable pub clone_shared :
    List (List Candidate) → Candidates → List Candidate → List (List Candidate) × Candidates
clone_shared slices c list =
    if c.referenced
    then (slices ++ list ∷ [], record c { list = length slices; referenced = false })
    else (slices, c)

unfoldable pub update :
    List (List Candidate)
    → Candidates
    → ℕ
    → Bool
    → Option (List (List Candidate) × Candidates × Bool)
update slices c addr active = elim (lookup addr c.masters) [
  | none ↦ some (slices, c, false)
  | some i ↦ get_elem? slices c.list >>= λ list. get_elem? list i >>= λ old.
      let owned = clone_shared slices c list in
      some (set owned.0 owned.1.list (set list i (record old { active = active })), owned.1, true)
]

unfoldable pub is_endorsor : Candidates → ℕ → Bool
is_endorsor c addr = elim (lookup addr c.endorsors) [ none ↦ false | some b ↦ b ]

abbrev pub invalidate_cache : Candidates → Candidates
invalidate_cache c = record c { satisfied = [] }
