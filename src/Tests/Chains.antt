-- ===== src/Tests/Chains.antt =====
-- A chain with one signer, for the tests of the finality engine.
use rmit.Prelude.{
  ℕ, ◌+◌, ◌-◌, ◌*◌, ◌/◌, ◌%◌, ◌^◌, ◌≤◌, ◌<◌, ◌≡◌, refl, true, false, some, none, Option, Bool, [],
  arith, ltb, if◌then◌else◌, number_key, Bool-cases, inl, inr, zero, suc, dec_lt, ap, ◌∙◌,
}
use rmit.Prelude.Assoc.{lookup}
use rmit.Prelude.Fallible.{◌>>=◌, >>=-eq-some, some_eq}
use rmit.Thor.{u32_mod}
use rmit.Bft.Walk.{Header}
use rmit.Bft.Engine.{Repo, Engine, number_of}
use rmit.Bft.Engine.Tree.{IsTree}
use rmit.Bft.Engine.Tree as Tree
use rmit.Bft.Search.First.{IsSearch}
use rmit.Bft.Finality.Forward.{IsNumbered}

-- A chain whose blocks have their number, behind 28 zero bytes, for an id.
abbrev pub chain : ℕ → Header
chain i = record {
  id = i;
  parent_id = i - 2 ^ 224;
  number = i / 2 ^ 224 % u32_mod;
  signer = 7;
  is_com = true;
  total_score = i / 2 ^ 224;
}

abbrev pub IsBlock : ℕ → Type 0
IsBlock i = (k : ℕ) × (i ≡ k * 2 ^ 224) × (k + 1 < u32_mod)

abbrev pub repo : Repo
repo = record {
  headers = λ i. some (chain i);
  block_at = λ head n. if ltb n u32_mod then some (n * 2 ^ 224) else none;
  max_proposers = λ i. some 101;
  finality = 0;
}

pub is_tree : IsTree repo IsBlock chain
unfolding number_of
is_tree = record {
  own = λ i b. refl;
  numbered = λ i b. refl;
  small = λ i b. omega (arith, b.1, b.2);
  parent = λ i b pos. (b.0 - 1, omega (arith, b.1, b.2), omega (arith, b.2));
  stored = λ i b pos. refl;
  next = λ i b pos. omega (arith, b.1, b.2);
  branch = λ i n b below. refl;
}

abbrev pub idle : Engine
idle = record { qualities = []; states = []; justifiers = [] }

pub idle-IsValid : Tree.IsValid repo IsBlock chain is_tree idle
unfolding lookup
idle-IsValid = record { states = λ i st h. absurd (cc); justifiers = λ i js h. absurd (cc) }

numbered : (n id : ℕ) → n < u32_mod → n * 2 ^ 224 ≡ id → number_of id ≡ n
unfolding number_of
numbered n id small e = omega arith

pub repo-IsNumbered : IsNumbered repo
unfolding number_of
repo-IsNumbered head n id h = elim (Bool-cases (ltb n u32_mod)) [
  | inl small ↦ numbered n id (ground (arith, small)) (some_eq (rw small at h))
  | inr large ↦ absurd (ground (arith, large, h))
]

-- A search from the first index on, as a stand-in for sort.Search.
unfoldable pub search_from : ℕ → ℕ → (ℕ → Option Bool) → Option ℕ
search_from zero i f = some i
search_from (suc rounds) i f = do
  found ← f i
  let rest = search_from rounds (i + 1) f
  if found then some i else rest

abbrev pub search : ℕ → (ℕ → Option Bool) → Option ℕ
search n f = search_from n 0 f

search_from_bound :
    (rounds i m : ℕ) (f : ℕ → Option Bool) → search_from rounds i f ≡ some m → m ≤ i + rounds
unfolding search_from
search_from_bound zero i m f h = ground (arith, h)
search_from_bound (suc rounds) i m f h =
    let (found, at, rest) = >>=-eq-some (f i) _ h in
    elim (Bool-cases found) [
      | inl here ↦ ground (arith, here, rest)
      | inr later ↦ omega (arith, search_from_bound rounds (i + 1) m f (rw later at rest))
    ]

record Least (b : ℕ → Bool) (n i : ℕ) (result : Option ℕ) : Type 0 where
  index : ℕ
  is : result ≡ some index
  low : i ≤ index
  hit : index < n → b index ≡ true
  before : (k : ℕ) → i ≤ k → k < index → b k ≡ false

search_from-Least :
    (rounds i n : ℕ) (f : ℕ → Option Bool) (b : ℕ → Bool)
    → i + rounds ≡ n
    → ((k : ℕ) → k < n → f k ≡ some (b k))
    → Least b n i (search_from rounds i f)
unfolding search_from
search_from-Least zero i n f b e h = record {
  index = i;
  is = refl;
  low = omega arith;
  hit = λ l. absurd (omega arith);
  before = λ k a c. absurd (omega arith);
}
search_from-Least (suc rounds) i n f b e h = elim (Bool-cases (b i)) [
  | inl here ↦ record {
    index = i;
    is = ground (arith, h i, here);
    low = omega arith;
    hit = λ l. here;
    before = λ k a c. absurd (omega arith);
  }
  | inr later ↦
      let r = search_from-Least rounds (i + 1) n f b (omega arith) h in
      record {
        index = r.index;
        is = ground (arith, h i, later, r.is);
        low = omega (arith, r.low);
        hit = r.hit;
        before = λ k a c. elim (dec_lt i k) [
          | yes after ↦ r.before k (omega arith) c
          | no now ↦ let same : k ≡ i = omega arith in ap b same ∙ later
        ];
      }
]

pub search-IsSearch : IsSearch search
search-IsSearch = record {
  bound = λ n f m h. omega (arith, search_from_bound n 0 m f h);
  least = λ n f b h mono.
      let r = search_from-Least n 0 n f b (omega arith) h in
      (r.index, r.is, r.hit, λ i l. r.before i (omega arith) l);
}
