-- ===== src/Packer/Pack/Checked.antt =====
-- The header that a packer builds passes the checks of a header.
use rmit.Prelude.{
  ℕ, ◌+◌, ◌-◌, ◌/◌, ◌%◌, ◌≤◌, ◌<◌, ◌≡◌, inl, inr, refl, Bool, true, Option, some, List, [], ◌∷◌,
  ◌++◌, nat_beq, ltb, Bool-cases, arith, ap, sym, ◌∙◌, subst,
}
use rmit.Prelude.Fallible.{>>=-eq-some, some_eq}
use rmit.Thor.{block_interval, min_gas_limit, u64_mod, u32_mod}
use rmit.Block.GasLimit.{is_valid, qualify_valid}
use rmit.Poa.Slots.{IsSlot}
use rmit.Consensus.Headers.{
  BlockHeader, ForkConfig, valid, bytes_length, complex_sig_size, beta, validate_block_header,
}
use rmit.Consensus.Headers.Accepted.{Sealed, validate_block_header-Accepted}
use rmit.Packer.Pack.{Signing, Flow, unsigned, chained, pack, target_limit, new_complex_signature}

-- What is relied on of signing: a signature has 65 bytes, and a proof for the alpha of a header
-- verifies behind the signature of the header.
pub record IsSound (k : Signing) : Type 0 where
  pub plain : (h : BlockHeader) → bytes_length (k.sign h) ≡ 65
  pub proved :
      (h : BlockHeader) (proof : List ℕ)
      → k.prove h.alpha ≡ some proof
      → (b : List ℕ) × (k.verify (record h { signature = k.sign h ++ proof }) ≡ some b)

bytes_length-append : (xs ys : List ℕ) → bytes_length (xs ++ ys) ≡ bytes_length xs + bytes_length ys
bytes_length-append [] ys = omega arith
bytes_length-append (x ∷ xs) ys = omega (arith, bytes_length-append xs ys)

-- A complex signature is the signature and the proof, of its size together.
new_complex_signature_joined :
    (signature proof sig : List ℕ)
    → new_complex_signature signature proof ≡ some sig
    → (signature ++ proof ≡ sig) × (bytes_length sig ≡ complex_sig_size)
unfolding new_complex_signature
new_complex_signature_joined signature proof sig h =
    let size : bytes_length signature + bytes_length proof ≡ complex_sig_size = ground arith in
    let is : signature ++ proof ≡ sig = ground arith in
    (is, ap bytes_length (sym is) ∙ bytes_length-append signature proof ∙ size)

same_limit_valid : (limit : ℕ) → min_gas_limit ≤ limit → is_valid limit limit ≡ true
unfolding is_valid
same_limit_valid limit low = ground arith

pub target_limit-is_valid :
    (target parent : ℕ)
    → min_gas_limit ≤ parent
    → parent < u64_mod
    → is_valid (target_limit target parent) parent ≡ true
unfolding target_limit
target_limit-is_valid target parent low high = elim (Bool-cases (nat_beq target 0)) [
  | inl unset ↦ rw unset (same_limit_valid parent low)
  | inr set ↦ rw set (qualify_valid target parent low high)
]

-- The beta of a header with a verified proof.
beta_proved :
    (verify : BlockHeader → Option (List ℕ)) (h : BlockHeader)
    → bytes_length h.signature ≡ complex_sig_size
    → ((b : List ℕ) × (verify h ≡ some b))
    → (b : List ℕ) × (beta verify h ≡ some b)
unfolding beta
beta_proved verify h length (b, is) = elim (Bool-cases (nat_beq h.number 0)) [
  | inl zero_is ↦ ([], ground (arith, zero_is))
  | inr later ↦ (b, ground (arith, later, length, is))
]

module _ (k : Signing) (fork : ForkConfig) (f : Flow) (should_vote : Bool) where
  -- A header that `Pack` returns has the fields of the flow, and is sealed.
  record Packed (header : BlockHeader) : Type 0 where
    timestamp : header.timestamp ≡ f.time
    gas_limit : header.gas_limit ≡ f.gas_limit
    gas_used : header.gas_used ≡ f.gas_used
    total_score : header.total_score ≡ f.total_score
    seal : Sealed k.verify fork header f.parent
    vote : header.com_vote ≡ true → fork.finality ≤ header.number

  pack-Packed :
      (header : BlockHeader) → IsSound k → pack k fork f should_vote ≡ some header → Packed header
  unfolding pack
  pack-Packed header sound h =
      let mine : nat_beq f.node_master k.address ≡ true = ground (arith, h) in
      elim (Bool-cases (ltb ((f.parent.number + 1) % u32_mod) fork.vip214)) [
        | inl before ↦
            let plain = unsigned fork f should_vote in
            subst Packed (some_eq (rw (mine, before) at h)) (record {
              timestamp = refl;
              gas_limit = refl;
              gas_used = refl;
              total_score = refl;
              seal = inl (ground (arith, before), refl, sound.plain plain);
              vote = λ v. ground (arith, v);
            })
        | inr from ↦
            let (pb, known, rest) = >>=-eq-some (beta k.verify f.parent) _ (rw (mine, from) at h) in
            let header_of = chained k fork f should_vote pb in
            let (proof, proven, more) = >>=-eq-some (k.prove header_of.alpha) _ rest in
            let (sig, joined, is) =
              >>=-eq-some (new_complex_signature (k.sign header_of) proof) _ more in
            let (parts, length) =
              new_complex_signature_joined (k.sign header_of) proof sig joined in
            let (b, verified) = sound.proved header_of proof proven in
            let (own, own_is) =
              beta_proved k.verify (record header_of { signature = sig }) length
                (
                  b,
                  ap (λ x. k.verify (record header_of { signature = x })) (sym parts) ∙ verified,
                ) in
            subst Packed (some_eq is) (record {
              timestamp = refl;
              gas_limit = refl;
              gas_used = refl;
              total_score = refl;
              seal = inr (ground (arith, from), length, (pb, own, known, refl, own_is));
              vote = λ v. ground (arith, v);
            })
      ]

-- The header that a packer returns, at a time slot that it is given and with the gas limit that it
-- chooses for a parent limit of at least the minimum, passes the checks of a header, if signing is
-- sound, the gas used is within the limit, the score grows, and the checking clock neither wraps
-- nor is more than an interval behind.
pub validate_block_header-pack :
    (k : Signing) (fork : ForkConfig) (f : Flow) (should_vote : Bool) (target now : ℕ)
    (header : BlockHeader)
    → IsSound k
    → min_gas_limit ≤ f.parent.gas_limit
    → f.parent.gas_limit < u64_mod
    → f.gas_limit ≡ target_limit target f.parent.gas_limit
    → f.gas_used ≤ f.gas_limit
    → f.parent.total_score < f.total_score
    → IsSlot f.parent.timestamp f.time
    → f.time ≤ now + block_interval
    → now + block_interval < u64_mod
    → pack k fork f should_vote ≡ some header
    → validate_block_header k.verify fork header f.parent now ≡ valid
validate_block_header-pack k fork f should_vote target now header sound low high limit used score
      slot due fits packed =
    let p = pack-Packed k fork f should_vote header sound packed in
    (validate_block_header-Accepted k.verify fork header f.parent now fits).1 (record {
      slot = ((f.time - f.parent.timestamp) / block_interval - 1, omega (arith, slot, p.timestamp));
      due = omega (arith, p.timestamp, due);
      limit =
          ap (λ l. is_valid l f.parent.gas_limit) (p.gas_limit ∙ limit)
          ∙ target_limit-is_valid target f.parent.gas_limit low high;
      used = omega (arith, p.gas_limit, p.gas_used, used);
      score = omega (arith, p.total_score, score);
      seal = p.seal;
      vote = p.vote;
    })
