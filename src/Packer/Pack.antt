-- ===== src/Packer/Pack.antt =====
-- packer/flow.go: the header that `Pack` builds and signs, and the gas limit that packer/packer.go
-- gives it. Signing and the VRF proof are parameters.
pub mod Checked
use rmit.Prelude.{
  ℕ, ◌+◌, ◌%◌, Bool, true, false, not, ◌&&◌, Option, none, some, List, [], ◌++◌, nat_beq, ltb, leb,
  if◌then◌else◌,
}
use rmit.Prelude.Fallible.{◌>>=◌}
use rmit.Thor.{u32_mod}
use rmit.Block.GasLimit.{qualify}
use rmit.Consensus.Headers.{BlockHeader, ForkConfig, beta, expected_alpha, bytes_length}

-- `Packer.gasLimit`, with the target of the packer, where 0 stands for none.
unfoldable pub target_limit : ℕ → ℕ → ℕ
target_limit target parent_limit =
    if not (nat_beq target 0) then qualify target parent_limit else parent_limit

-- The private key: its address, and what code from outside makes of it, the signature of a header,
-- the VRF proof for an alpha, and the check of the proof in the signature of a header, which gives
-- its output.
pub record Signing : Type 0 where
  pub address : ℕ
  pub sign : BlockHeader → List ℕ
  pub prove : List ℕ → Option (List ℕ)
  pub verify : BlockHeader → Option (List ℕ)

-- `NewComplexSignature` of block/complex_signature.go.
unfoldable pub new_complex_signature : List ℕ → List ℕ → Option (List ℕ)
new_complex_signature signature proof =
    if not (nat_beq (bytes_length signature) 65)
    then none
    else if not (nat_beq (bytes_length proof) 81)
    then none
    else some (signature ++ proof)

-- What is known of a flow when it packs.
pub record Flow : Type 0 where
  pub node_master : ℕ
  pub parent : BlockHeader
  pub time : ℕ
  pub total_score : ℕ
  pub gas_limit : ℕ
  pub gas_used : ℕ
  pub state_root : List ℕ

abbrev pub unsigned : ForkConfig → Flow → Bool → BlockHeader
unsigned fork f should_vote = record {
  number = (f.parent.number + 1) % u32_mod;
  timestamp = f.time;
  gas_limit = f.gas_limit;
  gas_used = f.gas_used;
  total_score = f.total_score;
  state_root = f.state_root;
  alpha = [];
  com_vote = leb fork.finality ((f.parent.number + 1) % u32_mod) && should_vote;
  signature = [];
}

-- The header with the alpha of the chained VRF.
abbrev pub chained : Signing → ForkConfig → Flow → Bool → List ℕ → BlockHeader
chained k fork f should_vote parent_beta = record (unsigned fork f should_vote) {
  alpha = expected_alpha k.verify f.parent parent_beta;
}

-- `Pack`; `none` is the error for another's key, or one of the parent's proof or of signing.
unfoldable pub pack : Signing → ForkConfig → Flow → Bool → Option BlockHeader
pack k fork f should_vote =
    let plain = unsigned fork f should_vote in
    if not (nat_beq f.node_master k.address)
    then none
    else if ltb ((f.parent.number + 1) % u32_mod) fork.vip214
    then some (record plain { signature = k.sign plain })
    else (beta k.verify f.parent >>= λ parent_beta.
        let header = chained k fork f should_vote parent_beta in
        k.prove header.alpha >>= λ proof. new_complex_signature (k.sign header) proof >>= λ sig.
        some (record header { signature = sig }))
