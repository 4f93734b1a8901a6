-- ===== src/Bft/Justifier/Order.antt =====
-- The summary of a round does not depend on the order of its votes.
use rmit.Prelude.{ℕ, ◌<◌, ◌≡◌, refl, Bool, arith, length, number_key, sym, ◌∙◌, nat_beq_iff}
use rmit.Prelude.Assoc.{lookup}
use rmit.Thor.{u64_mod}
use rmit.Bft.Justifier.{Justifier, add_block, summarize}
use rmit.Bft.Justifier.Votes.{
  lookup-add_block, length-add_block, com_votes-add_block, fields-add_block,
}

-- The same votes, whatever the order of the entries.
pub record Same (x y : Justifier) : Type 0 where
  pub quality : x.parent_quality ≡ y.parent_quality
  pub checkpoint : x.checkpoint ≡ y.checkpoint
  pub threshold : x.threshold ≡ y.threshold
  pub votes : (a : ℕ) → lookup a x.votes ≡ lookup a y.votes
  pub size : length x.votes ≡ length y.votes
  pub com_votes : x.com_votes ≡ y.com_votes

pub Same-refl : (x : Justifier) → Same x x
Same-refl x = record {
  quality = refl;
  checkpoint = refl;
  threshold = refl;
  votes = λ a. refl;
  size = refl;
  com_votes = refl;
}

pub Same-sym : {x y : Justifier} → Same x y → Same y x
Same-sym s = record {
  quality = sym s.quality;
  checkpoint = sym s.checkpoint;
  threshold = sym s.threshold;
  votes = λ a. sym (s.votes a);
  size = sym s.size;
  com_votes = sym s.com_votes;
}

pub Same-trans : {x y z : Justifier} → Same x y → Same y z → Same x z
Same-trans p q = record {
  quality = p.quality ∙ q.quality;
  checkpoint = p.checkpoint ∙ q.checkpoint;
  threshold = p.threshold ∙ q.threshold;
  votes = λ a. p.votes a ∙ q.votes a;
  size = p.size ∙ q.size;
  com_votes = p.com_votes ∙ q.com_votes;
}

pub summarize-Same : {x y : Justifier} → Same x y → summarize x ≡ summarize y
unfolding summarize
summarize-Same s = ground (arith, s.quality, s.threshold, s.size, s.com_votes)

-- A vote keeps `Same`.
pub add_block-Same :
    {x y : Justifier} (signer : ℕ) (c : Bool)
    → Same x y
    → Same (add_block x signer c) (add_block y signer c)
add_block-Same {x} {y} signer c s =
    let (qx, px, tx) = fields-add_block x signer c in
    let (qy, py, ty) = fields-add_block y signer c in
    record {
      quality = qx ∙ s.quality ∙ sym qy;
      checkpoint = px ∙ s.checkpoint ∙ sym py;
      threshold = tx ∙ s.threshold ∙ sym ty;
      votes = λ a. ground (
        arith,
        lookup-add_block x signer c a,
        lookup-add_block y signer c a,
        s.votes a,
        s.votes signer,
      );
      size =
          ground (
            arith,
            length-add_block x signer c,
            length-add_block y signer c,
            s.size,
            s.votes signer,
          );
      com_votes = ground (
        arith,
        com_votes-add_block x signer c,
        com_votes-add_block y signer c,
        s.com_votes,
        s.votes signer,
      );
    }

-- Two votes may be exchanged.
module _ (x : Justifier) (s t : ℕ) (c d : Bool) where
  swap_votes :
      (a : ℕ)
      → lookup a (add_block (add_block x s c) t d).votes
        ≡ lookup a (add_block (add_block x t d) s c).votes
  swap_votes a = ground (
    arith,
    lookup-add_block (add_block x s c) t d a,
    lookup-add_block x s c a,
    lookup-add_block x s c t,
    lookup-add_block (add_block x t d) s c a,
    lookup-add_block x t d a,
    lookup-add_block x t d s,
    nat_beq_iff s t,
    nat_beq_iff s a,
    nat_beq_iff t a,
  )

  swap_size :
      length (add_block (add_block x s c) t d).votes
      ≡ length (add_block (add_block x t d) s c).votes
  swap_size = ground (
    arith,
    length-add_block (add_block x s c) t d,
    length-add_block x s c,
    lookup-add_block x s c t,
    length-add_block (add_block x t d) s c,
    length-add_block x t d,
    lookup-add_block x t d s,
  )

  swap_com :
      x.com_votes < u64_mod
      → (add_block (add_block x s c) t d).com_votes ≡ (add_block (add_block x t d) s c).com_votes
  swap_com h = ground (
    arith,
    com_votes-add_block (add_block x s c) t d,
    com_votes-add_block x s c,
    lookup-add_block x s c t,
    com_votes-add_block (add_block x t d) s c,
    com_votes-add_block x t d,
    lookup-add_block x t d s,
  )

  pub add_block_swap :
      x.com_votes < u64_mod
      → Same (add_block (add_block x s c) t d) (add_block (add_block x t d) s c)
  add_block_swap h =
      let (q1, p1, t1) = fields-add_block (add_block x s c) t d in
      let (q2, p2, t2) = fields-add_block x s c in
      let (q3, p3, t3) = fields-add_block (add_block x t d) s c in
      let (q4, p4, t4) = fields-add_block x t d in
      record {
        quality = q1 ∙ q2 ∙ sym q4 ∙ sym q3;
        checkpoint = p1 ∙ p2 ∙ sym p4 ∙ sym p3;
        threshold = t1 ∙ t2 ∙ sym t4 ∙ sym t3;
        votes = swap_votes;
        size = swap_size;
        com_votes = swap_com h;
      }
