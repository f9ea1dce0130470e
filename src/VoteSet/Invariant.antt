-- ===== src/VoteSet/Invariant.antt =====
-- The well-formedness of a VoteSet, and what each part of `addVerifiedVote` does to it.
use bft.Base.{
  ℕ, ◌<◌, ◌≡◌, refl, ◌⊎◌, inl, inr, Bool, true, Option, none, some, List, arith, length, get_elem?,
  set, Bytes, ◌∙◌, sym, ℕ_discrete, get_elem?-set_ne, get_elem?-some, length-set, length-replicate,
}
use bft.Base.Assoc.{lookup}
use bft.Bits.Marks.{HasBits, mark-HasBits, new_bit_array-HasBits}
use bft.BlockId.{BlockId, key}
use bft.Vote.{Vote}
use bft.VoteSet.{Context, BlockVotes, VoteSet, new_block_votes, add_to_block, quorum}

module _ (C : Context) where
  open C use {floats, marshal}
  open floats use {Float, of_ℕ, add, lt, le}

  pub record IsBlock (n : ℕ) (vs : BlockVotes C) : Type 0 where
    pub sized : length vs.votes ≡ n
    pub bits : HasBits n vs.bit_array

  -- A validator whose vote for a block is counted has a canonical vote.
  pub record Covers (votes counted : List (Option Vote)) : Type 0 where
    pub cover :
        (j : ℕ) (v : Vote)
        → get_elem? counted j ≡ some (some v)
        → (w : Vote) × (get_elem? votes j ≡ some (some w))

  pub record IsValid (s : VoteSet C) : Type 0 where
    pub sized : length s.votes ≡ length s.val_set
    pub bits : HasBits (length s.val_set) s.votes_bit_array
    pub blocks :
        (k : Bytes) (vs : BlockVotes C)
        → lookup k s.votes_by_block ≡ some vs
        → IsBlock (length s.val_set) vs × Covers s.votes vs.votes
    -- Before the first quorum every tally is below it.
    pub below :
        s.maj23 ≡ none
        → (k : Bytes) (vs : BlockVotes C) → lookup k s.votes_by_block ≡ some vs
        → lt vs.sum (quorum C) ≡ true
    -- The majority block's tally has reached it.
    pub above :
        (b : BlockId)
        → s.maj23 ≡ some b
        → (vs : BlockVotes C) × (lookup (key marshal b) s.votes_by_block ≡ some vs)
          × (le (quorum C) vs.sum ≡ true)

  pub new_block_votes-IsBlock : (p : Bool) (n : ℕ) → IsBlock n (new_block_votes C p n)
  unfolding new_block_votes
  new_block_votes-IsBlock p n = record {
    sized = length-replicate n none;
    bits = new_bit_array-HasBits n;
  }

  -- Counting a vote for a block.
  pub record Counted (n i : ℕ) (vote : Vote) (power : Float) (vs vs' : BlockVotes C) : Type 0 where
    pub block : IsBlock n vs'
    pub keeps :
        (j : ℕ) (v : Vote)
        → get_elem? vs'.votes j ≡ some (some v)
        → (j ≡ i) ⊎ (get_elem? vs.votes j ≡ some (some v))
    pub tally : (vs'.sum ≡ vs.sum) ⊎ (vs'.sum ≡ add vs.sum power)
    pub claim : vs'.peer_maj23 ≡ vs.peer_maj23

  pub add_to_block-Counted :
      (n i : ℕ) (vs : BlockVotes C) (vote : Vote) (power : Float)
      → IsBlock n vs
      → i < n
      → (vs' : BlockVotes C) × (add_to_block C vs i vote power ≡ some vs')
        × Counted n i vote power vs vs'
  unfolding add_to_block
  add_to_block-Counted n i vs vote power b h =
      let (slot, at) = get_elem?-some vs.votes i (omega (arith, b.sized)) in go slot at
    where
      go :
          (slot : Option Vote)
          → get_elem? vs.votes i ≡ some slot
          → (vs' : BlockVotes C) × (add_to_block C vs i vote power ≡ some vs')
            × Counted n i vote power vs vs'
      go (some existing) at = (
        vs,
        ground (arith, at),
        record { block = b; keeps = λ j v e. inr e; tally = inl refl; claim = refl },
      )
      go none at =
          let (bits, marked, has) = mark-HasBits n i vs.bit_array b.bits h in
          (
            record vs {
              bit_array = bits;
              votes = set vs.votes i (some vote);
              sum = add vs.sum power;
            },
            rw (at, add_to_block) (rw (marked, add_to_block)),
            record {
              block = record { sized = length-set vs.votes i (some vote) ∙ b.sized; bits = has };
              keeps = λ j v e. elim (ℕ_discrete j i) [
                | yes same ↦ inl same
                | no differ ↦
                    inr (sym (get_elem?-set_ne vs.votes i j (some vote) (λ p. differ (sym p))) ∙ e)
              ];
              tally = inr refl;
              claim = refl;
            },
          )
