-- ===== src/VoteSet/Majority.antt =====
-- `AddVote` on a well-formed set: it does not panic, it keeps the set well formed, and the block
-- that reached the quorum first stays the majority block.
use bft.Base.{
  ℕ, ◌≡◌, refl, ◌⊎◌, inl, inr, true, false, ◌&&◌, Option, none, some, List, arith, length, Bytes,
  bytes_equal, bytes_equal_sound, bytes_equal_refl, ap, ◌∙◌, sym, subst, Bool-cases, Option-cases,
}
use bft.Base.Assoc.{lookup, insert, lookup-insert}
use bft.External.{IsOrdered}
use bft.BlockId.{BlockId, key}
use bft.Vote.{Vote}
use bft.VoteSet.{Context, BlockVotes, VoteSet, new_block_votes, tracked, quorum, reach_quorum}
use bft.Bits.Marks.{HasBits}
use bft.VoteSet.Invariant.{IsBlock, Covers, IsValid}
use bft.VoteSet.Steps.{Keeps, Keeps-refl, Keeps-Covers, copy_votes-Keeps, Recorded}

module _ (C : Context) where
  open C use {keys, floats, marshal}
  open floats use {Float, of_ℕ, add, lt, le}

  pub record_vote-IsValid :
      (s s' : VoteSet C) (i : ℕ) (vote : Vote) (conflict : Option Vote)
      → IsValid C s
      → Recorded C s i vote s' conflict
      → IsValid C s'
  record_vote-IsValid s s' i vote conflict v r = record {
    sized = r.votes.same_length ∙ v.sized ∙ ap length (sym r.validators);
    bits = subst (λ l. HasBits (length l) s'.votes_bit_array) (sym r.validators) r.bits;
    blocks = λ k vs e.
        let (b, c) = v.blocks k vs (ap (lookup k) (sym r.blocks) ∙ e) in
        (subst (λ l. IsBlock C (length l) vs) (sym r.validators) b, Keeps-Covers C r.votes c);
    below =
        λ open' k vs e. v.below (sym r.majority ∙ open') k vs (ap (lookup k) (sym r.blocks) ∙ e);
    above = λ b e.
        let (vs, at, q) = v.above b (sym r.majority ∙ e) in
        (vs, ap (lookup (key marshal b)) r.blocks ∙ at, q);
  }

  -- What `tracked` picks: the entry of the key, or a new one where there is none.
  pub data Tracked (s : VoteSet C) (k : Bytes) (conflict : Option Vote)
      : Option (BlockVotes C) → Type 0 where
    entry :
        (vs : BlockVotes C) → lookup k s.votes_by_block ≡ some vs → Tracked s k conflict (some vs)
    fresh :
        lookup k s.votes_by_block ≡ none
        → Tracked s k conflict (some (new_block_votes C false (length s.val_set)))
    dropped : (w : Vote) → conflict ≡ some w → Tracked s k conflict none

  pub tracked-Tracked :
      (s : VoteSet C) (k : Bytes) (conflict : Option Vote)
      → Tracked s k conflict (tracked C s k conflict)
  unfolding tracked
  tracked-Tracked s k conflict = elim (Option-cases (lookup k s.votes_by_block)) [
    | inl missing ↦ elim (Option-cases conflict) [
      | inl clean ↦ rw (missing, tracked) (rw (clean, tracked) (fresh missing))
      | inr (w, e) ↦ rw (missing, tracked) (rw (e, tracked) (dropped w refl))
    ]
    | inr (vs, found) ↦ elim (Option-cases conflict) [
      | inl clean ↦ rw (found, tracked) (rw (clean, tracked) (entry vs found))
      | inr (w, e) ↦ elim (Bool-cases vs.peer_maj23) [
        | inl claimed ↦ rw (found, tracked) (rw (e, tracked) (simp claimed (entry vs found)))
        | inr unclaimed ↦ rw (found, tracked) (rw (e, tracked) (simp unclaimed (dropped w refl)))
      ]
    ]
  ]

  module _ (o : IsOrdered floats) (positive : lt (of_ℕ 0) (quorum C) ≡ true) where
    -- A tally that starts below the quorum and does not reach it stays below.
    still_below :
        (a b : Float)
        → lt a (quorum C) ≡ true
        → (lt a (quorum C) && le (quorum C) b) ≡ false
        → lt b (quorum C) ≡ true
    still_below a b low e = o.not_le→lt b (quorum C) (ground arith)

    -- What the rest of `addVerifiedVote` starts from: the entry `vs` of the key, with the vote
    -- counted in `vs'`.
    pub record Counting (s : VoteSet C) (k : Bytes) (vs vs' : BlockVotes C) : Type 0 where
      pub valid : IsValid C s
      pub block : IsBlock C (length s.val_set) vs'
      pub covered : Covers C s.votes vs'.votes
      pub grows : le vs.sum vs'.sum ≡ true
      pub was_below : s.maj23 ≡ none → lt vs.sum (quorum C) ≡ true
      pub was_above :
          (b : BlockId) → s.maj23 ≡ some b → key marshal b ≡ k → le (quorum C) vs.sum ≡ true

    abbrev stored : VoteSet C → Bytes → BlockVotes C → VoteSet C
    stored s k vs' = record s { votes_by_block = insert k vs' s.votes_by_block }

    stored-lookup :
        (s : VoteSet C) (k j : Bytes) (vs' x : BlockVotes C)
        → lookup j (stored s k vs').votes_by_block ≡ some x
        → ((k ≡ j) × (vs' ≡ x)) ⊎ (lookup j s.votes_by_block ≡ some x)
    stored-lookup s k j vs' x e = elim (Bool-cases (bytes_equal k j)) [
      | inl same ↦
          inl (
            bytes_equal_sound k j same,
            ground (arith, lookup-insert k j vs' s.votes_by_block, same),
          )
      | inr differ ↦ inr (ground (arith, lookup-insert k j vs' s.votes_by_block, differ))
    ]

    stored_self :
        (s : VoteSet C) (k : Bytes) (vs' : BlockVotes C)
        → lookup k (stored s k vs').votes_by_block ≡ some vs'
    stored_self s k vs' = ground (arith, lookup-insert k k vs' s.votes_by_block, bytes_equal_refl k)

    stored-blocks :
        (s : VoteSet C) (k : Bytes) (vs vs' : BlockVotes C) (votes : List (Option Vote))
        → Counting s k vs vs'
        → Keeps s.votes votes
        → (j : Bytes) (x : BlockVotes C) → lookup j (stored s k vs').votes_by_block ≡ some x
        → IsBlock C (length s.val_set) x × Covers C votes x.votes
    stored-blocks s k vs vs' votes c keep j x e = elim (stored-lookup s k j vs' x e) [
      | inl (_, same) ↦
          subst (λ y. IsBlock C (length s.val_set) y × Covers C votes y.votes) same
            (c.block, Keeps-Covers C keep c.covered)
      | inr old ↦ let (b, cov) = c.valid.blocks j x old in (b, Keeps-Covers C keep cov)
    ]

    -- No quorum is crossed, or one was before.
    stored-above :
        (s : VoteSet C) (k : Bytes) (vs vs' : BlockVotes C)
        → Counting s k vs vs'
        → (b : BlockId) → s.maj23 ≡ some b
        → (x : BlockVotes C) × (lookup (key marshal b) (stored s k vs').votes_by_block ≡ some x)
          × (le (quorum C) x.sum ≡ true)
    stored-above s k vs vs' c b e = elim (Bool-cases (bytes_equal k (key marshal b))) [
      | inl same ↦
          let eq = bytes_equal_sound k (key marshal b) same in
          (
            vs',
            ground (arith, lookup-insert k (key marshal b) vs' s.votes_by_block, same),
            o.le_trans (quorum C) vs.sum vs'.sum (c.was_above b e (sym eq)) c.grows,
          )
      | inr differ ↦
          let (x, at, q) = c.valid.above b e in
          (x, ground (arith, lookup-insert k (key marshal b) vs' s.votes_by_block, differ), q)
    ]

    -- What the last part leaves.
    pub record Settled (s s' : VoteSet C) : Type 0 where
      pub valid : IsValid C s'
      pub validators : s'.val_set ≡ s.val_set
      pub majority : (b : BlockId) → s.maj23 ≡ some b → s'.maj23 ≡ some b

    pub reach_quorum-Settled :
        (s : VoteSet C) (vote : Vote) (vs vs' : BlockVotes C)
        → Counting s (key marshal vote.block_id) vs vs'
        → (s' : VoteSet C) × (reach_quorum C
              (stored s (key marshal vote.block_id) vs')
              vote
              vs.sum
              vs'
            ≡ some s')
          × Settled s s'
    unfolding reach_quorum
    reach_quorum-Settled s vote vs vs' c =
        go s.maj23 refl (Bool-cases (lt vs.sum (quorum C) && le (quorum C) vs'.sum))
      where
        k : Bytes
        k = key marshal vote.block_id

        at : VoteSet C
        at = stored s k vs'

        -- The set as stored is well formed where no first quorum is crossed.
        kept : (s.maj23 ≡ none → lt vs'.sum (quorum C) ≡ true) → Settled s at
        kept low = record {
          valid = record {
            sized = c.valid.sized;
            bits = c.valid.bits;
            blocks = stored-blocks s k vs vs' s.votes c (Keeps-refl s.votes);
            below = λ none' j x e. elim (stored-lookup s k j vs' x e) [
              | inl (_, same) ↦ subst (λ y. lt y.sum (quorum C) ≡ true) same (low none')
              | inr old ↦ c.valid.below none' j x old
            ];
            above = stored-above s k vs vs' c;
          };
          validators = refl;
          majority = λ b e. e;
        }

        crossed :
            (votes : List (Option Vote))
            → Keeps s.votes votes
            → s.maj23 ≡ none
            → le (quorum C) vs'.sum ≡ true
            → Settled s (record at { maj23 = some vote.block_id; votes = votes })
        crossed votes keep none' q = record {
          valid = record {
            sized = keep.same_length ∙ c.valid.sized;
            bits = c.valid.bits;
            blocks = stored-blocks s k vs vs' votes c keep;
            below = λ e. absurd (ground arith);
            above = λ b e.
                let same : vote.block_id ≡ b = cc in
                (
                  vs',
                  ap (λ x. lookup (key marshal x) at.votes_by_block) (sym same)
                      ∙ stored_self s k vs',
                  q,
                );
          };
          validators = refl;
          majority = λ b e. cc (none', e);
        }

        go :
            (m : Option BlockId)
            → s.maj23 ≡ m
            → ((lt vs.sum (quorum C) && le (quorum C) vs'.sum) ≡ true)
              ⊎ ((lt vs.sum (quorum C) && le (quorum C) vs'.sum) ≡ false)
            → (s' : VoteSet C) × (reach_quorum C at vote vs.sum vs' ≡ some s') × Settled s s'
        go m e (inr not_crossed) = (
          at,
          rw (not_crossed, reach_quorum),
          kept (λ none'. still_below vs.sum vs'.sum (c.was_below none') not_crossed),
        )
        go (some b) e (inl cross) = (at, ground arith, kept (λ none'. absurd (ground arith)))
        go none e (inl cross) =
            let (votes, copied, keep) =
              copy_votes-Keeps C vs'.votes s.votes (c.block.sized ∙ sym c.valid.sized) in
            (
              record at { maj23 = some vote.block_id; votes = votes },
              rw (cross, reach_quorum) (rw (e, reach_quorum) (rw (copied, reach_quorum))),
              crossed votes keep e (ground arith),
            )
