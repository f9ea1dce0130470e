-- ===== src/VoteSet/Total.antt =====
-- The theorems about `AddVote` as a whole.
use bft.Base.{
  ℕ, zero, suc, ◌<◌, ◌≡◌, refl, inl, inr, Bool, true, false, Option, none, some, List, [], arith,
  length, get_elem?, replicate, Bytes, ap, ◌∙◌, sym, subst, Bool-cases, length-replicate,
}
use bft.Base.Int.{pos, ℤ, eqb_ℤ}
use bft.Base.Assoc.{lookup}
use bft.External.{IsOrdered}
use bft.Bits.{new_bit_array}
use bft.BlockId.{BlockId, equals, key}
use bft.Vote.{Vote}
use bft.VoteSet.{
  Context, Val, BlockVotes, VoteSet, new_vote_set, new_block_votes, record_vote, tracked, quorum,
  add_verified_vote,
}
use bft.Bits.Marks.{new_bit_array-HasBits}
use bft.VoteSet.Invariant.{
  IsBlock, Covers, IsValid, new_block_votes-IsBlock, Counted, add_to_block-Counted,
}
use bft.VoteSet.Steps.{Recorded, record_vote-Recorded}
use bft.VoteSet.Majority.{
  record_vote-IsValid, Tracked, entry, fresh, dropped, tracked-Tracked, Counting, Settled,
  reach_quorum-Settled,
}

module _ (C : Context) where
  open C use {keys, floats, marshal}
  open floats use {Float, of_ℕ, add, lt, le}

  -- The validators have keys, and powers that are not negative.
  pub record IsReady (vals : List (Val C)) : Type 0 where
    pub nonneg :
        (i : ℕ) (val : Val C) → get_elem? vals i ≡ some val → le (of_ℕ 0) val.voting_power ≡ true
    pub keyed :
        (i : ℕ) (val : Val C)
        → get_elem? vals i ≡ some val
        → (pk : keys.PubKey) × (val.pub_key ≡ some pk)

  -- A new vote set is well formed and has the given validators.
  pub new_vote_set-IsValid :
      (chain_id : Bytes) (height round : ℤ) (type : ℕ) (vals : List (Val C)) (s : VoteSet C)
      → new_vote_set C chain_id height round type vals ≡ some s
      → IsValid C s × (s.val_set ≡ vals)
  unfolding new_vote_set
  new_vote_set-IsValid chain_id height round type vals s e =
      elim (Bool-cases (eqb_ℤ height (pos 0))) [
        | inl zero' ↦ absurd (ground arith)
        | inr other ↦
            let new : VoteSet C = record {
              chain_id = chain_id;
              height = height;
              round = round;
              signed_msg_type = type;
              val_set = vals;
              votes_bit_array = new_bit_array (length vals);
              votes = replicate (length vals) none;
              sum = of_ℕ 0;
              maj23 = none;
              votes_by_block = [];
              peer_maj23s = [];
            } in
            let same : new ≡ s = ground arith in
            subst (λ t. IsValid C t × (t.val_set ≡ vals)) same
              (
                record {
                  sized = length-replicate (length vals) none;
                  bits = new_bit_array-HasBits (length vals);
                  blocks = λ k vs f. absurd (empty k vs f);
                  below = λ _ k vs f. absurd (empty k vs f);
                  above = λ b f. absurd (cc f);
                },
                refl,
              )
      ]
    where
      empty : (k : Bytes) (vs : BlockVotes C) → ¬ (lookup {V = BlockVotes C} k [] ≡ some vs)
      empty k vs f = unfold lookup in cc f

  pub no_votes-Covers : (n : ℕ) (votes : List (Option Vote)) → Covers C votes (replicate n none)
  no_votes-Covers n votes = record { cover = λ j v e. absurd (blank n j v e) }
    where
      blank : (n j : ℕ) (v : Vote) → ¬ (get_elem? (replicate n none) j ≡ some (some v))
      blank zero j v e = cc
      blank (suc n) zero v e = cc
      blank (suc n) (suc j) v e = blank n j v e

  module _ (o : IsOrdered floats) (positive : lt (of_ℕ 0) (quorum C) ≡ true) where
    Counted-Counting :
        (s : VoteSet C) (i : ℕ) (vote : Vote) (power : Float) (k : Bytes) (vs vs' : BlockVotes C)
        (w : Vote)
        → IsValid C s
        → get_elem? s.votes i ≡ some (some w)
        → le (of_ℕ 0) power ≡ true
        → Covers C s.votes vs.votes
        → (s.maj23 ≡ none → lt vs.sum (quorum C) ≡ true)
        → ((b : BlockId) → s.maj23 ≡ some b → key marshal b ≡ k → le (quorum C) vs.sum ≡ true)
        → Counted C (length s.val_set) i vote power vs vs'
        → Counting C o positive s k vs vs'
    Counted-Counting s i vote power k vs vs' w v at nonneg cov low high c = record {
      valid = v;
      block = c.block;
      covered = record {
        cover = λ j x e. elim (c.keeps j x e) [
          | inl same ↦ (w, ap (get_elem? s.votes) same ∙ at)
          | inr old ↦ cov.cover j x old
        ];
      };
      grows = elim c.tally [
        | inl same ↦ subst (λ t. le vs.sum t ≡ true) (sym same) (o.le_refl vs.sum)
        | inr more ↦ subst (λ t. le vs.sum t ≡ true) (sym more) (o.add_grows vs.sum power nonneg)
      ];
      was_below = low;
      was_above = high;
    }

    -- The result of addVerifiedVote.
    pub record Verified (s : VoteSet C) (r : VoteSet C × Bool × Option Vote) : Type 0 where
      pub settled : Settled C o positive s r.0
      pub accepted : r.2 ≡ none → r.1 ≡ true

    Settled-Recorded :
        (s s' s'' : VoteSet C) (i : ℕ) (vote : Vote) (conflict : Option Vote)
        → Recorded C s i vote s' conflict
        → Settled C o positive s' s''
        → Settled C o positive s s''
    Settled-Recorded s s' s'' i vote conflict r t = record {
      valid = t.valid;
      validators = t.validators ∙ r.validators;
      majority = λ b e. t.majority b (r.majority ∙ e);
    }

    pub add_verified_vote-Verified :
        (s : VoteSet C) (i : ℕ) (vote : Vote) (power : Float)
        → IsValid C s
        → i < length s.val_set
        → le (of_ℕ 0) power ≡ true
        → ((w : Vote)
            → get_elem? s.votes i ≡ some (some w)
            → equals w.block_id vote.block_id ≡ false)
        → (r : VoteSet C × Bool × Option Vote) × (add_verified_vote C s i vote
              (key marshal vote.block_id)
              power
            ≡ some r)
          × Verified s r
    unfolding add_verified_vote
    add_verified_vote-Verified s i vote power v h nonneg distinct =
        let ((s', conflict), e, r) =
          record_vote-Recorded C s i vote k power v.sized v.bits h distinct in
        go s' conflict e r (tracked C s' k conflict) refl (tracked-Tracked C s' k conflict)
      where
        k : Bytes
        k = key marshal vote.block_id

        -- The vote is counted in the entry `vs`.
        count :
            (s' : VoteSet C) (conflict : Option Vote)
            → record_vote C s i vote k power ≡ some (s', conflict)
            → Recorded C s i vote s' conflict
            → (vs : BlockVotes C) → tracked C s' k conflict ≡ some vs
            → IsBlock C (length s'.val_set) vs
            → Covers C s'.votes vs.votes
            → (s'.maj23 ≡ none → lt vs.sum (quorum C) ≡ true)
            → ((b : BlockId) → s'.maj23 ≡ some b → key marshal b ≡ k → le (quorum C) vs.sum ≡ true)
            → (q : VoteSet C × Bool × Option Vote) × (add_verified_vote C s i vote k power ≡ some q)
              × Verified s q
        count s' conflict e r vs t block cov low high =
            let v' = record_vote-IsValid C s s' i vote conflict v r in
            let (w, at) = r.canonical in
            let (vs', f, c) =
              add_to_block-Counted C (length s'.val_set) i vs vote power block
                (subst (λ l. i < length l) (sym r.validators) h) in
            let (s'', g, settled) =
              reach_quorum-Settled C o positive s' vote vs vs'
                (Counted-Counting s' i vote power k vs vs' w v' at nonneg cov low high c) in
            (
              (s'', true, conflict),
              rw (e, add_verified_vote)
                  (rw (t, add_verified_vote)
                    (rw (f, add_verified_vote) (rw (g, add_verified_vote)))),
              record {
                settled = Settled-Recorded s s' s'' i vote conflict r settled;
                accepted = λ _. refl;
              },
            )

        go :
            (s' : VoteSet C) (conflict : Option Vote)
            → record_vote C s i vote k power ≡ some (s', conflict)
            → Recorded C s i vote s' conflict
            → (t : Option (BlockVotes C)) → tracked C s' k conflict ≡ t
            → Tracked C s' k conflict t
            → (q : VoteSet C × Bool × Option Vote) × (add_verified_vote C s i vote k power ≡ some q)
              × Verified s q
        go s' conflict e r t same (entry vs found) =
            let v' = record_vote-IsValid C s s' i vote conflict v r in
            let (block, cov) = v'.blocks k vs found in
            count s' conflict e r vs same block cov (λ low. v'.below low k vs found)
              λ b maj eq.
                let (x, at, q) = v'.above b maj in
                let one : x ≡ vs = cc (at, found, eq) in
                subst (λ y. le (quorum C) y.sum ≡ true) one q
        go s' conflict e r t same (fresh missing) =
            let v' = record_vote-IsValid C s s' i vote conflict v r in
            unfold new_block_votes in
            count s' conflict e r (new_block_votes C false (length s'.val_set)) same
              (new_block_votes-IsBlock C false (length s'.val_set))
              (no_votes-Covers (length s'.val_set) s'.votes) (λ _. positive)
              λ b maj eq. let (x, at, q) = v'.above b maj in absurd (cc (at, missing, eq))
        go s' conflict e r t same (dropped w clash) = (
          (s', false, conflict),
          rw (e, add_verified_vote) (rw (same, add_verified_vote)),
          record {
            settled = record {
              valid = record_vote-IsValid C s s' i vote conflict v r;
              validators = r.validators;
              majority = λ b maj. r.majority ∙ maj;
            };
            accepted = λ clean. absurd (cc (clash, clean));
          },
        )
