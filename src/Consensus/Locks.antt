-- ===== src/Consensus/Locks.antt =====
-- The locks of the state machine: the locked and the valid block have two thirds of the prepares of
-- their rounds.
use bft.Base.{
  ℕ, ◌≡◌, refl, inl, inr, true, ◌&&◌, not, Option, none, some, arith, Bytes, bytes_equal_sound,
  subst, sym, ap, ◌∙◌, Bool-cases, Option-cases,
}
use bft.Base.Partial.{Post}
use bft.Base.Int.{ℤ, pos, negsuc, eqb_ℤ, ltb_ℤ, pred_ℤ}
use bft.BlockId.{BlockId, PartSetHeader}
use bft.VoteSet.{Context, VoteSet, two_thirds_majority}
use bft.HeightVoteSet.{
  RoundVoteSet, HeightVoteSet, set_round, prepares_of, get_vote_set, of_type, min_int32, max_int32,
}
use bft.HeightVoteSet.Invariant.{IsHeight}
use bft.HeightVoteSet.Rounds.{set_round_lem}
use bft.HeightVoteSet.AddVote.{Grows}
use bft.Consensus.State.{State, Env, equals_to}
use bft.Consensus.Steps.{sign_vote, sign_add_vote}

module _ (C : Context) (E : Env C) where
  open E use {Block}

  -- Two thirds of the prepares of a round are for a block with the hash.
  pub record Polka (votes : HeightVoteSet C) (round : ℤ) (hash : Bytes) : Type 0 where
    pub sets : RoundVoteSet C
    pub at : votes.round_vote_sets round ≡ some sets
    pub id : BlockId
    pub majority : sets.prepares.maj23 ≡ some id
    pub same : id.hash ≡ hash

  -- A block with its round: no block has the round -1.
  abbrev pub Lock : Option Block → ℤ → HeightVoteSet C → Type 0
  Lock none round votes = round ≡ negsuc 0
  Lock (some b) round votes = Polka votes round (E.block_hash b)

  pub record IsLocked (cs : State C E) : Type 0 where
    pub sets : IsHeight C cs.votes
    pub locked : Lock cs.locked_block cs.locked_round cs.votes
    pub valid : Lock cs.valid_block cs.valid_round cs.votes

  -- Any change to the other fields.
  pub IsLocked-same :
      (cs cs' : State C E)
      → cs'.votes ≡ cs.votes
      → cs'.locked_block ≡ cs.locked_block
      → cs'.locked_round ≡ cs.locked_round
      → cs'.valid_block ≡ cs.valid_block
      → cs'.valid_round ≡ cs.valid_round
      → IsLocked cs
      → IsLocked cs'
  IsLocked-same cs cs' v b r b' r' l = record {
    sets = subst (IsHeight C) (sym v) l.sets;
    locked =
        subst (λ (t : HeightVoteSet C × Option Block × ℤ). Lock t.1 t.2 t.0)
          (sym (
            ap (λ x. (x, cs'.locked_block, cs'.locked_round)) v
            ∙ ap (λ x. (cs.votes, x, cs'.locked_round)) b
            ∙ ap (λ x. (cs.votes, cs.locked_block, x)) r))
          l.locked;
    valid =
        subst (λ (t : HeightVoteSet C × Option Block × ℤ). Lock t.1 t.2 t.0)
          (sym (
            ap (λ x. (x, cs'.valid_block, cs'.valid_round)) v
            ∙ ap (λ x. (cs.votes, x, cs'.valid_round)) b'
            ∙ ap (λ x. (cs.votes, cs.valid_block, x)) r'))
          l.valid;
  }

  pub Polka-Grows :
      (votes votes' : HeightVoteSet C) (round : ℤ) (hash : Bytes)
      → Grows C votes votes'
      → Polka votes round hash
      → Polka votes' round hash
  Polka-Grows votes votes' round hash g p =
      let (sets, at, (keep, _)) = g.majorities round p.sets p.at in
      record { sets = sets; at = at; id = p.id; majority = keep p.id p.majority; same = p.same }

  Polka-kept :
      (votes votes' : HeightVoteSet C) (round : ℤ) (hash : Bytes)
      → ((r : ℤ) (rvs : RoundVoteSet C)
          → votes.round_vote_sets r ≡ some rvs
          → votes'.round_vote_sets r ≡ some rvs)
      → Polka votes round hash
      → Polka votes' round hash
  Polka-kept votes votes' round hash kept p = record {
    sets = p.sets;
    at = kept round p.sets p.at;
    id = p.id;
    majority = p.majority;
    same = p.same;
  }

  pub Lock-Grows :
      (b : Option Block) (round : ℤ) (votes votes' : HeightVoteSet C)
      → Grows C votes votes'
      → Lock b round votes
      → Lock b round votes'
  Lock-Grows none round votes votes' g l = l
  Lock-Grows (some b) round votes votes' g l = Polka-Grows votes votes' round (E.block_hash b) g l

  pub Lock-kept :
      (b : Option Block) (round : ℤ) (votes votes' : HeightVoteSet C)
      → ((r : ℤ) (rvs : RoundVoteSet C)
          → votes.round_vote_sets r ≡ some rvs
          → votes'.round_vote_sets r ≡ some rvs)
      → Lock b round votes
      → Lock b round votes'
  Lock-kept none round votes votes' k l = l
  Lock-kept (some b) round votes votes' k l = Polka-kept votes votes' round (E.block_hash b) k l

  pub equals_to_sound :
      (b : Option Block) (hash : Bytes)
      → equals_to C E b hash ≡ true
      → (x : Block) × (b ≡ some x) × (E.block_hash x ≡ hash)
  unfolding equals_to
  equals_to_sound none hash e = absurd (cc e)
  equals_to_sound (some x) hash e =
      (x, refl, bytes_equal_sound (E.block_hash x) hash (ground (arith, e)))

  pub Polka-majority :
      (votes : HeightVoteSet C) (round : ℤ) (prepares : Option (VoteSet C))
      → prepares_of C votes round ≡ some prepares
      → (two_thirds_majority C prepares).1 ≡ true
      → Polka votes round (two_thirds_majority C prepares).0.hash
  unfolding prepares_of get_vote_set of_type two_thirds_majority
  Polka-majority votes round none e h = absurd (cc h)
  Polka-majority votes round (some s) e h = elim (Option-cases (votes.round_vote_sets round)) [
    | inl missing ↦ absurd (ground (arith, e, missing))
    | inr (rvs, at) ↦ elim (Option-cases s.maj23) [
      | inl open' ↦ absurd (ground (arith, h, open'))
      | inr (b, maj) ↦
          let same : rvs.prepares ≡ s = ground (arith, e, at) in
          record {
            sets = rvs;
            at = at;
            id = b;
            majority = ap (λ (t : VoteSet C). t.maj23) same ∙ maj;
            same = rw (maj) refl;
          }
    ]
  ]

  pub sign_add_vote-IsLocked :
      (type : ℕ) (hash : Bytes) (parts : PartSetHeader) (cs : State C E)
      → IsLocked cs
      → IsLocked (sign_add_vote C E type hash parts cs)
  unfolding sign_add_vote sign_vote
  sign_add_vote-IsLocked type hash parts cs l =
      IsLocked-same cs (sign_add_vote C E type hash parts cs) (ground arith) (ground arith)
        (ground arith) (ground arith) (ground arith) l

  pub set_round-Post :
      (hvs : HeightVoteSet C) (round : ℤ)
      → IsHeight C hvs
      → Post (set_round C hvs round) (λ hvs'.
        IsHeight C hvs'
        × ((r : ℤ) (rvs : RoundVoteSet C)
            → hvs.round_vote_sets r ≡ some rvs
            → hvs'.round_vote_sets r ≡ some rvs))
  set_round-Post hvs round v = elim (Bool-cases (eqb_ℤ hvs.round min_int32)) [
    | inl low ↦ unfold set_round in rw (low, set_round) _
    | inr fine ↦
        elim (Bool-cases (not (eqb_ℤ hvs.round (pos 0)) && ltb_ℤ round (pred_ℤ hvs.round))) [
          | inl down ↦ unfold set_round in rw (fine, set_round) (rw (down, set_round) _)
          | inr up ↦ elim (Bool-cases (eqb_ℤ round max_int32)) [
            | inl high ↦
                unfold set_round in
                rw (fine, set_round) (rw (up, set_round) (rw (high, set_round) _))
            | inr room ↦
                let (hvs', e, valid, _, kept) = set_round_lem C hvs round v fine room up in
                rw (e) (valid, kept)
          ]
        ]
  ]
