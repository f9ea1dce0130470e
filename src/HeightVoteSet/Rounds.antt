-- ===== src/HeightVoteSet/Rounds.antt =====
-- The operations of a HeightVoteSet keep it well formed and do not panic.
use bft.Base.{
  ℕ, ◌≤◌, ◌≡◌, refl, inl, inr, true, false, ◌&&◌, not, none, some, List, [], arith, length, ◌==◌,
  Bytes, subst, sym, ap, ◌∙◌, Bool-cases,
}
use bft.Base.Int.{ℤ, pos, eqb_ℤ, ltb_ℤ, succ_ℤ, pred_ℤ, pred_ℤ_lem, gap, plus-gap, gap-within}
use bft.Vote.{prepare_type, commit_type, is_vote_type_valid}
use bft.VoteSet.{Context, Val, VoteSet}
use bft.VoteSet.Total.{IsReady}
use bft.HeightVoteSet.{
  RoundVoteSet, HeightVoteSet, with_type, reset, new_height_vote_set, set_round, min_int32,
  max_int32, of_type, put_vote_set,
}
use bft.HeightVoteSet.Invariant.{Holds, IsRound, IsHeight, put-HasRounds, add_round_lem, fill_lem}

module _ (C : Context) where
  open C use {floats}
  open floats use {of_ℕ, lt}

  -- For a height other than 0 and validators with keys and powers that are not negative,
  -- NewHeightVoteSet does not panic and gives a well-formed set of that height and those
  -- validators at round 0.
  pub new_height_vote_set-IsHeight :
      (chain_id : Bytes) (height : ℤ) (val_set : List (Val C))
      → eqb_ℤ height (pos 0) ≡ false
      → IsReady C val_set
      → (hvs : HeightVoteSet C) × (new_height_vote_set C chain_id height val_set ≡ some hvs)
        × IsHeight C hvs
        × (hvs.height ≡ height)
        × (hvs.val_set ≡ val_set)
        × (hvs.round ≡ pos 0)
  unfolding new_height_vote_set reset
  new_height_vote_set-IsHeight chain_id height val_set h ready =
      let blank : HeightVoteSet C = record {
        chain_id = chain_id;
        height = height;
        val_set = val_set;
        round = pos 0;
        round_vote_sets = λ _. none;
        peer_catchup_rounds = λ _. [];
      } in
      let (hvs, e, x, all, rvs, at) =
        add_round_lem C blank (pos 0) h (λ r rvs e. absurd (cc e)) refl in
      (
        hvs,
        e,
        record {
          ready = subst (IsReady C) (sym x.validators) ready;
          nonzero = ap (λ i. eqb_ℤ i (pos 0)) x.height ∙ h;
          rounds = all;
          filled = λ n upto.
              let first : ltb_ℤ (pos 0) (pos n) ≡ false =
                ap (λ r. ltb_ℤ r (pos n)) (sym x.round) ∙ upto in
              let same : 0 ≡ n = ground (arith, first) in
              (rvs, subst (λ m. hvs.round_vote_sets (pos m) ≡ some rvs) same at);
          bounded =
              λ p. subst (λ (f : Bytes → List ℤ). length (f p) ≤ 2) (sym x.peers) (omega arith);
        },
        x.height,
        x.validators,
        x.round,
      )

  -- On a well-formed height vote set whose round is not the least int32, SetRound to a round that
  -- is neither the greatest int32 nor one that it refuses ends without a panic; the set is well
  -- formed, has the given round, has vote sets for every round from 0 to it, and keeps those that
  -- it had.
  pub set_round_lem :
      (hvs : HeightVoteSet C) (round : ℤ)
      → IsHeight C hvs
      → eqb_ℤ hvs.round min_int32 ≡ false
      → eqb_ℤ round max_int32 ≡ false
      → (not (eqb_ℤ hvs.round (pos 0)) && ltb_ℤ round (pred_ℤ hvs.round)) ≡ false
      → (hvs' : HeightVoteSet C) × (set_round C hvs round ≡ some hvs')
        × IsHeight C hvs'
        × (hvs'.round ≡ round)
        × ((r : ℤ) (rvs : RoundVoteSet C)
            → hvs.round_vote_sets r ≡ some rvs
            → hvs'.round_vote_sets r ≡ some rvs)
  unfolding set_round
  set_round_lem hvs round v low high up =
      let (mid, e, x, all, there) =
        fill_lem C (gap (pred_ℤ hvs.round) (succ_ℤ round)) (pred_ℤ hvs.round) hvs v.nonzero
          v.rounds in
      (
        record mid { round = round },
        rw (low, set_round) (rw (up, set_round) (rw (high, set_round) (rw (e, set_round) refl))),
        record {
          ready = subst (IsReady C) (sym x.validators) v.ready;
          nonzero = ap (λ i. eqb_ℤ i (pos 0)) x.height ∙ v.nonzero;
          rounds = all;
          filled = λ n h. elim (Bool-cases (ltb_ℤ hvs.round (pos n))) [
            | inr old ↦ let (rvs, at) = v.filled n old in (rvs, x.kept (pos n) rvs at)
            | inl new ↦
                let above : ltb_ℤ (pos n) (pred_ℤ hvs.round) ≡ false =
                  ground (arith, new, pred_ℤ_lem hvs.round) in
                let (rvs, at) =
                  there (gap (pred_ℤ hvs.round) (pos n))
                    (gap-within (pred_ℤ hvs.round) (pos n) round above h) in
                (
                  rvs,
                  subst (λ r. mid.round_vote_sets r ≡ some rvs)
                      (plus-gap (pred_ℤ hvs.round) (pos n) above) at,
                )
          ];
          bounded =
              λ p. subst (λ (f : Bytes → List ℤ). length (f p) ≤ 2) (sym x.peers) (v.bounded p);
        },
        refl,
        x.kept,
      )

  with_type-IsRound :
      (hvs : HeightVoteSet C) (round : ℤ) (type : ℕ) (rvs : RoundVoteSet C) (s s' : VoteSet C)
      → of_type C rvs type ≡ some s
      → IsRound C hvs round rvs
      → Holds C hvs round type s'
      → IsRound C hvs round (with_type C rvs type s')
  unfolding of_type
  with_type-IsRound hvs round type rvs s s' e (hp, hc) h =
      elim (Bool-cases (type == prepare_type)) [
        | inl prep ↦
            let same : type ≡ prepare_type = ground (arith, prep) in
            rw (prep) (subst (λ t. Holds C hvs round t s') same h, hc)
        | inr other ↦
            let same : type ≡ commit_type = ground (arith, e, other) in
            rw (other) (hp, subst (λ t. Holds C hvs round t s') same h)
      ]

  pub of_type-Holds :
      (hvs : HeightVoteSet C) (round : ℤ) (type : ℕ) (rvs : RoundVoteSet C) (s : VoteSet C)
      → of_type C rvs type ≡ some s
      → IsRound C hvs round rvs
      → Holds C hvs round type s
  unfolding of_type
  of_type-Holds hvs round type rvs s e (hp, hc) = elim (Bool-cases (type == prepare_type)) [
    | inl prep ↦
        let same : type ≡ prepare_type = ground (arith, prep) in
        let found : rvs.prepares ≡ s = ground (arith, e, prep) in
        subst (λ t. Holds C hvs round t s) (sym same)
          (subst (Holds C hvs round prepare_type) found hp)
    | inr other ↦
        let same : type ≡ commit_type = ground (arith, e, other) in
        let found : rvs.commits ≡ s = ground (arith, e, other) in
        subst (λ t. Holds C hvs round t s) (sym same)
          (subst (Holds C hvs round commit_type) found hc)
  ]

  pub of_type_total :
      (type : ℕ) (rvs : RoundVoteSet C)
      → is_vote_type_valid type ≡ true
      → (s : VoteSet C) × (of_type C rvs type ≡ some s)
  unfolding of_type is_vote_type_valid
  of_type_total type rvs valid = elim (Bool-cases (type == prepare_type)) [
    | inl prep ↦ (rvs.prepares, rw (prep) refl)
    | inr other ↦ (rvs.commits, rw (other) (ground (arith, valid, other)))
  ]

  pub put-IsHeight :
      (hvs : HeightVoteSet C) (round : ℤ) (type : ℕ) (rvs : RoundVoteSet C) (s s' : VoteSet C)
      → IsHeight C hvs
      → hvs.round_vote_sets round ≡ some rvs
      → of_type C rvs type ≡ some s
      → Holds C hvs round type s'
      → IsHeight C (put_vote_set C hvs round type s')
  unfolding put_vote_set
  put-IsHeight hvs round type rvs s s' v at e h =
      rw (at, put_vote_set)
        (record {
          ready = v.ready;
          nonzero = v.nonzero;
          rounds =
              put-HasRounds C hvs round (with_type C rvs type s') v.rounds
                (with_type-IsRound hvs round type rvs s s' e (v.rounds round rvs at) h);
          filled = λ n upto. elim (Bool-cases (eqb_ℤ round (pos n))) [
            | inl here ↦ (with_type C rvs type s', ground (arith, here))
            | inr other ↦ let (x, there) = v.filled n upto in (x, ground (arith, other, there))
          ];
          bounded = v.bounded;
        })
