-- ===== src/HeightVoteSet/Invariant.antt =====
-- The well-formedness of a HeightVoteSet, and what addRound and the loop of SetRound do to it.
use bft.Base.{
  ℕ, zero, suc, ◌≤◌, ◌<◌, ◌≡◌, refl, inl, inr, false, none, some, arith, length, Bytes, subst, ap,
  ◌∙◌, Bool-cases, Option-cases,
}
use bft.Base.Int.{ℤ, pos, eqb_ℤ, eqb_ℤ_refl, eqb_ℤ_sound, ltb_ℤ, succ_ℤ, plus}
use bft.Vote.{prepare_type, commit_type}
use bft.VoteSet.{Context, VoteSet, new_vote_set}
use bft.VoteSet.Invariant.{IsValid}
use bft.VoteSet.Total.{IsReady, new_vote_set-IsValid}
use bft.VoteSet.Frame.{place}
use bft.HeightVoteSet.{RoundVoteSet, HeightVoteSet, add_round, fill, put}

module _ (C : Context) where
  -- A well-formed vote set of the given place.
  abbrev pub Holds : HeightVoteSet C → ℤ → ℕ → VoteSet C → Type 0
  Holds hvs round type s =
      IsValid C s
      × (s.val_set ≡ hvs.val_set)
      × (place C s ≡ (hvs.chain_id, hvs.height, round, type))

  abbrev pub IsRound : HeightVoteSet C → ℤ → RoundVoteSet C → Type 0
  IsRound hvs round rvs =
      Holds hvs round prepare_type rvs.prepares × Holds hvs round commit_type rvs.commits

  abbrev pub HasRounds : HeightVoteSet C → Type 0
  HasRounds hvs =
      (r : ℤ) (rvs : RoundVoteSet C) → hvs.round_vote_sets r ≡ some rvs → IsRound hvs r rvs

  pub record IsHeight (hvs : HeightVoteSet C) : Type 0 where
    pub ready : IsReady C hvs.val_set
    pub nonzero : eqb_ℤ hvs.height (pos 0) ≡ false
    pub rounds : HasRounds hvs
    -- Every round from 0 to the present one has vote sets.
    pub filled :
        (n : ℕ)
        → ltb_ℤ hvs.round (pos n) ≡ false
        → (rvs : RoundVoteSet C) × (hvs.round_vote_sets (pos n) ≡ some rvs)
    pub bounded : (p : Bytes) → length (hvs.peer_catchup_rounds p) ≤ 2

  -- Only rounds are added.
  pub record Extends (hvs hvs' : HeightVoteSet C) : Type 0 where
    pub chain : hvs'.chain_id ≡ hvs.chain_id
    pub height : hvs'.height ≡ hvs.height
    pub validators : hvs'.val_set ≡ hvs.val_set
    pub round : hvs'.round ≡ hvs.round
    pub peers : hvs'.peer_catchup_rounds ≡ hvs.peer_catchup_rounds
    pub kept :
        (r : ℤ) (rvs : RoundVoteSet C)
        → hvs.round_vote_sets r ≡ some rvs
        → hvs'.round_vote_sets r ≡ some rvs

  Extends-refl : (hvs : HeightVoteSet C) → Extends hvs hvs
  Extends-refl hvs = record {
    chain = refl;
    height = refl;
    validators = refl;
    round = refl;
    peers = refl;
    kept = λ r rvs e. e;
  }

  Extends-trans : (a b c : HeightVoteSet C) → Extends a b → Extends b c → Extends a c
  Extends-trans a b c h k = record {
    chain = k.chain ∙ h.chain;
    height = k.height ∙ h.height;
    validators = k.validators ∙ h.validators;
    round = k.round ∙ h.round;
    peers = k.peers ∙ h.peers;
    kept = λ r rvs e. k.kept r rvs (h.kept r rvs e);
  }

  new_vote_set-Holds :
      (hvs : HeightVoteSet C) (round : ℤ) (type : ℕ)
      → eqb_ℤ hvs.height (pos 0) ≡ false
      → (s : VoteSet C) × (new_vote_set C hvs.chain_id hvs.height round type hvs.val_set ≡ some s)
        × Holds hvs round type s
  new_vote_set-Holds hvs round type h =
      elim (Option-cases (new_vote_set C hvs.chain_id hvs.height round type hvs.val_set)) [
        | inl panics ↦ absurd (unfold new_vote_set in ground (arith, h, panics))
        | inr (s, e) ↦
            let (v, same) =
              new_vote_set-IsValid C hvs.chain_id hvs.height round type hvs.val_set s e in
            (s, e, (v, same, unfold new_vote_set in ground (arith, h, e)))
      ]

  pub put-HasRounds :
      (hvs : HeightVoteSet C) (round : ℤ) (rvs : RoundVoteSet C)
      → HasRounds hvs
      → IsRound hvs round rvs
      → HasRounds (record hvs { round_vote_sets = put C round rvs hvs.round_vote_sets })
  put-HasRounds hvs round rvs all new r x e = elim (Bool-cases (eqb_ℤ round r)) [
    | inl same ↦
        let eq : rvs ≡ x = ground (arith, e, same) in
        subst (λ q. IsRound hvs q x) (eqb_ℤ_sound round r same) (subst (IsRound hvs round) eq new)
    | inr other ↦ all r x (ground (arith, e, other))
  ]

  pub add_round_lem :
      (hvs : HeightVoteSet C) (round : ℤ)
      → eqb_ℤ hvs.height (pos 0) ≡ false
      → HasRounds hvs
      → hvs.round_vote_sets round ≡ none
      → (hvs' : HeightVoteSet C) × (add_round C hvs round ≡ some hvs')
        × Extends hvs hvs'
        × HasRounds hvs'
        × (rvs : RoundVoteSet C) × (hvs'.round_vote_sets round ≡ some rvs)
  unfolding add_round
  add_round_lem hvs round h all free =
      let (p, e, hp) = new_vote_set-Holds hvs round prepare_type h in
      let (c, f, hc) = new_vote_set-Holds hvs round commit_type h in
      let rvs : RoundVoteSet C = record { prepares = p; commits = c } in
      (
        record hvs { round_vote_sets = put C round rvs hvs.round_vote_sets },
        rw (free, add_round) (rw (e, add_round) (rw (f, add_round) refl)),
        record {
          chain = refl;
          height = refl;
          validators = refl;
          round = refl;
          peers = refl;
          kept = λ r x at. elim (Bool-cases (eqb_ℤ round r)) [
            | inl same ↦ absurd (cc (free, at, ap hvs.round_vote_sets (eqb_ℤ_sound round r same)))
            | inr other ↦ ground (arith, at, other)
          ];
        },
        put-HasRounds hvs round rvs all (hp, hc),
        rvs,
        ground (arith, eqb_ℤ_refl round),
      )

  pub fill_lem :
      (n : ℕ) (r : ℤ) (hvs : HeightVoteSet C)
      → eqb_ℤ hvs.height (pos 0) ≡ false
      → HasRounds hvs
      → (hvs' : HeightVoteSet C) × (fill C n r hvs ≡ some hvs')
        × Extends hvs hvs'
        × HasRounds hvs'
        × ((k : ℕ) → k < n → (rvs : RoundVoteSet C) × (hvs'.round_vote_sets (plus k r) ≡ some rvs))
  unfolding fill
  fill_lem zero r hvs h all = (hvs, refl, Extends-refl hvs, all, λ k lt. absurd (omega (arith, lt)))
  fill_lem (suc n) r hvs h all = elim (Option-cases (hvs.round_vote_sets r)) [
    | inr (rvs, at) ↦
        let (hvs', e, x, all', there) = fill_lem n (succ_ℤ r) hvs h all in
        (hvs', rw (at, fill) e, x, all', λ k lt. reached n r hvs' k (rvs, x.kept r rvs at) there lt)
    | inl free ↦
        let (mid, e, x, all', rvs, at) = add_round_lem hvs r h all free in
        let (hvs', f, y, all'', there) =
          fill_lem n (succ_ℤ r) mid (ap (λ i. eqb_ℤ i (pos 0)) x.height ∙ h) all' in
        (
          hvs',
          rw (free, fill) (rw (e, fill) f),
          Extends-trans hvs mid hvs' x y,
          all'',
          λ k lt. reached n r hvs' k (rvs, y.kept r rvs at) there lt,
        )
  ]
    where
      reached :
          (n : ℕ) (r : ℤ) (hvs' : HeightVoteSet C) (k : ℕ)
          → (rvs : RoundVoteSet C) × (hvs'.round_vote_sets r ≡ some rvs)
          → ((k : ℕ)
              → k < n
              → (rvs : RoundVoteSet C) × (hvs'.round_vote_sets (plus k (succ_ℤ r)) ≡ some rvs))
          → k < suc n
          → (rvs : RoundVoteSet C) × (hvs'.round_vote_sets (plus k r) ≡ some rvs)
      reached n r hvs' zero here there lt = here
      reached n r hvs' (suc k) here there lt = there k (omega (arith, lt))
