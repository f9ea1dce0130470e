-- ===== src/HeightVoteSet/Pol.antt =====
-- POLInfo finds the last round with two thirds of the prepares for one block.
use bft.Base.{
  ℕ, zero, suc, ◌<◌, ◌≡◌, refl, inl, inr, none, some, arith, Option-cases, ap, ◌∙◌, subst, sym,
  ℕ_discrete,
}
use bft.Base.Int.{ℤ, pos, negsuc, succ_ℤ, gap}
use bft.BlockId.{BlockId, zero_id}
use bft.VoteSet.{Context, two_thirds_majority}
use bft.HeightVoteSet.{RoundVoteSet, HeightVoteSet, get_vote_set, of_type, pol_below, pol_info}

module _ (C : Context) where
  abbrev pub IsUndecided : HeightVoteSet C → ℕ → Type 0
  IsUndecided hvs n =
      (rvs : RoundVoteSet C) → hvs.round_vote_sets (pos n) ≡ some rvs → rvs.prepares.maj23 ≡ none

  -- The answers of POLInfo for the rounds below n.
  pub data Pol (hvs : HeightVoteSet C) (n : ℕ) : ℤ × BlockId → Type 0 where
    undecided : ((k : ℕ) → k < n → IsUndecided hvs k) → Pol hvs n (negsuc 0, zero_id)
    latest :
        (k : ℕ) (rvs : RoundVoteSet C) (b : BlockId)
        → k < n
        → hvs.round_vote_sets (pos k) ≡ some rvs
        → rvs.prepares.maj23 ≡ some b
        → ((j : ℕ) → k < j → j < n → IsUndecided hvs j)
        → Pol hvs n (pos k, b)

  step :
      (hvs : HeightVoteSet C) (n : ℕ) (r : ℤ × BlockId)
      → IsUndecided hvs n
      → Pol hvs n r
      → Pol hvs (suc n) r
  step hvs n _ here (undecided all) = undecided (λ k lt. elim (ℕ_discrete k n) [
    | yes same ↦ subst (IsUndecided hvs) (sym same) here
    | no other ↦ all k (omega (arith, lt, other))
  ])
  step hvs n _ here (latest k rvs b low at maj above) =
      latest k rvs b (omega (arith, low)) at maj (λ j up lt. elim (ℕ_discrete j n) [
        | yes same ↦ subst (IsUndecided hvs) (sym same) here
        | no other ↦ above j up (omega (arith, lt, other))
      ])

  pol_below_lem :
      (hvs : HeightVoteSet C) (n : ℕ)
      → (r : ℤ × BlockId) × (pol_below C hvs n ≡ some r) × Pol hvs n r
  unfolding pol_below get_vote_set of_type two_thirds_majority
  pol_below_lem hvs zero =
      ((negsuc 0, zero_id), refl, undecided (λ k lt. absurd (omega (arith, lt))))
  pol_below_lem hvs (suc n) = elim (Option-cases (hvs.round_vote_sets (pos n))) [
    | inl missing ↦
        let (r, e, p) = pol_below_lem hvs n in
        (r, rw (missing, pol_below) e, step hvs n r (λ rvs at. absurd (cc (missing, at))) p)
    | inr (rvs, at) ↦ elim (Option-cases rvs.prepares.maj23) [
      | inr (b, maj) ↦ (
        (pos n, b),
        rw (at, pol_below) (rw (maj, pol_below) (rw (maj, two_thirds_majority) refl)),
        latest n rvs b (omega arith) at maj (λ j up lt. absurd (omega (arith, up, lt))),
      )
      | inl open' ↦
          let (r, e, p) = pol_below_lem hvs n in
          let same : (x : RoundVoteSet C)
              → hvs.round_vote_sets (pos n) ≡ some x
              → x.prepares.maj23 ≡ none =
            λ x at'.
              let eq : rvs ≡ x = ground (arith, at, at') in
              subst (λ (y : RoundVoteSet C). y.prepares.maj23 ≡ none) eq open' in
          (r, rw (at, pol_below) (rw (open', pol_below) e), step hvs n r same p)
    ]
  ]

  -- At a round that is not negative POLInfo does not panic: it gives the last round up to it whose
  -- prepares have a majority, with the majority's block id, or -1 and the nil id where no round
  -- has one.
  pub pol_info_lem :
      (hvs : HeightVoteSet C) (n : ℕ)
      → hvs.round ≡ pos n
      → (r : ℤ × BlockId) × (pol_info C hvs ≡ some r) × Pol hvs (suc n) r
  unfolding pol_info
  pol_info_lem hvs n e =
      let (r, f, p) = pol_below_lem hvs (suc n) in
      (
        r,
        ap (λ i. pol_below C hvs (gap (pos 0) (succ_ℤ i))) e
            ∙ ap (pol_below C hvs) {y = suc n} (omega arith)
            ∙ f,
        p,
      )
