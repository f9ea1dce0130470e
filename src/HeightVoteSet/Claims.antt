-- ===== src/HeightVoteSet/Claims.antt =====
-- SetPeerMaj23 of consensus/height_vote_set.go: its answer, and the majorities of the rounds.
use bft.Base.{
  ℕ, ◌≡◌, refl, ◌⊎◌, inl, inr, Bool, true, false, Option, none, some, arith, ◌==◌, if◌then◌else◌,
  Bytes, ap, subst, sym, ◌∙◌, Bool-cases, Option-cases,
}
use bft.Base.Int.{ℤ, eqb_ℤ, eqb_ℤ_refl, eqb_ℤ_sound}
use bft.External.{IsOrdered}
use bft.BlockId.{BlockId}
use bft.Vote.{is_vote_type_valid, prepare_type, commit_type}
use bft.VoteSet
use bft.VoteSet.{Context, VoteSet, quorum}
use bft.VoteSet.Frame.{set_peer_maj23-maj23}
use bft.VoteSet.Peers.{IsClaim, set_peer_maj23-IsClaim}
use bft.HeightVoteSet.{
  RoundVoteSet, HeightVoteSet, with_type, of_type, get_vote_set, put_vote_set, set_peer_maj23,
  PeerError, invalid_type, conflicting_claim,
}
use bft.HeightVoteSet.Invariant.{IsHeight}
use bft.HeightVoteSet.Rounds.{of_type_total}
use bft.HeightVoteSet.AddVote.{Grows, set_peer_maj23-Grows}

module _ (C : Context) where
  open C use {floats}
  open floats use {of_ℕ, lt}

  -- The majorities of the two sets of a round.
  abbrev pub majorities_of : Option (RoundVoteSet C) → Option (Option BlockId × Option BlockId)
  majorities_of none = none
  majorities_of (some rvs) = some (rvs.prepares.maj23, rvs.commits.maj23)

  -- What SetPeerMaj23 answers: an unknown type is an error and an unknown round is ignored, and
  -- otherwise the set of the round and type takes the claim.
  abbrev pub IsAnswer :
      HeightVoteSet C → ℤ → ℕ → Bytes → BlockId → HeightVoteSet C × Option (PeerError C) → Type 0
  IsAnswer hvs round type peer b r =
      ((is_vote_type_valid type ≡ false) × (r ≡ (hvs, some invalid_type)))
      ⊎ ((is_vote_type_valid type ≡ true) × (hvs.round_vote_sets round ≡ none) × (r ≡ (hvs, none)))
      ⊎ ((s : VoteSet C) × (s' : VoteSet C) × (conflict : Bool) × (get_vote_set C hvs round type
            ≡ some (some s))
          × (get_vote_set C r.0 round type ≡ some (some s'))
          × IsClaim C s peer b s' conflict
          × (r.1 ≡ (if conflict then some conflicting_claim else none)))

  of_type-with_type :
      (rvs : RoundVoteSet C) (type : ℕ) (s : VoteSet C)
      → is_vote_type_valid type ≡ true
      → of_type C (with_type C rvs type s) type ≡ some s
  unfolding of_type is_vote_type_valid
  of_type-with_type rvs type s valid = elim (Bool-cases (type == prepare_type)) [
    | inl prep ↦ rw (prep, of_type) refl
    | inr other ↦
        let commit : (type == commit_type) ≡ true = ground (arith, valid, other) in
        rw (other, of_type) (rw (commit, of_type) refl)
  ]

  get_vote_set-put_vote_set :
      (hvs : HeightVoteSet C) (round : ℤ) (type : ℕ) (rvs : RoundVoteSet C) (s : VoteSet C)
      → is_vote_type_valid type ≡ true
      → hvs.round_vote_sets round ≡ some rvs
      → get_vote_set C (put_vote_set C hvs round type s) round type ≡ some (some s)
  unfolding get_vote_set put_vote_set
  get_vote_set-put_vote_set hvs round type rvs s valid at =
      rw (at, put_vote_set)
        (rw (eqb_ℤ_refl round, get_vote_set)
          (rw (of_type-with_type rvs type s valid, get_vote_set) refl))

  majorities-put_vote_set :
      (hvs : HeightVoteSet C) (round : ℤ) (type : ℕ) (rvs : RoundVoteSet C) (s s' : VoteSet C)
      → hvs.round_vote_sets round ≡ some rvs
      → of_type C rvs type ≡ some s
      → s'.maj23 ≡ s.maj23
      → (r : ℤ)
      → majorities_of ((put_vote_set C hvs round type s').round_vote_sets r)
        ≡ majorities_of (hvs.round_vote_sets r)
  unfolding put_vote_set of_type
  majorities-put_vote_set hvs round type rvs s s' at e same r =
      rw (at, put_vote_set)
        (elim (Bool-cases (eqb_ℤ round r)) [
          | inr other ↦ rw (other) refl
          | inl here ↦
              let old =
                ap majorities_of (ap hvs.round_vote_sets (sym (eqb_ℤ_sound round r here)) ∙ at) in
              rw (here) (elim (Bool-cases (type == prepare_type)) [
                | inl prep ↦
                    let found : rvs.prepares ≡ s = ground (arith, e, prep) in
                    let kept = same ∙ ap (λ (x : VoteSet C). x.maj23) (sym found) in
                    rw (prep) (ap (λ m. some (m, rvs.commits.maj23)) kept ∙ sym old)
                | inr other ↦
                    let found : rvs.commits ≡ s = ground (arith, e, other) in
                    let kept = same ∙ ap (λ (x : VoteSet C). x.maj23) (sym found) in
                    rw (other) (ap (λ m. some (rvs.prepares.maj23, m)) kept ∙ sym old)
              ])
        ])

  -- The answer, with the majorities of every round as they were.
  abbrev pub Settles :
      HeightVoteSet C → ℤ → ℕ → Bytes → BlockId → HeightVoteSet C × Option (PeerError C) → Type 0
  Settles hvs round type peer b r =
      IsAnswer hvs round type peer b r
      × ((i : ℤ) → majorities_of (r.0.round_vote_sets i) ≡ majorities_of (hvs.round_vote_sets i))

  set_peer_maj23-Settles :
      (hvs : HeightVoteSet C) (round : ℤ) (type : ℕ) (peer : Bytes) (b : BlockId)
      (r : HeightVoteSet C × Option (PeerError C))
      → set_peer_maj23 C hvs round type peer b ≡ some r
      → Settles hvs round type peer b r
  unfolding set_peer_maj23
  set_peer_maj23-Settles hvs round type peer b r e = elim (Bool-cases (is_vote_type_valid type)) [
    | inr invalid ↦
        let one : (hvs, some invalid_type) ≡ r = ground (arith, invalid, e) in
        subst (Settles hvs round type peer b) one (inl (invalid, refl), λ i. refl)
    | inl valid ↦ elim (Option-cases (hvs.round_vote_sets round)) [
      | inl unknown ↦
          let nowhere : get_vote_set C hvs round type ≡ some none =
            unfold get_vote_set in ground (arith, unknown) in
          let one : (hvs, none) ≡ r = ground (arith, valid, nowhere, e) in
          subst (Settles hvs round type peer b) one (inr (inl (valid, unknown, refl)), λ i. refl)
      | inr (rvs, at) ↦
          let (s, found) = of_type_total C type rvs valid in
          let held : get_vote_set C hvs round type ≡ some (some s) =
            unfold get_vote_set in ground (arith, at, found) in
          let s' = (VoteSet.set_peer_maj23 C s peer b).0 in
          let conflict = (VoteSet.set_peer_maj23 C s peer b).1 in
          let one : (
            put_vote_set C hvs round type s',
            if conflict then some conflicting_claim else none,
          )
              ≡ r =
            ground (arith, valid, held, e) in
          subst (Settles hvs round type peer b) one (
            inr (
                inr (
                  s,
                  s',
                  conflict,
                  held,
                  get_vote_set-put_vote_set hvs round type rvs s' valid at,
                  set_peer_maj23-IsClaim C s peer b,
                  refl,
                )),
            majorities-put_vote_set hvs round type rvs s s' at found
                (set_peer_maj23-maj23 C s peer b),
          )
    ]
  ]

  module _ (o : IsOrdered floats) (positive : lt (of_ℕ 0) (quorum C) ≡ true) where
    -- With powers ordered as IEEE numbers are and a quorum above 0: on a well-formed height vote
    -- set SetPeerMaj23 does not panic and leaves a well-formed set of the same height, validators
    -- and round, with the majorities of every round as before. An unknown type is an error and an
    -- unknown round is ignored, both without a change. Otherwise the first claim of a peer for the
    -- round and type is recorded and its block is marked as claimed; a later one changes nothing,
    -- and is an error where it is for another block.
    pub set_peer_maj23_lem :
        (hvs : HeightVoteSet C) (round : ℤ) (type : ℕ) (peer : Bytes) (b : BlockId)
        → IsHeight C hvs
        → (r : HeightVoteSet C × Option (PeerError C)) × (set_peer_maj23 C hvs round type peer b
            ≡ some r)
          × Grows C hvs r.0
          × Settles hvs round type peer b r
    set_peer_maj23_lem hvs round type peer b v =
        let (r, e, g) = set_peer_maj23-Grows C o positive hvs round type peer b v in
        (r, e, g, set_peer_maj23-Settles hvs round type peer b r e)
