-- ===== src/HeightVoteSet/Examples.antt =====
-- Runs of a HeightVoteSet of two validators, with whole numbers for the powers and keys that are
-- addresses.
use bft.Base.{◌≡◌, refl, Option, some, [], ◌∷◌}
use bft.Base.Int.{ℤ, pos}
use bft.BlockId.{BlockId, zero_id}
use bft.Vote.{Vote}
use bft.Samples.{whole-IsOrdered, context, validators, validators-IsReady, start, start-IsHeight}
use bft.HeightVoteSet.{
  HeightVoteSet, RoundVoteSet, PeerError, new_height_vote_set, set_round, set_peer_maj23, pol_info,
}
use bft.HeightVoteSet.Invariant.{IsHeight}
use bft.HeightVoteSet.Rounds.{new_height_vote_set-IsHeight, set_round_lem}
use bft.HeightVoteSet.AddVote.{Grows}
use bft.HeightVoteSet.Claims.{Settles, set_peer_maj23_lem}
use bft.HeightVoteSet.Pol.{Pol, pol_info_lem}

new_height_vote_set-IsHeight_example :
    (hvs : HeightVoteSet context) × (new_height_vote_set context (9 ∷ []) (pos 3) validators
      ≡ some hvs)
    × IsHeight context hvs
    × (hvs.height ≡ pos 3)
    × (hvs.val_set ≡ validators)
    × (hvs.round ≡ pos 0)
new_height_vote_set-IsHeight_example =
    new_height_vote_set-IsHeight context (9 ∷ []) (pos 3) validators refl validators-IsReady

set_round_lem_example :
    (hvs : HeightVoteSet context) × (set_round context start (pos 2) ≡ some hvs)
    × IsHeight context hvs
    × (hvs.round ≡ pos 2)
    × ((r : ℤ) (rvs : RoundVoteSet context)
        → start.round_vote_sets r ≡ some rvs
        → hvs.round_vote_sets r ≡ some rvs)
set_round_lem_example = set_round_lem context start (pos 2) start-IsHeight refl refl refl

abbrev vote : Vote
vote = record {
  type = 1;
  height = pos 3;
  round = pos 7;
  block_id = zero_id;
  timestamp = pos 5;
  validator_address = 2 ∷ [];
  validator_index = pos 1;
  signature = 2 ∷ 9 ∷ [];
}

set_peer_maj23_lem_example :
    (r : HeightVoteSet context × Option (PeerError context)) × (set_peer_maj23 context start
        (pos 0)
        1
        (4 ∷ [])
        zero_id
      ≡ some r)
    × Grows context start r.0
    × Settles context start (pos 0) 1 (4 ∷ []) zero_id r
set_peer_maj23_lem_example =
    set_peer_maj23_lem context whole-IsOrdered refl start (pos 0) 1 (4 ∷ []) zero_id start-IsHeight

pol_info_lem_example : (r : ℤ × BlockId) × (pol_info context start ≡ some r) × Pol context start 1 r
pol_info_lem_example = pol_info_lem context start 0 refl
