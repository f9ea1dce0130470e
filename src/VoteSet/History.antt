-- ===== src/VoteSet/History.antt =====
-- A VoteSet over its life: NewVoteSet, then any calls of AddVote and SetPeerMaj23.
use bft.Base.{◌≡◌, ◌↔◌, true, Option, none, some, List, [], ◌∷◌, Bytes}
use bft.Base.Assoc.{lookup}
use bft.BlockId.{BlockId, key}
use bft.Vote.{Vote}
use bft.VoteSet.{
  Context, Val, BlockVotes, VoteSet, quorum, add_vote, set_peer_maj23, has_two_thirds_majority,
}
use bft.VoteSet.Tallies.{IsTally}

pub data VoteSetEvent : Type 0 where
  voted : Option Vote → VoteSetEvent
  claimed : Bytes → BlockId → VoteSetEvent

module _ (C : Context) where
  open C use {keys, floats, marshal}
  open floats use {Float, of_ℕ, lt, le}

  unfoldable pub run_votes : VoteSet C → List VoteSetEvent → Option (VoteSet C)
  run_votes s [] = some s
  run_votes s (claimed peer b ∷ events) = run_votes (set_peer_maj23 C s peer b).0 events
  run_votes s (voted vote ∷ events) = elim (add_vote C s vote) [
    | none ↦ none
    | some (s', a) ↦ run_votes s' events
  ]

  -- A block whose recorded votes are counted, and reach the quorum.
  abbrev pub HasQuorum : List (Val C) → VoteSet C → Bytes → Type 0
  HasQuorum vals s k =
      (vs : BlockVotes C) × (lookup k s.votes_by_block ≡ some vs)
      × IsTally C vals k vs
      × (le (quorum C) vs.sum ≡ true)

  abbrev pub IsCounted : List (Val C) → VoteSet C → Type 0
  IsCounted vals s =
      ((k : Bytes) (vs : BlockVotes C) → lookup k s.votes_by_block ≡ some vs → IsTally C vals k vs)
      × ((has_two_thirds_majority C (some s) ≡ true) ↔ ((k : Bytes) × HasQuorum vals s k))
      × ((b : BlockId) → s.maj23 ≡ some b → HasQuorum vals s (key marshal b))
