-- ===== src/VoteSet/Examples.antt =====
-- Runs of a VoteSet of two validators, with whole numbers for the powers and keys that are addresses.
use bft.Base.{◌≡◌, ◌⊎◌, refl, List, Bool, true, false, Option, none, some, [], ◌∷◌, bytes_equal}
use bft.Base.Int.{pos}
use bft.Base.Assoc.{lookup, insert}
use bft.BlockId.{BlockId, key}
use bft.Base.ByteStrings.{bytes_equal}
use bft.Bits.{BitArray, new_bit_array, set_index, set_bit}
use bft.Vote.{Vote, verify}
use bft.Samples.{context, validators}
use bft.VoteSet.{
  BlockVotes, VoteSet, add_vote, add_vote_at, add_vote_of, get_vote, verify_and_add,
  add_verified_vote, finish, new_vote_set, set_peer_maj23, has_two_thirds_majority,
}
use bft.VoteSet.Invariant.{IsValid}
use bft.VoteSet.Total.{new_vote_set-IsValid}
use bft.VoteSet.History.{VoteSetEvent, voted, claimed, run_votes}
use bft.VoteSet.AddVote.{IsAuthentic, add_vote-IsAuthentic}

abbrev start : VoteSet context
start = record {
  chain_id = [];
  height = pos 1;
  round = pos 0;
  signed_msg_type = 1;
  val_set = validators;
  votes_bit_array = new_bit_array 2;
  votes = none ∷ none ∷ [];
  sum = 0;
  maj23 = none;
  votes_by_block = [];
  peer_maj23s = [];
}

started : new_vote_set context [] (pos 1) (pos 0) 1 validators ≡ some start
unfolding new_vote_set
started = refl

new_vote_set-IsValid_example : IsValid context start × (start.val_set ≡ validators)
new_vote_set-IsValid_example =
    new_vote_set-IsValid context [] (pos 1) (pos 0) 1 validators start started

abbrev vote : Vote
vote = record {
  type = 1;
  height = pos 1;
  round = pos 0;
  block_id = record { hash = 9 ∷ []; parts = record { total = 1; hash = 9 ∷ [] } };
  timestamp = pos 0;
  validator_address = 2 ∷ [];
  validator_index = pos 1;
  signature = 2 ∷ 9 ∷ [];
}

abbrev bits : Option BitArray
bits = some (record { bits = 2; elems = 2 ∷ [] })

abbrev counted : BlockVotes context
counted = record { peer_maj23 = false; bit_array = bits; votes = none ∷ some vote ∷ []; sum = 5 }

-- The set after the vote.
abbrev after : VoteSet context
after = record start {
  votes_bit_array = bits;
  votes = none ∷ some vote ∷ [];
  sum = 5;
  votes_by_block = (9 ∷ 1 ∷ 9 ∷ [], counted) ∷ [];
}

added : add_vote context start (some vote) ≡ some (after, record { added = true; error = none })
unfolding add_vote add_vote_at add_vote_of get_vote lookup verify_and_add verify bytes_equal
    add_verified_vote set_index new_bit_array finish set_bit insert key
added = refl

add_vote-IsAuthentic_example : (after ≡ start) ⊎ IsAuthentic context start vote
add_vote-IsAuthentic_example =
    add_vote-IsAuthentic context start after vote (record { added = true; error = none }) added

abbrev other_vote : Vote
other_vote = record vote {
  validator_address = 1 ∷ [];
  validator_index = pos 0;
  signature = 1 ∷ 9 ∷ [];
}

-- A claim, both votes, the first once more, and the nil vote.
abbrev events : List VoteSetEvent
events =
    claimed (7 ∷ []) vote.block_id
    ∷ voted (some vote)
    ∷ voted (some other_vote)
    ∷ voted (some vote)
    ∷ voted none
    ∷ []

unfoldable has_majority : Option (VoteSet context) → Bool
unfolding has_two_thirds_majority
has_majority none = false
has_majority (some s) = has_two_thirds_majority context (some s)

reached : has_majority (run_votes context start events) ≡ true
unfolding has_majority run_votes add_vote add_vote_at add_vote_of get_vote lookup verify_and_add
    verify bytes_equal add_verified_vote set_index new_bit_array finish set_bit insert key
    set_peer_maj23
reached = refl
