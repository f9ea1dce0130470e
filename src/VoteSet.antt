-- ===== src/VoteSet.antt =====
-- The VoteSet of types/vote.go: the votes of one height, round and type. A panic is `none`. The
-- mutex guards each method as a whole and is not modelled, nor are the string and JSON forms.
-- A map entry is written back where the code changes it through its pointer.
mod Examples
pub mod Invariant
pub mod Steps
pub mod Majority
pub mod Total
pub mod Tallies
pub mod Counts
pub mod AddVote
pub mod Frame
pub mod Peers
pub mod History
use bft.Base.{
  ℕ, ◌+◌, ◌≡◌, Bool, true, false, ◌&&◌, ◌||◌, not, Option, none, some, List, [], ◌∷◌, ltb, ◌==◌,
  if◌then◌else◌, length, get_elem?, set, replicate, Bytes, bytes_equal,
}
use bft.Base.Int.{ℤ, pos, negsuc, eqb_ℤ, is_neg}
use bft.Base.Assoc.{lookup, insert}
use bft.External.{Keys, Float64}
use bft.Bits.{BitArray, new_bit_array, mark}
use bft.BlockId.{BlockId, PartSetHeader, equals, key, zero_id}
use bft.Vote.{Vote, verify, commit_type}
use bft.Validator.{Validator}

-- What the code takes from elsewhere.
pub record Context : Type 1 where
  pub keys : Keys
  pub floats : Float64
  pub sign_bytes : Bytes → Vote → Bytes
  pub marshal : PartSetHeader → Bytes

pub data VoteError : Type 0 where
  vote_nil invalid_validator_index invalid_validator_address unexpected_step : VoteError
  non_deterministic_signature invalid_vote : VoteError
  conflicting_votes : Vote → Vote → VoteError

-- The two results of AddVote.
pub record Added : Type 0 where
  pub added : Bool
  pub error : Option VoteError

module _ (C : Context) where
  open C use {keys, floats, sign_bytes, marshal}
  open floats use {Float, of_ℕ, add, mul, div, lt, le, eq}

  abbrev pub Val : Type 0
  Val = Validator keys floats

  abbrev pub total_voting_power : Float
  total_voting_power = of_ℕ 10

  pub record BlockVotes : Type 0 where
    pub peer_maj23 : Bool
    pub bit_array : Option BitArray
    pub votes : List (Option Vote)
    pub sum : Float

  pub record VoteSet : Type 0 where
    pub chain_id : Bytes
    pub height : ℤ
    pub round : ℤ
    pub signed_msg_type : ℕ
    pub val_set : List Val
    pub votes_bit_array : Option BitArray
    pub votes : List (Option Vote)
    pub sum : Float
    pub maj23 : Option BlockId
    pub votes_by_block : List (Bytes × BlockVotes)
    pub peer_maj23s : List (Bytes × BlockId)

  unfoldable pub new_block_votes : Bool → ℕ → BlockVotes
  new_block_votes peer_maj23 n = record {
    peer_maj23 = peer_maj23;
    bit_array = new_bit_array n;
    votes = replicate n none;
    sum = of_ℕ 0;
  }

  -- The panic is that of height 0.
  unfoldable pub new_vote_set : Bytes → ℤ → ℤ → ℕ → List Val → Option VoteSet
  new_vote_set chain_id height round type val_set =
      if eqb_ℤ height (pos 0)
      then none
      else some (record {
        chain_id = chain_id;
        height = height;
        round = round;
        signed_msg_type = type;
        val_set = val_set;
        votes_bit_array = new_bit_array (length val_set);
        votes = replicate (length val_set) none;
        sum = of_ℕ 0;
        maj23 = none;
        votes_by_block = [];
        peer_maj23s = [];
      })

  -- blockVotes.addVerifiedVote
  unfoldable pub add_to_block : BlockVotes → ℕ → Vote → Float → Option BlockVotes
  unfolding mark
  add_to_block vs i vote power = elim (get_elem? vs.votes i) [
    | none ↦ none
    | some (some existing) ↦ some vs
    | some none ↦ elim (mark vs.bit_array i) [
      | none ↦ none
      | some bits ↦ some (record vs {
        bit_array = bits;
        votes = set vs.votes i (some vote);
        sum = add vs.sum power;
      })
    ]
  ]

  -- blockVotes.getByIndex on the entry of a key; a missing entry is the nil *blockVotes.
  unfoldable pub get_by_index : Option BlockVotes → ℕ → Option (Option Vote)
  get_by_index none i = some none
  get_by_index (some vs) i = get_elem? vs.votes i

  abbrev pub has_key : Bytes → Option Vote → Bool
  has_key k none = false
  has_key k (some v) = bytes_equal (key marshal v.block_id) k

  unfoldable pub get_vote : VoteSet → ℕ → Bytes → Option (Option Vote)
  unfolding get_by_index
  get_vote s i block_key = elim (get_elem? s.votes i) [
    | none ↦ none
    | some existing ↦
        if has_key block_key existing
        then some existing
        else get_by_index (lookup block_key s.votes_by_block) i
  ]

  abbrev pub is_maj23 : VoteSet → Bytes → Bool
  is_maj23 s block_key = elim s.maj23 [
    | none ↦ false
    | some b ↦ bytes_equal (key marshal b) block_key
  ]

  -- The first part of addVerifiedVote: the canonical vote of the validator. The result is the new
  -- set and the conflicting vote.
  unfoldable pub record_vote : VoteSet → ℕ → Vote → Bytes → Float → Option (VoteSet × Option Vote)
  unfolding mark
  record_vote s i vote block_key power = elim (get_elem? s.votes i) [
    | none ↦ none
    | some (some existing) ↦
        if equals existing.block_id vote.block_id
        then none
        else if is_maj23 s block_key
        then elim (mark s.votes_bit_array i) [
          | none ↦ none
          | some bits ↦ some (
            record s { votes = set s.votes i (some vote); votes_bit_array = bits },
            some existing,
          )
        ]
        else some (s, some existing)
    | some none ↦ elim (mark s.votes_bit_array i) [
      | none ↦ none
      | some bits ↦ some (
        record s {
          votes = set s.votes i (some vote);
          votes_bit_array = bits;
          sum = add s.sum power;
        },
        none,
      )
    ]
  ]

  -- The entry that the vote goes to; `none` where a conflicting vote is not tracked.
  unfoldable pub tracked : VoteSet → Bytes → Option Vote → Option BlockVotes
  unfolding new_block_votes
  tracked s block_key conflict = elim (lookup block_key s.votes_by_block) [
    | some vs ↦ elim conflict [ none ↦ some vs | some _ ↦ if vs.peer_maj23 then some vs else none ]
    | none ↦ elim conflict [
      | none ↦ some (new_block_votes false (length s.val_set))
      | some _ ↦ none
    ]
  ]

  -- TotalVotingPower * 2 / 3 + 1
  abbrev pub quorum : Float
  quorum = add (div (mul total_voting_power (of_ℕ 2)) (of_ℕ 3)) (of_ℕ 1)

  -- for i, vote := range from { if vote != nil { to[i] = vote } }
  unfoldable pub copy_votes : List (Option Vote) → List (Option Vote) → Option (List (Option Vote))
  copy_votes [] to = some to
  copy_votes (none ∷ from) [] = copy_votes from []
  copy_votes (some v ∷ from) [] = none
  copy_votes (f ∷ from) (t ∷ to) = elim (copy_votes from to) [
    | none ↦ none
    | some rest ↦ some (elim f [ none ↦ t | some v ↦ some v ] ∷ rest)
  ]

  -- Only the first quorum counts; its votes become the canonical ones.
  unfoldable pub reach_quorum : VoteSet → Vote → Float → BlockVotes → Option VoteSet
  unfolding copy_votes
  reach_quorum s vote orig_sum vs =
      if lt orig_sum quorum && le quorum vs.sum
      then elim s.maj23 [
        | some _ ↦ some s
        | none ↦ elim (copy_votes vs.votes s.votes) [
          | none ↦ none
          | some votes ↦ some (record s { maj23 = some vote.block_id; votes = votes })
        ]
      ]
      else some s

  -- The new set, `added`, and the conflicting vote.
  unfoldable pub add_verified_vote :
      VoteSet → ℕ → Vote → Bytes → Float → Option (VoteSet × Bool × Option Vote)
  unfolding record_vote tracked add_to_block reach_quorum
  add_verified_vote s i vote block_key power = elim (record_vote s i vote block_key power) [
    | none ↦ none
    | some (s', conflict) ↦ elim (tracked s' block_key conflict) [
      | none ↦ some (s', false, conflict)
      | some vs ↦ elim (add_to_block vs i vote power) [
        | none ↦ none
        | some vs' ↦
            elim (reach_quorum
              (record s' { votes_by_block = insert block_key vs' s'.votes_by_block }) vote vs.sum
              vs') [ none ↦ none | some s'' ↦ some (s'', true, conflict) ]
      ]
    ]
  ]

  abbrev rejected : VoteSet → VoteError → Option (VoteSet × Added)
  rejected s e = some (s, record { added = false; error = some e })

  -- The end of addVote, with its panic.
  unfoldable pub finish : Vote → VoteSet × Bool × Option Vote → Option (VoteSet × Added)
  finish vote (s, added, some conflict) =
      some (s, record { added = added; error = some (conflicting_votes conflict vote) })
  finish vote (s, true, none) = some (s, record { added = true; error = none })
  finish vote (s, false, none) = none

  -- The signature check and what follows it. A validator with a nil key is a panic.
  unfoldable pub verify_and_add :
      VoteSet → ℕ → Vote → Option keys.PubKey → Float → Option (VoteSet × Added)
  verify_and_add s i vote none power = none
  verify_and_add s i vote (some pub_key) power =
      elim (verify keys sign_bytes vote s.chain_id pub_key) [
        | some _ ↦ rejected s invalid_vote
        | none ↦ elim (add_verified_vote s i vote (key marshal vote.block_id) power) [
          | none ↦ none
          | some result ↦ finish vote result
        ]
      ]

  -- The checks that follow the lookup of the validator.
  unfoldable pub add_vote_of : VoteSet → ℕ → Vote → Val → Option (VoteSet × Added)
  add_vote_of s i vote val = elim (get_vote s i (key marshal vote.block_id)) [
    | none ↦ none
    | some (some existing) ↦
        if bytes_equal existing.signature vote.signature
        then some (s, record { added = false; error = none })
        else rejected s non_deterministic_signature
    | some none ↦ verify_and_add s i vote val.pub_key val.voting_power
  ]

  abbrev same_step : VoteSet → Vote → Bool
  same_step s vote =
      eqb_ℤ vote.height s.height && (eqb_ℤ vote.round s.round && (vote.type == s.signed_msg_type))

  -- The checks of addVote, at the vote's index.
  unfoldable pub add_vote_at : VoteSet → Vote → ℤ → Option (VoteSet × Added)
  add_vote_at s vote (negsuc _) = rejected s invalid_validator_index
  add_vote_at s vote (pos i) =
      if length vote.validator_address == 0
      then rejected s invalid_validator_address
      else if not (same_step s vote)
      then rejected s unexpected_step
      else elim (get_elem? s.val_set i) [
        | none ↦ rejected s invalid_validator_index
        | some val ↦ add_vote_of s i vote val
      ]

  unfoldable pub add_vote : VoteSet → Option Vote → Option (VoteSet × Added)
  add_vote s none = rejected s vote_nil
  add_vote s (some vote) = add_vote_at s vote vote.validator_index

  -- The new set, and whether the error of a conflicting claim is returned.
  unfoldable pub set_peer_maj23 : VoteSet → Bytes → BlockId → VoteSet × Bool
  unfolding new_block_votes
  set_peer_maj23 s peer block_id = elim (lookup peer s.peer_maj23s) [
    | some existing ↦ (s, not (equals existing block_id))
    | none ↦
        let s' : VoteSet = record s { peer_maj23s = insert peer block_id s.peer_maj23s } in
        let block_key = key marshal block_id in
        elim (lookup block_key s.votes_by_block) [
          | some vs ↦ if vs.peer_maj23 then (s', false) else (
            record s' {
              votes_by_block = insert block_key (record vs { peer_maj23 = true }) s.votes_by_block;
            },
            false,
          )
          | none ↦ (
            record s' {
              votes_by_block =
                  insert block_key (new_block_votes true (length s.val_set)) s.votes_by_block;
            },
            false,
          )
        ]
  ]

  unfoldable pub has_two_thirds_majority : Option VoteSet → Bool
  has_two_thirds_majority none = false
  has_two_thirds_majority (some s) = elim s.maj23 [ none ↦ false | some _ ↦ true ]

  unfoldable pub is_reply : Option VoteSet → Bool
  is_reply none = false
  is_reply (some s) =
      (s.signed_msg_type == commit_type) && elim s.maj23 [ none ↦ false | some _ ↦ true ]

  unfoldable pub has_two_thirds_any : Option VoteSet → Bool
  has_two_thirds_any none = false
  has_two_thirds_any (some s) = lt (div (mul total_voting_power (of_ℕ 2)) (of_ℕ 3)) s.sum

  unfoldable pub has_all : VoteSet → Bool
  has_all s = eq s.sum total_voting_power

  unfoldable pub two_thirds_majority : Option VoteSet → BlockId × Bool
  two_thirds_majority none = (zero_id, false)
  two_thirds_majority (some s) = elim s.maj23 [ none ↦ (zero_id, false) | some b ↦ (b, true) ]

  unfoldable pub bit_array : Option VoteSet → Option BitArray
  bit_array none = none
  bit_array (some s) = s.votes_bit_array

  unfoldable pub bit_array_by_block_id : Option VoteSet → BlockId → Option BitArray
  bit_array_by_block_id none b = none
  bit_array_by_block_id (some s) b = elim (lookup (key marshal b) s.votes_by_block) [
    | none ↦ none
    | some vs ↦ vs.bit_array
  ]
