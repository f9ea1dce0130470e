-- ===== src/HeightVoteSet.antt =====
-- consensus/height_vote_set.go: the vote sets of every round of a height. Maps are functions, where
-- a missing key gives `none` or the empty slice; a vote set is put back where the code changes it
-- through its pointer. A panic is `none`. The mutex, the string and the JSON forms are not modelled.
mod Examples
pub mod Invariant
pub mod Rounds
pub mod AddVote
pub mod Claims
pub mod Pol
use bft.Base.{
  ℕ, zero, suc, ◌+◌, ◌-◌, Bool, true, false, ◌&&◌, not, Option, none, some, List, [], ◌∷◌, ◌++◌,
  ltb, ◌==◌, if◌then◌else◌, length, Bytes, bytes_equal,
}
use bft.Base.Int.{ℤ, pos, negsuc, eqb_ℤ, ltb_ℤ, pred_ℤ, succ_ℤ, gap}
use bft.BlockId.{BlockId, zero_id}
use bft.Vote.{Vote, prepare_type, commit_type, is_vote_type_valid}
use bft.VoteSet
use bft.VoteSet.{Context, Val, VoteSet, VoteError, new_vote_set, two_thirds_majority}

pub data AddError : Type 0 where
  unwanted_round : AddError
  of_vote_set : VoteError → AddError

pub record Outcome : Type 0 where
  pub added : Bool
  pub error : Option AddError

-- math.MaxInt32 and math.MinInt32
abbrev pub max_int32 : ℤ
max_int32 = pos 2147483647

abbrev pub min_int32 : ℤ
min_int32 = negsuc 2147483647

module _ (C : Context) where
  pub record RoundVoteSet : Type 0 where
    pub prepares : VoteSet C
    pub commits : VoteSet C

  pub record HeightVoteSet : Type 0 where
    pub chain_id : Bytes
    pub height : ℤ
    pub val_set : List (Val C)
    pub round : ℤ
    pub round_vote_sets : ℤ → Option RoundVoteSet
    pub peer_catchup_rounds : Bytes → List ℤ

  abbrev pub put : ℤ → RoundVoteSet → (ℤ → Option RoundVoteSet) → ℤ → Option RoundVoteSet
  put round rvs m r = if eqb_ℤ round r then some rvs else m r

  unfoldable pub add_round : HeightVoteSet → ℤ → Option HeightVoteSet
  add_round hvs round = elim (hvs.round_vote_sets round) [
    | some _ ↦ none
    | none ↦ elim (new_vote_set C hvs.chain_id hvs.height round prepare_type hvs.val_set) [
      | none ↦ none
      | some prepares ↦
          elim (new_vote_set C hvs.chain_id hvs.height round commit_type hvs.val_set) [
            | none ↦ none
            | some commits ↦ some (record hvs {
              round_vote_sets =
                  put round (record { prepares = prepares; commits = commits }) hvs.round_vote_sets;
            })
          ]
    ]
  ]

  -- Reset sets the round after addRound(0), which does not read it.
  unfoldable pub reset : HeightVoteSet → ℤ → List (Val C) → Option HeightVoteSet
  unfolding add_round
  reset hvs height val_set =
      add_round
        (record {
          chain_id = hvs.chain_id;
          height = height;
          val_set = val_set;
          round = pos 0;
          round_vote_sets = λ _. none;
          peer_catchup_rounds = λ _. [];
        })
        (pos 0)

  unfoldable pub new_height_vote_set : Bytes → ℤ → List (Val C) → Option HeightVoteSet
  unfolding reset
  new_height_vote_set chain_id height val_set =
      reset
        (record {
          chain_id = chain_id;
          height = pos 0;
          val_set = [];
          round = pos 0;
          round_vote_sets = λ _. none;
          peer_catchup_rounds = λ _. [];
        })
        height val_set

  -- The loop of SetRound for the given number of rounds from r.
  unfoldable pub fill : ℕ → ℤ → HeightVoteSet → Option HeightVoteSet
  unfolding add_round
  fill zero r hvs = some hvs
  fill (suc n) r hvs = elim (hvs.round_vote_sets r) [
    | some _ ↦ fill n (succ_ℤ r) hvs
    | none ↦ elim (add_round hvs r) [ none ↦ none | some hvs' ↦ fill n (succ_ℤ r) hvs' ]
  ]

  -- The subtraction panics on the least int32, and the loop does not end for the greatest: its
  -- counter wraps round.
  unfoldable pub set_round : HeightVoteSet → ℤ → Option HeightVoteSet
  unfolding fill
  set_round hvs round =
      if eqb_ℤ hvs.round min_int32
      then none
      else if not (eqb_ℤ hvs.round (pos 0)) && ltb_ℤ round (pred_ℤ hvs.round)
      then none
      else if eqb_ℤ round max_int32
      then none
      else elim (fill (gap (pred_ℤ hvs.round) (succ_ℤ round)) (pred_ℤ hvs.round) hvs) [
        | none ↦ none
        | some hvs' ↦ some (record hvs' { round = round })
      ]

  -- The set of a type in those of a round; another type is a panic.
  unfoldable pub of_type : RoundVoteSet → ℕ → Option (VoteSet C)
  of_type rvs type =
      if type == prepare_type
      then some rvs.prepares
      else if type == commit_type
      then some rvs.commits
      else none

  unfoldable pub get_vote_set : HeightVoteSet → ℤ → ℕ → Option (Option (VoteSet C))
  unfolding of_type
  get_vote_set hvs round type = elim (hvs.round_vote_sets round) [
    | none ↦ some none
    | some rvs ↦ elim (of_type rvs type) [ none ↦ none | some s ↦ some (some s) ]
  ]

  abbrev pub with_type : RoundVoteSet → ℕ → VoteSet C → RoundVoteSet
  with_type rvs type s =
      if type == prepare_type then record rvs { prepares = s } else record rvs { commits = s }

  -- The changed set in its place.
  unfoldable pub put_vote_set : HeightVoteSet → ℤ → ℕ → VoteSet C → HeightVoteSet
  put_vote_set hvs round type s = elim (hvs.round_vote_sets round) [
    | none ↦ hvs
    | some rvs ↦ record hvs {
      round_vote_sets = put round (with_type rvs type s) hvs.round_vote_sets;
    }
  ]

  -- The end of AddVote: the vote goes to the set that was found.
  unfoldable pub add_to : HeightVoteSet → Vote → VoteSet C → Option (HeightVoteSet × Outcome)
  unfolding put_vote_set
  add_to hvs vote s = elim (VoteSet.add_vote C s (some vote)) [
    | none ↦ none
    | some (s', r) ↦ some (
      put_vote_set hvs vote.round vote.type s',
      record {
        added = r.added;
        error = elim r.error [ none ↦ none | some e ↦ some (of_vote_set e) ];
      },
    )
  ]

  -- The rounds of a peer that was let in for a round with no vote sets yet.
  unfoldable pub catch_up : HeightVoteSet → Bytes → ℤ → HeightVoteSet
  catch_up hvs peer round = record hvs {
    peer_catchup_rounds = λ p.
        if bytes_equal peer p
        then hvs.peer_catchup_rounds peer ++ (round ∷ [])
        else hvs.peer_catchup_rounds p;
  }

  -- A nil vote is a panic.
  unfoldable pub add_vote : HeightVoteSet → Option Vote → Bytes → Option (HeightVoteSet × Outcome)
  unfolding get_vote_set add_round add_to catch_up
  add_vote hvs none peer = none
  add_vote hvs (some vote) peer =
      if not (is_vote_type_valid vote.type)
      then some (hvs, record { added = false; error = none })
      else elim (get_vote_set hvs vote.round vote.type) [
        | none ↦ none
        | some (some s) ↦ add_to hvs vote s
        | some none ↦
            if ltb (length (hvs.peer_catchup_rounds peer)) 2
            then elim (add_round hvs vote.round) [
              | none ↦ none
              | some hvs' ↦ elim (get_vote_set hvs' vote.round vote.type) [
                | some (some s) ↦ add_to (catch_up hvs' peer vote.round) vote s
                | some none ↦ none
                | none ↦ none
              ]
            ]
            else some (hvs, record { added = false; error = some unwanted_round })
      ]

  unfoldable pub prepares_of : HeightVoteSet → ℤ → Option (Option (VoteSet C))
  prepares_of hvs round = get_vote_set hvs round prepare_type

  unfoldable pub commits_of : HeightVoteSet → ℤ → Option (Option (VoteSet C))
  commits_of hvs round = get_vote_set hvs round commit_type

  -- The rounds below n, from the last.
  unfoldable pub pol_below : HeightVoteSet → ℕ → Option (ℤ × BlockId)
  unfolding get_vote_set
  pol_below hvs zero = some (negsuc 0, zero_id)
  pol_below hvs (suc n) = elim (get_vote_set hvs (pos n) prepare_type) [
    | none ↦ none
    | some rvs ↦ elim (two_thirds_majority C rvs).1 [
      | true ↦ some (pos n, (two_thirds_majority C rvs).0)
      | false ↦ pol_below hvs n
    ]
  ]

  unfoldable pub pol_info : HeightVoteSet → Option (ℤ × BlockId)
  unfolding pol_below
  pol_info hvs = pol_below hvs (gap (pos 0) (succ_ℤ hvs.round))

  pub data PeerError : Type 0 where
    invalid_type conflicting_claim : PeerError

  unfoldable pub set_peer_maj23 :
      HeightVoteSet → ℤ → ℕ → Bytes → BlockId → Option (HeightVoteSet × Option PeerError)
  unfolding get_vote_set put_vote_set
  set_peer_maj23 hvs round type peer block_id =
      if not (is_vote_type_valid type)
      then some (hvs, some invalid_type)
      else elim (get_vote_set hvs round type) [
        | none ↦ none
        | some none ↦ some (hvs, none)
        | some (some s) ↦
            let (s', refused) = VoteSet.set_peer_maj23 C s peer block_id in
            some (put_vote_set hvs round type s', if refused then some conflicting_claim else none)
      ]
