-- ===== src/Consensus/Examples.antt =====
-- A run of the state machine of a node without a key, whose blocks are their hashes.
use bft.Base.{
  ◌≡◌, refl, ◌⊎◌, true, false, Option, none, some, [], ◌∷◌, arith, ◌==◌, Bytes, subst, replicate,
}
use bft.Base.Int.{ℤ, pos, negsuc, succ_ℤ}
use bft.BlockId.{BlockId, zero_id, header_equals}
use bft.Samples.{context, validator, validators, validators-IsReady, whole, whole-IsOrdered, plain}
use bft.Samples
use bft.ValidatorSet.{ValidatorSet, get_primary}
use bft.VoteSet.Total.{IsReady}
use bft.PartSet.{new_part_set_from_header, header_equals_to}
use bft.HeightVoteSet.{put, set_round, commits_of, get_vote_set, new_height_vote_set}
use bft.VoteSet.{new_vote_set, two_thirds_majority, has_two_thirds_majority}
use bft.Reply.{make_reply}
use bft.Base.ByteStrings.{bytes_equal}
use bft.Consensus.Steps.{enter_new_round}
use bft.Consensus.State.{State, Env, ChainState, equals_to}
use bft.Consensus.Locks.{IsLocked}
use bft.Consensus.AppendLocks.{KeepsReady}
use bft.Consensus.Reach.{timed_out, react, here, next, Reached-IsLocked}
use bft.Consensus.Append.{try_finalize_append}
use bft.Consensus.Decided.{IsDecided, try_finalize_append-IsDecided}

abbrev members : ValidatorSet plain whole
members = record { validators = validators; primary = some (validator (1 ∷ [])) }

abbrev env : Env context
env = record {
  Block = Bytes;
  block_height = λ b. pos 3;
  block_hash = λ b. b;
  decode_block = λ b. some b;
  validate_block = λ st b. true;
  apply_block = λ st id b. some (record st {
    last_block_height = succ_ℤ st.last_block_height;
    last_block_id = id;
    validators = some members;
  });
  create_block = λ h st r a. none;
  Store = ℤ;
  store_height = λ s. s;
  stored_app_hash = λ s h. some [];
  save_block = λ s b parts r. succ_ℤ s;
  Signer = Bytes;
  sign_vote = λ s chain v. (s, some s);
  sign_proposal = λ s chain p. (s, some s);
  now = λ s. pos 5;
  vote_time = λ s b. pos 5;
  sum = λ b. replicate 32 0;
  proposal_bytes = λ chain p. [];
}

abbrev chain : ChainState context
chain = record {
  chain_id = 9 ∷ [];
  initial_height = pos 1;
  last_block_height = pos 2;
  last_block_id = zero_id;
  validators = some members;
  last_validators = some members;
  app_hash = [];
  max_bytes = 1000;
}

abbrev start : State context env
start = record {
  config = record {
    wait_for_txs = false;
    empty_blocks_interval = 0;
    skip_timeout_reply = false;
    test_is_byzantine = false;
    test_whistleblower = false;
  };
  state = chain;
  store = pos 2;
  signer = none;
  pub_key = none;
  height = pos 3;
  round = pos 0;
  step = 1;
  validators = members;
  last_validators = some members;
  pre_prepare = none;
  pre_prepare_block = none;
  pre_prepare_block_parts = none;
  locked_round = negsuc 0;
  locked_block = none;
  locked_block_parts = none;
  valid_round = negsuc 0;
  valid_block = none;
  valid_block_parts = none;
  votes = Samples.start;
  reply_round = negsuc 0;
  last_commits = none;
  triggered_timeout_commit = false;
  test_times = 1;
  outputs = [];
}

start-IsLocked : IsLocked context env start
start-IsLocked = record { sets = Samples.start-IsHeight; locked = refl; valid = refl }

env-KeepsReady : KeepsReady context env
env-KeepsReady st st' id b vals e f =
    let same : members ≡ vals = ground (arith, e, f) in
    subst (λ (v : ValidatorSet plain whole). IsReady context v.validators) same validators-IsReady

abbrev or_start : Option (State context env) → State context env
or_start none = start
or_start (some cs) = cs

-- The node enters the first round.
abbrev entered : State context env
entered = or_start (react context env start (timed_out (pos 3) (pos 0) 1))

ran : react context env start (timed_out (pos 3) (pos 0) 1) ≡ some entered
unfolding react enter_new_round set_round new_vote_set get_primary
ran = refl

ran_round : (entered.step == 3) ≡ true
unfolding react enter_new_round set_round new_vote_set get_primary
ran_round = refl

Reached-IsLocked_example : IsLocked context env entered
Reached-IsLocked_example =
    Reached-IsLocked context env whole-IsOrdered refl env-KeepsReady start entered start-IsLocked
      (next here (timed_out (pos 3) (pos 0) 1) ran)

abbrev digest : Bytes
digest = 7 ∷ []

abbrev decided_id : BlockId
decided_id = record { hash = digest; parts = record { total = 1; hash = digest } }

-- Two thirds of the commits are for the block.
abbrev deciding : State context env
deciding = record start {
  step = 8;
  reply_round = pos 0;
  pre_prepare_block = some digest;
  pre_prepare_block_parts = some (new_part_set_from_header decided_id.parts);
  votes = record Samples.start {
    round_vote_sets =
        put context (pos 0)
          (record {
            prepares = Samples.empty_set 1;
            commits = record (Samples.empty_set 2) { maj23 = some decided_id };
          })
          (λ _. none);
  };
}

abbrev appended : State context env
appended = or_start (try_finalize_append context env (pos 3) deciding)

appends : try_finalize_append context env (pos 3) deciding ≡ some appended
unfolding try_finalize_append commits_of get_vote_set two_thirds_majority equals_to bytes_equal
    header_equals_to header_equals new_part_set_from_header make_reply has_two_thirds_majority
    new_height_vote_set new_vote_set
appends = refl

try_finalize_append-IsDecided_example : (appended ≡ deciding) ⊎ IsDecided context env deciding
try_finalize_append-IsDecided_example =
    try_finalize_append-IsDecided context env (pos 3) deciding appended appends
