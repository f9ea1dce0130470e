-- ===== src/Consensus/State.antt =====
-- RoundState of consensus/round_state.go, State of consensus/consensus_state.go and of state/state.go:
-- what the state machine keeps, with what it sends as a list, newest first. A panic is `none`.
-- Clock times, logs, the write-ahead log and the event bus, which takes every event, are not
-- modelled; a part set that several fields share is a value in each.
use bft.Base.{
  ℕ, Bool, false, ◌&&◌, ◌||◌, not, Option, none, some, List, ◌∷◌, ltb, leb, ◌==◌, if◌then◌else◌,
  length, Bytes, bytes_equal,
}
use bft.Base.Int.{ℤ, pos, negsuc, eqb_ℤ, ltb_ℤ}
use bft.BlockId.{BlockId}
use bft.Vote.{Vote}
use bft.VoteSet.{Context, VoteSet}
use bft.ValidatorSet.{ValidatorSet}
use bft.HeightVoteSet.{HeightVoteSet}
use bft.PartSet.{PartSet, Part}
use bft.PrePrepare.{PrePrepare}
use bft.Reply.{Reply}

-- RoundStepType
abbrev pub new_height : ℕ
new_height = 1

abbrev pub new_round : ℕ
new_round = 2

abbrev pub pre_prepare_step : ℕ
pre_prepare_step = 3

abbrev pub prepare_step : ℕ
prepare_step = 4

abbrev pub prepare_wait : ℕ
prepare_wait = 5

abbrev pub commit_step : ℕ
commit_step = 6

abbrev pub commit_wait : ℕ
commit_wait = 7

abbrev pub reply_step : ℕ
reply_step = 8

unfoldable pub is_step_valid : ℕ → Bool
is_step_valid s = leb new_height s && leb s reply_step

-- CompareHRS: -1, 0 or 1
unfoldable pub compare_hrs : ℤ → ℤ → ℕ → ℤ → ℤ → ℕ → ℤ
compare_hrs h r s h' r' s' =
    if ltb_ℤ h h'
    then negsuc 0
    else if ltb_ℤ h' h
    then pos 1
    else if ltb_ℤ r r'
    then negsuc 0
    else if ltb_ℤ r' r
    then pos 1
    else if ltb s s'
    then negsuc 0
    else if ltb s' s
    then pos 1
    else pos 0

pub data Event : Type 0 where
  event_new_round polka lock relock unlock valid_block complete_proposal : Event
  timeout_pre_prepare timeout_wait vote_added trust : Event

-- sm.State, as far as the consensus reads it
pub record ChainState (C : Context) : Type 0 where
  pub chain_id : Bytes
  pub initial_height : ℤ
  pub last_block_height : ℤ
  pub last_block_id : BlockId
  pub validators : Option (ValidatorSet C.keys C.floats)
  pub last_validators : Option (ValidatorSet C.keys C.floats)
  pub app_hash : Bytes
  pub max_bytes : ℕ

pub record Config : Type 0 where
  pub wait_for_txs : Bool
  pub empty_blocks_interval : ℕ
  pub skip_timeout_reply : Bool
  pub test_is_byzantine : Bool
  pub test_whistleblower : Bool

-- The components that the state machine calls: blocks (types/block.go), the block executor
-- (state/execution.go), the block store (store/store.go), the private validator, and the clock.
pub record Env (C : Context) : Type 1 where
  pub Block : Type 0
  pub block_height : Block → ℤ
  pub block_hash : Block → Bytes
  pub decode_block : Bytes → Option Block
  pub validate_block : ChainState C → Block → Bool
  pub apply_block : ChainState C → BlockId → Block → Option (ChainState C)
  pub create_block : ℤ → ChainState C → Reply → Bytes → Option (Block × PartSet)
  pub Store : Type 0
  pub store_height : Store → ℤ
  pub stored_app_hash : Store → ℤ → Option Bytes
  pub save_block : Store → Block → PartSet → Reply → Store
  -- The signature, unless it is refused or the log cannot be flushed.
  pub Signer : Type 0
  pub sign_vote : Signer → Bytes → Vote → Signer × Option Bytes
  pub sign_proposal : Signer → Bytes → PrePrepare → Signer × Option Bytes
  -- The time of a proposal, and that of a vote (voteTime), which is not before the block's.
  pub now : Signer → ℤ
  pub vote_time : Signer → Option Block → ℤ
  pub sum : Bytes → Bytes
  pub proposal_bytes : Bytes → PrePrepare → Bytes

pub data Output : Type 0 where
  -- scheduleTimeout, by height, round and step
  timeout : ℤ → ℤ → ℕ → Output
  pre_prepare_message : PrePrepare → Output
  block_part_message : ℤ → ℤ → Option Part → Output
  vote_message : Vote → Output
  new_step_event : ℤ → ℤ → ℕ → Output
  published : Event → Output

module _ (C : Context) (E : Env C) where
  open E use {Block, Store, Signer, block_hash}

  pub record State : Type 0 where
    pub config : Config
    pub state : ChainState C
    pub store : Store
    -- privValidator and privValidatorPubKey
    pub signer : Option Signer
    pub pub_key : Option C.keys.PubKey
    pub height : ℤ
    pub round : ℤ
    pub step : ℕ
    pub validators : ValidatorSet C.keys C.floats
    pub last_validators : Option (ValidatorSet C.keys C.floats)
    pub pre_prepare : Option PrePrepare
    pub pre_prepare_block : Option Block
    pub pre_prepare_block_parts : Option PartSet
    pub locked_round : ℤ
    pub locked_block : Option Block
    pub locked_block_parts : Option PartSet
    pub valid_round : ℤ
    pub valid_block : Option Block
    pub valid_block_parts : Option PartSet
    pub votes : HeightVoteSet C
    pub reply_round : ℤ
    pub last_commits : Option (VoteSet C)
    pub triggered_timeout_commit : Bool
    pub test_times : ℕ
    pub outputs : List Output

  abbrev pub send : Output → State → State
  send o cs = record cs { outputs = o ∷ cs.outputs }

  -- updateRoundStep
  abbrev pub update_round_step : ℤ → ℕ → State → State
  update_round_step round step cs = record cs { round = round; step = step }

  abbrev pub new_step : State → State
  new_step cs = send (new_step_event cs.height cs.round cs.step) cs

  -- Block.EqualsTo
  unfoldable pub equals_to : Option Block → Bytes → Bool
  equals_to none hash = false
  equals_to (some b) hash = not (length hash == 0) && bytes_equal (block_hash b) hash

  -- The guard of the enter functions: another height, an earlier round, or the round with the given
  -- reason not to enter.
  abbrev pub is_stale : State → ℤ → ℤ → Bool → Bool
  is_stale cs height round done =
      not (eqb_ℤ cs.height height) || (ltb_ℤ round cs.round || (eqb_ℤ cs.round round && done))
