-- ===== src/Consensus/Append.antt =====
-- consensus/consensus_state.go: the end of a height, from enterReply to updateToState. The update of
-- the trust metric, and the key of the private validator, which does not change, are left out.
use bft.Base.{Bool, false, ◌&&◌, ◌||◌, not, Option, none, some, leb, ◌==◌, if◌then◌else◌, length}
use bft.Base.Partial.{◌>>=◌}
use bft.Base.Int.{ℤ, pos, negsuc, eqb_ℤ, ltb_ℤ, succ_ℤ}
use bft.BlockId.{BlockId}
use bft.VoteSet.{Context, VoteSet, two_thirds_majority, has_two_thirds_majority}
use bft.HeightVoteSet.{commits_of, new_height_vote_set}
use bft.PartSet.{header, header_equals_to, new_part_set_from_header}
use bft.Reply.{make_reply}
use bft.Consensus.State.{
  State, Env, ChainState, valid_block, update_round_step, new_step, equals_to, new_height,
  reply_step,
}
use bft.Consensus.Steps.{schedule_timeout, publish}

module _ (C : Context) (E : Env C) where
  open C use {keys, floats}
  open E use {Block}

  -- The state is empty where it has no validators.
  unfoldable pub is_inconsistent : State C E → ChainState C → Bool
  is_inconsistent cs state =
      (ltb_ℤ (negsuc 0) cs.reply_round
        && (ltb_ℤ (pos 0) cs.height && not (eqb_ℤ cs.height state.last_block_height)))
      || elim cs.state.validators [
        | none ↦ false
        | some _ ↦
            ltb_ℤ (pos 0) cs.state.last_block_height
            && (not (eqb_ℤ (succ_ℤ cs.state.last_block_height) cs.height)
                || eqb_ℤ cs.height cs.state.initial_height)
      ]

  -- Whether the given state is no later than the one that the node has.
  unfoldable pub is_old : State C E → ChainState C → Bool
  is_old cs state = elim cs.state.validators [
    | none ↦ false
    | some _ ↦ not (ltb_ℤ cs.state.last_block_height state.last_block_height)
  ]

  -- The commits of the height that ends.
  unfoldable pub last_commits_of : State C E → ChainState C → Option (Option (VoteSet C))
  last_commits_of cs state =
      if eqb_ℤ state.last_block_height (pos 0)
      then some none
      else if ltb_ℤ (negsuc 0) cs.reply_round
      then (do
        commits ← commits_of C cs.votes cs.reply_round
        (if has_two_thirds_majority C commits then some commits else none))
      else elim cs.last_commits [ none ↦ none | some commits ↦ some (some commits) ]

  abbrev pub next_height : ChainState C → ℤ
  next_height state =
      if eqb_ℤ (succ_ℤ state.last_block_height) (pos 1)
      then state.initial_height
      else succ_ℤ state.last_block_height

  -- updateToState of a node that NewState has made.
  unfoldable pub update_to_state : State C E → ChainState C → Option (State C E)
  unfolding is_inconsistent is_old last_commits_of
  update_to_state cs state =
      if is_inconsistent cs state
      then none
      else if is_old cs state
      then some (new_step C E cs)
      else (do
        last_commits ← last_commits_of cs state
        validators ← state.validators
        votes ← new_height_vote_set C state.chain_id (next_height state) validators.validators
        some (
            new_step C E (record cs {
              height = next_height state;
              round = pos 0;
              step = new_height;
              validators = validators;
              pre_prepare = none;
              pre_prepare_block = none;
              pre_prepare_block_parts = none;
              locked_round = negsuc 0;
              locked_block = none;
              locked_block_parts = none;
              valid_round = negsuc 0;
              valid_block = none;
              valid_block_parts = none;
              votes = votes;
              reply_round = negsuc 0;
              last_commits = last_commits;
              last_validators = state.last_validators;
              triggered_timeout_commit = false;
              state = state;
            })))

  unfoldable pub schedule_round0 : State C E → State C E
  schedule_round0 cs = schedule_timeout C E cs.height (pos 0) new_height cs

  -- The block is saved where the store does not have it.
  unfoldable pub save_decided : State C E → Block → Option (State C E)
  save_decided cs block =
      if ltb_ℤ (E.store_height cs.store) (E.block_height block)
      then (do
        commits ← commits_of C cs.votes cs.reply_round
        precommits ← commits
        seen ← make_reply C precommits
        parts ← cs.pre_prepare_block_parts
        some (record cs { store = E.save_block cs.store block parts seen }))
      else some cs

  unfoldable pub append_block : State C E → BlockId → Block → Option (State C E)
  unfolding save_decided update_to_state schedule_round0
  append_block cs block_id block = do
    saved ← save_decided cs block
    elim (E.apply_block saved.state
        (record { hash = E.block_hash block; parts = header saved.pre_prepare_block_parts })
        block) [
          | none ↦ some saved
          | some state ↦ do next ← update_to_state saved state; some (schedule_round0 next)
        ]

  unfoldable pub finalize_append : ℤ → State C E → Option (State C E)
  unfolding append_block
  finalize_append height cs =
      if not (eqb_ℤ cs.height height) || not (cs.step == reply_step) then some cs else (do
        commits ← commits_of C cs.votes cs.reply_round
        let block_id = (two_thirds_majority C commits).0
        block ← cs.pre_prepare_block
        (if not (two_thirds_majority C commits).1
            then none
            else if not (header_equals_to cs.pre_prepare_block_parts block_id.parts)
            then none
            else if not (equals_to C E (some block) block_id.hash)
            then none
            else if not (E.validate_block cs.state block)
            then none
            else append_block cs block_id block))

  unfoldable pub try_finalize_append : ℤ → State C E → Option (State C E)
  unfolding finalize_append
  try_finalize_append height cs = if not (eqb_ℤ cs.height height) then none else (do
    commits ← commits_of C cs.votes cs.reply_round
    let block_id = (two_thirds_majority C commits).0
    (if not (two_thirds_majority C commits).1 || (length block_id.hash == 0)
        then some cs
        else if not (equals_to C E cs.pre_prepare_block block_id.hash)
        then some cs
        else finalize_append height cs))

  -- The block and the parts that the node takes for the decided block.
  unfoldable pub take_decided : BlockId → State C E → State C E
  take_decided block_id cs =
      let own : State C E =
        if equals_to C E cs.locked_block block_id.hash
        then record cs {
          pre_prepare_block = cs.locked_block;
          pre_prepare_block_parts = cs.locked_block_parts;
        }
        else cs in
      if equals_to C E own.pre_prepare_block block_id.hash
        || header_equals_to own.pre_prepare_block_parts block_id.parts
      then own
      else publish C E valid_block (record own {
        pre_prepare_block = none;
        pre_prepare_block_parts = some (new_part_set_from_header block_id.parts);
      })

  unfoldable pub enter_reply : ℤ → ℤ → State C E → Option (State C E)
  unfolding take_decided try_finalize_append
  enter_reply height commit_round cs =
      if not (eqb_ℤ cs.height height) || leb reply_step cs.step then some cs else (do
        commits ← commits_of C cs.votes commit_round
        let own = take_decided (two_thirds_majority C commits).0 cs
        try_finalize_append height (
            new_step C E (record (update_round_step C E own.round reply_step own) {
              reply_round = commit_round;
            })))
