-- ===== src/Consensus/Messages.antt =====
-- consensus/consensus_state.go: the messages and timeouts that the state machine handles. The counts
-- of messages for the statistics of peers and the trust metric are left out; its event is published.
use bft.Base.{
  ℕ, ◌+◌, ◌%◌, Bool, false, ◌&&◌, ◌||◌, not, Option, none, some, ltb, leb, ◌==◌, if◌then◌else◌,
  length, Bytes, ◌∷◌,
}
use bft.Base.Partial.{◌>>=◌}
use bft.Base.Int.{ℤ, pos, negsuc, eqb_ℤ, ltb_ℤ, succ_ℤ, is_neg}
use bft.BlockId.{BlockId, is_zero}
use bft.Vote.{Vote, prepare_type, commit_type}
use bft.VoteSet
use bft.VoteSet.{
  Context, VoteSet, two_thirds_majority, has_two_thirds_majority, has_two_thirds_any, has_all,
  conflicting_votes, non_deterministic_signature,
}
use bft.HeightVoteSet
use bft.HeightVoteSet.{AddError, of_vote_set, Outcome, prepares_of, commits_of}
use bft.PartSet
use bft.PartSet.{
  Part, PartSet, add_part, is_complete, get_reader, header_equals_to, new_part_set_from_header,
}
use bft.PrePrepare.{PrePrepare}
use bft.Consensus.State.{
  State, Env, unlock, valid_block, complete_proposal, timeout_pre_prepare, timeout_wait, vote_added,
  published, trust, equals_to, new_height, new_round, pre_prepare_step, prepare_step, prepare_wait,
  commit_wait, reply_step,
}
use bft.Consensus.Steps.{
  schedule_timeout, publish, ask_primary, is_pre_prepare_complete, enter_prepare, enter_pre_prepare,
  need_proof_block, enter_new_round, enter_prepare_wait, enter_commit, enter_commit_wait, unlocked,
}
use bft.Consensus.Append.{try_finalize_append, enter_reply}

pub data ProposalError : Type 0 where
  invalid_pol_round invalid_signature : ProposalError

pub data BlockPartError : Type 0 where
  bad_part : PartSet.AddError → BlockPartError
  too_many_bytes bad_block : BlockPartError

pub data VoteFailure : Type 0 where
  pub_key_not_set adding_vote : VoteFailure
  conflict : Vote → Vote → VoteFailure

module _ (C : Context) (E : Env C) where
  open C use {keys, floats}
  open E use {Block}

  -- The checks of the round of a proposal's lock.
  abbrev pub bad_pol_round : PrePrepare → Bool
  bad_pol_round p =
      ltb_ℤ p.pol_round (negsuc 0) || (not (is_neg p.pol_round) && not (ltb_ℤ p.pol_round p.round))

  unfoldable pub set_pre_prepare :
      State C E → PrePrepare → Option (State C E × Option ProposalError)
  set_pre_prepare cs p = elim cs.pre_prepare [
    | some _ ↦ some (cs, none)
    | none ↦
        if not (eqb_ℤ p.height cs.height) || not (eqb_ℤ p.round cs.round)
        then some (cs, none)
        else if bad_pol_round p
        then some (cs, some invalid_pol_round)
        else (do
          (cs', primary) ← ask_primary C E cs cs.round
          pk ← primary.pub_key
          (if keys.verify_signature pk (E.proposal_bytes cs'.state.chain_id p) p.signature
              then some (
                record cs' {
                  pre_prepare = some p;
                  pre_prepare_block_parts = elim cs'.pre_prepare_block_parts [
                    | none ↦ some (new_part_set_from_header p.block_id.parts)
                    | some parts ↦ some parts
                  ];
                },
                none,
              )
              else some (cs', some invalid_signature)))
  ]

  -- A complete block for which the prepares of the round have two thirds becomes the valid block.
  unfoldable pub complete_valid : State C E → Option (VoteSet C) → State C E
  complete_valid cs prepares =
      let block_id = (two_thirds_majority C prepares).0 in
      if (two_thirds_majority C prepares).1
        && (not (is_zero block_id)
            && (ltb_ℤ cs.valid_round cs.round && equals_to C E cs.pre_prepare_block block_id.hash))
      then record cs {
        valid_round = cs.round;
        valid_block = cs.pre_prepare_block;
        valid_block_parts = cs.pre_prepare_block_parts;
      }
      else cs

  -- What follows the last part of a block.
  unfoldable pub complete_block : State C E → ℤ → Block → Option (State C E)
  unfolding complete_valid
  complete_block cs height block = do
    let got = publish C E complete_proposal (record cs { pre_prepare_block = some block })
    prepares ← prepares_of C got.votes got.round
    let ready = complete_valid got prepares
    complete ←
        (if leb ready.step pre_prepare_step then is_pre_prepare_complete C E ready else some false)
    (if complete
        then (let entered = enter_prepare C E height ready.round ready in
            if (two_thirds_majority C prepares).1
            then enter_commit C E height entered.round entered
            else some entered)
        else if ready.step == reply_step
        then try_finalize_append C E height ready
        else some ready)

  unfoldable pub add_block_part :
      State C E → ℤ → Part → Option (State C E × Bool × Option BlockPartError)
  unfolding complete_block
  add_block_part cs height part =
      if not (eqb_ℤ cs.height height)
      then some (cs, false, none)
      else elim cs.pre_prepare_block_parts [
        | none ↦ some (cs, false, none)
        | some parts ↦ do
          (parts', added, error) ← add_part E.sum parts part
          let cs' : State C E = record cs { pre_prepare_block_parts = some parts' }
          elim error [
            | some e ↦ some (cs', added, some (bad_part e))
            | none ↦
                if ltb cs'.state.max_bytes parts'.byte_size
                then some (cs', added, some too_many_bytes)
                else if added && is_complete parts'
                then (do
                  bytes ← get_reader parts'
                  elim (E.decode_block bytes) [
                    | none ↦ some (cs', added, some bad_block)
                    | some block ↦ do
                      done ← complete_block cs' height block
                      some (done, added, none)
                  ])
                else some (cs', added, none)
          ]
      ]

  -- A prepare majority for another block of a later round than the lock's, not after the node's
  -- round, releases the lock.
  unfoldable pub release_lock : ℤ → BlockId → State C E → State C E
  release_lock round block_id cs = elim cs.locked_block [
    | none ↦ cs
    | some b ↦
        if ltb_ℤ cs.locked_round round
          && (not (ltb_ℤ cs.round round) && not (equals_to C E (some b) block_id.hash))
        then publish C E unlock (unlocked C E cs)
        else cs
  ]

  -- A prepare majority of the round makes its block the valid one.
  unfoldable pub learn_valid : ℤ → BlockId → State C E → State C E
  learn_valid round block_id cs =
      if not (length block_id.hash == 0) && (ltb_ℤ cs.valid_round round && eqb_ℤ round cs.round)
      then (let known : State C E =
            if equals_to C E cs.pre_prepare_block block_id.hash
            then record cs {
              valid_round = round;
              valid_block = cs.pre_prepare_block;
              valid_block_parts = cs.pre_prepare_block_parts;
            }
            else record cs { pre_prepare_block = none } in
          publish C E valid_block (
            if header_equals_to known.pre_prepare_block_parts block_id.parts
            then known
            else record known {
              pre_prepare_block_parts = some (new_part_set_from_header block_id.parts);
            }))
      else cs

  -- Where a prepare of a round leads.
  unfoldable pub after_prepare : ℤ → ℤ → Option (VoteSet C) → State C E → Option (State C E)
  after_prepare height round prepares cs =
      if ltb_ℤ cs.round round && has_two_thirds_any C prepares
      then enter_new_round C E height round cs
      else if eqb_ℤ cs.round round && leb prepare_step cs.step
      then (do
        complete ←
            (if (two_thirds_majority C prepares).1
              then is_pre_prepare_complete C E cs
              else some false)
        (if (two_thirds_majority C prepares).1
              && (complete || (length (two_thirds_majority C prepares).0.hash == 0))
            then enter_commit C E height round cs
            else some (
                if has_two_thirds_any C prepares
                then enter_prepare_wait C E height round cs
                else cs)))
      else elim cs.pre_prepare [
        | none ↦ some cs
        | some p ↦
            if not (is_neg p.pol_round) && eqb_ℤ p.pol_round round
            then (do
              complete ← is_pre_prepare_complete C E cs
              some (if complete then enter_prepare C E height cs.round cs else cs))
            else some cs
      ]

  unfoldable pub added_prepare : Vote → State C E → Option (State C E)
  unfolding release_lock learn_valid after_prepare
  added_prepare vote cs = do
    prepares ← prepares_of C cs.votes vote.round
    let block_id = (two_thirds_majority C prepares).0
    let learned : State C E =
        if (two_thirds_majority C prepares).1
        then learn_valid vote.round block_id (release_lock vote.round block_id cs)
        else cs
    after_prepare cs.height vote.round prepares learned

  unfoldable pub added_commit : Vote → State C E → Option (State C E)
  added_commit vote cs = do
    precommits ← commits_of C cs.votes vote.round
    (if (two_thirds_majority C precommits).1
        then (do
          entered ← enter_new_round C E cs.height vote.round cs
          committed ← enter_commit C E cs.height vote.round entered
          (if not (length (two_thirds_majority C precommits).0.hash == 0)
              then (do
                replied ← enter_reply C E cs.height vote.round committed
                (if replied.config.skip_timeout_reply
                      && elim precommits [ none ↦ false | some s ↦ has_all C s ]
                    then enter_new_round C E replied.height (pos 0) replied
                    else some replied))
              else enter_commit_wait C E cs.height vote.round committed))
        else if not (ltb_ℤ vote.round cs.round) && has_two_thirds_any C precommits
        then (do
          entered ← enter_new_round C E cs.height vote.round cs
          enter_commit_wait C E cs.height vote.round entered)
        else some cs)

  -- A commit of the height before, for which the votes of nil LastCommits are a panic.
  unfoldable pub add_last_commit : State C E → Vote → Option (State C E × Outcome)
  add_last_commit cs vote =
      if not (cs.step == new_height) then some (cs, record { added = false; error = none }) else (do
        commits ← cs.last_commits
        (commits', r) ← VoteSet.add_vote C commits (some vote)
        let cs' : State C E = record cs { last_commits = some commits' }
        let outcome : Outcome = record {
          added = r.added;
          error = elim r.error [ none ↦ none | some e ↦ some (of_vote_set e) ];
        }
        (if not r.added then some (cs', outcome) else (do
          let told = publish C E vote_added cs'
          next ←
              (if told.config.skip_timeout_reply && has_all C commits'
                then enter_new_round C E told.height (pos 0) told
                else some told)
          some (next, outcome))))

  unfoldable pub add_vote : State C E → Vote → Bytes → Option (State C E × Outcome)
  unfolding add_last_commit added_prepare added_commit
  add_vote cs vote peer =
      if eqb_ℤ (succ_ℤ vote.height) cs.height && (vote.type == commit_type)
      then add_last_commit cs vote
      else if not (eqb_ℤ vote.height cs.height)
      then some (cs, record { added = false; error = none })
      else (do
        (votes, outcome) ← HeightVoteSet.add_vote C cs.votes (some vote) peer
        let cs' : State C E = record cs { votes = votes }
        (if not outcome.added then some (cs', outcome) else (do
          let told = publish C E vote_added cs'
          next ←
              (if vote.type == prepare_type
                then added_prepare vote told
                else if vote.type == commit_type
                then added_commit vote told
                else none)
          some (next, outcome))))

  -- The errors that tryAddVote passes on.
  unfoldable pub vote_failure : State C E → Option AddError → Option VoteFailure
  vote_failure cs none = none
  vote_failure cs (some (of_vote_set (conflicting_votes a b))) = elim cs.pub_key [
    | none ↦ some pub_key_not_set
    | some _ ↦ some (conflict a b)
  ]
  vote_failure cs (some (of_vote_set non_deterministic_signature)) = none
  vote_failure cs (some e) = some adding_vote

  unfoldable pub try_add_vote :
      State C E → Vote → Bytes → Option (State C E × Bool × Option VoteFailure)
  unfolding add_vote vote_failure
  try_add_vote cs vote peer = do
    (cs', outcome) ← add_vote cs vote peer
    let failure = vote_failure cs' outcome.error
    let added : Bool = elim failure [ some pub_key_not_set ↦ false | _ ↦ outcome.added ]
    some (cs', added, failure)

  pub data Message : Type 0 where
    of_pre_prepare : PrePrepare → Message
    of_block_part : ℤ → ℤ → Part → Message
    of_vote : Vote → Message

  -- The errors are logged.
  unfoldable pub handle_msg : State C E → Message → Bytes → Option (State C E)
  unfolding set_pre_prepare add_block_part try_add_vote
  handle_msg cs (of_pre_prepare p) peer = set_pre_prepare cs p >>= λ r. some r.0
  handle_msg cs (of_block_part height round part) peer =
      add_block_part cs height part >>= λ r. some r.0
  handle_msg cs (of_vote vote) peer = try_add_vote cs vote peer >>= λ r. some r.0

  abbrev pub is_past : State C E → ℤ → ℤ → ℕ → Bool
  is_past cs height round step =
      not (eqb_ℤ height cs.height)
      || (ltb_ℤ round cs.round || (eqb_ℤ round cs.round && ltb step cs.step))

  -- Every fifth timeout of a proposal fires EventTrust, where the node is a whistleblower.
  abbrev pub blow_whistle : State C E → State C E
  blow_whistle cs = record cs {
    outputs =
        if (cs.test_times % 5 == 0) && cs.config.test_whistleblower
        then published trust ∷ cs.outputs
        else cs.outputs;
    test_times = (cs.test_times + 1) % 1000000;
  }

  unfoldable pub handle_timeout : State C E → ℤ → ℤ → ℕ → Option (State C E)
  handle_timeout cs height round step =
      if is_past cs height round step
      then some cs
      else if step == new_height
      then enter_new_round C E height (pos 0) cs
      else if step == new_round
      then enter_pre_prepare C E height (pos 0) cs
      else if step == pre_prepare_step
      then (do
        (asked, _) ← ask_primary C E (publish C E timeout_pre_prepare cs) (pos 0)
        some (enter_prepare C E height round (blow_whistle asked)))
      else if step == prepare_wait
      then enter_commit C E height round (publish C E timeout_wait cs)
      else if step == commit_wait
      then (do
        committed ← enter_commit C E height round (publish C E timeout_wait cs)
        enter_new_round C E height (succ_ℤ round) committed)
      else none

  unfoldable pub handle_txs_available : State C E → Option (State C E)
  handle_txs_available cs =
      if not (eqb_ℤ cs.round (pos 0))
      then some cs
      else if cs.step == new_height
      then (do
        needed ← need_proof_block C E cs cs.height
        some (if needed then cs else schedule_timeout C E cs.height (pos 0) new_round cs))
      else if cs.step == new_round
      then enter_pre_prepare C E cs.height (pos 0) cs
      else some cs
