-- ===== src/Consensus/Steps.antt =====
-- consensus/consensus_state.go: the steps of a round, from enterNewRound to enterCommitWait.
use bft.Base.{
  ℕ, Bool, true, false, ◌&&◌, not, Option, none, some, List, [], ◌∷◌, ltb, leb, ◌==◌, if◌then◌else◌,
  length, Bytes, bytes_equal,
}
use bft.Base.Partial.{◌>>=◌}
use bft.Base.Int.{ℤ, pos, negsuc, eqb_ℤ, ltb_ℤ, succ_ℤ, pred_ℤ, is_neg}
use bft.BlockId.{BlockId, PartSetHeader, zero_id}
use bft.Vote.{Vote, prepare_type, commit_type}
use bft.VoteSet.{Context, two_thirds_majority, has_two_thirds_majority, has_two_thirds_any}
use bft.Validator.{Validator}
use bft.ValidatorSet.{ValidatorSet, has_address, get_by_address, get_primary, copy_iterate_primary}
use bft.HeightVoteSet.{prepares_of, commits_of, pol_info, set_round, max_int32}
use bft.PartSet.{PartSet, Part, header, header_equals_to, new_part_set_from_header}
use bft.PrePrepare.{PrePrepare, new_pre_prepare}
use bft.Reply.{make_reply}
use bft.Consensus.State.{
  State, Env, timeout, pre_prepare_message, block_part_message, vote_message, published, Event,
  event_new_round, polka, lock, relock, unlock, send, update_round_step, new_step, equals_to,
  is_stale, new_height, new_round, pre_prepare_step, prepare_step, prepare_wait, commit_step,
  commit_wait,
}

module _ (C : Context) (E : Env C) where
  open C use {keys, floats}
  open E use {Block, Signer}

  abbrev pub schedule_timeout : ℤ → ℤ → ℕ → State C E → State C E
  schedule_timeout height round step cs = send C E (timeout height round step) cs

  abbrev pub publish : Event → State C E → State C E
  publish e cs = send C E (published e) cs

  -- signVote, whose vote is sent to the node itself where the signer gives a signature
  unfoldable pub sign_vote :
      State C E → Signer → keys.PubKey → ℕ → Bytes → PartSetHeader → State C E
  sign_vote cs signer pk type hash parts =
      let vote : Vote = record {
        type = type;
        height = cs.height;
        round = cs.round;
        block_id = record { hash = hash; parts = parts };
        timestamp =
            E.vote_time signer
              (elim cs.locked_block [ some b ↦ some b | none ↦ cs.pre_prepare_block ]);
        validator_address = keys.address pk;
        validator_index = (get_by_address keys floats cs.validators (keys.address pk)).0;
        signature = [];
      } in
      let (signer', signature) = E.sign_vote signer cs.state.chain_id vote in
      elim signature [
        | none ↦ record cs { signer = some signer' }
        | some s ↦
            send C E (vote_message (record vote { signature = s }))
              (record cs { signer = some signer' })
      ]

  unfoldable pub sign_add_vote : ℕ → Bytes → PartSetHeader → State C E → State C E
  unfolding sign_vote
  sign_add_vote type hash parts cs = elim cs.signer [
    | none ↦ cs
    | some signer ↦ elim cs.pub_key [
      | none ↦ cs
      | some pk ↦
          if not (has_address keys floats cs.validators.validators (keys.address pk))
          then cs
          else sign_vote cs signer pk type hash parts
    ]
  ]

  abbrev pub no_parts : PartSetHeader
  no_parts = record { total = 0; hash = [] }

  unfoldable pub do_prepare : State C E → State C E
  unfolding sign_add_vote
  do_prepare cs = elim cs.locked_block [
    | some b ↦ sign_add_vote prepare_type (E.block_hash b) (header cs.locked_block_parts) cs
    | none ↦ elim cs.pre_prepare_block [
      | none ↦ sign_add_vote prepare_type [] no_parts cs
      | some b ↦
          if E.validate_block cs.state b
          then sign_add_vote prepare_type (E.block_hash b) (header cs.pre_prepare_block_parts) cs
          else sign_add_vote prepare_type [] no_parts cs
    ]
  ]

  unfoldable pub enter_prepare : ℤ → ℤ → State C E → State C E
  unfolding do_prepare
  enter_prepare height round cs =
      if is_stale C E cs height round (leb prepare_step cs.step)
      then cs
      else new_step C E (update_round_step C E round prepare_step (do_prepare cs))

  unfoldable pub is_pre_prepare_complete : State C E → Option Bool
  is_pre_prepare_complete cs = elim cs.pre_prepare [
    | none ↦ some false
    | some p ↦ elim cs.pre_prepare_block [
      | none ↦ some false
      | some _ ↦ if is_neg p.pol_round then some true else (do
        prepares ← prepares_of C cs.votes p.pol_round
        some (has_two_thirds_majority C prepares))
    ]
  ]

  -- GetPrimary, which sets the primary of the validators where it has none. A set without a primary
  -- is a panic, since the callers read its fields.
  unfoldable pub ask_primary : State C E → ℤ → Option (State C E × Validator keys floats)
  ask_primary cs times = do
    (vals, primary) ← get_primary keys floats E.sum cs.validators cs.state.last_block_id times
    v ← primary
    some (record cs { validators = vals }, v)

  unfoldable pub is_primary : State C E → Bytes → Option (State C E × Bool)
  unfolding ask_primary
  is_primary cs address = do
    (cs', v) ← ask_primary cs cs.round
    some (cs', bytes_equal v.address address)

  unfoldable pub create_pre_prepare_block :
      State C E → keys.PubKey → Option (Option (Block × PartSet))
  create_pre_prepare_block cs pk =
      if eqb_ℤ cs.height cs.state.initial_height
      then some (
          E.create_block cs.height cs.state
            (record { height = pos 0; round = pos 0; block_id = zero_id; signatures = [] })
            (keys.address pk))
      else if has_two_thirds_majority C cs.last_commits
      then (do
        commits ← cs.last_commits
        reply ← make_reply C commits
        some (E.create_block cs.height cs.state reply (keys.address pk)))
      else some none

  -- The messages of the parts, in the order of their indices.
  unfoldable pub send_parts : List (Option Part) → State C E → State C E
  send_parts [] cs = cs
  send_parts (p ∷ parts) cs =
      send_parts parts (send C E (block_part_message cs.height cs.round p) cs)

  -- What follows SignProposal.
  unfoldable pub send_proposal : PrePrepare → Option PartSet → State C E → Option Bytes → State C E
  unfolding send_parts
  send_proposal p parts cs none = cs
  send_proposal p parts cs (some signature) =
      send_parts (elim parts [ none ↦ [] | some ps ↦ ps.parts ])
        (send C E (pre_prepare_message (record p { signature = signature })) cs)

  -- The proposal of a block that is valid or new.
  unfoldable pub propose : ℤ → ℤ → Signer → Block → Option PartSet → State C E → State C E
  unfolding send_proposal
  propose height round signer block parts cs =
      let p =
        new_pre_prepare height round cs.valid_round
          (record { hash = E.block_hash block; parts = header parts }) (E.now signer) in
      let (signer', signature) = E.sign_proposal signer cs.state.chain_id p in
      send_proposal p parts (record cs { signer = some signer' }) signature

  unfoldable pub decide_pre_prepare : ℤ → ℤ → Signer → keys.PubKey → State C E → Option (State C E)
  unfolding propose create_pre_prepare_block
  decide_pre_prepare height round signer pk cs =
      if cs.config.test_is_byzantine then some cs else elim cs.valid_block [
        | some b ↦ some (propose height round signer b cs.valid_block_parts cs)
        | none ↦ do
          created ← create_pre_prepare_block cs pk
          some (elim created [
            | none ↦ cs
            | some (b, parts) ↦ propose height round signer b (some parts) cs
          ])
      ]

  -- The body of enterPrePrepare, between its guard and the deferred function.
  unfoldable pub pre_prepare_body : ℤ → ℤ → State C E → Option (State C E)
  unfolding is_primary decide_pre_prepare
  pre_prepare_body height round cs = elim cs.signer [
    | none ↦ some cs
    | some signer ↦ elim cs.pub_key [
      | none ↦ some cs
      | some pk ↦
          if not (has_address keys floats cs.validators.validators (keys.address pk))
          then some cs
          else (do
            (cs', mine) ← is_primary cs (keys.address pk)
            (if mine then decide_pre_prepare height round signer pk cs' else some cs'))
    ]
  ]

  unfoldable pub enter_pre_prepare : ℤ → ℤ → State C E → Option (State C E)
  unfolding pre_prepare_body is_pre_prepare_complete enter_prepare
  enter_pre_prepare height round cs =
      if is_stale C E cs height round (leb pre_prepare_step cs.step) then some cs else (do
        cs' ← pre_prepare_body height round (schedule_timeout height round pre_prepare_step cs)
        let cs'' = new_step C E (update_round_step C E round pre_prepare_step cs')
        complete ← is_pre_prepare_complete cs''
        some (if complete then enter_prepare height cs''.round cs'' else cs''))

  unfoldable pub need_proof_block : State C E → ℤ → Option Bool
  need_proof_block cs height = if eqb_ℤ height cs.state.initial_height then some true else (do
    stored ← E.stored_app_hash cs.store (pred_ℤ height)
    some (not (bytes_equal cs.state.app_hash stored)))

  -- Whether a new round waits for transactions.
  unfoldable pub waits_for_txs : State C E → ℤ → ℤ → Option Bool
  unfolding need_proof_block
  waits_for_txs cs height round =
      if cs.config.wait_for_txs && eqb_ℤ round (pos 0)
      then (do needed ← need_proof_block cs height; some (not needed))
      else some false

  -- The validators of the new round, with its primary.
  unfoldable pub next_validators : State C E → ℤ → Option (ValidatorSet keys floats)
  next_validators cs round =
      if ltb_ℤ cs.round round
      then copy_iterate_primary keys floats E.sum cs.validators cs.state.last_block_id round
      else some cs.validators

  abbrev pub drop_proposal : State C E → State C E
  drop_proposal cs = record cs {
    pre_prepare = none;
    pre_prepare_block = none;
    pre_prepare_block_parts = none;
  }

  -- The event of the new round names its primary.
  unfoldable pub enter_new_round : ℤ → ℤ → State C E → Option (State C E)
  unfolding next_validators ask_primary waits_for_txs enter_pre_prepare
  enter_new_round height round cs =
      if is_stale C E cs height round (not (cs.step == new_height)) then some cs else (do
        vals ← next_validators cs round
        let entered = record (update_round_step C E round new_round cs) { validators = vals }
        let fresh : State C E = if eqb_ℤ round (pos 0) then entered else drop_proposal entered
        votes ← (if eqb_ℤ round max_int32 then none else set_round C fresh.votes (succ_ℤ round))
        (asked, _) ←
            ask_primary (record fresh { votes = votes; triggered_timeout_commit = false }) round
        let started = publish event_new_round asked
        wait ← waits_for_txs started height round
        (if wait
            then some (
                if ltb 0 started.config.empty_blocks_interval
                then schedule_timeout height round new_round started
                else started)
            else enter_pre_prepare height round started))

  unfoldable pub enter_prepare_wait : ℤ → ℤ → State C E → State C E
  enter_prepare_wait height round cs =
      if is_stale C E cs height round (leb prepare_wait cs.step)
      then cs
      else new_step C E
          (update_round_step C E round prepare_wait (schedule_timeout height round prepare_wait cs))

  abbrev pub unlocked : State C E → State C E
  unlocked cs = record cs {
    locked_round = negsuc 0;
    locked_block = none;
    locked_block_parts = none;
  }

  abbrev pub vote_nil : State C E → State C E
  vote_nil cs = sign_add_vote commit_type [] no_parts cs

  -- enterCommit for two thirds of the prepares for a block.
  unfoldable pub commit_block : ℤ → BlockId → State C E → Option (State C E)
  unfolding sign_add_vote
  commit_block round block_id cs =
      if equals_to C E cs.locked_block block_id.hash
      then some (
          sign_add_vote commit_type block_id.hash block_id.parts
            (publish relock (record cs { locked_round = round })))
      else if equals_to C E cs.pre_prepare_block block_id.hash
      then (do
        block ← cs.pre_prepare_block
        (if E.validate_block cs.state block
            then some (
                sign_add_vote commit_type block_id.hash block_id.parts (
                  publish lock (record cs {
                    locked_round = round;
                    locked_block = some block;
                    locked_block_parts = cs.pre_prepare_block_parts;
                  })))
            else none))
      else (let free = unlocked cs in
          let fetching : State C E =
            if header_equals_to free.pre_prepare_block_parts block_id.parts
            then free
            else record free {
              pre_prepare_block = none;
              pre_prepare_block_parts = some (new_part_set_from_header block_id.parts);
            } in
          some (vote_nil (publish unlock fetching)))

  -- enterCommit for two thirds of the prepares for one block or for nil.
  unfoldable pub commit_majority : ℤ → BlockId → State C E → Option (State C E)
  unfolding commit_block
  commit_majority round block_id cs =
      if length block_id.hash == 0
      then some
          (vote_nil (elim cs.locked_block [ none ↦ cs | some _ ↦ publish unlock (unlocked cs) ]))
      else commit_block round block_id cs

  unfoldable pub commit_body : ℤ → State C E → Option (State C E)
  unfolding commit_majority
  commit_body round cs = do
    prepares ← prepares_of C cs.votes round
    (if not (two_thirds_majority C prepares).1 then some (vote_nil cs) else (do
      (pol_round, _) ← pol_info C cs.votes
      (if ltb_ℤ pol_round round
          then none
          else commit_majority round (two_thirds_majority C prepares).0 (publish polka cs))))

  unfoldable pub enter_commit : ℤ → ℤ → State C E → Option (State C E)
  unfolding commit_body
  enter_commit height round cs =
      if is_stale C E cs height round (leb commit_step cs.step) then some cs else (do
        cs' ← commit_body round cs
        some (new_step C E (update_round_step C E round commit_step cs')))

  unfoldable pub enter_commit_wait : ℤ → ℤ → State C E → Option (State C E)
  enter_commit_wait height round cs =
      if is_stale C E cs height round cs.triggered_timeout_commit then some cs else (do
        commits ← commits_of C cs.votes round
        (if has_two_thirds_any C commits
            then some (
                new_step C E (record (schedule_timeout height round commit_wait cs) {
                  triggered_timeout_commit = true;
                }))
            else none))
