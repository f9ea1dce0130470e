-- ===== src/Consensus/AppendLocks.antt =====
-- The end of a height keeps the locks: the next one starts with none.
use bft.Base.{
  ◌≡◌, refl, inl, inr, false, ◌||◌, not, none, some, List, arith, length, leb, ◌==◌, Bytes,
  if◌then◌else◌, Bool-cases, Option-cases,
}
use bft.Base.Partial.{Post, bind-Post, then-Post, if-Post, eq-Post}
use bft.Base.Int.{ℤ, pos, eqb_ℤ, ltb_ℤ}
use bft.BlockId.{BlockId}
use bft.VoteSet.{Context, Val, two_thirds_majority, new_vote_set}
use bft.VoteSet.Total.{IsReady}
use bft.ValidatorSet.{ValidatorSet}
use bft.HeightVoteSet.{HeightVoteSet, commits_of, new_height_vote_set, reset, add_round}
use bft.HeightVoteSet.Invariant.{IsHeight}
use bft.HeightVoteSet.Rounds.{new_height_vote_set-IsHeight}
use bft.PartSet.{header, header_equals_to, new_part_set_from_header}
use bft.Reply.{make_reply}
use bft.Consensus.State.{
  State, Env, ChainState, equals_to, new_step, update_round_step, reply_step, valid_block,
}
use bft.Consensus.Steps.{publish}
use bft.Consensus.Append.{
  is_inconsistent, is_old, last_commits_of, next_height, update_to_state, schedule_round0,
  save_decided, append_block, finalize_append, try_finalize_append, take_decided, enter_reply,
}
use bft.Consensus.Locks.{IsLocked, IsLocked-same}
use bft.Consensus.StepLocks.{if-IsLocked}

module _ (C : Context) (E : Env C) where
  open E use {Block}

  -- The validators of the states that the block executor gives have keys and powers that are not
  -- negative.
  abbrev pub KeepsReady : Type 0
  KeepsReady =
      (st st' : ChainState C) (id : BlockId) (b : Block) (vals : ValidatorSet C.keys C.floats)
      → E.apply_block st id b ≡ some st'
      → st'.validators ≡ some vals
      → IsReady C vals.validators

  new_height_vote_set-nonzero :
      (chain_id : Bytes) (height : ℤ) (vals : List (Val C)) (hvs : HeightVoteSet C)
      → new_height_vote_set C chain_id height vals ≡ some hvs
      → eqb_ℤ height (pos 0) ≡ false
  unfolding new_height_vote_set reset add_round new_vote_set
  new_height_vote_set-nonzero chain_id height vals hvs e = ground (arith, e)

  new_height_vote_set-Post :
      (chain_id : Bytes) (height : ℤ) (vals : List (Val C))
      → IsReady C vals
      → Post (new_height_vote_set C chain_id height vals) (IsHeight C)
  new_height_vote_set-Post chain_id height vals ready = elim (Bool-cases (eqb_ℤ height (pos 0))) [
    | inl none' ↦
        eq-Post (new_height_vote_set C chain_id height vals) (IsHeight C)
          (λ hvs e. absurd (cc (none', new_height_vote_set-nonzero chain_id height vals hvs e)))
    | inr other ↦
        let (hvs, e, v, _, _, _) =
          new_height_vote_set-IsHeight C chain_id height vals other ready in
        rw (e) v
  ]

  pub update_to_state-IsLocked :
      (cs : State C E) (st : ChainState C)
      → ((vals : ValidatorSet C.keys C.floats)
          → st.validators ≡ some vals
          → IsReady C vals.validators)
      → IsLocked C E cs
      → Post (update_to_state C E cs st) (IsLocked C E)
  unfolding update_to_state
  update_to_state-IsLocked cs st ready l =
      if-Post (is_inconsistent C E cs st) none _ (IsLocked C E) (λ _. _)
        (λ _.
          if-Post (is_old C E cs st) _ _ (IsLocked C E)
            (λ _. IsLocked-same C E cs _ refl refl refl refl refl l)
            (λ _. then-Post (last_commits_of C E cs st) _ (IsLocked C E) (λ _ _.
              then-Post st.validators _ (IsLocked C E) (λ vals at.
                bind-Post (new_height_vote_set C st.chain_id (next_height C E st) vals.validators) _
                  (IsHeight C) (IsLocked C E)
                  (new_height_vote_set-Post st.chain_id (next_height C E st) vals.validators
                    (ready vals at))
                  (λ votes v. record { sets = v; locked = refl; valid = refl })))))

  save_decided-IsLocked :
      (cs : State C E) (b : Block) → IsLocked C E cs → Post (save_decided C E cs b) (IsLocked C E)
  unfolding save_decided
  save_decided-IsLocked cs b l =
      if-Post (ltb_ℤ (E.store_height cs.store) (E.block_height b)) _ _ (IsLocked C E)
        (λ _. then-Post (commits_of C cs.votes cs.reply_round) _ (IsLocked C E) (λ commits _.
          then-Post commits _ (IsLocked C E) (λ precommits _.
            then-Post (make_reply C precommits) _ (IsLocked C E) (λ seen _.
              then-Post cs.pre_prepare_block_parts _ (IsLocked C E)
                (λ parts _. IsLocked-same C E cs _ refl refl refl refl refl l)))))
        (λ _. l)

  module _ (ready : KeepsReady) where
    append_block-IsLocked :
        (cs : State C E) (id : BlockId) (b : Block)
        → IsLocked C E cs
        → Post (append_block C E cs id b) (IsLocked C E)
    unfolding append_block schedule_round0
    append_block-IsLocked cs id b l =
        bind-Post (save_decided C E cs b) _ (IsLocked C E) (IsLocked C E)
          (save_decided-IsLocked cs b l)
          (λ saved h.
            let id' : BlockId = record {
              hash = E.block_hash b;
              parts = header saved.pre_prepare_block_parts;
            } in
            elim (Option-cases (E.apply_block saved.state id' b)) [
              | inl failed ↦ rw (failed, append_block) h
              | inr (st, e) ↦
                  rw (e, append_block)
                    (bind-Post (update_to_state C E saved st) _ (IsLocked C E) (IsLocked C E)
                      (update_to_state-IsLocked saved st
                        (λ vals at. ready saved.state st id' b vals e at) h)
                      (λ next k. IsLocked-same C E next _ refl refl refl refl refl k))
            ])

    finalize_append-IsLocked :
        (height : ℤ) (cs : State C E)
        → IsLocked C E cs
        → Post (finalize_append C E height cs) (IsLocked C E)
    unfolding finalize_append
    finalize_append-IsLocked height cs l =
        if-Post (not (eqb_ℤ cs.height height) || not (cs.step == reply_step)) _ _ (IsLocked C E)
          (λ _. l)
          (λ _. then-Post (commits_of C cs.votes cs.reply_round) _ (IsLocked C E) (λ commits _.
            let id = (two_thirds_majority C commits).0 in
            then-Post cs.pre_prepare_block _ (IsLocked C E) (λ b _.
              if-Post (not (two_thirds_majority C commits).1) none _ (IsLocked C E) (λ _. _)
                (λ _.
                  if-Post (not (header_equals_to cs.pre_prepare_block_parts id.parts)) none _
                    (IsLocked C E) (λ _. _)
                    (λ _.
                      if-Post (not (equals_to C E (some b) id.hash)) none _ (IsLocked C E) (λ _. _)
                        (λ _.
                          if-Post (not (E.validate_block cs.state b)) none _ (IsLocked C E) (λ _. _)
                            (λ _. append_block-IsLocked cs id b l)))))))

    pub try_finalize_append-IsLocked :
        (height : ℤ) (cs : State C E)
        → IsLocked C E cs
        → Post (try_finalize_append C E height cs) (IsLocked C E)
    unfolding try_finalize_append
    try_finalize_append-IsLocked height cs l =
        if-Post (not (eqb_ℤ cs.height height)) none _ (IsLocked C E) (λ _. _)
          (λ _. then-Post (commits_of C cs.votes cs.reply_round) _ (IsLocked C E) (λ commits _.
            let id = (two_thirds_majority C commits).0 in
            if-Post (not (two_thirds_majority C commits).1 || (length id.hash == 0)) _ _
              (IsLocked C E) (λ _. l)
              (λ _.
                if-Post (not (equals_to C E cs.pre_prepare_block id.hash)) _ _ (IsLocked C E)
                  (λ _. l) (λ _. finalize_append-IsLocked height cs l))))

    take_decided-IsLocked :
        (id : BlockId) (cs : State C E) → IsLocked C E cs → IsLocked C E (take_decided C E id cs)
    unfolding take_decided
    take_decided-IsLocked id cs l =
        let taken : State C E = record cs {
          pre_prepare_block = cs.locked_block;
          pre_prepare_block_parts = cs.locked_block_parts;
        } in
        let own : State C E = if equals_to C E cs.locked_block id.hash then taken else cs in
        let h : IsLocked C E own =
          if-IsLocked C E (equals_to C E cs.locked_block id.hash) taken cs
            (IsLocked-same C E cs taken refl refl refl refl refl l) l in
        if-IsLocked C E
          (equals_to C E own.pre_prepare_block id.hash
            || header_equals_to own.pre_prepare_block_parts id.parts)
          own
          (publish C E valid_block (record own {
            pre_prepare_block = none;
            pre_prepare_block_parts = some (new_part_set_from_header id.parts);
          }))
          h (IsLocked-same C E own _ refl refl refl refl refl h)

    pub enter_reply-IsLocked :
        (height commit_round : ℤ) (cs : State C E)
        → IsLocked C E cs
        → Post (enter_reply C E height commit_round cs) (IsLocked C E)
    unfolding enter_reply
    enter_reply-IsLocked height commit_round cs l =
        if-Post (not (eqb_ℤ cs.height height) || leb reply_step cs.step) _ _ (IsLocked C E) (λ _. l)
          (λ _. then-Post (commits_of C cs.votes commit_round) _ (IsLocked C E) (λ commits _.
            let own = take_decided C E (two_thirds_majority C commits).0 cs in
            try_finalize_append-IsLocked height
              (new_step C E (record (update_round_step C E own.round reply_step own) {
                reply_round = commit_round;
              }))
              (IsLocked-same C E own _ refl refl refl refl refl
                (take_decided-IsLocked (two_thirds_majority C commits).0 cs l))))
