-- ===== src/Consensus/Reach.antt =====
-- Messages and timeouts keep the locks, and so does every run of the state machine.
use bft.Base.{
  ℕ, ◌≡◌, refl, inl, inr, true, ◌&&◌, not, Option, none, some, ltb, ◌==◌, Bytes, if◌then◌else◌,
  Option-cases,
}
use bft.Base.Partial.{Post, bind-Post, then-Post, if-Post, Post-eq}
use bft.Base.Int.{ℤ, pos, eqb_ℤ, succ_ℤ}
use bft.External.{IsOrdered}
use bft.Vote.{Vote, prepare_type, commit_type}
use bft.VoteSet.{Context, quorum}
use bft.HeightVoteSet.AddVote.{add_vote-Grows}
use bft.PartSet.{Part, add_part, is_complete, get_reader}
use bft.Consensus.State.{
  State, Env, new_height, new_round, pre_prepare_step, prepare_wait, commit_wait,
  timeout_pre_prepare, timeout_wait, vote_added,
}
use bft.Consensus.Steps.{schedule_timeout, publish, ask_primary, need_proof_block, enter_commit}
use bft.Consensus.Messages.{
  set_pre_prepare, complete_block, add_block_part, added_prepare, added_commit, add_vote,
  try_add_vote, Message, of_pre_prepare, of_block_part, of_vote, handle_msg, is_past, blow_whistle,
  handle_timeout, handle_txs_available,
}
use bft.Consensus.Locks.{IsLocked, IsLocked-same, Lock-Grows}
use bft.Consensus.StepLocks.{
  if-IsLocked, enter_prepare-IsLocked, ask_primary-IsLocked, enter_pre_prepare-IsLocked,
}
use bft.Consensus.RoundLocks.{enter_new_round-IsLocked, enter_commit-IsLocked}
use bft.Consensus.AppendLocks.{KeepsReady}
use bft.Consensus.MessageLocks.{
  set_pre_prepare-IsLocked, added_prepare-IsLocked, complete_block-IsLocked, added_commit-IsLocked,
  add_last_commit-IsLocked,
}

module _ (C : Context) (E : Env C) where
  open C use {keys, floats}
  open E use {Block}

  -- What the state machine receives.
  pub data Input : Type 0 where
    message : Message C E → Bytes → Input
    timed_out : ℤ → ℤ → ℕ → Input
    txs_available : Input

  unfoldable pub react : State C E → Input → Option (State C E)
  unfolding handle_msg handle_timeout handle_txs_available
  react cs (message m peer) = handle_msg C E cs m peer
  react cs (timed_out height round s) = handle_timeout C E cs height round s
  react cs txs_available = handle_txs_available C E cs

  -- The states of a run that has not panicked.
  pub data Reached (start : State C E) : State C E → Type 0 where
    here : Reached start start
    next :
        {cs cs' : State C E}
        → Reached start cs
        → (i : Input) → react cs i ≡ some cs'
        → Reached start cs'

  module _ (o : IsOrdered floats) (positive : floats.lt (floats.of_ℕ 0) (quorum C) ≡ true)
      (ready : KeepsReady C E) where
    add_block_part-IsLocked :
        (cs : State C E) (height : ℤ) (part : Part)
        → IsLocked C E cs
        → Post (add_block_part C E cs height part) (λ r. IsLocked C E r.0)
    unfolding add_block_part
    add_block_part-IsLocked cs height part l =
        if-Post (not (eqb_ℤ cs.height height)) _ _ (λ r. IsLocked C E r.0) (λ _. l)
          (λ _. elim (Option-cases cs.pre_prepare_block_parts) [
            | inl e ↦ rw (e, add_block_part) l
            | inr (parts, e) ↦
                rw (e, add_block_part)
                  (then-Post (add_part E.sum parts part) _ (λ r. IsLocked C E r.0)
                    (λ r _.
                      let cs' : State C E = record cs { pre_prepare_block_parts = some r.0 } in
                      let h : IsLocked C E cs' =
                        IsLocked-same C E cs cs' refl refl refl refl refl l in
                      elim (Option-cases r.2) [
                        | inr (bad, f) ↦ rw (f, add_block_part) h
                        | inl f ↦
                            rw (f, add_block_part)
                              (if-Post (ltb cs'.state.max_bytes r.0.byte_size) _ _
                                (λ q. IsLocked C E q.0) (λ _. h)
                                (λ _.
                                  if-Post (r.1 && is_complete r.0) _ _ (λ q. IsLocked C E q.0)
                                    (λ _.
                                      then-Post (get_reader r.0) _ (λ q. IsLocked C E q.0)
                                        (λ bytes _. elim (Option-cases (E.decode_block bytes)) [
                                          | inl g ↦ rw (g, add_block_part) h
                                          | inr (b, g) ↦
                                              rw (g, add_block_part)
                                                (bind-Post (complete_block C E cs' height b) _
                                                  (IsLocked C E) (λ q. IsLocked C E q.0)
                                                  (complete_block-IsLocked C E ready cs' height b h)
                                                  (λ done k. k))
                                        ]))
                                    (λ _. h)))
                      ]))
          ])

    told-IsLocked :
        (vote : Vote) (cs : State C E)
        → IsLocked C E cs
        → Post
            (if vote.type == prepare_type
              then added_prepare C E vote cs
              else if vote.type == commit_type
              then added_commit C E vote cs
              else none)
            (IsLocked C E)
    told-IsLocked vote cs l =
        if-Post (vote.type == prepare_type) _ _ (IsLocked C E)
          (λ _. added_prepare-IsLocked C E vote cs l)
          (λ _.
            if-Post (vote.type == commit_type) _ none (IsLocked C E)
              (λ _. added_commit-IsLocked C E ready vote cs l) (λ _. _))

    add_vote-IsLocked :
        (cs : State C E) (vote : Vote) (peer : Bytes)
        → IsLocked C E cs
        → Post (add_vote C E cs vote peer) (λ r. IsLocked C E r.0)
    unfolding add_vote
    add_vote-IsLocked cs vote peer l =
        if-Post (eqb_ℤ (succ_ℤ vote.height) cs.height && (vote.type == commit_type)) _ _
          (λ r. IsLocked C E r.0) (λ _. add_last_commit-IsLocked C E ready cs vote l)
          (λ _.
            if-Post (not (eqb_ℤ vote.height cs.height)) _ _ (λ r. IsLocked C E r.0) (λ _. l)
              (λ _.
                let (r, e, g) = add_vote-Grows C o positive cs.votes vote peer l.sets in
                let cs' : State C E = record cs { votes = r.0 } in
                let h : IsLocked C E cs' = record {
                  sets = g.valid;
                  locked = Lock-Grows C E cs.locked_block cs.locked_round cs.votes r.0 g l.locked;
                  valid = Lock-Grows C E cs.valid_block cs.valid_round cs.votes r.0 g l.valid;
                } in
                let told : State C E = publish C E vote_added cs' in
                rw (e) (
                  if-Post (not r.1.added) _ _ (λ q. IsLocked C E q.0) (λ _. h)
                    (λ _.
                      bind-Post
                        (if vote.type == prepare_type
                          then added_prepare C E vote told
                          else if vote.type == commit_type
                          then added_commit C E vote told
                          else none)
                        _ (IsLocked C E) (λ q. IsLocked C E q.0)
                        (told-IsLocked vote told
                          (IsLocked-same C E cs' told refl refl refl refl refl h))
                        (λ next k. k)))))

    handle_msg-IsLocked :
        (cs : State C E) (m : Message C E) (peer : Bytes)
        → IsLocked C E cs
        → Post (handle_msg C E cs m peer) (IsLocked C E)
    unfolding handle_msg try_add_vote
    handle_msg-IsLocked cs (of_pre_prepare p) peer l =
        bind-Post (set_pre_prepare C E cs p) _ (λ r. IsLocked C E r.0) (IsLocked C E)
          (set_pre_prepare-IsLocked C E cs p l) (λ r h. h)
    handle_msg-IsLocked cs (of_block_part height round part) peer l =
        bind-Post (add_block_part C E cs height part) _ (λ r. IsLocked C E r.0) (IsLocked C E)
          (add_block_part-IsLocked cs height part l) (λ r h. h)
    handle_msg-IsLocked cs (of_vote vote) peer l =
        bind-Post (try_add_vote C E cs vote peer) _ (λ r. IsLocked C E r.0) (IsLocked C E)
          (bind-Post (add_vote C E cs vote peer) _ (λ r. IsLocked C E r.0) (λ r. IsLocked C E r.0)
            (add_vote-IsLocked cs vote peer l) (λ r h. h))
          (λ r h. h)

    handle_timeout-IsLocked :
        (cs : State C E) (height round : ℤ) (s : ℕ)
        → IsLocked C E cs
        → Post (handle_timeout C E cs height round s) (IsLocked C E)
    unfolding handle_timeout
    handle_timeout-IsLocked cs height round s l =
        let waited : IsLocked C E (publish C E timeout_wait cs) =
          IsLocked-same C E cs _ refl refl refl refl refl l in
        if-Post (is_past C E cs height round s) _ _ (IsLocked C E) (λ _. l)
          (λ _.
            if-Post (s == new_height) _ _ (IsLocked C E)
              (λ _. enter_new_round-IsLocked C E height (pos 0) cs l)
              (λ _.
                if-Post (s == new_round) _ _ (IsLocked C E)
                  (λ _. enter_pre_prepare-IsLocked C E height (pos 0) cs l)
                  (λ _.
                    if-Post (s == pre_prepare_step) _ _ (IsLocked C E)
                      (λ _.
                        bind-Post (ask_primary C E (publish C E timeout_pre_prepare cs) (pos 0)) _
                          (λ r. IsLocked C E r.0) (IsLocked C E)
                          (ask_primary-IsLocked C E _ (pos 0)
                            (IsLocked-same C E cs _ refl refl refl refl refl l))
                          (λ r h.
                            enter_prepare-IsLocked C E height round (blow_whistle C E r.0)
                              (IsLocked-same C E r.0 _ refl refl refl refl refl h)))
                      (λ _.
                        if-Post (s == prepare_wait) _ _ (IsLocked C E)
                          (λ _. enter_commit-IsLocked C E height round _ waited)
                          (λ _.
                            if-Post (s == commit_wait) _ none (IsLocked C E)
                              (λ _.
                                bind-Post
                                  (enter_commit C E height round (publish C E timeout_wait cs)) _
                                  (IsLocked C E) (IsLocked C E)
                                  (enter_commit-IsLocked C E height round _ waited)
                                  (λ committed h.
                                    enter_new_round-IsLocked C E height (succ_ℤ round) committed h))
                              (λ _. _))))))

    handle_txs_available-IsLocked :
        (cs : State C E) → IsLocked C E cs → Post (handle_txs_available C E cs) (IsLocked C E)
    unfolding handle_txs_available
    handle_txs_available-IsLocked cs l =
        if-Post (not (eqb_ℤ cs.round (pos 0))) _ _ (IsLocked C E) (λ _. l)
          (λ _.
            if-Post (cs.step == new_height) _ _ (IsLocked C E)
              (λ _. then-Post (need_proof_block C E cs cs.height) _ (IsLocked C E) (λ needed _.
                if-IsLocked C E needed cs (schedule_timeout C E cs.height (pos 0) new_round cs) l
                  (IsLocked-same C E cs _ refl refl refl refl refl l)))
              (λ _.
                if-Post (cs.step == new_round) _ (some cs) (IsLocked C E)
                  (λ _. enter_pre_prepare-IsLocked C E cs.height (pos 0) cs l) (λ _. l)))

    react-IsLocked :
        (cs : State C E) (i : Input) → IsLocked C E cs → Post (react cs i) (IsLocked C E)
    unfolding react
    react-IsLocked cs (message m peer) l = handle_msg-IsLocked cs m peer l
    react-IsLocked cs (timed_out height round s) l = handle_timeout-IsLocked cs height round s l
    react-IsLocked cs txs_available l = handle_txs_available-IsLocked cs l

    -- In every run of the state machine over messages, timeouts and notices of transactions that
    -- has not panicked, from a state where this holds: the votes of the height are well formed,
    -- the locked block has two thirds of the prepares of the locked round and the valid block
    -- those of the valid round, and where there is no locked or no valid block the round is -1. It
    -- is assumed that powers are ordered as IEEE numbers are, that the quorum is above 0, and that
    -- the block executor gives validators with keys and powers that are not negative.
    pub Reached-IsLocked :
        (start cs : State C E) → IsLocked C E start → Reached start cs → IsLocked C E cs
    Reached-IsLocked start _ l here = l
    Reached-IsLocked start _ l (next {cs} {cs'} r i e) =
        Post-eq (react cs i) cs' (IsLocked C E)
          (react-IsLocked cs i (Reached-IsLocked start cs l r)) e
