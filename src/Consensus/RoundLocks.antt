-- ===== src/Consensus/RoundLocks.antt =====
-- A new round and a commit keep the locks.
use bft.Base.{
  ◌≡◌, refl, true, false, not, Option, none, some, [], arith, length, leb, ltb, ◌==◌, Bytes,
  if◌then◌else◌, subst, sym,
}
use bft.Base.Partial.{◌>>=◌, Post, bind-Post, then-Post, if-Post}
use bft.Base.Int.{ℤ, pos, eqb_ℤ, ltb_ℤ, succ_ℤ}
use bft.BlockId.{BlockId}
use bft.Vote.{commit_type}
use bft.VoteSet.{Context, two_thirds_majority, has_two_thirds_any}
use bft.HeightVoteSet.{
  RoundVoteSet, HeightVoteSet, set_round, prepares_of, commits_of, pol_info, max_int32,
}
use bft.HeightVoteSet.Invariant.{IsHeight}
use bft.PartSet.{header_equals_to, new_part_set_from_header}
use bft.Consensus.State.{
  State, Env, equals_to, is_stale, update_round_step, prepare_wait, commit_step, new_height,
  new_round, polka, lock, relock, unlock, event_new_round,
}
use bft.Consensus.Steps.{
  ask_primary, enter_pre_prepare, waits_for_txs, next_validators, drop_proposal, enter_new_round,
  enter_prepare_wait, unlocked, vote_nil, commit_block, commit_majority, commit_body, enter_commit,
  enter_commit_wait, schedule_timeout, publish,
}
use bft.Consensus.StepLocks.{
  if-IsLocked, relocked, step-IsLocked, ask_primary-IsLocked, enter_pre_prepare-IsLocked,
}
use bft.Consensus.Locks.{
  Polka, Lock, IsLocked, IsLocked-same, Lock-kept, equals_to_sound, Polka-majority,
  sign_add_vote-IsLocked, set_round-Post,
}

module _ (C : Context) (E : Env C) where
  open C use {keys, floats}
  open E use {Block, Signer}

  -- The votes of later rounds are added.
  kept-IsLocked :
      (cs : State C E) (votes : HeightVoteSet C)
      → IsLocked C E cs
      → IsHeight C votes
      → ((r : ℤ) (rvs : RoundVoteSet C)
          → cs.votes.round_vote_sets r ≡ some rvs
          → votes.round_vote_sets r ≡ some rvs)
      → IsLocked C E (record cs { votes = votes; triggered_timeout_commit = false })
  kept-IsLocked cs votes l v kept = record {
    sets = v;
    locked = Lock-kept C E cs.locked_block cs.locked_round cs.votes votes kept l.locked;
    valid = Lock-kept C E cs.valid_block cs.valid_round cs.votes votes kept l.valid;
  }

  -- enterNewRound from the votes of the round on.
  started-IsLocked :
      (height round : ℤ) (cs : State C E)
      → IsLocked C E cs
      → (votes : HeightVoteSet C) → IsHeight C votes
      → ((r : ℤ) (rvs : RoundVoteSet C)
          → cs.votes.round_vote_sets r ≡ some rvs
          → votes.round_vote_sets r ≡ some rvs)
      → Post
          (ask_primary C E (record cs { votes = votes; triggered_timeout_commit = false }) round
            >>= λ asked.
                waits_for_txs C E (publish C E event_new_round asked.0) height round >>= λ wait.
                if wait
                then some (
                    if ltb 0 asked.0.config.empty_blocks_interval
                    then schedule_timeout C E height round new_round
                        (publish C E event_new_round asked.0)
                    else publish C E event_new_round asked.0)
                else enter_pre_prepare C E height round (publish C E event_new_round asked.0))
          (IsLocked C E)
  started-IsLocked height round cs l votes v kept =
      bind-Post
        (ask_primary C E (record cs { votes = votes; triggered_timeout_commit = false }) round) _
        (λ r. IsLocked C E r.0) (IsLocked C E)
        (ask_primary-IsLocked C E (record cs { votes = votes; triggered_timeout_commit = false })
          round (kept-IsLocked cs votes l v kept))
        (λ r h.
          let told : State C E = publish C E event_new_round r.0 in
          let h' : IsLocked C E told = IsLocked-same C E r.0 told refl refl refl refl refl h in
          then-Post (waits_for_txs C E told height round) _ (IsLocked C E) (λ wait _.
            if-Post wait _ _ (IsLocked C E)
              (λ _.
                if-IsLocked C E (ltb 0 told.config.empty_blocks_interval)
                  (schedule_timeout C E height round new_round told) told
                  (IsLocked-same C E told _ refl refl refl refl refl h') h')
              (λ _. enter_pre_prepare-IsLocked C E height round told h')))

  pub enter_new_round-IsLocked :
      (height round : ℤ) (cs : State C E)
      → IsLocked C E cs
      → Post (enter_new_round C E height round cs) (IsLocked C E)
  unfolding enter_new_round
  enter_new_round-IsLocked height round cs l =
      if-Post (is_stale C E cs height round (not (cs.step == new_height))) _ _ (IsLocked C E)
        (λ _. l)
        (λ _. then-Post (next_validators C E cs round) _ (IsLocked C E) (λ vals _.
          let entered : State C E = record (update_round_step C E round new_round cs) {
            validators = vals;
          } in
          let fresh : State C E =
            if eqb_ℤ round (pos 0) then entered else drop_proposal C E entered in
          let h : IsLocked C E fresh =
            if-IsLocked C E (eqb_ℤ round (pos 0)) entered (drop_proposal C E entered)
              (IsLocked-same C E cs _ refl refl refl refl refl l)
              (IsLocked-same C E cs _ refl refl refl refl refl l) in
          bind-Post (if eqb_ℤ round max_int32 then none else set_round C fresh.votes (succ_ℤ round))
            _
            (λ votes.
              IsHeight C votes
              × ((r : ℤ) (rvs : RoundVoteSet C)
                  → fresh.votes.round_vote_sets r ≡ some rvs
                  → votes.round_vote_sets r ≡ some rvs))
            (IsLocked C E)
            (if-Post (eqb_ℤ round max_int32) none (set_round C fresh.votes (succ_ℤ round)) _
              (λ _. _) (λ _. set_round-Post C E fresh.votes (succ_ℤ round) h.sets))
            (λ votes (v, kept). started-IsLocked height round fresh h votes v kept)))

  pub enter_prepare_wait-IsLocked :
      (height round : ℤ) (cs : State C E)
      → IsLocked C E cs
      → IsLocked C E (enter_prepare_wait C E height round cs)
  unfolding enter_prepare_wait
  enter_prepare_wait-IsLocked height round cs l =
      if-IsLocked C E (is_stale C E cs height round (leb prepare_wait cs.step)) cs _ l
        (IsLocked-same C E cs _ refl refl refl refl refl l)

  vote_nil-IsLocked : (cs : State C E) → IsLocked C E cs → IsLocked C E (vote_nil C E cs)
  vote_nil-IsLocked cs l =
      sign_add_vote-IsLocked C E commit_type [] (record { total = 0; hash = [] }) cs l

  pub unlocked-IsLocked : (cs : State C E) → IsLocked C E cs → IsLocked C E (unlocked C E cs)
  unlocked-IsLocked cs l = record { sets = l.sets; locked = refl; valid = l.valid }

  -- A lock on a block with the majority's hash.
  pub majority-Lock :
      (votes : HeightVoteSet C) (round : ℤ) (b : Option Block) (hash : Bytes)
      → Polka C E votes round hash
      → equals_to C E b hash ≡ true
      → Lock C E b round votes
  majority-Lock votes round b hash p e =
      let (x, found, same) = equals_to_sound C E b hash e in
      subst (λ y. Lock C E y round votes) (sym found) (subst (Polka C E votes round) (sym same) p)

  commit_block-IsLocked :
      (round : ℤ) (id : BlockId) (cs : State C E)
      → Polka C E cs.votes round id.hash
      → IsLocked C E cs
      → Post (commit_block C E round id cs) (IsLocked C E)
  unfolding commit_block
  commit_block-IsLocked round id cs p l =
      if-Post (equals_to C E cs.locked_block id.hash) _ _ (IsLocked C E)
        (λ hit. sign_add_vote-IsLocked C E commit_type id.hash id.parts _ (
          relocked C E cs (publish C E relock (record cs { locked_round = round })) l refl refl refl
            (majority-Lock cs.votes round cs.locked_block id.hash p hit)))
        (λ _.
          if-Post (equals_to C E cs.pre_prepare_block id.hash) _ _ (IsLocked C E)
            (λ hit. then-Post cs.pre_prepare_block _ (IsLocked C E) (λ b at.
              if-Post (E.validate_block cs.state b) _ none (IsLocked C E)
                (λ _. sign_add_vote-IsLocked C E commit_type id.hash id.parts _ (
                  relocked C E cs
                    (publish C E lock (record cs {
                      locked_round = round;
                      locked_block = some b;
                      locked_block_parts = cs.pre_prepare_block_parts;
                    }))
                    l refl refl refl
                    (subst (λ y. Lock C E y round cs.votes) at
                      (majority-Lock cs.votes round cs.pre_prepare_block id.hash p hit))))
                (λ _. _)))
            (λ _.
              let free : State C E = unlocked C E cs in
              let fetching : State C E =
                if header_equals_to free.pre_prepare_block_parts id.parts
                then free
                else record free {
                  pre_prepare_block = none;
                  pre_prepare_block_parts = some (new_part_set_from_header id.parts);
                } in
              let h : IsLocked C E fetching =
                if-IsLocked C E (header_equals_to free.pre_prepare_block_parts id.parts) free _
                  (unlocked-IsLocked cs l)
                  (IsLocked-same C E free _ refl refl refl refl refl (unlocked-IsLocked cs l)) in
              vote_nil-IsLocked (publish C E unlock fetching)
                (IsLocked-same C E fetching _ refl refl refl refl refl h)))

  commit_majority-IsLocked :
      (round : ℤ) (id : BlockId) (cs : State C E)
      → Polka C E cs.votes round id.hash
      → IsLocked C E cs
      → Post (commit_majority C E round id cs) (IsLocked C E)
  unfolding commit_majority
  commit_majority-IsLocked round id cs p l =
      if-Post (length id.hash == 0) _ _ (IsLocked C E)
        (λ _. vote_nil-IsLocked _ (released cs.locked_block))
        (λ _. commit_block-IsLocked round id cs p l)
    where
      released :
          (b : Option Block)
          → IsLocked C E (elim b [ none ↦ cs | some _ ↦ publish C E unlock (unlocked C E cs) ])
      released none = l
      released (some b) =
          IsLocked-same C E (unlocked C E cs) _ refl refl refl refl refl (unlocked-IsLocked cs l)

  pub enter_commit-IsLocked :
      (height round : ℤ) (cs : State C E)
      → IsLocked C E cs
      → Post (enter_commit C E height round cs) (IsLocked C E)
  unfolding enter_commit commit_body
  enter_commit-IsLocked height round cs l =
      if-Post (is_stale C E cs height round (leb commit_step cs.step)) _ _ (IsLocked C E) (λ _. l)
        (λ _.
          bind-Post (commit_body C E round cs) _ (IsLocked C E) (IsLocked C E)
            (then-Post (prepares_of C cs.votes round) _ (IsLocked C E) (λ prepares e.
              if-Post (not (two_thirds_majority C prepares).1) _ _ (IsLocked C E)
                (λ _. vote_nil-IsLocked cs l)
                (λ maj. then-Post (pol_info C cs.votes) _ (IsLocked C E) (λ pol _.
                  if-Post (ltb_ℤ pol.0 round) none _ (IsLocked C E) (λ _. _)
                    (λ _.
                      commit_majority-IsLocked round (two_thirds_majority C prepares).0
                        (publish C E polka cs)
                        (Polka-majority C E cs.votes round prepares e (ground (arith, maj)))
                        (IsLocked-same C E cs _ refl refl refl refl refl l))))))
            (λ cs' h. step-IsLocked C E round commit_step cs' h))

  pub enter_commit_wait-IsLocked :
      (height round : ℤ) (cs : State C E)
      → IsLocked C E cs
      → Post (enter_commit_wait C E height round cs) (IsLocked C E)
  unfolding enter_commit_wait
  enter_commit_wait-IsLocked height round cs l =
      if-Post (is_stale C E cs height round cs.triggered_timeout_commit) _ _ (IsLocked C E) (λ _. l)
        (λ _. then-Post (commits_of C cs.votes round) _ (IsLocked C E) (λ commits _.
          if-Post (has_two_thirds_any C commits) _ none (IsLocked C E)
            (λ _. IsLocked-same C E cs _ refl refl refl refl refl l) (λ _. _)))
