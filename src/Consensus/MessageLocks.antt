-- ===== src/Consensus/MessageLocks.antt =====
-- The parts of the messages' handling keep the locks.
use bft.Base.{
  ◌≡◌, refl, inl, inr, Bool, true, false, ◌&&◌, ◌||◌, not, Option, none, some, arith, length, leb,
  ◌==◌, if◌then◌else◌, subst, sym, Option-cases,
}
use bft.Base.Partial.{Post, bind-Post, then-Post, if-Post}
use bft.Base.Int.{ℤ, pos, eqb_ℤ, ltb_ℤ, is_neg}
use bft.BlockId.{BlockId, is_zero}
use bft.Vote.{Vote}
use bft.VoteSet
use bft.VoteSet.{Context, VoteSet, quorum, two_thirds_majority, has_two_thirds_any, has_all}
use bft.HeightVoteSet.{prepares_of, commits_of}
use bft.PartSet.{header_equals_to, new_part_set_from_header}
use bft.PrePrepare.{PrePrepare}
use bft.Consensus.State.{
  State, Env, equals_to, new_height, pre_prepare_step, prepare_step, reply_step, unlock,
  valid_block, complete_proposal, vote_added,
}
use bft.Consensus.Steps.{
  publish, ask_primary, is_pre_prepare_complete, enter_prepare, enter_new_round, enter_prepare_wait,
  enter_commit, unlocked,
}
use bft.Consensus.Append.{enter_reply}
use bft.Consensus.Messages.{
  bad_pol_round, set_pre_prepare, complete_valid, complete_block, release_lock, learn_valid,
  after_prepare, added_prepare, added_commit, add_last_commit,
}
use bft.Consensus.Locks.{Polka, IsLocked, IsLocked-same, Polka-majority}
use bft.Consensus.StepLocks.{if-IsLocked, enter_prepare-IsLocked, ask_primary-IsLocked}
use bft.Consensus.RoundLocks.{
  majority-Lock, unlocked-IsLocked, enter_new_round-IsLocked, enter_prepare_wait-IsLocked,
  enter_commit-IsLocked, enter_commit_wait-IsLocked,
}
use bft.Consensus.AppendLocks.{KeepsReady, try_finalize_append-IsLocked, enter_reply-IsLocked}

module _ (C : Context) (E : Env C) where
  open C use {keys, floats}
  open E use {Block}

  pub set_pre_prepare-IsLocked :
      (cs : State C E) (p : PrePrepare)
      → IsLocked C E cs
      → Post (set_pre_prepare C E cs p) (λ r. IsLocked C E r.0)
  unfolding set_pre_prepare
  set_pre_prepare-IsLocked cs p l = elim (Option-cases cs.pre_prepare) [
    | inr (old, e) ↦ rw (e, set_pre_prepare) l
    | inl e ↦
        rw (e, set_pre_prepare)
          (if-Post (not (eqb_ℤ p.height cs.height) || not (eqb_ℤ p.round cs.round)) _ _
            (λ r. IsLocked C E r.0) (λ _. l)
            (λ _.
              if-Post (bad_pol_round C E p) _ _ (λ r. IsLocked C E r.0) (λ _. l)
                (λ _.
                  bind-Post (ask_primary C E cs cs.round) _ (λ r. IsLocked C E r.0)
                    (λ r. IsLocked C E r.0) (ask_primary-IsLocked C E cs cs.round l)
                    (λ r h.
                      then-Post r.1.pub_key _ (λ q. IsLocked C E q.0)
                        (λ pk _.
                          if-Post
                            (keys.verify_signature pk (E.proposal_bytes r.0.state.chain_id p)
                              p.signature)
                            _ _ (λ q. IsLocked C E q.0)
                            (λ _. IsLocked-same C E r.0 _ refl refl refl refl refl h) (λ _. h))))))
  ]

  if_true-IsLocked :
      (b : Bool) (x y : State C E)
      → (b ≡ true → IsLocked C E x)
      → IsLocked C E y
      → IsLocked C E (if b then x else y)
  if_true-IsLocked true x y h k = h refl
  if_true-IsLocked false x y h k = k

  complete_valid-IsLocked :
      (cs : State C E) (prepares : Option (VoteSet C))
      → prepares_of C cs.votes cs.round ≡ some prepares
      → IsLocked C E cs
      → IsLocked C E (complete_valid C E cs prepares)
  unfolding complete_valid
  complete_valid-IsLocked cs prepares e l =
      let id = (two_thirds_majority C prepares).0 in
      if_true-IsLocked
        ((two_thirds_majority C prepares).1
          && (not (is_zero id)
              && (ltb_ℤ cs.valid_round cs.round && equals_to C E cs.pre_prepare_block id.hash)))
        (record cs {
          valid_round = cs.round;
          valid_block = cs.pre_prepare_block;
          valid_block_parts = cs.pre_prepare_block_parts;
        })
        cs
        (λ t. record {
          sets = l.sets;
          locked = l.locked;
          valid =
              majority-Lock C E cs.votes cs.round cs.pre_prepare_block id.hash
                (Polka-majority C E cs.votes cs.round prepares e (ground (arith, t)))
                (ground (arith, t));
        })
        l

  release_lock-IsLocked :
      (round : ℤ) (id : BlockId) (cs : State C E)
      → IsLocked C E cs
      → IsLocked C E (release_lock C E round id cs)
  unfolding release_lock
  release_lock-IsLocked round id cs l = elim (Option-cases cs.locked_block) [
    | inl e ↦ rw (e, release_lock) l
    | inr (b, e) ↦
        rw (e, release_lock)
          (if-IsLocked C E _ _ cs
            (IsLocked-same C E (unlocked C E cs) (publish C E unlock (unlocked C E cs)) refl refl
              refl refl refl (unlocked-IsLocked C E cs l))
            l)
  ]

  learn_valid-IsLocked :
      (round : ℤ) (id : BlockId) (cs : State C E)
      → Polka C E cs.votes round id.hash
      → IsLocked C E cs
      → IsLocked C E (learn_valid C E round id cs)
  unfolding learn_valid
  learn_valid-IsLocked round id cs p l =
      let learned : State C E = record cs {
        valid_round = round;
        valid_block = cs.pre_prepare_block;
        valid_block_parts = cs.pre_prepare_block_parts;
      } in
      let unknown : State C E = record cs { pre_prepare_block = none } in
      let known : State C E =
        if equals_to C E cs.pre_prepare_block id.hash then learned else unknown in
      let h : IsLocked C E known =
        if_true-IsLocked (equals_to C E cs.pre_prepare_block id.hash) learned unknown
          (λ hit. record {
            sets = l.sets;
            locked = l.locked;
            valid = majority-Lock C E cs.votes round cs.pre_prepare_block id.hash p hit;
          })
          (IsLocked-same C E cs unknown refl refl refl refl refl l) in
      let fetching : State C E = record known {
        pre_prepare_block_parts = some (new_part_set_from_header id.parts);
      } in
      let next : State C E =
        if header_equals_to known.pre_prepare_block_parts id.parts then known else fetching in
      let k : IsLocked C E next =
        if-IsLocked C E (header_equals_to known.pre_prepare_block_parts id.parts) known fetching h
          (IsLocked-same C E known fetching refl refl refl refl refl h) in
      if-IsLocked C E
        (not (length id.hash == 0) && (ltb_ℤ cs.valid_round round && eqb_ℤ round cs.round))
        (publish C E valid_block next) cs
        (IsLocked-same C E next (publish C E valid_block next) refl refl refl refl refl k) l

  release_lock-votes :
      (round : ℤ) (id : BlockId) (cs : State C E) → (release_lock C E round id cs).votes ≡ cs.votes
  unfolding release_lock
  release_lock-votes round id cs = ground arith

  after_prepare-IsLocked :
      (height round : ℤ) (prepares : Option (VoteSet C)) (cs : State C E)
      → IsLocked C E cs
      → Post (after_prepare C E height round prepares cs) (IsLocked C E)
  unfolding after_prepare
  after_prepare-IsLocked height round prepares cs l =
      if-Post (ltb_ℤ cs.round round && has_two_thirds_any C prepares) _ _ (IsLocked C E)
        (λ _. enter_new_round-IsLocked C E height round cs l)
        (λ _.
          if-Post (eqb_ℤ cs.round round && leb prepare_step cs.step) _ _ (IsLocked C E)
            (λ _.
              then-Post
                (if (two_thirds_majority C prepares).1
                  then is_pre_prepare_complete C E cs
                  else some false)
                _ (IsLocked C E)
                (λ complete _.
                  if-Post
                    ((two_thirds_majority C prepares).1
                      && (complete || (length (two_thirds_majority C prepares).0.hash == 0)))
                    _ _ (IsLocked C E) (λ _. enter_commit-IsLocked C E height round cs l)
                    (λ _.
                      if-IsLocked C E (has_two_thirds_any C prepares)
                        (enter_prepare_wait C E height round cs) cs
                        (enter_prepare_wait-IsLocked C E height round cs l) l)))
            (λ _. elim (Option-cases cs.pre_prepare) [
              | inl e ↦ rw (e, after_prepare) l
              | inr (p, e) ↦
                  rw (e, after_prepare)
                    (if-Post (not (is_neg p.pol_round) && eqb_ℤ p.pol_round round) _ _
                      (IsLocked C E)
                      (λ _.
                        then-Post (is_pre_prepare_complete C E cs) _ (IsLocked C E) (λ complete _.
                          if-IsLocked C E complete (enter_prepare C E height cs.round cs) cs
                            (enter_prepare-IsLocked C E height cs.round cs l) l))
                      (λ _. l))
            ]))

  pub added_prepare-IsLocked :
      (vote : Vote) (cs : State C E)
      → IsLocked C E cs
      → Post (added_prepare C E vote cs) (IsLocked C E)
  unfolding added_prepare
  added_prepare-IsLocked vote cs l =
      then-Post (prepares_of C cs.votes vote.round) _ (IsLocked C E) (λ prepares e.
        let id = (two_thirds_majority C prepares).0 in
        let free : State C E = release_lock C E vote.round id cs in
        let learned : State C E =
          if (two_thirds_majority C prepares).1 then learn_valid C E vote.round id free else cs in
        after_prepare-IsLocked cs.height vote.round prepares learned (
          if_true-IsLocked (two_thirds_majority C prepares).1 (learn_valid C E vote.round id free)
            cs
            (λ maj.
              learn_valid-IsLocked vote.round id free
                (subst (λ v. Polka C E v vote.round id.hash)
                  (sym (release_lock-votes vote.round id cs))
                  (Polka-majority C E cs.votes vote.round prepares e maj))
                (release_lock-IsLocked vote.round id cs l))
            l))

  module _ (ready : KeepsReady C E) where
    pub complete_block-IsLocked :
        (cs : State C E) (height : ℤ) (b : Block)
        → IsLocked C E cs
        → Post (complete_block C E cs height b) (IsLocked C E)
    unfolding complete_block
    complete_block-IsLocked cs height b l =
        let got : State C E =
          publish C E complete_proposal (record cs { pre_prepare_block = some b }) in
        then-Post (prepares_of C got.votes got.round) _ (IsLocked C E) (λ prepares e.
          let next : State C E = complete_valid C E got prepares in
          let h : IsLocked C E next =
            complete_valid-IsLocked got prepares e
              (IsLocked-same C E cs got refl refl refl refl refl l) in
          then-Post
            (if leb next.step pre_prepare_step
              then is_pre_prepare_complete C E next
              else some false)
            _ (IsLocked C E)
            (λ complete _.
              let entered : State C E = enter_prepare C E height next.round next in
              let k : IsLocked C E entered = enter_prepare-IsLocked C E height next.round next h in
              if-Post complete _ _ (IsLocked C E)
                (λ _.
                  if-Post (two_thirds_majority C prepares).1
                    (enter_commit C E height entered.round entered) (some entered) (IsLocked C E)
                    (λ _. enter_commit-IsLocked C E height entered.round entered k) (λ _. k))
                (λ _.
                  if-Post (next.step == reply_step) _ (some next) (IsLocked C E)
                    (λ _. try_finalize_append-IsLocked C E ready height next h) (λ _. h))))

    pub added_commit-IsLocked :
        (vote : Vote) (cs : State C E)
        → IsLocked C E cs
        → Post (added_commit C E vote cs) (IsLocked C E)
    unfolding added_commit
    added_commit-IsLocked vote cs l =
        then-Post (commits_of C cs.votes vote.round) _ (IsLocked C E) (λ precommits _.
          if-Post (two_thirds_majority C precommits).1 _ _ (IsLocked C E)
            (λ _.
              bind-Post (enter_new_round C E cs.height vote.round cs) _ (IsLocked C E)
                (IsLocked C E) (enter_new_round-IsLocked C E cs.height vote.round cs l)
                (λ entered h.
                  bind-Post (enter_commit C E cs.height vote.round entered) _ (IsLocked C E)
                    (IsLocked C E) (enter_commit-IsLocked C E cs.height vote.round entered h)
                    (λ committed k.
                      if-Post (not (length (two_thirds_majority C precommits).0.hash == 0)) _ _
                        (IsLocked C E)
                        (λ _.
                          bind-Post (enter_reply C E cs.height vote.round committed) _
                            (IsLocked C E) (IsLocked C E)
                            (enter_reply-IsLocked C E ready cs.height vote.round committed k)
                            (λ replied m.
                              if-Post
                                (replied.config.skip_timeout_reply
                                  && elim precommits [ none ↦ false | some s ↦ has_all C s ])
                                _ (some replied) (IsLocked C E)
                                (λ _. enter_new_round-IsLocked C E replied.height (pos 0) replied m)
                                (λ _. m)))
                        (λ _. enter_commit_wait-IsLocked C E cs.height vote.round committed k))))
            (λ _.
              if-Post (not (ltb_ℤ vote.round cs.round) && has_two_thirds_any C precommits) _
                (some cs) (IsLocked C E)
                (λ _.
                  bind-Post (enter_new_round C E cs.height vote.round cs) _ (IsLocked C E)
                    (IsLocked C E) (enter_new_round-IsLocked C E cs.height vote.round cs l)
                    (λ entered h. enter_commit_wait-IsLocked C E cs.height vote.round entered h))
                (λ _. l)))

    pub add_last_commit-IsLocked :
        (cs : State C E) (vote : Vote)
        → IsLocked C E cs
        → Post (add_last_commit C E cs vote) (λ r. IsLocked C E r.0)
    unfolding add_last_commit
    add_last_commit-IsLocked cs vote l =
        if-Post (not (cs.step == new_height)) _ _ (λ r. IsLocked C E r.0) (λ _. l)
          (λ _.
            then-Post cs.last_commits _ (λ r. IsLocked C E r.0)
              (λ commits _.
                then-Post (VoteSet.add_vote C commits (some vote)) _ (λ r. IsLocked C E r.0)
                  (λ r _.
                    let cs' : State C E = record cs { last_commits = some r.0 } in
                    let told : State C E = publish C E vote_added cs' in
                    let h : IsLocked C E told =
                      IsLocked-same C E cs told refl refl refl refl refl l in
                    if-Post (not r.1.added) _ _ (λ r. IsLocked C E r.0)
                      (λ _. IsLocked-same C E cs cs' refl refl refl refl refl l)
                      (λ _.
                        bind-Post
                          (if told.config.skip_timeout_reply && has_all C r.0
                            then enter_new_round C E told.height (pos 0) told
                            else some told)
                          _ (IsLocked C E) (λ r. IsLocked C E r.0)
                          (if-Post (told.config.skip_timeout_reply && has_all C r.0) _ (some told)
                            (IsLocked C E)
                            (λ _. enter_new_round-IsLocked C E told.height (pos 0) told h) (λ _. h))
                          (λ next k. k)))))
