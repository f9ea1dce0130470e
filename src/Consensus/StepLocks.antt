-- ===== src/Consensus/StepLocks.antt =====
-- The steps of a round keep the locks.
use bft.Base.{
  ℕ, ◌≡◌, refl, inl, inr, Bool, true, false, not, Option, none, some, List, [], ◌∷◌, arith, leb,
  Bytes, if◌then◌else◌, subst, sym, ap, ◌∙◌, Option-cases,
}
use bft.Base.Partial.{Post, bind-Post, then-Post, if-Post}
use bft.Base.Int.{ℤ}
use bft.VoteSet.{Context}
use bft.PrePrepare.{PrePrepare, new_pre_prepare}
use bft.ValidatorSet.{has_address, get_primary}
use bft.HeightVoteSet.{HeightVoteSet}
use bft.HeightVoteSet.Invariant.{IsHeight}
use bft.PartSet.{PartSet, Part, header}
use bft.Consensus.State.{
  State, Env, is_stale, send, new_step, update_round_step, prepare_step, pre_prepare_step,
  pre_prepare_message,
}
use bft.Consensus.Steps.{
  sign_vote, sign_add_vote, do_prepare, enter_prepare, is_pre_prepare_complete, ask_primary,
  is_primary, send_parts, send_proposal, propose, decide_pre_prepare, create_pre_prepare_block,
  pre_prepare_body, enter_pre_prepare, schedule_timeout,
}
use bft.Consensus.Locks.{Lock, IsLocked, IsLocked-same}

module _ (C : Context) (E : Env C) where
  open C use {keys, floats}
  open E use {Block, Signer}

  pub if-IsLocked :
      (b : Bool) (x y : State C E)
      → IsLocked C E x
      → IsLocked C E y
      → IsLocked C E (if b then x else y)
  if-IsLocked true x y h k = h
  if-IsLocked false x y h k = k

  elim-IsLocked :
      {A : Type 0} (m : Option A) (x : State C E) (f : A → State C E)
      → IsLocked C E x
      → ((a : A) → IsLocked C E (f a))
      → IsLocked C E (elim m [ none ↦ x | some a ↦ f a ])
  elim-IsLocked none x f h k = h
  elim-IsLocked (some a) x f h k = k a

  -- A new lock.
  pub relocked :
      (cs cs' : State C E)
      → IsLocked C E cs
      → cs'.votes ≡ cs.votes
      → cs'.valid_block ≡ cs.valid_block
      → cs'.valid_round ≡ cs.valid_round
      → Lock C E cs'.locked_block cs'.locked_round cs.votes
      → IsLocked C E cs'
  relocked cs cs' l v b r new = record {
    sets = subst (IsHeight C) (sym v) l.sets;
    locked = subst (Lock C E cs'.locked_block cs'.locked_round) (sym v) new;
    valid =
        subst (λ (t : HeightVoteSet C × Option Block × ℤ). Lock C E t.1 t.2 t.0)
          (sym (
            ap (λ x. (x, cs'.valid_block, cs'.valid_round)) v
            ∙ ap (λ x. (cs.votes, x, cs'.valid_round)) b
            ∙ ap (λ x. (cs.votes, cs.valid_block, x)) r))
          l.valid;
  }

  pub step-IsLocked :
      (round : ℤ) (step : ℕ) (cs : State C E)
      → IsLocked C E cs
      → IsLocked C E (new_step C E (update_round_step C E round step cs))
  step-IsLocked round step cs l = IsLocked-same C E cs _ refl refl refl refl refl l

  pub enter_prepare-IsLocked :
      (height round : ℤ) (cs : State C E)
      → IsLocked C E cs
      → IsLocked C E (enter_prepare C E height round cs)
  unfolding enter_prepare do_prepare sign_add_vote sign_vote
  enter_prepare-IsLocked height round cs l =
      if-IsLocked (is_stale C E cs height round (leb prepare_step cs.step)) cs _ l (
        step-IsLocked round prepare_step (do_prepare C E cs) (
          IsLocked-same C E cs (do_prepare C E cs) (ground arith) (ground arith) (ground arith)
            (ground arith) (ground arith) l))

  pub ask_primary-IsLocked :
      (cs : State C E) (times : ℤ)
      → IsLocked C E cs
      → Post (ask_primary C E cs times) (λ r. IsLocked C E r.0)
  unfolding ask_primary
  ask_primary-IsLocked cs times l =
      then-Post (get_primary keys floats E.sum cs.validators cs.state.last_block_id times) _ _
        (λ r _. then-Post r.1 _ _ (λ v _. IsLocked-same C E cs _ refl refl refl refl refl l))

  is_primary-IsLocked :
      (cs : State C E) (address : Bytes)
      → IsLocked C E cs
      → Post (is_primary C E cs address) (λ r. IsLocked C E r.0)
  unfolding is_primary
  is_primary-IsLocked cs address l =
      bind-Post (ask_primary C E cs cs.round) _ (λ r. IsLocked C E r.0) _
        (ask_primary-IsLocked cs cs.round l) (λ r h. h)

  send_parts-IsLocked :
      (parts : List (Option Part)) (cs : State C E)
      → IsLocked C E cs
      → IsLocked C E (send_parts C E parts cs)
  unfolding send_parts
  send_parts-IsLocked [] cs l = l
  send_parts-IsLocked (p ∷ parts) cs l =
      send_parts-IsLocked parts _ (IsLocked-same C E cs _ refl refl refl refl refl l)

  send_proposal-IsLocked :
      (p : PrePrepare) (parts : Option PartSet) (cs : State C E) (signature : Option Bytes)
      → IsLocked C E cs
      → IsLocked C E (send_proposal C E p parts cs signature)
  unfolding send_proposal
  send_proposal-IsLocked p parts cs none l = l
  send_proposal-IsLocked p parts cs (some s) l =
      send_parts-IsLocked (elim parts [ none ↦ [] | some ps ↦ ps.parts ])
        (send C E (pre_prepare_message (record p { signature = s })) cs)
        (IsLocked-same C E cs _ refl refl refl refl refl l)

  propose-IsLocked :
      (height round : ℤ) (signer : Signer) (b : Block) (parts : Option PartSet) (cs : State C E)
      → IsLocked C E cs
      → IsLocked C E (propose C E height round signer b parts cs)
  unfolding propose
  propose-IsLocked height round signer b parts cs l =
      let p =
        new_pre_prepare height round cs.valid_round
          (record { hash = E.block_hash b; parts = header parts }) (E.now signer) in
      let r = E.sign_proposal signer cs.state.chain_id p in
      let cs' : State C E = record cs { signer = some r.0 } in
      send_proposal-IsLocked p parts cs' r.1 (IsLocked-same C E cs cs' refl refl refl refl refl l)

  decide_pre_prepare-IsLocked :
      (height round : ℤ) (signer : Signer) (pk : keys.PubKey) (cs : State C E)
      → IsLocked C E cs
      → Post (decide_pre_prepare C E height round signer pk cs) (IsLocked C E)
  unfolding decide_pre_prepare
  decide_pre_prepare-IsLocked height round signer pk cs l =
      if-Post cs.config.test_is_byzantine _ _ (IsLocked C E) (λ _. l)
        (λ _. elim (Option-cases cs.valid_block) [
          | inr (b, e) ↦
              rw (e, decide_pre_prepare)
                (propose-IsLocked height round signer b cs.valid_block_parts cs l)
          | inl e ↦
              rw (e, decide_pre_prepare)
                (then-Post (create_pre_prepare_block C E cs pk) _ (IsLocked C E) (λ created _.
                  elim-IsLocked created cs (λ t. propose C E height round signer t.0 (some t.1) cs)
                    l (λ t. propose-IsLocked height round signer t.0 (some t.1) cs l)))
        ])

  pre_prepare_body-IsLocked :
      (height round : ℤ) (cs : State C E)
      → IsLocked C E cs
      → Post (pre_prepare_body C E height round cs) (IsLocked C E)
  unfolding pre_prepare_body
  pre_prepare_body-IsLocked height round cs l = elim (Option-cases cs.signer) [
    | inl e ↦ rw (e, pre_prepare_body) l
    | inr (signer, e) ↦ elim (Option-cases cs.pub_key) [
      | inl f ↦ rw (e, pre_prepare_body) (rw (f, pre_prepare_body) l)
      | inr (pk, f) ↦
          rw (e, pre_prepare_body)
            (rw (f, pre_prepare_body)
              (if-Post (not (has_address keys floats cs.validators.validators (keys.address pk))) _
                _ (IsLocked C E) (λ _. l)
                (λ _.
                  bind-Post (is_primary C E cs (keys.address pk)) _ (λ r. IsLocked C E r.0)
                    (IsLocked C E) (is_primary-IsLocked cs (keys.address pk) l)
                    (λ r h.
                      if-Post r.1 _ _ (IsLocked C E)
                        (λ _. decide_pre_prepare-IsLocked height round signer pk r.0 h) (λ _. h)))))
    ]
  ]

  pub enter_pre_prepare-IsLocked :
      (height round : ℤ) (cs : State C E)
      → IsLocked C E cs
      → Post (enter_pre_prepare C E height round cs) (IsLocked C E)
  unfolding enter_pre_prepare
  enter_pre_prepare-IsLocked height round cs l =
      if-Post (is_stale C E cs height round (leb pre_prepare_step cs.step)) _ _ (IsLocked C E)
        (λ _. l)
        (λ _.
          bind-Post
            (pre_prepare_body C E height round
              (schedule_timeout C E height round pre_prepare_step cs))
            _ (IsLocked C E) (IsLocked C E)
            (pre_prepare_body-IsLocked height round _
              (IsLocked-same C E cs _ refl refl refl refl refl l))
            (λ cs' h.
              then-Post
                (is_pre_prepare_complete C E
                  (new_step C E (update_round_step C E round pre_prepare_step cs')))
                _ (IsLocked C E)
                (λ complete _.
                  if-IsLocked complete _ _
                    (enter_prepare-IsLocked height round
                      (new_step C E (update_round_step C E round pre_prepare_step cs'))
                      (step-IsLocked round pre_prepare_step cs' h))
                    (step-IsLocked round pre_prepare_step cs' h))))
