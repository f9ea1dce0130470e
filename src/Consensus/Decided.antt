-- ===== src/Consensus/Decided.antt =====
-- A node appends only the block that two thirds of the commits of the reply round are for.
use bft.Base.{
  ◌≡◌, refl, ◌⊎◌, inl, inr, true, ◌||◌, not, Option, none, some, arith, length, ◌==◌, ap, ◌∙◌,
}
use bft.Base.Partial.{Post, then-Post, if-Post, eq-Post, Post-eq}
use bft.Base.Int.{ℤ, eqb_ℤ}
use bft.VoteSet.{Context, VoteSet, two_thirds_majority}
use bft.HeightVoteSet.{commits_of}
use bft.PartSet.{header_equals_to}
use bft.Consensus.State.{State, Env, equals_to, reply_step}
use bft.Consensus.Append.{append_block, finalize_append, try_finalize_append}
use bft.Consensus.Locks.{equals_to_sound}

module _ (C : Context) (E : Env C) where
  open E use {Block}

  -- The block of the state is decided: it is valid, its hash and its parts are those of the block id
  -- that has two thirds of the commits of the reply round.
  pub record IsDecided (cs : State C E) : Type 0 where
    pub block : Block
    pub held : cs.pre_prepare_block ≡ some block
    pub commits : Option (VoteSet C)
    pub counted : commits_of C cs.votes cs.reply_round ≡ some commits
    pub majority : (two_thirds_majority C commits).1 ≡ true
    pub hash : E.block_hash block ≡ (two_thirds_majority C commits).0.hash
    pub parts :
        header_equals_to cs.pre_prepare_block_parts (two_thirds_majority C commits).0.parts ≡ true
    pub valid : E.validate_block cs.state block ≡ true
    pub replying : (cs.step == reply_step) ≡ true

  -- The state is left, or the block of the state is appended.
  abbrev pub Appends : State C E → State C E → Type 0
  Appends cs cs' = (cs' ≡ cs) ⊎ IsDecided cs

  finalize_append-Appends :
      (height : ℤ) (cs : State C E) → Post (finalize_append C E height cs) (Appends cs)
  unfolding finalize_append
  finalize_append-Appends height cs =
      if-Post (not (eqb_ℤ cs.height height) || not (cs.step == reply_step)) _ _ (Appends cs)
        (λ _. inl refl)
        (λ now. then-Post (commits_of C cs.votes cs.reply_round) _ (Appends cs) (λ commits counted.
          let id = (two_thirds_majority C commits).0 in
          then-Post cs.pre_prepare_block _ (Appends cs) (λ b held.
            if-Post (not (two_thirds_majority C commits).1) none _ (Appends cs) (λ _. _)
              (λ maj.
                if-Post (not (header_equals_to cs.pre_prepare_block_parts id.parts)) none _
                  (Appends cs) (λ _. _)
                  (λ parts.
                    if-Post (not (equals_to C E (some b) id.hash)) none _ (Appends cs) (λ _. _)
                      (λ same.
                        if-Post (not (E.validate_block cs.state b)) none _ (Appends cs) (λ _. _)
                          (λ valid. eq-Post (append_block C E cs id b) (Appends cs) (λ _ _.
                            inr (record {
                              block = b;
                              held = held;
                              commits = commits;
                              counted = counted;
                              majority = ground (arith, maj);
                              hash =
                                  let (x, e, h) =
                                    equals_to_sound C E (some b) id.hash (ground (arith, same)) in
                                  ap E.block_hash (the_same b x e) ∙ h;
                              parts = ground (arith, parts);
                              valid = ground (arith, valid);
                              replying = ground (arith, now);
                            })))))))))
    where
      the_same : (b x : Block) → some b ≡ some x → b ≡ x
      the_same b x e = ground (arith, e)

  -- A call of tryFinalizeAppend that does not panic leaves the state as it was, unless in the
  -- reply step the state holds a block that the executor finds valid, whose hash and parts are
  -- those of the block id that has two thirds of the commits of the reply round.
  pub try_finalize_append-IsDecided :
      (height : ℤ) (cs cs' : State C E)
      → try_finalize_append C E height cs ≡ some cs'
      → (cs' ≡ cs) ⊎ IsDecided cs
  unfolding try_finalize_append
  try_finalize_append-IsDecided height cs cs' e =
      Post-eq (try_finalize_append C E height cs) cs' (Appends cs)
        (if-Post (not (eqb_ℤ cs.height height)) none _ (Appends cs) (λ _. _)
          (λ _. then-Post (commits_of C cs.votes cs.reply_round) _ (Appends cs) (λ commits _.
            let id = (two_thirds_majority C commits).0 in
            if-Post (not (two_thirds_majority C commits).1 || (length id.hash == 0)) _ _
              (Appends cs) (λ _. inl refl)
              (λ _.
                if-Post (not (equals_to C E cs.pre_prepare_block id.hash)) _ _ (Appends cs)
                  (λ _. inl refl) (λ _. finalize_append-Appends height cs)))))
        e
