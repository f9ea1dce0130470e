-- ===== src/BlockPool/Verified.antt =====
-- The fast sync applies a chain of consecutive blocks, each with a verified reply.
use bft.Base.{
  ◌≤◌, ℕ, zero, suc, ◌≡◌, refl, sym, ap, subst, true, false, none, some, List, [], ◌∷◌, arith,
  Bytes, Option-cases, inl, inr, ◌∙◌, length, get_elem?,
}
use bft.Base.Int.{ℤ, succ_ℤ, plus}
use bft.BlockId.{equals}
use bft.VoteSet.{Context, Val, total_voting_power}
use bft.ValidatorSet.{ValidatorSet}
use bft.Reply.{ReplySig, absent, tally, tallied}
use bft.Reply.Verify.{IsSigned, signed_power, verify_reply-accepts}
use bft.Consensus.State.{ChainState}
use bft.BlockPool.{peek_two_blocks, pop_request, redo_request}
use bft.BlockPool.Invariant.{IsPool}
use bft.BlockPool.Reach.{new_block_pool-IsPool, pool_step-IsPool, peek_lem}
use bft.BlockPool.Steps.{pop_request-IsPool, redo_request-IsPool}
use bft.BlockPool.Level.{pool_step-Keeps, redo_request-Keeps, pop_request-height}
use bft.BlockPool.Sync.{
  SyncEnv, Applied, Sync, first_id, verify_first, redo_both, apply_first, peek_sync, settle_sync,
  stop_peers, Synced, begun, pooled, looked_at, settled,
}

plus-succ : (n : ℕ) (a : ℤ) → succ_ℤ (plus n a) ≡ plus (suc n) a
plus-succ zero a = refl
plus-succ (suc n) a = plus-succ n (succ_ℤ a)

module _ (C : Context) (E : SyncEnv C) (chain_id : Bytes) (start : ℤ) where
  open C.floats use {Float, of_ℕ, mul, div, le}

  -- The reply that came with a block: it has the height and the id of the block, a tally above two
  -- thirds of the power, and signatures of the current validators.
  pub record IsCertified (a : Applied C E) : Type 0 where
    pub vals : ValidatorSet C.keys C.floats
    pub current : a.state.validators ≡ some vals
    pub whole : length vals.validators ≡ length a.reply.signatures
    pub level : E.block_height a.block ≡ a.reply.height
    pub same : equals a.block_id a.reply.block_id ≡ true
    pub quorum :
        (tally C chain_id a.reply 0 vals.validators a.reply.signatures (of_ℕ 0)
          ≡ some (tallied (signed_power C vals.validators a.reply.signatures (of_ℕ 0))))
        × (le
              (signed_power C vals.validators a.reply.signatures (of_ℕ 0))
              (div (mul (total_voting_power C) (of_ℕ 2)) (of_ℕ 3))
            ≡ false)
    pub signed :
        (i : ℕ) (sig : ReplySig)
        → get_elem? a.reply.signatures i ≡ some sig
        → absent sig ≡ false
        → (val : Val C) × (get_elem? vals.validators i ≡ some val)
          × IsSigned C chain_id a.reply i val sig

  -- Newest first, the blocks stand at consecutive heights from the first on, and are certified.
  abbrev pub IsChain : List (Applied C E) → Type 0
  IsChain [] = Unit {0}
  IsChain (a ∷ rest) =
      (E.block_height a.block ≡ plus (length rest) start) × IsCertified a × IsChain rest

  pub record IsSync (Sent : Bytes → E.Block → Type 0) (s : Sync C E) : Type 0 where
    pub books : IsPool E.block_height Sent s.pool
    pub level : s.pool.height ≡ plus (length s.applied) start
    pub peeked :
        (first second : E.Block)
        → s.peeked ≡ some (first, second)
        → (E.block_height first ≡ s.pool.height)
          × (E.block_height second ≡ succ_ℤ s.pool.height)
          × (2 ≤ length s.pool.requesters)
    pub chain : IsChain s.applied

  verify_first-IsCertified :
      (state : ChainState C) (first second : E.Block)
      → verify_first C E chain_id state first second ≡ some none
      → IsCertified (record {
        state = state;
        block_id = first_id C E first;
        block = first;
        parts = E.make_part_set first;
        reply = E.last_reply second;
      })
  unfolding verify_first
  verify_first-IsCertified state first second e = elim (Option-cases state.validators) [
    | inl missing ↦ absurd (ground (arith, missing, e))
    | inr (vals, here) ↦
        let (whole, level, same, quorum, signed) =
          verify_reply-accepts C vals.validators chain_id (first_id C E first)
            (E.block_height first) (E.last_reply second) (ground (arith, here, e)) in
        record {
          vals = vals;
          current = here;
          whole = whole;
          level = level;
          same = same;
          quorum = quorum;
          signed = signed;
        }
  ]

  module _ (Sent : Bytes → E.Block → Type 0) where
    peek_sync-IsSync : (s : Sync C E) → IsSync Sent s → IsSync Sent (peek_sync C E s)
    unfolding peek_sync
    peek_sync-IsSync s v = elim (Option-cases (peek_two_blocks s.pool).0) [
      | inl missing ↦ rw (missing, peek_sync) v
      | inr (first, one) ↦ elim (Option-cases (peek_two_blocks s.pool).1) [
        | inl missing ↦
            let same : peek_sync C E s ≡ s = ground (arith, one, missing) in
            subst (IsSync Sent) (sym same) v
        | inr (second, two) ↦
            let same : peek_sync C E s ≡ record s { peeked = some (first, second) } =
              ground (arith, one, two) in
            subst (IsSync Sent) (sym same) (record {
              books = v.books;
              level = v.level;
              peeked = λ f g e.
                  let one' : first ≡ f = ground (arith, e) in
                  let two' : second ≡ g = ground (arith, e) in
                  let (level, level', more) =
                    peek_lem E.block_height Sent s.pool first second v.books one two in
                  (
                    ap E.block_height (sym one') ∙ level,
                    ap E.block_height (sym two') ∙ level',
                    more,
                  );
              chain = v.chain;
            })
      ]
    ]

    redo_both-IsSync :
        (first second : E.Block) (s s' : Sync C E)
        → IsSync Sent s
        → redo_both C E first second (record s { peeked = none }) ≡ some s'
        → IsSync Sent s'
    unfolding redo_both
    redo_both-IsSync first second s s' v e =
        elim (Option-cases (redo_request (E.block_height first) s.pool)) [
          | inl panic ↦ absurd (ground (arith, panic, e))
          | inr ((pool, id), done) ↦
              elim (Option-cases (redo_request (E.block_height second) pool)) [
                | inl panic ↦ absurd (ground (arith, done, panic, e))
                | inr ((pool', id2), done') ↦
                    (let one : record s {
                      pool = pool';
                      peeked = none;
                      stopped_peers = stop_peers C E id id2 s.stopped_peers;
                    }
                          ≡ s' =
                        ground (arith, done, done', e) in
                      let first_kept =
                        redo_request-IsPool E.block_height Sent (E.block_height first) s.pool pool
                          id v.books done in
                      let moved =
                        (redo_request-Keeps (E.block_height second) pool pool' id2 done').0
                        ∙ (redo_request-Keeps (E.block_height first) s.pool pool id done).0 in
                      subst (IsSync Sent) one (record {
                        books =
                            redo_request-IsPool E.block_height Sent (E.block_height second) pool
                              pool' id2 first_kept done';
                        level = moved ∙ v.level;
                        peeked = λ f g held. absurd (cc held);
                        chain = v.chain;
                      }))
              ]
        ]

    apply_first-IsSync :
        (first second : E.Block) (s s' : Sync C E)
        → IsSync Sent s
        → s.peeked ≡ some (first, second)
        → verify_first C E chain_id s.state first second ≡ some none
        → apply_first C E first second (record s { peeked = none }) ≡ some s'
        → IsSync Sent s'
    unfolding apply_first
    apply_first-IsSync first second s s' v here ok e = elim (Option-cases (pop_request s.pool)) [
      | inl panic ↦ absurd (ground (arith, panic, e))
      | inr (pool, popped) ↦
          elim (Option-cases (E.apply_block s.state (first_id C E first) first)) [
            | inl panic ↦ absurd (ground (arith, popped, panic, e))
            | inr (state, done) ↦
                let a : Applied C E = record {
                  state = s.state;
                  block_id = first_id C E first;
                  block = first;
                  parts = E.make_part_set first;
                  reply = E.last_reply second;
                } in
                let one : record s {
                  pool = pool;
                  state = state;
                  peeked = none;
                  applied = a ∷ s.applied;
                  blocks_synced = suc s.blocks_synced;
                }
                    ≡ s' =
                  ground (arith, popped, done, e) in
                subst (IsSync Sent) one (record {
                  books = pop_request-IsPool E.block_height Sent s.pool pool v.books popped;
                  level =
                      pop_request-height s.pool pool popped
                      ∙ ap succ_ℤ v.level
                      ∙ plus-succ (length s.applied) start;
                  peeked = λ f g held. absurd (cc held);
                  chain = (
                    (v.peeked first second here).0 ∙ v.level,
                    verify_first-IsCertified s.state first second ok,
                    v.chain,
                  );
                })
          ]
    ]

    settle_sync-IsSync :
        (s s' : Sync C E) → IsSync Sent s → settle_sync C E chain_id s ≡ some s' → IsSync Sent s'
    unfolding settle_sync
    settle_sync-IsSync s s' v e = elim (Option-cases s.peeked) [
      | inl missing ↦ let one : s ≡ s' = ground (arith, missing, e) in subst (IsSync Sent) one v
      | inr ((first, second), here) ↦
          elim (Option-cases (verify_first C E chain_id s.state first second)) [
            | inl panic ↦ absurd (ground (arith, here, panic, e))
            | inr (some bad, found) ↦
                redo_both-IsSync first second s s' v (ground (arith, here, found, e))
            | inr (none, found) ↦
                apply_first-IsSync first second s s' v here found (ground (arith, here, found, e))
          ]
    ]

    pub Synced-IsSync :
        (state : ChainState C) (s : Sync C E)
        → ((b : E.Block) → ¬ Sent [] b)
        → Synced C E Sent chain_id start state s
        → IsSync Sent s
    Synced-IsSync state _ named begun = record {
      books = new_block_pool-IsPool E.block_height Sent start;
      level = refl;
      peeked = λ f g e. absurd (cc e);
      chain = _;
    }
    Synced-IsSync state _ named (looked_at s r) = peek_sync-IsSync s (Synced-IsSync state s named r)
    Synced-IsSync state _ named (settled s s' r e) =
        settle_sync-IsSync s s' (Synced-IsSync state s named r) e
    Synced-IsSync state _ named (pooled e s pool r a o done) =
        let v = Synced-IsSync state s named r in
        let (same, more) = pool_step-Keeps E.block_height e s.pool pool o done in
        record {
          books = pool_step-IsPool E.block_height Sent e s.pool pool named a v.books done;
          level = same ∙ v.level;
          peeked = λ f g held.
              let (one, two, enough) = v.peeked f g held in
              (one ∙ sym same, two ∙ ap succ_ℤ (sym same), omega (arith, enough, more));
          chain = v.chain;
        }

    -- In every run of the fast sync without a panic, whatever the peers send and however the steps
    -- of the pool come between, where no peer has an empty ID: the blocks that are stored and
    -- applied have consecutive heights from the start height on, and each was given a reply with
    -- its height and an equal block id, as many signatures as the validators of the state it is
    -- applied to, signatures that those validators' keys verify, and the power of the validators
    -- whose signature is for the block above two thirds of the total.
    pub synced-IsChain :
        (state : ChainState C) (s : Sync C E)
        → ((b : E.Block) → ¬ Sent [] b)
        → Synced C E Sent chain_id start state s
        → IsChain s.applied
    synced-IsChain state s named r = (Synced-IsSync state s named r).chain
