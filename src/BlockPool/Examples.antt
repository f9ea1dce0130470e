-- ===== src/BlockPool/Examples.antt =====
-- A run of the fast sync with one peer: two blocks are requested and received, and the first is
-- applied; and runs that show what the counts and the highest height of the pool become.
use bft.Base.{
  ℕ, zero, suc, ◌≡◌, refl, Bool, true, false, Option, none, some, List, [], ◌∷◌, ◌++◌, arith,
  length, Bytes, ◌==◌, Option-cases, inl, inr, subst,
}
use bft.Base.ByteStrings.{bytes_equal}
use bft.Base.Int.{ℤ, pos, succ_ℤ}
use bft.Base.Assoc.{lookup, insert}
use bft.Base.Partial.{◌>>=◌}
use bft.Samples.{context, validators}
use bft.BlockId.{BlockId, zero_id, equals}
use bft.PartSet.{new_part_set_from_header, header}
use bft.Reply.{Reply, ReplySig, verify_reply}
use bft.Consensus.State.{ChainState}
use bft.BlockPool.{
  BlockPool, Requester, is_caught_up, new_block_pool, at_height, put_height, peek_two_blocks,
  set_peer_range, make_requesters, add_block, pick_incr_available_peer, pop_request,
}
use bft.BlockPool.Routine.{
  PoolEvent, made, ranged, removed, received, popped, redone, looked, assigned, redone_stopped,
  pool_step, IsAllowed, Reached, started, stepped, pick_peer, assign_peer,
}
use bft.BlockPool.Pick.{IsPicked, pick_incr_available_peer_lem}
use bft.BlockPool.Heights.{count_unfilled}
use bft.BlockPool.Invariant.{IsPool}
use bft.BlockPool.Reach.{Reached-IsPool, received_total, peek_two_blocks_lem}
use bft.BlockPool.Sync.{
  SyncEnv, Sync, peek_sync, settle_sync, verify_first, first_id, IsOther, new_sync, Synced, begun,
  pooled, looked_at, settled,
}
use bft.BlockPool.Progress.{IsSettled, settle_sync_total}
use bft.BlockPool.Verified.{IsChain, synced-IsChain}

abbrev digest : Bytes
digest = 7 ∷ []

abbrev block_id : BlockId
block_id = record { hash = digest; parts = record { total = 1; hash = digest } }

abbrev sig : ℕ → ReplySig
sig i = record { flag = 2; address = suc i ∷ []; timestamp = pos 5; signature = suc i ∷ 9 ∷ digest }

abbrev certificate : Reply
certificate = record {
  height = pos 3;
  round = pos 1;
  block_id = block_id;
  signatures = sig 0 ∷ sig 1 ∷ [];
}

-- Blocks are their heights.
abbrev env : SyncEnv context
env = record {
  Block = ℤ;
  block_height = λ b. b;
  block_hash = λ b. digest;
  last_reply = λ b. certificate;
  make_part_set = λ b. new_part_set_from_header block_id.parts;
  apply_block = λ st id b. some (record st { last_block_height = b; last_block_id = id });
  is_connected = λ id. true;
}

abbrev chain : ChainState context
chain = record {
  chain_id = 9 ∷ [];
  initial_height = pos 1;
  last_block_height = pos 2;
  last_block_id = zero_id;
  validators = some (record { validators = validators; primary = none });
  last_validators = none;
  app_hash = [];
  max_bytes = 1000;
}

-- The peers that have an ID.
abbrev Sent : Bytes → ℤ → Type 0
Sent id b = (length id == 0) ≡ false

named : (b : ℤ) → ¬ Sent [] b
named b h = absurd (cc h)

abbrev alice : Bytes
alice = 1 ∷ []

abbrev or_pool : BlockPool ℤ → Option (BlockPool ℤ) → BlockPool ℤ
or_pool d none = d
or_pool d (some p) = p

abbrev play : List (PoolEvent ℤ) → BlockPool ℤ → Option (BlockPool ℤ)
play [] pool = some pool
play (e ∷ es) pool = pool_step (λ b. b) e pool >>= λ pool'. play es pool'

abbrev AreAllowed : List (PoolEvent ℤ) → Type 0
AreAllowed [] = Unit {0}
AreAllowed (e ∷ es) = IsAllowed Sent e × IsOther e × AreAllowed es

play-Reached :
    (es : List (PoolEvent ℤ)) (pool pool' : BlockPool ℤ)
    → AreAllowed es
    → Reached (λ b. b) Sent (pos 3) pool
    → play es pool ≡ some pool'
    → Reached (λ b. b) Sent (pos 3) pool'
play-Reached [] pool pool' a r e =
    let same : pool ≡ pool' = ground (arith, e) in subst (Reached (λ b. b) Sent (pos 3)) same r
play-Reached (x ∷ es) pool pool' (a, _, as') r e = elim (Option-cases (pool_step (λ b. b) x pool)) [
  | inl panic ↦ absurd (ground (arith, panic, e))
  | inr (next, done) ↦
      play-Reached es next pool' as' (stepped x pool next r a done) (ground (arith, done, e))
]

play-Synced :
    (es : List (PoolEvent ℤ)) (s : Sync context env) (pool : BlockPool ℤ)
    → AreAllowed es
    → Synced context env Sent (9 ∷ []) (pos 3) chain s
    → play es s.pool ≡ some pool
    → Synced context env Sent (9 ∷ []) (pos 3) chain (record s { pool = pool })
play-Synced [] s pool a r e =
    let same : s.pool ≡ pool = ground (arith, e) in
    subst
      (λ (p : BlockPool ℤ). Synced context env Sent (9 ∷ []) (pos 3) chain (record s { pool = p }))
      same r
play-Synced (x ∷ es) s pool (a, o, as') r e = elim (Option-cases (pool_step (λ b. b) x s.pool)) [
  | inl panic ↦ absurd (ground (arith, panic, e))
  | inr (next, done) ↦
      play-Synced es (record s { pool = next }) pool as' (pooled x s next r a o done)
        (ground (arith, done, e))
]

abbrev asking : List (PoolEvent ℤ)
asking =
    ranged alice (pos 1) (pos 5)
    ∷ made []
    ∷ made []
    ∷ looked (pos 3) (alice ∷ [])
    ∷ assigned (pos 3)
    ∷ looked (pos 4) (alice ∷ [])
    ∷ assigned (pos 4)
    ∷ []

abbrev answering : List (PoolEvent ℤ)
answering = received alice (pos 3) ∷ received alice (pos 4) ∷ []

abbrev asked : BlockPool ℤ
asked = or_pool (new_block_pool (pos 3)) (play asking (new_block_pool (pos 3)))

abbrev answered : BlockPool ℤ
answered = or_pool asked (play answering asked)

ran : play asking (new_block_pool (pos 3)) ≡ some asked
unfolding pool_step assign_peer at_height pick_peer bft.BlockPool.Routine.is_picking
    pick_incr_available_peer bft.BlockPool.visit_peer lookup make_requesters set_peer_range
    bft.BlockPool.make_next_requester put_height insert bytes_equal bft.BlockPool.new_bp_peer
    bft.BlockPool.Routine.keep_pick bft.BlockPool.incr_pending add_block bft.BlockPool.set_block
    bft.BlockPool.decr_pending peek_two_blocks bft.BlockPool.block_at
ran = refl

ran_answers : play answering asked ≡ some answered
unfolding pool_step assign_peer at_height pick_peer bft.BlockPool.Routine.is_picking
    pick_incr_available_peer bft.BlockPool.visit_peer lookup make_requesters set_peer_range
    bft.BlockPool.make_next_requester put_height insert bytes_equal bft.BlockPool.new_bp_peer
    bft.BlockPool.Routine.keep_pick bft.BlockPool.incr_pending add_block bft.BlockPool.set_block
    bft.BlockPool.decr_pending peek_two_blocks bft.BlockPool.block_at
ran_answers = refl

ran_peek : peek_two_blocks answered ≡ (some (pos 3), some (pos 4))
unfolding pool_step assign_peer at_height pick_peer bft.BlockPool.Routine.is_picking
    pick_incr_available_peer bft.BlockPool.visit_peer lookup make_requesters set_peer_range
    bft.BlockPool.make_next_requester put_height insert bytes_equal bft.BlockPool.new_bp_peer
    bft.BlockPool.Routine.keep_pick bft.BlockPool.incr_pending add_block bft.BlockPool.set_block
    bft.BlockPool.decr_pending peek_two_blocks bft.BlockPool.block_at
ran_peek = refl

asked-Reached : Reached (λ b. b) Sent (pos 3) asked
asked-Reached = play-Reached asking (new_block_pool (pos 3)) asked _ started ran

answered-Reached : Reached (λ b. b) Sent (pos 3) answered
answered-Reached =
    play-Reached answering asked answered (refl, _, (refl, _, _)) asked-Reached ran_answers

Reached-IsPool_example : IsPool (λ b. b) Sent answered
Reached-IsPool_example = Reached-IsPool (λ b. b) Sent (pos 3) answered named answered-Reached

received_total_example :
    (pool : BlockPool ℤ) × (pool_step (λ b. b) (received alice (pos 3)) asked ≡ some pool)
received_total_example =
    received_total (λ b. b) Sent (pos 3) alice (pos 3) asked named asked-Reached refl

peek_two_blocks_lem_example :
    (pos 3 ≡ answered.height)
    × (pos 4 ≡ succ_ℤ answered.height)
    × ((r : Requester ℤ) × (at_height answered.height answered.requesters ≡ some r)
        × Sent r.peer_id (pos 3))
    × ((r : Requester ℤ) × (at_height (succ_ℤ answered.height) answered.requesters ≡ some r)
        × Sent r.peer_id (pos 4))
peek_two_blocks_lem_example =
    peek_two_blocks_lem (λ b. b) Sent (pos 3) answered (pos 3) (pos 4) named answered-Reached
      ran_peek

pick_incr_available_peer_lem_example :
    IsPicked
      (pos 3)
      ((2 ∷ []) ∷ alice ∷ [])
      asked
      (pick_incr_available_peer (pos 3) ((2 ∷ []) ∷ alice ∷ []) asked)
pick_incr_available_peer_lem_example =
    pick_incr_available_peer_lem (pos 3) ((2 ∷ []) ∷ alice ∷ []) asked

abbrev or_sync : Sync context env → Option (Sync context env) → Sync context env
or_sync d none = d
or_sync d (some s) = s

abbrev ready : Sync context env
ready = record (new_sync context env (pos 3) chain) { pool = answered }

abbrev holding : Sync context env
holding = peek_sync context env ready

abbrev synced : Sync context env
synced = or_sync ready (settle_sync context env (9 ∷ []) holding)

ran_holding : holding.peeked ≡ some (pos 3, pos 4)
unfolding pool_step assign_peer at_height pick_peer bft.BlockPool.Routine.is_picking
    pick_incr_available_peer bft.BlockPool.visit_peer lookup make_requesters set_peer_range
    bft.BlockPool.make_next_requester put_height insert bytes_equal bft.BlockPool.new_bp_peer
    bft.BlockPool.Routine.keep_pick bft.BlockPool.incr_pending add_block bft.BlockPool.set_block
    bft.BlockPool.decr_pending peek_two_blocks bft.BlockPool.block_at settle_sync peek_sync
    verify_reply equals pop_request header new_part_set_from_header
ran_holding = refl

verified : verify_first context env (9 ∷ []) holding.state (pos 3) (pos 4) ≡ some none
unfolding pool_step assign_peer at_height pick_peer bft.BlockPool.Routine.is_picking
    pick_incr_available_peer bft.BlockPool.visit_peer lookup make_requesters set_peer_range
    bft.BlockPool.make_next_requester put_height insert bytes_equal bft.BlockPool.new_bp_peer
    bft.BlockPool.Routine.keep_pick bft.BlockPool.incr_pending add_block bft.BlockPool.set_block
    bft.BlockPool.decr_pending peek_two_blocks bft.BlockPool.block_at settle_sync peek_sync
    verify_reply equals pop_request header new_part_set_from_header verify_first
verified = refl

ran_settle : settle_sync context env (9 ∷ []) holding ≡ some synced
unfolding pool_step assign_peer at_height pick_peer bft.BlockPool.Routine.is_picking
    pick_incr_available_peer bft.BlockPool.visit_peer lookup make_requesters set_peer_range
    bft.BlockPool.make_next_requester put_height insert bytes_equal bft.BlockPool.new_bp_peer
    bft.BlockPool.Routine.keep_pick bft.BlockPool.incr_pending add_block bft.BlockPool.set_block
    bft.BlockPool.decr_pending peek_two_blocks bft.BlockPool.block_at settle_sync peek_sync
    verify_reply equals pop_request header new_part_set_from_header
ran_settle = refl

-- The run has applied one block.
ran_applied : (length synced.applied == 1) ≡ true
unfolding pool_step assign_peer at_height pick_peer bft.BlockPool.Routine.is_picking
    pick_incr_available_peer bft.BlockPool.visit_peer lookup make_requesters set_peer_range
    bft.BlockPool.make_next_requester put_height insert bytes_equal bft.BlockPool.new_bp_peer
    bft.BlockPool.Routine.keep_pick bft.BlockPool.incr_pending add_block bft.BlockPool.set_block
    bft.BlockPool.decr_pending peek_two_blocks bft.BlockPool.block_at settle_sync peek_sync
    verify_reply equals pop_request header new_part_set_from_header
ran_applied = refl

abbrev applied_state : ChainState context
applied_state = record holding.state {
  last_block_height = pos 3;
  last_block_id = first_id context env (pos 3);
}

ready-Synced : Synced context env Sent (9 ∷ []) (pos 3) chain ready
ready-Synced =
    play-Synced answering (record (new_sync context env (pos 3) chain) { pool = asked }) answered
      (refl, _, (refl, _, _))
      (play-Synced asking (new_sync context env (pos 3) chain) asked _ begun ran) ran_answers

synced-IsChain_example : IsChain context env (9 ∷ []) (pos 3) synced.applied
synced-IsChain_example =
    synced-IsChain context env (9 ∷ []) (pos 3) Sent chain synced named
      (settled holding synced (looked_at ready ready-Synced) ran_settle)

settle_sync_total_example :
    (s : Sync context env) × (settle_sync context env (9 ∷ []) holding ≡ some s)
    × (s.peeked ≡ none)
    × IsSettled context env (9 ∷ []) (pos 3) none holding s
settle_sync_total_example =
    settle_sync_total context env (9 ∷ []) (pos 3) Sent chain holding (pos 3) (pos 4) none named
      (looked_at ready ready-Synced) ran_holding verified (λ e. (applied_state, refl))

-- The count of pending requests, and the requesters without a block.
abbrev counts : Option (BlockPool ℤ) → Option (ℤ × ℕ)
counts none = none
counts (some p) = some (p.num_pending, count_unfilled p.requesters)

abbrev tops : Option (BlockPool ℤ) → Option (ℤ × Bool)
tops none = none
tops (some p) = some (p.max_peer_height, is_caught_up true p)

-- A request that is popped without its block stays in the count: a redo may come between the look at
-- the two blocks and the pop.
leaked :
    counts (
      play
        (asking ++ answering ++ removed alice ∷ redone (pos 3) ∷ popped ∷ [])
        (new_block_pool (pos 3)))
    ≡ some (pos 1, 0)
unfolding pool_step assign_peer at_height pick_peer bft.BlockPool.Routine.is_picking
    pick_incr_available_peer bft.BlockPool.visit_peer lookup make_requesters set_peer_range
    bft.BlockPool.make_next_requester put_height insert bytes_equal bft.BlockPool.new_bp_peer
    bft.BlockPool.Routine.keep_pick bft.BlockPool.incr_pending add_block bft.BlockPool.set_block
    bft.BlockPool.decr_pending peek_two_blocks bft.BlockPool.block_at pop_request
    bft.BlockPool.Routine.redo_at bft.BlockPool.remove_peer bft.BlockPool.redo_all
    bft.BlockPool.Routine.take_redo bft.BlockPool.delete_height bft.BlockPool.redo
    bft.BlockPool.Routine.reset_requester
leaked = refl

-- A peer that lowers its range and leaves takes no part in the highest height, which stays: with a
-- peer of height 2 the pool at height 3 is not caught up.
stale :
    tops (
      play
        (ranged alice (pos 1) (pos 9)
          ∷ ranged alice (pos 1) (pos 2)
          ∷ removed alice
          ∷ ranged (2 ∷ []) (pos 1) (pos 2)
          ∷ [])
        (new_block_pool (pos 3)))
    ≡ some (pos 9, false)
unfolding pool_step assign_peer at_height pick_peer bft.BlockPool.Routine.is_picking
    pick_incr_available_peer bft.BlockPool.visit_peer lookup make_requesters set_peer_range
    bft.BlockPool.make_next_requester put_height insert bytes_equal bft.BlockPool.new_bp_peer
    bft.BlockPool.Routine.keep_pick bft.BlockPool.incr_pending add_block bft.BlockPool.set_block
    bft.BlockPool.decr_pending peek_two_blocks bft.BlockPool.block_at bft.BlockPool.remove_peer
    bft.Base.Assoc.erase is_caught_up
stale = refl
