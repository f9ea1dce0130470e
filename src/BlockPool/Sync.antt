-- ===== src/BlockPool/Sync.antt =====
-- blockchain/reactor.go: the part of poolRoutine that verifies a block by the reply in the next one
-- and applies it, over the steps of the pool. The calls of SaveBlock and ApplyBlock and the peers that
-- the switch is told to stop are lists, newest first. Tickers and the switch to the consensus are
-- left out; a panic is `none`.
use bft.Base.{
  ℕ, suc, Bool, ◌&&◌, not, Option, none, some, List, [], ◌∷◌, if◌then◌else◌, Bytes, bytes_equal,
  ◌≡◌,
}
use bft.Base.Int.{ℤ}
use bft.Base.Partial.{◌>>=◌}
use bft.BlockId.{BlockId}
use bft.PartSet.{PartSet, header}
use bft.VoteSet.{Context}
use bft.Reply.{Reply, VerifyError, verify_reply}
use bft.Consensus.State.{ChainState}
use bft.BlockPool.{BlockPool, new_block_pool, peek_two_blocks, pop_request, redo_request}
use bft.BlockPool.Routine.{PoolEvent, popped, refused, pool_step, IsAllowed}

-- Blocks (types/block.go), whose LastReply is there once they are decoded, the block executor
-- (state/execution.go), and the peers of the switch.
pub record SyncEnv (C : Context) : Type 1 where
  pub Block : Type 0
  pub block_height : Block → ℤ
  pub block_hash : Block → Bytes
  pub last_reply : Block → Reply
  pub make_part_set : Block → PartSet
  pub apply_block : ChainState C → BlockId → Block → Option (ChainState C)
  pub is_connected : Bytes → Bool

-- The steps of the pool that are not taken by poolRoutine.
abbrev pub IsOther : {Block : Type 0} → PoolEvent Block → Type 0
IsOther popped = ⊥
IsOther (refused h) = ⊥
IsOther e = Unit {0}

module _ (C : Context) (E : SyncEnv C) where
  open E use {Block, block_height, block_hash, last_reply, make_part_set, apply_block, is_connected}

  -- What one call of ApplyBlock, and of SaveBlock before it, is given.
  pub record Applied : Type 0 where
    pub state : ChainState C
    pub block_id : BlockId
    pub block : Block
    pub parts : PartSet
    pub reply : Reply

  pub record Sync : Type 0 where
    pub pool : BlockPool Block
    pub state : ChainState C
    -- the blocks that the routine holds
    pub peeked : Option (Block × Block)
    pub applied : List Applied
    pub stopped_peers : List Bytes
    pub blocks_synced : ℕ

  -- The peers that a refused pair of blocks came from are stopped, each once.
  unfoldable pub stop_peers : Bytes → Bytes → List Bytes → List Bytes
  stop_peers id id2 out =
      let first = if is_connected id then id ∷ out else out in
      if is_connected id2 && not (bytes_equal id2 id) then id2 ∷ first else first

  abbrev pub first_id : Block → BlockId
  first_id b = record { hash = block_hash b; parts = header (some (make_part_set b)) }

  -- VerifyReply of the current validators; without a validator set it panics.
  unfoldable pub verify_first :
      Bytes → ChainState C → Block → Block → Option (Option (VerifyError C))
  verify_first chain_id state first second = state.validators >>= λ vals.
      verify_reply C vals.validators chain_id (first_id first) (block_height first)
        (last_reply second)

  unfoldable pub redo_both : Block → Block → Sync → Option Sync
  redo_both first second s = do
    (pool, id) ← redo_request (block_height first) s.pool
    (pool', id2) ← redo_request (block_height second) pool
    some (record s { pool = pool'; stopped_peers = stop_peers id id2 s.stopped_peers })

  unfoldable pub apply_first : Block → Block → Sync → Option Sync
  apply_first first second s = do
    pool ← pop_request s.pool
    state ← apply_block s.state (first_id first) first
    some (record s {
      pool = pool;
      state = state;
      applied =
          record {
            state = s.state;
            block_id = first_id first;
            block = first;
            parts = make_part_set first;
            reply = last_reply second;
          }
          ∷ s.applied;
      blocks_synced = suc s.blocks_synced;
    })

  -- The case of didProcessCh: two blocks are seen, which is needed,
  unfoldable pub peek_sync : Sync → Sync
  peek_sync s =
      let (one, two) = peek_two_blocks s.pool in
      elim one [
        | none ↦ s
        | some first ↦ elim two [
          | none ↦ s
          | some second ↦ record s { peeked = some (first, second) }
        ]
      ]

  -- and, after any steps of the pool, they are refused, or the first is applied.
  unfoldable pub settle_sync : Bytes → Sync → Option Sync
  unfolding verify_first redo_both apply_first
  settle_sync chain_id s = elim s.peeked [
    | none ↦ some s
    | some (first, second) ↦ verify_first chain_id s.state first second >>= λ e. elim e [
      | some _ ↦ redo_both first second (record s { peeked = none })
      | none ↦ apply_first first second (record s { peeked = none })
    ]
  ]

  abbrev pub new_sync : ℤ → ChainState C → Sync
  new_sync start state = record {
    pool = new_block_pool start;
    state = state;
    peeked = none;
    applied = [];
    stopped_peers = [];
    blocks_synced = 0;
  }

  -- What runs without a panic reach.
  pub data Synced (Sent : Bytes → Block → Type 0) (chain_id : Bytes) (start : ℤ)
      (state : ChainState C) : Sync → Type 0 where
    begun : Synced Sent chain_id start state (new_sync start state)
    pooled :
        (e : PoolEvent Block) (s : Sync) (pool : BlockPool Block)
        → Synced Sent chain_id start state s
        → IsAllowed Sent e
        → IsOther e
        → pool_step block_height e s.pool ≡ some pool
        → Synced Sent chain_id start state (record s { pool = pool })
    looked_at :
        (s : Sync)
        → Synced Sent chain_id start state s
        → Synced Sent chain_id start state (peek_sync s)
    settled :
        (s s' : Sync)
        → Synced Sent chain_id start state s
        → settle_sync chain_id s ≡ some s'
        → Synced Sent chain_id start state s'
