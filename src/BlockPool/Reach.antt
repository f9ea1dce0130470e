-- ===== src/BlockPool/Reach.antt =====
-- Every run of the pool keeps its invariant.
use bft.Base.{
  ◌≤◌, length, ◌≡◌, refl, sym, ap, subst, some, [], arith, Bytes, Option-cases, inl, inr, ◌∙◌,
}
use bft.Base.Int.{ℤ, succ_ℤ}
use bft.Base.Assoc.{lookup}
use bft.BlockPool.{
  BlockPool, Requester, new_block_pool, redo_request, peek_two_blocks, block_at, at_height,
}
use bft.BlockPool.Routine.{
  PoolEvent, made, ranged, removed, received, popped, refused, timed_out, looked, assigned, redone,
  redone_stopped, ended, pool_step, IsAllowed, Reached, started, stepped,
}
use bft.BlockPool.Invariant.{IsSound, IsPool}
use bft.BlockPool.Heights.{at_height-Sound, two-at_height}
use bft.BlockPool.Peers.{remove_peer-IsPool, set_peer_range-IsPool, on_timeout-IsPool}
use bft.BlockPool.Steps.{make_requesters-IsPool, pop_request-IsPool, redo_request-IsPool}
use bft.BlockPool.Receive.{add_block_total}
use bft.BlockPool.Look.{pick_peer-IsPool, assign_peer-IsPool}
use bft.BlockPool.Redo.{redo_at-IsPool, redo_stopped-IsPool}

module _ {Block : Type 0} (height_of : Block → ℤ) (Sent : Bytes → Block → Type 0) where
  pub new_block_pool-IsPool : (start : ℤ) → IsPool height_of Sent (new_block_pool start)
  new_block_pool-IsPool start = record {
    run = _;
    counted = (0, refl, omega arith);
    bounded = omega arith;
    peers = λ id p e. absurd (unfold lookup in cc e);
  }

  held :
      {pool pool' : BlockPool Block}
      → IsPool height_of Sent pool
      → some pool ≡ some pool'
      → IsPool height_of Sent pool'
  held {pool} {pool'} v e =
      let one : pool ≡ pool' = ground (arith, e) in subst (IsPool height_of Sent) one v

  pub pool_step-IsPool :
      (e : PoolEvent Block) (pool pool' : BlockPool Block)
      → ((c : Block) → ¬ Sent [] c)
      → IsAllowed Sent e
      → IsPool height_of Sent pool
      → pool_step height_of e pool ≡ some pool'
      → IsPool height_of Sent pool'
  unfolding pool_step
  pool_step-IsPool (made order) pool pool' named a v e =
      held (make_requesters-IsPool height_of Sent order pool v) e
  pool_step-IsPool (ranged id base height) pool pool' named a v e =
      held (set_peer_range-IsPool height_of Sent id base height pool v) e
  pool_step-IsPool (removed id) pool pool' named a v e =
      held (remove_peer-IsPool height_of Sent id pool v) e
  pool_step-IsPool (received id b) pool pool' named sent v e =
      let (next, done, kept) = add_block_total height_of Sent id b pool named sent v in
      held kept (sym done ∙ e)
  pool_step-IsPool popped pool pool' named a v e = pop_request-IsPool height_of Sent pool pool' v e
  pool_step-IsPool (refused h) pool pool' named a v e = elim (Option-cases (redo_request h pool)) [
    | inl panic ↦ absurd (ground (arith, panic, e))
    | inr ((next, id), done) ↦
        held (redo_request-IsPool height_of Sent h pool next id v done) (ground (arith, done, e))
  ]
  pool_step-IsPool (timed_out id) pool pool' named a v e =
      held (on_timeout-IsPool height_of Sent id pool v) e
  pool_step-IsPool (looked h order) pool pool' named a v e =
      held (pick_peer-IsPool height_of Sent h order pool v) e
  pool_step-IsPool (assigned h) pool pool' named a v e =
      held (assign_peer-IsPool height_of Sent h pool v) e
  pool_step-IsPool (redone h) pool pool' named a v e =
      held (redo_at-IsPool height_of Sent h pool v) e
  pool_step-IsPool (redone_stopped i) pool pool' named a v e =
      held (redo_stopped-IsPool height_of Sent i pool v) e
  pool_step-IsPool ended pool pool' named a v e =
      held (record { run = v.run; counted = v.counted; bounded = v.bounded; peers = v.peers }) e

  block_at_lem :
      (h : ℤ) (pool : BlockPool Block) (b : Block)
      → IsPool height_of Sent pool
      → block_at h pool ≡ some b
      → (height_of b ≡ h)
        × ((r : Requester Block) × (at_height h pool.requesters ≡ some r) × Sent r.peer_id b)
  unfolding block_at
  block_at_lem h pool b v e = elim (Option-cases (at_height h pool.requesters)) [
    | inl missing ↦ absurd (ground (arith, missing, e))
    | inr (r, found) ↦
        let sound =
          at_height-Sound (IsSound height_of Sent) pool.height h r pool.requesters v.run found in
        let (sent, level) = sound.filled b (ground (arith, found, e)) in (level, (r, found, sent))
  ]

  pub peek_lem :
      (pool : BlockPool Block) (first second : Block)
      → IsPool height_of Sent pool
      → (peek_two_blocks pool).0 ≡ some first
      → (peek_two_blocks pool).1 ≡ some second
      → (height_of first ≡ pool.height)
        × (height_of second ≡ succ_ℤ pool.height)
        × (2 ≤ length pool.requesters)
  unfolding peek_two_blocks
  peek_lem pool first second v one two =
      let (level, (r, here, _)) = block_at_lem pool.height pool first v one in
      let (level', (t, there, _)) = block_at_lem (succ_ℤ pool.height) pool second v two in
      (
        level,
        level',
        two-at_height (IsSound height_of Sent) pool.height r t pool.requesters v.run here there,
      )

  -- In every pool that a run reaches without a panic, where no peer has an empty ID: the
  -- requesters stand at consecutive heights from the pool's height on and are at most 600, each
  -- block has its requester's height and was sent by the peer that the requester names, the count
  -- of pending requests is at least that of requesters without a block, no peer is higher than the
  -- highest height, and a peer without a timer has no request pending.
  pub Reached-IsPool :
      (start : ℤ) (pool : BlockPool Block)
      → ((c : Block) → ¬ Sent [] c)
      → Reached height_of Sent start pool
      → IsPool height_of Sent pool
  Reached-IsPool start pool named started = new_block_pool-IsPool start
  Reached-IsPool start pool named (stepped e before pool' r a same) =
      pool_step-IsPool e before pool' named a (Reached-IsPool start before named r) same

  -- In every pool that a run reaches without a panic, where no peer has an empty ID, a block from
  -- any peer is handled without a panic: the timer that AddBlock stops is never nil.
  pub received_total :
      (start : ℤ) (id : Bytes) (b : Block) (pool : BlockPool Block)
      → ((c : Block) → ¬ Sent [] c)
      → Reached height_of Sent start pool
      → Sent id b
      → (pool' : BlockPool Block) × (pool_step height_of (received id b) pool ≡ some pool')
  unfolding pool_step
  received_total start id b pool named r sent =
      let (pool', done, _) =
        add_block_total height_of Sent id b pool named sent (Reached-IsPool start pool named r) in
      (pool', done)

  -- In every pool that a run reaches without a panic, where no peer has an empty ID: two blocks
  -- that PeekTwoBlocks shows have the pool's height and the next one, and were sent by the peers
  -- that RedoRequest would remove for them.
  pub peek_two_blocks_lem :
      (start : ℤ) (pool : BlockPool Block) (first second : Block)
      → ((c : Block) → ¬ Sent [] c)
      → Reached height_of Sent start pool
      → peek_two_blocks pool ≡ (some first, some second)
      → (height_of first ≡ pool.height)
        × (height_of second ≡ succ_ℤ pool.height)
        × ((r : Requester Block) × (at_height pool.height pool.requesters ≡ some r)
            × Sent r.peer_id first)
        × ((r : Requester Block) × (at_height (succ_ℤ pool.height) pool.requesters ≡ some r)
            × Sent r.peer_id second)
  unfolding peek_two_blocks
  peek_two_blocks_lem start pool first second named reached e =
      let v = Reached-IsPool start pool named reached in
      let (level, one) = block_at_lem pool.height pool first v (ap (λ p. p.0) e) in
      let (level', two) = block_at_lem (succ_ℤ pool.height) pool second v (ap (λ p. p.1) e) in
      (level, level', one, two)
