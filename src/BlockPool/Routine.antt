-- ===== src/BlockPool/Routine.antt =====
-- blockchain/pool.go: requestRoutine of the requesters, and the runs of the pool as sequences of the
-- steps of its goroutines.
use bft.Base.{
  ℕ, Bool, true, false, Option, none, some, List, [], ◌∷◌, if◌then◌else◌, Bytes, bytes_equal, ◌≡◌,
  get_elem?, set,
}
use bft.Base.Int.{ℤ, succ_ℤ}
use bft.Base.Partial.{◌>>=◌}
use bft.BlockPool.{
  BlockPool, Requester, picking, picked, waiting, at_height, put_height, remove_peer,
  set_peer_range, pick_incr_available_peer, make_requesters, pop_request, redo_request, add_block,
  on_timeout, new_block_pool,
}

module _ {Block : Type 0} where
  -- The routine at a height looks for a peer; one that was popped may still do so.
  unfoldable pub is_picking : Option (Requester Block) → Bool
  is_picking none = true
  is_picking (some r) = elim r.phase [ picking ↦ true | picked _ ↦ false | waiting ↦ false ]

  -- What was picked is kept in the routine of the requester, if that was not popped.
  unfoldable pub keep_pick : ℤ → Option Bytes → BlockPool Block → BlockPool Block
  keep_pick h none pool = pool
  keep_pick h (some id) pool = elim (at_height h pool.requesters) [
    | none ↦ pool
    | some r ↦ record pool {
      requesters = put_height h (record r { phase = picked id }) pool.requesters;
    }
  ]

  -- The loop that looks for a peer, once; a routine that does not look has no such step.
  unfoldable pub pick_peer : ℤ → List Bytes → BlockPool Block → BlockPool Block
  pick_peer h order pool =
      let (pool', id) = pick_incr_available_peer h order pool in
      if is_picking (at_height h pool'.requesters) then keep_pick h id pool' else pool

  -- The peer is written to the requester, and the request is sent.
  unfoldable pub assign_peer : ℤ → BlockPool Block → BlockPool Block
  assign_peer h pool = elim (at_height h pool.requesters) [
    | none ↦ pool
    | some r ↦ elim r.phase [
      | picking ↦ pool
      | waiting ↦ pool
      | picked id ↦ record pool {
        requesters = put_height h (record r { peer_id = id; phase = waiting }) pool.requesters;
        requests = if pool.running then (h, id) ∷ pool.requests else pool.requests;
      }
    ]
  ]

  -- reset, on the requester and the count of the pool
  unfoldable pub reset_requester : Requester Block → ℤ → Requester Block × ℤ
  reset_requester r pending = (
    record r { peer_id = []; block = none; redo_ch = none; phase = picking },
    elim r.block [ none ↦ pending | some _ ↦ succ_ℤ pending ],
  )

  -- A redo is received; it counts where it names the requester's own peer. The receive and the reset
  -- are one step.
  unfoldable pub take_redo : Requester Block → ℤ → Requester Block × ℤ
  take_redo r pending = elim r.phase [
    | picking ↦ (r, pending)
    | picked _ ↦ (r, pending)
    | waiting ↦ elim r.redo_ch [
      | none ↦ (r, pending)
      | some id ↦
          if bytes_equal id r.peer_id
          then reset_requester r pending
          else (record r { redo_ch = none }, pending)
    ]
  ]

  unfoldable pub redo_at : ℤ → BlockPool Block → BlockPool Block
  redo_at h pool = elim (at_height h pool.requesters) [
    | none ↦ pool
    | some r ↦
        let (r', pending) = take_redo r pool.num_pending in
        record pool { requesters = put_height h r' pool.requesters; num_pending = pending }
  ]

  -- The same of a requester that was popped, whose routine has not yet seen that it is stopped.
  unfoldable pub redo_stopped : ℕ → BlockPool Block → BlockPool Block
  redo_stopped i pool = elim (get_elem? pool.stopped i) [
    | none ↦ pool
    | some r ↦
        let (r', pending) = take_redo r pool.num_pending in
        record pool { stopped = set pool.stopped i r'; num_pending = pending }
  ]

pub data PoolEvent (Block : Type 0) : Type 0 where
  made : List Bytes → PoolEvent Block
  ranged : Bytes → ℤ → ℤ → PoolEvent Block
  removed : Bytes → PoolEvent Block
  received : Bytes → Block → PoolEvent Block
  popped : PoolEvent Block
  refused : ℤ → PoolEvent Block
  timed_out : Bytes → PoolEvent Block
  looked : ℤ → List Bytes → PoolEvent Block
  assigned : ℤ → PoolEvent Block
  redone : ℤ → PoolEvent Block
  redone_stopped : ℕ → PoolEvent Block
  ended : PoolEvent Block

-- Blocks come from peers as `Sent` allows.
abbrev pub IsAllowed : {Block : Type 0} → (Bytes → Block → Type 0) → PoolEvent Block → Type 0
IsAllowed Sent (received id b) = Sent id b
IsAllowed Sent e = Unit {0}

module _ {Block : Type 0} (height_of : Block → ℤ) where
  -- One step of one of the goroutines, each under the mutex of the pool.
  unfoldable pub pool_step : PoolEvent Block → BlockPool Block → Option (BlockPool Block)
  pool_step (made order) pool = some (make_requesters order pool)
  pool_step (ranged id base height) pool = some (set_peer_range id base height pool)
  pool_step (removed id) pool = some (remove_peer id pool)
  pool_step (received id b) pool = add_block height_of id b pool
  pool_step popped pool = pop_request pool
  pool_step (refused h) pool = redo_request h pool >>= λ r. some r.0
  pool_step (timed_out id) pool = some (on_timeout id pool)
  pool_step (looked h order) pool = some (pick_peer h order pool)
  pool_step (assigned h) pool = some (assign_peer h pool)
  pool_step (redone h) pool = some (redo_at h pool)
  pool_step (redone_stopped i) pool = some (redo_stopped i pool)
  pool_step ended pool = some (record pool { running = false })

  -- The pools that runs without a panic reach.
  pub data Reached (Sent : Bytes → Block → Type 0) (start : ℤ) : BlockPool Block → Type 0 where
    started : Reached Sent start (new_block_pool start)
    stepped :
        (e : PoolEvent Block) (pool pool' : BlockPool Block)
        → Reached Sent start pool
        → IsAllowed Sent e
        → pool_step e pool ≡ some pool'
        → Reached Sent start pool'
