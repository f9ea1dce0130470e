-- ===== src/BlockPool.antt =====
-- blockchain/pool.go: BlockPool, the fast sync peers and the requests for blocks. Maps are
-- association lists; where the code ranges over a map and the order matters, the order is an
-- argument. Heights and counters are integers without a bound. A timer is nil, stopped or running;
-- what is sent on errorsCh and requestsCh is a list, newest first; a panic is `none`.
pub mod Heights
pub mod Invariant
pub mod Peers
pub mod Pick
pub mod Routine
pub mod Books
pub mod Steps
pub mod Receive
pub mod Look
pub mod Redo
pub mod Reach
pub mod Sync
pub mod Level
pub mod Verified
pub mod Progress
mod Examples
use bft.Base.{
  ℕ, ◌+◌, not, ◌==◌, Bool, true, false, ◌||◌, ◌&&◌, Option, none, some, List, [], ◌∷◌, ltb,
  if◌then◌else◌, length, Bytes, bytes_equal,
}
use bft.Base.Int.{ℤ, pos, eqb_ℤ, ltb_ℤ, succ_ℤ, pred_ℤ, plus, gap}
use bft.Base.Assoc.{lookup, insert, erase}
use bft.Base.Partial.{◌>>=◌}

abbrev pub max_total_requesters : ℕ
max_total_requesters = 600

abbrev pub max_pending_requests : ℕ
max_pending_requests = 600

abbrev pub max_pending_requests_per_peer : ℕ
max_pending_requests_per_peer = 20

abbrev pub max_diff : ℕ
max_diff = 100

pub data PoolError : Type 0 where
  unexpected_block invalid_peer no_answer : PoolError

-- bpPeer: the timer is nil until the first request, then it runs or not.
pub record BpPeer : Type 0 where
  pub did_timeout : Bool
  pub num_pending : ℤ
  pub height : ℤ
  pub base : ℤ
  pub timer : Option Bool

unfoldable pub new_bp_peer : ℤ → ℤ → BpPeer
new_bp_peer base height = record {
  did_timeout = false;
  num_pending = pos 0;
  height = height;
  base = base;
  timer = none;
}

-- resetTimeout arms the timer.
unfoldable pub incr_pending : BpPeer → BpPeer
incr_pending p = record p {
  num_pending = succ_ℤ p.num_pending;
  timer = if eqb_ℤ p.num_pending (pos 0) then some true else p.timer;
}

-- To stop a timer that is nil is a panic.
unfoldable pub decr_pending : BpPeer → Option BpPeer
decr_pending p =
    if eqb_ℤ (pred_ℤ p.num_pending) (pos 0)
    then elim p.timer [
      | none ↦ none
      | some _ ↦ some (record p { num_pending = pred_ℤ p.num_pending; timer = some false })
    ]
    else some (record p { num_pending = pred_ℤ p.num_pending; timer = some true })

-- Where requestRoutine stands: it looks for a peer, it has picked one that is not yet written to
-- the requester, or it waits.
pub data Phase : Type 0 where
  picking : Phase
  picked : Bytes → Phase
  waiting : Phase

-- bpRequester; an empty peer_id is none.
pub record Requester (Block : Type 0) : Type 0 where
  pub height : ℤ
  pub peer_id : Bytes
  pub block : Option Block
  pub redo_ch : Option Bytes
  pub phase : Phase

pub record BlockPool (Block : Type 0) : Type 0 where
  pub running : Bool
  pub requesters : List (ℤ × Requester Block)
  pub height : ℤ
  pub peers : List (Bytes × BpPeer)
  pub max_peer_height : ℤ
  pub num_pending : ℤ
  -- the requesters that were popped and whose routine may still run
  pub stopped : List (Requester Block)
  pub requests : List (ℤ × Bytes)
  pub errors : List (PoolError × Bytes)

-- What the range over the peers does with one of them: it goes on, or it takes the peer.
pub data Visit (Block : Type 0) : Type 0 where
  passed took : BlockPool Block → Visit Block

module _ {R : Type 0} where
  -- requesters[h]
  unfoldable pub at_height : ℤ → List (ℤ × R) → Option R
  at_height h [] = none
  at_height h ((k, r) ∷ rs) = if eqb_ℤ k h then some r else at_height h rs

  unfoldable pub put_height : ℤ → R → List (ℤ × R) → List (ℤ × R)
  put_height h r [] = (h, r) ∷ []
  put_height h r ((k, s) ∷ rs) = if eqb_ℤ k h then (h, r) ∷ rs else (k, s) ∷ put_height h r rs

  unfoldable pub delete_height : ℤ → List (ℤ × R) → List (ℤ × R)
  delete_height h [] = []
  delete_height h ((k, r) ∷ rs) = if eqb_ℤ k h then rs else (k, r) ∷ delete_height h rs

-- updateMaxPeerHeight
unfoldable pub highest : List (Bytes × BpPeer) → ℤ → ℤ
highest [] best = best
highest ((_, p) ∷ ps) best = highest ps (if ltb_ℤ best p.height then p.height else best)

module _ {Block : Type 0} where
  abbrev pub new_bp_requester : ℤ → Requester Block
  new_bp_requester height = record {
    height = height;
    peer_id = [];
    block = none;
    redo_ch = none;
    phase = picking;
  }

  -- The pool once it is started.
  abbrev pub new_block_pool : ℤ → BlockPool Block
  new_block_pool start = record {
    running = true;
    requesters = [];
    height = start;
    peers = [];
    max_peer_height = pos 0;
    num_pending = pos 0;
    stopped = [];
    requests = [];
    errors = [];
  }

  -- redo: a second request does nothing.
  unfoldable pub redo : Bytes → Requester Block → Requester Block
  redo id r = elim r.redo_ch [ none ↦ record r { redo_ch = some id } | some _ ↦ r ]

  unfoldable pub redo_all : Bytes → List (ℤ × Requester Block) → List (ℤ × Requester Block)
  redo_all id [] = []
  redo_all id ((k, r) ∷ rs) =
      (k, if bytes_equal r.peer_id id then redo id r else r) ∷ redo_all id rs

  unfoldable pub send_error : PoolError → Bytes → BlockPool Block → BlockPool Block
  send_error e id pool =
      if pool.running then record pool { errors = (e, id) ∷ pool.errors } else pool

  unfoldable pub remove_peer : Bytes → BlockPool Block → BlockPool Block
  remove_peer id pool = elim (lookup id pool.peers) [
    | none ↦ record pool { requesters = redo_all id pool.requesters }
    | some peer ↦ record pool {
      requesters = redo_all id pool.requesters;
      peers = erase id pool.peers;
      max_peer_height =
          if eqb_ℤ peer.height pool.max_peer_height
          then highest (erase id pool.peers) (pos 0)
          else pool.max_peer_height;
    }
  ]

  unfoldable pub set_peer_range : Bytes → ℤ → ℤ → BlockPool Block → BlockPool Block
  set_peer_range id base height pool = record pool {
    peers =
        insert id
          (elim (lookup id pool.peers) [
            | none ↦ new_bp_peer base height
            | some peer ↦ record peer { base = base; height = height }
          ])
          pool.peers;
    max_peer_height = if ltb_ℤ pool.max_peer_height height then height else pool.max_peer_height;
  }

  unfoldable pub visit_peer : ℤ → Bytes → BlockPool Block → Visit Block
  visit_peer height id pool = elim (lookup id pool.peers) [
    | none ↦ passed pool
    | some peer ↦
        if peer.did_timeout
        then passed (remove_peer id pool)
        else if not (ltb_ℤ peer.num_pending (pos max_pending_requests_per_peer))
        then passed pool
        else if ltb_ℤ height peer.base || ltb_ℤ peer.height height
        then passed pool
        else took (record pool { peers = insert id (incr_pending peer) pool.peers })
  ]

  -- pickIncrAvailablePeer, with the peers in the order of the range
  unfoldable pub pick_incr_available_peer :
      ℤ → List Bytes → BlockPool Block → BlockPool Block × Option Bytes
  pick_incr_available_peer height [] pool = (pool, none)
  pick_incr_available_peer height (id ∷ order) pool = elim (visit_peer height id pool) [
    | passed pool' ↦ pick_incr_available_peer height order pool'
    | took pool' ↦ (pool', some id)
  ]

  unfoldable pub remove_timedout_peers : List Bytes → BlockPool Block → BlockPool Block
  remove_timedout_peers [] pool = pool
  remove_timedout_peers (id ∷ order) pool =
      remove_timedout_peers order (elim (lookup id pool.peers) [
        | none ↦ pool
        | some peer ↦ if peer.did_timeout then remove_peer id pool else pool
      ])

  unfoldable pub make_next_requester : BlockPool Block → BlockPool Block
  make_next_requester pool =
      let next = plus (length pool.requesters) pool.height in
      if ltb_ℤ pool.max_peer_height next then pool else record pool {
        requesters = put_height next (new_bp_requester next) pool.requesters;
        num_pending = succ_ℤ pool.num_pending;
      }

  -- One pass of makeRequestersRoutine.
  unfoldable pub make_requesters : List Bytes → BlockPool Block → BlockPool Block
  make_requesters order pool =
      if not (ltb_ℤ pool.num_pending (pos max_pending_requests))
      then remove_timedout_peers order pool
      else if not (ltb (length pool.requesters) max_total_requesters)
      then remove_timedout_peers order pool
      else make_next_requester pool

  -- getBlock of the requester at a height, if there is one
  unfoldable pub block_at : ℤ → BlockPool Block → Option Block
  block_at h pool = at_height h pool.requesters >>= λ r. r.block

  unfoldable pub peek_two_blocks : BlockPool Block → Option Block × Option Block
  peek_two_blocks pool = (block_at pool.height pool, block_at (succ_ℤ pool.height) pool)

  -- With nothing to pop it panics.
  unfoldable pub pop_request : BlockPool Block → Option (BlockPool Block)
  pop_request pool = do
    r ← at_height pool.height pool.requesters
    some (record pool {
      requesters = delete_height pool.height pool.requesters;
      height = succ_ℤ pool.height;
      stopped = r ∷ pool.stopped;
    })

  -- With no requester at the height it panics.
  unfoldable pub redo_request : ℤ → BlockPool Block → Option (BlockPool Block × Bytes)
  redo_request h pool = do
    r ← at_height h pool.requesters
    some (if length r.peer_id == 0 then pool else remove_peer r.peer_id pool, r.peer_id)

  -- setBlock, where it takes the block
  unfoldable pub set_block : Block → Bytes → Requester Block → Option (Requester Block)
  set_block b id r = elim r.block [
    | some _ ↦ none
    | none ↦ if bytes_equal r.peer_id id then some (record r { block = some b }) else none
  ]

  unfoldable pub add_block :
      (Block → ℤ) → Bytes → Block → BlockPool Block → Option (BlockPool Block)
  add_block height_of id b pool = elim (at_height (height_of b) pool.requesters) [
    | none ↦ some (
        if ltb max_diff (gap pool.height (height_of b) + gap (height_of b) pool.height)
        then send_error unexpected_block id pool
        else pool)
    | some r ↦ elim (set_block b id r) [
      | none ↦ some (send_error invalid_peer id pool)
      | some r' ↦
          let filled = record pool {
            requesters = put_height (height_of b) r' pool.requesters;
            num_pending = pred_ℤ pool.num_pending;
          } in
          elim (lookup id pool.peers) [
            | none ↦ some filled
            | some peer ↦ decr_pending peer >>= λ peer'.
                some (record filled { peers = insert id peer' pool.peers })
          ]
    ]
  ]

  -- IsCaughtUp; the first argument tells whether 5 seconds have passed since the start.
  unfoldable pub is_caught_up : Bool → BlockPool Block → Bool
  is_caught_up waited pool =
      not (length pool.peers == 0)
      && ((ltb_ℤ (pos 0) pool.height || waited)
          && (eqb_ℤ pool.max_peer_height (pos 0)
              || not (ltb_ℤ pool.height (pred_ℤ pool.max_peer_height))))

  -- onTimeout of the peer's timer. The source holds the peer object; here it is found by its ID, so
  -- that a removed peer and a later one with the same ID are not told apart.
  unfoldable pub on_timeout : Bytes → BlockPool Block → BlockPool Block
  on_timeout id pool =
      let told = send_error no_answer id pool in
      elim (lookup id told.peers) [
        | none ↦ told
        | some peer ↦ record told {
          peers = insert id (record peer { did_timeout = true }) told.peers;
        }
      ]
