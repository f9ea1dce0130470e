-- ===== src/BlockPool/Level.antt =====
-- Only PopRequest moves the height of the pool or drops a requester.
use bft.Base.{
  ℕ, ◌≡◌, refl, Option, none, some, List, [], ◌∷◌, arith, Bytes, Option-cases, Bool-cases, inl, inr,
  ◌∙◌, ◌≤◌, length,
}
use bft.Base.Int.{ℤ, succ_ℤ, plus}
use bft.Base.Assoc.{lookup}
use bft.BlockPool.{
  BlockPool, Requester, PoolError, send_error, remove_peer, set_peer_range, remove_timedout_peers,
  make_next_requester, make_requesters, pick_incr_available_peer, on_timeout, add_block,
  redo_request, pop_request, at_height, new_bp_requester, waiting, set_block,
}
use bft.BlockPool.Heights.{length-put_height_grows, length-redo_all}
use bft.BlockPool.Pick.{visit_peer_lem}
use bft.BlockPool.Look.{Phase-cases}
use bft.BlockPool.Routine.{
  PoolEvent, made, ranged, removed, received, popped, refused, timed_out, looked, assigned, redone,
  redone_stopped, ended, pool_step, keep_pick, pick_peer, is_picking, assign_peer, redo_at,
  take_redo, redo_stopped,
}
use bft.BlockPool.Sync.{IsOther}

module _ {Block : Type 0} where
  -- The height stays, and no requester goes.
  abbrev pub Keeps : BlockPool Block → BlockPool Block → Type 0
  Keeps pool pool' =
      (pool'.height ≡ pool.height) × (length pool.requesters ≤ length pool'.requesters)

  pub Keeps-trans : (p q r : BlockPool Block) → Keeps p q → Keeps q r → Keeps p r
  Keeps-trans p q r (same, more) (same', more') = (same' ∙ same, omega (arith, more, more'))

  send_error-Keeps :
      (e : PoolError) (id : Bytes) (pool : BlockPool Block) → Keeps pool (send_error e id pool)
  unfolding send_error
  send_error-Keeps e id pool = ground arith

  remove_peer-Keeps : (id : Bytes) (pool : BlockPool Block) → Keeps pool (remove_peer id pool)
  unfolding remove_peer
  remove_peer-Keeps id pool =
      let same = length-redo_all id pool.requesters in
      elim (Option-cases (lookup id pool.peers)) [
        | inl missing ↦ rw (missing, remove_peer) (refl, omega (arith, same))
        | inr (peer, found) ↦ rw (found, remove_peer) (refl, omega (arith, same))
      ]

  remove_timedout_peers-Keeps :
      (order : List Bytes) (pool : BlockPool Block) → Keeps pool (remove_timedout_peers order pool)
  unfolding remove_timedout_peers
  remove_timedout_peers-Keeps [] pool = (refl, omega arith)
  remove_timedout_peers-Keeps (id ∷ order) pool = elim (Option-cases (lookup id pool.peers)) [
    | inl missing ↦ rw (missing, remove_timedout_peers) (remove_timedout_peers-Keeps order pool)
    | inr (peer, found) ↦
        rw (found, remove_timedout_peers)
          (elim (Bool-cases peer.did_timeout) [
            | inl late ↦ rw (late) (
                Keeps-trans pool (remove_peer id pool)
                  (remove_timedout_peers order (remove_peer id pool)) (remove_peer-Keeps id pool)
                  (remove_timedout_peers-Keeps order (remove_peer id pool)))
            | inr on_time ↦ rw (on_time) (remove_timedout_peers-Keeps order pool)
          ])
  ]

  make_requesters-Keeps :
      (order : List Bytes) (pool : BlockPool Block) → Keeps pool (make_requesters order pool)
  unfolding make_requesters make_next_requester
  make_requesters-Keeps order pool =
      let next = plus (length pool.requesters) pool.height in
      ground (
        arith,
        remove_timedout_peers-Keeps order pool,
        length-put_height_grows next (new_bp_requester next) pool.requesters,
      )

  on_timeout-Keeps : (id : Bytes) (pool : BlockPool Block) → Keeps pool (on_timeout id pool)
  unfolding on_timeout
  on_timeout-Keeps id pool = ground (arith, send_error-Keeps PoolError.no_answer id pool)

  set_peer_range-Keeps :
      (id : Bytes) (base height : ℤ) (pool : BlockPool Block)
      → Keeps pool (set_peer_range id base height pool)
  unfolding set_peer_range
  set_peer_range-Keeps id base height pool = (refl, omega arith)

  pick_incr_available_peer-Keeps :
      (h : ℤ) (order : List Bytes) (pool : BlockPool Block)
      → Keeps pool (pick_incr_available_peer h order pool).0
  unfolding pick_incr_available_peer
  pick_incr_available_peer-Keeps h [] pool = (refl, omega arith)
  pick_incr_available_peer-Keeps h (id ∷ order) pool = elim (visit_peer_lem h id pool) [
    | inl (same, _) ↦
        rw (same, pick_incr_available_peer) (pick_incr_available_peer-Keeps h order pool)
    | inr (inl (same, _)) ↦
        rw (same, pick_incr_available_peer)
          (Keeps-trans pool (remove_peer id pool)
            (pick_incr_available_peer h order (remove_peer id pool)).0 (remove_peer-Keeps id pool)
            (pick_incr_available_peer-Keeps h order (remove_peer id pool)))
    | inr (inr (peer, same, found, _)) ↦ rw (same, pick_incr_available_peer) (refl, omega arith)
  ]

  keep_pick-Keeps :
      (h : ℤ) (id : Option Bytes) (pool : BlockPool Block) → Keeps pool (keep_pick h id pool)
  unfolding keep_pick
  keep_pick-Keeps h none pool = (refl, omega arith)
  keep_pick-Keeps h (some id) pool = elim (Option-cases (at_height h pool.requesters)) [
    | inl missing ↦ rw (missing, keep_pick) (refl, omega arith)
    | inr (r, found) ↦ rw (found, keep_pick) (refl, length-put_height_grows h _ pool.requesters)
  ]

  pick_peer-Keeps :
      (h : ℤ) (order : List Bytes) (pool : BlockPool Block) → Keeps pool (pick_peer h order pool)
  unfolding pick_peer
  pick_peer-Keeps h order pool =
      let (pool', id) = pick_incr_available_peer h order pool in
      elim (Bool-cases (is_picking (at_height h pool'.requesters))) [
        | inr elsewhere ↦ rw (elsewhere, pick_peer) (refl, omega arith)
        | inl looking ↦
            rw (looking, pick_peer)
              (Keeps-trans pool pool' (keep_pick h id pool')
                (pick_incr_available_peer-Keeps h order pool) (keep_pick-Keeps h id pool'))
      ]

  assign_peer-Keeps : (h : ℤ) (pool : BlockPool Block) → Keeps pool (assign_peer h pool)
  unfolding assign_peer
  assign_peer-Keeps h pool = elim (Option-cases (at_height h pool.requesters)) [
    | inl missing ↦ rw (missing, assign_peer) (refl, omega arith)
    | inr (r, found) ↦
        let more = λ (r' : Requester Block). length-put_height_grows h r' pool.requesters in
        elim (Phase-cases r.phase) [
          | inl e ↦ ground (arith, found, e)
          | inr (inl (id, e)) ↦
              ground (arith, found, e, more (record r { peer_id = id; phase = waiting }))
          | inr (inr e) ↦ ground (arith, found, e)
        ]
  ]

  redo_at-Keeps : (h : ℤ) (pool : BlockPool Block) → Keeps pool (redo_at h pool)
  unfolding redo_at
  redo_at-Keeps h pool = elim (Option-cases (at_height h pool.requesters)) [
    | inl missing ↦ rw (missing, redo_at) (refl, omega arith)
    | inr (r, found) ↦
        rw (found, redo_at)
          (refl, length-put_height_grows h (take_redo r pool.num_pending).0 pool.requesters)
  ]

  redo_stopped-Keeps : (i : ℕ) (pool : BlockPool Block) → Keeps pool (redo_stopped i pool)
  unfolding redo_stopped
  redo_stopped-Keeps i pool = ground arith

  add_block-Keeps :
      (height_of : Block → ℤ) (id : Bytes) (b : Block) (pool pool' : BlockPool Block)
      → add_block height_of id b pool ≡ some pool'
      → Keeps pool pool'
  unfolding add_block
  add_block-Keeps height_of id b pool pool' e =
      elim (Option-cases (at_height (height_of b) pool.requesters)) [
        | inl missing ↦
            ground (arith, missing, e, send_error-Keeps PoolError.unexpected_block id pool)
        | inr (r, found) ↦ elim (Option-cases (set_block b id r)) [
          | inl no' ↦ ground (arith, found, no', e, send_error-Keeps PoolError.invalid_peer id pool)
          | inr (r', got) ↦
              ground
                (arith, found, got, e, length-put_height_grows (height_of b) r' pool.requesters)
        ]
      ]

  pub pool_step-Keeps :
      (height_of : Block → ℤ) (e : PoolEvent Block) (pool pool' : BlockPool Block)
      → IsOther e
      → pool_step height_of e pool ≡ some pool'
      → Keeps pool pool'
  unfolding pool_step
  pool_step-Keeps height_of (made order) pool pool' o e =
      ground (arith, e, make_requesters-Keeps order pool)
  pool_step-Keeps height_of (ranged id base height) pool pool' o e =
      ground (arith, e, set_peer_range-Keeps id base height pool)
  pool_step-Keeps height_of (removed id) pool pool' o e =
      ground (arith, e, remove_peer-Keeps id pool)
  pool_step-Keeps height_of (received id b) pool pool' o e =
      add_block-Keeps height_of id b pool pool' e
  pool_step-Keeps height_of popped pool pool' o e = absurd o
  pool_step-Keeps height_of (refused h) pool pool' o e = absurd o
  pool_step-Keeps height_of (timed_out id) pool pool' o e =
      ground (arith, e, on_timeout-Keeps id pool)
  pool_step-Keeps height_of (looked h order) pool pool' o e =
      ground (arith, e, pick_peer-Keeps h order pool)
  pool_step-Keeps height_of (assigned h) pool pool' o e =
      ground (arith, e, assign_peer-Keeps h pool)
  pool_step-Keeps height_of (redone h) pool pool' o e = ground (arith, e, redo_at-Keeps h pool)
  pool_step-Keeps height_of (redone_stopped i) pool pool' o e =
      ground (arith, e, redo_stopped-Keeps i pool)
  pool_step-Keeps height_of ended pool pool' o e = ground (arith, e)

  pub redo_request-Keeps :
      (h : ℤ) (pool pool' : BlockPool Block) (id : Bytes)
      → redo_request h pool ≡ some (pool', id)
      → Keeps pool pool'
  unfolding redo_request
  redo_request-Keeps h pool pool' id e = elim (Option-cases (at_height h pool.requesters)) [
    | inl missing ↦ absurd (ground (arith, missing, e))
    | inr (r, found) ↦ ground (arith, found, e, remove_peer-Keeps r.peer_id pool)
  ]

  pub pop_request-height :
      (pool pool' : BlockPool Block)
      → pop_request pool ≡ some pool'
      → pool'.height ≡ succ_ℤ pool.height
  unfolding pop_request
  pop_request-height pool pool' e = elim (Option-cases (at_height pool.height pool.requesters)) [
    | inl missing ↦ absurd (ground (arith, missing, e))
    | inr (r, found) ↦ ground (arith, found, e)
  ]
