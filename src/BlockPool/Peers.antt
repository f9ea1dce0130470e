-- ===== src/BlockPool/Peers.antt =====
-- The operations of the pool on peers keep its invariant.
use bft.Base.{
  ◌≡◌, sym, subst, true, false, some, List, [], ◌∷◌, arith, if◌then◌else◌, Bytes, Bool-cases,
  Option-cases, inl, inr,
}
use bft.Base.Int.{ℤ, pos, eqb_ℤ, ltb_ℤ}
use bft.Base.Assoc.{lookup, insert, erase}
use bft.BlockPool.{
  Requester, BlockPool, BpPeer, PoolError, incr_pending, redo, redo_all, send_error, remove_peer,
  set_peer_range, pick_incr_available_peer, remove_timedout_peers, on_timeout,
}
use bft.BlockPool.Heights.{redo_all-IsRun, count_unfilled-redo_all, length-redo_all}
use bft.BlockPool.Pick.{visit_peer_lem}
use bft.BlockPool.Invariant.{
  IsPeer, IsSound, IsPool, insert-peers, erase-peers, highest_lem, new_bp_peer-IsPeer,
  incr_pending-IsPeer,
}

module _ {Block : Type 0} (height_of : Block → ℤ) (Sent : Bytes → Block → Type 0) where
  redo-IsSound :
      (id : Bytes) (h : ℤ) (r : Requester Block)
      → IsSound height_of Sent h r
      → IsSound height_of Sent h (redo id r)
  unfolding redo
  redo-IsSound id h r s = elim (Option-cases r.redo_ch) [
    | inl empty ↦ rw (empty, redo) (record { own = s.own; filled = s.filled; idle = s.idle })
    | inr (i, full) ↦ rw (full, redo) s
  ]

  redo_all-IsPool :
      (id : Bytes) (pool : BlockPool Block)
      → IsPool height_of Sent pool
      → IsPool height_of Sent (record pool { requesters = redo_all id pool.requesters })
  redo_all-IsPool id pool v = record {
    run =
        redo_all-IsRun (IsSound height_of Sent) id (redo-IsSound id) pool.height pool.requesters
          v.run;
    counted =
        let (n, same, cover) = v.counted in
        (n, same, omega (arith, count_unfilled-redo_all id pool.requesters, cover));
    bounded = omega (arith, length-redo_all id pool.requesters, v.bounded);
    peers = v.peers;
  }

  pub send_error-IsPool :
      (e : PoolError) (id : Bytes) (pool : BlockPool Block)
      → IsPool height_of Sent pool
      → IsPool height_of Sent (send_error e id pool)
  unfolding send_error
  send_error-IsPool e id pool v = elim (Bool-cases pool.running) [
    | inl on ↦
        let same : send_error e id pool ≡ record pool { errors = (e, id) ∷ pool.errors } =
          ground (arith, on) in
        subst (IsPool height_of Sent) (sym same)
          (record { run = v.run; counted = v.counted; bounded = v.bounded; peers = v.peers })
    | inr off ↦
        let same : send_error e id pool ≡ pool = ground (arith, off) in
        subst (IsPool height_of Sent) (sym same) v
  ]

  pub remove_peer-IsPool :
      (id : Bytes) (pool : BlockPool Block)
      → IsPool height_of Sent pool
      → IsPool height_of Sent (remove_peer id pool)
  unfolding remove_peer
  remove_peer-IsPool id pool v = elim (Option-cases (lookup id pool.peers)) [
    | inl missing ↦ rw (missing, remove_peer) (redo_all-IsPool id pool v)
    | inr (peer, found) ↦
        let redone = redo_all-IsPool id pool v in
        let left = erase id pool.peers in
        let old = erase-peers (IsPeer pool.max_peer_height) id pool.peers v.peers in
        rw (found, remove_peer)
          (record {
            run = redone.run;
            counted = redone.counted;
            bounded = redone.bounded;
            peers = λ j p e. elim (Bool-cases (eqb_ℤ peer.height pool.max_peer_height)) [
              | inl top ↦ rw (top) (highest_lem left (pos 0) j p e, (old j p e).1)
              | inr lower ↦ rw (lower) (old j p e)
            ];
          })
  ]

  -- New books of peers under a highest height.
  pub with_peers :
      (pool : BlockPool Block) (ps : List (Bytes × BpPeer)) (top : ℤ)
      → IsPool height_of Sent pool
      → ((id : Bytes) (p : BpPeer) → lookup id ps ≡ some p → IsPeer top p)
      → IsPool height_of Sent (record pool { peers = ps; max_peer_height = top })
  with_peers pool ps top v all = record {
    run = v.run;
    counted = v.counted;
    bounded = v.bounded;
    peers = all;
  }

  pub set_peer_range-IsPool :
      (id : Bytes) (base height : ℤ) (pool : BlockPool Block)
      → IsPool height_of Sent pool
      → IsPool height_of Sent (set_peer_range id base height pool)
  unfolding set_peer_range
  set_peer_range-IsPool id base height pool v =
      let top = if ltb_ℤ pool.max_peer_height height then height else pool.max_peer_height in
      let raised : (p : BpPeer) → IsPeer pool.max_peer_height p → IsPeer top p =
        λ p (low, timed). (ground (arith, low), timed) in
      let above : ltb_ℤ top height ≡ false = ground arith in
      with_peers pool _ top v (
        insert-peers (IsPeer top) id _ pool.peers (λ j p e. raised p (v.peers j p e))
          (elim (Option-cases (lookup id pool.peers)) [
            | inl missing ↦ rw (missing) (new_bp_peer-IsPeer top base height above)
            | inr (peer, found) ↦ rw (found) (above, (v.peers id peer found).1)
          ]))

  pub pick_incr_available_peer-IsPool :
      (h : ℤ) (order : List Bytes) (pool : BlockPool Block)
      → IsPool height_of Sent pool
      → IsPool height_of Sent (pick_incr_available_peer h order pool).0
  unfolding pick_incr_available_peer
  pick_incr_available_peer-IsPool h [] pool v = v
  pick_incr_available_peer-IsPool h (id ∷ order) pool v = elim (visit_peer_lem h id pool) [
    | inl (same, _) ↦
        rw (same, pick_incr_available_peer) (pick_incr_available_peer-IsPool h order pool v)
    | inr (inl (same, _)) ↦
        rw (same, pick_incr_available_peer)
          (pick_incr_available_peer-IsPool h order _ (remove_peer-IsPool id pool v))
    | inr (inr (peer, same, found, _)) ↦
        rw (same, pick_incr_available_peer)
          (with_peers pool (insert id (incr_pending peer) pool.peers) pool.max_peer_height v (
            insert-peers (IsPeer pool.max_peer_height) id (incr_pending peer) pool.peers v.peers
              (incr_pending-IsPeer pool.max_peer_height peer (v.peers id peer found))))
  ]

  pub remove_timedout_peers-IsPool :
      (order : List Bytes) (pool : BlockPool Block)
      → IsPool height_of Sent pool
      → IsPool height_of Sent (remove_timedout_peers order pool)
  unfolding remove_timedout_peers
  remove_timedout_peers-IsPool [] pool v = v
  remove_timedout_peers-IsPool (id ∷ order) pool v =
      remove_timedout_peers-IsPool order _ (elim (Option-cases (lookup id pool.peers)) [
        | inl missing ↦ rw (missing) v
        | inr (peer, found) ↦ rw (found) (elim (Bool-cases peer.did_timeout) [
          | inl late ↦ rw (late) (remove_peer-IsPool id pool v)
          | inr on_time ↦ rw (on_time) v
        ])
      ])

  pub on_timeout-IsPool :
      (id : Bytes) (pool : BlockPool Block)
      → IsPool height_of Sent pool
      → IsPool height_of Sent (on_timeout id pool)
  unfolding on_timeout
  on_timeout-IsPool id pool v =
      let told = send_error PoolError.no_answer id pool in
      let kept = send_error-IsPool PoolError.no_answer id pool v in
      elim (Option-cases (lookup id told.peers)) [
        | inl missing ↦ rw (missing, on_timeout) kept
        | inr (peer, found) ↦
            rw (found, on_timeout)
              (with_peers told (insert id (record peer { did_timeout = true }) told.peers)
                told.max_peer_height kept
                (insert-peers (IsPeer told.max_peer_height) id _ told.peers kept.peers
                  (kept.peers id peer found)))
      ]
