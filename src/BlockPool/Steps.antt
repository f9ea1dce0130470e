-- ===== src/BlockPool/Steps.antt =====
-- Making, popping and redoing requests keeps the invariant of the pool.
use bft.Base.{
  suc, ◌≡◌, refl, ap, subst, true, some, List, ◌∷◌, arith, Bytes, Bool-cases, Option-cases, inl,
  inr, ltb, ltb→lt, ◌==◌, length,
}
use bft.Base.Int.{ℤ, pos, succ_ℤ, ltb_ℤ, plus}
use bft.BlockPool.{
  BlockPool, at_height, delete_height, new_bp_requester, make_next_requester, make_requesters,
  max_pending_requests, max_total_requesters, pop_request, redo_request, remove_peer,
}
use bft.BlockPool.Heights.{
  put_height-new, delete_height-IsRun, count_unfilled-put_height_le, count_unfilled-delete_height,
  length-put_height_le, length-delete_height,
}
use bft.BlockPool.Peers.{remove_peer-IsPool, remove_timedout_peers-IsPool}
use bft.BlockPool.Invariant.{IsSound, IsPool}

module _ {Block : Type 0} (height_of : Block → ℤ) (Sent : Bytes → Block → Type 0) where
  make_next_requester-IsPool :
      (pool : BlockPool Block)
      → IsPool height_of Sent pool
      → ltb (length pool.requesters) max_total_requesters ≡ true
      → IsPool height_of Sent (make_next_requester pool)
  unfolding make_next_requester
  make_next_requester-IsPool pool v room =
      let next = plus (length pool.requesters) pool.height in
      let new = new_bp_requester next in
      elim (Bool-cases (ltb_ℤ pool.max_peer_height next)) [
        | inl none_yet ↦ rw (none_yet, make_next_requester) v
        | inr known ↦
            let (n, same, cover) = v.counted in
            rw (known, make_next_requester)
              (record {
                run =
                    put_height-new (IsSound height_of Sent) pool.height new pool.requesters v.run
                      (record {
                        own = refl;
                        filled = λ b e. absurd (cc e);
                        idle = λ _. (refl, refl);
                      });
                counted = (
                  suc n,
                  ap succ_ℤ same,
                  omega (arith, count_unfilled-put_height_le next new pool.requesters, cover),
                );
                bounded =
                    let room' = ltb→lt (length pool.requesters) max_total_requesters room in
                    omega (arith, length-put_height_le next new pool.requesters, room');
                peers = v.peers;
              })
      ]

  pub make_requesters-IsPool :
      (order : List Bytes) (pool : BlockPool Block)
      → IsPool height_of Sent pool
      → IsPool height_of Sent (make_requesters order pool)
  unfolding make_requesters
  make_requesters-IsPool order pool v =
      let cleaned = remove_timedout_peers-IsPool height_of Sent order pool v in
      elim (Bool-cases (ltb_ℤ pool.num_pending (pos max_pending_requests))) [
        | inr busy ↦ rw (busy, make_requesters) cleaned
        | inl free ↦ elim (Bool-cases (ltb (length pool.requesters) max_total_requesters)) [
          | inr full ↦ rw (free, make_requesters) (rw (full, make_requesters) cleaned)
          | inl room ↦
              rw (free, make_requesters)
                (rw (room, make_requesters) (make_next_requester-IsPool pool v room))
        ]
      ]

  pub pop_request-IsPool :
      (pool pool' : BlockPool Block)
      → IsPool height_of Sent pool
      → pop_request pool ≡ some pool'
      → IsPool height_of Sent pool'
  unfolding pop_request
  pop_request-IsPool pool pool' v e = elim (Option-cases (at_height pool.height pool.requesters)) [
    | inl missing ↦ absurd (ground (arith, missing, e))
    | inr (r, found) ↦
        let (n, same, cover) = v.counted in
        let one : record pool {
          requesters = delete_height pool.height pool.requesters;
          height = succ_ℤ pool.height;
          stopped = r ∷ pool.stopped;
        }
            ≡ pool' =
          ground (arith, found, e) in
        subst (IsPool height_of Sent) one (record {
          run =
              delete_height-IsRun (IsSound height_of Sent) pool.height r pool.requesters v.run
                found;
          counted = (
            n,
            same,
            omega (arith, count_unfilled-delete_height pool.height pool.requesters, cover),
          );
          bounded = omega (arith, length-delete_height pool.height pool.requesters, v.bounded);
          peers = v.peers;
        })
  ]

  pub redo_request-IsPool :
      (h : ℤ) (pool pool' : BlockPool Block) (id : Bytes)
      → IsPool height_of Sent pool
      → redo_request h pool ≡ some (pool', id)
      → IsPool height_of Sent pool'
  unfolding redo_request
  redo_request-IsPool h pool pool' id v e = elim (Option-cases (at_height h pool.requesters)) [
    | inl missing ↦ absurd (ground (arith, missing, e))
    | inr (r, found) ↦ elim (Bool-cases (length r.peer_id == 0)) [
      | inl nobody ↦
          let one : pool ≡ pool' = ground (arith, found, nobody, e) in
          subst (IsPool height_of Sent) one v
      | inr somebody ↦
          let one : remove_peer r.peer_id pool ≡ pool' = ground (arith, found, somebody, e) in
          subst (IsPool height_of Sent) one (remove_peer-IsPool height_of Sent r.peer_id pool v)
    ]
  ]
