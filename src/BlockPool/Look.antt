-- ===== src/BlockPool/Look.antt =====
-- The routine of a requester, until its request is sent, keeps the invariant of the pool.
use bft.Base.{
  ◌≡◌, refl, sym, ap, subst, true, false, Option, none, some, List, ◌∷◌, arith, if◌then◌else◌,
  Bytes, Bool-cases, Option-cases, ◌⊎◌, inl, inr,
}
use bft.Base.Int.{ℤ}
use bft.BlockPool.{
  pick_incr_available_peer, BlockPool, Phase, picking, picked, waiting, at_height, put_height,
}
use bft.BlockPool.Routine.{is_picking, keep_pick, pick_peer, assign_peer}
use bft.BlockPool.Heights.{at_height-Sound}
use bft.BlockPool.Peers.{pick_incr_available_peer-IsPool}
use bft.BlockPool.Invariant.{is_waiting, IsSound, IsPool}
use bft.BlockPool.Books.{rewritten, same_count}

pub Phase-cases : (p : Phase) → (p ≡ picking) ⊎ ((id : Bytes) × (p ≡ picked id)) ⊎ (p ≡ waiting)
Phase-cases picking = inl refl
Phase-cases (picked id) = inr (inl (id, refl))
Phase-cases waiting = inr (inr refl)

module _ {Block : Type 0} (height_of : Block → ℤ) (Sent : Bytes → Block → Type 0) where
  keep_pick-IsPool :
      (h : ℤ) (id : Option Bytes) (pool : BlockPool Block)
      → IsPool height_of Sent pool
      → is_picking (at_height h pool.requesters) ≡ true
      → IsPool height_of Sent (keep_pick h id pool)
  unfolding keep_pick is_picking
  keep_pick-IsPool h none pool v looking = v
  keep_pick-IsPool h (some id) pool v looking = elim (Option-cases (at_height h pool.requesters)) [
    | inl missing ↦ rw (missing, keep_pick) v
    | inr (r, found) ↦
        let (n, same, cover) = v.counted in
        let old =
          at_height-Sound (IsSound height_of Sent) pool.height h r pool.requesters v.run found in
        let early : is_waiting r.phase ≡ false = elim (Phase-cases r.phase) [
          | inl e ↦ ap is_waiting e
          | inr (inl (i, e)) ↦ ap is_waiting e
          | inr (inr e) ↦ absurd (ground (arith, found, e, looking))
        ] in
        let new = record r { phase = picked id } in
        rw (found, keep_pick)
          (same_count height_of Sent (put_height h new pool.requesters) pool n same (
            rewritten height_of Sent h r new n pool v found
              (record { own = old.own; filled = old.filled; idle = λ _. old.idle early })
              (omega (arith, cover))))
  ]

  pub pick_peer-IsPool :
      (h : ℤ) (order : List Bytes) (pool : BlockPool Block)
      → IsPool height_of Sent pool
      → IsPool height_of Sent (pick_peer h order pool)
  unfolding pick_peer
  pick_peer-IsPool h order pool v =
      let (pool', id) = pick_incr_available_peer h order pool in
      elim (Bool-cases (is_picking (at_height h pool'.requesters))) [
        | inr elsewhere ↦ rw (elsewhere, pick_peer) v
        | inl looking ↦
            rw (looking, pick_peer)
              (keep_pick-IsPool h id pool'
                (pick_incr_available_peer-IsPool height_of Sent h order pool v) looking)
      ]

  pub assign_peer-IsPool :
      (h : ℤ) (pool : BlockPool Block)
      → IsPool height_of Sent pool
      → IsPool height_of Sent (assign_peer h pool)
  unfolding assign_peer
  assign_peer-IsPool h pool v = elim (Option-cases (at_height h pool.requesters)) [
    | inl missing ↦ rw (missing, assign_peer) v
    | inr (r, found) ↦ elim (Phase-cases r.phase) [
      | inl e ↦
          let same : assign_peer h pool ≡ pool = ground (arith, found, e) in
          subst (IsPool height_of Sent) (sym same) v
      | inr (inr e) ↦
          let same : assign_peer h pool ≡ pool = ground (arith, found, e) in
          subst (IsPool height_of Sent) (sym same) v
      | inr (inl (id, e)) ↦
          let (n, count, cover) = v.counted in
          let old =
            at_height-Sound (IsSound height_of Sent) pool.height h r pool.requesters v.run found in
          let new = record r { peer_id = id; phase = waiting } in
          let empty = (old.idle (ap is_waiting e)).1 in
          let kept =
            rewritten height_of Sent h r new n pool v found
              (record {
                own = old.own;
                filled = λ b got. absurd (cc (empty, got));
                idle = λ w. absurd (cc w);
              })
              (omega (arith, cover)) in
          let same : assign_peer h pool ≡ record pool {
            requesters = put_height h new pool.requesters;
            requests = if pool.running then (h, id) ∷ pool.requests else pool.requests;
          } =
            ground (arith, found, e) in
          let kept' =
            same_count height_of Sent (put_height h new pool.requesters) pool n count kept in
          subst (IsPool height_of Sent) (sym same) (record {
            run = kept'.run;
            counted = kept'.counted;
            bounded = kept'.bounded;
            peers = kept'.peers;
          })
    ]
  ]
