-- ===== src/BlockPool/Pick.antt =====
-- blockchain/pool.go: pickIncrAvailablePeer takes the first peer of the range that is available, and
-- finds none only where none is.
use bft.Base.{
  ℕ, zero, suc, get_elem?, ◌∙◌, ◌≡◌, refl, sym, ap, subst, Bool, true, false, not, ◌||◌, ◌&&◌,
  Option, none, some, List, [], ◌∷◌, arith, if◌then◌else◌, Bytes, bytes_equal, Bool-cases,
  Option-cases, ◌⊎◌, inl, inr,
}
use bft.Base.ByteStrings.{bytes_equal_refl, bytes_equal_sound}
use bft.Base.Int.{ℤ, pos, ltb_ℤ}
use bft.Base.Assoc.{lookup, insert, lookup-erase, lookup-insert}
use bft.BlockPool.{
  BlockPool, BpPeer, incr_pending, remove_peer, passed, took, visit_peer, pick_incr_available_peer,
  max_pending_requests_per_peer,
}

-- A peer that has not timed out, has fewer than 20 requests pending, and holds the height.
abbrev pub is_available : ℤ → BpPeer → Bool
is_available h p =
    not p.did_timeout
    && (ltb_ℤ p.num_pending (pos max_pending_requests_per_peer)
        && not (ltb_ℤ h p.base || ltb_ℤ p.height h))

module _ {Block : Type 0} where
  -- The peer with the ID is in the pool and available.
  abbrev pub IsAvailable : ℤ → Bytes → BlockPool Block → Type 0
  IsAvailable h id pool = (p : BpPeer) × (lookup id pool.peers ≡ some p) × (is_available h p ≡ true)

  pub visit_peer_lem :
      (h : ℤ) (id : Bytes) (pool : BlockPool Block)
      → ((visit_peer h id pool ≡ passed pool) × ¬ IsAvailable h id pool)
        ⊎ ((visit_peer h id pool ≡ passed (remove_peer id pool)) × ¬ IsAvailable h id pool)
        ⊎ ((p : BpPeer) × (visit_peer h id pool
              ≡ took (record pool { peers = insert id (incr_pending p) pool.peers }))
            × (lookup id pool.peers ≡ some p)
            × (is_available h p ≡ true))
  unfolding visit_peer
  visit_peer_lem h id pool = elim (Option-cases (lookup id pool.peers)) [
    | inl missing ↦ inl (ground (arith, missing), λ (p, e, _). absurd (ground (arith, missing, e)))
    | inr (p, found) ↦
        let out : is_available h p ≡ false → ¬ IsAvailable h id pool = λ no' (q, e, yes').
          let one : p ≡ q = ground (arith, found, e) in
          absurd (cc (no', yes', ap (is_available h) one)) in
        elim (Bool-cases p.did_timeout) [
          | inl late ↦ inr (inl (ground (arith, found, late), out (ground (arith, late))))
          | inr on_time ↦
              elim (Bool-cases (ltb_ℤ p.num_pending (pos max_pending_requests_per_peer))) [
                | inr busy ↦ inl (ground (arith, found, on_time, busy), out (ground (arith, busy)))
                | inl free ↦ elim (Bool-cases (ltb_ℤ h p.base || ltb_ℤ p.height h)) [
                  | inl outside ↦
                      inl (
                        ground (arith, found, on_time, free, outside),
                        out (ground (arith, outside)),
                      )
                  | inr inside ↦ inr (
                      inr (
                        p,
                        ground (arith, found, on_time, free, inside),
                        found,
                        ground (arith, on_time, free, inside),
                      ))
                ]
              ]
        ]
  ]

  remove_peer-lookup :
      (k id : Bytes) (pool : BlockPool Block)
      → lookup id (remove_peer k pool).peers
        ≡ (if bytes_equal k id then none else lookup id pool.peers)
  unfolding remove_peer
  remove_peer-lookup k id pool = elim (Option-cases (lookup k pool.peers)) [
    | inl missing ↦
        rw (missing, remove_peer)
          (elim (Bool-cases (bytes_equal k id)) [
            | inl here ↦
                let same = bytes_equal_sound k id here in
                rw (here) (ap (λ x. lookup x pool.peers) (sym same) ∙ missing)
            | inr there ↦ rw (there) refl
          ])
    | inr (p, found) ↦ rw (found, remove_peer) (lookup-erase k id pool.peers)
  ]

  -- Where the removed peer was not available, the same peers are.
  IsAvailable-after :
      (h : ℤ) (k id : Bytes) (pool : BlockPool Block)
      → ¬ IsAvailable h k pool
      → IsAvailable h id pool
      → IsAvailable h id (remove_peer k pool)
  IsAvailable-after h k id pool out (p, found, ready) = elim (Bool-cases (bytes_equal k id)) [
    | inl here ↦
        let same = bytes_equal_sound k id here in
        absurd (out (p, ap (λ x. lookup x pool.peers) same ∙ found, ready))
    | inr there ↦ (p, ground (arith, remove_peer-lookup k id pool, there, found), ready)
  ]

  kept_before :
      (k : Bytes) (pool : BlockPool Block) (id : Bytes) (p : BpPeer)
      → lookup id (remove_peer k pool).peers ≡ some p
      → lookup id pool.peers ≡ some p
  kept_before k pool id p found = elim (Bool-cases (bytes_equal k id)) [
    | inl here ↦ absurd (ground (arith, remove_peer-lookup k id pool, here, found))
    | inr there ↦ ground (arith, remove_peer-lookup k id pool, there, found)
  ]

  -- What the range returns: no peer, and none of those it met is available, or a peer that is.
  abbrev pub IsPicked : ℤ → List Bytes → BlockPool Block → BlockPool Block × Option Bytes → Type 0
  IsPicked h order pool (pool', none) =
      (i : ℕ) (id : Bytes) → get_elem? order i ≡ some id → ¬ IsAvailable h id pool
  IsPicked h order pool (pool', some id) =
      ((i : ℕ) × (get_elem? order i ≡ some id))
      × ((p : BpPeer) × (lookup id pool.peers ≡ some p)
          × (is_available h p ≡ true)
          × (lookup id pool'.peers ≡ some (incr_pending p)))

  -- A peer that is not available is passed over.
  passed_over :
      (h : ℤ) (k : Bytes) (order : List Bytes) (pool after : BlockPool Block)
      (r : BlockPool Block × Option Bytes)
      → ¬ IsAvailable h k pool
      → ((id : Bytes) → IsAvailable h id pool → IsAvailable h id after)
      → ((id : Bytes) (p : BpPeer) → lookup id after.peers ≡ some p → lookup id pool.peers ≡ some p)
      → IsPicked h order after r
      → IsPicked h (k ∷ order) pool r
  passed_over h k order pool after (pool', none) out onto back none_left = skip
    where
      skip : (i : ℕ) (id : Bytes) → get_elem? (k ∷ order) i ≡ some id → ¬ IsAvailable h id pool
      skip zero id e a =
          let same : k ≡ id = ground (arith, e) in
          out (subst (λ x. IsAvailable h x pool) (sym same) a)
      skip (suc i) id e a = none_left i id e (onto id a)
  passed_over h k order pool after (pool', some id) out onto back picked =
      let ((i, at), (p, found, ready, now)) = picked in
      ((suc i, at), (p, back id p found, ready, now))

  -- Over any order of the peers: a peer that pickIncrAvailablePeer takes is in the order and
  -- available, that is, it has not timed out, has fewer than 20 requests pending and holds the
  -- height, and gets one more request; and where it takes none, no peer of the order is available.
  pub pick_incr_available_peer_lem :
      (h : ℤ) (order : List Bytes) (pool : BlockPool Block)
      → IsPicked h order pool (pick_incr_available_peer h order pool)
  unfolding pick_incr_available_peer
  pick_incr_available_peer_lem h [] pool = λ i id e a. absurd (cc e)
  pick_incr_available_peer_lem h (k ∷ order) pool = elim (visit_peer_lem h k pool) [
    | inl (same, out) ↦
        rw (same, pick_incr_available_peer)
          (passed_over h k order pool pool (pick_incr_available_peer h order pool) out (λ id a. a)
            (λ id p e. e) (pick_incr_available_peer_lem h order pool))
    | inr (inl (same, out)) ↦
        rw (same, pick_incr_available_peer)
          (passed_over h k order pool (remove_peer k pool)
            (pick_incr_available_peer h order (remove_peer k pool)) out
            (λ id a. IsAvailable-after h k id pool out a) (kept_before k pool)
            (pick_incr_available_peer_lem h order (remove_peer k pool)))
    | inr (inr (p, same, found, ready)) ↦
        rw (same, pick_incr_available_peer)
          (
            (0, refl),
            (
              p,
              found,
              ready,
              ground (arith, lookup-insert k k (incr_pending p) pool.peers, bytes_equal_refl k),
            ),
          )
  ]
