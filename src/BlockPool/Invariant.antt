-- ===== src/BlockPool/Invariant.antt =====
-- What the books of the pool keep: a run of requesters, a count that covers those without a block,
-- and peers below the highest reported height, whose timers exist once they have been asked.
use bft.Base.{
  ℕ, ◌≤◌, ◌≡◌, refl, ap, subst, Bool, true, false, none, some, List, [], ◌∷◌, arith, length, Bytes,
  bytes_equal, Bool-cases, Option-cases, inl, inr,
}
use bft.Base.Int.{ℤ, pos, pred_ℤ, eqb_ℤ, ltb_ℤ}
use bft.Base.Assoc.{lookup, insert, erase, lookup-insert, lookup-erase}
use bft.BlockPool.{
  Requester, BlockPool, BpPeer, Phase, waiting, highest, new_bp_peer, incr_pending, decr_pending,
  max_total_requesters,
}
use bft.BlockPool.Heights.{IsRun, count_unfilled}

abbrev pub is_waiting : Phase → Bool
is_waiting waiting = true
is_waiting p = false

-- A peer below the given height, which no timer of its own can make panic.
abbrev pub IsPeer : ℤ → BpPeer → Type 0
IsPeer top p = (ltb_ℤ top p.height ≡ false) × (p.timer ≡ none → p.num_pending ≡ pos 0)

module _ {Block : Type 0} (height_of : Block → ℤ) (Sent : Bytes → Block → Type 0) where
  -- A block has the requester's height and comes from the requester's peer; until a request is sent
  -- there is no peer and no block.
  pub record IsSound (h : ℤ) (r : Requester Block) : Type 0 where
    pub own : r.height ≡ h
    pub filled : (b : Block) → r.block ≡ some b → Sent r.peer_id b × (height_of b ≡ h)
    pub idle : is_waiting r.phase ≡ false → (r.peer_id ≡ []) × (r.block ≡ none)

  pub record IsPool (pool : BlockPool Block) : Type 0 where
    pub run : IsRun IsSound pool.height pool.requesters
    pub counted : (n : ℕ) × (pool.num_pending ≡ pos n) × (count_unfilled pool.requesters ≤ n)
    pub bounded : length pool.requesters ≤ max_total_requesters
    pub peers :
        (id : Bytes) (p : BpPeer) → lookup id pool.peers ≡ some p → IsPeer pool.max_peer_height p

-- A property of all peers under the updates of the map.
pub insert-peers :
    (P : BpPeer → Type 0) (k : Bytes) (p : BpPeer) (ps : List (Bytes × BpPeer))
    → ((id : Bytes) (q : BpPeer) → lookup id ps ≡ some q → P q)
    → P p
    → (id : Bytes) (q : BpPeer) → lookup id (insert k p ps) ≡ some q
    → P q
insert-peers P k p ps all new id q e = elim (Bool-cases (bytes_equal k id)) [
  | inl here ↦ let one : p ≡ q = ground (arith, lookup-insert k id p ps, here, e) in subst P one new
  | inr there ↦ all id q (ground (arith, lookup-insert k id p ps, there, e))
]

pub erase-peers :
    (P : BpPeer → Type 0) (k : Bytes) (ps : List (Bytes × BpPeer))
    → ((id : Bytes) (q : BpPeer) → lookup id ps ≡ some q → P q)
    → (id : Bytes) (q : BpPeer) → lookup id (erase k ps) ≡ some q
    → P q
erase-peers P k ps all id q e = elim (Bool-cases (bytes_equal k id)) [
  | inl here ↦ absurd (ground (arith, lookup-erase k id ps, here, e))
  | inr there ↦ all id q (ground (arith, lookup-erase k id ps, there, e))
]

highest_grows : (ps : List (Bytes × BpPeer)) (best : ℤ) → ltb_ℤ (highest ps best) best ≡ false
unfolding highest
highest_grows [] best = ground arith
highest_grows ((_, p) ∷ ps) best = elim (Bool-cases (ltb_ℤ best p.height)) [
  | inl higher ↦ rw (higher, highest) (ground (arith, highest_grows ps p.height, higher))
  | inr not_higher ↦ rw (not_higher, highest) (highest_grows ps best)
]

-- Every peer of the map is at most as high as the highest.
pub highest_lem :
    (ps : List (Bytes × BpPeer)) (best : ℤ) (id : Bytes) (p : BpPeer)
    → lookup id ps ≡ some p
    → ltb_ℤ (highest ps best) p.height ≡ false
unfolding highest lookup
highest_lem [] best id p e = absurd (cc e)
highest_lem ((k, q) ∷ ps) best id p e = elim (Bool-cases (bytes_equal k id)) [
  | inr there ↦ highest_lem ps _ id p (ground (arith, there, e))
  | inl here ↦
      let one : q ≡ p = ground (arith, here, e) in
      subst (λ (x : BpPeer). ltb_ℤ (highest ((k, q) ∷ ps) best) x.height ≡ false) one
        (elim (Bool-cases (ltb_ℤ best q.height)) [
          | inl higher ↦ rw (higher, highest) (highest_grows ps q.height)
          | inr not_higher ↦
              rw (not_higher, highest) (ground (arith, highest_grows ps best, not_higher))
        ])
]

pub new_bp_peer-IsPeer :
    (top base height : ℤ) → ltb_ℤ top height ≡ false → IsPeer top (new_bp_peer base height)
unfolding new_bp_peer
new_bp_peer-IsPeer top base height h = (h, λ _. refl)

pub incr_pending-IsPeer : (top : ℤ) (p : BpPeer) → IsPeer top p → IsPeer top (incr_pending p)
unfolding incr_pending
incr_pending-IsPeer top p (low, timed) = elim (Bool-cases (eqb_ℤ p.num_pending (pos 0))) [
  | inl fresh ↦ rw (fresh, incr_pending) (low, λ e. absurd (cc e))
  | inr asked ↦
      rw (asked, incr_pending)
        (low, λ e. absurd (ground (arith, asked, ap (λ n. eqb_ℤ n (pos 0)) (timed e))))
]

-- A peer that has no timer has no request that could be its last.
pub decr_pending_total :
    (top : ℤ) (p : BpPeer)
    → IsPeer top p
    → (p' : BpPeer) × (decr_pending p ≡ some p') × IsPeer top p'
unfolding decr_pending
decr_pending_total top p (low, timed) = elim (Bool-cases (eqb_ℤ (pred_ℤ p.num_pending) (pos 0))) [
  | inr more ↦ (
    record p { num_pending = pred_ℤ p.num_pending; timer = some true },
    rw (more, decr_pending) refl,
    (low, λ e. absurd (cc e)),
  )
  | inl last ↦ elim (Option-cases p.timer) [
    | inl missing ↦
        absurd (ground (arith, last, ap (λ n. eqb_ℤ (pred_ℤ n) (pos 0)) (timed missing)))
    | inr (b, here) ↦ (
      record p { num_pending = pred_ℤ p.num_pending; timer = some false },
      rw (last, decr_pending) (rw (here, decr_pending) refl),
      (low, λ e. absurd (cc e)),
    )
  ]
]
