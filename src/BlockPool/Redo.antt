-- ===== src/BlockPool/Redo.antt =====
-- A redo keeps the invariant of the pool, in a live requester and in one that was popped.
use bft.Base.{
  ℕ, suc, ◌+◌, ◌≤◌, ◌≡◌, ◌∙◌, refl, sym, ap, subst, none, arith, Bytes, bytes_equal, Bool-cases,
  Option-cases, inl, inr, get_elem?,
}
use bft.Base.Int.{ℤ, pos}
use bft.BlockPool.{Requester, BlockPool, at_height, put_height}
use bft.BlockPool.Routine.{reset_requester, take_redo, redo_at, redo_stopped}
use bft.BlockPool.Heights.{at_height-Sound, unfilled, empty_slot}
use bft.BlockPool.Invariant.{IsSound, IsPool}
use bft.BlockPool.Books.{rewritten}
use bft.BlockPool.Look.{Phase-cases}

-- A redo leaves the count or raises it by one.
take_redo_grows :
    {Block : Type 0} (r : Requester Block) (n : ℕ)
    → (n' : ℕ) × ((take_redo r (pos n)).1 ≡ pos n') × (n ≤ n')
unfolding take_redo reset_requester
take_redo_grows r n = elim (Phase-cases r.phase) [
  | inl e ↦ (n, ground (arith, e), omega arith)
  | inr (inl (i, e)) ↦ (n, ground (arith, e), omega arith)
  | inr (inr e) ↦ elim (Option-cases r.redo_ch) [
    | inl quiet ↦ (n, ground (arith, e, quiet), omega arith)
    | inr (id, asked) ↦ elim (Bool-cases (bytes_equal id r.peer_id)) [
      | inr old ↦ (n, ground (arith, e, asked, old), omega arith)
      | inl own ↦ elim (Option-cases r.block) [
        | inl empty ↦ (n, ground (arith, e, asked, own, empty), omega arith)
        | inr (b, full) ↦ (suc n, ground (arith, e, asked, own, full), omega arith)
      ]
    ]
  ]
]

module _ {Block : Type 0} (height_of : Block → ℤ) (Sent : Bytes → Block → Type 0) where
  -- What a redo leaves: the count moves with the block.
  abbrev IsRedone : ℤ → Requester Block → ℕ → Requester Block × ℤ → Type 0
  IsRedone h r n (r', pending) =
      (n' : ℕ) × (pending ≡ pos n')
      × (n' + unfilled r ≡ n + unfilled r')
      × IsSound height_of Sent h r'

  reset_requester-IsRedone :
      (h : ℤ) (r : Requester Block) (n : ℕ)
      → IsSound height_of Sent h r
      → IsRedone h r n (reset_requester r (pos n))
  unfolding reset_requester
  reset_requester-IsRedone h r n s =
      let sound : IsSound height_of Sent h (reset_requester r (pos n)).0 = record {
        own = s.own;
        filled = λ b e. absurd (cc e);
        idle = λ _. (refl, refl);
      } in
      elim (Option-cases r.block) [
        | inl empty ↦ (n, ground (arith, empty), omega (arith, ap empty_slot empty), sound)
        | inr (b, full) ↦ (suc n, ground (arith, full), omega (arith, ap empty_slot full), sound)
      ]

  take_redo-IsRedone :
      (h : ℤ) (r : Requester Block) (n : ℕ)
      → IsSound height_of Sent h r
      → IsRedone h r n (take_redo r (pos n))
  unfolding take_redo
  take_redo-IsRedone h r n s =
      let idle : take_redo r (pos n) ≡ (r, pos n) → IsRedone h r n (take_redo r (pos n)) =
        λ same. subst (IsRedone h r n) (sym same) (n, refl, refl, s) in
      elim (Phase-cases r.phase) [
        | inl e ↦ idle (ground (arith, e))
        | inr (inl (i, e)) ↦ idle (ground (arith, e))
        | inr (inr e) ↦ elim (Option-cases r.redo_ch) [
          | inl quiet ↦ idle (ground (arith, e, quiet))
          | inr (id, asked) ↦ elim (Bool-cases (bytes_equal id r.peer_id)) [
            | inl own ↦
                let same : take_redo r (pos n) ≡ reset_requester r (pos n) =
                  ground (arith, e, asked, own) in
                subst (IsRedone h r n) (sym same) (reset_requester-IsRedone h r n s)
            | inr old ↦
                let same : take_redo r (pos n) ≡ (record r { redo_ch = none }, pos n) =
                  ground (arith, e, asked, old) in
                subst (IsRedone h r n) (sym same)
                  (n, refl, refl, record { own = s.own; filled = s.filled; idle = s.idle })
          ]
        ]
      ]

  pub redo_at-IsPool :
      (h : ℤ) (pool : BlockPool Block)
      → IsPool height_of Sent pool
      → IsPool height_of Sent (redo_at h pool)
  unfolding redo_at
  redo_at-IsPool h pool v = elim (Option-cases (at_height h pool.requesters)) [
    | inl missing ↦ rw (missing, redo_at) v
    | inr (r, found) ↦
        let (n, same, cover) = v.counted in
        let old =
          at_height-Sound (IsSound height_of Sent) pool.height h r pool.requesters v.run found in
        let (n', pending, moved, sound) = take_redo-IsRedone h r n old in
        let r' = (take_redo r (pos n)).0 in
        let equal : redo_at h pool
            ≡ record pool { requesters = put_height h r' pool.requesters; num_pending = pos n' } =
          ground (arith, found, same, pending) in
        subst (IsPool height_of Sent) (sym equal)
          (rewritten height_of Sent h r r' n' pool v found sound (omega (arith, cover, moved)))
  ]

  -- A requester that was popped can only raise the count.
  pub redo_stopped-IsPool :
      (i : ℕ) (pool : BlockPool Block)
      → IsPool height_of Sent pool
      → IsPool height_of Sent (redo_stopped i pool)
  unfolding redo_stopped
  redo_stopped-IsPool i pool v = elim (Option-cases (get_elem? pool.stopped i)) [
    | inl missing ↦ rw (missing, redo_stopped) v
    | inr (r, found) ↦
        let (n, same, cover) = v.counted in
        let (n', pending, grown) = take_redo_grows r n in
        rw (found, redo_stopped)
          (record {
            run = v.run;
            counted = (n', ap (λ z. (take_redo r z).1) same ∙ pending, omega (arith, cover, grown));
            bounded = v.bounded;
            peers = v.peers;
          })
  ]
