-- ===== src/BlockPool/Receive.antt =====
-- A block from any peer is handled without a panic.
use bft.Base.{
  ℕ, zero, suc, ◌+◌, ◌<◌, ◌-◌, ◌≡◌, ◌∙◌, refl, sym, ap, subst, some, [], arith, Bytes, bytes_equal,
  Bool-cases, Option-cases, inl, inr, ltb,
}
use bft.Base.ByteStrings.{bytes_equal_sound}
use bft.Base.Int.{ℤ, pos, pred_ℤ, gap}
use bft.Base.Assoc.{lookup, insert}
use bft.BlockPool.{
  Requester, BlockPool, unexpected_block, invalid_peer, at_height, put_height, set_block, add_block,
  max_diff, send_error,
}
use bft.BlockPool.Heights.{at_height-Sound, unfilled, empty_slot, count_unfilled-put_height}
use bft.BlockPool.Peers.{send_error-IsPool, with_peers}
use bft.BlockPool.Invariant.{IsPeer, IsSound, IsPool, insert-peers, decr_pending_total}
use bft.BlockPool.Books.{rewritten}

pred_pos : (n : ℕ) → 0 < n → pred_ℤ (pos n) ≡ pos (n - 1)
pred_pos zero h = absurd (omega arith)
pred_pos (suc n) h = ap pos (omega arith)

module _ {Block : Type 0} (height_of : Block → ℤ) (Sent : Bytes → Block → Type 0) where
  set_block-IsSound :
      (b : Block) (id : Bytes) (r r' : Requester Block) (h : ℤ)
      → ((c : Block) → ¬ Sent [] c)
      → Sent id b
      → height_of b ≡ h
      → IsSound height_of Sent h r
      → set_block b id r ≡ some r'
      → IsSound height_of Sent h r' × (unfilled r ≡ 1) × (unfilled r' ≡ 0)
  unfolding set_block
  set_block-IsSound b id r r' h named sent level s e = elim (Option-cases r.block) [
    | inr (c, full) ↦ absurd (ground (arith, full, e))
    | inl empty ↦ elim (Bool-cases (bytes_equal r.peer_id id)) [
      | inr other ↦ absurd (ground (arith, empty, other, e))
      | inl own ↦
          let one : record r { block = some b } ≡ r' = ground (arith, empty, own, e) in
          let from : r.peer_id ≡ id = bytes_equal_sound r.peer_id id own in
          let sent' : Sent r.peer_id b = subst (λ x. Sent x b) (sym from) sent in
          (
            subst (IsSound height_of Sent h) one (record {
              own = s.own;
              filled = λ c got.
                  let same : b ≡ c = ground (arith, got) in
                  subst (λ x. Sent r.peer_id x × (height_of x ≡ h)) same (sent', level);
              idle = λ early. absurd (named b (subst (λ x. Sent x b) (s.idle early).0 sent'));
            }),
            ap empty_slot empty,
            sym (ap unfilled one),
          )
    ]
  ]

  -- A block from any peer is handled without a panic.
  pub add_block_total :
      (id : Bytes) (b : Block) (pool : BlockPool Block)
      → ((c : Block) → ¬ Sent [] c)
      → Sent id b
      → IsPool height_of Sent pool
      → (pool' : BlockPool Block) × (add_block height_of id b pool ≡ some pool')
        × IsPool height_of Sent pool'
  unfolding add_block
  add_block_total id b pool named sent v =
      elim (Option-cases (at_height (height_of b) pool.requesters)) [
        | inl missing ↦
            elim (Bool-cases
              (ltb max_diff (gap pool.height (height_of b) + gap (height_of b) pool.height))) [
                | inl far ↦ (
                  send_error unexpected_block id pool,
                  rw (missing, add_block) (rw (far) refl),
                  send_error-IsPool height_of Sent unexpected_block id pool v,
                )
                | inr near ↦ (pool, rw (missing, add_block) (rw (near) refl), v)
              ]
        | inr (r, found) ↦ elim (Option-cases (set_block b id r)) [
          | inl no' ↦ (
            send_error invalid_peer id pool,
            rw (found, add_block) (rw (no') refl),
            send_error-IsPool height_of Sent invalid_peer id pool v,
          )
          | inr (r', got) ↦
              let (n, same, cover) = v.counted in
              let old =
                at_height-Sound (IsSound height_of Sent) pool.height (height_of b) r pool.requesters
                  v.run found in
              let (sound, was, now) =
                set_block-IsSound b id r r' (height_of b) named sent refl old got in
              let less = count_unfilled-put_height (height_of b) r r' pool.requesters found in
              let some_pending : 0 < n = omega (arith, less, was, now, cover) in
              let down : pred_ℤ pool.num_pending ≡ pos (n - 1) =
                ap pred_ℤ same ∙ pred_pos n some_pending in
              let filled = record pool {
                requesters = put_height (height_of b) r' pool.requesters;
                num_pending = pred_ℤ pool.num_pending;
              } in
              let kept : IsPool height_of Sent filled =
                subst
                  (λ z. IsPool height_of Sent (record pool {
                    requesters = put_height (height_of b) r' pool.requesters;
                    num_pending = z;
                  }))
                  (sym down)
                  (rewritten height_of Sent (height_of b) r r' (n - 1) pool v found sound
                    (omega (arith, was, now, cover, some_pending))) in
              elim (Option-cases (lookup id pool.peers)) [
                | inl gone ↦ (filled, rw (found, add_block) (rw (got) (rw (gone) refl)), kept)
                | inr (peer, here) ↦
                    let (peer', paid, good) =
                      decr_pending_total pool.max_peer_height peer (v.peers id peer here) in
                    (
                      record filled { peers = insert id peer' pool.peers },
                      rw (found, add_block) (rw (got) (rw (here) (rw (paid) refl))),
                      with_peers height_of Sent filled (insert id peer' pool.peers)
                          pool.max_peer_height kept
                          (insert-peers (IsPeer pool.max_peer_height) id peer' pool.peers v.peers
                            good),
                    )
              ]
        ]
      ]
