-- ===== src/Mempool/Reap.antt =====
-- What `ReapMaxTxs` and `ReapMaxBytes` return.
use mathlib.Core.List.{append-nil, append_assoc}
use bft.Base.{
  ℕ, zero, suc, ◌+◌, ◌≤◌, ◌≡◌, refl, List, [], ◌∷◌, ◌++◌, map, arith, length, take, length-append,
  length-map, Bytes, ap, ◌∙◌, sym,
}
use bft.Base.Int.{ℤ, pos, negsuc}
use bft.Mempool.{Element, Mempool, reap_txs, reap_max_txs}

abbrev pub txs_of : List Element → List Bytes
txs_of = map (λ e. e.tx)

-- The loop takes one transaction more than `limit` allows.
reap_txs_lem :
    (limit room : ℕ) (txs : List Bytes) (es : List Element)
    → length txs + room ≡ limit + 1
    → reap_txs limit txs es ≡ txs ++ take room (txs_of es)
unfolding reap_txs
reap_txs_lem limit zero txs [] h = sym (append-nil txs)
reap_txs_lem limit (suc room) txs [] h = sym (append-nil txs)
reap_txs_lem limit zero txs (e ∷ es) h = ground (arith, append-nil txs)
reap_txs_lem limit (suc room) txs (e ∷ es) h =
    let n = length-append txs (e.tx ∷ []) in
    ground (
      arith,
      reap_txs_lem limit room (txs ++ e.tx ∷ []) es (omega (arith, n)),
      append_assoc txs (e.tx ∷ []) (take room (txs_of es)),
    )

take_over : (n : ℕ) (xs : List Bytes) → length xs ≤ n → take n xs ≡ xs
take_over zero [] h = refl
take_over zero (x ∷ xs) h = absurd (omega arith)
take_over (suc n) [] h = refl
take_over (suc n) (x ∷ xs) h = ap (◌∷◌ x) (take_over n xs (omega arith))

-- ReapMaxTxs(max) returns, in the pool's order, the first max + 1 transactions, or all where the
-- pool has no more; for a negative max it returns all.
pub reap_max_txs_lem :
    (max : ℤ) (m : Mempool)
    → reap_max_txs max m
      ≡ elim max [ pos n ↦ take (n + 1) (txs_of m.txs) | negsuc _ ↦ txs_of m.txs ]
unfolding reap_max_txs
reap_max_txs_lem (pos n) m = reap_txs_lem n (n + 1) [] m.txs (omega arith)
reap_max_txs_lem (negsuc n) m =
    reap_txs_lem (length m.txs) (length m.txs + 1) [] m.txs (omega arith)
    ∙ take_over (length m.txs + 1) (txs_of m.txs)
        (omega (arith, length-map (λ (e : Element). e.tx) m.txs))
