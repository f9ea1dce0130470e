-- ===== src/Merkle/Iterative.antt =====
-- `HashFromByteSlicesIterative` of crypto/merkle/tree.go: the slice `items` is overwritten level by
-- level, with a read position and a write position.
pub mod Pairing
pub mod Equivalence
use bft.Base.{
  ℕ, zero, suc, ◌+◌, Bool, true, false, List, [], ◌∷◌, map, Bytes, ltb, length, get_or, set,
}
use bft.Merkle.Hash.{empty_hash, leaf_hash, inner_hash}

module _ (sum : Bytes → Bytes) where
  -- for rp < size { … }: the new slice and the write position. Every round reads on, so the size
  -- is fuel enough.
  unfoldable pub pair_loop : ℕ → List Bytes → ℕ → ℕ → ℕ → List Bytes × ℕ
  pair_loop zero items size rp wp = (items, wp)
  pair_loop (suc f) items size rp wp = elim (ltb rp size) [
    | true ↦ elim (ltb (rp + 1) size) [
      | true ↦
          pair_loop f
            (set items wp (inner_hash sum (get_or items rp []) (get_or items (rp + 1) []))) size
            (rp + 2) (wp + 1)
      | false ↦ pair_loop f (set items wp (get_or items rp [])) size (rp + 1) (wp + 1)
    ]
    | false ↦ (items, wp)
  ]

  -- for { switch size { … } }: a level of two nodes or more gets smaller, so the size is fuel
  -- enough; what stands for spent fuel is the empty hash.
  unfoldable pub level_loop : ℕ → List Bytes → ℕ → Bytes
  level_loop zero items size = empty_hash sum
  level_loop (suc f) items zero = empty_hash sum
  level_loop (suc f) items (suc zero) = get_or items 0 []
  level_loop (suc f) items (suc (suc n)) =
      let (items', wp) = pair_loop (suc (suc n)) items (suc (suc n)) 0 0 in level_loop f items' wp

  unfoldable pub hash_from_byte_slices_iterative : List Bytes → Bytes
  unfolding pair_loop level_loop leaf_hash inner_hash empty_hash
  hash_from_byte_slices_iterative input =
      level_loop (suc (length input)) (map (leaf_hash sum) input) (length input)
