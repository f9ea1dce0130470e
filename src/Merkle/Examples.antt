-- ===== src/Merkle/Examples.antt =====
-- Runs of the Merkle tree on three leaves, with a digest that keeps the first 32 bytes.
use bft.Base.{
  ℕ, ◌*◌, ◌^◌, ◌<◌, ◌≤◌, ◌≡◌, ◌⊎◌, refl, none, some, List, [], ◌∷◌, ◌++◌, arith, get_elem?, take,
  replicate, length-take, length-append, length-replicate, Bytes,
}
use bft.Base.ByteStrings.{bytes_equal}
use bft.Base.Int.{pos}
use bft.Merkle.Hash.{HasSize, Collision, leaf_hash}
use bft.Merkle.Split.{split, split_bounds}
use bft.Merkle.Tree.{hash_from_byte_slices}
use bft.Merkle.Iterative.{hash_from_byte_slices_iterative}
use bft.Merkle.Iterative.Equivalence.{iterative-eq-recursive}
use bft.Merkle.Proof.{Proof, climb, proofs_from_byte_slices, verify}
use bft.Merkle.Proof.Complete.{proofs-verify}
use bft.Merkle.Proof.Sound.{verify_sound}

abbrev digest : Bytes → Bytes
digest b = take 32 (b ++ replicate 32 0)

digest-HasSize : HasSize digest
digest-HasSize b = omega (
  arith,
  length-take 32 (b ++ replicate 32 0),
  length-append b (replicate 32 0),
  length-replicate {A = ℕ} 32 0,
)

abbrev leaves : List Bytes
leaves = (7 ∷ []) ∷ (8 ∷ 9 ∷ []) ∷ [] ∷ []

abbrev one : List Bytes
one = (7 ∷ []) ∷ []

abbrev single : Proof
single = record { total = pos 1; index = pos 0; leaf_hash = leaf_hash digest (7 ∷ []); aunts = [] }

iterative-eq-recursive_example :
    hash_from_byte_slices_iterative digest leaves ≡ hash_from_byte_slices digest leaves
iterative-eq-recursive_example = iterative-eq-recursive digest leaves

proofs-verify_example :
    ((proofs_from_byte_slices digest leaves).0 ≡ hash_from_byte_slices digest leaves)
    × ((p : Proof) × (get_elem? (proofs_from_byte_slices digest leaves).1 1 ≡ some p)
        × (p.index ≡ pos 1)
        × (p.total ≡ pos 3)
        × (verify digest p (hash_from_byte_slices digest leaves) (8 ∷ 9 ∷ []) ≡ none))
proofs-verify_example = proofs-verify digest leaves 1 (8 ∷ 9 ∷ []) refl

accepted : verify digest single (hash_from_byte_slices digest one) (7 ∷ []) ≡ none
unfolding verify bytes_equal leaf_hash climb hash_from_byte_slices
accepted = refl

verify_sound_example :
    ((i : ℕ) × (single.index ≡ pos i) × (get_elem? one i ≡ some (7 ∷ []))) ⊎ Collision digest
verify_sound_example = verify_sound digest digest-HasSize one single (7 ∷ []) refl accepted

split_bounds_example : (e : ℕ) × (split 5 ≡ 2 ^ e) × (2 ^ e < 5) × (5 ≤ 2 ^ e * 2)
split_bounds_example = split_bounds 5 (omega arith)
