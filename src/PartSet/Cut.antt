-- ===== src/PartSet/Cut.antt =====
-- `NewPartSetFromData` of types/part_set.go: the data cut into parts, and the proofs of the parts.
use bft.Base.{
  ℕ, zero, suc, ◌+◌, ◌-◌, ◌*◌, ◌/◌, ◌%◌, ◌^◌, Option, none, some, List, [], ◌∷◌, ltb, ◌==◌,
  if◌then◌else◌, min, length, take, drop, Bytes,
}
use bft.Bits.{BitArray, mark, new_bit_array}
use bft.Merkle.Proof.{Proof, proofs_from_byte_slices}
use bft.PartSet.{Part, PartSet}

-- b[lo:hi]; `none` is the panic.
abbrev pub slice : ℕ → ℕ → Bytes → Option Bytes
slice lo hi b =
    if ltb hi lo
    then none
    else if ltb (length b) hi
    then none
    else some (take (hi - lo) (drop lo b))

-- The parts from `i` on, `n` of them; the offsets are uint32.
unfoldable pub cut : Bytes → ℕ → ℕ → ℕ → Option (List Bytes)
cut content size zero i = some []
cut content size (suc n) i =
    elim (slice ((i * size) % 2 ^ 32) (min (length content) (((i + 1) * size) % 2 ^ 32)) content) [
      | none ↦ none
      | some part ↦ elim (cut content size n (i + 1)) [
        | none ↦ none
        | some rest ↦ some (part ∷ rest)
      ]
    ]

unfoldable pub mark_all : ℕ → ℕ → Option BitArray → Option (Option BitArray)
mark_all zero i b = some b
mark_all (suc n) i b = elim (mark b i) [ none ↦ none | some b' ↦ mark_all n (i + 1) b' ]

unfoldable pub with_proofs : ℕ → List Bytes → List Proof → Option (List (Option Part))
with_proofs i [] proofs = some []
with_proofs i (bytes ∷ rest) [] = none
with_proofs i (bytes ∷ rest) (proof ∷ proofs) = elim (with_proofs (i + 1) rest proofs) [
  | none ↦ none
  | some parts ↦ some (some (record { index = i; bytes = bytes; proof = proof }) ∷ parts)
]

-- (uint32(len(data)) + partSize - 1) / partSize
abbrev pub part_count : ℕ → ℕ → ℕ
part_count len size = ((len % 2 ^ 32 + size + (2 ^ 32 - 1)) % 2 ^ 32) / size

module _ (sum : Bytes → Bytes) where
  -- The parts and the array, from the pieces.
  unfoldable pub assemble : Bytes → ℕ → List Bytes → Option PartSet
  unfolding mark_all with_proofs
  assemble content total pieces = elim (mark_all total 0 (new_bit_array total)) [
    | none ↦ none
    | some bits ↦ elim (with_proofs 0 pieces (proofs_from_byte_slices sum pieces).1) [
      | none ↦ none
      | some parts ↦ some (record {
        total = total;
        hash = (proofs_from_byte_slices sum pieces).0;
        parts = parts;
        parts_bit_array = bits;
        count = total;
        byte_size = length content;
      })
    ]
  ]

  -- A size of 0 is a division by zero.
  unfoldable pub new_part_set_from_data : Bytes → ℕ → Option PartSet
  unfolding cut assemble
  new_part_set_from_data content size =
      if size == 0 then none else elim (cut content size (part_count (length content) size) 0) [
        | none ↦ none
        | some pieces ↦ assemble content (part_count (length content) size) pieces
      ]
