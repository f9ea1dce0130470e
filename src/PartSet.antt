-- ===== src/PartSet.antt =====
-- The Part and the PartSet of types/part_set.go: a block cut into parts that are sent one by one,
-- each with a proof for the root that the header names. A panic is `none`; a nil *PartSet is `none`
-- in the argument. The mutex, the string and protobuf forms are not modelled, and the reader is the
-- list of bytes that reading it to the end gives.
mod Examples
pub mod Invariant
pub mod Add
pub mod Cut
pub mod RoundTrip
use bft.Base.{
  ℕ, zero, suc, ◌+◌, ◌-◌, ◌*◌, ◌/◌, ◌%◌, ◌^◌, ◌≡◌, Bool, true, false, Option, none, some, List, [],
  ◌∷◌, ◌++◌, ltb, leb, ◌==◌, if◌then◌else◌, length, get_elem?, set, replicate, Bytes, bytes_equal,
}
use bft.Bits.{BitArray, new_bit_array, mark}
use bft.BlockId.{PartSetHeader, header_equals, bad_hash, BlockIdError, wrong_part_set_header}
use bft.Merkle.Proof.{Proof, BasicError, verify}
use bft.Merkle.Tree.{hash_from_byte_slices}
use bft.Merkle.Proof

abbrev pub max_part_size : ℕ
max_part_size = 65536

pub record Part : Type 0 where
  pub index : ℕ
  pub bytes : Bytes
  pub proof : Proof

pub data PartError : Type 0 where
  too_big : PartError
  wrong_proof : BasicError → PartError

unfoldable pub validate_basic : Part → Option PartError
validate_basic p =
    if ltb max_part_size (length p.bytes)
    then some too_big
    else elim (Proof.validate_basic p.proof) [ none ↦ none | some e ↦ some (wrong_proof e) ]

pub record PartSet : Type 0 where
  pub total : ℕ
  pub hash : Bytes
  pub parts : List (Option Part)
  pub parts_bit_array : Option BitArray
  pub count : ℕ
  pub byte_size : ℕ

unfoldable pub new_part_set_from_header : PartSetHeader → PartSet
new_part_set_from_header h = record {
  total = h.total;
  hash = h.hash;
  parts = replicate h.total none;
  parts_bit_array = new_bit_array h.total;
  count = 0;
  byte_size = 0;
}

unfoldable pub header : Option PartSet → PartSetHeader
header none = record { total = 0; hash = [] }
header (some ps) = record { total = ps.total; hash = ps.hash }

unfoldable pub header_equals_to : Option PartSet → PartSetHeader → Bool
unfolding header
header_equals_to none h = false
header_equals_to (some ps) h = header_equals (header (some ps)) h

unfoldable pub hashes_to : Option PartSet → Bytes → Bool
hashes_to none hash = false
hashes_to (some ps) hash = bytes_equal ps.hash hash

unfoldable pub is_complete : PartSet → Bool
is_complete ps = ps.count == ps.total

pub data AddError : Type 0 where
  unexpected_index invalid_proof : AddError

-- The set with one more part; the count is a uint32.
abbrev pub with_part : PartSet → Part → Option BitArray → PartSet
with_part ps part bits = record ps {
  parts = set ps.parts part.index (some part);
  parts_bit_array = bits;
  count = (ps.count + 1) % 2 ^ 32;
  byte_size = ps.byte_size + length part.bytes;
}

module _ (sum : Bytes → Bytes) where
  unfoldable pub hash_of : Option PartSet → Bytes
  hash_of none = hash_from_byte_slices sum []
  hash_of (some ps) = ps.hash

  -- The part goes to an empty place.
  unfoldable pub add_new : PartSet → Part → Option (PartSet × Bool × Option AddError)
  add_new ps part = elim (verify sum part.proof ps.hash part.bytes) [
    | some _ ↦ some (ps, false, some invalid_proof)
    | none ↦ elim (mark ps.parts_bit_array part.index) [
      | none ↦ none
      | some bits ↦ some (with_part ps part bits, true, none)
    ]
  ]

  -- AddPart on a set that is not nil: the new set, and the two results.
  unfoldable pub add_part : PartSet → Part → Option (PartSet × Bool × Option AddError)
  unfolding add_new
  add_part ps part =
      if leb ps.total part.index
      then some (ps, false, some unexpected_index)
      else elim (get_elem? ps.parts part.index) [
        | none ↦ none
        | some (some _) ↦ some (ps, false, none)
        | some none ↦ add_new ps part
      ]

-- GetReader, read to the end; `none` is the panic on an incomplete set, and a part that is nil.
unfoldable pub read_parts : List (Option Part) → Option Bytes
read_parts [] = some []
read_parts (none ∷ parts) = none
read_parts (some part ∷ parts) = elim (read_parts parts) [
  | none ↦ none
  | some rest ↦ some (part.bytes ++ rest)
]

-- The reader starts at the first part, which must be there.
unfoldable pub read_all : List (Option Part) → Option Bytes
unfolding read_parts
read_all [] = none
read_all (part ∷ parts) = read_parts (part ∷ parts)

unfoldable pub get_reader : PartSet → Option Bytes
unfolding is_complete read_all
get_reader ps = if is_complete ps then read_all ps.parts else none
