-- ===== src/BlockId.antt =====
-- types/blockID.go and the PartSetHeader of types/part_set.go. The string forms and the copies to
-- and from protobuf are not modelled.
use bft.Base.{
  ℕ, ◌≡◌, Bool, true, ◌&&◌, not, Option, none, some, [], ◌++◌, arith, ltb, ◌==◌, if◌then◌else◌,
  length, Bytes, bytes_equal, bytes_equal_sound, bytes_equal_refl,
}

-- srhash.Size, the length of a SHA-256 digest
abbrev pub hash_size : ℕ
hash_size = 32

pub record PartSetHeader : Type 0 where
  pub total : ℕ
  pub hash : Bytes

pub record BlockId : Type 0 where
  pub hash : Bytes
  pub parts : PartSetHeader

unfoldable pub header_is_zero : PartSetHeader → Bool
header_is_zero h = (h.total == 0) && (length h.hash == 0)

unfoldable pub header_equals : PartSetHeader → PartSetHeader → Bool
header_equals h o = (h.total == o.total) && bytes_equal h.hash o.hash

-- srhash.ValidateHash: true where it returns an error
unfoldable pub bad_hash : Bytes → Bool
bad_hash h = ltb 0 (length h) && not (length h == hash_size)

unfoldable pub equals : BlockId → BlockId → Bool
unfolding header_equals
equals b o = bytes_equal b.hash o.hash && header_equals b.parts o.parts

unfoldable pub is_zero : BlockId → Bool
unfolding header_is_zero
is_zero b = (length b.hash == 0) && header_is_zero b.parts

unfoldable pub is_complete : BlockId → Bool
is_complete b =
    (length b.hash == hash_size) && (ltb 0 b.parts.total && (length b.parts.hash == hash_size))

pub data BlockIdError : Type 0 where
  wrong_hash wrong_part_set_header : BlockIdError

unfoldable pub validate_basic : BlockId → Option BlockIdError
unfolding bad_hash
validate_basic b =
    if bad_hash b.hash
    then some wrong_hash
    else if bad_hash b.parts.hash
    then some wrong_part_set_header
    else none

-- The zero value BlockID{}.
abbrev pub zero_id : BlockId
zero_id = record { hash = []; parts = record { total = 0; hash = [] } }

-- `marshal` is the generated protobuf encoding of a PartSetHeader.
unfoldable pub key : (PartSetHeader → Bytes) → BlockId → Bytes
key marshal b = b.hash ++ marshal b.parts

-- `Equals` decides equality.
pub equals_sound : (b o : BlockId) → equals b o ≡ true → b ≡ o
unfolding equals
equals_sound b o e =
    ground (arith, bytes_equal_sound b.hash o.hash, bytes_equal_sound b.parts.hash o.parts.hash)

pub equals_refl : (b : BlockId) → equals b b ≡ true
unfolding equals
equals_refl b = ground (arith, bytes_equal_refl b.hash, bytes_equal_refl b.parts.hash)
