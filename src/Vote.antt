-- ===== src/Vote.antt =====
-- The Vote of types/vote.go. The string form and the copies to and from protobuf, which carry the
-- same fields, are not modelled.
use bft.Base.{
  ℕ, Bool, ◌&&◌, ◌||◌, not, Option, none, some, ltb, ◌==◌, if◌then◌else◌, length, Bytes,
  bytes_equal,
}
use bft.Base.Int.{ℤ, is_neg}
use bft.BlockId.{BlockId, BlockIdError, is_zero, is_complete}
use bft.BlockId
use bft.External.{Keys}

-- prototypes.SignedMsgType
abbrev pub prepare_type : ℕ
prepare_type = 1

abbrev pub commit_type : ℕ
commit_type = 2

-- crypto.AddressSize
abbrev pub address_size : ℕ
address_size = 20

abbrev pub max_signature_size : ℕ
max_signature_size = 64

pub record Vote : Type 0 where
  pub type : ℕ
  pub height : ℤ
  pub round : ℤ
  pub block_id : BlockId
  pub timestamp : ℤ
  pub validator_address : Bytes
  pub validator_index : ℤ
  pub signature : Bytes

unfoldable pub is_vote_type_valid : ℕ → Bool
is_vote_type_valid t = (t == prepare_type) || (t == commit_type)

pub data VoteBasicError : Type 0 where
  invalid_type negative_height negative_round : VoteBasicError
  wrong_block_id : BlockIdError → VoteBasicError
  incomplete_block_id address_length negative_index no_signature big_signature : VoteBasicError

unfoldable pub validate_basic : Vote → Option VoteBasicError
unfolding is_vote_type_valid
validate_basic v =
    if not (is_vote_type_valid v.type)
    then some invalid_type
    else if is_neg v.height
    then some negative_height
    else if is_neg v.round
    then some negative_round
    else elim (BlockId.validate_basic v.block_id) [
      | some e ↦ some (wrong_block_id e)
      | none ↦
          if not (is_zero v.block_id) && not (is_complete v.block_id)
          then some incomplete_block_id
          else if not (length v.validator_address == address_size)
          then some address_length
          else if is_neg v.validator_index
          then some negative_index
          else if length v.signature == 0
          then some no_signature
          else if ltb max_signature_size (length v.signature)
          then some big_signature
          else none
    ]

pub data VerifyError : Type 0 where
  invalid_validator_address invalid_signature : VerifyError

-- `sign_bytes` is VoteSignBytes, the generated encoding of the canonical vote.
module _ (K : Keys) (sign_bytes : Bytes → Vote → Bytes) where
  unfoldable pub verify : Vote → Bytes → K.PubKey → Option VerifyError
  verify v chain_id pub_key =
      if not (bytes_equal (K.address pub_key) v.validator_address)
      then some invalid_validator_address
      else if not (K.verify_signature pub_key (sign_bytes chain_id v) v.signature)
      then some invalid_signature
      else none
