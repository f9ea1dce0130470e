-- ===== src/PrePrepare.antt =====
-- types/pre_prepare.go: the proposal of a block for a round. The string and the protobuf forms are
-- not modelled.
use bft.Base.{ℕ, not, Option, none, some, [], ltb, ◌==◌, if◌then◌else◌, length, Bytes}
use bft.Base.Int.{ℤ, negsuc, is_neg, ltb_ℤ}
use bft.BlockId.{BlockId, BlockIdError, is_complete}
use bft.BlockId
use bft.Vote.{max_signature_size}

-- prototypes.PrePrepareType
abbrev pub pre_prepare_type : ℕ
pre_prepare_type = 32

pub record PrePrepare : Type 0 where
  pub type : ℕ
  pub height : ℤ
  pub round : ℤ
  pub pol_round : ℤ
  pub block_id : BlockId
  pub timestamp : ℤ
  pub signature : Bytes

abbrev pub new_pre_prepare : ℤ → ℤ → ℤ → BlockId → ℤ → PrePrepare
new_pre_prepare height round pol_round block_id now = record {
  type = pre_prepare_type;
  height = height;
  round = round;
  pol_round = pol_round;
  block_id = block_id;
  timestamp = now;
  signature = [];
}

pub data PrePrepareError : Type 0 where
  invalid_type negative_height negative_round negative_pol_round : PrePrepareError
  wrong_block_id : BlockIdError → PrePrepareError
  incomplete_block_id no_signature big_signature : PrePrepareError

unfoldable pub validate_basic : PrePrepare → Option PrePrepareError
validate_basic p =
    if not (p.type == pre_prepare_type)
    then some invalid_type
    else if is_neg p.height
    then some negative_height
    else if is_neg p.round
    then some negative_round
    else if ltb_ℤ p.pol_round (negsuc 0)
    then some negative_pol_round
    else elim (BlockId.validate_basic p.block_id) [
      | some e ↦ some (wrong_block_id e)
      | none ↦
          if not (is_complete p.block_id)
          then some incomplete_block_id
          else if length p.signature == 0
          then some no_signature
          else if ltb max_signature_size (length p.signature)
          then some big_signature
          else none
    ]
