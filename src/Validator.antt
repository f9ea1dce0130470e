-- ===== src/Validator.antt =====
-- types/validator.go. The string form and the protobuf copies are not modelled.
use bft.Base.{ℕ, not, Option, none, some, if◌then◌else◌, ◌==◌, length, Bytes}
use bft.External.{Keys, Float64}
use bft.Vote.{address_size}

-- prototypes.ValidatorType
abbrev pub candidate_primary : ℕ
candidate_primary = 0

pub record Validator (K : Keys) (F : Float64) : Type 0 where
  pub address : Bytes
  pub pub_key : Option K.PubKey
  pub voting_power : F.Float
  pub type : ℕ
  pub trust : F.Float

pub data ValidatorError : Type 0 where
  nil_validator no_public_key negative_power wrong_address_size : ValidatorError

module _ (K : Keys) (F : Float64) where
  unfoldable pub new_validator : K.PubKey → F.Float → Validator K F
  new_validator pub_key power = record {
    address = K.address pub_key;
    pub_key = some pub_key;
    voting_power = power;
    type = candidate_primary;
    trust = F.of_ℕ 1;
  }

  -- A nil *Validator is `none`.
  unfoldable pub validate_basic : Option (Validator K F) → Option ValidatorError
  validate_basic none = some nil_validator
  validate_basic (some v) = elim v.pub_key [
    | none ↦ some no_public_key
    | some _ ↦
        if F.lt v.voting_power (F.of_ℕ 0)
        then some negative_power
        else if not (length v.address == address_size)
        then some wrong_address_size
        else none
  ]
