-- ===== src/ValidatorSet.antt =====
-- types/validator_set.go and diffHash of types/utils.go: the validators of a height, in the order of
-- their addresses, and the primary among them. A set is updated in place through its pointer; here
-- the new set is returned. sort.Sort is an insertion sort: where two addresses are equal the order
-- that it gives is not used. A panic is `none`. The string and protobuf forms are not modelled.
mod Examples
pub mod Sorted
pub mod Updates
pub mod Refusals
pub mod Primary
use bft.Base.{
  ℕ, zero, suc, ◌+◌, ◌-◌, ◌%◌, ◌≡◌, Bool, true, false, Option, none, some, List, [], ◌∷◌, map, ltb,
  ◌==◌, if◌then◌else◌, length, get_elem?, Bytes, bytes_equal, not,
}
use bft.Base.ByteOrder.{bytes_lt}
use bft.Base.Int.{ℤ, pos, negsuc}
use bft.External.{Keys, Float64}
use bft.BlockId.{BlockId, zero_id, hash_size}
use bft.Merkle.Tree.{hash_from_byte_slices}
use bft.Validator.{Validator, ValidatorError, candidate_primary, validate_basic}

-- math.Abs(float64(a[i] - b[i])): the difference is a byte, which wraps round, and is not negative.
unfoldable pub byte_diff : ℕ → ℕ → ℕ
byte_diff a b = (a + 256 - b) % 256

unfoldable pub sum_diff : Bytes → Bytes → ℕ
unfolding byte_diff
sum_diff [] bs = 0
sum_diff (a ∷ as') [] = 0
sum_diff (a ∷ as') (b ∷ bs) = byte_diff a b + sum_diff as' bs

-- The sum of 32 bytes is exact as a float64.
unfoldable pub diff_hash : Bytes → Bytes → Option ℕ
unfolding sum_diff
diff_hash a b =
    if length a == hash_size
    then if length b == hash_size then some (sum_diff a b) else none
    else none

module _ (K : Keys) (F : Float64) where
  abbrev pub Val : Type 0
  Val = Validator K F

  pub record ValidatorSet : Type 0 where
    pub validators : List Val
    pub primary : Option Val

  unfoldable pub is_nil_or_empty : Option ValidatorSet → Bool
  is_nil_or_empty none = true
  is_nil_or_empty (some vals) = length vals.validators == 0

  unfoldable pub has_address : List Val → Bytes → Bool
  has_address [] address = false
  has_address (v ∷ vals) address =
      let rest = has_address vals address in if bytes_equal v.address address then true else rest

  -- GetByAddress, as the validator alone and with its index.
  unfoldable pub find : Bytes → List Val → Option Val
  find address [] = none
  find address (v ∷ vals) =
      let rest = find address vals in if bytes_equal v.address address then some v else rest

  unfoldable pub index_from : ℕ → Bytes → List Val → Option (ℕ × Val)
  index_from i address [] = none
  index_from i address (v ∷ vals) =
      let rest = index_from (i + 1) address vals in
      if bytes_equal v.address address then some (i, v) else rest

  -- -1 and nil where the address is missing
  unfoldable pub get_by_address : ValidatorSet → Bytes → ℤ × Option Val
  unfolding index_from
  get_by_address vals address = elim (index_from 0 address vals.validators) [
    | none ↦ (negsuc 0, none)
    | some (i, v) ↦ (pos i, some v)
  ]

  unfoldable pub get_by_index : ValidatorSet → ℤ → Option Val
  get_by_index vals (negsuc _) = none
  get_by_index vals (pos i) = get_elem? vals.validators i

  unfoldable pub validate_all : List Val → Option ValidatorError
  validate_all [] = none
  validate_all (v ∷ vals) = elim (validate_basic K F (some v)) [
    | none ↦ validate_all vals
    | some e ↦ some e
  ]

  pub data SetError : Type 0 where
    nil_or_empty : SetError
    invalid_validator invalid_primary : ValidatorError → SetError

  unfoldable pub validate_set : Option ValidatorSet → Option SetError
  unfolding validate_all
  validate_set none = some nil_or_empty
  validate_set (some vals) =
      if length vals.validators == 0
      then some nil_or_empty
      else elim (validate_all vals.validators) [
        | some e ↦ some (invalid_validator e)
        | none ↦ elim (validate_basic K F vals.primary) [
          | some e ↦ some (invalid_primary e)
          | none ↦ none
        ]
      ]

  -- sort.Sort(ValidatorsByAddress(...))
  unfoldable pub insert : Val → List Val → List Val
  insert v [] = v ∷ []
  insert v (w ∷ vals) =
      let rest = insert v vals in if bytes_lt w.address v.address then w ∷ rest else v ∷ w ∷ vals

  unfoldable pub sort : List Val → List Val
  unfolding insert
  sort [] = []
  sort (v ∷ vals) = insert v (sort vals)

  pub data ChangeError : Type 0 where
    duplicate_entry negative_power : ChangeError

  -- The loop of processChanges; the address before the first is nil.
  unfoldable pub check_changes : Bytes → List Val → Option ChangeError
  check_changes previous [] = none
  check_changes previous (v ∷ vals) =
      let rest = check_changes v.address vals in
      if bytes_equal v.address previous
      then some duplicate_entry
      else if F.lt v.voting_power (F.of_ℕ 0)
      then some negative_power
      else rest

  pub data Changes : Type 0 where
    updates : List Val → Changes
    refused : ChangeError → Changes

  unfoldable pub process_changes : List Val → Changes
  unfolding sort check_changes
  process_changes changes = elim (check_changes [] (sort changes)) [
    | none ↦ updates (sort changes)
    | some e ↦ refused e
  ]

  -- The loop of applyUpdates, and the rest of either list behind it. Every round takes from one of
  -- the lists.
  unfoldable pub merge : ℕ → List Val → List Val → List Val
  merge zero existing us = []
  merge (suc f) [] us = us
  merge (suc f) (e ∷ es) [] = e ∷ es
  merge (suc f) (e ∷ es) (u ∷ us) = elim (bytes_lt e.address u.address) [
    | true ↦ e ∷ merge f es (u ∷ us)
    | false ↦ u ∷ merge f (if bytes_equal e.address u.address then es else e ∷ es) us
  ]

  unfoldable pub apply_updates : List Val → List Val → List Val
  unfolding merge sort
  apply_updates existing us = merge (suc (length existing + length us)) (sort existing) us

  pub data Update : Type 0 where
    updated : ValidatorSet → Update
    failed : ChangeError → Update

  unfoldable pub update_with_change_set : ValidatorSet → List Val → Update
  unfolding process_changes apply_updates
  update_with_change_set vals [] = updated vals
  update_with_change_set vals (c ∷ changes) = elim (process_changes (c ∷ changes)) [
    | refused e ↦ failed e
    | updates us ↦ updated (record vals { validators = sort (apply_updates vals.validators us) })
  ]

  module _ (sum : Bytes → Bytes) where
    -- for times >= 0 { hash = srhash.Sum(hash); times-- }
    unfoldable pub hash_times : ℕ → Bytes → Bytes
    hash_times zero hash = hash
    hash_times (suc n) hash = hash_times n (sum hash)

    -- One round of the loop over the validators, with the best so far and its distance.
    unfoldable pub closer : Bytes → Option (Val × ℕ) → Val → Option (Option (Val × ℕ))
    unfolding diff_hash
    closer hash best v =
        if v.type == candidate_primary
        then elim (diff_hash hash (sum v.address)) [
          | none ↦ none
          | some d ↦ some (elim best [
            | none ↦ some (v, d)
            | some (w, least) ↦ if ltb d least then some (v, d) else some (w, least)
          ])
        ]
        else some best

    unfoldable pub closest : Bytes → Option (Val × ℕ) → List Val → Option (Option (Val × ℕ))
    unfolding closer
    closest hash best [] = some best
    closest hash best (v ∷ vals) = elim (closer hash best v) [
      | none ↦ none
      | some best' ↦ closest hash best' vals
    ]

    abbrev rounds : ℤ → ℕ
    rounds (pos n) = suc n
    rounds (negsuc n) = 0

    unfoldable pub iterate_to_get_primary : ValidatorSet → BlockId → ℤ → Option ValidatorSet
    unfolding hash_times closest
    iterate_to_get_primary vals seed times =
        elim (closest (hash_times (rounds times) seed.hash) none vals.validators) [
          | none ↦ none
          | some none ↦ some (record vals { primary = none })
          | some (some (v, d)) ↦ some (record vals { primary = some v })
        ]

    -- GetPrimary keeps the primary that it finds. The result is the set and the primary, which is
    -- copied: a nil one is a panic.
    unfoldable pub get_primary : ValidatorSet → BlockId → ℤ → Option (ValidatorSet × Option Val)
    unfolding iterate_to_get_primary
    get_primary vals seed times =
        if length vals.validators == 0 then some (vals, none) else elim vals.primary [
          | some v ↦ some (vals, some v)
          | none ↦ elim (iterate_to_get_primary vals seed times) [
            | none ↦ none
            | some vals' ↦ elim vals'.primary [ none ↦ none | some v ↦ some (vals', some v) ]
          ]
        ]

    -- What CopyIteratePrimary leaves in the receiver, which is changed itself; the copy that it returns
    -- has the same fields, and is nil for an empty set.
    unfoldable pub copy_iterate_primary : ValidatorSet → BlockId → ℤ → Option ValidatorSet
    copy_iterate_primary vals seed times =
        if length vals.validators == 0 then some vals else iterate_to_get_primary vals seed times

    abbrev share : ℕ → List Val → List Val
    share n [] = []
    share n (v ∷ vals) =
        record v { type = candidate_primary; voting_power = F.div (F.of_ℕ 10) (F.of_ℕ n) }
        ∷ share n vals

    -- `none` is the panic on an invalid list.
    unfoldable pub new_validator_set : List Val → Option ValidatorSet
    unfolding update_with_change_set iterate_to_get_primary
    new_validator_set valz =
        elim (update_with_change_set (record { validators = []; primary = none }) valz) [
          | failed e ↦ none
          | updated vals ↦
              iterate_to_get_primary
                (record vals { validators = share (length valz) vals.validators }) zero_id (pos 0)
        ]

    -- `encode` is Bytes() of a validator, generated code.
    unfoldable pub set_hash : (Val → Bytes) → ValidatorSet → Bytes
    set_hash encode vals = hash_from_byte_slices sum (map encode vals.validators)
