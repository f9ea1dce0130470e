-- ===== src/ValidatorSet/Examples.antt =====
-- Updates and elections in small validator sets, with whole numbers for the powers and a hash that
-- pads its argument.
use bft.Base.{
  ℕ, ◌≡◌, ◌↔◌, refl, none, some, List, [], ◌∷◌, ◌++◌, arith, Bytes, take, replicate, length-take,
  length-append, length-replicate,
}
use bft.Base.ByteOrder.{bytes_lt}
use bft.Base.ByteStrings.{bytes_equal}
use bft.Base.Int.{pos}
use bft.BlockId.{zero_id}
use bft.Merkle.Hash.{HasSize}
use bft.Samples.{whole, plain}
use bft.ValidatorSet.{
  Changes, ChangeError, Val, ValidatorSet, find, process_changes, update_with_change_set, updated,
  hash_times, iterate_to_get_primary,
}
use bft.ValidatorSet.Sorted.{IsSorted}
use bft.ValidatorSet.Refusals.{AreChanges, update_with_change_set-iff-AreChanges}
use bft.ValidatorSet.Updates.{override, update_with_change_set_lem}
use bft.ValidatorSet.Primary.{IsElected, iterate_to_get_primary_lem}

abbrev validator : ℕ → ℕ → Val plain whole
validator a power = record {
  address = a ∷ [];
  pub_key = some (a ∷ []);
  voting_power = power;
  type = 2;
  trust = 1;
}

abbrev old : ValidatorSet plain whole
old = record { validators = validator 1 5 ∷ validator 4 5 ∷ []; primary = none }

abbrev changes : List (Val plain whole)
changes = validator 4 7 ∷ validator 2 6 ∷ []

abbrev new : ValidatorSet plain whole
new = record { validators = validator 1 5 ∷ validator 2 6 ∷ validator 4 7 ∷ []; primary = none }

old-IsSorted : IsSorted plain whole old.validators
old-IsSorted = unfold bytes_lt in ((refl, _), (_, _))

changed : update_with_change_set plain whole old changes ≡ updated new
unfolding update_with_change_set process_changes bytes_lt bytes_equal
changed = refl

update_with_change_set_lem_example :
    IsSorted plain whole new.validators
    × (new.primary ≡ none)
    × ((a : Bytes)
        → find plain whole a new.validators
          ≡ override plain whole (find plain whole a changes) (find plain whole a old.validators))
update_with_change_set_lem_example =
    update_with_change_set_lem plain whole old new changes old-IsSorted changed

abbrev digest : Bytes → Bytes
digest b = take 32 (b ++ replicate 32 0)

digest-HasSize : HasSize digest
digest-HasSize b = omega (
  arith,
  length-take 32 (b ++ replicate 32 0),
  length-append b (replicate 32 0),
  length-replicate {A = ℕ} 32 0,
)

iterate_to_get_primary_lem_example :
    (vals : ValidatorSet plain whole) × (iterate_to_get_primary plain whole digest new zero_id
        (pos 1)
      ≡ some vals)
    × IsElected plain whole digest (hash_times plain whole digest 2 zero_id.hash) new vals
iterate_to_get_primary_lem_example =
    iterate_to_get_primary_lem plain whole digest new zero_id 1 digest-HasSize

update_with_change_set-iff-AreChanges_example :
    ((vals : ValidatorSet plain whole) × (update_with_change_set plain whole old changes
        ≡ updated vals))
    ↔ AreChanges plain whole changes
update_with_change_set-iff-AreChanges_example =
    update_with_change_set-iff-AreChanges plain whole old changes

-- A change of a validator without an address is refused, even if it is the only one.
refused_alone :
    process_changes plain whole (record (validator 1 5) { address = [] } ∷ [])
    ≡ Changes.refused ChangeError.duplicate_entry
unfolding process_changes bytes_equal
refused_alone = refl
