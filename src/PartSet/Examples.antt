-- ===== src/PartSet/Examples.antt =====
-- Runs of a part set, with the bytes themselves for their hash.
use bft.Base.{
  ℕ, ◌<◌, ◌≡◌, ◌↔◌, refl, Bool, true, false, Option, none, some, [], ◌∷◌, arith, length, get_elem?,
  Bytes,
}
use bft.Base.ByteStrings.{bytes_equal}
use bft.Base.Int.{pos}
use bft.BlockId.{PartSetHeader}
use bft.Merkle.Hash.{leaf_hash}
use bft.Merkle.Proof.{verify, climb}
use bft.PartSet.{
  Part, PartSet, AddError, add_part, get_reader, is_complete, new_part_set_from_header,
}
use bft.PartSet.Invariant.{IsValid, present, new_part_set_from_header-IsValid}
use bft.PartSet.Add.{Outcome, add_part_total, add_part_elsewhere, is_complete-iff-present}
use bft.PartSet.Cut.{new_part_set_from_data}
use bft.PartSet.RoundTrip.{IsNumbered, get_reader-new_part_set_from_data}

abbrev plain : Bytes → Bytes
plain b = b

abbrev two : PartSetHeader
two = record { total = 2; hash = 0 ∷ 7 ∷ [] }

abbrev start : PartSet
start = new_part_set_from_header two

abbrev part : Part
part = record {
  index = 0;
  bytes = 7 ∷ [];
  proof = record { total = pos 1; index = pos 0; leaf_hash = 0 ∷ 7 ∷ []; aunts = [] };
}

new_part_set_from_header-IsValid_example : IsValid start
new_part_set_from_header-IsValid_example = new_part_set_from_header-IsValid two (omega arith)

start-IsValid : IsValid start
start-IsValid = new_part_set_from_header-IsValid two (omega arith)

is_complete-iff-present_example :
    (is_complete start ≡ true) ↔ ((j : ℕ) → j < start.total → present start.parts j ≡ true)
is_complete-iff-present_example = is_complete-iff-present start start-IsValid

add_part_total_example :
    (r : PartSet × Bool × Option AddError) × (add_part plain start part ≡ some r)
    × IsValid r.0
    × Outcome plain start part r
add_part_total_example = add_part_total plain start part start-IsValid

proved : verify plain part.proof start.hash part.bytes ≡ none
unfolding verify climb leaf_hash bytes_equal new_part_set_from_header
proved = refl

second_free : present start.parts 1 ≡ false
unfolding new_part_set_from_header
second_free = refl

below : 1 < start.total
unfolding new_part_set_from_header
below = omega arith

-- The part and the proof of index 0 are taken at index 1.
add_part_elsewhere_example :
    (ps' : PartSet) × (add_part plain start (record part { index = 1 }) ≡ some (ps', true, none))
    × (get_elem? ps'.parts 1 ≡ some (some (record part { index = 1 })))
add_part_elsewhere_example =
    add_part_elsewhere plain start part 1 start-IsValid proved below second_free

abbrev five : Bytes
five = 1 ∷ 2 ∷ 3 ∷ 4 ∷ 5 ∷ []

get_reader-new_part_set_from_data_example :
    (ps : PartSet) × (new_part_set_from_data plain five 2 ≡ some ps)
    × (get_reader ps ≡ some five)
    × (length ps.parts ≡ ps.total)
    × IsNumbered plain ps.hash 0 ps.parts
get_reader-new_part_set_from_data_example =
    get_reader-new_part_set_from_data plain five 2 (omega arith) (omega arith) (omega arith)
