-- ===== src/Bits.antt =====
-- libs/bits/bit_array.go: an array of bits in 64-bit words. A nil *BitArray is `none`; so is, as the
-- result of an operation that may index out of range, a panic. Indices are not negative: the code
-- is only called with such. The mutex guards each method as a whole and is not modelled, nor are
-- the string form and `PickRandom`, which reads a random source.
mod Examples
pub mod Word
pub mod Access
pub mod Marks
use Prim.Native.Nat.{bit_and, bit_or}
use bft.Base.{
  ℕ, zero, suc, ◌+◌, ◌-◌, ◌*◌, ◌/◌, ◌%◌, ◌^◌, ◌≤◌, ◌<◌, ◌≡◌, refl, Bool, true, false, not, Option,
  none, some, List, [], ◌∷◌, ltb, leb, ◌==◌, if◌then◌else◌, length, get_elem?, get_or, set,
  replicate, min, max, map, ◌++◌,
}
use Word.{word_mod, shl_one, word_not, and_not, test}

pub record BitArray : Type 0 where
  pub bits : ℕ
  pub elems : List ℕ

abbrev pub words : ℕ → ℕ
words bits = (bits + 63) / 64

-- NewBitArray: nil unless the size is positive.
unfoldable pub new_bit_array : ℕ → Option BitArray
new_bit_array zero = none
new_bit_array (suc n) = some (record { bits = suc n; elems = replicate (words (suc n)) 0 })

unfoldable pub size : Option BitArray → ℕ
size none = 0
size (some b) = b.bits

-- The read of the word may be out of range.
unfoldable pub get_index' : BitArray → ℕ → Option Bool
unfolding test
get_index' b i =
    if leb b.bits i
    then some false
    else elim (get_elem? b.elems (i / 64)) [ none ↦ none | some e ↦ some (test e (i % 64)) ]

unfoldable pub get_index : Option BitArray → ℕ → Option Bool
unfolding get_index'
get_index none i = some false
get_index (some b) i = get_index' b i

-- The new word of `setIndex`.
unfoldable pub set_bit : ℕ → ℕ → Bool → ℕ
set_bit e j true = bit_or e (shl_one j)
set_bit e j false = bit_and e (word_not (shl_one j))

unfoldable pub set_index' : BitArray → ℕ → Bool → Option (BitArray × Bool)
set_index' b i v = if leb b.bits i then some (b, false) else elim (get_elem? b.elems (i / 64)) [
  | none ↦ none
  | some e ↦ some (record b { elems = set b.elems (i / 64) (set_bit e (i % 64) v) }, true)
]

unfoldable pub set_index : Option BitArray → ℕ → Bool → Option (Option BitArray × Bool)
unfolding set_index'
set_index none i v = some (none, false)
set_index (some b) i v = elim (set_index' b i v) [ none ↦ none | some (b', r) ↦ some (some b', r) ]

-- The array that SetIndex(i, true) leaves; its result is not used.
unfoldable pub mark : Option BitArray → ℕ → Option (Option BitArray)
mark b i = elim (set_index b i true) [ none ↦ none | some (b', _) ↦ some b' ]

-- The built-in `copy`, onto the front of `dst`.
unfoldable pub copy_onto : List ℕ → List ℕ → List ℕ
copy_onto [] src = []
copy_onto (d ∷ dst) [] = d ∷ dst
copy_onto (d ∷ dst) (s ∷ src) = s ∷ copy_onto dst src

unfoldable pub copy_bits : BitArray → ℕ → BitArray
unfolding copy_onto
copy_bits b n = record { bits = n; elems = copy_onto (replicate (words n) 0) b.elems }

-- for i := 0; i < n; i++ { c[i] = op(c[i], o[i]) }
unfoldable pub combine : (ℕ → ℕ → ℕ) → ℕ → List ℕ → List ℕ → Option (List ℕ)
combine op zero cs os = some cs
combine op (suc n) [] os = none
combine op (suc n) (c ∷ cs) [] = none
combine op (suc n) (c ∷ cs) (o ∷ os) = elim (combine op n cs os) [
  | none ↦ none
  | some r ↦ some (op c o ∷ r)
]

abbrev pub with_elems : ℕ → Option (List ℕ) → Option (Option BitArray)
with_elems n none = none
with_elems n (some es) = some (some (record { bits = n; elems = es }))

unfoldable pub or : Option BitArray → Option BitArray → Option (Option BitArray)
unfolding copy_bits combine
or none o = some o
or (some b) none = some (some b)
or (some b) (some o) = with_elems (max b.bits o.bits) (
    combine bit_or (min (length b.elems) (length o.elems)) (copy_bits b (max b.bits o.bits)).elems
      o.elems)

unfoldable pub and : Option BitArray → Option BitArray → Option (Option BitArray)
unfolding copy_bits combine
and none o = some none
and (some b) none = some none
and (some b) (some o) =
    let c = copy_bits b (min b.bits o.bits) in
    with_elems (min b.bits o.bits) (combine bit_and (length c.elems) c.elems o.elems)

unfoldable pub negate : Option BitArray → Option BitArray
negate none = none
negate (some b) = some (record b { elems = map word_not b.elems })

unfoldable pub sub : Option BitArray → Option BitArray → Option (Option BitArray)
unfolding copy_bits combine
sub none o = some none
sub (some b) none = some none
sub (some b) (some o) =
    with_elems b.bits
      (combine and_not (min (length b.elems) (length o.elems)) (copy_bits b b.bits).elems o.elems)

-- for _, e := range bA.Elems { if e > 0 { return false } }
unfoldable pub all_zero : List ℕ → Bool
all_zero [] = true
all_zero (e ∷ es) = if ltb 0 e then false else all_zero es

unfoldable pub is_empty : Option BitArray → Bool
unfolding all_zero
is_empty none = true
is_empty (some b) = all_zero b.elems

-- All words but the last are ones; the last word plus one has no bit under the mask. A shift by 64
-- gives 0, so the mask of a full last word is all ones.
unfoldable pub full_words : ℕ → List ℕ → Option Bool
unfolding word_not
full_words last_bits [] = none
full_words last_bits (e ∷ []) =
    some (bit_and ((e + 1) % word_mod) ((2 ^ last_bits % word_mod + word_mod - 1) % word_mod) == 0)
full_words last_bits (e ∷ f ∷ es) =
    if word_not e == 0 then full_words last_bits (f ∷ es) else some false

unfoldable pub is_full : Option BitArray → Option Bool
unfolding full_words
is_full none = some true
is_full (some b) = full_words ((b.bits + 63) % 64 + 1) b.elems

-- for j := 0; j < n; j++ { test the bit j0 + j; curBit++ }
unfoldable pub scan_bits : ℕ → ℕ → ℕ → ℕ → List ℕ
unfolding test
scan_bits e zero j cur = []
scan_bits e (suc n) j cur =
    let rest = scan_bits e n (j + 1) (cur + 1) in if test e j then cur ∷ rest else rest

-- A word of zeros is skipped; the last word has the bits that are left.
unfoldable pub scan_words : ℕ → List ℕ → ℕ → Option (List ℕ)
unfolding scan_bits
scan_words bits [] cur = none
scan_words bits (e ∷ []) cur = some (scan_bits e (bits - cur) 0 cur)
scan_words bits (e ∷ f ∷ es) cur = elim (scan_words bits (f ∷ es) (cur + 64)) [
  | none ↦ none
  | some rest ↦ some (if e == 0 then rest else scan_bits e 64 0 cur ++ rest)
]

unfoldable pub get_true_indices : BitArray → Option (List ℕ)
unfolding scan_words
get_true_indices b = scan_words b.bits b.elems 0

unfoldable pub update : BitArray → BitArray → BitArray
unfolding copy_onto
update b o = record b { elems = copy_onto b.elems o.elems }
