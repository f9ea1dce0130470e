-- ===== src/Bits/Marks.antt =====
-- Setting the bits of an array that may be nil, as its callers hold it.
use bft.Base.{ℕ, ◌<◌, ◌≡◌, refl, true, Option, some, arith, ◌∙◌}
use bft.Bits.{BitArray, mark, new_bit_array, set_index}
use bft.Bits.Access.{IsWellFormed, get_index-set_index, new_bit_array_lem}

-- A bit array of `n` bits, where there are any.
pub record HasBits (n : ℕ) (b : Option BitArray) : Type 0 where
  pub array : 0 < n → (a : BitArray) × (b ≡ some a) × (a.bits ≡ n) × IsWellFormed a

pub mark-HasBits :
    (n i : ℕ) (b : Option BitArray)
    → HasBits n b
    → i < n
    → (b' : Option BitArray) × (mark b i ≡ some b') × HasBits n b'
unfolding mark set_index
mark-HasBits n i b h lt =
    let (a, same, size, formed) = h.array (omega arith) in
    let (a', written, size', formed', _) = get_index-set_index a i i true formed (omega arith) in
    (
      some a',
      rw same (ground (arith, written)),
      record { array = λ _. (a', refl, size' ∙ size, formed') },
    )

pub new_bit_array-HasBits : (n : ℕ) → HasBits n (new_bit_array n)
new_bit_array-HasBits n = record {
  array = λ h. let (a, same, size, formed, _) = new_bit_array_lem n 0 h in (a, same, size, formed);
}
