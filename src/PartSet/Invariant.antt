-- ===== src/PartSet/Invariant.antt =====
-- The well-formedness of a PartSet: the count, the size and the bits are those of the parts it holds.
use bft.Base.{
  ℕ, zero, suc, ◌+◌, ◌^◌, ◌≤◌, ◌<◌, ◌≡◌, refl, Bool, true, false, Option, none, some, List, [], ◌∷◌,
  arith, if◌then◌else◌, ◌==◌, length, get_elem?, set, replicate, ap, ◌∙◌, sym, length-replicate,
}
use bft.Bits.{BitArray, mark, set_index, get_index'}
use bft.Bits.Access.{IsWellFormed, get_index-set_index, new_bit_array_lem}
use bft.BlockId.{PartSetHeader}
use bft.PartSet.{Part, PartSet, new_part_set_from_header}

abbrev pub is_some : Option Part → Bool
is_some none = false
is_some (some p) = true

-- Is there a part at the index?
abbrev pub present : List (Option Part) → ℕ → Bool
present [] j = false
present (slot ∷ parts) zero = is_some slot
present (slot ∷ parts) (suc j) = present parts j

abbrev pub filled : List (Option Part) → ℕ
filled [] = 0
filled (none ∷ parts) = filled parts
filled (some p ∷ parts) = suc (filled parts)

abbrev pub bytes_in : List (Option Part) → ℕ
bytes_in [] = 0
bytes_in (none ∷ parts) = bytes_in parts
bytes_in (some p ∷ parts) = length p.bytes + bytes_in parts

-- The bits are those of the parts.
pub record Tracks (n : ℕ) (parts : List (Option Part)) (b : Option BitArray) : Type 0 where
  pub array :
      0 < n
      → (a : BitArray) × (b ≡ some a)
        × (a.bits ≡ n)
        × IsWellFormed a
        × ((j : ℕ) → get_index' a j ≡ some (present parts j))

pub record IsValid (ps : PartSet) : Type 0 where
  pub sized : length ps.parts ≡ ps.total
  -- The total is a uint32.
  pub small : ps.total < 2 ^ 32
  pub counted : ps.count ≡ filled ps.parts
  pub weighed : ps.byte_size ≡ bytes_in ps.parts
  pub tracked : Tracks ps.total ps.parts ps.parts_bit_array

pub filled-le : (parts : List (Option Part)) → filled parts ≤ length parts
filled-le [] = omega arith
filled-le (none ∷ parts) = omega (arith, filled-le parts)
filled-le (some p ∷ parts) = omega (arith, filled-le parts)

pub filled-set :
    (parts : List (Option Part)) (i : ℕ) (p : Part)
    → get_elem? parts i ≡ some none
    → filled (set parts i (some p)) ≡ suc (filled parts)
filled-set [] i p h = absurd (cc)
filled-set (none ∷ parts) zero p h = refl
filled-set (some q ∷ parts) zero p h = absurd (cc)
filled-set (none ∷ parts) (suc i) p h = filled-set parts i p h
filled-set (some q ∷ parts) (suc i) p h = ap suc (filled-set parts i p h)

pub bytes_in-set :
    (parts : List (Option Part)) (i : ℕ) (p : Part)
    → get_elem? parts i ≡ some none
    → bytes_in (set parts i (some p)) ≡ bytes_in parts + length p.bytes
bytes_in-set [] i p h = absurd (cc)
bytes_in-set (none ∷ parts) zero p h = omega arith
bytes_in-set (some q ∷ parts) zero p h = absurd (cc)
bytes_in-set (none ∷ parts) (suc i) p h = bytes_in-set parts i p h
bytes_in-set (some q ∷ parts) (suc i) p h = omega (arith, bytes_in-set parts i p h)

pub present-set :
    (parts : List (Option Part)) (i j : ℕ) (p : Part)
    → i < length parts
    → present (set parts i (some p)) j ≡ (if i == j then true else present parts j)
present-set [] i j p h = elim h [ ]
present-set (q ∷ parts) zero zero p h = ground arith
present-set (q ∷ parts) zero (suc j) p h = ground arith
present-set (q ∷ parts) (suc i) zero p h = ground arith
present-set (q ∷ parts) (suc i) (suc j) p h = present-set parts i j p (omega arith) ∙ ground arith

pub mark-Tracks :
    (n i : ℕ) (parts : List (Option Part)) (b : Option BitArray) (p : Part)
    → Tracks n parts b
    → i < n
    → length parts ≡ n
    → (b' : Option BitArray) × (mark b i ≡ some b') × Tracks n (set parts i (some p)) b'
unfolding mark set_index
mark-Tracks n i parts b p t lt sized =
    let (a, same, size, formed, reads) = t.array (omega arith) in
    let (a', written, size', formed', _) = get_index-set_index a i i true formed (omega arith) in
    (
      some a',
      rw same (ground (arith, written)),
      record {
        array = λ _. (
          a',
          refl,
          size' ∙ size,
          formed',
          λ j.
              let (a'', again, _, _, read) = get_index-set_index a i j true formed (omega arith) in
              let one : a'' ≡ a' = ground (arith, written, again) in
              let now = present-set parts i j p (omega arith) in
              ground (arith, one, read, now, reads j),
        );
      },
    )

empty_parts : (n j : ℕ) → present (replicate n none) j ≡ false
empty_parts zero j = refl
empty_parts (suc n) zero = refl
empty_parts (suc n) (suc j) = empty_parts n j

filled-replicate : (n : ℕ) → filled (replicate n none) ≡ 0
filled-replicate zero = refl
filled-replicate (suc n) = filled-replicate n

bytes_in-replicate : (n : ℕ) → bytes_in (replicate n none) ≡ 0
bytes_in-replicate zero = refl
bytes_in-replicate (suc n) = bytes_in-replicate n

-- The part set made from a header whose total is a uint32 is well formed.
pub new_part_set_from_header-IsValid :
    (h : PartSetHeader) → h.total < 2 ^ 32 → IsValid (new_part_set_from_header h)
unfolding new_part_set_from_header
new_part_set_from_header-IsValid h small = record {
  sized = length-replicate h.total none;
  small = small;
  counted = sym (filled-replicate h.total);
  weighed = sym (bytes_in-replicate h.total);
  tracked = record {
    array = λ positive.
        let (a, same, size, formed, _) = new_bit_array_lem h.total 0 positive in
        (
          a,
          same,
          size,
          formed,
          λ j.
              let (a', again, _, _, read) = new_bit_array_lem h.total j positive in
              let one : a' ≡ a = ground (arith, same, again) in
              let nothing = empty_parts h.total j in ground (arith, one, read, nothing),
        );
  };
}
