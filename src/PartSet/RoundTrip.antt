-- ===== src/PartSet/RoundTrip.antt =====
-- The data that is cut into parts is the data that the reader of the parts gives back.
use native.Mathlib.Nat.{mod-eq_of_lt}
use bft.Base.{
  ℕ, zero, suc, ◌+◌, ◌-◌, ◌*◌, ◌%◌, ◌^◌, ◌≤◌, ◌<◌, ◌≡◌, refl, true, false, Option, none, some, List,
  [], ◌∷◌, ◌++◌, arith, ◌==◌, min, length, take, drop, get_elem?, Bytes, ap, ap₂, ◌∙◌, sym, subst,
  length-drop, drop_all, ==_iff,
}
use bft.Bits.{BitArray, new_bit_array}
use bft.Bits.Marks.{HasBits, mark-HasBits, new_bit_array-HasBits}
use bft.Merkle.Proof.{Proof, verify, proofs_from_byte_slices}
use bft.Merkle.Proof.Complete.{proofs-verify}
use bft.PartSet.{Part, PartSet, read_parts, read_all, get_reader}
use bft.PartSet.Cut.{
  slice, cut, mark_all, with_proofs, part_count, assemble, new_part_set_from_data,
}

abbrev join : List Bytes → Bytes
join [] = []
join (b ∷ bs) = b ++ join bs

-- The number of parts covers the data, and no part is empty.
part_count_lem :
    (len size : ℕ)
    → 0 < size
    → len + size < 2 ^ 32
    → 0 < len
    → (len ≤ part_count len size * size) × (part_count len size * size < len + size)
part_count_lem len size p small q = omega arith

covers_some : (total size len : ℕ) → 0 < len → len ≤ total * size → 0 < total
covers_some zero size len p h = absurd (omega arith)
covers_some (suc n) size len p h = omega arith

take-min-drop :
    (k size : ℕ) (xs : Bytes) → k ≡ min (length xs) size → take k xs ++ drop size xs ≡ xs
take-min-drop zero zero xs h = refl
take-min-drop zero (suc size) [] h = refl
take-min-drop zero (suc size) (x ∷ xs) h = absurd (omega arith)
take-min-drop (suc k) size [] h = absurd (omega arith)
take-min-drop (suc k) zero (x ∷ xs) h = absurd (omega arith)
take-min-drop (suc k) (suc size) (x ∷ xs) h = ap (◌∷◌ x) (take-min-drop k size xs (omega arith))

drop-drop : (o size : ℕ) (xs : Bytes) → drop size (drop o xs) ≡ drop (o + size) xs
drop-drop zero size xs = ap (λ n. drop n xs) sum_zero
  where
    sum_zero : size ≡ 0 + size
    sum_zero = omega arith
drop-drop (suc o) zero [] = ap (λ n. drop n []) carry
  where
    carry : suc o ≡ suc o + 0
    carry = omega arith
drop-drop (suc o) (suc size) [] = sym (drop_all (suc o + suc size) [] (omega arith))
drop-drop (suc o) size (x ∷ xs) = drop-drop o size xs ∙ ap (λ n. drop n (x ∷ xs)) carry
  where
    carry : suc (o + size) ≡ suc o + size
    carry = omega arith

slice_lem :
    (lo hi : ℕ) (content : Bytes)
    → lo ≤ hi
    → hi ≤ length content
    → slice lo hi content ≡ some (take (hi - lo) (drop lo content))
slice_lem lo hi content h k = ground arith

cut_step :
    (content : Bytes) (size n i : ℕ) (piece : Bytes) (rest : List Bytes)
    → slice ((i * size) % 2 ^ 32) (min (length content) (((i + 1) * size) % 2 ^ 32)) content
      ≡ some piece
    → cut content size n (i + 1) ≡ some rest
    → cut content size (suc n) i ≡ some (piece ∷ rest)
unfolding cut
cut_step content size n i piece rest p e = rw (p, cut) (rw (e, cut))

-- The pieces are as many as asked for, and join to the data from there on.
cut-join :
    (content : Bytes) (size n i : ℕ)
    → length content + size < 2 ^ 32
    → length content ≤ i * size + n * size
    → i * size + n * size < length content + size
    → (pieces : List Bytes) × (cut content size n i ≡ some pieces)
      × (length pieces ≡ n)
      × (join pieces ≡ drop (i * size) content)
unfolding cut
cut-join content size zero i small cover tight =
    ([], refl, refl, sym (drop_all (i * size) content (omega arith)))
cut-join content size (suc n) i small cover tight =
    let step : (i + 1) * size ≡ i * size + size = omega arith in
    let more : suc n * size ≡ n * size + size = omega arith in
    let (rest, e, len, joined) =
      cut-join content size n (i + 1) small (omega (arith, step, more))
        (omega (arith, step, more)) in
    let from : ℕ = i * size in
    let to : ℕ = min (length content) ((i + 1) * size) in
    let piece : Bytes = take (to - from) (drop from content) in
    let low : (i * size) % 2 ^ 32 ≡ i * size = mod-eq_of_lt (omega (arith, more)) in
    let high : ((i + 1) * size) % 2 ^ 32 ≡ (i + 1) * size =
      mod-eq_of_lt (omega (arith, more, step)) in
    let sliced : slice ((i * size) % 2 ^ 32) (min (length content) (((i + 1) * size) % 2 ^ 32))
          content
        ≡ some piece =
      ap₂ (λ a b. slice a (min (length content) b) content) low high
      ∙ slice_lem from to content (omega (arith, more, step)) (omega arith) in
    let tail : drop size (drop from content) ≡ drop ((i + 1) * size) content =
      drop-drop from size content ∙ ap (λ o. drop o content) (sym step) in
    let whole =
      take-min-drop (to - from) size (drop from content)
        (omega (arith, step, length-drop from content)) in
    (
      piece ∷ rest,
      cut_step content size n i piece rest sliced e,
      ap suc len,
      ap (◌++◌ piece) (joined ∙ sym tail) ∙ whole,
    )

mark_all_total :
    (total n i : ℕ) (b : Option BitArray)
    → HasBits total b
    → i + n ≤ total
    → (b' : Option BitArray) × (mark_all n i b ≡ some b')
unfolding mark_all
mark_all_total total zero i b h fits = (b, refl)
mark_all_total total (suc n) i b h fits =
    let (b', e, h') = mark-HasBits total i b h (omega arith) in
    let (b'', f) = mark_all_total total n (i + 1) b' h' (omega arith) in (b'', rw (e, mark_all) f)

module _ (sum : Bytes → Bytes) (root : Bytes) where
  -- The part at an index names it, and its proof is accepted.
  pub record IsNumbered (first : ℕ) (parts : List (Option Part)) : Type 0 where
    pub at :
        (j : ℕ) (slot : Option Part)
        → get_elem? parts j ≡ some slot
        → (part : Part) × (slot ≡ some part)
          × (part.index ≡ first + j)
          × (verify sum part.proof root part.bytes ≡ none)

  with_proofs_lem :
      (first : ℕ) (pieces : List Bytes) (proofs : List Proof)
      → ((j : ℕ) (b : Bytes)
          → get_elem? pieces j ≡ some b
          → (p : Proof) × (get_elem? proofs j ≡ some p) × (verify sum p root b ≡ none))
      → (parts : List (Option Part)) × (with_proofs first pieces proofs ≡ some parts)
        × (read_parts parts ≡ some (join pieces))
        × (length parts ≡ length pieces)
        × IsNumbered first parts
  unfolding with_proofs read_parts
  with_proofs_lem first [] proofs h =
      ([], refl, refl, refl, record { at = λ j slot e. absurd (cc) })
  with_proofs_lem first (b ∷ pieces) [] h = let (p, e, _) = h 0 b refl in absurd (cc e)
  with_proofs_lem first (b ∷ pieces) (p ∷ proofs) h =
      let (parts, e, read, len, numbered) =
        with_proofs_lem (first + 1) pieces proofs (λ j c at. h (suc j) c at) in
      let part : Part = record { index = first; bytes = b; proof = p } in
      (some part ∷ parts, rw e, rw read, ap suc len, record { at = at parts numbered })
    where
      good : verify sum p root b ≡ none
      good =
          let (q, e, g) = h 0 b refl in
          let same : q ≡ p = ground arith in subst (λ x. verify sum x root b ≡ none) same g

      at :
          (parts : List (Option Part))
          → IsNumbered (first + 1) parts
          → (j : ℕ) (slot : Option Part)
          → get_elem? (some (record { index = first; bytes = b; proof = p }) ∷ parts) j ≡ some slot
          → (part : Part) × (slot ≡ some part)
            × (part.index ≡ first + j)
            × (verify sum part.proof root part.bytes ≡ none)
      at parts numbered zero slot e =
          (record { index = first; bytes = b; proof = p }, ground arith, omega arith, good)
      at parts numbered (suc j) slot e =
          let (part, same, index, ok) = numbered.at j slot e in
          (part, same, omega (arith, index), ok)

read_all_lem : (parts : List (Option Part)) → 0 < length parts → read_all parts ≡ read_parts parts
unfolding read_all
read_all_lem [] h = elim h [ ]
read_all_lem (slot ∷ parts) h = refl

module _ (sum : Bytes → Bytes) where
  accepted :
      (pieces : List Bytes) (j : ℕ) (b : Bytes)
      → get_elem? pieces j ≡ some b
      → (p : Proof) × (get_elem? (proofs_from_byte_slices sum pieces).1 j ≡ some p)
        × (verify sum p (proofs_from_byte_slices sum pieces).0 b ≡ none)
  accepted pieces j b at =
      let (root, (p, e, _, _, good)) = proofs-verify sum pieces j b at in
      (p, e, subst (λ r. verify sum p r b ≡ none) (sym root) good)

  assemble_lem :
      (content : Bytes) (pieces : List Bytes)
      → 0 < length pieces
      → join pieces ≡ content
      → (ps : PartSet) × (assemble sum content (length pieces) pieces ≡ some ps)
        × (get_reader ps ≡ some content)
        × (length ps.parts ≡ ps.total)
        × IsNumbered sum ps.hash 0 ps.parts
  unfolding assemble get_reader
  assemble_lem content pieces some_piece whole =
      let total = length pieces in
      let (bits, marked) =
        mark_all_total total total 0 (new_bit_array total) (new_bit_array-HasBits total)
          (omega arith) in
      let root = (proofs_from_byte_slices sum pieces).0 in
      let proofs = (proofs_from_byte_slices sum pieces).1 in
      let (parts, made, read, len, numbered) =
        with_proofs_lem sum root 0 pieces proofs (accepted pieces) in
      let full : (total == total) ≡ true = (==_iff total total).1 refl in
      let ps : PartSet = record {
        total = total;
        hash = root;
        parts = parts;
        parts_bit_array = bits;
        count = total;
        byte_size = length content;
      } in
      let back : get_reader ps ≡ some content =
        rw full (read_all_lem parts (omega (arith, len)) ∙ read ∙ ap some whole) in
      (ps, rw (marked, assemble) (rw (made, assemble)), back, len, numbered)

  -- Data that is not empty, cut into parts of a positive size, with its length and the size
  -- together below 2 ^ 32: the set is made, its reader gives the data back, it has as many parts
  -- as its total says, and each part has its index and a proof that is accepted for the set's
  -- root.
  pub get_reader-new_part_set_from_data :
      (content : Bytes) (size : ℕ)
      → 0 < size
      → 0 < length content
      → length content + size < 2 ^ 32
      → (ps : PartSet) × (new_part_set_from_data sum content size ≡ some ps)
        × (get_reader ps ≡ some content)
        × (length ps.parts ≡ ps.total)
        × IsNumbered sum ps.hash 0 ps.parts
  unfolding new_part_set_from_data
  get_reader-new_part_set_from_data content size p q small =
      let total = part_count (length content) size in
      let (cover, tight) = part_count_lem (length content) size p small q in
      let (pieces, e, len, joined) =
        cut-join content size total 0 small (omega (arith, cover)) (omega (arith, tight)) in
      let nonempty : 0 < total = covers_some total size (length content) q cover in
      let start : 0 * size ≡ 0 = omega arith in
      let (ps, f, read, size', numbered) =
        assemble_lem content pieces (omega (arith, len, nonempty))
          (joined ∙ ap (λ o. drop o content) start) in
      let positive : (size == 0) ≡ false = ground arith in
      (
        ps,
        rw (positive, new_part_set_from_data)
            (rw (e, new_part_set_from_data)
              (ap (λ t. assemble sum content t pieces) (sym len) ∙ f)),
        read,
        size',
        numbered,
      )
