-- ===== src/PartSet/Add.antt =====
-- What `AddPart` and `IsComplete` promise.
use bft.Base.{
  ℕ, zero, suc, ◌<◌, ◌≡◌, refl, ◌↔◌, inl, inr, Bool, Bytes, true, false, Option, none, some, List,
  [], ◌∷◌, arith, leb, length, get_elem?, set, ap, ◌∙◌, Bool-cases, Option-cases, get_elem?-some,
  length-set, get_elem?-set_self, ==_iff,
}
use bft.Bits.{BitArray}
use bft.Merkle.Proof.{verify}
use bft.PartSet.{
  Part, PartSet, AddError, unexpected_index, invalid_proof, with_part, add_new, add_part,
  is_complete,
}
use bft.PartSet.Invariant.{
  IsValid, Tracks, is_some, present, filled, filled-le, filled-set, bytes_in-set, mark-Tracks,
}

present-get_elem? :
    (parts : List (Option Part)) (i : ℕ) (slot : Option Part)
    → get_elem? parts i ≡ some slot
    → present parts i ≡ is_some slot
present-get_elem? [] i slot h = absurd (cc)
present-get_elem? (q ∷ parts) zero slot h = ap (λ o. elim o [ none ↦ false | some s ↦ is_some s ]) h
present-get_elem? (q ∷ parts) (suc i) slot h = present-get_elem? parts i slot h

filled_all :
    (parts : List (Option Part))
    → filled parts ≡ length parts
    → (j : ℕ) → j < length parts
    → present parts j ≡ true
filled_all [] h j lt = elim lt [ ]
filled_all (none ∷ parts) h j lt = absurd (omega (arith, filled-le parts))
filled_all (some p ∷ parts) h zero lt = refl
filled_all (some p ∷ parts) h (suc j) lt = filled_all parts (omega arith) j (omega arith)

all_filled :
    (parts : List (Option Part))
    → ((j : ℕ) → j < length parts → present parts j ≡ true)
    → filled parts ≡ length parts
all_filled [] h = refl
all_filled (none ∷ parts) h = absurd (cc (h 0 (omega arith)))
all_filled (some p ∷ parts) h = ap suc (all_filled parts (λ j lt. h (suc j) (omega arith)))

-- A well-formed part set is complete exactly when it has a part at every index below its total.
pub is_complete-iff-present :
    (ps : PartSet)
    → IsValid ps
    → (is_complete ps ≡ true) ↔ ((j : ℕ) → j < ps.total → present ps.parts j ≡ true)
unfolding is_complete
is_complete-iff-present ps v = (
  λ h j lt.
      let same = (==_iff ps.count ps.total).0 h in
      filled_all ps.parts (omega (arith, same, v.counted, v.sized)) j (omega (arith, v.sized)),
  λ every.
      let full = all_filled ps.parts (λ j lt. every j (omega (arith, v.sized))) in
      (==_iff ps.count ps.total).1 (omega (arith, full, v.counted, v.sized)),
)

-- The tests that a part has to pass.
pub record IsWanted (sum : Bytes → Bytes) (ps : PartSet) (part : Part) : Type 0 where
  pub below : part.index < ps.total
  pub absent : present ps.parts part.index ≡ false
  pub proved : verify sum part.proof ps.hash part.bytes ≡ none

module _ (sum : Bytes → Bytes) where
  -- A call leaves the set as it was, or with the part.
  pub data Outcome (ps : PartSet) (part : Part) : PartSet × Bool × Option AddError → Type 0 where
    kept : (e : Option AddError) → ¬ (IsWanted sum ps part) → Outcome ps part (ps, false, e)
    stored :
        (bits : Option BitArray)
        → IsWanted sum ps part
        → Outcome ps part (with_part ps part bits, true, none)

  with_part-IsValid :
      (ps : PartSet) (part : Part) (bits : Option BitArray)
      → IsValid ps
      → get_elem? ps.parts part.index ≡ some none
      → Tracks ps.total (set ps.parts part.index (some part)) bits
      → IsValid (with_part ps part bits)
  with_part-IsValid ps part bits v at tracked =
      let more = filled-set ps.parts part.index part at in
      let room = filled-le (set ps.parts part.index (some part)) in
      let size = length-set ps.parts part.index (some part) in
      record {
        sized = size ∙ v.sized;
        small = v.small;
        counted = omega (arith, more, room, size, v.sized, v.small, v.counted);
        weighed = omega (arith, v.weighed, bytes_in-set ps.parts part.index part at);
        tracked = tracked;
      }

  add_new-Outcome :
      (ps : PartSet) (part : Part)
      → IsValid ps
      → part.index < ps.total
      → get_elem? ps.parts part.index ≡ some none
      → (r : PartSet × Bool × Option AddError) × (add_new sum ps part ≡ some r)
        × IsValid r.0
        × Outcome ps part r
  unfolding add_new
  add_new-Outcome ps part v below at =
      elim (Option-cases (verify sum part.proof ps.hash part.bytes)) [
        | inr (e, bad) ↦ (
          (ps, false, some invalid_proof),
          rw (bad, add_new),
          v,
          kept (some invalid_proof) (λ w. let good = w.proved in cc (good, bad)),
        )
        | inl good ↦
            let (bits, marked, tracked) =
              mark-Tracks ps.total part.index ps.parts ps.parts_bit_array part v.tracked below
                v.sized in
            (
              (with_part ps part bits, true, none),
              rw (good, add_new) (rw (marked, add_new)),
              with_part-IsValid ps part bits v at tracked,
              stored bits (record {
                below = below;
                absent = present-get_elem? ps.parts part.index none at;
                proved = good;
              }),
            )
      ]

  -- On a well-formed part set AddPart does not panic and leaves a well-formed set: with the part,
  -- where its index is below the total and free and its proof is accepted for the set's root, and
  -- otherwise as it was.
  pub add_part_total :
      (ps : PartSet) (part : Part)
      → IsValid ps
      → (r : PartSet × Bool × Option AddError) × (add_part sum ps part ≡ some r)
        × IsValid r.0
        × Outcome ps part r
  unfolding add_part
  add_part_total ps part v = elim (Bool-cases (leb ps.total part.index)) [
    | inl past ↦ (
      (ps, false, some unexpected_index),
      rw (past, add_part),
      v,
      kept (some unexpected_index) (λ w. let low = w.below in ground arith),
    )
    | inr inside ↦
        let below : part.index < ps.total = ground arith in
        let (slot, at) = get_elem?-some ps.parts part.index (omega (arith, v.sized)) in
        rw (inside, add_part) (go below slot at)
  ]
    where
      Goal : Type 0
      Goal =
          (r : PartSet × Bool × Option AddError) × ((elim (get_elem? ps.parts part.index) [
            | none ↦ none
            | some (some _) ↦ some (ps, false, none)
            | some none ↦ add_new sum ps part
          ])
            ≡ some r)
          × IsValid r.0
          × Outcome ps part r

      go :
          part.index < ps.total
          → (slot : Option Part) → get_elem? ps.parts part.index ≡ some slot
          → Goal
      go below none at = rw at (add_new-Outcome ps part v below at)
      go below (some p) at = (
        (ps, false, none),
        rw at,
        v,
        kept none (λ w.
            let free = w.absent in
            let taken = present-get_elem? ps.parts part.index (some p) at in cc (free, taken)),
      )

  wanted-stored :
      (ps : PartSet) (part : Part)
      → IsValid ps
      → IsWanted sum ps part
      → (r : PartSet × Bool × Option AddError) → add_part sum ps part ≡ some r
      → Outcome ps part r
      → (ps' : PartSet) × (add_part sum ps part ≡ some (ps', true, none))
        × (get_elem? ps'.parts part.index ≡ some (some part))
  wanted-stored ps part v w r e (kept _ unwanted) = absurd (unwanted w)
  wanted-stored ps part v w r e (stored bits _) = (
    with_part ps part bits,
    e,
    get_elem?-set_self ps.parts part.index (some part) (omega (arith, v.sized, w.below)),
  )

  -- AddPart does not compare the index of the part with that of its proof: in a well-formed set a
  -- part whose proof is accepted for the set's root is also accepted at any other free index below
  -- the total.
  pub add_part_elsewhere :
      (ps : PartSet) (part : Part) (j : ℕ)
      → IsValid ps
      → verify sum part.proof ps.hash part.bytes ≡ none
      → j < ps.total
      → present ps.parts j ≡ false
      → (ps' : PartSet) × (add_part sum ps (record part { index = j }) ≡ some (ps', true, none))
        × (get_elem? ps'.parts j ≡ some (some (record part { index = j })))
  add_part_elsewhere ps part j v good below free =
      let moved : Part = record part { index = j } in
      let (r, e, _, out) = add_part_total ps moved v in
      wanted-stored ps moved v (record { below = below; absent = free; proved = good }) r e out
