-- ===== src/ValidatorSet/Sorted.antt =====
-- Lists of validators in the strict order of their addresses, and what sorting keeps.
use bft.Base.{
  ◌≡◌, refl, inl, inr, true, false, Option, none, some, List, [], ◌∷◌, arith, if◌then◌else◌, Bytes,
  bytes_equal, bytes_equal_iff, ap, ◌∙◌, sym, Bool-cases,
}
use bft.Base.ByteOrder.{bytes_lt, bytes_lt_irrefl, bytes_lt_trans, bytes_lt_total}
use bft.External.{Keys, Float64}
use bft.ValidatorSet.{Val, find, insert, sort, check_changes}

module _ (K : Keys) (F : Float64) where
  -- All addresses are above the given one.
  abbrev pub Above : Bytes → List (Val K F) → Type 0
  Above a [] = Unit {0}
  Above a (v ∷ vals) = (bytes_lt a v.address ≡ true) × Above a vals

  abbrev pub IsSorted : List (Val K F) → Type 0
  IsSorted [] = Unit {0}
  IsSorted (v ∷ vals) = Above v.address vals × IsSorted vals

  -- None is below.
  abbrev pub NotBelow : Bytes → List (Val K F) → Type 0
  NotBelow a [] = Unit {0}
  NotBelow a (v ∷ vals) = (bytes_lt v.address a ≡ false) × NotBelow a vals

  abbrev pub IsWeaklySorted : List (Val K F) → Type 0
  IsWeaklySorted [] = Unit {0}
  IsWeaklySorted (v ∷ vals) = NotBelow v.address vals × IsWeaklySorted vals

  pub Above-trans :
      (a b : Bytes) (vals : List (Val K F)) → bytes_lt a b ≡ true → Above b vals → Above a vals
  Above-trans a b [] h u = u
  Above-trans a b (v ∷ vals) h (k, u) = (bytes_lt_trans a b v.address h k, Above-trans a b vals h u)

  pub bytes_lt_asym : (a b : Bytes) → bytes_lt a b ≡ true → bytes_lt b a ≡ false
  bytes_lt_asym a b h = elim (Bool-cases (bytes_lt b a)) [
    | inr k ↦ k
    | inl k ↦
        let loop = bytes_lt_trans a b a h k in
        let never = bytes_lt_irrefl a in absurd (cc (loop, never))
  ]

  -- An address below all is missing.
  pub find-Above : (a : Bytes) (vals : List (Val K F)) → Above a vals → find K F a vals ≡ none
  unfolding find
  find-Above a [] u = refl
  find-Above a (v ∷ vals) (h, u) =
      let never = bytes_lt_irrefl a in
      ground (arith, find-Above a vals u, bytes_equal_iff v.address a, never)

  pub find-insert :
      (a : Bytes) (v : Val K F) (vals : List (Val K F))
      → find K F a (insert K F v vals)
        ≡ (if bytes_equal v.address a then some v else find K F a vals)
  unfolding find insert
  find-insert a v [] = refl
  find-insert a v (w ∷ vals) =
      let never = bytes_lt_irrefl a in
      ground (
        arith,
        find-insert a v vals,
        bytes_equal_iff v.address a,
        bytes_equal_iff w.address a,
        never,
      )

  pub find-sort : (a : Bytes) (vals : List (Val K F)) → find K F a (sort K F vals) ≡ find K F a vals
  unfolding find sort
  find-sort a [] = refl
  find-sort a (v ∷ vals) =
      find-insert a v (sort K F vals)
      ∙ ap (λ (o : Option (Val K F)). if bytes_equal v.address a then some v else o)
          (find-sort a vals)

  insert-NotBelow :
      (a : Bytes) (v : Val K F) (vals : List (Val K F))
      → bytes_lt v.address a ≡ false
      → NotBelow a vals
      → NotBelow a (insert K F v vals)
  unfolding insert
  insert-NotBelow a v [] h u = (h, u)
  insert-NotBelow a v (w ∷ vals) h (k, u) =
      elim (bytes_lt w.address v.address)
        as (λ b. NotBelow a (if b then w ∷ insert K F v vals else v ∷ w ∷ vals)) [
          | true ↦ (k, insert-NotBelow a v vals h u)
          | false ↦ (h, (k, u))
        ]

  not_below_trans :
      (a b c : Bytes) → bytes_lt b a ≡ false → bytes_lt c b ≡ false → bytes_lt c a ≡ false
  not_below_trans a b c h k = elim (Bool-cases (bytes_lt c a)) [
    | inr fine ↦ fine
    | inl less ↦ elim (bytes_lt_total a b) [
      | inl up ↦ let step = bytes_lt_trans c a b less up in absurd (cc (step, k))
      | inr (inl same) ↦ absurd (cc (same, less, k))
      | inr (inr down) ↦ absurd (cc (down, h))
    ]
  ]

  NotBelow-trans :
      (a b : Bytes) (vals : List (Val K F))
      → bytes_lt b a ≡ false
      → NotBelow b vals
      → NotBelow a vals
  NotBelow-trans a b [] h u = u
  NotBelow-trans a b (v ∷ vals) h (k, u) =
      (not_below_trans a b v.address h k, NotBelow-trans a b vals h u)

  insert-IsWeaklySorted :
      (v : Val K F) (vals : List (Val K F))
      → IsWeaklySorted vals
      → IsWeaklySorted (insert K F v vals)
  unfolding insert
  insert-IsWeaklySorted v [] s = (_, _)
  insert-IsWeaklySorted v (w ∷ vals) (u, s) = elim (Bool-cases (bytes_lt w.address v.address)) [
    | inl less ↦
        let asym = bytes_lt_asym w.address v.address less in
        rw less (insert-NotBelow w.address v vals asym u, insert-IsWeaklySorted v vals s)
    | inr stop ↦ rw stop ((stop, NotBelow-trans v.address w.address vals stop u), (u, s))
  ]

  pub sort-IsWeaklySorted : (vals : List (Val K F)) → IsWeaklySorted (sort K F vals)
  unfolding sort
  sort-IsWeaklySorted [] = _
  sort-IsWeaklySorted (v ∷ vals) =
      insert-IsWeaklySorted v (sort K F vals) (sort-IsWeaklySorted vals)

  -- Where no address repeats its neighbour, the order is strict.
  check_changes-IsSorted :
      (previous : Bytes) (vals : List (Val K F))
      → IsWeaklySorted vals
      → check_changes K F previous vals ≡ none
      → IsSorted vals
  unfolding check_changes
  check_changes-IsSorted previous [] s e = _
  check_changes-IsSorted previous (v ∷ []) s e = (_, _)
  check_changes-IsSorted previous (v ∷ w ∷ vals) ((h, u), s) e =
      let rest : check_changes K F v.address (w ∷ vals) ≡ none = ground (arith, e) in
      let apart : bytes_equal w.address v.address ≡ false = ground (arith, rest) in
      let sorted = check_changes-IsSorted v.address (w ∷ vals) s rest in
      let less : bytes_lt v.address w.address ≡ true = elim (bytes_lt_total v.address w.address) [
        | inl up ↦ up
        | inr (inl same) ↦
            let hit = (bytes_equal_iff w.address v.address).1 (sym same) in absurd (cc (hit, apart))
        | inr (inr down) ↦ absurd (cc (down, h))
      ] in
      ((less, Above-trans v.address w.address vals less sorted.0), sorted)

  pub sort-IsSorted :
      (vals : List (Val K F))
      → check_changes K F [] (sort K F vals) ≡ none
      → IsSorted (sort K F vals)
  sort-IsSorted vals e = check_changes-IsSorted [] (sort K F vals) (sort-IsWeaklySorted vals) e

  insert_first :
      (v : Val K F) (vals : List (Val K F)) → Above v.address vals → insert K F v vals ≡ v ∷ vals
  unfolding insert
  insert_first v [] u = refl
  insert_first v (w ∷ vals) (h, u) = rw (bytes_lt_asym v.address w.address h)

  -- A sorted list is sorted already.
  pub sort_sorted : (vals : List (Val K F)) → IsSorted vals → sort K F vals ≡ vals
  unfolding sort
  sort_sorted [] s = refl
  sort_sorted (v ∷ vals) (u, s) = ap (insert K F v) (sort_sorted vals s) ∙ insert_first v vals u
