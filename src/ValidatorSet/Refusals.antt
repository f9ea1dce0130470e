-- ===== src/ValidatorSet/Refusals.antt =====
-- Which lists of changes an update of a validator set accepts.
use bft.Base.{
  ◌==◌, ◌≡◌, refl, ◌↔◌, inl, inr, true, false, none, some, List, [], ◌∷◌, arith, if◌then◌else◌,
  length, Bytes, bytes_equal, bytes_equal_iff, bytes_equal_sound, ap, ◌∙◌, sym, Bool-cases,
  Option-cases,
}
use bft.Base.ByteOrder.{bytes_lt, bytes_lt_total}
use bft.External.{Keys, Float64}
use bft.ValidatorSet.{
  Val, ValidatorSet, find, insert, sort, check_changes, process_changes, update_with_change_set,
  updated, apply_updates,
}
use bft.ValidatorSet.Sorted.{
  Above, NotBelow, IsWeaklySorted, Above-trans, find-Above, find-insert, find-sort,
  sort-IsWeaklySorted,
}

module _ (K : Keys) (F : Float64) where
  -- A change with an address and a power that is not negative.
  abbrev pub IsChange : Val K F → Type 0
  IsChange v = ((length v.address == 0) ≡ false) × (F.lt v.voting_power (F.of_ℕ 0) ≡ false)

  -- Changes of different validators.
  abbrev pub AreChanges : List (Val K F) → Type 0
  AreChanges [] = Unit {0}
  AreChanges (v ∷ vals) = IsChange v × (find K F v.address vals ≡ none) × AreChanges vals

  find-cons :
      (a : Bytes) (w : Val K F) (vals : List (Val K F))
      → find K F a (w ∷ vals) ≡ (if bytes_equal w.address a then some w else find K F a vals)
  unfolding find
  find-cons a w vals = refl

  -- The order of the changes does not matter.
  insert-AreChanges :
      (v : Val K F) (vals : List (Val K F)) → AreChanges (insert K F v vals) ↔ AreChanges (v ∷ vals)
  unfolding insert
  insert-AreChanges v [] = ((λ a. a), (λ a. a))
  insert-AreChanges v (w ∷ vals) = elim (Bool-cases (bytes_lt w.address v.address)) [
    | inr stop ↦ rw stop ((λ a. a), (λ a. a))
    | inl less ↦
        let (out, into) = insert-AreChanges v vals in
        let found = find-insert K F w.address v vals in
        let cons = find-cons v.address w vals in
        let vw = bytes_equal_iff v.address w.address in
        let wv = bytes_equal_iff w.address v.address in
        rw less (
          λ (ok, new, rest).
              let (ok', new', rest') = out rest in
              (
                ok',
                ground (arith, cons, found, new, new', vw, wv),
                (ok, ground (arith, found, new, vw, wv), rest'),
              ),
          λ (ok', new', (ok, new, rest)). (
            ok,
            ground (arith, cons, found, new, new', vw, wv),
            into (ok', ground (arith, cons, new', vw, wv), rest),
          ),
        )
  ]

  sort-AreChanges : (vals : List (Val K F)) → AreChanges (sort K F vals) ↔ AreChanges vals
  unfolding sort
  sort-AreChanges [] = ((λ a. a), (λ a. a))
  sort-AreChanges (v ∷ vals) =
      let (out, into) = sort-AreChanges vals in
      let (out', into') = insert-AreChanges v (sort K F vals) in
      let same : find K F v.address (sort K F vals) ≡ find K F v.address vals =
        find-sort K F v.address vals in
      (
        λ a. let (ok, new, rest) = out' a in (ok, sym same ∙ new, out rest),
        λ (ok, new, rest). into' (ok, same ∙ new, into rest),
      )

  nothing_below_nil : (a : Bytes) → bytes_lt a [] ≡ false
  unfolding bytes_lt
  nothing_below_nil [] = refl
  nothing_below_nil (b ∷ a) = refl

  all_above_nil : (vals : List (Val K F)) → NotBelow K F [] vals
  all_above_nil [] = _
  all_above_nil (v ∷ vals) = (nothing_below_nil v.address, all_above_nil vals)

  some_length : (p a : Bytes) → bytes_lt p a ≡ true → (length a == 0) ≡ false
  some_length p [] h = absurd (cc (h, nothing_below_nil p))
  some_length p (b ∷ a) h = ground arith

  -- In order, the check of neighbours is the check of all.
  checked :
      (previous : Bytes) (vals : List (Val K F))
      → NotBelow K F previous vals
      → IsWeaklySorted K F vals
      → check_changes K F previous vals ≡ none
      → Above K F previous vals × AreChanges vals
  unfolding check_changes
  checked previous [] n s e = (_, _)
  checked previous (v ∷ vals) (h, n) (u, s) e =
      let (above, rest) = checked v.address vals u s (ground (arith, e)) in
      let apart : bytes_equal v.address previous ≡ false = ground (arith, e) in
      let less : bytes_lt previous v.address ≡ true = elim (bytes_lt_total previous v.address) [
        | inl up ↦ up
        | inr (inl same) ↦
            let hit = (bytes_equal_iff v.address previous).1 (sym same) in absurd (cc (hit, apart))
        | inr (inr down) ↦ absurd (cc (down, h))
      ] in
      (
        (less, Above-trans K F previous v.address vals less above),
        (
          (some_length previous v.address less, ground (arith, e)),
          find-Above K F v.address vals above,
          rest,
        ),
      )

  unchecked :
      (previous : Bytes) (vals : List (Val K F))
      → find K F previous vals ≡ none
      → AreChanges vals
      → check_changes K F previous vals ≡ none
  unfolding check_changes find
  unchecked previous [] new a = refl
  unchecked previous (v ∷ vals) new ((long, ok), new', rest) =
      ground (arith, unchecked v.address vals new' rest, ok, new)

  no_nil : (vals : List (Val K F)) → AreChanges vals → find K F [] vals ≡ none
  unfolding find
  no_nil [] a = refl
  no_nil (v ∷ vals) ((long, ok), new, rest) =
      let apart : bytes_equal v.address [] ≡ false = elim (Bool-cases (bytes_equal v.address [])) [
        | inr no' ↦ no'
        | inl same ↦
            let empty = bytes_equal_sound v.address [] same in
            absurd (cc (ap (λ x. length x == 0) empty, long))
      ] in
      ground (arith, apart, no_nil vals rest)

  -- An update is accepted exactly where every change has an address and a power that is not
  -- negative and no two changes have the same address.
  pub update_with_change_set-iff-AreChanges :
      (vals : ValidatorSet K F) (changes : List (Val K F))
      → ((vals' : ValidatorSet K F) × (update_with_change_set K F vals changes ≡ updated vals'))
        ↔ AreChanges changes
  unfolding update_with_change_set process_changes
  update_with_change_set-iff-AreChanges vals [] = ((λ h. _), (λ a. (vals, refl)))
  update_with_change_set-iff-AreChanges vals (c ∷ changes) =
      let sorted = sort K F (c ∷ changes) in
      let (out, into) = sort-AreChanges (c ∷ changes) in
      (
        λ (vals', done). elim (Option-cases (check_changes K F [] sorted)) [
          | inr (bad, found) ↦ absurd (ground (arith, done, found))
          | inl fine ↦
              out
                (checked [] sorted (all_above_nil sorted) (sort-IsWeaklySorted K F (c ∷ changes))
                  fine).1
        ],
        λ a.
            let fine = unchecked [] sorted (no_nil sorted (into a)) (into a) in
            (
              record vals { validators = sort K F (apply_updates K F vals.validators sorted) },
              ground (arith, fine),
            ),
      )
