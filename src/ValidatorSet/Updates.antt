-- ===== src/ValidatorSet/Updates.antt =====
-- What an update of a validator set does, seen as a map from addresses to validators.
use bft.Base.{
  ℕ, zero, suc, ◌+◌, ◌≤◌, ◌<◌, ◌≡◌, refl, ◌⊎◌, inl, inr, true, false, Option, none, some, List, [],
  ◌∷◌, arith, if◌then◌else◌, length, Bytes, bytes_equal, bytes_equal_iff, bytes_equal_sound, ap,
  ◌∙◌, sym, subst, Bool-cases, Option-cases,
}
use bft.Base.ByteOrder.{bytes_lt, bytes_lt_total}
use bft.External.{Keys, Float64}
use bft.ValidatorSet.{
  Val, ValidatorSet, Changes, ChangeError, find, sort, check_changes, process_changes, updates,
  refused, merge, apply_updates, update_with_change_set, updated,
}
use bft.ValidatorSet.Sorted.{
  Above, IsSorted, Above-trans, find-Above, find-sort, sort-IsSorted, sort_sorted,
}

module _ (K : Keys) (F : Float64) where
  -- The map of the updates over the map of the set.
  abbrev pub override : Option (Val K F) → Option (Val K F) → Option (Val K F)
  override none old = old
  override (some new) old = some new

  -- The head of the existing list, and what of it stays behind an update with that address.
  abbrev after_update : Val K F → Val K F → List (Val K F) → List (Val K F)
  after_update e u es = if bytes_equal e.address u.address then es else e ∷ es

  length-after_update :
      (e u : Val K F) (es : List (Val K F)) → length (after_update e u es) ≤ suc (length es)
  length-after_update e u es = ground arith

  Above-after_update :
      (e u : Val K F) (es : List (Val K F))
      → bytes_lt e.address u.address ≡ false
      → Above K F e.address es
      → Above K F u.address (after_update e u es)
  Above-after_update e u es h above = elim (Bool-cases (bytes_equal e.address u.address)) [
    | inl same ↦
        rw same (subst (λ a. Above K F a es) (bytes_equal_sound e.address u.address same) above)
    | inr apart ↦ elim (bytes_lt_total u.address e.address) [
      | inl less ↦ rw apart (less, Above-trans K F u.address e.address es less above)
      | inr (inl eq) ↦
          let hit = (bytes_equal_iff e.address u.address).1 (sym eq) in absurd (cc (hit, apart))
      | inr (inr more) ↦ absurd (cc (more, h))
    ]
  ]

  IsSorted-after_update :
      (e u : Val K F) (es : List (Val K F))
      → IsSorted K F (e ∷ es)
      → IsSorted K F (after_update e u es)
  IsSorted-after_update e u es s =
      elim (bytes_equal e.address u.address) as (λ b. IsSorted K F (if b then es else e ∷ es)) [
        | true ↦ s.1
        | false ↦ s
      ]

  Above-after_update_both :
      (a : Bytes) (e u : Val K F) (es : List (Val K F))
      → Above K F a (e ∷ es)
      → Above K F a (after_update e u es)
  Above-after_update_both a e u es s =
      elim (bytes_equal e.address u.address) as (λ b. Above K F a (if b then es else e ∷ es)) [
        | true ↦ s.1
        | false ↦ s
      ]

  merge-Above :
      (a : Bytes) (f : ℕ) (es us : List (Val K F))
      → Above K F a es
      → Above K F a us
      → Above K F a (merge K F f es us)
  unfolding merge
  merge-Above a zero es us p q = _
  merge-Above a (suc f) [] us p q = q
  merge-Above a (suc f) (e ∷ es) [] p q = p
  merge-Above a (suc f) (e ∷ es) (u ∷ us) p q =
      elim (bytes_lt e.address u.address)
        as (λ b. Above K F a (elim b [
          | true ↦ e ∷ merge K F f es (u ∷ us)
          | false ↦ u ∷ merge K F f (after_update e u es) us
        ])) [
          | true ↦ (p.0, merge-Above a f es (u ∷ us) p.1 q)
          | false ↦ (
            q.0,
            merge-Above a f (after_update e u es) us (Above-after_update_both a e u es p) q.1,
          )
        ]

  -- What merging two sorted lists gives.
  pub record IsMerged (es us r : List (Val K F)) : Type 0 where
    pub sorted : IsSorted K F r
    pub finds : (a : Bytes) → find K F a r ≡ override (find K F a us) (find K F a es)

  empty-IsMerged : (us : List (Val K F)) → IsSorted K F us → IsMerged [] us us
  empty-IsMerged us t = record { sorted = t; finds = finds }
    where
      finds : (a : Bytes) → find K F a us ≡ override (find K F a us) (find K F a [])
      finds a =
          unfold find in
          elim (find K F a us) as (λ o. o ≡ override o none) [ none ↦ refl | some v ↦ refl ]

  old-IsMerged :
      (e u : Val K F) (es us r : List (Val K F))
      → bytes_lt e.address u.address ≡ true
      → Above K F e.address us
      → Above K F e.address r
      → IsMerged es (u ∷ us) r
      → IsMerged (e ∷ es) (u ∷ us) (e ∷ r)
  old-IsMerged e u es us r less above first m = record { sorted = (first, m.sorted); finds = finds }
    where
      finds :
          (a : Bytes) → find K F a (e ∷ r) ≡ override (find K F a (u ∷ us)) (find K F a (e ∷ es))
      finds a =
          let missing = find-Above K F e.address (u ∷ us) (less, above) in
          let same = bytes_equal_sound e.address a in
          let rest = m.finds a in unfold find in ground (arith, missing, same, rest)

  new-IsMerged :
      (e u : Val K F) (es us r : List (Val K F))
      → IsSorted K F (e ∷ es)
      → bytes_lt e.address u.address ≡ false
      → Above K F u.address r
      → IsMerged (after_update e u es) us r
      → IsMerged (e ∷ es) (u ∷ us) (u ∷ r)
  new-IsMerged e u es us r s h first m = record { sorted = (first, m.sorted); finds = finds }
    where
      finds :
          (a : Bytes) → find K F a (u ∷ r) ≡ override (find K F a (u ∷ us)) (find K F a (e ∷ es))
      finds a =
          let rest = m.finds a in
          let eu = bytes_equal_iff e.address u.address in
          let ea = bytes_equal_iff e.address a in
          let ua = bytes_equal_iff u.address a in unfold find in ground (arith, rest, eu, ea, ua)

  merge-IsMerged :
      (f : ℕ) (es us : List (Val K F))
      → length es + length us < f
      → IsSorted K F es
      → IsSorted K F us
      → IsMerged es us (merge K F f es us)
  unfolding merge
  merge-IsMerged zero es us h s t = elim h [ ]
  merge-IsMerged (suc f) [] us h s t = empty-IsMerged us t
  merge-IsMerged (suc f) (e ∷ es) [] h s t = record { sorted = s; finds = λ a. unfold find in refl }
  merge-IsMerged (suc f) (e ∷ es) (u ∷ us) h s t =
      elim (Bool-cases (bytes_lt e.address u.address)) [
        | inl less ↦
            let above = Above-trans K F e.address u.address us less t.0 in
            rw (less, merge)
              (old-IsMerged e u es us (merge K F f es (u ∷ us)) less above
                (merge-Above e.address f es (u ∷ us) s.0 (less, above))
                (merge-IsMerged f es (u ∷ us) (omega arith) s.1 t))
        | inr more ↦
            let short = length-after_update e u es in
            rw (more, merge)
              (new-IsMerged e u es us (merge K F f (after_update e u es) us) s more
                (merge-Above u.address f (after_update e u es) us
                  (Above-after_update e u es more s.0) t.0)
                (merge-IsMerged f (after_update e u es) us (omega (arith, short))
                  (IsSorted-after_update e u es s) t.1))
      ]

  apply_updates-IsMerged :
      (es us : List (Val K F))
      → IsSorted K F es
      → IsSorted K F us
      → IsMerged es us (apply_updates K F es us)
  unfolding apply_updates
  apply_updates-IsMerged es us s t =
      subst (λ xs. IsMerged es us (merge K F (suc (length es + length us)) xs us))
        (sym (sort_sorted K F es s))
        (merge-IsMerged (suc (length es + length us)) es us (omega arith) s t)

  -- The accepted changes, in order.
  process_changes-IsSorted :
      (changes us : List (Val K F))
      → process_changes K F changes ≡ updates us
      → (us ≡ sort K F changes) × IsSorted K F us
  unfolding process_changes
  process_changes-IsSorted changes us e =
      elim (Option-cases (check_changes K F [] (sort K F changes))) [
        | inr (bad, found) ↦ absurd (ground (arith, e, found))
        | inl fine ↦
            let same : us ≡ sort K F changes = ground (arith, e, fine) in
            (same, subst (IsSorted K F) (sym same) (sort-IsSorted K F changes fine))
      ]

  Changes-cases :
      (p : Changes K F)
      → ((us : List (Val K F)) × (p ≡ updates us)) ⊎ ((e : ChangeError K F) × (p ≡ refused e))
  Changes-cases (updates us) = inl (us, refl)
  Changes-cases (refused e) = inr (e, refl)

  abbrev Overrides : ValidatorSet K F → List (Val K F) → ValidatorSet K F → Type 0
  Overrides vals changes vals' =
      IsSorted K F vals'.validators
      × (vals'.primary ≡ vals.primary)
      × ((a : Bytes)
          → find K F a vals'.validators
            ≡ override (find K F a changes) (find K F a vals.validators))

  changed-Overrides :
      (vals : ValidatorSet K F) (changes us : List (Val K F))
      → IsSorted K F vals.validators
      → us ≡ sort K F changes
      → IsSorted K F us
      → Overrides vals changes
          (record vals { validators = sort K F (apply_updates K F vals.validators us) })
  changed-Overrides vals changes us s same t =
      let m = apply_updates-IsMerged vals.validators us s t in
      let still = sort_sorted K F (apply_updates K F vals.validators us) m.sorted in
      (
        subst (IsSorted K F) (sym still) m.sorted,
        refl,
        λ a.
            ap (find K F a) still
            ∙ m.finds a
            ∙ ap (λ o. override o (find K F a vals.validators))
                (ap (find K F a) same ∙ find-sort K F a changes),
      )

  -- A set of validators as a map from addresses: from validators in the strict order of their
  -- addresses, an update that is accepted gives validators in that order, keeps the primary, and
  -- looks every address up among the changes first and then among the old validators.
  pub update_with_change_set_lem :
      (vals vals' : ValidatorSet K F) (changes : List (Val K F))
      → IsSorted K F vals.validators
      → update_with_change_set K F vals changes ≡ updated vals'
      → IsSorted K F vals'.validators
        × (vals'.primary ≡ vals.primary)
        × ((a : Bytes)
            → find K F a vals'.validators
              ≡ override (find K F a changes) (find K F a vals.validators))
  unfolding update_with_change_set
  update_with_change_set_lem vals vals' [] s e =
      let same : vals ≡ vals' = ground (arith, e) in
      subst (Overrides vals []) same (s, refl, λ a. unfold find in refl)
  update_with_change_set_lem vals vals' (c ∷ changes) s e =
      elim (Changes-cases (process_changes K F (c ∷ changes))) [
        | inr (bad, f) ↦ absurd (ground (arith, e, f))
        | inl (us, f) ↦
            let (same, t) = process_changes-IsSorted (c ∷ changes) us f in
            let new : record vals { validators = sort K F (apply_updates K F vals.validators us) }
                ≡ vals' =
              ground (arith, e, f) in
            subst (Overrides vals (c ∷ changes)) new
              (changed-Overrides vals (c ∷ changes) us s same t)
      ]
