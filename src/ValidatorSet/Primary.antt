-- ===== src/ValidatorSet/Primary.antt =====
-- The primary is the candidate whose hashed address is closest to the seed.
use bft.Base.{
  ℕ, zero, suc, ◌≤◌, ◌≡◌, refl, ◌⊎◌, inl, inr, Bool, true, false, Option, none, some, List, [], ◌∷◌,
  arith, ltb, ◌==◌, if◌then◌else◌, length, get_elem?, Bytes, ap, ◌∙◌, sym, subst, Bool-cases,
}
use bft.Base.Int.{pos}
use bft.External.{Keys, Float64}
use bft.BlockId.{BlockId, hash_size}
use bft.Merkle.Hash.{HasSize}
use bft.Validator.{candidate_primary}
use bft.ValidatorSet.{
  Val, ValidatorSet, diff_hash, sum_diff, closer, closest, hash_times, iterate_to_get_primary,
}

module _ (K : Keys) (F : Float64) (sum : Bytes → Bytes) where
  abbrev pub distance : Bytes → Val K F → ℕ
  distance hash v = sum_diff hash (sum v.address)

  abbrev pub is_candidate : Val K F → Bool
  is_candidate v = v.type == candidate_primary

  -- The best so far after one more validator: no worse than before, and no worse than it.
  pub record Closer (hash : Bytes) (best : Option (Val K F × ℕ)) (v : Val K F)
      (r : Option (Val K F × ℕ)) : Type 0 where
    pub from :
        (w : Val K F) (d : ℕ)
        → r ≡ some (w, d)
        → (best ≡ some (w, d)) ⊎ ((w ≡ v) × (is_candidate v ≡ true) × (d ≡ distance hash v))
    pub below :
        (w : Val K F) (m : ℕ)
        → best ≡ some (w, m)
        → (x : Val K F) × (d : ℕ) × (r ≡ some (x, d)) × (d ≤ m)
    pub least :
        is_candidate v ≡ true → (x : Val K F) × (d : ℕ) × (r ≡ some (x, d)) × (d ≤ distance hash v)

  diff_hash_total :
      (a b : Bytes)
      → length a ≡ hash_size
      → length b ≡ hash_size
      → diff_hash a b ≡ some (sum_diff a b)
  unfolding diff_hash
  diff_hash_total a b h k = ground arith

  pick : ℕ → Val K F → Option (Val K F × ℕ) → Option (Val K F × ℕ)
  pick d v none = some (v, d)
  pick d v (some (w, least)) = if ltb d least then some (v, d) else some (w, least)

  closer_other :
      (hash : Bytes) (best : Option (Val K F × ℕ)) (v : Val K F)
      → is_candidate v ≡ false
      → closer K F sum hash best v ≡ some best
  unfolding closer
  closer_other hash best v h = rw (h, closer)

  closer_candidate :
      (hash : Bytes) (best : Option (Val K F × ℕ)) (v : Val K F)
      → HasSize sum
      → length hash ≡ hash_size
      → is_candidate v ≡ true
      → closer K F sum hash best v ≡ some (pick (distance hash v) v best)
  unfolding closer pick
  closer_candidate hash none v sized h c =
      rw (c, closer) (rw (diff_hash_total hash (sum v.address) h (sized v.address), closer))
  closer_candidate hash (some (w, m)) v sized h c =
      rw (c, closer) (rw (diff_hash_total hash (sum v.address) h (sized v.address), closer))

  kept-Closer :
      (hash : Bytes) (best : Option (Val K F × ℕ)) (v : Val K F)
      → is_candidate v ≡ false
      → Closer hash best v best
  kept-Closer hash best v other = record {
    from = λ w d e. inl e;
    below = λ w m e. (w, m, e, omega arith);
    least = λ c. absurd (cc (c, other));
  }

  new-Closer :
      (hash : Bytes) (best : Option (Val K F × ℕ)) (v : Val K F)
      → is_candidate v ≡ true
      → Closer hash best v (pick (distance hash v) v best)
  unfolding pick
  new-Closer hash none v c = record {
    from = λ w d e. inr (ground arith);
    below = λ w m e. absurd (cc);
    least = λ _. (v, distance hash v, refl, omega arith);
  }
  new-Closer hash (some (w, m)) v c = elim (Bool-cases (ltb (distance hash v) m)) [
    | inl less ↦
        rw (less, pick)
          (record {
            from = λ x d e. inr (ground (arith, e));
            below = λ x d e.
                let same : m ≡ d = ground (arith, e) in
                (v, distance hash v, refl, ground (arith, same, less));
            least = λ _. (v, distance hash v, refl, omega arith);
          })
    | inr more ↦
        rw (more, pick)
          (record {
            from = λ x d e. inl e;
            below = λ x d e. (x, d, e, omega arith);
            least = λ _. (w, m, refl, ground (arith, more));
          })
  ]

  closer-Closer :
      (hash : Bytes) (best : Option (Val K F × ℕ)) (v : Val K F)
      → HasSize sum
      → length hash ≡ hash_size
      → (r : Option (Val K F × ℕ)) × (closer K F sum hash best v ≡ some r) × Closer hash best v r
  closer-Closer hash best v sized h = elim (Bool-cases (is_candidate v)) [
    | inl c ↦ (
      pick (distance hash v) v best,
      closer_candidate hash best v sized h c,
      new-Closer hash best v c,
    )
    | inr other ↦ (best, closer_other hash best v other, kept-Closer hash best v other)
  ]

  pub record Closest (hash : Bytes) (best : Option (Val K F × ℕ)) (vals : List (Val K F))
      (r : Option (Val K F × ℕ)) : Type 0 where
    pub from :
        (w : Val K F) (d : ℕ)
        → r ≡ some (w, d)
        → (best ≡ some (w, d))
          ⊎ ((i : ℕ) × (get_elem? vals i ≡ some w)
              × (is_candidate w ≡ true)
              × (d ≡ distance hash w))
    pub below :
        (w : Val K F) (m : ℕ)
        → best ≡ some (w, m)
        → (x : Val K F) × (d : ℕ) × (r ≡ some (x, d)) × (d ≤ m)
    pub least :
        (i : ℕ) (v : Val K F)
        → get_elem? vals i ≡ some v
        → is_candidate v ≡ true
        → (x : Val K F) × (d : ℕ) × (r ≡ some (x, d)) × (d ≤ distance hash v)

  cons-Closest :
      (hash : Bytes) (best best' r : Option (Val K F × ℕ)) (v : Val K F) (vals : List (Val K F))
      → Closer hash best v best'
      → Closest hash best' vals r
      → Closest hash best (v ∷ vals) r
  cons-Closest hash best best' r v vals c t = record { from = from; below = below; least = least }
    where
      from :
          (w : Val K F) (d : ℕ)
          → r ≡ some (w, d)
          → (best ≡ some (w, d))
            ⊎ ((i : ℕ) × (get_elem? (v ∷ vals) i ≡ some w)
                × (is_candidate w ≡ true)
                × (d ≡ distance hash w))
      from w d e = elim (t.from w d e) [
        | inr (i, at, cand, eq) ↦ inr (suc i, at, cand, eq)
        | inl old ↦ elim (c.from w d old) [
          | inl older ↦ inl older
          | inr (same, cand, eq) ↦ inr (
            0,
            ap some (sym same),
            ap is_candidate same ∙ cand,
            eq ∙ ap (distance hash) (sym same),
          )
        ]
      ]

      lower :
          (m : ℕ)
          → (x : Val K F) × (d : ℕ) × (best' ≡ some (x, d)) × (d ≤ m)
          → (x : Val K F) × (d : ℕ) × (r ≡ some (x, d)) × (d ≤ m)
      lower m (x, d, e, h) = let (y, k, f, g) = t.below x d e in (y, k, f, omega (arith, g, h))

      below :
          (w : Val K F) (m : ℕ)
          → best ≡ some (w, m)
          → (x : Val K F) × (d : ℕ) × (r ≡ some (x, d)) × (d ≤ m)
      below w m e = lower m (c.below w m e)

      least :
          (i : ℕ) (w : Val K F)
          → get_elem? (v ∷ vals) i ≡ some w
          → is_candidate w ≡ true
          → (x : Val K F) × (d : ℕ) × (r ≡ some (x, d)) × (d ≤ distance hash w)
      least zero w e cand =
          let same : v ≡ w = ground (arith, e) in
          subst
            (λ (y : Val K F). (x : Val K F) × (d : ℕ) × (r ≡ some (x, d)) × (d ≤ distance hash y))
            same (lower (distance hash v) (c.least (ap is_candidate same ∙ cand)))
      least (suc i) w e cand = t.least i w e cand

  closest-Closest :
      (hash : Bytes) (best : Option (Val K F × ℕ)) (vals : List (Val K F))
      → HasSize sum
      → length hash ≡ hash_size
      → (r : Option (Val K F × ℕ)) × (closest K F sum hash best vals ≡ some r)
        × Closest hash best vals r
  unfolding closest
  closest-Closest hash best [] sized h = (
    best,
    refl,
    record {
      from = λ w d e. inl e;
      below = λ w m e. (w, m, e, omega arith);
      least = λ i v e. absurd (cc e);
    },
  )
  closest-Closest hash best (v ∷ vals) sized h =
      let (best', e, c) = closer-Closer hash best v sized h in
      let (r, f, t) = closest-Closest hash best' vals sized h in
      (r, rw (e, closest) f, cons-Closest hash best best' r v vals c t)

  length-hash_times :
      (n : ℕ) (hash : Bytes) → HasSize sum → length (hash_times K F sum (suc n) hash) ≡ hash_size
  unfolding hash_times
  length-hash_times zero hash sized = sized hash
  length-hash_times (suc n) hash sized = length-hash_times n (sum hash) sized

  -- The outcome of the election: the set keeps its validators, and its primary is nil exactly for a
  -- set without a candidate; otherwise it is a candidate of the set at the least distance.
  pub record IsElected (hash : Bytes) (vals vals' : ValidatorSet K F) : Type 0 where
    pub kept : vals'.validators ≡ vals.validators
    pub from :
        (w : Val K F)
        → vals'.primary ≡ some w
        → (i : ℕ) × (get_elem? vals.validators i ≡ some w) × (is_candidate w ≡ true)
    pub least :
        (i : ℕ) (v : Val K F)
        → get_elem? vals.validators i ≡ some v
        → is_candidate v ≡ true
        → (w : Val K F) × (vals'.primary ≡ some w) × (distance hash w ≤ distance hash v)

  elected : ValidatorSet K F → Option (Val K F × ℕ) → ValidatorSet K F
  elected vals none = record vals { primary = none }
  elected vals (some (v, d)) = record vals { primary = some v }

  elected-IsElected :
      (hash : Bytes) (vals : ValidatorSet K F) (r : Option (Val K F × ℕ))
      → Closest hash none vals.validators r
      → IsElected hash vals (elected vals r)
  unfolding elected
  elected-IsElected hash vals none c = record {
    kept = refl;
    from = λ w e. absurd (cc e);
    least = λ i v at cand. let (w, d, e, h) = c.least i v at cand in absurd (cc e);
  }
  elected-IsElected hash vals (some (x, m)) c = record {
    kept = refl;
    from = λ w e. elim (c.from x m refl) [
      | inl old ↦ absurd (cc old)
      | inr (i, at, cand, eq) ↦
          let same : x ≡ w = ground (arith, e) in
          (i, at ∙ ap some same, ap is_candidate (sym same) ∙ cand)
    ];
    least = λ i v at cand. elim (c.from x m refl) [
      | inl old ↦ absurd (cc old)
      | inr (j, at', cand', eq) ↦
          let (w, d, e, h) = c.least i v at cand in
          let same : m ≡ d = ground (arith, e) in (x, refl, omega (arith, same, h, eq))
    ];
  }

  -- For a hash whose digests have 32 bytes and a count that is not negative the election of the
  -- primary does not panic and keeps the validators; the primary is a candidate of the set and no
  -- candidate has an address whose hash is nearer to the seed hashed once more than the count;
  -- there is one where the set has a candidate.
  pub iterate_to_get_primary_lem :
      (vals : ValidatorSet K F) (seed : BlockId) (n : ℕ)
      → HasSize sum
      → (vals' : ValidatorSet K F) × (iterate_to_get_primary K F sum vals seed (pos n) ≡ some vals')
        × IsElected (hash_times K F sum (suc n) seed.hash) vals vals'
  unfolding iterate_to_get_primary elected
  iterate_to_get_primary_lem vals seed n sized =
      let hash = hash_times K F sum (suc n) seed.hash in
      let (r, e, c) =
        closest-Closest hash none vals.validators sized (length-hash_times n seed.hash sized) in
      (elected vals r, outcome r e, elected-IsElected hash vals r c)
    where
      outcome :
          (r : Option (Val K F × ℕ))
          → closest K F sum (hash_times K F sum (suc n) seed.hash) none vals.validators ≡ some r
          → iterate_to_get_primary K F sum vals seed (pos n) ≡ some (elected vals r)
      outcome none e = rw (e, iterate_to_get_primary) refl
      outcome (some (v, d)) e = rw (e, iterate_to_get_primary) refl
