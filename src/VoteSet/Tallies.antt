-- ===== src/VoteSet/Tallies.antt =====
-- The sum of a blockVotes (types/vote.go) against the power of the validators whose vote it records.
use bft.Base.{
  ℕ, zero, suc, ◌≡◌, refl, ◌⊎◌, ◌↔◌, inl, inr, Bool, Option, none, some, List, [], ◌∷◌, arith,
  get_elem?, set, replicate, Bytes, ap, subst, sym, ◌∙◌, Option-cases, ℕ_discrete, get_elem?-lt,
  get_elem?-set_self, get_elem?-set_ne,
}
use bft.BlockId.{key}
use bft.Bits.{mark}
use bft.Vote.{Vote}
use bft.VoteSet.{Context, Val, BlockVotes, new_block_votes, add_to_block}

-- Membership in a list of indexes, and a list without repetition.
abbrev pub Has : ℕ → List ℕ → Type 0
Has i [] = ⊥
Has i (j ∷ js) = (i ≡ j) ⊎ Has i js

abbrev pub Distinct : List ℕ → Type 0
Distinct [] = Unit {0}
Distinct (j ∷ js) = (¬ Has j js) × Distinct js

module _ (C : Context) where
  open C use {keys, floats, marshal}
  open floats use {Float, of_ℕ, add}

  abbrev pub power_at : List (Val C) → ℕ → Float
  power_at vals i = elim (get_elem? vals i) [ none ↦ of_ℕ 0 | some val ↦ val.voting_power ]

  -- The powers added from the last index of the list on.
  abbrev pub power_of : List (Val C) → List ℕ → Float
  power_of vals [] = of_ℕ 0
  power_of vals (i ∷ is) = add (power_of vals is) (power_at vals i)

  -- The indexes whose vote is recorded, newest first; their votes are for the block of the key, and
  -- the sum is their power.
  pub record IsTally (vals : List (Val C)) (k : Bytes) (vs : BlockVotes C) : Type 0 where
    pub order : List ℕ
    pub once : Distinct order
    pub voted : (i : ℕ) → Has i order ↔ ((v : Vote) × (get_elem? vs.votes i ≡ some (some v)))
    pub own : (i : ℕ) (v : Vote) → get_elem? vs.votes i ≡ some (some v) → key marshal v.block_id ≡ k
    pub summed : vs.sum ≡ power_of vals order

  no_vote : (n i : ℕ) (v : Vote) → ¬ (get_elem? (replicate n none) i ≡ some (some v))
  no_vote zero i v e = cc e
  no_vote (suc n) zero v e = absurd (ground (arith, e))
  no_vote (suc n) (suc i) v e = no_vote n i v e

  pub new_block_votes-IsTally :
      (vals : List (Val C)) (k : Bytes) (p : Bool) (n : ℕ) → IsTally vals k (new_block_votes C p n)
  unfolding new_block_votes
  new_block_votes-IsTally vals k p n = record {
    order = [];
    once = _;
    voted = λ i. ((λ h. absurd h), (λ (v, e). absurd (no_vote n i v e)));
    own = λ i v e. absurd (no_vote n i v e);
    summed = refl;
  }

  pub add_to_block-IsTally :
      (vals : List (Val C)) (k : Bytes) (vs vs' : BlockVotes C) (i : ℕ) (vote : Vote)
      → key marshal vote.block_id ≡ k
      → IsTally vals k vs
      → add_to_block C vs i vote (power_at vals i) ≡ some vs'
      → IsTally vals k vs'
  unfolding add_to_block
  add_to_block-IsTally vals k vs vs' i vote same t e = go (get_elem? vs.votes i) refl
    where
      counted :
          (sum' : Float) (after : List (Option Vote))
          → sum' ≡ add vs.sum (power_at vals i)
          → after ≡ set vs.votes i (some vote)
          → get_elem? vs.votes i ≡ some none
          → vs'.sum ≡ sum'
          → vs'.votes ≡ after
          → IsTally vals k vs'
      counted sum' after powers placed at e1 e2 =
          let votes : vs'.votes ≡ set vs.votes i (some vote) = e2 ∙ placed in
          let inside = get_elem?-lt vs.votes i at in
          let here : get_elem? vs'.votes i ≡ some (some vote) =
            ap (λ (x : List (Option Vote)). get_elem? x i) votes
            ∙ get_elem?-set_self vs.votes i (some vote) inside in
          let there : (j : ℕ) → ¬ (i ≡ j) → get_elem? vs'.votes j ≡ get_elem? vs.votes j =
            λ j apart.
              ap (λ (x : List (Option Vote)). get_elem? x j) votes
              ∙ get_elem?-set_ne vs.votes i j (some vote) apart in
          record {
            order = i ∷ t.order;
            once = (
              λ had. let (v, was) = (t.voted i).0 had in absurd (ground (arith, at, was)),
              t.once,
            );
            voted = λ j. elim (ℕ_discrete i j) [
              | yes eq ↦ (λ h. (vote, ap (get_elem? vs'.votes) (sym eq) ∙ here), λ h. inl (sym eq))
              | no apart ↦ (
                λ h. elim h [
                  | inl eq ↦ absurd (apart (sym eq))
                  | inr h' ↦ let (v, was) = (t.voted j).0 h' in (v, there j apart ∙ was)
                ],
                λ (v, is'). inr ((t.voted j).1 (v, sym (there j apart) ∙ is')),
              )
            ];
            own = λ j v is'. elim (ℕ_discrete i j) [
              | yes eq ↦
                  let one : vote ≡ v = ground (arith, here, is', ap (get_elem? vs'.votes) eq) in
                  ap (λ (x : Vote). key marshal x.block_id) (sym one) ∙ same
              | no apart ↦ t.own j v (sym (there j apart) ∙ is')
            ];
            summed = e1 ∙ powers ∙ ap (λ x. add x (power_at vals i)) t.summed;
          }

      go : (slot : Option (Option Vote)) → get_elem? vs.votes i ≡ slot → IsTally vals k vs'
      go none at = absurd (ground (arith, at, e))
      go (some (some old)) at =
          let one : vs ≡ vs' = ground (arith, at, e) in subst (IsTally vals k) one t
      go (some none) at = elim (Option-cases (mark vs.bit_array i)) [
        | inl panic ↦ absurd (ground (arith, at, panic, e))
        | inr (bits, marked) ↦
            let one : record vs {
              bit_array = bits;
              votes = set vs.votes i (some vote);
              sum = add vs.sum (power_at vals i);
            }
                ≡ vs' =
              ground (arith, at, marked, e) in
            counted (add vs.sum (power_at vals i)) (set vs.votes i (some vote)) refl refl at
              (ap (λ (x : BlockVotes C). x.sum) (sym one))
              (ap (λ (x : BlockVotes C). x.votes) (sym one))
      ]
