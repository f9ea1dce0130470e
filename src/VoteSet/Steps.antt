-- ===== src/VoteSet/Steps.antt =====
-- The parts of `addVerifiedVote` one by one: each succeeds on a well-formed set and keeps what the
-- invariant speaks of.
use bft.Base.{
  ℕ, zero, suc, ◌<◌, ◌≡◌, refl, inl, inr, false, Option, none, some, List, [], ◌∷◌, arith, length,
  get_elem?, set, Bytes, ap, ◌∙◌, sym, Bool-cases, ℕ_discrete, get_elem?-set_self, get_elem?-set_ne,
  get_elem?-some, length-set,
}
use bft.Bits.{mark, BitArray}
use bft.BlockId.{equals}
use bft.Vote.{Vote}
use bft.VoteSet.{Context, VoteSet, record_vote, copy_votes, is_maj23}
use bft.Bits.Marks.{HasBits, mark-HasBits}
use bft.VoteSet.Invariant.{Covers}

-- Where `to` has a vote, so has `to'`.
pub record Keeps (to to' : List (Option Vote)) : Type 0 where
  pub same_length : length to' ≡ length to
  pub kept :
      (j : ℕ) (v : Vote)
      → get_elem? to j ≡ some (some v)
      → (w : Vote) × (get_elem? to' j ≡ some (some w))

pub Keeps-refl : (to : List (Option Vote)) → Keeps to to
Keeps-refl to = record { same_length = refl; kept = λ j v e. (v, e) }

pub set-Keeps :
    (to : List (Option Vote)) (i : ℕ) (v : Vote) → i < length to → Keeps to (set to i (some v))
set-Keeps to i v h = record {
  same_length = length-set to i (some v);
  kept = λ j w e. elim (ℕ_discrete i j) [
    | yes same ↦
        (v, ap (get_elem? (set to i (some v))) (sym same) ∙ get_elem?-set_self to i (some v) h)
    | no differ ↦ (w, get_elem?-set_ne to i j (some v) differ ∙ e)
  ];
}

pub Keeps-Covers :
    (C : Context) {to to' counted : List (Option Vote)}
    → Keeps to to'
    → Covers C to counted
    → Covers C to' counted
Keeps-Covers C k c = record { cover = λ j v e. let (w, at) = c.cover j v e in k.kept j w at }

abbrev over : Option Vote → Option Vote → Option Vote
over none t = t
over (some v) t = some v

over-Keeps :
    (f t : Option Vote) {to r : List (Option Vote)} → Keeps to r → Keeps (t ∷ to) (over f t ∷ r)
over-Keeps f t {to} {r} k = record { same_length = ap suc k.same_length; kept = kept f t }
  where
    kept :
        (f t : Option Vote) (j : ℕ) (v : Vote)
        → get_elem? (t ∷ to) j ≡ some (some v)
        → (w : Vote) × (get_elem? (over f t ∷ r) j ≡ some (some w))
    kept none t zero v e = (v, e)
    kept (some g) t zero v e = (g, refl)
    kept f t (suc j) v e = k.kept j v e

pub copy_votes-Keeps :
    (C : Context) (from to : List (Option Vote))
    → length from ≡ length to
    → (r : List (Option Vote)) × (copy_votes C from to ≡ some r) × Keeps to r
unfolding copy_votes
copy_votes-Keeps C [] to h = (to, refl, Keeps-refl to)
copy_votes-Keeps C (f ∷ from) [] h = absurd (omega arith)
copy_votes-Keeps C (none ∷ from) (t ∷ to) h =
    let (r, e, k) = copy_votes-Keeps C from to (omega arith) in
    (t ∷ r, rw e refl, over-Keeps none t k)
copy_votes-Keeps C (some v ∷ from) (t ∷ to) h =
    let (r, e, k) = copy_votes-Keeps C from to (omega arith) in
    (some v ∷ r, rw e refl, over-Keeps (some v) t k)

module _ (C : Context) where
  open C use {floats, marshal}
  open floats use {Float, of_ℕ, add, lt, le}

  -- What the canonical part leaves: nothing but the votes, their bits and their sum changes.
  pub record Recorded (s : VoteSet C) (i : ℕ) (vote : Vote) (s' : VoteSet C)
      (conflict : Option Vote) : Type 0 where
    pub validators : s'.val_set ≡ s.val_set
    pub majority : s'.maj23 ≡ s.maj23
    pub blocks : s'.votes_by_block ≡ s.votes_by_block
    pub votes : Keeps s.votes s'.votes
    pub bits : HasBits (length s.val_set) s'.votes_bit_array
    pub canonical : (w : Vote) × (get_elem? s'.votes i ≡ some (some w))

  pub record_vote-Recorded :
      (s : VoteSet C) (i : ℕ) (vote : Vote) (k : Bytes) (power : Float)
      → length s.votes ≡ length s.val_set
      → HasBits (length s.val_set) s.votes_bit_array
      → i < length s.val_set
      → ((w : Vote) → get_elem? s.votes i ≡ some (some w) → equals w.block_id vote.block_id ≡ false)
      → (r : VoteSet C × Option Vote) × (record_vote C s i vote k power ≡ some r)
        × Recorded s i vote r.0 r.1
  unfolding record_vote
  record_vote-Recorded s i vote k power sized has h fresh =
      let (slot, at) = get_elem?-some s.votes i (omega (arith, sized)) in
      let (bits, marked, has') = mark-HasBits (length s.val_set) i s.votes_bit_array has h in
      go slot at bits marked has'
    where
      at_i : get_elem? (set s.votes i (some vote)) i ≡ some (some vote)
      at_i = get_elem?-set_self s.votes i (some vote) (omega (arith, sized))

      replaced : Keeps s.votes (set s.votes i (some vote))
      replaced = set-Keeps s.votes i vote (omega (arith, sized))

      go :
          (slot : Option Vote)
          → get_elem? s.votes i ≡ some slot
          → (bits : Option BitArray) → mark s.votes_bit_array i ≡ some bits
          → HasBits (length s.val_set) bits
          → (r : VoteSet C × Option Vote) × (record_vote C s i vote k power ≡ some r)
            × Recorded s i vote r.0 r.1
      go none at bits marked has' = (
        (
          record s {
            votes = set s.votes i (some vote);
            votes_bit_array = bits;
            sum = add s.sum power;
          },
          none,
        ),
        rw (at, record_vote) (rw (marked, record_vote)),
        record {
          validators = refl;
          majority = refl;
          blocks = refl;
          votes = replaced;
          bits = has';
          canonical = (vote, at_i);
        },
      )
      go (some existing) at bits marked has' = elim (Bool-cases (is_maj23 C s k)) [
        | inl chosen ↦ (
          (record s { votes = set s.votes i (some vote); votes_bit_array = bits }, some existing),
          rw (at, record_vote)
              (rw (fresh existing at, record_vote)
                (rw (chosen, record_vote) (rw (marked, record_vote)))),
          record {
            validators = refl;
            majority = refl;
            blocks = refl;
            votes = replaced;
            bits = has';
            canonical = (vote, at_i);
          },
        )
        | inr other ↦ (
          (s, some existing),
          rw (at, record_vote) (rw (fresh existing at, record_vote) (rw (other, record_vote))),
          record {
            validators = refl;
            majority = refl;
            blocks = refl;
            votes = Keeps-refl s.votes;
            bits = has;
            canonical = (existing, at);
          },
        )
      ]
