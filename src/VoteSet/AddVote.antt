-- ===== src/VoteSet/AddVote.antt =====
-- AddVote of types/vote.go: panics, the majority, and the votes that change a set.
use bft.Base.{
  ℕ, ◌<◌, ◌≡◌, refl, ◌⊎◌, ◌↔◌, inl, inr, Bool, true, false, Option, none, some, arith, length, ◌==◌,
  get_elem?, Bytes, bytes_equal, bytes_equal_refl, ap, ◌∙◌, Bool-cases, Option-cases, get_elem?-lt,
  get_elem?-some,
}
use bft.Base.Int.{pos, negsuc, ℤ}
use bft.Base.Assoc.{lookup}
use bft.External.{IsOrdered}
use bft.BlockId.{BlockId, equals, equals_sound, key}
use bft.Vote.{Vote, verify}
use bft.VoteSet.{
  Context, Val, BlockVotes, VoteSet, Added, VoteError, vote_nil, invalid_validator_index,
  invalid_validator_address, unexpected_step, quorum, add_vote, add_vote_of, add_vote_at,
  verify_and_add, rejected, invalid_vote, non_deterministic_signature, get_vote, has_key,
  get_by_index, finish, has_two_thirds_majority, same_step,
}
use bft.VoteSet.Invariant.{IsValid}
use bft.VoteSet.Total.{IsReady, Verified, add_verified_vote-Verified}

module _ (C : Context) where
  open C use {keys, floats, sign_bytes, marshal}
  open floats use {Float, of_ℕ, add, lt, le}

  get_vote_total :
      (s : VoteSet C) (i : ℕ) (k : Bytes)
      → IsValid C s
      → i < length s.val_set
      → (found : Option Vote) × (get_vote C s i k ≡ some found)
  unfolding get_vote
  get_vote_total s i k v h =
      let (slot, at) = get_elem?-some s.votes i (omega (arith, v.sized)) in
      elim (Bool-cases (has_key C k slot)) [
        | inl hit ↦ (slot, rw (at, get_vote) (rw (hit, get_vote)))
        | inr miss ↦ elim (Option-cases (lookup k s.votes_by_block)) [
          | inl missing ↦
              (none, rw (at, get_vote) (rw (miss, get_vote) (rw (missing, get_by_index))))
          | inr (vs, entry) ↦
              let (other, at') =
                get_elem?-some vs.votes i (omega (arith, (v.blocks k vs entry).0.sized)) in
              (other, rw (at, get_vote) (rw (miss, get_vote) (rw (entry, get_by_index) at')))
        ]
      ]

  -- Where `getVote` finds nothing, the canonical vote is for another block.
  get_vote_distinct :
      (s : VoteSet C) (i : ℕ) (vote w : Vote)
      → get_vote C s i (key marshal vote.block_id) ≡ some none
      → get_elem? s.votes i ≡ some (some w)
      → equals w.block_id vote.block_id ≡ false
  unfolding get_vote
  get_vote_distinct s i vote w e at = elim (Bool-cases (equals w.block_id vote.block_id)) [
    | inr distinct ↦ distinct
    | inl same ↦
        let hit : bytes_equal (key marshal w.block_id) (key marshal vote.block_id) ≡ true =
          rw (equals_sound w.block_id vote.block_id same)
            (bytes_equal_refl (key marshal vote.block_id)) in
        absurd (ground (arith, hit))
  ]

  module _ (o : IsOrdered floats) (positive : lt (of_ℕ 0) (quorum C) ≡ true) where
    -- What every call of AddVote leaves.
    abbrev KeepsSet : VoteSet C → VoteSet C × Added → Type 0
    KeepsSet s r =
        IsValid C r.0
        × (r.0.val_set ≡ s.val_set)
        × ((b : BlockId) → s.maj23 ≡ some b → r.0.maj23 ≡ some b)

    unchanged : (s : VoteSet C) (a : Added) → IsValid C s → KeepsSet s (s, a)
    unchanged s a v = (v, refl, λ b e. e)

    finished :
        (s : VoteSet C) (vote : Vote) (r : VoteSet C × Bool × Option Vote)
        → Verified C o positive s r
        → (q : VoteSet C × Added) × (finish C vote r ≡ some q) × KeepsSet s q
    unfolding finish
    finished s vote (s', added, some w) v =
        (_, refl, (v.settled.valid, v.settled.validators, v.settled.majority))
    finished s vote (s', true, none) v =
        (_, refl, (v.settled.valid, v.settled.validators, v.settled.majority))
    finished s vote (s', false, none) v = absurd (cc (v.accepted refl))

    verify_and_add_total :
        (s : VoteSet C) (i : ℕ) (vote : Vote) (pk : keys.PubKey) (power : Float)
        → IsValid C s
        → i < length s.val_set
        → le (of_ℕ 0) power ≡ true
        → get_vote C s i (key marshal vote.block_id) ≡ some none
        → (r : VoteSet C × Added) × (verify_and_add C s i vote (some pk) power ≡ some r)
          × KeepsSet s r
    unfolding verify_and_add
    verify_and_add_total s i vote pk power v h nonneg e =
        elim (Option-cases (verify keys sign_bytes vote s.chain_id pk)) [
          | inr (bad, refused) ↦ (
            (s, record { added = false; error = some invalid_vote }),
            rw (refused, verify_and_add),
            unchanged s (record { added = false; error = some invalid_vote }) v,
          )
          | inl good ↦
              let (r, f, verified) =
                add_verified_vote-Verified C o positive s i vote power v h nonneg
                  (λ w. get_vote_distinct s i vote w e) in
              let (q, g, keeps) = finished s vote r verified in
              (q, rw (good, verify_and_add) (rw (f, verify_and_add) g), keeps)
        ]

    add_vote_of_total :
        (s : VoteSet C) (i : ℕ) (vote : Vote) (val : Val C)
        → IsValid C s
        → IsReady C s.val_set
        → get_elem? s.val_set i ≡ some val
        → (r : VoteSet C × Added) × (add_vote_of C s i vote val ≡ some r) × KeepsSet s r
    unfolding add_vote_of
    add_vote_of_total s i vote val v ready at =
        let (found, e) =
          get_vote_total s i (key marshal vote.block_id) v (get_elem?-lt s.val_set i at) in
        go found e
      where
        go :
            (found : Option Vote)
            → get_vote C s i (key marshal vote.block_id) ≡ some found
            → (r : VoteSet C × Added) × (add_vote_of C s i vote val ≡ some r) × KeepsSet s r
        go (some existing) e = elim (Bool-cases (bytes_equal existing.signature vote.signature)) [
          | inl same ↦ (
            (s, record { added = false; error = none }),
            rw (e, add_vote_of) (rw (same, add_vote_of)),
            unchanged s (record { added = false; error = none }) v,
          )
          | inr other ↦ (
            (s, record { added = false; error = some non_deterministic_signature }),
            rw (e, add_vote_of) (rw (other, add_vote_of)),
            unchanged s (record { added = false; error = some non_deterministic_signature }) v,
          )
        ]
        go none e =
            let (pk, keyed) = ready.keyed i val at in
            let (r, f, keeps) =
              verify_and_add_total s i vote pk val.voting_power v (get_elem?-lt s.val_set i at)
                (ready.nonneg i val at) e in
            (
              r,
              rw (e, add_vote_of)
                  (ap (λ p. verify_and_add C s i vote p val.voting_power) keyed ∙ f),
              keeps,
            )

    refused_total :
        (s : VoteSet C) (e : VoteError)
        → IsValid C s
        → (r : VoteSet C × Added) × (rejected C s e ≡ some r) × KeepsSet s r
    refused_total s e v = (
      (s, record { added = false; error = some e }),
      refl,
      unchanged s (record { added = false; error = some e }) v,
    )

    add_vote_at_total :
        (s : VoteSet C) (vote : Vote) (index : ℤ)
        → IsValid C s
        → IsReady C s.val_set
        → (r : VoteSet C × Added) × (add_vote_at C s vote index ≡ some r) × KeepsSet s r
    unfolding add_vote_at
    add_vote_at_total s vote (negsuc n) v ready = refused_total s invalid_validator_index v
    add_vote_at_total s vote (pos i) v ready =
        elim (Bool-cases (length vote.validator_address == 0)) [
          | inl nameless ↦ rw (nameless, add_vote_at) (refused_total s invalid_validator_address v)
          | inr named ↦ elim (Bool-cases (same_step C s vote)) [
            | inr other ↦
                rw (named, add_vote_at)
                  (rw (other, add_vote_at) (refused_total s unexpected_step v))
            | inl same ↦ elim (Option-cases (get_elem? s.val_set i)) [
              | inl nobody ↦
                  rw (named, add_vote_at)
                    (rw (same, add_vote_at)
                      (rw (nobody, add_vote_at) (refused_total s invalid_validator_index v)))
              | inr (val, at) ↦
                  rw (named, add_vote_at)
                    (rw (same, add_vote_at)
                      (rw (at, add_vote_at) (add_vote_of_total s i vote val v ready at)))
            ]
          ]
        ]

    pub add_vote_total :
        (s : VoteSet C) (vote : Option Vote)
        → IsValid C s
        → IsReady C s.val_set
        → (r : VoteSet C × Added) × (add_vote C s vote ≡ some r)
          × (IsValid C r.0
              × (r.0.val_set ≡ s.val_set)
              × ((b : BlockId) → s.maj23 ≡ some b → r.0.maj23 ≡ some b))
    unfolding add_vote
    add_vote_total s none v ready = refused_total s vote_nil v
    add_vote_total s (some vote) v ready = add_vote_at_total s vote vote.validator_index v ready

    -- With powers ordered as IEEE numbers are and a quorum above 0: in a well-formed vote set
    -- HasTwoThirdsMajority holds exactly when the tally of some block is at or above the quorum.
    pub majority-iff-tally :
        (s : VoteSet C)
        → IsValid C s
        → (has_two_thirds_majority C (some s) ≡ true) ↔ (
            (k : Bytes) × (vs : BlockVotes C) × (lookup k s.votes_by_block ≡ some vs)
            × (le (quorum C) vs.sum ≡ true))
    unfolding has_two_thirds_majority
    majority-iff-tally s v = (reached, has)
      where
        reached :
            has_two_thirds_majority C (some s) ≡ true
            → (k : Bytes) × (vs : BlockVotes C) × (lookup k s.votes_by_block ≡ some vs)
              × (le (quorum C) vs.sum ≡ true)
        reached h = elim (Option-cases s.maj23) [
          | inl open' ↦ absurd (ground arith)
          | inr (b, maj) ↦ let (vs, at, q) = v.above b maj in (key marshal b, vs, at, q)
        ]

        has :
            ((k : Bytes) × (vs : BlockVotes C) × (lookup k s.votes_by_block ≡ some vs)
              × (le (quorum C) vs.sum ≡ true))
            → has_two_thirds_majority C (some s) ≡ true
        has (k, vs, at, q) = elim (Option-cases s.maj23) [
          | inl open' ↦
              let low = o.lt→not_le vs.sum (quorum C) (v.below open' k vs at) in
              absurd (cc (low, q))
          | inr (b, maj) ↦ rw (maj, has_two_thirds_majority)
        ]

  -- The vote has passed every check of AddVote.
  pub record IsAuthentic (s : VoteSet C) (vote : Vote) : Type 0 where
    pub index : ℕ
    pub at_index : vote.validator_index ≡ pos index
    pub validator : Val C
    pub known : get_elem? s.val_set index ≡ some validator
    pub step : same_step C s vote ≡ true
    pub pub_key : keys.PubKey
    pub keyed : validator.pub_key ≡ some pub_key
    pub verified : verify keys sign_bytes vote s.chain_id pub_key ≡ none

  verify_and_add_cases :
      (s s' : VoteSet C) (i : ℕ) (vote : Vote) (pk : Option keys.PubKey) (power : Float) (a : Added)
      → verify_and_add C s i vote pk power ≡ some (s', a)
      → (s' ≡ s)
        ⊎ ((p : keys.PubKey) × (pk ≡ some p) × (verify keys sign_bytes vote s.chain_id p ≡ none))
  unfolding verify_and_add
  verify_and_add_cases s s' i vote none power a e = absurd (cc)
  verify_and_add_cases s s' i vote (some p) power a e =
      elim (Option-cases (verify keys sign_bytes vote s.chain_id p)) [
        | inl good ↦ inr (p, refl, good)
        | inr (bad, refused) ↦ inl (ground arith)
      ]

  add_vote_of_cases :
      (s s' : VoteSet C) (i : ℕ) (vote : Vote) (val : Val C) (a : Added)
      → add_vote_of C s i vote val ≡ some (s', a)
      → (s' ≡ s)
        ⊎ ((p : keys.PubKey) × (val.pub_key ≡ some p)
            × (verify keys sign_bytes vote s.chain_id p ≡ none))
  unfolding add_vote_of
  add_vote_of_cases s s' i vote val a e = go (get_vote C s i (key marshal vote.block_id)) refl
    where
      go :
          (found : Option (Option Vote))
          → get_vote C s i (key marshal vote.block_id) ≡ found
          → (s' ≡ s)
            ⊎ ((p : keys.PubKey) × (val.pub_key ≡ some p)
                × (verify keys sign_bytes vote s.chain_id p ≡ none))
      go none f = absurd (ground arith)
      go (some (some existing)) f = inl (ground arith)
      go (some none) f =
          verify_and_add_cases s s' i vote val.pub_key val.voting_power a (ground arith)

  add_vote_at_cases :
      (s s' : VoteSet C) (vote : Vote) (index : ℤ) (a : Added)
      → vote.validator_index ≡ index
      → add_vote_at C s vote index ≡ some (s', a)
      → (s' ≡ s) ⊎ IsAuthentic s vote
  unfolding add_vote_at
  add_vote_at_cases s s' vote (negsuc n) a at e = inl (ground arith)
  add_vote_at_cases s s' vote (pos i) a at e = elim (Option-cases (get_elem? s.val_set i)) [
    | inl nobody ↦ inl (ground arith)
    | inr (val, known) ↦ elim (Bool-cases (length vote.validator_address == 0)) [
      | inl nameless ↦ inl (ground arith)
      | inr named ↦ elim (Bool-cases (same_step C s vote)) [
        | inr other ↦ inl (ground arith)
        | inl step ↦ elim (add_vote_of_cases s s' i vote val a (ground arith)) [
          | inl same ↦ inl same
          | inr (pk, keyed, good) ↦ inr (record {
            index = i;
            at_index = at;
            validator = val;
            known = known;
            step = step;
            pub_key = pk;
            keyed = keyed;
            verified = good;
          })
        ]
      ]
    ]
  ]

  -- AddVote changes a vote set only for an authentic vote: one of the set's height, round and
  -- type, with the index of a validator of the set, whose address and signature the key of that
  -- validator verifies.
  pub add_vote-IsAuthentic :
      (s s' : VoteSet C) (vote : Vote) (a : Added)
      → add_vote C s (some vote) ≡ some (s', a)
      → (s' ≡ s) ⊎ IsAuthentic s vote
  unfolding add_vote
  add_vote-IsAuthentic s s' vote a e = add_vote_at_cases s s' vote vote.validator_index a refl e
