-- ===== src/VoteSet/Frame.antt =====
-- What no operation of a VoteSet changes: its chain, height, round and type.
use bft.Base.{
  ℕ, ◌≡◌, refl, inl, inr, Bool, true, false, Option, none, some, arith, length, ◌==◌, get_elem?,
  Bytes, ◌∙◌, ap, Bool-cases, Option-cases,
}
use bft.Base.Int.{ℤ, pos, negsuc}
use bft.Base.Assoc.{insert}
use bft.BlockId.{BlockId, key}
use bft.Vote.{Vote, verify}
use bft.VoteSet.{
  Context, BlockVotes, VoteSet, Added, add_vote, add_vote_at, add_vote_of, verify_and_add,
  add_verified_vote, record_vote, reach_quorum, finish, get_vote, Val, same_step, set_peer_maj23,
  tracked, add_to_block,
}

module _ (C : Context) where
  open C use {keys, floats}
  open floats use {Float}

  abbrev pub place : VoteSet C → Bytes × ℤ × ℤ × ℕ
  place s = (s.chain_id, s.height, s.round, s.signed_msg_type)

  moved : (a b : VoteSet C) → a ≡ b → place a ≡ place b
  moved a b e = ap place e

  record_vote-place :
      (s s' : VoteSet C) (i : ℕ) (vote : Vote) (k : Bytes) (power : Float) (conflict : Option Vote)
      → record_vote C s i vote k power ≡ some (s', conflict)
      → place s' ≡ place s
  unfolding record_vote
  record_vote-place s s' i vote k power conflict e = ground (arith, e)

  reach_quorum-place :
      (s s' : VoteSet C) (vote : Vote) (before : Float) (vs : BlockVotes C)
      → reach_quorum C s vote before vs ≡ some s'
      → place s' ≡ place s
  unfolding reach_quorum
  reach_quorum-place s s' vote before vs e = ground (arith, e)

  add_verified_vote-place :
      (s s' : VoteSet C) (i : ℕ) (vote : Vote) (k : Bytes) (power : Float) (added : Bool)
      (conflict : Option Vote)
      → add_verified_vote C s i vote k power ≡ some (s', added, conflict)
      → place s' ≡ place s
  unfolding add_verified_vote
  add_verified_vote-place s s' i vote k power added conflict e =
      go (record_vote C s i vote k power) refl
    where
      go :
          (r : Option (VoteSet C × Option Vote))
          → record_vote C s i vote k power ≡ r
          → place s' ≡ place s
      go none f = absurd (ground (arith, e, f))
      go (some (t, w)) f = elim (Option-cases (tracked C t k w)) [
        | inl dropped ↦
            moved s' t (ground (arith, e, f, dropped)) ∙ record_vote-place s t i vote k power w f
        | inr (vs, found) ↦ elim (Option-cases (add_to_block C vs i vote power)) [
          | inl panics ↦ absurd (ground (arith, e, f, found, panics))
          | inr (vs', counted) ↦
              let u : VoteSet C = record t { votes_by_block = insert k vs' t.votes_by_block } in
              elim (Option-cases (reach_quorum C u vote vs.sum vs')) [
                | inl panics ↦ absurd (ground (arith, e, f, found, counted, panics))
                | inr (v, reached) ↦
                    moved s' v (ground (arith, e, f, found, counted, reached))
                    ∙ reach_quorum-place u v vote vs.sum vs' reached
                    ∙ record_vote-place s t i vote k power w f
              ]
        ]
      ]

  pub set_peer_maj23-place :
      (s : VoteSet C) (peer : Bytes) (b : BlockId) → place (set_peer_maj23 C s peer b).0 ≡ place s
  unfolding set_peer_maj23
  set_peer_maj23-place s peer b = ground arith

  verify_and_add-place :
      (s s' : VoteSet C) (i : ℕ) (vote : Vote) (pk : Option keys.PubKey) (power : Float) (a : Added)
      → verify_and_add C s i vote pk power ≡ some (s', a)
      → place s' ≡ place s
  unfolding verify_and_add finish
  verify_and_add-place s s' i vote none power a e = absurd (cc e)
  verify_and_add-place s s' i vote (some pk) power a e =
      elim (Option-cases (verify keys C.sign_bytes vote s.chain_id pk)) [
        | inr (bad, refused) ↦ moved s' s (ground (arith, e, refused))
        | inl good ↦ go (add_verified_vote C s i vote (key C.marshal vote.block_id) power) refl good
      ]
    where
      go :
          (r : Option (VoteSet C × Bool × Option Vote))
          → add_verified_vote C s i vote (key C.marshal vote.block_id) power ≡ r
          → verify keys C.sign_bytes vote s.chain_id pk ≡ none
          → place s' ≡ place s
      go none f good = absurd (ground (arith, e, f, good))
      go (some (t, true, none)) f good =
          moved s' t (ground (arith, e, f, good))
          ∙ add_verified_vote-place s t i vote (key C.marshal vote.block_id) power true none f
      go (some (t, false, none)) f good = absurd (ground (arith, e, f, good))
      go (some (t, added, some w)) f good =
          moved s' t (ground (arith, e, f, good))
          ∙ add_verified_vote-place s t i vote (key C.marshal vote.block_id) power added (some w) f

  add_vote_of-place :
      (s s' : VoteSet C) (i : ℕ) (vote : Vote) (val : Val C) (a : Added)
      → add_vote_of C s i vote val ≡ some (s', a)
      → place s' ≡ place s
  unfolding add_vote_of
  add_vote_of-place s s' i vote val a e = go (get_vote C s i (key C.marshal vote.block_id)) refl
    where
      go :
          (found : Option (Option Vote))
          → get_vote C s i (key C.marshal vote.block_id) ≡ found
          → place s' ≡ place s
      go none f = absurd (ground (arith, e, f))
      go (some (some existing)) f = moved s' s (ground (arith, e, f))
      go (some none) f =
          verify_and_add-place s s' i vote val.pub_key val.voting_power a (ground (arith, e, f))

  add_vote_at-place :
      (s s' : VoteSet C) (vote : Vote) (index : ℤ) (a : Added)
      → add_vote_at C s vote index ≡ some (s', a)
      → place s' ≡ place s
  unfolding add_vote_at
  add_vote_at-place s s' vote (negsuc n) a e = moved s' s (ground (arith, e))
  add_vote_at-place s s' vote (pos i) a e = elim (Option-cases (get_elem? s.val_set i)) [
    | inl nobody ↦ moved s' s (ground (arith, e, nobody))
    | inr (val, known) ↦ elim (Bool-cases (length vote.validator_address == 0)) [
      | inl nameless ↦ moved s' s (ground (arith, e, nameless))
      | inr named ↦ elim (Bool-cases (same_step C s vote)) [
        | inr other ↦ moved s' s (ground (arith, e, named, other))
        | inl step ↦ add_vote_of-place s s' i vote val a (ground (arith, e, named, step, known))
      ]
    ]
  ]

  pub add_vote-place :
      (s s' : VoteSet C) (vote : Vote) (a : Added)
      → add_vote C s (some vote) ≡ some (s', a)
      → place s' ≡ place s
  unfolding add_vote
  add_vote-place s s' vote a e = add_vote_at-place s s' vote vote.validator_index a e

  pub set_peer_maj23-val_set :
      (s : VoteSet C) (peer : Bytes) (b : BlockId)
      → (set_peer_maj23 C s peer b).0.val_set ≡ s.val_set
  unfolding set_peer_maj23
  set_peer_maj23-val_set s peer b = ground arith

  pub set_peer_maj23-maj23 :
      (s : VoteSet C) (peer : Bytes) (b : BlockId) → (set_peer_maj23 C s peer b).0.maj23 ≡ s.maj23
  unfolding set_peer_maj23
  set_peer_maj23-maj23 s peer b = ground arith
