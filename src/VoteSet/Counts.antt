-- ===== src/VoteSet/Counts.antt =====
-- The counts of the blocks of a VoteSet (types/vote.go) over AddVote and SetPeerMaj23.
use bft.Base.{
  ℕ, ◌≡◌, refl, inl, inr, Bool, true, false, Option, none, some, List, arith, length, ◌==◌,
  get_elem?, Bytes, bytes_equal, bytes_equal_sound, ap, subst, sym, Bool-cases, Option-cases,
}
use bft.Base.Int.{ℤ, pos, negsuc}
use bft.Base.Assoc.{lookup, insert, lookup-insert}
use bft.BlockId.{BlockId, key}
use bft.Vote.{Vote, verify}
use bft.VoteSet.{
  Context, Val, BlockVotes, VoteSet, Added, new_block_votes, add_to_block, record_vote, tracked,
  reach_quorum, add_verified_vote, add_vote, add_vote_at, add_vote_of, verify_and_add, finish,
  get_vote, same_step, set_peer_maj23,
}
use bft.VoteSet.Tallies.{IsTally, power_at, new_block_votes-IsTally, add_to_block-IsTally}

module _ (C : Context) where
  open C use {keys, floats, marshal}
  open floats use {Float}

  abbrev pub Held : Type 0
  Held = List (Val C) × List (Bytes × BlockVotes C)

  abbrev pub held : VoteSet C → Held
  held s = (s.val_set, s.votes_by_block)

  abbrev pub Tallied : List (Val C) → Held → Type 0
  Tallied vals h =
      (h.0 ≡ vals)
      × ((k : Bytes) (vs : BlockVotes C) → lookup k h.1 ≡ some vs → IsTally C vals k vs)

  inserted :
      (vals : List (Val C)) (h : Held) (k : Bytes) (vs : BlockVotes C)
      → Tallied vals h
      → IsTally C vals k vs
      → Tallied vals (h.0, insert k vs h.1)
  inserted vals h k vs (same, each) t = (
    same,
    λ j x e. elim (Bool-cases (bytes_equal k j)) [
      | inl here ↦
          let one : vs ≡ x = ground (arith, lookup-insert k j vs h.1, here, e) in
          subst (λ y. IsTally C vals j y) one
            (subst (λ l. IsTally C vals l vs) (bytes_equal_sound k j here) t)
      | inr there ↦ each j x (ground (arith, lookup-insert k j vs h.1, there, e))
    ],
  )

  record_vote-held :
      (s s' : VoteSet C) (i : ℕ) (vote : Vote) (k : Bytes) (power : Float) (conflict : Option Vote)
      → record_vote C s i vote k power ≡ some (s', conflict)
      → held s' ≡ held s
  unfolding record_vote
  record_vote-held s s' i vote k power conflict e = ground (arith, e)

  reach_quorum-held :
      (s s' : VoteSet C) (vote : Vote) (before : Float) (vs : BlockVotes C)
      → reach_quorum C s vote before vs ≡ some s'
      → held s' ≡ held s
  unfolding reach_quorum
  reach_quorum-held s s' vote before vs e = ground (arith, e)

  tracked-IsTally :
      (vals : List (Val C)) (s : VoteSet C) (k : Bytes) (conflict : Option Vote) (vs : BlockVotes C)
      → Tallied vals (held s)
      → tracked C s k conflict ≡ some vs
      → IsTally C vals k vs
  unfolding tracked
  tracked-IsTally vals s k conflict vs (same, each) e =
      elim (Option-cases (lookup k s.votes_by_block)) [
        | inl missing ↦ elim (Option-cases conflict) [
          | inl first ↦
              let one : new_block_votes C false (length s.val_set) ≡ vs =
                ground (arith, e, missing, first) in
              subst (IsTally C vals k) one
                (new_block_votes-IsTally C vals k false (length s.val_set))
          | inr (w, other) ↦ absurd (ground (arith, e, missing, other))
        ]
        | inr (x, at) ↦
            let one : x ≡ vs = ground (arith, e, at) in subst (IsTally C vals k) one (each k x at)
      ]

  add_verified_vote-Tallied :
      (vals : List (Val C)) (s s' : VoteSet C) (i : ℕ) (vote : Vote) (added : Bool)
      (conflict : Option Vote)
      → Tallied vals (held s)
      → add_verified_vote C s i vote (key marshal vote.block_id) (power_at C vals i)
        ≡ some (s', added, conflict)
      → Tallied vals (held s')
  unfolding add_verified_vote
  add_verified_vote-Tallied vals s s' i vote added conflict all e =
      go (record_vote C s i vote (key marshal vote.block_id) (power_at C vals i)) refl
    where
      go :
          (r : Option (VoteSet C × Option Vote))
          → record_vote C s i vote (key marshal vote.block_id) (power_at C vals i) ≡ r
          → Tallied vals (held s')
      go none f = absurd (ground (arith, e, f))
      go (some (t, w)) f =
          let all' : Tallied vals (held t) =
            subst (Tallied vals)
              (sym
                (record_vote-held s t i vote (key marshal vote.block_id) (power_at C vals i) w f))
              all in
          elim (Option-cases (tracked C t (key marshal vote.block_id) w)) [
            | inl dropped ↦
                let one : t ≡ s' = ground (arith, e, f, dropped) in
                subst (λ x. Tallied vals (held x)) one all'
            | inr (vs, found) ↦ elim (Option-cases (add_to_block C vs i vote (power_at C vals i))) [
              | inl panics ↦ absurd (ground (arith, e, f, found, panics))
              | inr (vs', counted) ↦
                  let u : VoteSet C = record t {
                    votes_by_block = insert (key marshal vote.block_id) vs' t.votes_by_block;
                  } in
                  elim (Option-cases (reach_quorum C u vote vs.sum vs')) [
                    | inl panics ↦ absurd (ground (arith, e, f, found, counted, panics))
                    | inr (v, reached) ↦
                        let one : v ≡ s' = ground (arith, e, f, found, counted, reached) in
                        subst (λ x. Tallied vals (held x)) one
                          (subst (Tallied vals)
                            (sym (reach_quorum-held u v vote vs.sum vs' reached))
                            (inserted vals (held t) (key marshal vote.block_id) vs' all' (
                              add_to_block-IsTally C vals (key marshal vote.block_id) vs vs' i vote
                                refl
                                (tracked-IsTally vals t (key marshal vote.block_id) w vs all' found)
                                counted)))
                  ]
            ]
          ]

  verify_and_add-Tallied :
      (vals : List (Val C)) (s s' : VoteSet C) (i : ℕ) (vote : Vote) (pk : Option keys.PubKey)
      (a : Added)
      → Tallied vals (held s)
      → verify_and_add C s i vote pk (power_at C vals i) ≡ some (s', a)
      → Tallied vals (held s')
  unfolding verify_and_add finish
  verify_and_add-Tallied vals s s' i vote none a all e = absurd (cc e)
  verify_and_add-Tallied vals s s' i vote (some pk) a all e =
      elim (Option-cases (verify keys C.sign_bytes vote s.chain_id pk)) [
        | inr (bad, refused) ↦
            let one : s ≡ s' = ground (arith, e, refused) in
            subst (λ x. Tallied vals (held x)) one all
        | inl good ↦
            go (add_verified_vote C s i vote (key marshal vote.block_id) (power_at C vals i)) refl
              good
      ]
    where
      moved : (t : VoteSet C) → t ≡ s' → Tallied vals (held t) → Tallied vals (held s')
      moved t one = subst (λ x. Tallied vals (held x)) one

      go :
          (r : Option (VoteSet C × Bool × Option Vote))
          → add_verified_vote C s i vote (key marshal vote.block_id) (power_at C vals i) ≡ r
          → verify keys C.sign_bytes vote s.chain_id pk ≡ none
          → Tallied vals (held s')
      go none f good = absurd (ground (arith, e, f, good))
      go (some (t, true, none)) f good =
          moved t (ground (arith, e, f, good))
            (add_verified_vote-Tallied vals s t i vote true none all f)
      go (some (t, false, none)) f good = absurd (ground (arith, e, f, good))
      go (some (t, added, some w)) f good =
          moved t (ground (arith, e, f, good))
            (add_verified_vote-Tallied vals s t i vote added (some w) all f)

  add_vote_of-Tallied :
      (vals : List (Val C)) (s s' : VoteSet C) (i : ℕ) (vote : Vote) (val : Val C) (a : Added)
      → Tallied vals (held s)
      → get_elem? s.val_set i ≡ some val
      → add_vote_of C s i vote val ≡ some (s', a)
      → Tallied vals (held s')
  unfolding add_vote_of
  add_vote_of-Tallied vals s s' i vote val a all at e =
      go (get_vote C s i (key marshal vote.block_id)) refl
    where
      known : val.voting_power ≡ power_at C vals i
      known = ground (arith, ap (λ (x : List (Val C)). get_elem? x i) all.0, at)

      same : s ≡ s' → Tallied vals (held s')
      same one = subst (λ x. Tallied vals (held x)) one all

      go :
          (found : Option (Option Vote))
          → get_vote C s i (key marshal vote.block_id) ≡ found
          → Tallied vals (held s')
      go none f = absurd (ground (arith, e, f))
      go (some (some existing)) f = same (ground (arith, e, f))
      go (some none) f =
          let added : verify_and_add C s i vote val.pub_key val.voting_power ≡ some (s', a) =
            ground (arith, e, f) in
          verify_and_add-Tallied vals s s' i vote val.pub_key a all
            (subst (λ p. verify_and_add C s i vote val.pub_key p ≡ some (s', a)) known added)

  add_vote_at-Tallied :
      (vals : List (Val C)) (s s' : VoteSet C) (vote : Vote) (index : ℤ) (a : Added)
      → Tallied vals (held s)
      → add_vote_at C s vote index ≡ some (s', a)
      → Tallied vals (held s')
  unfolding add_vote_at
  add_vote_at-Tallied vals s s' vote index a all e = go index refl
    where
      same : s ≡ s' → Tallied vals (held s')
      same one = subst (λ x. Tallied vals (held x)) one all

      go : (j : ℤ) → index ≡ j → Tallied vals (held s')
      go (negsuc n) f = same (ground (arith, e, f))
      go (pos i) f = elim (Option-cases (get_elem? s.val_set i)) [
        | inl nobody ↦ same (ground (arith, e, f, nobody))
        | inr (val, known) ↦ elim (Bool-cases (length vote.validator_address == 0)) [
          | inl nameless ↦ same (ground (arith, e, f, nameless))
          | inr named ↦ elim (Bool-cases (same_step C s vote)) [
            | inr other ↦ same (ground (arith, e, f, named, other))
            | inl step ↦
                add_vote_of-Tallied vals s s' i vote val a all known
                  (ground (arith, e, f, named, step, known))
          ]
        ]
      ]

  pub add_vote-Tallied :
      (vals : List (Val C)) (s s' : VoteSet C) (vote : Option Vote) (a : Added)
      → Tallied vals (held s)
      → add_vote C s vote ≡ some (s', a)
      → Tallied vals (held s')
  unfolding add_vote
  add_vote-Tallied vals s s' none a all e =
      let one : s ≡ s' = ground (arith, e) in subst (λ x. Tallied vals (held x)) one all
  add_vote-Tallied vals s s' (some vote) a all e =
      add_vote_at-Tallied vals s s' vote vote.validator_index a all e

  claimed-IsTally :
      (vals : List (Val C)) (k : Bytes) (vs : BlockVotes C)
      → IsTally C vals k vs
      → IsTally C vals k (record vs { peer_maj23 = true })
  claimed-IsTally vals k vs t = record {
    order = t.order;
    once = t.once;
    voted = t.voted;
    own = t.own;
    summed = t.summed;
  }

  pub set_peer_maj23-Tallied :
      (vals : List (Val C)) (s : VoteSet C) (peer : Bytes) (b : BlockId)
      → Tallied vals (held s)
      → Tallied vals (held (set_peer_maj23 C s peer b).0)
  unfolding set_peer_maj23
  set_peer_maj23-Tallied vals s peer b all = elim (Option-cases (lookup peer s.peer_maj23s)) [
    | inr (old, known) ↦ rw (known, set_peer_maj23) all
    | inl new ↦ elim (Option-cases (lookup (key marshal b) s.votes_by_block)) [
      | inl missing ↦
          rw (new, set_peer_maj23)
            (rw (missing, set_peer_maj23)
              (inserted vals (held s) (key marshal b) (new_block_votes C true (length s.val_set))
                all (new_block_votes-IsTally C vals (key marshal b) true (length s.val_set))))
      | inr (vs, at) ↦ elim (Bool-cases vs.peer_maj23) [
        | inl claimed ↦
            rw (new, set_peer_maj23) (rw (at, set_peer_maj23) (rw (claimed, set_peer_maj23) all))
        | inr unclaimed ↦
            rw (new, set_peer_maj23)
              (rw (at, set_peer_maj23)
                (rw (unclaimed, set_peer_maj23)
                  (inserted vals (held s) (key marshal b) (record vs { peer_maj23 = true }) all
                    (claimed-IsTally vals (key marshal b) vs (all.1 (key marshal b) vs at)))))
      ]
    ]
  ]
