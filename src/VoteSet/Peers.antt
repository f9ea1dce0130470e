-- ===== src/VoteSet/Peers.antt =====
-- SetPeerMaj23 keeps a vote set well formed.
use bft.Base.{
  ◌≡◌, ◌⊎◌, refl, Bool, not, bytes_equal_refl, inl, inr, true, false, none, some, List, arith,
  length, Bytes, bytes_equal, bytes_equal_sound, subst, sym, ◌∙◌, Bool-cases, Option-cases,
}
use bft.Base.Assoc.{lookup, insert, lookup-insert}
use bft.BlockId.{BlockId, key, equals}
use bft.VoteSet.{Context, BlockVotes, VoteSet, new_block_votes, quorum, set_peer_maj23}
use bft.VoteSet.Total.{no_votes-Covers}
use bft.VoteSet.Invariant.{IsValid, IsBlock, Covers, new_block_votes-IsBlock}

module _ (C : Context) where
  open C use {floats, marshal}
  open floats use {Float, of_ℕ, add, lt, le}

  -- What an entry must satisfy to take the place of a key.
  record IsEntry (s : VoteSet C) (k : Bytes) (vs : BlockVotes C) : Type 0 where
    pub block : IsBlock C (length s.val_set) vs × Covers C s.votes vs.votes
    pub below : s.maj23 ≡ none → lt vs.sum (quorum C) ≡ true
    pub above : (b : BlockId) → s.maj23 ≡ some b → key marshal b ≡ k → le (quorum C) vs.sum ≡ true

  placed :
      (k j : Bytes) (vs : BlockVotes C) (s : VoteSet C)
      → bytes_equal k j ≡ true
      → lookup j (insert k vs s.votes_by_block) ≡ some vs
  placed k j vs s h = ground (arith, lookup-insert k j vs s.votes_by_block, h)

  elsewhere :
      (k j : Bytes) (vs : BlockVotes C) (s : VoteSet C)
      → bytes_equal k j ≡ false
      → lookup j (insert k vs s.votes_by_block) ≡ lookup j s.votes_by_block
  elsewhere k j vs s h = ground (arith, lookup-insert k j vs s.votes_by_block, h)

  with_entry-IsValid :
      (s : VoteSet C) (k : Bytes) (vs : BlockVotes C)
      → IsValid C s
      → IsEntry s k vs
      → IsValid C (record s { votes_by_block = insert k vs s.votes_by_block })
  with_entry-IsValid s k vs v t = record {
    sized = v.sized;
    bits = v.bits;
    blocks = λ j x e. elim (Bool-cases (bytes_equal k j)) [
      | inl same ↦
          let eq : vs ≡ x = ground (arith, placed k j vs s same, e) in
          subst (λ y. IsBlock C (length s.val_set) y × Covers C s.votes y.votes) eq t.block
      | inr other ↦ v.blocks j x (sym (elsewhere k j vs s other) ∙ e)
    ];
    below = λ open' j x e. elim (Bool-cases (bytes_equal k j)) [
      | inl same ↦
          let eq : vs ≡ x = ground (arith, placed k j vs s same, e) in
          subst (λ (y : BlockVotes C). lt y.sum (quorum C) ≡ true) eq (t.below open')
      | inr other ↦ v.below open' j x (sym (elsewhere k j vs s other) ∙ e)
    ];
    above = λ b maj. elim (Bool-cases (bytes_equal k (key marshal b))) [
      | inl same ↦ (
        vs,
        placed k (key marshal b) vs s same,
        t.above b maj (sym (bytes_equal_sound k (key marshal b) same)),
      )
      | inr other ↦
          let (x, at, q) = v.above b maj in (x, elsewhere k (key marshal b) vs s other ∙ at, q)
    ];
  }

  with_peers-IsValid :
      (s : VoteSet C) (peers : List (Bytes × BlockId))
      → IsValid C s
      → IsValid C (record s { peer_maj23s = peers })
  with_peers-IsValid s peers v = record {
    sized = v.sized;
    bits = v.bits;
    blocks = v.blocks;
    below = v.below;
    above = v.above;
  }

  claimed-IsEntry :
      (s : VoteSet C) (k : Bytes) (vs : BlockVotes C)
      → IsValid C s
      → lookup k s.votes_by_block ≡ some vs
      → IsEntry s k (record vs { peer_maj23 = true })
  claimed-IsEntry s k vs v at = record {
    block = let (b, c) = v.blocks k vs at in (record { sized = b.sized; bits = b.bits }, c);
    below = λ open'. v.below open' k vs at;
    above = λ b maj same.
        let (x, at', q) = v.above b maj in
        let eq : x ≡ vs =
          ground (arith, at, subst (λ j. lookup j s.votes_by_block ≡ some x) same at') in
        subst (λ (y : BlockVotes C). le (quorum C) y.sum ≡ true) eq q;
  }

  fresh-IsEntry :
      (s : VoteSet C) (k : Bytes)
      → lt (of_ℕ 0) (quorum C) ≡ true
      → IsValid C s
      → lookup k s.votes_by_block ≡ none
      → IsEntry s k (new_block_votes C true (length s.val_set))
  unfolding new_block_votes
  fresh-IsEntry s k positive v missing = record {
    block = (
      new_block_votes-IsBlock C true (length s.val_set),
      no_votes-Covers C (length s.val_set) s.votes,
    );
    below = λ open'. positive;
    above = λ b maj same.
        let (x, at', q) = v.above b maj in
        absurd (cc (missing, subst (λ j. lookup j s.votes_by_block ≡ some x) same at'));
  }

  pub set_peer_maj23-IsValid :
      (s : VoteSet C) (peer : Bytes) (b : BlockId)
      → lt (of_ℕ 0) (quorum C) ≡ true
      → IsValid C s
      → IsValid C (set_peer_maj23 C s peer b).0
  unfolding set_peer_maj23
  set_peer_maj23-IsValid s peer b positive v = elim (Option-cases (lookup peer s.peer_maj23s)) [
    | inr (old, known) ↦ rw (known, set_peer_maj23) v
    | inl new ↦
        let t : VoteSet C = record s { peer_maj23s = insert peer b s.peer_maj23s } in
        let v' : IsValid C t = with_peers-IsValid s (insert peer b s.peer_maj23s) v in
        elim (Option-cases (lookup (key marshal b) s.votes_by_block)) [
          | inl missing ↦
              rw (new, set_peer_maj23)
                (rw (missing, set_peer_maj23)
                  (with_entry-IsValid t (key marshal b) (new_block_votes C true (length s.val_set))
                    v' (fresh-IsEntry t (key marshal b) positive v' missing)))
          | inr (vs, at) ↦ elim (Bool-cases vs.peer_maj23) [
            | inl claimed ↦
                rw (new, set_peer_maj23) (rw (at, set_peer_maj23) (rw (claimed, set_peer_maj23) v'))
            | inr unclaimed ↦
                rw (new, set_peer_maj23)
                  (rw (at, set_peer_maj23)
                    (rw (unclaimed, set_peer_maj23)
                      (with_entry-IsValid t (key marshal b) (record vs { peer_maj23 = true }) v'
                        (claimed-IsEntry t (key marshal b) vs v' at))))
          ]
        ]
  ]

  -- The claim of a peer: the first is recorded, and its block is tracked; a later one changes
  -- nothing, and is an error (`true`) where it is for another block.
  abbrev pub IsClaim : VoteSet C → Bytes → BlockId → VoteSet C → Bool → Type 0
  IsClaim s peer b s' conflict =
      ((old : BlockId) × (lookup peer s.peer_maj23s ≡ some old)
        × (s' ≡ s)
        × (conflict ≡ not (equals old b)))
      ⊎ ((lookup peer s.peer_maj23s ≡ none)
          × (conflict ≡ false)
          × (lookup peer s'.peer_maj23s ≡ some b)
          × ((vs : BlockVotes C) × (lookup (key marshal b) s'.votes_by_block ≡ some vs)
              × (vs.peer_maj23 ≡ true)))

  pub set_peer_maj23-IsClaim :
      (s : VoteSet C) (peer : Bytes) (b : BlockId)
      → let (s', conflict) = set_peer_maj23 C s peer b in IsClaim s peer b s' conflict
  unfolding set_peer_maj23 new_block_votes
  set_peer_maj23-IsClaim s peer b = elim (Option-cases (lookup peer s.peer_maj23s)) [
    | inr (old, known) ↦ rw (known, set_peer_maj23) (inl (old, refl, refl, refl))
    | inl new ↦
        let k = key marshal b in
        let recorded : lookup peer (insert peer b s.peer_maj23s) ≡ some b =
          ground (arith, lookup-insert peer peer b s.peer_maj23s, bytes_equal_refl peer) in
        elim (Option-cases (lookup k s.votes_by_block)) [
          | inl missing ↦
              let fresh = new_block_votes C true (length s.val_set) in
              rw (new, set_peer_maj23)
                (rw (missing, set_peer_maj23)
                  (inr (
                    refl,
                    refl,
                    recorded,
                    (
                      fresh,
                      ground (arith, lookup-insert k k fresh s.votes_by_block, bytes_equal_refl k),
                      refl,
                    ),
                  )))
          | inr (vs, at) ↦ elim (Bool-cases vs.peer_maj23) [
            | inl claimed ↦
                rw (new, set_peer_maj23)
                  (rw (at, set_peer_maj23)
                    (rw (claimed, set_peer_maj23) (inr (refl, refl, recorded, (vs, at, claimed)))))
            | inr unclaimed ↦
                let now = record vs { peer_maj23 = true } in
                rw (new, set_peer_maj23)
                  (rw (at, set_peer_maj23)
                    (rw (unclaimed, set_peer_maj23)
                      (inr (
                        refl,
                        refl,
                        recorded,
                        (
                          now,
                          ground
                              (arith, lookup-insert k k now s.votes_by_block, bytes_equal_refl k),
                          refl,
                        ),
                      ))))
          ]
        ]
  ]
