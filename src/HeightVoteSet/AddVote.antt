-- ===== src/HeightVoteSet/AddVote.antt =====
-- AddVote and SetPeerMaj23 of a HeightVoteSet.
use bft.Base.{
  ℕ, ◌<◌, ◌≡◌, refl, inl, inr, true, false, Option, none, some, List, [], ◌∷◌, arith, length,
  length-append, ltb, ◌==◌, if◌then◌else◌, Bytes, bytes_equal, subst, sym, ap, ◌∙◌, Bool-cases,
  Option-cases,
}
use bft.Base.Int.{ℤ, pos, eqb_ℤ, eqb_ℤ_sound, ltb_ℤ}
use bft.External.{IsOrdered}
use bft.BlockId.{BlockId}
use bft.Vote.{Vote, prepare_type, is_vote_type_valid}
use bft.VoteSet
use bft.VoteSet.{Context, Val, VoteSet, quorum}
use bft.VoteSet.Total.{IsReady}
use bft.VoteSet.Frame.{
  add_vote-place, set_peer_maj23-place, set_peer_maj23-val_set, set_peer_maj23-maj23,
}
use bft.VoteSet.AddVote.{add_vote_total}
use bft.VoteSet.Peers.{set_peer_maj23-IsValid}
use bft.HeightVoteSet.{
  RoundVoteSet, HeightVoteSet, Outcome, unwanted_round, with_type, of_type, get_vote_set,
  put_vote_set, add_to, catch_up, add_vote, set_peer_maj23, PeerError, invalid_type,
  conflicting_claim, of_vote_set,
}
use bft.HeightVoteSet.Invariant.{Holds, HasRounds, IsHeight, Extends, add_round_lem}
use bft.HeightVoteSet.Rounds.{of_type-Holds, of_type_total, put-IsHeight}

module _ (C : Context) where
  open C use {floats}
  open floats use {of_ℕ, lt}

  -- Majorities stay.
  abbrev pub KeepsMajorities : RoundVoteSet C → RoundVoteSet C → Type 0
  KeepsMajorities rvs rvs' =
      ((b : BlockId) → rvs.prepares.maj23 ≡ some b → rvs'.prepares.maj23 ≡ some b)
      × ((b : BlockId) → rvs.commits.maj23 ≡ some b → rvs'.commits.maj23 ≡ some b)

  -- What AddVote and SetPeerMaj23 do to the set as a whole.
  pub record Grows (hvs hvs' : HeightVoteSet C) : Type 0 where
    pub valid : IsHeight C hvs'
    pub height : hvs'.height ≡ hvs.height
    pub validators : hvs'.val_set ≡ hvs.val_set
    pub round : hvs'.round ≡ hvs.round
    pub majorities :
        (r : ℤ) (rvs : RoundVoteSet C)
        → hvs.round_vote_sets r ≡ some rvs
        → (rvs' : RoundVoteSet C) × (hvs'.round_vote_sets r ≡ some rvs') × KeepsMajorities rvs rvs'

  Grows-refl : (hvs : HeightVoteSet C) → IsHeight C hvs → Grows hvs hvs
  Grows-refl hvs v = record {
    valid = v;
    height = refl;
    validators = refl;
    round = refl;
    majorities = λ r rvs at. (rvs, at, (λ b e. e, λ b e. e));
  }

  Grows-trans : (a b c : HeightVoteSet C) → Grows a b → Grows b c → Grows a c
  Grows-trans a b c g h = record {
    valid = h.valid;
    height = h.height ∙ g.height;
    validators = h.validators ∙ g.validators;
    round = h.round ∙ g.round;
    majorities = λ r rvs at.
        let (x, at', (p, c)) = g.majorities r rvs at in
        let (y, at'', (p', c')) = h.majorities r x at' in
        (y, at'', (λ i e. p' i (p i e), λ i e. c' i (c i e)));
  }

  with_type-Keeps :
      (type : ℕ) (rvs : RoundVoteSet C) (s s' : VoteSet C)
      → of_type C rvs type ≡ some s
      → ((b : BlockId) → s.maj23 ≡ some b → s'.maj23 ≡ some b)
      → KeepsMajorities rvs (with_type C rvs type s')
  unfolding of_type
  with_type-Keeps type rvs s s' e keep = elim (Bool-cases (type == prepare_type)) [
    | inl prep ↦
        let found : rvs.prepares ≡ s = ground (arith, e, prep) in
        rw (prep) (λ b at. keep b (ap (λ (t : VoteSet C). t.maj23) (sym found) ∙ at), λ b at. at)
    | inr other ↦
        let found : rvs.commits ≡ s = ground (arith, e, other) in
        rw (other) (λ b at. at, λ b at. keep b (ap (λ (t : VoteSet C). t.maj23) (sym found) ∙ at))
  ]

  put-Grows :
      (hvs : HeightVoteSet C) (round : ℤ) (type : ℕ) (rvs : RoundVoteSet C) (s s' : VoteSet C)
      → IsHeight C hvs
      → hvs.round_vote_sets round ≡ some rvs
      → of_type C rvs type ≡ some s
      → Holds C hvs round type s'
      → ((b : BlockId) → s.maj23 ≡ some b → s'.maj23 ≡ some b)
      → Grows hvs (put_vote_set C hvs round type s')
  unfolding put_vote_set
  put-Grows hvs round type rvs s s' v at e h keep = record {
    valid = put-IsHeight C hvs round type rvs s s' v at e h;
    height = rw (at, put_vote_set) refl;
    validators = rw (at, put_vote_set) refl;
    round = rw (at, put_vote_set) refl;
    majorities = λ r x at'.
        rw (at, put_vote_set)
          (elim (Bool-cases (eqb_ℤ round r)) [
            | inl here ↦
                let same : rvs ≡ x =
                  ground (arith, at, at', ap hvs.round_vote_sets (eqb_ℤ_sound round r here)) in
                (
                  with_type C rvs type s',
                  ground (arith, here),
                  subst (λ y. KeepsMajorities y (with_type C rvs type s')) same
                      (with_type-Keeps type rvs s s' e keep),
                )
            | inr other ↦ (x, ground (arith, at', other), (λ b e. e, λ b e. e))
          ]);
  }

  -- A round that AddVote opens for a peer.
  opened-Grows :
      (hvs hvs' : HeightVoteSet C) (peer : Bytes) (round : ℤ)
      → IsHeight C hvs
      → Extends C hvs hvs'
      → HasRounds C hvs'
      → length (hvs.peer_catchup_rounds peer) < 2
      → Grows hvs (catch_up C hvs' peer round)
  unfolding catch_up
  opened-Grows hvs hvs' peer round v x all few = record {
    valid = record {
      ready = subst (IsReady C) (sym x.validators) v.ready;
      nonzero = ap (λ i. eqb_ℤ i (pos 0)) x.height ∙ v.nonzero;
      rounds = all;
      filled = λ n upto.
          let (rvs, at) = v.filled n (ap (λ r. ltb_ℤ r (pos n)) (sym x.round) ∙ upto) in
          (rvs, x.kept (pos n) rvs at);
      bounded = λ p. elim (Bool-cases (bytes_equal peer p)) [
        | inl same ↦ rw (same) (
            omega (
              arith,
              few,
              length-append (hvs'.peer_catchup_rounds peer) (round ∷ []),
              ap (λ (f : Bytes → List ℤ). length (f peer)) x.peers,
            ))
        | inr other ↦
            rw (other)
              (omega (arith, v.bounded p, ap (λ (f : Bytes → List ℤ). length (f p)) x.peers))
      ];
    };
    height = x.height;
    validators = x.validators;
    round = x.round;
    majorities = λ r rvs at. (rvs, x.kept r rvs at, (λ b e. e, λ b e. e));
  }

  module _ (o : IsOrdered floats) (positive : lt (of_ℕ 0) (quorum C) ≡ true) where
    outcome : VoteSet.Added → Outcome
    outcome a = record {
      added = a.added;
      error = elim a.error [ none ↦ none | some e ↦ some (of_vote_set e) ];
    }

    add_to-Grows :
        (hvs : HeightVoteSet C) (vote : Vote) (rvs : RoundVoteSet C) (s : VoteSet C)
        → IsHeight C hvs
        → hvs.round_vote_sets vote.round ≡ some rvs
        → of_type C rvs vote.type ≡ some s
        → (r : HeightVoteSet C × Outcome) × (add_to C hvs vote s ≡ some r) × Grows hvs r.0
    unfolding add_to outcome
    add_to-Grows hvs vote rvs s v at e =
        let (sv, same, here) =
          of_type-Holds C hvs vote.round vote.type rvs s e (v.rounds vote.round rvs at) in
        let (r, f, (valid, vals, keep)) =
          add_vote_total C o positive s (some vote) sv (subst (IsReady C) (sym same) v.ready) in
        (
          (put_vote_set C hvs vote.round vote.type r.0, outcome r.1),
          rw (f, add_to) refl,
          put-Grows hvs vote.round vote.type rvs s r.0 v at e
              (valid, vals ∙ same, add_vote-place C s r.0 vote r.1 f ∙ here) keep,
        )

    pub add_vote-Grows :
        (hvs : HeightVoteSet C) (vote : Vote) (peer : Bytes)
        → IsHeight C hvs
        → (r : HeightVoteSet C × Outcome) × (add_vote C hvs (some vote) peer ≡ some r)
          × Grows hvs r.0
    unfolding add_vote get_vote_set
    add_vote-Grows hvs vote peer v = elim (Bool-cases (is_vote_type_valid vote.type)) [
      | inr invalid ↦ (
        (hvs, record { added = false; error = none }),
        rw (invalid, add_vote) refl,
        Grows-refl hvs v,
      )
      | inl valid ↦ elim (Option-cases (hvs.round_vote_sets vote.round)) [
        | inr (rvs, at) ↦
            let (s, e) = of_type_total C vote.type rvs valid in
            let (r, f, g) = add_to-Grows hvs vote rvs s v at e in
            (r, rw (valid, add_vote) (rw (at, add_vote) (rw (e, add_vote) f)), g)
        | inl unknown ↦ elim (Bool-cases (ltb (length (hvs.peer_catchup_rounds peer)) 2)) [
          | inr full ↦ (
            (hvs, record { added = false; error = some unwanted_round }),
            rw (valid, add_vote) (rw (unknown, add_vote) (rw (full, add_vote) refl)),
            Grows-refl hvs v,
          )
          | inl few ↦
              let (mid, e, x, all, rvs, at) =
                add_round_lem C hvs vote.round v.nonzero v.rounds unknown in
              let (s, found) = of_type_total C vote.type rvs valid in
              let g = opened-Grows hvs mid peer vote.round v x all (ground (arith, few)) in
              let (r, f, h) =
                add_to-Grows (catch_up C mid peer vote.round) vote rvs s g.valid
                  (unfold catch_up in at) found in
              (
                r,
                rw (valid, add_vote)
                    (rw (unknown, add_vote)
                      (rw (few, add_vote)
                        (rw (e, add_vote) (rw (at, add_vote) (rw (found, add_vote) f))))),
                Grows-trans hvs (catch_up C mid peer vote.round) r.0 g h,
              )
        ]
      ]
    ]

    pub set_peer_maj23-Grows :
        (hvs : HeightVoteSet C) (round : ℤ) (type : ℕ) (peer : Bytes) (b : BlockId)
        → IsHeight C hvs
        → (r : HeightVoteSet C × Option (PeerError C)) × (set_peer_maj23 C hvs round type peer b
            ≡ some r)
          × Grows hvs r.0
    unfolding set_peer_maj23 get_vote_set
    set_peer_maj23-Grows hvs round type peer b v = elim (Bool-cases (is_vote_type_valid type)) [
      | inr invalid ↦
          ((hvs, some invalid_type), rw (invalid, set_peer_maj23) refl, Grows-refl hvs v)
      | inl valid ↦ elim (Option-cases (hvs.round_vote_sets round)) [
        | inl unknown ↦ (
          (hvs, none),
          rw (valid, set_peer_maj23) (rw (unknown, set_peer_maj23) refl),
          Grows-refl hvs v,
        )
        | inr (rvs, at) ↦
            let (s, e) = of_type_total C type rvs valid in
            let (sv, same, here) = of_type-Holds C hvs round type rvs s e (v.rounds round rvs at) in
            let s' = (VoteSet.set_peer_maj23 C s peer b).0 in
            (
              (
                put_vote_set C hvs round type s',
                if (VoteSet.set_peer_maj23 C s peer b).1 then some conflicting_claim else none,
              ),
              rw (valid, set_peer_maj23) (rw (at, set_peer_maj23) (rw (e, set_peer_maj23) refl)),
              put-Grows hvs round type rvs s s' v at e
                  (
                    set_peer_maj23-IsValid C s peer b positive sv,
                    set_peer_maj23-val_set C s peer b ∙ same,
                    set_peer_maj23-place C s peer b ∙ here,
                  )
                  (λ i maj. set_peer_maj23-maj23 C s peer b ∙ maj),
            )
      ]
    ]
