-- ===== src/Reply/Make.antt =====
-- MakeReply: the certificate has a signature for every validator, and one for the block only from a
-- vote for it.
use bft.Base.{
  ℕ, zero, suc, ◌≡◌, refl, inl, inr, true, ◌||◌, Option, none, some, List, [], ◌∷◌, arith, length,
  get_elem?, ◌==◌, ap, ◌∙◌, subst, Bool-cases,
}
use bft.BlockId.{BlockId, is_zero, is_complete, equals}
use bft.Vote.{Vote, commit_type}
use bft.VoteSet.{Context, VoteSet}
use bft.Reply.{
  ReplySig, Reply, commit_sig_absent, for_block, reply_sig, make_sig, make_sigs, make_reply,
}

abbrev pub IsSettled : List (Option Vote) → Type 0
IsSettled votes =
    (i : ℕ) (v : Vote)
    → get_elem? votes i ≡ some (some v)
    → (is_zero v.block_id || is_complete v.block_id) ≡ true

-- The signature of a vote for the block.
pub record Backs (maj : BlockId) (sig : ReplySig) (slot : Option Vote) : Type 0 where
  pub vote : Vote
  pub cast : slot ≡ some vote
  pub same_block : equals vote.block_id maj ≡ true
  pub signature : sig.signature ≡ vote.signature
  pub address : sig.address ≡ vote.validator_address

module _ (C : Context) where
  make_sig_lem :
      (maj : BlockId) (slot : Option Vote)
      → ((v : Vote) → slot ≡ some v → (is_zero v.block_id || is_complete v.block_id) ≡ true)
      → (sig : ReplySig) × (make_sig C maj slot ≡ some sig)
        × (for_block sig ≡ true → Backs maj sig slot)
  unfolding make_sig reply_sig for_block
  make_sig_lem maj none h = (commit_sig_absent, refl, λ e. absurd (cc e))
  make_sig_lem maj (some v) h = elim (Bool-cases (is_complete v.block_id)) [
    | inl whole ↦ elim (Bool-cases (equals v.block_id maj)) [
      | inl same ↦ (
        record {
          flag = 2;
          address = v.validator_address;
          timestamp = v.timestamp;
          signature = v.signature;
        },
        rw (whole, make_sig) (rw (same, make_sig) refl),
        λ _. record { vote = v; cast = refl; same_block = same; signature = refl; address = refl },
      )
      | inr other ↦
          (commit_sig_absent, rw (whole, make_sig) (rw (other, make_sig) refl), λ e. absurd (cc e))
    ]
    | inr part ↦
        let nil : is_zero v.block_id ≡ true = ground (arith, part, h v refl) in
        (
          record {
            flag = 3;
            address = v.validator_address;
            timestamp = v.timestamp;
            signature = v.signature;
          },
          rw (part, make_sig) (rw (nil, make_sig) refl),
          λ e. absurd (cc e),
        )
  ]

  make_sigs_lem :
      (maj : BlockId) (votes : List (Option Vote))
      → IsSettled votes
      → (sigs : List ReplySig) × (make_sigs C maj votes ≡ some sigs)
        × (length sigs ≡ length votes)
        × ((i : ℕ) (sig : ReplySig)
            → get_elem? sigs i ≡ some sig
            → for_block sig ≡ true
            → (slot : Option Vote) × (get_elem? votes i ≡ some slot) × Backs maj sig slot)
  unfolding make_sigs
  make_sigs_lem maj [] h = ([], refl, refl, λ i sig e. absurd (cc e))
  make_sigs_lem maj (slot ∷ votes) h =
      let (sig, e, one) = make_sig_lem maj slot (λ v at. h 0 v (ap some at)) in
      let (sigs, f, len, all) = make_sigs_lem maj votes (λ i v at. h (suc i) v at) in
      (sig ∷ sigs, rw (e, make_sigs) (rw (f, make_sigs) refl), ap suc len, each sig sigs one all)
    where
      each :
          (sig : ReplySig) (sigs : List ReplySig)
          → (for_block sig ≡ true → Backs maj sig slot)
          → ((i : ℕ) (sig : ReplySig)
              → get_elem? sigs i ≡ some sig
              → for_block sig ≡ true
              → (slot : Option Vote) × (get_elem? votes i ≡ some slot) × Backs maj sig slot)
          → (i : ℕ) (x : ReplySig) → get_elem? (sig ∷ sigs) i ≡ some x
          → for_block x ≡ true
          → (s : Option Vote) × (get_elem? (slot ∷ votes) i ≡ some s) × Backs maj x s
      each sig sigs one all zero x e b =
          let same : sig ≡ x = ground (arith, e) in
          (slot, refl, subst (λ y. Backs maj y slot) same (one (ap for_block same ∙ b)))
      each sig sigs one all (suc i) x e b = all i x e b

  -- For a commit vote set with a majority, whose votes have block ids that are nil or complete,
  -- MakeReply does not panic; the certificate has the height, the round and the majority's block
  -- id, a signature for every validator, and each signature that is for the block is that of a
  -- vote with an equal block id at its index.
  pub make_reply_lem :
      (s : VoteSet C) (maj : BlockId)
      → (s.signed_msg_type == commit_type) ≡ true
      → s.maj23 ≡ some maj
      → IsSettled s.votes
      → (r : Reply) × (make_reply C s ≡ some r)
        × (r.height ≡ s.height)
        × (r.round ≡ s.round)
        × (r.block_id ≡ maj)
        × (length r.signatures ≡ length s.votes)
        × ((i : ℕ) (sig : ReplySig)
            → get_elem? r.signatures i ≡ some sig
            → for_block sig ≡ true
            → (slot : Option Vote) × (get_elem? s.votes i ≡ some slot) × Backs maj sig slot)
  unfolding make_reply
  make_reply_lem s maj t e h =
      let (sigs, f, len, all) = make_sigs_lem maj s.votes h in
      (
        record { height = s.height; round = s.round; block_id = maj; signatures = sigs },
        rw (t, make_reply) (rw (e, make_reply) (rw (f, make_reply) refl)),
        refl,
        refl,
        refl,
        len,
        all,
      )
