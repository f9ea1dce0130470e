-- ===== src/Reply/Verify.antt =====
-- VerifyReply accepts only a certificate of the block with verified signatures.
use bft.Base.{
  ℕ, zero, suc, ◌+◌, ◌≡◌, refl, ◌⊎◌, inl, inr, true, false, Option, none, some, List, [], ◌∷◌,
  arith, length, get_elem?, if◌then◌else◌, Bytes, ap, ◌∙◌, sym, subst, ◌==◌, Bool-cases,
  Option-cases,
}
use bft.Base.Int.{ℤ, eqb_ℤ_sound}
use bft.BlockId.{BlockId, equals}
use bft.Vote.{Vote}
use bft.VoteSet.{Context, Val, total_voting_power}
use bft.Reply.{
  flag_commit, ReplySig, Reply, absent, for_block, get_vote, Tally, tallied, refused, tally,
  verify_reply,
}

module _ (C : Context) where
  open C use {keys, floats, sign_bytes}
  open floats use {Float, of_ℕ, add, mul, div, le}

  -- The signature at an index is that of the validator there, on the vote of the certificate.
  pub record IsSigned (chain_id : Bytes) (r : Reply) (i : ℕ) (val : Val C) (sig : ReplySig)
      : Type 0 where
    pub vote : Vote
    pub voted : get_vote r i [] ≡ some vote
    pub pub_key : keys.PubKey
    pub keyed : val.pub_key ≡ some pub_key
    pub verified : keys.verify_signature pub_key (sign_bytes chain_id vote) sig.signature ≡ true

  first-IsSigned :
      (chain_id : Bytes) (r : Reply) (i : ℕ) (val : Val C) (vals : List (Val C)) (s : ReplySig)
      (sigs : List ReplySig) (sum got : Float)
      → absent s ≡ false
      → tally C chain_id r i (val ∷ vals) (s ∷ sigs) sum ≡ some (tallied got)
      → IsSigned chain_id r i val s
        × (tally C chain_id r
              (suc i)
              vals
              sigs
              (if for_block s then add sum val.voting_power else sum)
            ≡ some (tallied got))
  unfolding tally
  first-IsSigned chain_id r i val vals s sigs sum got there e =
      elim (Option-cases (get_vote r i [])) [
        | inl panics ↦ absurd (ground (arith, e, there, panics))
        | inr (v, voted) ↦ elim (Option-cases val.pub_key) [
          | inl panics ↦ absurd (ground (arith, e, there, voted, panics))
          | inr (pk, keyed) ↦
              elim (Bool-cases (keys.verify_signature pk (sign_bytes chain_id v) s.signature)) [
                | inr bad ↦ absurd (ground (arith, e, there, voted, keyed, bad))
                | inl good ↦ (
                  record { vote = v; voted = voted; pub_key = pk; keyed = keyed; verified = good },
                  ground (arith, e, there, voted, keyed, good),
                )
              ]
        ]
      ]

  tally-IsSigned :
      (chain_id : Bytes) (r : Reply) (i : ℕ) (vals : List (Val C)) (sigs : List ReplySig)
      (sum got : Float)
      → tally C chain_id r i vals sigs sum ≡ some (tallied got)
      → (j : ℕ) (sig : ReplySig) → get_elem? sigs j ≡ some sig
      → absent sig ≡ false
      → (val : Val C) × (get_elem? vals j ≡ some val) × IsSigned chain_id r (i + j) val sig
  unfolding tally
  tally-IsSigned chain_id r i vals [] sum got e j sig at there = absurd (cc at)
  tally-IsSigned chain_id r i [] (s ∷ sigs) sum got e zero sig at there =
      absurd (ground (arith, e, at, there))
  tally-IsSigned chain_id r i [] (s ∷ sigs) sum got e (suc j) sig at there =
      let (val, none', _) =
        tally-IsSigned chain_id r (suc i) [] sigs sum got (ground (arith, e)) j sig at there in
      absurd (cc none')
  tally-IsSigned chain_id r i (val ∷ vals) (s ∷ sigs) sum got e zero sig at there =
      let same : s ≡ sig = ground (arith, at) in
      let (signed, _) =
        first-IsSigned chain_id r i val vals s sigs sum got (ap absent same ∙ there) e in
      (
        val,
        refl,
        subst (λ k. IsSigned chain_id r k val sig) (omega arith)
            (subst (IsSigned chain_id r i val) same signed),
      )
  tally-IsSigned chain_id r i (val ∷ vals) (s ∷ sigs) sum got e (suc j) sig at there =
      let (sum', rest) = later sum (Bool-cases (absent s)) in
      let (v, at', signed) =
        tally-IsSigned chain_id r (suc i) vals sigs sum' got rest j sig at there in
      (v, at', subst (λ k. IsSigned chain_id r k v sig) (omega arith) signed)
    where
      later :
          (sum : Float)
          → (absent s ≡ true) ⊎ (absent s ≡ false)
          → (sum' : Float) × (tally C chain_id r (suc i) vals sigs sum' ≡ some (tallied got))
      later _ (inl gone) = (sum, ground (arith, e, gone))
      later _ (inr here) = (_, (first-IsSigned chain_id r i val vals s sigs sum got here e).1)

  -- The power of the validators whose signature is for the block, in their order.
  abbrev pub signed_power : List (Val C) → List ReplySig → Float → Float
  signed_power [] sigs sum = sum
  signed_power (val ∷ vals) [] sum = sum
  signed_power (val ∷ vals) (s ∷ sigs) sum =
      signed_power vals sigs (if s.flag == flag_commit then add sum val.voting_power else sum)

  tally-signed_power :
      (chain_id : Bytes) (r : Reply) (i : ℕ) (vals : List (Val C)) (sigs : List ReplySig)
      (sum got : Float)
      → tally C chain_id r i vals sigs sum ≡ some (tallied got)
      → got ≡ signed_power vals sigs sum
  unfolding tally absent for_block
  tally-signed_power chain_id r i [] [] sum got e = ground (arith, e)
  tally-signed_power chain_id r i (val ∷ vals) [] sum got e = ground (arith, e)
  tally-signed_power chain_id r i [] (s ∷ sigs) sum got e =
      tally-signed_power chain_id r (suc i) [] sigs sum got (ground (arith, e))
  tally-signed_power chain_id r i (val ∷ vals) (s ∷ sigs) sum got e = elim (Bool-cases (absent s)) [
    | inr here ↦
        tally-signed_power chain_id r (suc i) vals sigs _ got
          (first-IsSigned chain_id r i val vals s sigs sum got here e).1
    | inl gone ↦
        let not_for : (s.flag == flag_commit) ≡ false = ground (arith, gone) in
        rw (not_for)
          (tally-signed_power chain_id r (suc i) vals sigs sum got (ground (arith, e, gone)))
  ]

  -- A certificate that VerifyReply accepts has the given height and an equal block id, as many
  -- signatures as there are validators, and a signature that is not absent is one that the key of
  -- the validator at its index verifies on the vote of the certificate; the tally is the sum of
  -- the powers of the validators whose signature is for the block, in their order, and is above
  -- two thirds of the total power.
  pub verify_reply-accepts :
      (vals : List (Val C)) (chain_id : Bytes) (id : BlockId) (height : ℤ) (r : Reply)
      → verify_reply C vals chain_id id height r ≡ some none
      → (length vals ≡ length r.signatures)
        × (height ≡ r.height)
        × (equals id r.block_id ≡ true)
        × ((tally C chain_id r 0 vals r.signatures (of_ℕ 0)
              ≡ some (tallied (signed_power vals r.signatures (of_ℕ 0))))
            × (le
                  (signed_power vals r.signatures (of_ℕ 0))
                  (div (mul (total_voting_power C) (of_ℕ 2)) (of_ℕ 3))
                ≡ false))
        × ((i : ℕ) (sig : ReplySig)
            → get_elem? r.signatures i ≡ some sig
            → absent sig ≡ false
            → (val : Val C) × (get_elem? vals i ≡ some val) × IsSigned chain_id r i val sig)
  unfolding verify_reply
  verify_reply-accepts vals chain_id id height r e =
      go (tally C chain_id r 0 vals r.signatures (of_ℕ 0)) refl
    where
      go :
          (t : Option (Tally C))
          → tally C chain_id r 0 vals r.signatures (of_ℕ 0) ≡ t
          → (length vals ≡ length r.signatures)
            × (height ≡ r.height)
            × (equals id r.block_id ≡ true)
            × ((tally C chain_id r 0 vals r.signatures (of_ℕ 0)
                  ≡ some (tallied (signed_power vals r.signatures (of_ℕ 0))))
                × (le
                      (signed_power vals r.signatures (of_ℕ 0))
                      (div (mul (total_voting_power C) (of_ℕ 2)) (of_ℕ 3))
                    ≡ false))
            × ((i : ℕ) (sig : ReplySig)
                → get_elem? r.signatures i ≡ some sig
                → absent sig ≡ false
                → (val : Val C) × (get_elem? vals i ≡ some val) × IsSigned chain_id r i val sig)
      go none f = absurd (ground (arith, e, f))
      go (some (refused bad)) f = absurd (ground (arith, e, f))
      go (some (tallied got)) f = (
        ground (arith, e, f),
        eqb_ℤ_sound height r.height (ground (arith, e, f)),
        ground (arith, e, f),
        let power : got ≡ signed_power vals r.signatures (of_ℕ 0) =
              tally-signed_power chain_id r 0 vals r.signatures (of_ℕ 0) got f in
            (
              f ∙ ap (λ x. some (tallied x)) power,
              ap (λ x. le x (div (mul (total_voting_power C) (of_ℕ 2)) (of_ℕ 3))) (sym power)
                  ∙ ground (arith, e, f),
            ),
        λ i sig at there.
            let (val, at', signed) =
              tally-IsSigned chain_id r 0 vals r.signatures (of_ℕ 0) got f i sig at there in
            (val, at', subst (λ k. IsSigned chain_id r k val sig) (omega arith) signed),
      )
