-- ===== src/Reply/Examples.antt =====
-- The certificate of two commits for a block.
use bft.Base.{
  ℕ, zero, suc, ◌≡◌, refl, true, false, ◌||◌, Option, none, some, [], ◌∷◌, arith, length, get_elem?,
  Bytes, replicate, subst, leb, ◌*◌, ◌/◌,
}
use bft.Base.ByteStrings.{bytes_equal}
use bft.Base.Int.{pos}
use bft.BlockId.{BlockId, equals, is_zero, is_complete}
use bft.Bits.{new_bit_array}
use bft.Samples.{context, validators}
use bft.Vote.{Vote}
use bft.VoteSet.{VoteSet, Val}
use bft.Reply.{Reply, ReplySig, absent, for_block, tally, tallied, make_reply, verify_reply}
use bft.Reply.Make.{IsSettled, Backs, make_reply_lem}
use bft.Reply.Verify.{IsSigned, signed_power, verify_reply-accepts}

abbrev digest : Bytes
digest = replicate 32 7

abbrev block_id : BlockId
block_id = record { hash = digest; parts = record { total = 1; hash = digest } }

abbrev vote : ℕ → Vote
vote i = record {
  type = 2;
  height = pos 3;
  round = pos 1;
  block_id = block_id;
  timestamp = pos 5;
  validator_address = suc i ∷ [];
  validator_index = pos i;
  signature = suc i ∷ 9 ∷ digest;
}

abbrev decided : VoteSet context
decided = record {
  chain_id = 9 ∷ [];
  height = pos 3;
  round = pos 1;
  signed_msg_type = 2;
  val_set = validators;
  votes_bit_array = new_bit_array 2;
  votes = some (vote 0) ∷ some (vote 1) ∷ [];
  sum = 10;
  maj23 = some block_id;
  votes_by_block = [];
  peer_maj23s = [];
}

whole_id : (is_zero block_id || is_complete block_id) ≡ true
unfolding is_zero is_complete
whole_id = refl

decided-IsSettled : IsSettled decided.votes
decided-IsSettled zero v e =
    let same : block_id ≡ v.block_id = ground (arith, e) in
    subst (λ (b : BlockId). (is_zero b || is_complete b) ≡ true) same whole_id
decided-IsSettled (suc zero) v e =
    let same : block_id ≡ v.block_id = ground (arith, e) in
    subst (λ (b : BlockId). (is_zero b || is_complete b) ≡ true) same whole_id
decided-IsSettled (suc (suc i)) v e = absurd (cc e)

make_reply_lem_example :
    (r : Reply) × (make_reply context decided ≡ some r)
    × (r.height ≡ pos 3)
    × (r.round ≡ pos 1)
    × (r.block_id ≡ block_id)
    × (length r.signatures ≡ 2)
    × ((i : ℕ) (sig : ReplySig)
        → get_elem? r.signatures i ≡ some sig
        → for_block sig ≡ true
        → (slot : Option Vote) × (get_elem? decided.votes i ≡ some slot) × Backs block_id sig slot)
make_reply_lem_example = make_reply_lem context decided block_id refl refl decided-IsSettled

abbrev sig : ℕ → ReplySig
sig i = record { flag = 2; address = suc i ∷ []; timestamp = pos 5; signature = suc i ∷ 9 ∷ digest }

abbrev certificate : Reply
certificate = record {
  height = pos 3;
  round = pos 1;
  block_id = block_id;
  signatures = sig 0 ∷ sig 1 ∷ [];
}

accepted : verify_reply context validators (9 ∷ []) block_id (pos 3) certificate ≡ some none
unfolding verify_reply bytes_equal equals
accepted = refl

verify_reply-accepts_example :
    (length validators ≡ 2)
    × (pos 3 ≡ certificate.height)
    × (equals block_id block_id ≡ true)
    × ((tally context (9 ∷ []) certificate 0 validators certificate.signatures 0
          ≡ some (tallied (signed_power context validators certificate.signatures 0)))
        × (leb (signed_power context validators certificate.signatures 0) (10 * 2 / 3) ≡ false))
    × ((i : ℕ) (s : ReplySig)
        → get_elem? certificate.signatures i ≡ some s
        → absent s ≡ false
        → (val : Val context) × (get_elem? validators i ≡ some val)
          × IsSigned context (9 ∷ []) certificate i val s)
verify_reply-accepts_example =
    verify_reply-accepts context validators (9 ∷ []) block_id (pos 3) certificate accepted
