-- ===== src/Reply.antt =====
-- types/reply.go, with ReplySig and MakeReply of types/vote.go and VerifyReply of
-- types/validator_set.go: the commit votes of a round as the certificate of a block. A panic is
-- `none`. A time is a number of nanoseconds from the zero time. The memoised hash and bit array, the
-- string and the protobuf forms are not modelled.
mod Examples
pub mod Make
pub mod Verify
use bft.Base.{
  ℕ, zero, suc, ◌+◌, Bool, true, false, ◌&&◌, not, Option, none, some, List, [], ◌∷◌, map, ltb,
  ◌==◌, if◌then◌else◌, length, get_elem?, Bytes, bytes_equal,
}
use bft.Base.Partial.{◌>>=◌}
use bft.Base.Int.{ℤ, pos, negsuc, eqb_ℤ, is_neg, ltb_ℤ}
use bft.BlockId.{BlockId, zero_id, is_zero, is_complete, equals}
use bft.Merkle.Tree.{hash_from_byte_slices}
use bft.Vote.{Vote, commit_type, address_size, max_signature_size}
use bft.VoteSet.{Context, Val, VoteSet, Added, new_vote_set, add_vote, total_voting_power}

-- BlockIDFlag
abbrev pub flag_absent : ℕ
flag_absent = 1

abbrev pub flag_commit : ℕ
flag_commit = 2

abbrev pub flag_nil : ℕ
flag_nil = 3

pub record ReplySig : Type 0 where
  pub flag : ℕ
  pub address : Bytes
  pub timestamp : ℤ
  pub signature : Bytes

pub record Reply : Type 0 where
  pub height : ℤ
  pub round : ℤ
  pub block_id : BlockId
  pub signatures : List ReplySig

-- NewCommitSigAbsent
abbrev pub commit_sig_absent : ReplySig
commit_sig_absent = record { flag = flag_absent; address = []; timestamp = pos 0; signature = [] }

unfoldable pub for_block : ReplySig → Bool
for_block s = s.flag == flag_commit

unfoldable pub absent : ReplySig → Bool
absent s = s.flag == flag_absent

-- ReplySig.BlockID; an unknown flag is a panic.
unfoldable pub sig_block_id : ReplySig → BlockId → Option BlockId
sig_block_id s commit =
    if s.flag == flag_absent
    then some zero_id
    else if s.flag == flag_commit
    then some commit
    else if s.flag == flag_nil
    then some zero_id
    else none

pub data SigError : Type 0 where
  unknown_flag address_present time_present signature_present : SigError
  address_length signature_missing signature_too_big : SigError

unfoldable pub validate_sig : ReplySig → Option SigError
validate_sig s =
    if s.flag == flag_absent
    then (if not (length s.address == 0)
        then some address_present
        else if not (eqb_ℤ s.timestamp (pos 0))
        then some time_present
        else if not (length s.signature == 0)
        then some signature_present
        else none)
    else if not (s.flag == flag_commit) && not (s.flag == flag_nil)
    then some unknown_flag
    else if not (length s.address == address_size)
    then some address_length
    else if length s.signature == 0
    then some signature_missing
    else if ltb max_signature_size (length s.signature)
    then some signature_too_big
    else none

unfoldable pub validate_sigs : List ReplySig → Option SigError
unfolding validate_sig
validate_sigs [] = none
validate_sigs (s ∷ sigs) = elim (validate_sig s) [ none ↦ validate_sigs sigs | some e ↦ some e ]

pub data ReplyError : Type 0 where
  negative_height negative_round nil_block no_signatures : ReplyError
  wrong_sig : SigError → ReplyError

unfoldable pub validate_reply : Reply → Option ReplyError
unfolding validate_sigs
validate_reply r =
    if is_neg r.height
    then some negative_height
    else if is_neg r.round
    then some negative_round
    else if ltb_ℤ r.height (pos 1)
    then none
    else if is_zero r.block_id
    then some nil_block
    else if length r.signatures == 0
    then some no_signatures
    else elim (validate_sigs r.signatures) [ none ↦ none | some e ↦ some (wrong_sig e) ]

-- Vote.ReplySig; a block id that is neither nil nor complete is a panic.
unfoldable pub reply_sig : Option Vote → Option ReplySig
reply_sig none = some commit_sig_absent
reply_sig (some v) =
    if is_complete v.block_id
    then some (record {
      flag = flag_commit;
      address = v.validator_address;
      timestamp = v.timestamp;
      signature = v.signature;
    })
    else if is_zero v.block_id
    then some (record {
      flag = flag_nil;
      address = v.validator_address;
      timestamp = v.timestamp;
      signature = v.signature;
    })
    else none

-- The first signature with the address, and the zero one where there is none.
unfoldable pub sig_of : List ReplySig → Bytes → ReplySig
sig_of [] address = record { flag = 0; address = []; timestamp = pos 0; signature = [] }
sig_of (s ∷ sigs) address =
    let rest = sig_of sigs address in if bytes_equal s.address address then s else rest

-- GetVote: by address, or by index where the address is nil, which is the empty list here.
unfoldable pub get_vote : Reply → ℕ → Bytes → Option Vote
unfolding sig_of sig_block_id
get_vote r i address = do
  s ← (if length address == 0 then get_elem? r.signatures i else some (sig_of r.signatures address))
  b ← sig_block_id s r.block_id
  some (record {
    type = commit_type;
    height = r.height;
    round = r.round;
    block_id = b;
    timestamp = s.timestamp;
    validator_address = s.address;
    validator_index = pos i;
    signature = s.signature;
  })

unfoldable pub is_reply : Reply → Bool
is_reply r = not (length r.signatures == 0)

-- Hash; `encode` is the generated encoding of a signature.
unfoldable pub reply_hash : (Bytes → Bytes) → (ReplySig → Bytes) → Option Reply → Bytes
reply_hash sum encode none = []
reply_hash sum encode (some r) = hash_from_byte_slices sum (map encode r.signatures)

module _ (C : Context) where
  open C use {keys, floats, sign_bytes}
  open floats use {Float, of_ℕ, add, mul, div, le}

  -- One round of the loop of MakeReply.
  unfoldable pub make_sig : BlockId → Option Vote → Option ReplySig
  unfolding reply_sig for_block
  make_sig maj v = do
    s ← reply_sig v
    some (elim v [
      | none ↦ s
      | some w ↦ if for_block s && not (equals w.block_id maj) then commit_sig_absent else s
    ])

  unfoldable pub make_sigs : BlockId → List (Option Vote) → Option (List ReplySig)
  unfolding make_sig
  make_sigs maj [] = some []
  make_sigs maj (v ∷ votes) = do s ← make_sig maj v; sigs ← make_sigs maj votes; some (s ∷ sigs)

  unfoldable pub make_reply : VoteSet C → Option Reply
  unfolding make_sigs
  make_reply s = if not (s.signed_msg_type == commit_type) then none else elim s.maj23 [
    | none ↦ none
    | some maj ↦ do
      sigs ← make_sigs maj s.votes
      some (record { height = s.height; round = s.round; block_id = maj; signatures = sigs })
  ]

  -- The loop of ReplyToVoteSet, from index i.
  unfoldable pub add_sigs : Reply → ℕ → List ReplySig → VoteSet C → Option (VoteSet C)
  unfolding get_vote absent
  add_sigs r i [] s = some s
  add_sigs r i (sig ∷ sigs) s = if absent sig then add_sigs r (suc i) sigs s else (do
    vote ← get_vote r i sig.address
    (s', a) ← add_vote C s (some vote)
    elim a.error [ some _ ↦ none | none ↦ if a.added then add_sigs r (suc i) sigs s' else none ])

  unfoldable pub reply_to_vote_set : Bytes → Reply → List (Val C) → Option (VoteSet C)
  unfolding add_sigs
  reply_to_vote_set chain_id r vals = do
    s ← new_vote_set C chain_id r.height r.round commit_type vals
    add_sigs r 0 r.signatures s

  pub data VerifyError : Type 0 where
    invalid_size invalid_height wrong_block_id wrong_signature not_enough_power : VerifyError

  -- What the loop of VerifyReply ends with: an error or the tally.
  pub data Tally : Type 0 where
    refused : VerifyError → Tally
    tallied : Float → Tally

  -- A validator with a nil key is a panic.
  unfoldable pub tally : Bytes → Reply → ℕ → List (Val C) → List ReplySig → Float → Option Tally
  unfolding get_vote absent for_block
  tally chain_id r i vals [] sum = some (tallied sum)
  tally chain_id r i [] (s ∷ sigs) sum =
      if absent s then tally chain_id r (suc i) [] sigs sum else none
  tally chain_id r i (val ∷ vals) (s ∷ sigs) sum =
      if absent s then tally chain_id r (suc i) vals sigs sum else (do
        vote ← get_vote r i []
        pub_key ← val.pub_key
        let rest =
            tally chain_id r (suc i) vals sigs
              (if for_block s then add sum val.voting_power else sum)
        (if keys.verify_signature pub_key (sign_bytes chain_id vote) s.signature
            then rest
            else some (refused wrong_signature)))

  -- The error, if any.
  unfoldable pub verify_reply :
      List (Val C) → Bytes → BlockId → ℤ → Reply → Option (Option VerifyError)
  unfolding tally
  verify_reply vals chain_id block_id height r =
      if not (length vals == length r.signatures)
      then some (some invalid_size)
      else if not (eqb_ℤ height r.height)
      then some (some invalid_height)
      else if not (equals block_id r.block_id)
      then some (some wrong_block_id)
      else elim (tally chain_id r 0 vals r.signatures (of_ℕ 0)) [
        | none ↦ none
        | some (refused e) ↦ some (some e)
        | some (tallied got) ↦
            if le got (div (mul (total_voting_power C) (of_ℕ 2)) (of_ℕ 3))
            then some (some not_enough_power)
            else some none
      ]
