-- ===== src/Samples.antt =====
-- What the examples share: whole numbers for the powers, keys that are addresses, two validators of
-- equal power, and their vote sets at height 3.
use bft.Base.{
  ℕ, zero, suc, ◌+◌, ◌*◌, ◌/◌, ◌≡◌, refl, true, none, some, List, [], ◌∷◌, ◌++◌, arith, ltb, leb,
  ◌==◌, get_elem?, Bytes, subst, bytes_equal,
}
use bft.External.{Float64, IsOrdered, Keys}
use bft.Base.Int.{pos}
use bft.Bits.{new_bit_array}
use bft.VoteSet.{Context, Val, VoteSet, new_vote_set}
use bft.VoteSet.Total.{IsReady}
use bft.HeightVoteSet.{HeightVoteSet, put, new_height_vote_set}
use bft.HeightVoteSet.Invariant.{IsHeight}
use bft.HeightVoteSet.Rounds.{new_height_vote_set-IsHeight}

abbrev pub whole : Float64
whole = record {
  Float = ℕ;
  of_ℕ = λ n. n;
  add = λ a b. a + b;
  mul = λ a b. a * b;
  div = λ a b. a / b;
  lt = ltb;
  le = leb;
  eq = λ a b. a == b;
}

pub whole-IsOrdered : IsOrdered whole
whole-IsOrdered = record {
  not_le→lt = λ a b h. ground arith;
  lt→not_le = λ a b h. ground arith;
  le_refl = λ a. ground arith;
  le_trans = λ a b c h k. ground arith;
  add_grows = λ a p h. ground arith;
}

abbrev pub plain : Keys
plain = record {
  PubKey = Bytes;
  address = λ k. k;
  verify_signature = λ k m s. bytes_equal s (k ++ m);
}

abbrev pub context : Context
context = record {
  keys = plain;
  floats = whole;
  sign_bytes = λ chain v. chain ++ v.block_id.hash;
  marshal = λ h. h.total ∷ h.hash;
}

abbrev pub validator : Bytes → Val context
validator a = record { address = a; pub_key = some a; voting_power = 5; type = 0; trust = 1 }

abbrev pub validators : List (Val context)
validators = validator (1 ∷ []) ∷ validator (2 ∷ []) ∷ []

pub validators-IsReady : IsReady context validators
validators-IsReady = record { nonneg = nonneg; keyed = keyed }
  where
    nonneg :
        (i : ℕ) (val : Val context)
        → get_elem? validators i ≡ some val
        → leb 0 val.voting_power ≡ true
    nonneg i val h = ground arith

    keyed :
        (i : ℕ) (val : Val context)
        → get_elem? validators i ≡ some val
        → (pk : Bytes) × (val.pub_key ≡ some pk)
    keyed zero val h = ((1 ∷ []), ground arith)
    keyed (suc zero) val h = ((2 ∷ []), ground arith)
    keyed (suc (suc i)) val h = absurd (cc)

abbrev pub empty_set : ℕ → VoteSet context
empty_set type = record {
  chain_id = 9 ∷ [];
  height = pos 3;
  round = pos 0;
  signed_msg_type = type;
  val_set = validators;
  votes_bit_array = new_bit_array 2;
  votes = none ∷ none ∷ [];
  sum = 0;
  maj23 = none;
  votes_by_block = [];
  peer_maj23s = [];
}

abbrev pub start : HeightVoteSet context
start = record {
  chain_id = 9 ∷ [];
  height = pos 3;
  val_set = validators;
  round = pos 0;
  round_vote_sets =
      put context (pos 0) (record { prepares = empty_set 1; commits = empty_set 2 }) (λ _. none);
  peer_catchup_rounds = λ _. [];
}

started : new_height_vote_set context (9 ∷ []) (pos 3) validators ≡ some start
unfolding new_height_vote_set new_vote_set
started = refl

pub start-IsHeight : IsHeight context start
start-IsHeight =
    let (hvs, e, v, _, _, _) =
      new_height_vote_set-IsHeight context (9 ∷ []) (pos 3) validators refl validators-IsReady in
    let same : hvs ≡ start = ground (arith, e, started) in subst (IsHeight context) same v
