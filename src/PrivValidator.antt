-- ===== src/PrivValidator.antt =====
-- types/priv_validator.go: the signer that must never sign two different messages for one height,
-- round and step. The state file is a record, the state last saved; the key file, the JSON forms, the
-- generation of keys and the string form are not modelled.
mod Examples
pub mod Safety
pub mod Restart
use bft.Base.{
  ℕ, ◌+◌, ◌<◌, ◌≡◌, Bool, true, false, ◌&&◌, Option, none, some, List, [], ◌∷◌, ltb, ◌==◌,
  if◌then◌else◌, Bytes, bytes_equal,
}
use bft.Base.Int.{ℤ, pos, ltb_ℤ, eqb_ℤ}
use bft.Vote.{Vote, prepare_type, commit_type}

abbrev pub step_none : ℕ
step_none = 0

abbrev pub pre_prepare_step : ℕ
pre_prepare_step = 1

abbrev pub prepare_step : ℕ
prepare_step = 2

abbrev pub commit_step : ℕ
commit_step = 3

-- `none` is the panic on another type.
unfoldable pub vote_to_step : ℕ → Option ℕ
vote_to_step type =
    if type == prepare_type
    then some prepare_step
    else if type == commit_type
    then some commit_step
    else none

-- A nil slice is `none`.
pub record LastSignState : Type 0 where
  pub height : ℤ
  pub round : ℤ
  pub step : ℕ
  pub signature : Option Bytes
  pub sign_bytes : Option Bytes

pub data HrsError : Type 0 where
  height_regression round_regression step_regression no_sign_bytes : HrsError

pub data Check : Type 0 where
  passed : Bool → Check
  failed : HrsError → Check
  panicked : Check

-- The last branch of CheckHRS, at the same height, round and step.
unfoldable pub check_same : Option Bytes → Option Bytes → Check
check_same none signature = failed no_sign_bytes
check_same (some _) none = panicked
check_same (some _) (some _) = passed true

unfoldable pub check_hrs : LastSignState → ℤ → ℤ → ℕ → Check
unfolding check_same
check_hrs lss height round step =
    if ltb_ℤ height lss.height
    then failed height_regression
    else if eqb_ℤ lss.height height
    then (if ltb_ℤ round lss.round
        then failed round_regression
        else if eqb_ℤ lss.round round
        then (if ltb step lss.step
            then failed step_regression
            else if lss.step == step
            then check_same lss.sign_bytes lss.signature
            else passed false)
        else passed false)
    else passed false

-- FilePV, with what `Save` last wrote to the disk.
pub record FilePv : Type 0 where
  pub state : LastSignState
  pub saved : LastSignState

abbrev pub initial_state : LastSignState
initial_state = record {
  height = pos 0;
  round = pos 0;
  step = step_none;
  signature = none;
  sign_bytes = none;
}

unfoldable pub reset : FilePv → FilePv
reset pv = record { state = initial_state; saved = initial_state }

-- A canonical message: the generated decoding of sign bytes, its timestamp, and proto.Equal.
pub record Canonical : Type 1 where
  pub Message : Type 0
  pub decode : Bytes → Option Message
  pub timestamp : Message → ℤ
  pub set_timestamp : ℤ → Message → Message
  pub equal : Message → Message → Bool

-- checkVotesOnlyDifferByTimestamp and checkProposalsOnlyDifferByTimestamp, which differ in the type
-- of the message; `none` is a panic.
unfoldable pub only_differ_by_timestamp : (M : Canonical) → ℤ → Bytes → Bytes → Option (ℤ × Bool)
only_differ_by_timestamp M now last_bytes new_bytes = elim (M.decode last_bytes) [
  | none ↦ none
  | some last ↦ elim (M.decode new_bytes) [
    | none ↦ none
    | some new ↦
        some (M.timestamp last, M.equal (M.set_timestamp now new) (M.set_timestamp now last))
  ]
]

pub data SignError : Type 0 where
  check_failed : HrsError → SignError
  conflicting_data key_error : SignError

-- The result of a request: the signature that the message gets, and the timestamp if it is changed.
pub data Outcome : Type 0 where
  signed : Bytes → Option ℤ → Outcome
  refused : SignError → Outcome
  panicked : Outcome

pub record Request : Type 0 where
  pub height : ℤ
  pub round : ℤ
  pub step : ℕ
  pub sign_bytes : Bytes
  pub now : ℤ

-- FilePVLastSignState.Save: the file is replaced as a whole.
abbrev pub save : FilePv → FilePv
save pv = record pv { saved = pv.state }

-- The assignments of saveSigned, in memory only.
abbrev pub keep_signed : FilePv → Request → Bytes → FilePv
keep_signed pv r sig = record pv {
  state = record {
    height = r.height;
    round = r.round;
    step = r.step;
    signature = some sig;
    sign_bytes = some r.sign_bytes;
  };
}

unfoldable pub save_signed : FilePv → Request → Bytes → FilePv
save_signed pv r sig = save (keep_signed pv r sig)

-- loadFilePV: the state comes from the file, whatever the memory of the old process held. The JSON
-- form is taken to read back what was written.
abbrev pub load_file_pv : FilePv → FilePv
load_file_pv pv = record pv { state = pv.saved }

abbrev pub or_nil : Option Bytes → Bytes
or_nil none = []
or_nil (some b) = b

-- The case of the same height, round and step: nothing new is signed.
unfoldable pub reuse : Canonical → LastSignState → Request → Outcome
unfolding only_differ_by_timestamp
reuse M lss r =
    if bytes_equal r.sign_bytes (or_nil lss.sign_bytes)
    then signed (or_nil lss.signature) none
    else elim (only_differ_by_timestamp M r.now (or_nil lss.sign_bytes) r.sign_bytes) [
      | none ↦ panicked
      | some (time, same) ↦
          if same then signed (or_nil lss.signature) (some time) else refused conflicting_data
    ]

-- signVote and signProposal behind the encoding of their message. `sign` is PrivKey.Sign.
unfoldable pub sign_after :
    (Bytes → Option Bytes) → Canonical → FilePv → Request → Check → FilePv × Outcome
unfolding reuse save_signed
sign_after sign M pv r (failed e) = (pv, refused (check_failed e))
sign_after sign M pv r panicked = (pv, panicked)
sign_after sign M pv r (passed true) = (pv, reuse M pv.state r)
sign_after sign M pv r (passed false) = elim (sign r.sign_bytes) [
  | none ↦ (pv, refused key_error)
  | some sig ↦ (save_signed pv r sig, signed sig none)
]

unfoldable pub sign_request :
    (Bytes → Option Bytes) → Canonical → FilePv → Request → FilePv × Outcome
unfolding check_hrs sign_after
sign_request sign M pv r = sign_after sign M pv r (check_hrs pv.state r.height r.round r.step)

unfoldable pub sign_vote :
    (Bytes → Option Bytes)
    → Canonical
    → (Bytes → Vote → Bytes)
    → FilePv
    → Bytes
    → Vote
    → ℤ
    → FilePv × Outcome
unfolding vote_to_step sign_request
sign_vote sign M sign_bytes pv chain_id vote now = elim (vote_to_step vote.type) [
  | none ↦ (pv, panicked)
  | some step ↦ sign_request sign M pv (record {
    height = vote.height;
    round = vote.round;
    step = step;
    sign_bytes = sign_bytes chain_id vote;
    now = now;
  })
]
