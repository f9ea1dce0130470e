-- ===== src/PrivValidator/Examples.antt =====
-- Runs of the signer: a prepare vote, then its second request, with a message that is its bytes.
use bft.Base.{◌≡◌, ◌⊎◌, refl, true, false, List, Option, none, some, [], ◌∷◌, Bytes, bytes_equal}
use bft.Base.ByteStrings.{bytes_equal}
use bft.Base.Int.{pos}
use bft.PrivValidator.{
  FilePv, Request, Canonical, passed, signed, check_hrs, initial_state, sign_request, reuse,
  save_signed, keep_signed,
}
use bft.PrivValidator.Restart.{SignerEvent, asked, restarted, run_restarts, one_signature_restarts}
use bft.PrivValidator.Safety.{Before, SameHrs, of_state, run, check_hrs-passed, one_signature}

abbrev sign : Bytes → Option Bytes
sign message = some (1 ∷ message)

abbrev plain : Canonical
plain = record {
  Message = Bytes;
  decode = λ b. some b;
  timestamp = λ m. pos 0;
  set_timestamp = λ t m. m;
  equal = bytes_equal;
}

abbrev fresh : FilePv
fresh = record { state = initial_state; saved = initial_state }

abbrev request : Bytes → Request
request b = record { height = pos 3; round = pos 1; step = 2; sign_bytes = b; now = pos 9 }

first : (sign_request sign plain fresh (request (5 ∷ []))).1 ≡ signed (1 ∷ 5 ∷ []) none
unfolding sign_request
first = refl

second :
    (sign_request sign plain
      (run sign (sign_request sign plain fresh (request (5 ∷ []))).0 [])
      (request (5 ∷ []))).1
    ≡ signed (1 ∷ 5 ∷ []) none
unfolding sign_request run reuse bytes_equal save_signed
second = refl

abbrev signature : Bytes
signature = 1 ∷ 5 ∷ []

one_signature_example : signature ≡ signature
one_signature_example =
    one_signature sign fresh plain plain (request (5 ∷ [])) (request (5 ∷ [])) [] signature
      signature none none first (refl, refl, refl) second

-- The process stops with a signature in memory, and then once more after an answer.
abbrev stops : List SignerEvent
stops =
    restarted initial_state
    ∷ asked plain (request (5 ∷ []))
    ∷ restarted (keep_signed fresh (request (6 ∷ [])) (6 ∷ [])).state
    ∷ []

after_stops :
    (sign_request sign plain
      (run_restarts sign (sign_request sign plain fresh (request (5 ∷ []))).0 stops)
      (request (5 ∷ []))).1
    ≡ signed (1 ∷ 5 ∷ []) none
unfolding sign_request run_restarts reuse bytes_equal save_signed
after_stops = refl

one_signature_restarts_example : signature ≡ signature
one_signature_restarts_example =
    one_signature_restarts sign fresh plain plain (request (5 ∷ [])) (request (5 ∷ [])) stops
      signature signature none none refl first (refl, refl, refl) after_stops

passes : check_hrs initial_state (pos 3) (pos 1) 2 ≡ passed false
unfolding check_hrs
passes = refl

check_hrs-passed_example :
    ((false ≡ false)
      × Before (of_state initial_state) (record { height = pos 3; round = pos 1; step = 2 }))
    ⊎ ((false ≡ true)
        × SameHrs (of_state initial_state) (record { height = pos 3; round = pos 1; step = 2 })
        × ((sig : Bytes) × (initial_state.signature ≡ some sig)))
check_hrs-passed_example = check_hrs-passed initial_state (pos 3) (pos 1) 2 false passes
