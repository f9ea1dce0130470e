-- ===== src/PrivValidator/Restart.antt =====
-- The signer of types/priv_validator.go over restarts from its state file.
use bft.Base.{◌≡◌, refl, Option, List, [], ◌∷◌, Bytes, subst, sym}
use bft.Base.Int.{ℤ}
use bft.PrivValidator.{
  LastSignState, FilePv, Request, Canonical, Outcome, signed, sign_request, save_signed,
  load_file_pv,
}
use bft.PrivValidator.Safety.{
  SameHrs, of_request, Effect, kept, reused, moved, sign_request-Effect, Holds, Effect-Holds,
  Effect-signed, Effect-one,
}

-- A request that is answered, or the end of the process and its start from the file. The process
-- may end anywhere before the file is written, within a request too: its memory then holds any state.
pub data SignerEvent : Type 1 where
  asked : Canonical → Request → SignerEvent
  restarted : LastSignState → SignerEvent

module _ (sign : Bytes → Option Bytes) where
  unfoldable pub run_restarts : FilePv → List SignerEvent → FilePv
  run_restarts pv [] = pv
  run_restarts pv (asked M r ∷ es) = run_restarts (sign_request sign M pv r).0 es
  run_restarts pv (restarted memory ∷ es) =
      run_restarts (load_file_pv (record pv { state = memory })) es

  -- What an answered request leaves in memory is in the file.
  Effect-saved :
      {pv : FilePv} {r : Request} {q : FilePv × Outcome}
      → Effect sign pv r q
      → pv.saved ≡ pv.state
      → q.0.saved ≡ q.0.state
  Effect-saved (kept out unsigned) e = e
  Effect-saved (reused out last same h only) e = e
  Effect-saved (moved sig before) e = unfold save_signed in refl

  run_restarts-Holds :
      (sig : Bytes) (r : Request) (pv : FilePv) (es : List SignerEvent)
      → pv.saved ≡ pv.state
      → Holds sign sig (of_request r) pv
      → Holds sign sig (of_request r) (run_restarts pv es)
  unfolding run_restarts
  run_restarts-Holds sig r pv [] e held = held
  run_restarts-Holds sig r pv (asked M r' ∷ es) e held =
      let effect = sign_request-Effect sign M pv r' in
      run_restarts-Holds sig r (sign_request sign M pv r').0 es (Effect-saved effect e)
        (Effect-Holds sign sig (of_request r) effect held)
  run_restarts-Holds sig r pv (restarted memory ∷ es) e held =
      let back = load_file_pv (record pv { state = memory }) in
      run_restarts-Holds sig r back es refl
        (subst (λ st. Holds sign sig (of_request r) (record pv { state = st })) (sym e) held)

  -- No double signing across restarts: from a signer whose file agrees with its memory, two
  -- requests for the same height, round and step that are both answered by a signature get the
  -- same signature, whatever the signer is asked in between and however often it starts again from
  -- the file, with any state of its memory lost. It is assumed that the state file reads back what
  -- was last written.
  pub one_signature_restarts :
      (pv : FilePv) (M M' : Canonical) (r r' : Request) (between : List SignerEvent)
      (sig sig' : Bytes) (t t' : Option ℤ)
      → pv.saved ≡ pv.state
      → (sign_request sign M pv r).1 ≡ signed sig t
      → SameHrs (of_request r) (of_request r')
      → (sign_request sign M' (run_restarts (sign_request sign M pv r).0 between) r').1
        ≡ signed sig' t'
      → sig ≡ sig'
  one_signature_restarts pv M M' r r' between sig sig' t t' e first same second =
      let effect = sign_request-Effect sign M pv r in
      let later = run_restarts (sign_request sign M pv r).0 between in
      Effect-one sign sig sig' t' (of_request r) (sign_request-Effect sign M' later r') second same
        (run_restarts-Holds sig r (sign_request sign M pv r).0 between (Effect-saved effect e)
          (Effect-signed sign sig t effect first))
