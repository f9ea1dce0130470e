-- ===== src/PrivValidator/Safety.antt =====
-- The signer's key signs at most one message for a height, round and step, over any history of
-- requests.
use bft.Base.{
  ℕ, ◌+◌, ◌<◌, ◌≡◌, refl, ◌⊎◌, inl, inr, Bool, true, false, Option, none, some, List, [], ◌∷◌,
  arith, Bytes, ◌∙◌, sym, ap, Option-cases, Bool-cases,
}
use bft.Base.Int.{ℤ, pos_part, neg_part}
use bft.PrivValidator.{
  LastSignState, FilePv, Request, Canonical, Check, passed, failed, Outcome, signed, refused,
  check_same, check_hrs, sign_after, sign_request, save_signed, reuse, HrsError, SignError,
  check_failed, key_error,
}
use bft.PrivValidator

-- Height, round and step, in the order in which they are signed.
pub record Hrs : Type 0 where
  pub height : ℤ
  pub round : ℤ
  pub step : ℕ

abbrev Before_ℤ : ℤ → ℤ → Type 0
Before_ℤ a b = pos_part a + neg_part b < pos_part b + neg_part a

abbrev Same_ℤ : ℤ → ℤ → Type 0
Same_ℤ a b = pos_part a + neg_part b ≡ pos_part b + neg_part a

-- The lexicographic order.
abbrev pub Before : Hrs → Hrs → Type 0
Before a b =
    Before_ℤ a.height b.height
    ⊎ (Same_ℤ a.height b.height
        × (Before_ℤ a.round b.round ⊎ (Same_ℤ a.round b.round × (a.step < b.step))))

abbrev pub of_state : LastSignState → Hrs
of_state s = record { height = s.height; round = s.round; step = s.step }

abbrev pub of_request : Request → Hrs
of_request r = record { height = r.height; round = r.round; step = r.step }

Before-trans : (a b c : Hrs) → Before a b → Before b c → Before a c
Before-trans a b c p q = grind arith

Before-irrefl : (a : Hrs) → ¬ Before a a
Before-irrefl a p = grind arith

abbrev pub SameHrs : Hrs → Hrs → Type 0
SameHrs a b = Same_ℤ a.height b.height × Same_ℤ a.round b.round × (a.step ≡ b.step)

check_same_cases :
    (bytes signature : Option Bytes)
    → ((check_same bytes signature ≡ passed true) × ((sig : Bytes) × (signature ≡ some sig)))
      ⊎ ((b : Bool) → ¬ (check_same bytes signature ≡ passed b))
unfolding check_same
check_same_cases none signature = inr (λ b e. cc)
check_same_cases (some b) none = inr (λ b e. cc)
check_same_cases (some b) (some sig) = inl (refl, (sig, refl))

-- CheckHRS lets a new signature through only for a later height, round and step than the last one,
-- and the last signature only for the same ones, where it exists.
pub check_hrs-passed :
    (lss : LastSignState) (height round : ℤ) (step : ℕ) (same : Bool)
    → check_hrs lss height round step ≡ passed same
    → let asked : Hrs = record { height = height; round = round; step = step } in
      ((same ≡ false) × Before (of_state lss) asked)
      ⊎ ((same ≡ true)
          × SameHrs (of_state lss) asked
          × ((sig : Bytes) × (lss.signature ≡ some sig)))
unfolding check_hrs
check_hrs-passed lss height round step same e =
    elim (check_same_cases lss.sign_bytes lss.signature) [
      | inr never ↦ let no = never same in inl (ground (arith, no))
      | inl (passes, signature) ↦ elim (Bool-cases same) [
        | inl yes' ↦ inr (ground (arith, passes, signature))
        | inr no' ↦ inl (ground (arith, passes))
      ]
    ]

module _ (sign : Bytes → Option Bytes) where
  -- What a request does: nothing new is signed, or the state moves on to the request.
  pub data Effect (pv : FilePv) (r : Request) : FilePv × Outcome → Type 0 where
    kept :
        (out : Outcome)
        → ((sig : Bytes) (t : Option ℤ) → ¬ (out ≡ signed sig t))
        → Effect pv r (pv, out)
    reused :
        (out : Outcome) (last : Bytes)
        → SameHrs (of_state pv.state) (of_request r)
        → pv.state.signature ≡ some last
        → ((sig : Bytes) (t : Option ℤ) → out ≡ signed sig t → sig ≡ last)
        → Effect pv r (pv, out)
    moved :
        (sig : Bytes)
        → Before (of_state pv.state) (of_request r)
        → Effect pv r (save_signed pv r sig, signed sig none)

  reuse-last :
      (M : Canonical) (lss : LastSignState) (r : Request) (last sig : Bytes) (t : Option ℤ)
      → lss.signature ≡ some last
      → reuse M lss r ≡ signed sig t
      → sig ≡ last
  unfolding reuse
  reuse-last M lss r last sig t e f = ground arith

  pub sign_request-Effect :
      (M : Canonical) (pv : FilePv) (r : Request) → Effect pv r (sign_request sign M pv r)
  unfolding sign_request
  sign_request-Effect M pv r = go (check_hrs pv.state r.height r.round r.step) refl
    where
      go :
          (c : Check)
          → check_hrs pv.state r.height r.round r.step ≡ c
          → Effect pv r (sign_after sign M pv r c)
      go (failed e) h = kept (refused (check_failed e)) (λ sig t f. cc)
      go Check.panicked h = kept PrivValidator.Outcome.panicked (λ sig t f. cc)
      go (passed true) h = elim (check_hrs-passed pv.state r.height r.round r.step true h) [
        | inl (wrong, _) ↦ absurd (cc wrong)
        | inr (_, same, (last, e)) ↦
            reused (reuse M pv.state r) last same e (λ sig t. reuse-last M pv.state r last sig t e)
      ]
      go (passed false) h = elim (check_hrs-passed pv.state r.height r.round r.step false h) [
        | inr (wrong, _, _) ↦ absurd (cc wrong)
        | inl (_, before) ↦ elim (Option-cases (sign r.sign_bytes)) [
          | inl broken ↦ rw (broken, sign_after) (kept (refused key_error) (λ sig t f. cc))
          | inr (sig, e) ↦ rw (e, sign_after) (moved sig before)
        ]
      ]

  -- The signature `sig` was the last one, at `h`, and the state is at `h` still or past it.
  abbrev pub Holds : Bytes → Hrs → FilePv → Type 0
  Holds sig h pv =
      ((pv.state.signature ≡ some sig) × SameHrs (of_state pv.state) h)
      ⊎ Before h (of_state pv.state)

  pub Effect-Holds :
      (sig : Bytes) (h : Hrs) {pv : FilePv} {r : Request} {q : FilePv × Outcome}
      → Effect pv r q
      → Holds sig h pv
      → Holds sig h q.0
  Effect-Holds sig h (kept out unsigned) held = held
  Effect-Holds sig h (reused out last same e only) held = held
  Effect-Holds sig h {pv} {r} (moved new before) (inl (e, same)) =
      inr (unfold save_signed in grind arith)
  Effect-Holds sig h {pv} {r} (moved new before) (inr past) =
      inr (unfold save_signed in Before-trans h (of_state pv.state) (of_request r) past before)

  -- A request that is answered by a signature leaves that signature with its height, round and step.
  pub Effect-signed :
      (sig : Bytes) (t : Option ℤ) {pv : FilePv} {r : Request} {q : FilePv × Outcome}
      → Effect pv r q
      → q.1 ≡ signed sig t
      → Holds sig (of_request r) q.0
  Effect-signed sig t (kept out unsigned) e = absurd (unsigned sig t e)
  Effect-signed sig t (reused out last same e only) f = inl (e ∙ ap some (sym (only sig t f)), same)
  Effect-signed sig t {pv} {r} (moved new before) f =
      unfold save_signed in inl (ap some (cc), (refl, refl, refl))

  -- Nor can it be answered by another one.
  pub Effect-one :
      (sig sig' : Bytes) (t : Option ℤ) (h : Hrs) {pv : FilePv} {r : Request} {q : FilePv × Outcome}
      → Effect pv r q
      → q.1 ≡ signed sig' t
      → SameHrs h (of_request r)
      → Holds sig h pv
      → sig ≡ sig'
  Effect-one sig sig' t h (kept out unsigned) f at held = absurd (unsigned sig' t f)
  Effect-one sig sig' t h (reused out last same e only) f at (inl (e', same')) =
      let one = only sig' t f in cc (e, e', one)
  Effect-one sig sig' t h (reused out last same e only) f at (inr past) = absurd (grind arith)
  Effect-one sig sig' t h (moved new before) f at (inl (e', same')) = absurd (grind arith)
  Effect-one sig sig' t h (moved new before) f at (inr past) = absurd (grind arith)

  -- A history of requests for votes and proposals.
  unfoldable pub run : FilePv → List (Canonical × Request) → FilePv
  run pv [] = pv
  run pv ((M, r) ∷ rs) = run (sign_request sign M pv r).0 rs

  run-Holds :
      (sig : Bytes) (h : Hrs) (pv : FilePv) (rs : List (Canonical × Request))
      → Holds sig h pv
      → Holds sig h (run pv rs)
  unfolding run
  run-Holds sig h pv [] held = held
  run-Holds sig h pv ((M, r) ∷ rs) held =
      run-Holds sig h (sign_request sign M pv r).0 rs
        (Effect-Holds sig h (sign_request-Effect M pv r) held)

  -- No double signing: whatever the signer has signed and is asked in between, two requests for
  -- the same height, round and step that are both answered by a signature get the same signature.
  pub one_signature :
      (pv : FilePv) (M M' : Canonical) (r r' : Request) (between : List (Canonical × Request))
      (sig sig' : Bytes) (t t' : Option ℤ)
      → (sign_request sign M pv r).1 ≡ signed sig t
      → SameHrs (of_request r) (of_request r')
      → (sign_request sign M' (run (sign_request sign M pv r).0 between) r').1 ≡ signed sig' t'
      → sig ≡ sig'
  one_signature pv M M' r r' between sig sig' t t' first same second =
      let held = Effect-signed sig t (sign_request-Effect M pv r) first in
      let later = run (sign_request sign M pv r).0 between in
      Effect-one sig sig' t' (of_request r) (sign_request-Effect M' later r') second same
        (run-Holds sig (of_request r) (sign_request sign M pv r).0 between held)
