-- ===== src/BlockPool/Heights.antt =====
-- The requesters of the pool stand at consecutive heights, and each keeps what `IsSound` says.
use bft.Base.{
  ℕ, suc, ◌+◌, ◌≡◌, refl, sym, ap, subst, Bool, true, false, Option, none, some, List, [], ◌∷◌,
  arith, if◌then◌else◌, length, Bytes, bytes_equal, Bool-cases, Option-cases, inl, inr, ap₂, ◌∙◌,
  ◌≤◌,
}
use bft.Base.Int.{ℤ, succ_ℤ, plus, eqb_ℤ, eqb_ℤ_refl, eqb_ℤ_sound, plus_lem, succ_ℤ_lem}
use bft.BlockPool.{Requester, at_height, put_height, delete_height, redo, redo_all}

module _ {Block : Type 0} (Sound : ℤ → Requester Block → Type 0) where
  -- One requester for each height from the given one on.
  abbrev pub IsRun : ℤ → List (ℤ × Requester Block) → Type 0
  IsRun h [] = Unit {0}
  IsRun h ((k, r) ∷ rs) = (k ≡ h) × Sound h r × IsRun (succ_ℤ h) rs

  pub at_height-Sound :
      (h k : ℤ) (r : Requester Block) (rs : List (ℤ × Requester Block))
      → IsRun h rs
      → at_height k rs ≡ some r
      → Sound k r
  unfolding at_height
  at_height-Sound h k r [] run e = absurd (cc e)
  at_height-Sound h k r ((j, s) ∷ rs) (same, sound, run) e = elim (Bool-cases (eqb_ℤ j k)) [
    | inl here ↦
        let one : s ≡ r = ground (arith, here, e) in
        let at = sym same ∙ eqb_ℤ_sound j k here in
        subst (λ t. Sound t r) at (subst (Sound h) one sound)
    | inr there ↦ at_height-Sound (succ_ℤ h) k r rs run (ground (arith, there, e))
  ]

  pub put_height-IsRun :
      (h k : ℤ) (r r' : Requester Block) (rs : List (ℤ × Requester Block))
      → IsRun h rs
      → at_height k rs ≡ some r
      → Sound k r'
      → IsRun h (put_height k r' rs)
  unfolding at_height put_height
  put_height-IsRun h k r r' [] run e sound' = absurd (cc e)
  put_height-IsRun h k r r' ((j, s) ∷ rs) (same, sound, run) e sound' =
      elim (Bool-cases (eqb_ℤ j k)) [
        | inl here ↦
            let at = sym (eqb_ℤ_sound j k here) ∙ same in
            rw (here, put_height) (at, subst (λ t. Sound t r') at sound', run)
        | inr there ↦
            rw (there, put_height)
              (
                same,
                sound,
                put_height-IsRun (succ_ℤ h) k r r' rs run (ground (arith, there, e)) sound',
              )
      ]

  -- The first two heights are there where two requesters are.
  pub at_height_two :
      (h : ℤ) (rs : List (ℤ × Requester Block))
      → IsRun h rs
      → 2 ≤ length rs
      → ((r : Requester Block) × (at_height h rs ≡ some r))
        × ((r : Requester Block) × (at_height (succ_ℤ h) rs ≡ some r))
  unfolding at_height
  at_height_two h [] run two = absurd (omega arith)
  at_height_two h (a ∷ []) run two = absurd (omega arith)
  at_height_two h ((j, r) ∷ ((k, t) ∷ rs)) (same, _, (same', _, _)) two =
      let here : eqb_ℤ j h ≡ true = ap (λ x. eqb_ℤ x h) same ∙ eqb_ℤ_refl h in
      let after : eqb_ℤ k (succ_ℤ h) ≡ true =
        ap (λ x. eqb_ℤ x (succ_ℤ h)) same' ∙ eqb_ℤ_refl (succ_ℤ h) in
      let other : eqb_ℤ j (succ_ℤ h) ≡ false = ground (arith, same, succ_ℤ_lem h) in
      ((r, ground (arith, here)), (t, ground (arith, other, after)))

  pub two-at_height :
      (h : ℤ) (r t : Requester Block) (rs : List (ℤ × Requester Block))
      → IsRun h rs
      → at_height h rs ≡ some r
      → at_height (succ_ℤ h) rs ≡ some t
      → 2 ≤ length rs
  unfolding at_height
  two-at_height h r t [] run e f = absurd (cc e)
  two-at_height h r t ((j, s) ∷ []) (same, _, _) e f =
      let other : eqb_ℤ j (succ_ℤ h) ≡ false = ground (arith, same, succ_ℤ_lem h) in
      absurd (ground (arith, other, f))
  two-at_height h r t (a ∷ (b ∷ rs)) run e f = omega arith

  -- The height after the last is new.
  pub put_height-new :
      (h : ℤ) (r : Requester Block) (rs : List (ℤ × Requester Block))
      → IsRun h rs
      → Sound (plus (length rs) h) r
      → IsRun h (put_height (plus (length rs) h) r rs)
  unfolding put_height
  put_height-new h r [] run sound = (refl, sound, _)
  put_height-new h r ((j, s) ∷ rs) (same, sound, run) sound' =
      let other : eqb_ℤ j (plus (length rs) (succ_ℤ h)) ≡ false =
        ground (arith, same, plus_lem (suc (length rs)) h) in
      rw (other, put_height) (same, sound, put_height-new (succ_ℤ h) r rs run sound')

  pub delete_height-IsRun :
      (h : ℤ) (r : Requester Block) (rs : List (ℤ × Requester Block))
      → IsRun h rs
      → at_height h rs ≡ some r
      → IsRun (succ_ℤ h) (delete_height h rs)
  unfolding at_height delete_height
  delete_height-IsRun h r [] run e = absurd (cc e)
  delete_height-IsRun h r ((j, s) ∷ rs) (same, sound, run) e =
      let here = ap (λ t. eqb_ℤ t h) same ∙ eqb_ℤ_refl h in rw (here, delete_height) run

  pub redo_all-IsRun :
      (id : Bytes)
      → ((h : ℤ) (r : Requester Block) → Sound h r → Sound h (redo id r))
      → (h : ℤ) (rs : List (ℤ × Requester Block)) → IsRun h rs
      → IsRun h (redo_all id rs)
  unfolding redo_all
  redo_all-IsRun id keep h [] run = _
  redo_all-IsRun id keep h ((j, r) ∷ rs) (same, sound, run) =
      (same, kept (bytes_equal r.peer_id id), redo_all-IsRun id keep (succ_ℤ h) rs run)
    where
      kept : (b : Bool) → Sound h (if b then redo id r else r)
      kept true = keep h r sound
      kept false = sound

module _ {Block : Type 0} where
  abbrev pub empty_slot : Option Block → ℕ
  empty_slot none = 1
  empty_slot (some _) = 0

  abbrev pub unfilled : Requester Block → ℕ
  unfilled r = empty_slot r.block

  -- The requesters that have no block yet.
  abbrev pub count_unfilled : List (ℤ × Requester Block) → ℕ
  count_unfilled [] = 0
  count_unfilled ((_, r) ∷ rs) = unfilled r + count_unfilled rs

  pub count_unfilled-put_height :
      (k : ℤ) (r r' : Requester Block) (rs : List (ℤ × Requester Block))
      → at_height k rs ≡ some r
      → count_unfilled (put_height k r' rs) + unfilled r ≡ count_unfilled rs + unfilled r'
  unfolding at_height put_height
  count_unfilled-put_height k r r' [] e = absurd (cc e)
  count_unfilled-put_height k r r' ((j, s) ∷ rs) e = elim (Bool-cases (eqb_ℤ j k)) [
    | inl here ↦
        let one : s ≡ r = ground (arith, here, e) in
        rw (here, put_height) (omega (arith, ap unfilled one))
    | inr there ↦
        let rest = count_unfilled-put_height k r r' rs (ground (arith, there, e)) in
        rw (there, put_height) (omega (arith, rest))
  ]

  -- A requester that is put in adds itself at most.
  pub count_unfilled-put_height_le :
      (k : ℤ) (r' : Requester Block) (rs : List (ℤ × Requester Block))
      → count_unfilled (put_height k r' rs) ≤ count_unfilled rs + unfilled r'
  unfolding put_height
  count_unfilled-put_height_le k r' [] = omega arith
  count_unfilled-put_height_le k r' ((j, s) ∷ rs) = elim (Bool-cases (eqb_ℤ j k)) [
    | inl here ↦ rw (here, put_height) (omega arith)
    | inr there ↦ rw (there, put_height) (omega (arith, count_unfilled-put_height_le k r' rs))
  ]

  pub count_unfilled-delete_height :
      (k : ℤ) (rs : List (ℤ × Requester Block))
      → count_unfilled (delete_height k rs) ≤ count_unfilled rs
  unfolding delete_height
  count_unfilled-delete_height k [] = omega arith
  count_unfilled-delete_height k ((j, s) ∷ rs) = elim (Bool-cases (eqb_ℤ j k)) [
    | inl here ↦ rw (here, delete_height) (omega arith)
    | inr there ↦ rw (there, delete_height) (omega (arith, count_unfilled-delete_height k rs))
  ]

  redo_block : (id : Bytes) (r : Requester Block) → (redo id r).block ≡ r.block
  unfolding redo
  redo_block id r = elim (Option-cases r.redo_ch) [
    | inl empty ↦ rw (empty, redo) refl
    | inr (i, full) ↦ rw (full, redo) refl
  ]

  pub count_unfilled-redo_all :
      (id : Bytes) (rs : List (ℤ × Requester Block))
      → count_unfilled (redo_all id rs) ≡ count_unfilled rs
  unfolding redo_all
  count_unfilled-redo_all id [] = refl
  count_unfilled-redo_all id ((j, r) ∷ rs) =
      ap₂ (λ a b. a + b) (kept (bytes_equal r.peer_id id)) (count_unfilled-redo_all id rs)
    where
      kept : (b : Bool) → unfilled (if b then redo id r else r) ≡ unfilled r
      kept true = ap empty_slot (redo_block id r)
      kept false = refl

  pub length-put_height :
      (k : ℤ) (r r' : Requester Block) (rs : List (ℤ × Requester Block))
      → at_height k rs ≡ some r
      → length (put_height k r' rs) ≡ length rs
  unfolding at_height put_height
  length-put_height k r r' [] e = absurd (cc e)
  length-put_height k r r' ((j, s) ∷ rs) e = elim (Bool-cases (eqb_ℤ j k)) [
    | inl here ↦ rw (here, put_height) refl
    | inr there ↦
        rw (there, put_height) (ap suc (length-put_height k r r' rs (ground (arith, there, e))))
  ]

  pub length-put_height_le :
      (k : ℤ) (r' : Requester Block) (rs : List (ℤ × Requester Block))
      → length (put_height k r' rs) ≤ suc (length rs)
  unfolding put_height
  length-put_height_le k r' [] = omega arith
  length-put_height_le k r' ((j, s) ∷ rs) = elim (Bool-cases (eqb_ℤ j k)) [
    | inl here ↦ rw (here, put_height) (omega arith)
    | inr there ↦ rw (there, put_height) (omega (arith, length-put_height_le k r' rs))
  ]

  pub length-put_height_grows :
      (k : ℤ) (r' : Requester Block) (rs : List (ℤ × Requester Block))
      → length rs ≤ length (put_height k r' rs)
  unfolding put_height
  length-put_height_grows k r' [] = omega arith
  length-put_height_grows k r' ((j, s) ∷ rs) = elim (Bool-cases (eqb_ℤ j k)) [
    | inl here ↦ rw (here, put_height) (omega arith)
    | inr there ↦ rw (there, put_height) (omega (arith, length-put_height_grows k r' rs))
  ]

  pub length-delete_height :
      (k : ℤ) (rs : List (ℤ × Requester Block)) → length (delete_height k rs) ≤ length rs
  unfolding delete_height
  length-delete_height k [] = omega arith
  length-delete_height k ((j, s) ∷ rs) = elim (Bool-cases (eqb_ℤ j k)) [
    | inl here ↦ rw (here, delete_height) (omega arith)
    | inr there ↦ rw (there, delete_height) (omega (arith, length-delete_height k rs))
  ]

  pub length-redo_all :
      (id : Bytes) (rs : List (ℤ × Requester Block)) → length (redo_all id rs) ≡ length rs
  unfolding redo_all
  length-redo_all id [] = refl
  length-redo_all id (r ∷ rs) = ap suc (length-redo_all id rs)
