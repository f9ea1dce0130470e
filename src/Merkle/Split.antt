-- ===== src/Merkle/Split.antt =====
-- `getSplitPoint` of crypto/merkle/tree.go.
use native.Mathlib.Nat.{pow-suc}
use bft.Base.Order.{pow_le}
use bft.Base.{
  ℕ, zero, suc, ◌-◌, ◌*◌, ◌/◌, ◌^◌, ◌≤◌, ◌<◌, ◌≡◌, refl, inl, inr, Option, none, some, arith, ltb,
  ◌==◌, if◌then◌else◌, Bool-cases, ==_iff, dec_lt, ap, ◌∙◌, le→ltb, dec_le,
}

-- bits.Len: the number of binary digits of `n`. `n` halvings reach 0.
bits_len_fuel : ℕ → ℕ → ℕ
bits_len_fuel zero n = 0
bits_len_fuel (suc f) n = let more = suc (bits_len_fuel f (n / 2)) in if n == 0 then 0 else more

pub bits_len : ℕ → ℕ
unfolding bits_len_fuel
bits_len n = bits_len_fuel n n

-- The body after the guard. A list's length is below 2 ^ 63, so the shift does not overflow.
unfoldable pub split : ℕ → ℕ
unfolding bits_len
split n = let k = 2 ^ (bits_len n - 1) in if k == n then k / 2 else k

-- `none` is the panic.
unfoldable pub get_split_point : ℕ → Option ℕ
get_split_point n = if ltb n 1 then none else some (split n)

split_values : (split 2 ≡ 1) × (split 3 ≡ 2) × (split 8 ≡ 4) × (split 9 ≡ 8)
unfolding split
split_values = (refl, refl, refl, refl)

abbrev IsLen : ℕ → ℕ → Type 0
IsLen n l = (e : ℕ) × (l ≡ suc e) × (2 ^ e ≤ n) × (n < 2 ^ e * 2)

bits_len_fuel-IsLen : (f n : ℕ) → n ≤ f → 1 ≤ n → IsLen n (bits_len_fuel f n)
unfolding bits_len_fuel
bits_len_fuel-IsLen zero n h p = absurd (omega arith)
bits_len_fuel-IsLen (suc f) n h p = elim (dec_le 2 n) [
  | yes two ↦
      let (e, le', lo, hi) = bits_len_fuel-IsLen f (n / 2) (omega arith) (omega arith) in
      (
        suc e,
        ground (arith, le'),
        omega (arith, pow-suc 2 e, lo, hi),
        omega (arith, pow-suc 2 e, lo, hi),
      )
  | no one ↦ (0, ground (arith, bits_len_fuel_zero f (n / 2)), omega arith, omega arith)
]
  where
    bits_len_fuel_zero : (f m : ℕ) → m ≡ 0 → bits_len_fuel f m ≡ 0
    bits_len_fuel_zero zero m e = refl
    bits_len_fuel_zero (suc f) m e = ground arith

-- An exact power of two is halved.
halve_exact :
    (n k e : ℕ)
    → k ≡ 2 ^ e
    → k ≡ n
    → 2 ≤ n
    → (d : ℕ) × (k / 2 ≡ 2 ^ d) × (2 ^ d < n) × (n ≤ 2 ^ d * 2)
halve_exact n k zero eq same h = absurd (omega arith)
halve_exact n k (suc e) eq same h =
    (e, omega (arith, pow-suc 2 e), omega (arith, pow-suc 2 e), omega (arith, pow-suc 2 e))

-- For a length of two or more the split point is a power of two below the length, and the length
-- is at most its double.
pub split_bounds : (n : ℕ) → 2 ≤ n → (e : ℕ) × (split n ≡ 2 ^ e) × (2 ^ e < n) × (n ≤ 2 ^ e * 2)
unfolding split
split_bounds n h =
    let (e, len, lo, hi) = bits_len_fuel-IsLen n n (omega arith) (omega arith) in
    let k : 2 ^ (bits_len_fuel n n - 1) ≡ 2 ^ e = ap (λ l. 2 ^ l) (omega (arith, len)) in
    elim (Bool-cases (2 ^ (bits_len_fuel n n - 1) == n)) [
      | inl exact ↦
          let (d, eq, lo', hi') = halve_exact n _ e k ((==_iff _ n).0 exact) h in
          (d, rw exact eq, lo', hi')
      | inr above ↦ (e, rw above k, ground arith, omega arith)
    ]

pub split_fits : (n : ℕ) → 2 ≤ n → (0 < split n) × (split n < n) × (n ≤ split n * 2)
split_fits n h = let (e, eq, lo, hi) = split_bounds n h in omega (arith, eq, lo, hi)

-- `getSplitPoint` panics on an empty tree only.
pub get_split_point_total : (n : ℕ) → 1 ≤ n → get_split_point n ≡ some (split n)
unfolding get_split_point
get_split_point_total n h = rw (le→ltb _ _ h)

-- There is only one such power.
pub split_unique : (n e : ℕ) → 2 ^ e < n → n ≤ 2 ^ e * 2 → 2 ≤ n → split n ≡ 2 ^ e
split_unique n e lo hi h =
    let (d, eq, lo', hi') = split_bounds n h in
    elim (dec_lt d e) [
      | yes less ↦ absurd (omega (arith, pow_le d e less))
      | no rest ↦ elim (dec_lt e d) [
        | yes more ↦ absurd (omega (arith, pow_le e d more))
        | no same ↦ eq ∙ ap (λ t. 2 ^ t) (omega arith)
      ]
    ]
