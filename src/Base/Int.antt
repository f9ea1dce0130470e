-- ===== src/Base/Int.antt =====
-- Signed integers over the native numbers, under the library's names (its ℤ stands on the unary ℕ).
use Prim.Native.Nat.{ℕ, zero, suc, ◌+◌, ◌-◌, ◌<◌}
use mathlib.Core.Bool.{Bool, true, false}
use mathlib.Core.Path.{◌≡◌, refl, ap}
use native.Mathlib.Omega.{arith}
use bft.Base.Tests.{ltb, ◌==◌}

-- `negsuc n` is -(n + 1).
pub data ℤ : Type 0 where
  pos : ℕ → ℤ
  negsuc : ℕ → ℤ

abbrev pub pos_part : ℤ → ℕ
pos_part (pos n) = n
pos_part (negsuc n) = 0

abbrev pub neg_part : ℤ → ℕ
neg_part (pos n) = 0
neg_part (negsuc n) = suc n

abbrev pub ltb_ℤ : ℤ → ℤ → Bool
ltb_ℤ a b = ltb (pos_part a + neg_part b) (pos_part b + neg_part a)

abbrev pub eqb_ℤ : ℤ → ℤ → Bool
eqb_ℤ a b = (pos_part a + neg_part b) == (pos_part b + neg_part a)

abbrev pub is_neg : ℤ → Bool
is_neg (pos n) = false
is_neg (negsuc n) = true

abbrev pub succ_ℤ : ℤ → ℤ
succ_ℤ (pos n) = pos (suc n)
succ_ℤ (negsuc zero) = pos 0
succ_ℤ (negsuc (suc n)) = negsuc n

abbrev pub pred_ℤ : ℤ → ℤ
pred_ℤ (pos zero) = negsuc 0
pred_ℤ (pos (suc n)) = pos n
pred_ℤ (negsuc n) = negsuc (suc n)

-- How far a is below b, and 0 where it is not.
abbrev pub gap : ℤ → ℤ → ℕ
gap a b = (pos_part b + neg_part a) - (pos_part a + neg_part b)

pub eqb_ℤ_refl : (a : ℤ) → eqb_ℤ a a ≡ true
eqb_ℤ_refl (pos n) = ground arith
eqb_ℤ_refl (negsuc n) = ground arith

pub eqb_ℤ_sound : (a b : ℤ) → eqb_ℤ a b ≡ true → a ≡ b
eqb_ℤ_sound (pos m) (pos n) h = ap pos (ground (arith, h))
eqb_ℤ_sound (pos m) (negsuc n) h = absurd (ground (arith, h))
eqb_ℤ_sound (negsuc m) (pos n) h = absurd (ground (arith, h))
eqb_ℤ_sound (negsuc m) (negsuc n) h = ap negsuc (ground (arith, h))

-- k steps up
abbrev pub plus : ℕ → ℤ → ℤ
plus zero a = a
plus (suc k) a = plus k (succ_ℤ a)

pub succ_ℤ_lem : (a : ℤ) → pos_part (succ_ℤ a) + neg_part a ≡ suc (pos_part a + neg_part (succ_ℤ a))
succ_ℤ_lem (pos n) = omega arith
succ_ℤ_lem (negsuc zero) = refl
succ_ℤ_lem (negsuc (suc n)) = omega arith

pub plus_lem :
    (k : ℕ) (a : ℤ) → pos_part (plus k a) + neg_part a ≡ (pos_part a + neg_part (plus k a)) + k
plus_lem zero a = omega arith
plus_lem (suc k) a = omega (arith, plus_lem k (succ_ℤ a), succ_ℤ_lem a)

pub plus-gap : (a b : ℤ) → ltb_ℤ b a ≡ false → plus (gap a b) a ≡ b
plus-gap a b h = eqb_ℤ_sound (plus (gap a b) a) b (ground (arith, plus_lem (gap a b) a, h))

pub pred_ℤ_lem : (a : ℤ) → suc (pos_part (pred_ℤ a) + neg_part a) ≡ pos_part a + neg_part (pred_ℤ a)
pred_ℤ_lem (pos zero) = refl
pred_ℤ_lem (pos (suc n)) = omega arith
pred_ℤ_lem (negsuc n) = omega arith

pub gap-within : (a b c : ℤ) → ltb_ℤ b a ≡ false → ltb_ℤ c b ≡ false → gap a b < gap a (succ_ℤ c)
gap-within a b c h k = ground (arith, h, k, succ_ℤ_lem c)
