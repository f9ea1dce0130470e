-- ===== src/Base/Order.antt =====
-- `<` on the native numbers is well founded; powers of two grow.
use native.Mathlib.Nat.{pow-suc}
use native.Mathlib.Decide.{dec_lt}
use mathlib.Core.Path.{◌≡◌}
use mathlib.Core.WellFounded.{Acc, WellFounded}
use Prim.Native.Nat.{ℕ, zero, suc, ◌*◌, ◌^◌, ◌≤◌, ◌<◌}
use native.Mathlib.Omega.{arith}

Acc-below : (k n : ℕ) → n < k → Acc ◌<◌ n
Acc-below zero n h = elim h [ ]
Acc-below (suc k) n h = Acc.intro n (λ m hm. Acc-below k m (omega arith))

unfoldable pub lt_wf : WellFounded ◌<◌
unfolding Acc-below
lt_wf = record { apply = λ n. Acc-below (suc n) n (omega arith) }

pub pow_le : (a b : ℕ) → a < b → 2 ^ a * 2 ≤ 2 ^ b
pow_le a zero h = elim h [ ]
pow_le a (suc b) h = elim (dec_lt a b) [
  | yes less ↦ omega (arith, pow_le a b less, pow-suc 2 b)
  | no eq ↦ let same : a ≡ b = omega arith in rw same (omega (arith, pow-suc 2 b))
]

pub pow_pos : (a : ℕ) → 0 < 2 ^ a
pow_pos zero = omega arith
pow_pos (suc a) = omega (arith, pow_pos a, pow-suc 2 a)
