-- ===== src/Bits/Word.antt =====
-- 64-bit words and their single bits. The laws of the bit operations come from the digit recursion
-- that the native operations stand for.
use native.Mathlib.Nat.{pow-suc, mod-eq_of_lt}
use Prim.Native.Nat.{bit_and, bit_or, digits, bitwise, bit_and-bitwise, bit_or-bitwise}
use bft.Base.Order.{pow_le, pow_pos}
use bft.Base.{
  ℕ, zero, suc, ◌+◌, ◌-◌, ◌*◌, ◌/◌, ◌%◌, ◌^◌, ◌≤◌, ◌<◌, ◌≡◌, refl, Bool, arith, ltb, ◌==◌, min, max,
  ap, ◌∙◌, sym, if◌then◌else◌, lt→ltb, dec_lt,
}

abbrev pub word_mod : ℕ
word_mod = 2 ^ 64

-- uint64(1) << j
abbrev pub shl_one : ℕ → ℕ
shl_one j = 2 ^ j % word_mod

-- ^x
unfoldable pub word_not : ℕ → ℕ
word_not x = word_mod - 1 - x

-- x &^ y
unfoldable pub and_not : ℕ → ℕ → ℕ
unfolding word_not
and_not x y = bit_and x (word_not y)

-- e & (1 << j) > 0
unfoldable pub test : ℕ → ℕ → Bool
test e j = ltb 0 (bit_and e (shl_one j))

-- Bit `j` of a number: the description that the laws speak of.
unfoldable pub bit : ℕ → ℕ → ℕ
bit x zero = x % 2
bit x (suc j) = bit (x / 2) j

-- The recursion on binary digits does not depend on its count of steps, where that is enough.
module _ (last : ℕ → ℕ) (op : ℕ → ℕ → ℕ) where
  one_more : (k x y : ℕ) → x ≤ k → digits last op (suc k) x y ≡ digits last op k x y
  one_more zero zero y enough = refl
  one_more (suc k) zero y enough = refl
  one_more zero (suc x) y enough = absurd (omega arith)
  one_more (suc k) (suc x) y enough =
      ap (λ high. high * 2 + op (suc x % 2) (y % 2)) (one_more k (suc x / 2) (y / 2) (omega arith))

  any_more : (j k x y : ℕ) → x ≤ k → digits last op (j + k) x y ≡ digits last op k x y
  any_more zero k x y enough = ap (λ n. digits last op n x y) (omega arith)
  any_more (suc j) k x y enough =
      let carry : suc j + k ≡ suc (j + k) = omega arith in
      ap (λ n. digits last op n x y) carry
      ∙ one_more (j + k) x y (omega arith)
      ∙ any_more j k x y enough

  halves :
      (x y : ℕ)
      → bitwise last op (suc x) y ≡ bitwise last op (suc x / 2) (y / 2) * 2 + op (suc x % 2) (y % 2)
  halves x y =
      let h = suc x / 2 in
      let split : (x - h) + h ≡ x = omega arith in
      ap (λ high. high * 2 + op (suc x % 2) (y % 2))
        (ap (λ k. digits last op k h (y / 2)) (sym split)
          ∙ any_more (x - h) h h (y / 2) (omega arith))

zero-bit_and : (y : ℕ) → bit_and 0 y ≡ 0
zero-bit_and = bit_and-bitwise 0

zero-bit_or : (y : ℕ) → bit_or 0 y ≡ y
zero-bit_or = bit_or-bitwise 0

bit_and_step : (x y : ℕ) → bit_and x y ≡ bit_and (x / 2) (y / 2) * 2 + min (x % 2) (y % 2)
bit_and_step zero y = omega (arith, zero-bit_and y, zero-bit_and (y / 2))
bit_and_step (suc x) y =
    bit_and-bitwise (suc x) y
    ∙ halves (λ _. 0) min x y
    ∙ ap (λ high. high * 2 + min (suc x % 2) (y % 2)) (sym (bit_and-bitwise (suc x / 2) (y / 2)))

bit_or_step : (x y : ℕ) → bit_or x y ≡ bit_or (x / 2) (y / 2) * 2 + max (x % 2) (y % 2)
bit_or_step zero y = omega (arith, zero-bit_or y, zero-bit_or (y / 2))
bit_or_step (suc x) y =
    bit_or-bitwise (suc x) y
    ∙ halves (λ y. y) max x y
    ∙ ap (λ high. high * 2 + max (suc x % 2) (y % 2)) (sym (bit_or-bitwise (suc x / 2) (y / 2)))

pub bit-le-one : (x j : ℕ) → bit x j ≤ 1
unfolding bit
bit-le-one x zero = omega arith
bit-le-one x (suc j) = bit-le-one (x / 2) j

pub bit-bit_and : (x y j : ℕ) → bit (bit_and x y) j ≡ min (bit x j) (bit y j)
unfolding bit
bit-bit_and x y zero = omega (arith, bit_and_step x y)
bit-bit_and x y (suc j) =
    ap (λ z. bit z j) (omega (arith, bit_and_step x y)) ∙ bit-bit_and (x / 2) (y / 2) j

pub bit-bit_or : (x y j : ℕ) → bit (bit_or x y) j ≡ max (bit x j) (bit y j)
unfolding bit
bit-bit_or x y zero = omega (arith, bit_or_step x y)
bit-bit_or x y (suc j) =
    ap (λ z. bit z j) (omega (arith, bit_or_step x y)) ∙ bit-bit_or (x / 2) (y / 2) j

pub bit_zero : (j : ℕ) → bit 0 j ≡ 0
unfolding bit
bit_zero zero = omega arith
bit_zero (suc j) = ap (λ z. bit z j) (omega arith) ∙ bit_zero j

-- A power of two has one bit.
bit-pow : (i j : ℕ) → bit (2 ^ i) j ≡ (if i == j then 1 else 0)
unfolding bit
bit-pow zero zero = omega arith
bit-pow zero (suc j) = ap (λ z. bit z j) (omega arith) ∙ bit_zero j ∙ ground arith
bit-pow (suc i) zero = ground (arith, pow-suc 2 i)
bit-pow (suc i) (suc j) =
    ap (λ z. bit z j) (omega (arith, pow-suc 2 i)) ∙ bit-pow i j ∙ ground arith

-- Below 2 ^ w the complement flips the lowest w bits.
bit-complement : (w x j : ℕ) → x < 2 ^ w → j < w → bit (2 ^ w - 1 - x) j ≡ 1 - bit x j
unfolding bit
bit-complement zero x j h lt = elim lt [ ]
bit-complement (suc w) x zero h lt = omega (arith, pow-suc 2 w)
bit-complement (suc w) x (suc j) h lt =
    ap (λ z. bit z j) (omega (arith, pow-suc 2 w))
    ∙ bit-complement w (x / 2) j (omega (arith, pow-suc 2 w)) (omega arith)

pub bit-word_not : (x j : ℕ) → x < word_mod → j < 64 → bit (word_not x) j ≡ 1 - bit x j
unfolding word_not
bit-word_not x j h lt = bit-complement 64 x j h lt

below-bit_and_zero : (bound x : ℕ) → x < bound → bit_and x 0 ≡ 0
below-bit_and_zero zero x h = elim h [ ]
below-bit_and_zero (suc bound) zero h = zero-bit_and 0
below-bit_and_zero (suc bound) (suc x) h =
    let rest = below-bit_and_zero bound (suc x / 2) (omega arith) in
    omega (arith, bit_and_step (suc x) 0, rest)

bit_and_zero : (x : ℕ) → bit_and x 0 ≡ 0
bit_and_zero x = below-bit_and_zero (suc x) x (omega arith)

-- What a mask of one bit leaves.
bit_and-pow : (x j : ℕ) → bit_and x (2 ^ j) ≡ bit x j * 2 ^ j
unfolding bit
bit_and-pow x zero = omega (arith, bit_and_step x 1, bit_and_zero (x / 2))
bit_and-pow x (suc j) = omega (
  arith,
  bit_and_step x (2 ^ suc j),
  pow-suc 2 j,
  half_pow j,
  ap (λ t. bit (x / 2) j * t) (pow-suc 2 j),
  bit_and-pow (x / 2) j,
)
  where
    half_pow : (j : ℕ) → bit_and (x / 2) (2 ^ suc j / 2) ≡ bit_and (x / 2) (2 ^ j)
    half_pow j = ap (bit_and (x / 2)) (omega (arith, pow-suc 2 j))

shl_one_lem : (j : ℕ) → j < 64 → shl_one j ≡ 2 ^ j
shl_one_lem j h = mod-eq_of_lt (omega (arith, pow_le j 64 h, pow_pos j))

-- The test of the source reads bit `j`.
pub test-bit : (e j : ℕ) → j < 64 → test e j ≡ (bit e j == 1)
unfolding test
test-bit e j h =
    rw (shl_one_lem j h, bit_and-pow e j)
      (elim (dec_lt 0 (bit e j)) [
        | yes one ↦
            let same : bit e j ≡ 1 = omega (arith, bit-le-one e j) in
            rw same (lt→ltb 0 (1 * 2 ^ j) (omega (arith, pow_pos j)))
        | no none ↦ let same : bit e j ≡ 0 = omega arith in rw same (ground arith)
      ])

pub bit_or-lt : (w x y : ℕ) → x < 2 ^ w → y < 2 ^ w → bit_or x y < 2 ^ w
bit_or-lt zero x y h k = omega (arith, zero-bit_or y, ap (λ t. bit_or t y) (small h))
  where
    small : x < 2 ^ 0 → x ≡ 0
    small l = omega arith
bit_or-lt (suc w) x y h k = omega (
  arith,
  pow-suc 2 w,
  bit_or_step x y,
  bit_or-lt w (x / 2) (y / 2) (omega (arith, pow-suc 2 w)) (omega (arith, pow-suc 2 w)),
)

pub bit_and-le : (n x y : ℕ) → x ≤ n → bit_and x y ≤ x
bit_and-le n zero y h = omega (arith, zero-bit_and y)
bit_and-le zero (suc x) y h = absurd (omega arith)
bit_and-le (suc n) (suc x) y h =
    omega (arith, bit_and_step (suc x) y, bit_and-le n (suc x / 2) (y / 2) (omega arith))

pub shl_one-lt : (j : ℕ) → shl_one j < word_mod
shl_one-lt j = omega arith

pub bit-shl_one : (i j : ℕ) → i < 64 → bit (shl_one i) j ≡ (if i == j then 1 else 0)
bit-shl_one i j h = rw (shl_one_lem i h) (bit-pow i j)
