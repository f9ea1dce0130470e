-- ===== src/Base/ByteStrings.antt =====
-- Byte strings: Go's []byte and string, a byte being a native number.
use Prim.Native.Nat.{ℕ}
use mathlib.Core.Path.{◌≡◌, refl}
use mathlib.Core.Logic.{◌↔◌}
use mathlib.Core.Bool.{Bool, true, false, ◌&&◌}
use mathlib.Core.List.{List, [], ◌∷◌}
use native.Mathlib.Omega.{arith}
use native.Mathlib.Decide.{ℕ_discrete}
use bft.Base.Tests.{◌==◌}

abbrev pub Bytes : Type 0
Bytes = List ℕ

-- bytes.Equal
unfoldable pub bytes_equal : Bytes → Bytes → Bool
bytes_equal [] [] = true
bytes_equal [] (b ∷ bs) = false
bytes_equal (a ∷ as') [] = false
bytes_equal (a ∷ as') (b ∷ bs) = (a == b) && bytes_equal as' bs

pub bytes_equal_sound : (a b : Bytes) → bytes_equal a b ≡ true → a ≡ b
unfolding bytes_equal
bytes_equal_sound [] [] h = refl
bytes_equal_sound [] (b ∷ bs) h = cc
bytes_equal_sound (a ∷ as') [] h = cc
bytes_equal_sound (a ∷ as') (b ∷ bs) h = ground (arith, bytes_equal_sound as' bs)

pub bytes_equal_refl : (a : Bytes) → bytes_equal a a ≡ true
unfolding bytes_equal
bytes_equal_refl [] = refl
bytes_equal_refl (a ∷ as') = ground (arith, bytes_equal_refl as')

pub bytes_equal_iff : (a b : Bytes) → (bytes_equal a b ≡ true) ↔ (a ≡ b)
bytes_equal_iff a b = (bytes_equal_sound a b, λ e. rw e (bytes_equal_refl b))

pub Bytes-discrete : Discrete Bytes
Bytes-discrete = hlevel ℕ_discrete
