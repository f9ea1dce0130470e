-- ===== src/Base/ByteOrder.antt =====
-- bytes.Compare(a, b) < 0, a strict total order of byte strings.
use mathlib.Core.Path.{◌≡◌, refl}
use mathlib.Core.Logic.{◌⊎◌, inl, inr}
use mathlib.Core.Bool.{Bool, true, false, ◌&&◌, ◌||◌}
use mathlib.Core.List.{[], ◌∷◌}
use native.Mathlib.Omega.{arith}
use bft.Base.Tests.{◌==◌, ltb}
use bft.Base.ByteStrings.{Bytes}

unfoldable pub bytes_lt : Bytes → Bytes → Bool
bytes_lt [] [] = false
bytes_lt [] (b ∷ bs) = true
bytes_lt (a ∷ as') [] = false
bytes_lt (a ∷ as') (b ∷ bs) = ltb a b || ((a == b) && bytes_lt as' bs)

pub bytes_lt_irrefl : (a : Bytes) → bytes_lt a a ≡ false
unfolding bytes_lt
bytes_lt_irrefl [] = refl
bytes_lt_irrefl (a ∷ as') = ground (arith, bytes_lt_irrefl as')

pub bytes_lt_trans :
    (a b c : Bytes) → bytes_lt a b ≡ true → bytes_lt b c ≡ true → bytes_lt a c ≡ true
unfolding bytes_lt
bytes_lt_trans [] [] c h k = absurd (cc)
bytes_lt_trans [] (b ∷ bs) [] h k = absurd (cc)
bytes_lt_trans [] (b ∷ bs) (c ∷ cs) h k = refl
bytes_lt_trans (a ∷ as') [] c h k = absurd (cc)
bytes_lt_trans (a ∷ as') (b ∷ bs) [] h k = absurd (cc)
bytes_lt_trans (a ∷ as') (b ∷ bs) (c ∷ cs) h k = ground (arith, bytes_lt_trans as' bs cs)

pub bytes_lt_total : (a b : Bytes) → (bytes_lt a b ≡ true) ⊎ ((a ≡ b) ⊎ (bytes_lt b a ≡ true))
unfolding bytes_lt
bytes_lt_total [] [] = inr (inl refl)
bytes_lt_total [] (b ∷ bs) = inl refl
bytes_lt_total (a ∷ as') [] = inr (inr refl)
bytes_lt_total (a ∷ as') (b ∷ bs) = ground (arith, bytes_lt_total as' bs)
