-- ===== src/Bits/Examples.antt =====
-- Runs of BitArray on an array of 70 bits, which has two words.
use bft.Base.{
  ℕ, zero, suc, ◌≡◌, ◌<◌, refl, true, some, [], ◌∷◌, arith, ◌==◌, if◌then◌else◌, get_elem?,
}
use bft.Bits.{BitArray, get_index', set_index', set_bit}
use bft.Bits.Access.{IsWellFormed, get_index-set_index}

abbrev two_words : BitArray
two_words = record { bits = 70; elems = 5 ∷ 0 ∷ [] }

two_words-IsWellFormed : IsWellFormed two_words
two_words-IsWellFormed = record { count = refl; fits = fits }
  where
    fits : (k e : ℕ) → get_elem? two_words.elems k ≡ some e → e < 18446744073709551616
    fits zero e h = ground arith
    fits (suc zero) e h = ground arith
    fits (suc (suc k)) e h = ground arith

get_index-set_index_example :
    (b' : BitArray) × (set_index' two_words 65 true ≡ some (b', true))
    × (b'.bits ≡ 70)
    × IsWellFormed b'
    × (get_index' b' 2 ≡ (if 65 == 2 then some true else get_index' two_words 2))
get_index-set_index_example =
    get_index-set_index two_words 65 2 true two_words-IsWellFormed (omega arith)

-- The words that the call leaves: bit 1 of the second word.
set_second_word :
    set_index' two_words 65 true ≡ some (record { bits = 70; elems = 5 ∷ 2 ∷ [] }, true)
unfolding set_index' set_bit
set_second_word = refl
