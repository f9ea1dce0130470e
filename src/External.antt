-- ===== src/External.antt =====
-- What the consensus types use and src/ does not hold as Go code to read: the 64-bit floats of the
-- hardware, signatures, and the encodings that the protobuf compiler generates.
use bft.Base.{ℕ, ◌≡◌, Bool, true, false, Bytes}

-- float64, with the operations and tests that the program applies to voting powers.
pub record Float64 : Type 1 where
  pub Float : Type 0
  pub of_ℕ : ℕ → Float
  pub add : Float → Float → Float
  pub mul : Float → Float → Float
  pub div : Float → Float → Float
  pub lt : Float → Float → Bool
  pub le : Float → Float → Bool
  pub eq : Float → Float → Bool

-- IEEE 754 comparison and addition of numbers that are no NaN: `<` is the opposite of `>=`, `<=` is
-- reflexive and transitive, and adding a number that is not negative does not go down.
pub record IsOrdered (F : Float64) : Type 0 where
  pub not_le→lt : (a b : F.Float) → F.le b a ≡ false → F.lt a b ≡ true
  pub lt→not_le : (a b : F.Float) → F.lt a b ≡ true → F.le b a ≡ false
  pub le_refl : (a : F.Float) → F.le a a ≡ true
  pub le_trans : (a b c : F.Float) → F.le a b ≡ true → F.le b c ≡ true → F.le a c ≡ true
  pub add_grows : (a p : F.Float) → F.le (F.of_ℕ 0) p ≡ true → F.le a (F.add a p) ≡ true

-- Keys, addresses and signatures (crypto.PubKey).
pub record Keys : Type 1 where
  pub PubKey : Type 0
  pub address : PubKey → Bytes
  pub verify_signature : PubKey → Bytes → Bytes → Bool
