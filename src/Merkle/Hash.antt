-- ===== src/Merkle/Hash.antt =====
-- crypto/merkle/hash.go and crypto/srhash/hash.go. `sum` stands for `srhash.Sum`, which is SHA-256.
use bft.Base.{ℕ, ◌≡◌, ◌≢◌, [], ◌∷◌, ◌++◌, Bytes, length}

abbrev pub size : ℕ
size = 32

-- What the code relies on: a digest has `srhash.Size` bytes.
abbrev pub HasSize : (Bytes → Bytes) → Type 0
HasSize sum = (b : Bytes) → length (sum b) ≡ size

-- Two inputs that the hash does not tell apart.
abbrev pub Collision : (Bytes → Bytes) → Type 0
Collision sum = (a : Bytes) × (b : Bytes) × (a ≢ b) × (sum a ≡ sum b)

module _ (sum : Bytes → Bytes) where
  unfoldable pub empty_hash : Bytes
  empty_hash = sum []

  -- hash(0x00 || leaf)
  unfoldable pub leaf_hash : Bytes → Bytes
  leaf_hash leaf = sum (0 ∷ leaf)

  -- hash(0x01 || left || right)
  unfoldable pub inner_hash : Bytes → Bytes → Bytes
  inner_hash left right = sum (1 ∷ (left ++ right))
