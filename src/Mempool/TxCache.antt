-- ===== src/Mempool/TxCache.antt =====
-- mapTxCache of mempool/clist_mempool.go, the cache of the transactions seen. Its map and its list
-- hold the same keys, which are kept once, from the oldest to the newest. `nop` is nopTxCache.
use bft.Base.{
  ℕ, ◌≤◌, ◌<◌, ◌≡◌, refl, Bool, true, false, List, [], ◌∷◌, ◌++◌, arith, ltb, leb, if◌then◌else◌,
  length, length-append, Bytes, bytes_equal, bytes_equal_refl, Bool-cases, inl, inr, ◌||◌, ◌⊎◌,
}

pub data Cache : Type 0 where
  nop : Cache
  lru : ℕ → List Bytes → Cache

unfoldable pub new_cache : ℕ → Cache
new_cache size = if ltb 0 size then lru size [] else nop

unfoldable pub member : Bytes → List Bytes → Bool
member k [] = false
member k (j ∷ ks) = bytes_equal j k || member k ks

-- The keys without the given one, which stands there once at most.
unfoldable pub without : Bytes → List Bytes → List Bytes
without k [] = []
without k (j ∷ ks) = let rest = without k ks in if bytes_equal j k then rest else j ∷ rest

-- The oldest entry makes room.
unfoldable pub evict : ℕ → List Bytes → List Bytes
evict size [] = []
evict size (j ∷ ks) = if leb size (length (j ∷ ks)) then ks else j ∷ ks

unfoldable pub push : Bytes → Cache → Cache × Bool
unfolding member without evict
push k nop = (nop, true)
push k (lru size ks) =
    if member k ks
    then (lru size (without k ks ++ k ∷ []), false)
    else (lru size (evict size ks ++ k ∷ []), true)

unfoldable pub remove : Bytes → Cache → Cache
unfolding without
remove k nop = nop
remove k (lru size ks) = lru size (without k ks)

unfoldable pub reset : Cache → Cache
reset nop = nop
reset (lru size ks) = lru size []

abbrev pub has : Bytes → Cache → Bool
has k nop = false
has k (lru size ks) = member k ks

member-append :
    (k : Bytes) (xs ys : List Bytes) → member k (xs ++ ys) ≡ (member k xs || member k ys)
unfolding member
member-append k [] ys = refl
member-append k (x ∷ xs) ys = ground (arith, member-append k xs ys)

member-last : (k : Bytes) (ks : List Bytes) → member k (ks ++ k ∷ []) ≡ true
unfolding member
member-last k [] = ground (arith, bytes_equal_refl k)
member-last k (j ∷ ks) = ground (arith, member-last k ks)

pub member-without_self : (k : Bytes) (ks : List Bytes) → member k (without k ks) ≡ false
unfolding member without
member-without_self k [] = refl
member-without_self k (j ∷ ks) = ground (arith, member-without_self k ks)

length-without : (k : Bytes) (ks : List Bytes) → length (without k ks) ≤ length ks
unfolding without
length-without k [] = omega arith
length-without k (j ∷ ks) = ground (arith, length-without k ks)

length-without-member :
    (k : Bytes) (ks : List Bytes) → member k ks ≡ true → length (without k ks) < length ks
unfolding member without
length-without-member k [] h = absurd (cc)
length-without-member k (j ∷ ks) h = ground (arith, length-without-member k ks, length-without k ks)

-- The cache holds at most its size.
abbrev pub Bounded : Cache → Type 0
Bounded nop = Unit {0}
Bounded (lru size ks) = (0 < size) × (length ks ≤ size)

evict-lt :
    (size : ℕ) (ks : List Bytes) → 0 < size → length ks ≤ size → length (evict size ks) < size
unfolding evict
evict-lt size [] p h = p
evict-lt size (j ∷ ks) p h = ground arith

-- On a cache within its size, Push keeps the cache within its size and answers whether the key was
-- absent, and the pushed key is then in a cache that is not nop; Remove keeps it within its size,
-- and the key is then not in the cache.
pub push-remove :
    (k : Bytes) (c : Cache)
    → Bounded c
    → Bounded (push k c).0
      × Bounded (remove k c)
      × (has k c ≡ true → (push k c).1 ≡ false)
      × (has k c ≡ false → (push k c).1 ≡ true)
      × ((c ≡ nop) ⊎ (has k (push k c).0 ≡ true))
      × (has k (remove k c) ≡ false)
unfolding push remove
push-remove k nop b = (b, b, (λ h. absurd cc), (λ _. refl), inl refl, refl)
push-remove k (lru size ks) (p, h) =
    let gone = member-without_self k ks in
    let short = length-without k ks in
    elim (Bool-cases (member k ks)) [
      | inl e ↦ rw (e) (
        (p, omega (arith, length-append (without k ks) (k ∷ []), length-without-member k ks e)),
        (p, omega arith),
        (λ _. refl),
        (λ h. absurd cc),
        inr (member-last k (without k ks)),
        gone,
      )
      | inr e ↦ rw (e) (
        (p, omega (arith, length-append (evict size ks) (k ∷ []), evict-lt size ks p h)),
        (p, omega arith),
        (λ h. absurd cc),
        (λ _. refl),
        inr (member-last k (evict size ks)),
        gone,
      )
    ]
