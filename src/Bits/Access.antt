-- ===== src/Bits/Access.antt =====
-- `SetIndex` and `GetIndex` agree, on every array whose words match its size.
use bft.Base.{
  ℕ, zero, suc, ◌/◌, ◌%◌, ◌≤◌, ◌<◌, ◌≡◌, ◌≢◌, refl, Bool, true, false, some, arith, ◌==◌,
  if◌then◌else◌, length, get_elem?, set, replicate, ap, ◌∙◌, sym, dec_lt, ℕ_discrete,
  get_elem?-some, get_elem?-set_self, get_elem?-set_ne, length-set, length-replicate,
  get_elem?-replicate, get_elem?-lt,
}
use bft.Bits.{BitArray, words, new_bit_array, get_index', set_bit, set_index'}
use bft.Bits.Word.{
  word_mod, shl_one, word_not, test, bit, bit-le-one, bit_zero, bit-bit_and, bit-bit_or,
  bit-word_not, bit-shl_one, test-bit, bit_or-lt, bit_and-le, shl_one-lt,
}

-- The words are as many as the bits need, and each fits in 64 bits.
pub record IsWellFormed (b : BitArray) : Type 0 where
  pub count : length b.elems ≡ words b.bits
  pub fits : (k e : ℕ) → get_elem? b.elems k ≡ some e → e < word_mod

abbrev bool_bit : Bool → ℕ
bool_bit true = 1
bool_bit false = 0

bit-set_bit :
    (e i j : ℕ) (v : Bool)
    → e < word_mod
    → i < 64
    → j < 64
    → bit (set_bit e i v) j ≡ (if i == j then bool_bit v else bit e j)
unfolding set_bit
bit-set_bit e i j true fits hi hj =
    ground (arith, bit-bit_or e (shl_one i) j, bit-shl_one i j hi, bit-le-one e j)
bit-set_bit e i j false fits hi hj = ground (
  arith,
  bit-bit_and e (word_not (shl_one i)) j,
  bit-word_not (shl_one i) j (shl_one-lt i) hj,
  bit-shl_one i j hi,
  bit-le-one e j,
)

set_bit-lt : (e i : ℕ) (v : Bool) → e < word_mod → set_bit e i v < word_mod
unfolding set_bit
set_bit-lt e i true fits = bit_or-lt 64 e (shl_one i) fits (shl_one-lt i)
set_bit-lt e i false fits = omega (arith, bit_and-le e e (word_not (shl_one i)) (omega arith))

test-set_bit :
    (e i j : ℕ) (v : Bool)
    → e < word_mod
    → i < 64
    → j < 64
    → test (set_bit e i v) j ≡ (if i == j then v else test e j)
test-set_bit e i j v fits hi hj =
    let a = test-bit (set_bit e i v) j hj in
    let b = test-bit e j hj in let c = bit-set_bit e i j v fits hi hj in ground (arith, a, b, c)

-- In range there is a word to read.
word_at :
    (b : BitArray) (i : ℕ)
    → IsWellFormed b
    → i < b.bits
    → (e : ℕ) × (get_elem? b.elems (i / 64) ≡ some e)
word_at b i w h = get_elem?-some b.elems (i / 64) (omega (arith, w.count))

read_word :
    (b : BitArray) (i e : ℕ)
    → i < b.bits
    → get_elem? b.elems (i / 64) ≡ some e
    → get_index' b i ≡ some (test e (i % 64))
unfolding get_index'
read_word b i e h at = ground arith

write_word :
    (b : BitArray) (i e : ℕ) (v : Bool)
    → i < b.bits
    → get_elem? b.elems (i / 64) ≡ some e
    → set_index' b i v
      ≡ some (record b { elems = set b.elems (i / 64) (set_bit e (i % 64) v) }, true)
unfolding set_index'
write_word b i e v h at = ground arith

past_end : (b : BitArray) (i : ℕ) → b.bits ≤ i → get_index' b i ≡ some false
unfolding get_index'
past_end b i h = ground arith

module _ (b : BitArray) (i e : ℕ) (v : Bool) (w : IsWellFormed b)
    (at : get_elem? b.elems (i / 64) ≡ some e) where
  abbrev written : BitArray
  written = record b { elems = set b.elems (i / 64) (set_bit e (i % 64) v) }

  written-IsWellFormed : IsWellFormed written
  written-IsWellFormed = record {
    count = length-set b.elems (i / 64) (set_bit e (i % 64) v) ∙ w.count;
    fits = fits;
  }
    where
      fits : (k x : ℕ) → get_elem? written.elems k ≡ some x → x < word_mod
      fits k x h = elim (ℕ_discrete (i / 64) k) [
        | yes same ↦
            let stored =
              get_elem?-set_self b.elems (i / 64) (set_bit e (i % 64) v)
                (get_elem?-lt b.elems (i / 64) at) in
            let eq : x ≡ set_bit e (i % 64) v = cc (same, stored, h) in
            rw eq (set_bit-lt e (i % 64) v (w.fits (i / 64) e at))
        | no differ ↦
            w.fits k x (sym (get_elem?-set_ne b.elems (i / 64) k (set_bit e (i % 64) v) differ) ∙ h)
      ]

  read_written :
      (j : ℕ) → i < b.bits → get_index' written j ≡ (if i == j then some v else get_index' b j)
  read_written j h = elim (dec_lt j b.bits) [
    | no past ↦
        let p = past_end written j (omega arith) in
        let q = past_end b j (omega arith) in ground (arith, p, q)
    | yes inside ↦ elim (ℕ_discrete (i / 64) (j / 64)) [
      | yes same ↦
          let stored =
            get_elem?-set_self b.elems (i / 64) (set_bit e (i % 64) v)
              (get_elem?-lt b.elems (i / 64) at) in
          let p =
            read_word written j (set_bit e (i % 64) v) inside
              (ap (get_elem? written.elems) (sym same) ∙ stored) in
          let q = read_word b j e inside (ap (get_elem? b.elems) (sym same) ∙ at) in
          let t =
            test-set_bit e (i % 64) (j % 64) v (w.fits (i / 64) e at) (omega arith) (omega arith) in
          ground (arith, p, q, t)
      | no differ ↦
          let (f, at') = word_at b j w inside in
          let p =
            read_word written j f inside
              (get_elem?-set_ne b.elems (i / 64) (j / 64) (set_bit e (i % 64) v) differ ∙ at') in
          let q = read_word b j f inside at' in
          let apart : i ≢ j = λ eq. differ (ap (λ t. t / 64) eq) in ground (arith, p, q, apart)
    ]
  ]

-- On a well-formed bit array, setting a bit in range succeeds, keeps the size and the form of the
-- array, and changes what GetIndex answers at that index only.
pub get_index-set_index :
    (b : BitArray) (i j : ℕ) (v : Bool)
    → IsWellFormed b
    → i < b.bits
    → (b' : BitArray) × (set_index' b i v ≡ some (b', true))
      × (b'.bits ≡ b.bits)
      × IsWellFormed b'
      × (get_index' b' j ≡ (if i == j then some v else get_index' b j))
get_index-set_index b i j v w h =
    let (e, at) = word_at b i w h in
    (
      written b i e v w at,
      write_word b i e v h at,
      refl,
      written-IsWellFormed b i e v w at,
      read_written b i e v w at j h,
    )

-- A new bit array of a positive size has that size, is well formed, and all its bits are 0.
pub new_bit_array_lem :
    (n i : ℕ)
    → 0 < n
    → (b : BitArray) × (new_bit_array n ≡ some b)
      × (b.bits ≡ n)
      × IsWellFormed b
      × (get_index' b i ≡ some false)
unfolding new_bit_array
new_bit_array_lem zero i h = elim h [ ]
new_bit_array_lem (suc n) i h = (
  new,
  refl,
  refl,
  formed,
  elim (dec_lt i (suc n)) [
    | yes inside ↦
        read_word new i 0 inside (get_elem?-replicate (words (suc n)) (i / 64) 0 (omega arith))
        ∙ ap some (clear (i % 64) (omega arith))
    | no past ↦ past_end new i (omega arith)
  ],
)
  where
    new : BitArray
    new = record { bits = suc n; elems = replicate (words (suc n)) 0 }

    clear : (j : ℕ) → j < 64 → test 0 j ≡ false
    clear j h = ground (arith, test-bit 0 j h, bit_zero j)

    formed : IsWellFormed new
    formed = record {
      count = length-replicate (words (suc n)) 0;
      fits = λ k e at. replicated k e at;
    }
      where
        replicated : (k e : ℕ) → get_elem? new.elems k ≡ some e → e < word_mod
        replicated k e at =
            let r = get_elem?-replicate {A = ℕ} (words (suc n)) k 0 (
              omega
                (arith, get_elem?-lt new.elems k at, length-replicate {A = ℕ} (words (suc n)) 0)) in
            let z : e ≡ 0 = cc (r, at) in omega (arith, z)
