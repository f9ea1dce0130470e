-- ===== src/Merkle/Proof.antt =====
-- crypto/merkle/proof.go: proofs of membership in a Merkle tree. The string forms and the copies
-- to and from protobuf, which hold the same four fields, are not modelled.
pub mod Complete
pub mod Sound
use bft.Base.{
  ℕ, zero, suc, ◌+◌, ◌-◌, ◌≡◌, refl, Bool, true, false, not, ◌||◌, Option, none, some, List, [],
  ◌∷◌, ◌++◌, map, reverse, Bytes, ltb, leb, ◌==◌, length, bytes_equal, if◌then◌else◌,
}
use bft.Base.Int.{ℤ, pos, negsuc, is_neg}
use bft.Merkle.Hash
use bft.Merkle.Split.{split}
use bft.Merkle.Tree.{tree}

pub record Proof : Type 0 where
  pub total : ℤ
  pub index : ℤ
  pub leaf_hash : Bytes
  pub aunts : List Bytes

-- A pointer of a ProofNode to its only sibling, as the sibling's hash.
pub data Link : Type 0 where
  left right : Bytes → Link

-- A ProofNode: its hash, and the sibling pointers met from the node itself up its parents. The
-- root, which has no sibling, adds none.
pub record ProofNode : Type 0 where
  pub hash : Bytes
  pub links : List Link

abbrev pub sibling : Link → Bytes
sibling (left h) = h
sibling (right h) = h

unfoldable pub flatten_aunts : ProofNode → List Bytes
flatten_aunts node = map sibling node.links

-- Setting `leftRoot.Parent` and `leftRoot.Right` (or `Left`) lengthens the chain of every trail
-- below that root.
unfoldable pub attach : Link → ProofNode → ProofNode
attach link node = record node { links = node.links ++ link ∷ [] }

unfoldable pub join_trails :
    (Bytes → Bytes) → List ProofNode × Bytes → List ProofNode × Bytes → List ProofNode × Bytes
unfolding attach
join_trails sum (lefts, left_root) (rights, right_root) = (
  map (attach (right right_root)) lefts ++ map (attach (left left_root)) rights,
  Hash.inner_hash sum left_root right_root,
)

abbrev single_trail : (Bytes → Bytes) → Bytes → List ProofNode × Bytes
single_trail sum item =
    (record { hash = Hash.leaf_hash sum item; links = [] } ∷ [], Hash.leaf_hash sum item)

-- The trails of the items, and the hash of the root.
unfoldable pub trails_from_byte_slices : (Bytes → Bytes) → List Bytes → List ProofNode × Bytes
trails_from_byte_slices sum = tree ([], Hash.empty_hash sum) (single_trail sum) (join_trails sum)

unfoldable pub number_proofs : ℕ → ℕ → List ProofNode → List Proof
unfolding flatten_aunts
number_proofs total i [] = []
number_proofs total i (trail ∷ trails) =
    record { total = pos total; index = pos i; leaf_hash = trail.hash; aunts = flatten_aunts trail }
    ∷ number_proofs total (i + 1) trails

-- The root hash and the proof of each item.
unfoldable pub proofs_from_byte_slices : (Bytes → Bytes) → List Bytes → Bytes × List Proof
unfolding number_proofs trails_from_byte_slices
proofs_from_byte_slices sum items =
    let (trails, root) = trails_from_byte_slices sum items in
    (root, number_proofs (length items) 0 trails)

module _ (sum : Bytes → Bytes) where
  -- computeHashFromAunts behind its guard on the signs. Each call drops the last aunt, so the aunts
  -- are given last first; `none` is nil.
  unfoldable pub climb : ℕ → ℕ → Bytes → List Bytes → Option Bytes
  climb index total leaf [] =
      if leb total index then none else if total == 1 then some leaf else none
  climb index total leaf (aunt ∷ aunts) =
      if leb total index
      then none
      else if total == 1
      then none
      else elim (ltb index (split total)) [
        | true ↦ elim (climb index (split total) leaf aunts) [
          | none ↦ none
          | some h ↦ some (Hash.inner_hash sum h aunt)
        ]
        | false ↦ elim (climb (index - split total) (total - split total) leaf aunts) [
          | none ↦ none
          | some h ↦ some (Hash.inner_hash sum aunt h)
        ]
      ]

  unfoldable pub compute_hash_from_aunts : ℤ → ℤ → Bytes → List Bytes → Option Bytes
  compute_hash_from_aunts (pos index) (pos total) leaf aunts =
      climb index total leaf (reverse aunts)
  compute_hash_from_aunts (pos index) (negsuc t) leaf aunts = none
  compute_hash_from_aunts (negsuc i) total leaf aunts = none

  unfoldable pub compute_root_hash : Proof → Option Bytes
  unfolding compute_hash_from_aunts
  compute_root_hash p = compute_hash_from_aunts p.index p.total p.leaf_hash p.aunts

pub data VerifyError : Type 0 where
  negative_total negative_index invalid_leaf_hash invalid_root_hash : VerifyError

-- bytes.Equal takes nil for the empty slice.
abbrev pub or_empty : Option Bytes → Bytes
or_empty none = []
or_empty (some b) = b

-- `none` is the nil error.
unfoldable pub verify : (Bytes → Bytes) → Proof → Bytes → Bytes → Option VerifyError
unfolding compute_root_hash
verify sum p root leaf =
    if is_neg p.total
    then some negative_total
    else if is_neg p.index
    then some negative_index
    else if not (bytes_equal p.leaf_hash (Hash.leaf_hash sum leaf))
    then some invalid_leaf_hash
    else if not (bytes_equal (or_empty (compute_root_hash sum p)) root)
    then some invalid_root_hash
    else none

pub data BasicError : Type 0 where
  total_below_zero index_below_zero leaf_hash_size too_many_aunts : BasicError
  aunt_size : ℕ → BasicError

abbrev pub max_aunts : ℕ
max_aunts = 100

-- for i, auntHash := range sp.Aunts
aunts_error : ℕ → List Bytes → Option BasicError
aunts_error i [] = none
aunts_error i (aunt ∷ aunts) =
    let rest = aunts_error (i + 1) aunts in
    if length aunt == Hash.size then rest else some (aunt_size i)

unfoldable pub validate_basic : Proof → Option BasicError
unfolding aunts_error
validate_basic p =
    if is_neg p.total
    then some total_below_zero
    else if is_neg p.index
    then some index_below_zero
    else if not (length p.leaf_hash == Hash.size)
    then some leaf_hash_size
    else if ltb max_aunts (length p.aunts)
    then some too_many_aunts
    else aunts_error 0 p.aunts
