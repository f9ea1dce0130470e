-- ===== src/Merkle/Tree.antt =====
-- `HashFromByteSlices` of crypto/merkle/tree.go, and the induction that follows its recursion.
use bft.Base.{
  ℕ, zero, suc, ◌-◌, ◌≤◌, ◌≡◌, refl, List, [], ◌∷◌, map, arith, Bytes, length, take, drop,
  length-take, length-drop, ap, ap₂, ◌∙◌, sym, length-map, take-map, drop-map,
}
use bft.Merkle.Hash.{empty_hash, leaf_hash, inner_hash}
use bft.Merkle.Split.{split, split_fits}

abbrev pub left_part {ℓ} : {A : Type ℓ} → List A → List A
left_part xs = take (split (length xs)) xs

abbrev pub right_part {ℓ} : {A : Type ℓ} → List A → List A
right_part xs = drop (split (length xs)) xs

module _ {ℓ} {A : Type ℓ} where
  pub length-left_part : (xs : List A) → 2 ≤ length xs → length (left_part xs) ≡ split (length xs)
  length-left_part xs h =
      omega (arith, length-take (split (length xs)) xs, split_fits (length xs) h)

  pub length-right_part :
      (xs : List A) → 2 ≤ length xs → length (right_part xs) ≡ length xs - split (length xs)
  length-right_part xs h = length-drop (split (length xs)) xs

-- The recursion, over any hash of a leaf and of two subtrees. The fuel is the number of leaves:
-- each part of a split is shorter, so it is never used up before a leaf is met.
module _ {ℓ κ} {A : Type ℓ} {B : Type κ} (empty : B) (leaf : A → B) (inner : B → B → B) where
  tree_fuel : ℕ → List A → B
  tree_fuel zero xs = empty
  tree_fuel (suc f) [] = empty
  tree_fuel (suc f) (x ∷ []) = leaf x
  tree_fuel (suc f) (x ∷ y ∷ xs) =
      let items : List A = x ∷ y ∷ xs in
      inner (tree_fuel f (left_part items)) (tree_fuel f (right_part items))

  pub tree : List A → B
  unfolding tree_fuel
  tree xs = tree_fuel (length xs) xs

  -- Any fuel that covers the leaves gives the same result.
  tree_fuel_irrelevant :
      (f g : ℕ) (xs : List A) → length xs ≤ f → length xs ≤ g → tree_fuel f xs ≡ tree_fuel g xs
  unfolding tree_fuel
  tree_fuel_irrelevant zero zero xs p q = refl
  tree_fuel_irrelevant zero (suc g) [] p q = refl
  tree_fuel_irrelevant zero (suc g) (x ∷ xs) p q = absurd (omega arith)
  tree_fuel_irrelevant (suc f) zero [] p q = refl
  tree_fuel_irrelevant (suc f) zero (x ∷ xs) p q = absurd (omega arith)
  tree_fuel_irrelevant (suc f) (suc g) [] p q = refl
  tree_fuel_irrelevant (suc f) (suc g) (x ∷ []) p q = refl
  tree_fuel_irrelevant (suc f) (suc g) (x ∷ y ∷ xs) p q =
      let items : List A = x ∷ y ∷ xs in
      let l = length-left_part items (omega arith) in
      let r = length-right_part items (omega arith) in
      let s = split_fits (length items) (omega arith) in
      ap₂ inner
        (tree_fuel_irrelevant f g (left_part items) (omega (arith, l, s)) (omega (arith, l, s)))
        (tree_fuel_irrelevant f g (right_part items) (omega (arith, r, s)) (omega (arith, r, s)))

  pub tree-nil : tree [] ≡ empty
  unfolding tree
  tree-nil = refl

  pub tree_single : (x : A) → tree (x ∷ []) ≡ leaf x
  unfolding tree
  tree_single x = refl

  -- The recursion equation, with no fuel in it.
  pub tree_split :
      (xs : List A) → 2 ≤ length xs → tree xs ≡ inner (tree (left_part xs)) (tree (right_part xs))
  unfolding tree
  tree_split [] h = absurd (omega arith)
  tree_split (x ∷ []) h = absurd (omega arith)
  tree_split (x ∷ y ∷ xs) h =
      let items : List A = x ∷ y ∷ xs in
      let l = length-left_part items h in
      let r = length-right_part items h in
      let s = split_fits (length items) h in
      ap₂ inner
        (tree_fuel_irrelevant (suc (length xs)) _ (left_part items) (omega (arith, l, s))
          (omega arith))
        (tree_fuel_irrelevant (suc (length xs)) _ (right_part items) (omega (arith, r, s))
          (omega arith))

-- What holds of no leaf, of one leaf, and of a list when it holds of its two parts, holds.
module _ {ℓ κ} {A : Type ℓ} (P : List A → Type κ) where
  split_induction_fuel :
      P []
      → ((x : A) → P (x ∷ []))
      → ((xs : List A) → 2 ≤ length xs → P (left_part xs) → P (right_part xs) → P xs)
      → (f : ℕ) (xs : List A) → length xs ≤ f
      → P xs
  split_induction_fuel pn ps pt zero [] h = pn
  split_induction_fuel pn ps pt zero (x ∷ xs) h = absurd (omega arith)
  split_induction_fuel pn ps pt (suc f) [] h = pn
  split_induction_fuel pn ps pt (suc f) (x ∷ []) h = ps x
  split_induction_fuel pn ps pt (suc f) (x ∷ y ∷ xs) h =
      let items : List A = x ∷ y ∷ xs in
      let l = length-left_part items (omega arith) in
      let r = length-right_part items (omega arith) in
      let s = split_fits (length items) (omega arith) in
      pt items (omega arith)
        (split_induction_fuel pn ps pt f (left_part items) (omega (arith, l, s)))
        (split_induction_fuel pn ps pt f (right_part items) (omega (arith, r, s)))

  pub split_induction :
      P []
      → ((x : A) → P (x ∷ []))
      → ((xs : List A) → 2 ≤ length xs → P (left_part xs) → P (right_part xs) → P xs)
      → (xs : List A) → P xs
  split_induction pn ps pt xs = split_induction_fuel pn ps pt (length xs) xs (omega arith)

unfoldable pub hash_from_byte_slices : (Bytes → Bytes) → List Bytes → Bytes
unfolding empty_hash leaf_hash inner_hash tree
hash_from_byte_slices sum = tree (empty_hash sum) (leaf_hash sum) (inner_hash sum)

-- A tree with hashed leaves is the tree over the list of their hashes.
pub tree-map {ℓ κ} :
    {A : Type ℓ} {B : Type κ} (empty : B) (leaf : A → B) (inner : B → B → B) (xs : List A)
    → tree empty (λ b. b) inner (map leaf xs) ≡ tree empty leaf inner xs
tree-map empty leaf inner =
    split_induction (λ xs. tree empty (λ b. b) inner (map leaf xs) ≡ tree empty leaf inner xs)
      (tree-nil empty (λ b. b) inner ∙ sym (tree-nil empty leaf inner))
      (λ x. tree_single empty (λ b. b) inner (leaf x) ∙ sym (tree_single empty leaf inner x))
      λ xs h l r.
        let n = length-map leaf xs in
        tree_split empty (λ b. b) inner (map leaf xs) (omega (arith, n))
        ∙ ap₂ inner
            (ap (tree empty (λ b. b) inner) (rw n (take-map leaf (split (length xs)) xs)) ∙ l)
            (ap (tree empty (λ b. b) inner) (rw n (drop-map leaf (split (length xs)) xs)) ∙ r)
        ∙ sym (tree_split empty leaf inner xs h)
