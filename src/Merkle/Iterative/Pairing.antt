-- ===== src/Merkle/Iterative/Pairing.antt =====
-- One level of `HashFromByteSlicesIterative`: what the in-place loop leaves in the slice, and why
-- pairing neighbours keeps the hash of the recursive tree.
use native.Mathlib.Nat.{pow-suc}
use bft.Base.{
  ℕ, zero, suc, ◌+◌, ◌*◌, ◌/◌, ◌^◌, ◌≤◌, ◌<◌, ◌≡◌, refl, List, [], ◌∷◌, ◌++◌, arith, length, ap,
  ap₂, ◌∙◌, sym, length-append, take-append-drop, take-append, drop-append,
}
use bft.Merkle.Split.{split, split_bounds, split_unique}
use bft.Merkle.Tree.{
  tree, tree_split, tree_single, split_induction, left_part, right_part, length-left_part,
  length-right_part,
}

module _ {ℓ} {B : Type ℓ} (inner : B → B → B) where
  unfoldable pub pair_up : List B → List B
  pair_up [] = []
  pair_up (x ∷ []) = x ∷ []
  pair_up (x ∷ y ∷ xs) = inner x y ∷ pair_up xs

  pub length-pair_up : (xs : List B) → length (pair_up xs) ≡ (length xs + 1) / 2
  unfolding pair_up
  length-pair_up [] = omega arith
  length-pair_up (x ∷ []) = omega arith
  length-pair_up (x ∷ y ∷ xs) = omega (arith, length-pair_up xs)

  pair_up-append :
      (m : ℕ) (xs ys : List B) → length xs ≡ m * 2 → pair_up (xs ++ ys) ≡ pair_up xs ++ pair_up ys
  unfolding pair_up
  pair_up-append m [] ys h = refl
  pair_up-append m (x ∷ []) ys h = absurd (omega arith)
  pair_up-append zero (x ∷ y ∷ xs) ys h = absurd (omega arith)
  pair_up-append (suc m) (x ∷ y ∷ xs) ys h =
      ap (◌∷◌ (inner x y)) (pair_up-append m xs ys (omega arith))

  module _ (empty : B) where
    abbrev root : List B → B
    root = tree empty (λ b. b) inner

    -- The step for a list whose split point is even: both parts are paired on their own.
    pair_up_parts :
        (d : ℕ) (ls rs : List B)
        → length ls ≡ 2 ^ d * 2
        → 2 ^ d * 2 < length ls + length rs
        → length ls + length rs ≤ 2 ^ d * 2 * 2
        → root (pair_up (ls ++ rs)) ≡ inner (root (pair_up ls)) (root (pair_up rs))
    pair_up_parts d ls rs l lo hi =
        let a = length-pair_up ls in
        let b = length-pair_up rs in
        let c = length-append (pair_up ls) (pair_up rs) in
        let n : length (pair_up ls) ≡ 2 ^ d = omega (arith, a) in
        let s : split (length (pair_up ls ++ pair_up rs)) ≡ 2 ^ d =
          split_unique (length (pair_up ls ++ pair_up rs)) d (omega (arith, a, b, c))
            (omega (arith, a, b, c)) (omega (arith, a, b, c)) in
        ap root (pair_up-append (2 ^ d) ls rs l)
        ∙ tree_split empty (λ b. b) inner (pair_up ls ++ pair_up rs) (omega (arith, a, b, c))
        ∙ ap₂ inner (ap root (rw s (take-append (2 ^ d) (pair_up ls) (pair_up rs) n)))
            (ap root (rw s (drop-append (2 ^ d) (pair_up ls) (pair_up rs) n)))

    -- A list of two nodes.
    root_two : (xs : List B) → length xs ≡ 2 → root (pair_up xs) ≡ root xs
    unfolding pair_up split
    root_two [] h = absurd (omega arith)
    root_two (x ∷ []) h = absurd (omega arith)
    root_two (x ∷ y ∷ []) h =
        let single = tree_single empty (λ (b : B). b) inner in
        single (inner x y)
        ∙ sym (
            tree_split empty (λ b. b) inner (x ∷ y ∷ []) (omega arith)
            ∙ ap₂ inner (single x) (single y))
    root_two (x ∷ y ∷ z ∷ xs) h = absurd (omega arith)

    -- Pairing the neighbours of a level leaves the hash of its tree as it is.
    pub root-pair_up : (xs : List B) → root (pair_up xs) ≡ root xs
    unfolding pair_up
    root-pair_up =
        split_induction (λ xs. root (pair_up xs) ≡ root xs) refl (λ x. refl)
          λ xs h l r. go xs h l r (split_bounds (length xs) h)
      where
        go :
            (xs : List B)
            → 2 ≤ length xs
            → root (pair_up (left_part xs)) ≡ root (left_part xs)
            → root (pair_up (right_part xs)) ≡ root (right_part xs)
            → (e : ℕ) × (split (length xs) ≡ 2 ^ e) × (2 ^ e < length xs) × (length xs ≤ 2 ^ e * 2)
            → root (pair_up xs) ≡ root xs
        go xs h l r (zero, s, lo, hi) = root_two xs (omega arith)
        go xs h l r (suc d, s, lo, hi) =
            let p = pow-suc 2 d in
            let ll = length-left_part xs h in
            let rl = length-right_part xs h in
            ap (λ ys. root (pair_up ys)) (sym (take-append-drop (split (length xs)) xs))
            ∙ pair_up_parts d (left_part xs) (right_part xs) (omega (arith, p, ll, s))
                (omega (arith, p, ll, rl, s, lo)) (omega (arith, p, ll, rl, s, hi))
            ∙ ap₂ inner l r
            ∙ sym (tree_split empty (λ b. b) inner xs h)
