-- ===== src/Merkle/Proof/Sound.antt =====
-- A proof that `Verify` accepts names an item of the tree, or exhibits two inputs that the hash
-- does not tell apart.
use bft.Base.{
  ℕ, ◌-◌, ◌≤◌, ◌<◌, ◌≡◌, ◌⊎◌, inl, inr, refl, none, some, List, [], ◌∷◌, ◌++◌, reverse, arith,
  Bytes, length, ap, ◌∙◌, sym, dec_lt, get_elem?, Option-cases, append-inj_left, append-inj_right,
  Bytes-discrete, get_elem?-take, get_elem?-drop, bytes_equal_sound,
}
use bft.Base.Int.{ℤ, pos, negsuc}
use bft.Merkle.Hash
use bft.Merkle.Hash.{HasSize, Collision}
use bft.Merkle.Split.{split}
use bft.Merkle.Tree.{
  tree-nil, tree_single, tree_split, split_induction, left_part, right_part, length-left_part,
  length-right_part, hash_from_byte_slices,
}
use bft.Merkle.Proof.{Proof, climb, compute_root_hash, compute_hash_from_aunts, verify, or_empty}

module _ (sum : Bytes → Bytes) where
  -- Equal digests come from equal inputs, or are a collision.
  sum_eq : (a b : Bytes) → sum a ≡ sum b → (a ≡ b) ⊎ Collision sum
  sum_eq a b e = elim (Bytes-discrete a b) [
    | yes same ↦ inl same
    | no differ ↦ inr (a, b, differ, e)
  ]

  leaf_hash_eq :
      (a b : Bytes) → Hash.leaf_hash sum a ≡ Hash.leaf_hash sum b → (a ≡ b) ⊎ Collision sum
  unfolding Hash.leaf_hash
  leaf_hash_eq a b e = elim (sum_eq (0 ∷ a) (0 ∷ b) e) [
    | inl same ↦ inl (cc)
    | inr found ↦ inr found
  ]

  -- Of two inner hashes, where the left or the right children have one size.
  inner_hash_eq :
      (a b c d : Bytes)
      → (length a ≡ length b) ⊎ (length c ≡ length d)
      → Hash.inner_hash sum a c ≡ Hash.inner_hash sum b d
      → ((a ≡ b) × (c ≡ d)) ⊎ Collision sum
  unfolding Hash.inner_hash
  inner_hash_eq a b c d n e = elim (sum_eq (1 ∷ (a ++ c)) (1 ∷ (b ++ d)) e) [
    | inl same ↦ inl (elim n [
      | inl l ↦ append-inj_left a b c d l (cc)
      | inr r ↦ append-inj_right a b c d r (cc)
    ])
    | inr found ↦ inr found
  ]

  hash_lem :
      (items : List Bytes)
      → 2 ≤ length items
      → hash_from_byte_slices sum items
        ≡ Hash.inner_hash sum
            (hash_from_byte_slices sum (left_part items))
            (hash_from_byte_slices sum (right_part items))
  unfolding hash_from_byte_slices
  hash_lem = tree_split (Hash.empty_hash sum) (Hash.leaf_hash sum) (Hash.inner_hash sum)

  hash_single : (x : Bytes) → hash_from_byte_slices sum (x ∷ []) ≡ Hash.leaf_hash sum x
  unfolding hash_from_byte_slices
  hash_single = tree_single (Hash.empty_hash sum) (Hash.leaf_hash sum) (Hash.inner_hash sum)

  -- What a successful climb over a last aunt has done.
  abbrev Climbed : ℕ → ℕ → Bytes → Bytes → List Bytes → Bytes → Type 0
  Climbed i n leaf a up h =
      (i < n)
      × (2 ≤ n)
      × (((c : Bytes) × (i < split n)
            × (climb sum i (split n) leaf up ≡ some c)
            × (h ≡ Hash.inner_hash sum c a))
          ⊎ ((c : Bytes) × (split n ≤ i)
              × (climb sum (i - split n) (n - split n) leaf up ≡ some c)
              × (h ≡ Hash.inner_hash sum a c)))

  climb_cons :
      (i n : ℕ) (leaf a : Bytes) (up : List Bytes) (h : Bytes)
      → climb sum i n leaf (a ∷ up) ≡ some h
      → Climbed i n leaf a up h
  unfolding climb
  climb_cons i n leaf a up h e = elim (dec_lt i (split n)) [
    | yes less ↦ elim (Option-cases (climb sum i (split n) leaf up)) [
      | inl nothing ↦ absurd (ground arith)
      | inr (c, found) ↦ (ground arith, ground arith, inl (c, less, found, ground arith))
    ]
    | no more ↦ elim (Option-cases (climb sum (i - split n) (n - split n) leaf up)) [
      | inl nothing ↦ absurd (ground arith)
      | inr (c, found) ↦ (ground arith, ground arith, inr (c, omega arith, found, ground arith))
    ]
  ]

  climb_zero : (i : ℕ) (leaf h : Bytes) (up : List Bytes) → ¬ (climb sum i 0 leaf up ≡ some h)
  unfolding climb
  climb_zero i leaf h [] e = ground arith
  climb_zero i leaf h (a ∷ up) e = ground arith

  compute_negative : (p : Proof) (n : ℕ) → p.index ≡ negsuc n → compute_root_hash sum p ≡ none
  unfolding compute_root_hash
  compute_negative p n at = rw (at, compute_hash_from_aunts)

  compute_at :
      (p : Proof) (i n : ℕ)
      → p.index ≡ pos i
      → p.total ≡ pos n
      → compute_root_hash sum p ≡ climb sum i n p.leaf_hash (reverse p.aunts)
  unfolding compute_root_hash
  compute_at p i n at total = rw (at, total, compute_hash_from_aunts)

  -- The tests that an accepted proof has passed.
  verify_tests :
      (p : Proof) (root leaf : Bytes)
      → verify sum p root leaf ≡ none
      → (p.leaf_hash ≡ Hash.leaf_hash sum leaf) × (or_empty (compute_root_hash sum p) ≡ root)
  unfolding verify
  verify_tests p root leaf e = (
    bytes_equal_sound p.leaf_hash (Hash.leaf_hash sum leaf) (ground arith),
    bytes_equal_sound (or_empty (compute_root_hash sum p)) root (ground arith),
  )

  climb_one :
      (i : ℕ) (leaf h : Bytes) (up : List Bytes)
      → climb sum i 1 leaf up ≡ some h
      → (i ≡ 0) × (h ≡ leaf)
  unfolding climb
  climb_one i leaf h [] e = ground arith
  climb_one i leaf h (a ∷ up) e = ground arith

  module _ (sized : HasSize sum) where
    length-hash : (items : List Bytes) → length (hash_from_byte_slices sum items) ≡ Hash.size
    unfolding hash_from_byte_slices Hash.empty_hash Hash.leaf_hash Hash.inner_hash
    length-hash [] =
        ap length (tree-nil (Hash.empty_hash sum) (Hash.leaf_hash sum) (Hash.inner_hash sum))
        ∙ sized []
    length-hash (x ∷ []) = ap length (hash_single x) ∙ sized (0 ∷ x)
    length-hash (x ∷ y ∷ xs) = ap length (hash_lem (x ∷ y ∷ xs) (omega arith)) ∙ sized _

    length-climb :
        (i n : ℕ) (leaf : Bytes) (up : List Bytes) (h : Bytes)
        → length leaf ≡ Hash.size
        → climb sum i n leaf up ≡ some h
        → length h ≡ Hash.size
    unfolding climb Hash.inner_hash
    length-climb i n leaf [] h size e = ground arith
    length-climb i n leaf (a ∷ up) h size e =
        let (_, _, way) = climb_cons i n leaf a up h e in
        elim way [
          | inl (c, _, _, same) ↦ ap length same ∙ sized _
          | inr (c, _, _, same) ↦ ap length same ∙ sized _
        ]

    leaf_size : (leaf : Bytes) → length (Hash.leaf_hash sum leaf) ≡ Hash.size
    unfolding Hash.leaf_hash
    leaf_size leaf = sized (0 ∷ leaf)

    no_root : (items : List Bytes) → ¬ ([] ≡ hash_from_byte_slices sum items)
    no_root items e = absurd (omega (arith, length-hash items, ap length e))

    -- What climbs to the root of the items is one of them, at its index.
    abbrev Names : List Bytes → Type 0
    Names items =
        (i : ℕ) (leaf : Bytes) (up : List Bytes)
        → climb sum i (length items) (Hash.leaf_hash sum leaf) up
          ≡ some (hash_from_byte_slices sum items)
        → (get_elem? items i ≡ some leaf) ⊎ Collision sum

    single-Names : (x : Bytes) → Names (x ∷ [])
    single-Names x i leaf up e =
        let (at, same) = climb_one i (Hash.leaf_hash sum leaf) _ up e in
        elim (leaf_hash_eq leaf x (sym same ∙ hash_single x)) [
          | inl eq ↦ inl (rw (at, eq) refl)
          | inr found ↦ inr found
        ]

    split-Names :
        (items : List Bytes)
        → 2 ≤ length items
        → Names (left_part items)
        → Names (right_part items)
        → Names items
    unfolding climb
    split-Names items h l r i leaf [] e = absurd (ground arith)
    split-Names items h l r i leaf (a ∷ up) e =
        let (_, _, way) = climb_cons i (length items) _ a up _ e in
        elim way [
          | inl (c, less, below, same) ↦
              elim (inner_hash_eq c _ a _
                (inl (
                  length-climb i (split (length items)) _ up c (leaf_size leaf) below
                  ∙ sym (length-hash (left_part items))))
                (sym same ∙ hash_lem items h)) [
                  | inl (eq, _) ↦
                      elim (l i leaf up (rw (length-left_part items h) (below ∙ ap some eq))) [
                        | inl at ↦
                            inl (sym (get_elem?-take (split (length items)) items i less) ∙ at)
                        | inr found ↦ inr found
                      ]
                  | inr found ↦ inr found
                ]
          | inr (c, more, below, same) ↦
              elim (inner_hash_eq a _ c _
                (inr (
                  length-climb (i - split (length items)) (length items - split (length items)) _ up
                    c (leaf_size leaf) below
                  ∙ sym (length-hash (right_part items))))
                (sym same ∙ hash_lem items h)) [
                  | inl (_, eq) ↦
                      elim (r (i - split (length items)) leaf up
                        (rw (length-right_part items h) (below ∙ ap some eq))) [
                          | inl at ↦ inl (
                              ap (get_elem? items) (omega arith)
                              ∙ sym (
                                  get_elem?-drop (split (length items)) items
                                    (i - split (length items)))
                              ∙ at)
                          | inr found ↦ inr found
                        ]
                  | inr found ↦ inr found
                ]
        ]

    items-Names : (items : List Bytes) → Names items
    items-Names =
        split_induction Names (λ i leaf up e. absurd (climb_zero i _ _ up e)) single-Names
          split-Names

    accepted :
        (items : List Bytes) (p : Proof) (leaf : Bytes) (index : ℤ)
        → p.index ≡ index
        → p.total ≡ pos (length items)
        → p.leaf_hash ≡ Hash.leaf_hash sum leaf
        → or_empty (compute_root_hash sum p) ≡ hash_from_byte_slices sum items
        → ((i : ℕ) × (p.index ≡ pos i) × (get_elem? items i ≡ some leaf)) ⊎ Collision sum
    accepted items p leaf (negsuc n) at total same up =
        absurd (no_root items (sym (ap or_empty (compute_negative p n at)) ∙ up))
    accepted items p leaf (pos i) at total same up =
        let root =
          compute_at p i (length items) at total
          ∙ ap (λ b. climb sum i (length items) b (reverse p.aunts)) same in
        elim (Option-cases
          (climb sum i (length items) (Hash.leaf_hash sum leaf) (reverse p.aunts))) [
            | inl nothing ↦ absurd (no_root items (sym (ap or_empty (root ∙ nothing)) ∙ up))
            | inr (h, found) ↦
                elim (items-Names items i leaf (reverse p.aunts)
                  (found ∙ ap some (sym (ap or_empty (root ∙ found)) ∙ up))) [
                    | inl named ↦ inl (i, at, named)
                    | inr c ↦ inr c
                  ]
          ]

    -- For a hash whose digests have 32 bytes: if Verify accepts a proof for the root of the items,
    -- and the proof's total is their number, then the proof's index is that of an item, which is
    -- the verified leaf, unless two inputs that collide under the hash can be shown.
    pub verify_sound :
        (items : List Bytes) (p : Proof) (leaf : Bytes)
        → p.total ≡ pos (length items)
        → verify sum p (hash_from_byte_slices sum items) leaf ≡ none
        → ((i : ℕ) × (p.index ≡ pos i) × (get_elem? items i ≡ some leaf)) ⊎ Collision sum
    verify_sound items p leaf total e =
        let (same, up) = verify_tests p (hash_from_byte_slices sum items) leaf e in
        accepted items p leaf p.index refl total same up
