-- ===== src/Merkle/Proof/Complete.antt =====
-- Every proof that `ProofsFromByteSlices` makes is accepted by `Verify`.
use mathlib.Core.List.{map-append, reverse-append}
use bft.Base.{
  ℕ, zero, suc, ◌+◌, ◌-◌, ◌≤◌, ◌<◌, ◌≡◌, refl, none, some, List, [], ◌∷◌, map, reverse, arith,
  Bytes, length, ap, ap₂, ◌∙◌, sym, dec_lt, get_elem?, get_elem?-lt, get_elem?-take, get_elem?-drop,
  get_elem?-append_left, get_elem?-append_right, get_elem?-map, length-append, length-map,
  bytes_equal_refl,
}
use bft.Base.Int.{pos}
use bft.Merkle.Hash
use bft.Merkle.Split.{split, split_fits}
use bft.Merkle.Tree.{
  tree-nil, tree_single, tree_split, split_induction, left_part, right_part, length-left_part,
  length-right_part, hash_from_byte_slices,
}
use bft.Merkle.Proof.{
  Proof, ProofNode, Link, left, right, sibling, flatten_aunts, attach, join_trails, single_trail,
  trails_from_byte_slices, number_proofs, proofs_from_byte_slices, climb, compute_root_hash, verify,
}

module _ (sum : Bytes → Bytes) where
  abbrev trails : List Bytes → List ProofNode × Bytes
  trails = trails_from_byte_slices sum

  trails_split :
      (items : List Bytes)
      → 2 ≤ length items
      → trails items ≡ join_trails sum (trails (left_part items)) (trails (right_part items))
  unfolding trails_from_byte_slices
  trails_split = tree_split ([], Hash.empty_hash sum) (single_trail sum) (join_trails sum)

  trails_single : (x : Bytes) → trails (x ∷ []) ≡ single_trail sum x
  unfolding trails_from_byte_slices
  trails_single = tree_single ([], Hash.empty_hash sum) (single_trail sum) (join_trails sum)

  -- The trails end in the root of the recursive hash.
  trails-root : (items : List Bytes) → (trails items).1 ≡ hash_from_byte_slices sum items
  unfolding trails_from_byte_slices hash_from_byte_slices join_trails
  trails-root =
      split_induction (λ items. (trails items).1 ≡ hash_from_byte_slices sum items)
        (ap (λ t. t.1) (tree-nil ([], Hash.empty_hash sum) (single_trail sum) (join_trails sum))
          ∙ sym (tree-nil (Hash.empty_hash sum) (Hash.leaf_hash sum) (Hash.inner_hash sum)))
        (λ x.
          ap (λ t. t.1)
            (tree_single ([], Hash.empty_hash sum) (single_trail sum) (join_trails sum) x)
          ∙ sym (tree_single (Hash.empty_hash sum) (Hash.leaf_hash sum) (Hash.inner_hash sum) x))
        λ items h l r.
          ap (λ t. t.1) (trails_split items h)
          ∙ ap₂ (Hash.inner_hash sum) l r
          ∙ sym
              (tree_split (Hash.empty_hash sum) (Hash.leaf_hash sum) (Hash.inner_hash sum) items h)

  -- There is a trail for each item.
  length-trails : (items : List Bytes) → length (trails items).0 ≡ length items
  unfolding trails_from_byte_slices join_trails
  length-trails =
      split_induction (λ items. length (trails items).0 ≡ length items)
        (ap (λ t. length t.0)
          (tree-nil ([], Hash.empty_hash sum) (single_trail sum) (join_trails sum)))
        (λ x.
          ap (λ t. length t.0)
            (tree_single ([], Hash.empty_hash sum) (single_trail sum) (join_trails sum) x))
        λ items h l r.
          ap (λ t. length t.0) (trails_split items h)
          ∙ omega (
            arith,
            length-append
                (map (attach (right (trails (right_part items)).1)) (trails (left_part items)).0)
                (map (attach (left (trails (left_part items)).1)) (trails (right_part items)).0),
            length-map (attach (right (trails (right_part items)).1)) (trails (left_part items)).0,
            length-map (attach (left (trails (left_part items)).1)) (trails (right_part items)).0,
            l,
            r,
            length-left_part items h,
            length-right_part items h,
            split_fits (length items) h,
          )

  climb_left :
      (i n : ℕ) (leaf a h : Bytes) (up : List Bytes)
      → 2 ≤ n
      → i < split n
      → climb sum i (split n) leaf up ≡ some h
      → climb sum i n leaf (a ∷ up) ≡ some (Hash.inner_hash sum h a)
  unfolding climb
  climb_left i n leaf a h up two less e = let s = split_fits n two in ground arith

  climb_right :
      (i n : ℕ) (leaf a h : Bytes) (up : List Bytes)
      → 2 ≤ n
      → split n ≤ i
      → i < n
      → climb sum (i - split n) (n - split n) leaf up ≡ some h
      → climb sum i n leaf (a ∷ up) ≡ some (Hash.inner_hash sum a h)
  unfolding climb
  climb_right i n leaf a h up two more less e = let s = split_fits n two in ground arith

  -- The aunts of an attached trail, last first.
  aunts-attach :
      (link : Link) (node : ProofNode)
      → reverse (flatten_aunts (attach link node)) ≡ sibling link ∷ reverse (flatten_aunts node)
  unfolding attach flatten_aunts
  aunts-attach link node =
      ap reverse (map-append sibling node.links (link ∷ []))
      ∙ reverse-append (map sibling node.links) (sibling link ∷ [])

  -- The trail of item `i` climbs to the root.
  abbrev Climbs : List Bytes → List ProofNode × Bytes → ℕ → Bytes → Type 0
  Climbs items (nodes, root) i leaf =
      (node : ProofNode) × (get_elem? nodes i ≡ some node)
      × (node.hash ≡ Hash.leaf_hash sum leaf)
      × (climb sum i (length items) node.hash (reverse (flatten_aunts node)) ≡ some root)

  join-Climbs_left :
      (items : List Bytes) (i : ℕ) (leaf : Bytes) (lefts rights : List ProofNode) (l r : Bytes)
      → 2 ≤ length items
      → i < split (length items)
      → Climbs (left_part items) (lefts, l) i leaf
      → Climbs items (join_trails sum (lefts, l) (rights, r)) i leaf
  unfolding join_trails
  join-Climbs_left items i leaf lefts rights l r h less (node, at, same, up) =
      let n = length-left_part items h in
      (
        attach (right r) node,
        get_elem?-append_left (map (attach (right r)) lefts) (map (attach (left l)) rights) i
              (omega (arith, get_elem?-lt lefts i at, length-map (attach (right r)) lefts))
            ∙ get_elem?-map (attach (right r)) lefts i node at,
        unfold attach in same,
        rw aunts-attach (
            unfold attach in
            climb_left i (length items) node.hash r l (reverse (flatten_aunts node)) h less
              (rw n at up)),
      )

  join-Climbs_right :
      (items : List Bytes) (i : ℕ) (leaf : Bytes) (lefts rights : List ProofNode) (l r : Bytes)
      → 2 ≤ length items
      → split (length items) ≤ i
      → i < length items
      → length lefts ≡ split (length items)
      → Climbs (right_part items) (rights, r) (i - split (length items)) leaf
      → Climbs items (join_trails sum (lefts, l) (rights, r)) i leaf
  unfolding join_trails
  join-Climbs_right items i leaf lefts rights l r h more less count (node, at, same, up) =
      let n = length-right_part items h in
      let c = length-map (attach (right r)) lefts in
      (
        attach (left l) node,
        get_elem?-append_right (map (attach (right r)) lefts) (map (attach (left l)) rights) i
              (omega (arith, c, count))
            ∙ ap (λ j. get_elem? (map (attach (left l)) rights) (i - j)) (c ∙ count)
            ∙ get_elem?-map (attach (left l)) rights (i - split (length items)) node at,
        unfold attach in same,
        rw aunts-attach (
            unfold attach in
            climb_right i (length items) node.hash l r (reverse (flatten_aunts node)) h more less
              (rw n at up)),
      )

  single-Climbs :
      (x : Bytes) (i : ℕ) (leaf : Bytes)
      → get_elem? (x ∷ []) i ≡ some leaf
      → Climbs (x ∷ []) (single_trail sum x) i leaf
  unfolding climb flatten_aunts
  single-Climbs x zero leaf e =
      (record { hash = Hash.leaf_hash sum x; links = [] }, refl, ap (Hash.leaf_hash sum) (cc), refl)
  single-Climbs x (suc i) leaf e = cc

  trails-Climbs :
      (items : List Bytes) (i : ℕ) (leaf : Bytes)
      → get_elem? items i ≡ some leaf
      → Climbs items (trails items) i leaf
  trails-Climbs =
      split_induction
        (λ items.
          (i : ℕ) (leaf : Bytes)
          → get_elem? items i ≡ some leaf
          → Climbs items (trails items) i leaf)
        (λ i leaf e. cc) (λ x i leaf e. rw trails_single (single-Climbs x i leaf e))
        λ items h l r i leaf e. rw (trails_split items h) (elim (dec_lt i (split (length items))) [
          | yes less ↦
              join-Climbs_left items i leaf (trails (left_part items)).0
                (trails (right_part items)).0 _ _ h less
                (l i leaf (get_elem?-take (split (length items)) items i less ∙ e))
          | no more ↦
              join-Climbs_right items i leaf (trails (left_part items)).0
                (trails (right_part items)).0 _ _ h (omega arith) (get_elem?-lt items i e)
                (length-trails (left_part items) ∙ length-left_part items h)
                (r (i - split (length items)) leaf (
                  get_elem?-drop (split (length items)) items (i - split (length items))
                  ∙ ap (get_elem? items) (omega arith)
                  ∙ e))
        ])

  -- The proof of item `i` carries its trail.
  number_proofs-get_elem? :
      (total j : ℕ) (nodes : List ProofNode) (i : ℕ) (node : ProofNode)
      → get_elem? nodes i ≡ some node
      → get_elem? (number_proofs total j nodes) i
        ≡ some (record {
          total = pos total;
          index = pos (j + i);
          leaf_hash = node.hash;
          aunts = flatten_aunts node;
        })
  unfolding number_proofs
  number_proofs-get_elem? total j [] i node e = cc
  number_proofs-get_elem? total j (n ∷ nodes) zero node e = ground arith
  number_proofs-get_elem? total j (n ∷ nodes) (suc i) node e =
      number_proofs-get_elem? total (j + 1) nodes i node e ∙ ground arith

  -- The root that comes with the proofs is the hash of the items, and the proof of each item names
  -- its index and their number, and is accepted for that root and that item.
  pub proofs-verify :
      (items : List Bytes) (i : ℕ) (item : Bytes)
      → get_elem? items i ≡ some item
      → ((proofs_from_byte_slices sum items).0 ≡ hash_from_byte_slices sum items)
        × ((p : Proof) × (get_elem? (proofs_from_byte_slices sum items).1 i ≡ some p)
            × (p.index ≡ pos i)
            × (p.total ≡ pos (length items))
            × (verify sum p (hash_from_byte_slices sum items) item ≡ none))
  unfolding proofs_from_byte_slices verify compute_root_hash
  proofs-verify items i item e =
      let (node, at, same, up) = trails-Climbs items i item e in
      let root = trails-root items in
      (
        root,
        (
          record {
            total = pos (length items);
            index = pos i;
            leaf_hash = node.hash;
            aunts = flatten_aunts node;
          },
          number_proofs-get_elem? (length items) 0 (trails items).0 i node at ∙ ground arith,
          refl,
          refl,
          rw (up, same, root, bytes_equal_refl (Hash.leaf_hash sum item))
              (rw (bytes_equal_refl (hash_from_byte_slices sum items))),
        ),
      )
