-- ===== src/Merkle/Iterative/Equivalence.antt =====
-- The two functions of crypto/merkle/tree.go compute one hash.
use mathlib.Core.List.{append_assoc, append-nil}
use bft.Base.{
  ℕ, zero, suc, ◌+◌, ◌≤◌, ◌<◌, ◌≡◌, refl, List, [], ◌∷◌, ◌++◌, map, arith, Bytes, ltb, length,
  get_or, set, take, drop, ap, ap₂, ltb→lt, ◌∙◌, sym, Bool-cases, inl, inr, take-suc-set, drop-set,
  take-set, drop-get_or, get_or-take, length-set, length-take, take_all, drop_all, length-map,
}
use bft.Merkle.Hash.{empty_hash, leaf_hash, inner_hash}
use bft.Merkle.Tree.{tree, tree-map, tree-nil, tree_single, hash_from_byte_slices}
use bft.Merkle.Iterative.{pair_loop, level_loop, hash_from_byte_slices_iterative}
use bft.Merkle.Iterative.Pairing.{pair_up, length-pair_up, root-pair_up}

module _ (sum : Bytes → Bytes) where
  -- The unread part of the level.
  abbrev unread : List Bytes → ℕ → ℕ → List Bytes
  unread items size rp = drop rp (take size items)

  unread-set :
      (items : List Bytes) (size rp wp r : ℕ) (v : Bytes)
      → wp < r
      → unread (set items wp v) size r ≡ unread items size r
  unread-set items size rp wp r v h =
      ap (drop r) (take-set size wp items v) ∙ drop-set r wp (take size items) v h

  unread_step :
      (items : List Bytes) (size r : ℕ)
      → r < size
      → size ≤ length items
      → unread items size r ≡ get_or items r [] ∷ unread items size (r + 1)
  unread_step items size r h fits =
      let n = length-take size items in
      let e : r + 1 ≡ suc r = omega arith in
      rw e (
        drop-get_or r (take size items) [] (omega (arith, n))
        ∙ ap (λ x. x ∷ drop (suc r) (take size items)) (get_or-take size r items [] h))

  -- What the loop leaves: the written prefix, then the pairs of what was unread.
  abbrev Paired : List Bytes → ℕ → ℕ → ℕ → List Bytes × ℕ → Type 0
  Paired items size rp wp (items', wp') =
      (take wp' items' ≡ take wp items ++ pair_up (inner_hash sum) (unread items size rp))
      × (wp' ≡ wp + length (pair_up (inner_hash sum) (unread items size rp)))
      × (length items' ≡ length items)

  unread_end : (items : List Bytes) (size rp : ℕ) → size ≤ rp → unread items size rp ≡ []
  unread_end items size rp h = drop_all rp (take size items) (omega (arith, length-take size items))

  Paired-end :
      (items : List Bytes) (size rp wp : ℕ) → size ≤ rp → Paired items size rp wp (items, wp)
  unfolding pair_up
  Paired-end items size rp wp h =
      rw (unread_end items size rp h) (sym (append-nil (take wp items)), omega arith, refl)

  -- One write: the node `v` goes to the write position, and the read position moves on to `r`.
  Paired-write :
      (items : List Bytes) (size rp wp r : ℕ) (v : Bytes) (res : List Bytes × ℕ)
      → wp < r
      → wp < length items
      → pair_up (inner_hash sum) (unread items size rp)
        ≡ v ∷ pair_up (inner_hash sum) (unread items size r)
      → Paired (set items wp v) size r (wp + 1) res
      → Paired items size rp wp res
  Paired-write items size rp wp r v (items', wp') h room e (p, q, l) =
      let u = ap (pair_up (inner_hash sum)) (unread-set items size rp wp r v h) in
      let w : wp + 1 ≡ suc wp = omega arith in
      (
        p
            ∙ ap₂ ◌++◌ (rw w (take-suc-set wp items v room)) u
            ∙ append_assoc (take wp items) (v ∷ []) _
            ∙ ap (◌++◌ (take wp items)) (sym e),
        omega (arith, q, ap length u, ap length e),
        l ∙ length-set items wp v,
      )

  pair_loop-Paired :
      (f : ℕ) (items : List Bytes) (size rp wp : ℕ)
      → size ≤ rp + f
      → wp ≤ rp
      → size ≤ length items
      → Paired items size rp wp (pair_loop sum f items size rp wp)
  unfolding pair_loop pair_up
  pair_loop-Paired zero items size rp wp more w fits = Paired-end items size rp wp (omega arith)
  pair_loop-Paired (suc f) items size rp wp more w fits = elim (Bool-cases (ltb rp size)) [
    | inr over ↦ rw (over, pair_loop) (Paired-end items size rp wp (ground arith))
    | inl in_range ↦
        let lt : rp < size = ltb→lt rp size in_range in
        let first = unread_step items size rp lt fits in
        elim (Bool-cases (ltb (rp + 1) size)) [
          | inl two ↦
              let lt' : rp + 1 < size = ltb→lt (rp + 1) size two in
              let second = unread_step items size (rp + 1) lt' fits in
              let e : rp + 1 + 1 ≡ rp + 2 = omega arith in
              rw (in_range, two, pair_loop)
                (Paired-write items size rp wp (rp + 2) _ _ (omega arith) (omega arith)
                  (ap (pair_up (inner_hash sum))
                    (first ∙ ap (◌∷◌ (get_or items rp [])) (rw e at second)))
                  (pair_loop-Paired f _ size (rp + 2) (wp + 1) (omega arith) (omega arith) (
                    omega (
                      arith,
                      length-set items wp
                          (inner_hash sum (get_or items rp []) (get_or items (rp + 1) [])),
                    ))))
          | inr one ↦
              let last = unread_end items size (rp + 1) (ground arith) in
              rw (in_range, one, pair_loop)
                (Paired-write items size rp wp (rp + 1) _ _ (omega arith) (omega arith)
                  (ap (pair_up (inner_hash sum)) (first ∙ ap (◌∷◌ (get_or items rp [])) last)
                    ∙ ap (λ x. get_or items rp [] ∷ pair_up (inner_hash sum) x) (sym last))
                  (pair_loop-Paired f _ size (rp + 1) (wp + 1) (omega arith) (omega arith)
                    (omega (arith, length-set items wp (get_or items rp [])))))
        ]
  ]

  abbrev root : List Bytes → Bytes
  root = tree (empty_hash sum) (λ b. b) (inner_hash sum)

  -- `level_loop` on the first `size` nodes computes the root of their tree.
  level_loop-root :
      (f : ℕ) (items : List Bytes) (size : ℕ)
      → size < f
      → size ≤ length items
      → level_loop sum f items size ≡ root (take size items)
  unfolding level_loop
  level_loop-root zero items size h fits = absurd (omega arith)
  level_loop-root (suc f) items zero h fits =
      sym (tree-nil (empty_hash sum) (λ b. b) (inner_hash sum))
  level_loop-root (suc f) [] (suc zero) h fits = absurd (omega arith)
  level_loop-root (suc f) (x ∷ items) (suc zero) h fits =
      sym (tree_single (empty_hash sum) (λ b. b) (inner_hash sum) x)
  level_loop-root (suc f) items (suc (suc n)) h fits =
      let size : ℕ = suc (suc n) in
      let (items', wp') = pair_loop sum size items size 0 0 in
      let (p, q, l) = pair_loop-Paired size items size 0 0 (omega arith) (omega arith) fits in
      let m = length-pair_up (inner_hash sum) (take size items) in
      let t = length-take size items in
      level_loop-root f items' wp' (omega (arith, q, m, t)) (omega (arith, q, m, t, l))
      ∙ ap root p
      ∙ root-pair_up (inner_hash sum) (empty_hash sum) (take size items)

  -- For every list of byte strings the iterative and the recursive hash are equal.
  pub iterative-eq-recursive :
      (input : List Bytes)
      → hash_from_byte_slices_iterative sum input ≡ hash_from_byte_slices sum input
  unfolding hash_from_byte_slices_iterative hash_from_byte_slices
  iterative-eq-recursive input =
      let n = length-map (leaf_hash sum) input in
      level_loop-root (suc (length input)) (map (leaf_hash sum) input) (length input) (omega arith)
        (omega (arith, n))
      ∙ ap root (take_all (length input) (map (leaf_hash sum) input) (omega (arith, n)))
      ∙ tree-map (empty_hash sum) (leaf_hash sum) (inner_hash sum) input
