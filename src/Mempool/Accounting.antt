-- ===== src/Mempool/Accounting.antt =====
-- The invariant of the pool: its size in bytes is that of its transactions, and its map leads from
-- a key to an element whose transaction has that key.
use bft.Base.{
  ℕ, suc, ◌+◌, ◌≤◌, ◌≡◌, inl, inr, Bool, false, Option, some, [], ◌∷◌, ◌++◌, arith, length,
  length-append, Bytes, bytes_equal, bytes_equal_iff, bytes_equal_sound, ap, ◌∙◌, sym, subst,
  Bool-cases, ℕ_discrete,
}
use bft.Base.Int.{ℤ}
use bft.Base.Assoc.{lookup}
use bft.Mempool.{Element, Mempool, find_element, add_tx, remove_tx, is_full}
use bft.Mempool.TxCache.{Cache}
use bft.Mempool.Elements.{
  total_bytes, Below, total_bytes-add, total_bytes-remove, Below-more, Below-add, Below-remove,
  find_element-old, find_element-new, find_element-remove, lookup-delete_key, length-remove_element,
}

module _ (key : Bytes → Bytes) where
  pub record IsValid (m : Mempool) : Type 0 where
    pub weighed : m.txs_bytes ≡ total_bytes m.txs
    pub below : Below m.next_id m.txs
    pub mapped :
        (k : Bytes) (i : ℕ)
        → lookup k m.txs_map ≡ some i
        → (e : Element) × (find_element i m.txs ≡ some e) × (key e.tx ≡ k)
    -- The limits of the configuration.
    pub limited : (length m.txs ≤ m.config.size) × (m.txs_bytes ≤ m.config.max_txs_bytes)

  -- The invariant does not speak of the other fields.
  pub touch :
      (m : Mempool) (height : ℤ) (notified : Bool) (filter : Option (Bytes → Bool)) (cache : Cache)
      (cursor end : Option ℕ)
      → IsValid m
      → IsValid (record m {
        height = height;
        notified = notified;
        pre_check = filter;
        cache = cache;
        recheck_cursor = cursor;
        recheck_end = end;
      })
  touch m height notified filter cache cursor end v = record {
    weighed = v.weighed;
    below = v.below;
    mapped = v.mapped;
    limited = v.limited;
  }

  pub add_tx-IsValid :
      (m : Mempool) (height : ℤ) (tx sender : Bytes)
      → IsValid m
      → is_full m (length tx) ≡ false
      → IsValid (add_tx key m height tx sender)
  unfolding add_tx is_full
  add_tx-IsValid m height tx sender v room = record {
    limited = room_for;
    weighed = omega (arith, v.weighed, total_bytes-add m.txs new);
    below = Below-add (suc m.next_id) m.txs new (omega arith) (Below-more m.next_id m.txs v.below);
    mapped = λ k i h. elim (Bool-cases (bytes_equal (key tx) k)) [
      | inl same ↦
          let here : m.next_id ≡ i = unfold lookup in ground (arith, same) in
          (
            new,
            find_element-new i m.txs new here (subst (λ n. Below n m.txs) here v.below),
            bytes_equal_sound (key tx) k same,
          )
      | inr other ↦
          let left = lookup-delete_key (key tx) k m.txs_map in
          let old : lookup k m.txs_map ≡ some i = unfold lookup in ground (arith, other, left) in
          let (e, at, keyed) = v.mapped k i old in (e, find_element-old i m.txs new e at, keyed)
    ];
  }
    where
      new : Element
      new = record { id = m.next_id; height = height; tx = tx; senders = sender ∷ [] }

      room_for :
          (length (m.txs ++ new ∷ []) ≤ m.config.size)
          × (m.txs_bytes + length tx ≤ m.config.max_txs_bytes)
      room_for = let n = length-append m.txs (new ∷ []) in ground (arith, n)

  -- Removing the transaction of the element that is found.
  pub remove_tx-IsValid :
      (m : Mempool) (i : ℕ) (e : Element)
      → IsValid m
      → find_element i m.txs ≡ some e
      → IsValid (remove_tx key m e.tx i)
  unfolding remove_tx
  remove_tx-IsValid m i e v at = record {
    limited =
        let shorter = length-remove_element i m.txs in
        (omega (arith, shorter, v.limited.0), omega (arith, v.limited.1));
    weighed = omega (arith, v.weighed, total_bytes-remove i m.txs e at);
    below = Below-remove m.next_id i m.txs v.below;
    mapped = λ k j h. elim (Bool-cases (bytes_equal (key e.tx) k)) [
      | inl same ↦
          let gone = lookup-delete_key (key e.tx) k m.txs_map in absurd (ground (arith, same, gone))
      | inr other ↦
          let left = lookup-delete_key (key e.tx) k m.txs_map in
          let old : lookup k m.txs_map ≡ some j = ground (arith, other, left) in
          let (f, found, keyed) = v.mapped k j old in
          elim (ℕ_discrete i j) [
            | yes one ↦
                let same : f ≡ e = cc (at, found, one) in
                let hit =
                  (bytes_equal_iff (key e.tx) k).1 (ap (λ x. key x.tx) (sym same) ∙ keyed) in
                absurd (cc (hit, other))
            | no apart ↦ (f, find_element-remove i j m.txs apart ∙ found, keyed)
          ]
    ];
  }
