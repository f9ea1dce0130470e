-- ===== src/Mempool/Examples.antt =====
-- Runs of the pool and of its cache.
use bft.Base.{refl, Bytes, some, ℕ, ◌≡◌, ◌⊎◌, true, false, [], ◌∷◌, arith}
use bft.Base.Int.{pos}
use bft.Mempool.{
  Config, Element, Mempool, new_mempool, reap_max_txs, check_tx, req_res_cb, add_tx, delete_key,
}
use bft.Mempool.TxCache.{Cache, lru, nop, push, remove, has, Bounded, push-remove}
use bft.Merkle.Hash.{Collision}
use bft.Mempool.Accounting.{IsValid}
use bft.Mempool.History.{Reached, fresh, then_step, checked, answered, Reached-IsValid}
use bft.Mempool.Reap.{reap_max_txs_lem}

abbrev full : Cache
full = lru 2 ((1 ∷ []) ∷ (2 ∷ []) ∷ [])

push-remove_example :
    Bounded (push (3 ∷ []) full).0
    × Bounded (remove (3 ∷ []) full)
    × (has (3 ∷ []) full ≡ true → (push (3 ∷ []) full).1 ≡ false)
    × (has (3 ∷ []) full ≡ false → (push (3 ∷ []) full).1 ≡ true)
    × ((full ≡ nop) ⊎ (has (3 ∷ []) (push (3 ∷ []) full).0 ≡ true))
    × (has (3 ∷ []) (remove (3 ∷ []) full) ≡ false)
push-remove_example = push-remove (3 ∷ []) full (omega arith, omega arith)

abbrev config : Config
config = record {
  size = 5;
  max_txs_bytes = 100;
  max_tx_bytes = 10;
  cache_size = 2;
  recheck = false;
}

abbrev element : ℕ → Element
element i = record { id = i; height = pos 1; tx = i ∷ []; senders = [] }

abbrev three : Mempool
three = record (new_mempool config (pos 1)) {
  txs = element 0 ∷ element 1 ∷ element 2 ∷ [];
  txs_bytes = 3;
  next_id = 3;
}

-- A limit of one transaction returns two.
reap_max_txs_lem_example : reap_max_txs (pos 1) three ≡ (0 ∷ []) ∷ (1 ∷ []) ∷ []
reap_max_txs_lem_example = reap_max_txs_lem (pos 1) three

abbrev plain : Bytes → Bytes
plain b = b

-- A transaction comes in, and the application accepts it.
abbrev asked : Mempool
asked = (check_tx plain false false (new_mempool config (pos 1)) (4 ∷ []) (8 ∷ [])).0

abbrev accepted : Mempool
accepted = record (new_mempool config (pos 1)) {
  txs = record { id = 0; height = pos 1; tx = 4 ∷ []; senders = (8 ∷ []) ∷ [] } ∷ [];
  txs_map = (4 ∷ [], 0) ∷ [];
  txs_bytes = 1;
  cache = lru 2 ((4 ∷ []) ∷ []);
  next_id = 1;
}

answer : req_res_cb plain asked (4 ∷ []) (8 ∷ []) true ≡ some accepted
unfolding req_res_cb check_tx new_mempool push add_tx delete_key
answer = refl

accepted-Reached : Reached plain config (pos 1) accepted
accepted-Reached =
    then_step asked accepted
      (then_step (new_mempool config (pos 1)) asked fresh (checked false false (4 ∷ []) (8 ∷ [])))
      (answered (4 ∷ []) (8 ∷ []) true accepted answer)

Reached-IsValid_example : IsValid plain accepted ⊎ Collision plain
Reached-IsValid_example = Reached-IsValid plain config (pos 1) accepted accepted-Reached
