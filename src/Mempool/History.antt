-- ===== src/Mempool/History.antt =====
-- Every history of the pool keeps its invariant.
use bft.Base.{
  ℕ, ◌≡◌, refl, ◌⊎◌, inl, inr, Bool, true, false, not, ◌&&◌, Option, none, some, List, [], ◌∷◌,
  arith, ltb, ◌==◌, if◌then◌else◌, length, Bytes, bytes_equal, bytes_equal_sound, Bytes-discrete,
  ap, ◌∙◌, sym, subst, Bool-cases, Option-cases,
}
use bft.Base.Int.{ℤ}
use bft.Base.Assoc.{lookup}
use bft.Merkle.Hash.{Collision}
use bft.Mempool.{
  Config, Mempool, find_element, same_element, next_of, advance, notify, is_full, add_sender,
  override, add_tx, remove_tx, commit_txs, front, back, recheck_txs, new_mempool, flush, check_tx,
  res_cb_first_time, req_res_cb, global_cb, update,
}
use bft.Mempool.TxCache.{Cache, push, remove}
use bft.Mempool.Elements.{
  total_bytes-add_sender, Below-add_sender, tx_at-add_sender, length-add_sender,
}
use bft.Mempool.Accounting.{IsValid, touch, add_tx-IsValid, remove_tx-IsValid}

module _ (key : Bytes → Bytes) where
  new_mempool-IsValid : (config : Config) (height : ℤ) → IsValid key (new_mempool config height)
  unfolding new_mempool
  new_mempool-IsValid config height = record {
    weighed = refl;
    below = _;
    mapped = λ k i h. absurd (unfold lookup in cc h);
    limited = (omega arith, omega arith);
  }

  flush-IsValid : (m : Mempool) → IsValid key m → IsValid key (flush key m)
  unfolding flush
  flush-IsValid m v = record {
    weighed = refl;
    below = _;
    mapped = λ k i h. absurd (unfold lookup in cc h);
    limited = (omega arith, omega arith);
  }

  add_sender-IsValid :
      (m : Mempool) (i : ℕ) (sender : Bytes) (cache : Cache)
      → IsValid key m
      → IsValid key (record m { cache = cache; txs = add_sender i sender m.txs })
  add_sender-IsValid m i sender cache v = record {
    weighed = v.weighed ∙ sym (total_bytes-add_sender i sender m.txs);
    below = Below-add_sender m.next_id i sender m.txs v.below;
    mapped = λ k j h.
        let (e, at, keyed) = v.mapped k j h in
        let same = tx_at-add_sender i j sender m.txs in
        elim (Option-cases (find_element j (add_sender i sender m.txs))) [
          | inl lost ↦ absurd (ground (arith, same, at, lost))
          | inr (f, found) ↦
              let one : f.tx ≡ e.tx = ground (arith, same, at, found) in
              (f, found, ap key one ∙ keyed)
        ];
    limited =
        let n = length-add_sender i sender m.txs in (omega (arith, n, v.limited.0), v.limited.1);
  }

  with_cache :
      (m : Mempool) (cache : Cache) → IsValid key m → IsValid key (record m { cache = cache })
  with_cache m cache v =
      touch key m m.height m.notified m.pre_check cache m.recheck_cursor m.recheck_end v

  notify-IsValid : (m m' : Mempool) → IsValid key m → notify m ≡ some m' → IsValid key m'
  unfolding notify
  notify-IsValid m m' v e = elim (Bool-cases (length m.txs == 0)) [
    | inl empty ↦ absurd (ground arith)
    | inr more ↦ elim (Bool-cases (m.enabled && not m.notified)) [
      | inl tell ↦
          let same : record m { notified = true } ≡ m' = ground arith in
          subst (IsValid key) same
            (touch key m m.height true m.pre_check m.cache m.recheck_cursor m.recheck_end v)
      | inr told ↦ let same : m ≡ m' = ground arith in subst (IsValid key) same v
    ]
  ]

  -- One transaction of a block that was committed.
  abbrev cached : Mempool → Bytes → Bool → Mempool
  cached m tx ok = record m {
    cache = if ok then (push (key tx) m.cache).0 else remove (key tx) m.cache;
  }

  abbrev committed : Mempool → Bytes → Bool → Option ℕ → Mempool
  committed m tx ok none = cached m tx ok
  committed m tx ok (some i) = remove_tx key (cached m tx ok) tx i

  committed-IsValid :
      (m : Mempool) (tx : Bytes) (ok : Bool) (found : Option ℕ)
      → IsValid key m
      → lookup (key tx) m.txs_map ≡ found
      → IsValid key (committed m tx ok found) ⊎ Collision key
  committed-IsValid m tx ok none v e = inl (with_cache m (cached m tx ok).cache v)
  committed-IsValid m tx ok (some i) v e =
      let valid = with_cache m (cached m tx ok).cache v in
      let (x, at, keyed) = v.mapped (key tx) i e in
      elim (Bytes-discrete x.tx tx) [
        | no apart ↦ inr (x.tx, tx, apart, keyed)
        | yes same ↦ inl (
            subst (λ t. IsValid key (remove_tx key (cached m tx ok) t i)) same
              (remove_tx-IsValid key (cached m tx ok) i x valid at))
      ]

  commit_txs-IsValid :
      (m : Mempool) (txs : List (Bytes × Bool))
      → IsValid key m
      → IsValid key (commit_txs key m txs) ⊎ Collision key
  unfolding commit_txs
  commit_txs-IsValid m [] v = inl v
  commit_txs-IsValid m ((tx, ok) ∷ txs) v = elim (Option-cases (lookup (key tx) m.txs_map)) [
    | inl missing ↦ elim (committed-IsValid m tx ok none v missing) [
      | inr clash ↦ inr clash
      | inl v' ↦ rw (missing, commit_txs) (commit_txs-IsValid (cached m tx ok) txs v')
    ]
    | inr (i, found) ↦ elim (committed-IsValid m tx ok (some i) v found) [
      | inr clash ↦ inr clash
      | inl v' ↦
          rw (found, commit_txs) (commit_txs-IsValid (remove_tx key (cached m tx ok) tx i) txs v')
    ]
  ]

  recheck_txs-IsValid : (m m' : Mempool) → IsValid key m → recheck_txs m ≡ some m' → IsValid key m'
  unfolding recheck_txs
  recheck_txs-IsValid m m' v e = elim (Bool-cases (ltb 0 (length m.txs))) [
    | inr empty ↦ let same : m ≡ m' = ground (arith, e, empty) in subst (IsValid key) same v
    | inl left ↦ elim (Bool-cases m.config.recheck) [
      | inr off ↦ notify-IsValid m m' v (ground (arith, e, left, off))
      | inl on ↦
          let same : record m { recheck_cursor = front m.txs; recheck_end = back m.txs } ≡ m' =
            ground (arith, e, left, on) in
          subst (IsValid key) same
            (touch key m m.height m.notified m.pre_check m.cache (front m.txs) (back m.txs) v)
    ]
  ]

  update-IsValid :
      (m m' : Mempool) (height : ℤ) (txs : List (Bytes × Bool)) (filter : Option (Bytes → Bool))
      → IsValid key m
      → update key m height txs filter ≡ some m'
      → IsValid key m' ⊎ Collision key
  unfolding update
  update-IsValid m m' height txs filter v e =
      let m0 : Mempool = record m {
        height = height;
        notified = false;
        pre_check = override filter m.pre_check;
      } in
      elim (commit_txs-IsValid m0 txs (
        touch key m height false (override filter m.pre_check) m.cache m.recheck_cursor
          m.recheck_end v)) [
            | inr clash ↦ inr clash
            | inl v' ↦ inl (recheck_txs-IsValid (commit_txs key m0 txs) m' v' e)
          ]

  check_tx_cases :
      (m : Mempool) (wal_fails stopped : Bool) (tx sender : Bytes)
      → let left = (check_tx key wal_fails stopped m tx sender).0 in
        let cache = (push (key tx) m.cache).0 in
        (left ≡ m)
        ⊎ (left ≡ record m { cache = cache })
        ⊎ ((i : ℕ) × (left ≡ record m { cache = cache; txs = add_sender i sender m.txs }))
  unfolding check_tx
  check_tx_cases m wal_fails stopped tx sender = elim (Option-cases (lookup (key tx) m.txs_map)) [
    | inl missing ↦ ground (arith, missing)
    | inr (i, found) ↦
        let left = (check_tx key wal_fails stopped m tx sender).0 in
        let cache = (push (key tx) m.cache).0 in
        let cases : (left ≡ m)
            ⊎ (left ≡ record m { cache = cache })
            ⊎ (left ≡ record m { cache = cache; txs = add_sender i sender m.txs }) =
          ground (arith, found) in
        elim cases [
          | inl same ↦ inl same
          | inr (inl same) ↦ inr (inl same)
          | inr (inr same) ↦ inr (inr (i, same))
        ]
  ]

  check_tx-IsValid :
      (m : Mempool) (wal_fails stopped : Bool) (tx sender : Bytes)
      → IsValid key m
      → IsValid key (check_tx key wal_fails stopped m tx sender).0
  check_tx-IsValid m wal_fails stopped tx sender v =
      let cache = (push (key tx) m.cache).0 in
      elim (check_tx_cases m wal_fails stopped tx sender) [
        | inl same ↦ subst (IsValid key) (sym same) v
        | inr (inl same) ↦ subst (IsValid key) (sym same) (with_cache m cache v)
        | inr (inr (i, same)) ↦
            subst (IsValid key) (sym same) (add_sender-IsValid m i sender cache v)
      ]

  answered-IsValid :
      (m m' : Mempool) (tx sender : Bytes) (ok : Bool)
      → IsValid key m
      → req_res_cb key m tx sender ok ≡ some m'
      → IsValid key m'
  unfolding req_res_cb res_cb_first_time
  answered-IsValid m m' tx sender ok v e = elim (Bool-cases ok) [
    | inr bad ↦
        let same : record m { cache = remove (key tx) m.cache } ≡ m' = ground (arith, e, bad) in
        subst (IsValid key) same (with_cache m (remove (key tx) m.cache) v)
    | inl good ↦ elim (Bool-cases (is_full m (length tx))) [
      | inl full ↦
          let same : record m { cache = remove (key tx) m.cache } ≡ m' =
            ground (arith, e, good, full) in
          subst (IsValid key) same (with_cache m (remove (key tx) m.cache) v)
      | inr room ↦
          let told : notify (add_tx key m m.height tx sender) ≡ some m' =
            ground (arith, e, good, room) in
          notify-IsValid (add_tx key m m.height tx sender) m'
            (add_tx-IsValid key m m.height tx sender v room) told
    ]
  ]

  advance-IsValid :
      (m m' : Mempool) (next : Option ℕ) → IsValid key m → advance m next ≡ some m' → IsValid key m'
  unfolding advance
  advance-IsValid m m' (some i) v e =
      let same : record m { recheck_cursor = some i } ≡ m' = ground arith in
      subst (IsValid key) same
        (touch key m m.height m.notified m.pre_check m.cache (some i) m.recheck_end v)
  advance-IsValid m m' none v e =
      let done : Mempool = record m { recheck_cursor = none } in
      let v' = touch key m m.height m.notified m.pre_check m.cache none m.recheck_end v in
      elim (Bool-cases (ltb 0 (length m.txs))) [
        | inl some' ↦ notify-IsValid done m' v' (ground (arith, e, some'))
        | inr empty ↦ let same : done ≡ m' = ground (arith, e, empty) in subst (IsValid key) same v'
      ]

  pick :
      (b : Bool) (x y : Mempool) → IsValid key x → IsValid key y → IsValid key (if b then x else y)
  pick true x y v w = v
  pick false x y v w = w

  rechecked-IsValid :
      (m m' : Mempool) (tx : Bytes) (ok : Bool)
      → IsValid key m
      → global_cb key m tx ok ≡ some m'
      → IsValid key m'
  unfolding global_cb
  rechecked-IsValid m m' tx ok v e = elim (Option-cases m.recheck_cursor) [
    | inl idle ↦ let same : m ≡ m' = ground (arith, e, idle) in subst (IsValid key) same v
    | inr (i, cursor) ↦ elim (Option-cases (find_element i m.txs)) [
      | inl lost ↦ absurd (ground (arith, e, cursor, lost))
      | inr (x, at) ↦ elim (Bool-cases (bytes_equal tx x.tx)) [
        | inr other ↦ absurd (ground (arith, e, cursor, at, other))
        | inl same ↦
            let next = if same_element i m.recheck_end then none else next_of i m.txs in
            let moved : advance (if ok then m else remove_tx key m tx i) next ≡ some m' =
              ground (arith, e, cursor, at, same) in
            let dropped =
              subst (λ t. IsValid key (remove_tx key m t i)) (sym (bytes_equal_sound tx x.tx same))
                (remove_tx-IsValid key m i x v at) in
            advance-IsValid (if ok then m else remove_tx key m tx i) m' next
              (pick ok m (remove_tx key m tx i) v dropped) moved
      ]
    ]
  ]

  -- The steps of the pool: a transaction that comes in, the application's answer to it, its answer
  -- of a recheck, a committed block, and a flush.
  pub data Step (m : Mempool) : Mempool → Type 0 where
    checked :
        (wal_fails stopped : Bool) (tx sender : Bytes)
        → Step m (check_tx key wal_fails stopped m tx sender).0
    answered :
        (tx sender : Bytes) (ok : Bool) (m' : Mempool)
        → req_res_cb key m tx sender ok ≡ some m'
        → Step m m'
    rechecked :
        (tx : Bytes) (ok : Bool) (m' : Mempool) → global_cb key m tx ok ≡ some m' → Step m m'
    updated :
        (height : ℤ) (txs : List (Bytes × Bool)) (filter : Option (Bytes → Bool)) (m' : Mempool)
        → update key m height txs filter ≡ some m'
        → Step m m'
    flushed : Step m (flush key m)

  pub data Reached (config : Config) (height : ℤ) : Mempool → Type 0 where
    fresh : Reached config height (new_mempool config height)
    then_step : (m m' : Mempool) → Reached config height m → Step m m' → Reached config height m'

  Step-IsValid : (m m' : Mempool) → IsValid key m → Step m m' → IsValid key m' ⊎ Collision key
  Step-IsValid m m' v (checked wal_fails stopped tx sender) =
      inl (check_tx-IsValid m wal_fails stopped tx sender v)
  Step-IsValid m m' v (answered tx sender ok _ e) = inl (answered-IsValid m m' tx sender ok v e)
  Step-IsValid m m' v (rechecked tx ok _ e) = inl (rechecked-IsValid m m' tx ok v e)
  Step-IsValid m m' v (updated height txs filter _ e) = update-IsValid m m' height txs filter v e
  Step-IsValid m m' v flushed = inl (flush-IsValid m v)

  -- In every history of a new pool, unless two transactions that have the same key can be shown:
  -- the count of bytes is the sum of the sizes of the transactions, the map leads from a key to an
  -- element of the pool whose transaction has that key, and the number of the transactions and
  -- their bytes are within the limits of the configuration.
  pub Reached-IsValid :
      (config : Config) (height : ℤ) (m : Mempool)
      → Reached config height m
      → IsValid key m ⊎ Collision key
  Reached-IsValid config height m fresh = inl (new_mempool-IsValid config height)
  Reached-IsValid config height m (then_step m0 _ r s) = elim (Reached-IsValid config height m0 r) [
    | inl v ↦ Step-IsValid m0 m v s
    | inr clash ↦ inr clash
  ]
