-- ===== src/Mempool.antt =====
-- mempool/clist_mempool.go: the ordered pool of checked transactions. The application's answers
-- arrive as calls of the callbacks, so that a history of the pool is a sequence of these functions.
-- An element of the linked list is a record with a number of its own, by which the map and the
-- recheck cursor name it. The locks, the log and the channel behind `notifyTxsAvailable` are not
-- modelled; a write of the WAL that fails and a stopped client are arguments of `check_tx`.
mod Examples
pub mod TxCache
pub mod Elements
pub mod Accounting
pub mod History
pub mod Reap
use bft.Base.{
  ℕ, suc, ◌+◌, ◌-◌, ◌*◌, ◌≤◌, ◌<◌, ◌≡◌, refl, Bool, true, false, ◌||◌, ◌&&◌, not, Option, none,
  some, List, [], ◌∷◌, ◌++◌, map, ltb, leb, ◌==◌, if◌then◌else◌, length, Bytes, bytes_equal,
}
use bft.Base.Int.{ℤ, pos, negsuc, ltb_ℤ}
use bft.Base.Assoc.{lookup}
use TxCache.{Cache, member, push, remove, reset, new_cache}

pub record Config : Type 0 where
  pub size : ℕ
  pub max_txs_bytes : ℕ
  pub max_tx_bytes : ℕ
  pub cache_size : ℕ
  pub recheck : Bool

-- A clist.CElement with its mempoolTx.
pub record Element : Type 0 where
  pub id : ℕ
  pub height : ℤ
  pub tx : Bytes
  pub senders : List Bytes

pub record Mempool : Type 0 where
  pub config : Config
  pub height : ℤ
  pub txs_bytes : ℕ
  pub enabled : Bool
  pub notified : Bool
  pub pre_check : Option (Bytes → Bool)
  pub txs : List Element
  pub txs_map : List (Bytes × ℕ)
  pub recheck_cursor : Option ℕ
  pub recheck_end : Option ℕ
  pub cache : Cache
  pub next_id : ℕ

-- `enabled` says that EnableTxsAvailable made the channel, `pre_check` is the filter in force.
unfoldable pub new_mempool : Config → ℤ → Mempool
unfolding new_cache
new_mempool config height = record {
  config = config;
  height = height;
  txs_bytes = 0;
  enabled = false;
  notified = false;
  pre_check = none;
  txs = [];
  txs_map = [];
  recheck_cursor = none;
  recheck_end = none;
  cache = new_cache config.cache_size;
  next_id = 0;
}

pub data CheckError : Type 0 where
  mempool_is_full tx_too_large pre_check_failed wal_write app_stopped tx_in_cache : CheckError

unfoldable pub is_full : Mempool → ℕ → Bool
is_full m tx_size =
    leb m.config.size (length m.txs) || ltb m.config.max_txs_bytes (tx_size + m.txs_bytes)

-- delete(m, k)
unfoldable pub delete_key : Bytes → List (Bytes × ℕ) → List (Bytes × ℕ)
delete_key k [] = []
delete_key k ((j, i) ∷ m) =
    let rest = delete_key k m in if bytes_equal j k then rest else (j, i) ∷ rest

unfoldable pub remove_element : ℕ → List Element → List Element
remove_element i [] = []
remove_element i (e ∷ es) = if e.id == i then es else e ∷ remove_element i es

-- memTx.senders.LoadOrStore
unfoldable pub add_sender : ℕ → Bytes → List Element → List Element
add_sender i sender [] = []
add_sender i sender (e ∷ es) =
    if e.id == i
    then record e { senders = if member sender e.senders then e.senders else sender ∷ e.senders }
      ∷ es
    else e ∷ add_sender i sender es

-- The element that follows: Next() of an element in the list.
unfoldable pub next_of : ℕ → List Element → Option ℕ
next_of i [] = none
next_of i (e ∷ []) = none
next_of i (e ∷ f ∷ es) = if e.id == i then some f.id else next_of i (f ∷ es)

abbrev pub front : List Element → Option ℕ
front [] = none
front (e ∷ es) = some e.id

unfoldable pub back : List Element → Option ℕ
back [] = none
back (e ∷ []) = some e.id
back (e ∷ f ∷ es) = back (f ∷ es)

-- notifyTxsAvailable; `none` is its panic on an empty pool.
unfoldable pub notify : Mempool → Option Mempool
notify m =
    if length m.txs == 0
    then none
    else if m.enabled && not m.notified
    then some (record m { notified = true })
    else some m

unfoldable pub passes : Option (Bytes → Bool) → Bytes → Bool
passes none tx = true
passes (some f) tx = f tx

unfoldable pub find_element : ℕ → List Element → Option Element
find_element i [] = none
find_element i (e ∷ es) = if e.id == i then some e else find_element i es

unfoldable pub same_element : ℕ → Option ℕ → Bool
same_element i none = false
same_element i (some j) = i == j

-- The end of resCbRecheck: the cursor moves on, past an element that may have been removed.
unfoldable pub advance : Mempool → Option ℕ → Option Mempool
unfolding notify
advance m none =
    let m' : Mempool = record m { recheck_cursor = none } in
    if ltb 0 (length m.txs) then notify m' else some m'
advance m (some i) = some (record m { recheck_cursor = some i })

-- The end of Update, with recheckTxs.
unfoldable pub recheck_txs : Mempool → Option Mempool
unfolding notify back
recheck_txs m =
    if ltb 0 (length m.txs)
    then if m.config.recheck
      then some (record m { recheck_cursor = front m.txs; recheck_end = back m.txs })
      else notify m
    else some m

-- if preCheck != nil { mem.preCheck = preCheck }
unfoldable pub override : Option (Bytes → Bool) → Option (Bytes → Bool) → Option (Bytes → Bool)
override none old = old
override (some f) old = some f

-- `key` is TxKey, the SHA-256 digest.
module _ (key : Bytes → Bytes) where
  unfoldable pub flush : Mempool → Mempool
  flush m = record m { txs_bytes = 0; cache = reset m.cache; txs = []; txs_map = [] }

  -- CheckTx up to the request that it sends to the application.
  unfoldable pub check_tx : Bool → Bool → Mempool → Bytes → Bytes → Mempool × Option CheckError
  unfolding is_full passes
  check_tx wal_fails stopped m tx sender =
      if is_full m (length tx)
      then (m, some mempool_is_full)
      else if ltb m.config.max_tx_bytes (length tx)
      then (m, some tx_too_large)
      else if not (passes m.pre_check tx)
      then (m, some pre_check_failed)
      else if wal_fails
      then (m, some wal_write)
      else if stopped
      then (m, some app_stopped)
      else let (cache, added) = push (key tx) m.cache in
        if added then (record m { cache = cache }, none) else elim (lookup (key tx) m.txs_map) [
          | none ↦ (record m { cache = cache }, some tx_in_cache)
          | some i ↦ (record m { cache = cache; txs = add_sender i sender m.txs }, some tx_in_cache)
        ]

  unfoldable pub add_tx : Mempool → ℤ → Bytes → Bytes → Mempool
  add_tx m height tx sender = record m {
    txs = m.txs ++ record { id = m.next_id; height = height; tx = tx; senders = sender ∷ [] } ∷ [];
    txs_map = (key tx, m.next_id) ∷ delete_key (key tx) m.txs_map;
    txs_bytes = m.txs_bytes + length tx;
    next_id = suc m.next_id;
  }

  unfoldable pub remove_tx : Mempool → Bytes → ℕ → Mempool
  unfolding delete_key remove_element
  remove_tx m tx i = record m {
    txs = remove_element i m.txs;
    txs_map = delete_key (key tx) m.txs_map;
    txs_bytes = m.txs_bytes - length tx;
    cache = remove (key tx) m.cache;
  }

  -- resCbFirstTime on a CheckTx response; `code_ok` says that its code is CodeTypeOK.
  unfoldable pub res_cb_first_time : Mempool → Bytes → Bytes → Bool → Option Mempool
  unfolding is_full add_tx notify
  res_cb_first_time m tx sender code_ok =
      if not code_ok
      then some (record m { cache = remove (key tx) m.cache })
      else if is_full m (length tx)
      then some (record m { cache = remove (key tx) m.cache })
      else notify (add_tx m m.height tx sender)

  -- reqResCb panics during a recheck.
  unfoldable pub req_res_cb : Mempool → Bytes → Bytes → Bool → Option Mempool
  unfolding res_cb_first_time
  req_res_cb m tx sender code_ok = elim m.recheck_cursor [
    | some _ ↦ none
    | none ↦ res_cb_first_time m tx sender code_ok
  ]

  -- globalCb and resCbRecheck; a cursor on an element that is gone keeps the removed element alive,
  -- which a history without such a removal does not reach (`none`).
  unfoldable pub global_cb : Mempool → Bytes → Bool → Option Mempool
  unfolding find_element same_element advance next_of remove_tx
  global_cb m tx code_ok = elim m.recheck_cursor [
    | none ↦ some m
    | some i ↦ elim (find_element i m.txs) [
      | none ↦ none
      | some e ↦
          if not (bytes_equal tx e.tx)
          then none
          else (let next = if same_element i m.recheck_end then none else next_of i m.txs in
              advance (if code_ok then m else remove_tx m tx i) next)
    ]
  ]

  -- for i, tx := range txs { … } of Update, with the codes of the delivered transactions.
  unfoldable pub commit_txs : Mempool → List (Bytes × Bool) → Mempool
  unfolding remove_tx
  commit_txs m [] = m
  commit_txs m ((tx, code_ok) ∷ txs) =
      let cached : Mempool = record m {
        cache = if code_ok then (push (key tx) m.cache).0 else remove (key tx) m.cache;
      } in
      commit_txs
        (elim (lookup (key tx) m.txs_map) [ none ↦ cached | some i ↦ remove_tx cached tx i ]) txs

  unfoldable pub update : Mempool → ℤ → List (Bytes × Bool) → Option (Bytes → Bool) → Option Mempool
  unfolding override commit_txs recheck_txs
  update m height txs filter = recheck_txs (
      commit_txs
        (record m { height = height; notified = false; pre_check = override filter m.pre_check })
        txs)

-- ReapMaxBytes: `proto_size` is ComputeProtoSizeForTxs, the generated size of a list of
-- transactions.
unfoldable pub reap_bytes : (List Bytes → ℤ) → ℤ → List Bytes → List Element → List Bytes
reap_bytes proto_size max_bytes txs [] = txs
reap_bytes proto_size max_bytes txs (e ∷ es) =
    let rest = reap_bytes proto_size max_bytes (txs ++ e.tx ∷ []) es in
    if not (ltb_ℤ max_bytes (pos 0)) && ltb_ℤ max_bytes (proto_size (txs ++ e.tx ∷ []))
    then txs
    else rest

unfoldable pub reap_max_bytes : (List Bytes → ℤ) → ℤ → Mempool → List Bytes
unfolding reap_bytes
reap_max_bytes proto_size max_bytes m = reap_bytes proto_size max_bytes [] m.txs

-- for e := …; e != nil && len(txs) <= max; …
unfoldable pub reap_txs : ℕ → List Bytes → List Element → List Bytes
reap_txs limit txs [] = txs
reap_txs limit txs (e ∷ es) =
    let rest = reap_txs limit (txs ++ e.tx ∷ []) es in if leb (length txs) limit then rest else txs

unfoldable pub reap_max_txs : ℤ → Mempool → List Bytes
unfolding reap_txs
reap_max_txs (pos n) m = reap_txs n [] m.txs
reap_max_txs (negsuc n) m = reap_txs (length m.txs) [] m.txs
