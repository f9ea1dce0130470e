-- ===== src/BlockPool/Books.antt =====
-- A requester that is written back keeps the invariant of the pool where the count covers it.
use bft.Base.{ℕ, ◌+◌, ◌≤◌, ◌≡◌, refl, some, List, arith, Bytes}
use bft.Base.Int.{ℤ, pos}
use bft.BlockPool.{Requester, BlockPool, at_height, put_height}
use bft.BlockPool.Heights.{
  put_height-IsRun, unfilled, count_unfilled, count_unfilled-put_height, length-put_height,
}
use bft.BlockPool.Invariant.{IsSound, IsPool}

module _ {Block : Type 0} (height_of : Block → ℤ) (Sent : Bytes → Block → Type 0) where
  -- A requester is written back with a new count of pending requests.
  pub rewritten :
      (h : ℤ) (r r' : Requester Block) (n : ℕ) (pool : BlockPool Block)
      → IsPool height_of Sent pool
      → at_height h pool.requesters ≡ some r
      → IsSound height_of Sent h r'
      → count_unfilled pool.requesters + unfilled r' ≤ n + unfilled r
      → IsPool height_of Sent
          (record pool { requesters = put_height h r' pool.requesters; num_pending = pos n })
  rewritten h r r' n pool v found sound cover = record {
    run =
        put_height-IsRun (IsSound height_of Sent) pool.height h r r' pool.requesters v.run found
          sound;
    counted =
        (n, refl, omega (arith, count_unfilled-put_height h r r' pool.requesters found, cover));
    bounded = omega (arith, length-put_height h r r' pool.requesters found, v.bounded);
    peers = v.peers;
  }

  -- The count as it stands.
  pub same_count :
      (rs : List (ℤ × Requester Block)) (pool : BlockPool Block) (n : ℕ)
      → pool.num_pending ≡ pos n
      → IsPool height_of Sent (record pool { requesters = rs; num_pending = pos n })
      → IsPool height_of Sent (record pool { requesters = rs })
  same_count rs pool n same v = record {
    run = v.run;
    counted = rw same v.counted;
    bounded = v.bounded;
    peers = v.peers;
  }
