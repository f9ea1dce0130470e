-- ===== src/BlockPool/Progress.antt =====
-- The fast sync goes on: a pair of blocks that it holds is settled without a panic of the pool.
use bft.Base.{
  ◌≡◌, ◌≤◌, refl, sym, ap, subst, suc, Option, none, some, [], ◌∷◌, arith, Bytes, ◌∙◌, length, ◌==◌,
  if◌then◌else◌,
}
use bft.Base.Int.{ℤ, succ_ℤ}
use bft.VoteSet.{Context}
use bft.Reply.{VerifyError}
use bft.Consensus.State.{ChainState}
use bft.BlockPool.{
  BlockPool, Requester, at_height, pop_request, redo_request, remove_peer, delete_height,
}
use bft.BlockPool.Heights.{at_height_two}
use bft.BlockPool.Invariant.{IsSound, IsPool}
use bft.BlockPool.Steps.{redo_request-IsPool}
use bft.BlockPool.Level.{redo_request-Keeps, pop_request-height}
use bft.BlockPool.Sync.{
  SyncEnv, Sync, first_id, verify_first, redo_both, apply_first, settle_sync, Synced, stop_peers,
}
use bft.BlockPool.Verified.{Synced-IsSync}

module _ {Block : Type 0} where
  redo_request_total :
      (h : ℤ) (pool : BlockPool Block) (r : Requester Block)
      → at_height h pool.requesters ≡ some r
      → (pool' : BlockPool Block) × (id : Bytes) × (redo_request h pool ≡ some (pool', id))
  unfolding redo_request
  redo_request_total h pool r found = (
    if length r.peer_id == 0 then pool else remove_peer r.peer_id pool,
    r.peer_id,
    rw (found, redo_request) refl,
  )

  pop_request_total :
      (pool : BlockPool Block) (r : Requester Block)
      → at_height pool.height pool.requesters ≡ some r
      → (pool' : BlockPool Block) × (pop_request pool ≡ some pool')
  unfolding pop_request
  pop_request_total pool r found = (
    record pool {
      requesters = delete_height pool.height pool.requesters;
      height = succ_ℤ pool.height;
      stopped = r ∷ pool.stopped;
    },
    rw (found, pop_request) refl,
  )

module _ (C : Context) (E : SyncEnv C) (chain_id : Bytes) (start : ℤ) where
  -- What settling a pair does: a refused pair leaves the height and the applied blocks, an accepted
  -- one moves both on by one.
  abbrev pub IsSettled : Option (VerifyError C) → Sync C E → Sync C E → Type 0
  IsSettled (some e) s s' =
      (s'.pool.height ≡ s.pool.height) × (s'.applied ≡ s.applied) × (s'.state ≡ s.state)
  IsSettled none s s' =
      (s'.pool.height ≡ succ_ℤ s.pool.height) × (length s'.applied ≡ suc (length s.applied))

  module _ (Sent : Bytes → E.Block → Type 0) where
    -- The requesters of two neighbouring blocks.
    held :
        (pool : BlockPool E.Block) (first second : E.Block)
        → IsPool E.block_height Sent pool
        → E.block_height first ≡ pool.height
        → E.block_height second ≡ succ_ℤ pool.height
        → 2 ≤ length pool.requesters
        → ((r : Requester E.Block) × (at_height (E.block_height first) pool.requesters ≡ some r))
          × ((r : Requester E.Block) × (at_height (E.block_height second) pool.requesters ≡ some r))
    held pool first second v one two enough =
        let (here, there) =
          at_height_two (IsSound E.block_height Sent) pool.height pool.requesters v.run enough in
        (
          subst (λ h. (r : Requester E.Block) × (at_height h pool.requesters ≡ some r)) (sym one)
              here,
          subst (λ h. (r : Requester E.Block) × (at_height h pool.requesters ≡ some r)) (sym two)
              there,
        )

    -- In every run of the fast sync without a panic, where no peer has an empty ID: two blocks
    -- that poolRoutine holds are settled without a panic, whatever steps the pool has taken since
    -- it saw them, if VerifyReply does not panic and ApplyBlock takes a block that is accepted; an
    -- accepted block moves the height of the pool and the number of applied blocks on by one, and
    -- a refused one leaves the height, the applied blocks and the state.
    pub settle_sync_total :
        (state : ChainState C) (s : Sync C E) (first second : E.Block) (e : Option (VerifyError C))
        → ((b : E.Block) → ¬ Sent [] b)
        → Synced C E Sent chain_id start state s
        → s.peeked ≡ some (first, second)
        → verify_first C E chain_id s.state first second ≡ some e
        → (e ≡ none
            → (next : ChainState C) × (E.apply_block s.state (first_id C E first) first
                ≡ some next))
        → (s' : Sync C E) × (settle_sync C E chain_id s ≡ some s')
          × (s'.peeked ≡ none)
          × IsSettled e s s'
    unfolding settle_sync redo_both apply_first
    settle_sync_total state s first second (some bad) named r here found applies =
        let v = Synced-IsSync C E chain_id start Sent state s named r in
        let (one, two, enough) = v.peeked first second here in
        let ((r1, at1), _) = held s.pool first second v.books one two enough in
        let (pool, id, done) = redo_request_total (E.block_height first) s.pool r1 at1 in
        let (same, more) = redo_request-Keeps (E.block_height first) s.pool pool id done in
        let kept =
          redo_request-IsPool E.block_height Sent (E.block_height first) s.pool pool id v.books
            done in
        let (_, (r2, at2)) =
          held pool first second kept (one ∙ sym same) (two ∙ ap succ_ℤ (sym same))
            (omega (arith, enough, more)) in
        let (pool', id2, done') = redo_request_total (E.block_height second) pool r2 at2 in
        let (same', _) = redo_request-Keeps (E.block_height second) pool pool' id2 done' in
        (
          record s {
            pool = pool';
            peeked = none;
            stopped_peers = stop_peers C E id id2 s.stopped_peers;
          },
          ground (arith, here, found, done, done'),
          refl,
          (same' ∙ same, refl, refl),
        )
    settle_sync_total state s first second none named r here found applies =
        let v = Synced-IsSync C E chain_id start Sent state s named r in
        let (one, two, enough) = v.peeked first second here in
        let ((r1, at1), _) = held s.pool first second v.books one two enough in
        let at : at_height s.pool.height s.pool.requesters ≡ some r1 =
          ap (λ h. at_height h s.pool.requesters) (sym one) ∙ at1 in
        let (pool, popped) = pop_request_total s.pool r1 at in
        let (next, done) = applies refl in
        (
          record s {
            pool = pool;
            state = next;
            peeked = none;
            applied =
                record {
                  state = s.state;
                  block_id = first_id C E first;
                  block = first;
                  parts = E.make_part_set first;
                  reply = E.last_reply second;
                }
                ∷ s.applied;
            blocks_synced = suc s.blocks_synced;
          },
          ground (arith, here, found, popped, done),
          refl,
          (pop_request-height s.pool pool popped, refl),
        )
