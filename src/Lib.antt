-- ===== src/Lib.antt =====
-- A model of the core of a Byzantine fault tolerant replication engine: the state machine of the
-- consensus, the data that the validators sign, count and hash, the signer that protects a
-- validator's key, and the pool of transactions. The state machine gathers the votes of a height into
-- vote sets, one for each round and type; a majority of prepares locks a block, named by the root of a
-- Merkle tree, and a majority of commits appends it. Votes come from the signer of each validator,
-- blocks are filled from the pool, and the validators of a height elect a primary that proposes. A node
-- that is behind fetches blocks from its peers and checks each by the votes in the next one.
--
-- Consensus   consensus/consensus_state.go: State is RoundState (consensus/round_state.go) and State,
--             Steps has enterNewRound to enterCommitWait, Append has enterReply to updateToState,
--             Messages has handleMsg, handleTimeout and handleTxsAvailable. Locks, StepLocks,
--             RoundLocks, AppendLocks and MessageLocks are proofs for Reach, whose runs are sequences
--             of inputs; Decided is about the append. Env is the interface to blocks
--             (types/block.go), the block executor (state/execution.go), the block store
--             (store/store.go) and the private validator.
-- BlockPool   blockchain/pool.go: the pool, with Routine for requestRoutine and the steps of all the
--             goroutines, and Sync for the verification of blocks in poolRoutine of
--             blockchain/reactor.go. Heights, Invariant, Books, Peers, Steps, Receive, Look, Redo and
--             Level are lemmas for Reach, Verified and Progress; Pick is about the choice of a
--             peer.
-- Ticker      consensus/ticker.go: timeout_routine is timeoutRoutine over what it receives, with the
--             sends in the order in which they are issued.
-- HeightVoteSet  consensus/height_vote_set.go: maps are functions. Claims is about SetPeerMaj23.
-- Reply       types/reply.go, with MakeReply of types/vote.go and VerifyReply of
--             types/validator_set.go.
-- PrePrepare  types/pre_prepare.go.
-- ValidatorSet  types/validator_set.go and diffHash of types/utils.go: updateWithChangeSet is
--             update_with_change_set, iterateToGetPrimary is iterate_to_get_primary.
--
-- Merkle      crypto/merkle: hash.go is Hash, getSplitPoint is Split.split, HashFromByteSlices and
--             its iterative form are Tree and Iterative, proof.go is Proof. SHA-256 is a parameter.
-- Bits        libs/bits/bit_array.go, words of 64 bits in Bits/Word.
-- BlockId     types/blockID.go, with PartSetHeader of types/part_set.go.
-- PartSet     types/part_set.go: Cut is NewPartSetFromData, AddPart is add_part, and the reader is the
--             list of bytes that reading it to the end gives.
-- Vote        the Vote of types/vote.go.
-- VoteSet     the VoteSet and blockVotes of types/vote.go. AddVote is add_vote, its checks are
--             add_vote_at and add_vote_of, addVerifiedVote is add_verified_vote in the parts
--             record_vote, tracked, add_to_block and reach_quorum. Tallies and Counts are about the
--             sums of the blocks, for History, whose runs start from NewVoteSet.
-- Validator   types/validator.go.
-- PrivValidator  types/priv_validator.go: CheckHRS is check_hrs, signVote and signProposal behind
--             their encoding are sign_request. Restart has histories in which the signer starts again
--             from its state file (saveSigned, Save and loadFilePV).
-- Mempool     mempool/clist_mempool.go: CheckTx is check_tx, the callbacks are res_cb_first_time,
--             req_res_cb and global_cb, Update is update; mapTxCache is TxCache. The list is
--             Elements, and History has the steps of a pool.
-- External    what the code takes from elsewhere: float64 with the laws used, and signature keys.
-- Base        shared names, lists, integers, byte strings and code that may panic; it models nothing.
-- Samples     what the examples share.
--
-- A panic and an index out of range are `none`, an error is a value. Numbers are unbounded where the
-- code compares and adds sizes, and 64-bit words are written out in Bits/Word. A loop is structural
-- recursion, or recursion on fuel: the halving of a list and the levels of the iterative hash get
-- the length, which is enough because each round has less to do; the merge of validators gets the
-- lengths of both lists, of which every round takes one element.
--
-- Not modelled: strings, JSON and protobuf copies, locks, channels, timers, the network and files, but the
-- signer's state; the start of the state machine, its write-ahead log and the replay of it, clock times, the reactor
-- that gossips votes, the trust metric, the messages of the fast sync and the stores. Each
-- mutex-guarded method is one step, and the event bus accepts every event.
pub mod Base
pub mod Merkle
pub mod Bits
pub mod External
pub mod BlockId
pub mod Vote
pub mod Validator
pub mod ValidatorSet
pub mod HeightVoteSet
pub mod PrePrepare
pub mod Reply
pub mod Consensus
pub mod Ticker
pub mod Samples
pub mod VoteSet
pub mod PartSet
pub mod PrivValidator
pub mod Mempool
pub mod BlockPool
