-- ===== src/Lib.antt =====
-- Verification of the VeChain Thor node: its JavaScript tracers and parts of its consensus core.
--
-- The tracers (Tracer) are the scripts of tracers/js/internal/tracers. The node executes a
-- transaction again and calls `step` of a script for each instruction, with a `log` object that
-- tracers/js/goja.go builds; at the end it calls `result`. Tracer.Log is that object (the
-- operand stack with its top first, the memory with its zero padding and its limit) and `run`
-- the calls of a trace. Tracer.Hist is the object `hist` of the counting scripts;
-- Tracer.Opcount, Unigram, Bigram and Trigram are one script each, its object a record and its
-- methods functions. Tracer.Evmdis is evmdis_tracer.js. A JavaScript object that the script
-- shares is an entry of a heap, referred to by its index; a property that may be missing is a
-- `Slot`, and an exception of the script is `none`. The big integers of a stack word are
-- numbers, and their text is a parameter. Evmdis/Table is the table of results by instruction,
-- Evmdis/Valid the invariant, Evmdis/Heap, Links and Keeps its proof, Evmdis/Operands the
-- operands of each instruction, Evmdis/Total and Records what follows.
--
-- Block proposal is in Poa and Block: Poa.Proposer and Poa.SchedulerV2 are poa/proposer.go and
-- poa/sched_v2.go, Poa.SchedulerV1 is poa/sched.go, Poa.Slots the time slots of both schedulers,
-- Block.GasLimit is block/gas_limit.go with Block.Signed for int64. The hash of an address and
-- sort.Slice are parameters. The search of the second scheduler makes one round for each address
-- of the shuffled list, after which the source panics; that of the first has no bound in the
-- source and runs on rounds here, one for each slot up to the one it finds.
-- Poa.Scheduler is the interface of the two, with the operations of each as its fields and the
-- choice between them by the fork VIP214; Scheduler/LawsV1, LawsV2 and Laws say what its clients
-- rely on. The hashes, sort.Slice and the seed of an epoch are arguments.
--
-- Finality is in Bft: Bft.Rounds has the checkpoints of bft/engine.go, Bft.Justifier is
-- bft/justifier.go, Bft.Walk the loop of `computeState` and Bft.Engine the engine with its
-- caches. `add_block` changes the record of a justifier, as the source does by its pointer: the
-- engine takes a cached justifier out of the cache before it votes, so nothing else holds it.
-- The loop runs on the number of the header and one more rounds: each round goes to a parent,
-- whose number is one less, and the loop ends at a number that is given. The repository
-- (chain/repository.go) and the parameter max-block-proposers are the record `Repo` of
-- functions, with the laws of a tree of blocks, `IsTree`, where a theorem needs them. The caches
-- are maps without a bound; the LRU caches of the source drop entries, which only makes a hit a
-- miss.
--
-- Bft.Search is the search of bft/engine.go for the checkpoint of a quality, Bft.Finality the rest
-- of the engine (CommitBlock, Justified, Accepts, Select) with its store and the cache of the
-- justified checkpoint, Bft.Casts is bft/casts.go and `ShouldVote`. sort.Search, sort.Slice and the
-- scan of the heads of the repository are parameters; what the search promises is the law
-- `IsSearch` of Go's documentation. The walk back from a head runs on its number and one more
-- rounds. The store of the engine does not fail, and `HasBlock` takes a missing block as false.
--
-- StackedMap is stackedmap/stackedmap.go, the snapshots below state/state.go: levels and
-- revisions are lists with the top first, a panic is `none`, and `PopTo` makes at most one round
-- for each level. StackedMap/Revisions is about the stacks of revisions, Refines specifies
-- `Get`, Changes has the other operations, Revert the return to a snapshot, Journal and Replay
-- the journal.
--
-- TxPool.ObjectMap is txpool/tx_object_map.go: two maps of transactions, the quota of accounts
-- and their pending cost. Amounts has what one transaction adds, Counted the invariant, Limits
-- the limit of `Add`. The balance check of `Add` is a parameter. An object is a value, although
-- the pool shares it by pointer and sets its payer and cost when it becomes executable.
--
-- Builtin.Authority is builtin/authority: the candidates for block proposers as a doubly linked
-- list in the storage of a contract. A slot that was never written reads as an empty entry, and
-- storage does not fail. The loops over the list have a number of steps; the list that the
-- storage stands for is at most that long where it matters. Authority/Segments is about linked
-- lists, Listing what the storage stands for, Adding, Relinked, Revoking, Updating and Picking
-- the operations.
--
-- LogDb.Sequence is logdb/sequence.go; its masks, shifts and joins of bits are in LogDb.Bits.
--
-- The pages of the API are in Docs: Docs.Swagger and Docs.Stoplight are the window observers of
-- api/doc/swagger-ui and api/doc/stoplight-ui, callbacks on the document. The functions of the
-- browser that they call are the record `Dom` of Docs.Dom, with what a removal does as named
-- hypotheses.
--
-- Poa.Candidates is poa/candidates.go, the candidates that the validation of blocks keeps in
-- memory: the slice that copies share is an index into the slices made so far. Packer and
-- Consensus hold the proposers that packer/packer.go and consensus/validator.go take from the
-- authority contract, the latter where no candidates are cached. Packer also has the turn that
-- `Schedule` gives a packer and the updates of the authority contract it makes, Packer.Pack the
-- gas limit of the new block and the header that `Pack` builds; signing and the proof of the VRF
-- are parameters. Packer.Adopt is the adoption of transactions, the loop of
-- cmd/thor/node/packer_loop.go that offers them, and the block built of them; Adopt/Offered is the
-- induction along that loop, Adopt/Limit about gas.
--
-- Consensus.Headers is `validateBlockHeader`, with a verdict for each of its errors; the
-- verification of a VRF proof is a parameter, and a byte a number. Consensus.Turn is
-- `validateProposer`, whose verdict `panicked` stands for a panic of the cached candidates.
-- Consensus.Body is `validateBlockBody` and `verifyBlock`: Body/Adopted follows the latter along
-- the transactions that a packer adopted, Body/Packed is about the block built of them.
-- Runtime has what both sides use of runtime/runtime.go, state/state.go and chain/chain.go: the
-- execution of a transaction, snapshots, the staging of a state and the transactions of a chain are
-- functions of a record, and `IsRuntime` says when two states behave alike. The root hashes of
-- transactions and receipts are parameters too.
--
-- Comm.Sync is the search of comm/sync.go for the last block in common with a peer. What the
-- peer and the repository answer is a function of the number, `none` an error. Each of its loops
-- leaves fewer of the numbers up to the head, and has one round more than there are.
--
-- Tx.Gas is the intrinsic gas of tx/transaction.go with the clauses of tx/clause.go, the checked
-- sums and products of go-ethereum and the params of its gas table being parameters.
-- Tx.Reserved is tx/reserved.go, where the RLP of a number is a parameter. Tx.Body has the fields
-- of a transaction and of a receipt that the packer and the validation read, with the tests for
-- expiration and features.
--
-- Thor has the constants of thor/params.go. Prelude passes library names on and holds Boolean
-- tests, lists by native numbers, association lists for maps, and chains of steps that may fail.
-- A uint64 or uint32 is a number with `% 2 ^ w` written out where the source may wrap. Tests
-- runs the models on concrete inputs and applies each theorem that has hypotheses.
--
-- Not modelled: storage, the rest of networking, the HTTP interface and commands (input and
-- output); the interpreter of the EVM, the trie and the native tracers (copies of go-ethereum);
-- signatures, hashes, RLP and LRU caches (third-party libraries); the identity, work and prices of
-- a transaction, the loops of the pool, the accounts of the state, energy, the other built-in
-- contracts and what the execution of a transaction does with them; the events of the authority
-- contract behind a block; the minified assets of the API pages.
pub mod Prelude
pub mod Tracer
pub mod Thor
pub mod Block
pub mod Poa
pub mod Bft
pub mod StackedMap
pub mod TxPool
pub mod Docs
pub mod LogDb
pub mod Builtin
pub mod Packer
pub mod Consensus
pub mod Comm
pub mod Tx
pub mod Runtime
mod Tests
