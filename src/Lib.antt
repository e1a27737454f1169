-- ===== src/Lib.antt =====
-- mjoy-go: the account state of a block in progress, the messages that change it, and the pool of
-- transactions that wait for a block. The comments of the other files leave out the src/mjoy.io/
-- at the front of a path.
--
-- Parts and files
--
-- * State (src/mjoy.io/core/state). Types holds the records `StateDB`, `stateObject` and
--   `Account` and the eleven entries of the journal. Object has the methods of state_object.go,
--   Db those of statedb.go, Journal the undo methods of journal.go with Snapshot and
--   RevertToSnapshot, Managed managed_state.go, which Nonces, Taken, Reserved and Managing are
--   about, Final DeleteSuicides, Reset and GetCodeSize, Finish updateRoot, Finalise and
--   IntermediateRoot, Commit CommitTo and Copy. A method keeps its Go name in snake case. A
--   method of an object takes the object and the database and puts the object back (`save`),
--   which is what the shared pointer does in Go; `armed` stands for a callback onDirty that is
--   not nil. View defines what a state shows: a table of accounts (`Abstract.look`), the refund,
--   the logs and the preimages, whatever is cached. Spec says what each journal entry does to the
--   table, Effects and Refinement what each operation does; Undo, Undoable, Setters, Objects,
--   Operations, Reads and Ops prove the methods against these; Undone has what the undo methods
--   leave, Revisions and Since what snapshots and reverts within a snapshot keep, Revert the
--   snapshots, and Getters the answers. Storage, Settling, Finalise, Reopen, Saving, Committed
--   and Copies are about the end of a block, for tries that keep what they are told (`Faithful`,
--   `Retentive`). Valid is the invariant: an object stands at its own address, a deleted one is
--   not in the trie, and the number of logs is below 2 ^ 64.
-- * Processor (src/mjoy.io/core/stateprocessor). Transition has TransitionDb (statetransition.go)
--   with preCheck, from, the fee and the transfer; it calls State through Db and Journal. Ledger,
--   Payment, Outcome and Verdict say what a message moves and how it ends. Block has Process and
--   ApplyTransaction (stateprocessor.go); Steady, Writes, Kept, Settled, Rounds and Ended show
--   that a transaction leaves what the next one relies on, Replay has the reference, a book of
--   balances and nonces, and Followed, Processed and Supply prove a block against it.
-- * Bloom (src/mjoy.io/utils/bloom). Filter has CreateBloom and BloomLookup (bloom.go), which
--   Block calls, Bits and Lookup their proofs. Generator has NewGenerator, AddBloom and Bitset
--   (generator.go); Rows, Turned and Rotation prove that they turn the columns into rows.
-- * Pool (src/mjoy.io/core/txprocessor). Sorted has the order by nonce, SortedMap the methods of
--   `txSortedMap`, TxList those of `txList` (tx_list.go), TxPool and Moves those of `TxPool`
--   (tx_pool.go), which use State.Managed for the pending nonces and State.Db for the current
--   state. Contents, Fronts, Changes, Sweeps, Limits, Costs, Lowest, Budget and Removal prove the
--   lists against one list in the order of the nonces; Validation has validateTx, Admission add,
--   Queueing enqueueTx, Demotion demoteUnexecutables and Losses removeTx.
-- * Trie (src/mjoy.io/trie). Encoding has the three encodings of keys (encoding.go), Nibbles,
--   Prefix and Bytes their proofs. Node has the nodes (node.go), Walk tryGet and resolveHash,
--   Change insert and delete, and Handle the record `Trie` with New, TryGet, TryUpdate and
--   TryDelete (trie.go). Find is the reference: a trie read one nibble at a time, and what a node
--   in its place is. Keys, Short, Kids, Ends, Forks, Branch, Loaded, Lone, Merge and Alike have
--   the lemmas on keys, nodes and children; Grow and Insert, Shrink, Reduce and Delete, and Get
--   prove the three recursions against Find; Contents, Updates and Fuel have what follows for a
--   `Trie`.
-- * Bitutil (src/mjoy.io/common/bitutil). Compress has CompressBytes and DecompressBytes
--   (compress.go); Bits, Spread, Bitset, Roundtrip and Compressed prove that they undo each
--   other, Sized how decompression ends.
-- * Base has what the parts share: Boolean tests, lists measured by native numbers, maps as
--   association lists, and integers.
--
-- How the code is rendered
--
-- Addresses, hashes and errors are numbers, which the code only compares. A uint64 is a number
-- with its sums taken modulo 2 ^ 64; a big.Int is an integer. A Go map is an association list, in
-- one of the orders in which range may visit it. A panic is `none`, or the outcome `panic`. All
-- loops are structural recursion, but for the recursions of the trie and of the compression. In
-- the trie, any step may load a node of the database: it runs on fuel, two calls for each nibble
-- of the key and two more, and Fuel shows that this is enough. The database of a trie is a
-- function from hashes to decoded nodes. The record Tries holds the writes of the tries that
-- State makes, with their errors. The record Env holds what State takes from elsewhere: hashes,
-- the reads of the storage tries and of contract code. container/heap and sort are taken by what
-- they promise: the index of a `txSortedMap` is kept sorted, and a nonce of the index that has no
-- item would be left out, which the invariant excludes. Locks, logging, metrics and events to
-- other goroutines are left out; what is sent or journaled by the pool is kept in lists.
--
-- Not modelled: hashing, committing, iterating and proving tries, the evictions at the end of
-- promoteExecutables, the pool's reset on a new head, the chain, the network and the node.
pub mod Base
pub mod State
pub mod Processor
pub mod Pool
pub mod Trie
pub mod Bitutil
pub mod Bloom
