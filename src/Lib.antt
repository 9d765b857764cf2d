-- ===== src/Lib.antt =====
-- A verification library of clove1db, a typed database over the engine redb (src/, in Rust).
--
-- The program keeps rows in tables of the engine. Every write transaction also appends the changes
-- it makes to a log, the journal, in the same transaction; consumers of the log (indexes among
-- them) read it in order and acknowledge what they have taken, and rows that all of them have
-- acknowledged are pruned, within a budget of bytes. A change of how a database is protected writes
-- new files beside the old ones and swaps them in, so that a crash at any moment leaves the old
-- database or the new one.
--
-- Files and the code they model:
--   Prelude.antt and its children: the shared names, Boolean tests, lists over the native numbers,
--     byte strings, `Result` with `ClError` (src/units.rs) and the engine's tables as interfaces.
--   Memory.antt: allocation that can be refused (src/memory.rs).
--   Journal.antt and its children: the journal (src/journal.rs). Row is `ChangeKind` with `encode`
--     and `decode`; Store the counters of `__seq`, `initialize` and the transaction; Prune is `prune`;
--     Retention is `prune_acked` and `enforce`; Append is `append_effects` and the part of
--     `write_with_sink` after the caller's closure (`finish_write`); Consumers is `register_consumer`,
--     `read_changes`, `ack` and `unregister_consumer`. Invariant says when a journal is well-formed:
--     rows numbered without gaps up to the head, their bytes accounted for, every active consumer
--     between the floor and the head.
--   Swap.antt and its children: src/migration/encrypted/marker.rs. Names is `check_targets`; Slot is
--     one target with the files at its names and the steps `aside`, `place`, `remove_old`, `restore`;
--     Disk is `begin_with`, `commit`, `swap`, `finish`, `roll_back`, `check_free` and `recover` on all
--     targets and markers. An operation is the list of the states on disk after each of its steps
--     (Trace), so that a crash is a state of the list. Overwriting a file and removing a folder go
--     through states that the file system chooses; they are parameters.
--   Base64.antt: src/field_crypto/b64.rs, with `|` of disjoint bits as a sum.
--   Geometry.antt: src/encrypted_store/layout.rs, without the bound of 64 bits on file lengths.
--   Backend.antt and its children: the layer that seals the pages of the engine into the blocks of a
--     file (src/encrypted_store/backend.rs). Blocks has the pages that wait in memory, their sealing
--     by several threads and the writes in runs (`stage_pages`, `seal_all`, `drain`, `write_blocks`);
--     Pieces the engine's header, kept apart (`write_header_range`, `load_header`); Calls the calls
--     `with_tuning`, `read`, `write`, `sync_data` and, in Growth, `set_len` with `fill`. The file below
--     and the cipher are interfaces (Storage, Aead); Concrete fills them with a file in memory and a
--     cipher that only tags. What the layer shows of a page is `page_now`.
--   Header.antt: src/encrypted_store/file_header.rs, with the random filler as a parameter.
--   Plan.antt: `resolve_plan` of src/migration/plan.rs, the types of src/migration/types.rs and
--     `assert_target_available` of src/migration/guard.rs.
--   IdContract.antt: src/id_contract.rs on the paths of src/fields.
--   LastWrite.antt: src/lastwrite.rs.
--   Values.antt, Decimal.antt, Codec.antt: `Value` of src/fields/ast.rs, and `Decimal::parse` and
--     `encode` of src/fields/codec.rs. What serde_json takes for a number is a parameter.
--   Sum.antt: `Accumulator` of src/query/sum.rs with `add`.
--   Unique.antt: src/unique.rs. What the path of a row holds and the JSON of a table and a number
--     are parameters.
--   RowEval.antt: `RowEvaluation`, `quantified` and `matches` of src/query/eval.rs over an
--     interface of row readers.
--
-- The engine is a parameter: its tables are records of operations with documented laws
-- (Prelude/Table.antt), and Prelude/Table/ListTables.antt fills them with lists. A transaction that
-- fails leaves no trace, so its operations return `Result`. The checks of unique keys and of row
-- identities and the last-write table are an interface of the commit path (`RowChecks`).
--
-- Bounds: the journal's numbers are 64 bits wide and checked as the code checks them. The loop of
-- `enforce` runs on fuel, one more than there are consumers, and is proved to end within it: every
-- round evicts an active consumer or moves one to the head. The walk through the quantifiers of a
-- path runs on fuel, the number of its steps, of which each quantifier takes one. A batch of pages is
-- cut on fuel, the number of its pages, and a file is filled on fuel, the number of the new blocks, of
-- which each round writes at least one.
--
-- One call of the layer of blocks runs at a time: a page that is written while a drain seals an older
-- copy of it is not part of the model, and neither are the nonces that threads draw in another order.
--
-- Not modelled: errors of the engine and of single file system calls, the threads of the index
-- worker, wall clock times, the encoding of consumers as JSON, the cryptographic primitives, and
-- the parts of the program that have no file above.
pub mod Prelude
pub mod Memory
pub mod Journal
pub mod Swap
pub mod Base64
pub mod Geometry
pub mod Plan
pub mod Header
pub mod IdContract
pub mod LastWrite
pub mod RowEval
pub mod Values
pub mod Decimal
pub mod Codec
pub mod Unique
pub mod Backend
pub mod Sum
