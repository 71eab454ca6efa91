-- ===== src/Lib.antt =====
-- RustyDB is a key-value store and a small SQL database that share one server. This library
-- models the two storage engines and the language core of the SQL engine.
--
-- The key-value store (src/kvstore.rs) keeps a map in memory and hands each change to the
-- persistence manager (src/persistence.rs), which appends a checksummed JSON record to
-- rustydb.wal and, on request, publishes a snapshot to rustydb.db and archives the log. Opening a
-- directory replays the snapshot and then the log.
--
-- The SQL database (src/sql/database.rs) keeps a catalog of tables with a version. A statement is
-- parsed (src/sql/parser.rs), optimized (src/sql/planner.rs), kept in a cache of plans, and
-- executed on a copy of the catalog (src/sql/executor.rs). A commit appends one record, with the
-- version it started from and the version it makes, to sql_wal.log; a checkpoint writes
-- catalog.json and archives the log. Sessions add transactions with optimistic concurrency: a
-- commit fails when the version has moved since BEGIN.
--
-- Kv.Persistence: the records, the log, its recovery, sequence numbers and the queue of
-- `log_operation_async`. Kv.Snapshot: `create_snapshot` with each of its file operations free to
-- fail. Kv.Store: the methods of `KVStore`. The other modules of Kv hold the theorems: Replay and
-- Durability carry the invariant, CrashSafety the snapshot, Service the sequences of commands,
-- Faults and Sequence the rest.
--
-- Sql.Number, Sql.Types, Sql.Expr and Sql.Statement: src/sql/types.rs and the statements of
-- src/sql/parser.rs. An i64 is an integer whose operations wrap at 2 ^ 64, an f64 is its bit
-- pattern.
--
-- Sql.Fold: `fold_expr` and `optimize_query` of src/sql/planner.rs, with what a panic leaves as
-- an error. Sql.Operators, Sql.Aggregate and Sql.Eval: `eval_expr` of src/sql/executor.rs.
-- Sql.Fold.Foldable and Sql.Fold.Sound relate the two and Sql.Fold.Faults shows where they
-- differ. Sql.Like and Sql.InList: LIKE and IN. Sql.Parameters and Sql.Prepared: the parameters
-- of prepared statements; Sql.Leaves writes down the leaves of a statement on its own, and
-- Sql.Binding and Sql.Prepared.Placed compare.
--
-- Table.Schema, Table.Keys, Table.Bloom, Table.Index and Table.Store: the tables of
-- src/sql/executor.rs, their B-tree indexes with a Bloom filter in front, and the changes of one
-- row. A B-tree map is a list of its entries and a set a list of its elements, since their order
-- is not looked at; `binary_search` on the row IDs is the position of an ID, since the IDs
-- increase. Table.Indexed carries the invariant that each index holds the IDs of the rows under
-- their keys, its children that the operations keep it, Table.Conflicts is about unique keys.
-- Table.Scan: the rows that an index leaves for a selection; its children compare them with a
-- scan of the table.
--
-- Table.Validate, Table.Insert, Table.Change, Table.Automatic and Table.Ddl: the checks of the
-- catalog and the statements INSERT, UPDATE, DELETE, CREATE and DROP. Tables are visited in the
-- order of a list. Table.Declared, Table.Unique and Table.Sound are about the state that they
-- leave; Table.Faults shows where an index answers otherwise than the condition it serves.
--
-- Select.Join, Select.Project, Select.Order and Select.Execute: the execution of queries in
-- src/sql/executor.rs. The table of hashes of a join is the positions of the rows with a key;
-- groups are a list that is sorted by the keys. Select.Join.Keys, Select.Join.Hash and
-- Select.Join.Equivalence compare the two joins, Select.Keys and Select.Distinct are about the
-- keys of rows and the rows that DISTINCT leaves, and the children of Select.Execute about its
-- recursion. The texts of numbers in keys are the record `Printing`.
--
-- Db.Catalog and Db.Log: `execute_catalog`, the log records and `replay_wal`. Db.PlanCache,
-- Db.Database, Db.Session and Db.Session.Execute: the cache of plans, commits and snapshots, and
-- the sessions. Db.System puts several sessions on one database, one call after the other, as the
-- locks order them. Db.Durable, Db.Runs, Db.Commit, Db.Autocommit, Db.Linked, Db.Calls and
-- Db.Serializable lead to the theorem on interleavings; Db.Plans is about the cache and Db.Faults
-- about failures.
--
-- Wire.Bytes, Wire.Lenenc and Wire.Handshake: the integers and texts of the MySQL protocol and
-- the handshake of a client (src/wire/protocol.rs); Wire.Utf8 is `from_utf8_lossy` of the
-- standard library. A reader takes the bytes from its position on, and a text is its bytes.
--
-- Parameters stand for what is not in the repository and, in Db, for the executor's effect on
-- tables. JSON and the checksum are records of functions (`Codec`), whose laws say that what was
-- printed is read back; in Db, for the statements and tables whose floats JSON keeps. The
-- arithmetic of f64 and Unicode lower case are the record `Runtime`. The sizes of a Bloom filter,
-- which are computed in floating point, the debug format of a key and the display of a value are
-- the record `IndexRuntime`. The statements on tables take the execution of a query as a
-- function. In Db the effect of a statement on the tables, their validation,
-- `Catalog::from_tables`, the parser and the optimizer are the record `Engine`; its laws say that
-- a statement that does not write leaves the tables. Db.Executor fills it with
-- `execute_statement`, `validate_catalog` and `Catalog::from_tables` on the tables of Table, with
-- ALTER TABLE, EXPLAIN, the wording of errors, the parser and the optimizer as parameters, and
-- Db.Committed runs two sessions on it. The outcome of each write and of each step of a snapshot
-- is an argument of the operation.
--
-- Bounds: sequence numbers and versions are u64; their increments wrap or saturate as in the
-- code, and the theorems that need it ask for a number below the limit. Definitions are by
-- structural recursion, but for `execute_query`, whose fuel is the depth of queries: the number
-- of queries in the query, `in_query`, is enough.
--
-- Not modelled: ALTER TABLE, EXPLAIN, the conversion from the tree of the sqlparser crate, the
-- packets of the server and the connections of the wire protocol, backups, the HTTP server and
-- the command line. Locks are taken as making calls follow one another, and a panic while a lock
-- is held is not followed further. `sort_by` stands as a sort by insertion, without its panic on
-- an order that is not one. A write to a log that fails within a line is followed by the outcome
-- `joined`, which no theorem on successful writes allows. The cache of subqueries is left out,
-- since the catalog does not change while a statement runs. `fold_expr` is modelled with its
-- panics; in Db the optimizer is a function, for the statements on which it does not panic.
pub mod Prelude
pub mod Kv
pub mod Sql
pub mod Table
pub mod Select
pub mod Db
pub mod Wire
