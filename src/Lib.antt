-- ===== src/Lib.antt =====
-- A model of the ducklake SDK (crates/ducklake), a client of the DuckLake catalog format, and of what
-- makes its transactions correct.
--
-- The parts. A transaction queues changes against a catalog that it holds in memory. On commit,
-- a change set keeps the changes that matter; a commit state hands out the IDs of new entities; the
-- changes are written with a new snapshot and a text that records them for other writers. If another
-- writer was first, the database refuses the snapshot; the recorded changes of the snapshots in
-- between are read and checked for conflicts, and the commit is tried again.
--
-- - Common: tests, lists, integers with the wrap-around of `i64` in release builds, text as lists of
--   Unicode scalar values, decimal numbers, results (crates/ducklake/src/error.rs), `unique_by` of
--   itertools, hash maps and index maps as association lists, and code that keeps its state on errors.
-- - Typedefs: crates/ducklake/src/typedefs, io/path.rs (with the url crate as a parameter) and
--   utils/identifier.rs. Names are read by `parse_identifier` through the regular expressions of the
--   source, in Typedefs.Identifier. The regex crate is the parameter `RegexCrate` of Typedefs.Regex:
--   what its documentation says of matching, as a backtracking search.
-- - Spec, Caches: the rows of spec/entities.rs that a commit writes; the counters of a snapshot and
--   the statistics of caches/table_stats.rs.
-- - Primitives, View: `iter_vec_diff` of primitives/diff_iterator.rs, and `parse_select_query` of
--   view/sql.rs with the SQL parser as a parameter.
-- - Catalog: catalog/arena.rs, the entities of catalog/typedefs, and the lookup of schemas by ID and of
--   schemas, tables, views and macros by name. Catalog.Operations has the operations of catalog/mod.rs
--   and catalog/views that add, rename and delete entities, Catalog.Operations.Named the invariant on
--   their names. Catalog.Columns is catalog/typedefs/columns.rs, with a reference for the adding of
--   columns in Reference and the order of columns and their children in Downward; Catalog.Layout is
--   catalog/typedefs/partition.rs and sort.rs; Catalog.TableUpdates and TableReads are what
--   catalog/views does to one table.
-- - Transaction.Handles: the transaction of transaction/mod.rs with its guard, and the operations of
--   transaction/schema.rs, table.rs, view.rs and macro_.rs on it. Session runs a list of them, where a
--   call that fails is followed by the next.
-- - Transaction.Change, Transaction.ChangeSet: transaction/changes/change.rs. Cancel describes which
--   changes a set drops, Exact relates it to `ChangeSet::new`.
-- - Transaction.CommitState, Transaction.Record: transaction/commit_state.rs and the methods of
--   change.rs that ask it for IDs. A panic is `none`, or the error `panicked`.
-- - Transaction.Executors.TableWrite, Transaction.Executors.InlineWrite: `write_table_data` and
--   `write_table_inline_data` of transaction/executors/table_write.rs with the rows of
--   transaction/transaction_changes.rs that they collect. Values of columns are a type with
--   its comparison; the order of typedefs/value is not modelled.
-- - Transaction.Attempt, Transaction.Commit: `apply_changes`, `finalize_commit` and `commit` of
--   transaction/mod.rs. The database, the caches and the collection of rows by the executors are the
--   record `World`, a function of the number of the attempt. The loop is recursion on the attempts
--   that are left, eleven at the start as in the source.
-- - Transaction.Applied: transaction/changes/applied_change.rs. Footprint is an independent
--   description of the conflict matrix, Resolution relates the code to it.
-- - Tests: runs on small inputs.
--
-- Bounds: numbers are printed with at most twenty digits, which every 64-bit number has at most. The
-- IDs of a commit wrap at 2 ^ 63 like those of the source, and what needs them not to says so. Walks
-- from a column to those below it have one more step than the table has columns, and a change of a type
-- one more than the new type has columns: both go down a level with each step.
--
-- Not modelled: SQL and the database, Arrow, Parquet and object stores, the executors other than the
-- writing of data files and inline data, `create_macro` and the writing of data through a table handle,
-- the loading of a catalog from the database, maintenance, and the Python bindings. Times and the
-- author's words of a snapshot are left out, since nothing depends on them.
pub mod Common
pub mod Primitives
pub mod Typedefs
pub mod Spec
pub mod Caches
pub mod Catalog
pub mod View
pub mod Transaction
pub mod Tests
