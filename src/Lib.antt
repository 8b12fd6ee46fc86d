-- ===== src/Lib.antt =====
-- orm-glib is an object-relational mapper on GLib: values and rows, connections to SQLite,
-- PostgreSQL and MySQL through drivers, transactions, sessions with an identity map, and a
-- migrator that brings a schema to a version. This library models the parts that keep state and
-- proves what each of them promises. The paths below are those under src/ of the repository.
--
-- Base holds the shared names: Boolean tests, lists over native numbers, integers (ℤ for gint64,
-- whose overflow no modelled operation reaches) and C strings as lists of byte codes. Glib holds
-- GHashTable as an interface with its documented laws, which an association list meets. No table's
-- order is fixed.
--
-- Core models core/: Value is OrmValue with orm_value_compare and orm_value_equal, Error is
-- OrmError, and Platform is what the code takes from C and GLib (doubles, strcmp, GBytes,
-- GDateTime), with the documented behaviour as PlatformLaws.
--
-- Engine models engine/: Row (orm-row.c), Driver (driver/orm-driver-connection.h as a parameter,
-- since its functions end in a client library), Connection (the synchronous part of
-- orm-connection.c), Transaction (orm-transaction.c with the two ways to begin), Async (the life
-- of one asynchronous operation of orm-connection.c, as steps of the threads that race for its
-- task, in any interleaving), Worker (orm-worker.c: the queue and the thread that takes jobs from
-- it; a job is what it does to the state that only this thread touches), Result (orm-result.c,
-- whose loop over the rows takes fuel: a turn for each row and one more), RowStream
-- (orm-row-stream.c, whose fetches are such jobs) and Url (the URL of orm-engine.c, with both
-- network backends compiled in; percent-decoding is a parameter, and strchr, strstr and
-- g_ascii_strtoll are written out). An access of what threads share, an atomic exchange and a call
-- of the driver are one step each. GCancellable is as documented: its flag is set once, it runs a
-- connected handler once, connecting to one that is cancelled runs the handler at once, and
-- disconnecting waits for a handler that is running. A call gives the connection back with a
-- Status. A function that fails by g_return_val_if_fail sets no error. What a task is returned
-- with is what the g_task_return_* calls hand to it; that g_task_propagate_* may answer a
-- cancellation in place of it is not looked at.
--
-- Export models export/: Csv (orm-csv-exporter.c, with a reader of RFC 4180 of its own in
-- Csv/Reader), Json (orm-json-exporter.c, with a reader of RFC 8259 of its own in Json/Reader),
-- Formats (what both take from GLib) and Exporter (orm-exporter.c: a result written to a stream
-- that may refuse a write, under a cancellable that may be cancelled).
--
-- Orm models orm/: IdentityMap (orm-identity-map.c) with the address of each key, so that a key
-- that was freed and is read afterwards shows as `faulted`; Property and Mapper (orm-property.c,
-- orm-mapper.c), as far as the session needs them; and Session (orm-session.c), with Sql for the
-- statements, Flush for the loops and the ends of a unit of work (Sends for the statements that
-- they send), and Access for get and refresh. Query is orm-query.c, whose session is an argument,
-- with its text in Query/Sql. A table is iterated over the list of its keys, from which a loop
-- only removes the current one. The properties of the objects are a store that is read and written
-- through parameters, since GObject and the user's classes do it; a NULL pointer among the
-- parameters of a statement is bound as NULL.
--
-- Sql models sql/: Literal (orm-literal.c, as text without a list of parameters), Binary
-- (orm-binary-expression.c, with the text of nested comparisons as words in Binary/Words) and
-- Statement (orm-select.c, orm-insert.c, orm-update.c and orm-delete.c: Build for the functions
-- that build a statement, Compile for its text with the values that are bound; an expression of
-- another class is compiled by a parameter). Dialect models how dialect/orm-dialect.c quotes names
-- and strings, beside the function of sql/ with the same task, and Ddl the DDL compilers of the
-- three dialects, with how a database goes through a statement in Ddl/Reader. Schema models
-- schema/ and types/: what the compilers read of a table, Types for the names of the types, and
-- Metadata (orm-metadata.c, with create_all and drop_all of orm-engine.c). How a database reads a
-- literal, and what it computes of an expression, are definitions of their own: read_string,
-- read_hex and Semantics.
--
-- Migration models migration/orm-migrator.c: History (the migrations and the bookkeeping table),
-- Migrator (the locks), Loop (a round for each migration) and Run (`run` with its label `out`,
-- behind orm_migrator_status, orm_migrator_up and orm_migrator_down). The endless loop takes fuel:
-- a round for each migration and one more, which is enough since each round moves the history by
-- one towards the target. Database states what SQLite and PostgreSQL document about the statements
-- that are sent, where the statement that sets the busy timeout back is followed by a number in
-- decimal, as the code prints it; MySQL, which commits at every DDL statement, does not meet these
-- laws, and only the results that hold for any driver cover it.
--
-- Not modelled: the _async and _finish wrappers around the jobs, the signals, the drivers and
-- their registry, the inspector (inspect/), whose functions are mostly the text of queries on the
-- catalogues, the setters of schema/, the compilers of types in dialect/, relationships, and the
-- conversions of GValue and JSON in orm-serializable.c. The allocation of memory does not fail.
pub mod Base
pub mod Export
pub mod Glib
pub mod Core
pub mod Engine
pub mod Dialect
pub mod Orm
pub mod Schema
pub mod Migration
pub mod Sql
