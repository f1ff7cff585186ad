-- ===== src/Lib.antt =====
-- duckdb-aws-glue: a DuckDB extension that attaches the AWS Glue Data Catalog as a database and reads and
-- writes the Hive tables in it.
--
-- The program and its parts. A table of Glue is fetched and projected to a GlueTableInfo
-- (src/core/glue_info.cpp). Its format is detected from its parameters and its storage descriptor
-- (src/core/glue_format.cpp), its column types are parsed from Hive type strings, and types of new columns are
-- printed as such (src/core/glue_types.cpp). The SerDe and its properties decide the options of the csv or json
-- reader (src/core/glue_info.cpp, src/core/readers/). The partitions of a table are listed, registered and deleted
-- in batches (src/api/glue_partition_api.cpp); glue_repair_table lists the files below the table's location, reads
-- partition values from their directories and registers the partitions that are missing
-- (src/functions/glue_repair_table.cpp). A query keeps the listings it asked for
-- (src/planning/hive_query_cache.cpp). CREATE TABLE makes a GlueTableInfo of the statement
-- (src/catalog/glue_schema_entry.cpp) and sends it to Glue (src/api/glue_table_api.cpp), and the entry of the table is
-- made of what Glue gives back. The names in the body of a view are qualified when it is stored and resolved when it is
-- read (src/catalog/glue_view_names.cpp). A transaction keeps what it found of tables and partitions, and the manager of
-- transactions the entries that a running one may still use (src/catalog/glue_transaction.cpp,
-- src/catalog/glue_transaction_manager.cpp).
--
-- Which file models which part:
--   Base: shared names; texts are lists of bytes; code that throws returns an Outcome.
--   DuckDb: what the extension calls of DuckDB's core (StringUtil, casts, limits) is not in this repository. It is
--     an instance argument, a record of operations with the documented behaviour relied on; DuckDb/Ascii is one
--     concrete instance.
--   Types: src/core/glue_types.cpp. Parser is GlueTypeParser (ParseType is parse_type, a text from the parser's
--     position on is its state), Printer is FromLogicalType, Columns has PartitionValue, SameColumnType and
--     CanReadPartitionTypeAs, and IsAllowedHiveTypeChange of src/catalog/glue_schema_entry.cpp. Equality of types
--     is DuckDB's, a record TypeEquality.
--   Table: Formats, Info, Delimiters, Checked and Codec are src/core/glue_info.cpp (and TryParseInteger and
--     TryFirstCharacter of src/core/helpers.cpp); CsvOptions and JsonOptions the readers' options;
--     TableFormat src/core/glue_format.cpp; Location src/core/hive_location.cpp; Alter the SET and RESET of table
--     properties (src/catalog/glue_schema_entry.cpp, src/api/glue_table_api.cpp).
--   Partitions: src/api/glue_partition_api.cpp. Service has what Glue documents of its batch requests, a record that
--     the theorems take; Delete, Create, Segments and Locate are BatchDeletePartitions, BatchCreatePartitions,
--     GetPartitions and PartitionLocations; Mismatch is FindColumnTypeMismatch of src/core/glue_info.cpp.
--   Repair: Directory is HivePartitionDirectory (src/core/hive_location.cpp) and ReadDiscoveredPartition, Apply is
--     GlueRepairTableApply (src/functions/glue_repair_table.cpp) and IsDataFile (src/planning/hive_multi_file_reader.cpp).
--   Transactions: Manager is src/catalog/glue_transaction_manager.cpp; Rollback, Entries and Metadata are
--     src/catalog/glue_transaction.cpp and src/include/catalog/glue_transaction.hpp: a transaction with the tables that
--     it created, the entries of a metadata cache, which readers find and load apart, and the caches of a connection.
--   Creation: CREATE TABLE of src/catalog/glue_schema_entry.cpp. Values and Options are ParseCreateTableOptions over the
--     values that DuckDB evaluates the options to, Bucketing is ResolveBucketing, Build is BuildTableInfo with
--     GetTableLocation of src/catalog/glue_catalog.cpp. Tables is CreateHiveTable of src/api/glue_table_api.cpp, with Objects
--     ToTableInfo of src/api/glue_api_util.cpp. Named and Asked say which option of a statement names a format or a
--     character, without the parser; Keys says which keys the parameters of a created table have, Maps what is found
--     in them; Glue itself is a record of what it documents: it gives a table back as it was created.
--   Views: Body is a query as DuckDB parses it; Walker, Names and Reading are src/catalog/glue_view_names.cpp, and
--     GetQuery of src/catalog/glue_view.cpp. Holds says what a predicate on all names of a body is, under SQL's scoping of
--     CTEs; Input and Collected are what a walk tells of the body that it was given, Visited, Total and Same what every
--     walk of a body does. What DuckDB knows of the catalogs and tables of a
--     session is a record that the definitions take.
--   Query: Listings is src/planning/hive_query_cache.cpp, NameFilter src/catalog/scan_filter_equality.cpp.
--   Tests: runs on concrete inputs, with concrete instances of the interfaces.
--
-- State and errors. An operation that changes the state of Glue or of a cache takes it and returns it, with an
-- Outcome, so that what was done before an exception stays done. The class of an exception is kept, its message is
-- not. Pauses between attempts, locks and the threads that fetch segments are not modelled.
--
-- Fuel. The type parser has as much fuel as the text is long: each level of nesting reads at least one byte. A batch
-- request has four attempts (PartitionLocations four after each that makes progress) and the batches as much fuel as
-- there are partitions. A chain of pages has the fuel that it is given, since only the server ends it.
-- `out_of_fuel` is an error of the model alone.
--
-- Not modelled: the calls of the AWS SDK and of HTTP, the lookups of the entry around CREATE TABLE, the sets of catalog
-- entries, the definition of a view entry, the serialization of the readers' options, the scan and its statistics,
-- inserts, the grammar, and binding of functions.
pub mod Base
pub mod DuckDb
pub mod Types
pub mod Table
pub mod Partitions
pub mod Repair
pub mod Query
pub mod Transactions
pub mod Views
pub mod Creation
pub mod Tests
