-- ===== src/Lib.antt =====
-- The DuckDB extension for Coda documents: a document is attached as a database whose tables are
-- the tables of the document. DuckDB calls the C++ side (src/cpp, src/include); it calls the Rust
-- side (src/*.rs) through the C functions of src/include/rust_bridge_extension.h, which sends the
-- requests to the API.
--
-- A scan goes through src/cpp/rust_bridge_scan.cpp, which asks src/client.rs for batches, which asks
-- the API for pages. A write goes from the catalog's plan (src/cpp/storage/rust_bridge_catalog.cpp)
-- to an operator (rust_bridge_dml.cpp), which hands each chunk to src/cpp/rust_bridge_client.cpp,
-- which hands arrays of values to src/mutation.rs, which sends the requests by src/sdk.rs. The
-- transaction manager (rust_bridge_transaction_manager.cpp) only keeps whether a transaction has
-- written, to refuse its rollback. An ATTACH resolves its options and secrets (src/attach.rs, through
-- callbacks of src/cpp/rust_bridge_storage.cpp), loads the tables and their columns (src/client.rs,
-- src/json.rs) and keeps them by name; the secrets are of a type that the loading of the extension
-- registers (src/cpp/rust_bridge_extension.cpp).
--
-- The files:
--   Prelude: shared names, lists over the native numbers, results and outcomes of calls.
--   Text: strings as lists of bytes, with the searches and comparisons that the code uses.
--   Abi: the structs and constants of src/include/rust_bridge_extension.h.
--   Messages: the messages, flags and labels of src/exports.rs.
--   Strings: the allocation, reading and release of the strings and errors that cross the boundary.
--   Duckdb: what is used of DuckDB, a parameter of the model.
--   Platform: what is used of serde_json, of the SDK that builds requests and of the HTTP client, a
--     parameter too, with a world that the requests read and change.
--   Table: RustBridgeTableInfo and RustBridgeColumnInfo; Table/Entry: the entry of a table in the
--     schema.
--   Ownership: the constructors, moves and destructors of the four wrapper classes of
--     src/include/rust_bridge_client.hpp, over the blocks that the Rust side allocates. Ownership/Reset,
--     Ownership/Sound and Ownership/Replace have what they come to, Ownership/Classes the four release
--     functions.
--   Blocks: the allocations inside the structs that cross the boundary, with the release functions of
--     src/json.rs; Blocks/Layout has how a struct is read, Blocks/Holds, Blocks/Stored and
--     Blocks/Structs what it owns. Blocks/Readers: the readers of src/json.rs with their allocations;
--     Blocks/Batches: next_batch with its allocations; Blocks/Columns and Blocks/Catalogs:
--     load_columns and load_catalog with theirs, and prepare_columns and append_row_metadata of
--     src/json.rs; Blocks/Attaching: resolve_attach of src/attach.rs with its own.
--   Json: the readers of src/json.rs; Json/Rows has rows that are read back, Json/Names the names of
--     columns.
--   Load: load_columns, load_catalog and list_rows of src/client.rs; Load/Paging has what their loops
--     come to, Load/Rows a page of rows from its request on.
--   Sdk: endpoint and send_request of src/sdk.rs.
--   Fetch: ScanHandle of src/client.rs, over list_rows as a parameter; Fetch/Pages has what its
--     calls come to.
--   Handles: the handles of the open scans, with OpenScan and NextScanBatch; Handles/Apart: several at
--     a time.
--   Cells: scan_value of src/scan.rs and ScanValueToValue; Cells/Lookup has the cell that is read.
--   Scan/State, Scan/Row, Scan/Loop: the global state of a scan, a row of its output, and the loop
--     of RustBridgeScan. Scan/Source, Scan/Pending, Scan/Emit, Scan/Chunks, Scan/Drain and Scan/Whole
--     lead from one call of it to a whole scan.
--   Scan/Pushdown: the pushdown of a filter and of an order with a limit; Scan/Columns: the virtual
--     columns and the copy of the bind data. Scan/Served: a whole scan down to the requests.
--   Mutation: src/mutation.rs, with the bodies of its requests and the order that they go out in.
--   Client: RustBridgeClient and its value buffer; Client/Insert, Client/Update and Client/Delete
--     have what each write sends, Client/Buffer the pointers that the buffer hands out.
--   Transaction: RustBridgeTransactionManager, and RejectExplicitTransaction.
--   Dml: the sinks of INSERT, UPDATE and DELETE, over the transaction of the statement; Dml/Source:
--     what they report.
--   Catalog: the plans of the writes, the tables by name, and the refusal of DDL; Catalog/Attached:
--     the catalog that an ATTACH makes, with the tables that Load gives.
--   Attach: resolve_attach of src/attach.rs, over the host of src/cpp/rust_bridge_storage.cpp.
--   Extension: the loading of the extension and CREATE SECRET; Extension/Options and Extension/Token
--     have what becomes of the options of a secret, Extension/Errors what a failed load reports.
--   Tests: a small document, with runs of the model.
--
-- State and loops: a C++ object or a Rust handle is a record that the functions take and give back.
-- A C++ exception or a Rust error is a value; it comes with the state that is left behind. A struct
-- of pointers that only borrows is the value it points to. A loop over an array is recursion on a
-- list. The following loops run on fuel: next_batch has a unit for each request, and as many as there are
-- pages are enough; the loop of a scan has a unit for each row of the output vector, and one more
-- than the vector size is enough, since a page without rows is skipped before it comes back; the
-- calls of a scan are one more than there are rows, since each but the last has a row. The search
-- for the name of a column has one unit more than there are columns before it, which is enough. The
-- loops over the pages of the catalog have a unit for each page, and as many as the API has are
-- enough; nothing in the code bounds them, should the API go on for ever.
--
-- Not modelled: the reuse of an address that was released (the heap of Blocks hands out new ones),
-- the failure of an allocation, the exception of a chunk that is read past its columns (DuckDB plans
-- the chunk of an INSERT with a column for each column of the table, and that of an UPDATE or a DELETE
-- with the row id), the locks (each call is one step), the callbacks' registration with DuckDB, the
-- build, and the WebAssembly build, where every request fails.
pub mod Prelude
pub mod Text
pub mod Abi
pub mod Duckdb
pub mod Messages
pub mod Strings
pub mod Ownership
pub mod Blocks
pub mod Table
pub mod Platform
pub mod Sdk
pub mod Mutation
pub mod Json
pub mod Load
pub mod Client
pub mod Catalog
pub mod Transaction
pub mod Dml
pub mod Cells
pub mod Fetch
pub mod Handles
pub mod Scan
pub mod Attach
pub mod Extension
pub mod Tests
