-- ===== src/Scan.antt =====
-- The scan of a table, src/cpp/rust_bridge_scan.cpp: the state, a row, the loop over a chunk; the
-- filter and the order that are pushed into the request; and what a whole scan gives out.
pub mod Source
pub mod State
pub mod Row
pub mod Loop
pub mod Pending
pub mod Emit
pub mod Chunks
pub mod Drain
pub mod Whole
pub mod Pushdown
pub mod Columns
pub mod Served
