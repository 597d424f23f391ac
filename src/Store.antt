-- ===== src/Store.antt =====
-- The in-memory store (tt_ledger/store/memory.py).
pub mod Table
pub mod Keys
pub mod Memory
pub mod Links
pub mod Relink
pub mod Linkage
pub mod Writes
pub mod Reads
pub mod Queries
pub mod Pages
pub mod Dict
pub mod Regrouped
