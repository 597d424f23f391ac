-- ===== src/Remap.antt =====
-- Manual attribution (tt_ledger/ingest/remap.py): the operator's edits of trade groups.
pub mod Edits
pub mod Attribution
pub mod Regroup
pub mod Link
pub mod Shells
pub mod Replaced
pub mod Whole
pub mod Moved
