-- ===== src/Reconcile.antt =====
-- Reconcile: broker activity into trade groups (tt_ledger/ingest/reconcile.py).
pub mod Rules
pub mod Nets
pub mod Clamp
pub mod Cluster
pub mod Windows
pub mod Strategy
pub mod Shapes
pub mod Route
pub mod Partition
pub mod Closing
pub mod Settled
pub mod Peaks
pub mod Members
pub mod Exit
pub mod Create
pub mod Rolls
pub mod Heal
pub mod Pass
pub mod Accounts
pub mod Detect
pub mod Attached
pub mod Pending
pub mod Landed
pub mod Known
pub mod Grouping
pub mod Candidates
pub mod Linked
pub mod Settling
pub mod Preview
pub mod Again
pub mod Stamped
