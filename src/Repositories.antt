-- ===== src/Repositories.antt =====
-- What the repositories write to the store (tt_ledger/repositories/__init__.py).
pub mod Orders
pub mod Positions
pub mod Fills
pub mod Attribution
pub mod Balances
pub mod Securities
pub mod Quantities
pub mod History
pub mod Transactions
pub mod Snapshots
pub mod Units
