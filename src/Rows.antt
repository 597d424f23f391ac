-- ===== src/Rows.antt =====
-- The row types that the components exchange (tt_ledger/rows.py).
pub mod Units
mod Orders
mod Activity
mod Positions
mod Groups
mod Queries
pub use Orders.*
pub use Activity.*
pub use Positions.*
pub use Groups.*
pub use Queries.*
