-- ===== src/Replay.antt =====
-- Replay of the transaction history into positions (tt_ledger/ingest/replay.py).
pub mod Rules
pub mod Walk
pub mod Reduced
pub mod Lapse
pub mod Lapsed
pub mod Steps
pub mod Realized
pub mod Books
pub mod Invariant
pub mod Agreement
pub mod Rebuild
