-- ===== src/Lib.antt =====
-- A model of tt-ledger, a ledger of broker activity: orders, transactions, positions and trade
-- groups of accounts, kept in a store, fed by pulled history and by a stream, and derived again
-- from the transactions by two passes. Replay walks the transactions of one security and rebuilds
-- its position and closed lifecycles; reconcile clusters the transactions by time, routes closes
-- to the open groups they offset and classifies new groups.
--
-- Files and what they model, with paths from the root of the repository:
--   Base and its children: tests, lists, permutations, integers, text and association lists. A
--     Python dict is an association list in insertion order.
--   Enums, Rows: tt_ledger/enums.py and tt_ledger/rows.py. A Decimal is an exact integer count,
--     with units in Rows/Units such that price times quantity is cash. An instant is a count of
--     microseconds and a date a count of days. A JSON column is its text. Rows/Queries holds the
--     filters, the pages and the result of a sync.
--   Replay: tt_ledger/ingest/replay.py. Rules reads one row, Walk is _replay_security, Reduced is
--     net_open_quantities and price_realized_gross, Lapse is _lapse_expired_lot, Rebuild is
--     rebuild_positions_from_transactions over the store; Steps, Agreement, Invariant, Books,
--     Realized and Lapsed hold the theorems.
--   Legs: fold_open_group_legs of tt_ledger/rows.py; Legs/Totals and Legs/Basis hold its theorems.
--   Reconcile: tt_ledger/ingest/reconcile.py. Rules, Nets, Closing, Cluster, Route, Strategy and
--     Detect read rows and groups. Members computes the fields of a group, Exit is _apply_exit,
--     Create is _create_trade_group, Rolls the roll links and deliveries, Heal the healing and
--     the synthesized settlements, Pass the loop over the clusters and Accounts reconcile. Clamp,
--     Peaks, Settled, Windows, Partition and Shapes are theorems on the rows; Attached, Pending,
--     Landed, Known, Grouping, Candidates, Settling, Preview, Again, Linked and Stamped are
--     theorems on the store.
--   Store: tt_ledger/store/memory.py. Table is _Table, Memory the store and its main upserts, Writes
--     the other writes, Reads, Queries and Pages the reads, Links the linking passes; Keys, Dict,
--     Linkage, Relink and Regrouped are theorems.
--   Broker, Accounts: tt_ledger/ingest/broker.py and tt_ledger/identity/accounts.py.
--   Repositories: tt_ledger/repositories/__init__.py, and in Securities the resolver of
--     tt_ledger/identity/securities.py. Quantities is order_level_fill_fields, History, Transactions,
--     Snapshots, Orders, Positions and Balances the repositories; Fills, Attribution and Units are
--     theorems.
--   Push: tt_ledger/ingest/push.py, with the loop in Push/Run; Push/Throttle holds theorems.
--   Pull: tt_ledger/ingest/pull.py; Pull/Isolation holds its theorem.
--   Remap: tt_ledger/ingest/remap.py. Edits holds the refusals, Attribution the remap, Regroup the
--     regroup, Link the order link, Shells the dismissal and the mark as unfilled; Moved, Replaced
--     and Whole are theorems.
--   Tests: rows and stores, and each theorem at concrete ones.
--
-- State is passed explicitly: an operation that writes takes the store, or the consumer, and
-- returns the next one. An asynchronous method is one step. A missing key is none; a failing call
-- is `raised` with its text, and a refused edit is `refused` with its reason and the store that it
-- leaves. Loops recurse on the list they walk. The one loop on fuel is that of Euclid, which
-- math.gcd stands for: its fuel is one more than the second number, which is enough because that number gets
-- smaller with each step.
--
-- Parameters. `divide` stands for the division of the decimal library, cash by quantity, with its
-- rounding, and `share` for that of a quantity by a whole number; nothing is assumed of them. `unit`
-- is the count of a quantity that makes one contract, for the conversion to int. `clock` and `uuid`
-- are what a clock and a uuid give at the writing of an event or a group, `now` and `today` readings
-- of the clock. A resolver gives the settlement price of an underlying at a date, where it has one,
-- and a security resolver the security of a vendor's symbol. `walk` is the order in which a set of
-- surrogate ids is walked, `key_error` the text of an error on a missing key. Text methods are those
-- of ASCII, in which the broker writes.
--
-- Not modelled: the SQL store and its schema, whose contract the in-memory store states; canonical
-- symbols, which rest on regular expressions; configuration files, the client library, the web
-- service, the command line and the network clients, which are input and output.
pub mod Base
pub mod Enums
pub mod Rows
pub mod Replay
pub mod Legs
pub mod Reconcile
pub mod Broker
pub mod Accounts
pub mod Store
pub mod Repositories
pub mod Push
pub mod Remap
pub mod Pull
pub mod Tests
