-- ===== src/Store/Memory.antt =====
-- `InMemoryStore` (tt_ledger/store/memory.py): one table for each kind of row, and its upserts.
use tt_ledger.Base.{ℕ, String, Option, none, some, List, [], ◌∷◌, or_option, if◌then◌else◌}
use tt_ledger.Base.Text.{opt_is}
use tt_ledger.Base.Assoc.{Eq, text_eq, id_eq, pair_eq, option_eq}
use tt_ledger.Rows.{
  AccountRow, OrderRow, LegRow, FillRow, TxnRow, SecurityRow, PositionRow, ClosedPositionRow,
  BalanceSnapshotRow, TradeGroupRow, EventRow,
}
use tt_ledger.Rows.Units.{Instant}
use tt_ledger.Store.Table.{Table, empty_table, insert_row, get_by_key, upsert}

abbrev pub LegId : Type 0
LegId = ℕ × ℕ

abbrev pub PositionKey : Type 0
PositionKey = String × String

abbrev pub ClosedKey : Type 0
ClosedKey = String × (String × (Option Instant × Option Instant))

abbrev pub SnapshotKey : Type 0
SnapshotKey = String × (Instant × String)

instance abbrev pub closed_key_eq : Eq ClosedKey
closed_key_eq =
    pair_eq ⦃e = text_eq⦄ ⦃f = pair_eq ⦃e = text_eq⦄ ⦃f = pair_eq ⦃e = option_eq⦄ ⦃f = option_eq⦄⦄⦄

instance abbrev pub snapshot_key_eq : Eq SnapshotKey
snapshot_key_eq = pair_eq ⦃e = text_eq⦄ ⦃f = pair_eq ⦃e = id_eq⦄ ⦃f = text_eq⦄⦄

pub record InMemoryStore : Type 0 where
  pub accounts : Table String AccountRow
  pub orders : Table String OrderRow
  pub legs : Table LegId LegRow
  pub fills : Table String FillRow
  pub transactions : Table String TxnRow
  pub securities : Table String SecurityRow
  pub positions : Table PositionKey PositionRow
  pub closed_positions : Table ClosedKey ClosedPositionRow
  pub trade_groups : Table String TradeGroupRow
  pub events : Table String EventRow
  pub balance_snapshots : Table SnapshotKey BalanceSnapshotRow

abbrev pub empty_store : InMemoryStore
empty_store = record {
  accounts = empty_table;
  orders = empty_table;
  legs = empty_table;
  fills = empty_table;
  transactions = empty_table;
  securities = empty_table;
  positions = empty_table;
  closed_positions = empty_table;
  trade_groups = empty_table;
  events = empty_table;
  balance_snapshots = empty_table;
}

-- The key function of each table.
abbrev pub order_key : OrderRow → Option String
order_key row = row.tt_order_id

abbrev pub txn_key : TxnRow → Option String
txn_key row = some row.tt_transaction_id

abbrev pub leg_key : LegRow → Option LegId
leg_key row = some (row.order_id, row.leg_index)

abbrev pub closed_key : ClosedPositionRow → Option ClosedKey
closed_key row = some (row.account, (row.security_id, (row.opened_at, row.closed_at)))

abbrev pub snapshot_key : BalanceSnapshotRow → Option SnapshotKey
snapshot_key row = some (row.account, (row.captured_at, row.source))

unfoldable pub upsert_account : InMemoryStore → AccountRow → InMemoryStore
upsert_account store row = record store {
  accounts = (upsert (λ (r : AccountRow). some r.nickname) store.accounts row).0;
}

-- the linkage columns of a resynced order: those it brings, else those that were stored
unfoldable pub keep_order_linkage : OrderRow → OrderRow → OrderRow
keep_order_linkage existing row = record row {
  oms_order_id = or_option row.oms_order_id existing.oms_order_id;
  client_order_id = or_option row.client_order_id existing.client_order_id;
  signal_id = or_option row.signal_id existing.signal_id;
  trace_id = or_option row.trace_id existing.trace_id;
  strategy_id = or_option row.strategy_id existing.strategy_id;
  trade_group_id = or_option row.trade_group_id existing.trade_group_id;
  market_context_id = or_option row.market_context_id existing.market_context_id;
}

-- `self._orders.get_by_key(row.tt_order_id) if row.tt_order_id else None`
unfoldable pub existing_order : Table String OrderRow → OrderRow → Option OrderRow
existing_order orders row = elim row.tt_order_id [
  | none ↦ none
  | some k ↦ if opt_is row.tt_order_id "" then none else get_by_key orders k
]

unfoldable pub merged_order : Table String OrderRow → OrderRow → OrderRow
merged_order orders row = elim (existing_order orders row) [
  | none ↦ row
  | some existing ↦ keep_order_linkage existing row
]

unfoldable pub upsert_order : Table String OrderRow → OrderRow → Table String OrderRow × ℕ
unfolding merged_order
upsert_order orders row = upsert order_key orders (merged_order orders row)

unfoldable pub upsert_order_rows :
    Table String OrderRow → List OrderRow → Table String OrderRow × List ℕ
upsert_order_rows orders [] = (orders, [])
upsert_order_rows orders (row ∷ rows) =
    let (orders', row_id) = upsert_order orders row in
    let (orders'', ids) = upsert_order_rows orders' rows in (orders'', row_id ∷ ids)

unfoldable pub upsert_orders : InMemoryStore → List OrderRow → InMemoryStore × List ℕ
upsert_orders store rows =
    let (orders, ids) = upsert_order_rows store.orders rows in
    (record store { orders = orders }, ids)

unfoldable pub keep_txn_linkage : TxnRow → TxnRow → TxnRow
keep_txn_linkage existing row = record row {
  order_id = or_option row.order_id existing.order_id;
  order_leg_id = or_option row.order_leg_id existing.order_leg_id;
  position_id = or_option row.position_id existing.position_id;
  closed_position_id = or_option row.closed_position_id existing.closed_position_id;
  trade_group_id = or_option row.trade_group_id existing.trade_group_id;
}

unfoldable pub merged_txn : Table String TxnRow → TxnRow → TxnRow
merged_txn txns row = elim (get_by_key txns row.tt_transaction_id) [
  | none ↦ row
  | some existing ↦ keep_txn_linkage existing row
]

unfoldable pub upsert_txn : Table String TxnRow → TxnRow → Table String TxnRow
unfolding merged_txn
upsert_txn txns row = (upsert txn_key txns (merged_txn txns row)).0

unfoldable pub upsert_txn_rows : Table String TxnRow → List TxnRow → Table String TxnRow
upsert_txn_rows txns [] = txns
upsert_txn_rows txns (row ∷ rows) = upsert_txn_rows (upsert_txn txns row) rows

unfoldable pub upsert_transactions : InMemoryStore → List TxnRow → InMemoryStore
upsert_transactions store rows = record store {
  transactions = upsert_txn_rows store.transactions rows;
}

unfoldable pub upsert_balance_snapshot : InMemoryStore → BalanceSnapshotRow → InMemoryStore
upsert_balance_snapshot store row = record store {
  balance_snapshots = (upsert snapshot_key store.balance_snapshots row).0;
}

unfoldable pub upsert_closed_position : InMemoryStore → ClosedPositionRow → InMemoryStore × ℕ
upsert_closed_position store row =
    let (table, row_id) = upsert closed_key store.closed_positions row in
    (record store { closed_positions = table }, row_id)

unfoldable pub upsert_trade_group : InMemoryStore → TradeGroupRow → InMemoryStore × ℕ
upsert_trade_group store row =
    let (table, row_id) = upsert (λ (r : TradeGroupRow). some r.group_id) store.trade_groups row in
    (record store { trade_groups = table }, row_id)

-- `now` is the clock's reading, for an event that has no instant
unfoldable pub add_trade_group_event : InMemoryStore → Instant → EventRow → InMemoryStore
add_trade_group_event store now ev =
    let stamped : EventRow = record ev { event_at = or_option ev.event_at (some now) } in
    record store { events = (insert_row store.events stamped).0 }
