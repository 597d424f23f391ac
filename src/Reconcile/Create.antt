-- ===== src/Reconcile/Create.antt =====
-- A new trade group for a cluster, and the refresh of a group that an order was attributed to at
-- submit time (tt_ledger/ingest/reconcile.py, `_create_trade_group`, `_refresh_group_financials`).
use tt_ledger.Base.{
  ℕ, String, false, ◌||◌, Option, none, some, List, [], ◌∷◌, get_or_else, or_option, if◌then◌else◌,
}
use tt_ledger.Base.Assoc.{text_eq, id_eq}
use tt_ledger.Base.Text.{str_eq, member}
use tt_ledger.Enums.{Origin, ReviewStatus, opened, entry, trade_group_status_value}
use tt_ledger.Rows.{ActivityRow, OrderRow, TradeGroupRow}
use tt_ledger.Rows.Units.{zero_decimal}
use tt_ledger.Store.Memory.{InMemoryStore, upsert_orders, upsert_trade_group}
use tt_ledger.Store.Reads.{get_order, get_trade_group_by_id}
use tt_ledger.Store.Links.{attach_transactions_to_trade_group}
use tt_ledger.Reconcile.Route.{OpenGroup}
use tt_ledger.Reconcile.Members.{GroupFields, compute_group_fields, or_text}
use tt_ledger.Reconcile.Exit.{Outside, ids_of, event_of, emit}

-- `TradeGroupRow(…)` with the defaults of the row type
unfoldable pub blank_group : String → String → TradeGroupRow
blank_group group_id account = record {
  group_id = group_id;
  account = account;
  origin = Origin.broker;
  source_system = "tastytrade";
  review_status = ReviewStatus.needs_review;
  manually_attributed = false;
  reviewed_at = none;
  reviewed_by = none;
  underlying = none;
  security_id = none;
  strategy_type = none;
  leg_count = 1;
  total_premium = none;
  quantity = none;
  total_fees = none;
  status = trade_group_status_value opened;
  realized_pnl = none;
  unrealized_pnl = none;
  max_profit = none;
  max_loss = none;
  initial_risk = none;
  profit_target = none;
  stop_loss = none;
  exit_strategy = none;
  structure = none;
  order_id = none;
  strategy_id = none;
  bot_name = none;
  signal_id = none;
  executed_at = none;
  closed_at = none;
}

-- `replace(tg, **fields)`
unfoldable pub with_fields : TradeGroupRow → GroupFields → TradeGroupRow
with_fields tg fields = record tg {
  underlying = fields.underlying;
  security_id = fields.security_id;
  strategy_type = some fields.strategy_type;
  leg_count = fields.leg_count;
  total_premium = some fields.total_premium;
  total_fees = some fields.total_fees;
  quantity = fields.quantity;
  executed_at = fields.executed_at;
}

-- `list(dict.fromkeys(row.tt_order_id for row in cluster if row.tt_order_id))`
unfoldable pub order_ids_onto : List String → List ActivityRow → List String
order_ids_onto seen [] = []
order_ids_onto seen (row ∷ rows) = elim row.tt_order_id [
  | none ↦ order_ids_onto seen rows
  | some k ↦
      let skipped = order_ids_onto seen rows in
      let taken = k ∷ order_ids_onto (k ∷ seen) rows in
      if str_eq k "" || member k seen then skipped else taken
]

-- the stored orders of these ids, stamped with the group
unfoldable pub stamped_orders : InMemoryStore → ℕ → List String → List OrderRow
stamped_orders store pk [] = []
stamped_orders store pk (k ∷ ks) = elim (get_order store k) [
  | none ↦ stamped_orders store pk ks
  | some order ↦ (record order { trade_group_id = some pk }) ∷ stamped_orders store pk ks
]

abbrev pub first_id : List ℕ → Option ℕ
first_id [] = none
first_id (pk ∷ pks) = some pk

module _ (out : Outside) where
  unfoldable pub create_trade_group : InMemoryStore → String → List ActivityRow → InMemoryStore × ℕ
  unfolding compute_group_fields order_ids_onto stamped_orders
  create_trade_group store account cluster =
      let fields = compute_group_fields store cluster in
      let header = with_fields (blank_group (out.uuid store.trade_groups.next_id) account) fields in
      let (grouped, pk) = upsert_trade_group store header in
      let attached = (attach_transactions_to_trade_group grouped (ids_of cluster) pk).0 in
      let orders = stamped_orders attached pk (order_ids_onto [] cluster) in
      let (stamped, order_pks) = upsert_orders attached orders in
      (
        emit out stamped (record (event_of pk entry) {
          quantity_change = get_or_else fields.quantity zero_decimal;
          premium_change = fields.total_premium;
          event_at = fields.executed_at;
          order_id = first_id order_pks;
        }),
        pk,
      )

-- the header of an intent group, refined from its members
unfoldable pub refreshed_group : TradeGroupRow → GroupFields → TradeGroupRow
refreshed_group tg fields = record tg {
  total_premium = some fields.total_premium;
  total_fees = some fields.total_fees;
  quantity = fields.quantity;
  leg_count = fields.leg_count;
  underlying = or_text tg.underlying fields.underlying;
  security_id = or_text tg.security_id fields.security_id;
  strategy_type = or_text tg.strategy_type (some fields.strategy_type);
  executed_at = or_option fields.executed_at tg.executed_at;
}

unfoldable pub refresh_group_financials : InMemoryStore → OpenGroup → InMemoryStore
refresh_group_financials store group = elim (get_trade_group_by_id store group.pk) [
  | none ↦ store
  | some tg ↦
      (upsert_trade_group store (refreshed_group tg (compute_group_fields store group.rows))).0
]
