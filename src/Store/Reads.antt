-- ===== src/Store/Reads.antt =====
-- The reads of `InMemoryStore` that the passes use (tt_ledger/store/memory.py).
use tt_ledger.Base.{
  ℕ, String, Bool, true, false, not, ◌&&◌, ◌||◌, Option, none, some, List, [], ◌∷◌, map, is_some,
  is_none, eqb, ltb, leb, any_of, select, sorted, if◌then◌else◌,
}
use tt_ledger.Base.Assoc.{Assoc, lookup, text_eq, id_eq, pair_eq}
use tt_ledger.Base.Text.{str_eq, opt_is}
use tt_ledger.Enums.{Origin, ReviewStatus, origin_value, review_status_value}
use tt_ledger.Rows.{
  OrderRow, TxnRow, SecurityRow, PositionRow, TradeGroupRow, TradeRow, ActivityRow, OrderFilter,
  TradeFilter, ActivityFilter,
}
use tt_ledger.Rows.Units.{Instant, Date, date_of}
use tt_ledger.Store.Table.{get, id_of, get_by_key}
use tt_ledger.Store.Memory.{InMemoryStore}

-- `_in_range`
unfoldable pub in_range : Option Instant → Option Date → Option Date → Bool
in_range none start_on end_on = is_none start_on && is_none end_on
in_range (some value) start_on end_on =
    elim start_on [ none ↦ true | some s ↦ leb s (date_of value) ]
    && elim end_on [ none ↦ true | some e ↦ leb (date_of value) e ]

-- `f.x is None or row.x == f.x`
abbrev pub passes : Option String → String → Bool
passes none value = true
passes (some wanted) value = str_eq value wanted

abbrev pub passes_opt : Option String → Option String → Bool
passes_opt none value = true
passes_opt (some wanted) value = opt_is value wanted

abbrev pub passes_origin : Option Origin → Origin → Bool
passes_origin none value = true
passes_origin (some wanted) value = str_eq (origin_value value) (origin_value wanted)

abbrev pub passes_review : Option ReviewStatus → ReviewStatus → Bool
passes_review none value = true
passes_review (some wanted) value = str_eq (review_status_value value) (review_status_value wanted)

abbrev pub is_id : Option ℕ → ℕ → Bool
is_id none wanted = false
is_id (some value) wanted = eqb value wanted

abbrev pub passes_id : Option ℕ → Option ℕ → Bool
passes_id none value = true
passes_id (some wanted) value = is_id value wanted

-- the rows of a table, in the order of their ids
abbrev pub values {ℓ} : {R : Type ℓ} → List (ℕ × R) → List R
values [] = []
values ((_, row) ∷ rest) = row ∷ values rest

unfoldable pub get_order : InMemoryStore → String → Option OrderRow
get_order store tt_order_id = get_by_key store.orders tt_order_id

unfoldable pub get_position : InMemoryStore → String → String → Option PositionRow
get_position store account security_id = get_by_key store.positions (account, security_id)

unfoldable pub get_position_id : InMemoryStore → String → String → Option ℕ
get_position_id store account security_id = id_of store.positions (account, security_id)

unfoldable pub get_security : InMemoryStore → String → Option SecurityRow
get_security store security_id = get_by_key store.securities security_id

unfoldable pub get_trade_group : InMemoryStore → String → Option TradeGroupRow
get_trade_group store group_id = get_by_key store.trade_groups group_id

unfoldable pub get_trade_group_by_id : InMemoryStore → ℕ → Option TradeGroupRow
get_trade_group_by_id store pk = get store.trade_groups pk

unfoldable pub get_trade_group_id : InMemoryStore → String → Option ℕ
get_trade_group_id store group_id = id_of store.trade_groups group_id

unfoldable pub picked : List ℕ → List (ℕ × TxnRow) → List TxnRow
picked ids [] = []
picked ids ((row_id, txn) ∷ rest) =
    let more = picked ids rest in if any_of (eqb row_id) ids then txn ∷ more else more

unfoldable pub get_transactions_by_id : InMemoryStore → List ℕ → List TxnRow
unfolding picked
get_transactions_by_id store ids = picked ids store.transactions.rows

-- the sort key `(executed_at is None, executed_at)`
abbrev pub before : Option Instant → Option Instant → Bool
before a none = true
before none (some t) = false
before (some s) (some t) = leb s t

unfoldable pub get_group_transactions : InMemoryStore → ℕ → List TxnRow
get_group_transactions store pk =
    sorted (λ a b. before a.executed_at b.executed_at)
      (select (λ (txn : TxnRow). is_id txn.trade_group_id pk) (values store.transactions.rows))

unfoldable pub order_passes : OrderFilter → OrderRow → Bool
order_passes f row =
    passes_origin f.origin row.origin
    && passes f.account row.account
    && passes_opt f.status row.oms_status
    && passes_opt f.underlying row.underlying
    && passes_id f.trade_group_id row.trade_group_id
    && passes_opt f.oms_order_id row.oms_order_id
    && not (f.unlinked && is_some row.trade_group_id)
    && in_range row.submitted_at f.start_on f.end_on

-- the sort key `(received_at is None, received_at, id)`
unfoldable pub received_before : ℕ × OrderRow → ℕ × OrderRow → Bool
received_before (i, a) (j, b) = elim a.received_at [
  | none ↦ elim b.received_at [ none ↦ leb i j | some t ↦ false ]
  | some s ↦ elim b.received_at [ none ↦ true | some t ↦ ltb s t || eqb s t && leb i j ]
]

unfoldable pub query_orders_with_ids : InMemoryStore → OrderFilter → List (ℕ × OrderRow)
query_orders_with_ids store f =
    sorted received_before (select (λ (p : ℕ × OrderRow). order_passes f p.1) store.orders.rows)

unfoldable pub query_orders : InMemoryStore → OrderFilter → List OrderRow
query_orders store f = values (query_orders_with_ids store f)

-- `trade_group_to_row`, and `_project(tg, TradeRow)`
unfoldable pub trade_group_to_row : TradeGroupRow → TradeRow
trade_group_to_row tg = record {
  group_id = tg.group_id;
  account = tg.account;
  origin = tg.origin;
  source_system = tg.source_system;
  review_status = tg.review_status;
  manually_attributed = tg.manually_attributed;
  underlying = tg.underlying;
  security_id = tg.security_id;
  strategy_type = tg.strategy_type;
  leg_count = tg.leg_count;
  total_premium = tg.total_premium;
  quantity = tg.quantity;
  total_fees = tg.total_fees;
  status = tg.status;
  realized_pnl = tg.realized_pnl;
  unrealized_pnl = tg.unrealized_pnl;
  max_profit = tg.max_profit;
  max_loss = tg.max_loss;
  initial_risk = tg.initial_risk;
  structure = tg.structure;
  order_id = tg.order_id;
  strategy_id = tg.strategy_id;
  bot_name = tg.bot_name;
  signal_id = tg.signal_id;
  executed_at = tg.executed_at;
  closed_at = tg.closed_at;
}

unfoldable pub trade_passes : TradeFilter → TradeGroupRow → Bool
trade_passes f tg =
    passes_origin f.origin tg.origin
    && passes_review f.review_status tg.review_status
    && passes f.status tg.status
    && passes f.account tg.account
    && passes_opt f.underlying tg.underlying
    && in_range tg.executed_at f.start_on f.end_on

unfoldable pub unified_trades : InMemoryStore → TradeFilter → List TradeRow
unified_trades store f =
    map trade_group_to_row (select (trade_passes f) (values store.trade_groups.rows))

unfoldable pub activity_passes : ActivityFilter → TxnRow → Bool
activity_passes f txn =
    passes f.account txn.account
    && in_range txn.executed_at f.start_on f.end_on
    && not (f.unreconciled_only && is_some txn.order_id)

-- `table.get(pk) if pk is not None else None`
abbrev pub joined : {R : Type 0} → Assoc ℕ R → Option ℕ → Option R
joined rows none = none
joined rows (some pk) = lookup pk rows

-- a transaction with its order's and its group's columns
unfoldable pub activity_row : Option OrderRow → Option TradeGroupRow → TxnRow → ActivityRow
activity_row order group txn = record {
  tt_transaction_id = txn.tt_transaction_id;
  account = txn.account;
  transaction_type = txn.transaction_type;
  transaction_sub_type = txn.transaction_sub_type;
  action = txn.action;
  security_id = txn.security_id;
  underlying = txn.underlying;
  quantity = txn.quantity;
  price = txn.price;
  net_value = txn.net_value;
  net_value_effect = txn.net_value_effect;
  commission = txn.commission;
  clearing_fees = txn.clearing_fees;
  regulatory_fees = txn.regulatory_fees;
  proprietary_index_option_fees = txn.proprietary_index_option_fees;
  executed_at = txn.executed_at;
  order_id = txn.order_id;
  tt_order_id = txn.tt_order_id;
  trade_group_id = txn.trade_group_id;
  origin = elim order [ none ↦ none | some o ↦ some o.origin ];
  review_status = elim group [ none ↦ none | some g ↦ some g.review_status ];
  order_trade_group_id = elim order [ none ↦ none | some o ↦ o.trade_group_id ];
}

unfoldable pub activity_of : InMemoryStore → TxnRow → ActivityRow
activity_of store txn =
    activity_row (joined store.orders.rows txn.order_id)
      (joined store.trade_groups.rows txn.trade_group_id) txn

unfoldable pub account_activity : InMemoryStore → ActivityFilter → List ActivityRow
unfolding activity_of
account_activity store f =
    map (activity_of store) (select (activity_passes f) (values store.transactions.rows))
