-- ===== src/Tests/Stream.antt =====
-- The theorems on accounts, fills and the stream (tt_ledger/identity/accounts.py,
-- tt_ledger/repositories/__init__.py, tt_ledger/ingest/push.py) at concrete messages.
use tt_ledger.Base.{String, ◌≡◌, refl, none, some, true, [], ◌∷◌, arith, if◌then◌else◌}
use tt_ledger.Base.Assoc.{Assoc, text_eq, id_eq, option_beq, lookup, insert}
use tt_ledger.Base.Int.{pos}
use tt_ledger.Base.Text.{eq_iff}
use tt_ledger.Rows.{OrderRow}
use tt_ledger.Rows.Units.{seconds}
use tt_ledger.Accounts.{
  AccountMapper, account_mapper, inverted_onto, to_nickname, to_account_number,
  to_nickname-to_account_number,
}
use tt_ledger.Broker.{PlacedOrder, FillEvent, BalanceMessage}
use tt_ledger.Store.Table.{Table, empty_table, get, id_of, get_by_key, upsert}
use tt_ledger.Store.Keys.{IsIndexed, IsIndexed-empty_table, upsert-IsIndexed, upsert-get_by_key}
use tt_ledger.Store.Memory.{InMemoryStore, empty_store, order_key}
use tt_ledger.Repositories.Orders.{FillFields, build_order_row, apply_fill_event}
use tt_ledger.Repositories.Attribution.{build_order_row-attribution}
use tt_ledger.Repositories.Fills.{IsFilledBy, apply_fill_event-known}
use tt_ledger.Push.{StreamConsumer, apply_balance}
use tt_ledger.Push.Throttle.{
  last_nlv, IsRecorded, IsTruthful, apply_balance-latest, apply_balance-throttled,
}
use tt_ledger.Tests.{order}

abbrev numbers : Assoc String String
numbers = ("main", "5WT1") ∷ ("ira", "5WT2") ∷ []

abbrev mapper : AccountMapper
mapper = account_mapper numbers none none [] []

mapper-number : to_account_number mapper "main" ≡ some "5WT1"
unfolding account_mapper to_account_number lookup
mapper-number = refl

mapper-nickname : to_nickname mapper "5WT1" ≡ some "main"
unfolding account_mapper to_nickname lookup inverted_onto insert
mapper-nickname = refl

to_nickname-to_account_number_example : to_nickname mapper "5WT1" ≡ some "main"
to_nickname-to_account_number_example =
    to_nickname-to_account_number numbers none none [] [] "main" "5WT1"
      ((λ e. refl), ((λ e. ground (arith, eq_iff "5WT2" "5WT1")), tt)) mapper-number

abbrev no_orders : Table String OrderRow
no_orders = empty_table

abbrev ordered : InMemoryStore
ordered = record empty_store { orders = (upsert order_key no_orders order).0 }

abbrev fill : FillEvent
fill = record {
  tt_order_id = "o1";
  status = some "Filled";
  average_fill_price = some (pos 3);
  filled_quantity = some (pos 2);
  remaining_quantity = some (pos 0);
  filled_at = some (seconds 9);
}

ordered-IsIndexed : IsIndexed order_key ordered.orders
ordered-IsIndexed = upsert-IsIndexed order_key no_orders (IsIndexed-empty_table order_key) order

order_stored : get_by_key ordered.orders "o1" ≡ some order
order_stored = (upsert-get_by_key order_key no_orders order "o1" 1 refl).0

apply_fill_event-known_example :
    let (store', result) = apply_fill_event ordered fill in
    ((new : OrderRow) × ((result ≡ some new) × IsFilledBy fill order new))
    × (get_by_key store'.orders "o1" ≡ result)
    × (store'.orders.next_id ≡ ordered.orders.next_id)
    × (get store'.orders 1 ≡ (
        if option_beq (id_of ordered.orders "o1") (some 1) then result else get ordered.orders 1))
apply_fill_event-known_example =
    apply_fill_event-known ordered fill order 1 ordered-IsIndexed order_stored

-- the order, fetched again from the history
abbrev placed : PlacedOrder
placed = record {
  id = "o1";
  account_number = "5WT1";
  received_at = seconds 1;
  legs = [];
  underlying_symbol = some "XSP";
  underlying_instrument_type = none;
  order_type = some "Limit";
  time_in_force = some "Day";
  gtc_date = none;
  price = some (pos 3);
  stop_trigger = none;
  price_effect = some "Debit";
  status = some "Filled";
  reject_reason = none;
  complex_order_id = none;
  complex_order_tag = none;
  updated_at = none;
  terminal_at = some (seconds 9);
}

abbrev no_fields : FillFields
no_fields = record { average_fill_price = none; filled_quantity = none; remaining_quantity = none }

build_order_row-attribution_example :
    let row = build_order_row ordered placed "main" (some "XSP 773P") no_fields in
    (row.origin ≡ order.origin)
    × (row.trade_group_id ≡ some 4)
    × (row.oms_order_id ≡ none)
    × (row.signal_id ≡ none)
    × (row.trace_id ≡ none)
    × (row.strategy_id ≡ none)
build_order_row-attribution_example =
    build_order_row-attribution ordered placed "main" (some "XSP 773P") no_fields order order_stored

abbrev balance : BalanceMessage
balance = record {
  account_number = "5WT1";
  raw = "{}";
  net_liquidating_value = some (pos 1000);
  cash_balance = none;
  equity_buying_power = none;
  derivative_buying_power = none;
  maintenance_requirement = none;
  pending_cash = none;
  day_trading_buying_power = none;
  captured_at = some (seconds 20);
}

abbrev consumer : StreamConsumer
consumer = record {
  store = empty_store;
  accounts = mapper;
  has_hook = true;
  persist_balances = true;
  balance_min_interval = seconds 60;
  balance_last = ("main", (seconds 1, some (pos 1000))) ∷ [];
  ensured_accounts = [];
  forwarded = [];
}

-- nothing is remembered of any account
abbrev new_consumer : StreamConsumer
new_consumer = record consumer { balance_last = [] }

new_consumer-IsTruthful : IsTruthful new_consumer "main"
unfolding lookup
new_consumer-IsTruthful = tt

apply_balance-latest_example :
    (c' : StreamConsumer) × (apply_balance new_consumer 0 0 balance ≡ some c')
    × (IsRecorded c'.store.balance_snapshots "main" (some (pos 1000)))
    × (last_nlv c' "main" ≡ some (some (pos 1000)))
    × (IsTruthful c' "main")
apply_balance-latest_example =
    apply_balance-latest new_consumer 0 0 "main" "5WT1" balance refl mapper-nickname mapper-number
      new_consumer-IsTruthful

last_seen : lookup "main" consumer.balance_last ≡ some (seconds 1, some (pos 1000))
unfolding lookup
last_seen = refl

apply_balance-throttled_example :
    (c' : StreamConsumer) × (apply_balance consumer 0 0 balance ≡ some c')
    × (c'.store.balance_snapshots ≡ empty_store.balance_snapshots)
apply_balance-throttled_example =
    apply_balance-throttled consumer 0 0 "main" "5WT1" balance (seconds 1) refl mapper-nickname
      mapper-number last_seen (omega arith)
