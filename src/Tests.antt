-- ===== src/Tests.antt =====
-- Rows at which the theorems on the program (tt_ledger) are applied.
mod Replay
mod Groups
mod Legs
mod Store
mod Stream
mod Pass
mod Edits
use tt_ledger.Base.{ℕ, ◌/◌, String, false, Option, none, some, List, [], ◌∷◌}
use tt_ledger.Base.Int.{pos, pos_part, neg_part, sub_ℕ}
use tt_ledger.Rows.{ActivityRow, OrderRow, PositionRow, TxnRow}
use tt_ledger.Enums.{Origin, Ingest}
use tt_ledger.Rows.Units.{Instant, Quantity, Price, Cash, seconds, zero_decimal}

-- division by a positive quantity, rounded towards zero
abbrev pub divide : Cash → Quantity → Price
divide cash quantity = sub_ℕ (pos_part cash / pos_part quantity) (neg_part cash / pos_part quantity)

-- a trade of one security with a fee of 1
abbrev pub trade : String → String → Quantity → Price → Instant → ActivityRow
trade name action quantity price at = record {
  tt_transaction_id = name;
  account = "main";
  transaction_type = some "Trade";
  transaction_sub_type = some action;
  action = some action;
  security_id = some "XSP 773P";
  underlying = some "XSP";
  quantity = some quantity;
  price = some price;
  net_value = some zero_decimal;
  net_value_effect = none;
  commission = some (pos 1);
  clearing_fees = none;
  regulatory_fees = none;
  proprietary_index_option_fees = none;
  executed_at = some at;
  order_id = none;
  tt_order_id = none;
  trade_group_id = none;
  origin = none;
  review_status = none;
  order_trade_group_id = none;
}

abbrev pub bought : ActivityRow
bought = trade "t1" "Buy to Open" (pos 2) (pos 3) (seconds 1)

abbrev pub sold : ActivityRow
sold = trade "t2" "Sell to Close" (pos 1) (pos 5) (seconds 3)

abbrev pub late : ActivityRow
late = trade "t3" "Sell to Close" (pos 1) (pos 4) (seconds 90)

abbrev pub assigned : ActivityRow
assigned = record late {
  tt_transaction_id = "t4";
  transaction_type = some "Receive Deliver";
  transaction_sub_type = some "Assignment";
  action = none;
  quantity = some (pos 5);
}

abbrev pub trades : List ActivityRow
trades = bought ∷ sold ∷ late ∷ []

abbrev pub txn : TxnRow
txn = record {
  tt_transaction_id = "t1";
  tt_order_id = some "o1";
  account = "main";
  account_number = none;
  source_system = "tastytrade";
  transaction_type = some "Trade";
  transaction_sub_type = none;
  action = some "Buy to Open";
  security_id = some "XSP 773P";
  underlying = some "XSP";
  quantity = some (pos 2);
  price = some (pos 3);
  value = none;
  value_effect = none;
  net_value = none;
  net_value_effect = none;
  commission = none;
  clearing_fees = none;
  regulatory_fees = none;
  proprietary_index_option_fees = none;
  is_estimated_fee = none;
  description = none;
  order_id = some 1;
  order_leg_id = none;
  position_id = none;
  closed_position_id = none;
  trade_group_id = some 4;
  executed_at = some (seconds 1);
  transaction_date = none;
}

abbrev pub order : OrderRow
order = record {
  tt_order_id = some "o1";
  account = "main";
  origin = Origin.broker;
  ingest = Ingest.order_history;
  oms_order_id = none;
  client_order_id = none;
  account_number = none;
  source_system = "tastytrade";
  security_id = none;
  underlying = none;
  order_type = none;
  time_in_force = none;
  gtc_date = none;
  price = none;
  stop_trigger = none;
  price_effect = none;
  average_fill_price = none;
  is_complex = false;
  complex_order_type = none;
  oms_status = none;
  tt_status = some "Live";
  status_message = none;
  filled_quantity = none;
  remaining_quantity = some (pos 2);
  signal_id = none;
  trace_id = none;
  strategy_id = none;
  trade_group_id = some 4;
  market_context_id = none;
  received_at = none;
  submitted_at = none;
  filled_at = none;
  terminal_at = none;
}

abbrev pub held : PositionRow
held = record {
  account = "main";
  security_id = "XSP 773P";
  quantity = pos 2;
  quantity_direction = "Long";
  average_open_price = some (pos 3);
  mark_price = none;
  close_price = none;
  unrealized_pnl = none;
  realized_day_gain = none;
  multiplier = 100;
  expires_at = none;
  strategy_id = none;
  opening_order_id = some 1;
  trade_group_id = none;
  position_opened_at = some (seconds 1);
}
