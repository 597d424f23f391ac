-- ===== src/Broker.antt =====
-- The broker's records that ingestion reads (tt_ledger/ingest/broker.py) and the fill event of the
-- stream (tt_ledger/rows.py).
use tt_ledger.Base.{ℕ, String, Bool, Option, List, is_some}
use tt_ledger.Rows.Units.{Instant, Date, Quantity, Price, Cash}

pub record PlacedFill : Type 0 where
  pub fill_id : String
  pub quantity : Quantity
  pub fill_price : Price
  pub filled_at : Instant
  pub destination_venue : Option String
  pub ext_exec_id : Option String
  pub ext_group_fill_id : Option String

pub record PlacedLeg : Type 0 where
  pub instrument_type : String
  pub symbol : String
  pub action : String
  pub quantity : Quantity
  pub remaining_quantity : Quantity
  pub fills : List PlacedFill

pub record PlacedOrder : Type 0 where
  pub id : String
  pub account_number : String
  pub received_at : Instant
  pub legs : List PlacedLeg
  pub underlying_symbol : Option String
  pub underlying_instrument_type : Option String
  pub order_type : Option String
  pub time_in_force : Option String
  pub gtc_date : Option String
  pub price : Option Price
  pub stop_trigger : Option Price
  pub price_effect : Option String
  pub status : Option String
  pub reject_reason : Option String
  pub complex_order_id : Option String
  pub complex_order_tag : Option String
  pub updated_at : Option Instant
  pub terminal_at : Option Instant

-- `PlacedOrder.is_complex`
abbrev pub is_complex : PlacedOrder → Bool
is_complex order = is_some order.complex_order_id

pub record BrokerTransaction : Type 0 where
  pub id : String
  pub account_number : String
  pub order_id : Option String
  pub underlying_symbol : Option String
  pub symbol : Option String
  pub instrument_type : Option String
  pub transaction_type : Option String
  pub transaction_sub_type : Option String
  pub action : Option String
  pub quantity : Option Quantity
  pub price : Option Price
  pub value : Option Cash
  pub value_effect : Option String
  pub net_value : Option Cash
  pub net_value_effect : Option String
  pub commission : Option Cash
  pub clearing_fees : Option Cash
  pub regulatory_fees : Option Cash
  pub proprietary_index_option_fees : Option Cash
  pub is_estimated_fee : Option Bool
  pub description : Option String
  pub executed_at : Option Instant
  pub transaction_date : Option Date

pub record BrokerPosition : Type 0 where
  pub account_number : String
  pub symbol : String
  pub quantity : Quantity
  pub quantity_direction : String
  pub underlying_symbol : Option String
  pub instrument_type : Option String
  pub average_open_price : Option Price
  pub mark_price : Option Price
  pub close_price : Option Price
  pub realized_day_gain : Option Cash
  pub realized_day_gain_effect : Option String
  pub multiplier : ℕ
  pub expires_at : Option Instant

-- `raw` is the payload's text
pub record BalanceMessage : Type 0 where
  pub account_number : String
  pub raw : String
  pub net_liquidating_value : Option Cash
  pub cash_balance : Option Cash
  pub equity_buying_power : Option Cash
  pub derivative_buying_power : Option Cash
  pub maintenance_requirement : Option Cash
  pub pending_cash : Option Cash
  pub day_trading_buying_power : Option Cash
  pub captured_at : Option Instant

pub record FillEvent : Type 0 where
  pub tt_order_id : String
  pub status : Option String
  pub average_fill_price : Option Price
  pub filled_quantity : Option Quantity
  pub remaining_quantity : Option Quantity
  pub filled_at : Option Instant
