-- ===== src/Rows/Orders.antt =====
-- The accounts, securities, orders, legs and fills of tt_ledger/rows.py. A JSON column is kept as its text.
use tt_ledger.Base.{ℕ, String, Bool, Option}
use tt_ledger.Rows.Units.{Instant, Date, Quantity, Price}
use tt_ledger.Enums.{Origin, Ingest}

pub record AccountRow : Type 0 where
  pub nickname : String
  pub account_number : String
  pub login : Option String
  pub env : String
  pub source_system : String

pub record SecurityRow : Type 0 where
  pub security_id : String
  pub product_type : String
  pub underlying : Option String
  pub expiry : Option Date
  pub strike : Option Price
  pub option_type : Option String
  pub multiplier : Option ℕ
  pub exchange : Option String
  pub currency : Option String
  pub tt_symbol : Option String
  pub occ_symbol : Option String
  pub streamer_symbol : Option String
  pub source_system : String
  pub metadata : Option String

pub record OrderRow : Type 0 where
  pub tt_order_id : Option String
  pub account : String
  pub origin : Origin
  pub ingest : Ingest
  pub oms_order_id : Option String
  pub client_order_id : Option String
  pub account_number : Option String
  pub source_system : String
  pub security_id : Option String
  pub underlying : Option String
  pub order_type : Option String
  pub time_in_force : Option String
  pub gtc_date : Option String
  pub price : Option Price
  pub stop_trigger : Option Price
  pub price_effect : Option String
  pub average_fill_price : Option Price
  pub is_complex : Bool
  pub complex_order_type : Option String
  pub oms_status : Option String
  pub tt_status : Option String
  pub status_message : Option String
  pub filled_quantity : Option Quantity
  pub remaining_quantity : Option Quantity
  pub signal_id : Option String
  pub trace_id : Option String
  pub strategy_id : Option ℕ
  pub trade_group_id : Option ℕ
  pub market_context_id : Option ℕ
  pub received_at : Option Instant
  pub submitted_at : Option Instant
  pub filled_at : Option Instant
  pub terminal_at : Option Instant

pub record LegRow : Type 0 where
  pub order_id : ℕ
  pub leg_index : ℕ
  pub security_id : String
  pub action : Option String
  pub quantity : Option Quantity
  pub remaining_quantity : Option Quantity
  pub quantity_direction : Option String
  pub price : Option Price
  pub fill_price : Option Price

pub record FillRow : Type 0 where
  pub fill_id : String
  pub order_id : Option ℕ
  pub order_leg_id : Option ℕ
  pub tt_order_id : Option String
  pub quantity : Option Quantity
  pub fill_price : Option Price
  pub filled_at : Option Instant
  pub destination_venue : Option String
  pub ext_exec_id : Option String
  pub ext_group_fill_id : Option String
