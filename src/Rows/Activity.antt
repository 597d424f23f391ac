-- ===== src/Rows/Activity.antt =====
-- Transactions and the activity view of them (tt_ledger/rows.py).
use tt_ledger.Base.{ℕ, String, Bool, Option}
use tt_ledger.Rows.Units.{Instant, Date, Quantity, Price, Cash}
use tt_ledger.Enums.{Origin, ReviewStatus}

pub record TxnRow : Type 0 where
  pub tt_transaction_id : String
  pub tt_order_id : Option String
  pub account : String
  pub account_number : Option String
  pub source_system : String
  pub transaction_type : Option String
  pub transaction_sub_type : Option String
  pub action : Option String
  pub security_id : Option String
  pub underlying : Option String
  pub quantity : Option Quantity
  pub price : Option Price
  pub value : Option Cash
  pub value_effect : Option String
  pub net_value : Option Cash
  pub net_value_effect : Option String
  pub commission : Option Cash
  pub clearing_fees : Option Cash
  pub regulatory_fees : Option Cash
  pub proprietary_index_option_fees : Option Cash
  pub is_estimated_fee : Option Bool
  pub description : Option String
  pub order_id : Option ℕ
  pub order_leg_id : Option ℕ
  pub position_id : Option ℕ
  pub closed_position_id : Option ℕ
  pub trade_group_id : Option ℕ
  pub executed_at : Option Instant
  pub transaction_date : Option Date

pub record ActivityRow : Type 0 where
  pub tt_transaction_id : String
  pub account : String
  pub transaction_type : Option String
  pub transaction_sub_type : Option String
  pub action : Option String
  pub security_id : Option String
  pub underlying : Option String
  pub quantity : Option Quantity
  pub price : Option Price
  pub net_value : Option Cash
  pub net_value_effect : Option String
  pub commission : Option Cash
  pub clearing_fees : Option Cash
  pub regulatory_fees : Option Cash
  pub proprietary_index_option_fees : Option Cash
  pub executed_at : Option Instant
  pub order_id : Option ℕ
  pub tt_order_id : Option String
  pub trade_group_id : Option ℕ
  pub origin : Option Origin
  pub review_status : Option ReviewStatus
  pub order_trade_group_id : Option ℕ
