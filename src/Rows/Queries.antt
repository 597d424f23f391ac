-- ===== src/Rows/Queries.antt =====
-- Filters, read shapes and results of the queries (tt_ledger/rows.py).
use tt_ledger.Base.{ℕ, String, Bool, Option, List}
use tt_ledger.Rows.Units.{Instant, Date, Quantity, Price, Cash}
use tt_ledger.Enums.{Origin, ReviewStatus}

pub record OrderFilter : Type 0 where
  pub origin : Option Origin
  pub account : Option String
  pub status : Option String
  pub underlying : Option String
  pub trade_group_id : Option ℕ
  pub oms_order_id : Option String
  pub unlinked : Bool
  pub start_on : Option Date
  pub end_on : Option Date

pub record TradeFilter : Type 0 where
  pub origin : Option Origin
  pub review_status : Option ReviewStatus
  pub status : Option String
  pub account : Option String
  pub underlying : Option String
  pub start_on : Option Date
  pub end_on : Option Date

pub record ActivityFilter : Type 0 where
  pub account : Option String
  pub start_on : Option Date
  pub end_on : Option Date
  pub unreconciled_only : Bool

pub record TransactionQuery : Type 0 where
  pub account : Option String
  pub accounts : Option (List String)
  pub start_on : Option Date
  pub end_on : Option Date
  pub start_at : Option Instant
  pub end_at : Option Instant
  pub underlying : Option String
  pub transaction_type : Option String
  pub trade_group_id : Option ℕ
  pub limit : ℕ
  pub offset : ℕ

pub record TransactionDetailRow : Type 0 where
  pub id : ℕ
  pub tt_transaction_id : String
  pub account : String
  pub transaction_type : Option String
  pub transaction_sub_type : Option String
  pub action : Option String
  pub description : Option String
  pub security_id : Option String
  pub underlying : Option String
  pub quantity : Option Quantity
  pub price : Option Price
  pub net_value : Option Cash
  pub net_value_effect : Option String
  pub commission : Option Cash
  pub clearing_fees : Option Cash
  pub regulatory_fees : Option Cash
  pub proprietary_index_option_fees : Option Cash
  pub executed_at : Option Instant
  pub order_id : Option ℕ
  pub tt_order_id : Option String
  pub trade_group_id : Option ℕ
  pub signal_id : Option String

pub record TransactionBandPage : Type 0 where
  pub rows : List TransactionDetailRow
  pub band_total : ℕ
  pub row_total : ℕ

pub record LegDetailRow : Type 0 where
  pub id : ℕ
  pub order_id : ℕ
  pub leg_index : ℕ
  pub security_id : String
  pub action : Option String
  pub quantity : Option Quantity
  pub remaining_quantity : Option Quantity
  pub quantity_direction : Option String
  pub price : Option Price
  pub fill_price : Option Price

pub record SyncResult : Type 0 where
  pub orders : ℕ
  pub transactions : ℕ
  pub positions : ℕ
  pub balances : ℕ
  pub fills : ℕ
  pub trade_groups : ℕ
  pub healed_groups : ℕ
  pub errors : List String
