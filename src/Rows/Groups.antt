-- ===== src/Rows/Groups.antt =====
-- Trade groups and their events (tt_ledger/rows.py). A JSON column is kept as its text.
use tt_ledger.Base.{ℕ, String, Bool, Option}
use tt_ledger.Rows.Units.{Instant, Quantity, Cash}
use tt_ledger.Enums.{Origin, ReviewStatus}

pub record TradeGroupRow : Type 0 where
  pub group_id : String
  pub account : String
  pub origin : Origin
  pub source_system : String
  pub review_status : ReviewStatus
  pub manually_attributed : Bool
  pub reviewed_at : Option Instant
  pub reviewed_by : Option String
  pub underlying : Option String
  pub security_id : Option String
  pub strategy_type : Option String
  pub leg_count : ℕ
  pub total_premium : Option Cash
  pub quantity : Option Quantity
  pub total_fees : Option Cash
  pub status : String
  pub realized_pnl : Option Cash
  pub unrealized_pnl : Option Cash
  pub max_profit : Option Cash
  pub max_loss : Option Cash
  pub initial_risk : Option Cash
  pub profit_target : Option String
  pub stop_loss : Option String
  pub exit_strategy : Option String
  pub structure : Option String
  pub order_id : Option ℕ
  pub strategy_id : Option ℕ
  pub bot_name : Option String
  pub signal_id : Option String
  pub executed_at : Option Instant
  pub closed_at : Option Instant

pub record EventRow : Type 0 where
  pub trade_group_id : ℕ
  pub event_type : String
  pub quantity_change : Quantity
  pub premium_change : Cash
  pub realized_pnl : Option Cash
  pub event_at : Option Instant
  pub notes : Option String
  pub rolled_to_group_id : Option ℕ
  pub transaction_id : Option ℕ
  pub order_id : Option ℕ

pub record TradeRow : Type 0 where
  pub group_id : String
  pub account : String
  pub origin : Origin
  pub source_system : String
  pub review_status : ReviewStatus
  pub manually_attributed : Bool
  pub underlying : Option String
  pub security_id : Option String
  pub strategy_type : Option String
  pub leg_count : ℕ
  pub total_premium : Option Cash
  pub quantity : Option Quantity
  pub total_fees : Option Cash
  pub status : String
  pub realized_pnl : Option Cash
  pub unrealized_pnl : Option Cash
  pub max_profit : Option Cash
  pub max_loss : Option Cash
  pub initial_risk : Option Cash
  pub structure : Option String
  pub order_id : Option ℕ
  pub strategy_id : Option ℕ
  pub bot_name : Option String
  pub signal_id : Option String
  pub executed_at : Option Instant
  pub closed_at : Option Instant
