-- ===== src/Rows/Positions.antt =====
-- Positions, closed positions and balances (tt_ledger/rows.py).
use tt_ledger.Base.{ℕ, String, Option}
use tt_ledger.Base.Int.{ℤ}
use tt_ledger.Rows.Units.{Instant, Quantity, Price, Cash}

pub record PositionRow : Type 0 where
  pub account : String
  pub security_id : String
  pub quantity : Quantity
  pub quantity_direction : String
  pub average_open_price : Option Price
  pub mark_price : Option Price
  pub close_price : Option Price
  pub unrealized_pnl : Option Cash
  pub realized_day_gain : Option Cash
  pub multiplier : ℕ
  pub expires_at : Option Instant
  pub strategy_id : Option ℕ
  pub opening_order_id : Option ℕ
  pub trade_group_id : Option ℕ
  pub position_opened_at : Option Instant

pub record OpenGroupLegRow : Type 0 where
  pub account : String
  pub security_id : String
  pub trade_group_id : ℕ
  pub net_open : ℤ
  pub average_open_price : Option Price
  pub direction : String

pub record ClosedPositionRow : Type 0 where
  pub account : String
  pub security_id : String
  pub quantity : Quantity
  pub quantity_direction : String
  pub average_open_price : Option Price
  pub average_close_price : Option Price
  pub realized_pnl : Option Cash
  pub fees : Option Cash
  pub pnl_net : Option Cash
  pub opening_order_id : Option ℕ
  pub closing_order_id : Option ℕ
  pub trade_group_id : Option ℕ
  pub opened_at : Option Instant
  pub closed_at : Option Instant
  pub holding_period_days : Option ℤ

pub record BalanceSnapshotRow : Type 0 where
  pub account : String
  pub captured_at : Instant
  pub source : String
  pub net_liquidating_value : Option Cash
  pub cash_balance : Option Cash
  pub equity_buying_power : Option Cash
  pub derivative_buying_power : Option Cash
  pub maintenance_requirement : Option Cash
  pub pending_cash : Option Cash
  pub day_trading_buying_power : Option Cash
  pub raw : Option String
