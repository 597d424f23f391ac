-- ===== src/Replay/Lapse.antt =====
-- The lapse of a lot whose contract expired with no settlement row
-- (tt_ledger/ingest/replay.py, `_lapse_expired_lot`).
use tt_ledger.Base.{
  ℕ, ◌+◌, String, Bool, true, false, ◌||◌, Option, none, some, List, [], ◌∷◌, ◌++◌, leb,
  get_or_else, if◌then◌else◌,
}
use tt_ledger.Base.Int.{ℤ, pos, eqb_ℤ, ◌-ℤ◌, ◌*ℤ◌}
use tt_ledger.Base.Text.{str_eq, concat}
use tt_ledger.Rows.{PositionRow, ClosedPositionRow}
use tt_ledger.Rows.Units.{Instant, Date, Cash, zero_decimal, date_of, evening_of}
use tt_ledger.Replay.Rules.{holding_period}
use tt_ledger.Replay.Walk.{PlanEntry}

-- `(0 - average) * quantity * multiplier * sign`
unfoldable pub lapse_value : PositionRow → ℕ → Cash
lapse_value position multiplier =
    (pos 0 -ℤ get_or_else position.average_open_price zero_decimal)
    *ℤ position.quantity
    *ℤ pos multiplier
    *ℤ (if str_eq position.quantity_direction "Long" then pos 1 else ℤ.negsuc 0)

unfoldable pub lapsed_row : String → String → PositionRow → ℕ → Date → ClosedPositionRow
lapsed_row account security_id position multiplier expiry =
    let gross = lapse_value position multiplier in
    record {
      account = account;
      security_id = security_id;
      quantity = position.quantity;
      quantity_direction = position.quantity_direction;
      average_open_price = position.average_open_price;
      average_close_price = some zero_decimal;
      realized_pnl = some gross;
      fees = some zero_decimal;
      pnl_net = some gross;
      opening_order_id = position.opening_order_id;
      closing_order_id = none;
      trade_group_id = none;
      opened_at = position.position_opened_at;
      closed_at = some (evening_of expiry);
      holding_period_days = holding_period position.position_opened_at (some (evening_of expiry));
    }

-- the contract is past its expiry by more than a day of the account's own activity
unfoldable pub has_lapsed : PositionRow → Option Date → Option Instant → Bool
has_lapsed position none last_activity = false
has_lapsed position (some expiry) none = false
has_lapsed position (some expiry) (some last) =
    if eqb_ℤ position.quantity (pos 0) || leb (date_of last) (expiry + 1) then false else true

unfoldable pub lapse_expired_lot :
    String
    → String
    → PositionRow
    → List PlanEntry
    → Option Date
    → ℕ
    → Option Instant
    → PositionRow × List PlanEntry
unfolding has_lapsed
lapse_expired_lot account security_id position plan expiry multiplier last_activity =
    if has_lapsed position expiry last_activity
    then (
      record position {
        quantity = zero_decimal;
        average_open_price = none;
        opening_order_id = none;
        position_opened_at = none;
      },
      plan
          ++ record {
            tt_transaction_id = concat "__lapsed__" security_id;
            marks_open = false;
            closed =
                some (lapsed_row account security_id position multiplier (get_or_else expiry 0));
          }
            ∷ [],
    )
    else (position, plan)
