-- ===== src/Replay/Walk.antt =====
-- Replay's walk over one security's rows (tt_ledger/ingest/replay.py, `_replay_security`): the lot
-- and the plan. `divide` is the rounding division of cash by a quantity.
use tt_ledger.Base.{
  ℕ, String, Bool, true, false, not, Option, none, some, List, [], ◌∷◌, get_or_else, if◌then◌else◌,
}
use tt_ledger.Base.Int.{ℤ, pos, abs, min_ℤ, ltb_ℤ, eqb_ℤ, ◌+ℤ◌, ◌-ℤ◌, ◌*ℤ◌}
use tt_ledger.Rows.{ActivityRow, PositionRow, ClosedPositionRow}
use tt_ledger.Rows.Units.{Instant, Quantity, Price, Cash, zero_decimal}
use tt_ledger.Replay.Rules.{Lot, flat_lot, effective_delta_price, fees_of, holding_period}

-- one row of the plan: the transaction, whether it feeds the open lot, and the lifecycle it closed
pub record PlanEntry : Type 0 where
  pub tt_transaction_id : String
  pub marks_open : Bool
  pub closed : Option ClosedPositionRow

-- The loop's variables but for the plan.
pub record WalkState : Type 0 where
  pub lot : Lot
  pub last_direction : String
  pub had_position : Bool

abbrev pub start_state : WalkState
start_state = record { lot = flat_lot; last_direction = "Long"; had_position = false }

abbrev pub direction_of : Quantity → String
direction_of q = if ltb_ℤ (pos 0) q then "Long" else "Short"

-- `Decimal(1) if old_signed > 0 else Decimal(-1)`
abbrev pub sign_of : Quantity → ℤ
sign_of q = if ltb_ℤ (pos 0) q then pos 1 else ℤ.negsuc 0

-- `(new_signed > 0) != (old_signed > 0)`
abbrev pub flips : Quantity → Quantity → Bool
flips new old = if ltb_ℤ (pos 0) new then not (ltb_ℤ (pos 0) old) else ltb_ℤ (pos 0) old

-- the average of a lot that holds something
abbrev pub average_of : Lot → Price
average_of lot = get_or_else lot.average_open_price zero_decimal

-- `(price - average) * closing_qty * multiplier * sign`
unfoldable pub close_value : ℕ → Lot → Quantity → Price → Cash
close_value multiplier lot delta price =
    (price -ℤ average_of lot)
    *ℤ min_ℤ (abs delta) (abs lot.signed_quantity)
    *ℤ pos multiplier
    *ℤ sign_of lot.signed_quantity

unfoldable pub closed_row :
    String → String → Lot → Price → Option ℕ → Option Instant → ClosedPositionRow
closed_row account security_id lot close_price closing_order_id closed_at = record {
  account = account;
  security_id = security_id;
  quantity = abs lot.signed_quantity;
  quantity_direction = direction_of lot.signed_quantity;
  average_open_price = lot.average_open_price;
  average_close_price = some close_price;
  realized_pnl = some lot.realized_pnl;
  fees = some lot.fees;
  pnl_net = some (lot.realized_pnl -ℤ lot.fees);
  opening_order_id = lot.opening_order_id;
  closing_order_id = closing_order_id;
  trade_group_id = none;
  opened_at = lot.opened_at;
  closed_at = closed_at;
  holding_period_days = holding_period lot.opened_at closed_at;
}

module _ (divide : Cash → Quantity → Price) where
  -- the weighted average after `delta` more at `price`
  unfoldable pub averaged : Lot → Quantity → Price → Price
  averaged lot delta price =
      divide (abs lot.signed_quantity *ℤ average_of lot +ℤ abs delta *ℤ price)
        (abs lot.signed_quantity +ℤ abs delta)

  module _ (account security_id : String) (multiplier : ℕ) where
    -- the branch that reduces the lot: a partial close, a full close, or a flip through zero
    unfoldable pub reduce_lot : WalkState → ActivityRow → Quantity → Price → WalkState × PlanEntry
    reduce_lot s row delta price =
        let new_signed = s.lot.signed_quantity +ℤ delta in
        let lot : Lot = record s.lot {
          realized_pnl = s.lot.realized_pnl +ℤ close_value multiplier s.lot delta price;
          fees = s.lot.fees +ℤ fees_of row;
        } in
        let closed = closed_row account security_id lot price row.order_id row.executed_at in
        if eqb_ℤ new_signed (pos 0)
        then (
          record {
            lot = flat_lot;
            last_direction = closed.quantity_direction;
            had_position = true;
          },
          record {
            tt_transaction_id = row.tt_transaction_id;
            marks_open = false;
            closed = some closed;
          },
        )
        else if flips new_signed s.lot.signed_quantity
        then (
          record {
            lot = record flat_lot {
              signed_quantity = new_signed;
              average_open_price = some price;
              opened_at = row.executed_at;
              opening_order_id = row.order_id;
            };
            last_direction = closed.quantity_direction;
            had_position = true;
          },
          record {
            tt_transaction_id = row.tt_transaction_id;
            marks_open = true;
            closed = some closed;
          },
        )
        else (
          record s { lot = record lot { signed_quantity = new_signed }; had_position = true },
          record { tt_transaction_id = row.tt_transaction_id; marks_open = true; closed = none },
        )

    unfoldable pub apply_delta : WalkState → ActivityRow → Quantity → Price → WalkState × PlanEntry
    apply_delta s row delta price =
        let opens : PlanEntry = record {
          tt_transaction_id = row.tt_transaction_id;
          marks_open = true;
          closed = none;
        } in
        let new_signed = s.lot.signed_quantity +ℤ delta in
        if eqb_ℤ s.lot.signed_quantity (pos 0)
        then (
          record s {
            lot = record flat_lot {
              signed_quantity = new_signed;
              average_open_price = some price;
              opened_at = row.executed_at;
              opening_order_id = row.order_id;
              fees = fees_of row;
            };
            had_position = true;
          },
          opens,
        )
        else if ltb_ℤ (pos 0) (s.lot.signed_quantity *ℤ delta)
        then (
          record s {
            lot = record s.lot {
              average_open_price = some (averaged s.lot delta price);
              signed_quantity = new_signed;
              fees = s.lot.fees +ℤ fees_of row;
            };
            had_position = true;
          },
          opens,
        )
        else reduce_lot s row delta price

    unfoldable pub replay_effect :
        WalkState → ActivityRow → Quantity × Option Price → WalkState × PlanEntry
    replay_effect s row (delta, none) =
        (s, record { tt_transaction_id = row.tt_transaction_id; marks_open = false; closed = none })
    replay_effect s row (delta, some price) =
        if eqb_ℤ delta (pos 0)
        then (
          s,
          record { tt_transaction_id = row.tt_transaction_id; marks_open = false; closed = none },
        )
        else apply_delta s row delta price

    unfoldable pub replay_step : WalkState → ActivityRow → WalkState × PlanEntry
    unfolding replay_effect
    replay_step s row = replay_effect s row (effective_delta_price row s.lot s.had_position)

    unfoldable pub replay_rows : WalkState → List ActivityRow → WalkState × List PlanEntry
    replay_rows s [] = (s, [])
    replay_rows s (row ∷ rows) =
        let (s', entry) = replay_step s row in
        let (final, plan) = replay_rows s' rows in (final, entry ∷ plan)

    -- `_replay_security`
    unfoldable pub replay_security :
        List ActivityRow → Option PositionRow → PositionRow × List PlanEntry
    replay_security rows existing =
        let (s, plan) = replay_rows start_state rows in
        (
          record {
            account = account;
            security_id = security_id;
            quantity = abs s.lot.signed_quantity;
            quantity_direction =
                if ltb_ℤ (pos 0) s.lot.signed_quantity
                then "Long"
                else if ltb_ℤ s.lot.signed_quantity (pos 0)
                then "Short"
                else s.last_direction;
            average_open_price = s.lot.average_open_price;
            mark_price = elim existing [ none ↦ none | some p ↦ p.mark_price ];
            close_price = elim existing [ none ↦ none | some p ↦ p.close_price ];
            unrealized_pnl = elim existing [ none ↦ none | some p ↦ p.unrealized_pnl ];
            realized_day_gain = elim existing [ none ↦ none | some p ↦ p.realized_day_gain ];
            multiplier = multiplier;
            expires_at = elim existing [ none ↦ none | some p ↦ p.expires_at ];
            strategy_id = elim existing [ none ↦ none | some p ↦ p.strategy_id ];
            opening_order_id = s.lot.opening_order_id;
            trade_group_id = elim existing [ none ↦ none | some p ↦ p.trade_group_id ];
            position_opened_at = s.lot.opened_at;
          },
          plan,
        )
