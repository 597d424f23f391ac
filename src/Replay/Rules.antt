-- ===== src/Replay/Rules.antt =====
-- The rules that replay reads off one transaction (tt_ledger/ingest/replay.py): what settles,
-- what closes, in which direction a trade moves the lot, and its fees.
use tt_ledger.Base.{
  ℕ, ◌+◌, ◌-◌, ◌/◌, String, Bool, ◌&&◌, ◌||◌, not, Option, none, some, List, [], ◌∷◌, ltb, leb, eqb,
  get_or_else, if◌then◌else◌,
}
use tt_ledger.Base.Int.{ℤ, pos, neg, abs, min_ℤ, ltb_ℤ, eqb_ℤ, ◌+ℤ◌}
use tt_ledger.Base.Text.{codes, strip, lower, starts_with, ends_with, or_empty, opt_is, opt_member}
use tt_ledger.Rows.{ActivityRow}
use tt_ledger.Rows.Units.{Instant, Quantity, Price, Cash, zero_decimal, day}

-- The running lot of one (account, security).
pub record Lot : Type 0 where
  pub signed_quantity : Quantity
  pub average_open_price : Option Price
  pub opened_at : Option Instant
  pub opening_order_id : Option ℕ
  pub realized_pnl : Cash
  pub fees : Cash

-- `_Lot()`
abbrev pub flat_lot : Lot
flat_lot = record {
  signed_quantity = zero_decimal;
  average_open_price = none;
  opened_at = none;
  opening_order_id = none;
  realized_pnl = zero_decimal;
  fees = zero_decimal;
}

abbrev pub settlement_subtypes : List String
settlement_subtypes =
    "Expiration" ∷ "Assignment" ∷ "Cash Settled Assignment" ∷ "Exercise" ∷ "Cash Settled Exercise"
    ∷ []

unfoldable pub is_settlement : ActivityRow → Bool
is_settlement row =
    opt_is row.transaction_type "Receive Deliver"
    && opt_member row.transaction_sub_type settlement_subtypes

unfoldable pub is_money_movement : ActivityRow → Bool
is_money_movement row = opt_is row.transaction_type "Money Movement"

-- `(action or "").strip().endswith("to Close")`
unfoldable pub is_to_close : Option String → Bool
unfolding codes strip ends_with or_empty
is_to_close action = ends_with (strip (or_empty action)) (codes "to Close")

-- `action is not None and action.strip().lower().startswith("sell")`
unfoldable pub is_sell : Option String → Bool
unfolding codes strip lower starts_with or_empty
is_sell action = starts_with (lower (strip (or_empty action))) (codes "sell")

unfoldable pub signed_delta : Option String → Quantity → Quantity
signed_delta action quantity = if is_sell action then neg quantity else quantity

-- Callers skip the rows that carry no quantity.
abbrev pub quantity_of : ActivityRow → Quantity
quantity_of row = get_or_else row.quantity zero_decimal

-- A settlement's move: towards a flat lot and no further.
unfoldable pub offset : Quantity → Quantity → Quantity
offset quantity held =
    let size = min_ℤ (abs quantity) (abs held) in if ltb_ℤ (pos 0) held then neg size else size

unfoldable pub effective_delta_price : ActivityRow → Lot → Bool → Quantity × Option Price
effective_delta_price row lot had_position =
    if is_money_movement row
    then (zero_decimal, none)
    else if is_settlement row
    then (if eqb_ℤ lot.signed_quantity (pos 0) then (zero_decimal, none) else (
      offset (quantity_of row) lot.signed_quantity,
      some (get_or_else row.price zero_decimal),
    ))
    else if eqb_ℤ lot.signed_quantity (pos 0) && not had_position && is_to_close row.action
    then (zero_decimal, none)
    else (signed_delta row.action (quantity_of row), row.price)

-- 1 for a row that is applied after the opens of its instant
unfoldable pub closes_last : ActivityRow → ℕ
closes_last row = if is_settlement row then 1 else if is_to_close row.action then 1 else 0

-- the sort key `(executed_at or _EPOCH, _closes_last(row))`
unfoldable pub replay_le : ActivityRow → ActivityRow → Bool
replay_le a b =
    let s = get_or_else a.executed_at 0 in
    let t = get_or_else b.executed_at 0 in ltb s t || eqb s t && leb (closes_last a) (closes_last b)

unfoldable pub fees_of : ActivityRow → Cash
fees_of row =
    get_or_else row.commission zero_decimal
    +ℤ get_or_else row.clearing_fees zero_decimal
    +ℤ get_or_else row.regulatory_fees zero_decimal
    +ℤ get_or_else row.proprietary_index_option_fees zero_decimal

-- `(closed_at - opened_at).days`, rounded down
unfoldable pub days_between : Instant → Instant → ℤ
days_between opened_at closed_at =
    if leb opened_at closed_at
    then pos ((closed_at - opened_at) / day)
    else neg (pos ((opened_at - closed_at + day - 1) / day))

unfoldable pub holding_period : Option Instant → Option Instant → Option ℤ
holding_period none closed_at = none
holding_period (some opened_at) none = none
holding_period (some opened_at) (some closed_at) = some (days_between opened_at closed_at)
