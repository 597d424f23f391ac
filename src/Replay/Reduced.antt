-- ===== src/Replay/Reduced.antt =====
-- The two reduced walks of tt_ledger/ingest/replay.py: the open quantity of each security
-- (`net_open_quantities`) and the realized value of one (`price_realized_gross`).
use tt_ledger.Base.{
  ℕ, String, Bool, true, false, ◌&&◌, not, Option, none, some, List, [], ◌∷◌, is_some, sorted,
  select, if◌then◌else◌,
}
use tt_ledger.Base.Assoc.{Assoc, append_at, text_eq}
use tt_ledger.Base.Int.{pos, neg, abs, min_ℤ, ltb_ℤ, eqb_ℤ, ◌+ℤ◌, ◌*ℤ◌}
use tt_ledger.Rows.{ActivityRow}
use tt_ledger.Rows.Units.{Quantity, Price, Cash, zero_decimal}
use tt_ledger.Replay.Rules.{
  Lot, flat_lot, is_settlement, is_money_movement, is_to_close, signed_delta, quantity_of, offset,
  effective_delta_price, replay_le,
}
use tt_ledger.Replay.Walk.{flips, close_value, averaged}

-- The quantity walk keeps the lot's quantity and whether the walk ever held one.
pub record NetState : Type 0 where
  pub signed_quantity : Quantity
  pub had_position : Bool

abbrev pub start_net : NetState
start_net = record { signed_quantity = zero_decimal; had_position = false }

unfoldable pub net_step : NetState → ActivityRow → NetState
net_step s row =
    if is_money_movement row
    then s
    else if is_settlement row
    then (if eqb_ℤ s.signed_quantity (pos 0) then s else record {
      signed_quantity = s.signed_quantity +ℤ offset (quantity_of row) s.signed_quantity;
      had_position = true;
    })
    else if eqb_ℤ s.signed_quantity (pos 0) && not s.had_position && is_to_close row.action
    then s
    else record {
      signed_quantity = s.signed_quantity +ℤ signed_delta row.action (quantity_of row);
      had_position = true;
    }

unfoldable pub net_rows : NetState → List ActivityRow → NetState
net_rows s [] = s
net_rows s (row ∷ rows) = net_rows (net_step s row) rows

-- a row that can affect a position: it names a security, a quantity and an instant
abbrev pub affects_position : ActivityRow → Bool
affects_position row = is_some row.security_id && is_some row.quantity && is_some row.executed_at

-- the rows of each security, in the order in which the securities first appear
unfoldable pub group_rows :
    Assoc String (List ActivityRow) → List ActivityRow → Assoc String (List ActivityRow)
group_rows acc [] = acc
group_rows acc (row ∷ rows) =
    group_rows (elim row.security_id [ none ↦ acc | some sid ↦ append_at sid row acc ]) rows

unfoldable pub by_security : List ActivityRow → Assoc String (List ActivityRow)
unfolding group_rows
by_security rows = group_rows [] (select affects_position rows)

unfoldable pub nets_of : Assoc String (List ActivityRow) → Assoc String Quantity
nets_of [] = []
nets_of ((sid, rows) ∷ rest) =
    (sid, (net_rows start_net (sorted replay_le rows)).signed_quantity) ∷ nets_of rest

unfoldable pub net_open_quantities : List ActivityRow → Assoc String Quantity
unfolding by_security nets_of
net_open_quantities rows = nets_of (by_security rows)

-- The value walk keeps the lot, what it has realized, and whether it ever held a lot.
pub record GrossState : Type 0 where
  pub lot : Lot
  pub realized : Cash
  pub had_position : Bool

abbrev pub start_gross : GrossState
start_gross = record { lot = flat_lot; realized = zero_decimal; had_position = false }

-- `clamp_closes`: a close is capped at what the lot holds
unfoldable pub clamped : Bool → Quantity → Quantity → Quantity
clamped clamp_closes held delta =
    if clamp_closes && ltb_ℤ (held *ℤ delta) (pos 0)
    then (let capped = min_ℤ (abs delta) (abs held) in
        if ltb_ℤ (pos 0) delta then capped else neg capped)
    else delta

-- `_Lot(signed_quantity=…, average_open_price=…)`
abbrev pub lot_at : Quantity → Price → Lot
lot_at q p = record flat_lot { signed_quantity = q; average_open_price = some p }

module _ (divide : Cash → Quantity → Price) (multiplier : ℕ) where
  unfoldable pub gross_apply : GrossState → Quantity → Price → GrossState
  gross_apply s delta price =
      let new_signed = s.lot.signed_quantity +ℤ delta in
      if eqb_ℤ s.lot.signed_quantity (pos 0)
      then record s { lot = lot_at new_signed price; had_position = true }
      else if ltb_ℤ (pos 0) (s.lot.signed_quantity *ℤ delta)
      then record s {
        lot = record s.lot {
          average_open_price = some (averaged divide s.lot delta price);
          signed_quantity = new_signed;
        };
        had_position = true;
      }
      else record {
        lot =
            if eqb_ℤ new_signed (pos 0)
            then flat_lot
            else if flips new_signed s.lot.signed_quantity
            then lot_at new_signed price
            else record s.lot { signed_quantity = new_signed };
        realized = s.realized +ℤ close_value multiplier s.lot delta price;
        had_position = true;
      }

  unfoldable pub gross_effect : Bool → GrossState → Quantity × Option Price → GrossState
  gross_effect clamp_closes s (delta, none) = s
  gross_effect clamp_closes s (delta, some price) =
      let delta' = clamped clamp_closes s.lot.signed_quantity delta in
      if eqb_ℤ delta' (pos 0) then s else gross_apply s delta' price

  -- rows with no quantity are skipped
  unfoldable pub gross_step : Bool → GrossState → ActivityRow → GrossState
  unfolding gross_effect
  gross_step clamp_closes s row =
      if is_some row.quantity
      then gross_effect clamp_closes s (effective_delta_price row s.lot s.had_position)
      else s

  unfoldable pub gross_rows : Bool → GrossState → List ActivityRow → GrossState
  gross_rows clamp_closes s [] = s
  gross_rows clamp_closes s (row ∷ rows) =
      gross_rows clamp_closes (gross_step clamp_closes s row) rows

  unfoldable pub price_realized_gross : Bool → List ActivityRow → Cash
  price_realized_gross clamp_closes rows =
      (gross_rows clamp_closes start_gross (sorted replay_le rows)).realized
