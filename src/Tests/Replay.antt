-- ===== src/Tests/Replay.antt =====
-- The theorems on replay (tt_ledger/ingest/replay.py) at concrete rows.
use tt_ledger.Base.{◌*◌, ◌≡◌, ◌⊎◌, refl, none, some, true, false, [], ◌∷◌, ◌++◌}
use tt_ledger.Base.Int.{pos, neg, abs, ◌+ℤ◌}
use tt_ledger.Rows.Units.{day}
use tt_ledger.Replay.Rules.{flat_lot, fees_of, is_money_movement, is_settlement}
use tt_ledger.Replay.Walk.{
  WalkState, start_state, reduce_lot, replay_rows, replay_security, direction_of,
}
use tt_ledger.Replay.Reduced.{start_net, net_rows, start_gross, gross_rows}
use tt_ledger.Replay.Agreement.{IsRegular, replay_security-net_rows}
use tt_ledger.Replay.Invariant.{IsTidy, IsTidy-flat_lot, replay_rows-IsTidy}
use tt_ledger.Replay.Books.{plan_fees, fees_booked, replay_rows-fees}
use tt_ledger.Replay.Realized.{plan_realized, gross_realized-replay_rows}
use tt_ledger.Replay.Lapse.{has_lapsed, lapse_expired_lot}
use tt_ledger.Replay.Lapsed.{IsPositionOf, lapse-books, lapse-idempotent}
use tt_ledger.Tests.{divide, bought, sold, trades, held}

bought-IsRegular : IsRegular bought
unfolding is_money_movement is_settlement
bought-IsRegular = record { priced = refl; moves = refl }

sold-IsRegular : IsRegular sold
unfolding is_money_movement is_settlement
sold-IsRegular = record { priced = refl; moves = refl }

replay_security-net_rows_example :
    let net = (net_rows start_net (bought ∷ sold ∷ [])).signed_quantity in
    let position = (replay_security divide "main" "XSP 773P" 100 (bought ∷ sold ∷ []) none).0 in
    (position.quantity ≡ abs net)
    × ((net ≡ pos 0) ⊎ (position.quantity_direction ≡ direction_of net))
replay_security-net_rows_example =
    replay_security-net_rows divide "main" "XSP 773P" 100 (bought ∷ sold ∷ []) none
      (bought-IsRegular, (sold-IsRegular, tt))

replay_rows-IsTidy_example :
    IsTidy (replay_rows divide "main" "XSP 773P" 100 start_state trades).0.lot
replay_rows-IsTidy_example =
    replay_rows-IsTidy divide "main" "XSP 773P" 100 start_state trades IsTidy-flat_lot

replay_rows-fees_example :
    let (s', plan) = replay_rows divide "main" "XSP 773P" 100 start_state trades in
    plan_fees plan +ℤ s'.lot.fees ≡ pos 0 +ℤ fees_booked trades plan
replay_rows-fees_example =
    replay_rows-fees divide "main" "XSP 773P" 100 start_state trades IsTidy-flat_lot

gross_realized-replay_rows_example :
    let (s, plan) = replay_rows divide "main" "XSP 773P" 100 start_state trades in
    let g = gross_rows divide 100 false start_gross trades in
    (g.realized ≡ plan_realized plan +ℤ s.lot.realized_pnl)
    × (g.lot.signed_quantity ≡ s.lot.signed_quantity)
    × (g.lot.average_open_price ≡ s.lot.average_open_price)
gross_realized-replay_rows_example =
    gross_realized-replay_rows divide "main" "XSP 773P" 100 trades (refl, (refl, (refl, tt)))

held_lapsed : has_lapsed held (some 30) (some (40 * day)) ≡ true
unfolding has_lapsed
held_lapsed = refl

-- the lot of that position, after a partial close
abbrev lot_held : WalkState
lot_held = record start_state {
  lot = record flat_lot {
    signed_quantity = pos 2;
    average_open_price = some (pos 3);
    realized_pnl = pos 200;
    fees = pos 2;
  };
  had_position = true;
}

held-IsPositionOf : IsPositionOf lot_held.lot held
unfolding abs
held-IsPositionOf = (refl, refl, refl)

lapse-books_example :
    let (p, plan') = lapse_expired_lot "main" "XSP 773P" held [] (some 30) 100 (some (40 * day)) in
    let (_, closing) =
      reduce_lot divide "main" "XSP 773P" 100 lot_held sold (neg (pos 2)) (pos 0) in
    (p.quantity ≡ pos 0)
    × (p.average_open_price ≡ none)
    × (p.opening_order_id ≡ none)
    × (p.position_opened_at ≡ none)
    × (pos 200 +ℤ plan_realized plan' ≡ plan_realized ([] ++ closing ∷ []))
    × (pos 2 +ℤ fees_of sold +ℤ plan_fees plan' ≡ plan_fees ([] ++ closing ∷ []))
lapse-books_example =
    lapse-books "main" "XSP 773P" held [] (some 30) 100 (some (40 * day)) divide lot_held sold
      held-IsPositionOf held_lapsed

lapse-idempotent_example :
    let once = lapse_expired_lot "main" "XSP 773P" held [] (some 30) 100 (some (40 * day)) in
    lapse_expired_lot "main" "XSP 773P" once.0 once.1 (some 30) 100 (some (40 * day)) ≡ once
lapse-idempotent_example =
    lapse-idempotent "main" "XSP 773P" held [] (some 30) 100 (some (40 * day))
