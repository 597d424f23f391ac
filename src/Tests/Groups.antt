-- ===== src/Tests/Groups.antt =====
-- The theorems on reconcile (tt_ledger/ingest/reconcile.py) at concrete rows.
use tt_ledger.Base.{ℕ, ◌≡◌, ◌↔◌, refl, none, some, true, false, [], ◌∷◌, ◌++◌, AllOf, if◌then◌else◌}
use tt_ledger.Base.Int.{pos, neg, abs, eqb_ℤ, ◌≤ℤ◌, ◌-ℤ◌, min_ℤ}
use mathlib.Core.List.{Perm, flatten}
use tt_ledger.Replay.Rules.{is_sell, is_money_movement}
use tt_ledger.Enums.{StrategyType}
use tt_ledger.Reconcile.Rules.{
  is_closing, is_nontrade_close, has_closing_action, event_of_subtype, is_position_row, time_le,
  ordered_position_rows,
}
use tt_ledger.Reconcile.Nets.{net_at, net_quantities, peak_exposures, group_net_step, clamp_close}
use tt_ledger.Reconcile.Clamp.{
  Shrinks, OpensLong, group_net_step-Shrinks, net_quantities_closing, net_quantities_long,
}
use tt_ledger.Rows.{ActivityRow}
use tt_ledger.Reconcile.Closing.{settled_quantity}
use tt_ledger.Reconcile.Settled.{contracts, settled_quantity-one_security}
use tt_ledger.Reconcile.Peaks.{peak_exposures-net_quantities}
use tt_ledger.Reconcile.Cluster.{cluster_by_time, clusters_of, dated_rows}
use tt_ledger.Reconcile.Windows.{AreWindows, flatten-cluster_by_time-perm, clusters_of-AreWindows}
use tt_ledger.Reconcile.Strategy.{
  LegInfo, same_expiry, same_type, same_strike, all_same, classify_two_leg, classify_four_leg,
}
use tt_ledger.Reconcile.Shapes.{classify_two_leg-vertical, classify_four_leg-condor}
use tt_ledger.Reconcile.Route.{OpenGroup, Holding, route_cluster, draw_down}
use tt_ledger.Reconcile.Partition.{bucket_rows, route_cluster-perm, AllShrink, draw_down-AllShrink}
use tt_ledger.Tests.{bought, sold, late, trades, assigned}

assigned_closes : is_closing assigned ≡ true
unfolding is_closing is_nontrade_close has_closing_action event_of_subtype
assigned_closes = refl

sold_closes : is_closing sold ≡ true
unfolding is_closing is_nontrade_close has_closing_action event_of_subtype
sold_closes = refl

assigned_step : group_net_step (pos 2) assigned ≡ some (pos 0)
unfolding group_net_step clamp_close is_nontrade_close event_of_subtype ◌-ℤ◌ min_ℤ abs
    is_money_movement
assigned_step = refl

group_net_step-Shrinks_example : Shrinks (pos 2) (pos 0) × (eqb_ℤ (pos 2) (pos 0) ≡ false)
group_net_step-Shrinks_example =
    group_net_step-Shrinks (pos 2) (pos 0) assigned assigned_closes assigned_step

sold_ordered_closes : AllOf (λ r. is_closing r ≡ true) (ordered_position_rows (sold ∷ []))
unfolding ordered_position_rows is_position_row
sold_ordered_closes = (sold_closes, tt)

bought-OpensLong : AllOf OpensLong (ordered_position_rows (bought ∷ sold ∷ []))
unfolding ordered_position_rows is_position_row time_le is_closing is_nontrade_close
    has_closing_action event_of_subtype is_sell
bought-OpensLong = (refl, (refl, tt))

abbrev assigned_cash : ActivityRow
assigned_cash = record assigned { transaction_sub_type = some "Cash Settled Assignment" }

-- the money row before the removal, and a second removal
settled_quantity-one_security_example :
    settled_quantity (assigned_cash ∷ assigned ∷ assigned ∷ []) ≡ (
      if eqb_ℤ (contracts false (assigned_cash ∷ assigned ∷ assigned ∷ [])) (pos 0)
      then contracts true (assigned_cash ∷ assigned ∷ assigned ∷ [])
      else contracts false (assigned_cash ∷ assigned ∷ assigned ∷ []))
settled_quantity-one_security_example =
    settled_quantity-one_security (some "XSP 773P") (assigned_cash ∷ assigned ∷ assigned ∷ [])
      (refl, (refl, (refl, tt)))

net_quantities_closing_example : net_quantities (sold ∷ []) ≡ []
net_quantities_closing_example = net_quantities_closing (sold ∷ []) sold_ordered_closes

net_quantities_long_example : pos 0 ≤ℤ net_at (net_quantities (bought ∷ sold ∷ [])) "XSP 773P"
net_quantities_long_example = net_quantities_long (bought ∷ sold ∷ []) bought-OpensLong "XSP 773P"

peak_exposures-net_quantities_example :
    abs (net_at (net_quantities trades) "XSP 773P") ≤ℤ net_at (peak_exposures trades) "XSP 773P"
peak_exposures-net_quantities_example = peak_exposures-net_quantities trades "XSP 773P"

flatten-cluster_by_time-perm_example : Perm (flatten (cluster_by_time trades)) trades
flatten-cluster_by_time-perm_example = flatten-cluster_by_time-perm trades

clusters_of-AreWindows_example : AreWindows (clusters_of (dated_rows trades))
clusters_of-AreWindows_example = clusters_of-AreWindows trades

abbrev call : ℕ → LegInfo
call strike = record {
  product_type = "OS";
  option_type = some "C";
  expiry = some 30;
  strike = some (pos strike);
  quantity = pos 1;
}

classify_two_leg-vertical_example :
    (classify_two_leg (call 100) (call 105) ≡ StrategyType.vertical) ↔ (
      (same_expiry (call 100) (call 105) ≡ true)
      × (same_type (call 100) (call 105) ≡ true)
      × (eqb_ℤ (pos 1) (pos 1) ≡ true)
      × (same_strike (call 100) (call 105) ≡ false))
classify_two_leg-vertical_example = classify_two_leg-vertical (call 100) (call 105)

classify_four_leg-condor_example :
    (classify_four_leg (call 100 ∷ call 100 ∷ call 105 ∷ call 105 ∷ []) ≡ StrategyType.condor) ↔ (
      (all_same same_expiry (call 100 ∷ call 100 ∷ call 105 ∷ call 105 ∷ []) ≡ true)
      × (all_same same_type (call 100 ∷ call 100 ∷ call 105 ∷ call 105 ∷ []) ≡ true))
classify_four_leg-condor_example =
    classify_four_leg-condor (call 100) (call 100) (call 105) (call 105)

abbrev group : OpenGroup
group = record { pk = 7; rows = bought ∷ [] }

route_cluster-perm_example :
    let (buckets, rest) = route_cluster (group ∷ []) (sold ∷ late ∷ []) in
    Perm (bucket_rows buckets ++ rest) (sold ∷ late ∷ [])
route_cluster-perm_example = route_cluster-perm (group ∷ []) (sold ∷ late ∷ [])

abbrev holding : Holding
holding = record { group = group; nets = ("XSP 773P", pos 2) ∷ [] }

draw_down-AllShrink_example :
    AllShrink
      (holding ∷ [])
      (draw_down "XSP 773P" (pos 5) (some (neg (pos 5))) none (holding ∷ [])).0
draw_down-AllShrink_example =
    draw_down-AllShrink "XSP 773P" (pos 5) (some (neg (pos 5))) none (holding ∷ [])
