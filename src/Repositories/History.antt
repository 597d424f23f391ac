-- ===== src/Repositories/History.antt =====
-- Orders from the broker's history (tt_ledger/repositories/__init__.py,
-- `OrderRepository.upsert_from_history`). An error of the resolver leaves what was written before.
use tt_ledger.Base.{ℕ, suc, String, Option, none, some, List, [], ◌∷◌, ◌++◌, map, length}
use tt_ledger.Rows.{OrderRow, LegRow, FillRow}
use tt_ledger.Rows.Units.{Quantity, Price, Cash}
use tt_ledger.Broker.{PlacedFill, PlacedLeg, PlacedOrder}
use tt_ledger.Store.Memory.{InMemoryStore, upsert_orders}
use tt_ledger.Store.Writes.{upsert_legs, upsert_fills}
use tt_ledger.Repositories.Orders.{build_order_row}
use tt_ledger.Repositories.Quantities.{order_level_fill_fields, vwap}
use tt_ledger.Repositories.Securities.{
  Attempt, ok, raised, ResolvedSecurity, SecurityResolver, Seen, note_security,
}

-- the legs of one order, each with its security
unfoldable pub resolve_legs :
    SecurityResolver → Seen → List PlacedLeg → Seen × Attempt (List ResolvedSecurity)
unfolding note_security
resolve_legs resolve seen [] = (seen, ok [])
resolve_legs resolve seen (leg ∷ legs) = elim (resolve leg.symbol (some leg.instrument_type)) [
  | raised text ↦ (seen, raised text)
  | ok resolved ↦
      let (seen', rest) = resolve_legs resolve (note_security seen resolved leg.symbol) legs in
      elim rest [
        | raised text ↦ (seen', raised text)
        | ok resolveds ↦ (seen', ok (resolved ∷ resolveds))
      ]
]

unfoldable pub resolve_orders :
    SecurityResolver
    → Seen
    → List PlacedOrder
    → Seen × Attempt (List (PlacedOrder × List ResolvedSecurity))
unfolding resolve_legs
resolve_orders resolve seen [] = (seen, ok [])
resolve_orders resolve seen (po ∷ pos) =
    let (seen', legs) = resolve_legs resolve seen po.legs in
    elim legs [
      | raised text ↦ (seen', raised text)
      | ok resolveds ↦
          let (seen'', rest) = resolve_orders resolve seen' pos in
          elim rest [
            | raised text ↦ (seen'', raised text)
            | ok orders ↦ (seen'', ok ((po, resolveds) ∷ orders))
          ]
    ]

-- `resolved_legs[i][0].security_id if len(po.legs) == 1 else None`
abbrev pub sole_security : List ResolvedSecurity → Option String
sole_security (resolved ∷ []) = some resolved.security_id
sole_security _ = none

-- a leg, with the ids that its fills name
abbrev pub OwnedLeg : Type 0
OwnedLeg = PlacedOrder × (ℕ × PlacedLeg)

unfoldable pub owned_legs : PlacedOrder → ℕ → List PlacedLeg → List OwnedLeg
owned_legs po order_id [] = []
owned_legs po order_id (leg ∷ legs) = (po, (order_id, leg)) ∷ owned_legs po order_id legs

unfoldable pub leg_owners : List (PlacedOrder × List ResolvedSecurity) → List ℕ → List OwnedLeg
unfolding owned_legs
leg_owners ((po, _) ∷ orders) (order_id ∷ ids) =
    owned_legs po order_id po.legs ++ leg_owners orders ids
leg_owners _ _ = []

unfoldable pub fill_row : PlacedOrder → ℕ → ℕ → PlacedFill → FillRow
fill_row po order_id leg_id f = record {
  fill_id = f.fill_id;
  order_id = some order_id;
  order_leg_id = some leg_id;
  tt_order_id = some po.id;
  quantity = some f.quantity;
  fill_price = some f.fill_price;
  filled_at = some f.filled_at;
  destination_venue = f.destination_venue;
  ext_exec_id = f.ext_exec_id;
  ext_group_fill_id = f.ext_group_fill_id;
}

-- `zip(leg_owner, leg_ids)`
unfoldable pub fill_rows : List OwnedLeg → List ℕ → List FillRow
unfolding fill_row
fill_rows ((po, (order_id, leg)) ∷ owners) (leg_id ∷ ids) =
    map (fill_row po order_id leg_id) leg.fills ++ fill_rows owners ids
fill_rows _ _ = []

module _ (unit : ℕ) (divide : Cash → Quantity → Price) (share : Quantity → ℕ → Quantity) where
  unfoldable pub order_rows :
      InMemoryStore → String → List (PlacedOrder × List ResolvedSecurity) → List OrderRow
  order_rows store account [] = []
  order_rows store account ((po, resolveds) ∷ orders) =
      build_order_row store po account (sole_security resolveds)
        (order_level_fill_fields unit divide share po.legs po.price_effect)
      ∷ order_rows store account orders

  unfoldable pub placed_leg_row : ℕ → ℕ → PlacedLeg → ResolvedSecurity → LegRow
  placed_leg_row order_id index leg resolved = record {
    order_id = order_id;
    leg_index = index;
    security_id = resolved.security_id;
    action = some leg.action;
    quantity = some leg.quantity;
    remaining_quantity = some leg.remaining_quantity;
    quantity_direction = none;
    price = none;
    fill_price = vwap unit divide share leg.fills;
  }

  unfoldable pub leg_rows_from : ℕ → ℕ → List PlacedLeg → List ResolvedSecurity → List LegRow
  unfolding placed_leg_row
  leg_rows_from order_id index (leg ∷ legs) (resolved ∷ resolveds) =
      placed_leg_row order_id index leg resolved ∷ leg_rows_from order_id (suc index) legs resolveds
  leg_rows_from order_id index _ _ = []

  unfoldable pub placed_leg_rows : List (PlacedOrder × List ResolvedSecurity) → List ℕ → List LegRow
  unfolding leg_rows_from
  placed_leg_rows ((po, resolveds) ∷ orders) (order_id ∷ ids) =
      leg_rows_from order_id 0 po.legs resolveds ++ placed_leg_rows orders ids
  placed_leg_rows _ _ = []

  -- the writes once all is resolved: orders, legs, fills
  unfoldable pub store_history :
      InMemoryStore → String → List (PlacedOrder × List ResolvedSecurity) → InMemoryStore × ℕ
  unfolding order_rows placed_leg_rows leg_owners fill_rows
  store_history store account orders =
      let rows = order_rows store account orders in
      let (ordered, order_ids) = upsert_orders store rows in
      let (legged, leg_ids) = upsert_legs ordered (placed_leg_rows orders order_ids) in
      (upsert_fills legged (fill_rows (leg_owners orders order_ids) leg_ids), length rows)

  unfoldable pub upsert_from_history :
      SecurityResolver → InMemoryStore → List PlacedOrder → String → InMemoryStore × Attempt ℕ
  unfolding resolve_orders store_history
  upsert_from_history resolve store placed_orders account =
      let (seen, resolved) =
        resolve_orders resolve (record { store = store; ids = [] }) placed_orders in
      elim resolved [
        | raised text ↦ (seen.store, raised text)
        | ok orders ↦
            let (written, count) = store_history seen.store account orders in (written, ok count)
      ]
