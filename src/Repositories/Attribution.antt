-- ===== src/Repositories/Attribution.antt =====
-- A resync of a placed order keeps who it belongs to (tt_ledger/repositories/__init__.py,
-- `OrderRepository._build_order_row`).
use tt_ledger.Base.{String, ◌≡◌, refl, sym, Option, some, false, Bool-cases, inl, inr, arith}
use tt_ledger.Base.Assoc.{text_eq}
use tt_ledger.Enums.{Origin}
use tt_ledger.Rows.{OrderRow}
use tt_ledger.Broker.{PlacedOrder}
use tt_ledger.Store.Table.{get_by_key}
use tt_ledger.Store.Memory.{InMemoryStore}
use tt_ledger.Repositories.Orders.{
  FillFields, enriched_order, broker_order, build_order_row, is_host_order,
}

broker_origin : (old : OrderRow) → is_host_order old ≡ false → old.origin ≡ Origin.broker
broker_origin old h = ground arith

-- The row of a placed order that is already stored keeps its origin, its trade group and its
-- correlation with the host, whether the host or the broker created it.
pub build_order_row-attribution :
    (store : InMemoryStore) (po : PlacedOrder) (account : String) (security_id : Option String)
    (fill : FillFields) (old : OrderRow)
    → get_by_key store.orders po.id ≡ some old
    → let row = build_order_row store po account security_id fill in
      (row.origin ≡ old.origin)
      × (row.trade_group_id ≡ old.trade_group_id)
      × (row.oms_order_id ≡ old.oms_order_id)
      × (row.signal_id ≡ old.signal_id)
      × (row.trace_id ≡ old.trace_id)
      × (row.strategy_id ≡ old.strategy_id)
unfolding build_order_row enriched_order broker_order
build_order_row-attribution store po account security_id fill old at =
    elim (Bool-cases (is_host_order old)) [
      | inl host ↦ rw (at, build_order_row, host) (refl, refl, refl, refl, refl, refl)
      | inr other ↦
          rw (at, build_order_row, other)
            (sym (broker_origin old other), refl, refl, refl, refl, refl)
    ]
