-- ===== src/Repositories/Fills.antt =====
-- A fill of the stream enriches a stored order and creates none
-- (tt_ledger/repositories/__init__.py, `apply_fill_event`).
use tt_ledger.Base.{
  if◌then◌else◌, ℕ, String, Option, none, some, or_option, ◌≡◌, refl, Option-cases, Bool-cases, ◌⊎◌,
  inl, inr, arith,
}
use tt_ledger.Base.Assoc.{option_beq, lookup, text_eq, id_eq}
use tt_ledger.Base.Text.{opt_is}
use tt_ledger.Rows.{OrderRow}
use tt_ledger.Broker.{FillEvent}
use tt_ledger.Store.Table.{Table, get, get_by_key, id_of, upsert}
use tt_ledger.Store.Keys.{IsIndexed, upsert-get_by_key}
use tt_ledger.Store.Memory.{
  InMemoryStore, order_key, upsert_orders, upsert_order_rows, upsert_order, merged_order,
  existing_order, keep_order_linkage,
}
use tt_ledger.Repositories.Orders.{status_text, map_order_status, filled_order, apply_fill_event}

or_option_self {ℓ} : {A : Type ℓ} (a : Option A) → or_option a a ≡ a
or_option_self none = refl
or_option_self (some a) = refl

-- the event's own linkage is the stored one, so the merge leaves it
keep_order_linkage-filled_order :
    (old : OrderRow) (evt : FillEvent)
    → keep_order_linkage old (filled_order old evt) ≡ filled_order old evt
unfolding keep_order_linkage filled_order
keep_order_linkage-filled_order old evt =
    rw
      (
        or_option_self old.oms_order_id,
        or_option_self old.client_order_id,
        or_option_self old.signal_id,
        or_option_self old.trace_id,
        or_option_self old.strategy_id,
        or_option_self old.trade_group_id,
        or_option_self old.market_context_id,
      )
      refl

existing_order-cases :
    (orders : Table String OrderRow) (row : OrderRow) (k : String)
    → row.tt_order_id ≡ some k
    → (existing_order orders row ≡ none) ⊎ (existing_order orders row ≡ get_by_key orders k)
unfolding existing_order
existing_order-cases orders row k keyed = rw keyed (elim (Bool-cases (opt_is (some k) "")) [
  | inl blank ↦ inl (ground arith)
  | inr named ↦ inr (ground arith)
])

module _ (orders : Table String OrderRow) (old : OrderRow) (evt : FillEvent) (k : String)
    (keyed : old.tt_order_id ≡ some k) (at : get_by_key orders k ≡ some old) where
  filled_order-key : (filled_order old evt).tt_order_id ≡ some k
  unfolding filled_order
  filled_order-key = keyed

  merged_order-filled : merged_order orders (filled_order old evt) ≡ filled_order old evt
  unfolding merged_order
  merged_order-filled =
      elim (existing_order-cases orders (filled_order old evt) k filled_order-key) [
        | inl missing ↦ ground (arith, missing)
        | inr found ↦ ground (arith, found, at, keep_order_linkage-filled_order old evt)
      ]

  upsert_order-upsert :
      upsert_order orders (filled_order old evt) ≡ upsert order_key orders (filled_order old evt)
  unfolding upsert_order
  upsert_order-upsert = rw merged_order-filled refl

-- a key that is found leads to a row by way of its id
stored_at :
    (orders : Table String OrderRow) (k : String) (old : OrderRow)
    → get_by_key orders k ≡ some old
    → (i : ℕ) × (lookup k orders.index ≡ some i) × (lookup i orders.rows ≡ some old)
unfolding get_by_key
stored_at orders k old at = elim (Option-cases (lookup k orders.index)) [
  | inl missing ↦ ground (arith, missing)
  | inr (i, found) ↦ (i, found, ground (arith, found))
]

apply_fill_event-filled :
    (store : InMemoryStore) (evt : FillEvent) (old : OrderRow)
    → get_by_key store.orders evt.tt_order_id ≡ some old
    → apply_fill_event store evt ≡ (
      record store { orders = (upsert_order store.orders (filled_order old evt)).0 },
      some (filled_order old evt),
    )
unfolding apply_fill_event upsert_orders upsert_order_rows
apply_fill_event-filled store evt old at = rw (at, apply_fill_event) refl

-- What a fill event makes of a stored order: each value that the event has replaces the stored one,
-- the status by its normal form too, and nothing else changes.
abbrev pub IsFilledBy : FillEvent → OrderRow → OrderRow → Type 0
IsFilledBy evt old new =
    (new.tt_status ≡ or_option evt.status old.tt_status)
    × (new.oms_status ≡ or_option (status_text (map_order_status evt.status)) old.oms_status)
    × (new.average_fill_price ≡ or_option evt.average_fill_price old.average_fill_price)
    × (new.filled_quantity ≡ or_option evt.filled_quantity old.filled_quantity)
    × (new.remaining_quantity ≡ or_option evt.remaining_quantity old.remaining_quantity)
    × (new.filled_at ≡ or_option evt.filled_at old.filled_at)
    × ((record new {
      oms_status = old.oms_status;
      tt_status = old.tt_status;
      average_fill_price = old.average_fill_price;
      filled_quantity = old.filled_quantity;
      remaining_quantity = old.remaining_quantity;
      filled_at = old.filled_at;
    })
        ≡ old)

IsFilledBy-filled_order :
    (evt : FillEvent) (old : OrderRow) → IsFilledBy evt old (filled_order old evt)
unfolding filled_order
IsFilledBy-filled_order evt old = (refl, refl, refl, refl, refl, refl, refl)

-- In a store whose orders are indexed, a fill of a known order writes and returns that order with
-- the event's status, average price, quantities and fill instant where it has them and all else as
-- it was, under the id it had; it adds no order, and leaves every other order as it is.
pub apply_fill_event-known :
    (store : InMemoryStore) (evt : FillEvent) (old : OrderRow) (i : ℕ)
    → IsIndexed order_key store.orders
    → get_by_key store.orders evt.tt_order_id ≡ some old
    → let (store', result) = apply_fill_event store evt in
      ((new : OrderRow) × ((result ≡ some new) × IsFilledBy evt old new))
      × (get_by_key store'.orders evt.tt_order_id ≡ result)
      × (store'.orders.next_id ≡ store.orders.next_id)
      × (get store'.orders i ≡ (
          if option_beq (id_of store.orders evt.tt_order_id) (some i)
          then result
          else get store.orders i))
unfolding id_of lookup
apply_fill_event-known store evt old i v at =
    let k = evt.tt_order_id in
    let (j, found, row_at) = stored_at store.orders k old at in
    let (r, p, q) = v.sound k j found in
    let keyed : old.tt_order_id ≡ some k = ground (arith, row_at, p, q) in
    let row = filled_order old evt in
    let keyed' = filled_order-key store.orders old evt k keyed at in
    let (read, _, _, same_id, no_new, others) =
      upsert-get_by_key order_key store.orders row k i keyed' in
    rw
      (
        apply_fill_event-filled store evt old at,
        upsert_order-upsert store.orders old evt k keyed at,
      )
      (
        (row, (refl, IsFilledBy-filled_order evt old)),
        read,
        ground (arith, found, no_new),
        ground (arith, found, same_id, others),
      )
