-- ===== src/Repositories/Orders.antt =====
-- The order repository (tt_ledger/repositories/__init__.py): the normalised status, the fill
-- event of the stream and the row of a placed order.
use tt_ledger.Base.{
  String, Bool, true, false, Option, none, some, List, [], ◌∷◌, or_option, if◌then◌else◌,
}
use tt_ledger.Base.Assoc.{text_eq}
use tt_ledger.Base.Text.{codes, strip, lower}
use tt_ledger.Legs.{same_codes}
use tt_ledger.Enums.{Origin, Ingest, OrderStatus, order_status_value}
use tt_ledger.Rows.{OrderRow}
use tt_ledger.Rows.Units.{Price, Quantity}
use tt_ledger.Broker.{FillEvent, PlacedOrder, is_complex}
use tt_ledger.Store.Table.{get_by_key}
use tt_ledger.Store.Memory.{InMemoryStore, upsert_orders}

-- `_STATUS_MAP`
abbrev pub status_map : List (String × OrderStatus)
status_map =
    ("received", OrderStatus.pending)
    ∷ ("routed", OrderStatus.submitted)
    ∷ ("in flight", OrderStatus.submitted)
    ∷ ("live", OrderStatus.working)
    ∷ ("contingent", OrderStatus.working)
    ∷ ("cancel requested", OrderStatus.working)
    ∷ ("replace requested", OrderStatus.working)
    ∷ ("filled", OrderStatus.filled)
    ∷ ("cancelled", OrderStatus.cancelled)
    ∷ ("canceled", OrderStatus.cancelled)
    ∷ ("removed", OrderStatus.cancelled)
    ∷ ("partially removed", OrderStatus.cancelled)
    ∷ ("rejected", OrderStatus.rejected)
    ∷ ("expired", OrderStatus.expired)
    ∷ []

unfoldable pub status_of : List (String × OrderStatus) → String → Option OrderStatus
unfolding codes strip lower same_codes
status_of [] raw = none
status_of ((name, status) ∷ rest) raw =
    if same_codes (lower (strip (codes raw))) (codes name) then some status else status_of rest raw

unfoldable pub map_order_status : Option String → Option OrderStatus
unfolding status_of
map_order_status none = none
map_order_status (some raw) = status_of status_map raw

-- `oms_status.value if oms_status else …`
abbrev pub status_text : Option OrderStatus → Option String
status_text none = none
status_text (some status) = some (order_status_value status)

-- the row that a fill event makes of a stored one
unfoldable pub filled_order : OrderRow → FillEvent → OrderRow
filled_order existing evt = record existing {
  oms_status = or_option (status_text (map_order_status evt.status)) existing.oms_status;
  tt_status = or_option evt.status existing.tt_status;
  average_fill_price = or_option evt.average_fill_price existing.average_fill_price;
  filled_quantity = or_option evt.filled_quantity existing.filled_quantity;
  remaining_quantity = or_option evt.remaining_quantity existing.remaining_quantity;
  filled_at = or_option evt.filled_at existing.filled_at;
}

unfoldable pub apply_fill_event : InMemoryStore → FillEvent → InMemoryStore × Option OrderRow
apply_fill_event store evt = elim (get_by_key store.orders evt.tt_order_id) [
  | none ↦ (store, none)
  | some existing ↦
      let updated = filled_order existing evt in
      ((upsert_orders store (updated ∷ [])).0, some updated)
]

-- average fill price, filled quantity, remaining quantity
pub record FillFields : Type 0 where
  pub average_fill_price : Option Price
  pub filled_quantity : Option Quantity
  pub remaining_quantity : Option Quantity

abbrev pub is_filled : Option OrderStatus → Bool
is_filled (some OrderStatus.filled) = true
is_filled _ = false

-- the host's own order takes only its fill and status
unfoldable pub enriched_order : OrderRow → PlacedOrder → FillFields → OrderRow
enriched_order existing po fill =
    let oms_status = map_order_status po.status in
    record existing {
      oms_status = or_option (status_text oms_status) existing.oms_status;
      tt_status = po.status;
      status_message = or_option po.reject_reason existing.status_message;
      average_fill_price = or_option fill.average_fill_price existing.average_fill_price;
      filled_quantity = or_option fill.filled_quantity existing.filled_quantity;
      remaining_quantity = or_option fill.remaining_quantity existing.remaining_quantity;
      filled_at = if is_filled oms_status then po.terminal_at else existing.filled_at;
    }

-- `existing.f if existing else None`
abbrev pub carried {ℓ} : {A : Type ℓ} → (OrderRow → Option A) → Option OrderRow → Option A
carried field none = none
carried field (some existing) = field existing

unfoldable pub broker_order :
    Option OrderRow → PlacedOrder → String → Option String → FillFields → OrderRow
broker_order existing po account security_id fill =
    let oms_status = map_order_status po.status in
    record {
      tt_order_id = some po.id;
      account = account;
      origin = Origin.broker;
      ingest = Ingest.order_history;
      oms_order_id = carried (λ (r : OrderRow). r.oms_order_id) existing;
      client_order_id = none;
      account_number = none;
      source_system = "tastytrade";
      security_id = security_id;
      underlying = po.underlying_symbol;
      order_type = po.order_type;
      time_in_force = po.time_in_force;
      gtc_date = po.gtc_date;
      price = po.price;
      stop_trigger = po.stop_trigger;
      price_effect = po.price_effect;
      average_fill_price = fill.average_fill_price;
      is_complex = is_complex po;
      complex_order_type = po.complex_order_tag;
      oms_status = status_text oms_status;
      tt_status = po.status;
      status_message = po.reject_reason;
      filled_quantity = fill.filled_quantity;
      remaining_quantity = fill.remaining_quantity;
      signal_id = carried (λ (r : OrderRow). r.signal_id) existing;
      trace_id = carried (λ (r : OrderRow). r.trace_id) existing;
      strategy_id = carried (λ (r : OrderRow). r.strategy_id) existing;
      trade_group_id = carried (λ (r : OrderRow). r.trade_group_id) existing;
      market_context_id = none;
      received_at = some po.received_at;
      submitted_at = some po.received_at;
      filled_at = if is_filled oms_status then po.terminal_at else none;
      terminal_at = po.terminal_at;
    }

abbrev pub is_host_order : OrderRow → Bool
is_host_order row = elim row.origin [ Origin.zts ↦ true | Origin.broker ↦ false ]

unfoldable pub build_order_row :
    InMemoryStore → PlacedOrder → String → Option String → FillFields → OrderRow
build_order_row store po account security_id fill = elim (get_by_key store.orders po.id) [
  | none ↦ broker_order none po account security_id fill
  | some existing ↦
      if is_host_order existing
      then enriched_order existing po fill
      else broker_order (some existing) po account security_id fill
]
