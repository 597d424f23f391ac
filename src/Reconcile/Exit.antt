-- ===== src/Reconcile/Exit.antt =====
-- Closing rows on an open group (tt_ledger/ingest/reconcile.py, `_apply_exit`). What is outside
-- the program: the division of the decimal library, the drawing of uuids and the clock.
use tt_ledger.Base.{
  ℕ, String, Bool, false, not, ◌&&◌, ◌||◌, Option, none, some, List, [], ◌∷◌, ◌++◌, is_some, select,
  or_option, if◌then◌else◌,
}
use tt_ledger.Base.Assoc.{Assoc, append_at, text_eq, id_eq}
use tt_ledger.Base.Int.{neg}
use tt_ledger.Base.Text.{str_eq, member}
use tt_ledger.Enums.{
  TradeGroupEventType, full_exit, partial_exit, roll, assignment, exercise,
  trade_group_event_type_value, trade_group_status_value,
}
use tt_ledger.Rows.{ActivityRow, EventRow, TradeGroupRow}
use tt_ledger.Rows.Units.{Instant, Quantity, Price, Cash, zero_decimal}
use tt_ledger.Store.Memory.{InMemoryStore, add_trade_group_event, upsert_trade_group}
use tt_ledger.Store.Reads.{get_trade_group_by_id}
use tt_ledger.Store.Links.{attach_transactions_to_trade_group}
use tt_ledger.Reconcile.Rules.{
  is_nontrade_close, has_closing_action, has_bare_action, event_of_subtype, signed_net, row_fees,
}
use tt_ledger.Reconcile.Nets.{fully_closed}
use tt_ledger.Reconcile.Closing.{settled_quantity}
use tt_ledger.Reconcile.Route.{OpenGroup}
use tt_ledger.Reconcile.Members.{sum_of, latest, sizes_of, group_realized, closing_status}

pub record Outside : Type 0 where
  pub divide : Cash → Quantity → Price
  -- the uuid drawn for the group that takes a surrogate id, the clock at an event's writing
  pub uuid : ℕ → String
  pub clock : ℕ → Instant

pub record AppliedExit : Type 0 where
  pub pk : ℕ
  pub rows : List ActivityRow
  pub fully_closed : Bool
  pub rolled : Bool
  pub closed_at : Option Instant

-- `[r.tt_transaction_id for r in rows]`
abbrev pub ids_of : List ActivityRow → List String
ids_of [] = []
ids_of (row ∷ rows) = row.tt_transaction_id ∷ ids_of rows

-- the rows that a membership does not hold yet
unfoldable pub unknown_rows : List ActivityRow → List ActivityRow → List ActivityRow
unknown_rows known rows =
    select (λ (r : ActivityRow). not (member r.tt_transaction_id (ids_of known))) rows

-- `extend_unique`
unfoldable pub extend_unique : OpenGroup → List ActivityRow → OpenGroup
unfolding unknown_rows
extend_unique group rows = record group { rows = group.rows ++ unknown_rows group.rows rows }

-- an event with the defaults of its row type
abbrev pub event_of : ℕ → TradeGroupEventType → EventRow
event_of pk event_type = record {
  trade_group_id = pk;
  event_type = trade_group_event_type_value event_type;
  quantity_change = zero_decimal;
  premium_change = zero_decimal;
  realized_pnl = none;
  event_at = none;
  notes = none;
  rolled_to_group_id = none;
  transaction_id = none;
  order_id = none;
}

abbrev pub is_trade_close : ActivityRow → Bool
is_trade_close r = not (is_nontrade_close r) && (has_closing_action r || has_bare_action r)

-- the settlement rows of each event type, in the order in which the types first appear
unfoldable pub rows_by_event :
    Assoc String (List ActivityRow) → List ActivityRow → Assoc String (List ActivityRow)
rows_by_event acc [] = acc
rows_by_event acc (r ∷ rows) =
    rows_by_event
      (if is_nontrade_close r
        then elim (event_of_subtype r.transaction_sub_type) [
          | none ↦ acc
          | some ev ↦ append_at (trade_group_event_type_value ev) r acc
        ]
        else acc)
      rows

abbrev pub is_delivery_event : String → Bool
is_delivery_event name =
    str_eq name (trade_group_event_type_value assignment)
    || str_eq name (trade_group_event_type_value exercise)

module _ (out : Outside) where
  unfoldable pub emit : InMemoryStore → EventRow → InMemoryStore
  emit store ev = add_trade_group_event store (out.clock store.events.next_id) ev

  unfoldable pub emit_trade_exit :
      InMemoryStore → ℕ → List ActivityRow → Bool → Option Instant → InMemoryStore
  emit_trade_exit store pk [] closed event_at = store
  emit_trade_exit store pk (r ∷ rows) closed event_at =
      emit store (record (event_of pk (if closed then full_exit else partial_exit)) {
        quantity_change = neg (sum_of (λ q. q) (sizes_of (r ∷ rows)));
        premium_change = sum_of signed_net (r ∷ rows);
        event_at = event_at;
      })

  unfoldable pub emit_settlements :
      InMemoryStore
      → ℕ
      → Assoc String (List ActivityRow)
      → Option Instant
      → Option ℕ
      → InMemoryStore
  emit_settlements store pk [] event_at delivery = store
  emit_settlements store pk ((name, rows) ∷ rest) event_at delivery =
      emit_settlements
        (emit store (record (event_of pk full_exit) {
          event_type = name;
          quantity_change = neg (settled_quantity rows);
          premium_change = sum_of signed_net rows;
          event_at = or_option (latest rows) event_at;
          rolled_to_group_id = if is_delivery_event name then delivery else none;
        }))
        pk rest event_at delivery

  unfoldable pub emit_roll : InMemoryStore → ℕ → Option Instant → Option ℕ → InMemoryStore
  emit_roll store pk event_at none = store
  emit_roll store pk event_at (some rolled_to) =
      emit store
        (record (event_of pk roll) { event_at = event_at; rolled_to_group_id = some rolled_to })

  -- the header of a group whose members are fully closed
  unfoldable pub closed_header :
      InMemoryStore → TradeGroupRow → List ActivityRow → Option Instant → TradeGroupRow
  closed_header store tg rows event_at = record tg {
    status = trade_group_status_value (closing_status rows);
    closed_at = event_at;
    realized_pnl = some (group_realized out.divide store rows);
    total_fees = some (sum_of row_fees rows);
  }

  unfoldable pub stamp_closed : InMemoryStore → OpenGroup → Option Instant → InMemoryStore
  stamp_closed store group event_at = elim (get_trade_group_by_id store group.pk) [
    | none ↦ store
    | some tg ↦ (upsert_trade_group store (closed_header store tg group.rows event_at)).0
  ]

  -- the events of the rows that are new to the group
  unfoldable pub emit_exit :
      InMemoryStore → OpenGroup → List ActivityRow → Option ℕ → Option ℕ → InMemoryStore
  unfolding rows_by_event emit_trade_exit emit_settlements emit_roll latest
  emit_exit store group rows rolled_to delivery =
      let event_at = latest rows in
      let traded =
        emit_trade_exit store group.pk (select is_trade_close rows) (fully_closed group.rows)
          event_at in
      let settled = emit_settlements traded group.pk (rows_by_event [] rows) event_at delivery in
      emit_roll settled group.pk event_at rolled_to

  -- nothing new: the exit has landed before
  unfoldable pub landed_exit : InMemoryStore → OpenGroup → AppliedExit
  landed_exit store group = record {
    pk = group.pk;
    rows = [];
    fully_closed = fully_closed group.rows;
    rolled = false;
    closed_at = elim (get_trade_group_by_id store group.pk) [
      | none ↦ none
      | some tg ↦ tg.closed_at
    ];
  }

  unfoldable pub land_exit :
      InMemoryStore
      → OpenGroup
      → List ActivityRow
      → Option ℕ
      → Option ℕ
      → InMemoryStore × OpenGroup × AppliedExit
  unfolding landed_exit emit_exit stamp_closed latest
  land_exit store group [] rolled_to delivery = (store, group, landed_exit store group)
  land_exit store group (r ∷ rows) rolled_to delivery =
      let group' = extend_unique group (r ∷ rows) in
      let closed = fully_closed group'.rows in
      let event_at = latest (r ∷ rows) in
      let emitted = emit_exit store group' (r ∷ rows) rolled_to delivery in
      (
        if closed then stamp_closed emitted group' event_at else emitted,
        group',
        record {
          pk = group.pk;
          rows = r ∷ rows;
          fully_closed = closed;
          rolled = is_some rolled_to;
          closed_at = event_at;
        },
      )

  -- `_apply_exit`: the store, the group with its new members, and the report
  unfoldable pub apply_exit :
      InMemoryStore
      → OpenGroup
      → List ActivityRow
      → Option ℕ
      → Option ℕ
      → InMemoryStore × OpenGroup × AppliedExit
  unfolding land_exit unknown_rows
  apply_exit store group rows rolled_to delivery =
      land_exit (attach_transactions_to_trade_group store (ids_of rows) group.pk).0 group
        (unknown_rows group.rows rows) rolled_to delivery
