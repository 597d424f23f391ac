-- ===== src/Remap/Attribution.antt =====
-- The edit of a group's attribution (tt_ledger/ingest/remap.py, `remap_trade_group`).
use tt_ledger.Base.{ℕ, String, true, false, Option, none, some, [], ◌∷◌, map, or_option}
use tt_ledger.Base.Assoc.{text_eq, id_eq}
use tt_ledger.Base.Text.{concat}
use tt_ledger.Enums.{ReviewStatus}
use tt_ledger.Rows.{OrderRow, TradeGroupRow, TradeRow, OrderFilter}
use tt_ledger.Rows.Units.{Instant}
use tt_ledger.Store.Memory.{InMemoryStore, upsert_orders, upsert_trade_group}
use tt_ledger.Store.Writes.{upsert_positions}
use tt_ledger.Store.Reads.{get_position, get_trade_group, query_orders, trade_group_to_row}
use tt_ledger.Remap.Edits.{group_not_found, Edited, edited, refused, note_adjustment}

-- `replace(tg, …)` of remap
unfoldable pub remapped_group :
    TradeGroupRow
    → Option ℕ
    → Option String
    → Option String
    → Option String
    → String
    → Instant
    → TradeGroupRow
remapped_group tg strategy bot signal strategy_type reviewed_by now = record tg {
  strategy_id = or_option strategy tg.strategy_id;
  bot_name = or_option bot tg.bot_name;
  signal_id = or_option signal tg.signal_id;
  strategy_type = or_option strategy_type tg.strategy_type;
  manually_attributed = true;
  review_status = ReviewStatus.confirmed;
  reviewed_by = some reviewed_by;
  reviewed_at = some now;
}

-- `OrderFilter(trade_group_id=group_pk)`
abbrev pub group_filter : ℕ → OrderFilter
group_filter pk = record {
  origin = none;
  account = none;
  status = none;
  underlying = none;
  trade_group_id = some pk;
  oms_order_id = none;
  unlinked = false;
  start_on = none;
  end_on = none;
}

abbrev pub with_strategy : ℕ → OrderRow → OrderRow
with_strategy strategy order = record order { strategy_id = some strategy }

-- the position of a group with one security
unfoldable pub cascade_position : InMemoryStore → TradeGroupRow → ℕ → ℕ → InMemoryStore
cascade_position store updated pk strategy = elim updated.security_id [
  | none ↦ store
  | some sid ↦ elim (get_position store updated.account sid) [
    | none ↦ store
    | some position ↦
        upsert_positions store
          (record position { strategy_id = some strategy; trade_group_id = some pk } ∷ [])
  ]
]

-- the strategy of the group goes to its orders and its position
unfoldable pub cascade_strategy : InMemoryStore → TradeGroupRow → ℕ → Option ℕ → InMemoryStore
unfolding cascade_position
cascade_strategy store updated pk none = store
cascade_strategy store updated pk (some strategy) =
    let orders = query_orders store (group_filter pk) in
    let stamped = (upsert_orders store (map (with_strategy strategy) orders)).0 in
    cascade_position stamped updated pk strategy

unfoldable pub remap_trade_group :
    InMemoryStore
    → Instant
    → String
    → Option ℕ
    → Option String
    → Option String
    → Option String
    → String
    → Edited TradeRow
unfolding remapped_group cascade_strategy note_adjustment
remap_trade_group store now group_id strategy bot signal strategy_type reviewed_by =
    elim (get_trade_group store group_id) [
      | none ↦ refused store (group_not_found group_id)
      | some tg ↦
          let updated = remapped_group tg strategy bot signal strategy_type reviewed_by now in
          let (grouped, pk) = upsert_trade_group store updated in
          let cascaded = cascade_strategy grouped updated pk strategy in
          edited (note_adjustment cascaded now pk (concat "remapped by " reviewed_by))
            (trade_group_to_row updated)
    ]
