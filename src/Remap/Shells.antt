-- ===== src/Remap/Shells.antt =====
-- Groups that never filled, and groups that are no trades (tt_ledger/ingest/remap.py,
-- `mark_trade_group_unfilled` and `dismiss_trade_group`).
use tt_ledger.Base.{ℕ, String, none, some, eqb, length, if◌then◌else◌}
use tt_ledger.Base.Assoc.{text_eq, id_eq}
use tt_ledger.Base.Text.{str_eq, concat}
use tt_ledger.Enums.{ReviewStatus, unfilled, trade_group_status_value}
use tt_ledger.Rows.{TradeGroupRow, TradeRow}
use tt_ledger.Rows.Units.{Instant}
use tt_ledger.Store.Memory.{InMemoryStore, upsert_trade_group}
use tt_ledger.Store.Reads.{
  get_trade_group, get_trade_group_id, get_group_transactions, trade_group_to_row,
}
use tt_ledger.Remap.Edits.{
  group_not_found, has_transactions, Edited, edited, refused, note_adjustment,
}

-- `len(rows)` of the group's transactions, 0 for a group without an id
unfoldable pub transactions_in : InMemoryStore → String → ℕ
transactions_in store group_id = elim (get_trade_group_id store group_id) [
  | none ↦ 0
  | some pk ↦ length (get_group_transactions store pk)
]

-- an edit of one header with its event
unfoldable pub stamp_group : InMemoryStore → Instant → TradeGroupRow → String → Edited TradeRow
stamp_group store now updated notes =
    let (grouped, pk) = upsert_trade_group store updated in
    edited (note_adjustment grouped now pk notes) (trade_group_to_row updated)

unfoldable pub unfilled_note : String → String → String
unfilled_note reviewed_by reason =
    let note = concat "marked unfilled by " reviewed_by in
    if str_eq reason "" then note else concat note (concat ": " reason)

unfoldable pub mark_trade_group_unfilled :
    InMemoryStore → Instant → String → String → String → Edited TradeRow
unfolding stamp_group
mark_trade_group_unfilled store now group_id reviewed_by reason =
    elim (get_trade_group store group_id) [
      | none ↦ refused store (group_not_found group_id)
      | some tg ↦
          if eqb (transactions_in store group_id) 0
          then stamp_group store now
              (record tg {
                status = trade_group_status_value unfilled;
                reviewed_by = some reviewed_by;
                reviewed_at = some now;
              })
              (unfilled_note reviewed_by reason)
          else refused store (has_transactions group_id (transactions_in store group_id))
    ]

unfoldable pub dismiss_trade_group : InMemoryStore → Instant → String → String → Edited TradeRow
unfolding stamp_group
dismiss_trade_group store now group_id reviewed_by = elim (get_trade_group store group_id) [
  | none ↦ refused store (group_not_found group_id)
  | some tg ↦
      stamp_group store now
        (record tg {
          review_status = ReviewStatus.ignored;
          reviewed_by = some reviewed_by;
          reviewed_at = some now;
        })
        (concat "dismissed by " reviewed_by)
]
