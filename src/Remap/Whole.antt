-- ===== src/Remap/Whole.antt =====
-- An operator's edit of the header of one group (tt_ledger/ingest/remap.py).
use tt_ledger.Base.{
  ℕ, ◌<◌, String, true, Option, some, or_option, ◌≡◌, ◌⊎◌, refl, inl, inr, eqb, Bool-cases,
  Option-cases, arith,
}
use tt_ledger.Base.Assoc.{text_eq, id_eq}
use tt_ledger.Enums.{ReviewStatus, unfilled, trade_group_status_value}
use tt_ledger.Rows.{TradeGroupRow}
use tt_ledger.Rows.Units.{Instant}
use tt_ledger.Store.Keys.{IsIndexed}
use tt_ledger.Store.Memory.{InMemoryStore, upsert_trade_group, add_trade_group_event}
use tt_ledger.Store.Reads.{get_trade_group}
use tt_ledger.Reconcile.Stamped.{group_key}
use tt_ledger.Remap.Edits.{group_not_found, has_transactions, refused, note_adjustment}
use tt_ledger.Remap.Shells.{transactions_in, unfilled_note, stamp_group, mark_trade_group_unfilled}
use tt_ledger.Remap.Replaced.{IsWhole, IsMissing, upserted-IsWhole, as_outcome}

-- what marking a group as unfilled writes to its header
abbrev pub IsUnfilled : Instant → String → TradeGroupRow → TradeGroupRow → Type 0
IsUnfilled now reviewed_by old new =
    (new.status ≡ trade_group_status_value unfilled)
    × (new.reviewed_by ≡ some reviewed_by)
    × (new.reviewed_at ≡ some now)
    × ((record new {
      status = old.status;
      reviewed_by = old.reviewed_by;
      reviewed_at = old.reviewed_at;
    })
        ≡ old)

-- In a store whose headers are indexed, marking a group as unfilled is refused, and leaves the
-- store, only where the group is missing or has transactions. Else the group has no transactions;
-- its header under that name gets the status unfilled, the reviewer and the instant and keeps the
-- rest, and its row is returned; every other group and all transactions are as they were.
pub mark_trade_group_unfilled-IsWhole :
    (store : InMemoryStore) (now : Instant) (group_id reviewed_by reason : String)
    → IsIndexed group_key store.trade_groups
    → IsWhole store group_id
        (IsMissing store group_id ⊎ (0 < transactions_in store group_id))
        (transactions_in store group_id ≡ 0)
        (IsUnfilled now reviewed_by)
        (mark_trade_group_unfilled store now group_id reviewed_by reason)
unfolding mark_trade_group_unfilled stamp_group note_adjustment add_trade_group_event
    upsert_trade_group
mark_trade_group_unfilled-IsWhole store now group_id reviewed_by reason v =
    elim (Option-cases (get_trade_group store group_id)) [
      | inl unknown ↦
          as_outcome store group_id _ _ _ _ (refused store (group_not_found group_id))
            (rw (mark_trade_group_unfilled, unknown) refl) (refl, inl unknown)
      | inr (tg, known) ↦ elim (Bool-cases (eqb (transactions_in store group_id) 0)) [
        | inl bare ↦
            let row : TradeGroupRow = record tg {
              status = trade_group_status_value unfilled;
              reviewed_by = some reviewed_by;
              reviewed_at = some now;
            } in
            as_outcome store group_id _ _ _ _
              (stamp_group store now row (unfilled_note reviewed_by reason))
              (rw (mark_trade_group_unfilled, known, bare) refl)
              (upserted-IsWhole store _ group_id
                (IsMissing store group_id ⊎ (0 < transactions_in store group_id)) _ _ tg row v known
                refl (ground arith) (refl, refl, refl, refl) refl refl)
        | inr traded ↦
            as_outcome store group_id _ _ _ _
              (refused store (has_transactions group_id (transactions_in store group_id)))
              (rw (mark_trade_group_unfilled, known, traded) refl) (refl, inr (ground arith))
      ]
    ]

-- what the dismissal of a group writes to its header
abbrev pub IsDismissed : Instant → String → TradeGroupRow → TradeGroupRow → Type 0
IsDismissed now reviewed_by old new =
    (new.review_status ≡ ReviewStatus.ignored)
    × (new.reviewed_by ≡ some reviewed_by)
    × (new.reviewed_at ≡ some now)
    × ((record new {
      review_status = old.review_status;
      reviewed_by = old.reviewed_by;
      reviewed_at = old.reviewed_at;
    })
        ≡ old)

-- what the cascade of a strategy leaves alone
abbrev KeepsGroups : InMemoryStore → InMemoryStore → Type 0
KeepsGroups before after =
    (after.trade_groups ≡ before.trade_groups) × (after.transactions ≡ before.transactions)

-- what the remap of a group writes to its header: each value that is given, and the confirmation
abbrev pub IsRemapped :
    Option ℕ
    → Option String
    → Option String
    → Option String
    → String
    → Instant
    → TradeGroupRow
    → TradeGroupRow
    → Type 0
IsRemapped strategy bot signal strategy_type reviewed_by now old new =
    (new.strategy_id ≡ or_option strategy old.strategy_id)
    × (new.bot_name ≡ or_option bot old.bot_name)
    × (new.signal_id ≡ or_option signal old.signal_id)
    × (new.strategy_type ≡ or_option strategy_type old.strategy_type)
    × (new.manually_attributed ≡ true)
    × (new.review_status ≡ ReviewStatus.confirmed)
    × (new.reviewed_by ≡ some reviewed_by)
    × (new.reviewed_at ≡ some now)
    × ((record new {
      strategy_id = old.strategy_id;
      bot_name = old.bot_name;
      signal_id = old.signal_id;
      strategy_type = old.strategy_type;
      manually_attributed = old.manually_attributed;
      review_status = old.review_status;
      reviewed_by = old.reviewed_by;
      reviewed_at = old.reviewed_at;
    })
        ≡ old)
