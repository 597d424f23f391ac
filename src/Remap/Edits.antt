-- ===== src/Remap/Edits.antt =====
-- What the operator's edits share (tt_ledger/ingest/remap.py). A `ValueError` is a value; `now` is a
-- reading of the clock, and each of these events has it as its instant.
use tt_ledger.Base.{ℕ, String, true, some}
use tt_ledger.Base.Assoc.{text_eq, id_eq}
use tt_ledger.Enums.{adjustment}
use tt_ledger.Rows.{TradeGroupRow}
use tt_ledger.Rows.Units.{Instant}
use tt_ledger.Store.Memory.{InMemoryStore, add_trade_group_event}
use tt_ledger.Reconcile.Exit.{event_of}
use tt_ledger.Reconcile.Create.{blank_group}

-- the `ValueError`s, each with what its text names
pub data Refusal : Type 0 where
  group_not_found target_not_found order_not_found : String → Refusal
  already_linked : String → ℕ → Refusal
  other_account : String → String → String → String → Refusal
  has_transactions : String → ℕ → Refusal
  vanished : ℕ → Refusal

-- what an edit gives: the store, and its result or the error
pub data Edited {ℓ} (A : Type ℓ) : Type ℓ where
  edited : InMemoryStore → A → Edited A
  refused : InMemoryStore → Refusal → Edited A

-- the adjustment event of an edit
unfoldable pub note_adjustment : InMemoryStore → Instant → ℕ → String → InMemoryStore
note_adjustment store now pk notes =
    add_trade_group_event store now
      (record (event_of pk adjustment) { event_at = some now; notes = some notes })

-- the row of a group that an operator opens
unfoldable pub manual_group : String → String → String → Instant → TradeGroupRow
unfolding blank_group
manual_group group_id account reviewed_by now = record (blank_group group_id account) {
  manually_attributed = true;
  reviewed_by = some reviewed_by;
  reviewed_at = some now;
}

-- `replace(target_tg, manually_attributed=True, …)`
unfoldable pub claimed_group : TradeGroupRow → String → Instant → TradeGroupRow
claimed_group tg reviewed_by now = record tg {
  manually_attributed = true;
  reviewed_by = some reviewed_by;
  reviewed_at = some now;
}
