-- ===== src/Replay/Rebuild.antt =====
-- The rebuild of positions from transactions (tt_ledger/ingest/replay.py,
-- `rebuild_positions_from_transactions`). `divide` is the decimal library's division.
use tt_ledger.Base.{
  ℕ, ◌+◌, String, Option, none, some, List, [], ◌∷◌, length, select, sorted, if◌then◌else◌,
}
use tt_ledger.Base.Assoc.{Assoc, text_eq}
use tt_ledger.Rows.{ActivityRow, ClosedPositionRow, SyncResult}
use tt_ledger.Rows.Units.{Instant, Date, Quantity, Price, Cash}
use tt_ledger.Store.Memory.{InMemoryStore, upsert_closed_position}
use tt_ledger.Store.Writes.{PositionLink, upsert_positions, link_transactions_to_positions}
use tt_ledger.Store.Reads.{get_security, get_position, get_position_id, account_activity}
use tt_ledger.Replay.Rules.{replay_le}
use tt_ledger.Replay.Reduced.{affects_position, by_security}
use tt_ledger.Replay.Walk.{PlanEntry, replay_security}
use tt_ledger.Replay.Lapse.{lapse_expired_lot}
use tt_ledger.Reconcile.Members.{latest, multiplier_of}
use tt_ledger.Reconcile.Heal.{account_filter}
use tt_ledger.Reconcile.Accounts.{accounts_with_activity, no_result}

-- one entry of the plan: its lifecycle is stored, and the transaction will name both ids
unfoldable pub store_closed : InMemoryStore → Option ClosedPositionRow → InMemoryStore × Option ℕ
store_closed store none = (store, none)
store_closed store (some row) =
    let (stored, row_id) = upsert_closed_position store row in (stored, some row_id)

unfoldable pub plan_links :
    Option ℕ → InMemoryStore → List PlanEntry → InMemoryStore × List PositionLink
unfolding store_closed
plan_links position_id store [] = (store, [])
plan_links position_id store (entry ∷ plan) =
    let (stored, closed_id) = store_closed store entry.closed in
    let (store', links) = plan_links position_id stored plan in
    (
      store',
      (entry.tt_transaction_id, ((if entry.marks_open then position_id else none), closed_id))
          ∷ links,
    )

-- `sec.expiry if sec is not None else None`
unfoldable pub expiry_of : InMemoryStore → String → Option Date
expiry_of store security_id = elim (get_security store security_id) [
  | none ↦ none
  | some sec ↦ sec.expiry
]

module _ (divide : Cash → Quantity → Price) where
  -- one security: its position, its lifecycles, its links
  unfoldable pub rebuild_security :
      String → Option Instant → InMemoryStore → String → List ActivityRow → InMemoryStore
  unfolding plan_links
  rebuild_security account last_activity store security_id rows =
      let multiplier = multiplier_of (get_security store security_id) in
      let (walked, walk_plan) =
        replay_security divide account security_id multiplier (sorted replay_le rows)
          (get_position store account security_id) in
      let (position, plan) =
        lapse_expired_lot account security_id walked walk_plan (expiry_of store security_id)
          multiplier last_activity in
      let positioned = upsert_positions store (position ∷ []) in
      let (stored, links) =
        plan_links (get_position_id positioned account security_id) positioned plan in
      (link_transactions_to_positions stored links).0

  unfoldable pub rebuild_securities :
      String → Option Instant → InMemoryStore → Assoc String (List ActivityRow) → InMemoryStore
  unfolding rebuild_security
  rebuild_securities account last_activity store [] = store
  rebuild_securities account last_activity store ((security_id, rows) ∷ rest) =
      rebuild_securities account last_activity
        (rebuild_security account last_activity store security_id rows) rest

  -- `_rebuild_for_account`
  unfoldable pub rebuild_for_account : InMemoryStore → String → InMemoryStore × ℕ
  unfolding rebuild_securities
  rebuild_for_account store account =
      let activity = account_activity store (account_filter account none) in
      let groups = by_security activity in
      (
        rebuild_securities account (latest (select affects_position activity)) store groups,
        length groups,
      )

  unfoldable pub rebuild_accounts :
      InMemoryStore × SyncResult → List String → InMemoryStore × SyncResult
  unfolding rebuild_for_account
  rebuild_accounts done [] = done
  rebuild_accounts (store, result) (account ∷ accounts) =
      let (rebuilt, count) = rebuild_for_account store account in
      rebuild_accounts (rebuilt, record result { positions = result.positions + count }) accounts

  -- every account with activity where none is named
  unfoldable pub rebuild_positions_from_transactions :
      InMemoryStore → Option String → InMemoryStore × SyncResult
  unfolding rebuild_accounts
  rebuild_positions_from_transactions store account =
      rebuild_accounts (store, no_result)
        (elim account [ none ↦ accounts_with_activity store none | some a ↦ a ∷ [] ])
