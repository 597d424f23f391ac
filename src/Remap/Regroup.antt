-- ===== src/Remap/Regroup.antt =====
-- The move of transactions to a group (tt_ledger/ingest/remap.py, `regroup_transactions` and
-- `_recompute_group`).
use tt_ledger.Base.{
  ℕ, String, Option, none, some, List, [], ◌∷◌, map, eqb, any_of, select, if◌then◌else◌,
}
use tt_ledger.Base.Assoc.{text_eq, id_eq}
use tt_ledger.Base.Text.{concat}
use tt_ledger.Enums.{ReviewStatus, trade_group_status_value}
use tt_ledger.Rows.{ActivityRow, TxnRow, TradeGroupRow, TradeRow}
use tt_ledger.Rows.Units.{Instant}
use tt_ledger.Store.Memory.{InMemoryStore, upsert_trade_group}
use tt_ledger.Store.Writes.{move_transactions_to_group}
use tt_ledger.Store.Reads.{
  get_trade_group, get_trade_group_by_id, get_transactions_by_id, account_activity, is_id,
  trade_group_to_row,
}
use tt_ledger.Reconcile.Rules.{row_fees}
use tt_ledger.Reconcile.Nets.{fully_closed}
use tt_ledger.Reconcile.Members.{
  compute_group_fields, closing_status, group_realized, latest, sum_of,
}
use tt_ledger.Reconcile.Exit.{Outside}
use tt_ledger.Reconcile.Create.{with_fields}
use tt_ledger.Reconcile.Heal.{account_filter}
use tt_ledger.Remap.Edits.{
  target_not_found, Edited, edited, refused, note_adjustment, manual_group, claimed_group,
}

-- the rows of an account's activity that a group holds
unfoldable pub cluster_of : InMemoryStore → String → ℕ → List ActivityRow
cluster_of store account pk =
    select (λ (r : ActivityRow). is_id r.trade_group_id pk)
      (account_activity store (account_filter account none))

-- the groups that the transactions come from, each once
unfoldable pub source_groups : List TxnRow → List ℕ
source_groups [] = []
source_groups (txn ∷ txns) =
    let rest = source_groups txns in
    elim txn.trade_group_id [
      | none ↦ rest
      | some pk ↦ if any_of (eqb pk) rest then rest else pk ∷ rest
    ]

abbrev pub with_group : ℕ → List ℕ → List ℕ
with_group pk pks = if any_of (eqb pk) pks then pks else pk ∷ pks

module _ (out : Outside) where
  -- the lifecycle of a group after a move, by the rows that it holds now
  unfoldable pub settled_group : InMemoryStore → TradeGroupRow → List ActivityRow → TradeGroupRow
  settled_group store tg [] = record tg {
    review_status = ReviewStatus.ignored;
    realized_pnl = none;
  }
  settled_group store tg (r ∷ rows) =
      if fully_closed (r ∷ rows)
      then record tg {
        status = trade_group_status_value (closing_status (r ∷ rows));
        closed_at = latest (r ∷ rows);
        realized_pnl = some (group_realized out.divide store (r ∷ rows));
        total_fees = some (sum_of row_fees (r ∷ rows));
      }
      else tg

  unfoldable pub recompute_group : InMemoryStore → ℕ → TradeGroupRow → InMemoryStore × TradeGroupRow
  unfolding settled_group
  recompute_group store pk tg =
      let cluster = cluster_of store tg.account pk in
      let updated =
        settled_group store (with_fields tg (compute_group_fields store cluster)) cluster in
      ((upsert_trade_group store updated).0, updated)

  -- the loop over the affected groups
  unfoldable pub recompute_groups :
      Instant → String → InMemoryStore → List ℕ → InMemoryStore × List TradeGroupRow
  unfolding recompute_group
  recompute_groups now reviewed_by store [] = (store, [])
  recompute_groups now reviewed_by store (pk ∷ pks) = elim (get_trade_group_by_id store pk) [
    | none ↦ recompute_groups now reviewed_by store pks
    | some tg ↦
        let (recomputed, updated) = recompute_group store pk tg in
        let noted = note_adjustment recomputed now pk (concat "regrouped by " reviewed_by) in
        let (store', groups) = recompute_groups now reviewed_by noted pks in
        (store', updated ∷ groups)
  ]

  -- the group that takes the transactions: a new one where none is named
  unfoldable pub target_group : InMemoryStore → Instant → String → String → Option String → Edited ℕ
  target_group store now account reviewed_by none =
      let (grouped, pk) =
        upsert_trade_group store
          (manual_group (out.uuid store.trade_groups.next_id) account reviewed_by now) in
      edited grouped pk
  target_group store now account reviewed_by (some name) = elim (get_trade_group store name) [
    | none ↦ refused store (target_not_found name)
    | some tg ↦
        let (grouped, pk) = upsert_trade_group store (claimed_group tg reviewed_by now) in
        edited grouped pk
  ]

  -- `walk` is the order in which a set of ids is walked
  unfoldable pub regroup_onto :
      (List ℕ → List ℕ)
      → Instant
      → String
      → List ℕ
      → List TxnRow
      → Edited ℕ
      → Edited (List TradeRow)
  unfolding recompute_groups source_groups
  regroup_onto walk now reviewed_by ids txns (refused store why) = refused store why
  regroup_onto walk now reviewed_by ids txns (edited store target) =
      let moved = (move_transactions_to_group store ids (some target)).0 in
      let (recomputed, groups) =
        recompute_groups now reviewed_by moved (walk (with_group target (source_groups txns))) in
      edited recomputed (map trade_group_to_row groups)

  unfoldable pub regroup_found :
      (List ℕ → List ℕ)
      → InMemoryStore
      → Instant
      → List ℕ
      → Option String
      → String
      → List TxnRow
      → Edited (List TradeRow)
  unfolding regroup_onto target_group
  regroup_found walk store now ids target reviewed_by [] = edited store []
  regroup_found walk store now ids target reviewed_by (txn ∷ txns) =
      regroup_onto walk now reviewed_by ids (txn ∷ txns)
        (target_group store now txn.account reviewed_by target)

  unfoldable pub regroup_transactions :
      (List ℕ → List ℕ)
      → InMemoryStore
      → Instant
      → List ℕ
      → Option String
      → String
      → Edited (List TradeRow)
  unfolding regroup_found
  regroup_transactions walk store now [] target reviewed_by = edited store []
  regroup_transactions walk store now (txn_id ∷ ids) target reviewed_by =
      regroup_found walk store now (txn_id ∷ ids) target reviewed_by
        (get_transactions_by_id store (txn_id ∷ ids))
