-- ===== src/Reconcile/Accounts.antt =====
-- The reconcile pass over one account and over all (tt_ledger/ingest/reconcile.py, `reconcile`).
use tt_ledger.Base.{
  ℕ, ◌+◌, String, Bool, false, Option, none, some, List, [], ◌∷◌, sorted, if◌then◌else◌,
}
use tt_ledger.Base.Assoc.{text_eq, id_eq}
use tt_ledger.Base.Text.{text_le}
use tt_ledger.Rows.{ActivityRow, SyncResult}
use tt_ledger.Rows.Units.{Date}
use tt_ledger.Store.Memory.{InMemoryStore}
use tt_ledger.Store.Reads.{account_activity}
use tt_ledger.Reconcile.Exit.{Outside}
use tt_ledger.Reconcile.Rolls.{link_cross_cluster_rolls}
use tt_ledger.Reconcile.Heal.{
  Resolver, heal_fully_closed_groups, synthesize_lapsed_settlements, without_repeats,
}
use tt_ledger.Reconcile.Pass.{link_edges, group_candidates}

module _ (out : Outside) where
  -- the body of the loop over the accounts
  unfoldable pub reconcile_account :
      Bool
      → Resolver
      → ℕ
      → Option Date
      → InMemoryStore × SyncResult
      → String
      → InMemoryStore × SyncResult
  unfolding link_edges group_candidates
  reconcile_account dry_run resolver settle_after since (store, result) account =
      let (settled, count) =
        synthesize_lapsed_settlements out (link_edges store account) resolver account settle_after
          dry_run in
      let pass = group_candidates out dry_run account since settled in
      let rolled =
        if dry_run
        then pass.store
        else link_cross_cluster_rolls out pass.store pass.exits pass.created in
      let (healed, repairs) = heal_fully_closed_groups out rolled account dry_run in
      (
        healed,
        record result {
          transactions = result.transactions + count;
          trade_groups = result.trade_groups + pass.counted;
          healed_groups = result.healed_groups + repairs;
        },
      )

  unfoldable pub reconcile_accounts :
      Bool
      → Resolver
      → ℕ
      → Option Date
      → InMemoryStore × SyncResult
      → List String
      → InMemoryStore × SyncResult
  unfolding reconcile_account
  reconcile_accounts dry_run resolver settle_after since done [] = done
  reconcile_accounts dry_run resolver settle_after since done (account ∷ accounts) =
      reconcile_accounts dry_run resolver settle_after since
        (reconcile_account dry_run resolver settle_after since done account) accounts

-- `_accounts_with_activity`
abbrev pub accounts_in : List ActivityRow → List String
accounts_in [] = []
accounts_in (row ∷ rows) = row.account ∷ accounts_in rows

unfoldable pub accounts_with_activity : InMemoryStore → Option Date → List String
unfolding without_repeats
accounts_with_activity store since = sorted text_le (
    without_repeats (
      accounts_in (
        account_activity store
          (record { account = none; start_on = since; end_on = none; unreconciled_only = false }))))

abbrev pub no_result : SyncResult
no_result = record {
  orders = 0;
  transactions = 0;
  positions = 0;
  balances = 0;
  fills = 0;
  trade_groups = 0;
  healed_groups = 0;
  errors = [];
}

-- `reconcile`: every account with activity where none is named
unfoldable pub reconcile :
    Outside
    → InMemoryStore
    → Option String
    → Option Date
    → Resolver
    → ℕ
    → Bool
    → InMemoryStore × SyncResult
unfolding reconcile_accounts accounts_with_activity
reconcile out store account since resolver settle_after dry_run =
    reconcile_accounts out dry_run resolver settle_after since (store, no_result)
      (elim account [ none ↦ accounts_with_activity store since | some a ↦ a ∷ [] ])
