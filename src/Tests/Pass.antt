-- ===== src/Tests/Pass.antt =====
-- The theorems on the reconcile pass (tt_ledger/ingest/reconcile.py) at concrete stores.
use tt_ledger.Base.{String, ◌≡◌, refl, true, false, none, some, [], ◌∷◌, ◌++◌}
use tt_ledger.Base.Int.{pos}
use tt_ledger.Base.Assoc.{text_eq, id_eq, lookup, insert}
use tt_ledger.Enums.{Origin, ReviewStatus}
use tt_ledger.Rows.{ActivityRow, TxnRow, OrderRow, TradeGroupRow}
use tt_ledger.Rows.Units.{seconds}
use tt_ledger.Store.Table.{Table, empty_table, get, upsert, upsert_keyed}
use tt_ledger.Store.Keys.{IsIndexed, IsIndexed-empty_table, upsert-IsIndexed}
use tt_ledger.Store.Memory.{InMemoryStore, empty_store, txn_key, order_key}
use tt_ledger.Store.Reads.{get_trade_group_by_id}
use tt_ledger.Reconcile.Route.{OpenGroup}
use tt_ledger.Reconcile.Exit.{Outside, ids_of, unknown_rows, apply_exit}
use tt_ledger.Reconcile.Heal.{load_open_groups}
use tt_ledger.Reconcile.Pass.{candidates_of, group_candidates, link_edges}
use tt_ledger.Reconcile.Accounts.{no_result, reconcile_account}
use tt_ledger.Reconcile.Landed.{Lands}
use tt_ledger.Reconcile.Candidates.{group_candidates-Lands}
use tt_ledger.Reconcile.Settling.{group_candidates-settled}
use tt_ledger.Reconcile.Linked.{link_edges-settled}
use tt_ledger.Reconcile.Preview.{reconcile_account-dry}
use tt_ledger.Reconcile.Again.{apply_exit-again}
use tt_ledger.Reconcile.Stamped.{group_key, IsReport, IsStamped, apply_exit-IsStamped}
use tt_ledger.Tests.{divide, txn, order, bought, sold}

abbrev pub outside : Outside
outside = record { divide = divide; uuid = λ pk. "g2"; clock = λ n. seconds 100 }

abbrev no_txns : Table String TxnRow
no_txns = empty_table

-- one bought transaction with an order, in no group yet
abbrev pub waiting : InMemoryStore
waiting = record empty_store {
  transactions = (upsert txn_key no_txns (record txn { trade_group_id = none })).0;
}

group_candidates-Lands_example :
    Lands
      (ids_of (candidates_of waiting "main" none))
      (candidates_of waiting "main" none)
      waiting.transactions.rows
      (group_candidates outside false "main" none waiting).store.transactions.rows
group_candidates-Lands_example = group_candidates-Lands outside "main" none waiting

group_candidates-settled_example :
    let settled = (group_candidates outside false "main" none waiting).store in
    group_candidates outside false "main" none settled ≡ record {
      store = settled;
      open_groups = load_open_groups settled "main";
      exits = [];
      created = [];
      counted = 0;
    }
group_candidates-settled_example = group_candidates-settled outside false "main" none waiting

reconcile_account-dry_example :
    (reconcile_account outside true none 2 none (waiting, no_result) "main").0
    ≡ link_edges waiting "main"
reconcile_account-dry_example = reconcile_account-dry outside none 2 none waiting no_result "main"

abbrev no_orders : Table String OrderRow
no_orders = empty_table

-- a transaction of a group that is not linked to its order, and the order, in no group yet
abbrev unlinked : InMemoryStore
unlinked = record empty_store {
  transactions = (upsert txn_key no_txns (record txn { order_id = none })).0;
  orders = (upsert order_key no_orders (record order { trade_group_id = none })).0;
}

link_edges-settled_example :
    link_edges (link_edges unlinked "main") "main" ≡ link_edges unlinked "main"
link_edges-settled_example = link_edges-settled unlinked "main"

abbrev pub header : TradeGroupRow
header = record {
  group_id = "g1";
  account = "main";
  origin = Origin.broker;
  source_system = "tastytrade";
  review_status = ReviewStatus.needs_review;
  manually_attributed = false;
  reviewed_at = none;
  reviewed_by = none;
  underlying = some "XSP";
  security_id = some "XSP 773P";
  strategy_type = some "SINGLE";
  leg_count = 1;
  total_premium = none;
  quantity = some (pos 2);
  total_fees = none;
  status = "open";
  realized_pnl = none;
  unrealized_pnl = none;
  max_profit = none;
  max_loss = none;
  initial_risk = none;
  profit_target = none;
  stop_loss = none;
  exit_strategy = none;
  structure = none;
  order_id = none;
  strategy_id = none;
  bot_name = none;
  signal_id = none;
  executed_at = some (seconds 1);
  closed_at = none;
}

abbrev pub no_groups : Table String TradeGroupRow
no_groups = empty_table

-- the group has the bought transaction already
abbrev pub held_open : InMemoryStore
held_open = record empty_store {
  transactions = (upsert txn_key no_txns (record txn { trade_group_id = some 1 })).0;
  trade_groups = (upsert group_key no_groups header).0;
}

abbrev one_open : OpenGroup
one_open = record { pk = 1; rows = bought ∷ [] }

-- both contracts sold
abbrev sold_all : ActivityRow
sold_all = record sold { quantity = some (pos 2) }

apply_exit-again_example :
    let (store_1, group_1, first) =
      apply_exit outside held_open one_open (sold_all ∷ []) none none in
    let (store_2, group_2, second) = apply_exit outside store_1 group_1 (sold_all ∷ []) none none in
    (store_2 ≡ store_1) × (group_2 ≡ group_1) × (second.rows ≡ [])
apply_exit-again_example =
    apply_exit-again outside held_open one_open (sold_all ∷ []) none none none none

pub held_open-IsIndexed : IsIndexed group_key held_open.trade_groups
held_open-IsIndexed = upsert-IsIndexed group_key no_groups (IsIndexed-empty_table group_key) header

header-at : get_trade_group_by_id held_open 1 ≡ some header
unfolding get_trade_group_by_id get lookup insert upsert upsert_keyed
header-at = refl

apply_exit-IsStamped_example :
    let fresh = unknown_rows (bought ∷ []) (sold_all ∷ []) in
    let members = (bought ∷ []) ++ fresh in
    let (store', group', applied) =
      apply_exit outside held_open one_open (sold_all ∷ []) none none in
    (group'.rows ≡ members)
    × (IsReport fresh members applied × IsStamped held_open header 1 fresh members store')
apply_exit-IsStamped_example =
    apply_exit-IsStamped outside held_open one_open (sold_all ∷ []) none none header
      held_open-IsIndexed header-at
