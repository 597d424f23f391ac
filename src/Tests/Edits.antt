-- ===== src/Tests/Edits.antt =====
-- The theorems on an operator's edits, the pull and the quantities of a structure
-- (tt_ledger/ingest/remap.py, tt_ledger/ingest/pull.py, tt_ledger/repositories/__init__.py) and on
-- the table as a dict (tt_ledger/store/memory.py) at concrete values.
use tt_ledger.Base.{String, ◌≡◌, none, some, List, [], ◌∷◌, AllOf, ◌<◌, ◌⊎◌}
use tt_ledger.Base.Assoc.{text_eq, id_eq, lookup}
use tt_ledger.Rows.{TradeGroupRow}
use tt_ledger.Rows.Units.{seconds}
use tt_ledger.Accounts.{account_mapper}
use tt_ledger.Store.Table.{empty_table, get_by_key, upsert}
use tt_ledger.Store.Memory.{InMemoryStore, empty_store}
use tt_ledger.Store.Dict.{upserts, assigned, upserts-assigned}
use tt_ledger.Repositories.Securities.{ok, raised, passthrough}
use tt_ledger.Repositories.Quantities.{structure_units}
use tt_ledger.Repositories.Units.{Divides, structure_units-Divides}
use tt_ledger.Pull.{BrokerClient, Feed, sync_all}
use tt_ledger.Pull.Isolation.{quieted, sync_all-quieted}
use tt_ledger.Remap.Regroup.{regroup_transactions}
use tt_ledger.Remap.Shells.{transactions_in, mark_trade_group_unfilled}
use tt_ledger.Remap.Moved.{IsMove, regroup_transactions-IsMove}
use tt_ledger.Remap.Replaced.{IsWhole, IsMissing}
use tt_ledger.Remap.Whole.{IsUnfilled, mark_trade_group_unfilled-IsWhole}
use tt_ledger.Store.Keys.{IsIndexed, IsIndexed-empty_table, upsert-IsIndexed}
use tt_ledger.Reconcile.Stamped.{group_key}
use tt_ledger.Tests.Pass.{outside, waiting, header, no_groups, held_open, held_open-IsIndexed}

-- the call for orders fails, and the others find nothing
abbrev client : BrokerClient
client = record {
  order_history = λ number from to. raised "connection refused";
  transaction_history = λ number from to. ok [];
  positions = λ number. ok [];
  balances = λ number. raised "connection refused";
}

abbrev feed : Feed
feed = record {
  client = client;
  accounts = account_mapper (("main", "5WT1") ∷ []) none none [] [];
  resolve = passthrough;
  key_error = λ name. name;
  today = 20_000;
  clock = seconds 100;
  unit = 1;
  share = λ quantity parts. quantity;
  outside = outside;
  settlement_price = none;
}

sync_all-quieted_example :
    let (store_a, result_a) = sync_all feed waiting "main" none in
    let (store_b, result_b) = sync_all (quieted feed) waiting "main" none in
    (store_a ≡ store_b) × ((record result_a { errors = [] }) ≡ (record result_b { errors = [] }))
sync_all-quieted_example = sync_all-quieted feed waiting "main" none

regroup_transactions-IsMove_example :
    IsMove outside held_open
      (1 ∷ [])
      none
      (regroup_transactions outside (λ pks. pks) held_open (seconds 100) (1 ∷ []) none "me")
regroup_transactions-IsMove_example =
    regroup_transactions-IsMove outside (λ pks. pks) held_open (seconds 100) (1 ∷ []) none "me"
      held_open-IsIndexed

-- a group without transactions
abbrev bare : InMemoryStore
bare = record empty_store {
  trade_groups = (upsert (λ (tg : TradeGroupRow). some tg.group_id) no_groups header).0;
}

bare-IsIndexed : IsIndexed group_key bare.trade_groups
bare-IsIndexed = upsert-IsIndexed group_key no_groups (IsIndexed-empty_table group_key) header

mark_trade_group_unfilled-IsWhole_example :
    IsWhole bare "g1"
      (IsMissing bare "g1" ⊎ (0 < transactions_in bare "g1"))
      (transactions_in bare "g1" ≡ 0)
      (IsUnfilled (seconds 100) "me")
      (mark_trade_group_unfilled bare (seconds 100) "g1" "me" "no fill")
mark_trade_group_unfilled-IsWhole_example =
    mark_trade_group_unfilled-IsWhole bare (seconds 100) "g1" "me" "no fill" bare-IsIndexed

structure_units-Divides_example :
    Divides (structure_units 4 (6 ∷ 2 ∷ [])) 4
    × AllOf (Divides (structure_units 4 (6 ∷ 2 ∷ []))) (6 ∷ 2 ∷ [])
structure_units-Divides_example = structure_units-Divides 4 (6 ∷ 2 ∷ [])

abbrev group_name : TradeGroupRow → String
group_name tg = tg.group_id

-- the same group twice
abbrev headers : List TradeGroupRow
headers = header ∷ (record header { status = "closed" }) ∷ []

upserts-assigned_example :
    get_by_key (upserts group_name empty_table headers) "g1"
    ≡ lookup "g1" (assigned group_name [] headers)
upserts-assigned_example = upserts-assigned group_name headers "g1"
