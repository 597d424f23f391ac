-- ===== src/Pull.antt =====
-- Pull ingestion (tt_ledger/ingest/pull.py). The broker's client is outside the program: what its
-- four calls give, for an account number and a first day, is a parameter, and so is the text of a
-- `KeyError`. `today` and `clock` are readings of the clock.
pub mod Isolation
use tt_ledger.Base.{
  ℕ, ◌+◌, String, Bool, true, false, Option, none, some, List, [], ◌∷◌, ◌++◌, get_or_else,
}
use tt_ledger.Base.Text.{concat}
use tt_ledger.Rows.{SyncResult}
use tt_ledger.Rows.Units.{Instant, Date, Quantity, Price, Cash}
use tt_ledger.Accounts.{AccountMapper, to_account_number}
use tt_ledger.Broker.{PlacedOrder, BrokerTransaction, BrokerPosition, BalanceMessage}
use tt_ledger.Store.Memory.{InMemoryStore}
use tt_ledger.Repositories.Securities.{Attempt, ok, raised, SecurityResolver}
use tt_ledger.Repositories.History.{upsert_from_history}
use tt_ledger.Repositories.Transactions.{import_transactions}
use tt_ledger.Repositories.Snapshots.{import_positions}
use tt_ledger.Repositories.Balances.{record_balance}
use tt_ledger.Reconcile.Exit.{Outside}
use tt_ledger.Reconcile.Heal.{Resolver}
use tt_ledger.Reconcile.Accounts.{no_result, reconcile}

pub record BrokerClient : Type 0 where
  pub order_history : String → Date → Date → Attempt (List PlacedOrder)
  pub transaction_history : String → Date → Date → Attempt (List BrokerTransaction)
  pub positions : String → Attempt (List BrokerPosition)
  pub balances : String → Attempt BalanceMessage

-- what a sync is given besides the store and the account
pub record Feed : Type 0 where
  pub client : BrokerClient
  pub accounts : AccountMapper
  pub resolve : SecurityResolver
  pub key_error : String → String
  pub today : Date
  pub clock : Instant
  pub unit : ℕ
  pub share : Quantity → ℕ → Quantity
  pub outside : Outside
  pub settlement_price : Resolver

-- `_EPOCH`: dates count from it
abbrev pub epoch : Date
epoch = 0

-- a call, and then what is done with its result; an error leaves the store
unfoldable pub then_store {ℓ} :
    {A : Type ℓ}
    → InMemoryStore
    → Attempt A
    → (A → InMemoryStore × Attempt ℕ)
    → InMemoryStore × Attempt ℕ
then_store store (raised text) next = (store, raised text)
then_store store (ok a) next = next a

unfoldable pub account_number_of : Feed → String → Attempt String
account_number_of feed account = elim (to_account_number feed.accounts account) [
  | none ↦ raised (feed.key_error account)
  | some number ↦ ok number
]

unfoldable pub sync_orders : Feed → InMemoryStore → String → Option Date → InMemoryStore × Attempt ℕ
unfolding then_store
sync_orders feed store account since =
    then_store store (account_number_of feed account) (λ (number : String).
      then_store store (feed.client.order_history number (get_or_else since epoch) feed.today)
        (λ (placed : List PlacedOrder).
          upsert_from_history feed.unit feed.outside.divide feed.share feed.resolve store placed
            account))

unfoldable pub sync_transactions :
    Feed → InMemoryStore → String → Option Date → InMemoryStore × Attempt ℕ
unfolding then_store
sync_transactions feed store account since =
    then_store store (account_number_of feed account) (λ (number : String).
      then_store store (feed.client.transaction_history number (get_or_else since epoch) feed.today)
        (λ (txns : List BrokerTransaction).
          import_transactions feed.resolve store txns account "tastytrade"))

unfoldable pub sync_positions : Feed → InMemoryStore → String → InMemoryStore × Attempt ℕ
unfolding then_store
sync_positions feed store account =
    then_store store (account_number_of feed account) (λ (number : String).
      then_store store (feed.client.positions number) (λ (positions : List BrokerPosition).
        import_positions feed.resolve store positions account))

unfoldable pub sync_balances : Feed → InMemoryStore → String → InMemoryStore × Attempt ℕ
unfolding then_store
sync_balances feed store account =
    then_store store (account_number_of feed account) (λ (number : String).
      then_store store (feed.client.balances number) (λ (balance : BalanceMessage).
        (record_balance store feed.clock balance account "rest_sync", ok 1)))

-- the counter of a step that succeeds, the error of one that does not
abbrev pub counted : ℕ → Attempt ℕ → ℕ
counted before (ok n) = n
counted before (raised text) = before

abbrev pub noted : String → List String → Attempt ℕ → List String
noted step errors (ok n) = errors
noted step errors (raised text) = errors ++ concat step (concat ": " text) ∷ []

unfoldable pub note_orders : SyncResult → Attempt ℕ → SyncResult
note_orders result attempt = record result {
  orders = counted result.orders attempt;
  errors = noted "sync_orders" result.errors attempt;
}

unfoldable pub note_transactions : SyncResult → Attempt ℕ → SyncResult
note_transactions result attempt = record result {
  transactions = counted result.transactions attempt;
  errors = noted "sync_transactions" result.errors attempt;
}

unfoldable pub note_positions : SyncResult → Attempt ℕ → SyncResult
note_positions result attempt = record result {
  positions = counted result.positions attempt;
  errors = noted "sync_positions" result.errors attempt;
}

unfoldable pub note_balances : SyncResult → Attempt ℕ → SyncResult
note_balances result attempt = record result {
  balances = counted result.balances attempt;
  errors = noted "sync_balances" result.errors attempt;
}

-- the reconcile step: the pass itself raises nothing
unfoldable pub sync_reconcile :
    Feed → InMemoryStore × SyncResult → String → Option Date → InMemoryStore × SyncResult
sync_reconcile feed (store, result) account since =
    let (reconciled, passed) =
      reconcile feed.outside store (some account) since feed.settlement_price 2 false in
    (
      reconciled,
      record result {
        trade_groups = result.trade_groups + passed.trade_groups;
        errors = result.errors ++ passed.errors;
      },
    )

-- the four pulls, each from the store that the one before left
unfoldable pub pull_feeds : Feed → InMemoryStore → String → Option Date → InMemoryStore × SyncResult
unfolding note_orders note_transactions note_positions note_balances
pull_feeds feed store account since =
    let (store_1, orders) = sync_orders feed store account since in
    let (store_2, transactions) = sync_transactions feed store_1 account since in
    let (store_3, positions) = sync_positions feed store_2 account in
    let (store_4, balances) = sync_balances feed store_3 account in
    (
      store_4,
      note_balances
          (note_positions (note_transactions (note_orders no_result orders) transactions) positions)
          balances,
    )

unfoldable pub sync_all : Feed → InMemoryStore → String → Option Date → InMemoryStore × SyncResult
unfolding pull_feeds sync_reconcile
sync_all feed store account since =
    sync_reconcile feed (pull_feeds feed store account since) account since
