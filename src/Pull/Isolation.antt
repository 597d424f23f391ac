-- ===== src/Pull/Isolation.antt =====
-- A feed that fails, beside the others (tt_ledger/ingest/pull.py, `sync_all`).
use tt_ledger.Base.{ℕ, String, Option, List, [], ◌≡◌, refl, get_or_else}
use tt_ledger.Rows.Units.{Date}
use tt_ledger.Store.Memory.{
  InMemoryStore, upsert_orders, upsert_order_rows, upsert_transactions, upsert_txn_rows,
}
use tt_ledger.Store.Writes.{
  upsert_legs, upsert_leg_rows, upsert_fills, upsert_fill_rows, upsert_positions,
  upsert_position_rows,
}
use tt_ledger.Repositories.Securities.{Attempt, ok, raised}
use tt_ledger.Repositories.History.{
  upsert_from_history, resolve_orders, store_history, order_rows, placed_leg_rows, leg_owners,
  fill_rows,
}
use tt_ledger.Repositories.Transactions.{import_transactions, resolve_txns}
use tt_ledger.Repositories.Snapshots.{import_positions, resolve_positions}
use tt_ledger.Pull.{
  Feed, epoch, then_store, account_number_of, sync_orders, sync_transactions, sync_positions,
  sync_balances, counted, note_orders, note_transactions, note_positions, note_balances, pull_feeds,
  sync_reconcile, sync_all,
}

-- a call that fails, read as one that finds nothing
abbrev pub or_nothing {ℓ} : {A : Type ℓ} → Attempt (List A) → Attempt (List A)
or_nothing (ok xs) = ok xs
or_nothing (raised text) = ok []

-- The feed in which each call for a list that fails finds nothing instead.
abbrev pub quieted : Feed → Feed
quieted feed = record feed {
  client = record feed.client {
    order_history = λ number from to. or_nothing (feed.client.order_history number from to);
    transaction_history =
        λ number from to. or_nothing (feed.client.transaction_history number from to);
    positions = λ number. or_nothing (feed.client.positions number);
  };
}

-- two ends of a step: the same store, and the same count
abbrev SameEnd : InMemoryStore × Attempt ℕ → InMemoryStore × Attempt ℕ → Type 0
SameEnd a b = (a.0 ≡ b.0) × (counted 0 a.1 ≡ counted 0 b.1)

-- an import that changes nothing where there is nothing
then_store-quiet :
    {A : Type 0} (store : InMemoryStore) (call : Attempt (List A))
    (next : List A → InMemoryStore × Attempt ℕ)
    → next [] ≡ (store, ok 0)
    → SameEnd (then_store store call next) (then_store store (or_nothing call) next)
unfolding then_store
then_store-quiet store (ok xs) next e = (refl, refl)
then_store-quiet store (raised text) next e = rw e (refl, refl)

then_store-same :
    {A : Type 0} (store : InMemoryStore) (call : Attempt A) (f g : A → InMemoryStore × Attempt ℕ)
    → ((a : A) → SameEnd (f a) (g a))
    → SameEnd (then_store store call f) (then_store store call g)
unfolding then_store
then_store-same store (ok a) f g e = e a
then_store-same store (raised text) f g e = (refl, refl)

module _ (feed : Feed) (store : InMemoryStore) (account : String) where
  upsert_from_history-none :
      upsert_from_history feed.unit feed.outside.divide feed.share feed.resolve store [] account
      ≡ (store, ok 0)
  unfolding upsert_from_history resolve_orders store_history order_rows placed_leg_rows leg_owners
      fill_rows upsert_orders upsert_order_rows upsert_legs upsert_leg_rows upsert_fills
      upsert_fill_rows
  upsert_from_history-none = refl

  import_transactions-none :
      import_transactions feed.resolve store [] account "tastytrade" ≡ (store, ok 0)
  unfolding import_transactions resolve_txns upsert_transactions upsert_txn_rows
  import_transactions-none = refl

  import_positions-none : import_positions feed.resolve store [] account ≡ (store, ok 0)
  unfolding import_positions resolve_positions upsert_positions upsert_position_rows
  import_positions-none = refl

  sync_orders-quiet :
      (since : Option Date)
      → SameEnd
          (sync_orders feed store account since)
          (sync_orders (quieted feed) store account since)
  unfolding sync_orders account_number_of
  sync_orders-quiet since = then_store-same store (account_number_of feed account) _ _ (λ number.
      then_store-quiet store (feed.client.order_history number (get_or_else since epoch) feed.today)
        _ upsert_from_history-none)

  sync_transactions-quiet :
      (since : Option Date)
      → SameEnd
          (sync_transactions feed store account since)
          (sync_transactions (quieted feed) store account since)
  unfolding sync_transactions account_number_of
  sync_transactions-quiet since =
      then_store-same store (account_number_of feed account) _ _ (λ number.
        then_store-quiet store
          (feed.client.transaction_history number (get_or_else since epoch) feed.today) _
          import_transactions-none)

  sync_positions-quiet :
      SameEnd (sync_positions feed store account) (sync_positions (quieted feed) store account)
  unfolding sync_positions account_number_of
  sync_positions-quiet =
      then_store-same store (account_number_of feed account) _ _
        (λ number. then_store-quiet store (feed.client.positions number) _ import_positions-none)

  sync_balances-quiet :
      sync_balances feed store account ≡ sync_balances (quieted feed) store account
  unfolding sync_balances account_number_of
  sync_balances-quiet = refl

-- A call for orders, transactions or positions that fails has the effect of one that finds nothing:
-- the sync ends with the same store, the reconcile pass included, and with the same counts; what
-- differs is the errors.
pub sync_all-quieted :
    (feed : Feed) (store : InMemoryStore) (account : String) (since : Option Date)
    → let (store_a, result_a) = sync_all feed store account since in
      let (store_b, result_b) = sync_all (quieted feed) store account since in
      (store_a ≡ store_b) × ((record result_a { errors = [] }) ≡ (record result_b { errors = [] }))
unfolding sync_all pull_feeds sync_reconcile note_orders note_transactions note_positions
    note_balances
sync_all-quieted feed store account since =
    let orders = sync_orders-quiet feed store account since in
    let store_1 = (sync_orders feed store account since).0 in
    let txns = sync_transactions-quiet feed store_1 account since in
    let store_2 = (sync_transactions feed store_1 account since).0 in
    let positions = sync_positions-quiet feed store_2 account in
    let store_3 = (sync_positions feed store_2 account).0 in
    rw
      (
        ← orders.0,
        ← orders.1,
        ← txns.0,
        ← txns.1,
        ← positions.0,
        ← positions.1,
        ← sync_balances-quiet feed store_3 account,
      )
      (refl, refl)
