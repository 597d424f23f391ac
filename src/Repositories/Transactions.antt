-- ===== src/Repositories/Transactions.antt =====
-- Transactions from the broker (tt_ledger/repositories/__init__.py, `TransactionRepository`).
use tt_ledger.Base.{ℕ, String, Option, none, some, List, [], ◌∷◌, length, if◌then◌else◌}
use tt_ledger.Base.Text.{str_eq}
use tt_ledger.Rows.{TxnRow}
use tt_ledger.Broker.{BrokerTransaction}
use tt_ledger.Store.Memory.{InMemoryStore, upsert_transactions}
use tt_ledger.Store.Links.{link_transactions_to_orders}
use tt_ledger.Repositories.Securities.{Attempt, ok, raised, SecurityResolver, Seen, note_security}

unfoldable pub txn_row : BrokerTransaction → String → String → Option String → TxnRow
txn_row t account source_system security_id = record {
  tt_transaction_id = t.id;
  tt_order_id = t.order_id;
  account = account;
  account_number = some t.account_number;
  source_system = source_system;
  transaction_type = t.transaction_type;
  transaction_sub_type = t.transaction_sub_type;
  action = t.action;
  security_id = security_id;
  underlying = t.underlying_symbol;
  quantity = t.quantity;
  price = t.price;
  value = t.value;
  value_effect = t.value_effect;
  net_value = t.net_value;
  net_value_effect = t.net_value_effect;
  commission = t.commission;
  clearing_fees = t.clearing_fees;
  regulatory_fees = t.regulatory_fees;
  proprietary_index_option_fees = t.proprietary_index_option_fees;
  is_estimated_fee = t.is_estimated_fee;
  description = t.description;
  order_id = none;
  order_leg_id = none;
  position_id = none;
  closed_position_id = none;
  trade_group_id = none;
  executed_at = t.executed_at;
  transaction_date = t.transaction_date;
}

-- the security of a transaction with a symbol that is not empty
unfoldable pub resolve_txn :
    SecurityResolver → Seen → BrokerTransaction → Seen × Attempt (Option String)
unfolding note_security
resolve_txn resolve seen t = elim t.symbol [
  | none ↦ (seen, ok none)
  | some symbol ↦
      if str_eq symbol "" then (seen, ok none) else elim (resolve symbol t.instrument_type) [
        | raised text ↦ (seen, raised text)
        | ok resolved ↦ (note_security seen resolved symbol, ok (some resolved.security_id))
      ]
]

unfoldable pub resolve_txns :
    SecurityResolver
    → String
    → String
    → Seen
    → List BrokerTransaction
    → Seen × Attempt (List TxnRow)
unfolding resolve_txn txn_row
resolve_txns resolve account source_system seen [] = (seen, ok [])
resolve_txns resolve account source_system seen (t ∷ txns) =
    let (seen', resolved) = resolve_txn resolve seen t in
    elim resolved [
      | raised text ↦ (seen', raised text)
      | ok security_id ↦
          let (seen'', rest) = resolve_txns resolve account source_system seen' txns in
          elim rest [
            | raised text ↦ (seen'', raised text)
            | ok rows ↦ (seen'', ok (txn_row t account source_system security_id ∷ rows))
          ]
    ]

-- `TransactionRepository.upsert`
unfoldable pub import_transactions :
    SecurityResolver
    → InMemoryStore
    → List BrokerTransaction
    → String
    → String
    → InMemoryStore × Attempt ℕ
unfolding resolve_txns
import_transactions resolve store txns account source_system =
    let (seen, resolved) =
      resolve_txns resolve account source_system (record { store = store; ids = [] }) txns in
    elim resolved [
      | raised text ↦ (seen.store, raised text)
      | ok rows ↦ (upsert_transactions seen.store rows, ok (length rows))
    ]

-- `TransactionRepository.link_to_orders`
unfoldable pub link_to_orders : InMemoryStore → String → InMemoryStore × ℕ
link_to_orders = link_transactions_to_orders
