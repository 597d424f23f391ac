-- ===== src/Store/Links.antt =====
-- The linking operations of `InMemoryStore` (tt_ledger/store/memory.py). Each walks the rows of a
-- table in place, so a table keeps its ids and its index.
use tt_ledger.Base.{
  ℕ, suc, String, not, ◌||◌, Option, none, some, List, [], ◌∷◌, is_some, if◌then◌else◌, eqb, any_of,
  get_or_else,
}
use tt_ledger.Base.Text.{opt_is, str_eq}
use tt_ledger.Base.Assoc.{Assoc, lookup, insert, text_eq, id_eq}
use tt_ledger.Rows.{OrderRow, TxnRow, ClosedPositionRow}
use tt_ledger.Store.Table.{Table, get_by_key, id_of}
use tt_ledger.Store.Memory.{InMemoryStore}

-- a pass over rows that replaces some of them and counts these
unfoldable pub relink : {R : Type 0} → (R → Option R) → Assoc ℕ R → Assoc ℕ R × ℕ
relink f [] = ([], 0)
relink f ((row_id, row) ∷ rows) =
    let (rows', linked) = relink f rows in
    elim (f row) [
      | none ↦ ((row_id, row) ∷ rows', linked)
      | some row' ↦ ((row_id, row') ∷ rows', suc linked)
    ]

-- the same for a test that reads the id too
unfoldable pub relink_at : {R : Type 0} → (ℕ → R → Option R) → Assoc ℕ R → Assoc ℕ R × ℕ
relink_at f [] = ([], 0)
relink_at f ((row_id, row) ∷ rows) =
    let (rows', linked) = relink_at f rows in
    elim (f row_id row) [
      | none ↦ ((row_id, row) ∷ rows', linked)
      | some row' ↦ ((row_id, row') ∷ rows', suc linked)
    ]

unfoldable pub linked_txn : String → Table String OrderRow → TxnRow → Option TxnRow
linked_txn account orders txn =
    if not (str_eq txn.account account) || is_some txn.order_id
    then none
    else elim txn.tt_order_id [
      | none ↦ none
      | some k ↦ elim (get_by_key orders k) [
        | none ↦ none
        | some order ↦
            if str_eq order.account account
            then some (record txn { order_id = id_of orders k })
            else none
      ]
    ]

unfoldable pub link_transactions_to_orders : InMemoryStore → String → InMemoryStore × ℕ
unfolding relink
link_transactions_to_orders store account =
    let (rows, linked) = relink (linked_txn account store.orders) store.transactions.rows in
    (record store { transactions = record store.transactions { rows = rows } }, linked)

-- the set of groups that an order's transactions name, without repeats
unfoldable pub add_group : ℕ → List ℕ → List ℕ
add_group g gs = if any_of (eqb g) gs then gs else g ∷ gs

unfoldable pub groups_by_order :
    String → Assoc ℕ TxnRow → Assoc String (List ℕ) → Assoc String (List ℕ)
unfolding add_group
groups_by_order account [] by_order = by_order
groups_by_order account ((_, txn) ∷ rows) by_order =
    let rest = groups_by_order account rows in
    if not (str_eq txn.account account) || opt_is txn.tt_order_id ""
    then rest by_order
    else elim txn.tt_order_id [
      | none ↦ rest by_order
      | some k ↦ elim txn.trade_group_id [
        | none ↦ rest by_order
        | some g ↦ rest (insert k (add_group g (get_or_else (lookup k by_order) [])) by_order)
      ]
    ]

-- `len(groups) == 1`
abbrev pub single : List ℕ → Option ℕ
single (g ∷ []) = some g
single _ = none

unfoldable pub linked_order : String → Assoc String (List ℕ) → OrderRow → Option OrderRow
linked_order account by_order order =
    if not (str_eq order.account account)
      || is_some order.trade_group_id
      || opt_is order.tt_order_id ""
    then none
    else elim order.tt_order_id [
      | none ↦ none
      | some k ↦ elim (lookup k by_order) [
        | none ↦ none
        | some groups ↦ elim (single groups) [
          | none ↦ none
          | some g ↦ some (record order { trade_group_id = some g })
        ]
      ]
    ]

unfoldable pub link_orders_to_groups : InMemoryStore → String → InMemoryStore × ℕ
unfolding relink
link_orders_to_groups store account =
    let by_order = groups_by_order account store.transactions.rows [] in
    let (rows, linked) = relink (linked_order account by_order) store.orders.rows in
    (record store { orders = record store.orders { rows = rows } }, linked)

-- `tg_by_order_id.get(oid)`
unfoldable pub group_of_order : Assoc ℕ OrderRow → ℕ → Option ℕ
group_of_order orders oid = elim (lookup oid orders) [
  | none ↦ none
  | some order ↦ order.trade_group_id
]

unfoldable pub linked_closed :
    String → Assoc ℕ OrderRow → ClosedPositionRow → Option ClosedPositionRow
linked_closed account orders cp =
    if not (str_eq cp.account account) || is_some cp.trade_group_id
    then none
    else elim cp.closing_order_id [
      | none ↦ none
      | some oid ↦ elim (group_of_order orders oid) [
        | none ↦ none
        | some tg ↦ some (record cp { trade_group_id = some tg })
      ]
    ]

unfoldable pub link_closed_positions_to_groups : InMemoryStore → String → InMemoryStore × ℕ
unfolding relink
link_closed_positions_to_groups store account =
    let (rows, linked) =
      relink (linked_closed account store.orders.rows) store.closed_positions.rows in
    (record store { closed_positions = record store.closed_positions { rows = rows } }, linked)

-- `txn.tt_transaction_id in ids`
unfoldable pub attached_txn : List String → ℕ → TxnRow → Option TxnRow
attached_txn ids group txn =
    if any_of (str_eq txn.tt_transaction_id) ids
    then some (record txn { trade_group_id = some group })
    else none

unfoldable pub attach_transactions_to_trade_group :
    InMemoryStore → List String → ℕ → InMemoryStore × ℕ
unfolding relink
attach_transactions_to_trade_group store ids group =
    let (rows, attached) = relink (attached_txn ids group) store.transactions.rows in
    (record store { transactions = record store.transactions { rows = rows } }, attached)
