-- ===== src/Store/Pages.antt =====
-- The paged reads of `InMemoryStore` (tt_ledger/store/memory.py): transactions, newest first, and
-- the bands of transactions of one group.
use tt_ledger.Base.{
  ℕ, zero, suc, String, Bool, true, false, ◌&&◌, ◌||◌, Option, none, some, List, [], ◌∷◌, ◌++◌, map,
  is_some, eqb, ltb, leb, any_of, select, sorted, length, if◌then◌else◌,
}
use tt_ledger.Base.Assoc.{Assoc, append_at, text_eq}
use tt_ledger.Base.Text.{str_eq, member, concat, decimal, text_le}
use tt_ledger.Enums.{opened, trade_group_status_value}
use tt_ledger.Rows.{TxnRow, TransactionQuery, TransactionDetailRow, TransactionBandPage}
use tt_ledger.Rows.Units.{Instant}
use tt_ledger.Store.Memory.{InMemoryStore}
use tt_ledger.Store.Reads.{
  in_range, passes, passes_opt, passes_id, joined, values, get_trade_group_by_id,
}

-- `xs[n:]`, `xs[:n]`
unfoldable pub skip {ℓ} : {A : Type ℓ} → ℕ → List A → List A
skip zero xs = xs
skip (suc n) [] = []
skip (suc n) (x ∷ xs) = skip n xs

unfoldable pub front {ℓ} : {A : Type ℓ} → ℕ → List A → List A
front zero xs = []
front (suc n) [] = []
front (suc n) (x ∷ xs) = x ∷ front n xs

-- `_in_window`
unfoldable pub in_window : Option Instant → TransactionQuery → Bool
in_window value q =
    let dated = in_range value q.start_on q.end_on in
    if is_some q.start_at || is_some q.end_at
    then elim value [
      | none ↦ false
      | some t ↦
          elim q.start_at [ none ↦ true | some s ↦ leb s t ]
          && elim q.end_at [ none ↦ true | some e ↦ ltb t e ]
    ]
    else dated

abbrev pub passes_accounts : Option (List String) → String → Bool
passes_accounts none account = true
passes_accounts (some accounts) account = member account accounts

unfoldable pub query_passes : TransactionQuery → TxnRow → Bool
unfolding in_window
query_passes q txn =
    passes q.account txn.account
    && passes_accounts q.accounts txn.account
    && in_window txn.executed_at q
    && passes_opt q.underlying txn.underlying
    && passes_opt q.transaction_type txn.transaction_type
    && passes_id q.trade_group_id txn.trade_group_id

-- the sort key `(executed_at is None, -executed_at, -id)`
unfoldable pub newer_first : ℕ × TxnRow → ℕ × TxnRow → Bool
newer_first (i, a) (j, b) = elim a.executed_at [
  | none ↦ elim b.executed_at [ none ↦ leb j i | some t ↦ false ]
  | some s ↦ elim b.executed_at [ none ↦ true | some t ↦ ltb t s || eqb s t && leb j i ]
]

unfoldable pub transaction_detail : InMemoryStore → ℕ × TxnRow → TransactionDetailRow
transaction_detail store (row_id, txn) = record {
  id = row_id;
  tt_transaction_id = txn.tt_transaction_id;
  account = txn.account;
  transaction_type = txn.transaction_type;
  transaction_sub_type = txn.transaction_sub_type;
  action = txn.action;
  description = txn.description;
  security_id = txn.security_id;
  underlying = txn.underlying;
  quantity = txn.quantity;
  price = txn.price;
  net_value = txn.net_value;
  net_value_effect = txn.net_value_effect;
  commission = txn.commission;
  clearing_fees = txn.clearing_fees;
  regulatory_fees = txn.regulatory_fees;
  proprietary_index_option_fees = txn.proprietary_index_option_fees;
  executed_at = txn.executed_at;
  order_id = txn.order_id;
  tt_order_id = txn.tt_order_id;
  trade_group_id = txn.trade_group_id;
  signal_id = elim (joined store.orders.rows txn.order_id) [ none ↦ none | some o ↦ o.signal_id ];
}

-- all that match, newest first
unfoldable pub matched : InMemoryStore → TransactionQuery → List (ℕ × TxnRow)
unfolding query_passes newer_first
matched store q =
    sorted newer_first (select (λ (p : ℕ × TxnRow). query_passes q p.1) store.transactions.rows)

-- one page, and the count of all that match
unfoldable pub query_transactions : InMemoryStore → TransactionQuery → List TransactionDetailRow × ℕ
unfolding matched
query_transactions store q = (
  map (transaction_detail store) (front q.limit (skip q.offset (matched store q))),
  length (matched store q),
)

-- `f"g{…}"` for a row of a group, `f"t{…}"` for one without
unfoldable pub band_key : TransactionDetailRow → String
band_key row = elim row.trade_group_id [
  | some pk ↦ concat "g" (decimal pk)
  | none ↦ concat "t" (decimal row.id)
]

unfoldable pub bands_onto :
    Assoc String (List TransactionDetailRow)
    → List TransactionDetailRow
    → Assoc String (List TransactionDetailRow)
unfolding band_key
bands_onto bands [] = bands
bands_onto bands (row ∷ rows) = bands_onto (append_at (band_key row) row bands) rows

abbrev pub rows_of_bands : Assoc String (List TransactionDetailRow) → List TransactionDetailRow
rows_of_bands [] = []
rows_of_bands ((_, rows) ∷ bands) = rows ++ rows_of_bands bands

-- the query of `limit=len(…) + 1, offset=0`
abbrev pub unpaged : InMemoryStore → TransactionQuery → TransactionQuery
unpaged store q = record q { limit = suc (length store.transactions.rows); offset = 0 }

unfoldable pub query_transaction_bands : InMemoryStore → TransactionQuery → TransactionBandPage
unfolding query_transactions bands_onto
query_transaction_bands store q =
    let (all_rows, row_total) = query_transactions store (unpaged store q) in
    let bands = bands_onto [] all_rows in
    record {
      rows = rows_of_bands (front q.limit (skip q.offset bands));
      band_total = length bands;
      row_total = row_total;
    }

-- the open groups of the positions, each once
abbrev pub PositionGroup : Type 0
PositionGroup = String × (String × ℕ)

abbrev pub same_group : PositionGroup → PositionGroup → Bool
same_group (a, (s, g)) (b, (t, h)) = str_eq a b && str_eq s t && eqb g h

abbrev pub group_le : PositionGroup → PositionGroup → Bool
group_le (a, (s, g)) (b, (t, h)) =
    if str_eq a b then if str_eq s t then leb g h else text_le s t else text_le a b

-- the triple of a transaction of an open group
unfoldable pub position_group : InMemoryStore → Option String → TxnRow → Option PositionGroup
position_group store account txn = elim txn.security_id [
  | none ↦ none
  | some sid ↦ elim txn.trade_group_id [
    | none ↦ none
    | some pk ↦ elim (get_trade_group_by_id store pk) [
      | none ↦ none
      | some tg ↦
          if passes account txn.account && str_eq tg.status (trade_group_status_value opened)
          then some (txn.account, (sid, pk))
          else none
    ]
  ]
]

unfoldable pub position_groups : InMemoryStore → Option String → List TxnRow → List PositionGroup
unfolding position_group
position_groups store account [] = []
position_groups store account (txn ∷ txns) =
    let rest = position_groups store account txns in
    elim (position_group store account txn) [
      | none ↦ rest
      | some g ↦ if any_of (same_group g) rest then rest else g ∷ rest
    ]

unfoldable pub get_open_position_groups : InMemoryStore → Option String → List PositionGroup
unfolding position_groups
get_open_position_groups store account =
    sorted group_le (position_groups store account (values store.transactions.rows))
