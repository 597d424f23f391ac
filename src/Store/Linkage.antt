-- ===== src/Store/Linkage.antt =====
-- A resync keeps the linkage of the rows that it brings again (tt_ledger/store/memory.py,
-- `upsert_orders` and `upsert_transactions`).
use tt_ledger.Base.{
  ℕ, String, true, none, some, List, [], ◌∷◌, is_some, ◌≡◌, ap, ◌⊎◌, inl, inr, Option-cases,
  Bool-cases, arith, eqb,
}
use tt_ledger.Base.Assoc.{lookup, insert, text_eq, id_eq, lookup-insert}
use tt_ledger.Rows.{TxnRow}
use tt_ledger.Store.Table.{Table, get_by_key, upsert, upsert_keyed}
use tt_ledger.Store.Keys.{IsIndexed, upsert-IsIndexed}
use tt_ledger.Store.Memory.{txn_key, keep_txn_linkage, merged_txn, upsert_txn, upsert_txn_rows}

-- every link that the first row has, the second one has
abbrev pub Keeps : TxnRow → TxnRow → Type 0
Keeps a b =
    (is_some a.order_id ≡ true → is_some b.order_id ≡ true)
    × (is_some a.order_leg_id ≡ true → is_some b.order_leg_id ≡ true)
    × (is_some a.position_id ≡ true → is_some b.position_id ≡ true)
    × (is_some a.closed_position_id ≡ true → is_some b.closed_position_id ≡ true)
    × (is_some a.trade_group_id ≡ true → is_some b.trade_group_id ≡ true)

Keeps-keep_txn_linkage : (old row : TxnRow) → Keeps old (keep_txn_linkage old row)
unfolding keep_txn_linkage
Keeps-keep_txn_linkage old row =
    (ground arith, ground arith, ground arith, ground arith, ground arith)

merged_txn-id :
    (t : Table String TxnRow) (row : TxnRow)
    → (merged_txn t row).tt_transaction_id ≡ row.tt_transaction_id
unfolding merged_txn keep_txn_linkage
merged_txn-id t row = ground arith

merged_txn-fresh :
    (t : Table String TxnRow) (row : TxnRow)
    → lookup row.tt_transaction_id t.index ≡ none
    → merged_txn t row ≡ row
unfolding merged_txn get_by_key
merged_txn-fresh t row fresh = ground arith

merged_txn-stored :
    (t : Table String TxnRow) (row : TxnRow) (j : ℕ) (old : TxnRow)
    → lookup row.tt_transaction_id t.index ≡ some j
    → lookup j t.rows ≡ some old
    → merged_txn t row ≡ keep_txn_linkage old row
unfolding merged_txn get_by_key
merged_txn-stored t row j old found at = ground arith

module _ (t : Table String TxnRow) (k : String) (row : TxnRow) where
  upsert_keyed-fresh :
      lookup k t.index ≡ none → (upsert_keyed t k row).0.rows ≡ insert t.next_id row t.rows
  unfolding upsert_keyed
  upsert_keyed-fresh fresh = ground arith

  upsert_keyed-found :
      (j : ℕ) → lookup k t.index ≡ some j → (upsert_keyed t k row).0.rows ≡ insert j row t.rows
  unfolding upsert_keyed
  upsert_keyed-found j found = ground arith

module _ (t : Table String TxnRow) (row : TxnRow) where
  upsert_txn-keyed : upsert_txn t row ≡ (upsert_keyed t row.tt_transaction_id (merged_txn t row)).0
  unfolding upsert_txn upsert
  upsert_txn-keyed = ap (λ k. (upsert_keyed t k (merged_txn t row)).0) (merged_txn-id t row)

  -- an upsert writes the row as it is, at the next id, or what the stored row becomes
  upsert_txn-rows :
      ((upsert_txn t row).rows ≡ insert t.next_id row t.rows)
      ⊎ ((j : ℕ) × (lookup row.tt_transaction_id t.index ≡ some j)
          × ((upsert_txn t row).rows ≡ insert j (merged_txn t row) t.rows))
  upsert_txn-rows = elim (Option-cases (lookup row.tt_transaction_id t.index)) [
    | inl fresh ↦ inl (
        rw (upsert_txn-keyed, merged_txn-fresh t row fresh)
          (upsert_keyed-fresh t row.tt_transaction_id row fresh))
    | inr (j, found) ↦ inr (
      j,
      found,
      rw upsert_txn-keyed (upsert_keyed-found t row.tt_transaction_id (merged_txn t row) j found),
    )
  ]

upsert_txn-Keeps :
    (t : Table String TxnRow) (v : IsIndexed txn_key t) (row : TxnRow) (i : ℕ) (old : TxnRow)
    → lookup i t.rows ≡ some old
    → (new : TxnRow) × (lookup i (upsert_txn t row).rows ≡ some new) × Keeps old new
upsert_txn-Keeps t v row i old at = elim (upsert_txn-rows t row) [
  | inl fresh ↦ (
    old,
    ground (arith, fresh, v.below i old at, lookup-insert t.next_id i row t.rows),
    ((λ h. h), (λ h. h), (λ h. h), (λ h. h), (λ h. h)),
  )
  | inr (j, found, written) ↦ elim (Bool-cases (eqb j i)) [
    | inl same ↦ (
      keep_txn_linkage old row,
      ground (
        arith,
        written,
        merged_txn-stored t row j old found,
        lookup-insert j i (merged_txn t row) t.rows,
      ),
      Keeps-keep_txn_linkage old row,
    )
    | inr other ↦ (
      old,
      ground (arith, written, lookup-insert j i (merged_txn t row) t.rows),
      ((λ h. h), (λ h. h), (λ h. h), (λ h. h), (λ h. h)),
    )
  ]
]

Keeps-trans : (a b c : TxnRow) → Keeps a b → Keeps b c → Keeps a c
Keeps-trans a b c (f0, f1, f2, f3, f4) (g0, g1, g2, g3, g4) =
    ((λ h. g0 (f0 h)), (λ h. g1 (f1 h)), (λ h. g2 (f2 h)), (λ h. g3 (f3 h)), (λ h. g4 (f4 h)))

upsert_txn-IsIndexed :
    (t : Table String TxnRow) (v : IsIndexed txn_key t) (row : TxnRow)
    → IsIndexed txn_key (upsert_txn t row)
unfolding upsert_txn
upsert_txn-IsIndexed t v row = upsert-IsIndexed txn_key t v (merged_txn t row)

-- In a table whose index agrees with its rows, a resync of any transactions leaves every stored
-- row under its id, and no order, leg, position, closed position or group that it was linked to
-- becomes unlinked.
pub upsert_txn_rows-Keeps :
    (rows : List TxnRow) (t : Table String TxnRow)
    → IsIndexed txn_key t
    → (i : ℕ) (old : TxnRow) → lookup i t.rows ≡ some old
    → (new : TxnRow) × (lookup i (upsert_txn_rows t rows).rows ≡ some new) × Keeps old new
unfolding upsert_txn_rows
upsert_txn_rows-Keeps [] t v i old at =
    (old, at, ((λ h. h), (λ h. h), (λ h. h), (λ h. h), (λ h. h)))
upsert_txn_rows-Keeps (row ∷ rows) t v i old at =
    let (mid, at', kept) = upsert_txn-Keeps t v row i old at in
    let (new, at'', kept') =
      upsert_txn_rows-Keeps rows (upsert_txn t row) (upsert_txn-IsIndexed t v row) i mid at' in
    (new, at'', Keeps-trans old mid new kept kept')
