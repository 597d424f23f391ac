-- ===== src/Tests/Store.antt =====
-- The theorems on the in-memory store (tt_ledger/store/memory.py) at concrete rows.
use tt_ledger.Base.{
  String, ◌≡◌, refl, none, some, [], ◌∷◌, is_some, eqb, get_or_else, if◌then◌else◌,
}
use tt_ledger.Base.Assoc.{text_eq, id_eq, lookup, insert}
use tt_ledger.Rows.{TxnRow}
use tt_ledger.Store.Table.{Table, empty_table, get, id_of, get_by_key, upsert, upsert_keyed}
use tt_ledger.Store.Keys.{IsIndexed, IsIndexed-empty_table, upsert-IsIndexed, upsert-get_by_key}
use tt_ledger.Store.Memory.{txn_key, upsert_txn_rows}
use tt_ledger.Store.Linkage.{Keeps, upsert_txn_rows-Keeps}
use tt_ledger.Tests.{txn}

abbrev no_txns : Table String TxnRow
no_txns = empty_table

abbrev one_txn : Table String TxnRow
one_txn = (upsert txn_key no_txns txn).0

upsert-IsIndexed_example : IsIndexed txn_key (upsert txn_key no_txns txn).0
upsert-IsIndexed_example = upsert-IsIndexed txn_key no_txns (IsIndexed-empty_table txn_key) txn

upsert-get_by_key_example :
    let (t', row_id) = upsert txn_key no_txns txn in
    (get_by_key t' "t1" ≡ some txn)
    × (get t' row_id ≡ some txn)
    × (id_of t' "t1" ≡ some row_id)
    × (row_id ≡ get_or_else (id_of no_txns "t1") 1)
    × (t'.next_id ≡ (if is_some (id_of no_txns "t1") then 1 else 2))
    × (get t' 9 ≡ (if eqb row_id 9 then some txn else get no_txns 9))
upsert-get_by_key_example = upsert-get_by_key txn_key no_txns txn "t1" 9 refl

one_txn-IsIndexed : IsIndexed txn_key one_txn
one_txn-IsIndexed = upsert-IsIndexed txn_key no_txns (IsIndexed-empty_table txn_key) txn

one_txn-at : lookup 1 one_txn.rows ≡ some txn
unfolding lookup insert upsert upsert_keyed
one_txn-at = refl

-- the same transaction, fetched again without its links
abbrev fetched : TxnRow
fetched = record txn { order_id = none; trade_group_id = none }

upsert_txn_rows-Keeps_example :
    (new : TxnRow) × (lookup 1 (upsert_txn_rows one_txn (fetched ∷ [])).rows ≡ some new)
    × Keeps txn new
upsert_txn_rows-Keeps_example =
    upsert_txn_rows-Keeps (fetched ∷ []) one_txn one_txn-IsIndexed 1 txn one_txn-at
