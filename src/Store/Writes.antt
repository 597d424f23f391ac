-- ===== src/Store/Writes.antt =====
-- The remaining writes of `InMemoryStore` (tt_ledger/store/memory.py).
use tt_ledger.Base.{ℕ, String, Option, none, some, List, [], ◌∷◌, any_of, eqb, if◌then◌else◌}
use tt_ledger.Base.Assoc.{Assoc, lookup, insert, text_eq, id_eq, pair_eq}
use tt_ledger.Rows.{LegRow, FillRow, TxnRow, SecurityRow, PositionRow}
use tt_ledger.Store.Table.{Table, upsert}
use tt_ledger.Store.Memory.{InMemoryStore, LegId, PositionKey, leg_key}
use tt_ledger.Store.Links.{relink, relink_at}

unfoldable pub upsert_leg_rows : Table LegId LegRow → List LegRow → Table LegId LegRow × List ℕ
upsert_leg_rows legs [] = (legs, [])
upsert_leg_rows legs (row ∷ rows) =
    let (legs', row_id) = upsert leg_key legs row in
    let (legs'', ids) = upsert_leg_rows legs' rows in (legs'', row_id ∷ ids)

unfoldable pub upsert_legs : InMemoryStore → List LegRow → InMemoryStore × List ℕ
upsert_legs store rows =
    let (legs, ids) = upsert_leg_rows store.legs rows in (record store { legs = legs }, ids)

unfoldable pub upsert_fill_rows : Table String FillRow → List FillRow → Table String FillRow
upsert_fill_rows fills [] = fills
upsert_fill_rows fills (row ∷ rows) =
    upsert_fill_rows (upsert (λ (r : FillRow). some r.fill_id) fills row).0 rows

unfoldable pub upsert_fills : InMemoryStore → List FillRow → InMemoryStore
upsert_fills store rows = record store { fills = upsert_fill_rows store.fills rows }

unfoldable pub upsert_security : InMemoryStore → SecurityRow → InMemoryStore
upsert_security store sec = record store {
  securities = (upsert (λ (r : SecurityRow). some r.security_id) store.securities sec).0;
}

abbrev pub position_key : PositionRow → Option PositionKey
position_key row = some (row.account, row.security_id)

unfoldable pub upsert_position_rows :
    Table PositionKey PositionRow → List PositionRow → Table PositionKey PositionRow
upsert_position_rows positions [] = positions
upsert_position_rows positions (row ∷ rows) =
    upsert_position_rows (upsert position_key positions row).0 rows

unfoldable pub upsert_positions : InMemoryStore → List PositionRow → InMemoryStore
upsert_positions store rows = record store { positions = upsert_position_rows store.positions rows }

-- transaction, open position, closed position
abbrev pub PositionLink : Type 0
PositionLink = String × (Option ℕ × Option ℕ)

-- `{tt_transaction_id: (position_id, closed_position_id) for … in links}`: the last one counts
unfoldable pub links_by_id :
    Assoc String (Option ℕ × Option ℕ) → List PositionLink → Assoc String (Option ℕ × Option ℕ)
links_by_id acc [] = acc
links_by_id acc ((name, ids) ∷ rest) = links_by_id (insert name ids acc) rest

unfoldable pub position_linked : Assoc String (Option ℕ × Option ℕ) → TxnRow → Option TxnRow
position_linked by_id txn = elim (lookup txn.tt_transaction_id by_id) [
  | none ↦ none
  | some ids ↦ some (record txn { position_id = ids.0; closed_position_id = ids.1 })
]

unfoldable pub link_transactions_to_positions :
    InMemoryStore → List PositionLink → InMemoryStore × ℕ
unfolding relink links_by_id
link_transactions_to_positions store links =
    let (rows, linked) = relink (position_linked (links_by_id [] links)) store.transactions.rows in
    (record store { transactions = record store.transactions { rows = rows } }, linked)

-- `row_id in ids`
unfoldable pub moved_txn : List ℕ → Option ℕ → ℕ → TxnRow → Option TxnRow
moved_txn ids group row_id txn =
    if any_of (eqb row_id) ids then some (record txn { trade_group_id = group }) else none

unfoldable pub move_transactions_to_group : InMemoryStore → List ℕ → Option ℕ → InMemoryStore × ℕ
unfolding relink_at
move_transactions_to_group store ids group =
    let (rows, moved) = relink_at (moved_txn ids group) store.transactions.rows in
    (record store { transactions = record store.transactions { rows = rows } }, moved)
