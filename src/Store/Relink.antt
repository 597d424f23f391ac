-- ===== src/Store/Relink.antt =====
-- A row that a linking pass of the in-memory store has linked is not linked again (tt_ledger/store/memory.py).
use tt_ledger.Base.{
  ℕ, String, Option, none, some, List, [], ◌∷◌, ◌≡◌, refl, inl, inr, Option-cases, arith,
}
use tt_ledger.Base.Assoc.{Assoc, text_eq, id_eq}
use tt_ledger.Rows.{OrderRow, TxnRow, ClosedPositionRow}
use tt_ledger.Store.Table.{Table, get_by_key, id_of}
use tt_ledger.Store.Links.{relink, linked_txn, linked_order, linked_closed}

module _ {R : Type 0} (f : R → Option R) (settles : (r r' : R) → f r ≡ some r' → f r' ≡ none) where
  pub relink-settled : (rows : Assoc ℕ R) → relink f (relink f rows).0 ≡ ((relink f rows).0, 0)
  unfolding relink
  relink-settled [] = refl
  relink-settled ((i, r) ∷ rows) = elim (Option-cases (f r)) [
    | inl same ↦ rw (same, relink, same, relink-settled rows) refl
    | inr (r', linked) ↦ rw (linked, relink, settles r r' linked, relink-settled rows) refl
  ]

pub linked_txn-settles :
    (account : String) (orders : Table String OrderRow) (r r' : TxnRow)
    → linked_txn account orders r ≡ some r'
    → linked_txn account orders r' ≡ none
unfolding linked_txn get_by_key id_of
linked_txn-settles account orders r r' h = ground arith

pub linked_order-settles :
    (account : String) (by_order : Assoc String (List ℕ)) (r r' : OrderRow)
    → linked_order account by_order r ≡ some r'
    → linked_order account by_order r' ≡ none
unfolding linked_order
linked_order-settles account by_order r r' h = ground arith

pub linked_closed-settles :
    (account : String) (orders : Assoc ℕ OrderRow) (r r' : ClosedPositionRow)
    → linked_closed account orders r ≡ some r'
    → linked_closed account orders r' ≡ none
unfolding linked_closed
linked_closed-settles account orders r r' h = ground arith
