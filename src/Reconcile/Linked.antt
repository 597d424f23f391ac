-- ===== src/Reconcile/Linked.antt =====
-- The link step of the reconcile pass, repeated (tt_ledger/ingest/reconcile.py, `reconcile`, over
-- the passes of tt_ledger/store/memory.py).
use tt_ledger.Base.{
  ℕ, String, Option, none, some, List, [], ◌∷◌, ◌≡◌, refl, subst, inl, inr, eqb, Option-cases,
  Bool-cases, arith,
}
use tt_ledger.Base.Assoc.{Assoc, lookup, text_eq, id_eq}
use tt_ledger.Rows.{OrderRow, TxnRow}
use tt_ledger.Store.Table.{Table, get_by_key, id_of}
use tt_ledger.Store.Memory.{InMemoryStore}
use tt_ledger.Store.Links.{
  relink, linked_txn, link_transactions_to_orders, groups_by_order, linked_order,
  link_orders_to_groups, linked_closed, link_closed_positions_to_groups,
}
use tt_ledger.Store.Relink.{
  relink-settled, linked_txn-settles, linked_order-settles, linked_closed-settles,
}
use tt_ledger.Reconcile.Pass.{link_edges}

relink-ext :
    {R : Type 0} (f g : R → Option R)
    → ((r : R) → f r ≡ g r)
    → (rows : Assoc ℕ R) → relink f rows ≡ relink g rows
unfolding relink
relink-ext f g e [] = refl
relink-ext f g e ((i, r) ∷ rows) = ground (arith, e r, relink-ext f g e rows)

-- what the link of an order to its group keeps of the order
abbrev SameOwner : Option OrderRow → Option OrderRow → Type 0
SameOwner none none = Unit
SameOwner (some a) (some b) = b.account ≡ a.account
SameOwner _ _ = ⊥

SameOwner-refl : (o : Option OrderRow) → SameOwner o o
SameOwner-refl none = tt
SameOwner-refl (some a) = refl

linked_order-account :
    (account : String) (by_order : Assoc String (List ℕ)) (r r' : OrderRow)
    → linked_order account by_order r ≡ some r'
    → r'.account ≡ r.account
unfolding linked_order
linked_order-account account by_order r r' h = ground arith

module _ (account : String) (by_order : Assoc String (List ℕ)) where
  lookup-relink :
      (i : ℕ) (rows : Assoc ℕ OrderRow)
      → SameOwner (lookup i rows) (lookup i (relink (linked_order account by_order) rows).0)
  unfolding relink lookup
  lookup-relink i [] = tt
  lookup-relink i ((j, r) ∷ rows) = elim (Option-cases (linked_order account by_order r)) [
    | inl same ↦ elim (Bool-cases (eqb j i)) [
      | inl here ↦ rw (relink, same, lookup, here, SameOwner) refl
      | inr there ↦ rw (relink, same, lookup, there) (lookup-relink i rows)
    ]
    | inr (r', linked) ↦ elim (Bool-cases (eqb j i)) [
      | inl here ↦
          rw (relink, linked, lookup, here, SameOwner)
            (linked_order-account account by_order r r' linked)
      | inr there ↦ rw (relink, linked, lookup, there) (lookup-relink i rows)
    ]
  ]

linked_txn-owner :
    (account : String) (orders : Table String OrderRow) (rows : Assoc ℕ OrderRow) (txn : TxnRow)
    → ((i : ℕ) → SameOwner (lookup i orders.rows) (lookup i rows))
    → linked_txn account (record orders { rows = rows }) txn ≡ linked_txn account orders txn
unfolding linked_txn get_by_key id_of
linked_txn-owner account orders rows txn same = elim (Option-cases txn.tt_order_id) [
  | inl none_named ↦ rw none_named refl
  | inr (k, named) ↦ elim (Option-cases (lookup k orders.index)) [
    | inl unknown ↦ rw (named, get_by_key, unknown) refl
    | inr (i, known) ↦ elim (Option-cases (lookup i orders.rows)) [
      | inl gone ↦ elim (Option-cases (lookup i rows)) [
        | inl gone' ↦ rw (named, get_by_key, known, gone, gone') refl
        | inr (b, there') ↦ absurd (
            subst (λ o. SameOwner none o) there'
              (subst (λ o. SameOwner o (lookup i rows)) gone (same i)))
      ]
      | inr (a, there) ↦ elim (Option-cases (lookup i rows)) [
        | inl gone' ↦ absurd (
            subst (λ o. SameOwner (some a) o) gone'
              (subst (λ o. SameOwner o (lookup i rows)) there (same i)))
        | inr (b, there') ↦
            let owner : b.account ≡ a.account =
              subst (λ o. SameOwner (some a) o) there'
                (subst (λ o. SameOwner o (lookup i rows)) there (same i)) in
            rw (named, get_by_key, known, there, there', owner) refl
      ]
    ]
  ]
]

-- The link step a second time changes nothing: the links that its later passes make give the
-- earlier ones nothing more to link.
pub link_edges-settled :
    (store : InMemoryStore) (account : String)
    → link_edges (link_edges store account) account ≡ link_edges store account
unfolding link_edges link_transactions_to_orders link_orders_to_groups
    link_closed_positions_to_groups
link_edges-settled store account =
    let txns = (relink (linked_txn account store.orders) store.transactions.rows).0 in
    let by_order = groups_by_order account txns [] in
    let orders = (relink (linked_order account by_order) store.orders.rows).0 in
    rw
      (
        relink-ext (linked_txn account (record store.orders { rows = orders }))
            (linked_txn account store.orders)
            (λ txn.
              linked_txn-owner account store.orders orders txn
                (λ i. lookup-relink account by_order i store.orders.rows))
            txns,
        relink-settled (linked_txn account store.orders) (linked_txn-settles account store.orders)
            store.transactions.rows,
        relink-settled (linked_order account by_order) (linked_order-settles account by_order)
            store.orders.rows,
        relink-settled (linked_closed account orders) (linked_closed-settles account orders)
            store.closed_positions.rows,
      )
      refl
