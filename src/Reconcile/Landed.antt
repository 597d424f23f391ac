-- ===== src/Reconcile/Landed.antt =====
-- The steps of the pass that attach rows (tt_ledger/ingest/reconcile.py): each puts its rows into
-- groups and regroups no transaction besides.
use tt_ledger.Base.{
  ℕ, String, Bool, false, not, ◌||◌, Option, none, List, [], ◌∷◌, ◌≡◌, refl, sym, subst, inl, inr,
  select, Bool-cases, arith,
}
use tt_ledger.Base.Assoc.{Assoc}
use tt_ledger.Rows.{ActivityRow, TxnRow}
use tt_ledger.Store.Regrouped.{
  listed, Regrouped, Grouped, Among, Regrouped-refl, Regrouped-trans, Regrouped-Grouped,
  attach-Regrouped, attach-Grouped,
}
use tt_ledger.Store.Memory.{InMemoryStore}
use tt_ledger.Store.Links.{attach_transactions_to_trade_group}
use tt_ledger.Reconcile.Rules.{is_closing}
use tt_ledger.Reconcile.Route.{OpenGroup}
use tt_ledger.Reconcile.Exit.{Outside, ids_of, extend_unique, apply_exit}
use tt_ledger.Reconcile.Create.{create_trade_group}
use tt_ledger.Reconcile.Attached.{
  attached_rows, refresh-transactions, apply_exit-rows, create_trade_group-rows,
}
use tt_ledger.Reconcile.Pass.{Pass, attach_opening, exit_intent, route_intent, open_rest}

-- The transactions of a pass.
abbrev pub txns_of : Pass → Assoc ℕ TxnRow
txns_of s = s.store.transactions.rows

-- Only rows that are named are regrouped, and the given rows are in groups.
pub record Lands (names : List String) (rows : List ActivityRow) (a b : Assoc ℕ TxnRow)
    : Type 0 where
  pub kept : Regrouped names a b
  pub grouped : Grouped (ids_of rows) b

Grouped-none : (b : Assoc ℕ TxnRow) → Grouped [] b
Grouped-none [] = tt
Grouped-none ((i, t) ∷ b) = (inl refl, Grouped-none b)

pub Lands-none : (names : List String) (a : Assoc ℕ TxnRow) → Lands names [] a a
Lands-none names a = record { kept = Regrouped-refl names a; grouped = Grouped-none a }

-- rows in two parts
Grouped-parts :
    (rows xs ys : List ActivityRow) (b : Assoc ℕ TxnRow)
    → ((n : String) → listed n (ids_of rows) ≡ (listed n (ids_of xs) || listed n (ids_of ys)))
    → Grouped (ids_of xs) b
    → Grouped (ids_of ys) b
    → Grouped (ids_of rows) b
Grouped-parts rows xs ys [] e p q = tt
Grouped-parts rows xs ys ((i, t) ∷ b) e (h, p) (g, q) =
    (ground (arith, h, g, e t.tt_transaction_id), Grouped-parts rows xs ys b e p q)

pub Lands-parts :
    (names : List String) (rows xs ys : List ActivityRow) (a b c : Assoc ℕ TxnRow)
    → ((n : String) → listed n (ids_of rows) ≡ (listed n (ids_of xs) || listed n (ids_of ys)))
    → Lands names xs a b
    → Lands names ys b c
    → Lands names rows a c
Lands-parts names rows xs ys a b c e p q = record {
  kept = Regrouped-trans names a b c p.kept q.kept;
  grouped =
      Grouped-parts rows xs ys c e (Regrouped-Grouped names (ids_of xs) b c q.kept p.grouped)
        q.grouped;
}

Grouped-same :
    (rows xs : List ActivityRow) (b : Assoc ℕ TxnRow)
    → ((n : String) → listed n (ids_of rows) ≡ listed n (ids_of xs))
    → Grouped (ids_of xs) b
    → Grouped (ids_of rows) b
Grouped-same rows xs [] e p = tt
Grouped-same rows xs ((i, t) ∷ b) e (h, p) =
    (ground (arith, h, e t.tt_transaction_id), Grouped-same rows xs b e p)

pub Lands-same :
    (names : List String) (rows xs : List ActivityRow) (a b : Assoc ℕ TxnRow)
    → ((n : String) → listed n (ids_of rows) ≡ listed n (ids_of xs))
    → Lands names xs a b
    → Lands names rows a b
Lands-same names rows xs a b e p = record {
  kept = p.kept;
  grouped = Grouped-same rows xs b e p.grouped;
}

pub listed-select :
    (p : ActivityRow → Bool) (rows : List ActivityRow) (n : String)
    → listed n (ids_of rows)
      ≡ (listed n (ids_of (select (λ r. not (p r)) rows)) || listed n (ids_of (select p rows)))
listed-select p [] n = refl
listed-select p (r ∷ rows) n = elim (Bool-cases (p r)) [
  | inl here ↦ rw here (ground (arith, listed-select p rows n))
  | inr out ↦ rw out (ground (arith, listed-select p rows n))
]

module _ (names : List String) where
  Lands-attach :
      (rows : List ActivityRow) (pk : ℕ) (a : Assoc ℕ TxnRow)
      → Among (ids_of rows) names
      → Lands names rows a (attached_rows (ids_of rows) pk a)
  Lands-attach rows pk a among = record {
    kept = attach-Regrouped names (ids_of rows) pk among a;
    grouped = attach-Grouped (ids_of rows) pk a;
  }

  module _ (out : Outside) where
    pub apply_exit-Lands :
        (store : InMemoryStore) (group : OpenGroup) (rows : List ActivityRow)
        (rolled delivery : Option ℕ)
        → Among (ids_of rows) names
        → Lands names rows store.transactions.rows
            (apply_exit out store group rows rolled delivery).0.transactions.rows
    apply_exit-Lands store group rows rolled delivery among =
        subst (Lands names rows store.transactions.rows)
          (sym (apply_exit-rows out store group rows rolled delivery))
          (Lands-attach rows group.pk store.transactions.rows among)

    pub create_trade_group-Lands :
        (store : InMemoryStore) (account : String) (rows : List ActivityRow)
        → Among (ids_of rows) names
        → Lands names rows store.transactions.rows
            (create_trade_group out store account rows).0.transactions.rows
    create_trade_group-Lands store account rows among =
        subst (Lands names rows store.transactions.rows)
          (sym (create_trade_group-rows out store account rows))
          (Lands-attach rows (create_trade_group out store account rows).1 store.transactions.rows
            among)

    attach_opening-Lands :
        (s : Pass) (group : OpenGroup) (rows : List ActivityRow)
        → Among (ids_of rows) names
        → Lands names rows (txns_of s) (txns_of (attach_opening out s group rows).0)
    unfolding attach_opening attach_transactions_to_trade_group
    attach_opening-Lands s group [] among = Lands-none names (txns_of s)
    attach_opening-Lands s group (r ∷ rows) among =
        rw
          (refresh-transactions
            (attach_transactions_to_trade_group s.store (ids_of (r ∷ rows)) group.pk).0
            (extend_unique group (r ∷ rows)))
          (Lands-attach (r ∷ rows) group.pk (txns_of s) among)

    exit_intent-Lands :
        (s : Pass) (group : OpenGroup) (rows : List ActivityRow)
        → Among (ids_of rows) names
        → Lands names rows (txns_of s) (txns_of (exit_intent out s group rows))
    unfolding exit_intent
    exit_intent-Lands s group [] among = Lands-none names (txns_of s)
    exit_intent-Lands s group (r ∷ rows) among =
        apply_exit-Lands s.store group (r ∷ rows) none none among

    -- The rows of an intent group, opening and closing, are in groups afterwards.
    pub route_intent-Lands :
        (s : Pass) (group : OpenGroup) (rows : List ActivityRow)
        → Among (ids_of rows) names
        → Lands names rows (txns_of s) (txns_of (route_intent out s group rows))
    unfolding route_intent
    route_intent-Lands s group rows among =
        let opening = select (λ r. not (is_closing r)) rows in
        let closing = select is_closing rows in
        let (s', group') = attach_opening out s group opening in
        Lands-parts names rows opening closing (txns_of s) (txns_of s')
          (txns_of (exit_intent out s' group' closing)) (listed-select is_closing rows)
          (attach_opening-Lands s group opening
            (λ n h. among n (ground (arith, h, listed-select is_closing rows n))))
          (exit_intent-Lands s' group' closing
            (λ n h. among n (ground (arith, h, listed-select is_closing rows n))))

    -- The rows that no group took are in a new one afterwards.
    pub open_rest-Lands :
        (account : String) (s : Pass) (rows : List ActivityRow)
        → Among (ids_of rows) names
        → Lands names rows (txns_of s) (txns_of (open_rest out false account s rows).0)
    unfolding open_rest
    open_rest-Lands account s [] among = Lands-none names (txns_of s)
    open_rest-Lands account s (r ∷ rows) among =
        create_trade_group-Lands s.store account (r ∷ rows) among
