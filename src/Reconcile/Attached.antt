-- ===== src/Reconcile/Attached.antt =====
-- What the operations of the reconcile pass do to the transactions: they attach the rows they are
-- given, and write headers, orders and events besides (tt_ledger/ingest/reconcile.py,
-- `_apply_exit`, `_create_trade_group`, `_refresh_group_financials`).
use tt_ledger.Base.{
  ℕ, String, Bool, true, false, Option, none, some, List, [], ◌∷◌, ◌≡◌, refl, ◌∙◌, inl, inr, select,
  if◌then◌else◌, Option-cases, arith,
}
use tt_ledger.Base.Assoc.{Assoc, text_eq, id_eq}
use tt_ledger.Rows.{ActivityRow, TxnRow}
use tt_ledger.Rows.Units.{Instant}
use tt_ledger.Store.Memory.{InMemoryStore, upsert_trade_group, upsert_orders, add_trade_group_event}
use tt_ledger.Store.Reads.{get_trade_group_by_id}
use tt_ledger.Store.Links.{relink, attached_txn, attach_transactions_to_trade_group}
use tt_ledger.Reconcile.Nets.{fully_closed}
use tt_ledger.Reconcile.Route.{OpenGroup}
use tt_ledger.Reconcile.Members.{latest}
use tt_ledger.Reconcile.Exit.{
  Outside, emit, ids_of, unknown_rows, extend_unique, is_trade_close, rows_by_event,
  emit_trade_exit, emit_settlements, emit_roll, emit_exit, stamp_closed, land_exit, apply_exit,
}
use tt_ledger.Reconcile.Create.{create_trade_group, refresh_group_financials}

-- the rows once some are attached
abbrev pub attached_rows : List String → ℕ → Assoc ℕ TxnRow → Assoc ℕ TxnRow
attached_rows ids pk rows = (relink (attached_txn ids pk) rows).0

pub attach-rows :
    (store : InMemoryStore) (ids : List String) (pk : ℕ)
    → (attach_transactions_to_trade_group store ids pk).0.transactions.rows
      ≡ attached_rows ids pk store.transactions.rows
unfolding attach_transactions_to_trade_group
attach-rows store ids pk = refl

pub refresh-transactions :
    (store : InMemoryStore) (group : OpenGroup)
    → (refresh_group_financials store group).transactions ≡ store.transactions
unfolding refresh_group_financials upsert_trade_group
refresh-transactions store group = elim (Option-cases (get_trade_group_by_id store group.pk)) [
  | inl missing ↦ ground arith
  | inr (tg, found) ↦ rw (found, refresh_group_financials) refl
]

-- both branches of a test
if-transactions :
    (b : Bool) (x y store : InMemoryStore)
    → x.transactions ≡ store.transactions
    → y.transactions ≡ store.transactions
    → (if b then x else y).transactions ≡ store.transactions
if-transactions true x y store p q = p
if-transactions false x y store p q = q

module _ (out : Outside) where
  emit_trade_exit-transactions :
      (store : InMemoryStore) (pk : ℕ) (rows : List ActivityRow) (closed : Bool)
      (event_at : Option Instant)
      → (emit_trade_exit out store pk rows closed event_at).transactions ≡ store.transactions
  unfolding emit_trade_exit emit add_trade_group_event
  emit_trade_exit-transactions store pk [] closed event_at = refl
  emit_trade_exit-transactions store pk (r ∷ rows) closed event_at = refl

  emit_settlements-transactions :
      (pk : ℕ) (buckets : Assoc String (List ActivityRow)) (store : InMemoryStore)
      (event_at : Option Instant) (delivery : Option ℕ)
      → (emit_settlements out store pk buckets event_at delivery).transactions ≡ store.transactions
  unfolding emit_settlements emit add_trade_group_event
  emit_settlements-transactions pk [] store event_at delivery = refl
  emit_settlements-transactions pk ((name, rows) ∷ rest) store event_at delivery =
      emit_settlements-transactions pk rest _ event_at delivery

  emit_roll-transactions :
      (store : InMemoryStore) (pk : ℕ) (event_at : Option Instant) (rolled : Option ℕ)
      → (emit_roll out store pk event_at rolled).transactions ≡ store.transactions
  unfolding emit_roll emit add_trade_group_event
  emit_roll-transactions store pk event_at none = refl
  emit_roll-transactions store pk event_at (some to) = refl

  emit_exit-transactions :
      (store : InMemoryStore) (group : OpenGroup) (rows : List ActivityRow)
      (rolled delivery : Option ℕ)
      → (emit_exit out store group rows rolled delivery).transactions ≡ store.transactions
  unfolding emit_exit
  emit_exit-transactions store group rows rolled delivery =
      emit_roll-transactions _ group.pk (latest rows) rolled
      ∙ emit_settlements-transactions group.pk (rows_by_event [] rows) _ (latest rows) delivery
      ∙ emit_trade_exit-transactions store group.pk (select is_trade_close rows)
          (fully_closed group.rows) (latest rows)

  stamp_closed-transactions :
      (store : InMemoryStore) (group : OpenGroup) (event_at : Option Instant)
      → (stamp_closed out store group event_at).transactions ≡ store.transactions
  unfolding stamp_closed upsert_trade_group
  stamp_closed-transactions store group event_at =
      elim (Option-cases (get_trade_group_by_id store group.pk)) [
        | inl missing ↦ ground arith
        | inr (tg, found) ↦ rw (found, stamp_closed) refl
      ]

  land_exit-transactions :
      (store : InMemoryStore) (group : OpenGroup) (rows : List ActivityRow)
      (rolled delivery : Option ℕ)
      → (land_exit out store group rows rolled delivery).0.transactions ≡ store.transactions
  unfolding land_exit
  land_exit-transactions store group [] rolled delivery = refl
  land_exit-transactions store group (r ∷ rows) rolled delivery =
      let group' = extend_unique group (r ∷ rows) in
      let emitted = emit_exit-transactions store group' (r ∷ rows) rolled delivery in
      if-transactions (fully_closed group'.rows) _ _ store
        (stamp_closed-transactions (emit_exit out store group' (r ∷ rows) rolled delivery) group'
            (latest (r ∷ rows))
          ∙ emitted)
        emitted

  -- An exit attaches its rows and changes no transaction besides.
  pub apply_exit-rows :
      (store : InMemoryStore) (group : OpenGroup) (rows : List ActivityRow)
      (rolled delivery : Option ℕ)
      → (apply_exit out store group rows rolled delivery).0.transactions.rows
        ≡ attached_rows (ids_of rows) group.pk store.transactions.rows
  unfolding apply_exit
  apply_exit-rows store group rows rolled delivery =
      rw
        (land_exit-transactions (attach_transactions_to_trade_group store (ids_of rows) group.pk).0
          group (unknown_rows group.rows rows) rolled delivery)
        (attach-rows store (ids_of rows) group.pk)

  -- A new group attaches its cluster and changes no transaction besides.
  pub create_trade_group-rows :
      (store : InMemoryStore) (account : String) (cluster : List ActivityRow)
      → let (store', pk) = create_trade_group out store account cluster in
        store'.transactions.rows ≡ attached_rows (ids_of cluster) pk store.transactions.rows
  unfolding create_trade_group upsert_trade_group upsert_orders emit add_trade_group_event
      attach_transactions_to_trade_group
  create_trade_group-rows store account cluster = refl
