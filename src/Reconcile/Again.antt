-- ===== src/Reconcile/Again.antt =====
-- An exit that is landed again changes nothing (tt_ledger/ingest/reconcile.py, `_apply_exit`).
use tt_ledger.Base.{
  ℕ, String, Bool, true, false, not, ◌||◌, Option, some, List, [], ◌∷◌, ◌++◌, ◌≡◌, refl, sym, ap,
  subst, ◌∙◌, inl, inr, select, append_assoc, append-nil, Bool-cases, any_of, arith,
}
use tt_ledger.Base.Assoc.{Assoc, text_eq}
use tt_ledger.Base.Text.{str_eq, eq_iff, member}
use tt_ledger.Rows.{ActivityRow, TxnRow}
use tt_ledger.Store.Memory.{InMemoryStore}
use tt_ledger.Store.Links.{relink, attached_txn, attach_transactions_to_trade_group}
use tt_ledger.Reconcile.Route.{OpenGroup}
use tt_ledger.Reconcile.Exit.{
  Outside, AppliedExit, ids_of, unknown_rows, extend_unique, landed_exit, land_exit, apply_exit,
}
use tt_ledger.Reconcile.Attached.{attached_rows, apply_exit-rows}

-- attaching the same rows to the same group again
attach-again :
    (ids : List String) (pk : ℕ) (rows : Assoc ℕ TxnRow)
    → (relink (attached_txn ids pk) (relink (attached_txn ids pk) rows).0).0
      ≡ (relink (attached_txn ids pk) rows).0
unfolding relink attached_txn
attach-again ids pk [] = refl
attach-again ids pk ((i, t) ∷ rows) = elim (Bool-cases (any_of (str_eq t.tt_transaction_id) ids)) [
  | inl named ↦
      rw (named, relink, named)
        (ap (λ l. (i, record t { trade_group_id = some pk }) ∷ l) (attach-again ids pk rows))
  | inr other ↦ rw (other, relink, other) (ap (λ l. (i, t) ∷ l) (attach-again ids pk rows))
]

member-append :
    (name : String) (xs ys : List ActivityRow)
    → member name (ids_of (xs ++ ys)) ≡ (member name (ids_of xs) || member name (ids_of ys))
member-append name [] ys = refl
member-append name (x ∷ xs) ys = ground (arith, member-append name xs ys)

-- the test of `unknown_rows`
unfoldable is_new : List ActivityRow → ActivityRow → Bool
is_new known r = not (member r.tt_transaction_id (ids_of known))

select-again :
    (p : ActivityRow → Bool) (rows : List ActivityRow) → select p (select p rows) ≡ select p rows
select-again p [] = refl
select-again p (r ∷ rows) = elim (Bool-cases (p r)) [
  | inl here ↦ rw (here, here) (ap (λ l. r ∷ l) (select-again p rows))
  | inr out ↦ rw out (select-again p rows)
]

select_old :
    (p : ActivityRow → Bool) (r : ActivityRow) (rows : List ActivityRow)
    → p r ≡ false
    → select p rows ≡ []
    → select p (r ∷ rows) ≡ []
select_old p r rows old e = rw old e

select_new :
    (p : ActivityRow → Bool) (r : ActivityRow) (rows : List ActivityRow)
    → p r ≡ true
    → select p (r ∷ rows) ≡ r ∷ select p rows
select_new p r rows h = rw h refl

select_skip :
    (p : ActivityRow → Bool) (r : ActivityRow) (rows : List ActivityRow)
    → p r ≡ false
    → select p (r ∷ rows) ≡ select p rows
select_skip p r rows h = rw h refl

-- once the new rows are members, none is new
none_new :
    (known before rows : List ActivityRow)
    → select (is_new (known ++ (before ++ select (is_new known) rows))) rows ≡ []
unfolding is_new
none_new known before [] = refl
none_new known before (r ∷ rows) =
    let sel = select (is_new known) rows in
    let self = (eq_iff r.tt_transaction_id r.tt_transaction_id).1 refl in
    elim (Bool-cases (is_new known r)) [
      | inl fresh ↦
          subst (λ (l : List ActivityRow). select (is_new (known ++ (before ++ l))) (r ∷ rows) ≡ [])
            (sym (select_new (is_new known) r rows fresh))
            (select_old (is_new (known ++ (before ++ r ∷ sel))) r rows
              (ground (
                arith,
                self,
                member-append r.tt_transaction_id known (before ++ r ∷ sel),
                member-append r.tt_transaction_id before (r ∷ sel),
              ))
              (subst (λ (l : List ActivityRow). select (is_new (known ++ l)) rows ≡ [])
                (append_assoc before (r ∷ []) sel) (none_new known (before ++ r ∷ []) rows)))
      | inr old ↦
          subst (λ (l : List ActivityRow). select (is_new (known ++ (before ++ l))) (r ∷ rows) ≡ [])
            (sym (select_skip (is_new known) r rows old))
            (select_old (is_new (known ++ (before ++ sel))) r rows
              (ground (arith, old, member-append r.tt_transaction_id known (before ++ sel)))
              (none_new known before rows))
    ]

attach_landed :
    (store : InMemoryStore) (ids : List String) (pk : ℕ) (base : Assoc ℕ TxnRow)
    → store.transactions.rows ≡ attached_rows ids pk base
    → (attach_transactions_to_trade_group store ids pk).0 ≡ store
unfolding attach_transactions_to_trade_group
attach_landed store ids pk base e =
    ap
      (λ (rows : Assoc ℕ TxnRow). record store {
        transactions = record store.transactions { rows = rows };
      })
      (ap (λ (rows : Assoc ℕ TxnRow). attached_rows ids pk rows) e
        ∙ attach-again ids pk base
        ∙ sym e)

module _ (out : Outside) where
  land_exit-rows :
      (store : InMemoryStore) (group : OpenGroup) (fresh : List ActivityRow)
      (rolled delivery : Option ℕ)
      → (land_exit out store group fresh rolled delivery).1.rows
        ≡ group.rows ++ unknown_rows group.rows fresh
  unfolding land_exit extend_unique unknown_rows
  land_exit-rows store group [] rolled delivery = sym (append-nil group.rows)
  land_exit-rows store group (r ∷ fresh) rolled delivery = refl

  land_exit-pk :
      (store : InMemoryStore) (group : OpenGroup) (fresh : List ActivityRow)
      (rolled delivery : Option ℕ)
      → (land_exit out store group fresh rolled delivery).1.pk ≡ group.pk
  unfolding land_exit extend_unique
  land_exit-pk store group [] rolled delivery = refl
  land_exit-pk store group (r ∷ fresh) rolled delivery = refl

  apply_exit-pk :
      (store : InMemoryStore) (group : OpenGroup) (rows : List ActivityRow)
      (rolled delivery : Option ℕ)
      → (apply_exit out store group rows rolled delivery).1.pk ≡ group.pk
  unfolding apply_exit
  apply_exit-pk store group rows rolled delivery =
      land_exit-pk _ group (unknown_rows group.rows rows) rolled delivery

  -- the members that a landed exit leaves: those of before and the rows that were new
  pub apply_exit-rows_after :
      (store : InMemoryStore) (group : OpenGroup) (rows : List ActivityRow)
      (rolled delivery : Option ℕ)
      → (apply_exit out store group rows rolled delivery).1.rows
        ≡ group.rows ++ unknown_rows group.rows rows
  unfolding apply_exit unknown_rows is_new
  apply_exit-rows_after store group rows rolled delivery =
      let fresh = unknown_rows group.rows rows in
      let attached = (attach_transactions_to_trade_group store (ids_of rows) group.pk).0 in
      land_exit-rows attached group fresh rolled delivery
      ∙ ap (λ (l : List ActivityRow). group.rows ++ l) (select-again (is_new group.rows) rows)

  -- the members that a landed exit leaves hold all its rows
  landed_known :
      (store : InMemoryStore) (group : OpenGroup) (rows : List ActivityRow)
      (rolled delivery : Option ℕ)
      → unknown_rows (apply_exit out store group rows rolled delivery).1.rows rows ≡ []
  unfolding unknown_rows is_new
  landed_known store group rows rolled delivery =
      subst (λ (known : List ActivityRow). unknown_rows known rows ≡ [])
        (sym (apply_exit-rows_after store group rows rolled delivery)) (none_new group.rows [] rows)

  nothing_fresh :
      (store : InMemoryStore) (group : OpenGroup) (rows : List ActivityRow)
      (rolled delivery : Option ℕ)
      → unknown_rows group.rows rows ≡ []
      → apply_exit out store group rows rolled delivery ≡ (
        (attach_transactions_to_trade_group store (ids_of rows) group.pk).0,
        group,
        landed_exit out (attach_transactions_to_trade_group store (ids_of rows) group.pk).0 group,
      )
  unfolding apply_exit land_exit
  nothing_fresh store group rows rolled delivery none_left = rw none_left refl

  -- Landing an exit a second time, on the group and the store that the first left, changes nothing:
  -- no transaction, no event, no header and no member, and it reports no rows.
  pub apply_exit-again :
      (store : InMemoryStore) (group : OpenGroup) (rows : List ActivityRow)
      (rolled delivery rolled' delivery' : Option ℕ)
      → let (store_1, group_1, first) = apply_exit out store group rows rolled delivery in
        let (store_2, group_2, second) = apply_exit out store_1 group_1 rows rolled' delivery' in
        (store_2 ≡ store_1) × (group_2 ≡ group_1) × (second.rows ≡ [])
  unfolding attach_transactions_to_trade_group landed_exit
  apply_exit-again store group rows rolled delivery rolled' delivery' =
      let (store_1, group_1, first) = apply_exit out store group rows rolled delivery in
      let again =
        nothing_fresh store_1 group_1 rows rolled' delivery'
          (landed_known store group rows rolled delivery) in
      let kept =
        attach_landed store_1 (ids_of rows) group.pk store.transactions.rows
          (apply_exit-rows out store group rows rolled delivery) in
      (
        ap (λ (r : InMemoryStore × OpenGroup × AppliedExit). r.0) again
            ∙ ap (λ (pk : ℕ). (attach_transactions_to_trade_group store_1 (ids_of rows) pk).0)
                (apply_exit-pk store group rows rolled delivery)
            ∙ kept,
        ap (λ (r : InMemoryStore × OpenGroup × AppliedExit). r.1) again,
        ap (λ (r : InMemoryStore × OpenGroup × AppliedExit). r.2.rows) again,
      )
