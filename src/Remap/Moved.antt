-- ===== src/Remap/Moved.antt =====
-- The transactions that a regroup moves (tt_ledger/ingest/remap.py, `regroup_transactions`).
use tt_ledger.Base.{
  ℕ, String, Option, none, some, List, [], ◌∷◌, ◌≡◌, refl, sym, subst, ◌∙◌, inl, inr, eqb, any_of,
  ◌⊎◌, get_or_else, if◌then◌else◌, Bool-cases, Option-cases,
}
use tt_ledger.Base.Assoc.{Assoc, lookup, text_eq, id_eq}
use tt_ledger.Rows.{TxnRow, TradeGroupRow}
use tt_ledger.Rows.Units.{Instant}
use tt_ledger.Store.Table.{Table, id_of, get_by_key}
use tt_ledger.Store.Keys.{IsIndexed, upsert-get_by_key}
use tt_ledger.Store.Memory.{InMemoryStore, upsert_trade_group, add_trade_group_event}
use tt_ledger.Store.Links.{relink_at}
use tt_ledger.Store.Writes.{moved_txn, move_transactions_to_group}
use tt_ledger.Store.Reads.{picked, get_transactions_by_id, get_trade_group, get_trade_group_by_id}
use tt_ledger.Reconcile.Exit.{Outside}
use tt_ledger.Reconcile.Stamped.{group_key}
use tt_ledger.Remap.Edits.{Edited, edited, refused, note_adjustment, manual_group, claimed_group}
use tt_ledger.Remap.Regroup.{
  recompute_group, recompute_groups, target_group, source_groups, with_group, regroup_onto,
  regroup_found, regroup_transactions,
}

-- The rows under the same ids in the same order: those under the given ids in the group, the others
-- as they were.
abbrev pub Moved : List ℕ → ℕ → Assoc ℕ TxnRow → Assoc ℕ TxnRow → Type 0
Moved ids pk [] [] = Unit
Moved ids pk ((i, t) ∷ before) ((j, u) ∷ after) =
    (i ≡ j)
    × (u ≡ (if any_of (eqb i) ids then record t { trade_group_id = some pk } else t))
    × Moved ids pk before after
Moved ids pk _ _ = ⊥

relink_at-Moved :
    (ids : List ℕ) (pk : ℕ) (rows : Assoc ℕ TxnRow)
    → Moved ids pk rows (relink_at (moved_txn ids (some pk)) rows).0
unfolding relink_at moved_txn
relink_at-Moved ids pk [] = tt
relink_at-Moved ids pk ((i, t) ∷ rows) = elim (Bool-cases (any_of (eqb i) ids)) [
  | inl named ↦ rw (named, Moved) (refl, rw named refl, relink_at-Moved ids pk rows)
  | inr other ↦ rw (other, Moved) (refl, rw other refl, relink_at-Moved ids pk rows)
]

picked-none : (rows : Assoc ℕ TxnRow) → picked [] rows ≡ []
unfolding picked
picked-none [] = refl
picked-none ((i, t) ∷ rows) = picked-none rows

module _ (out : Outside) where
  recompute_group-transactions :
      (store : InMemoryStore) (pk : ℕ) (tg : TradeGroupRow)
      → (recompute_group out store pk tg).0.transactions ≡ store.transactions
  unfolding recompute_group upsert_trade_group
  recompute_group-transactions store pk tg = refl

  recompute_groups-transactions :
      (now : Instant) (reviewed_by : String) (pks : List ℕ) (store : InMemoryStore)
      → (recompute_groups out now reviewed_by store pks).0.transactions ≡ store.transactions
  unfolding recompute_groups note_adjustment add_trade_group_event
  recompute_groups-transactions now reviewed_by [] store = refl
  recompute_groups-transactions now reviewed_by (pk ∷ pks) store =
      elim (Option-cases (get_trade_group_by_id store pk)) [
        | inl gone ↦
            rw (gone, recompute_groups) (recompute_groups-transactions now reviewed_by pks store)
        | inr (tg, there) ↦
            rw (there, recompute_groups)
              (recompute_groups-transactions now reviewed_by pks _
                ∙ recompute_group-transactions store pk tg)
      ]

  -- The id of the group that takes the transactions: that of the name, or of a new uuid where none
  -- is named, and the next id where that is new.
  abbrev pub target_id : InMemoryStore → Option String → ℕ
  target_id store target =
      let groups = store.trade_groups in
      get_or_else (id_of groups (get_or_else target (out.uuid groups.next_id))) groups.next_id

  -- the named group is not there
  abbrev pub IsUnknown : InMemoryStore → Option String → Type 0
  IsUnknown store target =
      (name : String) × ((target ≡ some name) × (get_trade_group store name ≡ none))

  abbrev IsTarget : InMemoryStore → Option String → Edited ℕ → Type 0
  IsTarget store target (refused store' why) = (store' ≡ store) × IsUnknown store target
  IsTarget store target (edited store' pk) =
      (store'.transactions ≡ store.transactions) × (pk ≡ target_id store target)

  target_group-IsTarget :
      (store : InMemoryStore) (now : Instant) (account reviewed_by : String)
      (target : Option String)
      → IsIndexed group_key store.trade_groups
      → IsTarget store target (target_group out store now account reviewed_by target)
  unfolding target_group upsert_trade_group get_trade_group get_by_key id_of manual_group
      claimed_group
  target_group-IsTarget store now account reviewed_by none v =
      let groups = store.trade_groups in
      let name = out.uuid groups.next_id in
      (
        refl,
        (upsert-get_by_key group_key groups (manual_group name account reviewed_by now) name 0
            refl).3,
      )
  target_group-IsTarget store now account reviewed_by (some name) v =
      elim (Option-cases (lookup name store.trade_groups.index)) [
        | inl unknown ↦
            rw (get_trade_group, get_by_key, unknown, IsTarget)
              (refl, (name, (refl, rw (get_trade_group, get_by_key, unknown) refl)))
        | inr (row_id, known) ↦
            let (tg, at, named) = v.sound name row_id known in
            rw (get_trade_group, get_by_key, known, at, IsTarget)
              (
                refl,
                (upsert-get_by_key group_key store.trade_groups (claimed_group tg reviewed_by now)
                    name 0 named).3,
              )
      ]

  -- What a regroup does to the transactions: it is refused where the named group is unknown, finds
  -- none of the given ids, or puts those with a given id in the target's group.
  abbrev pub IsMove {ℓ} : {A : Type ℓ} → InMemoryStore → List ℕ → Option String → Edited A → Type 0
  IsMove store ids target (refused store' why) = (store' ≡ store) × IsUnknown store target
  IsMove store ids target (edited store' result) =
      ((picked ids store.transactions.rows ≡ []) × (store' ≡ store))
      ⊎ Moved ids (target_id store target) store.transactions.rows store'.transactions.rows

  regroup_onto-IsMove :
      (walk : List ℕ → List ℕ) (store : InMemoryStore) (now : Instant) (reviewed_by : String)
      (ids : List ℕ) (txns : List TxnRow) (name : Option String) (target : Edited ℕ)
      → IsTarget store name target
      → IsMove store ids name (regroup_onto out walk now reviewed_by ids txns target)
  unfolding regroup_onto move_transactions_to_group
  regroup_onto-IsMove walk store now reviewed_by ids txns name (refused store' why) refuses =
      refuses
  regroup_onto-IsMove walk store now reviewed_by ids txns name (edited store' pk) (same, is_pk) =
      let moved = (move_transactions_to_group store' ids (some pk)).0 in
      let base =
        subst
          (λ (table : Table String TxnRow).
            Moved ids pk table.rows
              (relink_at (moved_txn ids (some pk)) store'.transactions.rows).0)
          same (relink_at-Moved ids pk store'.transactions.rows) in
      let kept =
        recompute_groups-transactions now reviewed_by (walk (with_group pk (source_groups txns)))
          moved in
      let all_moved =
        subst (λ (table : Table String TxnRow). Moved ids pk store.transactions.rows table.rows)
          (sym kept) base in
      inr (
        subst
          (λ (n : ℕ).
            Moved ids n store.transactions.rows
              (recompute_groups out now reviewed_by moved
                (walk (with_group pk (source_groups txns)))).0.transactions.rows)
          is_pk all_moved)

  regroup_found-IsMove :
      (walk : List ℕ → List ℕ) (store : InMemoryStore) (now : Instant) (ids : List ℕ)
      (target : Option String) (reviewed_by : String) (txns : List TxnRow)
      → IsIndexed group_key store.trade_groups
      → picked ids store.transactions.rows ≡ txns
      → IsMove store ids target (regroup_found out walk store now ids target reviewed_by txns)
  unfolding regroup_found
  regroup_found-IsMove walk store now ids target reviewed_by [] v e = inl (e, refl)
  regroup_found-IsMove walk store now ids target reviewed_by (txn ∷ txns) v e =
      regroup_onto-IsMove walk store now reviewed_by ids (txn ∷ txns) target _
        (target_group-IsTarget store now txn.account reviewed_by target v)

  -- In a store whose headers are indexed, a regroup is refused only where the named group is not
  -- there, and then leaves the store. Else no transaction has one of the ids and the store is as it
  -- was, or the transactions are under their ids and in their order, those with a given id in the
  -- group of the name, a new one where none is named, and the others as they were.
  pub regroup_transactions-IsMove :
      (walk : List ℕ → List ℕ) (store : InMemoryStore) (now : Instant) (ids : List ℕ)
      (target : Option String) (reviewed_by : String)
      → IsIndexed group_key store.trade_groups
      → IsMove store ids target (regroup_transactions out walk store now ids target reviewed_by)
  unfolding regroup_transactions get_transactions_by_id
  regroup_transactions-IsMove walk store now [] target reviewed_by v =
      inl (picked-none store.transactions.rows, refl)
  regroup_transactions-IsMove walk store now (txn_id ∷ ids) target reviewed_by v =
      regroup_found-IsMove walk store now (txn_id ∷ ids) target reviewed_by
        (picked (txn_id ∷ ids) store.transactions.rows) v refl
