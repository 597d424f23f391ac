-- ===== src/Remap/Link.antt =====
-- The link of an order to a group (tt_ledger/ingest/remap.py, `link_order_to_group`).
use tt_ledger.Base.{ℕ, String, false, Option, none, some, [], ◌∷◌, if◌then◌else◌}
use tt_ledger.Base.Assoc.{text_eq, id_eq}
use tt_ledger.Base.Text.{str_eq, concat}
use tt_ledger.Rows.{OrderRow, TradeRow}
use tt_ledger.Rows.Units.{Instant}
use tt_ledger.Store.Memory.{InMemoryStore, upsert_orders, upsert_trade_group}
use tt_ledger.Store.Reads.{get_order, get_trade_group, get_trade_group_by_id, trade_group_to_row}
use tt_ledger.Reconcile.Exit.{Outside}
use tt_ledger.Reconcile.Accounts.{reconcile}
use tt_ledger.Remap.Edits.{
  target_not_found, order_not_found, already_linked, other_account, vanished, Edited, edited,
  refused, note_adjustment, manual_group, claimed_group,
}

module _ (out : Outside) where
  -- the group that an order is linked to: a new one, or one of the order's account
  unfoldable pub link_target :
      InMemoryStore → Instant → String → OrderRow → String → Option String → Edited ℕ
  link_target store now tt_order_id order reviewed_by none =
      let (grouped, pk) =
        upsert_trade_group store
          (record (manual_group (out.uuid store.trade_groups.next_id) order.account reviewed_by
            now) { underlying = order.underlying; security_id = order.security_id }) in
      edited grouped pk
  link_target store now tt_order_id order reviewed_by (some name) =
      elim (get_trade_group store name) [
        | none ↦ refused store (target_not_found name)
        | some tg ↦
            let (grouped, pk) = upsert_trade_group store (claimed_group tg reviewed_by now) in
            if str_eq tg.account order.account
            then edited grouped pk
            else refused store (other_account name tg.account tt_order_id order.account)
      ]

  -- the order takes the group, and a pass over its account attaches what has been synced
  unfoldable pub link_onto : Instant → String → OrderRow → String → Edited ℕ → Edited TradeRow
  link_onto now tt_order_id order reviewed_by (refused store why) = refused store why
  link_onto now tt_order_id order reviewed_by (edited store pk) =
      let stamped = (upsert_orders store (record order { trade_group_id = some pk } ∷ [])).0 in
      let noted =
        note_adjustment stamped now pk
          (concat "order " (concat tt_order_id (concat " linked by " reviewed_by))) in
      let passed = (reconcile out noted (some order.account) none none 2 false).0 in
      elim (get_trade_group_by_id passed pk) [
        | none ↦ refused passed (vanished pk)
        | some tg ↦ edited passed (trade_group_to_row tg)
      ]

  unfoldable pub link_order_to_group :
      InMemoryStore → Instant → String → Option String → String → Edited TradeRow
  unfolding link_target link_onto
  link_order_to_group store now tt_order_id target reviewed_by =
      elim (get_order store tt_order_id) [
        | none ↦ refused store (order_not_found tt_order_id)
        | some order ↦ elim order.trade_group_id [
          | some pk ↦ refused store (already_linked tt_order_id pk)
          | none ↦
              link_onto now tt_order_id order reviewed_by
                (link_target store now tt_order_id order reviewed_by target)
        ]
      ]
