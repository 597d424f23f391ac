-- ===== src/Store/Queries.antt =====
-- The remaining reads of `InMemoryStore` (tt_ledger/store/memory.py): balances, legs and fills, and
-- the nets of groups. A contract is `unit` of a quantity, as in the open leg fold.
use tt_ledger.Base.{
  ℕ, ◌*◌, suc, String, Bool, true, false, ◌&&◌, ◌||◌, Option, none, some, List, [], ◌∷◌, map, eqb,
  ltb, leb, any_of, select, sorted, get_or_else, if◌then◌else◌,
}
use tt_ledger.Base.Assoc.{Assoc, lookup, insert, text_eq, id_eq}
use tt_ledger.Base.Int.{ℤ, pos, neg, trunc, max_ℤ, ◌+ℤ◌, ◌-ℤ◌}
use tt_ledger.Base.Text.{str_eq, member}
use tt_ledger.Enums.{opened, trade_group_status_value}
use tt_ledger.Rows.{
  OrderRow, LegRow, FillRow, TxnRow, SecurityRow, PositionRow, ClosedPositionRow,
  BalanceSnapshotRow, TradeGroupRow, OpenGroupLegRow, LegDetailRow,
}
use tt_ledger.Rows.Units.{Date, Quantity, Price, Cash, zero_decimal, day}
use tt_ledger.Store.Memory.{InMemoryStore}
use tt_ledger.Store.Reads.{values, is_id, passes, received_before, get_security}
use tt_ledger.Replay.Rules.{is_to_close}
use tt_ledger.Legs.{LegRecord, is_to_open, is_position_removal, fold_open_group_legs}

unfoldable pub get_positions : InMemoryStore → String → List PositionRow
get_positions store account =
    select (λ (r : PositionRow). str_eq r.account account) (values store.positions.rows)

unfoldable pub get_closed_positions :
    InMemoryStore → String → Option String → List ClosedPositionRow
get_closed_positions store account security_id =
    select (λ (r : ClosedPositionRow). str_eq r.account account && passes security_id r.security_id)
      (values store.closed_positions.rows)

-- `max(rows, key=…)`: the first of the latest
unfoldable pub latest_of : BalanceSnapshotRow → List BalanceSnapshotRow → BalanceSnapshotRow
latest_of best [] = best
latest_of best (row ∷ rows) =
    latest_of (if ltb best.captured_at row.captured_at then row else best) rows

unfoldable pub get_latest_balance : InMemoryStore → String → Option BalanceSnapshotRow
unfolding latest_of
get_latest_balance store account =
    elim (select (λ (r : BalanceSnapshotRow). str_eq r.account account)
      (values store.balance_snapshots.rows)) [ [] ↦ none | row ∷ rows ↦ some (latest_of row rows) ]

unfoldable pub in_days : Option Date → Option Date → BalanceSnapshotRow → Bool
in_days start_on end_on row =
    elim start_on [ none ↦ true | some s ↦ leb (s * day) row.captured_at ]
    && elim end_on [ none ↦ true | some e ↦ ltb row.captured_at (suc e * day) ]

unfoldable pub get_balances :
    InMemoryStore → String → Option Date → Option Date → List BalanceSnapshotRow
get_balances store account start_on end_on =
    sorted (λ (a b : BalanceSnapshotRow). leb a.captured_at b.captured_at)
      (select (λ (r : BalanceSnapshotRow). str_eq r.account account && in_days start_on end_on r)
        (values store.balance_snapshots.rows))

-- each id once, in the order of their first mention
unfoldable pub securities_onto : InMemoryStore → List String → List String → List SecurityRow
securities_onto store seen [] = []
securities_onto store seen (sid ∷ sids) =
    let skipped = securities_onto store seen sids in
    let rest = securities_onto store (sid ∷ seen) sids in
    if member sid seen
    then skipped
    else elim (get_security store sid) [ none ↦ rest | some sec ↦ sec ∷ rest ]

unfoldable pub get_securities : InMemoryStore → List String → List SecurityRow
unfolding securities_onto
get_securities store sids = securities_onto store [] sids

-- the ids of the groups that are open
unfoldable pub open_ids : Assoc ℕ TradeGroupRow → List ℕ
open_ids [] = []
open_ids ((pk, tg) ∷ rest) =
    let more = open_ids rest in
    if str_eq tg.status (trade_group_status_value opened) then pk ∷ more else more

abbrev pub one_of : Option ℕ → List ℕ → Bool
one_of none ids = false
one_of (some pk) ids = any_of (eqb pk) ids

abbrev pub leg_record : TxnRow → LegRecord
leg_record txn = record {
  account = txn.account;
  security_id = txn.security_id;
  trade_group_id = txn.trade_group_id;
  action = txn.action;
  transaction_sub_type = txn.transaction_sub_type;
  quantity = txn.quantity;
  price = txn.price;
}

unfoldable pub open_group_legs :
    (Cash → Quantity → Price) → ℕ → InMemoryStore → Option String → List OpenGroupLegRow
unfolding open_ids
open_group_legs divide unit store account =
    let ids = open_ids store.trade_groups.rows in
    fold_open_group_legs divide unit (
      map leg_record (
        select (λ (txn : TxnRow). one_of txn.trade_group_id ids && passes account txn.account)
          (values store.transactions.rows)))

-- `{trade_group_id: {security_id: n}}`
abbrev pub GroupNets : Type 0
GroupNets = Assoc ℕ (Assoc String ℤ)

abbrev pub group_net : GroupNets → ℕ → String → ℤ
group_net nets pk sid = get_or_else (lookup sid (get_or_else (lookup pk nets) [])) (pos 0)

abbrev pub put_net : GroupNets → ℕ → String → ℤ → GroupNets
put_net nets pk sid n = insert pk (insert sid n (get_or_else (lookup pk nets) [])) nets

-- what a row trades, and what it removes
unfoldable pub traded_count : ℕ → TxnRow → ℤ
traded_count unit txn =
    let qty = trunc unit (get_or_else txn.quantity zero_decimal) in
    if is_to_open txn.action then qty else if is_to_close txn.action then neg qty else pos 0

unfoldable pub removed_at : ℕ → TxnRow → ℕ → String → GroupNets → GroupNets
removed_at unit txn pk sid removed =
    let qty = trunc unit (get_or_else txn.quantity zero_decimal) in
    if is_to_open txn.action || is_to_close txn.action
    then removed
    else if is_position_removal txn.action txn.transaction_sub_type
    then put_net removed pk sid (max_ℤ (group_net removed pk sid) qty)
    else removed

unfoldable pub nets_onto : ℕ → List ℕ → GroupNets × GroupNets → List TxnRow → GroupNets × GroupNets
unfolding traded_count removed_at
nets_onto unit wanted nets [] = nets
nets_onto unit wanted (traded, removed) (txn ∷ txns) =
    nets_onto unit wanted
      (elim txn.trade_group_id [
        | none ↦ (traded, removed)
        | some pk ↦ elim txn.security_id [
          | none ↦ (traded, removed)
          | some sid ↦
              if any_of (eqb pk) wanted
              then (
                put_net traded pk sid (group_net traded pk sid +ℤ traded_count unit txn),
                removed_at unit txn pk sid removed,
              )
              else (traded, removed)
        ]
      ])
      txns

unfoldable pub less_removed : GroupNets → ℕ → Assoc String ℤ → Assoc String ℤ
less_removed removed pk [] = []
less_removed removed pk ((sid, n) ∷ rest) =
    (sid, n -ℤ group_net removed pk sid) ∷ less_removed removed pk rest

unfoldable pub all_less_removed : GroupNets → GroupNets → GroupNets
unfolding less_removed
all_less_removed removed [] = []
all_less_removed removed ((pk, legs) ∷ rest) =
    (pk, less_removed removed pk legs) ∷ all_less_removed removed rest

unfoldable pub net_open_by_group : ℕ → InMemoryStore → List ℕ → GroupNets
unfolding nets_onto all_less_removed
net_open_by_group unit store wanted =
    let (traded, removed) = nets_onto unit wanted ([], []) (values store.transactions.rows) in
    all_less_removed removed traded

unfoldable pub get_group_orders_with_ids : InMemoryStore → ℕ → List (ℕ × OrderRow)
get_group_orders_with_ids store pk =
    sorted received_before
      (select (λ (p : ℕ × OrderRow). is_id p.1.trade_group_id pk) store.orders.rows)

abbrev pub leg_detail : ℕ × LegRow → LegDetailRow
leg_detail (row_id, leg) = record {
  id = row_id;
  order_id = leg.order_id;
  leg_index = leg.leg_index;
  security_id = leg.security_id;
  action = leg.action;
  quantity = leg.quantity;
  remaining_quantity = leg.remaining_quantity;
  quantity_direction = leg.quantity_direction;
  price = leg.price;
  fill_price = leg.fill_price;
}

abbrev pub leg_le : LegDetailRow → LegDetailRow → Bool
leg_le a b = ltb a.order_id b.order_id || eqb a.order_id b.order_id && leb a.leg_index b.leg_index

unfoldable pub get_legs_for_orders : InMemoryStore → List ℕ → List LegDetailRow
get_legs_for_orders store order_ids = sorted leg_le (
    map leg_detail
      (select (λ (p : ℕ × LegRow). any_of (eqb p.1.order_id) order_ids) store.legs.rows))

abbrev pub filled_before : ℕ × FillRow → ℕ × FillRow → Bool
filled_before (i, a) (j, b) = elim a.filled_at [
  | none ↦ elim b.filled_at [ none ↦ leb i j | some t ↦ false ]
  | some s ↦ elim b.filled_at [ none ↦ true | some t ↦ ltb s t || eqb s t && leb i j ]
]

unfoldable pub get_fills_for_orders : InMemoryStore → List ℕ → List FillRow
get_fills_for_orders store order_ids = values (
    sorted filled_before
      (select (λ (p : ℕ × FillRow). one_of p.1.order_id order_ids) store.fills.rows))

unfoldable pub value_total_onto : String → Cash → List TxnRow → Cash
value_total_onto account total [] = total
value_total_onto account total (txn ∷ txns) =
    value_total_onto account
      (if str_eq txn.account account then total +ℤ get_or_else txn.value zero_decimal else total)
      txns

unfoldable pub transaction_value_total : InMemoryStore → String → Cash
unfolding value_total_onto
transaction_value_total store account =
    value_total_onto account zero_decimal (values store.transactions.rows)
