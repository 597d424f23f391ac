-- ===== src/Reconcile/Members.antt =====
-- What a group's member rows say of the group (tt_ledger/ingest/reconcile.py): its realized value,
-- its header fields and the status it closes with. A member that is read from the store is a
-- `TxnRow`; the passes read of it only the columns that an `ActivityRow` has too.
use tt_ledger.Base.{
  ℕ, String, Bool, true, false, not, ◌||◌, Option, none, some, List, [], ◌∷◌, map, is_some, eqb,
  leb, all_of, select, length, get_or_else, or_option, if◌then◌else◌,
}
use tt_ledger.Base.Assoc.{Assoc, append_at, text_eq}
use tt_ledger.Base.Int.{ℤ, pos, abs, leb_ℤ, eqb_ℤ, ◌+ℤ◌}
use tt_ledger.Base.Text.{str_eq, opt_is, member}
use tt_ledger.Enums.{TradeGroupStatus, mixed, trade_group_status_value, strategy_type_value}
use tt_ledger.Rows.{ActivityRow, TxnRow, SecurityRow}
use tt_ledger.Rows.Units.{Instant, Quantity, Price, Cash, zero_decimal}
use tt_ledger.Store.Memory.{InMemoryStore}
use tt_ledger.Store.Reads.{get_security, get_group_transactions, activity_row}
use tt_ledger.Replay.Reduced.{price_realized_gross}
use tt_ledger.Reconcile.Rules.{signed_net, signed_gross, row_fees}
use tt_ledger.Reconcile.Nets.{Nets, net_at, peak_exposures}
use tt_ledger.Reconcile.Closing.{close_causes}
use tt_ledger.Reconcile.Strategy.{LegInfo, detect_strategy_type}

-- a stored member, read as an activity row
abbrev pub member_row : TxnRow → ActivityRow
member_row = activity_row none none

unfoldable pub group_rows_of : InMemoryStore → ℕ → List ActivityRow
group_rows_of store pk = map member_row (get_group_transactions store pk)

-- `sum(f(x) for x in xs)`
abbrev pub sum_of {ℓ} : {A : Type ℓ} → (A → ℤ) → List A → ℤ
sum_of f [] = zero_decimal
sum_of f (x ∷ xs) = f x +ℤ sum_of f xs

-- `max(xs, default=None)` of counts, `max` and `min` of the instants that are not missing
unfoldable pub largest : List Quantity → Option Quantity
largest [] = none
largest (x ∷ xs) = elim (largest xs) [
  | none ↦ some x
  | some m ↦ if leb_ℤ m x then some x else some m
]

unfoldable pub latest : List ActivityRow → Option Instant
latest [] = none
latest (row ∷ rows) = elim row.executed_at [
  | none ↦ latest rows
  | some t ↦ elim (latest rows) [ none ↦ some t | some m ↦ if leb m t then some t else some m ]
]

unfoldable pub earliest : List ActivityRow → Option Instant
earliest [] = none
earliest (row ∷ rows) = elim row.executed_at [
  | none ↦ earliest rows
  | some t ↦ elim (earliest rows) [ none ↦ some t | some m ↦ if leb t m then some t else some m ]
]

-- `[abs(r.quantity) for r in rows if r.quantity is not None]`
unfoldable pub sizes_of : List ActivityRow → List Quantity
sizes_of [] = []
sizes_of (row ∷ rows) = elim row.quantity [ none ↦ sizes_of rows | some q ↦ abs q ∷ sizes_of rows ]

-- a text that is there and not empty
abbrev pub truthy : Option String → Bool
truthy none = false
truthy (some s) = not (str_eq s "")

-- `a or b`
abbrev pub or_text : Option String → Option String → Option String
or_text a b = if truthy a then a else b

-- `list(dict.fromkeys(row.security_id for row in cluster if row.security_id))`
unfoldable pub distinct_onto : List String → List ActivityRow → List String
distinct_onto seen [] = []
distinct_onto seen (row ∷ rows) = elim row.security_id [
  | none ↦ distinct_onto seen rows
  | some sid ↦
      let skipped = distinct_onto seen rows in
      let taken = sid ∷ distinct_onto (sid ∷ seen) rows in
      if str_eq sid "" || member sid seen then skipped else taken
]

unfoldable pub is_future_row : InMemoryStore → ActivityRow → Bool
is_future_row store row = elim row.security_id [
  | none ↦ false
  | some sid ↦ elim (get_security store sid) [
    | none ↦ false
    | some sec ↦ str_eq sec.product_type "F"
  ]
]

-- `getattr(sec, "multiplier", None) or 1`
abbrev pub multiplier_of : Option SecurityRow → ℕ
multiplier_of none = 1
multiplier_of (some sec) = let m = get_or_else sec.multiplier 1 in if eqb m 0 then 1 else m

-- the futures rows of each security, in the order in which the securities first appear
unfoldable pub by_future :
    Assoc String (List ActivityRow) → List ActivityRow → Assoc String (List ActivityRow)
by_future acc [] = acc
by_future acc (row ∷ rows) =
    by_future (elim row.security_id [ none ↦ acc | some sid ↦ append_at sid row acc ]) rows

module _ (divide : Cash → Quantity → Price) where
  unfoldable pub futures_realized : InMemoryStore → Assoc String (List ActivityRow) → Cash
  futures_realized store [] = zero_decimal
  futures_realized store ((sid, rows) ∷ rest) =
      price_realized_gross divide (multiplier_of (get_security store sid)) true rows
      +ℤ futures_realized store rest

  -- `_group_realized`
  unfoldable pub group_realized : InMemoryStore → List ActivityRow → Cash
  unfolding by_future futures_realized is_future_row
  group_realized store rows =
      sum_of signed_gross (select (λ r. not (is_future_row store r)) rows)
      +ℤ futures_realized store (by_future [] (select (is_future_row store) rows))

pub record GroupFields : Type 0 where
  pub underlying : Option String
  pub security_id : Option String
  pub strategy_type : String
  pub leg_count : ℕ
  pub total_premium : Cash
  pub total_fees : Cash
  pub quantity : Option Quantity
  pub executed_at : Option Instant

-- `_fallback_quantity`
unfoldable pub fallback_quantity : String → List ActivityRow → Quantity
fallback_quantity sid cluster =
    get_or_else (largest (sizes_of (select (λ r. opt_is r.security_id sid) cluster))) zero_decimal

-- `peaks.get(security_id) or _fallback_quantity(security_id)`
unfoldable pub leg_quantity : Nets → List ActivityRow → String → Quantity
unfolding fallback_quantity
leg_quantity peaks cluster sid =
    let peak = net_at peaks sid in
    if eqb_ℤ peak (pos 0) then fallback_quantity sid cluster else peak

unfoldable pub legs_of : InMemoryStore → Nets → List ActivityRow → List String → List LegInfo
legs_of store peaks cluster [] = []
legs_of store peaks cluster (sid ∷ sids) = elim (get_security store sid) [
  | none ↦ legs_of store peaks cluster sids
  | some sec ↦
      record {
        product_type = sec.product_type;
        option_type = sec.option_type;
        expiry = sec.expiry;
        strike = sec.strike;
        quantity = leg_quantity peaks cluster sid;
      }
      ∷ legs_of store peaks cluster sids
]

-- `next((row.underlying for row in cluster if row.underlying), None)`
unfoldable pub first_underlying : List ActivityRow → Option String
first_underlying [] = none
first_underlying (row ∷ rows) =
    let rest = first_underlying rows in if truthy row.underlying then row.underlying else rest

abbrev pub only_one : List String → Option String
only_one (sid ∷ []) = some sid
only_one _ = none

abbrev pub peak_values : Nets → List Quantity
peak_values [] = []
peak_values ((_, q) ∷ rest) = q ∷ peak_values rest

unfoldable pub compute_group_fields : InMemoryStore → List ActivityRow → GroupFields
unfolding largest sizes_of distinct_onto legs_of first_underlying earliest
compute_group_fields store cluster =
    let sids = distinct_onto [] cluster in
    let peaks = peak_exposures cluster in
    record {
      underlying = first_underlying cluster;
      security_id = only_one sids;
      strategy_type = strategy_type_value (detect_strategy_type (legs_of store peaks cluster sids));
      leg_count = if leb (length sids) 1 then 1 else length sids;
      total_premium = sum_of signed_net (select (λ r. is_some r.net_value) cluster);
      total_fees = sum_of row_fees cluster;
      quantity = or_option (largest (peak_values peaks)) (largest (sizes_of cluster));
      executed_at = earliest cluster;
    }

-- `causes.pop() if len(causes) == 1 else TradeGroupStatus.MIXED`
unfoldable pub single_cause : List TradeGroupStatus → TradeGroupStatus
single_cause [] = mixed
single_cause (c ∷ causes) =
    if all_of (λ d. str_eq (trade_group_status_value d) (trade_group_status_value c)) causes
    then c
    else mixed

unfoldable pub closing_status : List ActivityRow → TradeGroupStatus
unfolding single_cause
closing_status rows = single_cause (close_causes rows)
