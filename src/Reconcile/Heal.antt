-- ===== src/Reconcile/Heal.antt =====
-- The self-healing passes of reconcile (tt_ledger/ingest/reconcile.py): open groups whose content
-- is fully closed, and the settlement rows that the broker never sent. `settle_after` is in days.
use tt_ledger.Base.{
  ℕ, ◌+◌, suc, String, Bool, false, not, ◌&&◌, ◌||◌, Option, none, some, List, [], ◌∷◌, ◌++◌, eqb,
  ltb, leb, sorted, length, if◌then◌else◌,
}
use tt_ledger.Base.Assoc.{text_eq, id_eq}
use tt_ledger.Base.Int.{pos, neg, abs, ltb_ℤ, eqb_ℤ, max_ℤ, ◌-ℤ◌, ◌*ℤ◌}
use tt_ledger.Base.Text.{opt_is, member, concat, decimal, text_le}
use tt_ledger.Enums.{adjustment, opened, trade_group_status_value}
use tt_ledger.Rows.{ActivityRow, TxnRow, SecurityRow, TradeFilter, ActivityFilter, TradeRow}
use tt_ledger.Rows.Units.{Instant, Date, Quantity, Price, zero_decimal, date_of, evening_of}
use tt_ledger.Store.Memory.{InMemoryStore, upsert_transactions}
use tt_ledger.Store.Reads.{
  unified_trades, account_activity, get_trade_group_id, get_trade_group_by_id, get_security,
}
use tt_ledger.Reconcile.Nets.{Nets, net_at, net_quantities, fully_closed}
use tt_ledger.Reconcile.Route.{OpenGroup}
use tt_ledger.Reconcile.Members.{group_rows_of, member_row, multiplier_of, latest}
use tt_ledger.Reconcile.Exit.{Outside, event_of, emit, stamp_closed, apply_exit}

-- `TradeFilter(account=account, status="open")`
abbrev pub open_filter : String → TradeFilter
open_filter account = record {
  origin = none;
  review_status = none;
  status = some (trade_group_status_value opened);
  account = some account;
  underlying = none;
  start_on = none;
  end_on = none;
}

unfoldable pub load_groups : InMemoryStore → List TradeRow → List OpenGroup
load_groups store [] = []
load_groups store (trade ∷ trades) = elim (get_trade_group_id store trade.group_id) [
  | none ↦ load_groups store trades
  | some pk ↦ record { pk = pk; rows = group_rows_of store pk } ∷ load_groups store trades
]

-- `_load_open_groups`
unfoldable pub load_open_groups : InMemoryStore → String → List OpenGroup
unfolding load_groups
load_open_groups store account = load_groups store (unified_trades store (open_filter account))

module _ (out : Outside) where
  -- one group of the healing loop: its header and the event of the repair
  unfoldable pub heal_group : InMemoryStore → OpenGroup → InMemoryStore
  heal_group store group = elim (get_trade_group_by_id store group.pk) [
    | none ↦ store
    | some tg ↦
        emit out (stamp_closed out store group (latest group.rows))
          (record (event_of group.pk adjustment) {
            event_at = latest group.rows;
            notes = some "self-heal: content fully closed but status was open";
          })
  ]

  unfoldable pub heal_groups : Bool → InMemoryStore → List OpenGroup → InMemoryStore × ℕ
  unfolding heal_group
  heal_groups dry_run store [] = (store, 0)
  heal_groups dry_run store (group ∷ groups) =
      let closed = fully_closed group.rows in
      let (healed, count) =
        heal_groups dry_run (if closed && not dry_run then heal_group store group else store)
          groups in
      (healed, if closed then suc count else count)

  unfoldable pub heal_fully_closed_groups : InMemoryStore → String → Bool → InMemoryStore × ℕ
  unfolding heal_groups
  heal_fully_closed_groups store account dry_run =
      heal_groups dry_run store (load_open_groups store account)

-- the account's resolver of settlement prices, if there is one
abbrev pub Resolver : Type 0
Resolver = Option (String → Date → Option Price)

-- points that a contract settles at: `none` where an option's price cannot be resolved
unfoldable pub settle_points : Resolver → String → Date → SecurityRow → Option Price
settle_points resolver sid expiry sec = elim sec.strike [
  | none ↦ some zero_decimal
  | some strike ↦
      if opt_is sec.option_type "C" || opt_is sec.option_type "P"
      then elim resolver [
        | none ↦ none
        | some price_of ↦ elim (price_of sid expiry) [
          | none ↦ none
          | some settle ↦
              if opt_is sec.option_type "C"
              then some (max_ℤ zero_decimal (settle -ℤ strike))
              else some (max_ℤ zero_decimal (strike -ℤ settle))
        ]
      ]
      else some zero_decimal
]

-- the row that the broker should have sent, of the group's own net
unfoldable pub lapse_txn : String → SecurityRow → String → Date → Price → ℕ → Quantity → TxnRow
lapse_txn account sec sid expiry points pk net =
    let cash = points *ℤ abs net *ℤ pos (multiplier_of (some sec)) in
    record {
      tt_transaction_id =
          concat "lapse-" (concat account (concat "-" (concat (decimal pk) (concat "-" sid))));
      tt_order_id = none;
      account = account;
      account_number = none;
      source_system = "tastytrade";
      transaction_type = some "Receive Deliver";
      transaction_sub_type = some "Expiration";
      action = none;
      security_id = some sid;
      underlying = sec.underlying;
      quantity = some (abs net);
      price = some points;
      value = none;
      value_effect = none;
      net_value = some (if ltb_ℤ (pos 0) net then cash else neg cash);
      net_value_effect = none;
      commission = none;
      clearing_fees = none;
      regulatory_fees = none;
      proprietary_index_option_fees = none;
      is_estimated_fee = none;
      description = some "synthesized lapse: contract expired with no broker settlement row";
      order_id = none;
      order_leg_id = none;
      position_id = none;
      closed_position_id = none;
      trade_group_id = some pk;
      executed_at = some (evening_of expiry);
      transaction_date = some expiry;
    }

-- one row for each group that holds the security, in the order of the groups' ids
unfoldable pub lapse_rows :
    String → SecurityRow → String → Date → Price → List OpenGroup → List (ℕ × TxnRow)
lapse_rows account sec sid expiry points [] = []
lapse_rows account sec sid expiry points (group ∷ groups) =
    let net = net_at (net_quantities group.rows) sid in
    let rest = lapse_rows account sec sid expiry points groups in
    if eqb_ℤ net (pos 0)
    then rest
    else (group.pk, lapse_txn account sec sid expiry points group.pk net) ∷ rest

-- the rows of one security: none before its time, and none without a price
unfoldable pub lapses_of_security :
    InMemoryStore → Resolver → String → ℕ → Instant → List OpenGroup → String → List (ℕ × TxnRow)
unfolding settle_points lapse_rows
lapses_of_security store resolver account settle_after last_activity groups sid =
    elim (get_security store sid) [
      | none ↦ []
      | some sec ↦ elim sec.expiry [
        | none ↦ []
        | some expiry ↦
            if ltb (date_of last_activity) (expiry + settle_after)
            then []
            else elim (settle_points resolver sid expiry sec) [
              | none ↦ []
              | some points ↦ lapse_rows account sec sid expiry points groups
            ]
      ]
    ]

-- the securities that some group still holds, sorted, each once
unfoldable pub held_names : Nets → List String
held_names [] = []
held_names ((sid, q) ∷ rest) =
    let more = held_names rest in if eqb_ℤ q (pos 0) then more else sid ∷ more

unfoldable pub held_in : List OpenGroup → List String
unfolding held_names
held_in [] = []
held_in (group ∷ groups) = held_names (net_quantities group.rows) ++ held_in groups

unfoldable pub without_repeats : List String → List String
without_repeats [] = []
without_repeats (s ∷ rest) =
    let more = without_repeats rest in if member s more then more else s ∷ more

unfoldable pub lapses_of :
    InMemoryStore
    → Resolver
    → String
    → ℕ
    → Instant
    → List OpenGroup
    → List String
    → List (ℕ × TxnRow)
unfolding lapses_of_security
lapses_of store resolver account settle_after last_activity groups [] = []
lapses_of store resolver account settle_after last_activity groups (sid ∷ sids) =
    lapses_of_security store resolver account settle_after last_activity groups sid
    ++ lapses_of store resolver account settle_after last_activity groups sids

abbrev pub rows_in : ℕ → List (ℕ × TxnRow) → List ActivityRow
rows_in pk [] = []
rows_in pk ((g, txn) ∷ rest) =
    let more = rows_in pk rest in if eqb g pk then member_row txn ∷ more else more

abbrev pub txns_in : List (ℕ × TxnRow) → List TxnRow
txns_in [] = []
txns_in ((_, txn) ∷ rest) = txn ∷ txns_in rest

-- `ActivityFilter(account=account, start=since)`
abbrev pub account_filter : String → Option Date → ActivityFilter
account_filter account since = record {
  account = some account;
  start_on = since;
  end_on = none;
  unreconciled_only = false;
}

-- the rows that are missing; an account with no activity has no clock
unfoldable pub missing_settlements :
    InMemoryStore → Resolver → String → ℕ → List OpenGroup → List (ℕ × TxnRow)
unfolding lapses_of held_in without_repeats
missing_settlements store resolver account settle_after groups =
    elim (latest (account_activity store (account_filter account none))) [
      | none ↦ []
      | some last_activity ↦
          lapses_of store resolver account settle_after last_activity
            (sorted (λ (a b : OpenGroup). leb a.pk b.pk) groups)
            (sorted text_le (without_repeats (held_in groups)))
    ]

module _ (out : Outside) where
  unfoldable pub apply_lapses : InMemoryStore → List OpenGroup → List (ℕ × TxnRow) → InMemoryStore
  apply_lapses store [] lapses = store
  apply_lapses store (group ∷ groups) lapses =
      apply_lapses
        (elim (rows_in group.pk lapses) [
          | [] ↦ store
          | r ∷ rows ↦ (apply_exit out store group (r ∷ rows) none none).0
        ])
        groups lapses

  -- `synthesize_lapsed_settlements`, with the count of its rows
  unfoldable pub synthesize_lapsed_settlements :
      InMemoryStore → Resolver → String → ℕ → Bool → InMemoryStore × ℕ
  unfolding missing_settlements apply_lapses
  synthesize_lapsed_settlements store resolver account settle_after dry_run =
      let groups = load_open_groups store account in
      let lapses = missing_settlements store resolver account settle_after groups in
      let written = upsert_transactions store (txns_in lapses) in
      (if dry_run then store else apply_lapses written groups lapses, length lapses)
