-- ===== src/Reconcile/Detect.antt =====
-- The reports on open groups that need an operator (tt_ledger/ingest/reconcile.py,
-- `find_misattributed_open_groups`, `find_orphan_settlement_groups`) and the one-time repair of
-- futures groups (`recompute_futures_group_pnl`).
use tt_ledger.Base.{
  ℕ, String, Bool, true, false, not, ◌&&◌, Option, none, some, List, [], ◌∷◌, ◌++◌, map, eqb, leb,
  any_of, all_of, select, sorted, get_or_else, if◌then◌else◌,
}
use tt_ledger.Base.Assoc.{Assoc, lookup, append_at, text_eq, id_eq}
use tt_ledger.Base.Int.{pos, eqb_ℤ}
use tt_ledger.Base.Text.{concat, text_le}
use tt_ledger.Enums.{adjustment}
use tt_ledger.Rows.{ActivityRow, TradeFilter, TradeRow}
use tt_ledger.Rows.Units.{Cash, zero_decimal}
use tt_ledger.Store.Memory.{InMemoryStore, upsert_trade_group}
use tt_ledger.Store.Reads.{
  get_trade_group_by_id, get_trade_group_id, account_activity, unified_trades,
}
use tt_ledger.Replay.Reduced.{net_open_quantities}
use tt_ledger.Reconcile.Rules.{is_closing, ordered_position_rows}
use tt_ledger.Reconcile.Nets.{Nets, net_at, security_of, net_quantities, fully_closed}
use tt_ledger.Reconcile.Closing.{over_closing_groups}
use tt_ledger.Reconcile.Route.{OpenGroup}
use tt_ledger.Reconcile.Members.{group_rows_of, is_future_row, group_realized}
use tt_ledger.Reconcile.Exit.{Outside, event_of, emit}
use tt_ledger.Reconcile.Heal.{account_filter, held_names, load_open_groups, without_repeats}
use tt_ledger.Reconcile.Accounts.{accounts_with_activity}

pub record Report : Type 0 where
  pub group_pk : ℕ
  pub group_id : Option String
  pub securities : List String
  pub covered_by : List ℕ

-- the attributed rows by group
unfoldable pub rows_by_group :
    Assoc ℕ (List ActivityRow) → List ActivityRow → Assoc ℕ (List ActivityRow)
rows_by_group acc [] = acc
rows_by_group acc (row ∷ rows) =
    rows_by_group (elim row.trade_group_id [ none ↦ acc | some pk ↦ append_at pk row acc ]) rows

-- `tg.group_id if tg is not None else None`
unfoldable pub group_name : InMemoryStore → ℕ → Option String
group_name store pk = elim (get_trade_group_by_id store pk) [
  | none ↦ none
  | some tg ↦ some tg.group_id
]

-- the over-closers of the held securities, each group once, the group itself left out
unfoldable pub without_repeated : List ℕ → List ℕ
without_repeated [] = []
without_repeated (pk ∷ pks) =
    let rest = without_repeated pks in if any_of (eqb pk) rest then rest else pk ∷ rest

unfoldable pub closers_of : Assoc String (List ℕ) → List String → List ℕ
closers_of over [] = []
closers_of over (sid ∷ sids) = get_or_else (lookup sid over) [] ++ closers_of over sids

-- a merge of the two memberships leaves nothing open
unfoldable pub closes_with : Assoc ℕ (List ActivityRow) → List ActivityRow → ℕ → Bool
closes_with by_group rows pk = fully_closed (rows ++ get_or_else (lookup pk by_group) [])

unfoldable pub covering :
    Assoc ℕ (List ActivityRow) → Assoc String (List ℕ) → OpenGroup → List String → List ℕ
unfolding without_repeated closers_of closes_with
covering by_group over group held = sorted leb (
    select (closes_with by_group group.rows)
      (select (λ pk. not (eqb pk group.pk)) (without_repeated (closers_of over held))))

-- nothing of what the group holds is open in the account
unfoldable pub is_misattributed : Nets → List String → Bool
is_misattributed account_nets [] = false
is_misattributed account_nets (sid ∷ sids) =
    all_of (λ s. eqb_ℤ (get_or_else (lookup s account_nets) zero_decimal) (pos 0)) (sid ∷ sids)

unfoldable pub misattributed :
    InMemoryStore
    → Nets
    → Assoc ℕ (List ActivityRow)
    → Assoc String (List ℕ)
    → List OpenGroup
    → List Report
unfolding covering is_misattributed held_names group_name
misattributed store nets by_group over [] = []
misattributed store nets by_group over (group ∷ groups) =
    let rest = misattributed store nets by_group over groups in
    let held = held_names (net_quantities group.rows) in
    if is_misattributed nets held
    then record {
      group_pk = group.pk;
      group_id = group_name store group.pk;
      securities = sorted text_le held;
      covered_by = covering by_group over group held;
    }
      ∷ rest
    else rest

abbrev pub report_le : Report → Report → Bool
report_le a b = leb a.group_pk b.group_pk

unfoldable pub find_misattributed_open_groups : InMemoryStore → String → List Report
unfolding rows_by_group misattributed
find_misattributed_open_groups store account =
    let activity = account_activity store (account_filter account none) in
    let by_group = rows_by_group [] activity in
    sorted report_le (
      misattributed store (net_open_quantities activity) by_group (over_closing_groups by_group)
        (load_open_groups store account))

-- the securities of some rows
unfoldable pub securities_in : List ActivityRow → List String
securities_in rows = map security_of rows

-- a membership of position rows that all close, and that nets to nothing
unfoldable pub is_orphan : OpenGroup → Bool
is_orphan group = elim (ordered_position_rows group.rows) [
  | [] ↦ false
  | r ∷ rows ↦
      all_of is_closing (r ∷ rows) && elim (net_quantities group.rows) [ [] ↦ true | _ ∷ _ ↦ false ]
]

-- a group that holds one of the securities, and that the orphan would close
unfoldable pub hosts : OpenGroup → List String → Assoc ℕ (List ActivityRow) → List ℕ
hosts group sids [] = []
hosts group sids ((pk, rows) ∷ rest) =
    let more = hosts group sids rest in
    if not (eqb pk group.pk)
      && any_of (λ sid. not (eqb_ℤ (net_at (net_quantities rows) sid) (pos 0))) sids
      && fully_closed (rows ++ group.rows)
    then pk ∷ more
    else more

unfoldable pub orphans : InMemoryStore → Assoc ℕ (List ActivityRow) → List OpenGroup → List Report
unfolding securities_in is_orphan hosts group_name
orphans store by_group [] = []
orphans store by_group (group ∷ groups) =
    let rest = orphans store by_group groups in
    let sids =
      sorted text_le (without_repeats (securities_in (ordered_position_rows group.rows))) in
    if is_orphan group
    then record {
      group_pk = group.pk;
      group_id = group_name store group.pk;
      securities = sids;
      covered_by = sorted leb (hosts group sids by_group);
    }
      ∷ rest
    else rest

unfoldable pub find_orphan_settlement_groups : InMemoryStore → String → List Report
unfolding rows_by_group orphans
find_orphan_settlement_groups store account =
    let activity = account_activity store (account_filter account none) in
    sorted report_le (orphans store (rows_by_group [] activity) (load_open_groups store account))

-- a change that the repair of futures groups makes
pub record Change : Type 0 where
  pub group_pk : ℕ
  pub group_id : String
  pub account : String
  pub old : Cash
  pub new : Cash

-- `TradeFilter(account=acct)`
abbrev pub whole_account : String → TradeFilter
whole_account account = record {
  origin = none;
  review_status = none;
  status = none;
  account = some account;
  underlying = none;
  start_on = none;
  end_on = none;
}

-- `cash_text` is `str` of a decimal
module _ (out : Outside) (cash_text : Cash → String) where
  unfoldable pub recompute_note : Cash → Cash → String
  recompute_note old new =
      concat "recompute: price-based futures realized_pnl ("
        (concat (cash_text old) (concat " -> " (concat (cash_text new) ")")))

  unfoldable pub restamp_group : InMemoryStore → ℕ → Cash → Cash → InMemoryStore
  restamp_group store pk old new = elim (get_trade_group_by_id store pk) [
    | none ↦ store
    | some tg ↦
        emit out (upsert_trade_group store (record tg { realized_pnl = some new })).0
          (record (event_of pk adjustment) {
            event_at = tg.closed_at;
            notes = some (recompute_note old new);
          })
  ]

  -- the change of one group, if its value is stamped, it holds a future and it differs
  unfoldable pub futures_change : InMemoryStore → String → TradeRow → Option Change
  unfolding is_future_row
  futures_change store account trade = elim trade.realized_pnl [
    | none ↦ none
    | some old ↦ elim (get_trade_group_id store trade.group_id) [
      | none ↦ none
      | some pk ↦
          let rows = group_rows_of store pk in
          let new = group_realized out.divide store rows in
          if any_of (is_future_row store) rows && not (eqb_ℤ new old)
          then some (record {
            group_pk = pk;
            group_id = trade.group_id;
            account = account;
            old = old;
            new = new;
          })
          else none
    ]
  ]

  unfoldable pub recompute_trades :
      Bool → String → InMemoryStore → List TradeRow → InMemoryStore × List Change
  unfolding futures_change restamp_group
  recompute_trades dry_run account store [] = (store, [])
  recompute_trades dry_run account store (trade ∷ trades) =
      elim (futures_change store account trade) [
        | none ↦ recompute_trades dry_run account store trades
        | some change ↦
            let (store', changes) =
              recompute_trades dry_run account
                (if dry_run
                  then store
                  else restamp_group store change.group_pk change.old change.new)
                trades in
            (store', change ∷ changes)
      ]

  unfoldable pub recompute_accounts :
      Bool → InMemoryStore → List String → InMemoryStore × List Change
  unfolding recompute_trades
  recompute_accounts dry_run store [] = (store, [])
  recompute_accounts dry_run store (account ∷ accounts) =
      let (store', changes) =
        recompute_trades dry_run account store (unified_trades store (whole_account account)) in
      let (store'', more) = recompute_accounts dry_run store' accounts in (store'', changes ++ more)

  unfoldable pub recompute_futures_group_pnl :
      InMemoryStore → Option String → Bool → InMemoryStore × List Change
  unfolding recompute_accounts
  recompute_futures_group_pnl store account dry_run =
      recompute_accounts dry_run store
        (elim account [ none ↦ accounts_with_activity store none | some a ↦ a ∷ [] ])
