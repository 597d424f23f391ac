-- ===== src/Reconcile/Rules.antt =====
-- What reconcile reads off one member row of a group (tt_ledger/ingest/reconcile.py): whether it
-- opens, closes, settles or delivers, its signed delta and its cash.
use tt_ledger.Base.{
  String, Bool, true, false, not, ◌&&◌, ◌||◌, Option, none, some, List, [], ◌∷◌, get_or_else,
  if◌then◌else◌, leb, is_some, select, sorted,
}
use tt_ledger.Base.Int.{neg, abs, ◌+ℤ◌}
use tt_ledger.Base.Text.{opt_is, opt_member}
use tt_ledger.Enums.{TradeGroupEventType, TradeGroupStatus, expiration, assignment, exercise}
use tt_ledger.Rows.{ActivityRow}
use tt_ledger.Rows.Units.{Quantity, Cash, zero_decimal}
use tt_ledger.Replay.Rules.{is_sell, quantity_of}

abbrev pub closing_actions : List String
closing_actions = "Sell to Close" ∷ "Buy to Close" ∷ []

abbrev pub opening_actions : List String
opening_actions = "Buy to Open" ∷ "Sell to Open" ∷ []

abbrev pub bare_actions : List String
bare_actions = "Buy" ∷ "Sell" ∷ []

abbrev pub option_product_types : List String
option_product_types = "OS" ∷ "OI" ∷ "OF" ∷ []

abbrev pub cash_settled_subtypes : List String
cash_settled_subtypes = "Cash Settled Assignment" ∷ "Cash Settled Exercise" ∷ []

-- `_RD_EVENT_BY_SUBTYPE.get(sub_type)`
unfoldable pub event_of_subtype : Option String → Option TradeGroupEventType
event_of_subtype sub_type =
    if opt_is sub_type "Expiration"
    then some expiration
    else if opt_member sub_type ("Assignment" ∷ "Cash Settled Assignment" ∷ [])
    then some assignment
    else if opt_member sub_type ("Exercise" ∷ "Cash Settled Exercise" ∷ [])
    then some exercise
    else none

-- `_STATUS_BY_EVENT`; the events that it does not list are not asked for
unfoldable pub status_of_event : TradeGroupEventType → Option TradeGroupStatus
status_of_event TradeGroupEventType.full_exit = some TradeGroupStatus.closed
status_of_event TradeGroupEventType.partial_exit = some TradeGroupStatus.closed
status_of_event TradeGroupEventType.expiration = some TradeGroupStatus.expired
status_of_event TradeGroupEventType.assignment = some TradeGroupStatus.assigned
status_of_event TradeGroupEventType.exercise = some TradeGroupStatus.exercised
status_of_event _ = none

unfoldable pub is_nontrade_close : ActivityRow → Bool
unfolding event_of_subtype
is_nontrade_close row =
    opt_is row.transaction_type "Receive Deliver"
    && is_some (event_of_subtype row.transaction_sub_type)

unfoldable pub has_closing_action : ActivityRow → Bool
has_closing_action row = opt_member row.action closing_actions

unfoldable pub has_bare_action : ActivityRow → Bool
has_bare_action row = opt_member row.action bare_actions

unfoldable pub is_opening : ActivityRow → Bool
is_opening row = opt_member row.action opening_actions

-- `not row.action` is true of a missing and of an empty action
unfoldable pub has_action : ActivityRow → Bool
has_action row = is_some row.action && not (opt_is row.action "")

unfoldable pub is_delivery : ActivityRow → Bool
unfolding is_opening has_closing_action has_bare_action
is_delivery row =
    opt_is row.transaction_type "Receive Deliver"
    && (is_opening row || has_closing_action row || has_bare_action row)

unfoldable pub is_closing : ActivityRow → Bool
is_closing row = has_closing_action row || is_nontrade_close row

unfoldable pub action_delta : ActivityRow → Quantity
action_delta row = let qty = abs (quantity_of row) in if is_sell row.action then neg qty else qty

unfoldable pub signed_net : ActivityRow → Cash
signed_net row =
    let net = get_or_else row.net_value zero_decimal in
    if opt_is row.net_value_effect "Debit" then neg net else net

unfoldable pub row_fees : ActivityRow → Cash
row_fees row =
    get_or_else row.commission zero_decimal
    +ℤ get_or_else row.clearing_fees zero_decimal
    +ℤ get_or_else row.regulatory_fees zero_decimal
    +ℤ get_or_else row.proprietary_index_option_fees zero_decimal

unfoldable pub signed_gross : ActivityRow → Cash
signed_gross row = signed_net row +ℤ row_fees row

-- `r.security_id and r.quantity is not None`: an empty security id is none
unfoldable pub is_position_row : ActivityRow → Bool
is_position_row row = elim row.security_id [
  | none ↦ false
  | some sid ↦ if opt_is row.security_id "" then false else is_some row.quantity
]

-- the sort key `(executed_at is None, executed_at)`
unfoldable pub time_le : ActivityRow → ActivityRow → Bool
time_le a b = elim b.executed_at [
  | none ↦ true
  | some t ↦ elim a.executed_at [ none ↦ false | some s ↦ leb s t ]
]

unfoldable pub ordered_position_rows : List ActivityRow → List ActivityRow
ordered_position_rows rows = sorted time_le (select is_position_row rows)
