-- ===== src/Reconcile/Closing.antt =====
-- How a group's closes are read (tt_ledger/ingest/reconcile.py): the closes that exceed what the
-- group held, the contracts that a settlement retired, and the causes of a close.
use tt_ledger.Base.{
  ℕ, String, Bool, true, false, ◌&&◌, ◌||◌, not, Option, none, some, List, [], ◌∷◌, if◌then◌else◌,
  get_or_else,
}
use tt_ledger.Base.Assoc.{Assoc, lookup, insert, text_eq, id_eq, option_beq, append_at}
use tt_ledger.Base.Int.{pos, abs, ltb_ℤ, eqb_ℤ, ◌+ℤ◌}
use tt_ledger.Base.Text.{opt_member, str_eq}
use tt_ledger.Enums.{TradeGroupStatus}
use tt_ledger.Rows.{ActivityRow}
use tt_ledger.Rows.Units.{Quantity, zero_decimal}
use tt_ledger.Replay.Rules.{quantity_of}
use tt_ledger.Reconcile.Rules.{
  is_nontrade_close, has_closing_action, has_bare_action, is_closing, event_of_subtype,
  status_of_event, cash_settled_subtypes, ordered_position_rows,
}
use tt_ledger.Reconcile.Nets.{Nets, net_at, security_of, net_quantities, peak_exposures}

-- `closed_qty`: the closing quantity of each security
unfoldable pub closed_quantities : Nets → List ActivityRow → Nets
closed_quantities acc [] = acc
closed_quantities acc (row ∷ rows) =
    let sid = security_of row in
    let counted = insert sid (net_at acc sid +ℤ abs (quantity_of row)) acc in
    closed_quantities (if is_closing row || has_bare_action row then counted else acc) rows

-- the securities whose closes exceed the peak, each with the group
unfoldable pub over_in_group : ℕ → Nets → Nets → Assoc String (List ℕ) → Assoc String (List ℕ)
over_in_group pk peaks [] over = over
over_in_group pk peaks ((sid, qty) ∷ rest) over =
    over_in_group pk peaks rest
      (if ltb_ℤ (net_at peaks sid) qty then append_at sid pk over else over)

unfoldable pub over_closing_onto :
    Assoc String (List ℕ) → Assoc ℕ (List ActivityRow) → Assoc String (List ℕ)
unfolding over_in_group closed_quantities
over_closing_onto over [] = over
over_closing_onto over ((pk, rows) ∷ rest) =
    over_closing_onto
      (over_in_group pk (peak_exposures rows) (closed_quantities [] (ordered_position_rows rows))
        over)
      rest

unfoldable pub over_closing_groups : Assoc ℕ (List ActivityRow) → Assoc String (List ℕ)
unfolding over_closing_onto
over_closing_groups groups = over_closing_onto [] groups

-- one security's removals and its money rows
abbrev pub SettledKey : Type 0
SettledKey = Option String × Bool

abbrev pub bool_beq : Bool → Bool → Bool
bool_beq a b = if a then b else not b

unfoldable pub settled_key_beq : SettledKey → SettledKey → Bool
settled_key_beq p q = option_beq p.0 q.0 && bool_beq p.1 q.1

unfoldable pub settled_at : SettledKey → List (SettledKey × Quantity) → Option Quantity
settled_at k [] = none
settled_at k ((j, q) ∷ rest) = if settled_key_beq j k then some q else settled_at k rest

unfoldable pub settle_onto :
    SettledKey → Quantity → List (SettledKey × Quantity) → List (SettledKey × Quantity)
settle_onto k q [] = (k, zero_decimal +ℤ q) ∷ []
settle_onto k q ((j, p) ∷ rest) =
    if settled_key_beq j k then (j, p +ℤ q) ∷ rest else (j, p) ∷ settle_onto k q rest

unfoldable pub by_settled :
    List (SettledKey × Quantity) → List ActivityRow → List (SettledKey × Quantity)
unfolding settle_onto
by_settled acc [] = acc
by_settled acc (row ∷ rows) = elim row.quantity [
  | none ↦ by_settled acc rows
  | some q ↦
      by_settled
        (settle_onto (row.security_id, opt_member row.transaction_sub_type cash_settled_subtypes)
          (abs q) acc)
        rows
]

-- `by_security.get((sid, False)) or by_security.get((sid, True), 0)`: a zero count is no count
unfoldable pub settled_of : Option String → List (SettledKey × Quantity) → Quantity
unfolding settled_at
settled_of sid counts =
    let removal = get_or_else (settled_at (sid, false) counts) zero_decimal in
    if eqb_ℤ removal (pos 0)
    then get_or_else (settled_at (sid, true) counts) zero_decimal
    else removal

abbrev pub listed : Option String → List (Option String) → Bool
listed sid [] = false
listed sid (s ∷ ss) = option_beq s sid || listed sid ss

-- the sum over the securities, each taken once
unfoldable pub settled_sum :
    List (Option String) → List (SettledKey × Quantity) → List (SettledKey × Quantity) → Quantity
settled_sum seen counts [] = zero_decimal
settled_sum seen counts (((sid, _), _) ∷ rest) =
    let is_seen = listed sid seen in
    let more = settled_sum (sid ∷ seen) counts rest in
    if is_seen then settled_sum seen counts rest else settled_of sid counts +ℤ more

unfoldable pub settled_quantity : List ActivityRow → Quantity
unfolding by_settled settled_sum
settled_quantity rows = let counts = by_settled [] rows in settled_sum [] counts counts

abbrev pub flat_in : Nets → Option String → Bool
flat_in net none = false
flat_in net (some sid) =
    not (str_eq sid "") && elim (lookup sid net) [ none ↦ false | some q ↦ eqb_ℤ q (pos 0) ]

-- `causes.add(…)` for each row that closed; `net.get(sid) == 0` is false of a missing security
unfoldable pub cause_of : Nets → ActivityRow → Option TradeGroupStatus
cause_of net row =
    if is_nontrade_close row
    then elim (event_of_subtype row.transaction_sub_type) [
      | none ↦ none
      | some ev ↦ status_of_event ev
    ]
    else if has_closing_action row
    then some TradeGroupStatus.closed
    else if has_bare_action row && flat_in net row.security_id
    then some TradeGroupStatus.closed
    else none

unfoldable pub causes_in : Nets → List ActivityRow → List TradeGroupStatus
unfolding cause_of
causes_in net [] = []
causes_in net (row ∷ rows) = elim (cause_of net row) [
  | none ↦ causes_in net rows
  | some status ↦ status ∷ causes_in net rows
]

-- the set of causes, as a list with repeats
unfoldable pub close_causes : List ActivityRow → List TradeGroupStatus
unfolding causes_in
close_causes rows = causes_in (net_quantities rows) rows
