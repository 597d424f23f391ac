-- ===== src/Reconcile/Nets.antt =====
-- A group's own book (tt_ledger/ingest/reconcile.py): the net and the peak exposure of each
-- security over the group's member rows.
use tt_ledger.Base.{
  String, Bool, true, false, ◌&&◌, ◌||◌, not, Option, none, some, List, [], ◌∷◌, get_or_else,
  if◌then◌else◌, all_of, any_of,
}
use tt_ledger.Base.Assoc.{Assoc, lookup, insert, text_eq}
use tt_ledger.Base.Int.{pos, abs, min_ℤ, max_ℤ, ltb_ℤ, eqb_ℤ, ◌+ℤ◌, ◌-ℤ◌, ◌*ℤ◌}
use tt_ledger.Rows.{ActivityRow}
use tt_ledger.Rows.Units.{Quantity, zero_decimal}
use tt_ledger.Replay.Rules.{is_money_movement, quantity_of}
use tt_ledger.Reconcile.Rules.{
  is_nontrade_close, has_action, has_closing_action, has_bare_action, is_opening, action_delta,
  ordered_position_rows,
}

-- `current - qty if current > 0 else current + qty` with `qty = min(abs(size), abs(current))`
unfoldable pub clamp_close : Quantity → Quantity → Quantity
clamp_close current size =
    let qty = min_ℤ (abs size) (abs current) in
    if ltb_ℤ (pos 0) current then current -ℤ qty else current +ℤ qty

-- a trade that closes: by its action, or bare and against what the group holds
unfoldable pub closes : Quantity → ActivityRow → Bool
closes current row =
    has_closing_action row
    || has_bare_action row
      && not (eqb_ℤ current (pos 0))
      && ltb_ℤ (current *ℤ action_delta row) (pos 0)

unfoldable pub group_net_step : Quantity → ActivityRow → Option Quantity
unfolding closes
group_net_step current row =
    if is_money_movement row
    then none
    else if is_nontrade_close row
    then (if eqb_ℤ current (pos 0) then none else some (clamp_close current (quantity_of row)))
    else if has_action row
    then (if closes current row
        then (if eqb_ℤ current (pos 0) then none else some (clamp_close current (action_delta row)))
        else some (current +ℤ action_delta row))
    else none

abbrev pub Nets : Type 0
Nets = Assoc String Quantity

-- the entry of a security, `net.get(sid, Decimal("0"))`
abbrev pub net_at : Nets → String → Quantity
net_at nets sid = get_or_else (lookup sid nets) zero_decimal

-- a position row has a security
abbrev pub security_of : ActivityRow → String
security_of row = get_or_else row.security_id ""

unfoldable pub net_row : Nets → ActivityRow → Nets
net_row nets row = elim (group_net_step (net_at nets (security_of row)) row) [
  | none ↦ nets
  | some stepped ↦ insert (security_of row) stepped nets
]

unfoldable pub net_all : Nets → List ActivityRow → Nets
net_all nets [] = nets
net_all nets (row ∷ rows) = net_all (net_row nets row) rows

-- `_net_quantities`
unfoldable pub net_quantities : List ActivityRow → Nets
net_quantities rows = net_all [] (ordered_position_rows rows)

-- The peak walk carries the net and the peak of each security.
pub record Exposure : Type 0 where
  pub net : Nets
  pub peak : Nets

unfoldable pub peak_row : Exposure → ActivityRow → Exposure
peak_row e row = elim (group_net_step (net_at e.net (security_of row)) row) [
  | none ↦ e
  | some stepped ↦ record {
    net = insert (security_of row) stepped e.net;
    peak = insert (security_of row) (max_ℤ (net_at e.peak (security_of row)) (abs stepped)) e.peak;
  }
]

unfoldable pub peak_all : Exposure → List ActivityRow → Exposure
peak_all e [] = e
peak_all e (row ∷ rows) = peak_all (peak_row e row) rows

-- `_peak_exposures`
unfoldable pub peak_exposures : List ActivityRow → Nets
peak_exposures rows = (peak_all (record { net = []; peak = [] }) (ordered_position_rows rows)).peak

abbrev pub is_empty : Nets → Bool
is_empty [] = true
is_empty (_ ∷ _) = false

-- `all(qty == 0 for qty in net.values())`
abbrev pub all_flat : Nets → Bool
all_flat = all_of (λ (entry : String × Quantity). eqb_ℤ entry.1 (pos 0))

-- `_fully_closed`
unfoldable pub fully_closed : List ActivityRow → Bool
fully_closed rows =
    let net = net_quantities rows in
    not (is_empty net) && any_of (λ r. is_opening r || has_bare_action r) rows && all_flat net
