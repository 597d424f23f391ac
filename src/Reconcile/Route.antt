-- ===== src/Reconcile/Route.antt =====
-- Routing a cluster's closes to the open groups that they offset
-- (tt_ledger/ingest/reconcile.py, `_route_cluster`). A group is named by its surrogate id.
use tt_ledger.Base.{
  ℕ, String, Bool, false, ◌||◌, Option, none, some, List, [], ◌∷◌, ◌++◌, if◌then◌else◌, any_of,
  or_option,
}
use tt_ledger.Base.Assoc.{Assoc, insert, append_at, text_eq, id_eq}
use tt_ledger.Base.Int.{pos, abs, min_ℤ, leb_ℤ, eqb_ℤ, ◌-ℤ◌, ◌*ℤ◌}
use tt_ledger.Base.Text.{opt_is}
use tt_ledger.Rows.{ActivityRow}
use tt_ledger.Rows.Units.{Quantity}
use tt_ledger.Replay.Rules.{quantity_of}
use tt_ledger.Reconcile.Rules.{is_closing, has_bare_action, has_action, action_delta}
use tt_ledger.Reconcile.Nets.{Nets, net_at, net_quantities, clamp_close}

-- `_OpenGroup`: an open group and its member rows
pub record OpenGroup : Type 0 where
  pub pk : ℕ
  pub rows : List ActivityRow

-- an open group with what is left of its nets
pub record Holding : Type 0 where
  pub group : OpenGroup
  pub nets : Nets

unfoldable pub holdings_of : List OpenGroup → List Holding
holdings_of [] = []
holdings_of (g ∷ groups) = record { group = g; nets = net_quantities g.rows } ∷ holdings_of groups

-- the group holds nothing of the security that a close of `delta` would offset
unfoldable pub passes_over : Quantity → Option Quantity → Bool
passes_over net delta =
    eqb_ℤ net (pos 0) || elim delta [ none ↦ false | some d ↦ leb_ℤ (pos 0) (net *ℤ d) ]

-- what a holding keeps after `left` was taken from it
unfoldable pub drawn : String → Quantity → Holding → Holding
drawn sid left h = record h { nets = insert sid (clamp_close (net_at h.nets sid) left) h.nets }

-- `_draw_down`, from the group at hand, with the first group that was drawn on
unfoldable pub draw_down :
    String → Quantity → Option Quantity → Option ℕ → List Holding → List Holding × Option ℕ
draw_down sid left delta first [] = ([], first)
draw_down sid left delta first (h ∷ holdings) =
    let net = net_at h.nets sid in
    let left' = left -ℤ min_ℤ left (abs net) in
    let first' = or_option first (some h.group.pk) in
    let skipped = draw_down sid left delta first holdings in
    let carried = draw_down sid left' delta first' holdings in
    if passes_over net delta
    then (h ∷ skipped.0, skipped.1)
    else if leb_ℤ left' (pos 0)
    then (drawn sid left h ∷ holdings, first')
    else (drawn sid left h ∷ carried.0, carried.1)

-- the first group whose membership includes the security
unfoldable pub member_group : String → List Holding → Option ℕ
member_group sid [] = none
member_group sid (h ∷ holdings) =
    let rest = member_group sid holdings in
    if any_of (λ r. opt_is r.security_id sid) h.group.rows then some h.group.pk else rest

-- the group that a row of the security goes to, if any
unfoldable pub route_row : String → ActivityRow → List Holding → List Holding × Option ℕ
route_row sid row holdings =
    if is_closing row
    then (let delta = if has_action row then some (action_delta row) else none in
        let (holdings', found) = draw_down sid (abs (quantity_of row)) delta none holdings in
        (holdings', or_option found (member_group sid holdings')))
    else if has_bare_action row
    then draw_down sid (abs (quantity_of row)) (some (action_delta row)) none holdings
    else (holdings, none)

pub record Routing : Type 0 where
  pub holdings : List Holding
  pub buckets : Assoc ℕ (List ActivityRow)
  pub rest : List ActivityRow

-- the end of the loop's body: into the group's bucket, or into the rest
unfoldable pub place : Routing → ActivityRow → List Holding × Option ℕ → Routing
place s row (holdings, none) = record s { holdings = holdings; rest = s.rest ++ row ∷ [] }
place s row (holdings, some pk) = record s {
  holdings = holdings;
  buckets = append_at pk row s.buckets;
}

unfoldable pub route_step : Routing → ActivityRow → Routing
unfolding place route_row
route_step s row =
    place s row
      (elim row.security_id [ none ↦ (s.holdings, none) | some sid ↦ route_row sid row s.holdings ])

unfoldable pub route_rows : Routing → List ActivityRow → Routing
route_rows s [] = s
route_rows s (row ∷ rows) = route_rows (route_step s row) rows

unfoldable pub route_cluster :
    List OpenGroup → List ActivityRow → Assoc ℕ (List ActivityRow) × List ActivityRow
unfolding holdings_of route_rows
route_cluster groups cluster =
    let s =
      route_rows (record { holdings = holdings_of groups; buckets = []; rest = [] }) cluster in
    (s.buckets, s.rest)
