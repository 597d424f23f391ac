-- ===== src/Reconcile/Peaks.antt =====
-- The peak of a group covers its net (tt_ledger/ingest/reconcile.py, `_peak_exposures`).
use tt_ledger.Base.{String, List, [], ◌∷◌, ◌≡◌, refl, inl, inr, Bool-cases, Option-cases, arith}
use tt_ledger.Base.Assoc.{lookup, text_eq}
use tt_ledger.Base.Int.{ℤ, abs, max_ℤ, max_ℤ_lem, ◌≤ℤ◌}
use tt_ledger.Base.Text.{str_eq}
use tt_ledger.Rows.{ActivityRow}
use tt_ledger.Reconcile.Rules.{ordered_position_rows}
use tt_ledger.Reconcile.Nets.{
  net_at, security_of, net_row, net_all, net_quantities, Exposure, peak_row, peak_all,
  peak_exposures, group_net_step,
}
use tt_ledger.Reconcile.Clamp.{net_at-insert}

-- the peak covers the net
abbrev pub Covers : Exposure → Type 0
Covers e = (sid : String) → abs (net_at e.net sid) ≤ℤ net_at e.peak sid

max_ℤ-right : (a b : ℤ) → b ≤ℤ max_ℤ a b
max_ℤ-right a b = ground (arith, max_ℤ_lem a b)

peak_row-Covers : (e : Exposure) (row : ActivityRow) → Covers e → Covers (peak_row e row)
unfolding peak_row
peak_row-Covers e row covers sid =
    let s = security_of row in
    elim (Option-cases (group_net_step (net_at e.net s) row)) [
      | inl same ↦ rw (same, peak_row) (covers sid)
      | inr (q, stepped) ↦
          rw
            (
              stepped,
              peak_row,
              net_at-insert e.net s sid q,
              net_at-insert e.peak s sid (max_ℤ (net_at e.peak s) (abs q)),
            )
            (elim (Bool-cases (str_eq s sid)) [
              | inl same ↦ rw same (max_ℤ-right (net_at e.peak s) (abs q))
              | inr other ↦ rw other (covers sid)
            ])
    ]

peak_row-net : (e : Exposure) (row : ActivityRow) → (peak_row e row).net ≡ net_row e.net row
unfolding peak_row net_row
peak_row-net e row = elim (Option-cases (group_net_step (net_at e.net (security_of row)) row)) [
  | inl same ↦ ground (arith, same)
  | inr (q, stepped) ↦ ground (arith, stepped)
]

-- the walk of the peaks carries the walk of the nets
peak_all-net : (rows : List ActivityRow) (e : Exposure) → (peak_all e rows).net ≡ net_all e.net rows
unfolding peak_all net_all
peak_all-net [] e = refl
peak_all-net (row ∷ rows) e = rw (← peak_row-net e row) (peak_all-net rows (peak_row e row))

peak_all-Covers : (rows : List ActivityRow) (e : Exposure) → Covers e → Covers (peak_all e rows)
unfolding peak_all
peak_all-Covers [] e covers = covers
peak_all-Covers (row ∷ rows) e covers =
    peak_all-Covers rows (peak_row e row) (peak_row-Covers e row covers)

-- Of every security, what a group ends up holding is in absolute value at most the peak of what
-- it held.
pub peak_exposures-net_quantities :
    (rows : List ActivityRow) (sid : String)
    → abs (net_at (net_quantities rows) sid) ≤ℤ net_at (peak_exposures rows) sid
unfolding peak_exposures net_quantities abs lookup
peak_exposures-net_quantities rows sid =
    let start : Exposure = record { net = []; peak = [] } in
    let ordered = ordered_position_rows rows in
    rw (← peak_all-net ordered start) (peak_all-Covers ordered start (λ s. omega arith) sid)
