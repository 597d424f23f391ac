-- ===== src/Replay/Realized.antt =====
-- `price_realized_gross` is the same walk as `_replay_security`, reduced to what it realizes: the
-- value of the closed lifecycles, plus what the open lot has realized so far.
use tt_ledger.Base.{
  ℕ, String, ◌≡◌, refl, ap, true, false, Option, none, some, List, [], ◌∷◌, AllOf, is_some,
  get_or_else, inl, inr, Bool-cases, arith,
}
use tt_ledger.Base.Int.{pos, eqb_ℤ, ltb_ℤ, ◌+ℤ◌, ◌*ℤ◌, +ℤ_zero, zero_+ℤ, int_laws}
use tt_ledger.Rows.{ActivityRow}
use tt_ledger.Rows.Units.{Quantity, Price, Cash, zero_decimal}
use tt_ledger.Replay.Rules.{Lot, flat_lot, effective_delta_price}
use tt_ledger.Replay.Walk.{
  WalkState, start_state, PlanEntry, averaged, close_value, closed_row, reduce_lot, apply_delta,
  replay_effect, replay_step, replay_rows,
}
use tt_ledger.Replay.Reduced.{
  GrossState, start_gross, clamped, gross_apply, gross_effect, gross_step, gross_rows,
}
use tt_ledger.Replay.Invariant.{IsTidy, IsTidy-flat_lot, replay_step-IsTidy}

-- the realized value of the lifecycle that a plan entry closed
abbrev pub closed_realized : PlanEntry → Cash
closed_realized e = elim e.closed [
  | none ↦ zero_decimal
  | some c ↦ get_or_else c.realized_pnl zero_decimal
]

abbrev pub plan_realized : List PlanEntry → Cash
plan_realized [] = zero_decimal
plan_realized (e ∷ plan) = closed_realized e +ℤ plan_realized plan

-- what the value walk keeps of a state of the lot walk
abbrev pub gross_view : WalkState → Cash → GrossState
gross_view s realized = record {
  lot = record flat_lot {
    signed_quantity = s.lot.signed_quantity;
    average_open_price = s.lot.average_open_price;
  };
  realized = realized;
  had_position = s.had_position;
}

settle_books : (b r v : Cash) → b +ℤ r +ℤ v ≡ b +ℤ (r +ℤ v) +ℤ pos 0
settle_books b r v = omega int_laws

carry_books : (b r v : Cash) → b +ℤ r +ℤ v ≡ b +ℤ pos 0 +ℤ (r +ℤ v)
carry_books b r v = omega int_laws

regroup : (b x p : Cash) → b +ℤ x +ℤ p ≡ b +ℤ (x +ℤ p)
regroup b x p = omega int_laws

module _ (divide : Cash → Quantity → Price) (account security_id : String) (multiplier : ℕ) where
  -- the books after a step from `base` booked before
  abbrev after : Cash → WalkState × PlanEntry → GrossState
  after base (s', e) = gross_view s' (base +ℤ closed_realized e +ℤ s'.lot.realized_pnl)

  reduce-gross :
      (s : WalkState) (row : ActivityRow) (delta : Quantity) (price : Price) (base : Cash)
      → eqb_ℤ s.lot.signed_quantity (pos 0) ≡ false
      → ltb_ℤ (pos 0) (s.lot.signed_quantity *ℤ delta) ≡ false
      → gross_apply divide multiplier (gross_view s (base +ℤ s.lot.realized_pnl)) delta price
        ≡ after base (reduce_lot divide account security_id multiplier s row delta price)
  unfolding gross_apply reduce_lot closed_row close_value
  reduce-gross s row delta price base held opposite =
      let value = close_value multiplier s.lot delta price in
      ground (
        arith,
        settle_books base s.lot.realized_pnl value,
        carry_books base s.lot.realized_pnl value,
      )

  apply-gross :
      (s : WalkState) (row : ActivityRow) (delta : Quantity) (price : Price) (base : Cash)
      → IsTidy s.lot
      → gross_apply divide multiplier (gross_view s (base +ℤ s.lot.realized_pnl)) delta price
        ≡ after base (apply_delta divide account security_id multiplier s row delta price)
  unfolding gross_apply apply_delta averaged
  apply-gross s row delta price base t = elim (Bool-cases (eqb_ℤ s.lot.signed_quantity (pos 0))) [
    | inl flat ↦ rw (flat, ap (λ (l : Lot). l.realized_pnl) (t.flat_is_empty flat)) (simp +ℤ_zero)
    | inr held ↦ elim (Bool-cases (ltb_ℤ (pos 0) (s.lot.signed_quantity *ℤ delta))) [
      | inl same ↦ rw (held, same) (simp +ℤ_zero)
      | inr opposite ↦ ground (arith, reduce-gross s row delta price base held opposite)
    ]
  ]

  effect-gross :
      (s : WalkState) (row : ActivityRow) (delta : Quantity) (price : Option Price) (base : Cash)
      → IsTidy s.lot
      → gross_effect divide multiplier false
          (gross_view s (base +ℤ s.lot.realized_pnl))
          (delta, price)
        ≡ after base (replay_effect divide account security_id multiplier s row (delta, price))
  unfolding gross_effect replay_effect clamped
  effect-gross s row delta none base t = simp +ℤ_zero
  effect-gross s row delta (some price) base t = elim (Bool-cases (eqb_ℤ delta (pos 0))) [
    | inl still ↦ rw still (simp +ℤ_zero)
    | inr moves ↦ rw moves (apply-gross s row delta price base t)
  ]

  -- the rules read only the quantity of a lot
  effective-gross_view :
      (s : WalkState) (realized : Cash) (row : ActivityRow)
      → effective_delta_price row (gross_view s realized).lot s.had_position
        ≡ effective_delta_price row s.lot s.had_position
  unfolding effective_delta_price
  effective-gross_view s realized row = refl

  step-gross :
      (s : WalkState) (row : ActivityRow) (base : Cash)
      → IsTidy s.lot
      → is_some row.quantity ≡ true
      → gross_step divide multiplier false (gross_view s (base +ℤ s.lot.realized_pnl)) row
        ≡ after base (replay_step divide account security_id multiplier s row)
  unfolding gross_step replay_step
  step-gross s row base t q =
      let (delta, price) = effective_delta_price row s.lot s.had_position in
      rw (q, effective-gross_view s (base +ℤ s.lot.realized_pnl) row)
        (effect-gross s row delta price base t)

  -- Over rows that carry a quantity the value walk without clamping ends with the quantity and the
  -- average of replay's lot, and it has realized what replay booked on closed lifecycles and what
  -- the open lot carries.
  pub gross_rows-replay_rows :
      (s : WalkState) (rows : List ActivityRow) (base : Cash)
      → IsTidy s.lot
      → AllOf (λ r. is_some r.quantity ≡ true) rows
      → let (s', plan) = replay_rows divide account security_id multiplier s rows in
        gross_rows divide multiplier false (gross_view s (base +ℤ s.lot.realized_pnl)) rows
        ≡ gross_view s' (base +ℤ plan_realized plan +ℤ s'.lot.realized_pnl)
  unfolding gross_rows replay_rows
  gross_rows-replay_rows s [] base t q = simp +ℤ_zero
  gross_rows-replay_rows s (row ∷ rows) base t q =
      let (s', e) = replay_step divide account security_id multiplier s row in
      rw (step-gross s row base t q.0) (
        rw
          (← regroup base (closed_realized e)
            (plan_realized (replay_rows divide account security_id multiplier s' rows).1))
          (gross_rows-replay_rows s' rows (base +ℤ closed_realized e)
            (replay_step-IsTidy divide account security_id multiplier s row t) q.1))

  -- Over rows that carry a quantity, in one order, what the value walk without clamping realizes is
  -- what replay books on the lifecycles it closes, plus what its open lot has realized so far; both
  -- end with the same quantity and the same average price.
  pub gross_realized-replay_rows :
      (rows : List ActivityRow)
      → AllOf (λ r. is_some r.quantity ≡ true) rows
      → let (s, plan) = replay_rows divide account security_id multiplier start_state rows in
        let g = gross_rows divide multiplier false start_gross rows in
        (g.realized ≡ plan_realized plan +ℤ s.lot.realized_pnl)
        × (g.lot.signed_quantity ≡ s.lot.signed_quantity)
        × (g.lot.average_open_price ≡ s.lot.average_open_price)
  unfolding ◌+ℤ◌
  gross_realized-replay_rows rows q =
      let (s, plan) = replay_rows divide account security_id multiplier start_state rows in
      let e : gross_rows divide multiplier false start_gross rows
          ≡ gross_view s (pos 0 +ℤ plan_realized plan +ℤ s.lot.realized_pnl) =
        gross_rows-replay_rows start_state rows (pos 0) IsTidy-flat_lot q in
      (rw e (rw (zero_+ℤ (plan_realized plan)) refl), rw e refl, rw e refl)
