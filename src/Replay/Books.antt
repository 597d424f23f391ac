-- ===== src/Replay/Books.antt =====
-- What replay books: every fee exactly once.
use tt_ledger.Base.{
  ℕ, String, ◌≡◌, ap, Bool, ◌||◌, Option, none, some, List, [], ◌∷◌, is_some, get_or_else, inl, inr,
  Bool-cases, arith, if◌then◌else◌,
}
use tt_ledger.Base.Int.{pos, eqb_ℤ, ◌+ℤ◌, +ℤ_zero, zero_+ℤ, carry_over, int_laws}
use tt_ledger.Rows.{ActivityRow}
use tt_ledger.Rows.Units.{Quantity, Price, Cash, zero_decimal}
use tt_ledger.Replay.Rules.{Lot, fees_of, effective_delta_price}
use tt_ledger.Replay.Walk.{
  WalkState, PlanEntry, closed_row, reduce_lot, apply_delta, replay_effect, replay_step,
  replay_rows,
}
use tt_ledger.Replay.Invariant.{IsTidy, replay_step-IsTidy}

-- the fees of the lifecycle that a plan entry closed
abbrev pub closed_fees : PlanEntry → Cash
closed_fees e = elim e.closed [ none ↦ zero_decimal | some c ↦ get_or_else c.fees zero_decimal ]

-- the row moved the lot
abbrev pub took_effect : PlanEntry → Bool
took_effect e = e.marks_open || is_some e.closed

abbrev pub row_fees_booked : ActivityRow → PlanEntry → Cash
row_fees_booked row e = if took_effect e then fees_of row else zero_decimal

abbrev pub plan_fees : List PlanEntry → Cash
plan_fees [] = zero_decimal
plan_fees (e ∷ plan) = closed_fees e +ℤ plan_fees plan

-- the fees of the rows that moved the lot
abbrev pub fees_booked : List ActivityRow → List PlanEntry → Cash
fees_booked (row ∷ rows) (e ∷ plan) = row_fees_booked row e +ℤ fees_booked rows plan
fees_booked _ _ = zero_decimal

module _ (divide : Cash → Quantity → Price) (account security_id : String) (multiplier : ℕ) where
  reduce_lot-fees :
      (s : WalkState) (row : ActivityRow) (delta : Quantity) (price : Price)
      → let (s', e) = reduce_lot divide account security_id multiplier s row delta price in
        closed_fees e +ℤ s'.lot.fees ≡ s.lot.fees +ℤ row_fees_booked row e
  unfolding reduce_lot closed_row
  reduce_lot-fees s row delta price =
      ground (arith, +ℤ_zero (s.lot.fees +ℤ fees_of row), zero_+ℤ (s.lot.fees +ℤ fees_of row))

  apply_delta-fees :
      (s : WalkState) (row : ActivityRow) (delta : Quantity) (price : Price)
      → IsTidy s.lot
      → let (s', e) = apply_delta divide account security_id multiplier s row delta price in
        closed_fees e +ℤ s'.lot.fees ≡ s.lot.fees +ℤ row_fees_booked row e
  unfolding apply_delta
  apply_delta-fees s row delta price t = elim (Bool-cases (eqb_ℤ s.lot.signed_quantity (pos 0))) [
    | inl flat ↦ rw (flat, ap (λ (l : Lot). l.fees) (t.flat_is_empty flat))
    | inr held ↦
        ground (arith, zero_+ℤ (s.lot.fees +ℤ fees_of row), reduce_lot-fees s row delta price)
  ]

  replay_effect-fees :
      (s : WalkState) (row : ActivityRow) (delta : Quantity) (price : Option Price)
      → IsTidy s.lot
      → let (s', e) = replay_effect divide account security_id multiplier s row (delta, price) in
        closed_fees e +ℤ s'.lot.fees ≡ s.lot.fees +ℤ row_fees_booked row e
  unfolding replay_effect
  replay_effect-fees s row delta none t = omega int_laws
  replay_effect-fees s row delta (some price) t = elim (Bool-cases (eqb_ℤ delta (pos 0))) [
    | inl still ↦ rw still (omega int_laws)
    | inr moves ↦ rw moves (apply_delta-fees s row delta price t)
  ]

  replay_step-fees :
      (s : WalkState) (row : ActivityRow)
      → IsTidy s.lot
      → let (s', e) = replay_step divide account security_id multiplier s row in
        closed_fees e +ℤ s'.lot.fees ≡ s.lot.fees +ℤ row_fees_booked row e
  unfolding replay_step
  replay_step-fees s row t =
      let (delta, price) = effective_delta_price row s.lot s.had_position in
      replay_effect-fees s row delta price t

  -- Every fee is booked once: from a tidy lot, the fees of the closed lifecycles and of the lot still
  -- open add up to those of the lot before and of the rows that moved the lot.
  pub replay_rows-fees :
      (s : WalkState) (rows : List ActivityRow)
      → IsTidy s.lot
      → let (s', plan) = replay_rows divide account security_id multiplier s rows in
        plan_fees plan +ℤ s'.lot.fees ≡ s.lot.fees +ℤ fees_booked rows plan
  unfolding replay_rows
  replay_rows-fees s [] t = omega int_laws
  replay_rows-fees s (row ∷ rows) t =
      let (s', e) = replay_step divide account security_id multiplier s row in
      let (f, plan) = replay_rows divide account security_id multiplier s' rows in
      carry_over (closed_fees e) (plan_fees plan) f.lot.fees s.lot.fees s'.lot.fees
        (row_fees_booked row e) (fees_booked rows plan) (replay_step-fees s row t)
        (replay_rows-fees s' rows
          (replay_step-IsTidy divide account security_id multiplier s row t))
