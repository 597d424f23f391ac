-- ===== src/Replay/Invariant.antt =====
-- The invariant of the running lot: a lot that holds something has an average price, so that the
-- arithmetic on it never meets `None`, and a flat lot is `_Lot()`, so that nothing of one lifecycle
-- leaks into the next.
use tt_ledger.Base.{
  ℕ, String, ◌≡◌, refl, true, false, Option, none, some, List, [], ◌∷◌, is_some, inl, inr,
  Bool-cases, arith,
}
use tt_ledger.Base.Int.{pos, eqb_ℤ, ltb_ℤ, ◌+ℤ◌, ◌*ℤ◌, +ℤ_parts}
use tt_ledger.Base.Products.{mul_pos_cases}
use tt_ledger.Rows.{ActivityRow}
use tt_ledger.Rows.Units.{Quantity, Price, Cash}
use tt_ledger.Replay.Rules.{Lot, flat_lot, effective_delta_price}
use tt_ledger.Replay.Walk.{
  WalkState, reduce_lot, apply_delta, replay_effect, replay_step, replay_rows,
}

pub record IsTidy (lot : Lot) : Type 0 where
  pub held_is_priced :
      eqb_ℤ lot.signed_quantity (pos 0) ≡ false → is_some lot.average_open_price ≡ true
  pub flat_is_empty : eqb_ℤ lot.signed_quantity (pos 0) ≡ true → lot ≡ flat_lot

pub IsTidy-flat_lot : IsTidy flat_lot
IsTidy-flat_lot = record { held_is_priced = λ h. cc; flat_is_empty = λ h. refl }

-- a lot that holds something and has a price
pub IsTidy-held :
    (lot : Lot) (price : Price)
    → eqb_ℤ lot.signed_quantity (pos 0) ≡ false
    → lot.average_open_price ≡ some price
    → IsTidy lot
IsTidy-held lot price h e = record { held_is_priced = λ _. rw e; flat_is_empty = λ f. cc }

-- two quantities on one side of zero do not cancel
pub sum_nonzero : (a b : Quantity) → ltb_ℤ (pos 0) (a *ℤ b) ≡ true → eqb_ℤ (a +ℤ b) (pos 0) ≡ false
sum_nonzero a b h = ground (arith, mul_pos_cases a b h, +ℤ_parts a b)

module _ (divide : Cash → Quantity → Price) (account security_id : String) (multiplier : ℕ) where
  reduce_lot-IsTidy :
      (s : WalkState) (row : ActivityRow) (delta : Quantity) (price : Price)
      → IsTidy s.lot
      → eqb_ℤ s.lot.signed_quantity (pos 0) ≡ false
      → IsTidy (reduce_lot divide account security_id multiplier s row delta price).0.lot
  unfolding reduce_lot
  reduce_lot-IsTidy s row delta price t held = ground (arith, t.held_is_priced held)

  apply_delta-IsTidy :
      (s : WalkState) (row : ActivityRow) (delta : Quantity) (price : Price)
      → IsTidy s.lot
      → eqb_ℤ delta (pos 0) ≡ false
      → IsTidy (apply_delta divide account security_id multiplier s row delta price).0.lot
  unfolding apply_delta
  apply_delta-IsTidy s row delta price t moves =
      elim (Bool-cases (eqb_ℤ s.lot.signed_quantity (pos 0))) [
        | inl flat ↦ ground (arith, +ℤ_parts s.lot.signed_quantity delta)
        | inr held ↦ ground (
          arith,
          sum_nonzero s.lot.signed_quantity delta,
          reduce_lot-IsTidy s row delta price t held,
        )
      ]

  replay_effect-IsTidy :
      (s : WalkState) (row : ActivityRow) (delta : Quantity) (price : Option Price)
      → IsTidy s.lot
      → IsTidy (replay_effect divide account security_id multiplier s row (delta, price)).0.lot
  unfolding replay_effect
  replay_effect-IsTidy s row delta none t = t
  replay_effect-IsTidy s row delta (some price) t = elim (Bool-cases (eqb_ℤ delta (pos 0))) [
    | inl still ↦ rw still t
    | inr moves ↦ rw moves (apply_delta-IsTidy s row delta price t moves)
  ]

  -- The lot stays tidy over every row.
  pub replay_step-IsTidy :
      (s : WalkState) (row : ActivityRow)
      → IsTidy s.lot
      → IsTidy (replay_step divide account security_id multiplier s row).0.lot
  unfolding replay_step
  replay_step-IsTidy s row t =
      let (delta, price) = effective_delta_price row s.lot s.had_position in
      replay_effect-IsTidy s row delta price t

  -- Whatever the rows, from a tidy lot replay ends with a tidy one: a lot that holds something has an
  -- average price, and a flat one is fresh, with no price, opening order, realized value and fees.
  pub replay_rows-IsTidy :
      (s : WalkState) (rows : List ActivityRow)
      → IsTidy s.lot
      → IsTidy (replay_rows divide account security_id multiplier s rows).0.lot
  unfolding replay_rows
  replay_rows-IsTidy s [] t = t
  replay_rows-IsTidy s (row ∷ rows) t =
      replay_rows-IsTidy (replay_step divide account security_id multiplier s row).0 rows
        (replay_step-IsTidy s row t)
