-- ===== src/Replay/Steps.antt =====
-- What one row does to the running quantity of a lot.
use tt_ledger.Base.{ℕ, String, ◌≡◌, true, false, arith}
use tt_ledger.Base.Int.{pos, abs, neg, min_ℤ, ◌+ℤ◌, eqb_ℤ, eq_of_parts}
use tt_ledger.Rows.{ActivityRow}
use tt_ledger.Rows.Units.{Quantity, Price, Cash}
use tt_ledger.Replay.Rules.{offset, signed_delta}
use tt_ledger.Replay.Walk.{WalkState, apply_delta, reduce_lot}

pub offset_nonzero :
    (quantity held : Quantity)
    → eqb_ℤ quantity (pos 0) ≡ false
    → eqb_ℤ held (pos 0) ≡ false
    → eqb_ℤ (offset quantity held) (pos 0) ≡ false
unfolding offset abs min_ℤ neg
offset_nonzero quantity held hq hh = ground arith

pub signed_delta_nonzero :
    (quantity : Quantity) (row : ActivityRow)
    → eqb_ℤ quantity (pos 0) ≡ false
    → eqb_ℤ (signed_delta row.action quantity) (pos 0) ≡ false
unfolding signed_delta neg
signed_delta_nonzero quantity row h = ground arith

module _ (divide : Cash → Quantity → Price) (account security_id : String) (multiplier : ℕ) where
  pub apply_delta-quantity :
      (s : WalkState) (row : ActivityRow) (delta : Quantity) (price : Price)
      → (apply_delta divide account security_id multiplier s row delta price).0.lot.signed_quantity
        ≡ s.lot.signed_quantity +ℤ delta
  unfolding apply_delta reduce_lot
  apply_delta-quantity s row delta price =
      ground (arith, eq_of_parts (pos 0) (s.lot.signed_quantity +ℤ delta))

  pub apply_delta-had_position :
      (s : WalkState) (row : ActivityRow) (delta : Quantity) (price : Price)
      → (apply_delta divide account security_id multiplier s row delta price).0.had_position ≡ true
  unfolding apply_delta reduce_lot
  apply_delta-had_position s row delta price = ground arith
