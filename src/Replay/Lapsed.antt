-- ===== src/Replay/Lapsed.antt =====
-- What a lapse writes, and what it leaves out (tt_ledger/ingest/replay.py, `_lapse_expired_lot`).
use tt_ledger.Base.{
  if◌then◌else◌, Bool-cases, inl, inr, ℕ, sym, String, ◌≡◌, refl, true, false, ◌∙◌, ap, Option,
  none, List, [], ◌∷◌, ◌++◌, arith,
}
use tt_ledger.Base.Int.{
  ℤ, pos, neg, abs, min_ℤ, ltb_ℤ, eqb_ℤ, ◌+ℤ◌, zero_+ℤ, +ℤ_parts, neg_parts, int_laws,
}
use tt_ledger.Base.Text.{str_eq}
use tt_ledger.Rows.{ActivityRow, PositionRow}
use tt_ledger.Rows.Units.{Instant, Date, Quantity, Price, Cash, zero_decimal}
use tt_ledger.Replay.Rules.{Lot, fees_of}
use tt_ledger.Replay.Walk.{
  PlanEntry, WalkState, direction_of, sign_of, close_value, closed_row, reduce_lot,
}
use tt_ledger.Replay.Books.{closed_fees, plan_fees}
use tt_ledger.Replay.Realized.{closed_realized, plan_realized}
use tt_ledger.Replay.Lapse.{lapse_value, lapsed_row, has_lapsed, lapse_expired_lot}

assoc_+ℤ : (a b c : ℤ) → a +ℤ b +ℤ c ≡ a +ℤ (b +ℤ c)
assoc_+ℤ a b c = omega int_laws

plan_fees-append :
    (plan rest : List PlanEntry) → plan_fees (plan ++ rest) ≡ plan_fees plan +ℤ plan_fees rest
plan_fees-append [] rest = sym (zero_+ℤ (plan_fees rest))
plan_fees-append (e ∷ plan) rest =
    ap (λ x. closed_fees e +ℤ x) (plan_fees-append plan rest)
    ∙ sym (assoc_+ℤ (closed_fees e) (plan_fees plan) (plan_fees rest))

plan_realized-append :
    (plan rest : List PlanEntry)
    → plan_realized (plan ++ rest) ≡ plan_realized plan +ℤ plan_realized rest
plan_realized-append [] rest = sym (zero_+ℤ (plan_realized rest))
plan_realized-append (e ∷ plan) rest =
    ap (λ x. closed_realized e +ℤ x) (plan_realized-append plan rest)
    ∙ sym (assoc_+ℤ (closed_realized e) (plan_realized plan) (plan_realized rest))

skip_lapse :
    (account security_id : String) (position : PositionRow) (plan : List PlanEntry)
    (expiry : Option Date) (multiplier : ℕ) (last : Option Instant)
    → has_lapsed position expiry last ≡ false
    → lapse_expired_lot account security_id position plan expiry multiplier last ≡ (position, plan)
unfolding lapse_expired_lot
skip_lapse account security_id position plan expiry multiplier last h = rw h

min_ℤ-abs : (q : Quantity) → min_ℤ (abs (neg q)) (abs q) ≡ abs q
unfolding min_ℤ abs neg
min_ℤ-abs q = ground arith

sign_of-direction :
    (q : Quantity) → (if str_eq (direction_of q) "Long" then pos 1 else ℤ.negsuc 0) ≡ sign_of q
sign_of-direction q = elim (Bool-cases (ltb_ℤ (pos 0) q)) [
  | inl long ↦ rw long refl
  | inr short ↦ rw short refl
]

back_to_zero : (q : Quantity) → eqb_ℤ (q +ℤ neg q) (pos 0) ≡ true
back_to_zero q = ground (arith, +ℤ_parts q (neg q), neg_parts q)

move_over_same : (r p x : Cash) → r +ℤ (p +ℤ (x +ℤ pos 0)) ≡ p +ℤ (r +ℤ x +ℤ pos 0)
move_over_same r p x = omega int_laws

move_over : (r p x y : Cash) → x ≡ y → r +ℤ (p +ℤ (x +ℤ pos 0)) ≡ p +ℤ (r +ℤ y +ℤ pos 0)
move_over r p x y e = move_over_same r p x ∙ ap (λ z. p +ℤ (r +ℤ z +ℤ pos 0)) e

move_fees : (f p : Cash) → f +ℤ (p +ℤ (pos 0 +ℤ pos 0)) ≡ p +ℤ (f +ℤ pos 0)
move_fees f p = omega int_laws

-- The position is what replay writes for the lot.
abbrev pub IsPositionOf : Lot → PositionRow → Type 0
IsPositionOf lot position =
    (position.quantity ≡ abs lot.signed_quantity)
    × (position.quantity_direction ≡ direction_of lot.signed_quantity)
    × (position.average_open_price ≡ lot.average_open_price)

lapse_value-close_value :
    (lot : Lot) (position : PositionRow) (multiplier : ℕ)
    → IsPositionOf lot position
    → lapse_value position multiplier
      ≡ close_value multiplier lot (neg lot.signed_quantity) zero_decimal
unfolding lapse_value close_value
lapse_value-close_value lot position multiplier (size, direction, average) =
    rw
      (
        size,
        direction,
        average,
        sign_of-direction lot.signed_quantity,
        min_ℤ-abs lot.signed_quantity,
      )
      refl

module _ (account security_id : String) (position : PositionRow) (plan : List PlanEntry)
    (expiry : Option Date) (multiplier : ℕ) (last : Option Instant) where
  -- A lot that lapses, whose position is the one that replay writes for it, is flat afterwards, with
  -- no average, no opening order and no opening instant. Compared with a row that closes all of the
  -- lot at a price of zero, long or short, its plan books less by exactly what the lot had realized
  -- before, and less fees by those of the lot and of that row.
  pub lapse-books :
      (divide : Cash → Quantity → Price) (s : WalkState) (row : ActivityRow)
      → IsPositionOf s.lot position
      → has_lapsed position expiry last ≡ true
      → let (p, plan') =
          lapse_expired_lot account security_id position plan expiry multiplier last in
        let (_, closing) =
          reduce_lot divide account security_id multiplier s row
            (neg s.lot.signed_quantity)
            zero_decimal in
        (p.quantity ≡ pos 0)
        × (p.average_open_price ≡ none)
        × (p.opening_order_id ≡ none)
        × (p.position_opened_at ≡ none)
        × (s.lot.realized_pnl +ℤ plan_realized plan' ≡ plan_realized (plan ++ closing ∷ []))
        × (s.lot.fees +ℤ fees_of row +ℤ plan_fees plan' ≡ plan_fees (plan ++ closing ∷ []))
  unfolding lapse_expired_lot lapsed_row reduce_lot closed_row
  lapse-books divide s row written h =
      rw (h, back_to_zero s.lot.signed_quantity)
        (
          refl,
          refl,
          refl,
          refl,
          ap (λ x. s.lot.realized_pnl +ℤ x) (plan_realized-append plan _)
              ∙ move_over s.lot.realized_pnl (plan_realized plan) _ _
                  (lapse_value-close_value s.lot position multiplier written)
              ∙ sym (plan_realized-append plan _),
          ap (λ x. s.lot.fees +ℤ fees_of row +ℤ x) (plan_fees-append plan _)
              ∙ move_fees (s.lot.fees +ℤ fees_of row) (plan_fees plan)
              ∙ sym (plan_fees-append plan _),
        )

  flat-has_lapsed :
      has_lapsed
        (lapse_expired_lot account security_id position plan expiry multiplier last).0
        expiry
        last
      ≡ false
  unfolding lapse_expired_lot
  flat-has_lapsed = ground arith

  -- Lapsing twice is lapsing once, and a lot that has not lapsed stays as it is.
  pub lapse-idempotent :
      let once = lapse_expired_lot account security_id position plan expiry multiplier last in
      lapse_expired_lot account security_id once.0 once.1 expiry multiplier last ≡ once
  lapse-idempotent =
      let once = lapse_expired_lot account security_id position plan expiry multiplier last in
      skip_lapse account security_id once.0 once.1 expiry multiplier last flat-has_lapsed
