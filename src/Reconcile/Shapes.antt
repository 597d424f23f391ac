-- ===== src/Reconcile/Shapes.antt =====
-- What the labels of `detect_strategy_type` say about the legs (tt_ledger/ingest/reconcile.py).
use tt_ledger.Base.{String, ◌*◌, Option-cases, ◌≡◌, ◌↔◌, true, false, [], ◌∷◌, inl, inr, arith}
use tt_ledger.Base.Int.{eqb_ℤ}
use tt_ledger.Base.Text.{eq_iff, opt_is}
use tt_ledger.Enums.{StrategyType}
use tt_ledger.Reconcile.Strategy.{
  LegInfo, same_type, same_expiry, same_strike, all_same, count_type, classify_two_leg,
  classify_four_leg,
}

opt_is-same_type :
    (a b : LegInfo) (t : String)
    → same_type a b ≡ true
    → opt_is b.option_type t ≡ opt_is a.option_type t
unfolding same_type
opt_is-same_type a b t h = elim (Option-cases a.option_type) [
  | inl p ↦ ground arith
  | inr (s, p) ↦ elim (Option-cases b.option_type) [
    | inl q ↦ ground arith
    | inr (u, q) ↦ ground (arith, eq_iff s u, eq_iff s t, eq_iff u t)
  ]
]

-- Two option legs are a vertical exactly when they share expiry, type and quantity and differ in
-- the strike.
pub classify_two_leg-vertical :
    (a b : LegInfo)
    → (classify_two_leg a b ≡ StrategyType.vertical) ↔ (
        (same_expiry a b ≡ true)
        × (same_type a b ≡ true)
        × (eqb_ℤ a.quantity b.quantity ≡ true)
        × (same_strike a b ≡ false))
unfolding classify_two_leg
classify_two_leg-vertical a b = (λ h. ground arith, λ h. ground arith)

-- Four legs are a condor exactly when they share the expiry and the option type: the strikes play
-- no part.
pub classify_four_leg-condor :
    (a b c d : LegInfo)
    → (classify_four_leg (a ∷ b ∷ c ∷ d ∷ []) ≡ StrategyType.condor) ↔ (
        (all_same same_expiry (a ∷ b ∷ c ∷ d ∷ []) ≡ true)
        × (all_same same_type (a ∷ b ∷ c ∷ d ∷ []) ≡ true))
unfolding classify_four_leg
classify_four_leg-condor a b c d = (
  λ h. ground arith,
  λ (e, t).
      let same_p : count_type "P" (a ∷ b ∷ c ∷ d ∷ []) ≡ 4 * count_type "P" (a ∷ []) =
        ground
          (arith, opt_is-same_type a b "P", opt_is-same_type a c "P", opt_is-same_type a d "P") in
      ground arith,
)
