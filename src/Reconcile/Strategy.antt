-- ===== src/Reconcile/Strategy.antt =====
-- The classification of a group's legs (tt_ledger/ingest/reconcile.py, `detect_strategy_type`).
-- A label stands for the text that `strategy_type_value` gives it.
use tt_ledger.Base.{
  ℕ, ◌+◌, String, Bool, true, false, ◌&&◌, ◌||◌, not, Option, none, some, List, [], ◌∷◌, length,
  eqb, all_of, any_of, select, if◌then◌else◌,
}
use tt_ledger.Base.Int.{eqb_ℤ}
use tt_ledger.Base.Text.{str_eq, opt_is, member}
use tt_ledger.Enums.{StrategyType}
use tt_ledger.Rows.Units.{Date, Price, Quantity}
use tt_ledger.Reconcile.Rules.{option_product_types}

pub record LegInfo : Type 0 where
  pub product_type : String
  pub option_type : Option String
  pub expiry : Option Date
  pub strike : Option Price
  pub quantity : Quantity

-- Python's `==` on optional values
unfoldable pub same_type : LegInfo → LegInfo → Bool
same_type a b = elim a.option_type [
  | none ↦ elim b.option_type [ none ↦ true | some _ ↦ false ]
  | some s ↦ elim b.option_type [ none ↦ false | some t ↦ str_eq s t ]
]

unfoldable pub same_expiry : LegInfo → LegInfo → Bool
same_expiry a b = elim a.expiry [
  | none ↦ elim b.expiry [ none ↦ true | some _ ↦ false ]
  | some s ↦ elim b.expiry [ none ↦ false | some t ↦ eqb s t ]
]

unfoldable pub same_strike : LegInfo → LegInfo → Bool
same_strike a b = elim a.strike [
  | none ↦ elim b.strike [ none ↦ true | some _ ↦ false ]
  | some s ↦ elim b.strike [ none ↦ false | some t ↦ eqb_ℤ s t ]
]

abbrev pub is_option : LegInfo → Bool
is_option leg = member leg.product_type option_product_types

abbrev pub is_future : LegInfo → Bool
is_future leg = str_eq leg.product_type "F"

-- `_same({f(leg) for leg in legs})`, for an equality of the field
abbrev pub all_same : (LegInfo → LegInfo → Bool) → List LegInfo → Bool
all_same eq [] = false
all_same eq (leg ∷ legs) = all_of (eq leg) legs

-- `len({f(leg) for leg in legs}) == len(legs)`
abbrev pub all_distinct : (LegInfo → LegInfo → Bool) → List LegInfo → Bool
all_distinct eq [] = true
all_distinct eq (leg ∷ legs) = not (any_of (eq leg) legs) && all_distinct eq legs

-- `types.count(t)`
abbrev pub count_type : String → List LegInfo → ℕ
count_type t [] = 0
count_type t (leg ∷ legs) = (if opt_is leg.option_type t then 1 else 0) + count_type t legs

unfoldable pub classify_two_leg : LegInfo → LegInfo → StrategyType
classify_two_leg a b =
    let expiry = same_expiry a b in
    let strike = same_strike a b in
    let type = same_type a b in
    if expiry && type && not (eqb_ℤ a.quantity b.quantity)
    then StrategyType.ratio
    else if expiry && strike && not type
    then StrategyType.straddle
    else if expiry && not strike && not type
    then StrategyType.strangle
    else if expiry && type && not strike
    then StrategyType.vertical
    else if not expiry && strike && type
    then StrategyType.calendar
    else if not expiry && not strike && type
    then StrategyType.diagonal
    else StrategyType.custom

unfoldable pub classify_three_leg : List LegInfo → StrategyType
classify_three_leg legs =
    if all_same same_expiry legs && all_same same_type legs
    then StrategyType.butterfly
    else StrategyType.custom

unfoldable pub classify_four_leg : List LegInfo → StrategyType
classify_four_leg legs =
    if not (all_same same_expiry legs)
    then StrategyType.custom
    else if eqb (count_type "P" legs) 2 && eqb (count_type "C" legs) 2
    then (if all_distinct same_strike legs
        then StrategyType.iron_condor
        else StrategyType.iron_butterfly)
    else if all_same same_type legs
    then StrategyType.condor
    else StrategyType.custom

-- `{leg.option_type for leg in legs} == {"P", "C"}`
abbrev pub is_put_and_call : List LegInfo → Bool
is_put_and_call legs =
    all_of (λ leg. opt_is leg.option_type "P" || opt_is leg.option_type "C") legs
    && any_of (λ leg. opt_is leg.option_type "P") legs
    && any_of (λ leg. opt_is leg.option_type "C") legs

unfoldable pub classify_mixed : List LegInfo → List LegInfo → StrategyType
classify_mixed options others =
    if eqb (length others) 1
      && eqb (length options) 2
      && all_same same_expiry options
      && is_put_and_call options
    then StrategyType.collar
    else if eqb (length others) 1 && eqb (length options) 1
    then StrategyType.covered
    else StrategyType.custom

unfoldable pub classify_options : List LegInfo → StrategyType
unfolding classify_two_leg classify_three_leg classify_four_leg
classify_options (a ∷ b ∷ []) = classify_two_leg a b
classify_options (a ∷ b ∷ c ∷ []) = classify_three_leg (a ∷ b ∷ c ∷ [])
classify_options (a ∷ b ∷ c ∷ d ∷ []) = classify_four_leg (a ∷ b ∷ c ∷ d ∷ [])
classify_options _ = StrategyType.custom

abbrev pub is_nil : List LegInfo → Bool
is_nil [] = true
is_nil (_ ∷ _) = false

-- the legs of a structure of two or more
unfoldable pub classify_legs : List LegInfo → StrategyType
unfolding classify_mixed classify_options
classify_legs legs =
    let options = select is_option legs in
    let others = select (λ leg. not (is_option leg)) legs in
    if not (is_nil others) && not (is_nil options)
    then classify_mixed options others
    else if is_nil options
    then (if all_of is_future legs then StrategyType.future_spread else StrategyType.custom)
    else classify_options options

unfoldable pub detect_strategy_type : List LegInfo → StrategyType
unfolding classify_legs
detect_strategy_type [] = StrategyType.custom
detect_strategy_type (leg ∷ []) = if is_future leg then StrategyType.future else StrategyType.single
detect_strategy_type (a ∷ b ∷ legs) = classify_legs (a ∷ b ∷ legs)
