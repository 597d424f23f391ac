-- ===== src/Repositories/Quantities.antt =====
-- What an order's legs say of the order (tt_ledger/repositories/__init__.py, `_vwap` and
-- `order_level_fill_fields`). The decimal library divides; a contract is `unit` of a quantity.
use tt_ledger.Base.{
  ℕ, zero, suc, ◌/◌, ◌%◌, String, Bool, not, ◌||◌, Option, none, some, List, [], ◌∷◌, eqb,
  if◌then◌else◌,
}
use tt_ledger.Base.Int.{pos, neg, ltb_ℤ, leb_ℤ, eqb_ℤ, pos_part, ◌+ℤ◌, ◌*ℤ◌}
use tt_ledger.Base.Text.{codes, lower, starts_with, opt_is}
use tt_ledger.Rows.Units.{Quantity, Price, Cash, zero_decimal}
use tt_ledger.Broker.{PlacedFill, PlacedLeg}
use tt_ledger.Reconcile.Members.{sum_of}
use tt_ledger.Repositories.Orders.{FillFields}

-- `math.gcd` by Euclid's algorithm: fuel above the second argument is enough
unfoldable pub gcd_on : ℕ → ℕ → ℕ → ℕ
gcd_on zero a b = a
gcd_on (suc fuel) a b = let rest = gcd_on fuel b (a % b) in if eqb b 0 then a else rest

unfoldable pub gcd : ℕ → ℕ → ℕ
unfolding gcd_on
gcd a b = gcd_on (suc b) a b

abbrev pub no_fill_fields : FillFields
no_fill_fields = record {
  average_fill_price = none;
  filled_quantity = none;
  remaining_quantity = none;
}

-- `sum((f.quantity for f in leg.fills), Decimal("0"))`
unfoldable pub filled_in : List PlacedFill → Quantity
filled_in = sum_of (λ (f : PlacedFill). f.quantity)

-- the contracts of each leg, where all are positive and whole
unfoldable pub whole_quantities : ℕ → List PlacedLeg → Option (List ℕ)
whole_quantities unit [] = some []
whole_quantities unit (leg ∷ legs) =
    if leb_ℤ leg.quantity (pos 0) || not (eqb (pos_part leg.quantity % unit) 0)
    then none
    else elim (whole_quantities unit legs) [
      | none ↦ none
      | some ks ↦ some (pos_part leg.quantity / unit ∷ ks)
    ]

-- `reduce(gcd, quantities)`
unfoldable pub structure_units : ℕ → List ℕ → ℕ
unfolding gcd
structure_units k [] = k
structure_units k (k' ∷ ks) = structure_units (gcd k k') ks

-- each leg with its ratio, `Decimal(q) // units`
unfoldable pub with_ratios : ℕ → List PlacedLeg → List ℕ → List (PlacedLeg × ℕ)
with_ratios units (leg ∷ legs) (k ∷ ks) = (leg, k / units) ∷ with_ratios units legs ks
with_ratios units _ _ = []

module _ (unit : ℕ) (divide : Cash → Quantity → Price) (share : Quantity → ℕ → Quantity) where
  unfoldable pub vwap : List PlacedFill → Option Price
  unfolding filled_in
  vwap [] = none
  vwap (f ∷ fills) =
      let total = filled_in (f ∷ fills) in
      if eqb_ℤ total (pos 0)
      then none
      else some (divide (sum_of (λ (g : PlacedFill). g.quantity *ℤ g.fill_price) (f ∷ fills)) total)

  -- `min` and `max` over the legs, from the first one's value on
  unfoldable pub filled_units : Quantity → List (PlacedLeg × ℕ) → Quantity
  unfolding filled_in
  filled_units least [] = least
  filled_units least ((leg, ratio) ∷ legs) =
      let filled = share (filled_in leg.fills) ratio in
      filled_units (if ltb_ℤ filled least then filled else least) legs

  unfoldable pub remaining_units : Quantity → List (PlacedLeg × ℕ) → Quantity
  remaining_units most [] = most
  remaining_units most ((leg, ratio) ∷ legs) =
      let remaining = share leg.remaining_quantity ratio in
      remaining_units (if ltb_ℤ most remaining then remaining else most) legs

  abbrev pub is_sell : PlacedLeg → Bool
  is_sell leg = starts_with (lower (codes leg.action)) (codes "sell")

  -- the net of one unit: none until every leg has fills
  unfoldable pub net_price : List (PlacedLeg × ℕ) → Option Price
  unfolding vwap codes lower starts_with
  net_price [] = some zero_decimal
  net_price ((leg, ratio) ∷ legs) = elim (vwap leg.fills) [
    | none ↦ none
    | some price ↦ elim (net_price legs) [
      | none ↦ none
      | some net ↦
          let part = price *ℤ pos ratio in some ((if is_sell leg then part else neg part) +ℤ net)
    ]
  ]

  -- `-net` for a debit
  abbrev pub on_axis : Option String → Option Price → Option Price
  on_axis effect none = none
  on_axis effect (some net) = if opt_is effect "Debit" then some (neg net) else some net

  unfoldable pub unit_fields : Option String → List (PlacedLeg × ℕ) → FillFields
  unfolding filled_units remaining_units net_price
  unit_fields effect [] = no_fill_fields
  unit_fields effect ((leg, ratio) ∷ legs) = record {
    average_fill_price = on_axis effect (net_price ((leg, ratio) ∷ legs));
    filled_quantity = some (filled_units (share (filled_in leg.fills) ratio) legs);
    remaining_quantity = some (remaining_units (share leg.remaining_quantity ratio) legs);
  }

  unfoldable pub order_level_fill_fields : List PlacedLeg → Option String → FillFields
  unfolding vwap filled_in whole_quantities structure_units with_ratios unit_fields
  order_level_fill_fields [] effect = no_fill_fields
  order_level_fill_fields (leg ∷ []) effect = record {
    average_fill_price = vwap leg.fills;
    filled_quantity = some (filled_in leg.fills);
    remaining_quantity = some leg.remaining_quantity;
  }
  order_level_fill_fields (leg ∷ leg' ∷ legs) effect =
      elim (whole_quantities unit (leg ∷ leg' ∷ legs)) [
        | none ↦ no_fill_fields
        | some [] ↦ no_fill_fields
        | some (k ∷ ks) ↦
            unit_fields effect (with_ratios (structure_units k ks) (leg ∷ leg' ∷ legs) (k ∷ ks))
      ]
