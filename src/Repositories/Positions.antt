-- ===== src/Repositories/Positions.antt =====
-- The position repository's derived cash (tt_ledger/repositories/__init__.py).
use tt_ledger.Base.{String, Option, none, some, if◌then◌else◌}
use tt_ledger.Base.Int.{pos, neg, ◌-ℤ◌, ◌*ℤ◌}
use tt_ledger.Base.Text.{codes, strip, lower, or_empty}
use tt_ledger.Legs.{same_codes}
use tt_ledger.Rows.Units.{Cash}
use tt_ledger.Broker.{BrokerPosition}

unfoldable pub derive_unrealized_pnl : BrokerPosition → Option Cash
unfolding codes strip lower same_codes or_empty
derive_unrealized_pnl p = elim p.mark_price [
  | none ↦ none
  | some mark ↦ elim p.average_open_price [
    | none ↦ none
    | some average ↦
        let diff = mark -ℤ average in
        let short = same_codes (lower (strip (codes p.quantity_direction))) (codes "short") in
        some ((if short then neg diff else diff) *ℤ p.quantity *ℤ pos p.multiplier)
  ]
]

unfoldable pub apply_effect : Option Cash → Option String → Option Cash
unfolding codes strip lower same_codes or_empty
apply_effect none effect = none
apply_effect (some magnitude) effect = some (
    if same_codes (lower (strip (or_empty effect))) (codes "debit")
    then neg magnitude
    else magnitude)
