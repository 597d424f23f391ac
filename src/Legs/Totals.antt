-- ===== src/Legs/Totals.antt =====
-- What records of one leg add up to, apart from the fold (tt_ledger/rows.py,
-- `fold_open_group_legs`).
use tt_ledger.Base.{
  subst, AllOf, ◌⊎◌, not, sym, Bool-cases, ◌&&◌, ◌≡◌, ◌∙◌, refl, ap, Bool, none, some, List, [],
  ◌∷◌, get_or_else, if◌then◌else◌, inl, inr, Option-cases, arith,
}
use tt_ledger.Base.Assoc.{text_eq}
use tt_ledger.Base.Int.{ℤ, pos, ◌+ℤ◌, ◌-ℤ◌, ◌*ℤ◌, int_laws, max_ℤ_lem, max_ℤ, ◌≤ℤ◌, eq_of_parts}
use tt_ledger.Rows.Units.{Quantity, Cash, zero_decimal}
use tt_ledger.Replay.Rules.{is_to_close, is_sell}
use tt_ledger.Legs.{
  is_to_open, LegRecord, Slot, leg_key_eq, slot_step, is_position_removal, action_nets_as_trade,
}

-- a slot after the records of its leg
abbrev pub run : Slot → List LegRecord → Slot
run slot [] = slot
run slot (r ∷ rs) = run (slot_step slot r) rs

abbrev pub size_of : LegRecord → Quantity
size_of r = get_or_else r.quantity zero_decimal

-- the sum over the records that the test takes
abbrev pub total : (LegRecord → Bool) → (LegRecord → ℤ) → List LegRecord → ℤ
total p f [] = pos 0
total p f (r ∷ rs) = (if p r then f r else pos 0) +ℤ total p f rs

abbrev pub opens : LegRecord → Bool
opens r = is_to_open r.action

abbrev pub closes_leg : LegRecord → Bool
closes_leg r = not (is_to_open r.action) && is_to_close r.action

abbrev pub cost_of : LegRecord → Cash
cost_of r = elim r.price [ none ↦ pos 0 | some p ↦ p *ℤ size_of r ]

-- What the records of one leg add up to: the contracts traded, opened and opened short, and the cost
-- of the opened ones.
abbrev pub AddsUp : List LegRecord → Slot → Type 0
AddsUp rs slot =
    (slot.net ≡ total opens size_of rs -ℤ total closes_leg size_of rs)
    × (slot.open_qty ≡ total opens size_of rs)
    × (slot.signed_open
        ≡ total (λ r. opens r && not (is_sell r.action)) size_of rs
          -ℤ total (λ r. opens r && is_sell r.action) size_of rs)
    × (slot.notional ≡ total opens cost_of rs)

abbrev pub Adds : List LegRecord → Slot → Slot → Type 0
Adds rs before slot =
    (slot.net ≡ before.net +ℤ (total opens size_of rs -ℤ total closes_leg size_of rs))
    × (slot.open_qty ≡ before.open_qty +ℤ total opens size_of rs)
    × (slot.signed_open
        ≡ before.signed_open
          +ℤ (total (λ r. opens r && not (is_sell r.action)) size_of rs
              -ℤ total (λ r. opens r && is_sell r.action) size_of rs))
    × (slot.notional ≡ before.notional +ℤ total opens cost_of rs)

abbrev one : (LegRecord → Bool) → (LegRecord → ℤ) → LegRecord → ℤ
one p f r = if p r then f r else pos 0

-- one record
slot_step-Adds :
    (r : LegRecord) (slot : Slot)
    → ((slot_step slot r).net ≡ slot.net +ℤ (one opens size_of r -ℤ one closes_leg size_of r))
      × ((slot_step slot r).open_qty ≡ slot.open_qty +ℤ one opens size_of r)
      × ((slot_step slot r).signed_open
          ≡ slot.signed_open
            +ℤ (one (λ r. opens r && not (is_sell r.action)) size_of r
                -ℤ one (λ r. opens r && is_sell r.action) size_of r))
      × ((slot_step slot r).notional ≡ slot.notional +ℤ one opens cost_of r)
unfolding slot_step
slot_step-Adds r slot = elim (Bool-cases (is_to_open r.action)) [
  | inl opened ↦ elim (Option-cases r.price) [
    | inl unpriced ↦ elim (Bool-cases (is_sell r.action)) [
      | inl sold ↦
          rw (opened, unpriced, sold, slot_step)
            (omega int_laws, omega int_laws, omega int_laws, omega int_laws)
      | inr bought ↦
          rw (opened, unpriced, bought, slot_step)
            (omega int_laws, omega int_laws, omega int_laws, omega int_laws)
    ]
    | inr (p, priced) ↦ elim (Bool-cases (is_sell r.action)) [
      | inl sold ↦
          rw (opened, priced, sold, slot_step)
            (omega int_laws, omega int_laws, omega int_laws, refl)
      | inr bought ↦
          rw (opened, priced, bought, slot_step)
            (omega int_laws, omega int_laws, omega int_laws, refl)
    ]
  ]
  | inr more ↦ elim (Bool-cases (is_to_close r.action)) [
    | inl closed ↦
        rw (more, closed, slot_step)
          (omega int_laws, omega int_laws, omega int_laws, omega int_laws)
    | inr neither ↦ elim (Bool-cases (is_position_removal r.action r.transaction_sub_type)) [
      | inl removes ↦
          rw (more, neither, removes, slot_step)
            (omega int_laws, omega int_laws, omega int_laws, omega int_laws)
      | inr other ↦
          rw (more, neither, other, slot_step)
            (omega int_laws, omega int_laws, omega int_laws, omega int_laws)
    ]
  ]
]

assoc_one : (x d rest : ℤ) → x +ℤ d +ℤ rest ≡ x +ℤ (d +ℤ rest)
assoc_one x d rest = omega int_laws

assoc_two : (x a b p q : ℤ) → x +ℤ (a -ℤ b) +ℤ (p -ℤ q) ≡ x +ℤ ((a +ℤ p) -ℤ (b +ℤ q))
assoc_two x a b p q = omega int_laws

carry_one : (x d x' y rest : ℤ) → x' ≡ x +ℤ d → y ≡ x' +ℤ rest → y ≡ x +ℤ (d +ℤ rest)
carry_one x d x' y rest step more = more ∙ ap (λ z. z +ℤ rest) step ∙ assoc_one x d rest

carry_two :
    (x a b x' y p q : ℤ) → x' ≡ x +ℤ (a -ℤ b) → y ≡ x' +ℤ (p -ℤ q) → y ≡ x +ℤ ((a +ℤ p) -ℤ (b +ℤ q))
carry_two x a b x' y p q step more = more ∙ ap (λ z. z +ℤ (p -ℤ q)) step ∙ assoc_two x a b p q

pub run-Adds : (rs : List LegRecord) (slot : Slot) → Adds rs slot (run slot rs)
run-Adds [] slot = (omega int_laws, omega int_laws, omega int_laws, omega int_laws)
run-Adds (r ∷ rs) slot =
    let (net, open_qty, signed, cost) = run-Adds rs (slot_step slot r) in
    let (net', open_qty', signed', cost') = slot_step-Adds r slot in
    (
      carry_two slot.net _ _ _ _ _ _ net' net,
      carry_one slot.open_qty _ _ _ _ open_qty' open_qty,
      carry_two slot.signed_open _ _ _ _ _ _ signed' signed,
      carry_one slot.notional _ _ _ _ cost' cost,
    )

-- the contracts that a record removes by a settlement
abbrev pub removed_by : LegRecord → Quantity
removed_by r = if is_position_removal r.action r.transaction_sub_type then size_of r else pos 0

-- a record removes so many contracts
abbrev pub Removes : Quantity → List LegRecord → Type 0
Removes m [] = ⊥
Removes m (r ∷ rs) = (removed_by r ≡ m) ⊎ Removes m rs

-- the most contracts that one record removes, 0 where none does
abbrev pub IsLargest : List LegRecord → Quantity → Type 0
IsLargest rs m = AllOf (λ r. removed_by r ≤ℤ m) rs × ((m ≡ pos 0) ⊎ Removes m rs)

slot_step-largest :
    (slot : Slot) (r : LegRecord)
    → pos 0 ≤ℤ slot.removal
    → (slot_step slot r).removal ≡ max_ℤ slot.removal (removed_by r)
unfolding slot_step is_position_removal action_nets_as_trade max_ℤ
slot_step-largest slot r least = ground (arith, eq_of_parts slot.removal (pos 0))

ℤ_trans : (a b c : ℤ) → a ≤ℤ b → b ≤ℤ c → a ≤ℤ c
ℤ_trans a b c p q = omega arith

pub run-largest :
    (rs : List LegRecord) (slot : Slot)
    → pos 0 ≤ℤ slot.removal
    → (slot.removal ≤ℤ (run slot rs).removal)
      × (AllOf (λ r. removed_by r ≤ℤ (run slot rs).removal) rs)
      × (((run slot rs).removal ≡ slot.removal) ⊎ Removes (run slot rs).removal rs)
run-largest [] slot least = (omega arith, tt, inl refl)
run-largest (r ∷ rs) slot least =
    let step = slot_step-largest slot r least in
    let after = slot_step slot r in
    let final = run after rs in
    elim (max_ℤ_lem slot.removal (removed_by r)) [
      | inl (kept, below) ↦
          let same = step ∙ kept in
          let (grows, bounds, which) =
            run-largest rs after (subst (λ q. pos 0 ≤ℤ q) (sym same) least) in
          let grows' = subst (λ q. q ≤ℤ final.removal) same grows in
          (
            grows',
            (ℤ_trans (removed_by r) slot.removal final.removal below grows', bounds),
            elim which [ inl e ↦ inl (e ∙ same) | inr removed ↦ inr (inr removed) ],
          )
      | inr (taken, above) ↦
          let same = step ∙ taken in
          let (grows, bounds, which) =
            run-largest rs after (subst (λ q. pos 0 ≤ℤ q) (sym same) (omega arith)) in
          let grows' = subst (λ q. q ≤ℤ final.removal) same grows in
          (
            ℤ_trans slot.removal (removed_by r) final.removal (omega arith) grows',
            (grows', bounds),
            elim which [ inl e ↦ inr (inl (sym (e ∙ same))) | inr removed ↦ inr (inr removed) ],
          )
    ]
