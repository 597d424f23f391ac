-- ===== src/Reconcile/Clamp.antt =====
-- A group's close drives its net towards zero and stops there
-- (tt_ledger/ingest/reconcile.py, `_group_net_step` and the walks over it).
use tt_ledger.Base.{
  ◌≤◌, String, ◌≡◌, refl, true, false, ◌||◌, not, some, List, [], ◌∷◌, AllOf, if◌then◌else◌, inl,
  inr, Bool-cases, Option-cases, arith,
}
use tt_ledger.Base.Assoc.{lookup, insert, text_eq, lookup-insert}
use tt_ledger.Base.Int.{pos, pos_part, neg_part, abs, min_ℤ, eqb_ℤ, ◌+ℤ◌, ◌-ℤ◌, ◌≤ℤ◌}
use tt_ledger.Rows.{ActivityRow}
use tt_ledger.Rows.Units.{Quantity}
use tt_ledger.Replay.Rules.{is_sell, quantity_of}
use tt_ledger.Reconcile.Rules.{is_closing, action_delta, ordered_position_rows}
use tt_ledger.Reconcile.Nets.{
  clamp_close, group_net_step, Nets, net_at, security_of, net_row, net_all, net_quantities,
}

-- Moved towards zero, and not past it.
abbrev pub Shrinks : Quantity → Quantity → Type 0
Shrinks from to = (pos_part to ≤ pos_part from) × (neg_part to ≤ neg_part from)

pub clamp_close-Shrinks : (current size : Quantity) → Shrinks current (clamp_close current size)
unfolding clamp_close abs min_ℤ ◌+ℤ◌ ◌-ℤ◌
clamp_close-Shrinks current size = ground arith

-- A row that closes, by its action or as a settlement, moves a group's net towards zero and never
-- past it, whatever its own quantity; against a net of zero it moves nothing.
pub group_net_step-Shrinks :
    (current next : Quantity) (row : ActivityRow)
    → is_closing row ≡ true
    → group_net_step current row ≡ some next
    → Shrinks current next × (eqb_ℤ current (pos 0) ≡ false)
unfolding group_net_step is_closing
group_net_step-Shrinks current next row c e = ground (
  arith,
  clamp_close-Shrinks current (quantity_of row),
  clamp_close-Shrinks current (action_delta row),
)

-- A row that only closes leaves an empty book empty.
net_row_closing : (row : ActivityRow) → is_closing row ≡ true → net_row [] row ≡ []
unfolding net_row group_net_step is_closing lookup
net_row_closing row c = ground arith

net_all_closing :
    (rows : List ActivityRow) → AllOf (λ r. is_closing r ≡ true) rows → net_all [] rows ≡ []
unfolding net_all
net_all_closing [] h = refl
net_all_closing (row ∷ rows) h = rw (net_row_closing row h.0) (net_all_closing rows h.1)

-- `_net_quantities` of a membership of nothing but closes and settlements is empty: such a group
-- never held anything, and no close makes it go short.
pub net_quantities_closing :
    (rows : List ActivityRow)
    → AllOf (λ r. is_closing r ≡ true) (ordered_position_rows rows)
    → net_quantities rows ≡ []
unfolding net_quantities
net_quantities_closing rows all = net_all_closing (ordered_position_rows rows) all

-- The row opens on the long side or closes: it is no sale but by a closing action or a settlement.
abbrev pub OpensLong : ActivityRow → Type 0
OpensLong row = (is_closing row || not (is_sell row.action)) ≡ true

abbrev pub NoneShort : Nets → Type 0
NoneShort nets = (sid : String) → neg_part (net_at nets sid) ≡ 0

long_add :
    (current : Quantity) (row : ActivityRow)
    → neg_part current ≡ 0
    → is_sell row.action ≡ false
    → neg_part (current +ℤ action_delta row) ≡ 0
unfolding action_delta abs ◌+ℤ◌
long_add current row h b = ground arith

step_buy :
    (current next : Quantity) (row : ActivityRow)
    → is_closing row ≡ false
    → is_sell row.action ≡ false
    → neg_part current ≡ 0
    → group_net_step current row ≡ some next
    → neg_part next ≡ 0
unfolding group_net_step is_closing
step_buy current next row c b h e =
    ground (arith, long_add current row h b, clamp_close-Shrinks current (action_delta row))

step_long :
    (current next : Quantity) (row : ActivityRow)
    → OpensLong row
    → neg_part current ≡ 0
    → group_net_step current row ≡ some next
    → neg_part next ≡ 0
step_long current next row o h e = elim (Bool-cases (is_closing row)) [
  | inl c ↦ omega (arith, (group_net_step-Shrinks current next row c e).0)
  | inr open_row ↦ elim (Bool-cases (is_sell row.action)) [
    | inl sale ↦ absurd (ground arith)
    | inr buy ↦ step_buy current next row open_row buy h e
  ]
]

-- the net of a security after a write
pub net_at-insert :
    (nets : Nets) (k sid : String) (q : Quantity)
    → net_at (insert k q nets) sid ≡ (if text_eq.beq k sid then q else net_at nets sid)
net_at-insert nets k sid q = rw lookup-insert (ground arith)

net_row_long :
    (nets : Nets) (row : ActivityRow)
    → OpensLong row
    → NoneShort nets
    → NoneShort (net_row nets row)
unfolding net_row
net_row_long nets row o h sid =
    elim (Option-cases (group_net_step (net_at nets (security_of row)) row)) [
      | inl still ↦ rw (still, net_row) (h sid)
      | inr (next, e) ↦
          rw (e, net_row, net_at-insert nets (security_of row) sid next)
            (ground (
              arith,
              h sid,
              step_long (net_at nets (security_of row)) next row o (h (security_of row)) e,
            ))
    ]

net_all_long :
    (nets : Nets) (rows : List ActivityRow)
    → AllOf OpensLong rows
    → NoneShort nets
    → NoneShort (net_all nets rows)
unfolding net_all
net_all_long nets [] o h = h
net_all_long nets (row ∷ rows) o h =
    net_all_long (net_row nets row) rows o.1 (net_row_long nets row o.0 h)

-- A group that only ever bought to open is short nowhere, however many closes land on it and
-- however large they are.
pub net_quantities_long :
    (rows : List ActivityRow)
    → AllOf OpensLong (ordered_position_rows rows)
    → (sid : String) → pos 0 ≤ℤ net_at (net_quantities rows) sid
unfolding net_quantities lookup
net_quantities_long rows o sid =
    omega (arith, net_all_long [] (ordered_position_rows rows) o (λ _. refl) sid)
