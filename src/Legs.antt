-- ===== src/Legs.antt =====
-- The stake of each open group in each security, folded from the group's own transactions
-- (tt_ledger/rows.py, `fold_open_group_legs`). `divide` is the rounding division of cash by a
-- quantity, and `unit` the count of a quantity that is one contract.

pub mod Totals
pub mod Basis
use tt_ledger.Base.{
  ap, ℕ, String, Bool, true, false, ◌&&◌, ◌||◌, not, Option, none, some, List, [], ◌∷◌, get_or_else,
  if◌then◌else◌, eqb, arith, ◌≡◌, ◌↔◌, eqb_iff,
}
use tt_ledger.Base.Assoc.{Eq, Assoc, lookup, insert}
use tt_ledger.Base.Int.{ℤ, pos, neg, ltb_ℤ, eqb_ℤ, max_ℤ, trunc, ◌+ℤ◌, ◌-ℤ◌, ◌*ℤ◌}
use tt_ledger.Base.Text.{
  codes, strip, lower, starts_with, ends_with, or_empty, member, str_eq, eq_iff,
}
use tt_ledger.Rows.{OpenGroupLegRow}
use tt_ledger.Rows.Units.{Quantity, Price, Cash, zero_decimal}
use tt_ledger.Replay.Rules.{is_to_close, is_sell, settlement_subtypes}

-- `verb.endswith("to Open")` for `verb = (action or "").strip()`
unfoldable pub is_to_open : Option String → Bool
unfolding codes strip ends_with or_empty
is_to_open action = ends_with (strip (or_empty action)) (codes "to Open")

unfoldable pub action_nets_as_trade : Option String → Bool
action_nets_as_trade action = is_to_open action || is_to_close action

unfoldable pub same_codes : List ℕ → List ℕ → Bool
same_codes [] [] = true
same_codes (c ∷ a) (d ∷ b) = eqb c d && same_codes a b
same_codes _ _ = false

-- `(text or "").strip() in {…}`
unfoldable pub strips_to : Option String → List String → Bool
unfolding codes strip or_empty same_codes
strips_to text [] = false
strips_to text (s ∷ rest) = same_codes (strip (or_empty text)) (codes s) || strips_to text rest

unfoldable pub is_position_removal : Option String → Option String → Bool
is_position_removal action sub_type =
    not (action_nets_as_trade action) && strips_to sub_type settlement_subtypes

-- one of the records that both stores hand to the fold
pub record LegRecord : Type 0 where
  pub account : String
  pub security_id : Option String
  pub trade_group_id : Option ℕ
  pub action : Option String
  pub transaction_sub_type : Option String
  pub quantity : Option Quantity
  pub price : Option Price

pub record LegKey : Type 0 where
  pub account : String
  pub security_id : String
  pub trade_group_id : ℕ

abbrev pub key_eq : LegKey → LegKey → Bool
key_eq a b =
    str_eq a.account b.account
    && str_eq a.security_id b.security_id
    && eqb a.trade_group_id b.trade_group_id

pub key_eq_iff : (a b : LegKey) → (key_eq a b ≡ true) ↔ (a ≡ b)
key_eq_iff a b =
    let accounts = eq_iff a.account b.account in
    let securities = eq_iff a.security_id b.security_id in
    (
      λ h. ground arith,
      λ e. ground (
        arith,
        ap (λ (k : LegKey). k.account) e,
        ap (λ (k : LegKey). k.security_id) e,
        ap (λ (k : LegKey). k.trade_group_id) e,
      ),
    )

instance abbrev pub leg_key_eq : Eq LegKey
leg_key_eq = record { beq = key_eq; beq_iff = key_eq_iff }

-- traded net, opening quantity, Σ price × quantity, signed opening quantity, settlement removal
pub record Slot : Type 0 where
  pub net : Quantity
  pub open_qty : Quantity
  pub notional : Cash
  pub signed_open : Quantity
  pub removal : Quantity

abbrev pub empty_slot : Slot
empty_slot = record {
  net = zero_decimal;
  open_qty = zero_decimal;
  notional = zero_decimal;
  signed_open = zero_decimal;
  removal = zero_decimal;
}

unfoldable pub slot_step : Slot → LegRecord → Slot
slot_step slot r =
    let qty = get_or_else r.quantity zero_decimal in
    if is_to_open r.action
    then record slot {
      net = slot.net +ℤ qty;
      open_qty = slot.open_qty +ℤ qty;
      signed_open = slot.signed_open +ℤ (if is_sell r.action then neg qty else qty);
      notional = elim r.price [ none ↦ slot.notional | some p ↦ slot.notional +ℤ p *ℤ qty ];
    }
    else if is_to_close r.action
    then record slot { net = slot.net -ℤ qty }
    else if is_position_removal r.action r.transaction_sub_type
    then record slot { removal = max_ℤ slot.removal qty }
    else slot

-- the key of a record that has a security and a group
unfoldable pub key_of : LegRecord → Option LegKey
key_of r = elim r.security_id [
  | none ↦ none
  | some sid ↦ elim r.trade_group_id [
    | none ↦ none
    | some g ↦ some (record { account = r.account; security_id = sid; trade_group_id = g })
  ]
]

unfoldable pub fold_record : Assoc LegKey Slot → LegRecord → Assoc LegKey Slot
fold_record acc r = elim (key_of r) [
  | none ↦ acc
  | some k ↦ insert k (slot_step (get_or_else (lookup k acc) empty_slot) r) acc
]

unfoldable pub fold_records : Assoc LegKey Slot → List LegRecord → Assoc LegKey Slot
fold_records acc [] = acc
fold_records acc (r ∷ rs) = fold_records (fold_record acc r) rs

module _ (divide : Cash → Quantity → Price) (unit : ℕ) where
  unfoldable pub leg_row : LegKey → Slot → OpenGroupLegRow
  leg_row k slot = record {
    account = k.account;
    security_id = k.security_id;
    trade_group_id = k.trade_group_id;
    net_open = trunc unit (slot.net -ℤ slot.removal);
    average_open_price =
        if eqb_ℤ slot.open_qty (pos 0) then none else some (divide slot.notional slot.open_qty);
    direction = if ltb_ℤ slot.signed_open (pos 0) then "Short" else "Long";
  }

  unfoldable pub leg_rows : Assoc LegKey Slot → List OpenGroupLegRow
  leg_rows [] = []
  leg_rows ((k, slot) ∷ rest) = leg_row k slot ∷ leg_rows rest

  unfoldable pub fold_open_group_legs : List LegRecord → List OpenGroupLegRow
  unfolding fold_records leg_rows
  fold_open_group_legs records = leg_rows (fold_records [] records)

-- `OpenGroupLegRow.signed_net_open`
unfoldable pub signed_net_open : OpenGroupLegRow → ℤ
signed_net_open row = if str_eq row.direction "Short" then neg row.net_open else row.net_open
