-- ===== src/Legs/Basis.antt =====
-- The slots of the fold of open legs (tt_ledger/rows.py, `fold_open_group_legs`).
use tt_ledger.Base.{
  subst, Option, ℕ, String, sym, select, Bool-cases, ◌&&◌, eqb, ◌≡◌, ◌∙◌, refl, ap, Bool, true,
  false, none, some, List, [], ◌∷◌, get_or_else, if◌then◌else◌, inl, inr, Option-cases, arith,
}
use tt_ledger.Base.Assoc.{Assoc, lookup, lookup-insert, option_beq, text_eq}
use tt_ledger.Base.Int.{zero_+ℤ, max_ℤ, ◌≤ℤ◌, eq_of_parts}
use tt_ledger.Base.Text.{str_eq}
use tt_ledger.Rows.Units.{Quantity}
use tt_ledger.Legs.{
  LegKey, LegRecord, Slot, empty_slot, leg_key_eq, key_eq, key_eq_iff, key_of, slot_step,
  fold_record, fold_records, is_position_removal, action_nets_as_trade,
}
use tt_ledger.Legs.Totals.{run, size_of, AddsUp, run-Adds, IsLargest, run-largest}

-- the record is of the leg's account, security and trade group
abbrev pub is_of : LegKey → LegRecord → Bool
is_of k r =
    str_eq r.account k.account
    && option_beq r.security_id (some k.security_id)
    && elim r.trade_group_id [ none ↦ false | some g ↦ eqb g k.trade_group_id ]

abbrev has_key : LegKey → Option LegKey → Bool
has_key k none = false
has_key k (some j) = key_eq j k

is_of-parts :
    (k : LegKey) (account : String) (sid : Option String) (group : Option ℕ)
    → (str_eq account k.account
        && option_beq sid (some k.security_id)
        && elim group [ none ↦ false | some g ↦ eqb g k.trade_group_id ])
      ≡ has_key k (elim sid [
        | none ↦ none
        | some s ↦ elim group [
          | none ↦ none
          | some g ↦ some (record { account = account; security_id = s; trade_group_id = g })
        ]
      ])
is_of-parts k account none group = ground arith
is_of-parts k account (some s) none = ground arith
is_of-parts k account (some s) (some g) = refl

is_of-key_of : (k : LegKey) (r : LegRecord) → is_of k r ≡ has_key k (key_of r)
unfolding key_of
is_of-key_of k r = is_of-parts k r.account r.security_id r.trade_group_id

abbrev slot_at : Assoc LegKey Slot → LegKey → Slot
slot_at acc k = get_or_else (lookup k acc) empty_slot

slot_at-fold_record :
    (acc : Assoc LegKey Slot) (r : LegRecord) (k : LegKey)
    → slot_at (fold_record acc r) k
      ≡ (if has_key k (key_of r) then slot_step (slot_at acc k) r else slot_at acc k)
unfolding fold_record
slot_at-fold_record acc r k = elim (Option-cases (key_of r)) [
  | inl outside ↦ ground arith
  | inr (j, e) ↦ ground (arith, lookup-insert j k (slot_step (slot_at acc j) r) acc, key_eq_iff j k)
]

-- no other leg's record touches the slot
slot_at-run :
    (acc : Assoc LegKey Slot) (rs : List LegRecord) (k : LegKey)
    → slot_at (fold_records acc rs) k ≡ run (slot_at acc k) (select (is_of k) rs)
unfolding fold_records
slot_at-run acc [] k = refl
slot_at-run acc (r ∷ rs) k =
    let step = slot_at-fold_record acc r k in
    elim (Bool-cases (is_of k r)) [
      | inl own ↦ rw own (
          slot_at-run (fold_record acc r) rs k
          ∙ ap (λ s. run s (select (is_of k) rs))
              (step
                ∙ ap (λ b. if b then slot_step (slot_at acc k) r else slot_at acc k)
                    (sym (is_of-key_of k r) ∙ own)))
      | inr other ↦ rw other (
          slot_at-run (fold_record acc r) rs k
          ∙ ap (λ s. run s (select (is_of k) rs))
              (step
                ∙ ap (λ b. if b then slot_step (slot_at acc k) r else slot_at acc k)
                    (sym (is_of-key_of k r) ∙ other)))
    ]

-- In the fold over all records the slot of a leg, an account's security in a trade group, is what the
-- leg's own records add up to: the contracts opened less those closed, the contracts opened and of
-- these those bought less those sold, the cost of the opened ones, and the most contracts that one
-- settlement removed. No other record counts.
pub slot_at-fold_records :
    (rs : List LegRecord) (k : LegKey)
    → let own = select (is_of k) rs in
      let slot = get_or_else (lookup k (fold_records [] rs)) empty_slot in
      AddsUp own slot × IsLargest own slot.removal
unfolding lookup
slot_at-fold_records rs k =
    let own = select (is_of k) rs in
    let same = slot_at-run [] rs k in
    let (net, open_qty, signed, cost) = run-Adds own empty_slot in
    let (_, bounds, which) = run-largest own empty_slot (omega arith) in
    subst (λ (slot : Slot). AddsUp own slot × IsLargest own slot.removal) (sym same)
      (
        (net ∙ zero_+ℤ _, open_qty ∙ zero_+ℤ _, signed ∙ zero_+ℤ _, cost ∙ zero_+ℤ _),
        (bounds, which),
      )

max_absorb : (x p q : Quantity) → q ≤ℤ p → max_ℤ (max_ℤ x p) q ≡ max_ℤ x p
unfolding max_ℤ
max_absorb x p q le = ground (arith, eq_of_parts p q, eq_of_parts x q)

slot_step-removal :
    (slot : Slot) (r : LegRecord)
    → is_position_removal r.action r.transaction_sub_type ≡ true
    → slot_step slot r ≡ record slot { removal = max_ℤ slot.removal (size_of r) }
unfolding slot_step is_position_removal action_nets_as_trade
slot_step-removal slot r h = ground arith

-- A settlement that arrives as two rows counts once: a removal that is no larger than one that
-- was just taken changes nothing.
pub slot_step-removal_again :
    (slot : Slot) (a b : LegRecord)
    → is_position_removal a.action a.transaction_sub_type ≡ true
    → is_position_removal b.action b.transaction_sub_type ≡ true
    → size_of b ≤ℤ size_of a
    → slot_step (slot_step slot a) b ≡ slot_step slot a
slot_step-removal_again slot a b ra rb le =
    let one = slot_step-removal slot a ra in
    let both = slot_step-removal (record slot { removal = max_ℤ slot.removal (size_of a) }) b rb in
    rw (one, both)
      (ap (λ m. record slot { removal = m }) (max_absorb slot.removal (size_of a) (size_of b) le))
