-- ===== src/Reconcile/Settled.antt =====
-- The contracts that settlements retire (tt_ledger/ingest/reconcile.py, `_settled_quantity`).
use tt_ledger.Base.{
  String, Bool, if◌then◌else◌, ◌≡◌, ◌↔◌, refl, sym, ap, ◌∙◌, true, false, Option, List, [], ◌∷◌,
  AllOf, get_or_else, subst, inl, inr, Bool-cases, Option-cases, arith,
}
use tt_ledger.Base.Assoc.{text_eq, option_beq, option_beq_iff}
use tt_ledger.Base.Int.{pos, abs, eqb_ℤ, ◌+ℤ◌, int_laws, zero_+ℤ, +ℤ_zero}
use tt_ledger.Base.Text.{opt_member}
use tt_ledger.Rows.{ActivityRow}
use tt_ledger.Rows.Units.{Quantity, zero_decimal}
use tt_ledger.Replay.Rules.{quantity_of}
use tt_ledger.Reconcile.Rules.{cash_settled_subtypes}
use tt_ledger.Reconcile.Closing.{
  SettledKey, bool_beq, settled_key_beq, settled_quantity, by_settled, settle_onto, settled_at,
  settled_of, settled_sum,
}

-- the row is the money of a settlement
abbrev pub is_money : ActivityRow → Bool
is_money r = opt_member r.transaction_sub_type cash_settled_subtypes

-- the contracts of the money rows, or of the others
abbrev pub contracts : Bool → List ActivityRow → Quantity
contracts money [] = zero_decimal
contracts money (r ∷ rows) =
    (if bool_beq (is_money r) money then abs (quantity_of r) else zero_decimal)
    +ℤ contracts money rows

key_beq_iff : (j k : SettledKey) → (settled_key_beq j k ≡ true) ↔ (j ≡ k)
unfolding settled_key_beq
key_beq_iff (s, true) (t, true) = (
  λ h. ground (arith, option_beq_iff s t),
  λ e. ground (arith, option_beq_iff s t, ap (λ (k : SettledKey). k.0) e),
)
key_beq_iff (s, false) (t, false) = (
  λ h. ground (arith, option_beq_iff s t),
  λ e. ground (arith, option_beq_iff s t, ap (λ (k : SettledKey). k.0) e),
)
key_beq_iff (s, true) (t, false) =
    (λ h. ground arith, λ e. ground (arith, ap (λ (k : SettledKey). k.1) e))
key_beq_iff (s, false) (t, true) =
    (λ h. ground arith, λ e. ground (arith, ap (λ (k : SettledKey). k.1) e))

abbrev count_at : SettledKey → List (SettledKey × Quantity) → Quantity
count_at k counts = get_or_else (settled_at k counts) zero_decimal

count_at-settle_onto :
    (j k : SettledKey) (q : Quantity) (counts : List (SettledKey × Quantity))
    → count_at k (settle_onto j q counts)
      ≡ (if settled_key_beq j k then count_at k counts +ℤ q else count_at k counts)
unfolding settle_onto settled_at
count_at-settle_onto j k q [] = ground arith
count_at-settle_onto j k q ((i, p) ∷ rest) =
    ground
      (arith, count_at-settle_onto j k q rest, key_beq_iff i j, key_beq_iff i k, key_beq_iff j k)

option_beq_refl : (s : Option String) → option_beq s s ≡ true
option_beq_refl s = (option_beq_iff s s).1 refl

key_beq-own : (s : Option String) (b m : Bool) → settled_key_beq (s, b) (s, m) ≡ bool_beq b m
unfolding settled_key_beq
key_beq-own s b m = rw (option_beq_refl s) refl

add_if :
    (b : Bool) (c q x : Quantity)
    → (if b then c +ℤ q else c) +ℤ x ≡ c +ℤ ((if b then q else zero_decimal) +ℤ x)
add_if true c q x = omega int_laws
add_if false c q x = omega int_laws

add_nothing : (b : Bool) (x : Quantity) → (if b then zero_decimal else zero_decimal) +ℤ x ≡ x
add_nothing true x = zero_+ℤ x
add_nothing false x = zero_+ℤ x

count_at-by_settled :
    (sid : Option String) (m : Bool) (rows : List ActivityRow)
    (counts : List (SettledKey × Quantity))
    → AllOf (λ (r : ActivityRow). r.security_id ≡ sid) rows
    → count_at (sid, m) (by_settled counts rows) ≡ count_at (sid, m) counts +ℤ contracts m rows
unfolding by_settled abs
count_at-by_settled sid m [] counts all = sym (+ℤ_zero (count_at (sid, m) counts))
count_at-by_settled sid m (r ∷ rows) counts (own, all) = elim (Option-cases r.quantity) [
  | inl no_size ↦
      rw (no_size, by_settled)
        (count_at-by_settled sid m rows counts all
          ∙ ap (λ x. count_at (sid, m) counts +ℤ x)
              (sym (add_nothing (bool_beq (is_money r) m) (contracts m rows))))
  | inr (q, size) ↦
      rw (size, by_settled)
        (count_at-by_settled sid m rows _ all
          ∙ ap (λ x. x +ℤ contracts m rows)
              (count_at-settle_onto (r.security_id, is_money r) (sid, m) (abs q) counts
                ∙ ap
                    (λ t. if t then count_at (sid, m) counts +ℤ abs q else count_at (sid, m) counts)
                    (subst
                      (λ s.
                        settled_key_beq (r.security_id, is_money r) (s, m)
                        ≡ bool_beq (is_money r) m)
                      own (key_beq-own r.security_id (is_money r) m)))
          ∙ add_if (bool_beq (is_money r) m) (count_at (sid, m) counts) (abs q) (contracts m rows))
]

-- every count is of the security
abbrev IsOnly : Option String → List (SettledKey × Quantity) → Type 0
IsOnly sid counts = AllOf (λ (c : SettledKey × Quantity). c.0.0 ≡ sid) counts

settle_onto-IsOnly :
    (sid : Option String) (k : SettledKey) (q : Quantity) (counts : List (SettledKey × Quantity))
    → k.0 ≡ sid
    → IsOnly sid counts
    → IsOnly sid (settle_onto k q counts)
unfolding settle_onto
settle_onto-IsOnly sid k q [] own all = (own, tt)
settle_onto-IsOnly sid k q ((j, p) ∷ rest) own (here, all) =
    elim (Bool-cases (settled_key_beq j k)) [
      | inl same ↦ rw same (here, all)
      | inr other ↦ rw other (here, settle_onto-IsOnly sid k q rest own all)
    ]

by_settled-IsOnly :
    (sid : Option String) (rows : List ActivityRow) (counts : List (SettledKey × Quantity))
    → AllOf (λ (r : ActivityRow). r.security_id ≡ sid) rows
    → IsOnly sid counts
    → IsOnly sid (by_settled counts rows)
unfolding by_settled
by_settled-IsOnly sid [] counts all only = only
by_settled-IsOnly sid (r ∷ rows) counts (own, all) only = elim (Option-cases r.quantity) [
  | inl no_size ↦ rw (no_size, by_settled) (by_settled-IsOnly sid rows counts all only)
  | inr (q, size) ↦
      rw (size, by_settled)
        (by_settled-IsOnly sid rows _ all (settle_onto-IsOnly sid _ _ counts own only))
]

settled_sum-seen :
    (sid : Option String) (counts rest : List (SettledKey × Quantity))
    → IsOnly sid rest
    → settled_sum (sid ∷ []) counts rest ≡ zero_decimal
unfolding settled_sum
settled_sum-seen sid counts [] only = refl
settled_sum-seen sid counts (((s, m), q) ∷ rest) (here, only) =
    ground (arith, option_beq_refl sid, settled_sum-seen sid counts rest only)

settled_sum-only :
    (sid : Option String) (counts : List (SettledKey × Quantity))
    → IsOnly sid counts
    → settled_sum [] counts counts ≡ settled_of sid counts
unfolding settled_sum settled_of settled_at
settled_sum-only sid [] only = refl
settled_sum-only sid (((s, m), q) ∷ rest) (here, only) =
    ap (λ t. settled_of t (((s, m), q) ∷ rest) +ℤ settled_sum (t ∷ []) (((s, m), q) ∷ rest) rest)
      here
    ∙ ap (λ x. settled_of sid (((s, m), q) ∷ rest) +ℤ x)
        (settled_sum-seen sid (((s, m), q) ∷ rest) rest only)
    ∙ +ℤ_zero (settled_of sid (((s, m), q) ∷ rest))

-- The rows of one security, of settlements in any number and order, count as the contracts of the
-- rows that are not money, or where these are none as those of the money rows.
pub settled_quantity-one_security :
    (sid : Option String) (rows : List ActivityRow)
    → AllOf (λ (r : ActivityRow). r.security_id ≡ sid) rows
    → settled_quantity rows
      ≡ (if eqb_ℤ (contracts false rows) (pos 0) then contracts true rows else contracts false rows)
unfolding settled_quantity settled_of
settled_quantity-one_security sid rows all =
    let counted =
      λ (m : Bool). count_at-by_settled sid m rows [] all ∙ zero_+ℤ (contracts m rows) in
    settled_sum-only sid (by_settled [] rows) (by_settled-IsOnly sid rows [] all tt)
    ∙ ap (λ x. if eqb_ℤ x (pos 0) then count_at (sid, true) (by_settled [] rows) else x)
        (counted false)
    ∙ ap (λ x. if eqb_ℤ (contracts false rows) (pos 0) then x else contracts false rows)
        (counted true)
