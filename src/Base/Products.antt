-- ===== src/Base/Products.antt =====
-- Products of signed numbers: signs, and the laws of a commutative ring.
use Prim.Native.Nat.{ℕ, zero, suc, ◌+◌, ◌*◌}
use mathlib.Core.Path.{◌≡◌, ap}
use mathlib.Core.Logic.{◌⊎◌, inl, inr}
use mathlib.Core.Bool.{true, false}
use native.Mathlib.Omega.{arith}
use tt_ledger.Base.Int.{
  ℤ, pos, negsuc, pos_part, neg_part, ◌+ℤ◌, ◌-ℤ◌, ◌*ℤ◌, ◌<ℤ◌, neg, abs, ltb_ℤ, eqb_ℤ, +ℤ_parts,
  -ℤ_parts, neg_parts, int_laws, sub_ℕ_parts, eq_of_parts, one_sided,
}

pub *ℤ_parts :
    (a b : ℤ)
    → pos_part (a *ℤ b) + pos_part a * neg_part b + neg_part a * pos_part b
      ≡ neg_part (a *ℤ b) + pos_part a * pos_part b + neg_part a * neg_part b
unfolding ◌*ℤ◌
*ℤ_parts a b = omega (
  arith,
  sub_ℕ_parts (pos_part a * pos_part b + neg_part a * neg_part b)
      (pos_part a * neg_part b + neg_part a * pos_part b),
)

pub ruleset ring_laws = (int_laws, *ℤ_parts)

pub mul_pos_cases :
    (a b : ℤ)
    → ltb_ℤ (pos 0) (a *ℤ b) ≡ true
    → ((pos 0 <ℤ a) × (pos 0 <ℤ b)) ⊎ ((a <ℤ pos 0) × (b <ℤ pos 0))
unfolding ◌*ℤ◌
mul_pos_cases (pos zero) (pos n) h = absurd (grind arith)
mul_pos_cases (pos (suc m)) (pos zero) h = absurd (grind arith)
mul_pos_cases (pos (suc m)) (pos (suc n)) h = inl (omega arith, omega arith)
mul_pos_cases (pos m) (negsuc n) h = grind arith
mul_pos_cases (negsuc m) (pos n) h = grind arith
mul_pos_cases (negsuc m) (negsuc n) h = inr (omega arith, omega arith)

pub mul_nonpos_cases :
    (a b : ℤ)
    → ltb_ℤ (pos 0) (a *ℤ b) ≡ false
    → eqb_ℤ a (pos 0) ≡ false
    → eqb_ℤ b (pos 0) ≡ false
    → ((pos 0 <ℤ a) × (b <ℤ pos 0)) ⊎ ((a <ℤ pos 0) × (pos 0 <ℤ b))
unfolding ◌*ℤ◌
mul_nonpos_cases (pos zero) (pos n) h p q = absurd (grind arith)
mul_nonpos_cases (pos (suc m)) (pos zero) h p q = absurd (grind arith)
mul_nonpos_cases (pos (suc m)) (pos (suc n)) h p q = absurd (grind arith)
mul_nonpos_cases (pos m) (negsuc n) h p q = inl (ground arith, omega arith)
mul_nonpos_cases (negsuc m) (pos n) h p q = inr (omega arith, ground arith)
mul_nonpos_cases (negsuc m) (negsuc n) h p q = absurd (grind arith)

pub *ℤ_comm : (a b : ℤ) → a *ℤ b ≡ b *ℤ a
*ℤ_comm a b = omega ring_laws

pub *ℤ-+ℤ : (a b c : ℤ) → a *ℤ (b +ℤ c) ≡ a *ℤ b +ℤ a *ℤ c
*ℤ-+ℤ a b c = omega (
  ring_laws,
  ap (λ (t : ℕ). pos_part a * t) (+ℤ_parts b c),
  ap (λ (t : ℕ). neg_part a * t) (+ℤ_parts b c),
)

pub *ℤ--ℤ : (a b c : ℤ) → a *ℤ (b -ℤ c) ≡ a *ℤ b -ℤ a *ℤ c
*ℤ--ℤ a b c = omega (
  ring_laws,
  ap (λ (t : ℕ). pos_part a * t) (-ℤ_parts b c),
  ap (λ (t : ℕ). neg_part a * t) (-ℤ_parts b c),
)

pub *ℤ_neg : (a b : ℤ) → a *ℤ neg b ≡ neg (a *ℤ b)
*ℤ_neg a b = omega (
  ring_laws,
  ap (λ (t : ℕ). pos_part a * t) (neg_parts b),
  ap (λ (t : ℕ). neg_part a * t) (neg_parts b),
)

pub *ℤ_assoc : (a b c : ℤ) → a *ℤ b *ℤ c ≡ a *ℤ (b *ℤ c)
*ℤ_assoc a b c = omega (
  ring_laws,
  ap (λ (t : ℕ). t * pos_part c) (*ℤ_parts a b),
  ap (λ (t : ℕ). t * neg_part c) (*ℤ_parts a b),
  ap (λ (t : ℕ). pos_part a * t) (*ℤ_parts b c),
  ap (λ (t : ℕ). neg_part a * t) (*ℤ_parts b c),
)
