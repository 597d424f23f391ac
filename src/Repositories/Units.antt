-- ===== src/Repositories/Units.antt =====
-- The units of a structure, from the quantities of an order's legs
-- (tt_ledger/repositories/__init__.py, `order_level_fill_fields`); `gcd` stands for `math.gcd`.
use native.Mathlib.Nat.{mod-lt, div-add-mod', mul_assoc, add-mul}
use tt_ledger.Base.{
  ℕ, zero, suc, ◌+◌, ◌*◌, ◌/◌, ◌%◌, ◌<◌, ◌≡◌, refl, sym, ap, ◌∙◌, false, List, [], ◌∷◌, AllOf, eqb,
  inl, inr, Bool-cases, arith,
}
use tt_ledger.Repositories.Quantities.{gcd_on, gcd, structure_units}

mod_below : (a b : ℕ) → eqb b 0 ≡ false → a % b < b
mod_below a b h = mod-lt a (ground arith)

gcd_on-same : (fuel fuel' a b : ℕ) → b < fuel → b < fuel' → gcd_on fuel a b ≡ gcd_on fuel' a b
unfolding gcd_on
gcd_on-same zero fuel' a b h g = absurd (omega arith)
gcd_on-same (suc fuel) zero a b h g = absurd (omega arith)
gcd_on-same (suc fuel) (suc fuel') a b h g = elim (Bool-cases (eqb b 0)) [
  | inl done ↦ rw done refl
  | inr more ↦
      let below = mod_below a b more in
      rw (more, gcd_on-same fuel fuel' b (a % b) (omega arith) (omega arith)) refl
]

-- `d` divides `n`
abbrev pub Divides : ℕ → ℕ → Type 0
Divides d n = (k : ℕ) × (n ≡ k * d)

gcd_on-Divides :
    (fuel a b : ℕ) → b < fuel → Divides (gcd_on fuel a b) a × Divides (gcd_on fuel a b) b
unfolding gcd_on
gcd_on-Divides zero a b h = absurd (omega arith)
gcd_on-Divides (suc fuel) a b h = elim (Bool-cases (eqb b 0)) [
  | inl done ↦ rw done ((1, omega arith), (0, ground arith))
  | inr more ↦
      let below = mod_below a b more in
      let ((k, eb), (m, er)) = gcd_on-Divides fuel b (a % b) (omega arith) in
      rw more (
        (
          (a / b) * k + m,
          sym (div-add-mod' a b)
              ∙ ap (λ (t : ℕ). a / b * t + a % b) eb
              ∙ ap (λ (t : ℕ). a / b * (k * gcd_on fuel b (a % b)) + t) er
              ∙ omega (
                arith,
                mul_assoc (a / b) k (gcd_on fuel b (a % b)),
                add-mul (a / b * k) m (gcd_on fuel b (a % b)),
              ),
        ),
        (k, eb),
      )
]

gcd_on-enough :
    (fuel a b : ℕ)
    → b < fuel
    → (gcd_on fuel a b ≡ gcd a b) × (Divides (gcd a b) a × Divides (gcd a b) b)
unfolding gcd
gcd_on-enough fuel a b h =
    (gcd_on-same fuel (suc b) a b h (omega arith), gcd_on-Divides (suc b) a b (omega arith))

Divides-trans : (d e n : ℕ) → Divides d e → Divides e n → Divides d n
Divides-trans d e n (k, p) (m, q) = (m * k, q ∙ ap (λ (t : ℕ). m * t) p ∙ sym (mul_assoc m k d))

-- The units of a structure divide the quantity of every leg, so that each leg's ratio is exact.
pub structure_units-Divides :
    (k : ℕ) (ks : List ℕ)
    → Divides (structure_units k ks) k × AllOf (Divides (structure_units k ks)) ks
unfolding structure_units
structure_units-Divides k [] = ((1, omega arith), tt)
structure_units-Divides k (k' ∷ ks) =
    let (first, rest) = structure_units-Divides (gcd k k') ks in
    let (_, (left, right)) = gcd_on-enough (suc k') k k' (omega arith) in
    (
      Divides-trans (structure_units (gcd k k') ks) (gcd k k') k first left,
      (Divides-trans (structure_units (gcd k k') ks) (gcd k k') k' first right, rest),
    )
