-- ===== src/Fees/Bounds.antt =====
-- Bounds on a fee.
use farm_backend.Prelude.{ℕ, zero, suc, ◌+◌, ◌-◌, ◌*◌, ◌^◌, ◌≤◌, ◌<◌, ◌≡◌, arith}
use native.Mathlib.Nat.{
  mul-div-le, lt-mul-div-succ, pow-suc, le-div_iff_mul-le, div-mul-le_self, mul-le-mul_left,
  mul-le-mul_right, le_of_mul-le-mul_right, lt_of_mul-lt-mul_left,
}
use farm_backend.Prelude.Int.{ℤ, pos, negsuc, ◌≤ℤ◌}
use farm_backend.Prelude.Number.{finite}
use farm_backend.Fees.Rule.{FeeRule, atoms_per, micro, round_div, exact_fee, compute_fee}

-- Rounding moves a quotient by at most one half.
round_div_bounds :
    (x u : ℕ) → 0 < u → (2 * x ≤ 2 * u * round_div x u + u) × (2 * u * round_div x u ≤ 2 * x + u)
unfolding round_div
round_div_bounds x u h =
    omega
      (arith, mul-div-le (2 * x + u) (2 * u), lt-mul-div-succ (2 * x + u) {b = 2 * u} (omega arith))

round_div_mono : (x y u : ℕ) → 0 < u → x ≤ y → round_div x u ≤ round_div y u
unfolding round_div
round_div_mono x y u hu h =
    (le-div_iff_mul-le (omega arith)).1 (omega (arith, div-mul-le_self (2 * x + u) (2 * u)))

pow_pos : (n : ℕ) → 0 < 10 ^ n
pow_pos zero = omega arith
pow_pos (suc n) = rw pow-suc (omega (arith, pow_pos n))

pub atoms_pos : (dp : ℕ) → 0 < atoms_per dp
atoms_pos dp = pow_pos (8 - dp)

-- No fee is taken of what is not positive.
pub compute_fee_nonpos :
    (rule : FeeRule) (a : ℤ) (dp : ℕ) → a ≤ℤ pos 0 → compute_fee rule (finite a) dp ≡ 0
unfolding compute_fee
compute_fee_nonpos rule a dp h = ground arith

-- The fee of a positive amount.
pub compute_fee-suc :
    (rule : FeeRule) (n dp : ℕ)
    → compute_fee rule (finite (pos (suc n))) dp
      ≡ round_div (exact_fee rule (suc n)) (atoms_per dp * micro) * atoms_per dp
unfolding compute_fee
compute_fee-suc rule n dp = ground arith

exact_fee_mono : (rule : FeeRule) (a b : ℕ) → a ≤ b → exact_fee rule a ≤ exact_fee rule b
unfolding exact_fee
exact_fee_mono rule a b h = ground (arith, mul-le-mul_right rule.percent h)

-- A larger amount never has a smaller fee, whatever the rule and the decimals kept.
pub compute_fee_mono :
    (rule : FeeRule) (a b : ℤ) (dp : ℕ)
    → a ≤ℤ b
    → compute_fee rule (finite a) dp ≤ compute_fee rule (finite b) dp
compute_fee_mono rule (negsuc m) b dp h =
    omega (arith, compute_fee_nonpos rule (negsuc m) dp (omega arith))
compute_fee_mono rule (pos zero) b dp h =
    omega (arith, compute_fee_nonpos rule (pos zero) dp (omega arith))
compute_fee_mono rule (pos (suc n)) (negsuc m) dp h = absurd (omega arith)
compute_fee_mono rule (pos (suc n)) (pos zero) dp h = absurd (omega arith)
compute_fee_mono rule (pos (suc n)) (pos (suc m)) dp h =
    rw (compute_fee-suc rule n dp, compute_fee-suc rule m dp)
      (mul-le-mul_right (atoms_per dp) (
        round_div_mono (exact_fee rule (suc n)) (exact_fee rule (suc m)) (atoms_per dp * micro)
          (omega (arith, atoms_pos dp)) (exact_fee_mono rule (suc n) (suc m) (omega arith))))

-- The exact fee is at most the percentage of the amount where nothing is added to it.
exact_fee_le :
    (rule : FeeRule) (a : ℕ)
    → rule.flat ≡ 0
    → rule.min_fee ≡ 0
    → exact_fee rule a ≤ a * rule.percent
unfolding exact_fee
exact_fee_le rule a hf hm = ground arith

half_rounded : (q x u : ℕ) → 2 * u * q ≤ 2 * x + u → u * q ≤ 2 * x
half_rounded zero x u h = omega arith
half_rounded (suc q) x u h = grind arith

-- A fee of at most 50 percent, with no flat part and no minimum, never exceeds the amount,
-- whatever the decimals kept, though it may be rounded up.
pub fee-le-amount :
    (rule : FeeRule) (a dp : ℕ)
    → rule.percent ≤ 500_000
    → rule.flat ≡ 0
    → rule.min_fee ≡ 0
    → compute_fee rule (finite (pos a)) dp ≤ a
unfolding compute_fee
fee-le-amount rule zero dp hp hf hm = omega arith
fee-le-amount rule (suc n) dp hp hf hm =
    let a = suc n in
    let x = exact_fee rule a in
    let u = atoms_per dp * micro in
    let q = round_div x u in
    let small = half_rounded q x u (round_div_bounds x u (omega (arith, atoms_pos dp))).1 in
    let share = exact_fee_le rule a hf hm in
    let part = mul-le-mul_left a hp in
    rw (compute_fee-suc rule n dp)
      (le_of_mul-le-mul_right {k = micro} (omega (arith, small, share, part)) (omega arith))

-- The fee of a positive amount lies within half a unit of the last decimal kept of the exact fee:
-- percentage and flat part, raised to the minimum and cut at the cap.
pub compute_fee_near :
    (rule : FeeRule) (n dp : ℕ)
    → let fee = compute_fee rule (finite (pos (suc n))) dp in
      (2 * exact_fee rule (suc n) ≤ 2 * (fee * micro) + atoms_per dp * micro)
      × (2 * (fee * micro) ≤ 2 * exact_fee rule (suc n) + atoms_per dp * micro)
compute_fee_near rule n dp = rw (compute_fee-suc rule n dp) (
    omega (
      arith,
      round_div_bounds (exact_fee rule (suc n)) (atoms_per dp * micro)
          (omega (arith, atoms_pos dp)),
    ))

exact_fee_cap :
    (rule : FeeRule) (a : ℕ) → 0 < rule.max_fee → exact_fee rule a ≤ rule.max_fee * micro
unfolding exact_fee
exact_fee_cap rule a h = ground arith

rounded_below : (q x u m : ℕ) → 0 < u → 2 * u * q ≤ 2 * x + u → x ≤ u * m → q ≤ m
rounded_below q x u m hu h le =
    omega (arith, lt_of_mul-lt-mul_left (2 * u) {m = q} {n = m + 1} (omega arith))

-- A cap that is positive and a whole number of units of the last decimal kept is never exceeded,
-- also where it lies below the minimum.
pub fee-le-cap :
    (rule : FeeRule) (a : ℤ) (dp units : ℕ)
    → 0 < rule.max_fee
    → rule.max_fee ≡ units * atoms_per dp
    → compute_fee rule (finite a) dp ≤ rule.max_fee
fee-le-cap rule (negsuc m) dp units h e =
    omega (arith, compute_fee_nonpos rule (negsuc m) dp (omega arith))
fee-le-cap rule (pos zero) dp units h e =
    omega (arith, compute_fee_nonpos rule (pos zero) dp (omega arith))
fee-le-cap rule (pos (suc n)) dp units h e =
    let u = atoms_per dp * micro in
    let x = exact_fee rule (suc n) in
    let up : 0 < atoms_per dp * micro = omega (arith, atoms_pos dp) in
    let whole =
      rounded_below (round_div x u) x u units up (round_div_bounds x u up).1
        (omega (arith, exact_fee_cap rule (suc n) h, e)) in
    rw (compute_fee-suc rule n dp) (omega (arith, e, mul-le-mul_right (atoms_per dp) whole))
