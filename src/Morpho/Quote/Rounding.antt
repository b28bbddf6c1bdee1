-- ===== src/Morpho/Quote/Rounding.antt =====
-- Converting borrow shares to assets, rounded up, and collateral to loan value, rounded down.
use native.Mathlib.Nat.{div-eq_of_lt, zero-mul, mul-zero, zero-div}
use nest_protocol.Base.{
  zero, suc, Bool-cases, ==_iff, inl, inr, ℕ, ◌+◌, ◌-◌, ◌*◌, ◌/◌, ◌≤◌, ◌<◌, ◌≡◌, ◌≢◌, ◌⊎◌, refl,
  arith, ◌==◌,
}
use nest_protocol.Base.Outcome.{ok}
use nest_protocol.Morpho.Quote.{mul_div_up, to_assets_up, collateral_to_loan_value}

-- `a / d` rounded up.
abbrev pub ceil_div : ℕ → ℕ → ℕ
ceil_div a d = (a + (d - 1)) / d

pub ceil_div_bounds : (a d : ℕ) → 0 < d → (a ≤ ceil_div a d * d) × (ceil_div a d * d < a + d)
ceil_div_bounds a d h = grind arith

-- The least number of `d`s that cover `a`.
pub ceil_div_least : (a d n : ℕ) → 0 < d → a ≤ n * d → ceil_div a d ≤ n
ceil_div_least a d n h k = grind (arith, ceil_div_bounds a d h)

mul_div_up-eq-ok : (x y d : ℕ) → 0 < d → mul_div_up x y d ≡ ok (ceil_div (x * y) d)
unfolding mul_div_up
mul_div_up-eq-ok x y d h = elim (Bool-cases (d == 0)) [
  | inl e ↦ absurd (ground arith)
  | inr e ↦ rw e
]

-- The assets that `shares` stand for, rounded up.
abbrev pub ceil_assets : ℕ → ℕ → ℕ → ℕ
ceil_assets s a t = ceil_div (s * (a + 1)) (t + 1_000_000)

pub ceil_assets_zero : (a t : ℕ) → ceil_assets 0 a t ≡ 0
ceil_assets_zero a t = rw zero-mul (div-eq_of_lt (omega arith))

-- The code's division never faults, since the virtual shares keep the divisor positive.
pub to_assets_up-eq-ok : (s a t : ℕ) → to_assets_up s a t ≡ ok (ceil_assets s a t)
unfolding to_assets_up
to_assets_up-eq-ok s a t =
    let divided = mul_div_up-eq-ok s (a + 1) (t + 1_000_000) (omega arith) in
    elim (Bool-cases (s == 0)) [
      | inl e ↦ rw (e, (==_iff s 0).0 e, ceil_assets_zero a t)
      | inr e ↦ rw e divided
    ]

-- The value of collateral rounds down, and a zero amount or price needs no division.
pub collateral_to_loan_value-eq-ok :
    (c p s : ℕ) → s ≢ 0 → collateral_to_loan_value c p s ≡ ok (c * p / s)
unfolding collateral_to_loan_value
collateral_to_loan_value-eq-ok c p s h = elim (Bool-cases (c == 0)) [
  | inl e ↦ rw (e, (==_iff c 0).0 e, zero-mul, zero-div)
  | inr e ↦ elim (Bool-cases (p == 0)) [
    | inl e' ↦ rw (e, e', (==_iff p 0).0 e', mul-zero, zero-div)
    | inr e' ↦ elim (Bool-cases (s == 0)) [
      | inl bad ↦ absurd (h ((==_iff s 0).0 bad))
      | inr good ↦ rw (e, e', good)
    ]
  ]
]

-- Rounded debts: a sum is worth no more than its parts, and more shares are worth no less.
pub ceil_assets-add :
    (s s' a t : ℕ) → ceil_assets (s + s') a t ≤ ceil_assets s a t + ceil_assets s' a t
ceil_assets-add s s' a t =
    ceil_div_least ((s + s') * (a + 1)) (t + 1_000_000) (ceil_assets s a t + ceil_assets s' a t)
      (omega arith)
      (omega (
        arith,
        (ceil_div_bounds (s * (a + 1)) (t + 1_000_000) (omega arith)).0,
        (ceil_div_bounds (s' * (a + 1)) (t + 1_000_000) (omega arith)).0,
      ))

pub ceil_assets_mono : (s s' a t : ℕ) → s ≤ s' → ceil_assets s a t ≤ ceil_assets s' a t
ceil_assets_mono s s' a t h =
    ceil_div_least (s * (a + 1)) (t + 1_000_000) (ceil_assets s' a t) (omega arith)
      (grind (arith, (ceil_div_bounds (s' * (a + 1)) (t + 1_000_000) (omega arith)).0))

-- No shares cost nothing, and any share costs at least one asset.
pub ceil_assets_sign :
    (s a t : ℕ) → ((s ≡ 0) × (ceil_assets s a t ≡ 0)) ⊎ ((0 < s) × (0 < ceil_assets s a t))
ceil_assets_sign zero a t = inl (refl, ceil_assets_zero a t)
ceil_assets_sign (suc s) a t =
    let covers = (ceil_div_bounds (suc s * (a + 1)) (t + 1_000_000) (omega arith)).0 in
    inr (omega arith, grind (arith, covers))
