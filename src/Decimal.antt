-- ===== src/Decimal.antt =====
-- Python's `decimal` arithmetic as the accounting package uses it (kalshi_router/accounting): a
-- value is a whole number of units of a fixed power of ten, and a result is rounded half-even to
-- 28 significant digits, the default context. `Decimal/Bounds` counts digits.
pub mod Bounds
pub mod Signs
use kalshi_bet_router.Base.{
  ℕ, zero, suc, ◌+◌, ◌-◌, ◌*◌, ◌/◌, ◌%◌, ◌^◌, if◌then◌else◌, ltb, ◌==◌, Bool, ◌||◌, ◌&&◌,
}
use kalshi_bet_router.Base.Int.{ℤ, pos_part, neg_part, ◌+ℤ◌, ◌-ℤ◌, ◌*ℤ◌, sub_ℕ}

-- A `Decimal`, in units that its use fixes: contracts, dollars, dollars times contracts, seconds.
abbrev pub Decimal : Type 0
Decimal = ℤ

-- `getcontext().prec`
abbrev pub precision : ℕ
precision = 28

-- The number of decimal digits, 0 for 0. The fuel is above the number, and a digit uses one round.
digits_loop : ℕ → ℕ → ℕ
digits_loop zero n = 0
digits_loop (suc fuel) n = let rest = digits_loop fuel (n / 10) in if n == 0 then 0 else suc rest

unfoldable pub digits : ℕ → ℕ
unfolding digits_loop
digits n = digits_loop (suc n) n

-- Whether a quotient with whole part `q` and remainder `r` is rounded up; a tie goes to the even one.
unfoldable pub rounds_up : ℕ → ℕ → ℕ → Bool
rounds_up q r d = ltb d (2 * r) || (2 * r == d && q % 2 == 1)

-- n / d as the nearest whole number.
unfoldable pub round_half_even : ℕ → ℕ → ℕ
round_half_even n d = if rounds_up (n / d) (n % d) d then n / d + 1 else n / d

-- The last place that is kept of a result whose whole part is `n`, as a power of ten.
unfoldable pub last_place : ℕ → ℕ
last_place n = 10 ^ (digits n - precision)

-- A quotient of magnitudes at context precision. The callers never divide by zero.
unfoldable pub quotient : ℕ → ℕ → ℕ
quotient n d = let p = last_place (n / d) in round_half_even n (d * p) * p

-- A sum or a product brought to context precision.
unfoldable pub context : ℤ → ℤ
context z = sub_ℕ (quotient (pos_part z) 1) (quotient (neg_part z) 1)

infixl 65 ◌⊕◌ ◌⊖◌
infixl 70 ◌⊗◌
unfoldable pub ◌⊕◌ : Decimal → Decimal → Decimal
a ⊕ b = context (a +ℤ b)

unfoldable pub ◌⊖◌ : Decimal → Decimal → Decimal
a ⊖ b = context (a -ℤ b)

unfoldable pub ◌⊗◌ : Decimal → Decimal → Decimal
a ⊗ b = context (a *ℤ b)

-- `a / d` for a positive `d`.
unfoldable pub divide : Decimal → ℕ → Decimal
divide a d = sub_ℕ (quotient (pos_part a) d) (quotient (neg_part a) d)
