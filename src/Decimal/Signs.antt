-- ===== src/Decimal/Signs.antt =====
-- Rounding keeps the sign of a result (kalshi_router/accounting).
use kalshi_bet_router.Base.{ℕ, zero, suc, ◌≡◌, arith}
use kalshi_bet_router.Base.Int.{ℤ, pos, negsuc, ◌-ℤ◌, ◌*ℤ◌, ◌≤ℤ◌, int_laws}
use kalshi_bet_router.Decimal.{Decimal, quotient, context, ◌⊖◌, ◌⊗◌}
use kalshi_bet_router.Decimal.Bounds.{quotient_one}

-- The sign of a value, zero counting as both.
abbrev pub IsNonneg : ℤ → Type 0
IsNonneg z = pos 0 ≤ℤ z

abbrev pub IsNonpos : ℤ → Type 0
IsNonpos z = z ≤ℤ pos 0

quotient_zero : quotient 0 1 ≡ 0
quotient_zero = quotient_one 0 (omega arith)

pub context-IsNonneg : (z : ℤ) → IsNonneg z → IsNonneg (context z)
unfolding context
context-IsNonneg (pos n) h = rw quotient_zero (ground arith)
context-IsNonneg (negsuc n) h = absurd (omega arith)

pub context-IsNonpos : (z : ℤ) → IsNonpos z → IsNonpos (context z)
unfolding context
context-IsNonpos (pos zero) h = rw quotient_zero (ground arith)
context-IsNonpos (pos (suc n)) h = absurd (omega arith)
context-IsNonpos (negsuc n) h = rw quotient_zero (ground arith)

pub ⊖-IsNonneg : (a b : Decimal) → b ≤ℤ a → IsNonneg (a ⊖ b)
unfolding ◌⊖◌
⊖-IsNonneg a b h = context-IsNonneg (a -ℤ b) (omega int_laws)

pub ⊖-IsNonpos : (a b : Decimal) → a ≤ℤ b → IsNonpos (a ⊖ b)
unfolding ◌⊖◌
⊖-IsNonpos a b h = context-IsNonpos (a -ℤ b) (omega int_laws)

pub ⊗-pos-IsNonneg : (a : Decimal) (n : ℕ) → IsNonneg a → IsNonneg (a ⊗ pos n)
unfolding ◌⊗◌ ◌*ℤ◌
⊗-pos-IsNonneg (pos m) n h = context-IsNonneg _ (ground arith)
⊗-pos-IsNonneg (negsuc m) n h = absurd (omega arith)

pub ⊗-pos-IsNonpos : (a : Decimal) (n : ℕ) → IsNonpos a → IsNonpos (a ⊗ pos n)
unfolding ◌⊗◌ ◌*ℤ◌
⊗-pos-IsNonpos (pos zero) n h = context-IsNonpos _ (ground arith)
⊗-pos-IsNonpos (pos (suc m)) n h = absurd (omega arith)
⊗-pos-IsNonpos (negsuc m) n h = context-IsNonpos _ (ground arith)

pub ⊗-neg-IsNonneg : (a : Decimal) → IsNonpos a → IsNonneg (a ⊗ negsuc 0)
unfolding ◌⊗◌ ◌*ℤ◌
⊗-neg-IsNonneg (pos zero) h = context-IsNonneg _ (ground arith)
⊗-neg-IsNonneg (pos (suc m)) h = absurd (omega arith)
⊗-neg-IsNonneg (negsuc m) h = context-IsNonneg _ (ground arith)

pub ⊗-neg-IsNonpos : (a : Decimal) → IsNonneg a → IsNonpos (a ⊗ negsuc 0)
unfolding ◌⊗◌ ◌*ℤ◌
⊗-neg-IsNonpos (pos m) h = context-IsNonpos _ (ground arith)
⊗-neg-IsNonpos (negsuc m) h = absurd (omega arith)
