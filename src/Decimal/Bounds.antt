-- ===== src/Decimal/Bounds.antt =====
-- Digits, and where rounding changes nothing (Python's `decimal` in kalshi_router/accounting).
use native.Mathlib.Nat.{mul-div_cancel, mul-mod_left, pow-suc}
use kalshi_bet_router.Base.{ℕ, zero, suc, ◌-◌, ◌*◌, ◌/◌, ◌^◌, ◌≤◌, ◌<◌, ◌≡◌, arith, subst}
use kalshi_bet_router.Decimal.{
  precision, digits_loop, digits, rounds_up, round_half_even, last_place, quotient,
}

-- With enough fuel the digits cover the number.
lt-pow-digits_loop : (f n : ℕ) → n < f → n < 10 ^ digits_loop f n
unfolding digits_loop
lt-pow-digits_loop zero n h = elim h [ ]
lt-pow-digits_loop (suc f) n h = grind (arith, lt-pow-digits_loop f (n / 10), pow-suc)

digits_loop-le : (f n k : ℕ) → n < 10 ^ k → digits_loop f n ≤ k
unfolding digits_loop
digits_loop-le zero n k h = omega arith
digits_loop-le (suc f) n zero h = ground arith
digits_loop-le (suc f) n (suc k) h =
    ground (arith, digits_loop-le f (n / 10) k (omega (arith, pow-suc 10 k)), pow-suc 10 k)

pub digits_least : (n : ℕ) → n < 10 ^ digits n
unfolding digits
digits_least n = lt-pow-digits_loop (suc n) n (omega arith)

pub digits-le : (n k : ℕ) → n < 10 ^ k → digits n ≤ k
unfolding digits
digits-le n k h = digits_loop-le (suc n) n k h

last_place_short : (n : ℕ) → n < 10 ^ precision → last_place n ≡ 1
unfolding last_place
last_place_short n h =
    let e : digits n - precision ≡ 0 = omega (arith, digits-le n precision h) in rw e

round_half_even_exact : (q d : ℕ) → 0 < d → round_half_even (q * d) d ≡ q
unfolding round_half_even rounds_up
round_half_even_exact q d h = rw (mul-div_cancel q h, mul-mod_left q d) (ground arith)

-- A quotient that comes out even in at most 28 digits is exact.
pub quotient_exact : (q d : ℕ) → 0 < d → q < 10 ^ precision → quotient (q * d) d ≡ q
unfolding quotient
quotient_exact q d h k =
    let e : last_place (q * d / d) ≡ 1 = rw (mul-div_cancel q h) (last_place_short q k) in
    rw e
      (let one : d * 1 ≡ d = omega arith in rw one (rw (round_half_even_exact q d h) (omega arith)))

pub quotient_one : (n : ℕ) → n < 10 ^ precision → quotient n 1 ≡ n
quotient_one n h =
    let e : n * 1 ≡ n = omega arith in
    subst (λ t. quotient t 1 ≡ n) e (quotient_exact n 1 (omega arith) h)
