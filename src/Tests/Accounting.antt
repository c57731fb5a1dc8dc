-- ===== src/Tests/Accounting.antt =====
-- One market at work (kalshi_router/accounting/position.py).
use kalshi_bet_router.Base.{
  ℕ, ◌≡◌, refl, arith, inl, true, Option, none, some, length, Result, ok, err,
}
use kalshi_bet_router.Base.Int.{pos, negsuc, ◌+ℤ◌, ◌-ℤ◌, ◌*ℤ◌}
use kalshi_bet_router.Decimal.{
  Decimal, digits, rounds_up, round_half_even, last_place, quotient, context, ◌⊕◌, ◌⊖◌, ◌⊗◌, divide,
}
use kalshi_bet_router.Decimal.Signs.{IsNonneg, IsNonpos}
use kalshi_bet_router.Fill.{NormalizedFill, parse_execution_time, project_fill}
use kalshi_bet_router.Episode.{PositionTransition}
use kalshi_bet_router.Position.{
  MarketLedger, new_ledger, sign, classify, new_episode, record_fill, close_episode, realized_on,
}
use kalshi_bet_router.Position.Fills.{increase, reverse, apply_fill}
use kalshi_bet_router.Position.Settlements.{apply_settlement}
use kalshi_bet_router.Position.Invariant.{IsValid}
use kalshi_bet_router.Position.Applied.{Tallies, apply_fill-IsValid}
use kalshi_bet_router.Position.Settled.{Means, apply_settlement-Means}
use kalshi_bet_router.Position.Profit.{realized_on-IsNonneg, realized_on-IsNonpos}
use kalshi_bet_router.Position.Episodes.{Throughout}
use kalshi_bet_router.Position.Untouched.{Belongs, apply_fill-Belongs}
use kalshi_bet_router.Tests.Data.{bought, more, oversold, settlement_of}

abbrev empty : MarketLedger
empty = new_ledger "A" none

empty-IsValid : IsValid empty
empty-IsValid = record { current = refl; past = tt }

-- 10 at 50, 10 more at 60, then 25 sold at 70: the average entry price is 55, and the reversal
-- realises 20 * 15 and leaves 5 short at 70.
abbrev shown : Result (MarketLedger × PositionTransition) → Option (Decimal × Option Decimal × ℕ)
shown (ok (l, t)) = some (l.position, t.realized_pnl, length l.closed_episodes)
shown (err e) = none

abbrev then_fill :
    Result (MarketLedger × PositionTransition)
    → NormalizedFill
    → Result (MarketLedger × PositionTransition)
then_fill (ok (l, t)) f = apply_fill l f true
then_fill (err e) f = err e

reversal :
    shown (then_fill (then_fill (apply_fill empty bought true) more) oversold)
    ≡ some (negsuc 4, some (pos 300), 1)
unfolding apply_fill project_fill parse_execution_time classify increase reverse new_episode
    record_fill close_episode realized_on digits rounds_up round_half_even last_place quotient
    context ◌⊕◌ ◌⊖◌ ◌⊗◌ divide ◌+ℤ◌ ◌-ℤ◌ ◌*ℤ◌
reversal = refl

apply_fill-IsValid_example :
    (r : MarketLedger × PositionTransition) × (apply_fill empty bought true ≡ ok r)
    × IsValid r.0
    × (r.0.position ≡ pos 0 +ℤ pos 10)
    × (r.1.position_before ≡ pos 0)
    × (r.1.position_after ≡ r.0.position)
    × Tallies r.1
unfolding parse_execution_time
apply_fill-IsValid_example =
    apply_fill-IsValid empty bought true 9 (pos 1000000) empty-IsValid refl refl

apply_settlement-Means_example :
    Means empty (settlement_of "A" (some 10)) (apply_settlement empty (settlement_of "A" (some 10)))
apply_settlement-Means_example =
    apply_settlement-Means empty (settlement_of "A" (some 10)) empty-IsValid

abbrev long : MarketLedger
long = record empty { position = pos 10; average_entry_price = some (pos 50) }

realized_on-IsNonneg_example :
    (r : Decimal) × (realized_on long (some (pos 70)) 10 (sign long.position) ≡ some r) × IsNonneg r
realized_on-IsNonneg_example =
    realized_on-IsNonneg long (pos 70) (pos 50) 10 refl refl (inl (omega arith, omega arith))

realized_on-IsNonpos_example :
    (r : Decimal) × (realized_on long (some (pos 40)) 10 (sign long.position) ≡ some r) × IsNonpos r
realized_on-IsNonpos_example =
    realized_on-IsNonpos long (pos 40) (pos 50) 10 refl refl (inl (omega arith, omega arith))

-- The ledger after the first fill.
first_fill :
    (r : MarketLedger × PositionTransition) × (apply_fill empty bought true ≡ ok r)
    × IsValid r.0
    × (r.0.position ≡ pos 0 +ℤ pos 10)
    × (r.1.position_before ≡ pos 0)
    × (r.1.position_after ≡ r.0.position)
    × Tallies r.1
unfolding parse_execution_time
first_fill = apply_fill-IsValid empty bought true 9 (pos 1000000) empty-IsValid refl refl

apply_fill-Belongs_example : Throughout (Belongs "A" none) first_fill.0.0
apply_fill-Belongs_example = apply_fill-Belongs empty bought true first_fill.1 (tt, tt)
