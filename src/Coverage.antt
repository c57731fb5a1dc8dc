-- ===== src/Coverage.antt =====
-- How far back settlement evidence reaches (kalshi_router/coverage.py). `Floor` shows what a floor
-- says. The status of the probes and the counters of the archive probe are only reported, and are left out.
pub mod Floor
use kalshi_bet_router.Base.{
  ℕ, suc, ◌+◌, Bool, true, false, Option, none, some, List, [], ◌∷◌, ◌||◌, not, if◌then◌else◌,
  is_some, ltb,
}
use kalshi_bet_router.Base.Int.{ltb_ℤ}
use kalshi_bet_router.Decimal.{Decimal}
use kalshi_bet_router.Fill.{NormalizedSettlement, settled_at}

pub record SettlementCoverage : Type 0 where
  pub rows : ℕ
  pub rows_with_a_readable_time : ℕ
  pub rows_with_an_unreadable_time : ℕ
  pub exhausted : Bool
  pub truncated : Bool
  pub earliest_settled_at : Option Decimal
  pub latest_settled_at : Option Decimal
  pub below_floor_probed : Bool
  pub below_floor_rows_returned : ℕ
  pub below_floor_rows_older_than_the_floor : ℕ

-- The property `observed_floor`.
unfoldable pub observed_floor : SettlementCoverage → Option Decimal
observed_floor coverage =
    if not coverage.exhausted || coverage.truncated
    then none
    else if ltb 0 coverage.rows_with_an_unreadable_time
    then none
    else coverage.earliest_settled_at

-- The property `default_walk_appears_windowed`.
abbrev pub default_walk_appears_windowed : SettlementCoverage → Bool
default_walk_appears_windowed coverage = ltb 0 coverage.below_floor_rows_older_than_the_floor

-- The property `floor`.
unfoldable pub floor : SettlementCoverage → Option Decimal
unfolding observed_floor
floor coverage = if default_walk_appears_windowed coverage then none else observed_floor coverage

-- The property `floor_is_usable`.
abbrev pub floor_is_usable : SettlementCoverage → Bool
floor_is_usable coverage = is_some (floor coverage)

abbrev pub earlier : Option Decimal → Decimal → Decimal
earlier none at = at
earlier (some earliest) at = if ltb_ℤ at earliest then at else earliest

abbrev pub later : Option Decimal → Decimal → Decimal
later none at = at
later (some latest) at = if ltb_ℤ latest at then at else latest

-- One round of the loop, after `coverage.rows += 1`.
unfoldable pub measured : SettlementCoverage → Option Decimal → SettlementCoverage
measured coverage none = record coverage {
  rows = coverage.rows + 1;
  rows_with_an_unreadable_time = coverage.rows_with_an_unreadable_time + 1;
}
measured coverage (some at) = record coverage {
  rows = coverage.rows + 1;
  rows_with_a_readable_time = coverage.rows_with_a_readable_time + 1;
  earliest_settled_at = some (earlier coverage.earliest_settled_at at);
  latest_settled_at = some (later coverage.latest_settled_at at);
}

unfoldable pub measure : SettlementCoverage → List NormalizedSettlement → SettlementCoverage
unfolding measured
measure coverage [] = coverage
measure coverage (settlement ∷ settlements) =
    measure (measured coverage (settled_at settlement)) settlements

abbrev pub unmeasured : Bool → Bool → SettlementCoverage
unmeasured exhausted truncated = record {
  rows = 0;
  rows_with_a_readable_time = 0;
  rows_with_an_unreadable_time = 0;
  exhausted = exhausted;
  truncated = truncated;
  earliest_settled_at = none;
  latest_settled_at = none;
  below_floor_probed = false;
  below_floor_rows_returned = 0;
  below_floor_rows_older_than_the_floor = 0;
}

unfoldable pub build_settlement_coverage :
    List NormalizedSettlement → Bool → Bool → SettlementCoverage
unfolding measure
build_settlement_coverage settlements exhausted truncated =
    measure (unmeasured exhausted truncated) settlements
