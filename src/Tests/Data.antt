-- ===== src/Tests/Data.antt =====
-- The fills and settlements of the tests (kalshi_router/models.py).
use mathlib.Core.Option
use kalshi_bet_router.Base.{ℕ, String, true, false, Option, none, some, []}
use kalshi_bet_router.Base.Int.{pos}
use kalshi_bet_router.Fill.{OutcomeSide, yes_side, no_side, NormalizedFill, NormalizedSettlement}

-- A fill of `contracts` contracts at a price, at a second of the epoch.
abbrev pub fill_of : String → String → OutcomeSide → ℕ → ℕ → ℕ → NormalizedFill
fill_of id ticker side contracts price second = record {
  fill_id = id;
  ticker = ticker;
  outcome_side = yes_side;
  exposure_side = side;
  book_side = none;
  legacy_action = none;
  legacy_side = none;
  direction_sources = [];
  order_id = some "o1";
  trade_id = none;
  subaccount_number = none;
  count = some (pos contracts);
  count_source = none;
  price_dollars = some (pos price);
  leg_price_dollars = none;
  price_source = none;
  legacy_price_semantics_unproven = false;
  fixed_point_number_typed = false;
  fee_dollars = some (pos 2);
  fee_source = none;
  is_taker = some true;
  created_time = none;
  ts = some (pos second);
}

abbrev pub bought : NormalizedFill
bought = fill_of "f1" "A" yes_side 10 50 1

abbrev pub more : NormalizedFill
more = fill_of "f2" "A" yes_side 10 60 2

-- It sells more than is held.
abbrev pub oversold : NormalizedFill
oversold = fill_of "f3" "A" no_side 25 70 3

abbrev pub settlement_of : String → Option ℕ → NormalizedSettlement
settlement_of ticker size = record {
  ticker = ticker;
  settled_time = record { text = "2026-01-01T00:00:00Z"; seconds = some (pos 1767225600000000) };
  market_result = "yes";
  revenue_dollars = pos 1000;
  market_value_dollars = none;
  fee_dollars = none;
  yes_count = Option.map pos size;
  no_count = none;
  yes_cost_dollars = none;
  no_cost_dollars = none;
}
