-- ===== src/Tests/Grouping.antt =====
-- Two fills of one order, summarised.
use kalshi_bet_router.Base.{◌+◌, String, List, [], ◌∷◌, ◌≡◌, refl, length, Result, ok, err}
use kalshi_bet_router.Base.Int.{◌+ℤ◌}
use kalshi_bet_router.Fill.{NormalizedFill, parse_execution_time}
use kalshi_bet_router.Ordering.{sort_fills, sort_keys, insert_key, keyed, key_le, text_le}
use kalshi_bet_router.Orders.{
  OrderExecution, OrderAggregationStats, distinct, differ, total_of, check_group, summarise,
  put_group, group_fills, counted, summarise_groups, no_stats, aggregate_orders,
}
use kalshi_bet_router.Orders.Counts.{fills_in, aggregate_orders-counts}
use kalshi_bet_router.Tests.Data.{bought, more}

abbrev Aggregated : Type 0
Aggregated = List (String × OrderExecution) × OrderAggregationStats

abbrev value_in : Result Aggregated → Aggregated
value_in (ok x) = x
value_in (err e) = ([], no_stats)

abbrev both : List NormalizedFill
both = bought ∷ more ∷ []

both-returns : aggregate_orders both ≡ ok (value_in (aggregate_orders both))
unfolding aggregate_orders group_fills put_group summarise_groups summarise counted check_group
    differ distinct total_of sort_fills sort_keys insert_key keyed key_le text_le ◌+ℤ◌
    parse_execution_time
both-returns = refl

aggregate_orders-counts_example :
    (fills_in (value_in (aggregate_orders both)).0
        + (value_in (aggregate_orders both)).1.fills_without_order_id
      ≡ length both)
    × ((value_in (aggregate_orders both)).1.orders ≡ length (value_in (aggregate_orders both)).0)
    × ((value_in (aggregate_orders both)).1.orders_with_complete_fees
          + (value_in (aggregate_orders both)).1.orders_missing_fees
        ≡ length (value_in (aggregate_orders both)).0)
aggregate_orders-counts_example =
    aggregate_orders-counts both (value_in (aggregate_orders both)).0
      (value_in (aggregate_orders both)).1 both-returns
