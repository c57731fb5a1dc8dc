-- ===== src/Engine/Replay.antt =====
-- `AccountingEngine.replay` (kalshi_router/accounting/engine.py): the stages in their order.
use kalshi_bet_router.Base.{
  ℕ, false, Option, none, some, List, [], if◌then◌else◌, length, Result, ok, ◌>>=◌,
}
use kalshi_bet_router.Decimal.{Decimal}
use kalshi_bet_router.Fill.{NormalizedFill, NormalizedSettlement}
use kalshi_bet_router.Ordering.{sort_fills}
use kalshi_bet_router.Orders.{aggregate_orders}
use kalshi_bet_router.Engine.{
  HistoryCompleteness, is_complete, AccountingResult, deduplicate, Walk, walk_fills, start,
}
use kalshi_bet_router.Engine.Settle.{apply_settlements}
use kalshi_bet_router.Engine.Authority.{Positions, mark_settlement_coverage, assign_authority}

-- The result once the fills are walked.
abbrev pub walked : HistoryCompleteness → Option Decimal → ℕ → ℕ → Walk → AccountingResult
walked completeness floor replayed duplicates w = record {
  completeness = completeness;
  ledgers = w.ledgers;
  orders = [];
  transitions = w.transitions;
  order_stats = record {
    orders = 0;
    partial_orders = 0;
    fills_without_order_id = 0;
    orders_with_complete_fees = 0;
    orders_missing_fees = 0;
    orders_without_price = 0;
  };
  fills_replayed = replayed;
  duplicate_fills_ignored = duplicates;
  settlements_applied = 0;
  settlements_without_a_position = 0;
  settlements_refused_unreconciled = 0;
  settlements_refused_ambiguous_subaccount = 0;
  settlements_refused_by_shape = [];
  total_fees = if w.fees_complete then some w.fee_total else none;
  fills_with_fee = w.with_fee;
  subaccounts_observed = w.subaccounts;
  tickers_with_settlement_evidence = [];
  settlement_floor = floor;
  exchange_view_supplied = false;
}

-- The settlements, the coverage and the authority, on the walked fills.
unfoldable pub finish :
    AccountingResult
    → List NormalizedSettlement
    → Option Decimal
    → Option Positions
    → AccountingResult
finish result settlements floor positions =
    assign_authority (mark_settlement_coverage (apply_settlements result settlements) floor)
      positions

-- An empty list of settlements stands for `None` too: both skip that stage.
unfoldable pub replay :
    List NormalizedFill
    → HistoryCompleteness
    → List NormalizedSettlement
    → Option Decimal
    → Option Positions
    → Result AccountingResult
replay fills completeness settlements floor positions = do
  let (unique, duplicates) = deduplicate [] 0 fills
  ordered ← sort_fills unique
  w ← walk_fills (is_complete completeness) start ordered
  (orders, stats) ← aggregate_orders ordered
  let result = walked completeness floor (length ordered) duplicates w
  ok (finish (record result { orders = orders; order_stats = stats }) settlements floor positions)
