-- ===== src/Production/Filter/Returns.antt =====
-- When a run raises (kalshi_router/production.py).
use kalshi_bet_router.Base.{String, List, [], ◌∷◌, ◌≡◌, refl, ap, ◌∙◌, ◌≢◌, ok, ◌>>=◌, All}
use kalshi_bet_router.Orders.{OrderExecution}
use kalshi_bet_router.Production.Gates.{Settings}
use kalshi_bet_router.Production.Gates.Returns.{evaluate_order-returns}
use kalshi_bet_router.Production.Diagnostics.{no_diagnostics}
use kalshi_bet_router.Production.Filter.{
  Markets, evidence_for, Run, take_outcome, filter_orders, evaluate_production,
}

-- An order with a ticker and an id.
abbrev pub HasNames : OrderExecution → Type 0
HasNames order = (order.ticker ≢ "") × (order.order_id ≢ "")

filter-returns :
    (sha256 : String → String) (settings : Settings) (markets : Markets)
    (orders : List OrderExecution) (run : Run)
    → All HasNames orders
    → (after : Run) × (filter_orders sha256 settings markets orders run ≡ ok after)
unfolding filter_orders
filter-returns sha256 settings markets [] run named = (run, refl)
filter-returns sha256 settings markets (order ∷ orders) run named =
    let (outcome, found) =
      evaluate_order-returns sha256 settings order (evidence_for markets order) named.0.0
        named.0.1 in
    let (after, rest) =
      filter-returns sha256 settings markets orders
        (take_outcome settings markets order outcome run) named.1 in
    (
      after,
      ap
            (λ r. r >>= λ o.
              filter_orders sha256 settings markets orders
                (take_outcome settings markets order o run))
            found
          ∙ rest,
    )

-- `evaluate_production` returns for every list of orders that have a ticker and an id, whatever the run
-- knows of their markets.
pub evaluate_production-returns :
    (sha256 : String → String) (settings : Settings) (markets : Markets)
    (orders : List OrderExecution)
    → All HasNames orders
    → (run : Run) × (evaluate_production sha256 settings markets orders ≡ ok run)
unfolding evaluate_production
evaluate_production-returns sha256 settings markets orders named =
    filter-returns sha256 settings markets orders ([], no_diagnostics) named
