-- ===== src/Production/Filter/Health.antt =====
-- The word for a run says what became of its orders (kalshi_router/production.py).
use kalshi_bet_router.Base.{
  ℕ, ◌+◌, ◌<◌, String, Bool, true, false, not, List, ◌≡◌, refl, if◌then◌else◌, ◌==◌, length, ok,
  arith,
}
use kalshi_bet_router.Orders.{OrderExecution}
use kalshi_bet_router.Production.Gates.{Settings}
use kalshi_bet_router.Production.Diagnostics.{
  ProductionDiagnostics, HealthState, healthy_no_op, delivered, deferred, not_routable, blocked,
  refusals_total, blocked_orders, deferred_orders, health,
}
use kalshi_bet_router.Production.Filter.{Markets, Run, evaluate_production}
use kalshi_bet_router.Production.Filter.Rounds.{Balanced}
use kalshi_bet_router.Production.Filter.Counts.{evaluate_production-Balanced}

-- What each word says of a run over `n` orders. `d.refused_before_cutover` orders are history, and
-- `d.refused_no_destination_importer` have no repository to go to.
abbrev pub Means : ℕ → ProductionDiagnostics → HealthState → Type 0
Means n d blocked = 0 < blocked_orders d
Means n d deferred = (blocked_orders d ≡ 0) × (0 < d.refused_order_not_final)
Means n d delivered =
    (d.eligible + d.refused_before_cutover + d.refused_no_destination_importer ≡ n)
    × (0 < d.eligible)
Means n d not_routable =
    (d.refused_before_cutover + d.refused_no_destination_importer ≡ n)
    × (0 < d.refused_no_destination_importer)
Means n d healthy_no_op = d.refused_before_cutover ≡ n

health-Means : (n : ℕ) (run : Run) → Balanced n run → Means n run.1 (health run.1)
unfolding health refusals_total blocked_orders deferred_orders
health-Means n run b =
    go (blocked_orders run.1 == 0) (deferred_orders run.1 == 0) (run.1.eligible == 0)
      (run.1.orders_after_cutover == 0) refl refl refl refl
  where
    go :
        (no_blocked no_deferred no_eligible no_later : Bool)
        → blocked_orders run.1 == 0 ≡ no_blocked
        → deferred_orders run.1 == 0 ≡ no_deferred
        → run.1.eligible == 0 ≡ no_eligible
        → run.1.orders_after_cutover == 0 ≡ no_later
        → Means n run.1 (
            if not no_blocked
            then blocked
            else if not no_deferred
            then deferred
            else if not no_eligible
            then delivered
            else if not no_later
            then not_routable
            else healthy_no_op)
    go false d e l hb hd he hl = ground arith
    go true false e l hb hd he hl = (ground arith, ground arith)
    go true true false l hb hd he hl = (ground (arith, b.wagered_or_refused), ground arith)
    go true true true false hb hd he hl = (
      ground (arith, b.wagered_or_refused),
      ground (arith, b.wagered_or_refused, b.history_or_later),
    )
    go true true true true hb hd he hl = ground (arith, b.history_or_later)

-- Where `evaluate_production` returns, the health of its counts says what became of the orders: blocked,
-- at least one was refused for a reason that needs a person; deferred, none was and one may still
-- change, whether or not others became wagers; delivered, there is a wager and every other order is
-- history or has no repository to go to;
-- not routable, every order is history or has no repository, which at least one has not; and a healthy
-- no-op, every order is history.
pub evaluate_production-health :
    (sha256 : String → String) (settings : Settings) (markets : Markets)
    (orders : List OrderExecution) (run : Run)
    → evaluate_production sha256 settings markets orders ≡ ok run
    → Means (length orders) run.1 (health run.1)
evaluate_production-health sha256 settings markets orders run h =
    health-Means (length orders) run
      (evaluate_production-Balanced sha256 settings markets orders run h)
