-- ===== src/Production/Filter/Moves.antt =====
-- What each counter of a run moves by (kalshi_router/production.py).
use kalshi_bet_router.Base.{ℕ, suc, ◌+◌, false, not, none, some, ◌≡◌, refl, arith}
use kalshi_bet_router.Production.Finality.{
  OrderFinality, final_market_closed, final_stable, pending_recent_fill, unknown, is_final,
}
use kalshi_bet_router.Production.Gates.{
  refused, ProductionRefusal, before_cutover, order_not_final, no_execution_price, fees_incomplete,
  market_not_classified, sport_unresolved, no_destination_importer, destination_not_activated,
  game_date_not_established, reduction_not_representable, combo_not_recordable,
}
use kalshi_bet_router.Production.Diagnostics.{
  ProductionDiagnostics, count_refused, count_finality, refusals_total, is_self_resolving,
}
use kalshi_bet_router.Production.Filter.{is_history, count_if}
use kalshi_bet_router.Production.Filter.Honest.{IsHonest}

-- Orders whose finality is settled, and orders that may still change.
abbrev pub finals : ProductionDiagnostics → ℕ
finals d = d.final_market_closed_orders + d.final_stable_orders

abbrev pub opens : ProductionDiagnostics → ℕ
opens d = d.pending_recent_fill_orders + d.finality_unknown

-- What a refusal leaves alone: orders, wagers, those after the cutover, the final and the open ones, the
-- combos and the sales.
abbrev pub apart : ProductionDiagnostics → ℕ × ℕ × ℕ × ℕ × ℕ × ℕ × ℕ
apart d = (
  d.orders_considered,
  d.eligible,
  d.orders_after_cutover,
  finals d,
  opens d,
  d.eligible_combo_orders,
  d.sell_orders_recorded_by_contract + d.sell_orders_recorded_by_exposure,
)

pub count_refused-apart :
    (r : ProductionRefusal) (d : ProductionDiagnostics) → apart (count_refused r d) ≡ apart d
unfolding count_refused
count_refused-apart before_cutover d = refl
count_refused-apart order_not_final d = refl
count_refused-apart no_execution_price d = refl
count_refused-apart fees_incomplete d = refl
count_refused-apart market_not_classified d = refl
count_refused-apart sport_unresolved d = refl
count_refused-apart no_destination_importer d = refl
count_refused-apart destination_not_activated d = refl
count_refused-apart game_date_not_established d = refl
count_refused-apart reduction_not_representable d = refl
count_refused-apart combo_not_recordable d = refl

pub count_refused-total :
    (r : ProductionRefusal) (d : ProductionDiagnostics)
    → refusals_total (count_refused r d) ≡ suc (refusals_total d)
unfolding count_refused refusals_total
count_refused-total before_cutover d = omega arith
count_refused-total order_not_final d = omega arith
count_refused-total no_execution_price d = omega arith
count_refused-total fees_incomplete d = omega arith
count_refused-total market_not_classified d = omega arith
count_refused-total sport_unresolved d = omega arith
count_refused-total no_destination_importer d = omega arith
count_refused-total destination_not_activated d = omega arith
count_refused-total game_date_not_established d = omega arith
count_refused-total reduction_not_representable d = omega arith
count_refused-total combo_not_recordable d = omega arith

-- The two counters of refusals that have a part of their own in the balance.
pub count_refused-history :
    (r : ProductionRefusal) (d : ProductionDiagnostics)
    → (count_refused r d).refused_before_cutover ≡ count_if (is_history r) d.refused_before_cutover
unfolding count_refused
count_refused-history before_cutover d = refl
count_refused-history order_not_final d = refl
count_refused-history no_execution_price d = refl
count_refused-history fees_incomplete d = refl
count_refused-history market_not_classified d = refl
count_refused-history sport_unresolved d = refl
count_refused-history no_destination_importer d = refl
count_refused-history destination_not_activated d = refl
count_refused-history game_date_not_established d = refl
count_refused-history reduction_not_representable d = refl
count_refused-history combo_not_recordable d = refl

pub count_refused-open :
    (r : ProductionRefusal) (d : ProductionDiagnostics)
    → (count_refused r d).refused_order_not_final
      ≡ count_if (is_self_resolving r) d.refused_order_not_final
unfolding count_refused
count_refused-open before_cutover d = refl
count_refused-open order_not_final d = refl
count_refused-open no_execution_price d = refl
count_refused-open fees_incomplete d = refl
count_refused-open market_not_classified d = refl
count_refused-open sport_unresolved d = refl
count_refused-open no_destination_importer d = refl
count_refused-open destination_not_activated d = refl
count_refused-open game_date_not_established d = refl
count_refused-open reduction_not_representable d = refl
count_refused-open combo_not_recordable d = refl

-- What a finality leaves alone.
abbrev pub aside : ProductionDiagnostics → ℕ × ℕ × ℕ × ℕ × ℕ × ℕ × ℕ × ℕ
aside d = (
  d.orders_considered,
  d.eligible,
  d.orders_after_cutover,
  d.refused_before_cutover,
  d.refused_order_not_final,
  refusals_total d,
  d.eligible_combo_orders,
  d.sell_orders_recorded_by_contract + d.sell_orders_recorded_by_exposure,
)

pub count_finality-aside :
    (f : OrderFinality) (d : ProductionDiagnostics) → aside (count_finality f d) ≡ aside d
unfolding count_finality refusals_total
count_finality-aside final_market_closed d = refl
count_finality-aside final_stable d = refl
count_finality-aside pending_recent_fill d = refl
count_finality-aside unknown d = refl

pub count_finality-judged :
    (f : OrderFinality) (d : ProductionDiagnostics)
    → (finals (count_finality f d) ≡ count_if (is_final f) (finals d))
      × (opens (count_finality f d) ≡ count_if (not (is_final f)) (opens d))
unfolding count_finality
count_finality-judged final_market_closed d = (omega arith, omega arith)
count_finality-judged final_stable d = (omega arith, omega arith)
count_finality-judged pending_recent_fill d = (omega arith, omega arith)
count_finality-judged unknown d = (omega arith, omega arith)

-- Past the cutover, an order is refused as open exactly where it is.
pub honest_open :
    (r : ProductionRefusal) (f : OrderFinality)
    → IsHonest (refused r (some f))
    → (is_history r ≡ false) × (is_self_resolving r ≡ not (is_final f))
honest_open before_cutover f h = elim h [ ]
honest_open order_not_final f h = (refl, ground (arith, h))
honest_open no_execution_price f h = (refl, ground (arith, h))
honest_open fees_incomplete f h = (refl, ground (arith, h))
honest_open market_not_classified f h = (refl, ground (arith, h))
honest_open sport_unresolved f h = (refl, ground (arith, h))
honest_open no_destination_importer f h = (refl, ground (arith, h))
honest_open destination_not_activated f h = (refl, ground (arith, h))
honest_open game_date_not_established f h = (refl, ground (arith, h))
honest_open reduction_not_representable f h = (refl, ground (arith, h))
honest_open combo_not_recordable f h = (refl, ground (arith, h))

-- A refusal without a finality is that of history.
pub honest_history : (r : ProductionRefusal) → IsHonest (refused r none) → r ≡ before_cutover
honest_history before_cutover h = refl
honest_history order_not_final h = elim h [ ]
honest_history no_execution_price h = elim h [ ]
honest_history fees_incomplete h = elim h [ ]
honest_history market_not_classified h = elim h [ ]
honest_history sport_unresolved h = elim h [ ]
honest_history no_destination_importer h = elim h [ ]
honest_history destination_not_activated h = elim h [ ]
honest_history game_date_not_established h = elim h [ ]
honest_history reduction_not_representable h = elim h [ ]
honest_history combo_not_recordable h = elim h [ ]
