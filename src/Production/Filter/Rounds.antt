-- ===== src/Production/Filter/Rounds.antt =====
-- One round of the filter keeps the counts in balance (kalshi_router/production.py).
use kalshi_bet_router.Base.{
  ℕ, suc, ◌+◌, ◌≤◌, Bool, true, false, not, ◌&&◌, none, some, List, [], ◌∷◌, ◌++◌, ◌≡◌, sym, ap,
  ◌∙◌, contains, length, length-append, arith,
}
use kalshi_bet_router.Orders.{OrderExecution, is_sell}
use kalshi_bet_router.Production.Finality.{OrderFinality, is_final}
use kalshi_bet_router.Production.Gates.{
  ProductionWager, Settings, refused, ProductionRefusal, before_cutover, exposure_side_destinations,
}
use kalshi_bet_router.Production.Diagnostics.{
  ProductionDiagnostics, count_refused, count_finality, refusals_total,
}
use kalshi_bet_router.Production.Filter.{
  Markets, Run, count_if, considered, count_later, eligible_one, take_outcome,
}
use kalshi_bet_router.Production.Filter.Honest.{IsHonest}
use kalshi_bet_router.Production.Filter.Moves.{
  finals, opens, apart, aside, count_refused-apart, count_refused-total, count_refused-history,
  count_refused-open, count_finality-aside, count_finality-judged, honest_open,
}

-- The counts after `n` orders.
pub record Balanced (n : ℕ) (run : Run) : Type 0 where
  pub each_considered : run.1.orders_considered ≡ n
  pub each_eligible : run.1.eligible ≡ length run.0
  pub wagered_or_refused : refusals_total run.1 + run.1.eligible ≡ n
  pub history_or_later : run.1.orders_after_cutover + run.1.refused_before_cutover ≡ n
  pub each_judged : finals run.1 + opens run.1 ≡ run.1.orders_after_cutover
  pub open_is_refused : opens run.1 ≡ run.1.refused_order_not_final
  pub some_combos : run.1.eligible_combo_orders ≤ run.1.eligible
  pub some_sells :
      run.1.sell_orders_recorded_by_contract + run.1.sell_orders_recorded_by_exposure
      ≤ run.1.eligible

-- The counts within a round, when the order is not history and its answer is still to be counted.
pub record Begun (n : ℕ) (wagers : ℕ) (d : ProductionDiagnostics) : Type 0 where
  considered_so_far : d.orders_considered ≡ n
  eligible_so_far : d.eligible ≡ wagers
  one_short : suc (refusals_total d + d.eligible) ≡ n
  placed : d.orders_after_cutover + d.refused_before_cutover ≡ n
  unjudged : suc (finals d + opens d) ≡ d.orders_after_cutover
  open_so_far : opens d ≡ d.refused_order_not_final
  combos_so_far : d.eligible_combo_orders ≤ d.eligible
  sells_so_far :
      d.sell_orders_recorded_by_contract + d.sell_orders_recorded_by_exposure ≤ d.eligible

pub begin :
    (settings : Settings) (order : OrderExecution) (n : ℕ) (run : Run)
    → Balanced n run
    → Begun (suc n) (length run.0) (count_later true (considered settings order run.1))
unfolding considered refusals_total
begin settings order n run b = record {
  considered_so_far = omega (arith, b.each_considered);
  eligible_so_far = b.each_eligible;
  one_short = omega (arith, b.wagered_or_refused);
  placed = omega (arith, b.history_or_later);
  unjudged = omega (arith, b.each_judged);
  open_so_far = b.open_is_refused;
  combos_so_far = b.some_combos;
  sells_so_far = b.some_sells;
}

pub refuse-Balanced :
    (r : ProductionRefusal) (f : OrderFinality) (n : ℕ) (wagers : List ProductionWager)
    (d : ProductionDiagnostics)
    → IsHonest (refused r (some f))
    → Begun n (length wagers) d
    → Balanced n (wagers, count_refused r (count_finality f d))
refuse-Balanced r f n wagers d honest b = record {
  each_considered = ap (λ t. t.0) kept ∙ ap (λ t. t.0) less ∙ b.considered_so_far;
  each_eligible = ap (λ t. t.1) kept ∙ ap (λ t. t.1) less ∙ b.eligible_so_far;
  wagered_or_refused = omega (
    arith,
    count_refused-total r mid,
    ap (λ t. t.1) kept,
    ap (λ t. t.1) less,
    ap (λ t. t.5) less,
    b.one_short,
  );
  history_or_later =
      omega (arith, history, ap (λ t. t.2) kept, ap (λ t. t.2) less, ap (λ t. t.3) less, b.placed);
  each_judged = ground (
    arith,
    count_finality-judged f d,
    ap (λ t. t.2) kept,
    ap (λ t. t.2) less,
    ap (λ t. t.3) kept,
    ap (λ t. t.4) kept,
    b.unjudged,
  );
  open_is_refused =
      ap (λ t. t.4) kept
      ∙ (count_finality-judged f d).1
      ∙ ap (count_if (not (is_final f))) (b.open_so_far ∙ sym (ap (λ t. t.4) less))
      ∙ sym (
          count_refused-open r mid
          ∙ ap (λ x. count_if x mid.refused_order_not_final) (honest_open r f honest).1);
  some_combos = omega (
    arith,
    ap (λ t. t.1) kept,
    ap (λ t. t.1) less,
    ap (λ t. t.5) kept,
    ap (λ t. t.6) less,
    b.combos_so_far,
  );
  some_sells = omega (
    arith,
    ap (λ t. t.1) kept,
    ap (λ t. t.1) less,
    ap (λ t. t.6) kept,
    ap (λ t. t.7) less,
    b.sells_so_far,
  );
}
  where
    mid : ProductionDiagnostics
    mid = count_finality f d

    less : aside mid ≡ aside d
    less = count_finality-aside f d

    kept : apart (count_refused r mid) ≡ apart mid
    kept = count_refused-apart r mid

    history : (count_refused r mid).refused_before_cutover ≡ mid.refused_before_cutover
    history =
        count_refused-history r mid
        ∙ ap (λ x. count_if x mid.refused_before_cutover) (honest_open r f honest).0

pub wagered-Balanced :
    (markets : Markets) (order : OrderExecution) (wager : ProductionWager) (f : OrderFinality)
    (n : ℕ) (wagers : List ProductionWager) (d : ProductionDiagnostics)
    → is_final f ≡ true
    → Begun n (length wagers) d
    → Balanced n (wagers ++ (wager ∷ []), eligible_one markets order wager (count_finality f d))
unfolding refusals_total
wagered-Balanced markets order wager f n wagers d final b = record {
  each_considered = ap (λ t. t.0) less ∙ b.considered_so_far;
  each_eligible =
      omega (arith, ap (λ t. t.1) less, b.eligible_so_far, length-append wagers (wager ∷ []));
  wagered_or_refused = omega (arith, ap (λ t. t.1) less, ap (λ t. t.5) less, b.one_short);
  history_or_later = omega (arith, ap (λ t. t.2) less, ap (λ t. t.3) less, b.placed);
  each_judged = ground (arith, count_finality-judged f d, ap (λ t. t.2) less, b.unjudged);
  open_is_refused =
      (count_finality-judged f d).1
      ∙ ap (λ x. count_if (not x) (opens d)) final
      ∙ b.open_so_far
      ∙ sym (ap (λ t. t.4) less);
  some_combos = combos (contains order.ticker markets.combo_tickers);
  some_sells = sells (is_sell order) (contains wager.sport exposure_side_destinations);
}
  where
    mid : ProductionDiagnostics
    mid = count_finality f d

    less : aside mid ≡ aside d
    less = count_finality-aside f d

    combos : (c : Bool) → count_if c mid.eligible_combo_orders ≤ suc mid.eligible
    combos true = omega (arith, ap (λ t. t.1) less, ap (λ t. t.6) less, b.combos_so_far)
    combos false = omega (arith, ap (λ t. t.1) less, ap (λ t. t.6) less, b.combos_so_far)

    sells :
        (s e : Bool)
        → count_if (s && not e) mid.sell_orders_recorded_by_contract
            + count_if (s && e) mid.sell_orders_recorded_by_exposure
          ≤ suc mid.eligible
    sells true true = omega (arith, ap (λ t. t.1) less, ap (λ t. t.7) less, b.sells_so_far)
    sells true false = omega (arith, ap (λ t. t.1) less, ap (λ t. t.7) less, b.sells_so_far)
    sells false e = omega (arith, ap (λ t. t.1) less, ap (λ t. t.7) less, b.sells_so_far)

pub history-Balanced :
    (settings : Settings) (markets : Markets) (order : OrderExecution) (n : ℕ) (run : Run)
    → Balanced n run
    → Balanced (suc n) (take_outcome settings markets order (refused before_cutover none) run)
unfolding take_outcome considered count_refused refusals_total
history-Balanced settings markets order n run b = record {
  each_considered = omega (arith, b.each_considered);
  each_eligible = b.each_eligible;
  wagered_or_refused = omega (arith, b.wagered_or_refused);
  history_or_later = omega (arith, b.history_or_later);
  each_judged = b.each_judged;
  open_is_refused = b.open_is_refused;
  some_combos = b.some_combos;
  some_sells = b.some_sells;
}
