-- ===== src/Production/Filter/Counts.antt =====
-- The counts of a run account for every order (kalshi_router/production.py).
use kalshi_bet_router.Base.{
  ℕ, suc, ◌+◌, String, true, not, none, some, List, [], ◌∷◌, ◌≡◌, refl, sym, subst, length, Result,
  ok, err, arith,
}
use kalshi_bet_router.Orders.{OrderExecution}
use kalshi_bet_router.Orders.Counts.{chain-ok}
use kalshi_bet_router.Production.Gates.{Settings, Judgement, wagered, refused, evaluate_order}
use kalshi_bet_router.Production.Diagnostics.{
  no_diagnostics, count_refused, count_finality, refusals_total,
}
use kalshi_bet_router.Production.Filter.{
  Markets, evidence_for, Run, considered, count_later, take_outcome, filter_orders,
  evaluate_production,
}
use kalshi_bet_router.Production.Filter.Honest.{IsHonest, evaluate_order-IsHonest_ok}
use kalshi_bet_router.Production.Filter.Moves.{honest_open, honest_history}
use kalshi_bet_router.Production.Filter.Rounds.{
  Balanced, begin, refuse-Balanced, wagered-Balanced, history-Balanced,
}

take-Balanced :
    (settings : Settings) (markets : Markets) (order : OrderExecution) (outcome : Judgement) (n : ℕ)
    (run : Run)
    → IsHonest outcome
    → Balanced n run
    → Balanced (suc n) (take_outcome settings markets order outcome run)
unfolding take_outcome
take-Balanced settings markets order (refused refusal none) n run honest b =
    subst (λ r. Balanced (suc n) (take_outcome settings markets order (refused r none) run))
      (sym (honest_history refusal honest)) (history-Balanced settings markets order n run b)
take-Balanced settings markets order (refused refusal (some f)) n run honest b =
    subst
      (λ x. Balanced (suc n) (
        run.0,
        count_refused refusal
            (count_finality f (count_later (not x) (considered settings order run.1))),
      ))
      (sym (honest_open refusal f honest).0)
      (refuse-Balanced refusal f (suc n) run.0 (count_later true (considered settings order run.1))
        honest (begin settings order n run b))
take-Balanced settings markets order (wagered wager finality) n run honest b =
    wagered-Balanced markets order wager finality (suc n) run.0
      (count_later true (considered settings order run.1)) honest (begin settings order n run b)

filter-Balanced :
    (sha256 : String → String) (settings : Settings) (markets : Markets)
    (orders : List OrderExecution) (n : ℕ) (before after : Run)
    → Balanced n before
    → filter_orders sha256 settings markets orders before ≡ ok after
    → Balanced (n + length orders) after
unfolding filter_orders
filter-Balanced sha256 settings markets [] n before after b h =
    subst (λ k. Balanced k after) (omega arith) (subst BalancedCall h b)
  where
    BalancedCall : Result Run → Type 0
    BalancedCall (ok run) = Balanced n run
    BalancedCall (err e) = Unit
filter-Balanced sha256 settings markets (order ∷ orders) n before after b h =
    let (outcome, found, rest) =
      chain-ok (evaluate_order sha256 settings order (evidence_for markets order)) _ after h in
    subst (λ k. Balanced k after) (omega arith)
      (filter-Balanced sha256 settings markets orders (suc n) _ after
        (take-Balanced settings markets order outcome n before
          (evaluate_order-IsHonest_ok sha256 settings order (evidence_for markets order) outcome
            found)
          b)
        rest)

none_yet : Balanced 0 ([], no_diagnostics)
unfolding refusals_total
none_yet = record {
  each_considered = refl;
  each_eligible = refl;
  wagered_or_refused = refl;
  history_or_later = refl;
  each_judged = refl;
  open_is_refused = refl;
  some_combos = omega arith;
  some_sells = omega arith;
}

-- Where `evaluate_production` returns, its counts account for every order. Each is counted as considered,
-- as a wager or by exactly one refusal, and as history or as later; there are as many eligible ones as
-- wagers handed on; each later one has one finality counted, and those that may still change are the ones
-- refused as not final. Combos and sales are counted among the wagers.
pub evaluate_production-Balanced :
    (sha256 : String → String) (settings : Settings) (markets : Markets)
    (orders : List OrderExecution) (run : Run)
    → evaluate_production sha256 settings markets orders ≡ ok run
    → Balanced (length orders) run
unfolding evaluate_production
evaluate_production-Balanced sha256 settings markets orders run h =
    subst (λ k. Balanced k run) (omega arith)
      (filter-Balanced sha256 settings markets orders 0 ([], no_diagnostics) run none_yet h)
