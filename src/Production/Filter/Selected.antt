-- ===== src/Production/Filter/Selected.antt =====
-- The wagers that a run hands on (kalshi_router/production.py).
use kalshi_bet_router.Base.{String, List, [], ◌∷◌, Result}
use kalshi_bet_router.Orders.{OrderExecution}
use kalshi_bet_router.Production.Gates.{ProductionWager, Settings, Judgement, evaluate_order}
use kalshi_bet_router.Production.Gates.Eligible.{IsEligible}
use kalshi_bet_router.Production.Gates.Wagered.{IsWagerOf}
use kalshi_bet_router.Production.Filter.{Markets, evidence_for}

module _ (sha256 : String → String) (settings : Settings) (markets : Markets) where
  -- The answer for an order of the run.
  abbrev answer : OrderExecution → Result Judgement
  answer order = evaluate_order sha256 settings order (evidence_for markets order)

  -- The wagers are those of the eligible orders, in their order, one for each.
  pub data Selected : List OrderExecution → List ProductionWager → Type 0 where
    done : Selected [] []
    passed_over :
        (order : OrderExecution) {orders : List OrderExecution} {wagers : List ProductionWager}
        → (IsEligible settings order (evidence_for markets order) → ⊥)
        → Selected orders wagers
        → Selected (order ∷ orders) wagers
    handed_on :
        (order : OrderExecution) (wager : ProductionWager) {orders : List OrderExecution}
        {wagers : List ProductionWager}
        → IsEligible settings order (evidence_for markets order)
        → IsWagerOf sha256 order wager
        → Selected orders wagers
        → Selected (order ∷ orders) (wager ∷ wagers)
