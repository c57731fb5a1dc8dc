-- ===== src/Production/Gates/Returns.antt =====
-- When the gates of an order raise (kalshi_router/production.py).
use kalshi_bet_router.Base.{
  ◌≢◌, ◌⊎◌, inl, inr, value_error, String, ◌≡◌, refl, Result, ok, err, ◌>>=◌, arith,
}
use kalshi_bet_router.Decimal.{Decimal}
use kalshi_bet_router.Orders.{OrderExecution}
use kalshi_bet_router.Production.Keys.{production_source_key}
use kalshi_bet_router.Production.Gates.Each.{evaluate_order-has}
use kalshi_bet_router.Production.Keys.Identity.{production_source_key-total}
use kalshi_bet_router.Production.Finality.{OrderFinality}
use kalshi_bet_router.Production.Gates.{
  ProductionWager, Evidence, Settings, Judgement, production_wager, wagered_of, evaluate_order,
}

-- An exception is `ValueError`, of an order without a ticker or an id.
abbrev RaisesFor : OrderExecution → Result Judgement → Type 0
RaisesFor order (ok outcome) = Unit
RaisesFor order (err e) = (e ≡ value_error) × ((order.ticker ≡ "") ⊎ (order.order_id ≡ ""))

raised :
    (sha256 : String → String) (order : OrderExecution) (finality : OrderFinality)
    (key : Result String) (make : String → ProductionWager)
    → ((k : String) × (key ≡ ok k) × (order.ticker ≢ "") × (order.order_id ≢ ""))
      ⊎ ((key ≡ err value_error) × ((order.ticker ≡ "") ⊎ (order.order_id ≡ "")))
    → RaisesFor order (wagered_of sha256 (key >>= λ k. ok (make k)) finality)
raised sha256 order finality (ok k) make h = tt
raised sha256 order finality (err e) make (inl named) = ground (arith, named.1)
raised sha256 order finality (err e) make (inr absent) = (ground (arith, absent.0), absent.1)

production_wager-RaisesFor :
    (sha256 : String → String) (order : OrderExecution) (evidence : Evidence)
    (finality : OrderFinality) (vwap fee : Decimal) (sport date : String)
    → RaisesFor order (
        wagered_of sha256
          (production_wager sha256 order evidence finality vwap fee sport date)
          finality)
unfolding production_wager
production_wager-RaisesFor sha256 order evidence finality vwap fee sport date =
    raised sha256 order finality
      (production_source_key sha256 order.subaccount_number order.ticker order.order_id) _
      (production_source_key-total sha256 order.subaccount_number order.ticker order.order_id)

evaluate_order-RaisesFor :
    (sha256 : String → String) (settings : Settings) (order : OrderExecution) (evidence : Evidence)
    → RaisesFor order (evaluate_order sha256 settings order evidence)
evaluate_order-RaisesFor sha256 settings order evidence =
    evaluate_order-has sha256 settings order evidence (RaisesFor order) (λ r f. tt)
      (λ finality vwap fee sport date f p c.
        production_wager-RaisesFor sha256 order evidence finality vwap fee sport date)

-- An order with a ticker and an id is judged; no gate raises for it.
pub evaluate_order-returns :
    (sha256 : String → String) (settings : Settings) (order : OrderExecution) (evidence : Evidence)
    → order.ticker ≢ ""
    → order.order_id ≢ ""
    → (outcome : Judgement) × (evaluate_order sha256 settings order evidence ≡ ok outcome)
evaluate_order-returns sha256 settings order evidence t o =
    go (evaluate_order sha256 settings order evidence)
      (evaluate_order-RaisesFor sha256 settings order evidence)
  where
    go : (r : Result Judgement) → RaisesFor order r → (outcome : Judgement) × (r ≡ ok outcome)
    go (ok outcome) h = (outcome, refl)
    go (err e) h = elim h.1 [ inl k ↦ elim (t k) [ ] | inr k ↦ elim (o k) [ ] ]
