-- ===== src/Production/Gates/Wagered.antt =====
-- What the wager of an order states (kalshi_router/production.py).
use kalshi_bet_router.Base.{
  String, true, some, ◌≡◌, refl, subst, if◌then◌else◌, Result, ok, err, ◌>>=◌,
}
use kalshi_bet_router.Decimal.{Decimal, ◌⊕◌, ◌⊖◌, ◌⊗◌}
use kalshi_bet_router.Wagers.{one_dollar}
use kalshi_bet_router.Orders.{OrderExecution}
use kalshi_bet_router.Production.Keys.{production_source_key}
use kalshi_bet_router.Production.Gates.Each.{evaluate_order-has}
use kalshi_bet_router.Production.Finality.{OrderFinality, is_final}
use kalshi_bet_router.Production.Gates.{
  ProductionWager, Evidence, Settings, Judgement, wagered, refused, is_yes, production_wager,
  wagered_of, evaluate_order,
}

-- The price of a contract of the side that the order traded, given the price of YES.
abbrev own_price : OrderExecution → Decimal → Decimal
own_price order vwap = if is_yes order.outcome_side then vwap else one_dollar ⊖ vwap

-- The wager has the order's key, market, contracts and clocks; it costs the price of the side traded times
-- the contracts, and the fee; and the order was final.
pub record IsWagerOf (sha256 : String → String) (order : OrderExecution) (w : ProductionWager)
    : Type 0 where
  pub keyed :
      production_source_key sha256 order.subaccount_number order.ticker order.order_id
      ≡ ok w.source_key
  pub on_market : w.market_ticker ≡ order.ticker
  pub on_side : w.side ≡ (if is_yes order.outcome_side then "YES" else "NO")
  pub for_contracts : w.contracts ≡ order.total_quantity
  pub priced :
      (vwap : Decimal) × (order.vwap_price ≡ some vwap) × (w.vwap_price ≡ own_price order vwap)
  pub charged : order.total_fee ≡ some w.total_fees
  pub staked : w.stake ≡ w.vwap_price ⊗ w.contracts ⊕ w.total_fees
  pub settled_order : is_final w.finality ≡ true

abbrev States : (String → String) → OrderExecution → Result Judgement → Type 0
States sha256 order (err e) = Unit
States sha256 order (ok (refused refusal finality)) = Unit
States sha256 order (ok (wagered wager finality)) = IsWagerOf sha256 order wager

chained :
    (sha256 : String → String) (order : OrderExecution) (finality : OrderFinality)
    (key : Result String) (make : String → ProductionWager)
    → ((k : String) → key ≡ ok k → IsWagerOf sha256 order (make k))
    → States sha256 order (wagered_of sha256 (key >>= λ k. ok (make k)) finality)
chained sha256 order finality (err e) make h = tt
chained sha256 order finality (ok k) make h = h k refl

keyed-States :
    (sha256 : String → String) (order : OrderExecution) (evidence : Evidence)
    (finality : OrderFinality) (vwap fee : Decimal) (sport date : String)
    → is_final finality ≡ true
    → order.vwap_price ≡ some vwap
    → order.total_fee ≡ some fee
    → States sha256 order (
        wagered_of sha256
          (production_wager sha256 order evidence finality vwap fee sport date)
          finality)
unfolding production_wager
keyed-States sha256 order evidence finality vwap fee sport date final p c =
    chained sha256 order finality
      (production_source_key sha256 order.subaccount_number order.ticker order.order_id) _
      λ k h. record {
        keyed = h;
        on_market = refl;
        on_side = refl;
        for_contracts = refl;
        priced = (vwap, p, refl);
        charged = c;
        staked = refl;
        settled_order = final;
      }

-- The wager that `evaluate_order` makes of an order has the order's source key, market, side, contracts and
-- fee; its price is the order's average on the side traded; its stake is that price times the contracts,
-- and the fee; and it is of a final order.
pub evaluate_order-IsWagerOf :
    (sha256 : String → String) (settings : Settings) (order : OrderExecution) (evidence : Evidence)
    (wager : ProductionWager) (finality : OrderFinality)
    → evaluate_order sha256 settings order evidence ≡ ok (wagered wager finality)
    → IsWagerOf sha256 order wager
evaluate_order-IsWagerOf sha256 settings order evidence wager finality h =
    subst (States sha256 order) h (
      evaluate_order-has sha256 settings order evidence (States sha256 order) (λ r f. tt)
        (keyed-States sha256 order evidence))
