-- ===== src/Production/Filter.antt =====
-- The filter over the orders of a run (kalshi_router/production.py). `on_refusal` only observes, and is
-- left out. `Counts` is about the counters, `Health` about the word they come to, `Selected` about what is
-- handed on, `Returns` about when the run raises.
pub mod Honest
pub mod Moves
pub mod Rounds
pub mod Counts
pub mod Health
pub mod Selected
pub mod Returns
use kalshi_bet_router.Base.{
  ℕ, suc, String, Bool, true, false, not, ◌&&◌, Option, none, some, List, [], ◌∷◌, ◌++◌,
  if◌then◌else◌, contains, str_eq, Result, ok, err, ◌>>=◌,
}
use kalshi_bet_router.Orders.{OrderExecution, is_sell}
use kalshi_bet_router.Production.Finality.{OrderFinality, is_after_cutover}
use kalshi_bet_router.Production.Gates.{
  ProductionWager, ProductionRefusal, before_cutover, Evidence, Settings, Judgement, wagered,
  refused, exposure_side_destinations, evaluate_order,
}
use kalshi_bet_router.Production.Diagnostics.{
  ProductionDiagnostics, no_diagnostics, count_refused, count_finality,
}

-- `mapping.get(ticker)`
abbrev pub at_ticker {ℓ} : {A : Type ℓ} → List (String × A) → String → Option A
at_ticker [] ticker = none
at_ticker ((t, a) ∷ rest) ticker = if str_eq t ticker then some a else at_ticker rest ticker

abbrev or_no_legs : Option (List (String × String × String)) → List (String × String × String)
or_no_legs none = []
or_no_legs (some legs) = legs

-- What the run knows of the markets.
pub record Markets : Type 0 where
  pub sports : List (String × String)
  pub game_dates : List (String × String)
  pub market_statuses : List (String × String)
  pub combo_tickers : List String
  pub combo_legs : List (String × List (String × String × String))

abbrev pub evidence_for : Markets → OrderExecution → Evidence
evidence_for markets order = record {
  classification_sport = at_ticker markets.sports order.ticker;
  game_date = at_ticker markets.game_dates order.ticker;
  market_status = at_ticker markets.market_statuses order.ticker;
  is_combo = contains order.ticker markets.combo_tickers;
  combo_legs = or_no_legs (at_ticker markets.combo_legs order.ticker);
}

abbrev pub is_history : ProductionRefusal → Bool
is_history before_cutover = true
is_history _ = false

abbrev pub count_if : Bool → ℕ → ℕ
count_if b n = if b then suc n else n

-- The counters that move for every order, before its answer is looked at.
abbrev pub considered : Settings → OrderExecution → ProductionDiagnostics → ProductionDiagnostics
unfolding is_after_cutover
considered settings order d = record d {
  orders_considered = suc d.orders_considered;
  pre_cutover_admitted =
      count_if (settings.include_pre_cutover && not (is_after_cutover order))
        d.pre_cutover_admitted;
}

abbrev pub count_later : Bool → ProductionDiagnostics → ProductionDiagnostics
count_later b d = record d { orders_after_cutover = count_if b d.orders_after_cutover }

abbrev pub with_finality : Option OrderFinality → ProductionDiagnostics → ProductionDiagnostics
unfolding count_finality
with_finality none d = d
with_finality (some finality) d = count_finality finality d

-- One more wager.
abbrev pub eligible_one :
    Markets → OrderExecution → ProductionWager → ProductionDiagnostics → ProductionDiagnostics
eligible_one markets order wager d = record d {
  eligible = suc d.eligible;
  eligible_combo_orders =
      count_if (contains order.ticker markets.combo_tickers) d.eligible_combo_orders;
  sell_orders_recorded_by_exposure =
      count_if (is_sell order && contains wager.sport exposure_side_destinations)
        d.sell_orders_recorded_by_exposure;
  sell_orders_recorded_by_contract =
      count_if (is_sell order && not (contains wager.sport exposure_side_destinations))
        d.sell_orders_recorded_by_contract;
}

abbrev pub Run : Type 0
Run = List ProductionWager × ProductionDiagnostics

-- One round of the loop, with the answer for the order.
unfoldable pub take_outcome : Settings → Markets → OrderExecution → Judgement → Run → Run
unfolding considered with_finality count_refused
take_outcome settings markets order (refused refusal finality) (wagers, d) = (
  wagers,
  count_refused refusal (
      with_finality finality
        (count_later (not (is_history refusal)) (considered settings order d))),
)
take_outcome settings markets order (wagered wager finality) (wagers, d) = (
  wagers ++ (wager ∷ []),
  eligible_one markets order wager
      (with_finality (some finality) (count_later true (considered settings order d))),
)

module _ (sha256 : String → String) where
  unfoldable pub filter_orders : Settings → Markets → List OrderExecution → Run → Result Run
  unfolding evaluate_order take_outcome
  filter_orders settings markets [] run = ok run
  filter_orders settings markets (order ∷ orders) run = do
    outcome ← evaluate_order sha256 settings order (evidence_for markets order)
    filter_orders settings markets orders (take_outcome settings markets order outcome run)

  unfoldable pub evaluate_production : Settings → Markets → List OrderExecution → Result Run
  unfolding filter_orders
  evaluate_production settings markets orders =
      filter_orders settings markets orders ([], no_diagnostics)
