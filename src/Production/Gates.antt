-- ===== src/Production/Gates.antt =====
-- The gates of one order (kalshi_router/production.py). `destinations` and `combo_destinations` are
-- sets, and `ROW_BUILDERS` is here the set of its keys. `Eligible` says when an order passes,
-- `Wagered` what its wager states.
pub mod Eligible
pub mod Each
pub mod Wagered
pub mod Returns
use kalshi_bet_router.Base.{
  ℕ, String, Bool, true, false, not, ◌&&◌, ◌||◌, Option, none, some, List, [], ◌∷◌, map,
  if◌then◌else◌, is_none, contains, str_eq, Result, ok, err, ◌>>=◌,
}
use kalshi_bet_router.Base.Int.{◌+ℤ◌}
use kalshi_bet_router.Decimal.{Decimal, ◌⊕◌, ◌⊖◌, ◌⊗◌}
use kalshi_bet_router.Fill.{OutcomeSide, yes_side, no_side, Action, buy, sell}
use kalshi_bet_router.Wagers.{one_dollar}
use kalshi_bet_router.Orders.{OrderExecution}
use kalshi_bet_router.Production.Keys.{production_source_key}
use kalshi_bet_router.Production.Finality.{
  OrderFinality, is_after_cutover, assess_finality, is_final,
}

pub data ProductionRefusal : Type 0 where
  before_cutover order_not_final no_execution_price fees_incomplete : ProductionRefusal
  market_not_classified sport_unresolved no_destination_importer : ProductionRefusal
  destination_not_activated game_date_not_established : ProductionRefusal
  reduction_not_representable combo_not_recordable : ProductionRefusal

pub record ProductionWager : Type 0 where
  pub source_key : String
  pub market_ticker : String
  pub sport : String
  pub game_date : String
  pub side : String
  pub contracts : Decimal
  pub vwap_price : Decimal
  pub total_fees : Decimal
  pub stake : Decimal
  pub first_execution_time : Decimal
  pub last_execution_time : Decimal
  pub fill_count : ℕ
  pub finality : OrderFinality
  pub execution_action : Option String
  pub is_combo : Bool
  -- A leg is its market ticker, its event ticker and its side.
  pub combo_legs : List (String × String × String)

-- `EXPOSURE_SIDE_DESTINATIONS`
abbrev pub exposure_side_destinations : List String
exposure_side_destinations = []

-- The keys of `ROW_BUILDERS`.
abbrev pub row_builder_sports : List String
row_builder_sports = "MLB" ∷ "NFL" ∷ "CFB" ∷ "NHL" ∷ "NBA" ∷ "SOCCER" ∷ "TENNIS" ∷ []

abbrev pub is_yes : OutcomeSide → Bool
is_yes yes_side = true
is_yes no_side = false

abbrev verb : Action → String
verb buy = "BUY"
verb sell = "SELL"

-- `order.legacy_action.value.upper()`, none where the verb is not known.
abbrev verb_of : Option Action → Option String
verb_of none = none
verb_of (some action) = some (verb action)

-- What is known of the market of an order.
pub record Evidence : Type 0 where
  pub classification_sport : Option String
  pub game_date : Option String
  pub market_status : Option String
  pub is_combo : Bool
  pub combo_legs : List (String × String × String)

-- What a run is told.
pub record Settings : Type 0 where
  pub now : Decimal
  pub destinations : List String
  pub allow_stabilization : Bool
  pub include_pre_cutover : Bool
  pub combo_destinations : List String

-- The answer for one order: the wager or the refusal, and the finality where it was asked.
pub data Judgement : Type 0 where
  wagered : ProductionWager → OrderFinality → Judgement
  refused : ProductionRefusal → Option OrderFinality → Judgement

-- The side that is recorded.
abbrev pub held_side : OrderExecution → String → OutcomeSide
held_side order sport =
    if contains sport exposure_side_destinations then order.exposure_side else order.outcome_side

module _ (sha256 : String → String) where
  -- The wager of an order that has passed, with its price and fee.
  unfoldable pub production_wager :
      OrderExecution
      → Evidence
      → OrderFinality
      → Decimal
      → Decimal
      → String
      → String
      → Result ProductionWager
  production_wager order evidence finality vwap fee sport game_date = do
    let long_yes = is_yes (held_side order sport)
    let contract_price = if long_yes then vwap else one_dollar ⊖ vwap
    key ← production_source_key sha256 order.subaccount_number order.ticker order.order_id
    ok (record {
      source_key = key;
      market_ticker = order.ticker;
      sport = sport;
      game_date = game_date;
      side = if long_yes then "YES" else "NO";
      contracts = order.total_quantity;
      vwap_price = contract_price;
      total_fees = fee;
      stake = contract_price ⊗ order.total_quantity ⊕ fee;
      first_execution_time = order.first_execution_time;
      last_execution_time = order.last_execution_time;
      fill_count = order.fill_count;
      finality = finality;
      execution_action = verb_of order.legacy_action;
      is_combo = evidence.is_combo;
      combo_legs = if evidence.is_combo then evidence.combo_legs else [];
    })

  abbrev pub wagered_of : Result ProductionWager → OrderFinality → Result Judgement
  wagered_of (ok wager) finality = ok (wagered wager finality)
  wagered_of (err e) finality = err e

  -- From the date of the contest on.
  unfoldable pub dated_gate :
      Settings
      → OrderExecution
      → Evidence
      → OrderFinality
      → Decimal
      → Decimal
      → String
      → Option String
      → Result Judgement
  unfolding production_wager
  dated_gate settings order evidence finality vwap fee sport none =
      ok (refused game_date_not_established (some finality))
  dated_gate settings order evidence finality vwap fee sport (some date) =
      if str_eq date ""
      then ok (refused game_date_not_established (some finality))
      else wagered_of (production_wager order evidence finality vwap fee sport date) finality

  -- From the sport on.
  unfoldable pub sport_gate :
      Settings
      → OrderExecution
      → Evidence
      → OrderFinality
      → Decimal
      → Decimal
      → Option String
      → Result Judgement
  unfolding dated_gate
  sport_gate settings order evidence finality vwap fee none =
      ok (refused market_not_classified (some finality))
  sport_gate settings order evidence finality vwap fee (some sport) =
      if contains sport ("UNRESOLVED" ∷ "OTHER" ∷ [])
      then ok (refused sport_unresolved (some finality))
      else if not (contains sport settings.destinations)
      then if contains sport row_builder_sports
        then ok (refused destination_not_activated (some finality))
        else ok (refused no_destination_importer (some finality))
      else if evidence.is_combo && not (contains sport settings.combo_destinations)
      then ok (refused combo_not_recordable (some finality))
      else dated_gate settings order evidence finality vwap fee sport evidence.game_date

  -- From the price and the fee of the order on.
  unfoldable pub economics_gate :
      Settings
      → OrderExecution
      → Evidence
      → OrderFinality
      → Option Decimal
      → Option Decimal
      → Result Judgement
  unfolding sport_gate
  economics_gate settings order evidence finality none fee =
      ok (refused no_execution_price (some finality))
  economics_gate settings order evidence finality (some vwap) none =
      ok (refused fees_incomplete (some finality))
  economics_gate settings order evidence finality (some vwap) (some fee) =
      sport_gate settings order evidence finality vwap fee evidence.classification_sport

  unfoldable pub evaluate_order : Settings → OrderExecution → Evidence → Result Judgement
  unfolding economics_gate assess_finality is_after_cutover
  evaluate_order settings order evidence =
      let finality =
        assess_finality order settings.now evidence.market_status settings.allow_stabilization in
      if not settings.include_pre_cutover && not (is_after_cutover order)
      then ok (refused before_cutover none)
      else if not (is_final finality)
      then ok (refused order_not_final (some finality))
      else economics_gate settings order evidence finality order.vwap_price order.total_fee
