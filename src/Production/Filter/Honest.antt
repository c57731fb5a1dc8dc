-- ===== src/Production/Filter/Honest.antt =====
-- What the answer for one order says of its finality (kalshi_router/production.py).
use kalshi_bet_router.Base.{
  String, Bool, true, false, not, ◌&&◌, Option, none, some, [], ◌∷◌, ◌≡◌, refl, subst,
  if◌then◌else◌, contains, str_eq, Result, ok, err, arith,
}
use kalshi_bet_router.Base.Int.{ltb_ℤ}
use kalshi_bet_router.Decimal.{Decimal}
use kalshi_bet_router.Orders.{OrderExecution}
use kalshi_bet_router.Production.Finality.{
  OrderFinality, production_cutover, is_after_cutover, assess_finality, is_final,
}
use kalshi_bet_router.Production.Gates.{
  ProductionWager, Evidence, Settings, Judgement, wagered, refused, row_builder_sports,
  before_cutover, order_not_final, production_wager, wagered_of, dated_gate, sport_gate,
  economics_gate, evaluate_order,
}

-- History is refused before its finality is asked; a later refusal but `order_not_final` is of a final
-- order, and so is a wager.
abbrev pub IsHonest : Judgement → Type 0
IsHonest (wagered wager finality) = is_final finality ≡ true
IsHonest (refused before_cutover none) = Unit
IsHonest (refused before_cutover (some finality)) = ⊥
IsHonest (refused order_not_final (some finality)) = is_final finality ≡ false
IsHonest (refused refusal none) = ⊥
IsHonest (refused refusal (some finality)) = is_final finality ≡ true

-- The same of a call that may raise.
abbrev pub IsHonestCall : Result Judgement → Type 0
IsHonestCall (err e) = Unit
IsHonestCall (ok outcome) = IsHonest outcome

branch :
    (b : Bool) (first rest : Result Judgement)
    → (b ≡ true → IsHonestCall first)
    → (b ≡ false → IsHonestCall rest)
    → IsHonestCall (if b then first else rest)
branch true first rest h k = h refl
branch false first rest h k = k refl

module _ (sha256 : String → String) (settings : Settings) (order : OrderExecution)
    (evidence : Evidence) (finality : OrderFinality) (final : is_final finality ≡ true) where
  wagered_of-IsHonest : (w : Result ProductionWager) → IsHonestCall (wagered_of sha256 w finality)
  wagered_of-IsHonest (ok w) = final
  wagered_of-IsHonest (err e) = tt

  dated_gate-IsHonest :
      (vwap fee : Decimal) (sport : String) (date : Option String)
      → IsHonestCall (dated_gate sha256 settings order evidence finality vwap fee sport date)
  unfolding dated_gate
  dated_gate-IsHonest vwap fee sport none = final
  dated_gate-IsHonest vwap fee sport (some date) =
      branch (str_eq date "") _ _ (λ e. final)
        (λ e.
          wagered_of-IsHonest (production_wager sha256 order evidence finality vwap fee sport date))

  sport_gate-IsHonest :
      (vwap fee : Decimal) (sport : Option String)
      → IsHonestCall (sport_gate sha256 settings order evidence finality vwap fee sport)
  unfolding sport_gate
  sport_gate-IsHonest vwap fee none = final
  sport_gate-IsHonest vwap fee (some sport) =
      branch (contains sport ("UNRESOLVED" ∷ "OTHER" ∷ [])) _ _ (λ e. final)
        (λ e.
          branch (not (contains sport settings.destinations)) _ _
            (λ e. branch (contains sport row_builder_sports) _ _ (λ e. final) (λ e. final))
            (λ e.
              branch (evidence.is_combo && not (contains sport settings.combo_destinations)) _ _
                (λ e. final) (λ e. dated_gate-IsHonest vwap fee sport evidence.game_date)))

  economics_gate-IsHonest :
      (price charged : Option Decimal)
      → IsHonestCall (economics_gate sha256 settings order evidence finality price charged)
  unfolding economics_gate
  economics_gate-IsHonest none charged = final
  economics_gate-IsHonest (some vwap) none = final
  economics_gate-IsHonest (some vwap) (some fee) =
      sport_gate-IsHonest vwap fee evidence.classification_sport

evaluate_order-IsHonest :
    (sha256 : String → String) (settings : Settings) (order : OrderExecution) (evidence : Evidence)
    → IsHonestCall (evaluate_order sha256 settings order evidence)
unfolding evaluate_order is_after_cutover
evaluate_order-IsHonest sha256 settings order evidence =
    branch
      (not settings.include_pre_cutover
        && not (ltb_ℤ production_cutover order.first_execution_time))
      _ _ (λ e. tt)
      (λ e.
        branch (not (is_final finality)) _ _ (λ e. ground (arith, e))
          (λ e.
            economics_gate-IsHonest sha256 settings order evidence finality (ground (arith, e))
              order.vwap_price order.total_fee))
  where
    finality : OrderFinality
    finality =
        assess_finality order settings.now evidence.market_status settings.allow_stabilization

pub evaluate_order-IsHonest_ok :
    (sha256 : String → String) (settings : Settings) (order : OrderExecution) (evidence : Evidence)
    (outcome : Judgement)
    → evaluate_order sha256 settings order evidence ≡ ok outcome
    → IsHonest outcome
evaluate_order-IsHonest_ok sha256 settings order evidence outcome h =
    subst IsHonestCall h (evaluate_order-IsHonest sha256 settings order evidence)
