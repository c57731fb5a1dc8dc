-- ===== src/Production/Gates/Each.antt =====
-- What holds of each answer of the gates (kalshi_router/production.py).
use kalshi_bet_router.Base.{
  String, Bool, true, false, not, ◌&&◌, Option, none, some, [], ◌∷◌, ◌≡◌, refl, if◌then◌else◌,
  contains, str_eq, Result, ok, arith,
}
use kalshi_bet_router.Base.Int.{ltb_ℤ}
use kalshi_bet_router.Decimal.{Decimal}
use kalshi_bet_router.Orders.{OrderExecution}
use kalshi_bet_router.Production.Finality.{
  OrderFinality, production_cutover, is_after_cutover, assess_finality, is_final,
}
use kalshi_bet_router.Production.Gates.{
  ProductionRefusal, Evidence, Settings, Judgement, refused, row_builder_sports, production_wager,
  wagered_of, dated_gate, sport_gate, economics_gate, evaluate_order,
}

-- A property of the answer that every refusal has, and every wager, has the answer of the gates.
module _ (sha256 : String → String) (settings : Settings) (order : OrderExecution)
    (evidence : Evidence) (P : Result Judgement → Type 0)
    (refusal_has : (r : ProductionRefusal) (f : Option OrderFinality) → P (ok (refused r f)))
    (wager_has : (finality : OrderFinality) (vwap fee : Decimal) (sport date : String)
      → is_final finality ≡ true
      → order.vwap_price ≡ some vwap
      → order.total_fee ≡ some fee
      → P (
          wagered_of sha256
            (production_wager sha256 order evidence finality vwap fee sport date)
            finality)) where
  branch :
      (b : Bool) (first rest : Result Judgement)
      → P first
      → (b ≡ false → P rest)
      → P (if b then first else rest)
  branch true first rest h k = h
  branch false first rest h k = k refl

  dated_has :
      (finality : OrderFinality) (vwap fee : Decimal) (sport : String) (date : Option String)
      → is_final finality ≡ true
      → order.vwap_price ≡ some vwap
      → order.total_fee ≡ some fee
      → P (dated_gate sha256 settings order evidence finality vwap fee sport date)
  unfolding dated_gate
  dated_has finality vwap fee sport none f p c = refusal_has _ _
  dated_has finality vwap fee sport (some date) f p c =
      branch (str_eq date "") _ _ (refusal_has _ _)
        (λ e. wager_has finality vwap fee sport date f p c)

  sport_has :
      (finality : OrderFinality) (vwap fee : Decimal) (sport : Option String)
      → is_final finality ≡ true
      → order.vwap_price ≡ some vwap
      → order.total_fee ≡ some fee
      → P (sport_gate sha256 settings order evidence finality vwap fee sport)
  unfolding sport_gate
  sport_has finality vwap fee none f p c = refusal_has _ _
  sport_has finality vwap fee (some sport) f p c =
      branch (contains sport ("UNRESOLVED" ∷ "OTHER" ∷ [])) _ _ (refusal_has _ _) (λ e.
        branch (not (contains sport settings.destinations)) _ _
          (branch (contains sport row_builder_sports) _ _ (refusal_has _ _) (λ e. refusal_has _ _))
          (λ e.
            branch (evidence.is_combo && not (contains sport settings.combo_destinations)) _ _
              (refusal_has _ _) (λ e. dated_has finality vwap fee sport evidence.game_date f p c)))

  economics_has :
      (finality : OrderFinality) (price charged : Option Decimal)
      → is_final finality ≡ true
      → order.vwap_price ≡ price
      → order.total_fee ≡ charged
      → P (economics_gate sha256 settings order evidence finality price charged)
  unfolding economics_gate
  economics_has finality none charged f p c = refusal_has _ _
  economics_has finality (some vwap) none f p c = refusal_has _ _
  economics_has finality (some vwap) (some fee) f p c =
      sport_has finality vwap fee evidence.classification_sport f p c

  pub evaluate_order-has : P (evaluate_order sha256 settings order evidence)
  unfolding evaluate_order is_after_cutover
  evaluate_order-has =
      branch
        (not settings.include_pre_cutover
          && not (ltb_ℤ production_cutover order.first_execution_time))
        _ _ (refusal_has _ _)
        (λ e. branch (not (is_final finality)) _ _ (refusal_has _ _) (λ e.
          economics_has finality order.vwap_price order.total_fee (ground (arith, e)) refl refl))
    where
      finality : OrderFinality
      finality =
          assess_finality order settings.now evidence.market_status settings.allow_stabilization
