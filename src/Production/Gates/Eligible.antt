-- ===== src/Production/Gates/Eligible.antt =====
-- An order becomes a wager exactly where every gate is open (kalshi_router/production.py).
use kalshi_bet_router.Base.{
  String, Bool, true, false, not, ◌&&◌, Bool-cases, Option, none, some, [], ◌∷◌, ◌≡◌, ◌≢◌, ◌⊎◌, ◌↔◌,
  inl, inr, refl, if◌then◌else◌, contains, str_eq, str_eq_iff, Result, ok, err, ◌>>=◌, arith,
  value_error, is_some,
}
use kalshi_bet_router.Base.Int.{◌<ℤ◌, ◌≤ℤ◌, ◌-ℤ◌, leb_ℤ, ltb_ℤ}
use kalshi_bet_router.Decimal.{Decimal}
use kalshi_bet_router.Orders.{OrderExecution}
use kalshi_bet_router.Production.Keys.{production_source_key}
use kalshi_bet_router.Production.Keys.Identity.{production_source_key-total}
use kalshi_bet_router.Production.Finality.{
  OrderFinality, final_market_closed, final_stable, pending_recent_fill, unknown, is_closed,
  production_cutover, stabilization, is_after_cutover, assess_finality, is_final,
}
use kalshi_bet_router.Production.Gates.{
  ProductionWager, Evidence, Settings, Judgement, wagered, refused, ProductionRefusal,
  row_builder_sports, production_wager, wagered_of, dated_gate, sport_gate, economics_gate,
  evaluate_order,
}

-- The market is closed, or the caller lets a quiet order count as final and this one is.
abbrev pub IsComplete : Settings → OrderExecution → Evidence → Type 0
IsComplete settings order evidence =
    (is_closed evidence.market_status ≡ true)
    ⊎ ((settings.allow_stabilization ≡ true)
        × (stabilization ≤ℤ settings.now -ℤ order.last_execution_time))

-- A sport that is resolved, whose destination takes the order.
abbrev pub IsRouted : Settings → Bool → Option String → Type 0
IsRouted settings combo none = ⊥
IsRouted settings combo (some sport) =
    (contains sport ("UNRESOLVED" ∷ "OTHER" ∷ []) ≡ false)
    × (contains sport settings.destinations ≡ true)
    × ((combo ≡ false) ⊎ (contains sport settings.combo_destinations ≡ true))

abbrev pub IsDated : Option String → Type 0
IsDated none = ⊥
IsDated (some date) = date ≢ ""

abbrev pub IsNamed : OrderExecution → Type 0
IsNamed order = (order.ticker ≢ "") × (order.order_id ≢ "")

-- Submitted after the cutover, or asked for by the caller.
abbrev pub IsSubmitted : Settings → OrderExecution → Type 0
IsSubmitted settings order =
    (settings.include_pre_cutover ≡ true) ⊎ (production_cutover <ℤ order.first_execution_time)

-- What must hold of an order: it is new and complete, its price and fee are known, its sport is routed,
-- its contest is dated, and it has the names that its key is made of.
abbrev pub IsEligible : Settings → OrderExecution → Evidence → Type 0
IsEligible settings order evidence =
    IsSubmitted settings order
    × (IsComplete settings order evidence
        × ((is_some order.vwap_price ≡ true)
            × ((is_some order.total_fee ≡ true)
                × (IsRouted settings evidence.is_combo evidence.classification_sport
                    × (IsDated evidence.game_date × IsNamed order)))))

final_iff :
    (closed allowed : Bool) (age : Decimal)
    → (is_final (
          if closed
          then final_market_closed
          else if not allowed
          then unknown
          else if leb_ℤ stabilization age
          then final_stable
          else pending_recent_fill)
        ≡ true)
      ↔ ((closed ≡ true) ⊎ ((allowed ≡ true) × (stabilization ≤ℤ age)))
final_iff true allowed age = ((λ h. inl refl), (λ h. refl))
final_iff false false age = ((λ h. ground arith), (λ h. ground arith))
final_iff false true age = ((λ h. ground arith), (λ h. ground arith))

after_cutover_iff :
    (at : Decimal) → (ltb_ℤ production_cutover at ≡ true) ↔ (production_cutover <ℤ at)
after_cutover_iff at = ((λ h. ground arith), (λ h. ground arith))

-- The first gate lets through what was submitted after the cutover, or what the caller asked for.
cutover_iff :
    (included : Bool) (at : Decimal)
    → (not included && not (ltb_ℤ production_cutover at) ≡ false)
      ↔ ((included ≡ true) ⊎ (production_cutover <ℤ at))
cutover_iff true at = ((λ h. inl refl), (λ h. refl))
cutover_iff false at = ((λ h. ground arith), (λ h. ground arith))

combo_iff :
    (combo recordable : Bool)
    → (combo && not recordable ≡ false) ↔ ((combo ≡ false) ⊎ (recordable ≡ true))
combo_iff true true = ((λ h. inr refl), (λ h. refl))
combo_iff true false = ((λ h. ground arith), (λ h. ground arith))
combo_iff false recordable = ((λ h. inl refl), (λ h. refl))

-- Whether a wager comes out of a gate.
abbrev pub Comes : Result Judgement → Type 0
Comes answer = (w : ProductionWager) × (f : OrderFinality) × (answer ≡ ok (wagered w f))

refused_never : (r : ProductionRefusal) (f : Option OrderFinality) → Comes (ok (refused r f)) → ⊥
refused_never r f h = ground (arith, h.2)

-- A gate that refuses where a test holds, in front of the others.
through :
    {P Q : Type 0} (b : Bool) (r : ProductionRefusal) (f : Option OrderFinality)
    (rest : Result Judgement)
    → ((b ≡ false) ↔ P)
    → (Comes rest ↔ Q)
    → Comes (if b then ok (refused r f) else rest) ↔ (P × Q)
through true r f rest p q = ((λ h. elim (refused_never r f h) [ ]), (λ h. ground (arith, p.1 h.0)))
through false r f rest p q = ((λ h. (p.0 refl, q.0 h)), (λ h. q.1 h.1))

-- The gate with two refusals.
unrouted :
    {Q : Type 0} (routed buildable : Bool) (r q : ProductionRefusal) (f : Option OrderFinality)
    (rest : Result Judgement)
    → (Comes rest ↔ Q)
    → Comes (if not routed then if buildable then ok (refused r f) else ok (refused q f) else rest)
      ↔ ((routed ≡ true) × Q)
unrouted true buildable r q f rest i = ((λ h. (refl, i.0 h)), (λ h. i.1 h.1))
unrouted false true r q f rest i =
    ((λ h. elim (refused_never r f h) [ ]), (λ h. ground (arith, h.0)))
unrouted false false r q f rest i =
    ((λ h. elim (refused_never q f h) [ ]), (λ h. ground (arith, h.0)))

regrouped : {C A B D E : Type 0} → (C ↔ (A × (B × (D × E)))) → (C ↔ ((A × B × D) × E))
regrouped i = (
  (λ c. let h = i.0 c in ((h.0, h.1.0, h.1.1.0), h.1.1.1)),
  (λ h. i.1 (h.0.0, (h.0.1, (h.0.2, h.1)))),
)

nothing_through :
    {Q : Type 0} (r : ProductionRefusal) (f : Option OrderFinality)
    → Comes (ok (refused r f)) ↔ (⊥ × Q)
nothing_through r f = ((λ h. elim (refused_never r f h) [ ]), (λ h. elim h.0 [ ]))

not_empty : (s : String) → (str_eq s "" ≡ false) ↔ (s ≢ "")
not_empty s = (
  (λ h e. ground (arith, h, (str_eq_iff s "").1 e)),
  (λ h. elim (Bool-cases (str_eq s "")) [
    | inl e ↦ elim (h ((str_eq_iff s "").0 e)) [ ]
    | inr e ↦ e
  ]),
)

module _ (sha256 : String → String) (settings : Settings) (order : OrderExecution)
    (evidence : Evidence) (finality : OrderFinality) (vwap fee : Decimal) where
  keyed :
      (key : Result String)
      → ((k : String) × (key ≡ ok k) × (order.ticker ≢ "") × (order.order_id ≢ ""))
        ⊎ ((key ≡ err value_error) × ((order.ticker ≡ "") ⊎ (order.order_id ≡ "")))
      → (make : String → ProductionWager)
      → Comes (wagered_of sha256 (key >>= λ k. ok (make k)) finality) ↔ IsNamed order
  keyed (ok k) (inl named) make = ((λ h. (named.2, named.3)), (λ h. (make k, finality, refl)))
  keyed (ok k) (inr absent) make = ground (arith, absent.0)
  keyed (err e) (inl named) make = ground (arith, named.1)
  keyed (err e) (inr absent) make = (
    (λ h. ground (arith, h.2)),
    (λ h. elim absent.1 [ inl t ↦ elim (h.0 t) [ ] | inr o ↦ elim (h.1 o) [ ] ]),
  )

  production_wager-Comes :
      (sport date : String)
      → Comes (
          wagered_of sha256
            (production_wager sha256 order evidence finality vwap fee sport date)
            finality)
        ↔ IsNamed order
  unfolding production_wager
  production_wager-Comes sport date =
      keyed (production_source_key sha256 order.subaccount_number order.ticker order.order_id)
        (production_source_key-total sha256 order.subaccount_number order.ticker order.order_id) _

  dated_gate-Comes :
      (sport : String) (date : Option String)
      → Comes (dated_gate sha256 settings order evidence finality vwap fee sport date)
        ↔ (IsDated date × IsNamed order)
  unfolding dated_gate
  dated_gate-Comes sport none = nothing_through _ _
  dated_gate-Comes sport (some date) =
      through (str_eq date "") _ _ _ (not_empty date) (production_wager-Comes sport date)

  sport_gate-Comes :
      (sport : Option String)
      → Comes (sport_gate sha256 settings order evidence finality vwap fee sport)
        ↔ (IsRouted settings evidence.is_combo sport × (IsDated evidence.game_date × IsNamed order))
  unfolding sport_gate
  sport_gate-Comes none = nothing_through _ _
  sport_gate-Comes (some sport) = regrouped (
      through (contains sport ("UNRESOLVED" ∷ "OTHER" ∷ [])) _ _ _ ((λ e. e), (λ e. e))
        (unrouted (contains sport settings.destinations) (contains sport row_builder_sports) _ _ _ _
          (through (evidence.is_combo && not (contains sport settings.combo_destinations)) _ _ _
            (combo_iff evidence.is_combo (contains sport settings.combo_destinations))
            (dated_gate-Comes sport evidence.game_date))))

economics_gate-Comes :
    (sha256 : String → String) (settings : Settings) (order : OrderExecution) (evidence : Evidence)
    (finality : OrderFinality) (price charged : Option Decimal)
    → Comes (economics_gate sha256 settings order evidence finality price charged) ↔ (
        (is_some price ≡ true)
        × ((is_some charged ≡ true)
            × (IsRouted settings evidence.is_combo evidence.classification_sport
                × (IsDated evidence.game_date × IsNamed order))))
unfolding economics_gate
economics_gate-Comes sha256 settings order evidence finality none charged =
    ((λ h. elim (refused_never _ _ h) [ ]), (λ h. ground (arith, h.0)))
economics_gate-Comes sha256 settings order evidence finality (some price) none =
    ((λ h. elim (refused_never _ _ h) [ ]), (λ h. ground (arith, h.1.0)))
economics_gate-Comes sha256 settings order evidence finality (some price) (some charged) =
    let i =
      sport_gate-Comes sha256 settings order evidence finality price charged
        evidence.classification_sport in
    ((λ h. (refl, (refl, i.0 h))), (λ h. i.1 h.1.1))

open_iff :
    (settings : Settings) (order : OrderExecution) (evidence : Evidence)
    → (not (
          is_final (
            assess_finality order settings.now evidence.market_status settings.allow_stabilization))
        ≡ false)
      ↔ IsComplete settings order evidence
unfolding assess_finality
open_iff settings order evidence =
    let i =
      final_iff (is_closed evidence.market_status) settings.allow_stabilization
        (settings.now -ℤ order.last_execution_time) in
    ((λ h. i.0 (ground (arith, h))), (λ h. ground (arith, i.1 h)))

-- `evaluate_order` answers with a wager exactly where the order is eligible: submitted after the cutover
-- or asked for by the caller; its market closed, or quiet for the stabilization window where the caller
-- allows that; its price and fee known; its sport resolved, among the destinations, and for a combo among
-- those that record one; its contest dated; and its ticker and order id not empty.
pub evaluate_order-IsEligible :
    (sha256 : String → String) (settings : Settings) (order : OrderExecution) (evidence : Evidence)
    → Comes (evaluate_order sha256 settings order evidence) ↔ IsEligible settings order evidence
unfolding evaluate_order is_after_cutover
evaluate_order-IsEligible sha256 settings order evidence =
    through
      (not settings.include_pre_cutover
        && not (ltb_ℤ production_cutover order.first_execution_time))
      _ _ _ (cutover_iff settings.include_pre_cutover order.first_execution_time)
      (through (not (is_final finality)) _ _ _ (open_iff settings order evidence) (
        economics_gate-Comes sha256 settings order evidence finality order.vwap_price
          order.total_fee))
  where
    finality : OrderFinality
    finality =
        assess_finality order settings.now evidence.market_status settings.allow_stabilization
