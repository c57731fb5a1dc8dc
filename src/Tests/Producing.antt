-- ===== src/Tests/Producing.antt =====
-- The production filter at small inputs (kalshi_router/production.py).
use kalshi_bet_router.Base.{
  ℕ, String, Bool, true, false, Option, none, some, List, [], ◌∷◌, ◌≡◌, ◌≢◌, ◌⊎◌, ◌↔◌, refl, str,
  length, Result, ok, err, All, arith, str_eq, str_eq_iff,
}
use kalshi_bet_router.Base.Int.{pos, ◌-ℤ◌, ◌+ℤ◌, ◌*ℤ◌}
use kalshi_bet_router.Decimal.{◌⊕◌, ◌⊖◌, ◌⊗◌, context}
use kalshi_bet_router.Fill.{yes_side}
use kalshi_bet_router.Orders.{OrderExecution}
use kalshi_bet_router.Production.Keys.{
  digest_domain, account_name, key_material, production_source_key,
}
use kalshi_bet_router.Production.Keys.Decoding.{read_fields, key_material-read}
use kalshi_bet_router.Production.Keys.Identity.{Order, production_source_key-identifies}
use kalshi_bet_router.Production.Finality.{is_closed}
use kalshi_bet_router.Production.Gates.{Evidence, Settings, evaluate_order}
use kalshi_bet_router.Production.Gates.Eligible.{IsEligible, Comes, evaluate_order-IsEligible}
use kalshi_bet_router.Production.Diagnostics.{HealthState, blocked, health}
use kalshi_bet_router.Production.Filter.{
  Markets, Run, take_outcome, filter_orders, evaluate_production,
}
use kalshi_bet_router.Production.Filter.Rounds.{Balanced}
use kalshi_bet_router.Production.Filter.Counts.{evaluate_production-Balanced}
use kalshi_bet_router.Production.Filter.Health.{Means, evaluate_production-health}
use kalshi_bet_router.Production.Filter.Selected.{Selected}
use kalshi_bet_router.Production.Filter.Returns.{HasNames, evaluate_production-returns}

closed_word : is_closed (some " Settled\n") ≡ true
unfolding is_closed
closed_word = refl

open_word : is_closed (some "active") ≡ false
unfolding is_closed
open_word = refl

key_material-read_example :
    read_fields 4 (key_material (some 12) "A:1" "o|é")
    ≡ some (digest_domain ∷ account_name (some 12) ∷ "A:1" ∷ "o|é" ∷ [])
key_material-read_example = key_material-read (some 12) "A:1" "o|é"

-- A digest that keeps its text.
abbrev same_text : String → String
same_text s = s

key_of :
    production_source_key same_text none "A" "o1"
    ≡ ok "kalshi:v1:31:kalshi-bet-router/source-key/v17:default1:A2:o1"
unfolding production_source_key str
key_of = refl

abbrev this_order : Order
this_order = (none, "A", "o1")

production_source_key-identifies_example :
    (this_order ≡ this_order)
    ⊎ ((key_material none "A" "o1" ≢ key_material none "A" "o1")
        × (key_material none "A" "o1" ≡ key_material none "A" "o1"))
production_source_key-identifies_example =
    production_source_key-identifies same_text this_order this_order _ key_of key_of

-- Ten contracts bought after the cutover.
abbrev bought_order : OrderExecution
bought_order = record {
  order_id = "o1";
  ticker = "A";
  outcome_side = yes_side;
  book_side = none;
  subaccount_number = none;
  total_quantity = pos 10;
  fill_count = 1;
  fill_ids = "f1" ∷ [];
  first_execution_time = pos 1789430500000000;
  last_execution_time = pos 1789430500000000;
  vwap_price = some (pos 5000000000000000000000000000000000000000);
  total_fee = some (pos 2);
  fills_with_fee = 1;
  all_taker = some true;
  exposure_side = yes_side;
  legacy_action = none;
}

-- The same on a market that nothing is known of, and before the cutover.
abbrev unknown_order : OrderExecution
unknown_order = record bought_order { order_id = "o2"; ticker = "B" }

abbrev old_order : OrderExecution
old_order = record bought_order { order_id = "o3"; first_execution_time = pos 1 }

abbrev settings : Settings
settings = record {
  now = pos 1789430600000000;
  destinations = "MLB" ∷ "NFL" ∷ [];
  allow_stabilization = false;
  include_pre_cutover = false;
  combo_destinations = "MLB" ∷ [];
}

abbrev markets : Markets
markets = record {
  sports = ("A", "MLB") ∷ [];
  game_dates = ("A", "2026-09-16") ∷ [];
  market_statuses = ("A", "finalized") ∷ ("B", "closed") ∷ [];
  combo_tickers = [];
  combo_legs = [];
}

abbrev orders : List OrderExecution
orders = bought_order ∷ unknown_order ∷ old_order ∷ []

abbrev evidence : Evidence
evidence = record {
  classification_sport = some "MLB";
  game_date = some "2026-09-16";
  market_status = some "finalized";
  is_combo = false;
  combo_legs = [];
}

evaluate_order-IsEligible_example :
    Comes (evaluate_order same_text settings bought_order evidence)
    ↔ IsEligible settings bought_order evidence
evaluate_order-IsEligible_example =
    evaluate_order-IsEligible same_text settings bought_order evidence

-- A text with a character is not empty.
filled : (s : String) → ◌≡◌ {A = Bool} (str_eq s "") false → s ≢ ""
filled s e h = ground (arith, e, (str_eq_iff s "").1 h)

named : All HasNames orders
named = (
  (filled "A" refl, filled "o1" refl),
  ((filled "B" refl, filled "o2" refl), ((filled "A" refl, filled "o3" refl), tt)),
)

evaluate_production-returns_example :
    (run : Run) × (evaluate_production same_text settings markets orders ≡ ok run)
evaluate_production-returns_example =
    evaluate_production-returns same_text settings markets orders named

-- The run over the three orders.
abbrev ran : (run : Run) × (evaluate_production same_text settings markets orders ≡ ok run)
ran = evaluate_production-returns same_text settings markets orders named

evaluate_production-Balanced_example : Balanced 3 ran.0
evaluate_production-Balanced_example =
    evaluate_production-Balanced same_text settings markets orders ran.0 ran.1

evaluate_production-health_example : Means 3 ran.0.1 (health ran.0.1)
evaluate_production-health_example =
    evaluate_production-health same_text settings markets orders ran.0 ran.1

-- It hands on one wager, and wants a person for the market that was not classified.
abbrev health_of : Result Run → Option (ℕ × HealthState)
health_of (ok run) = some (length run.0, health run.1)
health_of (err e) = none

run_blocked : health_of (evaluate_production same_text settings markets orders) ≡ some (1, blocked)
unfolding evaluate_production filter_orders evaluate_order take_outcome production_source_key health
    context ◌⊕◌ ◌⊖◌ ◌⊗◌ ◌+ℤ◌ ◌-ℤ◌ ◌*ℤ◌
run_blocked = refl
