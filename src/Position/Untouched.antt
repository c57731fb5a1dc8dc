-- ===== src/Position/Untouched.antt =====
-- What no fill changes in the episodes of a ledger (kalshi_router/accounting/position.py): whose
-- they are, the authority that only a reconciliation grants, and the recorded transitions.
use kalshi_bet_router.Base.{ℕ, ◌≡◌, refl, sym, subst, Bool, String, Option, Result, ok, err, ◌>>=◌}
use kalshi_bet_router.Base.Int.{◌+ℤ◌}
use kalshi_bet_router.Decimal.{Decimal}
use kalshi_bet_router.Fill.{NormalizedFill, project_fill, parse_execution_time}
use kalshi_bet_router.Episode.{PositionEpisode, PositionTransition, not_reconciled}
use kalshi_bet_router.Position.{MarketLedger, classify, new_episode, record_fill}
use kalshi_bet_router.Position.Fills.{advance, apply_fill, transition_of}
use kalshi_bet_router.Position.Episodes.{IsKept, Throughout, advance-Throughout}

-- A fill that is applied was projected and dated, and the rest is `advance`.
pub record IsApplied (l : MarketLedger) (f : NormalizedFill) (b : Bool)
    (r : MarketLedger × PositionTransition) : Type 0 where
  pub quantity : Decimal
  pub price : Option Decimal
  pub at : Decimal
  pub projects : project_fill f ≡ ok (quantity, price)
  pub ledger : r.0 ≡ advance (classify l.position (l.position +ℤ quantity)) l f at price quantity b
  pub transition : r.1 ≡ transition_of l f quantity price

apply_from :
    (l : MarketLedger) (f : NormalizedFill) (b : Bool) {r : MarketLedger × PositionTransition}
    (projected : Result (Decimal × Option Decimal)) (dated : Result Decimal)
    → project_fill f ≡ projected
    → (do
      (s, price) ← projected
      at ← dated
      ok (
        advance (classify l.position (l.position +ℤ s)) l f at price s b,
        transition_of l f s price,
      ))
      ≡ ok r
    → IsApplied l f b r
apply_from l f b (ok (s, price)) (ok at) p e = record {
  quantity = s;
  price = price;
  at = at;
  projects = p;
  ledger = cc;
  transition = cc;
}
apply_from l f b (ok (s, price)) (err x) p e = cc
apply_from l f b (err x) dated p e = cc

pub apply_fill-IsApplied :
    (l : MarketLedger) (f : NormalizedFill) (b : Bool) {r : MarketLedger × PositionTransition}
    → apply_fill l f b ≡ ok r
    → IsApplied l f b r
unfolding apply_fill
apply_fill-IsApplied l f b e = apply_from l f b (project_fill f) (parse_execution_time f) refl e

pub apply_fill-Throughout :
    (P : PositionEpisode → Type 0) (l : MarketLedger)
    → IsKept P l.ticker l.subaccount_number
    → (f : NormalizedFill) (b : Bool) {r : MarketLedger × PositionTransition}
    → apply_fill l f b ≡ ok r
    → Throughout P l
    → Throughout P r.0
apply_fill-Throughout P l kept f b e h =
    let a = apply_fill-IsApplied l f b e in
    subst (Throughout P) (sym a.ledger) (
      advance-Throughout P l.ticker l.subaccount_number kept f a.at a.price a.quantity b _ l refl
        refl h)

-- The episode is its ledger's, and nothing has granted it authority.
abbrev pub Belongs : String → Option ℕ → PositionEpisode → Type 0
Belongs ticker account e =
    (e.ticker ≡ ticker) × (e.subaccount_number ≡ account) × (e.authority ≡ not_reconciled)

Belongs-IsKept :
    (ticker : String) (account : Option ℕ) → IsKept (Belongs ticker account) ticker account
unfolding new_episode record_fill
Belongs-IsKept ticker account = record {
  born = λ l f at q b t a. (t, a, refl);
  recorded = λ e f at o c r q l fee h. h;
  blurred = λ e h. h;
  finished = λ e f at h. h;
}

-- A fill leaves every episode of a ledger under the ledger's own ticker and subaccount and without
-- authority, if they were so before.
pub apply_fill-Belongs :
    (l : MarketLedger) (f : NormalizedFill) (b : Bool) {r : MarketLedger × PositionTransition}
    → apply_fill l f b ≡ ok r
    → Throughout (Belongs l.ticker l.subaccount_number) l
    → Throughout (Belongs l.ticker l.subaccount_number) r.0
apply_fill-Belongs l f b e h =
    apply_fill-Throughout _ l (Belongs-IsKept l.ticker l.subaccount_number) f b e h
