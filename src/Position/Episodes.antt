-- ===== src/Position/Episodes.antt =====
-- A predicate on episodes that every write of `apply_fill` keeps holds of every episode of the
-- ledger (kalshi_router/accounting/position.py); two such predicates.
use mathlib.Core.Option
use kalshi_bet_router.Base.{ℕ, ◌≡◌, refl, ◌∙◌, Bool, String, Option, none, some, All, All-append}
use kalshi_bet_router.Decimal.{Decimal}
use kalshi_bet_router.Fill.{NormalizedFill}
use kalshi_bet_router.Episode.{
  TransitionKind, opens, increases, reduces, closes, reverses, settles, PositionEpisode, Size,
}
use kalshi_bet_router.Position.{MarketLedger, new_episode, record_fill, ended, close_episode}
use kalshi_bet_router.Position.Fills.{advance, closed_out, reversed_out, ambiguous}

abbrev pub OnCurrent : (PositionEpisode → Type 0) → Option PositionEpisode → Type 0
OnCurrent P none = Unit
OnCurrent P (some e) = P e

-- `P` holds of every episode of a ledger.
abbrev pub Throughout : (PositionEpisode → Type 0) → MarketLedger → Type 0
Throughout P l = OnCurrent P l.current_episode × All P l.closed_episodes

-- What a predicate needs, to be kept by a fill applied to a ledger of the given ticker and account.
pub record IsKept (P : PositionEpisode → Type 0) (ticker : String) (account : Option ℕ)
    : Type 0 where
  pub born :
      (l : MarketLedger) (f : NormalizedFill) (at q : Decimal) (b : Bool)
      → l.ticker ≡ ticker
      → l.subaccount_number ≡ account
      → P (new_episode l f at q b)
  pub recorded :
      (e : PositionEpisode) (f : NormalizedFill) (at : Decimal) (o c : Size) (r : Option Decimal)
      (q : Decimal) (l : MarketLedger) (fee : Bool)
      → P e
      → P (record_fill e f at o c r q l fee)
  pub blurred : (e : PositionEpisode) → P e → P (ambiguous e)
  pub finished : (e : PositionEpisode) (f : NormalizedFill) (at : Decimal) → P e → P (ended e f at)

module _ (P : PositionEpisode → Type 0) (ticker : String) (account : Option ℕ)
    (kept : IsKept P ticker account) (fill : NormalizedFill) (at : Decimal) where
  recorded_current :
      (o c : Size) (r : Option Decimal) (q : Decimal) (l : MarketLedger) (fee : Bool)
      (current : Option PositionEpisode)
      → OnCurrent P current
      → OnCurrent P (Option.map (λ e. record_fill e fill at o c r q l fee) current)
  recorded_current o c r q l fee none h = h
  recorded_current o c r q l fee (some e) h = kept.recorded e fill at o c r q l fee h

  closed_out-Throughout :
      (l : MarketLedger) (current : Option PositionEpisode)
      → OnCurrent P l.current_episode
      → OnCurrent P current
      → All P l.closed_episodes
      → Throughout P (closed_out l current fill at)
  unfolding close_episode
  closed_out-Throughout l none here h past = (here, past)
  closed_out-Throughout l (some e) here h past =
      (tt, All-append P l.closed_episodes _ past (kept.finished e fill at h, tt))

  reversed_out-past :
      (l : MarketLedger) (current : Option PositionEpisode)
      → OnCurrent P current
      → All P l.closed_episodes
      → All P (reversed_out l current fill at).closed_episodes
  unfolding close_episode
  reversed_out-past l none h past = past
  reversed_out-past l (some e) h past =
      All-append P l.closed_episodes _ past
        (kept.finished (ambiguous e) fill at (kept.blurred e h), tt)

  reversed_out-owner :
      (l : MarketLedger) (current : Option PositionEpisode)
      → ((reversed_out l current fill at).ticker ≡ l.ticker)
        × ((reversed_out l current fill at).subaccount_number ≡ l.subaccount_number)
  unfolding close_episode
  reversed_out-owner l none = (refl, refl)
  reversed_out-owner l (some e) = (refl, refl)

  module _ (price : Option Decimal) (s : Decimal) (b : Bool) where
    pub advance-Throughout :
        (k : TransitionKind) (l : MarketLedger)
        → l.ticker ≡ ticker
        → l.subaccount_number ≡ account
        → Throughout P l
        → Throughout P (advance k l fill at price s b)
    unfolding advance
    advance-Throughout opens l t a h =
        (kept.recorded _ fill at _ _ _ _ _ _ (kept.born _ fill at _ b t a), h.1)
    advance-Throughout increases l t a h = (recorded_current _ _ _ _ _ _ l.current_episode h.0, h.1)
    advance-Throughout reduces l t a h = (recorded_current _ _ _ _ _ _ l.current_episode h.0, h.1)
    advance-Throughout closes l t a h =
        let here = recorded_current _ _ _ _ _ _ l.current_episode h.0 in
        closed_out-Throughout _ _ here here h.1
    advance-Throughout reverses l t a h =
        let here = recorded_current _ _ _ _ _ _ l.current_episode h.0 in
        let owner = reversed_out-owner _ _ in
        (
          kept.blurred _ (
              kept.recorded _ fill at _ _ _ _ _ _
                (kept.born _ fill at _ b (owner.0 ∙ t) (owner.1 ∙ a))),
          reversed_out-past _ _ here h.1,
        )
    advance-Throughout settles l t a h = h
