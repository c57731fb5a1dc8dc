-- ===== src/Position/Applied.antt =====
-- What `apply_fill` returns (kalshi_router/accounting/position.py): it is total on fills that carry
-- a positive quantity and a time, and the position, the invariant and the transition are right.
use kalshi_bet_router.Base.{
  ℕ, suc, ◌+◌, ◌≡◌, ◌≢◌, refl, sym, ap, arith, Bool, Option, none, some, ok,
}
use kalshi_bet_router.Base.Int.{ℤ, pos, ◌+ℤ◌, abs}
use kalshi_bet_router.Decimal.{Decimal}
use kalshi_bet_router.Fill.{
  NormalizedFill, signed, projected, project_fill, parse_execution_time, yes_side, no_side,
  OutcomeSide,
}
use kalshi_bet_router.Episode.{
  TransitionKind, opens, increases, reduces, closes, reverses, settles, PositionEpisode,
  PositionTransition,
}
use kalshi_bet_router.Position.{MarketLedger, classify, close_episode, opened_by, closed_by}
use kalshi_bet_router.Position.Fills.{advance, apply_fill, closed_out, transition_of}
use kalshi_bet_router.Position.Invariant.{IsValid}
use kalshi_bet_router.Position.Kinds.{Relates, classify-Relates}
use kalshi_bet_router.Position.Keeps.{
  start-IsValid, increase-IsValid, reduce-IsValid, close-IsValid, reverse-IsValid,
}

-- The contracts that a transition opened and closed account for its two positions.
pub record Tallies (t : PositionTransition) : Type 0 where
  pub balance : t.quantity_opened + abs t.position_before ≡ t.quantity_closed + abs t.position_after
  pub related : Relates t.kind t.position_before t.signed_quantity
  pub moved : t.position_after ≡ t.position_before +ℤ t.signed_quantity

module _ (fill : NormalizedFill) (at : Decimal) (price : Option Decimal) (s : ℤ) (b : Bool) where
  closed_out-position :
      (l : MarketLedger) (current : Option PositionEpisode)
      → (closed_out l current fill at).position ≡ l.position
  unfolding close_episode
  closed_out-position l none = refl
  closed_out-position l (some e) = refl

  advance-position :
      (k : TransitionKind) (l : MarketLedger)
      → Relates k l.position s
      → (advance k l fill at price s b).position ≡ l.position +ℤ s
  unfolding advance
  advance-position opens l k = refl
  advance-position increases l k = refl
  advance-position reduces l k = refl
  advance-position closes l k = closed_out-position _ _
  advance-position reverses l k = refl
  advance-position settles l k = absurd k

  advance-IsValid :
      (k : TransitionKind) (l : MarketLedger)
      → IsValid l
      → Relates k l.position s
      → s ≢ pos 0
      → IsValid (advance k l fill at price s b)
  unfolding advance
  advance-IsValid opens l v k ne = start-IsValid fill at price s l b v k ne
  advance-IsValid increases l v k ne = increase-IsValid fill at price s l v k
  advance-IsValid reduces l v k ne = reduce-IsValid fill at price s l v k
  advance-IsValid closes l v k ne = close-IsValid fill at price s l v k
  advance-IsValid reverses l v k ne = reverse-IsValid fill at price s l b v k
  advance-IsValid settles l v k ne = absurd k

tally :
    (k : TransitionKind) (p s : ℤ)
    → Relates k p s
    → opened_by k s (p +ℤ s) + abs p ≡ closed_by k s p + abs (p +ℤ s)
unfolding ◌+ℤ◌
tally opens p s r = ground arith
tally increases p s r = omega (arith, r.3)
tally reduces p s r = omega (arith, r.3)
tally closes p s r = ground arith
tally reverses p s r = omega arith
tally settles p s r = absurd r

transition_of-Tallies :
    (l : MarketLedger) (fill : NormalizedFill) (s : Decimal) (price : Option Decimal)
    → Tallies (transition_of l fill s price)
transition_of-Tallies l fill s price =
    let r = classify-Relates (classify l.position (l.position +ℤ s)) l.position s refl in
    record { balance = tally _ l.position s r; related = r; moved = refl }

signed_ne_zero : (side : OutcomeSide) (n : ℕ) → signed side (pos (suc n)) ≢ pos 0
signed_ne_zero yes_side n = ground arith
signed_ne_zero no_side n = ground arith

project_fill-known :
    (fill : NormalizedFill) {q : Decimal}
    → fill.count ≡ some q
    → project_fill fill ≡ ok (signed fill.exposure_side q, fill.price_dollars)
unfolding project_fill
project_fill-known fill c = ap (projected fill) c

module _ (l : MarketLedger) (fill : NormalizedFill) (provable : Bool) (n : ℕ) (at : Decimal) where
  -- On a ledger that satisfies the invariant, a fill of a positive quantity whose execution time is
  -- readable is applied without an error: the new ledger satisfies the invariant, its position is
  -- the old one moved by the quantity in the direction of the exposure, the transition goes from
  -- the one to the other, and the contracts that it opened and closed account for the difference.
  pub apply_fill-IsValid :
      IsValid l
      → fill.count ≡ some (pos (suc n))
      → parse_execution_time fill ≡ ok at
      → (r : MarketLedger × PositionTransition) × (apply_fill l fill provable ≡ ok r)
        × IsValid r.0
        × (r.0.position ≡ l.position +ℤ signed fill.exposure_side (pos (suc n)))
        × (r.1.position_before ≡ l.position)
        × (r.1.position_after ≡ r.0.position)
        × Tallies r.1
  unfolding apply_fill
  apply_fill-IsValid v c t =
      let s = signed fill.exposure_side (pos (suc n)) in
      let k = classify l.position (l.position +ℤ s) in
      let r = classify-Relates k l.position s refl in
      let price = fill.price_dollars in
      let e = advance-position fill at price s provable k l r in
      (
        (advance k l fill at price s provable, transition_of l fill s price),
        rw (project_fill-known fill c, t),
        advance-IsValid fill at price s provable k l v r (signed_ne_zero fill.exposure_side n),
        e,
        refl,
        sym e,
        transition_of-Tallies l fill s price,
      )
