-- ===== src/Position/Keeps.antt =====
-- Every fill keeps the invariant of its ledger (`apply_fill`, kalshi_router/accounting/position.py).
use mathlib.Core.Option
use kalshi_bet_router.Base.{
  ◌+◌, ◌≡◌, ◌≢◌, refl, sym, ap, ◌∙◌, arith, Bool, true, false, Option, none, some, All, All-append,
}
use kalshi_bet_router.Base.Int.{ℤ, pos, ◌+ℤ◌, abs}
use kalshi_bet_router.Decimal.{Decimal}
use kalshi_bet_router.Fill.{NormalizedFill}
use kalshi_bet_router.Episode.{opens, increases, reduces, closes, reverses, PositionEpisode, Size}
use kalshi_bet_router.Position.{MarketLedger, new_episode, record_fill, close_episode}
use kalshi_bet_router.Position.Fills.{
  increase, reduce, close, reverse, advance, closed_out, ambiguous, reversed_out,
}
use kalshi_bet_router.Position.Invariant.{facing, Accounts, IsFlat, Current, IsValid}
use kalshi_bet_router.Position.Kinds.{Relates}

-- An episode that is there has closed all that it opened.
abbrev Even : Option PositionEpisode → Type 0
Even none = ⊥
Even (some e) = e.total_opened_quantity ≡ e.total_closed_quantity

module _ (fill : NormalizedFill) (at : Decimal) (opened closed : Size) (realized : Option Decimal)
    (l : MarketLedger) (charge : Bool) where
  -- Recording a fill moves the account of the episode from `p` to `q`.
  record_fill-Accounts :
      (p q : ℤ) (e : PositionEpisode)
      → Accounts p e
      → facing q ≡ facing p
      → abs p + opened ≡ abs q + closed
      → Accounts q (record_fill e fill at opened closed realized q l charge)
  unfolding record_fill
  record_fill-Accounts p q e a f b = record {
    unclosed = a.unclosed;
    held = refl;
    balanced = omega (arith, a.held, a.balanced);
    peaked = omega arith;
    bounded = omega (arith, a.held, a.peaked, a.bounded);
    directed = a.directed ∙ sym f;
  }

  -- Recording the fill that closes an episode leaves nothing to close.
  record_fill-even :
      (p q : ℤ) (e : PositionEpisode)
      → Accounts p e
      → abs p + opened ≡ closed
      → (record_fill e fill at opened closed realized q l charge).total_opened_quantity
        ≡ (record_fill e fill at opened closed realized q l charge).total_closed_quantity
  unfolding record_fill
  record_fill-even p q e a b = omega (arith, a.held, a.balanced)

  -- The open episode after a fill that does not cross zero.
  recorded-Current :
      (p q : ℤ) (current : Option PositionEpisode)
      → Current p current
      → p ≢ pos 0
      → q ≢ pos 0
      → facing q ≡ facing p
      → abs p + opened ≡ abs q + closed
      → Current q
          (Option.map (λ e. record_fill e fill at opened closed realized q l charge) current)
  recorded-Current p q none c np nq f b = absurd (np c)
  recorded-Current p q (some e) c np nq f b = (nq, record_fill-Accounts p q e c.1 f b)

  -- The outgoing episode at a close or a reversal.
  recorded-Even :
      (p q : ℤ) (current : Option PositionEpisode)
      → Current p current
      → p ≢ pos 0
      → abs p + opened ≡ closed
      → Even (Option.map (λ e. record_fill e fill at opened closed realized q l charge) current)
  recorded-Even p q none c np b = absurd (np c)
  recorded-Even p q (some e) c np b = record_fill-even p q e c.1 b

  new_episode-Accounts :
      (l' : MarketLedger) (q : ℤ) (b : Bool)
      → q ≢ pos 0
      → opened ≡ abs q
      → Accounts q (record_fill (new_episode l' fill at q b) fill at opened 0 none q l charge)
  unfolding new_episode record_fill
  new_episode-Accounts l' q b ne o = ground arith

closed_out-IsValid :
    (fill : NormalizedFill) (at : Decimal) (l : MarketLedger) (current : Option PositionEpisode)
    → l.position ≡ pos 0
    → All IsFlat l.closed_episodes
    → Even current
    → IsValid (closed_out l current fill at)
unfolding close_episode
closed_out-IsValid fill at l none z past even = elim even [ ]
closed_out-IsValid fill at l (some e) z past even = record {
  current = z;
  past =
      All-append IsFlat l.closed_episodes _ past
        (record { shut = refl; empty = refl; even = even }, tt);
}

reversed_out-past :
    (fill : NormalizedFill) (at : Decimal) (l : MarketLedger) (current : Option PositionEpisode)
    → All IsFlat l.closed_episodes
    → Even current
    → All IsFlat (reversed_out l current fill at).closed_episodes
unfolding close_episode
reversed_out-past fill at l none past even = elim even [ ]
reversed_out-past fill at l (some e) past even =
    All-append IsFlat l.closed_episodes _ past
      (record { shut = refl; empty = refl; even = even }, tt)

pos-zero-add : (s : ℤ) → pos 0 +ℤ s ≡ s
unfolding ◌+ℤ◌
pos-zero-add s = ground arith

flat_add : {p : ℤ} (s : ℤ) → p ≡ pos 0 → p +ℤ s ≡ s
flat_add s e = ap (λ t. t +ℤ s) e ∙ pos-zero-add s

ambiguous-Accounts : (q : ℤ) (e : PositionEpisode) → Accounts q e → Accounts q (ambiguous e)
ambiguous-Accounts q e a = record {
  unclosed = a.unclosed;
  held = a.held;
  balanced = a.balanced;
  peaked = a.peaked;
  bounded = a.bounded;
  directed = a.directed;
}

module _ (fill : NormalizedFill) (at : Decimal) (price : Option Decimal) (s : ℤ) where
  pub start-IsValid :
      (l : MarketLedger) (b : Bool)
      → IsValid l
      → l.position ≡ pos 0
      → s ≢ pos 0
      → IsValid (advance opens l fill at price s b)
  unfolding advance
  start-IsValid l b v flat ne = record {
    current = (
      λ z. ne (sym (flat_add s flat) ∙ z),
      new_episode-Accounts fill at (abs s) 0 none _ true _ (l.position +ℤ s) b
          (λ z. ne (sym (flat_add s flat) ∙ z)) (ap abs (sym (flat_add s flat))),
    );
    past = v.past;
  }

  pub increase-IsValid :
      (l : MarketLedger)
      → IsValid l
      → Relates increases l.position s
      → IsValid (increase l fill at price s)
  unfolding increase
  increase-IsValid l v k = record {
    current =
        recorded-Current fill at (abs s) 0 none _ true l.position (l.position +ℤ s)
          l.current_episode v.current k.0 k.1 k.2 (omega (arith, k.3));
    past = v.past;
  }

  pub reduce-IsValid :
      (l : MarketLedger)
      → IsValid l
      → Relates reduces l.position s
      → IsValid (reduce l fill at price s)
  unfolding reduce
  reduce-IsValid l v k = record {
    current =
        recorded-Current fill at 0 (abs s) _ _ true l.position (l.position +ℤ s) l.current_episode
          v.current k.0 k.1 k.2 (omega (arith, k.3));
    past = v.past;
  }

  pub close-IsValid :
      (l : MarketLedger)
      → IsValid l
      → Relates closes l.position s
      → IsValid (close l fill at price s)
  unfolding close reduce
  close-IsValid l v k = closed_out-IsValid fill at _ _ k.1 v.past (
      recorded-Even fill at 0 (abs s) _ _ true l.position (l.position +ℤ s) l.current_episode
        v.current k.0 (omega (arith, k.2)))

  pub reverse-IsValid :
      (l : MarketLedger) (b : Bool)
      → IsValid l
      → Relates reverses l.position s
      → IsValid (reverse l fill at price s b)
  unfolding reverse
  reverse-IsValid l b v k = record {
    current = (
      k.1,
      ambiguous-Accounts (l.position +ℤ s) _ (
          new_episode-Accounts fill at (abs (l.position +ℤ s)) 0 none _ false _ (l.position +ℤ s) b
            k.1 refl),
    );
    past = reversed_out-past fill at _ _ v.past (
        recorded-Even fill at 0 (abs l.position) _ _ false l.position (pos 0) l.current_episode
          v.current k.0 (omega arith));
  }
