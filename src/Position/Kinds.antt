-- ===== src/Position/Kinds.antt =====
-- What the kind of a transition says of the position before and after it
-- (`_classify` in kalshi_router/accounting/position.py).
use kalshi_bet_router.Base.{◌+◌, ◌≡◌, ◌≢◌, arith}
use kalshi_bet_router.Base.Int.{ℤ, pos, ◌+ℤ◌, abs}
use kalshi_bet_router.Episode.{TransitionKind, opens, increases, reduces, closes, reverses, settles}
use kalshi_bet_router.Position.{classify}
use kalshi_bet_router.Position.Invariant.{facing}

-- The contracts on the two sides of a transition, by its kind.
abbrev pub Relates : TransitionKind → ℤ → ℤ → Type 0
Relates opens p s = p ≡ pos 0
Relates increases p s =
    (p ≢ pos 0) × (p +ℤ s ≢ pos 0) × (facing (p +ℤ s) ≡ facing p) × (abs (p +ℤ s) ≡ abs p + abs s)
Relates reduces p s =
    (p ≢ pos 0) × (p +ℤ s ≢ pos 0) × (facing (p +ℤ s) ≡ facing p) × (abs p ≡ abs (p +ℤ s) + abs s)
Relates closes p s = (p ≢ pos 0) × (p +ℤ s ≡ pos 0) × (abs p ≡ abs s)
Relates reverses p s =
    (p ≢ pos 0) × (p +ℤ s ≢ pos 0) × (facing (p +ℤ s) ≢ facing p) × (abs s ≡ abs p + abs (p +ℤ s))
Relates settles p s = ⊥

classify-opens : (p s : ℤ) → classify p (p +ℤ s) ≡ opens → Relates opens p s
unfolding classify ◌+ℤ◌
classify-opens p s e = ground arith

classify-increases : (p s : ℤ) → classify p (p +ℤ s) ≡ increases → Relates increases p s
unfolding classify ◌+ℤ◌
classify-increases p s e = ground arith

classify-reduces : (p s : ℤ) → classify p (p +ℤ s) ≡ reduces → Relates reduces p s
unfolding classify ◌+ℤ◌
classify-reduces p s e = ground arith

classify-closes : (p s : ℤ) → classify p (p +ℤ s) ≡ closes → Relates closes p s
unfolding classify ◌+ℤ◌
classify-closes p s e = ground arith

classify-reverses : (p s : ℤ) → classify p (p +ℤ s) ≡ reverses → Relates reverses p s
unfolding classify ◌+ℤ◌
classify-reverses p s e = ground arith

classify-settles : (p s : ℤ) → classify p (p +ℤ s) ≡ settles → Relates settles p s
unfolding classify ◌+ℤ◌
classify-settles p s e = ground arith

pub classify-Relates : (k : TransitionKind) (p s : ℤ) → classify p (p +ℤ s) ≡ k → Relates k p s
classify-Relates opens p s e = classify-opens p s e
classify-Relates increases p s e = classify-increases p s e
classify-Relates reduces p s e = classify-reduces p s e
classify-Relates closes p s e = classify-closes p s e
classify-Relates reverses p s e = classify-reverses p s e
classify-Relates settles p s e = classify-settles p s e
