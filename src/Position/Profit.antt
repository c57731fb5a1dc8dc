-- ===== src/Position/Profit.antt =====
-- The sign of the profit that a reduction realises (`_realized`,
-- kalshi_router/accounting/position.py), whatever its rounding.
use kalshi_bet_router.Base.{◌≡◌, ◌⊎◌, inl, inr, arith, true, some}
use kalshi_bet_router.Base.Int.{ℤ, pos, negsuc, ◌≤ℤ◌, ◌<ℤ◌}
use kalshi_bet_router.Decimal.{Decimal, ◌⊖◌, ◌⊗◌}
use kalshi_bet_router.Decimal.Signs.{
  IsNonneg, IsNonpos, ⊖-IsNonneg, ⊖-IsNonpos, ⊗-pos-IsNonneg, ⊗-pos-IsNonpos, ⊗-neg-IsNonneg,
  ⊗-neg-IsNonpos,
}
use kalshi_bet_router.Episode.{Size}
use kalshi_bet_router.Position.{MarketLedger, sign, realized_on}

-- The exit is at least as good as the entry for the side that is held, or at most as good.
abbrev pub IsFavourable : Decimal → Decimal → Decimal → Type 0
IsFavourable position average price =
    (pos 0 <ℤ position) × (average ≤ℤ price) ⊎ (position <ℤ pos 0) × (price ≤ℤ average)

abbrev pub IsAdverse : Decimal → Decimal → Decimal → Type 0
IsAdverse position average price =
    (pos 0 <ℤ position) × (price ≤ℤ average) ⊎ (position <ℤ pos 0) × (average ≤ℤ price)

sign_pos : (p : ℤ) → pos 0 <ℤ p → sign p ≡ pos 1
sign_pos p h = ground arith

sign_neg : (p : ℤ) → p <ℤ pos 0 → sign p ≡ negsuc 0
sign_neg p h = ground arith

module _ (l : MarketLedger) (price average : Decimal) (closed : Size) where
  realized_on-known :
      l.average_entry_price ≡ some average
      → l.cost_basis_complete ≡ true
      → (σ : ℤ) → realized_on l (some price) closed σ ≡ some ((price ⊖ average) ⊗ pos closed ⊗ σ)
  unfolding realized_on
  realized_on-known e k σ = cc

  -- With a known cost basis, closing long YES at or above the average entry price, or long NO at or
  -- below it, realises a profit that is not negative.
  pub realized_on-IsNonneg :
      l.average_entry_price ≡ some average
      → l.cost_basis_complete ≡ true
      → IsFavourable l.position average price
      → (r : Decimal) × (realized_on l (some price) closed (sign l.position) ≡ some r) × IsNonneg r
  realized_on-IsNonneg e k (inl (long, up)) = (
    _,
    realized_on-known e k (sign l.position),
    rw (sign_pos l.position long)
        (⊗-pos-IsNonneg _ 1 (⊗-pos-IsNonneg _ closed (⊖-IsNonneg price average up))),
  )
  realized_on-IsNonneg e k (inr (short, down)) = (
    _,
    realized_on-known e k (sign l.position),
    rw (sign_neg l.position short)
        (⊗-neg-IsNonneg _ (⊗-pos-IsNonpos _ closed (⊖-IsNonpos price average down))),
  )

  -- With a known cost basis, closing long YES at or below the average entry price, or long NO at or
  -- above it, realises a profit that is not positive.
  pub realized_on-IsNonpos :
      l.average_entry_price ≡ some average
      → l.cost_basis_complete ≡ true
      → IsAdverse l.position average price
      → (r : Decimal) × (realized_on l (some price) closed (sign l.position) ≡ some r) × IsNonpos r
  realized_on-IsNonpos e k (inl (long, down)) = (
    _,
    realized_on-known e k (sign l.position),
    rw (sign_pos l.position long)
        (⊗-pos-IsNonpos _ 1 (⊗-pos-IsNonpos _ closed (⊖-IsNonpos price average down))),
  )
  realized_on-IsNonpos e k (inr (short, up)) = (
    _,
    realized_on-known e k (sign l.position),
    rw (sign_neg l.position short)
        (⊗-neg-IsNonpos _ (⊗-pos-IsNonneg _ closed (⊖-IsNonneg price average up))),
  )
