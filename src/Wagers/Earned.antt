-- ===== src/Wagers/Earned.antt =====
-- What a wager earns of a settlement (kalshi_router/settlement.py).
use kalshi_bet_router.Base.{
  ℕ, ◌^◌, zero, suc, ◌≤◌, ◌<◌, String, Bool, Bool-cases, true, false, Option, none, some, List, [],
  ◌∷◌, ◌≡◌, ◌≢◌, refl, sym, ap, ◌⊎◌, inl, inr, not, ◌&&◌, if◌then◌else◌, leb, length, filter,
  str_eq, str_eq_iff, contains, ◌∙◌, arith,
}
use kalshi_bet_router.Base.Int.{pos, negsuc, pos_part, neg_part, abs, eq_ℤ}
use kalshi_bet_router.Decimal.{Decimal, ◌⊖◌, ◌⊗◌}
use kalshi_bet_router.Fill.{NormalizedSettlement}
use kalshi_bet_router.Classify.Words.{Letters, strip}
use kalshi_bet_router.Wagers.{
  won, lost, result_for_side, Wager, LegResult, ReturnRefusal, economics_v1, economics_v2,
  fee_tolerance, is_reconciled, or_zero, not_settled, no_settlement_price, fee_not_reconciled,
  shared_position_fee, gross_paid, side_of,
}

-- The entry fees on a market are known and are what the settlement charged.
abbrev pub Reconciled : Option Decimal → Option Decimal → Type 0
Reconciled none fee = ⊥
Reconciled (some entry) none = entry ≡ pos 0
Reconciled (some entry) (some fee) = abs (fee ⊖ entry) ≤ fee_tolerance

-- The orders of a batch on one side of a market.
abbrev pub orders_on : Letters → List Wager → String → String → ℕ
unfolding side_of
orders_on letters batch ticker side =
    length (
      filter (λ (w : Wager). str_eq w.market_ticker ticker && str_eq (side_of letters w) side)
        batch)

-- Contracts of YES pay the price, and all others a dollar less it.
abbrev pub paid_out : Decimal → String → Decimal → Decimal
paid_out contracts side price =
    if str_eq side "YES" then price ⊗ contracts else (pos (10 ^ 40) ⊖ price) ⊗ contracts

pub gross_paid-paid_out :
    (wager : Wager) (side : String) (price : Decimal)
    → gross_paid wager side price ≡ paid_out wager.contracts side price
gross_paid-paid_out wager side price = go (str_eq side "YES")
  where
    go :
        (yes : Bool)
        → (if yes then price else pos (10 ^ 40) ⊖ price) ⊗ wager.contracts
          ≡ (if yes then price ⊗ wager.contracts else (pos (10 ^ 40) ⊖ price) ⊗ wager.contracts)
    go true = refl
    go false = refl

-- The gross return, the net result and the refusals that a wager has.
pub data Earns (wager : Wager) (side : String) (orders : ℕ) (version : String)
    (entry : Option Decimal)
    : Option NormalizedSettlement
      → Option Decimal
      → Option Decimal
      → List ReturnRefusal
      → Type 0 where
  is_awaited : Earns wager side orders version entry none none none (not_settled ∷ [])
  has_no_price :
      (s : NormalizedSettlement)
      → s.market_value_dollars ≡ none
      → Earns wager side orders version entry (some s) none none (no_settlement_price ∷ [])
  is_shared :
      (s : NormalizedSettlement) (price : Decimal)
      → s.market_value_dollars ≡ some price
      → version ≡ economics_v1
      → or_zero s.fee_dollars ≢ pos 0
      → 1 < orders
      → Earns wager side orders version entry
          (some s)
          (some (paid_out wager.contracts side price))
          none
          (shared_position_fee ∷ [])
  is_charged :
      (s : NormalizedSettlement) (price : Decimal)
      → s.market_value_dollars ≡ some price
      → version ≡ economics_v1
      → (or_zero s.fee_dollars ≡ pos 0) ⊎ (orders ≤ 1)
      → Earns wager side orders version entry
          (some s)
          (some (paid_out wager.contracts side price))
          (some (paid_out wager.contracts side price ⊖ wager.stake ⊖ or_zero s.fee_dollars))
          []
  is_unreconciled :
      (s : NormalizedSettlement) (price : Decimal)
      → s.market_value_dollars ≡ some price
      → version ≡ economics_v2
      → (Reconciled entry s.fee_dollars → ⊥)
      → Earns wager side orders version entry
          (some s)
          (some (paid_out wager.contracts side price))
          none
          (fee_not_reconciled ∷ [])
  is_paid :
      (s : NormalizedSettlement) (price : Decimal)
      → s.market_value_dollars ≡ some price
      → version ≡ economics_v2
      → Reconciled entry s.fee_dollars
      → Earns wager side orders version entry
          (some s)
          (some (paid_out wager.contracts side price))
          (some (paid_out wager.contracts side price ⊖ wager.stake))
          []

pub zero-cases :
    (x : Decimal)
    → ((eq_ℤ x (pos 0) ≡ true) × (x ≡ pos 0)) ⊎ ((eq_ℤ x (pos 0) ≡ false) × (x ≢ pos 0))
zero-cases (pos zero) = inl (refl, refl)
zero-cases (pos (suc n)) =
    inr (ground arith, λ h. let absurd : suc n ≡ 0 = ap pos_part h in ground (arith, absurd))
zero-cases (negsuc n) =
    inr (ground arith, λ h. let absurd : suc n ≡ 0 = ap neg_part h in ground (arith, absurd))

pub Reconciled-cases :
    (entry fee : Option Decimal)
    → ((is_reconciled entry fee ≡ true) × Reconciled entry fee)
      ⊎ ((is_reconciled entry fee ≡ false) × (Reconciled entry fee → ⊥))
Reconciled-cases none fee = inr (refl, λ h. h)
Reconciled-cases (some entry) none = zero-cases entry
Reconciled-cases (some entry) (some fee) =
    elim (Bool-cases (leb (abs (fee ⊖ entry)) fee_tolerance)) [
      | inl e ↦ inl (e, ground (arith, e))
      | inr e ↦ inr (e, λ h. ground (arith, e, h))
    ]

-- What the exchange said of a side: it won or lost where the outcome and the side are both named, and
-- nothing is said of another.
abbrev pub IsResult : Letters → NormalizedSettlement → String → Option LegResult → Type 0
IsResult letters s side none =
    (contains (letters.lower (strip s.market_result)) ("yes" ∷ "no" ∷ []) ≡ false)
    ⊎ (contains side ("YES" ∷ "NO" ∷ []) ≡ false)
IsResult letters s side (some won) =
    (contains (letters.lower (strip s.market_result)) ("yes" ∷ "no" ∷ []) ≡ true)
    × (contains side ("YES" ∷ "NO" ∷ []) ≡ true)
    × (letters.lower (strip s.market_result) ≡ letters.lower side)
IsResult letters s side (some lost) =
    (contains (letters.lower (strip s.market_result)) ("yes" ∷ "no" ∷ []) ≡ true)
    × (contains side ("YES" ∷ "NO" ∷ []) ≡ true)
    × (letters.lower (strip s.market_result) ≢ letters.lower side)

-- A wager without a settlement has no result.
abbrev pub ResultIs : Letters → Option NormalizedSettlement → String → Option LegResult → Type 0
ResultIs letters none side result = result ≡ none
ResultIs letters (some s) side result = IsResult letters s side result

pub result_for_side-IsResult :
    (letters : Letters) (s : NormalizedSettlement) (side : String)
    → IsResult letters s side (result_for_side letters s side)
unfolding result_for_side
result_for_side-IsResult letters s side =
    go (contains (letters.lower (strip s.market_result)) ("yes" ∷ "no" ∷ []))
      (contains side ("YES" ∷ "NO" ∷ []))
      (str_eq (letters.lower (strip s.market_result)) (letters.lower side)) refl refl refl
  where
    go :
        (named sided same : Bool)
        → contains (letters.lower (strip s.market_result)) ("yes" ∷ "no" ∷ []) ≡ named
        → contains side ("YES" ∷ "NO" ∷ []) ≡ sided
        → str_eq (letters.lower (strip s.market_result)) (letters.lower side) ≡ same
        → IsResult letters s side (
            if not named
            then none
            else if not sided
            then none
            else if same
            then some won
            else some lost)
    go false sided same n d e = inl n
    go true false same n d e = inr d
    go true true true n d e = (n, d, (str_eq_iff _ _).0 e)
    go true true false n d e = (
      n,
      d,
      λ h. let absurd : false ≡ true = sym e ∙ (str_eq_iff _ _).1 h in ground (arith, absurd),
    )
