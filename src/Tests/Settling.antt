-- ===== src/Tests/Settling.antt =====
-- A batch of two orders on one market, and the reach of its settlements.
use kalshi_bet_router.Base.{
  String, true, false, some, List, [], ◌∷◌, ◌≡◌, refl, All, ok, if◌then◌else◌, str_eq,
}
use kalshi_bet_router.Base.Int.{ℤ, pos, ◌+ℤ◌}
use kalshi_bet_router.Fill.{NormalizedSettlement}
use kalshi_bet_router.Coverage.{floor, observed_floor, measured, measure, build_settlement_coverage}
use kalshi_bet_router.Coverage.Floor.{NotBefore, Attained, floor-earliest}
use kalshi_bet_router.Classify.Words.{Letters}
use kalshi_bet_router.Wagers.{
  Wager, WagerSettlement, economics_v2, market_entry_fees, add_entry_fees, add_entry_fee, entry_at,
  settle_batch,
}
use kalshi_bet_router.Wagers.Fees.{known_fees, sum_if_known, market_entry_fees-summed}
use kalshi_bet_router.Wagers.Rows.{IsRowOf, AreRowsOf, settle_batch-AreRowsOf}
use kalshi_bet_router.Tests.Data.{settlement_of}

-- Texts that are in the right case already.
abbrev letters : Letters
letters = record { lower = λ s. if str_eq s "YES" then "yes" else s; upper = λ s. s }

abbrev wager_of : String → String → ℤ → Wager
wager_of key side fees = record {
  source_key = key;
  market_ticker = "M";
  side = side;
  contracts = pos 10;
  stake = pos 500;
  total_fees = some fees;
  sport = "NFL";
}

abbrev batch : List Wager
batch = wager_of "o1" "YES" (pos 3) ∷ wager_of "o2" "NO" (pos 4) ∷ []

fees_of_batch : entry_at (market_entry_fees batch) "M" ≡ some (pos 7)
unfolding entry_at market_entry_fees add_entry_fees add_entry_fee ◌+ℤ◌
fees_of_batch = refl

market_entry_fees-summed_example :
    entry_at (market_entry_fees batch) "M" ≡ sum_if_known (pos 0) (known_fees "M" batch)
market_entry_fees-summed_example = market_entry_fees-summed batch "M" refl

abbrev outcomes : List (String × NormalizedSettlement)
outcomes = ("M", settlement_of "M" (some 10)) ∷ []

settle_batch-AreRowsOf_example :
    (rows : List WagerSettlement) × (settle_batch letters batch outcomes
        (("NFL", economics_v2) ∷ [])
      ≡ ok rows)
    × AreRowsOf (IsRowOf letters batch outcomes (("NFL", economics_v2) ∷ [])) batch rows
settle_batch-AreRowsOf_example =
    settle_batch-AreRowsOf letters batch outcomes (("NFL", economics_v2) ∷ []) (refl, (refl, tt))

abbrev walk : List NormalizedSettlement
walk = settlement_of "M" (some 10) ∷ settlement_of "N" (some 1) ∷ []

walk-floor : floor (build_settlement_coverage walk true false) ≡ some (pos 1767225600000000)
unfolding floor observed_floor measured measure build_settlement_coverage
walk-floor = refl

floor-earliest_example :
    (true ≡ true)
    × (false ≡ false)
    × All (NotBefore (pos 1767225600000000)) walk
    × Attained (pos 1767225600000000) walk
floor-earliest_example = floor-earliest walk true false (pos 1767225600000000) walk-floor
