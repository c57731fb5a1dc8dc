-- ===== src/Tests/Replays.antt =====
-- Whole replays (kalshi_router/accounting/engine.py).
use kalshi_bet_router.Base.{
  ◌+◌, ◌≡◌, ◌↔◌, refl, true, none, some, List, [], ◌∷◌, str_eq_iff, All, ok,
}
use kalshi_bet_router.Base.Int.{pos, ◌+ℤ◌}
use kalshi_bet_router.Fill.{NormalizedFill, PositionKey, parse_execution_time}
use kalshi_bet_router.Episode.{opens}
use kalshi_bet_router.Position.{MarketLedger, new_ledger}
use kalshi_bet_router.Position.Fills.{advance}
use kalshi_bet_router.Ordering.{sort_fills}
use kalshi_bet_router.Ordering.Canonical.{Reorder, swap, sort_fills-Reorder}
use kalshi_bet_router.Engine.{
  complete, AccountingResult, deduplicate, Walk, walk_fills, start, net_position,
  claims_complete_position_state, is_complete,
}
use kalshi_bet_router.Engine.Settle.{apply_settlements}
use kalshi_bet_router.Engine.Authority.{assign_authority}
use kalshi_bet_router.Engine.Replay.{replay, walked}
use kalshi_bet_router.Engine.Unique.{Deduplicated, deduplicate-Deduplicated, replay-Reorder}
use kalshi_bet_router.Engine.Conserves.{IsNormal, AllValid, net_of, walk_fills-net_of}
use kalshi_bet_router.Engine.Tally.{handled, IsTallied, apply_settlements-handled}
use kalshi_bet_router.Engine.Earned.{EachEpisode, IsProven, claims_complete_position_state_iff}
use kalshi_bet_router.Tests.Data.{bought, more, oversold, settlement_of}

abbrev fills : List NormalizedFill
fills = bought ∷ more ∷ oversold ∷ []

fills-IsNormal : All IsNormal fills
unfolding parse_execution_time
fills-IsNormal = (
  record { below = 9; counts = refl; at = pos 1000000; dated = refl },
  (
    record { below = 9; counts = refl; at = pos 2000000; dated = refl },
    (record { below = 24; counts = refl; at = pos 3000000; dated = refl }, tt),
  ),
)

walk_fills-net_of_example :
    (w : Walk) × (walk_fills true start fills ≡ ok w)
    × AllValid w.ledgers
    × ((key : PositionKey) → net_position w.ledgers key ≡ net_position [] key +ℤ net_of key fills)
walk_fills-net_of_example = walk_fills-net_of true start fills fills-IsNormal tt

swapped : Reorder fills (more ∷ bought ∷ oversold ∷ [])
swapped = swap bought more (oversold ∷ []) (λ e. cc ((str_eq_iff "f1" "f2").1 e))

replay-Reorder_example :
    replay fills complete (settlement_of "A" none ∷ []) none none
    ≡ replay (more ∷ bought ∷ oversold ∷ []) complete (settlement_of "A" none ∷ []) none none
replay-Reorder_example = replay-Reorder complete (settlement_of "A" none ∷ []) none none swapped

sort_fills-Reorder_example : sort_fills fills ≡ sort_fills (more ∷ bought ∷ oversold ∷ [])
sort_fills-Reorder_example = sort_fills-Reorder swapped

deduplicate-Deduplicated_example :
    Deduplicated (bought ∷ bought ∷ []) (deduplicate [] 0 (bought ∷ bought ∷ []))
deduplicate-Deduplicated_example = deduplicate-Deduplicated (bought ∷ bought ∷ [])

-- A replay that holds 10 contracts of one market.
abbrev held : MarketLedger
held = advance opens (new_ledger "A" none) bought (pos 1) (some (pos 50)) (pos 10) true

abbrev result : AccountingResult
result = record (walked complete none 1 0 start) { ledgers = ((none, "A"), held) ∷ [] }

apply_settlements-handled_example :
    (handled (apply_settlements result (settlement_of "A" (some 10) ∷ settlement_of "B" none ∷ []))
      ≡ handled result + 2)
    × IsTallied
        (apply_settlements result (settlement_of "A" (some 10) ∷ settlement_of "B" none ∷ []))
apply_settlements-handled_example =
    apply_settlements-handled result (settlement_of "A" (some 10) ∷ settlement_of "B" none ∷ [])
      refl

claims_complete_position_state_iff_example :
    (claims_complete_position_state (assign_authority result (some (("A", some (pos 10)) ∷ [])))
      ≡ true)
    ↔ ((is_complete complete ≡ true)
        × EachEpisode (IsProven result (some (("A", some (pos 10)) ∷ []))) result.ledgers)
claims_complete_position_state_iff_example =
    claims_complete_position_state_iff result (some (("A", some (pos 10)) ∷ []))
