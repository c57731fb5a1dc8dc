-- ===== src/RoutedLedger/Twice.antt =====
-- Importing the same payload twice into a file (contract/edge_finder_contract/routed_ledger.py).
use kalshi_bet_router.Base.{◌+◌, ◌≡◌}
use kalshi_bet_router.RoutedLedger.Imports.{ImportResult}
use kalshi_bet_router.RoutedLedger.Texts.{Files}

-- A second run leaves the files as they are, and refuses as much as the first.
abbrev pub IsRepeatOf : Files × ImportResult → Files × ImportResult → Type 0
IsRepeatOf first second =
    (second.0.wagers ≡ first.0.wagers)
    × (second.0.settlements ≡ first.0.settlements)
    × (second.1.written ≡ 0)
    × (second.1.refused_rows ≡ first.1.refused_rows)
    × (second.1.duplicate ≡ first.1.written + first.1.duplicate)
