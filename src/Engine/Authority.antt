-- ===== src/Engine/Authority.antt =====
-- Which outcomes and which position stories of a replay are proven (`_mark_settlement_coverage` and
-- `_assign_authority`, kalshi_router/accounting/engine.py).
use kalshi_bet_router.Base.{
  ℕ, ◌+◌, String, Bool, true, false, Option, none, some, List, [], ◌∷◌, not, if◌then◌else◌, any,
  ltb, is_some, str_eq, contains,
}
use kalshi_bet_router.Base.Int.{ltb_ℤ, eq_ℤ}
use kalshi_bet_router.Decimal.{Decimal}
use kalshi_bet_router.Episode.{
  settles, PositionAuthority, closed_by_fills, explained_settled, reconciled_current, unexplained,
  conflicted, not_reconciled, PositionTransition, PositionEpisode, is_open,
}
use kalshi_bet_router.Position.{MarketLedger}
use kalshi_bet_router.Engine.{AccountingResult}
use kalshi_bet_router.Engine.Ledgers.{LedgerMap}
use kalshi_bet_router.Engine.Settle.{on_episodes}

-- A change of every ledger.
unfoldable pub map_ledgers : (MarketLedger → MarketLedger) → LedgerMap → LedgerMap
map_ledgers f [] = []
map_ledgers f ((key, ledger) ∷ rest) = (key, f ledger) ∷ map_ledgers f rest

abbrev pub ended_before : Option Decimal → Decimal → PositionEpisode → PositionEpisode
ended_before none floor episode = record episode { outcome_provable = false }
ended_before (some at) floor episode =
    if ltb_ℤ at floor
    then record episode { outcome_provable = false; outcome_bounded_by_settlement_coverage = true }
    else episode

-- The mark of one episode: open, on a market no settlement named, with its activity below the floor.
unfoldable pub cover_episode : List String → Decimal → PositionEpisode → PositionEpisode
cover_episode evidence floor episode =
    if not (is_open episode)
    then episode
    else if contains episode.ticker evidence
    then episode
    else ended_before episode.last_activity_at floor episode

abbrev pub cover_from : Option Decimal → AccountingResult → AccountingResult
cover_from none result = result
cover_from (some floor) result = record result {
  ledgers =
      map_ledgers (on_episodes (cover_episode result.tickers_with_settlement_evidence floor))
        result.ledgers;
}

-- `_mark_settlement_coverage`
unfoldable pub mark_settlement_coverage : AccountingResult → Option Decimal → AccountingResult
unfolding map_ledgers cover_episode
mark_settlement_coverage result floor = cover_from floor result

-- The exchange's current positions: a quantity for each ticker, none where it would not parse.
abbrev pub Positions : Type 0
Positions = List (String × Option Decimal)

-- `exchange_positions.get(ticker)`, none where the ticker is not named.
unfoldable pub reported_at : String → Positions → Option (Option Decimal)
reported_at ticker [] = none
reported_at ticker ((t, q) ∷ rest) = if str_eq t ticker then some q else reported_at ticker rest

abbrev is_settle : PositionTransition → Bool
is_settle t = elim t.kind [ settles ↦ true | _ ↦ false ]

-- `_closed_by_settlement`
unfoldable pub closed_by_settlement : PositionEpisode → Bool
closed_by_settlement episode = any is_settle episode.transitions

-- In how many subaccounts a ticker is held.
unfoldable pub held_in : String → LedgerMap → ℕ
held_in ticker [] = 0
held_in ticker (((account, held), ledger) ∷ rest) =
    if str_eq held ticker then held_in ticker rest + 1 else held_in ticker rest

abbrev pub compared : Option Decimal → Decimal → PositionAuthority
compared none held = conflicted
compared (some reported) held = if eq_ℤ reported held then reconciled_current else conflicted

abbrev pub reconciled_with : Option (Option Decimal) → ℕ → Decimal → PositionAuthority
reconciled_with none held_count held = unexplained
reconciled_with (some reported) held_count held =
    if ltb 1 held_count then conflicted else compared reported held

abbrev pub viewed : Option Positions → String → ℕ → Decimal → PositionAuthority
viewed none ticker held_count held = not_reconciled
viewed (some positions) ticker held_count held =
    reconciled_with (reported_at ticker positions) held_count held

-- `_open_episode_authority`
unfoldable pub open_episode_authority :
    AccountingResult → MarketLedger → Option Positions → PositionAuthority
open_episode_authority result ledger positions =
    if contains ledger.ticker result.tickers_with_settlement_evidence
    then conflicted
    else viewed positions ledger.ticker (held_in ledger.ticker result.ledgers) ledger.position

-- The authority of one episode of a ledger.
unfoldable pub episode_authority :
    AccountingResult → Option Positions → MarketLedger → PositionEpisode → PositionAuthority
unfolding open_episode_authority closed_by_settlement
episode_authority result positions ledger episode =
    if not (is_open episode)
    then (if closed_by_settlement episode then explained_settled else closed_by_fills)
    else open_episode_authority result ledger positions

abbrev pub authorise : AccountingResult → Option Positions → MarketLedger → MarketLedger
authorise result positions ledger =
    on_episodes
      (λ (e : PositionEpisode). record e {
        authority = episode_authority result positions ledger e;
      })
      ledger

-- `_assign_authority`
unfoldable pub assign_authority : AccountingResult → Option Positions → AccountingResult
unfolding map_ledgers episode_authority
assign_authority result positions = record result {
  exchange_view_supplied = is_some positions;
  ledgers = map_ledgers (authorise result positions) result.ledgers;
}
