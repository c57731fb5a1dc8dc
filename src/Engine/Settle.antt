-- ===== src/Engine/Settle.antt =====
-- The settlements of a replay (`_apply_settlements`, kalshi_router/accounting/engine.py), in the
-- order of their clocks, and the marks that a refused one leaves.
use mathlib.Core.Option
use kalshi_bet_router.Base.{
  ℕ, ◌+◌, String, Bool, true, false, Option, none, some, List, [], ◌∷◌, ◌++◌, map, if◌then◌else◌,
  str_eq, contains,
}
use kalshi_bet_router.Fill.{PositionKey, NormalizedSettlement}
use kalshi_bet_router.Episode.{PositionEpisode, is_open}
use kalshi_bet_router.Position.{MarketLedger}
use kalshi_bet_router.Position.Settlements.{
  SettlementRefusal, replay_flat, settlement_larger, settlement_smaller, opposite_direction,
  ambiguous_subaccount, Settled, applied, refused, apply_settlement,
}
use kalshi_bet_router.Ordering.{text_le}
use kalshi_bet_router.Engine.{AccountingResult}
use kalshi_bet_router.Engine.Ledgers.{LedgerMap, ledger_at, put_ledger}

-- `sorted(settlements, key=lambda s: s.settled_time)`, on the text of the clock.
unfoldable pub insert_settlement :
    NormalizedSettlement → List NormalizedSettlement → List NormalizedSettlement
insert_settlement s [] = s ∷ []
insert_settlement s (t ∷ ts) =
    if text_le s.settled_time.text t.settled_time.text
    then s ∷ t ∷ ts
    else t ∷ insert_settlement s ts

unfoldable pub sort_settlements : List NormalizedSettlement → List NormalizedSettlement
unfolding insert_settlement
sort_settlements [] = []
sort_settlements (s ∷ ss) = insert_settlement s (sort_settlements ss)

-- `by_ticker.get(ticker)`: the keys that hold a ticker.
unfoldable pub keys_of : String → LedgerMap → List PositionKey
keys_of ticker [] = []
keys_of ticker (((account, held), ledger) ∷ rest) =
    if str_eq held ticker then (account, held) ∷ keys_of ticker rest else keys_of ticker rest

abbrev shape_eq : SettlementRefusal → SettlementRefusal → Bool
shape_eq replay_flat replay_flat = true
shape_eq settlement_larger settlement_larger = true
shape_eq settlement_smaller settlement_smaller = true
shape_eq opposite_direction opposite_direction = true
shape_eq ambiguous_subaccount ambiguous_subaccount = true
shape_eq _ _ = false

-- `_count_refusal`
unfoldable pub count_refusal :
    SettlementRefusal → List (SettlementRefusal × ℕ) → List (SettlementRefusal × ℕ)
count_refusal r [] = (r, 1) ∷ []
count_refusal r ((q, n) ∷ rest) =
    if shape_eq q r then (q, n + 1) ∷ rest else (q, n) ∷ count_refusal r rest

abbrev pub unproven : PositionEpisode → PositionEpisode
unproven episode = if is_open episode then record episode { outcome_provable = false } else episode

-- An update of every episode of a ledger.
abbrev pub on_episodes : (PositionEpisode → PositionEpisode) → MarketLedger → MarketLedger
on_episodes f ledger = record ledger {
  current_episode = Option.map f ledger.current_episode;
  closed_episodes = map f ledger.closed_episodes;
}

-- `_mark_outcome_unprovable`
unfoldable pub mark_outcome_unprovable : String → LedgerMap → LedgerMap
mark_outcome_unprovable ticker [] = []
mark_outcome_unprovable ticker (((account, held), ledger) ∷ rest) =
    ((account, held), if str_eq held ticker then on_episodes unproven ledger else ledger)
    ∷ mark_outcome_unprovable ticker rest

-- `tickers_with_settlement_evidence.add(ticker)`
abbrev pub add_ticker : String → List String → List String
add_ticker ticker tickers = if contains ticker tickers then tickers else tickers ++ (ticker ∷ [])

abbrev pub settled_by : PositionKey → AccountingResult → String → Settled → AccountingResult
settled_by key result ticker (applied ledger transition) = record result {
  ledgers = put_ledger key ledger result.ledgers;
  transitions = result.transitions ++ (transition ∷ []);
  settlements_applied = result.settlements_applied + 1;
  tickers_with_settlement_evidence = add_ticker ticker result.tickers_with_settlement_evidence;
}
settled_by key result ticker (refused refusal) = record result {
  ledgers = mark_outcome_unprovable ticker result.ledgers;
  settlements_refused_unreconciled = result.settlements_refused_unreconciled + 1;
  settlements_refused_by_shape = count_refusal refusal result.settlements_refused_by_shape;
  tickers_with_settlement_evidence = add_ticker ticker result.tickers_with_settlement_evidence;
}

abbrev pub on_held :
    PositionKey → AccountingResult → NormalizedSettlement → Option MarketLedger → AccountingResult
on_held key result settlement none = result
on_held key result settlement (some ledger) =
    settled_by key result settlement.ticker (apply_settlement ledger settlement)

abbrev pub settle_keys :
    List PositionKey → AccountingResult → NormalizedSettlement → AccountingResult
settle_keys [] result settlement = record result {
  settlements_without_a_position = result.settlements_without_a_position + 1;
}
settle_keys (key ∷ []) result settlement =
    on_held key result settlement (ledger_at key result.ledgers)
settle_keys (key ∷ other ∷ keys) result settlement = record result {
  ledgers = mark_outcome_unprovable settlement.ticker result.ledgers;
  settlements_refused_ambiguous_subaccount = result.settlements_refused_ambiguous_subaccount + 1;
  settlements_refused_by_shape =
      count_refusal ambiguous_subaccount result.settlements_refused_by_shape;
  tickers_with_settlement_evidence =
      add_ticker settlement.ticker result.tickers_with_settlement_evidence;
}

-- One round of the loop over the settlements.
unfoldable pub settle_one : AccountingResult → NormalizedSettlement → AccountingResult
settle_one result settlement =
    settle_keys (keys_of settlement.ticker result.ledgers) result settlement

unfoldable pub settle_all : AccountingResult → List NormalizedSettlement → AccountingResult
unfolding settle_one
settle_all result [] = result
settle_all result (s ∷ ss) = settle_all (settle_one result s) ss

unfoldable pub apply_settlements : AccountingResult → List NormalizedSettlement → AccountingResult
unfolding sort_settlements settle_all
apply_settlements result settlements = settle_all result (sort_settlements settlements)
