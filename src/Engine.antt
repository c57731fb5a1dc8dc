-- ===== src/Engine.antt =====
-- The replay of a fill stream into positions (kalshi_router/accounting/engine.py): its state, the
-- loop over the fills, and the views of the result. `Engine/Settle`, `Engine/Authority` and
-- `Engine/Replay` are its later stages and the whole of it.
pub mod Ledgers
pub mod Settle
pub mod Authority
pub mod Replay
pub mod Unique
pub mod Conserves
pub mod Tally
pub mod Earned
use kalshi_bet_router.Base.{
  ℕ, ◌+◌, String, Bool, true, false, Option, none, some, List, [], ◌∷◌, ◌++◌, map, ◌&&◌, not,
  if◌then◌else◌, is_some, is_none, any, all, filter, str_eq, contains, length, ◌==◌, Result, ok,
  err, ◌>>=◌,
}
use kalshi_bet_router.Base.Int.{ℤ, pos, ◌+ℤ◌}
use kalshi_bet_router.Decimal.{Decimal}
use kalshi_bet_router.Fill.{NormalizedFill, PositionKey, position_key}
use kalshi_bet_router.Episode.{PositionTransition, PositionEpisode, is_open, authority_is_earned}
use kalshi_bet_router.Position.{MarketLedger, new_ledger, episodes}
use kalshi_bet_router.Position.Fills.{apply_fill}
use kalshi_bet_router.Position.Settlements.{SettlementRefusal}
use kalshi_bet_router.Orders.{OrderExecution, OrderAggregationStats}
use kalshi_bet_router.Engine.Ledgers.{LedgerMap, account_eq, ledger_at, put_ledger}

pub data HistoryCompleteness : Type 0 where
  complete bounded_window : HistoryCompleteness

abbrev pub is_complete : HistoryCompleteness → Bool
is_complete complete = true
is_complete bounded_window = false

pub record AccountingResult : Type 0 where
  pub completeness : HistoryCompleteness
  pub ledgers : LedgerMap
  pub orders : List (String × OrderExecution)
  pub transitions : List PositionTransition
  pub order_stats : OrderAggregationStats
  pub fills_replayed : ℕ
  pub duplicate_fills_ignored : ℕ
  pub settlements_applied : ℕ
  pub settlements_without_a_position : ℕ
  pub settlements_refused_unreconciled : ℕ
  pub settlements_refused_ambiguous_subaccount : ℕ
  pub settlements_refused_by_shape : List (SettlementRefusal × ℕ)
  pub total_fees : Option Decimal
  pub fills_with_fee : ℕ
  pub subaccounts_observed : List (Option ℕ)
  pub tickers_with_settlement_evidence : List String
  pub settlement_floor : Option Decimal
  pub exchange_view_supplied : Bool

-- The property `episodes`.
unfoldable pub all_episodes : LedgerMap → List PositionEpisode
all_episodes [] = []
all_episodes ((key, ledger) ∷ rest) = episodes ledger ++ all_episodes rest

-- The property `fill_history_complete`.
abbrev pub fill_history_complete : AccountingResult → Bool
fill_history_complete result = is_complete result.completeness

-- The property `claims_complete_position_state`.
unfoldable pub claims_complete_position_state : AccountingResult → Bool
unfolding all_episodes
claims_complete_position_state result =
    if not (fill_history_complete result)
    then false
    else all (λ e. authority_is_earned e) (all_episodes result.ledgers)

-- The properties `open_episodes`, `closed_episodes` and `episodes_with_an_unprovable_outcome`.
unfoldable pub open_episodes : AccountingResult → List PositionEpisode
unfolding all_episodes
open_episodes result = filter (λ e. is_open e) (all_episodes result.ledgers)

unfoldable pub closed_episodes : AccountingResult → List PositionEpisode
unfolding all_episodes
closed_episodes result = filter (λ e. not (is_open e)) (all_episodes result.ledgers)

unfoldable pub episodes_with_an_unprovable_outcome : AccountingResult → List PositionEpisode
unfolding all_episodes
episodes_with_an_unprovable_outcome result =
    filter (λ (e : PositionEpisode). is_open e && not e.outcome_provable)
      (all_episodes result.ledgers)

-- `fill_id in unique`
abbrev pub has_id : String → List NormalizedFill → Bool
has_id k fills = any (λ (f : NormalizedFill). str_eq f.fill_id k) fills

-- The de-duplicating loop: the first fill of each id, and the number of the others.
unfoldable pub deduplicate : List NormalizedFill → ℕ → List NormalizedFill → List NormalizedFill × ℕ
deduplicate unique duplicates [] = (unique, duplicates)
deduplicate unique duplicates (fill ∷ fills) =
    let seen = has_id fill.fill_id unique in
    deduplicate (if seen then unique else unique ++ (fill ∷ []))
      (if seen then duplicates + 1 else duplicates) fills

-- What the loop over the ordered fills carries.
pub record Walk : Type 0 where
  pub ledgers : LedgerMap
  pub transitions : List PositionTransition
  pub subaccounts : List (Option ℕ)
  pub fee_total : Decimal
  pub fees_complete : Bool
  pub with_fee : ℕ

abbrev pub or_new : Option MarketLedger → NormalizedFill → MarketLedger
or_new none fill = new_ledger fill.ticker fill.subaccount_number
or_new (some ledger) fill = ledger

-- `subaccounts_observed.add(…)`
abbrev add_account : Option ℕ → List (Option ℕ) → List (Option ℕ)
add_account account accounts =
    if any (λ a. account_eq a account) accounts then accounts else accounts ++ (account ∷ [])

abbrev fee_or_zero : Option Decimal → Decimal
fee_or_zero none = pos 0
fee_or_zero (some fee) = fee

-- The loop's variables after a fill was applied.
abbrev pub walk_to : Walk → NormalizedFill → MarketLedger × PositionTransition → Walk
walk_to w fill (ledger, transition) = record {
  ledgers = put_ledger (position_key fill) ledger w.ledgers;
  transitions = w.transitions ++ (transition ∷ []);
  subaccounts = add_account fill.subaccount_number w.subaccounts;
  fee_total = w.fee_total +ℤ fee_or_zero fill.fee_dollars;
  fees_complete = w.fees_complete && is_some fill.fee_dollars;
  with_fee = if is_some fill.fee_dollars then w.with_fee + 1 else w.with_fee;
}

-- One round of the loop.
unfoldable pub walk_fill : Bool → Walk → NormalizedFill → Result Walk
walk_fill provable w fill = do
  applied ← apply_fill (or_new (ledger_at (position_key fill) w.ledgers) fill) fill provable
  ok (walk_to w fill applied)

unfoldable pub walk_fills : Bool → Walk → List NormalizedFill → Result Walk
walk_fills provable w [] = ok w
walk_fills provable w (fill ∷ fills) = do
  w' ← walk_fill provable w fill
  walk_fills provable w' fills

abbrev pub start : Walk
start = record {
  ledgers = [];
  transitions = [];
  subaccounts = [];
  fee_total = pos 0;
  fees_complete = true;
  with_fee = 0;
}

-- `net_position`
unfoldable pub net_position : LedgerMap → PositionKey → Decimal
net_position ledgers key = elim (ledger_at key ledgers) [ none ↦ pos 0 | some l ↦ l.position ]
