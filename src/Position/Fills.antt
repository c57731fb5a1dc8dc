-- ===== src/Position/Fills.antt =====
-- `apply_fill` (kalshi_router/accounting/position.py), one function for each kind of transition.
use mathlib.Core.Option
use kalshi_bet_router.Base.{
  Bool, true, false, Option, none, some, is_some, if◌then◌else◌, Result, ok, ◌>>=◌,
}
use kalshi_bet_router.Base.Int.{pos, ◌+ℤ◌, abs}
use kalshi_bet_router.Decimal.{Decimal, ◌⊕◌, ◌⊗◌, divide}
use kalshi_bet_router.Fill.{NormalizedFill, parse_execution_time, project_fill}
use kalshi_bet_router.Episode.{
  TransitionKind, opens, increases, reduces, closes, reverses, settles, Size, PositionTransition,
  PositionEpisode,
}
use kalshi_bet_router.Position.{
  MarketLedger, sign, classify, opened_by, closed_by, new_episode, realized_on, basis_marked,
  record_fill, close_episode,
}

-- The weighted average after an increase, unknown where either price is.
abbrev reweighted : Option Decimal → Option Decimal → Decimal → Decimal → Decimal → Option Decimal
reweighted (some price) (some average) before signed after =
    some (divide (average ⊗ pos (abs before) ⊕ price ⊗ pos (abs signed)) (abs after))
reweighted _ _ before signed after = none

-- The new episode of a position that leaves flat.
abbrev pub start_episode :
    MarketLedger
    → NormalizedFill
    → Decimal
    → Option Decimal
    → Decimal
    → Bool
    → Size
    → Bool
    → MarketLedger
start_episode ledger fill at price after provable opened charge_fee =
    let started = record ledger {
      position = after;
      average_entry_price = price;
      cost_basis_complete = is_some price;
    } in
    record started {
      current_episode = some (
          record_fill (new_episode started fill at after provable) fill at opened 0 none after
            started charge_fee);
    }

-- `_record(ledger.current_episode, …)`, which does nothing where there is no episode.
abbrev pub record_current :
    MarketLedger → NormalizedFill → Decimal → Size → Size → Option Decimal → Bool → MarketLedger
record_current ledger fill at opened closed realized charge_fee = record ledger {
  current_episode =
      Option.map
        (λ episode.
          record_fill episode fill at opened closed realized ledger.position ledger charge_fee)
        ledger.current_episode;
}

unfoldable pub increase :
    MarketLedger → NormalizedFill → Decimal → Option Decimal → Decimal → MarketLedger
increase ledger fill at price signed =
    let after = ledger.position +ℤ signed in
    let average = reweighted price ledger.average_entry_price ledger.position signed after in
    let weighted = record ledger {
      position = after;
      average_entry_price = average;
      cost_basis_complete = if is_some average then ledger.cost_basis_complete else false;
    } in
    record_current weighted fill at (abs signed) 0 none true

unfoldable pub reduce :
    MarketLedger → NormalizedFill → Decimal → Option Decimal → Decimal → MarketLedger
reduce ledger fill at price signed =
    let after = ledger.position +ℤ signed in
    let realized = realized_on ledger price (abs signed) (sign ledger.position) in
    record_current (record (basis_marked ledger realized) { position = after }) fill at 0
      (abs signed) realized true

-- The end of the outgoing episode at a close.
abbrev pub closed_out :
    MarketLedger → Option PositionEpisode → NormalizedFill → Decimal → MarketLedger
closed_out ledger none fill at = ledger
closed_out ledger (some episode) fill at = record (close_episode ledger episode fill at) {
  average_entry_price = none;
  cost_basis_complete = true;
}

unfoldable pub close :
    MarketLedger → NormalizedFill → Decimal → Option Decimal → Decimal → MarketLedger
unfolding reduce
close ledger fill at price signed =
    let reduced = reduce ledger fill at price signed in
    closed_out reduced reduced.current_episode fill at

-- The fee of a reversal spans two episodes, so neither is charged.
abbrev pub ambiguous : PositionEpisode → PositionEpisode
ambiguous episode = record episode { fee_allocation_ambiguous = true; fee_complete = false }

abbrev pub reversed_out :
    MarketLedger → Option PositionEpisode → NormalizedFill → Decimal → MarketLedger
reversed_out ledger none fill at = ledger
reversed_out ledger (some episode) fill at = close_episode ledger (ambiguous episode) fill at

unfoldable pub reverse :
    MarketLedger → NormalizedFill → Decimal → Option Decimal → Decimal → Bool → MarketLedger
reverse ledger fill at price signed provable =
    let after = ledger.position +ℤ signed in
    let closed = abs ledger.position in
    let realized = realized_on ledger price closed (sign ledger.position) in
    let flat =
      record_current (record (basis_marked ledger realized) { position = pos 0 }) fill at 0 closed
        realized false in
    let crossed = reversed_out flat flat.current_episode fill at in
    let opened = start_episode crossed fill at price after provable (abs after) false in
    record opened { current_episode = Option.map ambiguous opened.current_episode }

-- The ledger after one fill, by the kind of its transition.
unfoldable pub advance :
    TransitionKind
    → MarketLedger
    → NormalizedFill
    → Decimal
    → Option Decimal
    → Decimal
    → Bool
    → MarketLedger
unfolding increase reduce close reverse
advance opens ledger fill at price signed provable =
    start_episode ledger fill at price (ledger.position +ℤ signed) provable (abs signed) true
advance increases ledger fill at price signed provable = increase ledger fill at price signed
advance reduces ledger fill at price signed provable = reduce ledger fill at price signed
advance closes ledger fill at price signed provable = close ledger fill at price signed
advance reverses ledger fill at price signed provable = reverse ledger fill at price signed provable
advance settles ledger fill at price signed provable = ledger

abbrev realized_by : TransitionKind → MarketLedger → Option Decimal → Decimal → Option Decimal
realized_by opens ledger price signed = none
realized_by increases ledger price signed = none
realized_by kind ledger price signed =
    realized_on ledger price (closed_by kind signed ledger.position) (sign ledger.position)

abbrev pub transition_of :
    MarketLedger → NormalizedFill → Decimal → Option Decimal → PositionTransition
transition_of ledger fill signed price =
    let before = ledger.position in
    let after = before +ℤ signed in
    let kind = classify before after in
    record {
      fill_id = fill.fill_id;
      order_id = fill.order_id;
      ticker = fill.ticker;
      kind = kind;
      signed_quantity = signed;
      position_before = before;
      position_after = after;
      execution_price = price;
      quantity_opened = opened_by kind signed after;
      quantity_closed = closed_by kind signed before;
      realized_pnl = realized_by kind ledger price signed;
      fee_dollars = fill.fee_dollars;
    }

-- The code reads the execution time inside the branches. It is read first here: on an error the
-- exception leaves the replay, and the ledger with it.
unfoldable pub apply_fill :
    MarketLedger → NormalizedFill → Bool → Result (MarketLedger × PositionTransition)
unfolding advance
apply_fill ledger fill provable = do
  (signed, price) ← project_fill fill
  at ← parse_execution_time fill
  ok (
    advance (classify ledger.position (ledger.position +ℤ signed)) ledger fill at price signed
        provable,
    transition_of ledger fill signed price,
  )
