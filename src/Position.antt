-- ===== src/Position.antt =====
-- The position state machine of one market (kalshi_router/accounting/position.py): a ledger, and
-- the parts of what one fill does to it. `Position/Fills` applies a fill, `Position/Settlements` a
-- settlement, and the other children say what holds of both.
pub mod Fills
pub mod Settlements
pub mod Invariant
pub mod Kinds
pub mod Keeps
pub mod Applied
pub mod Settled
pub mod Episodes
pub mod Untouched
pub mod Profit
use kalshi_bet_router.Base.{
  ℕ, ◌+◌, max, String, Bool, true, false, Option, none, some, List, [], ◌∷◌, ◌++◌, ◌&&◌, ◌||◌, not,
  if◌then◌else◌, ltb, ◌==◌, is_none, is_some, concat, str_eq, Result, ok, err, ◌>>=◌,
}
use kalshi_bet_router.Base.Int.{ℤ, pos, negsuc, ◌+ℤ◌, ◌-ℤ◌, neg, abs, eq_ℤ, ltb_ℤ}
use kalshi_bet_router.Decimal.{Decimal, ◌⊕◌, ◌⊖◌, ◌⊗◌, divide}
use kalshi_bet_router.Fill.{
  NormalizedFill, NormalizedSettlement, parse_execution_time, project_fill, settled_at,
  settled_quantity,
}
use kalshi_bet_router.Episode.{
  TransitionKind, opens, increases, reduces, closes, reverses, settles, Direction, long_yes,
  long_no, not_reconciled, Size, PositionTransition, PositionEpisode,
}

pub record MarketLedger : Type 0 where
  pub ticker : String
  pub subaccount_number : Option ℕ
  pub position : Decimal
  pub average_entry_price : Option Decimal
  pub cost_basis_complete : Bool
  pub current_episode : Option PositionEpisode
  pub closed_episodes : List PositionEpisode

-- `MarketLedger(ticker=…, subaccount_number=…)`
abbrev pub new_ledger : String → Option ℕ → MarketLedger
new_ledger ticker subaccount = record {
  ticker = ticker;
  subaccount_number = subaccount;
  position = pos 0;
  average_entry_price = none;
  cost_basis_complete = true;
  current_episode = none;
  closed_episodes = [];
}

abbrev pub with_current : List PositionEpisode → Option PositionEpisode → List PositionEpisode
with_current closed none = closed
with_current closed (some episode) = closed ++ (episode ∷ [])

-- The property `MarketLedger.episodes`.
abbrev pub episodes : MarketLedger → List PositionEpisode
episodes ledger = with_current ledger.closed_episodes ledger.current_episode

-- `_sign`
abbrev pub sign : Decimal → ℤ
sign value = if ltb_ℤ (pos 0) value then pos 1 else if ltb_ℤ value (pos 0) then negsuc 0 else pos 0

-- `_classify`
unfoldable pub classify : Decimal → Decimal → TransitionKind
classify before after =
    if eq_ℤ before (pos 0)
    then opens
    else if eq_ℤ after (pos 0)
    then closes
    else if not (eq_ℤ (sign after) (sign before))
    then reverses
    else if ltb (abs before) (abs after)
    then increases
    else reduces

-- The contracts that a transition opens and closes, by its kind.
abbrev pub opened_by : TransitionKind → Decimal → Decimal → Size
opened_by opens signed after = abs signed
opened_by increases signed after = abs signed
opened_by reverses signed after = abs after
opened_by _ signed after = 0

abbrev pub closed_by : TransitionKind → Decimal → Decimal → Size
closed_by reduces signed before = abs signed
closed_by closes signed before = abs signed
closed_by reverses signed before = abs before
closed_by _ signed before = 0

-- `_new_episode`; the fill's execution time was read by the caller.
unfoldable pub new_episode :
    MarketLedger → NormalizedFill → Decimal → Decimal → Bool → PositionEpisode
new_episode ledger fill at position_after provable = record {
  ticker = ledger.ticker;
  direction = if ltb_ℤ (pos 0) position_after then long_yes else long_no;
  opening_fill_id = fill.fill_id;
  opened_at = at;
  subaccount_number = ledger.subaccount_number;
  closing_fill_id = none;
  closed_at = none;
  last_activity_at = some at;
  remaining_quantity = 0;
  peak_quantity = 0;
  total_opened_quantity = 0;
  total_closed_quantity = 0;
  average_entry_price = none;
  realized_pnl = pos 0;
  fees_paid = pos 0;
  cost_basis_complete = true;
  fee_complete = true;
  fee_allocation_ambiguous = false;
  provable = provable;
  outcome_provable = true;
  outcome_bounded_by_settlement_coverage = false;
  settlement_revenue_dollars = none;
  settlement_result = none;
  authority = not_reconciled;
  transitions = [];
  order_ids = [];
}

abbrev realized_at : Option Decimal → Option Decimal → Bool → Size → ℤ → Option Decimal
realized_at (some price) (some average) true closed position_sign =
    some ((price ⊖ average) ⊗ pos closed ⊗ position_sign)
realized_at _ _ _ closed position_sign = none

-- `_realized`: the profit of a reduction, none where the cost basis is unknown.
unfoldable pub realized_on : MarketLedger → Option Decimal → Size → ℤ → Option Decimal
realized_on ledger price closed position_sign =
    realized_at price ledger.average_entry_price ledger.cost_basis_complete closed position_sign

-- The write that `_realized` makes: an unknown profit leaves the cost basis incomplete.
abbrev basis_marked : MarketLedger → Option Decimal → MarketLedger
basis_marked ledger realized = record ledger {
  cost_basis_complete = if is_some realized then ledger.cost_basis_complete else false;
}

-- `if fill.order_id: episode.order_ids.append(fill.order_id)`
abbrev with_order : List String → Option String → List String
with_order order_ids none = order_ids
with_order order_ids (some order_id) =
    if str_eq order_id "" then order_ids else order_ids ++ (order_id ∷ [])

abbrev pnl_with : Decimal → Option Decimal → Decimal
pnl_with pnl none = pnl
pnl_with pnl (some realized) = pnl ⊕ realized

abbrev fees_with : Decimal → Option Decimal → Decimal
fees_with fees none = fees
fees_with fees (some fee) = fees +ℤ fee

abbrev basis_after : Bool → Option Decimal → Size → Bool → Bool
basis_after episode_basis realized closed ledger_basis =
    if ledger_basis
    then (if is_some realized then episode_basis else if ltb 0 closed then false else episode_basis)
    else false

-- `_record` on an episode that is there.
unfoldable pub record_fill :
    PositionEpisode
    → NormalizedFill
    → Decimal
    → Size
    → Size
    → Option Decimal
    → Decimal
    → MarketLedger
    → Bool
    → PositionEpisode
record_fill episode fill at opened closed realized position_after ledger charge_fee =
    record episode {
      last_activity_at = some at;
      total_opened_quantity = episode.total_opened_quantity + opened;
      total_closed_quantity = episode.total_closed_quantity + closed;
      remaining_quantity = abs position_after;
      peak_quantity = max episode.peak_quantity (abs position_after);
      order_ids = with_order episode.order_ids fill.order_id;
      realized_pnl = pnl_with episode.realized_pnl realized;
      cost_basis_complete =
          basis_after episode.cost_basis_complete realized closed ledger.cost_basis_complete;
      fee_complete = if charge_fee && is_none fill.fee_dollars then false else episode.fee_complete;
      fees_paid =
          if charge_fee then fees_with episode.fees_paid fill.fee_dollars else episode.fees_paid;
      average_entry_price = ledger.average_entry_price;
    }

abbrev pub ended : PositionEpisode → NormalizedFill → Decimal → PositionEpisode
ended episode fill at = record episode {
  closing_fill_id = some fill.fill_id;
  closed_at = some at;
  remaining_quantity = 0;
}

-- `_close_episode`
unfoldable pub close_episode :
    MarketLedger → PositionEpisode → NormalizedFill → Decimal → MarketLedger
close_episode ledger episode fill at = record ledger {
  closed_episodes = ledger.closed_episodes ++ (ended episode fill at ∷ []);
  current_episode = none;
}
