-- ===== src/Position/Settlements.antt =====
-- `apply_settlement` (kalshi_router/accounting/position.py): the exchange closes a position itself.
use kalshi_bet_router.Base.{
  ◌+◌, Bool, true, false, Option, none, some, [], ◌∷◌, ◌++◌, ◌&&◌, not, if◌then◌else◌, ltb, concat,
}
use kalshi_bet_router.Base.Int.{pos, neg, abs, eq_ℤ, ltb_ℤ}
use kalshi_bet_router.Decimal.{Decimal, ◌⊖◌, ◌⊗◌}
use kalshi_bet_router.Fill.{NormalizedSettlement, settled_at, settled_quantity}
use kalshi_bet_router.Episode.{settles, Size, PositionTransition, PositionEpisode}
use kalshi_bet_router.Position.{MarketLedger, sign, fees_with, pnl_with}

pub data SettlementRefusal : Type 0 where
  replay_flat settlement_larger settlement_smaller : SettlementRefusal
  opposite_direction ambiguous_subaccount : SettlementRefusal

-- What `apply_settlement` returns, or the `SettlementRefused` that it raises.
pub data Settled : Type 0 where
  applied : MarketLedger → PositionTransition → Settled
  refused : SettlementRefusal → Settled

-- `_refusal_shape`
unfoldable pub refusal_shape : Decimal → Decimal → SettlementRefusal
refusal_shape stated replayed =
    if not (eq_ℤ (sign stated) (sign replayed))
    then opposite_direction
    else if ltb (abs replayed) (abs stated)
    then settlement_larger
    else settlement_smaller

-- A dollar, in the units of a price (10 ^ -40 dollars).
abbrev pub one_dollar : Decimal
one_dollar = pos 10000000000000000000000000000000000000000

-- The payout against what the contracts cost on the member's side, none where that is unknown.
abbrev payout : Bool → Option Decimal → Decimal → Decimal → Option Decimal
payout true (some average) before revenue =
    let cost = if ltb_ℤ (pos 0) before then average else one_dollar ⊖ average in
    some (revenue ⊖ cost ⊗ pos (abs before))
payout _ _ before revenue = none

abbrev or_else : Option Decimal → Option Decimal → Option Decimal
or_else none previous = previous
or_else (some at) previous = some at

abbrev is_known : Option Decimal → Bool
is_known none = false
is_known (some x) = true

-- The episode as a settlement leaves it.
unfoldable pub settle_episode :
    PositionEpisode
    → NormalizedSettlement
    → Size
    → Option Decimal
    → PositionTransition
    → PositionEpisode
settle_episode episode settlement closed realized transition = record episode {
  closed_at = settled_at settlement;
  last_activity_at = or_else (settled_at settlement) episode.last_activity_at;
  settlement_revenue_dollars = some settlement.revenue_dollars;
  settlement_result = some settlement.market_result;
  closing_fill_id = some transition.fill_id;
  remaining_quantity = 0;
  total_closed_quantity = episode.total_closed_quantity + closed;
  transitions = episode.transitions ++ (transition ∷ []);
  cost_basis_complete = episode.cost_basis_complete && is_known realized;
  realized_pnl = pnl_with episode.realized_pnl realized;
  fee_complete = episode.fee_complete && is_known settlement.fee_dollars;
  fees_paid = fees_with episode.fees_paid settlement.fee_dollars;
}

abbrev pub settled_out :
    MarketLedger
    → Option PositionEpisode
    → NormalizedSettlement
    → Size
    → Option Decimal
    → PositionTransition
    → MarketLedger
settled_out ledger none settlement closed realized transition = ledger
settled_out ledger (some episode) settlement closed realized transition = record ledger {
  closed_episodes =
      ledger.closed_episodes ++ (settle_episode episode settlement closed realized transition ∷ []);
  current_episode = none;
}

-- What happens once the settlement is accepted.
unfoldable pub settle : MarketLedger → NormalizedSettlement → Settled
settle ledger settlement =
    let before = ledger.position in
    let closed = abs before in
    let realized =
      payout ledger.cost_basis_complete ledger.average_entry_price before
        settlement.revenue_dollars in
    let transition : PositionTransition = record {
      fill_id = concat ("settlement:" ∷ settlement.ticker ∷ []);
      order_id = none;
      ticker = ledger.ticker;
      kind = settles;
      signed_quantity = neg before;
      position_before = before;
      position_after = pos 0;
      execution_price = settlement.market_value_dollars;
      quantity_opened = 0;
      quantity_closed = closed;
      realized_pnl = realized;
      fee_dollars = settlement.fee_dollars;
    } in
    applied
      (settled_out (record ledger { position = pos 0; average_entry_price = none })
        ledger.current_episode settlement closed realized transition)
      transition

-- `stated is not None and stated != before`
abbrev pub disagreement : Option Decimal → Decimal → Option SettlementRefusal
disagreement none before = none
disagreement (some stated) before =
    if eq_ℤ stated before then none else some (refusal_shape stated before)

abbrev pub settle_unless : Option SettlementRefusal → MarketLedger → NormalizedSettlement → Settled
settle_unless none ledger settlement = settle ledger settlement
settle_unless (some refusal) ledger settlement = refused refusal

unfoldable pub apply_settlement : MarketLedger → NormalizedSettlement → Settled
unfolding settle
apply_settlement ledger settlement =
    if eq_ℤ ledger.position (pos 0)
    then refused replay_flat
    else settle_unless (disagreement (settled_quantity settlement) ledger.position) ledger
        settlement
