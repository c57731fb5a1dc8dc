-- ===== src/Fill.antt =====
-- The normalised fills and settlements that the accounting reads (kalshi_router/models.py), and
-- their clocks (kalshi_router/timeaxis.py, kalshi_router/accounting/ordering.py).
use kalshi_bet_router.Base.{
  ℕ, String, Bool, true, false, Option, none, some, List, schema_error, value_error, Result, ok,
  err, is_none, ◌&&◌, if◌then◌else◌,
}
use kalshi_bet_router.Base.Int.{ℤ, pos, neg, ◌-ℤ◌, ◌*ℤ◌}
use kalshi_bet_router.Decimal.{Decimal}

pub data OutcomeSide : Type 0 where
  -- `OutcomeSide.YES` and `OutcomeSide.NO`
  yes_side no_side : OutcomeSide

pub data BookSide : Type 0 where
  bid ask : BookSide

pub data Action : Type 0 where
  buy sell : Action

pub data Side : Type 0 where
  yes_leg no_leg : Side

abbrev pub outcome_eq : OutcomeSide → OutcomeSide → Bool
outcome_eq yes_side yes_side = true
outcome_eq no_side no_side = true
outcome_eq _ _ = false

abbrev pub book_eq : BookSide → BookSide → Bool
book_eq bid bid = true
book_eq ask ask = true
book_eq _ _ = false

abbrev pub action_eq : Action → Action → Bool
action_eq buy buy = true
action_eq sell sell = true
action_eq _ _ = false

abbrev is_buy : Action → Bool
is_buy buy = true
is_buy sell = false

abbrev is_yes_leg : Side → Bool
is_yes_leg yes_leg = true
is_yes_leg no_leg = false

abbrev bool_eq : Bool → Bool → Bool
bool_eq true b = b
bool_eq false true = false
bool_eq false false = true

-- Which way one execution moves the position.
unfoldable pub exposure_from_legacy : Action → Side → OutcomeSide
exposure_from_legacy action side =
    let positioned_for_yes = bool_eq (is_buy action) (is_yes_leg side) in
    if positioned_for_yes then yes_side else no_side

-- A timestamp as the payload spells it, with the time since the epoch that
-- `datetime.fromisoformat` reads in it, in microseconds (none where it reads nothing). The calendar arithmetic is the standard library's.
pub record Timestamp : Type 0 where
  pub text : String
  pub seconds : Option Decimal

pub record NormalizedFill : Type 0 where
  pub fill_id : String
  pub ticker : String
  pub outcome_side : OutcomeSide
  pub exposure_side : OutcomeSide
  pub book_side : Option BookSide
  pub legacy_action : Option Action
  pub legacy_side : Option Side
  pub direction_sources : List String
  pub order_id : Option String
  pub trade_id : Option String
  pub subaccount_number : Option ℕ
  pub count : Option Decimal
  pub count_source : Option String
  pub price_dollars : Option Decimal
  pub leg_price_dollars : Option Decimal
  pub price_source : Option String
  pub legacy_price_semantics_unproven : Bool
  pub fixed_point_number_typed : Bool
  pub fee_dollars : Option Decimal
  pub fee_source : Option String
  pub is_taker : Option Bool
  pub created_time : Option Timestamp
  pub ts : Option ℤ

abbrev pub PositionKey : Type 0
PositionKey = Option ℕ × String

-- Positions never net across subaccounts.
abbrev pub position_key : NormalizedFill → PositionKey
position_key fill = (fill.subaccount_number, fill.ticker)

pub record NormalizedSettlement : Type 0 where
  pub ticker : String
  pub settled_time : Timestamp
  pub market_result : String
  pub revenue_dollars : Decimal
  pub market_value_dollars : Option Decimal
  pub fee_dollars : Option Decimal
  pub yes_count : Option Decimal
  pub no_count : Option Decimal
  pub yes_cost_dollars : Option Decimal
  pub no_cost_dollars : Option Decimal

abbrev pub parse_rfc3339_seconds : Option Timestamp → Option Decimal
parse_rfc3339_seconds none = none
parse_rfc3339_seconds (some t) = t.seconds

abbrev pub settled_at : NormalizedSettlement → Option Decimal
settled_at settlement = parse_rfc3339_seconds (some settlement.settled_time)

-- `x or ZERO`
abbrev pub or_zero : Option Decimal → Decimal
or_zero none = pos 0
or_zero (some x) = x

-- The signed YES-axis quantity that a settlement closed, none where neither leg is known.
unfoldable pub settled_quantity : NormalizedSettlement → Option Decimal
settled_quantity settlement =
    if is_none settlement.yes_count && is_none settlement.no_count
    then none
    else some (or_zero settlement.yes_count -ℤ or_zero settlement.no_count)

-- Times are in microseconds: `datetime` has no finer ones.
abbrev pub second : Decimal
second = pos 1000000

abbrev execution_time : Option Decimal → Option ℤ → Result Decimal
execution_time (some parsed) ts = ok parsed
execution_time none (some ts) = ok (second *ℤ ts)
execution_time none none = err schema_error

-- The execution time since the epoch; `created_time` comes before `ts`.
unfoldable pub parse_execution_time : NormalizedFill → Result Decimal
unfolding ◌*ℤ◌
parse_execution_time fill = execution_time (parse_rfc3339_seconds fill.created_time) fill.ts

abbrev pub signed : OutcomeSide → Decimal → Decimal
signed yes_side quantity = quantity
signed no_side quantity = neg quantity

abbrev pub projected : NormalizedFill → Option Decimal → Result (Decimal × Option Decimal)
projected fill none = err value_error
projected fill (some quantity) = ok (signed fill.exposure_side quantity, fill.price_dollars)

-- One fill on the signed YES axis: its signed quantity and its price there.
unfoldable pub project_fill : NormalizedFill → Result (Decimal × Option Decimal)
project_fill fill = projected fill fill.count
