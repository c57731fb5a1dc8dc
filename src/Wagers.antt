-- ===== src/Wagers.antt =====
-- What the exchange paid, attributed to one wager or refused (kalshi_router/settlement.py). `Fees` is
-- about the entry fees of a market, `Rows` about the settlements of a batch. Money and prices are in
-- units of 10 ^ -40 dollars. `str.upper` and `str.lower` are a parameter.
pub mod Fees
pub mod Earned
pub mod Rows
use kalshi_bet_router.Base.{
  ℕ, suc, ◌+◌, String, Bool, true, false, Option, none, some, List, [], ◌∷◌, map, not, ◌&&◌, ◌||◌,
  if◌then◌else◌, ltb, leb, is_some, is_none, contains, str_eq, Result, ok, err, value_error, ◌>>=◌,
}
use kalshi_bet_router.Base.Int.{ℤ, pos, abs, eq_ℤ, ◌+ℤ◌}
use kalshi_bet_router.Decimal.{Decimal, ◌⊖◌, ◌⊗◌}
use kalshi_bet_router.Fill.{Timestamp, NormalizedSettlement}
use kalshi_bet_router.Classify.Words.{Letters, strip}

pub record Wager : Type 0 where
  pub source_key : String
  pub market_ticker : String
  pub side : String
  pub contracts : Decimal
  pub stake : Decimal
  pub total_fees : Option Decimal
  pub sport : String

abbrev pub economics_v1 : String
economics_v1 = "router-settlement-economics.v1"

abbrev pub economics_v2 : String
economics_v2 = "router-settlement-economics.v2"

-- `FEE_TOLERANCE`, 0.00005 dollars.
abbrev pub fee_tolerance : ℕ
fee_tolerance = 500000000000000000000000000000000000

abbrev pub one_dollar : Decimal
one_dollar = pos 10000000000000000000000000000000000000000

pub data ReturnRefusal : Type 0 where
  no_settlement_price shared_position_fee not_settled fee_not_reconciled : ReturnRefusal

pub data Status : Type 0 where
  settled pending : Status

pub data LegResult : Type 0 where
  won lost : LegResult

pub record WagerSettlement : Type 0 where
  pub source_bet_key : String
  pub market_ticker : String
  pub side : String
  pub settlement_status : Status
  pub settled_at : Option Timestamp
  pub result : Option LegResult
  pub gross_return : Option Decimal
  pub net_profit_loss : Option Decimal
  pub refusals : List ReturnRefusal
  pub economics_version : String

-- The property `is_established`.
unfoldable pub is_established : WagerSettlement → Bool
is_established s = is_some s.gross_return && is_some s.net_profit_loss

-- `(wager.side or "").strip().upper()`
unfoldable pub side_of : Letters → Wager → String
side_of letters wager = letters.upper (strip wager.side)

-- `_result_for_side`
unfoldable pub result_for_side : Letters → NormalizedSettlement → String → Option LegResult
result_for_side letters settlement side =
    let outcome = letters.lower (strip settlement.market_result) in
    if not (contains outcome ("yes" ∷ "no" ∷ []))
    then none
    else if not (contains side ("YES" ∷ "NO" ∷ []))
    then none
    else if str_eq outcome (letters.lower side)
    then some won
    else some lost

-- A settlement of a wager on a side, before any money is known.
abbrev pub unpriced : Wager → String → Status → WagerSettlement
unpriced wager side status = record {
  source_bet_key = wager.source_key;
  market_ticker = wager.market_ticker;
  side = side;
  settlement_status = status;
  settled_at = none;
  result = none;
  gross_return = none;
  net_profit_loss = none;
  refusals = [];
  economics_version = economics_v1;
}

abbrev pub dated : Wager → String → Option LegResult → NormalizedSettlement → WagerSettlement
dated wager side result settlement = record (unpriced wager side settled) {
  settled_at = some settlement.settled_time;
  result = result;
}

-- Whether the fee of the settlement is what the orders on the market paid at entry.
abbrev pub is_reconciled : Option Decimal → Option Decimal → Bool
is_reconciled none fee = false
is_reconciled (some entry) none = eq_ℤ entry (pos 0)
is_reconciled (some entry) (some fee) = leb (abs (fee ⊖ entry)) fee_tolerance

-- `_settle_v2`
unfoldable pub settle_v2 :
    Wager
    → String
    → Option LegResult
    → NormalizedSettlement
    → Decimal
    → Option Decimal
    → WagerSettlement
settle_v2 wager side result settlement gross market_entry_fees =
    let base = record (dated wager side result settlement) {
      economics_version = economics_v2;
      gross_return = some gross;
    } in
    if not (is_reconciled market_entry_fees settlement.fee_dollars)
    then record base { refusals = fee_not_reconciled ∷ [] }
    else record base { net_profit_loss = some (gross ⊖ wager.stake) }

abbrev pub or_zero : Option Decimal → Decimal
or_zero none = pos 0
or_zero (some x) = x

-- The end of `settle_wager`, for the first version of the economics.
unfoldable pub settle_v1 :
    Wager → String → Option LegResult → NormalizedSettlement → Decimal → ℕ → WagerSettlement
settle_v1 wager side result settlement gross orders_on_this_position =
    let fee = or_zero settlement.fee_dollars in
    let base = record (dated wager side result settlement) { gross_return = some gross } in
    if not (eq_ℤ fee (pos 0)) && ltb 1 orders_on_this_position
    then record base { refusals = shared_position_fee ∷ [] }
    else record base { net_profit_loss = some (gross ⊖ wager.stake ⊖ fee) }

-- `per_contract * wager.contracts`
abbrev pub gross_paid : Wager → String → Decimal → Decimal
gross_paid wager side price =
    (if str_eq side "YES" then price else one_dollar ⊖ price) ⊗ wager.contracts

unfoldable pub settle_priced :
    Wager
    → String
    → Option LegResult
    → NormalizedSettlement
    → Option Decimal
    → ℕ
    → String
    → Option Decimal
    → Result WagerSettlement
unfolding settle_v1 settle_v2
settle_priced wager side result settlement none orders version entry =
    ok (record (dated wager side result settlement) { refusals = no_settlement_price ∷ [] })
settle_priced wager side result settlement (some price) orders version entry =
    let gross = gross_paid wager side price in
    if str_eq version economics_v2
    then ok (settle_v2 wager side result settlement gross entry)
    else if not (str_eq version economics_v1)
    then err value_error
    else ok (settle_v1 wager side result settlement gross orders)

unfoldable pub settle_wager :
    Letters
    → Wager
    → Option NormalizedSettlement
    → ℕ
    → String
    → Option Decimal
    → Result WagerSettlement
unfolding settle_priced side_of result_for_side
settle_wager letters wager none orders version entry =
    ok (record (unpriced wager (side_of letters wager) pending) { refusals = not_settled ∷ [] })
settle_wager letters wager (some settlement) orders version entry =
    let side = side_of letters wager in
    settle_priced wager side (result_for_side letters settlement side) settlement
      settlement.market_value_dollars orders version entry

-- `out` of `market_entry_fees`: a sum for each ticker, none where a fee is unknown.
abbrev pub EntryFees : Type 0
EntryFees = List (String × Option Decimal)

abbrev pub fee_sum : Option Decimal → Option Decimal → Option Decimal
fee_sum none fee = none
fee_sum (some total) none = none
fee_sum (some total) (some fee) = some (total +ℤ fee)

-- One round of the loop: a total that is unknown stays unknown.
unfoldable pub add_entry_fee : String → Option Decimal → EntryFees → EntryFees
add_entry_fee ticker fee [] = (ticker, fee_sum (some (pos 0)) fee) ∷ []
add_entry_fee ticker fee ((t, total) ∷ rest) =
    let more = add_entry_fee ticker fee rest in
    if str_eq t ticker then (t, fee_sum total fee) ∷ rest else (t, total) ∷ more

unfoldable pub add_entry_fees : EntryFees → List Wager → EntryFees
unfolding add_entry_fee
add_entry_fees out [] = out
add_entry_fees out (wager ∷ wagers) =
    add_entry_fees (add_entry_fee wager.market_ticker wager.total_fees out) wagers

unfoldable pub market_entry_fees : List Wager → EntryFees
unfolding add_entry_fees
market_entry_fees wagers = add_entry_fees [] wagers

-- `entry.get(ticker)`
unfoldable pub entry_at : EntryFees → String → Option Decimal
entry_at [] ticker = none
entry_at ((t, total) ∷ rest) ticker = if str_eq t ticker then total else entry_at rest ticker

-- `orders_by_position(wagers).get(key, 1)`, for the key of a wager of the batch.
unfoldable pub orders_at : Letters → List Wager → String → String → ℕ
unfolding side_of
orders_at letters [] ticker side = 0
orders_at letters (wager ∷ wagers) ticker side =
    let rest = orders_at letters wagers ticker side in
    if str_eq wager.market_ticker ticker && str_eq (side_of letters wager) side
    then suc rest
    else rest

-- `settlements_by_ticker.get(ticker)` and `economics_by_sport.get(sport, ECONOMICS_V1)`
abbrev pub settlement_at :
    List (String × NormalizedSettlement) → String → Option NormalizedSettlement
settlement_at [] ticker = none
settlement_at ((t, s) ∷ rest) ticker = if str_eq t ticker then some s else settlement_at rest ticker

abbrev pub version_at : List (String × String) → String → String
version_at [] sport = economics_v1
version_at ((s, version) ∷ rest) sport = if str_eq s sport then version else version_at rest sport

-- The loop of `settle_batch`; `batch` are all its wagers.
unfoldable pub settle_each :
    Letters
    → List Wager
    → List (String × NormalizedSettlement)
    → List (String × String)
    → List Wager
    → Result (List WagerSettlement)
unfolding settle_wager market_entry_fees orders_at entry_at side_of
settle_each letters batch settlements economics [] = ok []
settle_each letters batch settlements economics (wager ∷ wagers) = do
  row ←
      settle_wager letters wager (settlement_at settlements wager.market_ticker)
        (orders_at letters batch wager.market_ticker (side_of letters wager))
        (version_at economics wager.sport) (entry_at (market_entry_fees batch) wager.market_ticker)
  rows ← settle_each letters batch settlements economics wagers
  ok (row ∷ rows)

unfoldable pub settle_batch :
    Letters
    → List Wager
    → List (String × NormalizedSettlement)
    → List (String × String)
    → Result (List WagerSettlement)
unfolding settle_each
settle_batch letters wagers settlements economics =
    settle_each letters wagers settlements economics wagers
