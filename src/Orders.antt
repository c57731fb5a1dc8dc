-- ===== src/Orders.antt =====
-- Order execution groups (kalshi_router/accounting/execution.py): the fills of one submitted order,
-- summarised. `Counts` is about what the groups count.
pub mod Counts
use kalshi_bet_router.Base.{
  ℕ, ◌+◌, String, Bool, true, false, Option, none, some, List, [], ◌∷◌, ◌++◌, map, not,
  if◌then◌else◌, ltb, ◌==◌, is_none, is_some, length, filter, str_eq, schema_error, Result, ok, err,
  ◌>>=◌,
}
use kalshi_bet_router.Base.Int.{pos, pos_part, ◌+ℤ◌, ◌*ℤ◌, eq_ℤ}
use kalshi_bet_router.Decimal.{Decimal, divide}
use kalshi_bet_router.Fill.{
  OutcomeSide, BookSide, Action, outcome_eq, book_eq, action_eq, NormalizedFill,
  parse_execution_time,
}
use kalshi_bet_router.Ordering.{sort_fills}
use kalshi_bet_router.Episode.{order_source_key}

pub record OrderExecution : Type 0 where
  pub order_id : String
  pub ticker : String
  pub outcome_side : OutcomeSide
  pub book_side : Option BookSide
  pub subaccount_number : Option ℕ
  pub total_quantity : Decimal
  pub fill_count : ℕ
  pub fill_ids : List String
  pub first_execution_time : Decimal
  pub last_execution_time : Decimal
  pub vwap_price : Option Decimal
  pub total_fee : Option Decimal
  pub fills_with_fee : ℕ
  pub all_taker : Option Bool
  pub exposure_side : OutcomeSide
  pub legacy_action : Option Action

-- The property `is_sell`.
abbrev pub is_sell : OrderExecution → Bool
is_sell order = not (outcome_eq order.exposure_side order.outcome_side)

-- The property `source_key`.
abbrev pub source_key : OrderExecution → String
source_key order = order_source_key order.order_id

-- The property `is_partially_filled_order`.
abbrev pub is_partially_filled_order : OrderExecution → Bool
is_partially_filled_order order = ltb 1 order.fill_count

-- The property `fee_complete`.
abbrev pub fee_complete : OrderExecution → Bool
fee_complete order = is_some order.total_fee

pub record OrderAggregationStats : Type 0 where
  pub orders : ℕ
  pub partial_orders : ℕ
  pub fills_without_order_id : ℕ
  pub orders_with_complete_fees : ℕ
  pub orders_missing_fees : ℕ
  pub orders_without_price : ℕ

abbrev weighted : Decimal → Decimal → Option Decimal
weighted notional quantity =
    if eq_ℤ quantity (pos 0) then none else some (divide notional (pos_part quantity))

abbrev contributes : Option Decimal → Option Decimal → Option (Decimal × Decimal)
contributes (some price) (some count) = some (price *ℤ count, count)
contributes _ _ = none

-- The loop of `weighted_average_price`, which leaves at the first fill without a price or a count.
-- Its sums are exact: a price and a count of a fill have few digits.
weigh : Decimal → Decimal → List NormalizedFill → Option Decimal
weigh notional quantity [] = weighted notional quantity
weigh notional quantity (fill ∷ fills) = elim (contributes fill.price_dollars fill.count) [
  | none ↦ none
  | some (amount, count) ↦ weigh (notional +ℤ amount) (quantity +ℤ count) fills
]

unfoldable pub weighted_average_price : List NormalizedFill → Option Decimal
unfolding weigh
weighted_average_price fills = weigh (pos 0) (pos 0) fills

module _ {A : Type 0} (eq : A → A → Bool) where
  -- The values of a set built from a list, the first of each kind.
  unfoldable pub distinct : List A → List A
  distinct [] = []
  distinct (x ∷ xs) = x ∷ filter (λ y. not (eq x y)) (distinct xs)

  -- `len({…}) > 1`
  unfoldable pub differ : List A → Bool
  unfolding distinct
  differ xs = ltb 1 (length (distinct xs))

abbrev option_eq : {A : Type 0} → (A → A → Bool) → Option A → Option A → Bool
option_eq eq none none = true
option_eq eq (some a) (some b) = eq a b
option_eq eq _ _ = false

abbrev bool_eq : Bool → Bool → Bool
bool_eq true b = b
bool_eq false b = not b

-- `[x for x in xs if x is not None]`
abbrev known : {A : Type 0} → List (Option A) → List A
known [] = []
known (none ∷ xs) = known xs
known (some x ∷ xs) = x ∷ known xs

-- The sum of the values, none where one of them is unknown.
unfoldable pub total_of : List (Option Decimal) → Option Decimal
total_of [] = some (pos 0)
total_of (none ∷ xs) = none
total_of (some x ∷ xs) = elim (total_of xs) [ none ↦ none | some t ↦ some (x +ℤ t) ]

abbrev or_raise : {A : Type 0} → Option A → Result A
or_raise none = err schema_error
or_raise (some a) = ok a

abbrev guard : Bool → Result (Unit {0})
guard true = err schema_error
guard false = ok tt

infixl 5 ◌>>◌
abbrev ◌>>◌ : {B : Type 0} → Result (Unit {0}) → Result B → Result B
m >> k = m >>= λ _. k

-- `next(iter(values)) if len(values) == 1 else None`
abbrev single : {A : Type 0} → List A → Option A
single (x ∷ []) = some x
single _ = none

abbrev first : {A : Type 0} → List A → Option A
first [] = none
first (x ∷ xs) = some x

abbrev last : {A : Type 0} → A → List A → A
last x [] = x
last x (y ∷ ys) = last y ys

abbrev join : {A : Type 0} → Option (Option A) → Option A
join none = none
join (some o) = o

-- The fields of a group's fills must agree; one that differs raises `SchemaError`.
unfoldable pub check_group : List NormalizedFill → Result (Unit {0})
unfolding differ
check_group fills = do
  guard (differ str_eq (map (λ (f : NormalizedFill). f.ticker) fills))
  guard (differ outcome_eq (map (λ (f : NormalizedFill). f.outcome_side) fills))
  guard (differ outcome_eq (map (λ (f : NormalizedFill). f.exposure_side) fills))
  guard (differ book_eq (known (map (λ (f : NormalizedFill). f.book_side) fills)))
  guard (differ (option_eq ◌==◌) (map (λ (f : NormalizedFill). f.subaccount_number) fills))

-- The summary of the fills `f ∷ fs` of one order, in canonical order.
unfoldable pub summarise : String → NormalizedFill → List NormalizedFill → Result OrderExecution
unfolding check_group distinct
summarise order_id f fs = do
  let fills = f ∷ fs
  check_group fills
  total_quantity ← or_raise (total_of (map (λ (g : NormalizedFill). g.count) fills))
  first_time ← parse_execution_time f
  last_time ← parse_execution_time (last f fs)
  ok (record {
    order_id = order_id;
    ticker = f.ticker;
    outcome_side = f.outcome_side;
    book_side = first (known (map (λ (g : NormalizedFill). g.book_side) fills));
    subaccount_number = f.subaccount_number;
    total_quantity = total_quantity;
    fill_count = length fills;
    fill_ids = map (λ (g : NormalizedFill). g.fill_id) fills;
    first_execution_time = first_time;
    last_execution_time = last_time;
    vwap_price = weighted_average_price fills;
    total_fee = total_of (map (λ (g : NormalizedFill). g.fee_dollars) fills);
    fills_with_fee = length (known (map (λ (g : NormalizedFill). g.fee_dollars) fills));
    all_taker =
        join
          (single (distinct (option_eq bool_eq) (map (λ (g : NormalizedFill). g.is_taker) fills)));
    exposure_side = f.exposure_side;
    legacy_action = join (
        single
          (distinct (option_eq action_eq) (map (λ (g : NormalizedFill). g.legacy_action) fills)));
  })

-- The fills of each order id, in the order of their first fills.
abbrev pub Groups : Type 0
Groups = List (String × List NormalizedFill)

-- `groups.setdefault(order_id, []).append(fill)`
unfoldable pub put_group : String → NormalizedFill → Groups → Groups
put_group k f [] = (k, f ∷ []) ∷ []
put_group k f ((j, fs) ∷ gs) =
    if str_eq j k then (j, fs ++ (f ∷ [])) ∷ gs else (j, fs) ∷ put_group k f gs

-- `not fill.order_id`
abbrev pub unordered : Option String → Bool
unordered none = true
unordered (some k) = str_eq k ""

abbrev placed : Option String → NormalizedFill → Groups × ℕ → Groups × ℕ
placed none f (gs, n) = (gs, n + 1)
placed (some k) f (gs, n) = if str_eq k "" then (gs, n + 1) else (put_group k f gs, n)

-- The grouping loop, with the count of fills that have no order id.
unfoldable pub group_fills : List NormalizedFill → Groups × ℕ → Groups × ℕ
unfolding put_group
group_fills [] acc = acc
group_fills (f ∷ fs) acc = group_fills fs (placed f.order_id f acc)

abbrev count_if : Bool → ℕ → ℕ
count_if b n = if b then n + 1 else n

-- The counters after one more order.
unfoldable pub counted : OrderExecution → OrderAggregationStats → OrderAggregationStats
counted order stats = record stats {
  orders = stats.orders + 1;
  partial_orders = count_if (is_partially_filled_order order) stats.partial_orders;
  orders_with_complete_fees = count_if (fee_complete order) stats.orders_with_complete_fees;
  orders_missing_fees = count_if (not (fee_complete order)) stats.orders_missing_fees;
  orders_without_price = count_if (is_none order.vwap_price) stats.orders_without_price;
}

-- A group is never empty.
abbrev summarise_group : String → List NormalizedFill → Result OrderExecution
summarise_group k [] = err schema_error
summarise_group k (f ∷ fs) = summarise k f fs

unfoldable pub summarise_groups :
    Groups → OrderAggregationStats → Result (List (String × OrderExecution) × OrderAggregationStats)
unfolding summarise counted
summarise_groups [] stats = ok ([], stats)
summarise_groups ((k, fills) ∷ gs) stats = do
  ordered ← sort_fills fills
  order ← summarise_group k ordered
  (rest, stats') ← summarise_groups gs (counted order stats)
  ok ((k, order) ∷ rest, stats')

abbrev pub no_stats : OrderAggregationStats
no_stats = record {
  orders = 0;
  partial_orders = 0;
  fills_without_order_id = 0;
  orders_with_complete_fees = 0;
  orders_missing_fees = 0;
  orders_without_price = 0;
}

-- On fresh counters, as the replay calls it.
unfoldable pub aggregate_orders :
    List NormalizedFill → Result (List (String × OrderExecution) × OrderAggregationStats)
unfolding group_fills summarise_groups
aggregate_orders fills =
    let (groups, unattributed) = group_fills fills ([], 0) in
    summarise_groups groups (record no_stats { fills_without_order_id = unattributed })
