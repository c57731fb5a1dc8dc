-- ===== src/Orders/Counts.antt =====
-- The order groups account for every fill: each is in one group, or has no order id.
use kalshi_bet_router.Base.{
  ℕ, suc, ◌+◌, String, Bool, true, false, Option, none, some, List, [], ◌∷◌, ◌++◌, ◌≡◌, subst, refl,
  sym, ap, ◌∙◌, not, map, if◌then◌else◌, length, length-append, str_eq, Result, ok, err, ◌>>=◌,
  arith,
}
use kalshi_bet_router.Fill.{NormalizedFill, parse_execution_time}
use kalshi_bet_router.Ordering.{sort_fills, sort_keys, insert_key, keyed, Keyed, key_le}
use kalshi_bet_router.Orders.{
  or_raise, total_of, last, OrderExecution, OrderAggregationStats, fee_complete, summarise,
  summarise_group, check_group, Groups, put_group, placed, group_fills, counted, count_if,
  summarise_groups, no_stats, aggregate_orders,
}

-- A chain that returned has returned at each step.
pub chain-ok {ℓ κ} :
    {A : Type ℓ} {B : Type κ} (m : Result A) (f : A → Result B) (b : B)
    → (m >>= f) ≡ ok b
    → (a : A) × (m ≡ ok a) × (f a ≡ ok b)
chain-ok (ok a) f b h = (a, refl, h)
chain-ok (err e) f b h = ground arith

-- The fills in the groups.
abbrev pub grouped : Groups → ℕ
grouped [] = 0
grouped ((k, fills) ∷ gs) = length fills + grouped gs

grouped-put :
    (k : String) (f : NormalizedFill) (gs : Groups) → grouped (put_group k f gs) ≡ suc (grouped gs)
unfolding put_group
grouped-put k f [] = refl
grouped-put k f ((j, fs) ∷ gs) = go (str_eq j k) (grouped-put k f gs)
  where
    go :
        (same : Bool)
        → grouped (put_group k f gs) ≡ suc (grouped gs)
        → grouped (if same then (j, fs ++ (f ∷ [])) ∷ gs else (j, fs) ∷ put_group k f gs)
          ≡ suc (length fs + grouped gs)
    go true e = omega (arith, length-append fs (f ∷ []))
    go false e = omega (arith, e)

-- The fills that the grouping loop has seen.
abbrev seen : Groups × ℕ → ℕ
seen (gs, n) = grouped gs + n

seen-placed :
    (k : Option String) (f : NormalizedFill) (gs : Groups) (n : ℕ)
    → seen (placed k f (gs, n)) ≡ suc (seen (gs, n))
seen-placed none f gs n = omega arith
seen-placed (some k) f gs n = go (str_eq k "")
  where
    go :
        (nameless : Bool)
        → seen (if nameless then (gs, n + 1) else (put_group k f gs, n)) ≡ suc (seen (gs, n))
    go true = omega arith
    go false = omega (arith, grouped-put k f gs)

seen-fills :
    (fills : List NormalizedFill) (acc : Groups × ℕ)
    → seen (group_fills fills acc) ≡ seen acc + length fills
unfolding group_fills
seen-fills [] acc = omega arith
seen-fills (f ∷ fs) (gs, n) =
    omega (arith, seen-placed f.order_id f gs n, seen-fills fs (placed f.order_id f (gs, n)))

-- Sorting keeps the number of fills.
length-insert : (k : Keyed) (ks : List Keyed) → length (insert_key k ks) ≡ suc (length ks)
unfolding insert_key
length-insert k [] = refl
length-insert k (j ∷ ks) = go (key_le k j) (length-insert k ks)
  where
    go :
        (first : Bool)
        → length (insert_key k ks) ≡ suc (length ks)
        → length (if first then k ∷ j ∷ ks else j ∷ insert_key k ks) ≡ suc (suc (length ks))
    go true e = refl
    go false e = ap (λ n. suc n) e

length-sort_keys : (ks : List Keyed) → length (sort_keys ks) ≡ length ks
unfolding sort_keys
length-sort_keys [] = refl
length-sort_keys (k ∷ ks) = length-insert k (sort_keys ks) ∙ ap (λ n. suc n) (length-sort_keys ks)

length-keyed :
    (fills : List NormalizedFill) (ks : List Keyed) → keyed fills ≡ ok ks → length ks ≡ length fills
unfolding keyed
length-keyed [] ks h = sym (ap count h)
  where
    count : Result (List Keyed) → ℕ
    count (ok xs) = length xs
    count (err e) = 0
length-keyed (fill ∷ fills) ks h =
    let (time, _, g) = chain-ok (parse_execution_time fill) _ ks h in
    let (rest, r, last) = chain-ok (keyed fills) _ ks g in
    sym (ap count last) ∙ ap (λ n. suc n) (length-keyed fills rest r)
  where
    count : Result (List Keyed) → ℕ
    count (ok xs) = length xs
    count (err e) = 0

length-map : (ks : List Keyed) → length (map (λ (k : Keyed). k.fill) ks) ≡ length ks
length-map [] = refl
length-map (k ∷ ks) = ap (λ n. suc n) (length-map ks)

length-sort_fills :
    (fills sorted : List NormalizedFill)
    → sort_fills fills ≡ ok sorted
    → length sorted ≡ length fills
unfolding sort_fills
length-sort_fills fills sorted h =
    let (ks, e, g) = chain-ok (keyed fills) _ sorted h in
    sym (ap count g) ∙ length-map (sort_keys ks) ∙ length-sort_keys ks ∙ length-keyed fills ks e
  where
    count : Result (List NormalizedFill) → ℕ
    count (ok xs) = length xs
    count (err e) = 0

-- A group's summary counts the fills of the group.
summarise-fill_count :
    (k : String) (f : NormalizedFill) (fs : List NormalizedFill) (order : OrderExecution)
    → summarise k f fs ≡ ok order
    → order.fill_count ≡ length (f ∷ fs)
unfolding summarise
summarise-fill_count k f fs order h =
    let (agreed, _, g) = chain-ok (check_group (f ∷ fs)) _ order h in
    let (quantity, _, g1) =
      chain-ok (or_raise (total_of (map (λ (r : NormalizedFill). r.count) (f ∷ fs)))) _ order g in
    let (opening, _, g2) = chain-ok (parse_execution_time f) _ order g1 in
    let (closing, _, g3) = chain-ok (parse_execution_time (last f fs)) _ order g2 in
    sym (ap count g3)
  where
    count : Result OrderExecution → ℕ
    count (ok o) = o.fill_count
    count (err e) = length (f ∷ fs)

summarise_group-fill_count :
    (k : String) (fills : List NormalizedFill) (order : OrderExecution)
    → summarise_group k fills ≡ ok order
    → order.fill_count ≡ length fills
summarise_group-fill_count k [] order h = ground arith
summarise_group-fill_count k (f ∷ fs) order h = summarise-fill_count k f fs order h

-- The fills that the orders count.
abbrev pub fills_in : List (String × OrderExecution) → ℕ
fills_in [] = 0
fills_in ((k, order) ∷ rest) = order.fill_count + fills_in rest

-- What the counters say after some orders, beside what they said before.
abbrev Tallied :
    Groups → OrderAggregationStats → List (String × OrderExecution) × OrderAggregationStats → Type 0
Tallied gs before (orders, stats) =
    (fills_in orders ≡ grouped gs)
    × (stats.orders ≡ before.orders + length orders)
    × (stats.fills_without_order_id ≡ before.fills_without_order_id)
    × (stats.orders_with_complete_fees + stats.orders_missing_fees
        ≡ before.orders_with_complete_fees + before.orders_missing_fees + length orders)

one_of_two : (b : Bool) (m n : ℕ) → count_if b m + count_if (not b) n ≡ suc (m + n)
one_of_two true m n = omega arith
one_of_two false m n = omega arith

Tallied-ok :
    (gs : Groups) (before : OrderAggregationStats)
    (r s : List (String × OrderExecution) × OrderAggregationStats)
    → ok r ≡ ok s
    → Tallied gs before r
    → Tallied gs before s
Tallied-ok gs before r s h t = subst (Tallied gs before) (ap value h) t
  where
    value :
        Result (List (String × OrderExecution) × OrderAggregationStats)
        → List (String × OrderExecution) × OrderAggregationStats
    value (ok x) = x
    value (err e) = r

summarise_groups-Tallied :
    (gs : Groups) (before : OrderAggregationStats)
    (result : List (String × OrderExecution) × OrderAggregationStats)
    → summarise_groups gs before ≡ ok result
    → Tallied gs before result
unfolding summarise_groups counted
summarise_groups-Tallied [] before result h =
    Tallied-ok [] before ([], before) result h (refl, omega arith, refl, omega arith)
summarise_groups-Tallied ((k, fills) ∷ gs) before result h =
    let (ordered, s, g) = chain-ok (sort_fills fills) _ result h in
    let (order, o, g1) = chain-ok (summarise_group k ordered) _ result g in
    let ((rest, stats), r, g2) =
      chain-ok (summarise_groups gs (counted order before)) _ result g1 in
    let t = summarise_groups-Tallied gs (counted order before) (rest, stats) r in
    Tallied-ok ((k, fills) ∷ gs) before ((k, order) ∷ rest, stats) result g2
      (
        omega (
          arith,
          t.0,
          summarise_group-fill_count k ordered order o,
          length-sort_fills fills ordered s,
        ),
        omega (arith, t.1),
        t.2,
        omega (
          arith,
          t.3,
          one_of_two (fee_complete order) before.orders_with_complete_fees
              before.orders_missing_fees,
        ),
      )

-- Where `aggregate_orders` returns, the fill counts of its orders and the number of fills without an
-- order id add up to the number of fills; it counts the orders, and each as complete in its fees or as
-- missing some.
pub aggregate_orders-counts :
    (fills : List NormalizedFill) (orders : List (String × OrderExecution))
    (stats : OrderAggregationStats)
    → aggregate_orders fills ≡ ok (orders, stats)
    → (fills_in orders + stats.fills_without_order_id ≡ length fills)
      × (stats.orders ≡ length orders)
      × (stats.orders_with_complete_fees + stats.orders_missing_fees ≡ length orders)
unfolding aggregate_orders
aggregate_orders-counts fills orders stats h =
    let groups = group_fills fills ([], 0) in
    let t =
      summarise_groups-Tallied groups.0 (record no_stats { fills_without_order_id = groups.1 })
        (orders, stats) h in
    (omega (arith, t.0, t.2, seen-fills fills ([], 0)), omega (arith, t.1), omega (arith, t.3))
