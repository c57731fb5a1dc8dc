-- ===== src/Ordering.antt =====
-- The canonical order of a replay (kalshi_router/accounting/ordering.py): by execution time, then by
-- fill id. `Ordering/Canonical` shows that it forgets the order of the input.
pub mod Canonical
use Prim.Native.Char.{code}
use Prim.Native.String
use kalshi_bet_router.Base.{
  String, Bool, true, false, List, [], ◌∷◌, map, ◌&&◌, ◌||◌, ltb, ◌==◌, if◌then◌else◌, Result, ok,
  err, ◌>>=◌,
}
use kalshi_bet_router.Base.Int.{eq_ℤ, ltb_ℤ}
use kalshi_bet_router.Decimal.{Decimal}
use kalshi_bet_router.Fill.{NormalizedFill, parse_execution_time}

-- `a <= b` for texts: Python compares code points from the left.
unfoldable pub text_le : String → String → Bool
text_le String.[] t = true
text_le (String.◌∷◌ c s) String.[] = false
text_le (String.◌∷◌ c s) (String.◌∷◌ d t) =
    ltb (code c) (code d) || (code c == code d && text_le s t)

-- A fill beside its execution time, as `sorted` computes the key of each element once.
pub record Keyed : Type 0 where
  pub time : Decimal
  pub fill : NormalizedFill

-- The order of the keys `(execution_time, fill_id)`.
unfoldable pub key_le : Keyed → Keyed → Bool
key_le a b = ltb_ℤ a.time b.time || (eq_ℤ a.time b.time && text_le a.fill.fill_id b.fill.fill_id)

-- `canonical_fill_sort_key`, for each fill of a list; the first unreadable time raises.
unfoldable pub keyed : List NormalizedFill → Result (List Keyed)
keyed [] = ok []
keyed (fill ∷ fills) = do
  time ← parse_execution_time fill
  rest ← keyed fills
  ok (record { time = time; fill = fill } ∷ rest)

unfoldable pub insert_key : Keyed → List Keyed → List Keyed
insert_key k [] = k ∷ []
insert_key k (j ∷ ks) = if key_le k j then k ∷ j ∷ ks else j ∷ insert_key k ks

-- `sorted(…, key=…)` by the keys; equal keys stay in their order.
unfoldable pub sort_keys : List Keyed → List Keyed
unfolding insert_key
sort_keys [] = []
sort_keys (k ∷ ks) = insert_key k (sort_keys ks)

unfoldable pub sort_fills : List NormalizedFill → Result (List NormalizedFill)
unfolding keyed sort_keys
sort_fills fills = do ks ← keyed fills; ok (map (λ (k : Keyed). k.fill) (sort_keys ks))
