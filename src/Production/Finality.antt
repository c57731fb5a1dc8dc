-- ===== src/Production/Finality.antt =====
-- Whether an order can still change (kalshi_router/production.py).
use Prim.Native.Char.{code}
use Prim.Native.String.{[] as empty, ◌∷◌ as before}
use kalshi_bet_router.Base.{
  ℕ, ◌+◌, String, Bool, true, false, not, ◌&&◌, Option, none, some, List, [], ◌∷◌, map,
  if◌then◌else◌, leb, ◌==◌, any, is_space,
}
use kalshi_bet_router.Base.Int.{pos, ◌-ℤ◌, leb_ℤ, ltb_ℤ}
use kalshi_bet_router.Decimal.{Decimal}
use kalshi_bet_router.Orders.{OrderExecution}

pub data OrderFinality : Type 0 where
  final_market_closed final_stable pending_recent_fill unknown : OrderFinality

-- `CLOSED_MARKET_STATUSES`, as the numbers of their characters.
abbrev codes : String → List ℕ
codes empty = []
codes (before c s) = code c ∷ codes s

abbrev closed_market_statuses : List (List ℕ)
closed_market_statuses =
    map codes ("closed" ∷ "settled" ∷ "finalized" ∷ "determined" ∷ "expired" ∷ [])

abbrev lstrip : List ℕ → List ℕ
lstrip [] = []
lstrip (c ∷ s) = let rest = lstrip s in if is_space c then rest else c ∷ s

-- In front of what is left of the rest, a blank stays only if something is left.
abbrev kept : ℕ → List ℕ → List ℕ
kept c [] = if is_space c then [] else c ∷ []
kept c (d ∷ s) = c ∷ d ∷ s

abbrev rstrip : List ℕ → List ℕ
rstrip [] = []
rstrip (c ∷ s) = kept c (rstrip s)

-- `str.lower` on the letters A to Z. No other character has a letter of these statuses as its lower case.
abbrev lower : ℕ → ℕ
lower c = if leb 65 c && leb c 90 then c + 32 else c

abbrev same_codes : List ℕ → List ℕ → Bool
same_codes [] [] = true
same_codes (c ∷ s) (d ∷ t) = c == d && same_codes s t
same_codes _ _ = false

-- `status.strip().lower() in CLOSED_MARKET_STATUSES`, false where there is no status.
unfoldable pub is_closed : Option String → Bool
is_closed none = false
is_closed (some status) =
    any (same_codes (map lower (rstrip (lstrip (codes status))))) closed_market_statuses

-- `PRODUCTION_CUTOVER_ISO`, 2026-09-15T00:00:00Z, in microseconds since the epoch.
abbrev pub production_cutover : Decimal
production_cutover = pos 1789430400000000

unfoldable pub is_after_cutover : OrderExecution → Bool
is_after_cutover order = ltb_ℤ production_cutover order.first_execution_time

-- `STABILIZATION_SECONDS`, 900 seconds.
abbrev pub stabilization : Decimal
stabilization = pos 900000000

unfoldable pub assess_finality : OrderExecution → Decimal → Option String → Bool → OrderFinality
unfolding is_closed ◌-ℤ◌
assess_finality order now market_status allow_stabilization =
    if is_closed market_status
    then final_market_closed
    else if not allow_stabilization
    then unknown
    else if leb_ℤ stabilization (now -ℤ order.last_execution_time)
    then final_stable
    else pending_recent_fill

-- `finality in FINAL_VERDICTS`
abbrev pub is_final : OrderFinality → Bool
is_final final_market_closed = true
is_final final_stable = true
is_final pending_recent_fill = false
is_final unknown = false
