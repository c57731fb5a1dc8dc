-- ===== src/Engine/Ledgers.antt =====
-- The ledgers of a replay, a dictionary keyed by subaccount and ticker
-- (kalshi_router/accounting/engine.py).
use kalshi_bet_router.Base.{
  ℕ, Bool, true, false, ◌≡◌, ◌↔◌, refl, arith, Option, none, some, List, [], ◌∷◌, ◌&&◌,
  if◌then◌else◌, ◌==◌, str_eq, str_eq_iff,
}
use kalshi_bet_router.Fill.{PositionKey}
use kalshi_bet_router.Position.{MarketLedger}

abbrev pub LedgerMap : Type 0
LedgerMap = List (PositionKey × MarketLedger)

abbrev pub account_eq : Option ℕ → Option ℕ → Bool
account_eq none none = true
account_eq (some a) (some b) = a == b
account_eq _ _ = false

abbrev pub key_eq : PositionKey → PositionKey → Bool
key_eq (a, s) (b, t) = account_eq a b && str_eq s t

-- `ledgers.get(key)`
unfoldable pub ledger_at : PositionKey → LedgerMap → Option MarketLedger
ledger_at k [] = none
ledger_at k ((j, l) ∷ rest) = if key_eq j k then some l else ledger_at k rest

-- `ledgers[key] = ledger`
unfoldable pub put_ledger : PositionKey → MarketLedger → LedgerMap → LedgerMap
put_ledger k v [] = (k, v) ∷ []
put_ledger k v ((j, l) ∷ rest) = if key_eq j k then (j, v) ∷ rest else (j, l) ∷ put_ledger k v rest

pub key_eq_iff : (a b : PositionKey) → (key_eq a b ≡ true) ↔ (a ≡ b)
key_eq_iff (none, s) (none, t) = ground (arith, str_eq_iff s t)
key_eq_iff (none, s) (some b, t) = ground arith
key_eq_iff (some a, s) (none, t) = ground arith
key_eq_iff (some a, s) (some b, t) = ground (arith, str_eq_iff s t)

pub ledger_at-put_ledger :
    (k j : PositionKey) (v : MarketLedger) (ls : LedgerMap)
    → ledger_at j (put_ledger k v ls) ≡ (if key_eq k j then some v else ledger_at j ls)
unfolding ledger_at put_ledger
ledger_at-put_ledger k j v [] = refl
ledger_at-put_ledger k j v ((i, w) ∷ ls) =
    ground (arith, key_eq_iff k j, key_eq_iff i k, key_eq_iff i j, ledger_at-put_ledger k j v ls)
