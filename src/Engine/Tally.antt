-- ===== src/Engine/Tally.antt =====
-- Every settlement of a replay ends in one counter (`_apply_settlements`,
-- kalshi_router/accounting/engine.py).
use kalshi_bet_router.Base.{
  ℕ, ◌+◌, String, ◌≡◌, ◌≢◌, refl, ◌∙◌, arith, Bool, true, false, Option, none, some, List, [], ◌∷◌,
  if◌then◌else◌, length, str_eq, Bool-cases, inl, inr,
}
use kalshi_bet_router.Fill.{NormalizedSettlement, PositionKey}
use kalshi_bet_router.Position.{MarketLedger}
use kalshi_bet_router.Position.Settlements.{
  Settled, applied, refused, apply_settlement, SettlementRefusal, ambiguous_subaccount,
}
use kalshi_bet_router.Engine.{AccountingResult}
use kalshi_bet_router.Engine.Ledgers.{LedgerMap, ledger_at, key_eq, key_eq_iff}
use kalshi_bet_router.Engine.Settle.{
  insert_settlement, sort_settlements, keys_of, count_refusal, settle_one, settle_all,
  apply_settlements, settled_by, on_held, settle_keys,
}

abbrev sum_counts : List (SettlementRefusal × ℕ) → ℕ
sum_counts [] = 0
sum_counts ((r, n) ∷ rest) = n + sum_counts rest

-- The settlements that a result has accounted for.
abbrev pub handled : AccountingResult → ℕ
handled r =
    r.settlements_applied + r.settlements_without_a_position + r.settlements_refused_unreconciled
    + r.settlements_refused_ambiguous_subaccount

-- The refusals by shape add up to those counted as such.
abbrev pub IsTallied : AccountingResult → Type 0
IsTallied r =
    sum_counts r.settlements_refused_by_shape
    ≡ r.settlements_refused_unreconciled + r.settlements_refused_ambiguous_subaccount

sum_counts-count_refusal :
    (r : SettlementRefusal) (cs : List (SettlementRefusal × ℕ))
    → sum_counts (count_refusal r cs) ≡ sum_counts cs + 1
unfolding count_refusal
sum_counts-count_refusal r [] = omega arith
sum_counts-count_refusal r ((q, n) ∷ cs) = ground (arith, sum_counts-count_refusal r cs)

still_some :
    (b : Bool) (l : MarketLedger) (o : Option MarketLedger)
    → o ≢ none
    → (if b then some l else o) ≢ none
still_some true l o ne e = cc
still_some false l o ne e = ne e

-- A key that holds a ticker is a key of the ledgers.
keys_of-held :
    (t : String) (ls : LedgerMap) (k : PositionKey) (ks : List PositionKey)
    → keys_of t ls ≡ k ∷ ks
    → ledger_at k ls ≢ none
unfolding keys_of ledger_at
keys_of-held t [] k ks e = cc
keys_of-held t (((a, h), l) ∷ ls) k ks e = elim (Bool-cases (str_eq h t)) [
  | inr other ↦ still_some (key_eq (a, h) k) l _ (keys_of-held t ls k ks (rw other at e))
  | inl named ↦ let p : (a, h) ≡ k = cc (rw named at e) in rw ((key_eq_iff (a, h) k).1 p) (λ q. cc)
]

-- One settlement more is handled, and the shapes still add up.
abbrev Steps : AccountingResult → AccountingResult → Type 0
Steps r r' = (handled r' ≡ handled r + 1) × (IsTallied r → IsTallied r')

settled_by-Steps :
    (k : PositionKey) (r : AccountingResult) (t : String) (out : Settled)
    → Steps r (settled_by k r t out)
settled_by-Steps k r t (applied l tr) = (omega arith, λ h. h)
settled_by-Steps k r t (refused x) =
    (omega arith, λ h. sum_counts-count_refusal x r.settlements_refused_by_shape ∙ omega (arith, h))

on_held-Steps :
    (k : PositionKey) (r : AccountingResult) (s : NormalizedSettlement) (o : Option MarketLedger)
    → o ≢ none
    → Steps r (on_held k r s o)
on_held-Steps k r s none ne = absurd (ne refl)
on_held-Steps k r s (some l) ne = settled_by-Steps k r s.ticker (apply_settlement l s)

settle_keys-Steps :
    (r : AccountingResult) (s : NormalizedSettlement) (ks : List PositionKey)
    → keys_of s.ticker r.ledgers ≡ ks
    → Steps r (settle_keys ks r s)
settle_keys-Steps r s [] e = (omega arith, λ h. h)
settle_keys-Steps r s (k ∷ []) e = on_held-Steps k r s _ (keys_of-held s.ticker r.ledgers k [] e)
settle_keys-Steps r s (k ∷ j ∷ ks) e = (
  omega arith,
  λ h.
      sum_counts-count_refusal ambiguous_subaccount r.settlements_refused_by_shape
      ∙ omega (arith, h),
)

settle_all-handled :
    (r : AccountingResult) (ss : List NormalizedSettlement)
    → IsTallied r
    → (handled (settle_all r ss) ≡ handled r + length ss) × IsTallied (settle_all r ss)
unfolding settle_all settle_one
settle_all-handled r [] h = (omega arith, h)
settle_all-handled r (s ∷ ss) h =
    let step = settle_keys-Steps r s (keys_of s.ticker r.ledgers) refl in
    let rest = settle_all-handled (settle_one r s) ss (step.1 h) in
    (omega (arith, rest.0, step.0), rest.1)

length-insert_settlement :
    (s : NormalizedSettlement) (ts : List NormalizedSettlement)
    → length (insert_settlement s ts) ≡ length ts + 1
unfolding insert_settlement
length-insert_settlement s [] = omega arith
length-insert_settlement s (t ∷ ts) = ground (arith, length-insert_settlement s ts)

length-sort_settlements :
    (ss : List NormalizedSettlement) → length (sort_settlements ss) ≡ length ss
unfolding sort_settlements
length-sort_settlements [] = refl
length-sort_settlements (s ∷ ss) =
    omega (arith, length-insert_settlement s (sort_settlements ss), length-sort_settlements ss)

-- Every settlement is counted once, as applied, as without a position, as refused because it does
-- not reconcile, or as refused because its ticker is held in several subaccounts; and the refusals
-- by shape go on adding up to the refusals.
pub apply_settlements-handled :
    (r : AccountingResult) (ss : List NormalizedSettlement)
    → IsTallied r
    → (handled (apply_settlements r ss) ≡ handled r + length ss)
      × IsTallied (apply_settlements r ss)
unfolding apply_settlements
apply_settlements-handled r ss h =
    let all = settle_all-handled r (sort_settlements ss) h in
    (omega (arith, all.0, length-sort_settlements ss), all.1)
