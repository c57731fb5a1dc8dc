-- ===== src/Engine/Conserves.antt =====
-- The loop over the fills (kalshi_router/accounting/engine.py) adds up the signed quantities, market
-- by market, and keeps the invariant of every ledger.
use kalshi_bet_router.Base.{
  ℕ, suc, String, ◌≡◌, refl, sym, ap, ap₂, ◌∙◌, arith, Bool, Option, none, some, List, [], ◌∷◌,
  if◌then◌else◌, All, ok, Bool-cases, inl, inr,
}
use kalshi_bet_router.Base.Int.{ℤ, pos, ◌+ℤ◌, int_laws}
use kalshi_bet_router.Decimal.{Decimal}
use kalshi_bet_router.Fill.{NormalizedFill, PositionKey, position_key, signed, parse_execution_time}
use kalshi_bet_router.Position.{MarketLedger, new_ledger}
use kalshi_bet_router.Position.Invariant.{IsValid}
use kalshi_bet_router.Position.Applied.{apply_fill-IsValid}
use kalshi_bet_router.Engine.{Walk, walk_fill, walk_to, walk_fills, or_new, net_position}
use kalshi_bet_router.Engine.Ledgers.{
  LedgerMap, key_eq, key_eq_iff, ledger_at, put_ledger, ledger_at-put_ledger,
}

-- What normalisation promises of a fill: a positive quantity and a readable execution time.
pub record IsNormal (fill : NormalizedFill) : Type 0 where
  pub below : ℕ
  pub counts : fill.count ≡ some (pos (suc below))
  pub at : Decimal
  pub dated : parse_execution_time fill ≡ ok at

abbrev quantity_or_zero : Option Decimal → Decimal
quantity_or_zero none = pos 0
quantity_or_zero (some q) = q

-- The signed quantity that a fill adds to the market `key`.
abbrev pub moves : PositionKey → NormalizedFill → Decimal
moves key fill =
    if key_eq (position_key fill) key
    then signed fill.exposure_side (quantity_or_zero fill.count)
    else pos 0

unfoldable pub net_of : PositionKey → List NormalizedFill → Decimal
net_of key [] = pos 0
net_of key (fill ∷ fills) = moves key fill +ℤ net_of key fills

abbrev pub AllValid : LedgerMap → Type 0
AllValid [] = Unit
AllValid ((key, ledger) ∷ rest) = IsValid ledger × AllValid rest

new_ledger-IsValid : (t : String) (a : Option ℕ) → IsValid (new_ledger t a)
new_ledger-IsValid t a = record { current = refl; past = tt }

ledger_at-IsValid :
    (key : PositionKey) (fill : NormalizedFill) (ls : LedgerMap)
    → AllValid ls
    → IsValid (or_new (ledger_at key ls) fill)
unfolding ledger_at
ledger_at-IsValid key fill [] v = new_ledger-IsValid fill.ticker fill.subaccount_number
ledger_at-IsValid key fill ((j, l) ∷ ls) v = elim (Bool-cases (key_eq j key)) [
  | inl here ↦ rw here v.0
  | inr there ↦ rw there (ledger_at-IsValid key fill ls v.1)
]

put_ledger-AllValid :
    (key : PositionKey) (l : MarketLedger) (ls : LedgerMap)
    → IsValid l
    → AllValid ls
    → AllValid (put_ledger key l ls)
unfolding put_ledger
put_ledger-AllValid key l [] h v = (h, tt)
put_ledger-AllValid key l ((j, m) ∷ ls) h v = elim (Bool-cases (key_eq j key)) [
  | inl here ↦ rw here (h, v.1)
  | inr there ↦ rw there (v.0, put_ledger-AllValid key l ls h v.1)
]

-- The position of the ledger that a fill is applied to is the net position of its market.
or_new-position :
    (key : PositionKey) (fill : NormalizedFill) (ls : LedgerMap)
    → (or_new (ledger_at key ls) fill).position ≡ net_position ls key
unfolding net_position
or_new-position key fill ls = go (ledger_at key ls)
  where
    go :
        (o : Option MarketLedger)
        → (or_new o fill).position ≡ elim o [ none ↦ pos 0 | some l ↦ l.position ]
    go none = refl
    go (some l) = refl

net_position-put :
    (k j : PositionKey) (l : MarketLedger) (ls : LedgerMap)
    → net_position (put_ledger k l ls) j ≡ (if key_eq k j then l.position else net_position ls j)
unfolding net_position
net_position-put k j l ls = ground (arith, ledger_at-put_ledger k j l ls)

add-pos-zero : (a : ℤ) → a +ℤ pos 0 ≡ a
unfolding ◌+ℤ◌
add-pos-zero a = ground arith

+ℤ_assoc : (a b c : ℤ) → a +ℤ b +ℤ c ≡ a +ℤ (b +ℤ c)
+ℤ_assoc a b c = omega int_laws

-- The moved ledger, seen from any market.
moved_at :
    (key : PositionKey) (ls : LedgerMap) (fill : NormalizedFill) (n : IsNormal fill) (p : ℤ)
    → p ≡ net_position ls (position_key fill) +ℤ signed fill.exposure_side (pos (suc n.below))
    → (if key_eq (position_key fill) key then p else net_position ls key)
      ≡ net_position ls key +ℤ moves key fill
moved_at key ls fill n p e = elim (Bool-cases (key_eq (position_key fill) key)) [
  | inl here ↦ rw here (
      e
      ∙ ap₂ (λ a q. net_position ls a +ℤ signed fill.exposure_side q)
          ((key_eq_iff (position_key fill) key).0 here) (sym (ap quantity_or_zero n.counts)))
  | inr there ↦ rw there (sym (add-pos-zero _))
]

-- One round on a normal fill: no error, valid ledgers, and the fill's market moved by its quantity.
walk_fill-step :
    (b : Bool) (w : Walk) (fill : NormalizedFill)
    → IsNormal fill
    → AllValid w.ledgers
    → (w' : Walk) × (walk_fill b w fill ≡ ok w')
      × AllValid w'.ledgers
      × ((key : PositionKey)
          → net_position w'.ledgers key ≡ net_position w.ledgers key +ℤ moves key fill)
unfolding walk_fill
walk_fill-step b w fill n v =
    let k = position_key fill in
    let l = or_new (ledger_at k w.ledgers) fill in
    let (r, e, valid, moved, _, _, _) =
      apply_fill-IsValid l fill b n.below n.at (ledger_at-IsValid k fill w.ledgers v) n.counts
        n.dated in
    (
      walk_to w fill r,
      rw e refl,
      put_ledger-AllValid k r.0 w.ledgers valid v,
      λ key.
          net_position-put k key r.0 w.ledgers
          ∙ moved_at key w.ledgers fill n r.0.position (
              moved
              ∙ ap (λ p. p +ℤ signed fill.exposure_side (pos (suc n.below)))
                  (or_new-position k fill w.ledgers)),
    )

-- On fills that are normal the loop ends without an error; every ledger then satisfies the
-- invariant, and the net position of each market is the one before, moved by the signed quantities
-- of that market's fills.
pub walk_fills-net_of :
    (b : Bool) (w : Walk) (fills : List NormalizedFill)
    → All IsNormal fills
    → AllValid w.ledgers
    → (w' : Walk) × (walk_fills b w fills ≡ ok w')
      × AllValid w'.ledgers
      × ((key : PositionKey)
          → net_position w'.ledgers key ≡ net_position w.ledgers key +ℤ net_of key fills)
unfolding walk_fills net_of
walk_fills-net_of b w [] n v = (w, refl, v, λ key. sym (add-pos-zero _))
walk_fills-net_of b w (f ∷ fs) n v =
    let (w', e, v', h) = walk_fill-step b w f n.0 v in
    let (w'', e', v'', h') = walk_fills-net_of b w' fs n.1 v' in
    (
      w'',
      rw e e',
      v'',
      λ key.
          h' key ∙ ap (λ p. p +ℤ net_of key fs) (h key) ∙ +ℤ_assoc _ (moves key f) (net_of key fs),
    )
