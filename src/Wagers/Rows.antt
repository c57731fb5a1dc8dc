-- ===== src/Wagers/Rows.antt =====
-- A batch settles every wager: each row has the money that its wager earns, or the reason why not.
use kalshi_bet_router.Base.{
  ℕ, suc, String, Bool, Bool-cases, true, false, Option, none, some, List, [], ◌∷◌, ◌≡◌, refl, sym,
  subst, ap, ap₂, inl, inr, not, ◌&&◌, ◌||◌, if◌then◌else◌, ltb, length, filter, All, str_eq,
  str_eq_iff, ok, err, value_error, ◌>>=◌, arith,
}
use kalshi_bet_router.Decimal.{Decimal, ◌⊖◌}
use kalshi_bet_router.Fill.{NormalizedSettlement}
use kalshi_bet_router.Classify.Words.{Letters}
use kalshi_bet_router.Wagers.{
  Wager, WagerSettlement, LegResult, economics_v1, economics_v2, dated, or_zero, fee_not_reconciled,
  shared_position_fee, side_of, settle_v1, settle_v2, settle_priced, settle_wager,
  market_entry_fees, entry_at, orders_at, settlement_at, version_at, settle_each, settle_batch,
}
use kalshi_bet_router.Wagers.Earned.{
  orders_on, paid_out, gross_paid-paid_out, Earns, zero-cases, Reconciled-cases, IsResult, ResultIs,
  result_for_side-IsResult, is_awaited, has_no_price, is_shared, is_charged, is_unreconciled,
  is_paid,
}

-- A row of a wager, with what it earns.
abbrev pub IsRowFor :
    Letters
    → Wager
    → Option NormalizedSettlement
    → ℕ
    → String
    → Option Decimal
    → WagerSettlement
    → Type 0
IsRowFor letters wager settlement orders version entry row =
    (row.source_bet_key ≡ wager.source_key)
    × (row.side ≡ side_of letters wager)
    × ResultIs letters settlement (side_of letters wager) row.result
    × Earns wager (side_of letters wager) orders version entry settlement row.gross_return
        row.net_profit_loss row.refusals

abbrev pub is_known_version : String → Bool
is_known_version version = str_eq version economics_v2 || str_eq version economics_v1

module _ (letters : Letters) (wager : Wager) (result : Option LegResult) (s : NormalizedSettlement)
    (price : Decimal) (priced : s.market_value_dollars ≡ some price) (orders : ℕ) (version : String)
    (entry : Option Decimal) (said : IsResult letters s (side_of letters wager) result) where
  abbrev own_side : String
  own_side = side_of letters wager

  abbrev gross : Decimal
  gross = paid_out wager.contracts own_side price

  v1-IsRowFor :
      version ≡ economics_v1
      → IsRowFor letters wager
          (some s)
          orders
          version
          entry
          (settle_v1 wager own_side result s gross orders)
  unfolding settle_v1
  v1-IsRowFor v = elim (zero-cases (or_zero s.fee_dollars)) [
    | inl z ↦
        subst (IsRowFor letters wager (some s) orders version entry)
          (sym (ap (λ b. row (not b && ltb 1 orders)) z.0))
          (refl, refl, said, is_charged s price priced v (inl z.1))
    | inr z ↦ elim (Bool-cases (ltb 1 orders)) [
      | inl more ↦
          subst (IsRowFor letters wager (some s) orders version entry)
            (sym (ap₂ (λ b c. row (not b && c)) z.0 more))
            (refl, refl, said, is_shared s price priced v z.1 (ground (arith, more)))
      | inr one ↦
          subst (IsRowFor letters wager (some s) orders version entry)
            (sym (ap₂ (λ b c. row (not b && c)) z.0 one))
            (refl, refl, said, is_charged s price priced v (inr (ground (arith, one))))
    ]
  ]
    where
      row : Bool → WagerSettlement
      row shared =
          if shared
          then record (record (dated wager own_side result s) { gross_return = some gross }) {
            refusals = shared_position_fee ∷ [];
          }
          else record (record (dated wager own_side result s) { gross_return = some gross }) {
            net_profit_loss = some (gross ⊖ wager.stake ⊖ or_zero s.fee_dollars);
          }

  v2-IsRowFor :
      version ≡ economics_v2
      → IsRowFor letters wager
          (some s)
          orders
          version
          entry
          (settle_v2 wager own_side result s gross entry)
  unfolding settle_v2
  v2-IsRowFor v = elim (Reconciled-cases entry s.fee_dollars) [
    | inl z ↦
        subst (IsRowFor letters wager (some s) orders version entry) (sym (ap row z.0))
          (refl, refl, said, is_paid s price priced v z.1)
    | inr z ↦
        subst (IsRowFor letters wager (some s) orders version entry) (sym (ap row z.0))
          (refl, refl, said, is_unreconciled s price priced v z.1)
  ]
    where
      base : WagerSettlement
      base = record (dated wager own_side result s) {
        economics_version = economics_v2;
        gross_return = some gross;
      }

      row : Bool → WagerSettlement
      row reconciled =
          if not reconciled
          then record base { refusals = fee_not_reconciled ∷ [] }
          else record base { net_profit_loss = some (gross ⊖ wager.stake) }

  known-IsRowFor :
      (second first : Bool)
      → str_eq version economics_v2 ≡ second
      → str_eq version economics_v1 ≡ first
      → second || first ≡ true
      → (row : WagerSettlement) × ((if second
            then ok (settle_v2 wager own_side result s gross entry)
            else if not first
            then err value_error
            else ok (settle_v1 wager own_side result s gross orders))
          ≡ ok row)
        × IsRowFor letters wager (some s) orders version entry row
  known-IsRowFor true first e f h = (_, refl, v2-IsRowFor ((str_eq_iff version economics_v2).0 e))
  known-IsRowFor false true e f h = (_, refl, v1-IsRowFor ((str_eq_iff version economics_v1).0 f))
  known-IsRowFor false false e f h = ground arith

priced-IsRowFor :
    (letters : Letters) (wager : Wager) (result : Option LegResult) (s : NormalizedSettlement)
    (price : Option Decimal)
    → s.market_value_dollars ≡ price
    → IsResult letters s (side_of letters wager) result
    → (orders : ℕ) (version : String) (entry : Option Decimal) → is_known_version version ≡ true
    → (row : WagerSettlement) × (settle_priced wager
          (side_of letters wager)
          result
          s
          price
          orders
          version
          entry
        ≡ ok row)
      × IsRowFor letters wager (some s) orders version entry row
unfolding settle_priced
priced-IsRowFor letters wager result s none e said orders version entry h =
    (_, refl, (refl, refl, said, has_no_price s e))
priced-IsRowFor letters wager result s (some price) e said orders version entry h =
    subst
      (λ gross.
        (row : WagerSettlement) × ((if str_eq version economics_v2
            then ok (settle_v2 wager (side_of letters wager) result s gross entry)
            else if not (str_eq version economics_v1)
            then err value_error
            else ok (settle_v1 wager (side_of letters wager) result s gross orders))
          ≡ ok row)
        × IsRowFor letters wager (some s) orders version entry row)
      (sym (gross_paid-paid_out wager (side_of letters wager) price))
      (known-IsRowFor letters wager result s price e orders version entry said
        (str_eq version economics_v2) (str_eq version economics_v1) refl refl h)

settle_wager-IsRowFor :
    (letters : Letters) (wager : Wager) (settlement : Option NormalizedSettlement) (orders : ℕ)
    (version : String) (entry : Option Decimal)
    → is_known_version version ≡ true
    → (row : WagerSettlement) × (settle_wager letters wager settlement orders version entry
        ≡ ok row)
      × IsRowFor letters wager settlement orders version entry row
unfolding settle_wager
settle_wager-IsRowFor letters wager none orders version entry h =
    (_, refl, (refl, refl, refl, is_awaited))
settle_wager-IsRowFor letters wager (some s) orders version entry h =
    priced-IsRowFor letters wager _ s s.market_value_dollars refl
      (result_for_side-IsResult letters s (side_of letters wager)) orders version entry h

orders_at-counted :
    (letters : Letters) (batch : List Wager) (ticker side : String)
    → orders_at letters batch ticker side ≡ orders_on letters batch ticker side
unfolding orders_at side_of
orders_at-counted letters [] ticker side = refl
orders_at-counted letters (wager ∷ wagers) ticker side =
    go (str_eq wager.market_ticker ticker && str_eq (side_of letters wager) side)
      (orders_at-counted letters wagers ticker side)
  where
    rest : List Wager
    rest =
        filter (λ (w : Wager). str_eq w.market_ticker ticker && str_eq (side_of letters w) side)
          wagers

    go :
        (here : Bool)
        → orders_at letters wagers ticker side ≡ length rest
        → (if here
            then suc (orders_at letters wagers ticker side)
            else orders_at letters wagers ticker side)
          ≡ length (if here then wager ∷ rest else rest)
    go true e = ap suc e
    go false e = e

-- What a row of the batch is, for a wager of it.
abbrev pub IsRowOf :
    Letters
    → List Wager
    → List (String × NormalizedSettlement)
    → List (String × String)
    → Wager
    → WagerSettlement
    → Type 0
IsRowOf letters batch settlements economics wager row =
    IsRowFor letters wager (settlement_at settlements wager.market_ticker)
      (orders_on letters batch wager.market_ticker (side_of letters wager))
      (version_at economics wager.sport) (entry_at (market_entry_fees batch) wager.market_ticker)
      row

-- The rows belong to the wagers, one by one.
abbrev pub AreRowsOf :
    (Wager → WagerSettlement → Type 0) → List Wager → List WagerSettlement → Type 0
AreRowsOf P [] [] = Unit
AreRowsOf P [] (row ∷ rows) = ⊥
AreRowsOf P (wager ∷ wagers) [] = ⊥
AreRowsOf P (wager ∷ wagers) (row ∷ rows) = P wager row × AreRowsOf P wagers rows

settle_each-AreRowsOf :
    (letters : Letters) (batch : List Wager) (settlements : List (String × NormalizedSettlement))
    (economics : List (String × String)) (wagers : List Wager)
    → All (λ (w : Wager). is_known_version (version_at economics w.sport) ≡ true) wagers
    → (rows : List WagerSettlement) × (settle_each letters batch settlements economics wagers
        ≡ ok rows)
      × AreRowsOf (IsRowOf letters batch settlements economics) wagers rows
unfolding settle_each
settle_each-AreRowsOf letters batch settlements economics [] h = ([], refl, tt)
settle_each-AreRowsOf letters batch settlements economics (wager ∷ wagers) h =
    let (row, e, p) =
      settle_wager-IsRowFor letters wager (settlement_at settlements wager.market_ticker)
        (orders_at letters batch wager.market_ticker (side_of letters wager))
        (version_at economics wager.sport) (entry_at (market_entry_fees batch) wager.market_ticker)
        h.0 in
    let (rows, es, ps) = settle_each-AreRowsOf letters batch settlements economics wagers h.1 in
    (
      row ∷ rows,
      ap₂ (λ a b. a >>= (λ r. b >>= (λ rs. ok (r ∷ rs)))) e es,
      (
        subst
            (λ n.
              IsRowFor letters wager (settlement_at settlements wager.market_ticker) n
                (version_at economics wager.sport)
                (entry_at (market_entry_fees batch) wager.market_ticker) row)
            (orders_at-counted letters batch wager.market_ticker (side_of letters wager)) p,
        ps,
      ),
    )

-- Where every destination of the batch has a known version of the economics, `settle_batch` returns
-- one row for each wager, in their order, under its source key and its side. Its result is won or lost
-- where the market's result and the side are both named, as they agree or not, and absent else. Without a settlement the row
-- has no money, and without a price neither. Else its gross return is its contracts at the
-- settlement price, or at a dollar less that price if its side is not YES. In the
-- first version its net takes the stake and the settlement's fee off, and is refused exactly where a fee is
-- charged and the batch has more orders on that side of the market. In the second it takes the stake off,
-- and is refused exactly where the entry fees of the market are unknown or differ from the settlement's fee
-- by more than the tolerance.
pub settle_batch-AreRowsOf :
    (letters : Letters) (wagers : List Wager) (settlements : List (String × NormalizedSettlement))
    (economics : List (String × String))
    → All (λ (w : Wager). is_known_version (version_at economics w.sport) ≡ true) wagers
    → (rows : List WagerSettlement) × (settle_batch letters wagers settlements economics ≡ ok rows)
      × AreRowsOf (IsRowOf letters wagers settlements economics) wagers rows
unfolding settle_batch
settle_batch-AreRowsOf letters wagers settlements economics h =
    settle_each-AreRowsOf letters wagers settlements economics wagers h
