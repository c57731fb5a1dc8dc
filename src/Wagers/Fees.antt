-- ===== src/Wagers/Fees.antt =====
-- The entry fees of a market are those of all its orders, or unknown; never a part of them.
use kalshi_bet_router.Base.{
  String, Bool, true, false, Option, none, some, List, [], ◌∷◌, ◌≡◌, refl, sym, ap, ◌∙◌,
  if◌then◌else◌, any, str_eq_refl, ◌||◌, str_eq, str_eq_iff, arith,
}
use kalshi_bet_router.Base.Int.{pos, ◌+ℤ◌}
use kalshi_bet_router.Decimal.{Decimal}
use kalshi_bet_router.Wagers.{
  Wager, EntryFees, fee_sum, add_entry_fee, add_entry_fees, market_entry_fees, entry_at,
}

-- The sum of the fees of the orders on a market, from `total` on; unknown as soon as one is.
abbrev summed : String → Option Decimal → List Wager → Option Decimal
summed ticker total [] = total
summed ticker total (wager ∷ wagers) =
    if str_eq wager.market_ticker ticker
    then summed ticker (fee_sum total wager.total_fees) wagers
    else summed ticker total wagers

merged : (a b c : Bool) → a ≡ c → a || b || c ≡ true → a || b ≡ true
merged a b c e h = ground arith

passed_on : (a b c d : Bool) → (b || c ≡ true → d ≡ true) → a || b || c ≡ true → a || d ≡ true
passed_on true b c d ih h = refl
passed_on false b c d ih h = ih h

trailing : (a : Bool) → a || false ≡ true → a ≡ true
trailing a h = ground arith

regrouped : (a b c d : Bool) → (a || b ≡ true → d ≡ true) → a || (b || c) ≡ true → d || c ≡ true
regrouped a b true d ih h = ground arith
regrouped true b false d ih h = ap (λ x. x || false) (ih refl)
regrouped false true false d ih h = ap (λ x. x || false) (ih refl)
regrouped false false false d ih h = ground arith

-- The total that a table holds for a ticker, nothing where it is not listed.
abbrev total_at : EntryFees → String → Option Decimal
total_at [] ticker = some (pos 0)
total_at ((t, total) ∷ rest) ticker = if str_eq t ticker then total else total_at rest ticker

-- Whether a table has an entry for the ticker.
abbrev is_listed : EntryFees → String → Bool
is_listed [] ticker = false
is_listed ((t, total) ∷ rest) ticker = str_eq t ticker || is_listed rest ticker

listed_total :
    (out : EntryFees) (ticker : String)
    → is_listed out ticker ≡ true
    → entry_at out ticker ≡ total_at out ticker
unfolding entry_at
listed_total [] ticker h = ground arith
listed_total ((t, total) ∷ rest) ticker h = go (str_eq t ticker) (λ k. listed_total rest ticker k) h
  where
    go :
        (here : Bool)
        → (is_listed rest ticker ≡ true → entry_at rest ticker ≡ total_at rest ticker)
        → here || is_listed rest ticker ≡ true
        → (if here then total else entry_at rest ticker)
          ≡ (if here then total else total_at rest ticker)
    go true ih k = refl
    go false ih k = ih k

-- The fee of an order on the market itself.
add-same :
    (ticker : String) (fee : Option Decimal) (out : EntryFees)
    → total_at (add_entry_fee ticker fee out) ticker ≡ fee_sum (total_at out ticker) fee
unfolding add_entry_fee
add-same ticker fee [] =
    ap (λ b. if b then fee_sum (some (pos 0)) fee else some (pos 0)) (str_eq_refl ticker)
add-same ticker fee ((t, total) ∷ rest) = go (str_eq t ticker) refl (add-same ticker fee rest)
  where
    go :
        (here : Bool)
        → str_eq t ticker ≡ here
        → total_at (add_entry_fee ticker fee rest) ticker ≡ fee_sum (total_at rest ticker) fee
        → total_at
            (if here
              then (t, fee_sum total fee) ∷ rest
              else (t, total) ∷ add_entry_fee ticker fee rest)
            ticker
          ≡ fee_sum (if here then total else total_at rest ticker) fee
    go true e ih = ap (λ b. if b then fee_sum total fee else total_at rest ticker) e
    go false e ih =
        ap (λ b. if b then total else total_at (add_entry_fee ticker fee rest) ticker) e ∙ ih

-- The fee of an order on another market.
add-other :
    (other ticker : String) (fee : Option Decimal) (out : EntryFees)
    → str_eq other ticker ≡ false
    → total_at (add_entry_fee other fee out) ticker ≡ total_at out ticker
unfolding add_entry_fee
add-other other ticker fee [] h = ap (λ b. if b then fee_sum (some (pos 0)) fee else some (pos 0)) h
add-other other ticker fee ((t, total) ∷ rest) h =
    go (str_eq t other) refl (add-other other ticker fee rest h)
  where
    go :
        (here : Bool)
        → str_eq t other ≡ here
        → total_at (add_entry_fee other fee rest) ticker ≡ total_at rest ticker
        → total_at
            (if here
              then (t, fee_sum total fee) ∷ rest
              else (t, total) ∷ add_entry_fee other fee rest)
            ticker
          ≡ (if str_eq t ticker then total else total_at rest ticker)
    go true e ih =
        let off : (str_eq t ticker ≡ false) =
          ap (λ u. str_eq u ticker) ((str_eq_iff t other).0 e) ∙ h in
        ap (λ b. if b then fee_sum total fee else total_at rest ticker) off
        ∙ sym (ap (λ b. if b then total else total_at rest ticker) off)
    go false e ih = ap (λ rest_total. if str_eq t ticker then total else rest_total) ih

-- An entry for the ticker of the order.
add-listed :
    (other ticker : String) (fee : Option Decimal) (out : EntryFees)
    → is_listed out ticker || str_eq other ticker ≡ true
    → is_listed (add_entry_fee other fee out) ticker ≡ true
unfolding add_entry_fee
add-listed other ticker fee [] h = go (str_eq other ticker) h
  where
    go : (b : Bool) → b ≡ true → b || false ≡ true
    go true k = refl
    go false k = k
add-listed other ticker fee ((t, total) ∷ rest) h =
    go (str_eq t other) (λ k. add-listed other ticker fee rest k) refl h
  where
    go :
        (here : Bool)
        → (is_listed rest ticker || str_eq other ticker ≡ true
            → is_listed (add_entry_fee other fee rest) ticker ≡ true)
        → str_eq t other ≡ here
        → (str_eq t ticker || is_listed rest ticker) || str_eq other ticker ≡ true
        → is_listed
            (if here
              then (t, fee_sum total fee) ∷ rest
              else (t, total) ∷ add_entry_fee other fee rest)
            ticker
          ≡ true
    go true ih e k =
        merged (str_eq t ticker) (is_listed rest ticker) (str_eq other ticker)
          (ap (λ u. str_eq u ticker) ((str_eq_iff t other).0 e)) k
    go false ih e k =
        passed_on (str_eq t ticker) (is_listed rest ticker) (str_eq other ticker)
          (is_listed (add_entry_fee other fee rest) ticker) ih k

add_all-listed :
    (wagers : List Wager) (out : EntryFees) (ticker : String)
    → is_listed out ticker || any (λ (w : Wager). str_eq w.market_ticker ticker) wagers ≡ true
    → is_listed (add_entry_fees out wagers) ticker ≡ true
unfolding add_entry_fees
add_all-listed [] out ticker h = trailing (is_listed out ticker) h
add_all-listed (wager ∷ wagers) out ticker h =
    add_all-listed wagers (add_entry_fee wager.market_ticker wager.total_fees out) ticker (
      regrouped (is_listed out ticker) (str_eq wager.market_ticker ticker)
        (any (λ (w : Wager). str_eq w.market_ticker ticker) wagers)
        (is_listed (add_entry_fee wager.market_ticker wager.total_fees out) ticker)
        (add-listed wager.market_ticker ticker wager.total_fees out) h)

add_all-summed :
    (wagers : List Wager) (out : EntryFees) (ticker : String)
    → total_at (add_entry_fees out wagers) ticker ≡ summed ticker (total_at out ticker) wagers
unfolding add_entry_fees
add_all-summed [] out ticker = refl
add_all-summed (wager ∷ wagers) out ticker =
    let out' = add_entry_fee wager.market_ticker wager.total_fees out in
    add_all-summed wagers out' ticker ∙ go (str_eq wager.market_ticker ticker) refl
  where
    go :
        (here : Bool)
        → str_eq wager.market_ticker ticker ≡ here
        → summed ticker
            (total_at (add_entry_fee wager.market_ticker wager.total_fees out) ticker)
            wagers
          ≡ (if here
              then summed ticker (fee_sum (total_at out ticker) wager.total_fees) wagers
              else summed ticker (total_at out ticker) wagers)
    go true e =
        let same = (str_eq_iff wager.market_ticker ticker).0 e in
        ap (λ total. summed ticker total wagers)
          (ap (λ t. total_at (add_entry_fee t wager.total_fees out) ticker) same
            ∙ add-same ticker wager.total_fees out)
    go false e =
        ap (λ total. summed ticker total wagers)
          (add-other wager.market_ticker ticker wager.total_fees out e)

-- A fee before others, all of them known.
abbrev with_fee : Option Decimal → Option (List Decimal) → Option (List Decimal)
with_fee none rest = none
with_fee (some fee) none = none
with_fee (some fee) (some fees) = some (fee ∷ fees)

-- The fees of the orders on a market, where all are known.
abbrev pub known_fees : String → List Wager → Option (List Decimal)
known_fees ticker [] = some []
known_fees ticker (wager ∷ wagers) =
    let rest = known_fees ticker wagers in
    if str_eq wager.market_ticker ticker then with_fee wager.total_fees rest else rest

-- Their sum, from an amount on.
abbrev pub sum_of : Decimal → List Decimal → Decimal
sum_of total [] = total
sum_of total (fee ∷ fees) = sum_of (total +ℤ fee) fees

abbrev pub sum_if_known : Decimal → Option (List Decimal) → Option Decimal
sum_if_known total none = none
sum_if_known total (some fees) = some (sum_of total fees)

unknown_stays : (ticker : String) (wagers : List Wager) → summed ticker none wagers ≡ none
unknown_stays ticker [] = refl
unknown_stays ticker (wager ∷ wagers) =
    go (str_eq wager.market_ticker ticker) (unknown_stays ticker wagers)
  where
    go :
        (here : Bool)
        → summed ticker none wagers ≡ none
        → (if here then summed ticker none wagers else summed ticker none wagers) ≡ none
    go true u = u
    go false u = u

summed-known :
    (ticker : String) (total : Decimal) (wagers : List Wager)
    → summed ticker (some total) wagers ≡ sum_if_known total (known_fees ticker wagers)
summed-known ticker total [] = refl
summed-known ticker total (wager ∷ wagers) =
    go (str_eq wager.market_ticker ticker) wager.total_fees (known_fees ticker wagers)
      (λ t. summed-known ticker t wagers) (unknown_stays ticker wagers)
  where
    go :
        (here : Bool) (fee : Option Decimal) (rest : Option (List Decimal))
        → ((t : Decimal) → summed ticker (some t) wagers ≡ sum_if_known t rest)
        → summed ticker none wagers ≡ none
        → (if here
            then summed ticker (fee_sum (some total) fee) wagers
            else summed ticker (some total) wagers)
          ≡ sum_if_known total (if here then with_fee fee rest else rest)
    go false fee rest ih u = ih total
    go true none rest ih u = u
    go true (some fee) none ih u = ih (total +ℤ fee)
    go true (some fee) (some fees) ih u = ih (total +ℤ fee)

-- For a market that has an order in the batch, `market_entry_fees` holds the sum of the fees of all
-- the orders on it, both sides, and nothing if the fee of one of them is unknown.
pub market_entry_fees-summed :
    (wagers : List Wager) (ticker : String)
    → any (λ (w : Wager). str_eq w.market_ticker ticker) wagers ≡ true
    → entry_at (market_entry_fees wagers) ticker ≡ sum_if_known (pos 0) (known_fees ticker wagers)
unfolding market_entry_fees
market_entry_fees-summed wagers ticker h =
    listed_total (add_entry_fees [] wagers) ticker (add_all-listed wagers [] ticker h)
    ∙ add_all-summed wagers [] ticker
    ∙ summed-known ticker (pos 0) wagers
