-- ===== src/RoutedLedger/Built.antt =====
-- What the importers build is fit for the file (contract/edge_finder_contract/routed_ledger.py).
use kalshi_bet_router.Base.{
  String, Bool, true, false, not, ◌||◌, Option, none, some, List, [], ◌∷◌, ◌++◌, ◌≡◌, refl, subst,
  ap, ◌∙◌, if◌then◌else◌, any, all, All, contains, is_some, arith,
}
use kalshi_bet_router.Destinations.Prefixes.{all_cons}
use kalshi_bet_router.RoutedLedger.Values.{
  Numbers, Value, null, boolean, number, text, texts, compound, FiledRow, get, has, is_nonempty,
  text_of,
}
use kalshi_bet_router.RoutedLedger.Rules.{
  LedgerSpec, Environment, wager_tests, is_valid_wager, settlement_tests, is_valid_settlement,
  mint_settlement_id,
}
use kalshi_bet_router.RoutedLedger.Fields.{settlement_input_fields, wager_kept_fields}
use kalshi_bet_router.RoutedLedger.Imports.{
  picked, projected_row, wager_record, settlement_record, unknown_fields, prior_of, build_wager,
  build_settlement, priced_wager, settled_row, if_valid, wager_for, disagrees, settlement_for,
  parented, with_parent,
}
use kalshi_bet_router.RoutedLedger.Whole.{wager_fields, settlement_fields}
use kalshi_bet_router.RoutedLedger.Keyed.{key}

neither : (a b : Bool) → a || b ≡ false → (a ≡ false) × (b ≡ false)
neither a b h = (ground (arith, h), ground (arith, h))

-- A row that comes out of a test is not refused by it.
past :
    {A : Type 0} (b : Bool) (rest : Option A) (a : A)
    → (if b then none else rest) ≡ some a
    → rest ≡ some a
past true rest a h = ground (arith, h)
past false rest a h = h

or_given : {A : Type 0} {b : A} (a : A) → some a ≡ some b → a ≡ b
or_given {A} a h = ap from h
  where
    from : Option A → A
    from none = a
    from (some x) = x

pub all-All : (bs : List Bool) → all (λ b. b) bs ≡ true → All (λ b. b ≡ true) bs
all-All [] h = tt
all-All (true ∷ bs) h = (refl, all-All bs h)
all-All (false ∷ bs) h = ground (arith, h)

module _ {N : Type 0} where
  -- The key of the row is a text.
  abbrev pub HasKey : FiledRow N → Type 0
  HasKey rec = get rec "source_bet_key" ≡ text (key rec)

  nonempty_text : (v : Value N) → is_nonempty v ≡ true → v ≡ text (text_of v)
  nonempty_text null h = ground (arith, h)
  nonempty_text (boolean b) h = ground (arith, h)
  nonempty_text (number x) h = ground (arith, h)
  nonempty_text (text s) h = refl
  nonempty_text (texts ss) h = ground (arith, h)
  nonempty_text (compound s) h = ground (arith, h)

  any-append :
      (p : String × Value N → Bool) (xs ys : FiledRow N)
      → any p xs ≡ false
      → any p ys ≡ false
      → any p (xs ++ ys) ≡ false
  any-append p [] ys h k = k
  any-append p (x ∷ xs) ys h k =
      let split = neither (p x) (any p xs) h in
      ap (λ b. b || any p (xs ++ ys)) split.0 ∙ any-append p xs ys split.1 k

  -- What is picked out under some names has no other name.
  picked-known :
      (allowed names : List String) (row : FiledRow N)
      → all (λ name. contains name allowed) names ≡ true
      → unknown_fields allowed (picked names row) ≡ false
  unfolding picked
  picked-known allowed [] row h = refl
  picked-known allowed (name ∷ names) row h =
      let split = all_cons (contains name allowed) (all (λ m. contains m allowed) names) h in
      go (has row name) split.0 (picked-known allowed names row split.1)
    where
      go :
          (there : Bool)
          → contains name allowed ≡ true
          → unknown_fields allowed (picked names row) ≡ false
          → unknown_fields allowed
              (if there then (name, get row name) ∷ picked names row else picked names row)
            ≡ false
      go true known rest = ap (λ b. not b || unknown_fields allowed (picked names row)) known ∙ rest
      go false known rest = rest

  projected_row-known :
      (allowed names : List String) (row : FiledRow N)
      → all (λ name. contains name allowed) names ≡ true
      → unknown_fields allowed (projected_row names row) ≡ false
  unfolding projected_row
  projected_row-known allowed [] row h = refl
  projected_row-known allowed (name ∷ names) row h =
      let split = all_cons (contains name allowed) (all (λ m. contains m allowed) names) h in
      ap (λ b. not b || unknown_fields allowed (projected_row names row)) split.0
      ∙ projected_row-known allowed names row split.1

  if_valid-some :
      (is_valid : FiledRow N → Bool) (candidate rec : FiledRow N)
      → if_valid is_valid candidate ≡ some rec
      → (is_valid rec ≡ true) × (candidate ≡ rec)
  if_valid-some is_valid candidate rec h = go (is_valid candidate) refl h
    where
      go :
          (b : Bool)
          → is_valid candidate ≡ b
          → (if b then some candidate else none) ≡ some rec
          → (is_valid rec ≡ true) × (candidate ≡ rec)
      go true e k =
          let same_row = or_given candidate k in
          (subst (λ r. is_valid r ≡ true) same_row e, same_row)
      go false e k = ground (arith, k)

module _ (env : Environment) {N : Type 0} (numbers : Numbers N) (spec : LedgerSpec) where
  -- A row as the wager file holds it: valid, with no other field, under a key that is a text.
  abbrev pub IsFiledWager : FiledRow N → Type 0
  IsFiledWager rec =
      (is_valid_wager env numbers spec rec ≡ true)
      × (unknown_fields wager_fields rec ≡ false)
      × HasKey rec

  wager-HasKey : (rec : FiledRow N) → is_valid_wager env numbers spec rec ≡ true → HasKey rec
  unfolding is_valid_wager wager_tests
  wager-HasKey rec h =
      nonempty_text (get rec "source_bet_key") (all-All (wager_tests env numbers spec rec) h).1.1.0

  priced_wager-IsFiledWager :
      (row : FiledRow N) (price id : Option String) (rec : FiledRow N)
      → priced_wager env numbers spec row price id ≡ some rec
      → IsFiledWager rec
  unfolding priced_wager wager_record
  priced_wager-IsFiledWager row none id rec h = ground (arith, h)
  priced_wager-IsFiledWager row (some price) none rec h = ground (arith, h)
  priced_wager-IsFiledWager row (some price) (some id) rec h =
      let found =
        if_valid-some (is_valid_wager env numbers spec) (wager_record env numbers spec row price id)
          rec h in
      let set_fields : FiledRow N =
        ("execution_price", get row price)
        ∷ ("wager_id", text id)
        ∷ ("schema_version", text spec.wager_schema)
        ∷ [] in
      (
        found.0,
        subst (λ r. unknown_fields wager_fields r ≡ false) found.1
            (any-append (λ m. not (contains m.0 wager_fields)) (picked wager_kept_fields row)
              set_fields (picked-known wager_fields wager_kept_fields row refl) refl),
        wager-HasKey rec found.0,
      )

  pub build_wager-IsFiledWager :
      (row : Option (FiledRow N)) (rec : FiledRow N)
      → build_wager env numbers spec row ≡ some rec
      → IsFiledWager rec
  unfolding build_wager
  build_wager-IsFiledWager none rec h = ground (arith, h)
  build_wager-IsFiledWager (some row) rec h =
      priced_wager-IsFiledWager row _ _ rec (past _ (priced_wager env numbers spec row _ _) rec h)

  pub wager_for-IsFiledWager :
      (batch : Option String) (row : Option (FiledRow N)) (rec : FiledRow N)
      → wager_for env numbers spec batch row ≡ some rec
      → IsFiledWager rec
  unfolding wager_for
  wager_for-IsFiledWager batch row rec h =
      build_wager-IsFiledWager row rec
        (past (disagrees env numbers spec batch row) (build_wager env numbers spec row) rec h)

  -- A row as the settlement file holds it, with its wager on file.
  abbrev pub IsFiledSettlement : List (FiledRow N) → FiledRow N → Type 0
  IsFiledSettlement wagers rec =
      (is_valid_settlement env numbers spec rec ≡ true)
      × (unknown_fields settlement_fields rec ≡ false)
      × HasKey rec
      × (is_some (prior_of (key rec) wagers) ≡ true)

  -- The same before the wager is looked for.
  IsSettlement : FiledRow N → Type 0
  IsSettlement rec =
      (is_valid_settlement env numbers spec rec ≡ true)
      × (unknown_fields settlement_fields rec ≡ false)
      × HasKey rec

  settlement-HasKey :
      (rec : FiledRow N) → is_valid_settlement env numbers spec rec ≡ true → HasKey rec
  unfolding is_valid_settlement settlement_tests
  settlement-HasKey rec h =
      nonempty_text (get rec "source_bet_key")
        (all-All (settlement_tests env numbers spec rec) h).1.1.0

  settled-IsSettlement :
      (row : FiledRow N) (id : Option String) (rec : FiledRow N)
      → settled_row env numbers spec row id ≡ some rec
      → IsSettlement rec
  unfolding settled_row settlement_record IsSettlement
  settled-IsSettlement row none rec h = ground (arith, h)
  settled-IsSettlement row (some id) rec h =
      let found =
        if_valid-some (is_valid_settlement env numbers spec)
          (settlement_record env numbers spec row id) rec h in
      let set_fields : FiledRow N =
        ("settlement_id", text id) ∷ ("schema_version", text spec.settlement_schema) ∷ [] in
      (
        found.0,
        subst (λ r. unknown_fields settlement_fields r ≡ false) found.1
            (any-append (λ m. not (contains m.0 settlement_fields))
              (projected_row settlement_input_fields row) set_fields
              (projected_row-known settlement_fields settlement_input_fields row refl) refl),
        settlement-HasKey rec found.0,
      )

  build_settlement-IsSettlement :
      (row : Option (FiledRow N)) (rec : FiledRow N)
      → build_settlement env numbers spec row ≡ some rec
      → IsSettlement rec
  unfolding build_settlement
  build_settlement-IsSettlement none rec h = ground (arith, h)
  build_settlement-IsSettlement (some row) rec h =
      let id = mint_settlement_id env spec (get row "source_bet_key") in
      settled-IsSettlement row id rec (past _ (settled_row env numbers spec row id) rec h)

  pub parent-some :
      (rec found : FiledRow N) (prior : Option (FiledRow N))
      → with_parent env numbers spec rec prior ≡ some found
      → (rec ≡ found) × (is_some prior ≡ true)
  unfolding with_parent
  parent-some rec found none h = ground (arith, h)
  parent-some rec found (some wager) h = (or_given rec (past _ (some rec) found h), refl)

  parented-IsFiled :
      (wagers : List (FiledRow N)) (built : Option (FiledRow N)) (rec : FiledRow N)
      → ((r : FiledRow N) → built ≡ some r → IsSettlement r)
      → parented env numbers spec wagers built ≡ some rec
      → IsFiledSettlement wagers rec
  unfolding parented IsSettlement
  parented-IsFiled wagers none rec p h = ground (arith, h)
  parented-IsFiled wagers (some r) rec p h =
      let parent = parent-some r rec (prior_of (key r) wagers) h in
      let facts = p r refl in
      subst (IsFiledSettlement wagers) parent.0 (facts.0, facts.1, facts.2, parent.1)

  pub settlement_for-IsFiledSettlement :
      (wagers : List (FiledRow N)) (row : Option (FiledRow N)) (rec : FiledRow N)
      → settlement_for env numbers spec wagers row ≡ some rec
      → IsFiledSettlement wagers rec
  unfolding settlement_for
  settlement_for-IsFiledSettlement wagers row rec h =
      parented-IsFiled wagers (build_settlement env numbers spec row) rec
        (build_settlement-IsSettlement row) h
