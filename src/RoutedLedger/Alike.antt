-- ===== src/RoutedLedger/Alike.antt =====
-- Importing the same payload twice (contract/edge_finder_contract/routed_ledger.py).
use mathlib.Core.List.{append-nil}
use kalshi_bet_router.Base.{
  ◌+◌, String, Bool, true, false, not, ◌&&◌, Option, List, [], ◌∷◌, ◌++◌, ◌≡◌, refl, sym, ap, ◌∙◌,
  All, filter, if◌then◌else◌, str_eq_refl, arith,
}
use kalshi_bet_router.RoutedLedger.Values.{
  Numbers, Value, null, boolean, number, text, texts, compound, FiledRow, get, is_nonempty, is_text,
  equal_values, number_that, numbers_differ, differs, conflicting_fields,
}
use kalshi_bet_router.RoutedLedger.Rules.{
  LedgerSpec, Environment, is_one_of, is_false, wager_tests, is_valid_wager,
}
use kalshi_bet_router.RoutedLedger.Fields.{wager_canonical_fields}
use kalshi_bet_router.RoutedLedger.Imports.{Ledger, ImportResult, started, wager_for, import_wagers}
use kalshi_bet_router.RoutedLedger.Built.{all-All, wager_for-IsFiledWager}
use kalshi_bet_router.RoutedLedger.Reached.{
  IsSoundLedger, wagers_done, wagers-IsGrown, Step-IsSoundLedger, wagers_come,
}
use kalshi_bet_router.RoutedLedger.Again.{rows-Repeats}

filter_none :
    (p : String → Bool) (names : List String)
    → All (λ name. p name ≡ false) names
    → filter p names ≡ []
filter_none p [] h = refl
filter_none p (name ∷ names) h =
    ap (λ b. if b then name ∷ filter p names else filter p names) h.0 ∙ filter_none p names h.1

-- A number does not differ from itself.
abbrev pub IsExact : {N : Type 0} → Numbers N → Type 0
IsExact {N} numbers = (x : N) → numbers.is_finite x ≡ true → numbers_differ numbers x x ≡ false

module _ {N : Type 0} (numbers : Numbers N) (exact : IsExact numbers) where
  abbrev Alike : Value N → Type 0
  Alike v = differs numbers v v ≡ false

  text-Alike : (s : String) → Alike (text s)
  unfolding differs equal_values
  text-Alike s = ap not (str_eq_refl s)

  nonempty-Alike : (v : Value N) → is_nonempty v ≡ true → Alike v
  nonempty-Alike null h = ground (arith, h)
  nonempty-Alike (boolean b) h = ground (arith, h)
  nonempty-Alike (number x) h = ground (arith, h)
  nonempty-Alike (text s) h = text-Alike s
  nonempty-Alike (texts ss) h = ground (arith, h)
  nonempty-Alike (compound s) h = ground (arith, h)

  is_text-Alike : (v : Value N) (s : String) → is_text v s ≡ true → Alike v
  is_text-Alike null s h = ground (arith, h)
  is_text-Alike (boolean b) s h = ground (arith, h)
  is_text-Alike (number x) s h = ground (arith, h)
  is_text-Alike (text t) s h = text-Alike t
  is_text-Alike (texts ss) s h = ground (arith, h)
  is_text-Alike (compound t) s h = ground (arith, h)

  is_one_of-Alike : (v : Value N) (names : List String) → is_one_of v names ≡ true → Alike v
  is_one_of-Alike null names h = ground (arith, h)
  is_one_of-Alike (boolean b) names h = ground (arith, h)
  is_one_of-Alike (number x) names h = ground (arith, h)
  is_one_of-Alike (text t) names h = text-Alike t
  is_one_of-Alike (texts ss) names h = ground (arith, h)
  is_one_of-Alike (compound t) names h = ground (arith, h)

  number-Alike : (holds : N → Bool) (v : Value N) → number_that numbers holds v ≡ true → Alike v
  unfolding differs
  number-Alike holds null h = ground (arith, h)
  number-Alike holds (boolean b) h = ground (arith, h)
  number-Alike holds (number x) h = go (numbers.is_finite x) (exact x) h
    where
      go :
          (finite : Bool)
          → (finite ≡ true → numbers_differ numbers x x ≡ false)
          → finite && holds x ≡ true
          → (if finite && finite
              then numbers_differ numbers x x
              else not (equal_values numbers (number x) (number x)))
            ≡ false
      go true e k = e refl
      go false e k = ground (arith, k)
  number-Alike holds (text t) h = ground (arith, h)
  number-Alike holds (texts ss) h = ground (arith, h)
  number-Alike holds (compound t) h = ground (arith, h)

-- A second run against the first.
abbrev pub IsRepeat : {N : Type 0} → Ledger N × ImportResult → Ledger N × ImportResult → Type 0
IsRepeat first second =
    (second.0.wagers ≡ first.0.wagers)
    × (second.1.written ≡ 0)
    × (second.1.refused_rows ≡ first.1.refused_rows)
    × (second.1.duplicate ≡ first.1.written + first.1.duplicate)

module _ (env : Environment) {N : Type 0} (numbers : Numbers N) (exact : IsExact numbers)
    (spec : LedgerSpec) where
  false-Alike : (v : Value N) → is_false env numbers spec v ≡ true → Alike numbers exact v
  unfolding differs equal_values
  false-Alike null h = ground (arith, h)
  false-Alike (boolean true) h = ground (arith, h)
  false-Alike (boolean false) h = refl
  false-Alike (number x) h = ground (arith, h)
  false-Alike (text t) h = ground (arith, h)
  false-Alike (texts ss) h = ground (arith, h)
  false-Alike (compound t) h = ground (arith, h)

  -- A valid wager does not conflict with itself.
  wager-alike :
      (rec : FiledRow N)
      → is_valid_wager env numbers spec rec ≡ true
      → conflicting_fields numbers rec rec wager_canonical_fields ≡ []
  unfolding is_valid_wager wager_tests conflicting_fields
  wager-alike rec valid =
      let t4 = (all-All (wager_tests env numbers spec rec) valid).1.1.1.1 in
      let t9 = t4.1.1.1.1.1 in
      let t13 = t9.1.1.1.1 in
      let t17 = t13.1.1.1.1 in
      filter_none (λ name. differs numbers (get rec name) (get rec name)) wager_canonical_fields
        (
          is_text-Alike numbers exact (get rec "entry_method") "IMPORTED_RECEIPT" t9.0,
          (
            nonempty-Alike numbers exact (get rec "game_date") t4.1.0,
            (
              nonempty-Alike numbers exact (get rec "market_ticker") t4.0,
              (
                is_one_of-Alike numbers exact (get rec "side") _ t9.1.0,
                (
                  nonempty-Alike numbers exact (get rec "executed_at") t4.1.1.0,
                  (
                    number-Alike numbers exact _ (get rec "contracts") t13.0,
                    (
                      number-Alike numbers exact _ (get rec "execution_price") t13.1.0,
                      (
                        number-Alike numbers exact _ (get rec "stake") t13.1.1.0,
                        (
                          number-Alike numbers exact _ (get rec "fees_paid") t13.1.1.1.0,
                          (
                            false-Alike (get rec "fees_are_estimated") t17.0,
                            (is_text-Alike numbers exact (get rec "venue") "kalshi" t17.1.0, tt),
                          ),
                        ),
                      ),
                    ),
                  ),
                ),
              ),
            ),
          ),
        )

  -- Importing a payload of wagers a second time leaves the ledger as the first run left it: nothing is
  -- written, the same number of entries is refused, and all others are on file already.
  pub import_wagers-again :
      (ledger : Ledger N) (rows : List (Option (FiledRow N))) (batch : Option String)
      → IsSoundLedger env numbers spec ledger
      → IsRepeat (import_wagers env numbers spec ledger rows batch) (
          import_wagers env numbers spec
            (import_wagers env numbers spec ledger rows batch).0
            rows
            batch)
  unfolding import_wagers
  import_wagers-again ledger rows batch s =
      let build = wager_for env numbers spec batch in
      let first = wagers_done env numbers spec ledger rows batch in
      let file = ledger.wagers ++ first.added in
      let ledger' : Ledger N = record ledger { wagers = file } in
      let g = wagers-IsGrown env numbers spec ledger rows batch s in
      let g' =
        wagers-IsGrown env numbers spec ledger' rows batch
          (Step-IsSoundLedger env numbers spec s (wagers_come ledger rows batch)) in
      let same_file =
        rows-Repeats numbers "wager_id" wager_canonical_fields build
          (λ row rec h. wager-alike rec (wager_for-IsFiledWager env numbers spec batch row rec h).0)
          rows 0 (started ledger.wagers) (started file) (sym g.grown) in
      (
        ap (λ more. file ++ more) same_file.0 ∙ append-nil file,
        same_file.2,
        omega (arith, same_file.3),
        omega (arith, same_file.2, same_file.3, g.counted, g'.counted),
      )
