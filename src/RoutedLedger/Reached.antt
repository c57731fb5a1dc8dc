-- ===== src/RoutedLedger/Reached.antt =====
-- What an importer keeps of a ledger, with the rows that are on file (contract/edge_finder_contract/routed_ledger.py).
use kalshi_bet_router.Base.{◌+◌, String, Option, List, [], ◌∷◌, ◌++◌, ◌≡◌, refl, subst, All, length}
use kalshi_bet_router.RoutedLedger.Values.{Numbers, FiledRow}
use kalshi_bet_router.RoutedLedger.Rules.{LedgerSpec, Environment}
use kalshi_bet_router.RoutedLedger.Fields.{wager_canonical_fields, settlement_canonical_fields}
use kalshi_bet_router.RoutedLedger.Imports.{
  Ledger, Progress, started, import_rows, wager_for, settlement_for, import_wagers,
  import_settlements,
}
use kalshi_bet_router.RoutedLedger.Keyed.{key, NoRepeat}
use kalshi_bet_router.RoutedLedger.Filed.{IsGrown, import-IsGrown}
use kalshi_bet_router.RoutedLedger.Built.{
  IsFiledWager, IsFiledSettlement, wager_for-IsFiledWager, settlement_for-IsFiledSettlement,
}
use kalshi_bet_router.RoutedLedger.Extended.{still_on_file}

pub map_All :
    {A : Type 0} (P Q : A → Type 0) (xs : List A) → ((x : A) → P x → Q x) → All P xs → All Q xs
map_All P Q [] f h = tt
map_All P Q (x ∷ xs) f h = (f x h.0, map_All P Q xs f h.1)

-- What holds of everything holds of what is listed.
everywhere : {A : Type 0} (P : A → Type 0) (xs : List A) → ((x : A) → P x) → All P xs
everywhere P [] h = tt
everywhere P (x ∷ xs) h = (h x, everywhere P xs h)

module _ (env : Environment) {N : Type 0} (numbers : Numbers N) (spec : LedgerSpec) where
  -- One run of an importer.
  pub data Step : Ledger N → Ledger N → Type 0 where
    wagers_come :
        (ledger : Ledger N) (rows : List (Option (FiledRow N))) (batch : Option String)
        → Step ledger (import_wagers env numbers spec ledger rows batch).0
    settlements_come :
        (ledger : Ledger N) (rows : List (Option (FiledRow N)))
        → Step ledger (import_settlements env numbers spec ledger rows).0

  -- Rows that are fit, under keys of their own, and a wager for every settlement.
  pub record IsSoundLedger (ledger : Ledger N) : Type 0 where
    pub wagers_fit : All (IsFiledWager env numbers spec) ledger.wagers
    pub wagers_apart : NoRepeat ledger.wagers
    pub settlements_fit : All (IsFiledSettlement env numbers spec ledger.wagers) ledger.settlements
    pub settlements_apart : NoRepeat ledger.settlements

  abbrev pub wagers_done :
      (ledger : Ledger N) → List (Option (FiledRow N)) → Option String → Progress N
  wagers_done ledger rows batch =
      import_rows numbers "wager_id" wager_canonical_fields (wager_for env numbers spec batch) 0
        rows (started ledger.wagers)

  abbrev pub settlements_done : (ledger : Ledger N) → List (Option (FiledRow N)) → Progress N
  settlements_done ledger rows =
      import_rows numbers "settlement_id" settlement_canonical_fields
        (settlement_for env numbers spec ledger.wagers) 0 rows (started ledger.settlements)

  pub wagers-IsGrown :
      (ledger : Ledger N) (rows : List (Option (FiledRow N))) (batch : Option String)
      → IsSoundLedger ledger
      → IsGrown
          (IsFiledWager env numbers spec)
          ledger.wagers
          (length rows)
          (wagers_done ledger rows batch)
  wagers-IsGrown ledger rows batch s =
      import-IsGrown numbers "wager_id" wager_canonical_fields (IsFiledWager env numbers spec)
        ledger.wagers (wager_for env numbers spec batch) rows
        (everywhere _ rows (wager_for-IsFiledWager env numbers spec batch)) s.wagers_fit
        s.wagers_apart

  settlements-IsGrown :
      (ledger : Ledger N) (rows : List (Option (FiledRow N)))
      → IsSoundLedger ledger
      → IsGrown
          (IsFiledSettlement env numbers spec ledger.wagers)
          ledger.settlements
          (length rows)
          (settlements_done ledger rows)
  settlements-IsGrown ledger rows s =
      import-IsGrown numbers "settlement_id" settlement_canonical_fields
        (IsFiledSettlement env numbers spec ledger.wagers) ledger.settlements
        (settlement_for env numbers spec ledger.wagers) rows
        (everywhere _ rows (settlement_for-IsFiledSettlement env numbers spec ledger.wagers))
        s.settlements_fit s.settlements_apart

  pub Step-IsSoundLedger : {a b : Ledger N} → IsSoundLedger a → Step a b → IsSoundLedger b
  unfolding import_wagers import_settlements
  Step-IsSoundLedger s (wagers_come ledger rows batch) =
      let g = wagers-IsGrown ledger rows batch s in
      record {
        wagers_fit = subst (All (IsFiledWager env numbers spec)) g.grown g.each;
        wagers_apart = subst NoRepeat g.grown g.unrepeated;
        settlements_fit =
            map_All (IsFiledSettlement env numbers spec ledger.wagers) _ ledger.settlements
              (λ r f. (f.0, f.1, f.2, still_on_file (key r) ledger.wagers _ f.3)) s.settlements_fit;
        settlements_apart = s.settlements_apart;
      }
  Step-IsSoundLedger s (settlements_come ledger rows) =
      let g = settlements-IsGrown ledger rows s in
      record {
        wagers_fit = s.wagers_fit;
        wagers_apart = s.wagers_apart;
        settlements_fit =
            subst (All (IsFiledSettlement env numbers spec ledger.wagers)) g.grown g.each;
        settlements_apart = subst NoRepeat g.grown g.unrepeated;
      }

  -- What an import tells of itself: what it wrote is what the file gained, each entry of the payload has
  -- its receipt, and is counted as written, as on file already or as refused.
  pub import_wagers-accounts :
      (ledger : Ledger N) (rows : List (Option (FiledRow N))) (batch : Option String)
      → IsSoundLedger ledger
      → (added : List (FiledRow N)) × ((import_wagers env numbers spec ledger rows batch).0.wagers
          ≡ ledger.wagers ++ added)
        × ((import_wagers env numbers spec ledger rows batch).1.written ≡ length added)
        × ((import_wagers env numbers spec ledger rows batch).1.written
              + (import_wagers env numbers spec ledger rows batch).1.duplicate
              + (import_wagers env numbers spec ledger rows batch).1.refused_rows
            ≡ length rows)
        × (length (import_wagers env numbers spec ledger rows batch).1.rows ≡ length rows)
  unfolding import_wagers
  import_wagers-accounts ledger rows batch s =
      let g = wagers-IsGrown ledger rows batch s in
      ((wagers_done ledger rows batch).added, refl, g.written_rows, g.counted, g.receipted)
