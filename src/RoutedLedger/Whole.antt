-- ===== src/RoutedLedger/Whole.antt =====
-- The check of a whole ledger (contract/edge_finder_contract/routed_ledger.py). A
-- line that cannot be read is a failure, and its row is not looked at.
use kalshi_bet_router.Base.{
  ℕ, String, Bool, true, false, not, ◌&&◌, Option, none, some, List, [], ◌∷◌, ◌++◌, any, all,
  length, if◌then◌else◌, is_blank,
}
use kalshi_bet_router.Destinations.{starts_with}
use kalshi_bet_router.RoutedLedger.Values.{Numbers, Value, FiledRow, get, equal_values}
use kalshi_bet_router.RoutedLedger.Rules.{
  LedgerSpec, Environment, is_valid_wager, is_valid_settlement,
}
use kalshi_bet_router.RoutedLedger.Fields.{wager_input_fields, settlement_input_fields}
use kalshi_bet_router.RoutedLedger.Imports.{unknown_fields}
use kalshi_bet_router.RoutedLedger.Texts.{Json, Files, splitlines}

pub record LedgerReport : Type 0 where
  pub ok : Bool
  pub wager_count : ℕ
  pub settlement_count : ℕ

abbrev pub wager_fields : List String
wager_fields = wager_input_fields ++ ("wager_id" ∷ "schema_version" ∷ [])

abbrev pub settlement_fields : List String
settlement_fields = settlement_input_fields ++ ("settlement_id" ∷ "schema_version" ∷ [])

-- `base is None or text.startswith(base)`
unfoldable pub is_append_only : Option String → String → Bool
unfolding starts_with
is_append_only none file = true
is_append_only (some base) file = starts_with base file

module _ {N : Type 0} (numbers : Numbers N) where
  -- The rows of one file: each one valid, with no unknown field, under a key not seen before.
  unfoldable pub sound_rows :
      (FiledRow N → Bool) → List String → List (Value N) → List (FiledRow N) → Bool
  unfolding get equal_values
  sound_rows is_valid fields keys [] = true
  sound_rows is_valid fields keys (row ∷ rows) =
      let key = get row "source_bet_key" in
      is_valid row
      && (not (unknown_fields fields row)
          && (not (any (λ seen. equal_values numbers key seen) keys)
              && sound_rows is_valid fields (key ∷ keys) rows))

  -- Every settlement has its wager.
  unfoldable pub no_orphans : List (FiledRow N) → List (FiledRow N) → Bool
  unfolding get equal_values
  no_orphans wagers settlements =
      all
        (λ s.
          any (λ w. equal_values numbers (get s "source_bet_key") (get w "source_bet_key")) wagers)
        settlements

  module _ (env : Environment) (spec : LedgerSpec) (json : Json N) where
    -- The rows of the lines that are objects, and whether all are.
    abbrev pub object_on : Option (Option (FiledRow N)) → List (FiledRow N) → List (FiledRow N)
    object_on (some (some row)) rows = row ∷ rows
    object_on _ rows = rows

    abbrev pub is_object : Option (Option (FiledRow N)) → Bool
    is_object (some (some row)) = true
    is_object _ = false

    unfoldable pub object_rows : List String → List (FiledRow N)
    object_rows [] = []
    object_rows (l ∷ ls) =
        let rest = object_rows ls in if is_blank l then rest else object_on (json.loads l) rest

    unfoldable pub all_objects : List String → Bool
    all_objects [] = true
    all_objects (l ∷ ls) = not (is_blank l) && (is_object (json.loads l) && all_objects ls)

    -- `base_texts` are the files at a base ref, as far as they are given.
    unfoldable pub validate_ledger : Files → Option String → Option String → LedgerReport
    unfolding sound_rows no_orphans is_append_only splitlines object_rows all_objects is_valid_wager
        is_valid_settlement
    validate_ledger files base_wagers base_settlements =
        let wagers = object_rows (splitlines files.wagers) in
        let settlements = object_rows (splitlines files.settlements) in
        record {
          ok =
              (all_objects (splitlines files.wagers)
                && (sound_rows (is_valid_wager env numbers spec) wager_fields [] wagers
                    && is_append_only base_wagers files.wagers))
              && ((all_objects (splitlines files.settlements)
                    && (sound_rows (is_valid_settlement env numbers spec) settlement_fields []
                          settlements
                        && is_append_only base_settlements files.settlements))
                  && no_orphans wagers settlements);
          wager_count = length wagers;
          settlement_count = length settlements;
        }
