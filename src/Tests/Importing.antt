-- ===== src/Tests/Importing.antt =====
-- The shared ledger at small payloads (contract/edge_finder_contract/routed_ledger.py).
use Prim.Native.Char.{code}
use kalshi_bet_router.Base.{
  ℕ, ◌+◌, ◌-◌, ◌*◌, ◌/◌, max, String, true, false, ◌&&◌, Option, none, some, List, [], ◌∷◌, ◌++◌,
  ◌≡◌, refl, map, length, All, if◌then◌else◌, str_eq, ltb, leb, ◌==◌,
}
use kalshi_bet_router.RoutedLedger.Values.{Numbers, boolean, number, text, FiledRow, get, text_of}
use kalshi_bet_router.RoutedLedger.Rules.{LedgerSpec, Environment}
use kalshi_bet_router.RoutedLedger.Imports.{
  Ledger, ImportResult, RowStatus, new_row, duplicate_noop, refused, RowReceipt, build_wager,
  wager_for, import_wagers,
}
use kalshi_bet_router.RoutedLedger.Texts.{Json, Files, splitlines, file_text, import_wagers_file}
use kalshi_bet_router.RoutedLedger.Whole.{validate_ledger}
use kalshi_bet_router.RoutedLedger.Reached.{IsSoundLedger, import_wagers-accounts}
use kalshi_bet_router.RoutedLedger.Written.{IsWrittenIf, IsTextOf}
use kalshi_bet_router.RoutedLedger.Runs.{stays, goes_on, wagers_come, FileReach-validates}

-- Numbers in units of 1e-9; a difference is taken without its sign.
abbrev nanos : Numbers ℕ
nanos = record {
  zero = 0;
  one = 1000000000;
  nano = 1;
  micro = 1000;
  float = λ x. x;
  add = λ x y. x + y;
  sub = λ x y. (x - y) + (y - x);
  mul = λ x y. x * y / 1000000000;
  larger = max;
  magnitude = λ x. x;
  is_less = ltb;
  equals = ◌==◌;
  is_finite = λ x. true;
}

abbrev environment : Environment
environment = record {
  sha256 = λ s. s;
  is_decimal = λ c. leb 48 (code c) && leb (code c) 57;
  fromisoformat = λ s. some true;
}

abbrev spec : LedgerSpec
spec = record {
  id_prefix = "nba";
  wager_schema = "nba_accounted_wager.v1";
  settlement_schema = "nba_settlement.v1";
}

-- Ten contracts at half a dollar, with a fee of two cents.
abbrev row_of : String → ℕ → FiledRow ℕ
row_of key stake =
    ("source_bet_key", text key)
    ∷ ("import_batch_id", text "b1")
    ∷ ("entry_method", text "IMPORTED_RECEIPT")
    ∷ ("game_date", text "2026-09-16")
    ∷ ("market_ticker", text "A")
    ∷ ("side", text "YES")
    ∷ ("executed_at", text "2026-09-16T00:00:00Z")
    ∷ ("contracts", number 10000000000)
    ∷ ("execution_price", number 500000000)
    ∷ ("stake", number stake)
    ∷ ("fees_paid", number 20000000)
    ∷ ("fees_are_estimated", boolean false)
    ∷ ("venue", text "kalshi")
    ∷ []

-- A wager, the same one at another time, one whose stake does not add up, and no object.
abbrev payload : List (Option (FiledRow ℕ))
payload =
    some (row_of "k1" 5020000000)
    ∷ some (row_of "k1" 5020000000)
    ∷ some (row_of "k2" 7000000000)
    ∷ none
    ∷ []

abbrev empty : Ledger ℕ
empty = record { wagers = []; settlements = [] }

empty-IsSoundLedger : IsSoundLedger environment nanos spec empty
empty-IsSoundLedger = record {
  wagers_fit = tt;
  wagers_apart = tt;
  settlements_fit = tt;
  settlements_apart = tt;
}

abbrev statuses : ImportResult → List RowStatus
statuses result = map (λ (r : RowReceipt). r.status) result.rows

import_wagers-statuses :
    statuses (import_wagers environment nanos spec empty payload (some "b1")).1
    ≡ new_row ∷ duplicate_noop ∷ refused ∷ refused ∷ []
unfolding import_wagers
import_wagers-statuses = refl

abbrev imported : Ledger ℕ
imported = (import_wagers environment nanos spec empty payload (some "b1")).0

-- A row is written by its key, and the key of the wager above is read back as that wager.
abbrev json : Json ℕ
json = record {
  dumps = λ row. text_of (get row "source_bet_key");
  loads = λ s.
      if str_eq s "k1"
      then some (build_wager environment nanos spec (some (row_of "k1" 5020000000)))
      else none;
}

-- U+2028 in a text ends a line.
separated : splitlines "a\u{2028}b\n" ≡ "a" ∷ "b" ∷ []
unfolding splitlines
separated = refl

abbrev no_files : Files
no_files = record { wagers = ""; settlements = "" }

no_files-IsTextOf : IsTextOf environment nanos spec json empty no_files
unfolding file_text
no_files-IsTextOf = record {
  sound = empty-IsSoundLedger;
  wagers_text = refl;
  settlements_text = refl;
  wagers_written = tt;
  settlements_written = tt;
}

payload_written :
    All
      (λ row.
        IsWrittenIf environment nanos spec json (wager_for environment nanos spec (some "b1") row))
      payload
unfolding wager_for
payload_written = ((refl, refl, refl), ((refl, refl, refl), (tt, (tt, tt))))

abbrev files_written : Files
files_written = record { wagers = "k1\n"; settlements = "" }

first_import :
    import_wagers_file environment nanos spec json no_files payload (some "b1")
    ≡ some (files_written, (import_wagers environment nanos spec empty payload (some "b1")).1)
unfolding import_wagers_file kalshi_bet_router.RoutedLedger.Texts.append_rows import_wagers
first_import = refl

FileReach-validates_example :
    (validate_ledger nanos environment spec json files_written
      (some no_files.wagers)
      (some no_files.settlements)).ok
    ≡ true
FileReach-validates_example =
    FileReach-validates environment nanos spec json empty no_files files_written no_files-IsTextOf (
      goes_on (stays no_files)
        (wagers_come no_files payload (some "b1") payload_written first_import))

import_wagers-accounts_example :
    (added : List (FiledRow ℕ)) × ((import_wagers environment nanos spec empty payload
        (some "b1")).0.wagers
      ≡ empty.wagers ++ added)
    × ((import_wagers environment nanos spec empty payload (some "b1")).1.written ≡ length added)
    × ((import_wagers environment nanos spec empty payload (some "b1")).1.written
          + (import_wagers environment nanos spec empty payload (some "b1")).1.duplicate
          + (import_wagers environment nanos spec empty payload (some "b1")).1.refused_rows
        ≡ length payload)
    × (length (import_wagers environment nanos spec empty payload (some "b1")).1.rows
        ≡ length payload)
import_wagers-accounts_example =
    import_wagers-accounts environment nanos spec empty payload (some "b1") empty-IsSoundLedger
