-- ===== src/RoutedLedger/Texts.antt =====
-- The files of a ledger as texts (contract/edge_finder_contract/routed_ledger.py): how rows are written and
-- read back, and the importers with both.
use Prim.Native.Char.{Char, code}
use Prim.Native.String.{[] as empty, ◌∷◌ as before, ◌++◌ as append}
use kalshi_bet_router.Base.{
  ℕ, String, Bool, false, not, ◌&&◌, ◌||◌, Option, none, some, List, [], ◌∷◌, if◌then◌else◌, leb,
  ◌==◌, is_blank, map, concat,
}
use kalshi_bet_router.RoutedLedger.Values.{Numbers, FiledRow}
use kalshi_bet_router.RoutedLedger.Rules.{LedgerSpec, Environment}
use kalshi_bet_router.RoutedLedger.Fields.{wager_canonical_fields, settlement_canonical_fields}
use kalshi_bet_router.RoutedLedger.Imports.{
  Progress, ImportResult, started, import_rows, wager_for, settlement_for,
}

-- `json.dumps(rec, sort_keys=True, ensure_ascii=False, …)` and `json.loads(line)`, which gives nothing where
-- the line is no JSON, and no row where it is no object.
pub record Json (N : Type 0) : Type 0 where
  pub dumps : FiledRow N → String
  pub loads : String → Option (Option (FiledRow N))

-- The characters that end a line for `str.splitlines`.
abbrev pub ends_line : ℕ → Bool
ends_line c = (leb 10 c && leb c 13) || (leb 28 c && leb c 30) || c == 133 || c == 8232 || c == 8233

abbrev pub starts_with_newline : String → Bool
starts_with_newline empty = false
starts_with_newline (before c s) = code c == 10

abbrev pub put_first : Char → List String → List String
put_first c [] = before c empty ∷ []
put_first c (l ∷ ls) = before c l ∷ ls

-- `text.splitlines()`; a carriage return and a newline end one line together.
unfoldable pub splitlines : String → List String
splitlines empty = []
splitlines (before c s) =
    let rest = splitlines s in
    if code c == 13 && starts_with_newline s
    then rest
    else if ends_line (code c)
    then "" ∷ rest
    else put_first c rest

-- Whether the text ends within a line: `existing and not existing.endswith(b"\n")`.
unfoldable pub is_open_line : Bool → String → Bool
is_open_line is_open empty = is_open
is_open_line is_open (before c s) = is_open_line (not (code c == 10)) s

-- `path.read_text()` of a file that was written from its rows.
unfoldable pub file_text : {N : Type 0} → (FiledRow N → String) → List (FiledRow N) → String
file_text line rows = concat (map line rows)

-- The two files; one that does not exist is read as empty.
pub record Files : Type 0 where
  pub wagers : String
  pub settlements : String

module _ {N : Type 0} (json : Json N) where
  -- `_line(rec)`
  abbrev pub line : FiledRow N → String
  line rec = append (json.dumps rec) "\n"

  abbrev pub with_read :
      Option (Option (FiledRow N)) → Option (List (FiledRow N)) → Option (List (FiledRow N))
  with_read (some (some row)) (some rows) = some (row ∷ rows)
  with_read _ _ = none

  unfoldable pub read_lines : List String → Option (List (FiledRow N))
  read_lines [] = some []
  read_lines (l ∷ ls) =
      let rest = read_lines ls in if is_blank l then rest else with_read (json.loads l) rest

  -- `read_jsonl(path)`, none where it raises `RowRefused`.
  unfoldable pub read_jsonl : String → Option (List (FiledRow N))
  unfolding read_lines splitlines
  read_jsonl text = read_lines (splitlines text)

  -- `_append(path, recs)`
  unfoldable pub append_rows : String → List (FiledRow N) → String
  unfolding is_open_line file_text
  append_rows text [] = text
  append_rows text (rec ∷ recs) =
      append (if is_open_line false text then append text "\n" else text)
        (file_text line (rec ∷ recs))

module _ (env : Environment) {N : Type 0} (numbers : Numbers N) (spec : LedgerSpec)
    (json : Json N) where
  abbrev pub wagers_filed : Files → Progress N → Files × ImportResult
  wagers_filed files done =
      (record files { wagers = append_rows json files.wagers done.added }, done.result)

  abbrev pub settlements_filed : Files → Progress N → Files × ImportResult
  settlements_filed files done =
      (record files { settlements = append_rows json files.settlements done.added }, done.result)

  -- With the rows on file, or nothing where they cannot be read.
  unfoldable pub wagers_read :
      Files
      → List (Option (FiledRow N))
      → Option String
      → Option (List (FiledRow N))
      → Option (Files × ImportResult)
  unfolding import_rows wager_for
  wagers_read files rows batch none = none
  wagers_read files rows batch (some on_file) = some (
      wagers_filed files (
        import_rows numbers "wager_id" wager_canonical_fields (wager_for env numbers spec batch) 0
          rows (started on_file)))

  -- `import_wagers(spec, base_dir, rows, import_batch_id)`, none where `RowRefused` is raised.
  unfoldable pub import_wagers_file :
      Files → List (Option (FiledRow N)) → Option String → Option (Files × ImportResult)
  unfolding read_jsonl wagers_read
  import_wagers_file files rows batch = wagers_read files rows batch (read_jsonl json files.wagers)

  unfoldable pub settlements_read :
      Files
      → List (Option (FiledRow N))
      → Option (List (FiledRow N))
      → Option (List (FiledRow N))
      → Option (Files × ImportResult)
  unfolding import_rows settlement_for
  settlements_read files rows (some wagers) (some on_file) = some (
      settlements_filed files (
        import_rows numbers "settlement_id" settlement_canonical_fields
          (settlement_for env numbers spec wagers) 0 rows (started on_file)))
  settlements_read files rows _ _ = none

  -- `import_settlements(spec, base_dir, rows)`
  unfoldable pub import_settlements_file :
      Files → List (Option (FiledRow N)) → Option (Files × ImportResult)
  unfolding read_jsonl settlements_read
  import_settlements_file files rows =
      settlements_read files rows (read_jsonl json files.wagers) (read_jsonl json files.settlements)
