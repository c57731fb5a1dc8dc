-- ===== src/RoutedLedger/Written.antt =====
-- The files that the importers write (contract/edge_finder_contract/routed_ledger.py).
use kalshi_bet_router.Base.{
  String, Option, none, some, List, ◌++◌, ◌≡◌, ap, ap₂, ◌∙◌, subst, All, arith,
}
use kalshi_bet_router.RoutedLedger.Values.{Numbers, FiledRow}
use kalshi_bet_router.RoutedLedger.Rules.{LedgerSpec, Environment}
use kalshi_bet_router.RoutedLedger.Fields.{wager_canonical_fields, settlement_canonical_fields}
use kalshi_bet_router.RoutedLedger.Imports.{
  Ledger, build_settlement, wager_for, parented, settlement_for, import_wagers, import_settlements,
  prior_of,
}
use kalshi_bet_router.RoutedLedger.Texts.{
  Json, Files, line, file_text, read_jsonl, append_rows, wagers_filed, settlements_filed,
  wagers_read, settlements_read, import_wagers_file, import_settlements_file,
}
use kalshi_bet_router.RoutedLedger.Keyed.{key}
use kalshi_bet_router.RoutedLedger.Filed.{import-IsGrown}
use kalshi_bet_router.RoutedLedger.Built.{parent-some}
use kalshi_bet_router.RoutedLedger.ReadBack.{IsWritten, file-read, append_rows-file}
use kalshi_bet_router.RoutedLedger.Reached.{
  wagers_come, settlements_come, IsSoundLedger, Step-IsSoundLedger, wagers_done, settlements_done,
  map_All,
}

module _ (env : Environment) {N : Type 0} (numbers : Numbers N) (spec : LedgerSpec)
    (json : Json N) where
  -- A record that an entry is built to, if it is built to one, is written on one line and read back.
  abbrev pub IsWrittenIf : Option (FiledRow N) → Type 0
  IsWrittenIf none = Unit
  IsWrittenIf (some rec) = IsWritten json rec

  if-IsWritten :
      (o : Option (FiledRow N)) (rec : FiledRow N)
      → IsWrittenIf o
      → o ≡ some rec
      → IsWritten json rec
  if-IsWritten o rec w e = subst IsWrittenIf e w

  -- The files hold the ledger, which is sound, each row of it on one line that is read back.
  pub record IsTextOf (ledger : Ledger N) (files : Files) : Type 0 where
    pub sound : IsSoundLedger env numbers spec ledger
    pub wagers_text : files.wagers ≡ file_text (line json) ledger.wagers
    pub settlements_text : files.settlements ≡ file_text (line json) ledger.settlements
    pub wagers_written : All (IsWritten json) ledger.wagers
    pub settlements_written : All (IsWritten json) ledger.settlements

  pub import_wagers_file_sound :
      (ledger : Ledger N) (files : Files) (s : IsTextOf ledger files)
      (rows : List (Option (FiledRow N))) (batch : Option String)
      → import_wagers_file env numbers spec json files rows batch
        ≡ some (
            wagers_filed env numbers spec json files
              (wagers_done env numbers spec ledger rows batch))
  unfolding import_wagers_file wagers_read
  import_wagers_file_sound ledger files s rows batch =
      ap (wagers_read env numbers spec json files rows batch)
        (ap (read_jsonl json) s.wagers_text ∙ file-read json ledger.wagers s.wagers_written)

  pub import_settlements_file_sound :
      (ledger : Ledger N) (files : Files) (s : IsTextOf ledger files)
      (rows : List (Option (FiledRow N)))
      → import_settlements_file env numbers spec json files rows
        ≡ some (
            settlements_filed env numbers spec json files
              (settlements_done env numbers spec ledger rows))
  unfolding import_settlements_file settlements_read
  import_settlements_file_sound ledger files s rows =
      ap₂ (settlements_read env numbers spec json files rows)
        (ap (read_jsonl json) s.wagers_text ∙ file-read json ledger.wagers s.wagers_written)
        (ap (read_jsonl json) s.settlements_text
          ∙ file-read json ledger.settlements s.settlements_written)

  IsWritten-wagers :
      (s : Ledger N) (rows : List (Option (FiledRow N))) (batch : Option String)
      → IsSoundLedger env numbers spec s
      → All (IsWritten json) s.wagers
      → All (λ row. IsWrittenIf (wager_for env numbers spec batch row)) rows
      → All (IsWritten json) (s.wagers ++ (wagers_done env numbers spec s rows batch).added)
  IsWritten-wagers s rows batch sound kept written =
      let g =
        import-IsGrown numbers "wager_id" wager_canonical_fields (IsWritten json) s.wagers
          (wager_for env numbers spec batch) rows
          (map_All _ _ rows (λ row w rec e. if-IsWritten _ rec w e) written) kept
          sound.wagers_apart in
      subst (All (IsWritten json)) g.grown g.each

  built_settlement :
      (wagers : List (FiledRow N)) (o : Option (FiledRow N)) (rec : FiledRow N)
      → IsWrittenIf o
      → parented env numbers spec wagers o ≡ some rec
      → IsWritten json rec
  unfolding parented
  built_settlement wagers none rec w e = ground (arith, e)
  built_settlement wagers (some r) rec w e =
      subst (IsWritten json) (parent-some env numbers spec r rec (prior_of (key r) wagers) e).0 w

  IsWritten-settlements :
      (s : Ledger N) (rows : List (Option (FiledRow N)))
      → IsSoundLedger env numbers spec s
      → All (IsWritten json) s.settlements
      → All (λ row. IsWrittenIf (build_settlement env numbers spec row)) rows
      → All (IsWritten json) (s.settlements ++ (settlements_done env numbers spec s rows).added)
  unfolding settlement_for
  IsWritten-settlements s rows sound kept written =
      let g =
        import-IsGrown numbers "settlement_id" settlement_canonical_fields (IsWritten json)
          s.settlements (settlement_for env numbers spec s.wagers) rows
          (map_All _ _ rows
            (λ row w rec e.
              built_settlement s.wagers (build_settlement env numbers spec row) rec w e)
            written)
          kept sound.settlements_apart in
      subst (All (IsWritten json)) g.grown g.each

  pub wagers-IsTextOf :
      (ledger : Ledger N) (files : Files) (s : IsTextOf ledger files)
      (rows : List (Option (FiledRow N))) (batch : Option String)
      → All (λ row. IsWrittenIf (wager_for env numbers spec batch row)) rows
      → IsTextOf
          (import_wagers env numbers spec ledger rows batch).0
          (wagers_filed env numbers spec json files
            (wagers_done env numbers spec ledger rows batch)).0
  unfolding import_wagers
  wagers-IsTextOf ledger files s rows batch written = record {
    sound = Step-IsSoundLedger env numbers spec s.sound (wagers_come ledger rows batch);
    wagers_text =
        ap (λ t. append_rows json t (wagers_done env numbers spec ledger rows batch).added)
          s.wagers_text
        ∙ append_rows-file json ledger.wagers
            (wagers_done env numbers spec ledger rows batch).added;
    settlements_text = s.settlements_text;
    wagers_written = IsWritten-wagers ledger rows batch s.sound s.wagers_written written;
    settlements_written = s.settlements_written;
  }

  pub settlements-IsTextOf :
      (ledger : Ledger N) (files : Files) (s : IsTextOf ledger files)
      (rows : List (Option (FiledRow N)))
      → All (λ row. IsWrittenIf (build_settlement env numbers spec row)) rows
      → IsTextOf
          (import_settlements env numbers spec ledger rows).0
          (settlements_filed env numbers spec json files
            (settlements_done env numbers spec ledger rows)).0
  unfolding import_settlements
  settlements-IsTextOf ledger files s rows written = record {
    sound = Step-IsSoundLedger env numbers spec s.sound (settlements_come ledger rows);
    wagers_text = s.wagers_text;
    settlements_text =
        ap (λ t. append_rows json t (settlements_done env numbers spec ledger rows).added)
          s.settlements_text
        ∙ append_rows-file json ledger.settlements
            (settlements_done env numbers spec ledger rows).added;
    wagers_written = s.wagers_written;
    settlements_written = IsWritten-settlements ledger rows s.sound s.settlements_written written;
  }
