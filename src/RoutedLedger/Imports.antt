-- ===== src/RoutedLedger/Imports.antt =====
-- The two importers (contract/edge_finder_contract/routed_ledger.py). They share their loop, which is here
-- one definition over what a row is built to. They work on the rows that were read from a
-- file, and `Texts` reads and writes it; an entry of the payload is an object, or none where it is something else. The reasons of refusals are left out.
use kalshi_bet_router.Base.{
  ℕ, suc, String, Bool, true, false, not, ◌||◌, Option, none, some, List, [], ◌∷◌, ◌++◌,
  if◌then◌else◌, any, contains, filter, str_eq, ◌==◌,
}
use kalshi_bet_router.RoutedLedger.Values.{
  Numbers, Value, text, FiledRow, get, has, text_of, equal_values, conflicting_fields,
}
use kalshi_bet_router.RoutedLedger.Rules.{
  LedgerSpec, Environment, mint_wager_id, mint_settlement_id, provenance_fields, is_valid_wager,
  is_valid_settlement,
}
use kalshi_bet_router.RoutedLedger.Fields.{
  wager_input_fields, wager_required, wager_canonical_fields, settlement_input_fields,
  settlement_canonical_fields, settlement_optional, wager_kept_fields,
}

pub data RowStatus : Type 0 where
  -- `NEW`, `DUPLICATE_NOOP`, `CONFLICT`, `REFUSED`
  new_row duplicate_noop conflict refused : RowStatus

pub record RowReceipt : Type 0 where
  pub index : ℕ
  pub source_bet_key : Option String
  pub ident : Option String
  pub status : RowStatus
  pub success : Bool
  pub conflicting : List String

-- `status in (NEW, DUPLICATE_NOOP)`
abbrev is_success : RowStatus → Bool
is_success new_row = true
is_success duplicate_noop = true
is_success _ = false

abbrev receipt : ℕ → Option String → Option String → RowStatus → List String → RowReceipt
receipt index key ident status fields = record {
  index = index;
  source_bet_key = key;
  ident = ident;
  status = status;
  success = is_success status;
  conflicting = fields;
}

pub record ImportResult : Type 0 where
  pub rows : List RowReceipt
  pub written : ℕ
  pub duplicate : ℕ
  pub refused_rows : ℕ

abbrev pub nothing_imported : ImportResult
nothing_imported = record { rows = []; written = 0; duplicate = 0; refused_rows = 0 }

-- The property `conflicted`.
abbrev pub conflicted : ImportResult → Bool
conflicted result = not (result.refused_rows == 0)

module _ {N : Type 0} where
  -- `{k: row[k] for k in names if k in row}`
  unfoldable pub picked : List String → FiledRow N → FiledRow N
  unfolding get has
  picked [] row = []
  picked (name ∷ names) row =
      let rest = picked names row in if has row name then (name, get row name) ∷ rest else rest

  -- `{k: row.get(k) for k in names}`
  unfoldable pub projected_row : List String → FiledRow N → FiledRow N
  unfolding get
  projected_row [] row = []
  projected_row (name ∷ names) row = (name, get row name) ∷ projected_row names row

  abbrev pub unknown_fields : List String → FiledRow N → Bool
  unknown_fields names row = any (λ m. not (contains m.0 names)) row

  abbrev missing_fields : List String → FiledRow N → Bool
  unfolding has
  missing_fields names row = any (λ name. not (has row name)) names

  -- The only one of the two price fields that the row has.
  abbrev price_field : FiledRow N → Option String
  unfolding has
  price_field row =
      if has row "execution_price"
      then if has row "actual_price" then none else some "execution_price"
      else if has row "actual_price"
      then some "actual_price"
      else none

  -- The later of two rows with one key, else the one that is here.
  abbrev pub or_here : Option (FiledRow N) → Bool → FiledRow N → Option (FiledRow N)
  or_here (some later) here row = some later
  or_here none here row = if here then some row else none

  -- `{row.get("source_bet_key"): row …}.get(key)` for a text: of rows with one key, the last.
  unfoldable pub prior_of : String → List (FiledRow N) → Option (FiledRow N)
  unfolding get
  prior_of key [] = none
  prior_of key (row ∷ rows) =
      or_here (prior_of key rows) (str_eq (text_of (get row "source_bet_key")) key) row

  -- `key if isinstance(key, str) else None`, for the key of an entry.
  abbrev text_value : Value N → Option String
  text_value (text s) = some s
  text_value _ = none

  abbrev pub entry_key : Option (FiledRow N) → Option String
  unfolding get
  entry_key none = none
  entry_key (some row) = text_value (get row "source_bet_key")

-- The loop: what is on file, what is new, and the result so far.
pub record Progress (N : Type 0) : Type 0 where
  pub on_file : List (FiledRow N)
  pub added : List (FiledRow N)
  pub result : ImportResult

pub record Ledger (N : Type 0) : Type 0 where
  pub wagers : List (FiledRow N)
  pub settlements : List (FiledRow N)

abbrev pub if_valid : {N : Type 0} → (FiledRow N → Bool) → FiledRow N → Option (FiledRow N)
if_valid is_valid rec = if is_valid rec then some rec else none

abbrev pub started : {N : Type 0} → List (FiledRow N) → Progress N
started rows = record { on_file = rows; added = []; result = nothing_imported }

-- A record whose key is on file, by the fields in which it differs from the row there.
unfoldable pub judge :
    {N : Type 0} → ℕ → Option String → Option String → List String → Progress N → Progress N
judge i key id [] progress = record progress {
  result = record progress.result {
    duplicate = suc progress.result.duplicate;
    rows = progress.result.rows ++ (receipt i key id duplicate_noop [] ∷ []);
  };
}
judge i key id (field ∷ fields) progress = record progress {
  result = record progress.result {
    refused_rows = suc progress.result.refused_rows;
    rows = progress.result.rows ++ (receipt i key id conflict (field ∷ fields) ∷ []);
  };
}

module _ {N : Type 0} (numbers : Numbers N) (id_field : String) (canonical : List String) where
  -- A record that was built, against the row on file under its key.
  unfoldable pub file_record :
      ℕ → Option String → FiledRow N → Option (FiledRow N) → Progress N → Progress N
  unfolding get conflicting_fields judge
  file_record i key rec none progress = record {
    on_file = progress.on_file ++ (rec ∷ []);
    added = progress.added ++ (rec ∷ []);
    result = record progress.result {
      written = suc progress.result.written;
      rows =
          progress.result.rows
          ++ (receipt i key (some (text_of (get rec id_field))) new_row [] ∷ []);
    };
  }
  file_record i key rec (some prior) progress =
      judge i key (some (text_of (get rec id_field)))
        (conflicting_fields numbers prior rec canonical) progress

  -- One round, with what the entry was built to.
  unfoldable pub import_built : ℕ → Option String → Option (FiledRow N) → Progress N → Progress N
  unfolding file_record prior_of get
  import_built i key none progress = record progress {
    result = record progress.result {
      refused_rows = suc progress.result.refused_rows;
      rows = progress.result.rows ++ (receipt i key none refused [] ∷ []);
    };
  }
  import_built i key (some rec) progress =
      file_record i key rec (prior_of (text_of (get rec "source_bet_key")) progress.on_file)
        progress

  unfoldable pub import_rows :
      (Option (FiledRow N) → Option (FiledRow N))
      → ℕ
      → List (Option (FiledRow N))
      → Progress N
      → Progress N
  unfolding import_built entry_key
  import_rows build i [] progress = progress
  import_rows build i (row ∷ rows) progress =
      import_rows build (suc i) rows (import_built i (entry_key row) (build row) progress)

module _ (env : Environment) {N : Type 0} (numbers : Numbers N) (spec : LedgerSpec) where
  -- The record that is checked and then filed.
  unfoldable pub wager_record : FiledRow N → String → String → FiledRow N
  unfolding picked get
  wager_record row price id =
      picked wager_kept_fields row
      ++ (("execution_price", get row price)
          ∷ ("wager_id", text id)
          ∷ ("schema_version", text spec.wager_schema)
          ∷ [])

  -- From the price and the id of a wager on.
  unfoldable pub priced_wager : FiledRow N → Option String → Option String → Option (FiledRow N)
  unfolding wager_record is_valid_wager
  priced_wager row (some price) (some id) =
      if_valid (is_valid_wager env numbers spec) (wager_record row price id)
  priced_wager row _ _ = none

  -- `build_wager`, none where the row is refused.
  unfoldable pub build_wager : Option (FiledRow N) → Option (FiledRow N)
  unfolding priced_wager provenance_fields missing_fields price_field mint_wager_id get
  build_wager none = none
  build_wager (some row) =
      if provenance_fields row
        || unknown_fields wager_input_fields row
        || missing_fields wager_required row
      then none
      else priced_wager row (price_field row) (mint_wager_id env spec (get row "source_bet_key"))

  unfoldable pub settlement_record : FiledRow N → String → FiledRow N
  unfolding projected_row
  settlement_record row id =
      projected_row settlement_input_fields row
      ++ (("settlement_id", text id) ∷ ("schema_version", text spec.settlement_schema) ∷ [])

  unfoldable pub settled_row : FiledRow N → Option String → Option (FiledRow N)
  unfolding settlement_record is_valid_settlement
  settled_row row none = none
  settled_row row (some id) =
      if_valid (is_valid_settlement env numbers spec) (settlement_record row id)

  -- `build_settlement`
  unfoldable pub build_settlement : Option (FiledRow N) → Option (FiledRow N)
  unfolding settled_row provenance_fields missing_fields mint_settlement_id get
  build_settlement none = none
  build_settlement (some row) =
      if provenance_fields row
        || unknown_fields settlement_input_fields row
        || missing_fields
            (filter (λ name. not (contains name settlement_optional)) settlement_input_fields) row
      then none
      else settled_row row (mint_settlement_id env spec (get row "source_bet_key"))

  -- `row.get("import_batch_id") != import_batch_id`, asked of an object where a batch is given.
  abbrev pub disagrees : Option String → Option (FiledRow N) → Bool
  unfolding get equal_values
  disagrees (some batch) (some row) =
      not (equal_values numbers (get row "import_batch_id") (text batch))
  disagrees _ _ = false

  unfoldable pub wager_for : Option String → Option (FiledRow N) → Option (FiledRow N)
  unfolding build_wager disagrees
  wager_for batch row = if disagrees batch row then none else build_wager row

  unfoldable pub import_wagers :
      Ledger N → List (Option (FiledRow N)) → Option String → Ledger N × ImportResult
  unfolding import_rows wager_for
  import_wagers ledger rows batch =
      let done =
        import_rows numbers "wager_id" wager_canonical_fields (wager_for batch) 0 rows
          (started ledger.wagers) in
      (record ledger { wagers = ledger.wagers ++ done.added }, done.result)

  -- Against the wager that is settled.
  unfoldable pub with_parent : FiledRow N → Option (FiledRow N) → Option (FiledRow N)
  unfolding get equal_values
  with_parent rec none = none
  with_parent rec (some wager) =
      if not (equal_values numbers (get wager "market_ticker") (get rec "market_ticker"))
        || not (equal_values numbers (get wager "side") (get rec "side"))
      then none
      else some rec

  unfoldable pub parented : List (FiledRow N) → Option (FiledRow N) → Option (FiledRow N)
  unfolding with_parent prior_of get
  parented wagers none = none
  parented wagers (some rec) =
      with_parent rec (prior_of (text_of (get rec "source_bet_key")) wagers)

  unfoldable pub settlement_for : List (FiledRow N) → Option (FiledRow N) → Option (FiledRow N)
  unfolding build_settlement parented
  settlement_for wagers row = parented wagers (build_settlement row)

  unfoldable pub import_settlements :
      Ledger N → List (Option (FiledRow N)) → Ledger N × ImportResult
  unfolding import_rows settlement_for
  import_settlements ledger rows =
      let done =
        import_rows numbers "settlement_id" settlement_canonical_fields
          (settlement_for ledger.wagers) 0 rows (started ledger.settlements) in
      (record ledger { settlements = ledger.settlements ++ done.added }, done.result)
