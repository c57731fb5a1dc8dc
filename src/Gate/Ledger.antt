-- ===== src/Gate/Ledger.antt =====
-- The conditions on what a pull request changes (kalshi_router/automerge.py, `evaluate`).
use Prim.Native.Char.{Char}
use kalshi_bet_router.Base.{
  String, Bool, Option, some, List, not, ◌&&◌, ◌||◌, if◌then◌else◌, is_some, is_empty, any, str_eq,
  option_str_eq,
}
use kalshi_bet_router.Receipts.{Receipt, text_member, is_truthy, ◌or_else◌}
use kalshi_bet_router.Gate.{LedgerRow, MergeFacts, Outcome, passes, refuses, waits, settlements}
use kalshi_bet_router.Gate.Paths.{is_mergeable_path}
use kalshi_bet_router.Gate.Imports.{normalised}

unfoldable pub canonical_files : (Char → Bool) → MergeFacts → Outcome
unfolding is_mergeable_path
canonical_files is_decimal facts =
    if is_empty facts.changed_files
    then waits
    else if any (λ path. not (is_mergeable_path is_decimal facts.sport path)) facts.changed_files
    then refuses
    else passes

unfoldable pub append_only : MergeFacts → Outcome
append_only facts = if not (is_empty facts.removed_ledger_rows) then refuses else passes

-- `ROUTER_IMPORT_BATCH_ID`
abbrev pub router_import_batch_id : String
router_import_batch_id = "kalshi-router-v1"

abbrev pub batch_of : LedgerRow → Option String
batch_of row = text_member row "importBatchId" or_else text_member row "import_batch_id"

abbrev pub identity_of : LedgerRow → Option String
identity_of row =
    text_member row "betId"
    or_else text_member row "wager_id"
    or_else text_member row "imported_wager_id"
    or_else text_member row "settlement_id"
    or_else text_member row "amendment_id"

abbrev pub key_of : LedgerRow → Option String
key_of row = text_member row "sourceBetKey" or_else text_member row "source_bet_key"

-- Whether a row carries the batch id of another writer. A settlement may have none.
unfoldable pub is_foreign : Bool → LedgerRow → Bool
is_foreign for_settlements row =
    if for_settlements
    then is_some (batch_of row) && not (option_str_eq (batch_of row) (some router_import_batch_id))
    else not (option_str_eq (batch_of row) (some router_import_batch_id))

-- `key in {r.source_key for r in receipts if r.source_key}`
abbrev pub is_receipted : List Receipt → Option String → Bool
is_receipted receipts key =
    any (λ receipt. is_truthy receipt.source_key && option_str_eq receipt.source_key key) receipts

unfoldable pub router_identity : MergeFacts → Outcome
unfolding is_foreign
router_identity facts =
    let receipts = normalised facts.receipts in
    if is_empty facts.added_ledger_rows
    then waits
    else let for_settlements = str_eq facts.branch_kind settlements in
      let foreign = any (is_foreign for_settlements) facts.added_ledger_rows in
      let unidentified =
        any (λ row. not (is_truthy (identity_of row)) || not (is_truthy (key_of row)))
          facts.added_ledger_rows in
      let unproven =
        if any (λ receipt. is_truthy receipt.source_key) receipts
        then any (λ row. not (is_receipted receipts (key_of row))) facts.added_ledger_rows
        else for_settlements in
      if foreign || unidentified || unproven then refuses else passes
