-- ===== src/Gate/Imports.antt =====
-- The conditions on the importer's receipts (kalshi_router/automerge.py, `evaluate`).
use kalshi_bet_router.Base.{
  String, Bool, Option, none, some, List, [], ◌∷◌, map, not, ◌||◌, if◌then◌else◌, is_none, is_empty,
  length, any, option_str_eq, ◌==◌,
}
use kalshi_bet_router.Receipts.{
  Row, Receipt, row, row_list, normalise, needs_judgement, conflicting_field_names, option_in,
  is_truthy, idempotent_rerun_verdicts,
}
use kalshi_bet_router.Gate.{MergeFacts, Outcome, passes, refuses, waits}
use kalshi_bet_router.Gate.Checks.{holds}

-- `normalise(list(rows))`
unfoldable pub normalised : List Row → List Receipt
unfolding normalise
normalised rows = normalise (row_list (map row rows))

unfoldable pub refused_nothing : MergeFacts → Outcome
refused_nothing facts =
    let receipts = normalised facts.receipts in
    if is_empty receipts
    then waits
    else if any (λ receipt. not receipt.success) receipts || facts.partial_delivery
    then refuses
    else passes

unfoldable pub no_judgement : MergeFacts → Outcome
unfolding needs_judgement conflicting_field_names
no_judgement facts =
    let receipts = normalised facts.receipts in
    if is_empty receipts
    then waits
    else let judged = any needs_judgement receipts in
      let conflicting = any (λ receipt. not (is_empty receipt.conflicting_fields)) receipts in
      let missing_identity = any (λ receipt. not (is_truthy receipt.identity)) receipts in
      let names = not (is_empty (conflicting_field_names receipts)) in
      if judged || conflicting || missing_identity || names then refuses else passes

-- `{r.source_key: r.identity for r in receipts}.get(key)`: of several, the last one.
abbrev pub identity_at : List Receipt → Option String → Option (Option String)
identity_at [] key = none
identity_at (receipt ∷ rest) key = elim (identity_at rest key) [
  | some found ↦ some found
  | none ↦ if option_str_eq receipt.source_key key then some receipt.identity else none
]

abbrev pub found_identity : Option (Option String) → Option String
found_identity none = none
found_identity (some identity) = identity

unfoldable pub is_drifted : List Receipt → Receipt → Bool
is_drifted receipts again =
    not (option_str_eq (found_identity (identity_at receipts again.source_key)) again.identity)

unfoldable pub idempotent : MergeFacts → Outcome
unfolding is_drifted
idempotent facts =
    let receipts = normalised facts.receipts in
    let rerun = normalised facts.rerun_receipts in
    if is_none facts.rerun_changed_the_tree || is_empty rerun
    then waits
    else let changed = holds facts.rerun_changed_the_tree in
      let offenders =
        any (λ receipt. not (option_in receipt.verdict idempotent_rerun_verdicts)) rerun in
      let miscounted = not (length rerun == length receipts) in
      let drifted = any (is_drifted receipts) rerun in
      if changed || offenders || miscounted || drifted then refuses else passes
