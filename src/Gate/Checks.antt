-- ===== src/Gate/Checks.antt =====
-- The conditions on the pull request, its head, its checks and its mergeability
-- (kalshi_router/automerge.py, `evaluate`).
use kalshi_bet_router.Base.{
  String, Bool, true, false, Option, none, some, List, [], ◌∷◌, not, ◌&&◌, ◌||◌, if◌then◌else◌,
  is_none, is_empty, option_str_eq, concat,
}
use kalshi_bet_router.Receipts.{is_truthy, option_in}
use kalshi_bet_router.Gate.{CheckRun, MergeFacts, Outcome, passes, refuses, waits}
use kalshi_bet_router.Gate.Paths.{ledger_branch_for, ledger_branch_runs_ci}

abbrev pub passing_conclusions : List String
passing_conclusions = "success" ∷ "skipped" ∷ "neutral" ∷ []

abbrev pub transient_merge_states : List String
transient_merge_states = "unknown" ∷ "behind" ∷ "dirty" ∷ []

abbrev pub check_derived_merge_states : List String
check_derived_merge_states = "unstable" ∷ []

-- How an f-string prints a conclusion.
abbrev pub shown : Option String → String
shown none = "None"
shown (some s) = s

-- `_check_state`: the names of the pending and of the failed check runs.
unfoldable pub check_state : List CheckRun → List String × List String
check_state [] = ([], [])
check_state ((name, status, conclusion) ∷ rest) =
    let (pending, failed) = check_state rest in
    if not (option_str_eq status (some "completed"))
    then (name ∷ pending, failed)
    else if not (option_in conclusion passing_conclusions)
    then (pending, concat (name ∷ "=" ∷ shown conclusion ∷ []) ∷ failed)
    else (pending, failed)

unfoldable pub pull_request : MergeFacts → Outcome
pull_request facts = if is_none facts.pull_number then waits else passes

-- `bool(facts.draft)`
abbrev pub holds : Option Bool → Bool
holds none = false
holds (some b) = b

unfoldable pub open_and_not_a_draft : MergeFacts → Outcome
open_and_not_a_draft facts =
    if is_none facts.state
    then waits
    else if not (option_str_eq facts.state (some "open"))
    then waits
    else if holds facts.draft
    then refuses
    else passes

-- The branch that `router_branch_for` returned is the first argument.
unfoldable pub provenance : String → MergeFacts → Outcome
unfolding ledger_branch_for
provenance expected_branch facts =
    let wrong_head = not (option_str_eq facts.head_ref (some expected_branch)) in
    let wrong_repo =
      is_truthy facts.head_repo
      && not (option_str_eq facts.head_repo (some facts.destination_repo)) in
    let wrong_base = not (option_str_eq facts.base_ref (some (ledger_branch_for facts.sport))) in
    if wrong_head || wrong_repo || wrong_base then refuses else passes

unfoldable pub verified_head : MergeFacts → Outcome
verified_head facts =
    if not (is_truthy facts.head_sha) || not (is_truthy facts.verified_sha)
    then waits
    else if not (option_str_eq facts.head_sha facts.verified_sha)
    then waits
    else passes

-- The validator's verdict, where the ledger branch runs no checks.
abbrev pub validated : Option Bool → Outcome
validated none = waits
validated (some true) = passes
validated (some false) = refuses

unfoldable pub integration : MergeFacts → Outcome
unfolding ledger_branch_runs_ci check_state
integration facts =
    if not (ledger_branch_runs_ci facts.sport)
    then validated facts.destination_validator_passed
    else if is_empty facts.check_runs
    then waits
    else let (pending, broken) = check_state facts.check_runs in
      if not (is_empty broken) then refuses else if not (is_empty pending) then waits else passes

-- The check runs, where the merge state only restates them.
unfoldable pub derived_from_checks : List CheckRun → Outcome
unfolding check_state
derived_from_checks runs =
    let (pending, broken) = check_state runs in
    if not (is_empty broken)
    then refuses
    else if not (is_empty pending) || is_empty runs
    then waits
    else refuses

unfoldable pub mergeability : MergeFacts → Outcome
unfolding derived_from_checks
mergeability facts =
    if is_none facts.mergeable
      || is_none facts.mergeable_state
      || option_str_eq facts.mergeable_state (some "unknown")
    then waits
    else if not (holds facts.mergeable) || option_in facts.mergeable_state transient_merge_states
    then waits
    else if option_in facts.mergeable_state check_derived_merge_states
    then derived_from_checks facts.check_runs
    else if not (option_str_eq facts.mergeable_state (some "clean"))
    then refuses
    else passes
