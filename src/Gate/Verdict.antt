-- ===== src/Gate/Verdict.antt =====
-- `evaluate` (kalshi_router/automerge.py): every condition, its bucket, and the verdict.
use Prim.Native.Char.{Char}
use kalshi_bet_router.Base.{
  String, Bool, true, false, List, [], ◌∷◌, not, if◌then◌else◌, is_empty, Result, ok, ◌>>=◌,
}
use kalshi_bet_router.Gate.{
  router_branch_for, MergeFacts, Outcome, passes, refuses, waits, Condition, pull_request_exists,
  pull_request_is_open_and_not_a_draft, branch_originated_from_the_router_workflow,
  head_is_the_commit_this_run_verified, importer_refused_nothing,
  every_row_needed_no_human_judgement, the_import_is_idempotent, only_canonical_wager_files_changed,
  the_ledger_diff_is_append_only, every_added_row_carries_the_router_identity,
  continuous_integration_is_green, the_destination_branch_is_cleanly_mergeable, merge, wait, refuse,
  MergeVerdict,
}
use kalshi_bet_router.Gate.Checks.{
  pull_request, open_and_not_a_draft, provenance, verified_head, integration, mergeability,
}
use kalshi_bet_router.Gate.Imports.{refused_nothing, no_judgement, idempotent}
use kalshi_bet_router.Gate.Ledger.{canonical_files, append_only, router_identity}

abbrev pub Decided : Type 0
Decided = List (Condition × Outcome)

-- The conditions in the order of `evaluate`.
unfoldable pub decided : (Char → Bool) → String → MergeFacts → Decided
decided is_decimal branch facts =
    (pull_request_exists, pull_request facts)
    ∷ (pull_request_is_open_and_not_a_draft, open_and_not_a_draft facts)
    ∷ (branch_originated_from_the_router_workflow, provenance branch facts)
    ∷ (head_is_the_commit_this_run_verified, verified_head facts)
    ∷ (importer_refused_nothing, refused_nothing facts)
    ∷ (every_row_needed_no_human_judgement, no_judgement facts)
    ∷ (the_import_is_idempotent, idempotent facts)
    ∷ (only_canonical_wager_files_changed, canonical_files is_decimal facts)
    ∷ (the_ledger_diff_is_append_only, append_only facts)
    ∷ (every_added_row_carries_the_router_identity, router_identity facts)
    ∷ (continuous_integration_is_green, integration facts)
    ∷ (the_destination_branch_is_cleanly_mergeable, mergeability facts)
    ∷ []

-- The three lists that `ok`, `refuse` and `wait` append to.
abbrev pub with_outcome : (Outcome → Bool) → Decided → List Condition
with_outcome is_wanted [] = []
with_outcome is_wanted ((condition, outcome) ∷ rest) =
    let more = with_outcome is_wanted rest in if is_wanted outcome then condition ∷ more else more

abbrev pub is_passed : Outcome → Bool
is_passed passes = true
is_passed _ = false

abbrev pub is_failed : Outcome → Bool
is_failed refuses = true
is_failed _ = false

abbrev pub is_waiting : Outcome → Bool
is_waiting waits = true
is_waiting _ = false

unfoldable pub verdict_of : Decided → MergeVerdict
verdict_of outcomes =
    let failed = with_outcome is_failed outcomes in
    let waiting = with_outcome is_waiting outcomes in
    record {
      verdict =
          if not (is_empty failed) then refuse else if not (is_empty waiting) then wait else merge;
      passed = with_outcome is_passed outcomes;
      failed = failed;
      waiting_on = waiting;
    }

unfoldable pub evaluate : (Char → Bool) → MergeFacts → Result MergeVerdict
unfolding router_branch_for decided verdict_of
evaluate is_decimal facts =
    router_branch_for facts.sport facts.branch_kind
    >>= (λ branch. ok (verdict_of (decided is_decimal branch facts)))
