-- ===== src/Tests/Gates.antt =====
-- The gate on two proposals: one that lands, and one that a failing check holds back.
use Prim.Native.Char.{Char, code}
use kalshi_bet_router.Base.{
  contains, ◌⊎◌, String, Bool, true, false, some, [], ◌∷◌, ◌≡◌, refl, ◌&&◌, leb, All, is_some, ok,
}
use kalshi_bet_router.Destinations.{strip_prefix, starts_with, fullmatch}
use kalshi_bet_router.Destinations.Profiles.{profiles, profile_for, season_files}
use kalshi_bet_router.Receipts.{
  Row, from_row, rows_of, normalise, needs_judgement, conflicting_field_names,
}
use kalshi_bet_router.Gate.{
  settlements, router_branch_for, LedgerRow, MergeFacts, merge, MergeVerdict,
}
use kalshi_bet_router.Gate.Paths.{
  ledger_branch_for, ledger_branch_runs_ci, lets_through, is_mergeable_path, is_committable_path,
}
use kalshi_bet_router.Gate.Checks.{
  check_state, pull_request, open_and_not_a_draft, provenance, verified_head, integration,
  derived_from_checks, mergeability,
}
use kalshi_bet_router.Gate.Imports.{
  normalised, refused_nothing, no_judgement, is_drifted, idempotent,
}
use kalshi_bet_router.Gate.Ledger.{canonical_files, append_only, is_foreign, router_identity}
use kalshi_bet_router.Gate.Verdict.{decided, verdict_of, evaluate}
use kalshi_bet_router.Gate.Approved.{Approved, evaluate-Approved}
use kalshi_bet_router.Gate.Branches.{router_branches, takes_settlements, evaluate-branches}
use kalshi_bet_router.Gate.Contained.{is_mergeable_path-committable, evaluate-committable}

abbrev is_ascii_digit : Char → Bool
is_ascii_digit c = leb 48 (code c) && leb (code c) 57

abbrev receipt_row : String → Row
receipt_row verdict = record {
  texts =
      ("source_bet_key", some "kalshi:order:o1")
      ∷ ("wager_id", some "w1")
      ∷ ("status", some verdict)
      ∷ [];
  booleans = [];
  entries = [];
}

abbrev added : LedgerRow
added =
    ("import_batch_id", some "kalshi-router-v1")
    ∷ ("wager_id", some "w1")
    ∷ ("source_bet_key", some "kalshi:order:o1")
    ∷ []

abbrev proposal : MergeFacts
proposal = record {
  sport = "NFL";
  destination_repo = "chmoses98/nfl-edge-finder";
  pull_number = some 7;
  state = some "open";
  draft = some false;
  head_ref = some "kalshi-router/NFL";
  head_sha = some "abc";
  head_repo = some "chmoses98/nfl-edge-finder";
  base_ref = some "handicap-data";
  mergeable = some true;
  mergeable_state = some "clean";
  verified_sha = some "abc";
  changed_files = "data/imported_wagers/2026/week_02/routed-0123456789abcdef01234567.json" ∷ [];
  added_ledger_rows = added ∷ [];
  removed_ledger_rows = [];
  receipts = receipt_row "NEW" ∷ [];
  rerun_receipts = receipt_row "DUPLICATE_NOOP" ∷ [];
  rerun_changed_the_tree = some false;
  check_runs = [];
  partial_delivery = false;
  destination_validator_passed = some true;
  branch_kind = "wagers";
}

abbrev landed : MergeVerdict
unfolding decided verdict_of
landed = verdict_of (decided is_ascii_digit "kalshi-router/NFL" proposal)

proposal-lands : evaluate is_ascii_digit proposal ≡ ok landed
unfolding evaluate router_branch_for
proposal-lands = refl

landed-merges : landed.verdict ≡ merge
unfolding verdict_of decided pull_request open_and_not_a_draft provenance verified_head integration
    check_state derived_from_checks mergeability normalised refused_nothing no_judgement is_drifted
    idempotent canonical_files append_only is_foreign router_identity ledger_branch_for
    ledger_branch_runs_ci lets_through is_mergeable_path strip_prefix starts_with fullmatch profiles
    profile_for season_files from_row rows_of normalise needs_judgement conflicting_field_names
landed-merges = refl

evaluate-Approved_example : Approved is_ascii_digit proposal
evaluate-Approved_example =
    evaluate-Approved is_ascii_digit proposal landed proposal-lands landed-merges

evaluate-committable_example :
    (is_some (profile_for "NFL") ≡ true)
    × All (λ path. is_committable_path "NFL" path ≡ true) proposal.changed_files
evaluate-committable_example =
    evaluate-committable is_ascii_digit proposal landed proposal-lands landed-merges

lands_path : is_mergeable_path is_ascii_digit "MLB" "data/edgelab/bets/bets.jsonl" ≡ true
unfolding is_mergeable_path lets_through profiles profile_for
lands_path = refl

is_mergeable_path-committable_example :
    is_committable_path "MLB" "data/edgelab/bets/bets.jsonl" ≡ true
is_mergeable_path-committable_example =
    is_mergeable_path-committable is_ascii_digit "MLB" "data/edgelab/bets/bets.jsonl" lands_path

evaluate-branches_example :
    (branch : String) × (some "kalshi-router/NFL" ≡ some branch)
    × ((contains branch router_branches ≡ true)
        ⊎ (("wagers" ≡ settlements) × (takes_settlements (profile_for "NFL") ≡ false)))
evaluate-branches_example =
    evaluate-branches is_ascii_digit proposal landed proposal-lands landed-merges
