-- ===== src/Gate.antt =====
-- The auto-merge gate (kalshi_router/automerge.py): its facts, its verdict and its branches.
-- `Paths` says what may land, `Checks`, `Imports` and `Ledger` are the twelve conditions, `Verdict`
-- composes them. The reasons of a verdict are texts for a log, and are left out.
pub mod Paths
pub mod Checks
pub mod Imports
pub mod Ledger
pub mod Verdict
pub mod Decides
pub mod Passed
pub mod PassedChecks
pub mod PassedRows
pub mod Approved
pub mod Contained
pub mod Branches
use kalshi_bet_router.Base.{
  ℕ, String, Bool, true, false, Option, none, some, List, [], ◌∷◌, ◌++◌, if◌then◌else◌, concat,
  contains, str_eq, Result, ok, err, value_error, not, ◌&&◌, is_some, map,
}
use kalshi_bet_router.Destinations.{DestinationProfile, value}
use kalshi_bet_router.Destinations.Profiles.{profiles, profile_for}
use kalshi_bet_router.Receipts.{Row}

abbrev pub wagers : String
wagers = "wagers"

abbrev pub settlements : String
settlements = "settlements"

-- `KINDS`
abbrev pub kinds : List String
kinds = wagers ∷ settlements ∷ []

-- `router_branch_for`
unfoldable pub router_branch_for : String → String → Result String
router_branch_for sport kind =
    if not (contains kind kinds)
    then err value_error
    else ok (
        concat
          ((if str_eq kind wagers then "kalshi-router/" else "kalshi-router/settle-") ∷ sport ∷ []))

-- A check run on the head commit: its name, its status and its conclusion.
abbrev pub CheckRun : Type 0
CheckRun = String × Option String × Option String

-- The members of a ledger row that hold texts or null.
abbrev pub LedgerRow : Type 0
LedgerRow = List (String × Option String)

pub record MergeFacts : Type 0 where
  pub sport : String
  pub destination_repo : String
  pub pull_number : Option ℕ
  pub state : Option String
  pub draft : Option Bool
  pub head_ref : Option String
  pub head_sha : Option String
  pub head_repo : Option String
  pub base_ref : Option String
  pub mergeable : Option Bool
  pub mergeable_state : Option String
  pub verified_sha : Option String
  pub changed_files : List String
  pub added_ledger_rows : List LedgerRow
  pub removed_ledger_rows : List String
  pub receipts : List Row
  pub rerun_receipts : List Row
  pub rerun_changed_the_tree : Option Bool
  pub check_runs : List CheckRun
  pub partial_delivery : Bool
  pub destination_validator_passed : Option Bool
  pub branch_kind : String

-- Where a condition ends up: `ok`, `refuse` or `wait`.
pub data Outcome : Type 0 where
  passes refuses waits : Outcome

-- `CONDITIONS`
pub data Condition : Type 0 where
  pull_request_exists pull_request_is_open_and_not_a_draft : Condition
  branch_originated_from_the_router_workflow head_is_the_commit_this_run_verified : Condition
  importer_refused_nothing every_row_needed_no_human_judgement : Condition
  the_import_is_idempotent only_canonical_wager_files_changed : Condition
  the_ledger_diff_is_append_only every_added_row_carries_the_router_identity : Condition
  continuous_integration_is_green the_destination_branch_is_cleanly_mergeable : Condition

pub data Decision : Type 0 where
  merge wait refuse : Decision

pub record MergeVerdict : Type 0 where
  pub verdict : Decision
  pub passed : List Condition
  pub failed : List Condition
  pub waiting_on : List Condition

abbrev pub is_merge : Decision → Bool
is_merge merge = true
is_merge _ = false

-- The property `may_merge`.
abbrev pub may_merge : MergeVerdict → Bool
may_merge v = is_merge v.verdict
