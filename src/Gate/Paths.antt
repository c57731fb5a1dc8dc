-- ===== src/Gate/Paths.antt =====
-- What may land on a ledger branch without a person (kalshi_router/automerge.py).
use Prim.Native.Char.{Char}
use kalshi_bet_router.Base.{
  String, Bool, true, false, Option, none, some, List, [], ◌||◌, any, contains,
}
use kalshi_bet_router.Destinations.{DestinationProfile, fullmatch, starts_with}
use kalshi_bet_router.Destinations.Profiles.{profile_for}

-- `ledger_branch_for`
abbrev pub branch_of : Option DestinationProfile → String
branch_of none = "main"
branch_of (some profile) = profile.ledger_branch

unfoldable pub ledger_branch_for : String → String
ledger_branch_for sport = branch_of (profile_for sport)

-- `ledger_branch_runs_ci`
abbrev pub runs_ci : Option DestinationProfile → Bool
runs_ci none = true
runs_ci (some profile) = profile.ledger_branch_runs_ci

unfoldable pub ledger_branch_runs_ci : String → Bool
ledger_branch_runs_ci sport = runs_ci (profile_for sport)

-- `mergeable_paths_for`
abbrev pub paths_of : Option DestinationProfile → List String
paths_of none = []
paths_of (some profile) = profile.mergeable_paths

unfoldable pub mergeable_paths_for : String → List String
mergeable_paths_for sport = paths_of (profile_for sport)

-- `record_layout_for`
abbrev pub layout_of : Option DestinationProfile → String
layout_of none = "jsonl"
layout_of (some profile) = profile.record_layout

unfoldable pub record_layout_for : String → String
record_layout_for sport = layout_of (profile_for sport)

module _ (is_decimal : Char → Bool) where
  unfoldable pub lets_through : Option DestinationProfile → String → Bool
  unfolding fullmatch
  lets_through none path = false
  lets_through (some profile) path =
      contains path profile.mergeable_paths
      || any (λ pattern. fullmatch is_decimal pattern path) profile.mergeable_patterns

  -- `is_mergeable_path`
  unfoldable pub is_mergeable_path : String → String → Bool
  is_mergeable_path sport path = lets_through (profile_for sport) path

abbrev pub prefixes_of : Option DestinationProfile → List String
prefixes_of none = []
prefixes_of (some profile) = profile.committable_prefixes

-- A path that a commit may touch.
unfoldable pub is_committable_path : String → String → Bool
is_committable_path sport path =
    any (λ prefix. starts_with prefix path) (prefixes_of (profile_for sport))
