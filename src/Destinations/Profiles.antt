-- ===== src/Destinations/Profiles.antt =====
-- The table of destinations and its lookup (kalshi_router/destinations.py).
use kalshi_bet_router.Base.{
  ℕ, zero, suc, String, Bool, true, false, Option, none, some, List, [], ◌∷◌, ◌++◌, map, str_eq,
  if◌then◌else◌, concat, str, any,
}
use kalshi_bet_router.Destinations.{
  Sport, mlb, nfl, cfb, nhl, nba, soccer, tennis, value, Piece, literal, decimal_digits, hex_digits,
  DestinationProfile,
}

abbrev pub economics_v1 : String
economics_v1 = "router-settlement-economics.v1"

abbrev pub economics_v2 : String
economics_v2 = "router-settlement-economics.v2"

abbrev pub mlb_profile : DestinationProfile
mlb_profile = record {
  sport = mlb;
  repo = "chmoses98/edge-finder-api";
  ledger_branch = "main";
  code_branch = some "main";
  wager_importer =
      ("python" ∷ "{code}/scripts/edgelab/import_bet_batch.py" ∷ "--file" ∷ "{payload}"
        ∷ "--receipts-out" ∷ "{receipts}" ∷ []);
  settlement_importer = none;
  committable_prefixes = ("data/" ∷ []);
  mergeable_paths = ("data/edgelab/bets/bets.jsonl" ∷ []);
  ledger_branch_runs_ci = true;
  ledger_validator = none;
  row_identity_field = "sourceBetKey";
  requires_season = false;
  auto_merge = true;
  record_layout = "jsonl";
  settlement_economics = economics_v1;
  mergeable_patterns = [];
  records_combo_wagers = true;
  evidence_importer = none;
  evidence_ledger_path = none;
}

-- `range(first, first + n)`
abbrev pub range : ℕ → ℕ → List ℕ
range first zero = []
range first (suc n) = first ∷ range (suc first) n

-- `f"{folder}{year}.jsonl" for year in range(2024, 2036)`
unfoldable pub season_files : String → List String
unfolding str
season_files folder = map (λ year. concat (folder ∷ str year ∷ ".jsonl" ∷ [])) (range 2024 12)

abbrev pub cfb_profile : DestinationProfile
cfb_profile = record {
  sport = cfb;
  repo = "chmoses98/cfb-edge-finder";
  ledger_branch = "accounting-data";
  code_branch = some "main";
  wager_importer =
      ("python" ∷ "{code}/scripts/import_routed_wagers.py" ∷ "--payload" ∷ "{payload}"
        ∷ "--base-dir" ∷ "{work}" ∷ "--season" ∷ "{season}" ∷ "--receipts-out" ∷ "{receipts}" ∷ []);
  settlement_importer = some (
      "python" ∷ "{code}/scripts/import_routed_settlements.py" ∷ "--payload" ∷ "{payload}"
      ∷ "--base-dir" ∷ "{work}" ∷ "--season" ∷ "{season}" ∷ "--receipts-out" ∷ "{receipts}" ∷ []);
  committable_prefixes = ("wagers/" ∷ "settlements/" ∷ "settlement_amendments/" ∷ []);
  mergeable_paths =
      season_files "wagers/"
      ++ season_files "settlements/"
      ++ season_files "settlement_amendments/";
  ledger_branch_runs_ci = false;
  ledger_validator = some (
      "python" ∷ "{code}/scripts/validate_accounting_ledger.py" ∷ "--base-dir" ∷ "{work}"
      ∷ "--result-out" ∷ "{receipts}" ∷ []);
  row_identity_field = "source_bet_key";
  requires_season = true;
  auto_merge = true;
  record_layout = "jsonl";
  settlement_economics = economics_v2;
  mergeable_patterns = [];
  records_combo_wagers = true;
  evidence_importer = none;
  evidence_ledger_path = none;
}

-- `<folder>20\d{2}/week_\d{2}/<kind>-[0-9a-f]{24}\.json`
abbrev pub weekly : String → String → List Piece
weekly folder kind =
    (literal folder
      ∷ literal "20"
      ∷ decimal_digits 2
      ∷ literal "/week_"
      ∷ decimal_digits 2
      ∷ literal kind
      ∷ hex_digits 24
      ∷ literal ".json"
      ∷ [])

abbrev pub nfl_profile : DestinationProfile
nfl_profile = record {
  sport = nfl;
  repo = "chmoses98/nfl-edge-finder";
  ledger_branch = "handicap-data";
  code_branch = some "main";
  wager_importer =
      ("python" ∷ "{code}/scripts/handicap/import_routed_wagers.py" ∷ "--payload" ∷ "{payload}"
        ∷ "--handicap-root" ∷ "{work}" ∷ "--allow-schedule-download" ∷ "--receipts-out"
        ∷ "{receipts}" ∷ []);
  settlement_importer = some (
      "python" ∷ "{code}/scripts/handicap/import_routed_settlements.py" ∷ "--payload" ∷ "{payload}"
      ∷ "--handicap-root" ∷ "{work}" ∷ "--receipts-out" ∷ "{receipts}" ∷ []);
  committable_prefixes =
      ("data/imported_wagers/" ∷ "data/wager_settlements/" ∷ "data/wager_settlement_amendments/"
        ∷ []);
  mergeable_paths = [];
  ledger_branch_runs_ci = false;
  ledger_validator = some (
      "python" ∷ "{code}/scripts/handicap/validate_routed_ledger.py" ∷ "--handicap-root" ∷ "{work}"
      ∷ "--result-out" ∷ "{receipts}" ∷ []);
  row_identity_field = "source_bet_key";
  requires_season = false;
  auto_merge = true;
  record_layout = "json_per_file";
  settlement_economics = economics_v2;
  mergeable_patterns =
      (weekly "data/imported_wagers/" "/routed-"
        ∷ weekly "data/wager_settlements/" "/stl-"
        ∷ weekly "data/wager_settlement_amendments/" "/amd-"
        ∷ []);
  records_combo_wagers = true;
  evidence_importer = none;
  evidence_ledger_path = none;
}

-- `_shared_ledger_profile`; the entry of NHL has the same fields.
abbrev pub shared_ledger_profile : Sport → String → Bool → DestinationProfile
shared_ledger_profile s r merges = record {
  sport = s;
  repo = r;
  ledger_branch = "accounting-data";
  code_branch = some "main";
  wager_importer =
      ("python" ∷ "{code}/scripts/accounting/import_routed_wagers.py" ∷ "--payload" ∷ "{payload}"
        ∷ "--base-dir" ∷ "{work}" ∷ "--receipts-out" ∷ "{receipts}" ∷ []);
  settlement_importer = some (
      "python" ∷ "{code}/scripts/accounting/import_routed_settlements.py" ∷ "--payload"
      ∷ "{payload}" ∷ "--base-dir" ∷ "{work}" ∷ "--receipts-out" ∷ "{receipts}" ∷ []);
  committable_prefixes = ("data/accounting/" ∷ []);
  mergeable_paths = ("data/accounting/wagers.jsonl" ∷ "data/accounting/settlements.jsonl" ∷ []);
  ledger_branch_runs_ci = false;
  ledger_validator = some (
      "python" ∷ "{code}/scripts/accounting/validate_routed_ledger.py" ∷ "--base-dir" ∷ "{work}"
      ∷ "--result-out" ∷ "{receipts}" ∷ []);
  row_identity_field = "source_bet_key";
  requires_season = false;
  auto_merge = merges;
  record_layout = "jsonl";
  settlement_economics = economics_v2;
  mergeable_patterns = [];
  records_combo_wagers = true;
  evidence_importer = none;
  evidence_ledger_path = none;
}

abbrev pub nhl_profile : DestinationProfile
nhl_profile = shared_ledger_profile nhl "chmoses98/NHL-edge-finder" true

unfoldable pub profiles : List DestinationProfile
profiles =
    (mlb_profile
      ∷ cfb_profile
      ∷ nfl_profile
      ∷ nhl_profile
      ∷ shared_ledger_profile nba "chmoses98/nba-edge-finder" false
      ∷ shared_ledger_profile soccer "chmoses98/soccer-edge-finder" true
      ∷ shared_ledger_profile tennis "chmoses98/Tennis-Edge-Finder" false
      ∷ [])

abbrev pub find_profile : List DestinationProfile → String → Option DestinationProfile
find_profile [] sport_name = none
find_profile (profile ∷ rest) sport_name =
    if str_eq (value profile.sport) sport_name then some profile else find_profile rest sport_name

-- `profile_for`; `none` is the `UnknownDestinationError`, which every caller of it catches.
unfoldable pub profile_for : String → Option DestinationProfile
unfolding profiles
profile_for sport_name = find_profile profiles sport_name

unfoldable pub has_profile : String → Bool
unfolding profiles
has_profile sport_name = any (λ profile. str_eq (value profile.sport) sport_name) profiles
