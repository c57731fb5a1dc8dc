-- ===== src/Classify/Market.antt =====
-- The classification of a market (kalshi_router/classify.py, `classify_market`).
use kalshi_bet_router.Base.{
  ℕ, String, Bool, true, false, not, ◌&&◌, ◌||◌, Option, none, some, List, [], ◌∷◌, ◌++◌,
  if◌then◌else◌, leb, is_none, is_some, filter,
}
use kalshi_bet_router.Destinations.{Sport, unresolved}
use kalshi_bet_router.Classify.{
  EvidenceLevel, event_competition, sport_taxonomy, milestone, series_metadata, series_registry,
  combo_legs, UnresolvedReason, metadata_lookup_failed, no_metadata, malformed_event_metadata,
  competition_absent, evidence_conflict, insufficient, Signal, Verdict, null, word, thing, Field,
  scalar, items, MarketContext, Classification, get_field, same_sport,
}
use kalshi_bet_router.Classify.Words.{Letters, is_empty_string}
use kalshi_bet_router.Classify.Verdicts.{
  SportTaxonomy, MilestoneIndex, competition_verdict, competition_evidence, milestone_verdict,
  milestone_evidence, registry_verdict, registry_evidence, uses_unverified,
}
use kalshi_bet_router.Classify.Context.{
  metadata_schema_error, competition, competition_scope, derive_series_ticker,
}
use kalshi_bet_router.Classify.Series.{series_metadata_verdict, series_metadata_evidence}

-- What the verdicts of the levels come to.
pub record SportDecision : Type 0 where
  pub sport : Sport
  pub resolved_by : Option EvidenceLevel
  pub unresolved_reason : Option UnresolvedReason
  pub lower_level_conflict : Bool
  pub terminal_rescuable_by : Option EvidenceLevel

abbrev pub undecided : UnresolvedReason → Option EvidenceLevel → SportDecision
undecided reason rescuable = record {
  sport = unresolved;
  resolved_by = none;
  unresolved_reason = some reason;
  lower_level_conflict = false;
  terminal_rescuable_by = rescuable;
}

-- `[v for v in (...) if v is not None]`
abbrev pub given : List (Option Verdict) → List Verdict
given [] = []
given (none ∷ rest) = given rest
given (some v ∷ rest) = v ∷ given rest

abbrev pub stated_sport : Verdict → Sport
stated_sport v = elim v.sport [ none ↦ unresolved | some sport ↦ sport ]

-- `LEVEL_ORDER.index(level)`, and the levels of `COMPETITION_LEVELS`.
abbrev pub rank : EvidenceLevel → ℕ
rank event_competition = 0
rank sport_taxonomy = 1
rank milestone = 2
rank series_metadata = 3
rank series_registry = 4
rank combo_legs = 5

abbrev pub is_competition_level : EvidenceLevel → Bool
is_competition_level event_competition = true
is_competition_level sport_taxonomy = true
is_competition_level milestone = true
is_competition_level _ = false

abbrev pub is_registry_level : EvidenceLevel → Bool
is_registry_level series_registry = true
is_registry_level _ = false

-- `decisive.sort(key=lambda v: LEVEL_ORDER.index(v.level))`
abbrev pub place_by_level : Verdict → List Verdict → List Verdict
place_by_level v [] = v ∷ []
place_by_level v (w ∷ rest) =
    if leb (rank v.level) (rank w.level) then v ∷ w ∷ rest else w ∷ place_by_level v rest

abbrev pub by_level : List Verdict → List Verdict
by_level [] = []
by_level (v ∷ rest) = place_by_level v (by_level rest)

abbrev pub with_conflict : Option Bool → Option Bool
with_conflict none = none
with_conflict (some conflict) = some true

-- Whether a weaker level was overruled; `none` where the metadata of the exchange disagrees.
abbrev pub overruled : Verdict → List Verdict → Option Bool
overruled winner [] = some false
overruled winner (v ∷ rest) =
    let others = overruled winner rest in
    if same_sport (stated_sport v) (stated_sport winner)
    then others
    else if is_registry_level v.level
    then with_conflict others
    else if is_competition_level winner.level || is_competition_level v.level
    then none
    else with_conflict others

abbrev pub won_by : Verdict → Option Bool → SportDecision
won_by winner none = undecided evidence_conflict none
won_by winner (some conflict) = record {
  sport = stated_sport winner;
  resolved_by = some winner.level;
  unresolved_reason = none;
  lower_level_conflict = conflict;
  terminal_rescuable_by = none;
}

-- The first reason of the verdicts, or the one that says what is missing.
abbrev first_reason : UnresolvedReason → List Verdict → UnresolvedReason
first_reason missing [] = missing
first_reason missing (v ∷ rest) = elim v.unresolved_reason [
  | none ↦ first_reason missing rest
  | some reason ↦ reason
]

abbrev pub best_of : UnresolvedReason → List Verdict → List Verdict → SportDecision
best_of missing verdicts [] = undecided (first_reason missing verdicts) none
best_of missing verdicts (winner ∷ rest) = won_by winner (overruled winner rest)

abbrev pub is_decisive : Verdict → Bool
is_decisive v = is_some v.sport

abbrev weigh_verdicts : UnresolvedReason → List Verdict → SportDecision
weigh_verdicts missing verdicts = best_of missing verdicts (by_level (filter is_decisive verdicts))

-- The level that would have decided.
abbrev rescuable_by : List Verdict → Option EvidenceLevel
rescuable_by [] = none
rescuable_by (v ∷ rest) = if is_decisive v then some v.level else rescuable_by rest

-- The refusal of a verdict of the levels L1 to L3, which is final.
abbrev terminal : Option Verdict → Option UnresolvedReason
terminal none = none
terminal (some v) = v.unresolved_reason

abbrev unless_terminal :
    Option UnresolvedReason → Option EvidenceLevel → SportDecision → SportDecision
unless_terminal none rescuable otherwise = otherwise
unless_terminal (some reason) rescuable otherwise = undecided reason rescuable

unfoldable pub decide :
    UnresolvedReason
    → Option Verdict
    → Option Verdict
    → Option Verdict
    → Option Verdict
    → SportDecision
decide missing first second third last =
    let rescuable = rescuable_by (given (third ∷ last ∷ [])) in
    unless_terminal (terminal first) rescuable (
      unless_terminal (terminal second) rescuable
        (weigh_verdicts missing (given (first ∷ second ∷ third ∷ last ∷ []))))

abbrev is_true : Field → Bool
is_true (scalar null) = false
is_true (scalar (word s)) = not (is_empty_string s)
is_true (scalar (thing truth)) = truth
is_true (items []) = false
is_true (items (i ∷ rest)) = true

abbrev text_in : Field → Option String
text_in (scalar (word s)) = some s
text_in _ = none

abbrev pub event_ticker_of : MarketContext → Option String
event_ticker_of context =
    let first = get_field context.event "event_ticker" in
    text_in (if is_true first then first else get_field context.market "event_ticker")

abbrev pub is_given_text : Option String → Bool
is_given_text none = false
is_given_text (some s) = not (is_empty_string s)

module _ (context : MarketContext) where
  abbrev pub missing_reason : UnresolvedReason
  missing_reason =
      if is_some context.event_metadata && is_none (competition context)
      then competition_absent
      else insufficient

  -- No document of the market is there.
  abbrev pub is_unresolved_document : Bool
  is_unresolved_document =
      is_none context.market
      && is_none context.event
      && is_none context.series
      && is_none context.event_metadata

module _ (letters : Letters) (taxonomy : Option SportTaxonomy) (index : Option MilestoneIndex)
    (context : MarketContext) where
  -- The verdicts that are asked for: a milestone only where the event names no competition.
  unfoldable pub first_verdict : Option Verdict
  first_verdict = competition_verdict letters context taxonomy

  unfoldable pub second_verdict : Option Verdict
  unfolding first_verdict
  second_verdict =
      if is_none first_verdict
      then milestone_verdict letters index (event_ticker_of context)
      else none

  unfoldable pub third_verdict : Option Verdict
  third_verdict = series_metadata_verdict letters context

  unfoldable pub last_verdict : Option Verdict
  last_verdict = registry_verdict letters (derive_series_ticker context).0

  unfoldable pub evidence_of : List Signal
  unfolding first_verdict
  evidence_of =
      competition_evidence letters context taxonomy
      ++ (if is_none first_verdict
          then milestone_evidence letters index (event_ticker_of context)
          else [])
      ++ series_metadata_evidence letters context
      ++ registry_evidence letters (derive_series_ticker context).0 (derive_series_ticker context).1

  -- `build(...)`
  abbrev build : SportDecision → List Signal → Option String → Bool → Classification
  build decision evidence series_ticker unverified = record {
    sport = decision.sport;
    evidence = evidence;
    event_ticker = event_ticker_of context;
    series_ticker = series_ticker;
    competition = competition context;
    competition_scope = competition_scope context;
    resolved_by = decision.resolved_by;
    unresolved_reason = decision.unresolved_reason;
    used_unverified_series_ticker = unverified;
    terminal_rescuable_by = decision.terminal_rescuable_by;
    lower_level_conflict = decision.lower_level_conflict;
  }

  abbrev build_unread : UnresolvedReason → Classification
  build_unread reason = build (undecided reason none) [] none false

  unfoldable pub classify_market : Classification
  unfolding first_verdict second_verdict third_verdict last_verdict decide evidence_of
  classify_market =
      if is_given_text context.lookup_error
      then build_unread metadata_lookup_failed
      else if metadata_schema_error context
      then build_unread malformed_event_metadata
      else if is_unresolved_document context
      then build_unread no_metadata
      else build
          (decide (missing_reason context) first_verdict second_verdict third_verdict last_verdict)
          evidence_of (derive_series_ticker context).0
          (uses_unverified letters (derive_series_ticker context).0)
