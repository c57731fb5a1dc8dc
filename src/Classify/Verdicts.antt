-- ===== src/Classify/Verdicts.antt =====
-- The verdicts of the levels L1 to L3 and L5 (kalshi_router/classify.py), and what they ask of the catalogue
-- (kalshi_router/taxonomy.py) and of the milestones (kalshi_router/milestones.py).
use kalshi_bet_router.Base.{
  ℕ, ◌+◌, String, Bool, false, not, ◌&&◌, ◌||◌, Option, none, some, List, [], ◌∷◌, ◌++◌,
  if◌then◌else◌, ◌==◌, all, contains, concat,
}
use kalshi_bet_router.Destinations.{Sport}
use kalshi_bet_router.Classify.{
  EvidenceLevel, event_competition, sport_taxonomy, milestone, series_registry, UnresolvedReason,
  competition_unknown, competition_ambiguous, milestone_conflict, authoritative, supporting, Signal,
  Verdict, MarketContext, holds_sport,
}
use kalshi_bet_router.Classify.Words.{Letters, normalize, strip, is_empty_string}
use kalshi_bet_router.Classify.Vocabulary.{
  listed, possible_sports, sport_from_competition, sport_from_taxonomy_sport,
  closed_vocabulary_excludes,
}
use kalshi_bet_router.Classify.Registry.{lookup_series_ticker}
use kalshi_bet_router.Classify.Context.{competition, competition_scope}

-- `SportTaxonomy`
pub record SportTaxonomy : Type 0 where
  pub competition_to_sport : List (String × String)
  pub ambiguous_claimants : List (String × List String)
  pub ambiguous_competitions : List String

-- `MilestoneIndex`
pub record MilestoneIndex : Type 0 where
  pub event_to_competition : List (String × String)
  pub conflicted_events : List String

abbrev signal_at : String → EvidenceLevel → String → Signal
signal_at source level token = record {
  source = source;
  strength = authoritative;
  matched_token = token;
  sport = none;
  ambiguous_family = none;
  out_of_scope_kind = none;
  level = some level;
}

abbrev pub decides : EvidenceLevel → Sport → Verdict
decides level sport = record { level = level; sport = some sport; unresolved_reason = none }

abbrev pub refuses : EvidenceLevel → UnresolvedReason → Verdict
refuses level reason = record { level = level; sport = none; unresolved_reason = some reason }

module _ (letters : Letters) where
  abbrev is_ambiguous_competition : SportTaxonomy → String → Bool
  is_ambiguous_competition taxonomy name =
      contains (normalize letters name) taxonomy.ambiguous_competitions

  abbrev sport_for_competition : SportTaxonomy → String → Option String
  sport_for_competition taxonomy name =
      let key = normalize letters name in
      if contains key taxonomy.ambiguous_competitions
      then none
      else listed taxonomy.competition_to_sport key

  -- A claimant is a rival of the direct answer (`none`), is no matter, or affirms it.
  unfoldable pub claim : String → Sport → Option (List Sport) → Option ℕ
  claim name direct none = none
  claim name direct (some []) = some 0
  claim name direct (some (m ∷ members)) =
      if holds_sport direct (m ∷ members)
      then some 1
      else if all (closed_vocabulary_excludes letters name) (m ∷ members)
      then some 0
      else none

  abbrev add_claim : Option ℕ → Option ℕ → Option ℕ
  add_claim (some a) (some b) = some (a + b)
  add_claim _ _ = none

  -- The claimants that affirm the direct answer, if none is a rival.
  unfoldable pub affirming : String → Sport → List String → Option ℕ
  unfolding claim
  affirming name direct [] = some 0
  affirming name direct (claimant ∷ rest) =
      add_claim (claim name direct (possible_sports letters claimant)) (affirming name direct rest)

  abbrev claimants_of : SportTaxonomy → String → List String
  claimants_of taxonomy name = elim (listed taxonomy.ambiguous_claimants (normalize letters name)) [
    | none ↦ []
    | some claimants ↦ claimants
  ]

  -- `_taxonomy_affirms_the_direct_answer(taxonomy, competition, direct)`
  unfoldable pub taxonomy_affirms_the_direct_answer : SportTaxonomy → String → Option Sport → Bool
  unfolding affirming
  taxonomy_affirms_the_direct_answer taxonomy name none = false
  taxonomy_affirms_the_direct_answer taxonomy name (some direct) =
      elim (affirming name direct (claimants_of taxonomy name)) [
        | none ↦ false
        | some count ↦ count == 1
      ]

  abbrev pub catalogue_sport : Option SportTaxonomy → String → Option String
  catalogue_sport none name = none
  catalogue_sport (some taxonomy) name = elim (sport_for_competition taxonomy name) [
    | none ↦ none
    | some sport_name ↦ if is_empty_string sport_name then none else some sport_name
  ]

  -- The catalogue claims the competition for several sports, and does not affirm the direct answer.
  unfoldable pub is_contested : Option SportTaxonomy → String → Bool
  unfolding taxonomy_affirms_the_direct_answer
  is_contested none name = false
  is_contested (some taxonomy) name =
      is_ambiguous_competition taxonomy name
      && not
          (taxonomy_affirms_the_direct_answer taxonomy name (sport_from_competition letters name))

  abbrev pub catalogue_verdict : Option String → Verdict
  catalogue_verdict none = refuses event_competition competition_unknown
  catalogue_verdict (some sport_name) = elim (sport_from_taxonomy_sport letters sport_name) [
    | some sport ↦ decides sport_taxonomy sport
    | none ↦ refuses sport_taxonomy competition_unknown
  ]

  abbrev pub named_verdict : Option SportTaxonomy → String → Option Sport → Verdict
  named_verdict taxonomy name none = catalogue_verdict (catalogue_sport taxonomy name)
  named_verdict taxonomy name (some direct) = decides event_competition direct

  abbrev pub verdict_for : Option SportTaxonomy → String → Verdict
  verdict_for taxonomy name =
      if is_contested taxonomy name
      then refuses sport_taxonomy competition_ambiguous
      else named_verdict taxonomy name (sport_from_competition letters name)

  -- `_competition_verdict(context, taxonomy, evidence)`
  unfoldable pub competition_verdict : MarketContext → Option SportTaxonomy → Option Verdict
  unfolding is_contested competition
  competition_verdict context taxonomy = elim (competition context) [
    | none ↦ none
    | some name ↦ some (verdict_for taxonomy name)
  ]

  abbrev catalogue_evidence : Option SportTaxonomy → String → List Signal
  catalogue_evidence taxonomy name = elim (catalogue_sport taxonomy name) [
    | none ↦ []
    | some sport_name ↦ signal_at "taxonomy.sport" sport_taxonomy sport_name ∷ []
  ]

  -- The evidence it adds.
  unfoldable pub competition_evidence : MarketContext → Option SportTaxonomy → List Signal
  unfolding is_contested competition competition_scope
  competition_evidence context taxonomy = elim (competition context) [
    | none ↦ []
    | some name ↦
        signal_at "event_metadata.competition" event_competition name
        ∷ (elim (competition_scope context) [
          | none ↦ []
          | some scope ↦
              record {
                source = "event_metadata.competition_scope";
                strength = supporting;
                matched_token = scope;
                sport = none;
                ambiguous_family = none;
                out_of_scope_kind = none;
                level = some event_competition;
              }
              ∷ []
        ]
            ++ (if is_contested taxonomy name
                then []
                else elim (sport_from_competition letters name) [
                  | some direct ↦ []
                  | none ↦ catalogue_evidence taxonomy name
                ]))
  ]

  -- `index.is_conflicted(event_ticker)` and `index.competition_for_event(event_ticker)`
  abbrev pub is_conflicted : MilestoneIndex → String → Bool
  is_conflicted index ticker = contains (letters.upper (strip ticker)) index.conflicted_events

  abbrev pub competition_for_event : MilestoneIndex → String → Option String
  competition_for_event index ticker =
      elim (listed index.event_to_competition (letters.upper (strip ticker))) [
        | none ↦ none
        | some name ↦ if is_empty_string name then none else some name
      ]

  abbrev pub milestone_decision : Option String → Option Verdict
  milestone_decision none = none
  milestone_decision (some name) = elim (sport_from_competition letters name) [
    | none ↦ none
    | some sport ↦ some (decides milestone sport)
  ]

  abbrev pub event_verdict : MilestoneIndex → String → Option Verdict
  event_verdict index ticker =
      if is_empty_string ticker
      then none
      else if is_conflicted index ticker
      then some (refuses milestone milestone_conflict)
      else milestone_decision (competition_for_event index ticker)

  -- `_milestone_verdict(context, milestone_index, event_ticker, evidence)`
  unfoldable pub milestone_verdict : Option MilestoneIndex → Option String → Option Verdict
  milestone_verdict (some index) (some ticker) = event_verdict index ticker
  milestone_verdict _ _ = none

  unfoldable pub milestone_evidence : Option MilestoneIndex → Option String → List Signal
  milestone_evidence (some index) (some ticker) =
      if is_empty_string ticker || is_conflicted index ticker
      then []
      else elim (competition_for_event index ticker) [
        | none ↦ []
        | some name ↦ signal_at "milestone.competition" milestone name ∷ []
      ]
  milestone_evidence _ _ = []

  -- `_registry_verdict(series_ticker, ticker_source, evidence)`, the use of an unverified entry, and the
  -- evidence it adds.
  unfoldable pub registry_verdict : Option String → Option Verdict
  registry_verdict ticker = elim (lookup_series_ticker letters ticker) [
    | none ↦ none
    | some found ↦ some (decides series_registry found.sport)
  ]

  unfoldable pub uses_unverified : Option String → Bool
  uses_unverified ticker = elim (lookup_series_ticker letters ticker) [
    | none ↦ false
    | some found ↦ not found.verified
  ]

  abbrev upper_of : Option String → String
  upper_of none = ""
  upper_of (some ticker) = letters.upper ticker

  unfoldable pub registry_evidence : Option String → String → List Signal
  registry_evidence ticker source = elim (lookup_series_ticker letters ticker) [
    | none ↦ []
    | some found ↦
        record {
          source = concat ("series_registry[" ∷ source ∷ "]" ∷ []);
          strength = authoritative;
          matched_token = upper_of ticker;
          sport = some found.sport;
          ambiguous_family = none;
          out_of_scope_kind = none;
          level = some series_registry;
        }
        ∷ []
  ]
