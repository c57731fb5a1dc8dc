-- ===== src/Tests/Classifying.antt =====
-- Classification at small markets (kalshi_router/classify.py).
use kalshi_bet_router.Base.{String, true, false, none, some, [], ◌∷◌, ◌≡◌, refl, ◌↔◌}
use kalshi_bet_router.Destinations.{nfl}
use kalshi_bet_router.Classify.{
  evidence_conflict, ambiguous_family, competition_ambiguous, combo_legs_span_sports, word, entry,
  Document, scalar, items, MarketContext, plain, get_field,
}
use kalshi_bet_router.Classify.Words.{Letters, normalize, has_token}
use kalshi_bet_router.Classify.Verdicts.{SportTaxonomy, MilestoneIndex}
use kalshi_bet_router.Classify.Market.{classify_market}
use kalshi_bet_router.Classify.Legs.{is_combo, leg_tickers, classify_with_legs}
use kalshi_bet_router.Classify.Rests.{IsJustified, classify_market-IsJustified}
use kalshi_bet_router.Classify.Stated.{entries, IsPlacedBy, classify_with_legs-IsPlaced}

-- Texts that are in the right case already.
abbrev letters : Letters
letters = record { lower = λ s. s; upper = λ s. s }

spaces : normalize letters "  pro \t football " ≡ "pro football"
unfolding normalize
spaces = refl

tokens : has_token "the nflx and nfl" "nfl" ≡ true
unfolding has_token
tokens = refl

no_tokens : has_token "the nflx and xnfl" "nfl" ≡ false
unfolding has_token
no_tokens = refl

abbrev metadata_of : String → Document
metadata_of name = ("competition", scalar (word name)) ∷ []

abbrev market_of : String → String → MarketContext
market_of name tag = record {
  market_ticker = "KXNFLGAME-1";
  market = none;
  event = none;
  series = some (("tags", scalar (word tag)) ∷ []);
  event_metadata = some (metadata_of name);
  lookup_error = none;
}

-- A catalogue that files professional football under two sports, and one that hockey claims it from.
abbrev contested : SportTaxonomy
contested = record {
  competition_to_sport = [];
  ambiguous_claimants = ("pro football", "football" ∷ "darts" ∷ "surf golf" ∷ []) ∷ [];
  ambiguous_competitions = "pro football" ∷ [];
}

abbrev affirmed : SportTaxonomy
affirmed = record {
  competition_to_sport = [];
  ambiguous_claimants = ("pro football", "football" ∷ "hockey" ∷ []) ∷ [];
  ambiguous_competitions = "pro football" ∷ [];
}

classified :
    (classify_market letters (some affirmed) none (market_of "pro football" "football")).sport ≡ nfl
unfolding classify_market kalshi_bet_router.Classify.Context.metadata_schema_error
    kalshi_bet_router.Classify.Context.validate_metadata_string_field
    kalshi_bet_router.Classify.get_field kalshi_bet_router.Classify.Verdicts.competition_verdict
    normalize kalshi_bet_router.Classify.Vocabulary.sport_from_competition
    kalshi_bet_router.Classify.Vocabulary.possible_sports
    kalshi_bet_router.Classify.Vocabulary.closed_vocabulary_excludes
    kalshi_bet_router.Classify.Series.series_metadata_verdict
    kalshi_bet_router.Classify.Series.iter_texts kalshi_bet_router.Classify.Series.scan_text
    has_token kalshi_bet_router.Classify.Verdicts.registry_verdict
    kalshi_bet_router.Classify.Registry.lookup_series_ticker
    kalshi_bet_router.Classify.Context.derive_series_ticker
classified = refl

refused_contested :
    (classify_market letters
      (some contested)
      none
      (market_of "pro football" "football")).unresolved_reason
    ≡ some competition_ambiguous
unfolding classify_market kalshi_bet_router.Classify.Context.metadata_schema_error
    kalshi_bet_router.Classify.Context.validate_metadata_string_field
    kalshi_bet_router.Classify.get_field kalshi_bet_router.Classify.Verdicts.competition_verdict
    normalize kalshi_bet_router.Classify.Vocabulary.sport_from_competition
    kalshi_bet_router.Classify.Vocabulary.possible_sports
refused_contested = refl

refused_conflict :
    (classify_market letters none none (market_of "pro football" "tennis")).unresolved_reason
    ≡ some evidence_conflict
unfolding classify_market kalshi_bet_router.Classify.Context.metadata_schema_error
    kalshi_bet_router.Classify.Context.validate_metadata_string_field
    kalshi_bet_router.Classify.get_field kalshi_bet_router.Classify.Verdicts.competition_verdict
    kalshi_bet_router.Classify.Vocabulary.sport_from_competition normalize
    kalshi_bet_router.Classify.Series.series_metadata_verdict
    kalshi_bet_router.Classify.Series.iter_texts kalshi_bet_router.Classify.Series.scan_text
    has_token kalshi_bet_router.Classify.Verdicts.registry_verdict
    kalshi_bet_router.Classify.Registry.lookup_series_ticker
    kalshi_bet_router.Classify.Context.derive_series_ticker
refused_conflict = refl

-- The tag of a family of leagues decides nothing.
refused_family :
    (classify_market letters none none (record {
      market_ticker = "A";
      market = none;
      event = none;
      series = some (("tags", scalar (word "basketball")) ∷ []);
      event_metadata = none;
      lookup_error = none;
    })).unresolved_reason
    ≡ some ambiguous_family
unfolding classify_market kalshi_bet_router.Classify.Context.metadata_schema_error
    kalshi_bet_router.Classify.Context.validate_metadata_string_field
    kalshi_bet_router.Classify.get_field kalshi_bet_router.Classify.Verdicts.competition_verdict
    kalshi_bet_router.Classify.Verdicts.milestone_verdict
    kalshi_bet_router.Classify.Series.series_metadata_verdict
    kalshi_bet_router.Classify.Series.iter_texts normalize
    kalshi_bet_router.Classify.Series.scan_text has_token
    kalshi_bet_router.Classify.Verdicts.registry_verdict
    kalshi_bet_router.Classify.Registry.lookup_series_ticker
    kalshi_bet_router.Classify.Context.derive_series_ticker
refused_family = refl

-- A milestone whose competition is not recognised leaves the market to its series.
abbrev milestones : MilestoneIndex
milestones = record { event_to_competition = ("EV", "surf golf") ∷ []; conflicted_events = [] }

fallen_through :
    (classify_market letters none (some milestones) (record {
      market_ticker = "A";
      market = none;
      event = some (("event_ticker", scalar (word "EV")) ∷ []);
      series = some (("tags", scalar (word "nfl")) ∷ []);
      event_metadata = none;
      lookup_error = none;
    })).sport
    ≡ nfl
unfolding classify_market kalshi_bet_router.Classify.Context.metadata_schema_error
    kalshi_bet_router.Classify.Context.validate_metadata_string_field
    kalshi_bet_router.Classify.get_field kalshi_bet_router.Classify.Verdicts.competition_verdict
    kalshi_bet_router.Classify.Verdicts.milestone_verdict kalshi_bet_router.Classify.Words.strip
    kalshi_bet_router.Classify.Vocabulary.sport_from_competition normalize has_token
    kalshi_bet_router.Classify.Series.series_metadata_verdict
    kalshi_bet_router.Classify.Series.iter_texts kalshi_bet_router.Classify.Series.scan_text
    kalshi_bet_router.Classify.Verdicts.registry_verdict
    kalshi_bet_router.Classify.Registry.lookup_series_ticker
    kalshi_bet_router.Classify.Context.derive_series_ticker
fallen_through = refl

-- A combo of two legs, each of the competition that its ticker names.
abbrev combo_of : String → String → MarketContext
combo_of first second = record {
  market_ticker = "KXMVE";
  market = some (
      (
        "mve_selected_legs",
        items (
            entry (("market_ticker", word first) ∷ []) ∷ entry (("ticker", word second) ∷ []) ∷ []),
      )
      ∷ []);
  event = none;
  series = none;
  event_metadata = some [];
  lookup_error = none;
}

abbrev resolve_leg : String → MarketContext
resolve_leg name = market_of name ""

combo_classified :
    (classify_with_legs letters none none resolve_leg (combo_of "pro football" "nfl")).sport ≡ nfl
unfolding classify_with_legs is_combo kalshi_bet_router.Classify.get_field classify_market
    kalshi_bet_router.Classify.Context.metadata_schema_error
    kalshi_bet_router.Classify.Context.validate_metadata_string_field
    kalshi_bet_router.Classify.Verdicts.competition_verdict
    kalshi_bet_router.Classify.Verdicts.milestone_verdict
    kalshi_bet_router.Classify.Series.series_metadata_verdict
    kalshi_bet_router.Classify.Series.iter_texts
    kalshi_bet_router.Classify.Verdicts.registry_verdict
    kalshi_bet_router.Classify.Registry.lookup_series_ticker
    kalshi_bet_router.Classify.Context.derive_series_ticker leg_tickers
    kalshi_bet_router.Classify.leaf_in kalshi_bet_router.Classify.Vocabulary.sport_from_competition
    normalize
combo_classified = refl

combo_refused :
    (classify_with_legs letters none none resolve_leg
      (combo_of "pro football" "mlb")).unresolved_reason
    ≡ some combo_legs_span_sports
unfolding classify_with_legs is_combo kalshi_bet_router.Classify.get_field classify_market
    kalshi_bet_router.Classify.Context.metadata_schema_error
    kalshi_bet_router.Classify.Context.validate_metadata_string_field
    kalshi_bet_router.Classify.Verdicts.competition_verdict
    kalshi_bet_router.Classify.Verdicts.milestone_verdict
    kalshi_bet_router.Classify.Series.series_metadata_verdict
    kalshi_bet_router.Classify.Series.iter_texts
    kalshi_bet_router.Classify.Verdicts.registry_verdict
    kalshi_bet_router.Classify.Registry.lookup_series_ticker
    kalshi_bet_router.Classify.Context.derive_series_ticker leg_tickers
    kalshi_bet_router.Classify.leaf_in kalshi_bet_router.Classify.Vocabulary.sport_from_competition
    normalize
combo_refused = refl

combo-IsCombo : is_combo (combo_of "pro football" "nfl").market ≡ true
unfolding is_combo kalshi_bet_router.Classify.get_field
combo-IsCombo = refl

classify_market-IsJustified_example :
    IsJustified letters
      (some affirmed)
      none
      (market_of "pro football" "football")
      (classify_market letters (some affirmed) none (market_of "pro football" "football"))
classify_market-IsJustified_example =
    classify_market-IsJustified letters (some affirmed) none (market_of "pro football" "football")

-- An entry that is no object is passed over, and the combo is placed by the other leg.
abbrev half_read : MarketContext
half_read = record {
  market_ticker = "KXMVE";
  market = some (
      (
        "mve_selected_legs",
        items (plain (word "a leg") ∷ entry (("market_ticker", word "pro football") ∷ []) ∷ []),
      )
      ∷ []);
  event = none;
  series = none;
  event_metadata = some [];
  lookup_error = none;
}

half_read-IsCombo : is_combo half_read.market ≡ true
unfolding is_combo kalshi_bet_router.Classify.get_field
half_read-IsCombo = refl

half_classified : (classify_with_legs letters none none resolve_leg half_read).sport ≡ nfl
unfolding classify_with_legs is_combo kalshi_bet_router.Classify.get_field classify_market
    kalshi_bet_router.Classify.Context.metadata_schema_error
    kalshi_bet_router.Classify.Context.validate_metadata_string_field
    kalshi_bet_router.Classify.Verdicts.competition_verdict
    kalshi_bet_router.Classify.Verdicts.milestone_verdict
    kalshi_bet_router.Classify.Series.series_metadata_verdict
    kalshi_bet_router.Classify.Series.iter_texts
    kalshi_bet_router.Classify.Verdicts.registry_verdict
    kalshi_bet_router.Classify.Registry.lookup_series_ticker
    kalshi_bet_router.Classify.Context.derive_series_ticker leg_tickers
    kalshi_bet_router.Classify.leaf_in kalshi_bet_router.Classify.Vocabulary.sport_from_competition
    normalize
half_classified = refl

classify_with_legs-IsPlaced_example :
    ((classify_with_legs letters none none resolve_leg half_read).sport ≡ nfl)
    ↔ IsPlacedBy letters none none resolve_leg
        (classify_market letters none none half_read)
        (entries (get_field half_read.market "mve_selected_legs"))
        nfl
classify_with_legs-IsPlaced_example =
    classify_with_legs-IsPlaced letters none none resolve_leg half_read nfl half_read-IsCombo refl
