-- ===== src/Classify/Series.antt =====
-- The level L4: the metadata of the series (kalshi_router/classify.py).
use kalshi_bet_router.Base.{
  String, Bool, false, not, ◌&&◌, Option, none, some, List, [], ◌∷◌, ◌++◌, if◌then◌else◌, any,
  str_eq,
}
use kalshi_bet_router.Destinations.{Sport, mlb, nfl, cfb, nhl, nba, soccer, tennis, other}
use kalshi_bet_router.Classify.{
  EvidenceStrength, authoritative, supporting, series_metadata, Signal, Verdict, Document, Leaf,
  word, ArrayItem, plain, entry, Field, scalar, items, MarketContext, get_field, leaf_in,
  same_sport, add_sport, is_routable, evidence_conflict, ambiguous_family,
}
use kalshi_bet_router.Classify.Words.{Letters, normalize, first_token, is_empty_string}

abbrev league_tokens : List (Sport × List String)
league_tokens =
    (mlb, "mlb" ∷ "major league baseball" ∷ "world series" ∷ [])
    ∷ (nfl, "nfl" ∷ "national football league" ∷ "super bowl" ∷ [])
    ∷ (
      cfb,
      "cfb" ∷ "ncaaf" ∷ "ncaa football" ∷ "college football" ∷ "college football playoff" ∷ [],
    )
    ∷ (nhl, "nhl" ∷ "national hockey league" ∷ "pro hockey" ∷ [])
    ∷ (nba, "nba" ∷ "national basketball association" ∷ "pro basketball (m)" ∷ [])
    ∷ (
      soccer,
      "soccer" ∷ "mls" ∷ "uefa" ∷ "la liga" ∷ "bundesliga" ∷ "ligue 1" ∷ "epl"
          ∷ "english premier league" ∷ "fifa" ∷ "concacaf" ∷ "conmebol" ∷ "liga mx" ∷ "brasileirao"
          ∷ "eredivisie" ∷ "nwsl" ∷ [],
    )
    ∷ (tennis, "tennis" ∷ "atp" ∷ "wta" ∷ [])
    ∷ []

abbrev ambiguous_family_tokens : List String
ambiguous_family_tokens =
    "football" ∷ "american football" ∷ "baseball" ∷ "college sports" ∷ "ncaa" ∷ "hockey"
    ∷ "ice hockey" ∷ "basketball" ∷ []

abbrev non_target_sport_tokens : List String
non_target_sport_tokens =
    "wnba" ∷ "ncaab" ∷ "college basketball" ∷ "college hockey" ∷ "ncaa hockey" ∷ "khl" ∷ "shl"
    ∷ "ahl" ∷ "pwhl" ∷ "field hockey" ∷ "golf" ∷ "pga" ∷ "liv golf" ∷ "masters tournament" ∷ "mma"
    ∷ "ufc" ∷ "boxing" ∷ "cricket" ∷ "rugby" ∷ "esports" ∷ "league of legends" ∷ "counter-strike"
    ∷ "dota" ∷ "motorsport" ∷ "formula 1" ∷ "nascar" ∷ "f1" ∷ "olympics" ∷ "chess" ∷ "darts"
    ∷ "cycling" ∷ "auto racing" ∷ []

abbrev non_sports_category_tokens : List String
non_sports_category_tokens =
    "politics" ∷ "elections" ∷ "economics" ∷ "financials" ∷ "financial markets" ∷ "climate"
    ∷ "weather" ∷ "entertainment" ∷ "science and technology" ∷ "technology" ∷ "health" ∷ "world"
    ∷ "companies" ∷ "crypto" ∷ "cryptocurrency" ∷ "transportation" ∷ "culture" ∷ "media" ∷ "awards"
    ∷ "inflation" ∷ "fed" ∷ "commodities" ∷ []

-- A list of one text or of none.
abbrev non_blank : String → List String
non_blank s = if is_empty_string s then [] else s ∷ []

abbrev first_filled : List (List String) → List String
first_filled [] = []
first_filled ([] ∷ rest) = first_filled rest
first_filled ((s ∷ ss) ∷ rest) = s ∷ ss

module _ (letters : Letters) where
  -- `normalize(value)` of a value that may be no text
  abbrev leaf_text : Leaf → String
  leaf_text (word s) = normalize letters s
  leaf_text _ = ""

  abbrev item_texts : ArrayItem → List String
  item_texts (plain leaf) = non_blank (leaf_text leaf)
  item_texts (entry fields) = first_filled (
      non_blank (leaf_text (leaf_in fields "name"))
      ∷ non_blank (leaf_text (leaf_in fields "title"))
      ∷ non_blank (leaf_text (leaf_in fields "label"))
      ∷ [])

  abbrev items_texts : List ArrayItem → List String
  items_texts [] = []
  items_texts (item ∷ rest) = item_texts item ++ items_texts rest

  -- `_iter_texts(value)`
  unfoldable pub iter_texts : Field → List String
  iter_texts (scalar leaf) = non_blank (leaf_text leaf)
  iter_texts (items members) = items_texts members

-- `_scan_text(text, source, strength)`: the leagues that the text names, and the first token of each other
-- table.
module _ (text source : String) (strength : EvidenceStrength) where
  abbrev signal : Option Sport → Option String → Option String → String → Signal
  signal sport family kind token = record {
    source = source;
    strength = strength;
    matched_token = token;
    sport = sport;
    ambiguous_family = family;
    out_of_scope_kind = kind;
    level = elim strength [ authoritative ↦ some series_metadata | supporting ↦ none ];
  }

  abbrev signal_if : Option String → (String → Signal) → List Signal
  signal_if none make = []
  signal_if (some token) make = make token ∷ []

  abbrev league_signals : List (Sport × List String) → List Signal
  league_signals [] = []
  league_signals ((sport, tokens) ∷ rest) =
      signal_if (first_token text tokens) (λ token. signal (some sport) none none token)
      ++ league_signals rest

  unfoldable pub scan_text : List Signal
  scan_text =
      league_signals league_tokens
      ++ signal_if (first_token text non_target_sport_tokens)
          (λ token. signal (some other) none (some "sport") token)
      ++ signal_if (first_token text non_sports_category_tokens)
          (λ token. signal (some other) none (some "category") token)
      ++ signal_if (first_token text ambiguous_family_tokens)
          (λ token. signal none (some token) none token)

-- The signals of the texts of a field, and of the fields of a table.
abbrev scan_texts : String → EvidenceStrength → List String → List Signal
scan_texts source strength [] = []
scan_texts source strength (text ∷ texts) =
    scan_text text source strength ++ scan_texts source strength texts

abbrev scan_fields :
    Letters → EvidenceStrength → List (Option Document × String × String) → List Signal
scan_fields letters strength [] = []
scan_fields letters strength ((document, key, source) ∷ rest) =
    scan_texts source strength (iter_texts letters (get_field document key))
    ++ scan_fields letters strength rest

-- `{e.sport for e in found if e.sport in ROUTABLE_SPORTS}`
abbrev pub leagues_of : List Signal → List Sport
leagues_of [] = []
leagues_of (found ∷ rest) =
    let others = leagues_of rest in
    elim found.sport [
      | none ↦ others
      | some sport ↦ if is_routable sport then add_sport sport others else others
    ]

abbrev pub is_out_of_scope : String → Signal → Bool
is_out_of_scope kind found =
    elim found.sport [ none ↦ false | some sport ↦ same_sport sport other ]
    && elim found.out_of_scope_kind [ none ↦ false | some k ↦ str_eq k kind ]

abbrev pub is_ambiguous : Signal → Bool
is_ambiguous found = elim found.ambiguous_family [
  | none ↦ false
  | some family ↦ not (is_empty_string family)
]

abbrev ruled : Sport → Option Verdict
ruled sport =
    some (record { level = series_metadata; sport = some sport; unresolved_reason = none })

-- The verdict on what was found under the fields that count.
abbrev pub verdict_on : List Sport → List Signal → Option Verdict
verdict_on (a ∷ b ∷ rest) found =
    some
      (record { level = series_metadata; sport = none; unresolved_reason = some evidence_conflict })
verdict_on (sport ∷ []) found = ruled sport
verdict_on [] found =
    if any (is_out_of_scope "sport") found
    then ruled other
    else if any is_ambiguous found
    then some (record {
      level = series_metadata;
      sport = none;
      unresolved_reason = some ambiguous_family;
    })
    else if any (is_out_of_scope "category") found
    then ruled other
    else none

module _ (letters : Letters) (context : MarketContext) where
  unfoldable pub authoritative_signals : List Signal
  authoritative_signals = scan_fields letters authoritative (
      (context.series, "tags", "series.tags")
      ∷ (context.series, "categories", "series.categories")
      ∷ (context.series, "category", "series.category")
      ∷ (context.series, "title", "series.title")
      ∷ (context.event, "category", "event.category")
      ∷ (context.market, "category", "market.category")
      ∷ [])

  unfoldable pub supporting_signals : List Signal
  supporting_signals = scan_fields letters supporting (
      (context.event, "title", "event.title")
      ∷ (context.event, "sub_title", "event.sub_title")
      ∷ (context.market, "title", "market.title")
      ∷ (context.market, "subtitle", "market.subtitle")
      ∷ (context.market, "yes_sub_title", "market.yes_sub_title")
      ∷ [])

  -- `_series_metadata_verdict(context, evidence)`: its verdict and the evidence it adds.
  unfoldable pub series_metadata_verdict : Option Verdict
  unfolding authoritative_signals
  series_metadata_verdict = verdict_on (leagues_of authoritative_signals) authoritative_signals

  unfoldable pub series_metadata_evidence : List Signal
  unfolding authoritative_signals supporting_signals
  series_metadata_evidence = supporting_signals ++ authoritative_signals
