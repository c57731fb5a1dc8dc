-- ===== src/Classify/Vocabulary.antt =====
-- Competitions and sports by their names (kalshi_router/competitions.py).
use kalshi_bet_router.Base.{
  String, Bool, false, not, Option, none, some, List, [], ◌∷◌, if◌then◌else◌, contains, str_eq,
}
use kalshi_bet_router.Destinations.{Sport, mlb, nfl, cfb, nhl, nba, soccer, tennis, other}
use kalshi_bet_router.Classify.Words.{Letters, normalize, has_any, is_empty_string}

-- `table.get(key)`
abbrev pub listed {ℓ} : {A : Type ℓ} → List (String × A) → String → Option A
listed [] key = none
listed ((name, value) ∷ rest) key = if str_eq name key then some value else listed rest key

abbrev competition_table : List (String × Sport)
competition_table =
    ("pro baseball", mlb)
    ∷ ("mlb", mlb)
    ∷ ("major league baseball", mlb)
    ∷ ("pro football", nfl)
    ∷ ("nfl", nfl)
    ∷ ("national football league", nfl)
    ∷ ("college football", cfb)
    ∷ ("ncaa football", cfb)
    ∷ ("ncaaf", cfb)
    ∷ ("pro hockey", nhl)
    ∷ ("nhl", nhl)
    ∷ ("national hockey league", nhl)
    ∷ ("pro basketball (m)", nba)
    ∷ ("nba", nba)
    ∷ ("national basketball association", nba)
    ∷ []

abbrev competition_out_of_scope : List String
competition_out_of_scope =
    "pro basketball (w)" ∷ "wnba" ∷ "college basketball (m)" ∷ "college basketball (w)"
    ∷ "college basketball" ∷ "ncaab" ∷ "college hockey" ∷ "college hockey (m)"
    ∷ "college hockey (w)" ∷ "ncaa hockey" ∷ "khl" ∷ "shl" ∷ "ahl" ∷ "pwhl" ∷ "finland liiga"
    ∷ "liiga" ∷ "germany del" ∷ "czech extraliga" ∷ "switzerland national league" ∷ "iihf"
    ∷ "world juniors" ∷ "field hockey" ∷ "college baseball" ∷ "pro golf" ∷ "golf" ∷ "esports"
    ∷ "mma" ∷ "boxing" ∷ "cricket" ∷ "rugby" ∷ "motorsport" ∷ "auto racing" ∷ []

-- `CLOSED_VOCABULARY_LEAGUES.get(sport)`
abbrev closed_vocabulary : Sport → Option (List String)
closed_vocabulary nhl = some ("pro hockey" ∷ "nhl" ∷ "national hockey league" ∷ [])
closed_vocabulary nba = some ("pro basketball (m)" ∷ "nba" ∷ "national basketball association" ∷ [])
closed_vocabulary _ = none

abbrev sport_table : List (String × Sport)
sport_table =
    ("tennis", tennis)
    ∷ ("soccer", soccer)
    ∷ ("football (soccer)", soccer)
    ∷ ("association football", soccer)
    ∷ []

abbrev out_of_scope_sports : List String
out_of_scope_sports =
    "golf" ∷ "esports" ∷ "mma" ∷ "boxing" ∷ "cricket" ∷ "rugby" ∷ "motorsport" ∷ "auto racing"
    ∷ "racing" ∷ "olympics" ∷ "chess" ∷ "darts" ∷ "cycling" ∷ "table tennis" ∷ "volleyball"
    ∷ "lacrosse" ∷ "softball" ∷ "track and field" ∷ "swimming" ∷ "wrestling" ∷ "sumo" ∷ "surfing"
    ∷ "skiing" ∷ "snowboarding" ∷ "badminton" ∷ "handball" ∷ "formula 1" ∷ "nascar" ∷ []

abbrev ambiguous_sports : List String
ambiguous_sports = "football" ∷ "baseball" ∷ "hockey" ∷ "basketball" ∷ []

abbrev family_members : List (String × List Sport)
family_members =
    ("baseball", mlb ∷ [])
    ∷ ("football", nfl ∷ cfb ∷ [])
    ∷ ("american football", nfl ∷ cfb ∷ [])
    ∷ ("college football", cfb ∷ [])
    ∷ ("hockey", nhl ∷ [])
    ∷ ("ice hockey", nhl ∷ [])
    ∷ ("basketball", nba ∷ [])
    ∷ ("tennis", tennis ∷ [])
    ∷ ("soccer", soccer ∷ [])
    ∷ ("football (soccer)", soccer ∷ [])
    ∷ ("association football", soccer ∷ [])
    ∷ []

abbrev tennis_tokens : List String
tennis_tokens = "atp" ∷ "wta" ∷ "itf" ∷ []

abbrev soccer_tokens : List String
soccer_tokens =
    "uefa" ∷ "la liga" ∷ "bundesliga" ∷ "ligue 1" ∷ "mls" ∷ "concacaf" ∷ "conmebol" ∷ "brasileirao"
    ∷ "brasileirão" ∷ "eredivisie" ∷ "liga mx" ∷ "copa libertadores" ∷ "copa america"
    ∷ "copa américa" ∷ "fifa" ∷ "epl" ∷ "english premier league" ∷ "serie a" ∷ "série a"
    ∷ "primeira liga" ∷ "a-league" ∷ "nwsl" ∷ []

-- What a table says of a name, or else what is said of the names that it lacks.
abbrev listed_or {ℓ} : {A : Type ℓ} → Option A → Option A → Option A
listed_or none second = second
listed_or (some a) second = some a

module _ (letters : Letters) where
  -- `possible_sports(sport_name)`: `none` is "we cannot say", an empty list "none of ours".
  unfoldable pub possible_sports : String → Option (List Sport)
  possible_sports name =
      let key = normalize letters name in
      if is_empty_string key
      then none
      else listed_or (listed family_members key)
          (if contains key out_of_scope_sports then some [] else none)

  -- `sport_from_competition(competition)`
  unfoldable pub sport_from_competition : String → Option Sport
  sport_from_competition competition =
      let key = normalize letters competition in
      if is_empty_string key
      then none
      else listed_or (listed competition_table key) (
          if contains key competition_out_of_scope
          then some other
          else if has_any key tennis_tokens
          then some tennis
          else if has_any key soccer_tokens
          then some soccer
          else none)

  -- `sport_from_taxonomy_sport(sport_name)`
  unfoldable pub sport_from_taxonomy_sport : String → Option Sport
  sport_from_taxonomy_sport name =
      let key = normalize letters name in
      if is_empty_string key
      then none
      else listed_or (listed sport_table key)
          (if contains key out_of_scope_sports then some other else none)

  -- `closed_vocabulary_excludes(sport, competition)`
  unfoldable pub closed_vocabulary_excludes : String → Sport → Bool
  closed_vocabulary_excludes competition sport = elim (closed_vocabulary sport) [
    | none ↦ false
    | some names ↦ not (contains (normalize letters competition) names)
  ]

  -- `is_ambiguous_sport(sport_name)`
  unfoldable pub is_ambiguous_sport : String → Bool
  is_ambiguous_sport name = contains (normalize letters name) ambiguous_sports
