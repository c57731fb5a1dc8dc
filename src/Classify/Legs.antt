-- ===== src/Classify/Legs.antt =====
-- Combos (kalshi_router/classify.py, `classify_with_legs`; the legs are read in kalshi_router/refusals.py).
use kalshi_bet_router.Base.{
  String, Bool, true, false, not, ◌&&◌, ◌||◌, Option, none, some, List, [], ◌∷◌, ◌++◌,
  if◌then◌else◌, is_empty, is_blank, map, length, str,
}
use kalshi_bet_router.Destinations.{Sport, unresolved}
use kalshi_bet_router.Classify.{
  combo_legs, UnresolvedReason, competition_absent, insufficient, evidence_conflict,
  combo_legs_unavailable, combo_leg_unresolved, combo_legs_span_sports, authoritative, Document,
  Leaf, null, word, thing, ArrayItem, plain, entry, Field, scalar, items, MarketContext,
  Classification, get_field, leaf_in, same_sport, add_sport, is_routable,
}
use kalshi_bet_router.Base.{concat}
use kalshi_bet_router.Classify.Words.{Letters, is_empty_string}
use kalshi_bet_router.Classify.Verdicts.{SportTaxonomy, MilestoneIndex}
use kalshi_bet_router.Classify.Market.{classify_market}

abbrev Leg : Type 0
Leg = List (String × Leaf)

abbrev pub objects : List ArrayItem → List Leg
objects [] = []
objects (plain leaf ∷ rest) = objects rest
objects (entry fields ∷ rest) = fields ∷ objects rest

abbrev pub objects_in : Field → List Leg
objects_in (scalar leaf) = []
objects_in (items members) = objects members

-- `combo_legs(market)`
unfoldable pub legs_of : Option Document → List Leg
legs_of market = objects_in (get_field market "mve_selected_legs")

abbrev names_collection : Field → Bool
names_collection (scalar (word s)) = not (is_blank s)
names_collection _ = false

-- `is_combo(market)`
unfoldable pub is_combo : Option Document → Bool
unfolding legs_of
is_combo market =
    not (is_empty (legs_of market)) || names_collection (get_field market "mve_collection_ticker")

abbrev leaf_is_true : Leaf → Bool
leaf_is_true null = false
leaf_is_true (word s) = not (is_empty_string s)
leaf_is_true (thing truth) = truth

abbrev ticker_text : Leaf → Option String
ticker_text (word s) = if is_blank s then none else some s
ticker_text _ = none

-- `leg_market_ticker(leg)`
unfoldable pub leg_market_ticker : Leg → Option String
leg_market_ticker leg =
    let first = leaf_in leg "market_ticker" in
    ticker_text (if leaf_is_true first then first else leaf_in leg "ticker")

-- The tickers of the legs, where all have one.
abbrev pub all_stated : List (Option String) → Option (List String)
all_stated [] = some []
all_stated (none ∷ rest) = none
all_stated (some ticker ∷ rest) = elim (all_stated rest) [
  | none ↦ none
  | some tickers ↦ some (ticker ∷ tickers)
]

abbrev pub none_if_empty : Option (List String) → Option (List String)
none_if_empty none = none
none_if_empty (some []) = none
none_if_empty (some (t ∷ ts)) = some (t ∷ ts)

-- The tickers of a combo's legs; `none` where there is no leg, or a leg states none.
unfoldable pub leg_tickers : Option Document → Option (List String)
unfolding leg_market_ticker legs_of
leg_tickers market = none_if_empty (all_stated (map leg_market_ticker (legs_of market)))

-- `base.unresolved_reason not in COMBO_COMPLETABLE`, negated
abbrev pub is_completable : Option UnresolvedReason → Bool
is_completable (some competition_absent) = true
is_completable (some insufficient) = true
is_completable _ = false

abbrev pub refuse : Classification → UnresolvedReason → Classification
refuse base reason = record {
  sport = unresolved;
  evidence = base.evidence;
  event_ticker = base.event_ticker;
  series_ticker = base.series_ticker;
  competition = base.competition;
  competition_scope = base.competition_scope;
  resolved_by = none;
  unresolved_reason = some reason;
  used_unverified_series_ticker = base.used_unverified_series_ticker;
  terminal_rescuable_by = base.terminal_rescuable_by;
  lower_level_conflict = base.lower_level_conflict;
}

abbrev legs_text : List String → String
legs_text tickers = concat (str (length tickers) ∷ " legs" ∷ [])

abbrev pub complete_with_legs : Classification → List String → Sport → Classification
complete_with_legs base tickers sport = record {
  sport = sport;
  evidence =
      base.evidence
      ++ record {
        source = "combo.legs";
        strength = authoritative;
        matched_token = legs_text tickers;
        sport = some sport;
        ambiguous_family = none;
        out_of_scope_kind = none;
        level = some combo_legs;
      }
        ∷ [];
  event_ticker = base.event_ticker;
  series_ticker = base.series_ticker;
  competition = base.competition;
  competition_scope = base.competition_scope;
  resolved_by = some combo_legs;
  unresolved_reason = none;
  used_unverified_series_ticker = base.used_unverified_series_ticker;
  terminal_rescuable_by = base.terminal_rescuable_by;
  lower_level_conflict = base.lower_level_conflict;
}

abbrev pub with_leg : Option Sport → (Sport → Option (List Sport)) → Option (List Sport)
with_leg none rest = none
with_leg (some sport) rest = rest sport

-- The sports of the legs, or nothing where a leg is no market of a routable sport.
module _ (letters : Letters) (taxonomy : Option SportTaxonomy) (index : Option MilestoneIndex)
    (resolve_leg : String → MarketContext) where
  -- The sport that a leg brings.
  unfoldable pub leg_sport : String → Option Sport
  leg_sport ticker =
      let sport = (classify_market letters taxonomy index (resolve_leg ticker)).sport in
      if is_combo (resolve_leg ticker).market
      then none
      else if is_routable sport
      then some sport
      else none

  unfoldable pub leg_sports : List String → List Sport → Option (List Sport)
  unfolding leg_sport
  leg_sports [] seen = some seen
  leg_sports (ticker ∷ tickers) seen =
      with_leg (leg_sport ticker) (λ sport. leg_sports tickers (add_sport sport seen))

  -- What the sports of the legs make of the combo's own classification.
  unfoldable pub conclude : Classification → List String → Option (List Sport) → Classification
  conclude base tickers none = refuse base combo_leg_unresolved
  conclude base tickers (some []) = refuse base combo_legs_span_sports
  conclude base tickers (some (sport ∷ s ∷ rest)) = refuse base combo_legs_span_sports
  conclude base tickers (some (sport ∷ [])) =
      if same_sport base.sport unresolved
      then complete_with_legs base tickers sport
      else if same_sport base.sport sport
      then base
      else refuse base evidence_conflict

  unfoldable pub by_legs : Classification → Option (List String) → Classification
  unfolding leg_sports conclude
  by_legs base none =
      if same_sport base.sport unresolved then refuse base combo_legs_unavailable else base
  by_legs base (some tickers) = conclude base tickers (leg_sports tickers [])

  unfoldable pub classify_with_legs : MarketContext → Classification
  unfolding by_legs
  classify_with_legs context =
      let base = classify_market letters taxonomy index context in
      if not (is_combo context.market)
      then base
      else if same_sport base.sport unresolved && not (is_completable base.unresolved_reason)
      then base
      else by_legs base (leg_tickers context.market)
