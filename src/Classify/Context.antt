-- ===== src/Classify/Context.antt =====
-- What the classification reads in the documents of a market (kalshi_router/classify.py).
use kalshi_bet_router.Base.{
  String, Bool, true, false, ◌||◌, Option, none, some, if◌then◌else◌, is_blank,
}
use kalshi_bet_router.Classify.{Document, null, word, Field, scalar, MarketContext, get_field}
use kalshi_bet_router.Classify.Words.{strip, has_dash, before_dash}

-- The result of `validate_metadata_string_field`: no value, a value, or an error.
pub data StringField : Type 0 where
  absent malformed : StringField
  present : String → StringField

unfoldable pub validate_metadata_string_field : Option Document → String → StringField
validate_metadata_string_field metadata key = elim (get_field metadata key) [
  | scalar null ↦ absent
  | scalar (word s) ↦ if is_blank s then malformed else present (strip s)
  | _ ↦ malformed
]

abbrev is_malformed : StringField → Bool
is_malformed malformed = true
is_malformed _ = false

abbrev value_of : StringField → Option String
value_of (present s) = some s
value_of _ = none

module _ (context : MarketContext) where
  -- `context.metadata_schema_error`, whether there is one
  unfoldable pub metadata_schema_error : Bool
  metadata_schema_error =
      is_malformed (validate_metadata_string_field context.event_metadata "competition")
      || is_malformed (validate_metadata_string_field context.event_metadata "competition_scope")

  unfoldable pub competition : Option String
  competition = value_of (validate_metadata_string_field context.event_metadata "competition")

  unfoldable pub competition_scope : Option String
  competition_scope =
      value_of (validate_metadata_string_field context.event_metadata "competition_scope")

-- The text of a field that holds one which is not blank, stripped.
abbrev stated_text : Field → Option String
stated_text (scalar (word s)) = if is_blank s then none else some (strip s)
stated_text _ = none

abbrev from_prefix : String → Option String × String
from_prefix ticker =
    if has_dash ticker
    then (some (strip (before_dash ticker)), "market_ticker.series_prefix")
    else (none, "none")

abbrev or_from : Field → String → Option String × String → Option String × String
or_from value source otherwise = elim (stated_text value) [
  | none ↦ otherwise
  | some ticker ↦ (some ticker, source)
]

-- `derive_series_ticker(context)`
unfoldable pub derive_series_ticker : MarketContext → Option String × String
derive_series_ticker context = or_from (get_field context.series "ticker") "series.ticker" (
    or_from (get_field context.event "series_ticker") "event.series_ticker" (
      or_from (get_field context.market "series_ticker") "market.series_ticker"
        (from_prefix context.market_ticker)))
