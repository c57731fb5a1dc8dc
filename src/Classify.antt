-- ===== src/Classify.antt =====
-- Classification of markets (kalshi_router/classify.py): its records. `Words` is the reading of
-- texts, `Vocabulary` kalshi_router/competitions.py, `Registry` kalshi_router/series_registry.py,
-- `Context` what is read of a market, `Verdicts` the levels L1 to L3 and L5, `Series` the level L4,
-- `Market` a market, `Legs` a combo. `Supported` and `Weighed` are about what the verdicts come to,
-- `Rests` about a market's classification, `EachLeg` and `Placed` about a combo's.
--
-- The explanations (`reason`, `detail`) are left out.
pub mod Words
pub mod Vocabulary
pub mod Registry
pub mod Context
pub mod Verdicts
pub mod Series
pub mod Market
pub mod Legs
pub mod Supported
pub mod Weighed
pub mod Rests
pub mod EachLeg
pub mod Placed
pub mod Stated
use kalshi_bet_router.Base.{
  ℕ, String, Bool, true, false, Option, none, some, List, [], ◌∷◌, ◌≡◌, refl, sym, ap, ◌∙◌,
  if◌then◌else◌, ◌==◌, any, str_eq, arith,
}
use kalshi_bet_router.Destinations.{
  Sport, mlb, nfl, cfb, nhl, nba, soccer, tennis, other, unresolved,
}

pub data EvidenceLevel : Type 0 where
  event_competition sport_taxonomy milestone : EvidenceLevel
  series_metadata series_registry combo_legs : EvidenceLevel

pub data UnresolvedReason : Type 0 where
  metadata_lookup_failed no_metadata malformed_event_metadata : UnresolvedReason
  competition_absent competition_unknown competition_ambiguous : UnresolvedReason
  milestone_conflict evidence_conflict ambiguous_family insufficient : UnresolvedReason
  combo_legs_unavailable combo_leg_unresolved combo_legs_span_sports : UnresolvedReason

pub data EvidenceStrength : Type 0 where
  authoritative supporting : EvidenceStrength

-- `Evidence`: one matched signal.
pub record Signal : Type 0 where
  pub source : String
  pub strength : EvidenceStrength
  pub matched_token : String
  pub sport : Option Sport
  pub ambiguous_family : Option String
  pub out_of_scope_kind : Option String
  pub level : Option EvidenceLevel

pub record Verdict : Type 0 where
  pub level : EvidenceLevel
  pub sport : Option Sport
  pub unresolved_reason : Option UnresolvedReason

-- A JSON document as far as the code reads it: of a value that is neither a text nor `null` it asks only
-- whether it is true, of an array its members, and of an object in an array its fields.
pub data Leaf : Type 0 where
  null : Leaf
  word : String → Leaf
  thing : Bool → Leaf

pub data ArrayItem : Type 0 where
  plain : Leaf → ArrayItem
  entry : List (String × Leaf) → ArrayItem

pub data Field : Type 0 where
  scalar : Leaf → Field
  items : List ArrayItem → Field

abbrev pub Document : Type 0
Document = List (String × Field)

pub record MarketContext : Type 0 where
  pub market_ticker : String
  pub market : Option Document
  pub event : Option Document
  pub series : Option Document
  pub event_metadata : Option Document
  pub lookup_error : Option String

pub record Classification : Type 0 where
  pub sport : Sport
  pub evidence : List Signal
  pub event_ticker : Option String
  pub series_ticker : Option String
  pub competition : Option String
  pub competition_scope : Option String
  pub resolved_by : Option EvidenceLevel
  pub unresolved_reason : Option UnresolvedReason
  pub used_unverified_series_ticker : Bool
  pub terminal_rescuable_by : Option EvidenceLevel
  pub lower_level_conflict : Bool

-- `_get(mapping, key)`: a missing field is `None`.
unfoldable pub field_in : Document → String → Field
field_in [] key = scalar null
field_in ((name, value) ∷ rest) key = if str_eq name key then value else field_in rest key

unfoldable pub get_field : Option Document → String → Field
unfolding field_in
get_field none key = scalar null
get_field (some document) key = field_in document key

-- `item.get(key)` of an object in an array
unfoldable pub leaf_in : List (String × Leaf) → String → Leaf
leaf_in [] key = null
leaf_in ((name, value) ∷ rest) key = if str_eq name key then value else leaf_in rest key

-- `REPORT_ORDER.index(sport)`, and the sport there.
abbrev pub report_position : Sport → ℕ
report_position mlb = 0
report_position nfl = 1
report_position cfb = 2
report_position nhl = 3
report_position nba = 4
report_position soccer = 5
report_position tennis = 6
report_position other = 7
report_position unresolved = 8

abbrev at : ℕ → Sport
at n =
    if n == 0
    then mlb
    else if n == 1
    then nfl
    else if n == 2
    then cfb
    else if n == 3
    then nhl
    else if n == 4
    then nba
    else if n == 5
    then soccer
    else if n == 6
    then tennis
    else if n == 7
    then other
    else unresolved

at-report_position : (s : Sport) → at (report_position s) ≡ s
at-report_position mlb = refl
at-report_position nfl = refl
at-report_position cfb = refl
at-report_position nhl = refl
at-report_position nba = refl
at-report_position soccer = refl
at-report_position tennis = refl
at-report_position other = refl
at-report_position unresolved = refl

-- `a == b`, `sport in members` and `members.add(sport)`
abbrev pub same_sport : Sport → Sport → Bool
same_sport a b = report_position a == report_position b

pub same_sport-eq : (a b : Sport) → same_sport a b ≡ true → a ≡ b
same_sport-eq a b h =
    let e : report_position a ≡ report_position b = ground (arith, h) in
    sym (at-report_position a) ∙ ap at e ∙ at-report_position b

pub same_sport_refl : (a : Sport) → same_sport a a ≡ true
same_sport_refl a = ground arith

abbrev pub holds_sport : Sport → List Sport → Bool
holds_sport s members = any (λ m. same_sport m s) members

abbrev pub add_sport : Sport → List Sport → List Sport
add_sport s members = if holds_sport s members then members else s ∷ members

-- `sport in ROUTABLE_SPORTS`
abbrev pub is_routable : Sport → Bool
is_routable other = false
is_routable unresolved = false
is_routable _ = true
