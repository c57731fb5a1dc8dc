-- ===== src/Classify/Supported.antt =====
-- What the classification of a market rests on (kalshi_router/classify.py, `classify_market`).
use kalshi_bet_router.Base.{Option, none, some, List, [], ◌∷◌, ◌≡◌, ◌≢◌, ◌⊎◌}
use kalshi_bet_router.Destinations.{Sport, unresolved}
use kalshi_bet_router.Classify.{EvidenceLevel, series_registry, UnresolvedReason, Verdict}
use kalshi_bet_router.Classify.Verdicts.{decides, refuses}
use kalshi_bet_router.Classify.Market.{SportDecision, given}

-- A verdict, if there is one, states the sport.
abbrev pub Concurs : Option Verdict → Sport → Type 0
Concurs none s = Unit
Concurs (some v) s = v.sport ≡ some s

-- A verdict states no other sport.
abbrev pub Allows : Option Verdict → Sport → Type 0
Allows none s = Unit
Allows (some v) s = elim v.sport [ none ↦ Unit | some t ↦ t ≡ s ]

-- The first of the verdicts that states a sport states this one, and its level is the one that decided.
abbrev pub StandsOn : List Verdict → Sport → Option EvidenceLevel → Type 0
StandsOn [] s resolved_by = ⊥
StandsOn (v ∷ rest) s resolved_by = elim v.sport [
  | none ↦ StandsOn rest s resolved_by
  | some t ↦ (t ≡ s) × (resolved_by ≡ some v.level)
]

-- The verdicts on the competition concur, the series does not speak against them, and the strongest verdict
-- decides.
abbrev pub IsSupported :
    Option Verdict
    → Option Verdict
    → Option Verdict
    → Option Verdict
    → Sport
    → Option EvidenceLevel
    → Type 0
IsSupported first second third last s resolved_by =
    Concurs first s
    × Concurs second s
    × Allows third s
    × StandsOn (given (first ∷ second ∷ third ∷ last ∷ [])) s resolved_by

-- What a level says: nothing, a refusal or a sport.
pub data Finding : Type 0 where
  silent : Finding
  refusal : UnresolvedReason → Finding
  ruling : Sport → Finding

abbrev pub said : EvidenceLevel → Finding → Option Verdict
said level silent = none
said level (refusal reason) = some (refuses level reason)
said level (ruling sport) = some (decides level sport)

abbrev pub registry_says : Option Sport → Option Verdict
registry_says none = none
registry_says (some sport) = some (decides series_registry sport)

-- A verdict on the competition that refuses, and two verdicts that state different sports.
abbrev pub IsRefusal : Option Verdict → Type 0
IsRefusal none = ⊥
IsRefusal (some v) = v.sport ≡ none

abbrev pub Opposed : Option Verdict → Option Verdict → Type 0
Opposed (some v) (some w) = elim v.sport [
  | none ↦ ⊥
  | some s ↦ elim w.sport [ none ↦ ⊥ | some t ↦ t ≢ s ]
]
Opposed _ _ = ⊥

abbrev pub NoSport : List Verdict → Type 0
NoSport [] = Unit
NoSport (v ∷ rest) = (v.sport ≡ none) × NoSport rest

-- Why no sport is decided: a refusal of the competition, a series that speaks against it, or silence.
pub data Unsettled (first second third last : Option Verdict) : Type 0 where
  refused_first : IsRefusal first → Unsettled first second third last
  refused_second : IsRefusal second → Unsettled first second third last
  opposed_first : Opposed first third → Unsettled first second third last
  opposed_second : Opposed second third → Unsettled first second third last
  no_sport :
      NoSport (given (first ∷ second ∷ third ∷ last ∷ [])) → Unsettled first second third last

-- A decision for no sport that has such a reason, or one that is supported.
abbrev pub Holds :
    Option Verdict → Option Verdict → Option Verdict → Option Verdict → SportDecision → Type 0
Holds first second third last d =
    ((d.sport ≡ unresolved) × Unsettled first second third last)
    ⊎ IsSupported first second third last d.sport d.resolved_by
