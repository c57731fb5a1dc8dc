-- ===== src/Classify/Rests.antt =====
-- What the classification of a market rests on (kalshi_router/classify.py, `classify_market`).
use kalshi_bet_router.Base.{
  String, Bool, true, false, Option, none, some, List, [], ◌∷◌, ◌≡◌, refl, sym, subst, ◌⊎◌, inl,
  inr, if◌then◌else◌, any, is_none,
}
use kalshi_bet_router.Destinations.{Sport, unresolved, other}
use kalshi_bet_router.Classify.{
  EvidenceLevel, event_competition, sport_taxonomy, milestone, series_metadata, UnresolvedReason,
  competition_unknown, competition_ambiguous, milestone_conflict, evidence_conflict,
  ambiguous_family, Verdict, Signal, MarketContext, Classification,
}
use kalshi_bet_router.Classify.Words.{Letters, is_empty_string}
use kalshi_bet_router.Classify.Vocabulary.{sport_from_competition, sport_from_taxonomy_sport}
use kalshi_bet_router.Classify.Registry.{lookup_series_ticker}
use kalshi_bet_router.Classify.Verdicts.{
  SportTaxonomy, MilestoneIndex, is_contested, catalogue_verdict, catalogue_sport, named_verdict,
  verdict_for, competition_verdict, milestone_decision, is_conflicted, competition_for_event,
  milestone_verdict, registry_verdict,
}
use kalshi_bet_router.Classify.Context.{competition, derive_series_ticker, metadata_schema_error}
use kalshi_bet_router.Classify.Series.{
  leagues_of, authoritative_signals, verdict_on, series_metadata_verdict, is_out_of_scope,
  is_ambiguous,
}
use kalshi_bet_router.Classify.Market.{
  SportDecision, is_competition_level, decide, event_ticker_of, is_given_text, missing_reason,
  is_unresolved_document, first_verdict, second_verdict, third_verdict, last_verdict,
  classify_market,
}
use kalshi_bet_router.Classify.Supported.{
  Finding, silent, refusal, ruling, said, registry_says, Unsettled, Holds, IsSupported,
}
use kalshi_bet_router.Classify.Weighed.{event_decides, milestone_decides}

-- A level of the competition says the verdict.
abbrev IsOfCompetition : Option Verdict → Type 0
IsOfCompetition v =
    (level : EvidenceLevel) × (is_competition_level level ≡ true)
    × (finding : Finding) × (v ≡ said level finding)

-- The level says the verdict.
abbrev IsSaid : EvidenceLevel → Option Verdict → Type 0
IsSaid level v = (finding : Finding) × (v ≡ said level finding)

if-has {ℓ κ} :
    {A : Type ℓ} (P : A → Type κ) (b : Bool) (x y : A) → P x → P y → P (if b then x else y)
if-has P true x y h k = h
if-has P false x y h k = k

option-has {ℓ κ} :
    {A B : Type ℓ} (P : B → Type κ) (o : Option A) (n : B) (f : A → B)
    → P n
    → ((a : A) → P (f a))
    → P (elim o [ none ↦ n | some a ↦ f a ])
option-has P none n f h k = h
option-has P (some a) n f h k = k a

module _ (letters : Letters) (taxonomy : Option SportTaxonomy) where
  catalogue-IsSaid : (o : Option String) → IsOfCompetition (some (catalogue_verdict letters o))
  catalogue-IsSaid none = (event_competition, refl, refusal competition_unknown, refl)
  catalogue-IsSaid (some name) =
      option-has (λ v. IsOfCompetition (some v)) (sport_from_taxonomy_sport letters name) _ _
        (sport_taxonomy, refl, refusal competition_unknown, refl)
        (λ sport. (sport_taxonomy, refl, ruling sport, refl))

  named_verdict-IsSaid :
      (name : String) (o : Option Sport)
      → IsOfCompetition (some (named_verdict letters taxonomy name o))
  named_verdict-IsSaid name none = catalogue-IsSaid (catalogue_sport letters taxonomy name)
  named_verdict-IsSaid name (some direct) = (event_competition, refl, ruling direct, refl)

  verdict_for-IsSaid : (name : String) → IsOfCompetition (some (verdict_for letters taxonomy name))
  verdict_for-IsSaid name =
      if-has (λ v. IsOfCompetition (some v)) (is_contested letters taxonomy name) _ _
        (sport_taxonomy, refl, refusal competition_ambiguous, refl)
        (named_verdict-IsSaid name (sport_from_competition letters name))

  competition_verdict-IsSaid :
      (context : MarketContext) → IsOfCompetition (competition_verdict letters context taxonomy)
  unfolding competition_verdict
  competition_verdict-IsSaid context =
      option-has IsOfCompetition (competition context) _ _ (event_competition, refl, silent, refl)
        verdict_for-IsSaid

module _ (letters : Letters) where
  milestone_decision-IsSaid : (o : Option String) → IsSaid milestone (milestone_decision letters o)
  milestone_decision-IsSaid none = (silent, refl)
  milestone_decision-IsSaid (some name) =
      option-has (IsSaid milestone) (sport_from_competition letters name) _ _ (silent, refl)
        (λ sport. (ruling sport, refl))

  milestone_verdict-IsSaid :
      (index : Option MilestoneIndex) (ticker : Option String)
      → IsSaid milestone (milestone_verdict letters index ticker)
  unfolding milestone_verdict
  milestone_verdict-IsSaid none ticker = (silent, refl)
  milestone_verdict-IsSaid (some index) none = (silent, refl)
  milestone_verdict-IsSaid (some index) (some ticker) =
      if-has (IsSaid milestone) (is_empty_string ticker) _ _ (silent, refl)
        (if-has (IsSaid milestone) (is_conflicted letters index ticker) _ _
          (refusal milestone_conflict, refl)
          (milestone_decision-IsSaid (competition_for_event letters index ticker)))

  verdict_on-IsSaid :
      (leagues : List Sport) (found : List Signal)
      → IsSaid series_metadata (verdict_on leagues found)
  verdict_on-IsSaid (a ∷ b ∷ rest) found = (refusal evidence_conflict, refl)
  verdict_on-IsSaid (a ∷ []) found = (ruling a, refl)
  verdict_on-IsSaid [] found =
      if-has (IsSaid series_metadata) (any (is_out_of_scope "sport") found) _ _ (ruling other, refl)
        (if-has (IsSaid series_metadata) (any is_ambiguous found) _ _
          (refusal ambiguous_family, refl)
          (if-has (IsSaid series_metadata) (any (is_out_of_scope "category") found) _ _
            (ruling other, refl) (silent, refl)))

  series_metadata_verdict-IsSaid :
      (context : MarketContext) → IsSaid series_metadata (series_metadata_verdict letters context)
  unfolding series_metadata_verdict
  series_metadata_verdict-IsSaid context =
      verdict_on-IsSaid (leagues_of (authoritative_signals letters context))
        (authoritative_signals letters context)

  registry_verdict-IsRegistered :
      (ticker : Option String)
      → (o : Option Sport) × (registry_verdict letters ticker ≡ registry_says o)
  unfolding registry_verdict
  registry_verdict-IsRegistered ticker =
      option-has (λ v. (o : Option Sport) × (v ≡ registry_says o))
        (lookup_series_ticker letters ticker) _ _ (none, refl) (λ found. (some found.sport, refl))

-- What the levels say, in the order they are asked.
said_in_order :
    (missing : UnresolvedReason) (first asked third last : Option Verdict)
    → IsOfCompetition first
    → IsSaid milestone asked
    → IsSaid series_metadata third
    → (o : Option Sport) × (last ≡ registry_says o)
    → Holds first
        (if is_none first then asked else none)
        third
        last
        (decide missing first (if is_none first then asked else none) third last)
said_in_order missing first asked third last f m t l =
    subst
      (λ v.
        Holds v (if is_none v then asked else none) third last
          (decide missing v (if is_none v then asked else none) third last))
      (sym f.3)
      (subst
        (λ v.
          Holds said_first (if is_none said_first then v else none) third last
            (decide missing said_first (if is_none said_first then v else none) third last))
        (sym m.1)
        (subst
          (λ v. Holds said_first said_second v last (decide missing said_first said_second v last))
          (sym t.1)
          (subst
            (λ v.
              Holds said_first said_second (said series_metadata t.0) v
                (decide missing said_first said_second (said series_metadata t.0) v))
            (sym l.1) (go f.2))))
  where
    said_first : Option Verdict
    said_first = said f.0 f.2

    said_second : Option Verdict
    said_second = if is_none said_first then said milestone m.0 else none

    go :
        (finding : Finding)
        → Holds
            (said f.0 finding)
            (if is_none (said f.0 finding) then said milestone m.0 else none)
            (said series_metadata t.0)
            (registry_says l.0)
            (decide missing
              (said f.0 finding)
              (if is_none (said f.0 finding) then said milestone m.0 else none)
              (said series_metadata t.0)
              (registry_says l.0))
    go silent = milestone_decides missing t.0 l.0 m.0
    go (refusal r) = event_decides missing t.0 l.0 f.0 (refusal r) f.1
    go (ruling s) = event_decides missing t.0 l.0 f.0 (ruling s) f.1

if-cases {ℓ κ} :
    {A : Type ℓ} (P : A → Type κ) (b : Bool) (x y : A)
    → (b ≡ true → P x)
    → (b ≡ false → P y)
    → P (if b then x else y)
if-cases P true x y h k = h refl
if-cases P false x y h k = k refl

-- Why the metadata of the market is not read, and that it is.
pub data Unread (context : MarketContext) : Type 0 where
  lookup_failed : is_given_text context.lookup_error ≡ true → Unread context
  malformed : metadata_schema_error context ≡ true → Unread context
  no_document : is_unresolved_document context ≡ true → Unread context

abbrev pub IsRead : MarketContext → Type 0
IsRead context =
    (is_given_text context.lookup_error ≡ false)
    × (metadata_schema_error context ≡ false)
    × (is_unresolved_document context ≡ false)

module _ (letters : Letters) (taxonomy : Option SportTaxonomy) (index : Option MilestoneIndex)
    (context : MarketContext) where
  abbrev HoldsHere : SportDecision → Type 0
  HoldsHere d =
      Holds (first_verdict letters taxonomy index context)
        (second_verdict letters taxonomy index context)
        (third_verdict letters taxonomy index context) (last_verdict letters taxonomy index context)
        d

  -- Metadata that is not read gives no sport; of metadata that is, there is no sport, for a reason, or it is
  -- supported.
  abbrev pub IsJustified : Classification → Type 0
  IsJustified c =
      ((c.sport ≡ unresolved) × Unread context)
      ⊎ (IsRead context
          × (((c.sport ≡ unresolved)
                × Unsettled (first_verdict letters taxonomy index context)
                    (second_verdict letters taxonomy index context)
                    (third_verdict letters taxonomy index context)
                    (last_verdict letters taxonomy index context))
              ⊎ IsSupported (first_verdict letters taxonomy index context)
                  (second_verdict letters taxonomy index context)
                  (third_verdict letters taxonomy index context)
                  (last_verdict letters taxonomy index context) c.sport c.resolved_by))

  decided : HoldsHere (
      decide
        (missing_reason context)
        (first_verdict letters taxonomy index context)
        (second_verdict letters taxonomy index context)
        (third_verdict letters taxonomy index context)
        (last_verdict letters taxonomy index context))
  unfolding first_verdict second_verdict third_verdict last_verdict
  decided =
      said_in_order (missing_reason context) _ _ _ _
        (competition_verdict-IsSaid letters taxonomy context)
        (milestone_verdict-IsSaid letters index (event_ticker_of context))
        (series_metadata_verdict-IsSaid letters context)
        (registry_verdict-IsRegistered letters (derive_series_ticker context).0)

  -- A market whose lookup failed, whose event metadata is malformed or that has no document is unresolved.
  -- Of another, each level gives a verdict: that of the event's competition, or of the milestone if the event
  -- names none, then that of the series and that of the registry; a milestone whose competition is not
  -- recognised gives none. The market is left unresolved only where the verdict on the competition refuses,
  -- the series states another sport than the competition, or no verdict states a sport. Else its sport is
  -- supported: the verdict on the competition, if there is one, states that sport, the series states no
  -- other, and the strongest verdict that states a sport states this one and its level is recorded as the one
  -- that decided.
  pub classify_market-IsJustified : IsJustified (classify_market letters taxonomy index context)
  unfolding classify_market
  classify_market-IsJustified =
      if-cases IsJustified (is_given_text context.lookup_error) _ _
        (λ e. inl (refl, lookup_failed e))
        (λ found.
          if-cases IsJustified (metadata_schema_error context) _ _ (λ e. inl (refl, malformed e))
            (λ sound.
              if-cases IsJustified (is_unresolved_document context) _ _
                (λ e. inl (refl, no_document e)) (λ there. inr ((found, sound, there), decided))))
