-- ===== src/Classify/EachLeg.antt =====
-- The legs of a combo and their sports (kalshi_router/classify.py, `classify_with_legs`).
use kalshi_bet_router.Base.{
  String, Bool, Bool-cases, true, false, ◌||◌, Option, none, some, List, [], ◌∷◌, ◌≡◌, refl, sym,
  ap, ◌∙◌, subst, inl, inr, if◌then◌else◌, All, arith,
}
use kalshi_bet_router.Destinations.{Sport}
use kalshi_bet_router.Classify.{
  MarketContext, same_sport, same_sport-eq, same_sport_refl, holds_sport, add_sport, is_routable,
}
use kalshi_bet_router.Classify.Words.{Letters}
use kalshi_bet_router.Classify.Verdicts.{SportTaxonomy, MilestoneIndex}
use kalshi_bet_router.Classify.Market.{classify_market}
use kalshi_bet_router.Classify.Legs.{is_combo, leg_sport, with_leg, leg_sports}

-- An optional sport is this one, if there is one.
abbrev Same : Sport → Option Sport → Type 0
Same s none = Unit
Same s (some t) = t ≡ s

-- What an optional list of sports holds.
abbrev Within : Sport → Option (List Sport) → Type 0
Within s none = Unit
Within s (some members) = All (λ m. m ≡ s) members

held : (s y : Sport) (seen : List Sport) → All (λ m. m ≡ s) seen → holds_sport y seen ≡ true → y ≡ s
held s y [] h e = ground (arith, e)
held s y (m ∷ seen) h e = elim (Bool-cases (same_sport m y)) [
  | inl same ↦ sym (same_sport-eq m y same) ∙ h.0
  | inr differs ↦ held s y seen h.1 (ground (arith, e, differs))
]

added :
    (s y : Sport) (seen : List Sport)
    → All (λ m. m ≡ s) (add_sport y seen)
    → (y ≡ s) × All (λ m. m ≡ s) seen
added s y seen h = elim (Bool-cases (holds_sport y seen)) [
  | inl e ↦
      let kept : All (λ m. m ≡ s) seen =
        subst (λ b. All (λ m. m ≡ s) (if b then seen else y ∷ seen)) e h in
      (held s y seen kept e, kept)
  | inr e ↦ subst (λ b. All (λ m. m ≡ s) (if b then seen else y ∷ seen)) e h
]

module _ (letters : Letters) (taxonomy : Option SportTaxonomy) (index : Option MilestoneIndex)
    (resolve_leg : String → MarketContext) where
  -- A leg is a single market that is classified into the sport.
  abbrev pub LegIs : Sport → String → Type 0
  LegIs s ticker =
      (is_combo (resolve_leg ticker).market ≡ false)
      × ((classify_market letters taxonomy index (resolve_leg ticker)).sport ≡ s)

  leg_sport-LegIs :
      (s : Sport) (t : String) → leg_sport letters taxonomy index resolve_leg t ≡ some s → LegIs s t
  unfolding leg_sport
  leg_sport-LegIs s t h = go (is_combo (resolve_leg t).market) (is_routable sport) refl h
    where
      sport : Sport
      sport = (classify_market letters taxonomy index (resolve_leg t)).sport

      go :
          (b r : Bool)
          → is_combo (resolve_leg t).market ≡ b
          → (if b then none else if r then some sport else none) ≡ some s
          → LegIs s t
      go true r e k = ground (arith, k)
      go false false e k = ground (arith, k)
      go false true e k = (e, subst (Same s) (sym k) refl)

  pub LegIs-leg_sport :
      (s : Sport) (t : String)
      → is_routable s ≡ true
      → LegIs s t
      → leg_sport letters taxonomy index resolve_leg t ≡ some s
  unfolding leg_sport
  LegIs-leg_sport s t r h =
      ap
        (λ b.
          if b
          then none
          else if is_routable (classify_market letters taxonomy index (resolve_leg t)).sport
          then some (classify_market letters taxonomy index (resolve_leg t)).sport
          else none)
        h.0
      ∙ ap (λ z. if is_routable z then some z else none) h.1
      ∙ ap (λ b. if b then some s else none) r

  -- Every leg is.
  abbrev pub EachIs : Sport → List String → Type 0
  EachIs s tickers = All (LegIs s) tickers

  abbrev pub sports_of : List String → List Sport → Option (List Sport)
  sports_of tickers seen = leg_sports letters taxonomy index resolve_leg tickers seen

  pub leg_sports-all :
      (s : Sport) (tickers : List String)
      → is_routable s ≡ true
      → EachIs s tickers
      → sports_of tickers (s ∷ []) ≡ some (s ∷ [])
  unfolding leg_sports
  leg_sports-all s [] r h = refl
  leg_sports-all s (t ∷ ts) r h =
      ap (λ o. with_leg o (λ sport. sports_of ts (add_sport sport (s ∷ []))))
        (LegIs-leg_sport s t r h.0)
      ∙ ap (λ b. sports_of ts (if b || false then s ∷ [] else s ∷ s ∷ [])) (same_sport_refl s)
      ∙ leg_sports-all s ts r h.1

  pub leg_sports-only :
      (s : Sport) (tickers : List String) (seen : List Sport)
      → sports_of tickers seen ≡ some (s ∷ [])
      → EachIs s tickers × All (λ m. m ≡ s) seen
  unfolding leg_sports
  leg_sports-only s [] seen h = (tt, subst (Within s) (sym h) (refl, tt))
  leg_sports-only s (t ∷ ts) seen h =
      go (leg_sport letters taxonomy index resolve_leg t) refl h
        (λ seen k. leg_sports-only s ts seen k)
    where
      go :
          (o : Option Sport)
          → leg_sport letters taxonomy index resolve_leg t ≡ o
          → with_leg o (λ sport. sports_of ts (add_sport sport seen)) ≡ some (s ∷ [])
          → ((seen : List Sport)
              → sports_of ts seen ≡ some (s ∷ [])
              → EachIs s ts × All (λ m. m ≡ s) seen)
          → EachIs s (t ∷ ts) × All (λ m. m ≡ s) seen
      go none e k ih = ground (arith, k)
      go (some y) e k ih =
          let rest = ih (add_sport y seen) k in
          let this = added s y seen rest.1 in
          ((leg_sport-LegIs s t (e ∙ ap (λ z. some z) this.0), rest.0), this.1)
