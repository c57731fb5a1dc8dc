-- ===== src/Classify/Placed.antt =====
-- What places a combo in a sport (kalshi_router/classify.py, `classify_with_legs`).
use kalshi_bet_router.Base.{
  String, Bool, Bool-cases, true, false, not, ◌&&◌, Option, none, some, List, [], ◌∷◌, ◌≡◌, refl,
  sym, ap, ◌∙◌, subst, ◌⊎◌, inl, inr, ◌↔◌, if◌then◌else◌, arith,
}
use kalshi_bet_router.Destinations.{Sport, unresolved}
use kalshi_bet_router.Classify.{
  evidence_conflict, combo_legs_unavailable, MarketContext, Classification, same_sport,
  same_sport-eq, same_sport_refl, add_sport, is_routable,
}
use kalshi_bet_router.Classify.Words.{Letters}
use kalshi_bet_router.Classify.Verdicts.{SportTaxonomy, MilestoneIndex}
use kalshi_bet_router.Classify.Market.{classify_market}
use kalshi_bet_router.Classify.Legs.{
  is_combo, leg_tickers, is_completable, refuse, complete_with_legs, with_leg, leg_sports, conclude,
  by_legs, classify_with_legs,
}
use kalshi_bet_router.Classify.EachLeg.{
  EachIs, sports_of, LegIs-leg_sport, leg_sports-all, leg_sports-only,
}

routable-stated : (s : Sport) → is_routable s ≡ true → same_sport s unresolved ≡ false
routable-stated s h = elim (Bool-cases (same_sport s unresolved)) [
  | inl e ↦
      let absurd : false ≡ true =
        subst (λ t. is_routable t ≡ true) (same_sport-eq s unresolved e) h in
      ground (arith, absurd)
  | inr e ↦ e
]

module _ (letters : Letters) (taxonomy : Option SportTaxonomy) (index : Option MilestoneIndex)
    (resolve_leg : String → MarketContext) where
  -- Every leg is a single market that is classified into the sport.
  abbrev pub Each : Sport → List String → Type 0
  Each s tickers = EachIs letters taxonomy index resolve_leg s tickers

  abbrev listed_sports : List String → List Sport → Option (List Sport)
  listed_sports tickers seen = sports_of letters taxonomy index resolve_leg tickers seen

  -- There are legs, all are stated, and each is of the sport.
  abbrev pub LegsAre : Sport → Option (List String) → Type 0
  LegsAre s none = ⊥
  LegsAre s (some []) = ⊥
  LegsAre s (some (t ∷ ts)) = Each s (t ∷ ts)

  -- The legs are not all stated, or are all of the sport.
  abbrev pub Backed : Sport → Option (List String) → Type 0
  Backed s none = Unit
  Backed s (some tickers) = LegsAre s (some tickers)

  -- The combo's own evidence places it in the sport and its legs do not object, or its own evidence is silent
  -- and its legs place it.
  abbrev pub IsPlaced : Classification → Option (List String) → Sport → Type 0
  IsPlaced base tickers s =
      ((base.sport ≡ s) × Backed s tickers)
      ⊎ ((base.sport ≡ unresolved)
          × (is_completable base.unresolved_reason ≡ true)
          × LegsAre s tickers)

  -- A sport that is routable is not `unresolved`.
  not_stated :
      (base : Classification) (s : Sport)
      → is_routable s ≡ true
      → base.sport ≡ s
      → same_sport base.sport unresolved ≡ false
  not_stated base s r h = ap (λ t. same_sport t unresolved) h ∙ routable-stated s r

  refused_not {ℓ} : {A : Type ℓ} (s : Sport) → is_routable s ≡ true → unresolved ≡ s → A
  refused_not s r h =
      let absurd : false ≡ true = subst (λ t. is_routable t ≡ true) (sym h) r in
      ground (arith, absurd)

  concluded-IsPlaced :
      (base : Classification) (t : String) (ts : List String) (s : Sport)
      → is_routable s ≡ true
      → (same_sport base.sport unresolved ≡ true → is_completable base.unresolved_reason ≡ true)
      → (sports : Option (List Sport)) → listed_sports (t ∷ ts) [] ≡ sports
      → (conclude letters taxonomy index resolve_leg base (t ∷ ts) sports).sport ≡ s
      → IsPlaced base (some (t ∷ ts)) s
  unfolding conclude
  concluded-IsPlaced base t ts s r c none e h = refused_not s r h
  concluded-IsPlaced base t ts s r c (some []) e h = refused_not s r h
  concluded-IsPlaced base t ts s r c (some (x ∷ y ∷ rest)) e h = refused_not s r h
  concluded-IsPlaced base t ts s r c (some (x ∷ [])) e h =
      go (same_sport base.sport unresolved) (same_sport base.sport x) refl refl h
        (leg_sports-only letters taxonomy index resolve_leg x (t ∷ ts) [] e).0
    where
      go :
          (apart same : Bool)
          → same_sport base.sport unresolved ≡ apart
          → same_sport base.sport x ≡ same
          → (if apart
              then complete_with_legs base (t ∷ ts) x
              else if same
              then base
              else refuse base evidence_conflict).sport
            ≡ s
          → Each x (t ∷ ts)
          → IsPlaced base (some (t ∷ ts)) s
      go true same u v k each =
          inr (same_sport-eq base.sport unresolved u, c u, subst (λ z. Each z (t ∷ ts)) k each)
      go false true u v k each =
          inl (k, subst (λ z. Each z (t ∷ ts)) (sym (same_sport-eq base.sport x v) ∙ k) each)
      go false false u v k each = refused_not s r k

  all-concluded :
      (base : Classification) (t : String) (ts : List String) (s : Sport)
      → is_routable s ≡ true
      → (base.sport ≡ unresolved) ⊎ (base.sport ≡ s)
      → Each s (t ∷ ts)
      → (by_legs letters taxonomy index resolve_leg base (some (t ∷ ts))).sport ≡ s
  unfolding by_legs conclude leg_sports
  all-concluded base t ts s r own each =
      ap (λ o. (conclude letters taxonomy index resolve_leg base (t ∷ ts) o).sport)
        (ap (λ o. with_leg o (λ sport. listed_sports ts (add_sport sport [])))
            (LegIs-leg_sport letters taxonomy index resolve_leg s t r each.0)
          ∙ leg_sports-all letters taxonomy index resolve_leg s ts r each.1)
      ∙ go own
    where
      go :
          (base.sport ≡ unresolved) ⊎ (base.sport ≡ s)
          → (if same_sport base.sport unresolved
              then complete_with_legs base (t ∷ ts) s
              else if same_sport base.sport s
              then base
              else refuse base evidence_conflict).sport
            ≡ s
      go (inl u) =
          ap
            (λ b.
              (if b
                then complete_with_legs base (t ∷ ts) s
                else if same_sport base.sport s
                then base
                else refuse base evidence_conflict).sport)
            (ap (λ z. same_sport z unresolved) u)
      go (inr u) =
          ap
            (λ b.
              (if b
                then complete_with_legs base (t ∷ ts) s
                else if same_sport base.sport s
                then base
                else refuse base evidence_conflict).sport)
            (not_stated base s r u)
          ∙ ap (λ b. (if b then base else refuse base evidence_conflict).sport)
              (ap (λ z. same_sport z s) u ∙ same_sport_refl s)
          ∙ u

  by_legs-IsPlaced :
      (base : Classification) (tickers : Option (List String)) (s : Sport)
      → is_routable s ≡ true
      → (same_sport base.sport unresolved ≡ true → is_completable base.unresolved_reason ≡ true)
      → (by_legs letters taxonomy index resolve_leg base tickers).sport ≡ s
      → IsPlaced base tickers s
  unfolding by_legs conclude leg_sports
  by_legs-IsPlaced base none s r c h = go (same_sport base.sport unresolved) h
    where
      go :
          (apart : Bool)
          → (if apart then refuse base combo_legs_unavailable else base).sport ≡ s
          → IsPlaced base none s
      go true k = refused_not s r k
      go false k = inl (k, tt)
  by_legs-IsPlaced base (some []) s r c h = refused_not s r h
  by_legs-IsPlaced base (some (t ∷ ts)) s r c h =
      concluded-IsPlaced base t ts s r c (listed_sports (t ∷ ts) []) refl h

  placed-by_legs :
      (base : Classification) (tickers : Option (List String)) (s : Sport)
      → is_routable s ≡ true
      → IsPlaced base tickers s
      → (by_legs letters taxonomy index resolve_leg base tickers).sport ≡ s
  unfolding by_legs
  placed-by_legs base none s r (inl own) =
      ap (λ b. (if b then refuse base combo_legs_unavailable else base).sport)
        (not_stated base s r own.0)
      ∙ own.0
  placed-by_legs base none s r (inr legs) = elim legs.2 [ ]
  placed-by_legs base (some []) s r (inl own) = elim own.1 [ ]
  placed-by_legs base (some []) s r (inr legs) = elim legs.2 [ ]
  placed-by_legs base (some (t ∷ ts)) s r (inl own) = all-concluded base t ts s r (inr own.0) own.1
  placed-by_legs base (some (t ∷ ts)) s r (inr legs) =
      all-concluded base t ts s r (inl legs.0) legs.2

  -- A combo is classified into a routable sport exactly where its own evidence places it there and the
  -- tickers of its legs, if `leg_tickers` gives any, agree; or where its own evidence is one that legs may
  -- complete, and `leg_tickers` gives tickers, each of a single market that is classified into that sport.
  pub classify_with_legs-by_tickers :
      (context : MarketContext) (s : Sport)
      → is_combo context.market ≡ true
      → is_routable s ≡ true
      → ((classify_with_legs letters taxonomy index resolve_leg context).sport ≡ s)
        ↔ IsPlaced (classify_market letters taxonomy index context) (leg_tickers context.market) s
  unfolding classify_with_legs
  classify_with_legs-by_tickers context s combo r = (
    λ h.
        forth (is_combo context.market) (same_sport base.sport unresolved)
          (is_completable base.unresolved_reason) combo refl refl h,
    λ p.
        back (is_combo context.market) (same_sport base.sport unresolved)
          (is_completable base.unresolved_reason) combo refl refl p,
  )
    where
      base : Classification
      base = classify_market letters taxonomy index context

      legs : Classification
      legs = by_legs letters taxonomy index resolve_leg base (leg_tickers context.market)

      forth :
          (b apart can : Bool)
          → b ≡ true
          → same_sport base.sport unresolved ≡ apart
          → is_completable base.unresolved_reason ≡ can
          → (if not b then base else if apart && not can then base else legs).sport ≡ s
          → IsPlaced base (leg_tickers context.market) s
      forth false apart can e u v h = ground (arith, e)
      forth true true false e u v h =
          refused_not s r (sym (same_sport-eq base.sport unresolved u) ∙ h)
      forth true true true e u v h =
          by_legs-IsPlaced base (leg_tickers context.market) s r (λ w. v) h
      forth true false can e u v h =
          by_legs-IsPlaced base (leg_tickers context.market) s r (λ w. ground (arith, u, w)) h

      back :
          (b apart can : Bool)
          → b ≡ true
          → same_sport base.sport unresolved ≡ apart
          → is_completable base.unresolved_reason ≡ can
          → IsPlaced base (leg_tickers context.market) s
          → (if not b then base else if apart && not can then base else legs).sport ≡ s
      back false apart can e u v p = ground (arith, e)
      back true true false e u v (inl own) =
          refused_not s r (sym (same_sport-eq base.sport unresolved u) ∙ own.0)
      back true true false e u v (inr own) =
          let absurd : false ≡ true = sym v ∙ own.1 in ground (arith, absurd)
      back true true true e u v p = placed-by_legs base (leg_tickers context.market) s r p
      back true false can e u v p = placed-by_legs base (leg_tickers context.market) s r p
