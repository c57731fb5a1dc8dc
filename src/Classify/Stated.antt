-- ===== src/Classify/Stated.antt =====
-- What places a combo in a sport, by the entries of its legs field (kalshi_router/classify.py,
-- `classify_with_legs`, and kalshi_router/refusals.py, `combo_legs`).
use kalshi_bet_router.Base.{
  String, true, Option, none, some, List, [], ◌∷◌, ◌≡◌, refl, sym, ◌∙◌, subst, ◌⊎◌, inl, inr, ◌↔◌,
  ap, map, All, arith,
}
use kalshi_bet_router.Destinations.{Sport, unresolved}
use kalshi_bet_router.Classify.{
  MarketContext, Classification, ArrayItem, plain, entry, Field, scalar, items, get_field,
  is_routable,
}
use kalshi_bet_router.Classify.Words.{Letters}
use kalshi_bet_router.Classify.Verdicts.{SportTaxonomy, MilestoneIndex}
use kalshi_bet_router.Classify.Market.{classify_market}
use kalshi_bet_router.Classify.Legs.{
  is_combo, leg_market_ticker, all_stated, none_if_empty, objects, objects_in, leg_tickers,
  is_completable, classify_with_legs,
}
use kalshi_bet_router.Classify.EachLeg.{LegIs, EachIs}
use kalshi_bet_router.Classify.Placed.{IsPlaced, classify_with_legs-by_tickers}

-- The entries of a field that is a list.
abbrev pub entries : Field → List ArrayItem
entries (scalar leaf) = []
entries (items members) = members

-- One entry is an object.
abbrev pub HasLeg : List ArrayItem → Type 0
HasLeg [] = ⊥
HasLeg (plain leaf ∷ rest) = HasLeg rest
HasLeg (entry fields ∷ rest) = Unit

-- One of the objects names no market.
abbrev pub IsUnstated : List ArrayItem → Type 0
IsUnstated [] = ⊥
IsUnstated (plain leaf ∷ rest) = IsUnstated rest
IsUnstated (entry fields ∷ rest) = (leg_market_ticker fields ≡ none) ⊎ IsUnstated rest

abbrev IsFilled : List String → Type 0
IsFilled [] = ⊥
IsFilled (t ∷ ts) = Unit

absurd_ticker {ℓ} : {A : Type ℓ} (t : String) → some t ≡ none → A
absurd_ticker t h = ground (arith, h)

some_inj : {a b : String} → some a ≡ some b → a ≡ b
some_inj {a} h = ap (λ o. elim o [ none ↦ a | some c ↦ c ]) h

module _ (letters : Letters) (taxonomy : Option SportTaxonomy) (index : Option MilestoneIndex)
    (resolve_leg : String → MarketContext) where
  -- An entry that is an object names a single market, which is classified into the sport; another says nothing.
  abbrev pub EntryIs : Sport → ArrayItem → Type 0
  EntryIs s (plain leaf) = Unit
  EntryIs s (entry fields) =
      (t : String) × (leg_market_ticker fields ≡ some t)
      × LegIs letters taxonomy index resolve_leg s t

  abbrev pub IsPlacedBy : Classification → List ArrayItem → Sport → Type 0
  IsPlacedBy base members s =
      ((base.sport ≡ s) × (IsUnstated members ⊎ All (EntryIs s) members))
      ⊎ ((base.sport ≡ unresolved)
          × (is_completable base.unresolved_reason ≡ true)
          × HasLeg members
          × All (EntryIs s) members)

  abbrev tickers_in : List ArrayItem → Option (List String)
  tickers_in members = all_stated (map leg_market_ticker (objects members))

  -- What the list of the tickers says of the entries.
  abbrev Told : Sport → List ArrayItem → Option (List String) → Type 0
  Told s members none = IsUnstated members × (All (EntryIs s) members → ⊥)
  Told s members (some ts) =
      (IsUnstated members → ⊥)
      × (All (EntryIs s) members ↔ EachIs letters taxonomy index resolve_leg s ts)
      × (HasLeg members ↔ IsFilled ts)

  told : (s : Sport) (members : List ArrayItem) → Told s members (tickers_in members)
  told s [] = ((λ u. u), (λ a. tt, λ e. tt), (λ h. h, λ h. h))
  told s (plain leaf ∷ rest) = skip (tickers_in rest) (told s rest)
    where
      skip : (o : Option (List String)) → Told s rest o → Told s (plain leaf ∷ rest) o
      skip none h = (h.0, λ a. h.1 a.1)
      skip (some ts) h = (h.0, (λ a. h.1.0 a.1, λ e. (tt, h.1.1 e)), h.2)
  told s (entry fields ∷ rest) = first (leg_market_ticker fields) refl (told s rest)
    where
      named :
          (t : String)
          → leg_market_ticker fields ≡ some t
          → (o : Option (List String)) → Told s rest o
          → Told s
              (entry fields ∷ rest)
              (elim o [ none ↦ none | some tickers ↦ some (t ∷ tickers) ])
      named t e none h = (inr h.0, λ a. h.1 a.1)
      named t e (some ts) h = (
        λ u. elim u [ inl n ↦ absurd_ticker t (sym e ∙ n) | inr v ↦ h.0 v ],
        (
          λ a. (
            subst (LegIs letters taxonomy index resolve_leg s) (some_inj (sym a.0.1 ∙ e)) a.0.2,
            h.1.0 a.1,
          ),
          λ each. ((t, e, each.0), h.1.1 each.1),
        ),
        (λ u. tt, λ u. tt),
      )

      first :
          (o : Option String)
          → leg_market_ticker fields ≡ o
          → Told s rest (tickers_in rest)
          → Told s (entry fields ∷ rest) (all_stated (o ∷ map leg_market_ticker (objects rest)))
      first none e h = (inl e, λ a. absurd_ticker a.0.0 (sym a.0.1 ∙ e))
      first (some t) e h = named t e (tickers_in rest) h

  -- The two ways to say where a combo is placed agree.
  by_entries :
      (base : Classification) (members : List ArrayItem) (s : Sport) (o : Option (List String))
      → Told s members o
      → IsPlaced letters taxonomy index resolve_leg base (none_if_empty o) s
        ↔ IsPlacedBy base members s
  by_entries base members s none h = (
    λ p. elim p [ inl own ↦ inl (own.0, inl h.0) | inr legs ↦ elim legs.2 [ ] ],
    λ p. elim p [ inl own ↦ inl (own.0, tt) | inr legs ↦ elim (h.1 legs.3) [ ] ],
  )
  by_entries base members s (some []) h = (
    λ p. elim p [ inl own ↦ inl (own.0, inr (h.1.1 tt)) | inr legs ↦ elim legs.2 [ ] ],
    λ p. elim p [ inl own ↦ inl (own.0, tt) | inr legs ↦ elim (h.2.0 legs.2) [ ] ],
  )
  by_entries base members s (some (t ∷ ts)) h = (
    λ p. elim p [
      | inl own ↦ inl (own.0, inr (h.1.1 own.1))
      | inr legs ↦ inr (legs.0, legs.1, h.2.1 tt, h.1.1 legs.2)
    ],
    λ p. elim p [
      | inl own ↦ inl (own.0, elim own.1 [ inl u ↦ elim (h.0 u) [ ] | inr a ↦ h.1.0 a ])
      | inr legs ↦ inr (legs.0, legs.1, h.1.0 legs.3)
    ],
  )

  -- A combo is classified into a routable sport exactly where its own evidence places it there, and an
  -- object among the entries of its legs field names no market or all of them are of that sport; or where
  -- its own evidence is one that legs may complete, an entry is an object, and every entry that is one names
  -- a single market that is classified into that sport. An entry that is no object is passed over.
  pub classify_with_legs-IsPlaced :
      (context : MarketContext) (s : Sport)
      → is_combo context.market ≡ true
      → is_routable s ≡ true
      → ((classify_with_legs letters taxonomy index resolve_leg context).sport ≡ s)
        ↔ IsPlacedBy
            (classify_market letters taxonomy index context)
            (entries (get_field context.market "mve_selected_legs"))
            s
  unfolding leg_tickers
  classify_with_legs-IsPlaced context s combo r =
      let placed =
        classify_with_legs-by_tickers letters taxonomy index resolve_leg context s combo r in
      let base = classify_market letters taxonomy index context in
      go base (get_field context.market "mve_selected_legs") placed
    where
      go :
          (base : Classification) (field : Field)
          → ((classify_with_legs letters taxonomy index resolve_leg context).sport ≡ s)
            ↔ IsPlaced letters taxonomy index resolve_leg base
                (none_if_empty (all_stated (map leg_market_ticker (objects_in field))))
                s
          → ((classify_with_legs letters taxonomy index resolve_leg context).sport ≡ s)
            ↔ IsPlacedBy base (entries field) s
      go base (scalar leaf) placed =
          let same = by_entries base [] s (some []) (told s []) in
          (λ h. same.0 (placed.0 h), λ p. placed.1 (same.1 p))
      go base (items members) placed =
          let same = by_entries base members s (tickers_in members) (told s members) in
          (λ h. same.0 (placed.0 h), λ p. placed.1 (same.1 p))
