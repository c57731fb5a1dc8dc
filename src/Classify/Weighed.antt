-- ===== src/Classify/Weighed.antt =====
-- The decision over the verdicts is a supported one (kalshi_router/classify.py, `classify_market`).
use kalshi_bet_router.Base.{
  ℕ, Bool, true, false, ◌||◌, Option, none, some, List, [], ◌∷◌, ◌≡◌, ◌≢◌, refl, sym, ap, subst,
  ◌⊎◌, inl, inr, if◌then◌else◌, leb, ◌∙◌, filter, arith,
}
use kalshi_bet_router.Destinations.{Sport, unresolved}
use kalshi_bet_router.Classify.{
  EvidenceLevel, event_competition, sport_taxonomy, milestone, series_metadata, series_registry,
  combo_legs, UnresolvedReason, Verdict, same_sport, same_sport-eq, same_sport_refl,
}
use kalshi_bet_router.Classify.Verdicts.{decides}
use kalshi_bet_router.Classify.Market.{
  given, stated_sport, rank, is_competition_level, place_by_level, by_level, overruled, best_of,
  won_by, with_conflict, is_decisive, decide,
}
use kalshi_bet_router.Classify.Supported.{
  IsSupported, Unsettled, refused_first, refused_second, opposed_first, opposed_second, no_sport,
  Finding, silent, refusal, ruling, said, registry_says, Holds,
}

-- An answer that is no conflict.
abbrev Answered : Option Bool → Type 0
Answered none = ⊥
Answered (some conflict) = Unit

registry-Answered :
    (winner : Verdict) (c : Sport) → Answered (overruled winner (decides series_registry c ∷ []))
registry-Answered winner c = go (same_sport c (stated_sport winner))
  where
    go : (b : Bool) → Answered (if b then some false else some true)
    go true = tt
    go false = tt

-- The levels of the competition come before the others.
before_others :
    (level : EvidenceLevel) (n : ℕ)
    → is_competition_level level ≡ true
    → leb 3 n ≡ true
    → leb (rank level) n ≡ true
before_others event_competition n h e = ground arith
before_others sport_taxonomy n h e = ground (arith, e)
before_others milestone n h e = ground (arith, e)
before_others series_metadata n h e = ground (arith, h)
before_others series_registry n h e = ground (arith, h)
before_others combo_legs n h e = ground (arith, h)

-- A verdict of those levels stays before the others.
placed_first :
    (level : EvidenceLevel) (a : Sport) (v : Verdict) (rest : List Verdict)
    → is_competition_level level ≡ true
    → leb 3 (rank v.level) ≡ true
    → place_by_level (decides level a) (v ∷ rest) ≡ decides level a ∷ v ∷ rest
placed_first level a v rest h e =
    ap (λ b. if b then decides level a ∷ v ∷ rest else v ∷ place_by_level (decides level a) rest)
      (before_others level (rank v.level) h e)

-- A decision by the first verdict.
won :
    (winner : Verdict) (s : Sport) (answer : Option Bool) (Q : Type 0)
    (P : Sport → Option EvidenceLevel → Type 0)
    → Answered answer
    → stated_sport winner ≡ s
    → P s (some winner.level)
    → (((won_by winner answer).sport ≡ unresolved) × Q)
      ⊎ P (won_by winner answer).sport (won_by winner answer).resolved_by
won winner s none Q P given_answer e h = elim given_answer [ ]
won winner s (some conflict) Q P given_answer e h =
    inr (subst (λ t. P t (some winner.level)) (sym e) h)

-- A sport of the competition with what the series and the registry say.
module _ (level : EvidenceLevel) (is_first : is_competition_level level ≡ true)
    (missing : UnresolvedReason) (vs : List Verdict) (a : Sport) (Q : Finding → Type 0)
    (P : Finding → Sport → Option EvidenceLevel → Type 0) (silent_has : P silent a (some level))
    (refusal_has : (r : UnresolvedReason) → P (refusal r) a (some level))
    (ruling_has : (b : Sport) → b ≡ a → P (ruling b) a (some level))
    (other_has : (b : Sport) → b ≢ a → Q (ruling b)) where
  abbrev After : List Verdict → Finding → Type 0
  After rest third =
      (((best_of missing vs rest).sport ≡ unresolved) × Q third)
      ⊎ P third (best_of missing vs rest).sport (best_of missing vs rest).resolved_by

  by_rank :
      (v : Verdict) (rest : List Verdict) (third : Finding)
      → leb 3 (rank v.level) ≡ true
      → After (decides level a ∷ v ∷ rest) third
      → After (place_by_level (decides level a) (v ∷ rest)) third
  by_rank v rest third e h =
      subst (λ vs. After vs third) (sym (placed_first level a v rest is_first e)) h

  abbrev Won : Finding → Option Bool → Type 0
  Won third answer =
      (((won_by (decides level a) answer).sport ≡ unresolved) × Q third)
      ⊎ P third (won_by (decides level a) answer).sport
          (won_by (decides level a) answer).resolved_by

  wins :
      (third : Finding) (answer : Option Bool)
      → Answered answer
      → P third a (some level)
      → Won third answer
  wins third answer given_answer h =
      won (decides level a) a answer (Q third) (P third) given_answer refl h

  against :
      (b : Sport) (others marked : Option Bool) (same : Bool)
      → Answered others
      → same_sport b a ≡ same
      → Won
          (ruling b)
          (if same then others else if is_competition_level level || false then none else marked)
  against b others marked true given_answer e =
      wins (ruling b) others given_answer (ruling_has b (same_sport-eq b a e))
  against b others marked false given_answer e =
      subst (λ c. Won (ruling b) (if c || false then none else marked)) (sym is_first)
        (inl (
          refl,
          other_has b (λ k.
              let absurd : true ≡ false =
                sym (same_sport_refl a) ∙ ap (λ t. same_sport t a) (sym k) ∙ e in
              ground (arith, absurd)),
        ))

  decided_first :
      (third : Finding) (last : Option Sport)
      → After
          (by_level (
            decides level a
            ∷ filter is_decisive (given (said series_metadata third ∷ registry_says last ∷ []))))
          third
  decided_first silent none = wins silent (some false) tt silent_has
  decided_first silent (some c) =
      by_rank (decides series_registry c) [] silent refl
        (wins silent _ (registry-Answered (decides level a) c) silent_has)
  decided_first (refusal r) none = wins (refusal r) (some false) tt (refusal_has r)
  decided_first (refusal r) (some c) =
      by_rank (decides series_registry c) [] (refusal r) refl
        (wins (refusal r) _ (registry-Answered (decides level a) c) (refusal_has r))
  decided_first (ruling b) none =
      by_rank (decides series_metadata b) [] (ruling b) refl
        (against b (some false) (some true) (same_sport b a) tt refl)
  decided_first (ruling b) (some c) =
      by_rank (decides series_metadata b) (decides series_registry c ∷ []) (ruling b) refl (
        against b _ (with_conflict (overruled (decides level a) (decides series_registry c ∷ [])))
          (same_sport b a) (registry-Answered (decides level a) c) refl)

-- The series decides, or else the registry.
pub others_decide :
    (missing : UnresolvedReason) (third : Finding) (last : Option Sport)
    → Holds none none
        (said series_metadata third)
        (registry_says last)
        (decide missing none none (said series_metadata third) (registry_says last))
unfolding decide
others_decide missing silent none = inl (refl, no_sport tt)
others_decide missing silent (some c) = inr (tt, tt, tt, (refl, refl))
others_decide missing (refusal r) none = inl (refl, no_sport (refl, tt))
others_decide missing (refusal r) (some c) = inr (tt, tt, tt, (refl, refl))
others_decide missing (ruling b) none = inr (tt, tt, refl, (refl, refl))
others_decide missing (ruling b) (some c) =
    won (decides series_metadata b) b
      (overruled (decides series_metadata b) (decides series_registry c ∷ []))
      (Unsettled none none (some (decides series_metadata b)) (registry_says (some c)))
      (λ s by.
        IsSupported none none (some (decides series_metadata b)) (registry_says (some c)) s by)
      (registry-Answered (decides series_metadata b) c) refl (tt, tt, refl, (refl, refl))

-- The competition decides or refuses, or leaves the market to the series and the registry.
module _ (missing : UnresolvedReason) (third : Finding) (last : Option Sport) where
  abbrev said_third : Option Verdict
  said_third = said series_metadata third

  pub event_decides :
      (level : EvidenceLevel) (finding : Finding)
      → is_competition_level level ≡ true
      → Holds
          (said level finding)
          none
          said_third
          (registry_says last)
          (decide missing (said level finding) none said_third (registry_says last))
  unfolding decide
  event_decides level silent h = others_decide missing third last
  event_decides level (refusal r) h = inl (refl, refused_first refl)
  event_decides level (ruling a) h =
      decided_first level h missing
        (given (said level (ruling a) ∷ said_third ∷ registry_says last ∷ [])) a
        (λ f. Unsettled (said level (ruling a)) none (said series_metadata f) (registry_says last))
        (λ f s by.
          IsSupported (said level (ruling a)) none (said series_metadata f) (registry_says last) s
            by)
        (refl, tt, tt, (refl, refl)) (λ r. (refl, tt, tt, (refl, refl)))
        (λ b e. (refl, tt, e, (refl, refl))) (λ b k. opposed_first k) third last

  pub milestone_decides :
      (finding : Finding)
      → Holds none
          (said milestone finding)
          said_third
          (registry_says last)
          (decide missing none (said milestone finding) said_third (registry_says last))
  unfolding decide
  milestone_decides (refusal r) = inl (refl, refused_second refl)
  milestone_decides (ruling a) =
      decided_first milestone refl missing
        (given (said milestone (ruling a) ∷ said_third ∷ registry_says last ∷ [])) a
        (λ f.
          Unsettled none (said milestone (ruling a)) (said series_metadata f) (registry_says last))
        (λ f s by.
          IsSupported none (said milestone (ruling a)) (said series_metadata f) (registry_says last)
            s by)
        (tt, refl, tt, (refl, refl)) (λ r. (tt, refl, tt, (refl, refl)))
        (λ b e. (tt, refl, e, (refl, refl))) (λ b k. opposed_second k) third last
  milestone_decides silent = others_decide missing third last
