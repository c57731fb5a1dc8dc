-- ===== src/Gate/Branches.antt =====
-- The branches that the router may own (kalshi_router/automerge.py, `router_branches`), and those that
-- `evaluate` lands.
use Prim.Native.Char.{Char}
use kalshi_bet_router.Base.{
  Bool-cases, String, Bool, true, false, Option, none, some, List, [], ◌∷◌, ◌++◌, ◌≡◌, refl, sym,
  ap, ◌∙◌, ◌⊎◌, inl, inr, ◌||◌, if◌then◌else◌, is_some, map, filter, contains, concat, str_eq,
  str_eq_iff, Result, ok, err, arith, not, value_error,
}
use kalshi_bet_router.Destinations.{DestinationProfile, value}
use kalshi_bet_router.Destinations.Profiles.{profiles, find_profile, profile_for}
use kalshi_bet_router.Gate.{wagers, settlements, router_branch_for, MergeFacts, MergeVerdict, merge}
use kalshi_bet_router.Gate.Verdict.{evaluate}
use kalshi_bet_router.Gate.Approved.{evaluate-Approved}
use kalshi_bet_router.Gate.Contained.{evaluate-committable}

abbrev pub wager_branch : String → String
wager_branch sport = concat ("kalshi-router/" ∷ sport ∷ [])

abbrev pub settlement_branch : String → String
settlement_branch sport = concat ("kalshi-router/settle-" ∷ sport ∷ [])

-- `router_branches`; a repository is listed for every profile.
unfoldable pub router_branches : List String
router_branches =
    map (λ (p : DestinationProfile). wager_branch (value p.sport)) profiles
    ++ map (λ (p : DestinationProfile). settlement_branch (value p.sport))
        (filter (λ (p : DestinationProfile). is_some p.settlement_importer) profiles)

-- Whether the destination of a sport takes settlements from the router.
unfoldable pub takes_settlements : Option DestinationProfile → Bool
takes_settlements none = false
takes_settlements (some profile) = is_some profile.settlement_importer

later_one : (a : Bool) {b : Bool} → b ≡ true → a || b ≡ true
later_one true e = refl
later_one false e = e

contains-append_left :
    (s : String) (xs ys : List String) → contains s xs ≡ true → contains s (xs ++ ys) ≡ true
contains-append_left s [] ys h = ground arith
contains-append_left s (x ∷ xs) ys h = go (str_eq x s) (λ k. contains-append_left s xs ys k) h
  where
    go :
        (here : Bool)
        → (contains s xs ≡ true → contains s (xs ++ ys) ≡ true)
        → here || contains s xs ≡ true
        → here || contains s (xs ++ ys) ≡ true
    go true ih k = refl
    go false ih k = ih k

contains-append_right :
    (s : String) (xs ys : List String) → contains s ys ≡ true → contains s (xs ++ ys) ≡ true
contains-append_right s [] ys h = h
contains-append_right s (x ∷ xs) ys h = go (str_eq x s) (contains-append_right s xs ys h)
  where
    go : (here : Bool) → contains s (xs ++ ys) ≡ true → here || contains s (xs ++ ys) ≡ true
    go true e = refl
    go false e = e

-- A sport that the table knows has its branch among those of the table.
module _ (name : String → String) where
  names : List DestinationProfile → List String
  names table = map (λ (p : DestinationProfile). name (value p.sport)) table

  contains-names :
      (table : List DestinationProfile) (sport : String)
      → is_some (find_profile table sport) ≡ true
      → contains (name sport) (names table) ≡ true
  unfolding names
  contains-names [] sport h = ground arith
  contains-names (p ∷ table) sport h =
      go (str_eq (value p.sport) sport) refl (λ k. contains-names table sport k) h
    where
      go :
          (here : Bool)
          → str_eq (value p.sport) sport ≡ here
          → (is_some (find_profile table sport) ≡ true → contains (name sport) (names table) ≡ true)
          → is_some (if here then some p else find_profile table sport) ≡ true
          → str_eq (name (value p.sport)) (name sport) || contains (name sport) (names table) ≡ true
      go true e ih k =
          ap (λ b. b || contains (name sport) (names table))
            ((str_eq_iff (name (value p.sport)) (name sport)).1
              (ap name ((str_eq_iff (value p.sport) sport).0 e)))
      go false e ih k = later_one (str_eq (name (value p.sport)) (name sport)) (ih k)

takers : List DestinationProfile → List DestinationProfile
takers table = filter (λ (p : DestinationProfile). is_some p.settlement_importer) table

contains-takers :
    (table : List DestinationProfile) (sport : String)
    → takes_settlements (find_profile table sport) ≡ true
    → contains (settlement_branch sport) (names settlement_branch (takers table)) ≡ true
unfolding takes_settlements names takers
contains-takers [] sport h = ground arith
contains-takers (p ∷ table) sport h =
    go (str_eq (value p.sport) sport) (is_some p.settlement_importer) refl refl
      (λ k. contains-takers table sport k) h
  where
    rest : List String
    rest = names settlement_branch (takers table)

    go :
        (here takes : Bool)
        → str_eq (value p.sport) sport ≡ here
        → is_some p.settlement_importer ≡ takes
        → (takes_settlements (find_profile table sport) ≡ true
            → contains (settlement_branch sport) rest ≡ true)
        → takes_settlements (if here then some p else find_profile table sport) ≡ true
        → contains
            (settlement_branch sport)
            (names settlement_branch (if takes then p ∷ takers table else takers table))
          ≡ true
    go true true e t ih k =
        ap (λ b. b || contains (settlement_branch sport) rest)
          ((str_eq_iff (settlement_branch (value p.sport)) (settlement_branch sport)).1
            (ap settlement_branch ((str_eq_iff (value p.sport) sport).0 e)))
    go true false e t ih k = ground arith
    go false true e t ih k =
        later_one (str_eq (settlement_branch (value p.sport)) (settlement_branch sport)) (ih k)
    go false false e t ih k = ih k

-- What `router_branch_for` names.
router_branch_for-names :
    (sport kind branch : String)
    → router_branch_for sport kind ≡ ok branch
    → ((kind ≡ wagers) × (branch ≡ wager_branch sport))
      ⊎ ((kind ≡ settlements) × (branch ≡ settlement_branch sport))
unfolding router_branch_for
router_branch_for-names sport kind branch h =
    go (str_eq "wagers" kind) (str_eq "settlements" kind) refl refl h
  where
    named : Result String → String
    named (ok b) = b
    named (err e) = branch

    prefixed : Bool → String
    prefixed is_wagers =
        concat ((if is_wagers then "kalshi-router/" else "kalshi-router/settle-") ∷ sport ∷ [])

    go :
        (first second : Bool)
        → str_eq "wagers" kind ≡ first
        → str_eq "settlements" kind ≡ second
        → (if not (first || (second || false))
            then err value_error
            else ok (prefixed (str_eq kind wagers)))
          ≡ ok branch
        → ((kind ≡ wagers) × (branch ≡ wager_branch sport))
          ⊎ ((kind ≡ settlements) × (branch ≡ settlement_branch sport))
    go true second e f k =
        let same = sym ((str_eq_iff "wagers" kind).0 e) in
        inl (same, sym (ap named k) ∙ ap prefixed (ap (λ t. str_eq t wagers) same))
    go false true e f k =
        let same = sym ((str_eq_iff "settlements" kind).0 f) in
        inr (same, sym (ap named k) ∙ ap prefixed (ap (λ t. str_eq t wagers) same))
    go false false e f k = ground arith

-- Where `evaluate` says MERGE, the head is a branch of `router_branches`, or that of the settlements of
-- a destination that takes none from the router, which `evaluate` does not look at.
pub evaluate-branches :
    (is_decimal : Char → Bool) (facts : MergeFacts) (v : MergeVerdict)
    → evaluate is_decimal facts ≡ ok v
    → v.verdict ≡ merge
    → (branch : String) × (facts.head_ref ≡ some branch)
      × ((contains branch router_branches ≡ true)
          ⊎ ((facts.branch_kind ≡ settlements)
              × (takes_settlements (profile_for facts.sport) ≡ false)))
unfolding router_branches profile_for names takers
evaluate-branches is_decimal facts v e m =
    let approved = evaluate-Approved is_decimal facts v e m in
    let listed = (evaluate-committable is_decimal facts v e m).0 in
    (
      approved.0,
      approved.2.3,
      elim (router_branch_for-names facts.sport facts.branch_kind approved.0 approved.1) [
        | inl (k, b) ↦ inl (
            ap (λ s. contains s router_branches) b
            ∙ contains-append_left (wager_branch facts.sport) (names wager_branch profiles)
                (names settlement_branch (takers profiles))
                (contains-names wager_branch profiles facts.sport listed))
        | inr (k, b) ↦ elim (Bool-cases (takes_settlements (profile_for facts.sport))) [
          | inl t ↦ inl (
              ap (λ s. contains s router_branches) b
              ∙ contains-append_right (settlement_branch facts.sport) (names wager_branch profiles)
                  (names settlement_branch (takers profiles))
                  (contains-takers profiles facts.sport t))
          | inr t ↦ inr (k, t)
        ]
      ],
    )
