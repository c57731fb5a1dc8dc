-- ===== src/Gate/Contained.antt =====
-- What may land unread lies where the router may commit.
use Prim.Native.Char.{Char}
use kalshi_bet_router.Base.{
  String, Bool, true, false, Option, none, some, List, [], ◌∷◌, ◌≡◌, refl, ◌⊎◌, inl, inr, ◌||◌,
  ◌&&◌, any, all, All, contains, str_eq, ok, arith, is_some, is_empty, str, if◌then◌else◌,
}
use kalshi_bet_router.Destinations.{
  DestinationProfile, value, Piece, literal, decimal_digits, hex_digits, starts_with, strip_prefix,
  fullmatch,
}
use kalshi_bet_router.Destinations.Profiles.{profiles, find_profile, profile_for, season_files}
use kalshi_bet_router.Destinations.Prefixes.{
  fullmatch-starts_with, starts_with_trans, all-contains, all_cons,
}
use kalshi_bet_router.Gate.{MergeFacts, MergeVerdict, merge}
use kalshi_bet_router.Gate.Paths.{is_mergeable_path, is_committable_path, lets_through, prefixes_of}
use kalshi_bet_router.Gate.Verdict.{evaluate}
use kalshi_bet_router.Gate.Approved.{evaluate-Approved}
use kalshi_bet_router.Gate.Passed.{All-map}

-- A text that starts with one of the prefixes.
abbrev under : List String → String → Bool
under prefixes path = any (λ prefix. starts_with prefix path) prefixes

-- The pattern starts with a text that is under one of the prefixes.
abbrev pattern_under : List String → List Piece → Bool
pattern_under prefixes (literal t ∷ pieces) = under prefixes t
pattern_under prefixes _ = false

abbrev is_contained : DestinationProfile → Bool
is_contained profile =
    all (under profile.committable_prefixes) profile.mergeable_paths
    && all (pattern_under profile.committable_prefixes) profile.mergeable_patterns

either : (a b : Bool) → (a || b) ≡ true → (a ≡ true) ⊎ (b ≡ true)
either true b h = inl refl
either false b h = inr h

first : (a b : Bool) → a ≡ true → (a || b) ≡ true
first a b h = ground arith

later : (a b : Bool) → b ≡ true → (a || b) ≡ true
later a b h = ground arith

-- Only a sport with a profile has files that may land.
known :
    (is_decimal : Char → Bool) (sport path : String)
    → is_mergeable_path is_decimal sport path ≡ true
    → is_some (profile_for sport) ≡ true
unfolding is_mergeable_path lets_through
known is_decimal sport path h = go (profile_for sport) h
  where
    go :
        (found : Option DestinationProfile)
        → lets_through is_decimal found path ≡ true
        → is_some found ≡ true
    go none k = ground arith
    go (some profile) k = refl

under_trans :
    (prefixes : List String) (t s : String)
    → under prefixes t ≡ true
    → starts_with t s ≡ true
    → under prefixes s ≡ true
under_trans [] t s h k = ground arith
under_trans (p ∷ ps) t s h k = elim (either (starts_with p t) (under ps t) h) [
  | inl e ↦ first (starts_with p s) (under ps s) (starts_with_trans p t s e k)
  | inr e ↦ later (starts_with p s) (under ps s) (under_trans ps t s e k)
]

module _ (is_decimal : Char → Bool) where
  -- A path that a pattern matches is under the prefixes that the pattern is under.
  pattern-under :
      (prefixes : List String) (pattern : List Piece) (s : String)
      → pattern_under prefixes pattern ≡ true
      → fullmatch is_decimal pattern s ≡ true
      → under prefixes s ≡ true
  pattern-under prefixes [] s h k = ground arith
  pattern-under prefixes (decimal_digits n ∷ pieces) s h k = ground arith
  pattern-under prefixes (hex_digits n ∷ pieces) s h k = ground arith
  pattern-under prefixes (literal t ∷ pieces) s h k =
      under_trans prefixes t s h (fullmatch-starts_with is_decimal t pieces s k)

  matched-under :
      (prefixes : List String) (patterns : List (List Piece)) (s : String)
      → all (pattern_under prefixes) patterns ≡ true
      → any (λ pattern. fullmatch is_decimal pattern s) patterns ≡ true
      → under prefixes s ≡ true
  matched-under prefixes [] s h k = ground arith
  matched-under prefixes (pattern ∷ patterns) s h k =
      let split =
        all_cons (pattern_under prefixes pattern) (all (pattern_under prefixes) patterns) h in
      elim (either (fullmatch is_decimal pattern s)
        (any (λ following. fullmatch is_decimal following s) patterns) k) [
          | inl e ↦ pattern-under prefixes pattern s split.0 e
          | inr e ↦ matched-under prefixes patterns s split.1 e
        ]

  lets_through-under :
      (profile : DestinationProfile) (path : String)
      → is_contained profile ≡ true
      → lets_through is_decimal (some profile) path ≡ true
      → under profile.committable_prefixes path ≡ true
  unfolding lets_through
  lets_through-under profile path h k =
      let prefixes = profile.committable_prefixes in
      let split =
        all_cons (all (under prefixes) profile.mergeable_paths)
          (all (pattern_under prefixes) profile.mergeable_patterns) h in
      elim (either (contains path profile.mergeable_paths)
        (any (λ pattern. fullmatch is_decimal pattern path) profile.mergeable_patterns) k) [
          | inl e ↦ all-contains (under prefixes) path profile.mergeable_paths split.0 e
          | inr e ↦ matched-under prefixes profile.mergeable_patterns path split.1 e
        ]

  found-under :
      (table : List DestinationProfile) (sport path : String)
      → all is_contained table ≡ true
      → lets_through is_decimal (find_profile table sport) path ≡ true
      → under (prefixes_of (find_profile table sport)) path ≡ true
  unfolding lets_through
  found-under [] sport path h k = ground arith
  found-under (profile ∷ table) sport path h k =
      let split = all_cons (is_contained profile) (all is_contained table) h in
      go (str_eq (value profile.sport) sport) split.0 (λ m. found-under table sport path split.1 m)
        k
    where
      go :
          (here : Bool)
          → is_contained profile ≡ true
          → (lets_through is_decimal (find_profile table sport) path ≡ true
              → under (prefixes_of (find_profile table sport)) path ≡ true)
          → lets_through is_decimal (if here then some profile else find_profile table sport) path
            ≡ true
          → under (prefixes_of (if here then some profile else find_profile table sport)) path
            ≡ true
      go true a b k = lets_through-under profile path a k
      go false a b k = b k

profiles-contained : all is_contained profiles ≡ true
unfolding profiles starts_with strip_prefix season_files str
profiles-contained = refl

-- A file that may land unread is a file that a commit of the router may touch, for every sport.
pub is_mergeable_path-committable :
    (is_decimal : Char → Bool) (sport path : String)
    → is_mergeable_path is_decimal sport path ≡ true
    → is_committable_path sport path ≡ true
unfolding is_mergeable_path is_committable_path profile_for
is_mergeable_path-committable is_decimal sport path h =
    found-under is_decimal profiles sport path profiles-contained h

-- Where `evaluate` says MERGE, the sport has a profile, and every file that the pull request changes is
-- under a prefix that a commit of the router may touch.
pub evaluate-committable :
    (is_decimal : Char → Bool) (facts : MergeFacts) (v : MergeVerdict)
    → evaluate is_decimal facts ≡ ok v
    → v.verdict ≡ merge
    → (is_some (profile_for facts.sport) ≡ true)
      × All (λ path. is_committable_path facts.sport path ≡ true) facts.changed_files
evaluate-committable is_decimal facts v e m =
    let approved = evaluate-Approved is_decimal facts v e m in
    let appends = approved.6 in
    (
      go facts.changed_files appends.0 appends.1,
      All-map _ _ facts.changed_files
          (λ path h. is_mergeable_path-committable is_decimal facts.sport path h) appends.1,
    )
  where
    go :
        (files : List String)
        → is_empty files ≡ false
        → All (λ path. is_mergeable_path is_decimal facts.sport path ≡ true) files
        → is_some (profile_for facts.sport) ≡ true
    go [] n h = ground arith
    go (file ∷ files) n h = known is_decimal facts.sport file h.0
