-- ===== src/Destinations/Prefixes.antt =====
-- Texts that start with others: what a pattern or a table of paths says about a path.
use Prim.Native.Char.{Char, code}
use Prim.Native.String.{[] as empty, ◌∷◌ as before}
use kalshi_bet_router.Base.{
  ℕ, String, Bool, true, false, Option, none, some, List, [], ◌∷◌, ◌≡◌, refl, subst, inl, inr, ◌==◌,
  ◌&&◌, ◌||◌, if◌then◌else◌, is_some, all, contains, str_eq, str_eq_iff, Bool-cases, arith,
}
use kalshi_bet_router.Destinations.{strip_prefix, starts_with, Piece, literal, fullmatch}

-- The test of a first character, undone.
same_first :
    (a b : ℕ) (o : Option String)
    → is_some (if a == b then o else none) ≡ true
    → (a ≡ b) × (is_some o ≡ true)
same_first a b o h = ground arith

joined :
    (a b c : ℕ) (o : Option String)
    → a ≡ b
    → b ≡ c
    → is_some o ≡ true
    → is_some (if a == c then o else none) ≡ true
joined a b c o p q h = ground arith

pub starts_with_trans :
    (p t s : String) → starts_with p t ≡ true → starts_with t s ≡ true → starts_with p s ≡ true
unfolding starts_with strip_prefix
starts_with_trans empty t s h k = refl
starts_with_trans (before c p) empty s h k = ground arith
starts_with_trans (before c p) (before d t) empty h k = ground arith
starts_with_trans (before c p) (before d t) (before e s) h k =
    let first = same_first (code c) (code d) (strip_prefix p t) h in
    let second = same_first (code d) (code e) (strip_prefix t s) k in
    joined (code c) (code d) (code e) (strip_prefix p s) first.0 second.0
      (starts_with_trans p t s first.1 second.1)

-- A path that a pattern matches starts with the literal that the pattern starts with.
pub fullmatch-starts_with :
    (is_decimal : Char → Bool) (t : String) (pieces : List Piece) (s : String)
    → fullmatch is_decimal (literal t ∷ pieces) s ≡ true
    → starts_with t s ≡ true
unfolding fullmatch starts_with strip_prefix
fullmatch-starts_with is_decimal t pieces s h = go (strip_prefix t s) h
  where
    go :
        (o : Option String)
        → elim o [ none ↦ false | some rest ↦ fullmatch is_decimal pieces rest ] ≡ true
        → is_some o ≡ true
    go none k = k
    go (some rest) k = refl

pub all_cons : (a b : Bool) → (a && b) ≡ true → (a ≡ true) × (b ≡ true)
all_cons a b h = ground arith

any_rest : (a b : Bool) → a ≡ false → (a || b) ≡ true → b ≡ true
any_rest a b e h = ground arith

pub all-contains :
    (p : String → Bool) (s : String) (xs : List String)
    → all p xs ≡ true
    → contains s xs ≡ true
    → p s ≡ true
all-contains p s [] h k = ground arith
all-contains p s (x ∷ xs) h k =
    let split = all_cons (p x) (all p xs) h in
    elim (Bool-cases (str_eq x s)) [
      | inl e ↦ subst (λ t. p t ≡ true) ((str_eq_iff x s).0 e) split.0
      | inr e ↦ all-contains p s xs split.1 (any_rest (str_eq x s) (contains s xs) e k)
    ]
