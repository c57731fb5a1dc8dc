-- ===== src/Destinations.antt =====
-- Destination profiles (kalshi_router/destinations.py): the record, and the paths it lets through.
-- `Profiles` is the table; `Prefixes` is about texts that start with others. The notes for a person are
-- left out. `mergeable_patterns` are regular expressions, given here as the sequence of their pieces.
pub mod Profiles
pub mod Prefixes
use Prim.Native.Char.{Char, code}
use Prim.Native.String.{[] as empty, ◌∷◌ as before}
use kalshi_bet_router.Base.{
  ℕ, zero, suc, String, Bool, true, false, Option, none, some, List, [], ◌∷◌, ◌&&◌, ◌||◌,
  if◌then◌else◌, leb, ◌==◌, is_some, any, contains,
}

pub data Sport : Type 0 where
  mlb nfl cfb nhl nba soccer tennis other unresolved : Sport

-- `sport.value`
abbrev pub value : Sport → String
value mlb = "MLB"
value nfl = "NFL"
value cfb = "CFB"
value nhl = "NHL"
value nba = "NBA"
value soccer = "SOCCER"
value tennis = "TENNIS"
value other = "OTHER"
value unresolved = "UNRESOLVED"

-- A piece of a pattern: a text, `\d{n}` or `[0-9a-f]{n}`.
pub data Piece : Type 0 where
  literal : String → Piece
  decimal_digits : ℕ → Piece
  hex_digits : ℕ → Piece

pub record DestinationProfile : Type 0 where
  pub sport : Sport
  pub repo : String
  pub ledger_branch : String
  pub code_branch : Option String
  pub wager_importer : List String
  pub settlement_importer : Option (List String)
  pub committable_prefixes : List String
  pub mergeable_paths : List String
  pub ledger_branch_runs_ci : Bool
  pub ledger_validator : Option (List String)
  pub row_identity_field : String
  pub requires_season : Bool
  pub auto_merge : Bool
  pub record_layout : String
  pub settlement_economics : String
  pub mergeable_patterns : List (List Piece)
  pub records_combo_wagers : Bool
  pub evidence_importer : Option (List String)
  pub evidence_ledger_path : Option String

-- What is left of a text after a prefix of it.
unfoldable pub strip_prefix : String → String → Option String
strip_prefix empty s = some s
strip_prefix (before c p) empty = none
strip_prefix (before c p) (before d s) = if code c == code d then strip_prefix p s else none

-- `s.startswith(p)`
unfoldable pub starts_with : String → String → Bool
unfolding strip_prefix
starts_with p s = is_some (strip_prefix p s)

-- What is left of a text after `n` characters of a class.
abbrev pub strip_class : (Char → Bool) → ℕ → String → Option String
strip_class is_in zero s = some s
strip_class is_in (suc n) empty = none
strip_class is_in (suc n) (before c s) = if is_in c then strip_class is_in n s else none

abbrev pub is_hex : Char → Bool
is_hex c = leb 48 (code c) && leb (code c) 57 || leb 97 (code c) && leb (code c) 102

abbrev pub is_empty_text : String → Bool
is_empty_text empty = true
is_empty_text (before c s) = false

-- `\d` takes the decimal digits of every script. They come from Python's character database, and
-- are a parameter here.
module _ (is_decimal : Char → Bool) where
  abbrev pub strip_piece : Piece → String → Option String
  unfolding strip_prefix
  strip_piece (literal t) s = strip_prefix t s
  strip_piece (decimal_digits n) s = strip_class is_decimal n s
  strip_piece (hex_digits n) s = strip_class is_hex n s

  -- `re.fullmatch(pattern, path)`
  unfoldable pub fullmatch : List Piece → String → Bool
  fullmatch [] s = is_empty_text s
  fullmatch (piece ∷ pieces) s = elim (strip_piece piece s) [
    | none ↦ false
    | some rest ↦ fullmatch pieces rest
  ]
