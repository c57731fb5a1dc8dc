-- ===== src/Classify/Words.antt =====
-- Texts as the classification reads them (kalshi_router/competitions.py, kalshi_router/classify.py).
use Prim.Native.Char.{code}
use Prim.Native.String.{[] as empty, ◌∷◌ as before, ◌++◌ as append}
use kalshi_bet_router.Base.{
  String, Bool, true, false, not, ◌&&◌, ◌||◌, Option, none, some, List, [], ◌∷◌, ℕ, if◌then◌else◌,
  leb, ◌==◌, any, is_space, is_blank,
}

-- `str.lower` and `str.upper`, by Python's character database.
pub record Letters : Type 0 where
  pub lower : String → String
  pub upper : String → String

-- `s.strip()`
unfoldable strip_start : String → String
strip_start empty = empty
strip_start (before c s) = if is_space (code c) then strip_start s else before c s

unfoldable strip_end : String → String
strip_end empty = empty
strip_end (before c s) = if is_blank (before c s) then empty else before c (strip_end s)

unfoldable pub strip : String → String
unfolding strip_start strip_end
strip s = strip_end (strip_start s)

-- `re.sub(r"\s+", " ", s)`, after a character that is a space or not.
unfoldable collapse : Bool → String → String
collapse after_space empty = empty
collapse after_space (before c s) =
    let again = collapse true s in
    let other = collapse false s in
    if is_space (code c) then if after_space then again else append " " again else before c other

-- `normalize(s)`
unfoldable pub normalize : Letters → String → String
unfolding collapse strip
normalize letters s = letters.lower (strip (collapse false s))

-- `[a-z0-9]`
abbrev is_word : ℕ → Bool
is_word c = leb 97 c && leb c 122 || leb 48 c && leb c 57

abbrev starts_word : String → Bool
starts_word empty = false
starts_word (before c s) = is_word (code c)

-- The token stands at the start of the text, and no `[a-z0-9]` follows it.
unfoldable begins : String → String → Bool
begins empty text = not (starts_word text)
begins (before d token) empty = false
begins (before d token) (before c text) = code c == code d && begins token text

unfoldable token_from : Bool → String → String → Bool
unfolding begins
token_from after_word token empty = false
token_from after_word token (before c text) =
    not after_word && begins token (before c text) || token_from (is_word (code c)) token text

-- `_has_token(text, token)` and `_contains(text, token)`; no token is empty.
unfoldable pub has_token : String → String → Bool
unfolding token_from
has_token text token = token_from false token text

abbrev pub has_any : String → List String → Bool
has_any text tokens = any (λ token. has_token text token) tokens

-- The first of the tokens that the text has.
abbrev pub first_token : String → List String → Option String
first_token text [] = none
first_token text (token ∷ tokens) =
    if has_token text token then some token else first_token text tokens

-- `not s`
abbrev pub is_empty_string : String → Bool
is_empty_string empty = true
is_empty_string (before c s) = false

-- `s.split("-", 1)[0]`, and `"-" in s`
abbrev pub has_dash : String → Bool
has_dash empty = false
has_dash (before c s) = code c == 45 || has_dash s

abbrev pub before_dash : String → String
before_dash empty = empty
before_dash (before c s) = if code c == 45 then empty else before c (before_dash s)
